-- ===== src/Events/Supplant.antt =====
-- `supplant` puts a node of the right subtree in the place of the node that goes.
use flurry.Prelude.{ℕ, ◌+◌, ◌<◌, ◌≤◌, ◌≡◌, ◌≢◌, ◌∙◌, refl, sym, arith}
use flurry.Prelude.Memory.{write, write_self, write_ne}
use flurry.Events.{Links, set_parent, bst_transplant, supplant}
use flurry.Events.Shape.{
  Tree, node, Ctx, count, count_ctx, one_if, Rep, RepCtx, apart, apart_ctx, Rep-frame, RepCtx-frame,
  Rep-rehang, Rep-zero,
}
use flurry.Events.Hang.{
  Hung, bst_transplant-Hung, set_parent-left, set_parent-right, set_parent-root, set_parent_ne,
  set_parent_self,
}
use flurry.Events.Placed.{Placed, RepCtx-zero, root_out}

-- A node ready to take another's place: it has its right subtree, the other its left one, and each is
-- apart from the rest.
pub record Ready (l : Links) (u y par : ℕ) (tl tr : Tree) (c : Ctx) : Type 0 where
  pub pos_u : 0 < u
  pub pos_y : 0 < y
  pub ctx : RepCtx l u (l.parent u) c
  pub low : Rep l (l.left u) u tl
  pub high : Rep l (l.right y) y tr
  pub once : (x : ℕ) → count x tl + one_if x u + one_if x y + count x tr + count_ctx x c ≤ 1

module _ (l : Links) (u y par : ℕ) (tl tr : Tree) (c : Ctx) (h : Ready l u y par tl tr c) where
  Hung-y : Hung l (bst_transplant u y l) u y c
  Hung-y =
      bst_transplant-Hung l u y c h.ctx h.pos_u (ground (arith, h.once u))
        (ground (arith, h.once y)) (λ x. omega (arith, h.once x))

  -- The root of the left subtree is in nothing else.
  low_root_out :
      (f : ℕ → ℕ)
      → ((x : ℕ) → f x ≤ one_if x u + one_if x y + count x tr + count_ctx x c)
      → f 0 ≡ 0
      → f (l.left u) ≡ 0
  low_root_out f part zero_out =
      root_out l (l.left u) u tl f h.low (λ x. omega (arith, part x, h.once x)) zero_out

  supplanted : Links
  supplanted =
      set_parent (l.left u) y
        (record (bst_transplant u y l) { left = write (bst_transplant u y l).left y (l.left u) })

  supplant-eq : supplant u y l ≡ supplanted
  unfolding supplant supplanted
  supplant-eq = rw (Hung-y.left u (ground (arith, h.once u))) refl

  supplanted-left : (x : ℕ) → x ≢ y → supplanted.left x ≡ (bst_transplant u y l).left x
  unfolding supplanted
  supplanted-left x ne =
      set_parent-left (l.left u) y x _ ∙ write_ne (bst_transplant u y l).left y (l.left u) x ne

  supplanted-left_y : supplanted.left y ≡ l.left u
  unfolding supplanted
  supplanted-left_y =
      set_parent-left (l.left u) y y _ ∙ write_self (bst_transplant u y l).left y (l.left u)

  supplanted-right : (x : ℕ) → supplanted.right x ≡ (bst_transplant u y l).right x
  unfolding supplanted
  supplanted-right x = set_parent-right (l.left u) y x _

  supplanted-parent : (x : ℕ) → x ≢ l.left u → supplanted.parent x ≡ (bst_transplant u y l).parent x
  unfolding supplanted
  supplanted-parent x ne = set_parent_ne (l.left u) y x _ ne

  supplanted-parent_low : 0 < l.left u → supplanted.parent (l.left u) ≡ y
  unfolding supplanted
  supplanted-parent_low pos = set_parent_self (l.left u) y _ pos

  supplanted-root : supplanted.root ≡ (bst_transplant u y l).root
  unfolding supplanted
  supplanted-root = set_parent-root (l.left u) y _

  ctx_zero : count_ctx 0 c ≡ 0
  ctx_zero = RepCtx-zero l u (l.parent u) c h.ctx

  tr_zero : count 0 tr ≡ 0
  tr_zero = Rep-zero l (l.right y) y tr h.high

  low_not_y : l.left u ≢ y
  low_not_y =
      let out = low_root_out (λ x. one_if x y) (λ x. omega arith) (ground (arith, h.pos_y)) in
      ground arith

  supplanted-RepCtx : RepCtx supplanted y (l.parent u) c
  supplanted-RepCtx =
      RepCtx-frame (bst_transplant u y l) supplanted y (l.parent u) c Hung-y.ctx supplanted-root
        λ x some.
          let x_not_y : x ≢ y = apart_ctx c x y some (ground (arith, h.once y)) in
          let x_not_low : x ≢ l.left u =
            apart_ctx c x (l.left u) some
              (low_root_out (λ w. count_ctx w c) (λ w. omega arith) ctx_zero) in
          record {
            left = supplanted-left x x_not_y;
            right = supplanted-right x;
            parent = supplanted-parent x x_not_low;
          }

  supplanted-low : Rep supplanted (l.left u) y tl
  supplanted-low =
      Rep-rehang l supplanted (l.left u) u y tl h.low (λ x. omega (arith, h.once x))
        (λ x some.
          let off : count_ctx x c ≡ 0 = omega (arith, h.once x) in
          let x_not_y : x ≢ y = apart tl x y some (ground (arith, h.once y)) in
          (supplanted-left x x_not_y ∙ Hung-y.left x off, supplanted-right x ∙ Hung-y.right x off))
        (λ x some ne.
          let x_not_y : x ≢ y = apart tl x y some (ground (arith, h.once y)) in
          supplanted-parent x ne ∙ Hung-y.parent x x_not_y)
        supplanted-parent_low

  supplanted-high : Rep supplanted (l.right y) y tr
  supplanted-high = Rep-frame l supplanted (l.right y) y tr h.high λ x some.
      let off : count_ctx x c ≡ 0 = omega (arith, h.once x) in
      let x_not_y : x ≢ y = apart tr x y some (ground (arith, h.once y)) in
      let x_not_low : x ≢ l.left u =
        apart tr x (l.left u) some (low_root_out (λ w. count w tr) (λ w. omega arith) tr_zero) in
      record {
        left = supplanted-left x x_not_y ∙ Hung-y.left x off;
        right = supplanted-right x ∙ Hung-y.right x off;
        parent = supplanted-parent x x_not_low ∙ Hung-y.parent x x_not_y;
      }

  pub supplant-Placed : Placed (supplant u y l) y (l.parent u) (node tl y tr) c
  supplant-Placed =
      let off : count_ctx y c ≡ 0 = ground (arith, h.once y) in
      rw supplant-eq (record {
        ctx = supplanted-RepCtx;
        tree = (
          refl,
          h.pos_y,
          supplanted-parent y (λ e. low_not_y (sym e)) ∙ Hung-y.hung h.pos_y,
          rw supplanted-left_y supplanted-low,
          rw (supplanted-right y, Hung-y.right y off) supplanted-high,
        );
        once = λ x. omega (arith, h.once x);
      })
