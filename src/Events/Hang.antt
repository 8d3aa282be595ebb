-- ===== src/Events/Hang.antt =====
-- `bst_transplant` puts another tree in the place of a node's.
use flurry.Prelude.{
  ℕ, ◌+◌, ◌<◌, ◌≤◌, ◌≡◌, ◌≢◌, ◌∙◌, refl, sym, ap, Bool-cases, inl, inr, ◌==◌, arith, ==_refl, ne→==,
}
use flurry.Prelude.Memory.{write, write_self, write_ne}
use flurry.Events.{Links, set_parent, bst_transplant}
use flurry.Events.Shape.{
  Ctx, top, go_left, go_right, count, count_ctx, RepCtx, Agree, Rep-frame, RepCtx-frame,
  Rep-root-ne,
}

pub set_parent-left : (v p x : ℕ) (l : Links) → (set_parent v p l).left x ≡ l.left x
unfolding set_parent
set_parent-left v p x l = elim (Bool-cases (v == 0)) [ inl e ↦ rw e refl | inr e ↦ rw e refl ]

pub set_parent-right : (v p x : ℕ) (l : Links) → (set_parent v p l).right x ≡ l.right x
unfolding set_parent
set_parent-right v p x l = elim (Bool-cases (v == 0)) [ inl e ↦ rw e refl | inr e ↦ rw e refl ]

pub set_parent-root : (v p : ℕ) (l : Links) → (set_parent v p l).root ≡ l.root
unfolding set_parent
set_parent-root v p l = elim (Bool-cases (v == 0)) [ inl e ↦ rw e refl | inr e ↦ rw e refl ]

pub set_parent_ne : (v p x : ℕ) (l : Links) → x ≢ v → (set_parent v p l).parent x ≡ l.parent x
unfolding set_parent
set_parent_ne v p x l h = elim (Bool-cases (v == 0)) [
  | inl e ↦ rw e refl
  | inr e ↦ rw e (write_ne l.parent v p x h)
]

pub set_parent_self : (v p : ℕ) (l : Links) → 0 < v → (set_parent v p l).parent v ≡ p
unfolding set_parent
set_parent_self v p l h = rw (ne→== v 0 (omega arith)) (write_self l.parent v p)

-- The links after the tree at `v` was hung in the place of `u` in the context.
pub record Hung (l l' : Links) (u v : ℕ) (c : Ctx) : Type 0 where
  pub ctx : RepCtx l' v (l.parent u) c
  pub left : (x : ℕ) → count_ctx x c ≡ 0 → l'.left x ≡ l.left x
  pub right : (x : ℕ) → count_ctx x c ≡ 0 → l'.right x ≡ l.right x
  pub parent : (x : ℕ) → x ≢ v → l'.parent x ≡ l.parent x
  pub hung : 0 < v → l'.parent v ≡ l.parent u

module _ (l : Links) (u v : ℕ) where
  at_top : l.parent u ≡ 0 → bst_transplant u v l ≡ set_parent v (l.parent u) (record l { root = v })
  unfolding bst_transplant
  at_top h = rw h refl

  at_left :
      (a : ℕ)
      → l.parent u ≡ a
      → 0 < a
      → l.left a ≡ u
      → bst_transplant u v l ≡ set_parent v a (record l { left = write l.left a v })
  unfolding bst_transplant
  at_left a up pos down = rw (up, ne→== a 0 (omega arith), down, ==_refl u) refl

  at_right :
      (a : ℕ)
      → l.parent u ≡ a
      → 0 < a
      → l.left a ≢ u
      → bst_transplant u v l ≡ set_parent v a (record l { right = write l.right a v })
  unfolding bst_transplant
  at_right a up pos other =
      rw (up, ne→== a 0 (omega arith), ne→== u (l.left a) (λ e. other (sym e))) refl

  left-Agree :
      (a x : ℕ) → x ≢ a → x ≢ v → Agree l (set_parent v a (record l { left = write l.left a v })) x
  left-Agree a x off off_v = record {
    left = set_parent-left v a x _ ∙ write_ne l.left a v x off;
    right = set_parent-right v a x _;
    parent = set_parent_ne v a x _ off_v;
  }

  right-Agree :
      (a x : ℕ)
      → x ≢ a
      → x ≢ v
      → Agree l (set_parent v a (record l { right = write l.right a v })) x
  right-Agree a x off off_v = record {
    left = set_parent-left v a x _;
    right = set_parent-right v a x _ ∙ write_ne l.right a v x off;
    parent = set_parent_ne v a x _ off_v;
  }

  pub bst_transplant-Hung :
      (c : Ctx)
      → RepCtx l u (l.parent u) c
      → 0 < u
      → count_ctx u c ≡ 0
      → count_ctx v c ≡ 0
      → ((x : ℕ) → count_ctx x c ≤ 1)
      → Hung l (bst_transplant u v l) u v c
  bst_transplant-Hung top r pos u_out v_out once = rw (at_top r.1) (record {
    ctx = (set_parent-root v (l.parent u) (record l { root = v }), r.1);
    left = λ x h. set_parent-left v (l.parent u) x (record l { root = v });
    right = λ x h. set_parent-right v (l.parent u) x (record l { root = v });
    parent = λ x h. set_parent_ne v (l.parent u) x (record l { root = v }) h;
    hung = λ h. set_parent_self v (l.parent u) (record l { root = v }) h;
  })
  bst_transplant-Hung (go_left c a t) r pos u_out v_out once =
      let l' = set_parent v a (record l { left = write l.left a v }) in
      let out : count_ctx a c + count a t ≡ 0 = ground (arith, once a) in
      let agree : (x : ℕ) → 0 < count_ctx x c + count x t → Agree l l' x = λ x h.
        left-Agree a x (λ e. omega (arith, out, ap (λ w. count_ctx w c + count w t) e))
          (λ e. ground (arith, v_out, ap (λ w. count_ctx w c + count w t) e)) in
      let v_ne : a ≢ v = ground arith in
      rw (at_left a r.0 r.1 r.2) (record {
        ctx = (
          r.0,
          r.1,
          set_parent-left v a a _ ∙ write_self l.left a v,
          rw (set_parent-right v a a (record l { left = write l.left a v }))
              (Rep-frame l l' (l.right a) a t r.3 (λ x h. agree x (omega arith))),
          rw (set_parent_ne v a a (record l { left = write l.left a v }) v_ne) (
              RepCtx-frame l l' a (l.parent a) c r.4 (set_parent-root v a _)
                (λ x h. agree x (omega arith))),
        );
        left = λ x h. set_parent-left v a x _ ∙ write_ne l.left a v x (ground arith);
        right = λ x h. set_parent-right v a x _;
        parent = λ x h. set_parent_ne v a x _ h;
        hung = λ h. set_parent_self v a _ h ∙ sym r.0;
      })
  bst_transplant-Hung (go_right c t a) r pos u_out v_out once =
      let l' = set_parent v a (record l { right = write l.right a v }) in
      let out : count_ctx a c + count a t ≡ 0 = ground (arith, once a) in
      let agree : (x : ℕ) → 0 < count_ctx x c + count x t → Agree l l' x = λ x h.
        right-Agree a x (λ e. omega (arith, out, ap (λ w. count_ctx w c + count w t) e))
          (λ e. ground (arith, v_out, ap (λ w. count_ctx w c + count w t) e)) in
      let v_ne : a ≢ v = ground arith in
      let other : l.left a ≢ u = Rep-root-ne l (l.left a) a u t r.3 pos (ground arith) in
      rw (at_right a r.0 r.1 other) (record {
        ctx = (
          r.0,
          r.1,
          set_parent-right v a a _ ∙ write_self l.right a v,
          rw (set_parent-left v a a (record l { right = write l.right a v }))
              (Rep-frame l l' (l.left a) a t r.3 (λ x h. agree x (omega arith))),
          rw (set_parent_ne v a a (record l { right = write l.right a v }) v_ne) (
              RepCtx-frame l l' a (l.parent a) c r.4 (set_parent-root v a _)
                (λ x h. agree x (omega arith))),
        );
        left = λ x h. set_parent-left v a x _;
        right = λ x h. set_parent-right v a x _ ∙ write_ne l.right a v x (ground arith);
        parent = λ x h. set_parent_ne v a x _ h;
        hung = λ h. set_parent_self v a _ h ∙ sym r.0;
      })
