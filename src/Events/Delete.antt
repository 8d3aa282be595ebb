-- ===== src/Events/Delete.antt =====
-- `bst_delete` joins the two subtrees of a node in its place.
use mathlib.Core.Path.{subst}
use flurry.Prelude.{
  ℕ, ◌+◌, ◌<◌, ◌≤◌, ◌≡◌, ◌≢◌, ◌∙◌, refl, sym, ap, false, ◌==◌, if◌then◌else◌, arith, ==_refl, ne→==,
}
use flurry.Prelude.Memory.{write, write_self, write_ne}
use flurry.Prelude.Outcome.{Outcome, ok, ◌>>=◌}
use flurry.Events.{Links, set_parent, bst_transplant, bst_minimum, detach, supplant, bst_delete}
use flurry.Events.Shape.{
  Tree, leaf, node, Ctx, go_right, count, count_ctx, one_if, Rep, RepCtx, Agree, apart, Rep-frame,
  RepCtx-frame, Rep-rehang,
}
use flurry.Events.Hang.{
  set_parent-left, set_parent-right, set_parent-root, set_parent_ne, set_parent_self,
}
use flurry.Events.Placed.{
  Placed, Placed-right, bst_transplant-Placed, detach_least, least, drop_least, join, height,
  bst_minimum-least, count-drop_least,
}
use flurry.Events.Supplant.{Ready, supplant-Placed}

least-pos :
    (l : Links) (p par a : ℕ) (tl tr : Tree) → Rep l p par (node tl a tr) → 0 < least (node tl a tr)
least-pos l p par a leaf tr r = r.1
least-pos l p par a (node k b m) tr r = least-pos l (l.left a) a b k m r.3

module _ (l : Links) (u par : ℕ) (tl : Tree) (k : Tree) (b : ℕ) (m : Tree) (a : ℕ) (r : Tree)
    (c : Ctx) (h : Placed l u par (node tl u (node (node k b m) a r)) c) where
  abbrev y : ℕ
  y = least (node k b m)

  abbrev l1 : Links
  l1 = bst_transplant (least (node k b m)) (l.right (least (node k b m))) l

  first : Placed l1 a (l1.parent a) (node (drop_least (node k b m)) a r) (go_right c tl u)
  first =
      detach_least l (l.right u) u a k b m r (go_right c tl u)
        (Placed-right l u par u tl (node (node k b m) a r) c h)

  detached : Links
  detached = set_parent a y (record l1 { right = write l1.right y a })

  detach-eq : detach u y l ≡ detached
  unfolding detach detached
  detach-eq = rw (first.ctx.2) refl

  y_count : (x : ℕ) → count x (drop_least (node k b m)) + one_if x y ≡ count x (node k b m)
  y_count x = count-drop_least x k b m

  detached-Agree : (x : ℕ) → x ≢ y → x ≢ a → Agree l1 detached x
  unfolding detached
  detached-Agree x not_y not_a = record {
    left = set_parent-left a y x _;
    right = set_parent-right a y x _ ∙ write_ne l1.right y a x not_y;
    parent = set_parent_ne a y x _ not_a;
  }

  detached-right_y : detached.right y ≡ a
  unfolding detached
  detached-right_y = set_parent-right a y y _ ∙ write_self l1.right y a

  detached-right : (x : ℕ) → x ≢ y → detached.right x ≡ l1.right x
  unfolding detached
  detached-right x not_y = set_parent-right a y x _ ∙ write_ne l1.right y a x not_y

  detached-left : (x : ℕ) → detached.left x ≡ l1.left x
  unfolding detached
  detached-left x = set_parent-left a y x _

  detached-parent_a : 0 < a → detached.parent a ≡ y
  unfolding detached
  detached-parent_a pos = set_parent_self a y _ pos

  detached-root : detached.root ≡ l1.root
  unfolding detached
  detached-root = set_parent-root a y _

  -- The links of what is apart from the right subtree are as they were after the first step.
  apart-Agree : (x : ℕ) → 0 < one_if x u + count x tl + count_ctx x c → Agree l1 detached x
  apart-Agree x some =
      detached-Agree x
        (λ e. omega (arith, h.once x, y_count y, ap (λ w. count w (node k b m)) e, ground_y))
        (λ e. ground (arith, h.once x, e))
    where
      ground_y : one_if y y ≡ 1
      ground_y = rw (==_refl y) refl

  detached-high : Rep detached (detached.right y) y (node (drop_least (node k b m)) a r)
  detached-high = rw detached-right_y (
      Rep-rehang l1 detached a (l1.parent a) y (node (drop_least (node k b m)) a r) first.tree
        (λ x. omega (arith, first.once x))
        (λ x some.
          let x_not_y : x ≢ y = λ e. ground (arith, y_count x, h.once x, e) in
          (detached-left x, detached-right x x_not_y))
        (λ x some ne. (detached-Agree x (λ e. ground (arith, y_count x, h.once x, e)) ne).parent)
        detached-parent_a)

  detached-Ready : Ready detached u y par tl (node (drop_least (node k b m)) a r) c
  detached-Ready = record {
    pos_u = first.ctx.1;
    pos_y = least-pos l (l.left a) a b k m h.tree.4.3;
    ctx = rw (apart-Agree u (ground arith)).parent (
        RepCtx-frame l1 detached u (l1.parent u) c first.ctx.4 detached-root
          (λ x some. apart-Agree x (omega arith)));
    low = rw (detached-left u) (
        Rep-frame l1 detached (l1.left u) u tl first.ctx.3 (λ x some. apart-Agree x (omega arith)));
    high = detached-high;
    once = λ x. omega (arith, h.once x, y_count x);
  }

-- A right child with nothing on its left is ready as it is.
simple-Ready :
    (l : Links) (u par : ℕ) (tl : Tree) (y : ℕ) (r : Tree) (c : Ctx)
    → Placed l u par (node tl u (node leaf y r)) c
    → Ready l u y par tl r c
simple-Ready l u par tl y r c h = record {
  pos_u = h.tree.1;
  pos_y = h.tree.4.1;
  ctx = subst (λ q. RepCtx l u q c) (sym h.tree.2) h.ctx;
  low = h.tree.3;
  high = h.tree.4.4;
  once = λ x. omega (arith, h.once x);
}

-- The tree `t` is in the links that a call returns, at the place of the context.
pub record Leaves (o : Outcome Links) (t : Tree) (c : Ctx) : Type 0 where
  pub after : Links
  pub p : ℕ
  pub par : ℕ
  pub returns : o ≡ ok after
  pub placed : Placed after p par t c

delete-eq :
    (rounds u : ℕ) (l : Links)
    → bst_delete rounds u l ≡ (
        if l.left u == 0
        then ok (bst_transplant u (l.right u) l)
        else if l.right u == 0
        then ok (bst_transplant u (l.left u) l)
        else do
          y ← bst_minimum rounds l.left (l.right u)
          ok (supplant u y (if l.parent y == u then l else detach u y l)))
unfolding bst_delete
delete-eq rounds u l = refl

-- The parent of the least node of a tree with something on its left is in the tree.
least-parent :
    (l : Links) (p par a : ℕ) (k : Tree) (b : ℕ) (m r : Tree)
    → Rep l p par (node (node k b m) a r)
    → 0 < count (l.parent (least (node k b m))) (node (node k b m) a r)
least-parent l p par a leaf b m r t = rw t.3.2 (ground arith)
least-parent l p par a (node k' b' m') b m r t =
    omega (arith, least-parent l (l.left a) a b k' b' m' m t.3)

child : (l : Links) (p par a : ℕ) (tl tr : Tree) → Rep l p par (node tl a tr) → (p == 0) ≡ false
child l p par a tl tr r = ground (arith, r.0, r.1)

-- `bst_delete` leaves the two subtrees of the node, joined, in its place.
pub bst_delete-join :
    (rounds : ℕ) (l : Links) (u par : ℕ) (tl tr : Tree) (c : Ctx)
    → Placed l u par (node tl u tr) c
    → height tr ≤ rounds
    → Leaves (bst_delete rounds u l) (join tl tr) c
bst_delete-join rounds l u par leaf tr c h enough = record {
  after = bst_transplant u (l.right u) l;
  p = l.right u;
  par = l.parent u;
  returns = rw (delete-eq rounds u l, h.tree.3) refl;
  placed = bst_transplant-Placed l u par leaf tr c h (l.right u) u tr h.tree.4 (λ x. omega arith);
}
bst_delete-join rounds l u par (node k b m) leaf c h enough = record {
  after = bst_transplant u (l.left u) l;
  p = l.left u;
  par = l.parent u;
  returns = rw (delete-eq rounds u l, child l (l.left u) u b k m h.tree.3, h.tree.4) refl;
  placed =
      bst_transplant-Placed l u par (node k b m) leaf c h (l.left u) u (node k b m) h.tree.3
        (λ x. omega arith);
}
bst_delete-join rounds l u par (node k b m) (node leaf y r) c h enough = record {
  after = supplant u y l;
  p = y;
  par = l.parent u;
  returns =
      rw
        (
          delete-eq rounds u l,
          child l (l.left u) u b k m h.tree.3,
          child l (l.right u) u y leaf r h.tree.4,
          bst_minimum-least rounds l (l.right u) u y leaf r h.tree.4 enough,
          h.tree.4.2,
          ==_refl u,
        )
        refl;
  placed = supplant-Placed l u y par (node k b m) r c (simple-Ready l u par (node k b m) y r c h);
}
bst_delete-join rounds l u par (node k b m) (node (node k' b' m') a r) c h enough = record {
  after = supplant u (least (node k' b' m')) (detached l u par (node k b m) k' b' m' a r c h);
  p = least (node k' b' m');
  par = (detached l u par (node k b m) k' b' m' a r c h).parent u;
  returns =
      let y = least (node k' b' m') in
      let inside = least-parent l (l.right u) u a k' b' m' r h.tree.4 in
      let other : (l.parent y == u) ≡ false =
        ne→== (l.parent y) u
          (apart (node (node k' b' m') a r) (l.parent y) u inside (ground (arith, h.once u))) in
      rw
        (
          delete-eq rounds u l,
          child l (l.left u) u b k m h.tree.3,
          child l (l.right u) u a (node k' b' m') r h.tree.4,
          bst_minimum-least rounds l (l.right u) u a (node k' b' m') r h.tree.4 enough,
          other,
          detach-eq l u par (node k b m) k' b' m' a r c h,
        )
        refl;
  placed =
      supplant-Placed _ u (least (node k' b' m')) par (node k b m)
        (node (drop_least (node k' b' m')) a r) c
        (detached-Ready l u par (node k b m) k' b' m' a r c h);
}
