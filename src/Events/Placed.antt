-- ===== src/Events/Placed.antt =====
-- A tree at its place in a context, and what `bst_transplant` makes of it.
use mathlib.Core.Path.{subst}
use flurry.Prelude.{ℕ, zero, suc, ◌+◌, ◌≤◌, ◌≡◌, max, refl, sym, false, ◌==◌, arith}
use flurry.Prelude.Outcome.{ok}
use flurry.Events.{Links, bst_transplant, leftmost, bst_minimum}
use flurry.Events.Shape.{
  Tree, leaf, node, Ctx, top, go_left, go_right, count, count_ctx, one_if, Rep, RepCtx, Rep-rehang,
  Rep-zero,
}
use flurry.Events.Hang.{Hung, bst_transplant-Hung}

-- The first node of a tree in order, and the tree without it.
abbrev pub least : Tree → ℕ
least leaf = 0
least (node leaf a r) = a
least (node (node l b m) a r) = least (node l b m)

abbrev pub drop_least : Tree → Tree
drop_least leaf = leaf
drop_least (node leaf a r) = r
drop_least (node (node l b m) a r) = node (drop_least (node l b m)) a r

-- Two trees made one.
abbrev pub join : Tree → Tree → Tree
join leaf r = r
join (node l a m) leaf = node l a m
join (node l a m) (node k b r) = node (node l a m) (least (node k b r)) (drop_least (node k b r))

-- A tree hung as a whole: it is in the links, its nodes are outside of the context, none is in it twice.
pub record Placed (l : Links) (p par : ℕ) (t : Tree) (c : Ctx) : Type 0 where
  pub ctx : RepCtx l p par c
  pub tree : Rep l p par t
  pub once : (x : ℕ) → count x t + count_ctx x c ≤ 1

-- Where a tree that is not empty is placed, so are its subtrees.
module _ (l : Links) (p par a : ℕ) (tl tr : Tree) (c : Ctx)
    (h : Placed l p par (node tl a tr) c) where
  context_here : RepCtx l a (l.parent a) c
  context_here =
      subst (λ q. RepCtx l a q c) (sym h.tree.2) (subst (λ q. RepCtx l q par c) h.tree.0 h.ctx)

  pub Placed-left : Placed l (l.left a) a tl (go_left c a tr)
  Placed-left = record {
    ctx = (refl, h.tree.1, refl, h.tree.4, context_here);
    tree = h.tree.3;
    once = λ x. omega (arith, h.once x);
  }

  pub Placed-right : Placed l (l.right a) a tr (go_right c tl a)
  Placed-right = record {
    ctx = (refl, h.tree.1, refl, h.tree.3, context_here);
    tree = h.tree.4;
    once = λ x. omega (arith, h.once x);
  }

-- And back: a subtree that is placed makes the tree above it placed.
pub up_left :
    (l : Links) (q par a : ℕ) (tl tr : Tree) (c : Ctx)
    → Placed l q par tl (go_left c a tr)
    → Placed l a (l.parent a) (node tl a tr) c
up_left l q par a tl tr c h = record {
  ctx = h.ctx.4;
  tree = (
    refl,
    h.ctx.1,
    refl,
    subst (λ w. Rep l w a tl) (sym h.ctx.2) (subst (λ w. Rep l q w tl) h.ctx.0 h.tree),
    h.ctx.3,
  );
  once = λ x. omega (arith, h.once x);
}

pub RepCtx-zero : (l : Links) (p par : ℕ) (c : Ctx) → RepCtx l p par c → count_ctx 0 c ≡ 0
RepCtx-zero l p par top h = refl
RepCtx-zero l p par (go_left c a t) h =
    ground (arith, h.1, RepCtx-zero l a (l.parent a) c h.4, Rep-zero l (l.right a) a t h.3)
RepCtx-zero l p par (go_right c t a) h =
    ground (arith, h.1, RepCtx-zero l a (l.parent a) c h.4, Rep-zero l (l.left a) a t h.3)

-- The root of a tree is in nothing that holds neither NULL nor a node of the tree.
pub root_out :
    (l : Links) (p par : ℕ) (t : Tree) (f : ℕ → ℕ)
    → Rep l p par t
    → ((x : ℕ) → count x t + f x ≤ 1)
    → f 0 ≡ 0
    → f p ≡ 0
root_out l p par leaf f r once zero_out = rw r zero_out
root_out l p par (node tl a tr) f r once zero_out = rw r.0 (ground (arith, once a))

module _ (l : Links) (u par : ℕ) (tl tr : Tree) (c : Ctx)
    (h : Placed l u par (node tl u tr) c) where
  own_out : count_ctx u c ≡ 0
  own_out = ground (arith, h.once u)

  here : RepCtx l u (l.parent u) c
  here = subst (λ q. RepCtx l u q c) (sym h.tree.2) h.ctx

  module _ (v pv : ℕ) (tv : Tree) (r : Rep l v pv tv)
      (part : (x : ℕ) → count x tv ≤ count x tl + count x tr) where
    v_out : count_ctx v c ≡ 0
    v_out =
        root_out l v pv tv (λ x. count_ctx x c) r (λ x. omega (arith, part x, h.once x))
          (RepCtx-zero l u par c h.ctx)

    transplant_here : Hung l (bst_transplant u v l) u v c
    transplant_here =
        bst_transplant-Hung l u v c here h.tree.1 own_out v_out (λ x. omega (arith, h.once x))

    -- Another tree, of nodes below the node, in its place.
    pub bst_transplant-Placed : Placed (bst_transplant u v l) v (l.parent u) tv c
    bst_transplant-Placed =
        let g = transplant_here in
        record {
          ctx = g.ctx;
          tree =
              Rep-rehang l (bst_transplant u v l) v pv (l.parent u) tv r
                (λ x. omega (arith, part x, h.once x))
                (λ x some. (
                  g.left x (omega (arith, part x, h.once x)),
                  g.right x (omega (arith, part x, h.once x)),
                ))
                (λ x some ne. g.parent x ne) g.hung;
          once = λ x. omega (arith, part x, h.once x);
        }

Placed-root :
    (l : Links) (p par a : ℕ) (tl tr : Tree) (c : Ctx)
    → Placed l p par (node tl a tr) c
    → Placed l a par (node tl a tr) c
Placed-root l p par a tl tr c h = subst (λ q. Placed l q par (node tl a tr) c) h.tree.0 h

-- The least node of a tree with something on its left leaves its place.
pub detach_least :
    (l : Links) (p par a : ℕ) (k : Tree) (b : ℕ) (m tr : Tree) (c : Ctx)
    → Placed l p par (node (node k b m) a tr) c
    → Placed
        (bst_transplant (least (node k b m)) (l.right (least (node k b m))) l)
        a
        ((bst_transplant (least (node k b m)) (l.right (least (node k b m))) l).parent a)
        (node (drop_least (node k b m)) a tr)
        c
detach_least l p par a leaf b m tr c h =
    let low =
      Placed-root l (l.left a) a b leaf m (go_left c a tr)
        (Placed-left l p par a (node leaf b m) tr c h) in
    up_left (bst_transplant b (l.right b) l) (l.right b) (l.parent b) a m tr c (
      bst_transplant-Placed l b a leaf m (go_left c a tr) low (l.right b) b m low.tree.4
        (λ x. omega arith))
detach_least l p par a (node k' b' m') b m tr c h =
    let y = least (node k' b' m') in
    let l' = bst_transplant y (l.right y) l in
    up_left l' b (l'.parent b) a (node (drop_least (node k' b' m')) b m) tr c (
      detach_least l (l.left a) a b k' b' m' m (go_left c a tr)
        (Placed-left l p par a (node (node k' b' m') b m) tr c h))

abbrev pub height : Tree → ℕ
height leaf = 0
height (node l a r) = suc (max (height l) (height r))

pub leftmost-least :
    (rounds : ℕ) (l : Links) (p par a : ℕ) (tl tr : Tree)
    → Rep l p par (node tl a tr)
    → height (node tl a tr) ≤ rounds
    → leftmost rounds l.left p ≡ ok (least (node tl a tr))
unfolding leftmost
leftmost-least zero l p par a tl tr r enough = absurd (omega arith)
leftmost-least (suc rounds) l p par a leaf tr r enough =
    let end : l.left a ≡ 0 = r.3 in rw (r.0, end) refl
leftmost-least (suc rounds) l p par a (node k b m) tr r enough =
    let down : (l.left a == 0) ≡ false = ground (arith, r.3.0, r.3.1) in
    rw (r.0, down) (leftmost-least rounds l (l.left a) a b k m r.3 (omega arith))

pub bst_minimum-least :
    (rounds : ℕ) (l : Links) (p par a : ℕ) (tl tr : Tree)
    → Rep l p par (node tl a tr)
    → height (node tl a tr) ≤ rounds
    → bst_minimum rounds l.left p ≡ ok (least (node tl a tr))
unfolding bst_minimum
bst_minimum-least rounds l p par a tl tr r enough =
    let some : (p == 0) ≡ false = ground (arith, r.0, r.1) in
    rw some (leftmost-least rounds l p par a tl tr r enough)

pub count-drop_least :
    (x : ℕ) (l : Tree) (a : ℕ) (r : Tree)
    → count x (drop_least (node l a r)) + one_if x (least (node l a r)) ≡ count x (node l a r)
count-drop_least x leaf a r = omega arith
count-drop_least x (node l b m) a r = omega (arith, count-drop_least x l b m)

pub count-join : (x : ℕ) (t r : Tree) → count x (join t r) ≡ count x t + count x r
count-join x leaf r = omega arith
count-join x (node l a m) leaf = omega arith
count-join x (node l a m) (node k b r) = omega (arith, count-drop_least x k b r)
