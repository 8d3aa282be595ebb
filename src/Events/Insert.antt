-- ===== src/Events/Insert.antt =====
-- `event_bst_insert` hangs an event at the end of the search for its time.
use mathlib.Core.Path.{subst}
use flurry.Prelude.{
  ℕ, zero, suc, ◌+◌, ◌<◌, ◌≤◌, ◌≡◌, ◌≢◌, ◌∙◌, refl, sym, ap, Bool-cases, inl, inr, true, false, ltb,
  if◌then◌else◌, arith, ne→==, ◌∷◌,
}
use flurry.Prelude.Memory.{Mem, write, write_self, write_ne}
use flurry.Prelude.Outcome.{ok}
use flurry.Events.{Links, next_child, insert_parent, attach}
use flurry.Events.Shape.{
  Tree, leaf, node, Ctx, go_left, go_right, count, count_ctx, Agree, Rep-frame, RepCtx-frame,
}
use flurry.Events.Placed.{Placed, Placed-left, Placed-right, up_left, height}
use flurry.Events.Items.{items, up_right}
use flurry.Events.Order.{
  insert_by, insert_by-before, insert_by-behind, Sorted, Sorted-left, Sorted-right, Sorted-UpTo,
}

-- The tree with one more event, at the end of its search.
abbrev pub insert_tree : Mem → ℕ → Tree → Tree
insert_tree time n leaf = node leaf n leaf
insert_tree time n (node l a r) =
    if ltb (time n) (time a)
    then node (insert_tree time n l) a r
    else node l a (insert_tree time n r)

-- An event that is not in the tree, with its links to children cleared.
pub record Fresh (l : Links) (n : ℕ) (t : Tree) (c : Ctx) : Type 0 where
  pub pos : 0 < n
  pub left : l.left n ≡ 0
  pub right : l.right n ≡ 0
  pub out : count n t + count_ctx n c ≡ 0

attach-left :
    (time : Mem) (n q : ℕ) (l : Links)
    → ltb (time n) (time q) ≡ true
    → attach time n q l ≡ record l { parent = write l.parent n q; left = write l.left q n }
unfolding attach
attach-left time n q l lt = rw lt refl

attach-right :
    (time : Mem) (n q : ℕ) (l : Links)
    → ltb (time n) (time q) ≡ false
    → attach time n q l ≡ record l { parent = write l.parent n q; right = write l.right q n }
unfolding attach
attach-right time n q l ge = rw ge refl

module _ (time : Mem) (l : Links) (n p par a : ℕ) (c : Ctx) where
  attach-Placed_left :
      (tr : Tree)
      → Placed l p par (node leaf a tr) c
      → Fresh l n (node leaf a tr) c
      → ltb (time n) (time a) ≡ true
      → Placed (attach time n a l) n a (node leaf n leaf) (go_left c a tr)
  attach-Placed_left tr h new lt =
      let l' : Links = record l { parent = write l.parent n a; left = write l.left a n } in
      let other : n ≢ a = ground (arith, new.out) in
      let low = Placed-left l p par a leaf tr c h in
      let agree : (x : ℕ) → 0 < count_ctx x c + count x tr → Agree l l' x = λ x some. record {
        left = write_ne l.left a n x (λ e. ground (arith, h.once x, e));
        right = refl;
        parent =
            write_ne l.parent n a x
              (λ e. omega (arith, new.out, ap (λ w. count_ctx w c + count w tr) e));
      } in
      let once : (x : ℕ) → count x (node leaf n leaf) + count_ctx x (go_left c a tr) ≤ 1 =
        λ x. ground (arith, h.once x, new.out) in
      rw (attach-left time n a l lt) (record {
        ctx = (
          refl,
          h.tree.1,
          write_self l.left a n,
          Rep-frame l l' (l.right a) a tr h.tree.4 (λ x some. agree x (omega arith)),
          rw (write_ne l.parent n a a (λ e. other (sym e)))
              (RepCtx-frame l l' a (l.parent a) c low.ctx.4 refl (λ x some. agree x (omega arith))),
        );
        tree = (
          refl,
          new.pos,
          write_self l.parent n a,
          write_ne l.left a n n other ∙ new.left,
          new.right,
        );
        once = once;
      })

  attach-Placed_right :
      (tl : Tree)
      → Placed l p par (node tl a leaf) c
      → Fresh l n (node tl a leaf) c
      → ltb (time n) (time a) ≡ false
      → Placed (attach time n a l) n a (node leaf n leaf) (go_right c tl a)
  attach-Placed_right tl h new ge =
      let l' : Links = record l { parent = write l.parent n a; right = write l.right a n } in
      let other : n ≢ a = ground (arith, new.out) in
      let low = Placed-right l p par a tl leaf c h in
      let agree : (x : ℕ) → 0 < count_ctx x c + count x tl → Agree l l' x = λ x some. record {
        left = refl;
        right = write_ne l.right a n x (λ e. ground (arith, h.once x, e));
        parent =
            write_ne l.parent n a x
              (λ e. omega (arith, new.out, ap (λ w. count_ctx w c + count w tl) e));
      } in
      let once : (x : ℕ) → count x (node leaf n leaf) + count_ctx x (go_right c tl a) ≤ 1 =
        λ x. ground (arith, h.once x, new.out) in
      rw (attach-right time n a l ge) (record {
        ctx = (
          refl,
          h.tree.1,
          write_self l.right a n,
          Rep-frame l l' (l.left a) a tl h.tree.3 (λ x some. agree x (omega arith)),
          rw (write_ne l.parent n a a (λ e. other (sym e)))
              (RepCtx-frame l l' a (l.parent a) c low.ctx.4 refl (λ x some. agree x (omega arith))),
        );
        tree = (
          refl,
          new.pos,
          write_self l.parent n a,
          new.left,
          write_ne l.right a n n other ∙ new.right,
        );
        once = once;
      })

-- The search from `p` ends at `at`, and the event hung there makes the larger tree.
pub record Grown (rounds : ℕ) (time : Mem) (l : Links) (n p prev : ℕ) (t : Tree) (c : Ctx)
    : Type 0 where
  pub at : ℕ
  pub q : ℕ
  pub par : ℕ
  pub returns : insert_parent rounds time l n prev p ≡ ok at
  pub placed : Placed (attach time n at l) q par t c

parent-end :
    (rounds : ℕ) (time : Mem) (l : Links) (n prev p : ℕ)
    → p ≡ 0
    → 0 < rounds
    → insert_parent rounds time l n prev p ≡ ok prev
unfolding insert_parent
parent-end zero time l n prev p e some = absurd (omega arith)
parent-end (suc rounds) time l n prev p e some = rw e refl

parent-step :
    (rounds : ℕ) (time : Mem) (l : Links) (n prev p : ℕ)
    → 0 < p
    → insert_parent (suc rounds) time l n prev p
      ≡ insert_parent rounds time l n p (if ltb (time n) (time p) then l.left p else l.right p)
unfolding insert_parent next_child
parent-step rounds time l n prev p pos = rw (ne→== p 0 (omega arith)) refl

module _ (rounds : ℕ) (time : Mem) (l : Links) (n p par a prev : ℕ) (c : Ctx) where
  -- The search from a child of the node.
  abbrev Below : ℕ → Ctx → Type 0
  Below q d =
      (k : Tree) (b : ℕ) (m : Tree)
      → Placed l q a (node k b m) d
      → Fresh l n (node k b m) d
      → height (node k b m) < rounds
      → Grown rounds time l n q a (insert_tree time n (node k b m)) d

  grow_left :
      (tl tr : Tree)
      → Placed l p par (node tl a tr) c
      → Fresh l n (node tl a tr) c
      → height (node tl a tr) < suc rounds
      → ltb (time n) (time a) ≡ true
      → Below (l.left a) (go_left c a tr)
      → Grown (suc rounds) time l n p prev (insert_tree time n (node tl a tr)) c
  grow_left leaf tr h new enough e below = rw e (record {
    at = a;
    q = a;
    par = (attach time n a l).parent a;
    returns =
        rw (h.tree.0, parent-step rounds time l n prev a h.tree.1, e)
          (parent-end rounds time l n a (l.left a) h.tree.3 (omega arith));
    placed =
        up_left (attach time n a l) n a a (node leaf n leaf) tr c
          (attach-Placed_left time l n p par a c tr h new e);
  })
  grow_left (node k b m) tr h new enough e below =
      let new' : Fresh l n (node k b m) (go_left c a tr) = record {
        pos = new.pos;
        left = new.left;
        right = new.right;
        out = omega (arith, new.out);
      } in
      let g = below k b m (Placed-left l p par a (node k b m) tr c h) new' (omega arith) in
      rw e (record {
        at = g.at;
        q = a;
        par = (attach time n g.at l).parent a;
        returns =
            subst (λ w. insert_parent (suc rounds) time l n prev w ≡ ok g.at) (sym h.tree.0)
              (rw (parent-step rounds time l n prev a h.tree.1, e) g.returns);
        placed =
            up_left (attach time n g.at l) g.q g.par a (insert_tree time n (node k b m)) tr c
              g.placed;
      })

  grow_right :
      (tl tr : Tree)
      → Placed l p par (node tl a tr) c
      → Fresh l n (node tl a tr) c
      → height (node tl a tr) < suc rounds
      → ltb (time n) (time a) ≡ false
      → Below (l.right a) (go_right c tl a)
      → Grown (suc rounds) time l n p prev (insert_tree time n (node tl a tr)) c
  grow_right tl leaf h new enough e below = rw e (record {
    at = a;
    q = a;
    par = (attach time n a l).parent a;
    returns =
        rw (h.tree.0, parent-step rounds time l n prev a h.tree.1, e)
          (parent-end rounds time l n a (l.right a) h.tree.4 (omega arith));
    placed =
        up_right (attach time n a l) n a a tl (node leaf n leaf) c
          (attach-Placed_right time l n p par a c tl h new e);
  })
  grow_right tl (node k b m) h new enough e below =
      let new' : Fresh l n (node k b m) (go_right c tl a) = record {
        pos = new.pos;
        left = new.left;
        right = new.right;
        out = omega (arith, new.out);
      } in
      let g = below k b m (Placed-right l p par a tl (node k b m) c h) new' (omega arith) in
      rw e (record {
        at = g.at;
        q = a;
        par = (attach time n g.at l).parent a;
        returns =
            subst (λ w. insert_parent (suc rounds) time l n prev w ≡ ok g.at) (sym h.tree.0)
              (rw (parent-step rounds time l n prev a h.tree.1, e) g.returns);
        placed =
            up_right (attach time n g.at l) g.q g.par a tl (insert_tree time n (node k b m)) c
              g.placed;
      })

-- `event_bst_insert` finds the place of a new event in a tree that is not empty.
pub insert_parent-Grown :
    (rounds : ℕ) (time : Mem) (l : Links) (n p par a prev : ℕ) (tl tr : Tree) (c : Ctx)
    → Placed l p par (node tl a tr) c
    → Fresh l n (node tl a tr) c
    → height (node tl a tr) < rounds
    → Grown rounds time l n p prev (insert_tree time n (node tl a tr)) c
insert_parent-Grown zero time l n p par a prev tl tr c h new enough = absurd (omega arith)
insert_parent-Grown (suc rounds) time l n p par a prev tl tr c h new enough =
    elim (Bool-cases (ltb (time n) (time a))) [
      | inl e ↦
          grow_left rounds time l n p par a prev c tl tr h new enough e
            (λ k b m. insert_parent-Grown rounds time l n (l.left a) a b a k m (go_left c a tr))
      | inr e ↦
          grow_right rounds time l n p par a prev c tl tr h new enough e
            (λ k b m. insert_parent-Grown rounds time l n (l.right a) a b a k m (go_right c tl a))
    ]

-- In order, the larger tree has the event behind those that are not later.
pub items-insert_tree :
    (time : Mem) (n : ℕ) (t : Tree)
    → Sorted time (items t)
    → items (insert_tree time n t) ≡ insert_by time n (items t)
items-insert_tree time n leaf sorted = refl
items-insert_tree time n (node l a r) sorted = elim (Bool-cases (ltb (time n) (time a))) [
  | inl e ↦
      rw
        (
          e,
          items-insert_tree time n l (Sorted-left time (items l) (a ∷ items r) sorted),
          insert_by-before time n a (items l) (items r) e,
        )
        refl
  | inr e ↦
      rw
        (
          e,
          items-insert_tree time n r (Sorted-right time (items l) (a ∷ items r) sorted).1,
          insert_by-behind time n a (items l) (items r) e
              (Sorted-UpTo time a (items l) (items r) sorted),
        )
        refl
]
