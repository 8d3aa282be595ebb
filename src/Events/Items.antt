-- ===== src/Events/Items.antt =====
-- The events of a tree in order, and a node's place in it.
use mathlib.Core.Path.{subst}
use mathlib.Core.List.{append-nil, append_assoc}
use flurry.Prelude.{
  ℕ, zero, suc, ◌+◌, ◌<◌, ◌≤◌, ◌≡◌, refl, sym, ap, Bool-cases, inl, inr, false, ◌==◌, ltb, arith,
  ==_iff, List, [], ◌∷◌, ◌++◌, length, length-append,
}
use flurry.Prelude.Outcome.{ok}
use flurry.Events.{Links, inorder}
use flurry.Events.Shape.{Tree, leaf, node, Ctx, top, go_left, go_right, count, one_if, Rep}
use flurry.Events.Placed.{
  Placed, Placed-left, Placed-right, up_left, least, drop_least, join, height,
}

abbrev pub items : Tree → List ℕ
items leaf = []
items (node l a r) = items l ++ (a ∷ items r)

abbrev pub count_in : ℕ → List ℕ → ℕ
count_in x [] = 0
count_in x (y ∷ ys) = one_if x y + count_in x ys

abbrev pub plug : Ctx → Tree → Tree
plug top t = t
plug (go_left c a r) t = plug c (node t a r)
plug (go_right c l a) t = plug c (node l a t)

-- What stands before and behind the hole of a context.
abbrev pub before : Ctx → List ℕ
before top = []
before (go_left c a r) = before c
before (go_right c l a) = before c ++ (items l ++ (a ∷ []))

abbrev pub after : Ctx → List ℕ
after top = []
after (go_left c a r) = a ∷ (items r ++ after c)
after (go_right c l a) = after c

pub items-plug : (c : Ctx) (t : Tree) → items (plug c t) ≡ before c ++ (items t ++ after c)
items-plug top t = sym (append-nil (items t))
items-plug (go_left c a r) t = simp (items-plug c (node t a r), append_assoc)
items-plug (go_right c l a) t = simp (items-plug c (node l a t), append_assoc)

pub items-least :
    (l : Tree) (a : ℕ) (r : Tree)
    → items (node l a r) ≡ least (node l a r) ∷ items (drop_least (node l a r))
items-least leaf a r = refl
items-least (node l b m) a r = simp (items-least l b m)

pub items-join : (t r : Tree) → items (join t r) ≡ items t ++ items r
items-join leaf r = refl
items-join (node l a m) leaf = sym (append-nil (items (node l a m)))
items-join (node l a m) (node k b r) = ap (λ ys. items (node l a m) ++ ys) (sym (items-least k b r))

pub count_in-append :
    (x : ℕ) (xs ys : List ℕ) → count_in x (xs ++ ys) ≡ count_in x xs + count_in x ys
count_in-append x [] ys = omega arith
count_in-append x (a ∷ xs) ys = omega (arith, count_in-append x xs ys)

pub count_in-items : (x : ℕ) (t : Tree) → count_in x (items t) ≡ count x t
count_in-items x leaf = refl
count_in-items x (node l a r) =
    omega (arith, count_in-append x (items l) (a ∷ items r), count_in-items x l, count_in-items x r)

pub height-length : (t : Tree) → height t ≤ length (items t)
height-length leaf = omega arith
height-length (node l a r) =
    omega (arith, height-length l, height-length r, length-append (items l) (a ∷ items r))

pub up_right :
    (l : Links) (q par a : ℕ) (tl tr : Tree) (c : Ctx)
    → Placed l q par tr (go_right c tl a)
    → Placed l a (l.parent a) (node tl a tr) c
up_right l q par a tl tr c h = record {
  ctx = h.ctx.4;
  tree = (
    refl,
    h.ctx.1,
    refl,
    h.ctx.3,
    subst (λ w. Rep l w a tr) (sym h.ctx.2) (subst (λ w. Rep l q w tr) h.ctx.0 h.tree),
  );
  once = λ x. omega (arith, h.once x);
}

-- A tree placed in a context is part of the whole tree.
pub zip_up :
    (l : Links) (p par : ℕ) (t : Tree) (c : Ctx)
    → Placed l p par t c
    → Placed l l.root 0 (plug c t) top
zip_up l p par t top h = record {
  ctx = (refl, refl);
  tree = subst (λ w. Rep l w 0 t) (sym h.ctx.0) (subst (λ w. Rep l p w t) h.ctx.1 h.tree);
  once = h.once;
}
zip_up l p par t (go_left c a r) h =
    zip_up l a (l.parent a) (node t a r) c (up_left l p par a t r c h)
zip_up l p par t (go_right c k a) h =
    zip_up l a (l.parent a) (node k a t) c (up_right l p par a k t c h)

-- Where a node of a tree is.
pub record Found (l : Links) (u : ℕ) (t : Tree) (c : Ctx) : Type 0 where
  pub low : Tree
  pub high : Tree
  pub above : Ctx
  pub par : ℕ
  pub placed : Placed l u par (node low u high) above
  pub same : plug above (node low u high) ≡ plug c t

pub find :
    (l : Links) (p par u : ℕ) (t : Tree) (c : Ctx)
    → Placed l p par t c
    → 0 < count u t
    → Found l u t c
find l p par u leaf c h some = absurd (omega arith)
find l p par u (node tl a tr) c h some = elim (Bool-cases (u == a)) [
  | inl e ↦
      let same : u ≡ a = (==_iff u a).0 e in
      subst (λ w. Found l w (node tl a tr) c) (sym same)
        (record {
          low = tl;
          high = tr;
          above = c;
          par = par;
          placed = subst (λ q. Placed l q par (node tl a tr) c) h.tree.0 h;
          same = refl;
        })
  | inr e ↦ elim (Bool-cases (ltb 0 (count u tl))) [
    | inl in_left ↦
        let f =
          find l (l.left a) a u tl (go_left c a tr) (Placed-left l p par a tl tr c h)
            (ground arith) in
        record {
          low = f.low;
          high = f.high;
          above = f.above;
          par = f.par;
          placed = f.placed;
          same = f.same;
        }
    | inr not_left ↦
        let f =
          find l (l.right a) a u tr (go_right c tl a) (Placed-right l p par a tl tr c h)
            (ground arith) in
        record {
          low = f.low;
          high = f.high;
          above = f.above;
          par = f.par;
          placed = f.placed;
          same = f.same;
        }
  ]
]

-- Printing goes through the events in order.
pub inorder-items :
    (rounds : ℕ) (l : Links) (p par : ℕ) (t : Tree)
    → Rep l p par t
    → height t < rounds
    → inorder rounds l p ≡ ok (items t)
unfolding inorder
inorder-items zero l p par t r enough = absurd (omega arith)
inorder-items (suc rounds) l p par leaf r enough = rw r refl
inorder-items (suc rounds) l p par (node tl a tr) r enough =
    let some : (a == 0) ≡ false = ground (arith, r.1) in
    rw
      (
        r.0,
        some,
        inorder-items rounds l (l.left a) a tl r.3 (omega arith),
        inorder-items rounds l (l.right a) a tr r.4 (omega arith),
      )
      refl
