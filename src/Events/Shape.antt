-- ===== src/Events/Shape.antt =====
-- Trees and contexts in the links, and what a change of links elsewhere leaves of them.
use flurry.Prelude.{ℕ, ◌+◌, ◌<◌, ◌≤◌, ◌≡◌, ◌≢◌, ◌∙◌, ap, ◌==◌, if◌then◌else◌, arith}
use mathlib.Core.Path.{subst}
use flurry.Events.{Links}

pub data Tree : Type 0 where
  leaf : Tree
  node : Tree → ℕ → Tree → Tree

-- A tree without one subtree, from the missing one upwards.
pub data Ctx : Type 0 where
  top : Ctx
  go_left : Ctx → ℕ → Tree → Ctx
  go_right : Ctx → Tree → ℕ → Ctx

abbrev pub one_if : ℕ → ℕ → ℕ
one_if x a = if x == a then 1 else 0

abbrev pub count : ℕ → Tree → ℕ
count x leaf = 0
count x (node l a r) = count x l + one_if x a + count x r

abbrev pub count_ctx : ℕ → Ctx → ℕ
count_ctx x top = 0
count_ctx x (go_left c a r) = count_ctx x c + one_if x a + count x r
count_ctx x (go_right c l a) = count_ctx x c + one_if x a + count x l

-- The links at `p`, whose parent is `par`, are this tree.
abbrev pub Rep : Links → ℕ → ℕ → Tree → Type 0
Rep l p par leaf = p ≡ 0
Rep l p par (node tl a tr) =
    (p ≡ a) × (0 < a) × (l.parent a ≡ par) × Rep l (l.left a) a tl × Rep l (l.right a) a tr

-- The links above `hole`, whose parent is `par`, are this context.
abbrev pub RepCtx : Links → ℕ → ℕ → Ctx → Type 0
RepCtx l hole par top = (l.root ≡ hole) × (par ≡ 0)
RepCtx l hole par (go_left c a r) =
    (par ≡ a) × (0 < a) × (l.left a ≡ hole) × Rep l (l.right a) a r × RepCtx l a (l.parent a) c
RepCtx l hole par (go_right c t a) =
    (par ≡ a) × (0 < a) × (l.right a ≡ hole) × Rep l (l.left a) a t × RepCtx l a (l.parent a) c

-- The links of one event are the same in both.
pub record Agree (l l' : Links) (x : ℕ) : Type 0 where
  pub left : l'.left x ≡ l.left x
  pub right : l'.right x ≡ l.right x
  pub parent : l'.parent x ≡ l.parent x

pub apart : (t : Tree) (x z : ℕ) → 0 < count x t → count z t ≡ 0 → x ≢ z
apart t x z some none = λ e. omega (arith, ap (λ w. count w t) e)

pub apart_ctx : (c : Ctx) (x z : ℕ) → 0 < count_ctx x c → count_ctx z c ≡ 0 → x ≢ z
apart_ctx c x z some none = λ e. omega (arith, ap (λ w. count_ctx w c) e)

pub Rep-frame :
    (l l' : Links) (p par : ℕ) (t : Tree)
    → Rep l p par t
    → ((x : ℕ) → 0 < count x t → Agree l l' x)
    → Rep l' p par t
Rep-frame l l' p par leaf r same = r
Rep-frame l l' p par (node tl a tr) r same =
    let here : Agree l l' a = same a (ground arith) in
    (
      r.0,
      r.1,
      here.parent ∙ r.2,
      rw here.left (Rep-frame l l' (l.left a) a tl r.3 (λ x h. same x (omega arith))),
      rw here.right (Rep-frame l l' (l.right a) a tr r.4 (λ x h. same x (omega arith))),
    )

pub RepCtx-frame :
    (l l' : Links) (hole par : ℕ) (c : Ctx)
    → RepCtx l hole par c
    → l'.root ≡ l.root
    → ((x : ℕ) → 0 < count_ctx x c → Agree l l' x)
    → RepCtx l' hole par c
RepCtx-frame l l' hole par top r root same = (root ∙ r.0, r.1)
RepCtx-frame l l' hole par (go_left c a t) r root same =
    let here : Agree l l' a = same a (ground arith) in
    (
      r.0,
      r.1,
      here.left ∙ r.2,
      rw here.right (Rep-frame l l' (l.right a) a t r.3 (λ x h. same x (omega arith))),
      rw here.parent (RepCtx-frame l l' a (l.parent a) c r.4 root (λ x h. same x (omega arith))),
    )
RepCtx-frame l l' hole par (go_right c t a) r root same =
    let here : Agree l l' a = same a (ground arith) in
    (
      r.0,
      r.1,
      here.right ∙ r.2,
      rw here.left (Rep-frame l l' (l.left a) a t r.3 (λ x h. same x (omega arith))),
      rw here.parent (RepCtx-frame l l' a (l.parent a) c r.4 root (λ x h. same x (omega arith))),
    )

-- NULL is in no tree and in no context.
pub Rep-zero : (l : Links) (p par : ℕ) (t : Tree) → Rep l p par t → count 0 t ≡ 0
Rep-zero l p par leaf r = omega arith
Rep-zero l p par (node tl a tr) r =
    ground (arith, r.1, Rep-zero l (l.left a) a tl r.3, Rep-zero l (l.right a) a tr r.4)

-- The root of a tree is none of what is not in it.
pub Rep-root-ne :
    (l : Links) (p par u : ℕ) (t : Tree) → Rep l p par t → 0 < u → count u t ≡ 0 → p ≢ u
Rep-root-ne l p par u leaf r pos out = omega (arith, r)
Rep-root-ne l p par u (node tl a tr) r pos out = ground (arith, r.0)

-- A tree hung below another parent: only the link of its root upwards may differ.
pub Rep-rehang :
    (l l' : Links) (p par par' : ℕ) (t : Tree)
    → Rep l p par t
    → ((x : ℕ) → count x t ≤ 1)
    → ((x : ℕ) → 0 < count x t → (l'.left x ≡ l.left x) × (l'.right x ≡ l.right x))
    → ((x : ℕ) → 0 < count x t → x ≢ p → l'.parent x ≡ l.parent x)
    → (0 < p → l'.parent p ≡ par')
    → Rep l' p par' t
Rep-rehang l l' p par par' leaf r once same parents hung = r
Rep-rehang l l' p par par' (node tl a tr) r once same parents hung =
    let here = same a (ground arith) in
    let sub : (x : ℕ) → count x tl + count x tr ≤ 1 = λ x. omega (arith, once x) in
    let out : count a tl + count a tr ≡ 0 = ground (arith, once a) in
    let keep : (x : ℕ) → 0 < count x tl + count x tr → Agree l l' x = λ x h. record {
      left = (same x (ground arith)).0;
      right = (same x (ground arith)).1;
      parent =
          parents x (ground arith)
            (λ e. omega (arith, out, ap (λ w. count w tl + count w tr) (e ∙ r.0)));
    } in
    (
      r.0,
      r.1,
      subst (λ w. l'.parent w ≡ par') r.0 (hung (rw r.0 r.1)),
      rw here.0 (Rep-frame l l' (l.left a) a tl r.3 (λ x h. keep x (omega arith))),
      rw here.1 (Rep-frame l l' (l.right a) a tr r.4 (λ x h. keep x (omega arith))),
    )
