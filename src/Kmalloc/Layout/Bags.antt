-- ===== src/Kmalloc/Layout/Bags.antt =====
-- Lists of addresses in which only what they hold matters, and how often.
use flurry.Prelude.{
  ℕ, ◌+◌, ◌<◌, ◌≡◌, sym, true, List, [], ◌∷◌, arith, ◌==◌, if◌then◌else◌, All, inl, inr, Bool-cases,
  ==_iff,
}
use mathlib.Core.Path.{subst}
use flurry.Kmalloc.Freelist.{Far, Spread, has, erase, InHeap-has}

abbrev pub count : ℕ → List ℕ → ℕ
count x [] = 0
count x (a ∷ rest) = (if x == a then 1 else 0) + count x rest

abbrev pub SameItems : List ℕ → List ℕ → Type 0
SameItems xs ys = (x : ℕ) → count x xs ≡ count x ys

pub count-has : (x : ℕ) (xs : List ℕ) → has x xs ≡ true → 0 < count x xs
count-has x [] h = cc
count-has x (a ∷ rest) h = ground (arith, count-has x rest)

pub has-count : (x : ℕ) (xs : List ℕ) → 0 < count x xs → has x xs ≡ true
has-count x [] h = absurd (omega arith)
has-count x (a ∷ rest) h = ground (arith, has-count x rest)

pub count-erase :
    (x n : ℕ) (xs : List ℕ)
    → has n xs ≡ true
    → count x (erase n xs) + (if x == n then 1 else 0) ≡ count x xs
count-erase x n [] h = cc
count-erase x n (a ∷ rest) h = ground (arith, count-erase x n rest)

-- A fact about each item, by membership.
module _ {ℓ} (P : ℕ → Type ℓ) where
  pub All-has : (x : ℕ) (xs : List ℕ) → All P xs → has x xs ≡ true → P x
  All-has x [] all h = cc
  All-has x (a ∷ rest) all h = elim (Bool-cases (x == a)) [
    | inl e ↦ subst P (sym ((==_iff x a).0 e)) all.0
    | inr e ↦ All-has x rest all.1 (rw e at h)
  ]

  pub has-All : (xs : List ℕ) → ((x : ℕ) → has x xs ≡ true → P x) → All P xs
  has-All [] h = tt
  has-All (a ∷ rest) h = (h a (ground arith), has-All rest (λ x e. h x (ground arith)))

  pub All-same : (xs ys : List ℕ) → SameItems xs ys → All P ys → All P xs
  All-same xs ys same all =
      has-All xs
        (λ x h. All-has x ys all (has-count x ys (omega (arith, count-has x xs h, same x))))

  pub All-erase : (n : ℕ) (xs : List ℕ) → All P xs → All P (erase n xs)
  All-erase n [] all = tt
  All-erase n (a ∷ rest) all = elim (Bool-cases (n == a)) [
    | inl e ↦ rw e all.1
    | inr e ↦ rw e (all.0, All-erase n rest all.1)
  ]

pub All-map {ℓ κ} :
    (P : ℕ → Type ℓ) (Q : ℕ → Type κ) → ((x : ℕ) → P x → Q x) → (xs : List ℕ) → All P xs → All Q xs
All-map P Q f [] all = tt
All-map P Q f (x ∷ xs) all = (f x all.0, All-map P Q f xs all.1)

pub All-map₂ {ℓ κ ι} :
    (P : ℕ → Type ℓ) (Q : ℕ → Type κ) (R : ℕ → Type ι)
    → ((x : ℕ) → P x → Q x → R x)
    → (xs : List ℕ) → All P xs
    → All Q xs
    → All R xs
All-map₂ P Q R f [] all all' = tt
All-map₂ P Q R f (x ∷ xs) all all' = (f x all.0 all'.0, All-map₂ P Q R f xs all.1 all'.1)

Far-sym : (a b : ℕ) → Far a b → Far b a
Far-sym a b f = ground arith

pub Far-erase : (n : ℕ) (xs : List ℕ) → Spread xs → has n xs ≡ true → All (Far n) (erase n xs)
Far-erase n [] s h = cc
Far-erase n (a ∷ rest) s h = elim (Bool-cases (n == a)) [
  | inl e ↦ rw e (subst (λ b. All (Far b) rest) (sym ((==_iff n a).0 e)) s.1)
  | inr e ↦
      let deeper : has n rest ≡ true = rw e at h in
      rw e (Far-sym a n (All-has (Far a) n rest s.1 deeper), Far-erase n rest s.2 deeper)
]

pub Spread-erase : (n : ℕ) (xs : List ℕ) → Spread xs → Spread (erase n xs)
Spread-erase n [] s = tt
Spread-erase n (a ∷ rest) s = elim (Bool-cases (n == a)) [
  | inl e ↦ rw e s.2
  | inr e ↦ rw e (s.0, All-erase (Far a) n rest s.1, Spread-erase n rest s.2)
]

-- Whether addresses are spread is a matter of what the list holds and how often.
pub Spread-same : (xs ys : List ℕ) → SameItems xs ys → Spread ys → Spread xs
Spread-same [] ys same s = tt
Spread-same (a ∷ rest) ys same s =
    let in_ys : has a ys ≡ true = has-count a ys (ground (arith, same a)) in
    let same' : SameItems rest (erase a ys) =
      λ x. ground (arith, same x, count-erase x a ys in_ys) in
    (
      InHeap-has a ys s in_ys,
      All-same (Far a) rest (erase a ys) same' (Far-erase a ys s in_ys),
      Spread-same rest (erase a ys) same' (Spread-erase a ys s),
    )
