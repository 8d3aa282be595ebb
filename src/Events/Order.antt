-- ===== src/Events/Order.antt =====
-- Lists of events in the order of their times.
use flurry.Prelude.{
  ℕ, suc, ◌+◌, ◌<◌, ◌≤◌, ◌≡◌, ◌≢◌, ◌∙◌, refl, ap, Bool-cases, inl, inr, true, false, ◌==◌, ltb,
  if◌then◌else◌, arith, ==_refl, ==_iff, List, [], ◌∷◌, ◌++◌, length,
}
use flurry.Prelude.Memory.{Mem, write, write_ne}
use flurry.Events.Shape.{one_if}
use flurry.Events.Items.{count_in}

-- An event put behind those that are not later, before the first that is.
abbrev pub insert_by : Mem → ℕ → List ℕ → List ℕ
insert_by time n [] = n ∷ []
insert_by time n (y ∷ ys) = if ltb (time n) (time y) then n ∷ (y ∷ ys) else y ∷ insert_by time n ys

abbrev pub erase : ℕ → List ℕ → List ℕ
erase n [] = []
erase n (y ∷ ys) = if n == y then ys else y ∷ erase n ys

-- No event of the list is before the time `m`, or none after it.
abbrev pub From : Mem → ℕ → List ℕ → Type 0
From time m [] = Unit
From time m (y ∷ ys) = (m ≤ time y) × From time m ys

abbrev pub UpTo : Mem → ℕ → List ℕ → Type 0
UpTo time m [] = Unit
UpTo time m (y ∷ ys) = (time y ≤ m) × UpTo time m ys

-- Every event is at the time of those before it or later.
abbrev pub Sorted : Mem → List ℕ → Type 0
Sorted time [] = Unit
Sorted time (y ∷ ys) = From time (time y) ys × Sorted time ys

pub From-split :
    (time : Mem) (m : ℕ) (xs ys : List ℕ) → From time m (xs ++ ys) → From time m xs × From time m ys
From-split time m [] ys h = (tt, h)
From-split time m (x ∷ xs) ys h = let r = From-split time m xs ys h.1 in ((h.0, r.0), r.1)

pub From-append :
    (time : Mem) (m : ℕ) (xs ys : List ℕ) → From time m xs → From time m ys → From time m (xs ++ ys)
From-append time m [] ys h k = k
From-append time m (x ∷ xs) ys h k = (h.0, From-append time m xs ys h.1 k)

pub From-le : (time : Mem) (m k : ℕ) (xs : List ℕ) → k ≤ m → From time m xs → From time k xs
From-le time m k [] le h = tt
From-le time m k (x ∷ xs) le h = (omega (arith, h.0), From-le time m k xs le h.1)

pub Sorted-left : (time : Mem) (xs ys : List ℕ) → Sorted time (xs ++ ys) → Sorted time xs
Sorted-left time [] ys h = tt
Sorted-left time (x ∷ xs) ys h =
    ((From-split time (time x) xs ys h.0).0, Sorted-left time xs ys h.1)

pub Sorted-right : (time : Mem) (xs ys : List ℕ) → Sorted time (xs ++ ys) → Sorted time ys
Sorted-right time [] ys h = h
Sorted-right time (x ∷ xs) ys h = Sorted-right time xs ys h.1

-- What stands before an event of an ordered list is not later.
pub Sorted-UpTo :
    (time : Mem) (a : ℕ) (xs ys : List ℕ) → Sorted time (xs ++ (a ∷ ys)) → UpTo time (time a) xs
Sorted-UpTo time a [] ys h = tt
Sorted-UpTo time a (x ∷ xs) ys h =
    ((From-split time (time x) xs (a ∷ ys) h.0).1.0, Sorted-UpTo time a xs ys h.1)

pub insert_by-before :
    (time : Mem) (n a : ℕ) (xs ys : List ℕ)
    → ltb (time n) (time a) ≡ true
    → insert_by time n (xs ++ (a ∷ ys)) ≡ insert_by time n xs ++ (a ∷ ys)
insert_by-before time n a [] ys lt = rw lt refl
insert_by-before time n a (x ∷ xs) ys lt = elim (Bool-cases (ltb (time n) (time x))) [
  | inl e ↦ rw e refl
  | inr e ↦ rw (e, insert_by-before time n a xs ys lt) refl
]

pub insert_by-behind :
    (time : Mem) (n a : ℕ) (xs ys : List ℕ)
    → ltb (time n) (time a) ≡ false
    → UpTo time (time a) xs
    → insert_by time n (xs ++ (a ∷ ys)) ≡ xs ++ (a ∷ insert_by time n ys)
insert_by-behind time n a [] ys ge low = rw ge refl
insert_by-behind time n a (x ∷ xs) ys ge low =
    let late : ltb (time n) (time x) ≡ false = ground (arith, low.0) in
    rw (late, insert_by-behind time n a xs ys ge low.1) refl

From-insert_by :
    (time : Mem) (m n : ℕ) (xs : List ℕ)
    → m ≤ time n
    → From time m xs
    → From time m (insert_by time n xs)
From-insert_by time m n [] le h = (le, tt)
From-insert_by time m n (x ∷ xs) le h = elim (Bool-cases (ltb (time n) (time x))) [
  | inl e ↦ rw e (le, h)
  | inr e ↦ rw e (h.0, From-insert_by time m n xs le h.1)
]

pub insert_by-Sorted :
    (time : Mem) (n : ℕ) (xs : List ℕ) → Sorted time xs → Sorted time (insert_by time n xs)
insert_by-Sorted time n [] h = (tt, tt)
insert_by-Sorted time n (x ∷ xs) h = elim (Bool-cases (ltb (time n) (time x))) [
  | inl e ↦
      let le : time n ≤ time x = ground arith in
      rw e ((le, From-le time (time x) (time n) xs le h.0), h)
  | inr e ↦
      rw e (From-insert_by time (time x) n xs (ground arith) h.0, insert_by-Sorted time n xs h.1)
]

pub erase-append :
    (n : ℕ) (xs ys : List ℕ) → count_in n xs ≡ 0 → erase n (xs ++ (n ∷ ys)) ≡ xs ++ ys
erase-append n [] ys out = rw (==_refl n) refl
erase-append n (x ∷ xs) ys out =
    let other : (n == x) ≡ false = ground arith in
    rw (other, erase-append n xs ys (omega arith)) refl

pub erase-out : (n : ℕ) (xs : List ℕ) → count_in n xs ≡ 0 → erase n xs ≡ xs
erase-out n [] out = refl
erase-out n (x ∷ xs) out =
    let other : (n == x) ≡ false = ground arith in rw (other, erase-out n xs (omega arith)) refl

pub count_in-insert_by :
    (time : Mem) (x n : ℕ) (xs : List ℕ)
    → count_in x (insert_by time n xs) ≡ one_if x n + count_in x xs
count_in-insert_by time x n [] = refl
count_in-insert_by time x n (y ∷ ys) = elim (Bool-cases (ltb (time n) (time y))) [
  | inl e ↦ rw e refl
  | inr e ↦ rw e (omega (arith, count_in-insert_by time x n ys))
]

From-erase : (time : Mem) (m n : ℕ) (xs : List ℕ) → From time m xs → From time m (erase n xs)
From-erase time m n [] h = tt
From-erase time m n (x ∷ xs) h = elim (Bool-cases (n == x)) [
  | inl e ↦ rw e h.1
  | inr e ↦ rw e (h.0, From-erase time m n xs h.1)
]

pub erase-Sorted : (time : Mem) (n : ℕ) (xs : List ℕ) → Sorted time xs → Sorted time (erase n xs)
erase-Sorted time n [] h = tt
erase-Sorted time n (x ∷ xs) h = elim (Bool-cases (n == x)) [
  | inl e ↦ rw e h.1
  | inr e ↦ rw e (From-erase time (time x) n xs h.0, erase-Sorted time n xs h.1)
]

pub count_in-erase :
    (x n : ℕ) (xs : List ℕ)
    → 0 < count_in n xs
    → count_in x (erase n xs) + one_if x n ≡ count_in x xs
count_in-erase x n [] some = absurd (omega arith)
count_in-erase x n (y ∷ ys) some = elim (Bool-cases (n == y)) [
  | inl e ↦
      let same : n ≡ y = (==_iff n y).0 e in
      rw e (ap (λ w. count_in x ys + one_if x w) same ∙ omega arith)
  | inr e ↦
      let rest : 0 < count_in n ys = ground arith in
      rw e (omega (arith, count_in-erase x n ys rest))
]

pub length-erase : (n : ℕ) (xs : List ℕ) → length (erase n xs) ≤ length xs
length-erase n [] = omega arith
length-erase n (y ∷ ys) = elim (Bool-cases (n == y)) [
  | inl e ↦ rw e (omega arith)
  | inr e ↦ rw e (omega (arith, length-erase n ys))
]

pub erase-head : (x : ℕ) (xs : List ℕ) → erase x (x ∷ xs) ≡ xs
erase-head x xs = rw (==_refl x) refl

From-write :
    (time : Mem) (m n v : ℕ) (xs : List ℕ)
    → count_in n xs ≡ 0
    → From time m xs
    → From (write time n v) m xs
From-write time m n v [] out h = tt
From-write time m n v (x ∷ xs) out h =
    let other : x ≢ n = ground arith in
    (rw (write_ne time n v x other) h.0, From-write time m n v xs (omega arith) h.1)

-- The time of an event that is not in the list does not matter to it.
pub Sorted-write :
    (time : Mem) (n v : ℕ) (xs : List ℕ)
    → count_in n xs ≡ 0
    → Sorted time xs
    → Sorted (write time n v) xs
Sorted-write time n v [] out h = tt
Sorted-write time n v (x ∷ xs) out h =
    let other : x ≢ n = ground arith in
    (
      rw (write_ne time n v x other) (From-write time (time x) n v xs (omega arith) h.0),
      Sorted-write time n v xs (omega arith) h.1,
    )

pub length-insert_by :
    (time : Mem) (n : ℕ) (xs : List ℕ) → length (insert_by time n xs) ≡ suc (length xs)
length-insert_by time n [] = refl
length-insert_by time n (y ∷ ys) = elim (Bool-cases (ltb (time n) (time y))) [
  | inl e ↦ rw e refl
  | inr e ↦ rw e (omega (arith, length-insert_by time n ys))
]

pub count_in-erase_self : (n : ℕ) (xs : List ℕ) → count_in n xs ≤ 1 → count_in n (erase n xs) ≡ 0
count_in-erase_self n xs once =
    let one : one_if n n ≡ 1 = rw (==_refl n) refl in
    elim (Bool-cases (ltb 0 (count_in n xs))) [
      | inl e ↦ omega (arith, count_in-erase n n xs (ground arith), one)
      | inr e ↦ let none : count_in n xs ≡ 0 = ground arith in rw (erase-out n xs none) none
    ]
