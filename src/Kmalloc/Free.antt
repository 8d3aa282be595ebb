-- ===== src/Kmalloc/Free.antt =====
-- `kfree` on a well-formed heap: the row of chunks that it makes, and what surrounds a chunk in use.
pub mod Alone
pub mod Grow
pub mod Next
pub mod Prev
pub mod Both
pub mod Frame
pub mod Steps
pub mod Cases
pub mod CasesPrev
pub mod Whole
use flurry.Prelude.{
  ℕ, ◌+◌, ◌-◌, ◌<◌, ◌≤◌, ◌≡◌, ◌≢◌, refl, sym, ◌∙◌, ap, ◌⊎◌, inl, inr, Bool, true, false, List, [],
  ◌∷◌, arith, ◌==◌, ==_iff, ==_refl, if◌then◌else◌, Bool-cases, All,
}
use mathlib.Core.Path.{subst}
use flurry.Prelude.Memory.{Mem}
use flurry.Kmalloc.{
  Heap, heap_start, heap_end, prev_of, next_of, is_in_heap_bounds, set_flag, flag_is_prev_free,
}
use flurry.Kmalloc.Meta.{IsMeta, IsMeta-frame, set_prev_free-IsMeta, set_flag_ne}
use flurry.Kmalloc.Freelist.{NotLink, has}
use flurry.Kmalloc.Layout.{
  Chunk, used, unused, size_of, Tiles, Tiles-le, Tiles-frame, free_at, words, words-within,
}
use flurry.Kmalloc.Layout.Bags.{All-map}
use flurry.Kmalloc.Layout.Suffix.{chunks_from, starts, starts-le, prev_at}
use flurry.Kmalloc.Alloc.{in_bounds, out_of_bounds}
use flurry.Kmalloc.InUse.{InUse, InUse-above}

-- A free chunk of `s` bytes in front of a row, merged with the first of the row if that is free.
abbrev pub merge_next : ℕ → List Chunk → List Chunk
merge_next s [] = unused s ∷ []
merge_next s (used n ∷ cs) = unused s ∷ (used n ∷ cs)
merge_next s (unused n ∷ cs) = unused (s + n) ∷ cs

-- A row that starts with the chunk to be freed, or with the free chunk before it, after `kfree`.
abbrev pub free_here : List Chunk → List Chunk
free_here [] = []
free_here (used s ∷ cs) = merge_next s cs
free_here (unused k ∷ []) = unused k ∷ []
free_here (unused k ∷ (used s ∷ cs)) = merge_next (k + s) cs
free_here (unused k ∷ (unused n ∷ cs)) = unused k ∷ (unused n ∷ cs)

-- Whether the first chunk of a row is free.
abbrev pub head_free : List Chunk → Bool
head_free [] = false
head_free (used n ∷ cs) = false
head_free (unused n ∷ cs) = true

-- A fact about the free chunks of a row, by the part before a chunk and the part from it on.
pub All-split {ℓ} :
    (P : ℕ → Type ℓ) (m : Mem) (b a : ℕ) (prev : Bool) (cs : List Chunk)
    → Tiles m a prev cs
    → starts b a cs ≡ true
    → ((x : ℕ) → x + 32 ≤ b → P x)
    → All P (free_at b (chunks_from b a cs))
    → All P (free_at a cs)
All-split P m b a prev [] t st low all = cc
All-split P m b a prev (used sz ∷ cs) t st low all = elim (Bool-cases (b == a)) [
  | inl e ↦ subst (λ x. All P (free_at x (used sz ∷ cs))) ((==_iff b a).0 e) (rw e at all)
  | inr e ↦ All-split P m b (a + sz) false cs t.2 (rw e at st) low (rw e at all)
]
All-split P m b a prev (unused sz ∷ cs) t st low all = elim (Bool-cases (b == a)) [
  | inl e ↦ subst (λ x. All P (free_at x (unused sz ∷ cs))) ((==_iff b a).0 e) (rw e at all)
  | inr e ↦
      let st' : starts b (a + sz) cs ≡ true = rw e at st in
      (
        low a (omega (arith, starts-le m b (a + sz) true cs t.2 st')),
        All-split P m b (a + sz) true cs t.2 st' low (rw e at all),
      )
]

-- The free chunk that ends where a chunk starts.
pub record Before (b a : ℕ) (cs : List Chunk) : Type 0 where
  pub p : ℕ
  pub k : ℕ
  pub starts_at : starts p a cs ≡ true
  pub here : chunks_from p a cs ≡ unused k ∷ chunks_from b a cs
  pub ends : p + k ≡ b

Before-cons :
    (m : Mem) (b a : ℕ) (c : Chunk) (cs : List Chunk) (prev : Bool)
    → Tiles m (a + size_of c) prev cs
    → 32 ≤ size_of c
    → (b == a) ≡ false
    → Before b (a + size_of c) cs
    → Before b a (c ∷ cs)
Before-cons m b a c cs prev t big e f =
    let le = starts-le m f.p (a + size_of c) prev cs t f.starts_at in
    let e' : (f.p == a) ≡ false = ground arith in
    record {
      p = f.p;
      k = f.k;
      starts_at = rw e' f.starts_at;
      here = rw (e', e) f.here;
      ends = f.ends;
    }

pub chunks_from-here : (b a : ℕ) (cs : List Chunk) → b ≡ a → chunks_from b a cs ≡ cs
chunks_from-here b a [] e = refl
chunks_from-here b a (c ∷ cs) e = rw ((==_iff b a).1 e) refl

pub before_lem :
    (m : Mem) (b a : ℕ) (prev : Bool) (cs : List Chunk)
    → Tiles m a prev cs
    → starts b a cs ≡ true
    → prev_at b a prev cs ≡ true
    → ((b ≡ a) × (prev ≡ true)) ⊎ Before b a cs
before_lem m b a prev [] t st at = cc
before_lem m b a prev (used sz ∷ cs) t st at = elim (Bool-cases (b == a)) [
  | inl e ↦ inl ((==_iff b a).0 e, rw e at at)
  | inr e ↦ elim (before_lem m b (a + sz) false cs t.2 (rw e at st) (rw e at at)) [
    | inl first ↦ cc (first.1)
    | inr f ↦ inr (Before-cons m b a (used sz) cs false t.2 t.1 e f)
  ]
]
before_lem m b a prev (unused sz ∷ cs) t st at = elim (Bool-cases (b == a)) [
  | inl e ↦ inl ((==_iff b a).0 e, rw e at at)
  | inr e ↦ elim (before_lem m b (a + sz) true cs t.2 (rw e at st) (rw e at at)) [
    | inl first ↦ inr (record {
      p = a;
      k = sz;
      starts_at = rw (==_refl a) refl;
      here =
          rw (==_refl a, e)
            (ap (λ ys. unused sz ∷ ys) (sym (chunks_from-here b (a + sz) cs first.0)));
      ends = sym (first.0);
    })
    | inr f ↦ inr (Before-cons m b a (unused sz) cs true t.2 t.1 e f)
  ]
]

-- The free chunks from a chunk on are free chunks of the row.
pub has-chunks_from :
    (x b a : ℕ) (cs : List Chunk)
    → starts b a cs ≡ true
    → has x (free_at b (chunks_from b a cs)) ≡ true
    → has x (free_at a cs) ≡ true
has-chunks_from x b a [] st e = cc
has-chunks_from x b a (used sz ∷ cs) st e = elim (Bool-cases (b == a)) [
  | inl q ↦ subst (λ y. has x (free_at y (used sz ∷ cs)) ≡ true) ((==_iff b a).0 q) (rw q at e)
  | inr q ↦ has-chunks_from x b (a + sz) cs (rw q at st) (rw q at e)
]
has-chunks_from x b a (unused sz ∷ cs) st e = elim (Bool-cases (b == a)) [
  | inl q ↦ subst (λ y. has x (free_at y (unused sz ∷ cs)) ≡ true) ((==_iff b a).0 q) (rw q at e)
  | inr q ↦ ground (arith, has-chunks_from x b (a + sz) cs (rw q at st) (rw q at e))
]

-- Memory in use lies before a chunk or in the part of the row from it on.
pub InUse-split :
    (m : Mem) (w b a : ℕ) (prev : Bool) (cs : List Chunk)
    → Tiles m a prev cs
    → starts b a cs ≡ true
    → InUse w a cs
    → (w < b) ⊎ InUse w b (chunks_from b a cs)
InUse-split m w b a prev [] t st u = absurd u
InUse-split m w b a prev (used sz ∷ cs) t st u = elim (Bool-cases (b == a)) [
  | inl e ↦ rw e (inr (subst (λ x. InUse w x (used sz ∷ cs)) (sym ((==_iff b a).0 e)) u))
  | inr e ↦
      let st' : starts b (a + sz) cs ≡ true = rw e at st in
      rw e (elim u [
        | inl within ↦ inl (omega (arith, starts-le m b (a + sz) false cs t.2 st'))
        | inr u' ↦ InUse-split m w b (a + sz) false cs t.2 st' u'
      ])
]
InUse-split m w b a prev (unused sz ∷ cs) t st u = elim (Bool-cases (b == a)) [
  | inl e ↦ rw e (inr (subst (λ x. InUse w x (unused sz ∷ cs)) (sym ((==_iff b a).0 e)) u))
  | inr e ↦ rw e (InUse-split m w b (a + sz) true cs t.2 (rw e at st) u)
]
