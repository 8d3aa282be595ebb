-- ===== src/Kmalloc/Freelist/Unlink.antt =====
-- `freelist_remove_node`: the node is taken out wherever it stands.
use flurry.Prelude.{
  ℕ, ◌≡◌, ◌≢◌, refl, ◌∙◌, ap, inl, inr, true, false, List, [], ◌∷◌, arith, ◌==◌, ==_iff, ==_refl,
  ne→==, if◌then◌else◌, Bool-cases,
}
use mathlib.Core.Path.{subst}
use flurry.Prelude.Memory.{Mem, write, write_ne, write_self}
use flurry.Prelude.Outcome.{ok}
use flurry.Kmalloc.{Heap, null, prev_of, next_of, unlink_prev, unlink_next, freelist_remove_node}
use flurry.Kmalloc.Freelist.{
  Linked, Spread, InHeap, Far, NotLink, has, erase, IsFreelist, heap, Linked-write, NotLink-prev,
  NotLink-next, InHeap-has,
}

abbrev unlinked : ℕ → Mem → Mem
unlinked n m = unlink_next n (unlink_prev n m)

module _ (n : ℕ) (m : Mem) where
  unlink_prev-null : m (prev_of n) ≡ null → unlink_prev n m ≡ m
  unfolding unlink_prev
  unlink_prev-null e = rw e

  unlink_next-null : m (next_of n) ≡ null → unlink_next n m ≡ m
  unfolding unlink_next
  unlink_next-null e = rw e

  unlink_prev-real :
      (before : ℕ)
      → m (prev_of n) ≡ before
      → InHeap before
      → unlink_prev n m ≡ write m (next_of before) (m (next_of n))
  unfolding unlink_prev
  unlink_prev-real before e i = rw (e, ne→== before null (omega arith))

  unlink_next-real :
      (b : ℕ) → m (next_of n) ≡ b → InHeap b → unlink_next n m ≡ write m (prev_of b) (m (prev_of n))
  unfolding unlink_next
  unlink_next-real b e i = rw (e, ne→== b null (omega arith))

-- After the node is out: the list without it, its own `next` link kept, and no other word changed
-- than the links of the list and the `next` link of the node before it.
record Relinked (m : Mem) (before n : ℕ) (xs : List ℕ) (m' : Mem) : Type 0 where
  links : Linked m' before (m' (next_of before)) (erase n xs)
  kept : m' (next_of n) ≡ m (next_of n)
  same : (x : ℕ) → x ≢ next_of before → NotLink x xs → m' x ≡ m x

-- The node stands right behind `before`.
module _ (m : Mem) (before n : ℕ) where
  abbrev bridged : Mem
  bridged = write m (next_of before) (m (next_of n))

  unlinked-last :
      m (prev_of n) ≡ before
      → InHeap before
      → InHeap n
      → Far before n
      → m (next_of n) ≡ null
      → unlinked n m ≡ bridged
  unlinked-last e ib i f last =
      ap (unlink_next n) (unlink_prev-real n m before e ib)
      ∙ unlink_next-null n bridged (write_ne m _ _ _ (ground arith) ∙ last)

  unlinked-inner :
      (b : ℕ)
      → m (prev_of n) ≡ before
      → InHeap before
      → InHeap n
      → Far before n
      → m (next_of n) ≡ b
      → InHeap b
      → unlinked n m ≡ write bridged (prev_of b) before
  unlinked-inner b e ib i f next j =
      ap (unlink_next n) (unlink_prev-real n m before e ib)
      ∙ unlink_next-real n bridged b (write_ne m _ _ _ (ground arith) ∙ next) j
      ∙ ap (write bridged (prev_of b)) (write_ne m _ _ _ (ground arith) ∙ e)

  Relinked-last :
      Linked m before n (n ∷ []) → Spread (before ∷ n ∷ []) → Relinked m before n (n ∷ []) bridged
  Relinked-last l s = record {
    links = rw (==_refl n) (write_self m _ _ ∙ l.2);
    kept = write_ne m _ _ _ (ground arith);
    same = λ x ne out. write_ne m _ _ x ne;
  }

  inner-words :
      (b : ℕ)
      → InHeap before
      → InHeap n
      → InHeap b
      → Far before n
      → Far before b
      → Far n b
      → let m' = write bridged (prev_of b) before in
        (m' (next_of before) ≡ m (next_of n))
        × (m' (prev_of b) ≡ before)
        × (m' (next_of b) ≡ m (next_of b))
        × (m' (next_of n) ≡ m (next_of n))
  unfolding write
  inner-words b ib i j f g k = ground arith

  Relinked-inner :
      (b : ℕ) (rest : List ℕ)
      → Linked m before n (n ∷ b ∷ rest)
      → Spread (before ∷ n ∷ b ∷ rest)
      → Relinked m before n (n ∷ b ∷ rest) (write bridged (prev_of b) before)
  Relinked-inner b rest l s =
      let words = inner-words b s.0 s.2.0 s.2.2.0 s.1.0 s.1.1.0 s.2.1.0 in
      let tail =
        Linked-write bridged b (m (next_of b)) (prev_of b) before rest
          (Linked-write m b (m (next_of b)) (next_of before) (m (next_of n)) rest l.2.2
            (NotLink-next before rest s.0 s.1.1.1 s.2.2.2))
          (NotLink-prev b rest s.2.2.0 s.2.2.1 s.2.2.2) in
      record {
        links = rw (==_refl n) (words.0 ∙ l.2.0, words.1, rw words.2 tail);
        kept = words.3;
        same = λ x ne out. write_ne bridged _ _ x out.1.0.0 ∙ write_ne m _ _ x ne;
      }

  Relinked-here :
      (rest : List ℕ)
      → Linked m before n (n ∷ rest)
      → Spread (before ∷ n ∷ rest)
      → Relinked m before n (n ∷ rest) (unlinked n m)
  Relinked-here [] l s = rw (unlinked-last l.1 s.0 s.2.0 s.1.0 l.2) (Relinked-last l s)
  Relinked-here (b ∷ rest) l s =
      rw (unlinked-inner b l.1 s.0 s.2.0 s.1.0 l.2.0 s.2.2.0) (Relinked-inner b rest l s)

-- The node stands further back: what was done behind `a` is seen from before `a`.
Relinked-step :
    (m m' : Mem) (n before a : ℕ) (rest : List ℕ)
    → (n == a) ≡ false
    → Linked m before (m (next_of before)) (a ∷ rest)
    → Spread (before ∷ a ∷ rest)
    → Relinked m a n rest m'
    → Relinked m before n (a ∷ rest) m'
Relinked-step m m' n before a rest e l s r = record {
  links = rw e (
    r.same (next_of before) (ground arith) (NotLink-next before rest s.0 s.1.1 s.2.2) ∙ l.0,
    r.same (prev_of a) (ground arith) (NotLink-prev a rest s.2.0 s.2.1 s.2.2) ∙ l.1,
    r.links,
  );
  kept = r.kept;
  same = λ x ne out. r.same x out.0.1 out.1;
}

Relinked-behind :
    (m : Mem) (n before : ℕ) (xs : List ℕ)
    → Linked m before (m (next_of before)) xs
    → Spread (before ∷ xs)
    → has n xs ≡ true
    → Relinked m before n xs (unlinked n m)
Relinked-behind m n before [] l s in_xs = cc
Relinked-behind m n before (a ∷ rest) l s in_xs = elim (Bool-cases (n == a)) [
  | inl e ↦
      subst
        (λ c.
          Linked m before c (c ∷ rest)
          → Spread (before ∷ c ∷ rest)
          → Relinked m before n (c ∷ rest) (unlinked n m))
        ((==_iff n a).0 e) (Relinked-here m before n rest) (refl, l.1, l.2) s
  | inr e ↦
      Relinked-step m (unlinked n m) n before a rest e l s
        (Relinked-behind m n a rest l.2 s.2 (rw e at in_xs))
]

-- What `freelist_remove_node` leaves of a list.
pub record Removed (n : ℕ) (h : Heap) (xs : List ℕ) (h' : Heap) : Type 0 where
  pub freelist : IsFreelist h' (erase n xs)
  pub same : (x : ℕ) → NotLink x xs → h'.mem x ≡ h.mem x

-- The node at the head.
module _ (m : Mem) (n : ℕ) where
  head-inner :
      (b : ℕ)
      → m (prev_of n) ≡ null
      → m (next_of n) ≡ b
      → InHeap b
      → unlinked n m ≡ write m (prev_of b) null
  head-inner b e next j =
      ap (unlink_next n) (unlink_prev-null n m e)
      ∙ unlink_next-real n m b next j
      ∙ ap (write m (prev_of b)) e

  head-last : m (prev_of n) ≡ null → m (next_of n) ≡ null → unlinked n m ≡ m
  head-last e last = ap (unlink_next n) (unlink_prev-null n m e) ∙ unlink_next-null n m last

  Removed-head :
      (rest : List ℕ)
      → Linked m null n (n ∷ rest)
      → Spread (n ∷ rest)
      → Removed n (heap m n) (n ∷ rest) (heap (unlinked n m) (unlinked n m (next_of n)))
  Removed-head [] l s =
      rw (head-last l.1 l.2)
        (record { freelist = rw (==_refl n) (record { links = l.2 }); same = λ x out. refl })
  Removed-head (b ∷ rest) l s = rw (head-inner b l.1 l.2.0 s.2.0) (record {
    freelist = rw (==_refl n) (record {
      links = (
        write_ne m _ _ _ (ground arith) ∙ l.2.0,
        write_self m _ _,
        rw (write_ne m (prev_of b) null (next_of b) (ground arith)) (
            Linked-write m b (m (next_of b)) (prev_of b) null rest l.2.2
              (NotLink-prev b rest s.2.0 s.2.1 s.2.2)),
      );
    });
    same = λ x out. write_ne m _ _ x out.1.0.0;
  })

-- `freelist_remove_node` as one equation.
remove-eq :
    (n : ℕ) (m : Mem) (head : ℕ)
    → n ≢ null
    → freelist_remove_node n (heap m head)
      ≡ ok (heap (unlinked n m) (if n == head then unlinked n m (next_of head) else head))
unfolding freelist_remove_node
remove-eq n m head ne = rw (ne→== n null ne)

remove-Removed :
    (n : ℕ) (m : Mem) (head : ℕ) (xs : List ℕ)
    → Linked m null head xs
    → Spread xs
    → has n xs ≡ true
    → Removed n
        (heap m head)
        xs
        (heap (unlinked n m) (if n == head then unlinked n m (next_of head) else head))
remove-Removed n m head [] l s in_xs = cc
remove-Removed n m head (a ∷ rest) l s in_xs = elim (Bool-cases (n == a)) [
  | inl e ↦ rw l.0 (
      subst
        (λ c.
          Linked m null c (c ∷ rest)
          → Spread (c ∷ rest)
          → Removed n (heap m c) (c ∷ rest)
              (heap (unlinked n m) (if n == c then unlinked n m (next_of c) else c)))
        ((==_iff n a).0 e) (λ l' s'. rw (==_refl n) (Removed-head m n rest l' s')) (refl, l.1, l.2)
        s)
  | inr e ↦
      let r = Relinked-behind m n a rest l.2 s (rw e at in_xs) in
      rw (l.0, e)
        (record {
          freelist = rw e (record {
            links = (
              refl,
              r.same (prev_of a) (ground arith) (NotLink-prev a rest s.0 s.1 s.2) ∙ l.1,
              r.links,
            );
          });
          same = λ x out. r.same x out.0.1 out.1;
        })
]

-- From a well-formed freelist that holds the node, `freelist_remove_node` returns one without it,
-- and changes no word but the links of the list.
pub freelist_remove_node-Removed :
    (n : ℕ) (h : Heap) (xs : List ℕ)
    → IsFreelist h xs
    → Spread xs
    → has n xs ≡ true
    → (h' : Heap) × (freelist_remove_node n h ≡ ok h') × Removed n h xs h'
freelist_remove_node-Removed n h xs l s in_xs =
    let i : InHeap n = InHeap-has n xs s in_xs in
    let head = h.freelist_head in
    (
      heap (unlinked n h.mem) (if n == head then unlinked n h.mem (next_of head) else head),
      remove-eq n h.mem head (omega arith),
      remove-Removed n h.mem head xs l.links s in_xs,
    )
