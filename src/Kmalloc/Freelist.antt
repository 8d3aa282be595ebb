-- ===== src/Kmalloc/Freelist.antt =====
-- The freelist as a doubly linked list, and what `freelist_add_node` and `freelist_remove_node` do to it.

pub mod Unlink
use flurry.Prelude.{
  ℕ, ◌+◌, ◌<◌, ◌≤◌, ◌≡◌, ◌≢◌, refl, sym, ◌∙◌, ◌⊎◌, inl, inr, Bool, true, false, ◌||◌, List, [], ◌∷◌,
  arith, ◌==◌, ne→==, if◌then◌else◌, Bool-cases, All,
}
use flurry.Prelude.Memory.{Mem, write, write_ne, write_self}
use flurry.Kmalloc.{Heap, heap_start, heap_end, null, prev_of, next_of, freelist_add_node}

-- From `p` the `next` links run through the nodes listed to NULL, and each `prev` link names the
-- node before it, `before` for the first.
abbrev pub Linked : Mem → ℕ → ℕ → List ℕ → Type 0
Linked m before p [] = p ≡ null
Linked m before p (a ∷ rest) = (p ≡ a) × (m (prev_of a) ≡ before) × Linked m a (m (next_of a)) rest

-- A free chunk lies in the heap, and two of them do not overlap.
abbrev pub InHeap : ℕ → Type 0
InHeap a = (heap_start ≤ a) × (a + 32 ≤ heap_end)

abbrev pub Far : ℕ → ℕ → Type 0
Far x y = (x + 32 ≤ y) ⊎ (y + 32 ≤ x)

abbrev pub Spread : List ℕ → Type 0
Spread [] = Unit
Spread (x ∷ xs) = InHeap x × All (Far x) xs × Spread xs

-- The address is no link word of a node listed.
abbrev pub NotLink : ℕ → List ℕ → Type 0
NotLink y = All (λ a. (y ≢ prev_of a) × (y ≢ next_of a))

abbrev pub has : ℕ → List ℕ → Bool
has x [] = false
has x (a ∷ rest) = (x == a) || has x rest

abbrev pub erase : ℕ → List ℕ → List ℕ
erase x [] = []
erase x (a ∷ rest) = if x == a then rest else a ∷ erase x rest

pub NotLink-prev :
    (x : ℕ) (xs : List ℕ) → InHeap x → All (Far x) xs → Spread xs → NotLink (prev_of x) xs
NotLink-prev x [] i f s = tt
NotLink-prev x (y ∷ ys) i f s = ((ground arith, ground arith), NotLink-prev x ys i f.1 s.2)

pub NotLink-next :
    (x : ℕ) (xs : List ℕ) → InHeap x → All (Far x) xs → Spread xs → NotLink (next_of x) xs
NotLink-next x [] i f s = tt
NotLink-next x (y ∷ ys) i f s = ((ground arith, ground arith), NotLink-next x ys i f.1 s.2)

pub InHeap-has : (n : ℕ) (xs : List ℕ) → Spread xs → has n xs ≡ true → InHeap n
InHeap-has n [] s in_xs = cc
InHeap-has n (a ∷ rest) s in_xs = ground (arith, InHeap-has n rest s.2)

-- A change of other words leaves the list.
pub Linked-frame :
    (m m' : Mem) (before p : ℕ) (xs : List ℕ)
    → Linked m before p xs
    → All (λ a. (m' (prev_of a) ≡ m (prev_of a)) × (m' (next_of a) ≡ m (next_of a))) xs
    → Linked m' before p xs
Linked-frame m m' before p [] l same = l
Linked-frame m m' before p (a ∷ rest) l same =
    (l.0, same.0.0 ∙ l.1, rw same.0.1 (Linked-frame m m' a (m (next_of a)) rest l.2 same.1))

pub Linked-write :
    (m : Mem) (before p y v : ℕ) (xs : List ℕ)
    → Linked m before p xs
    → NotLink y xs
    → Linked (write m y v) before p xs
Linked-write m before p y v [] l out = l
Linked-write m before p y v (a ∷ rest) l out = (
  l.0,
  write_ne m y v _ (λ e. out.0.0 (sym e)) ∙ l.1,
  rw (write_ne m y v (next_of a) (λ e. out.0.1 (sym e)))
      (Linked-write m a (m (next_of a)) y v rest l.2 out.1),
)

-- Three writes put a node in front of the head.
module _ (m : Mem) (node a : ℕ) (rest : List ℕ) (l : Linked m null a (a ∷ rest))
    (s : Spread (node ∷ a ∷ rest)) where
  abbrev pushed : Mem
  pushed = write (write (write m (prev_of node) null) (next_of node) a) (prev_of a) node

  push-links :
      (pushed (prev_of node) ≡ null)
      × (pushed (next_of node) ≡ a)
      × (pushed (prev_of a) ≡ node)
      × (pushed (next_of a) ≡ m (next_of a))
  unfolding write
  push-links = ground arith

  push-Linked : Linked pushed null node (node ∷ a ∷ rest)
  push-Linked =
      let tail =
        Linked-write _ a (m (next_of a)) (prev_of a) node rest
          (Linked-write _ a (m (next_of a)) (next_of node) a rest
            (Linked-write m a (m (next_of a)) (prev_of node) null rest l.2
              (NotLink-prev node rest s.0 s.1.1 s.2.2))
            (NotLink-next node rest s.0 s.1.1 s.2.2))
          (NotLink-prev a rest s.2.0 s.2.1 s.2.2) in
      (refl, push-links.0, (push-links.1, push-links.2, rw push-links.3 tail))

-- The links of a heap's freelist.
pub record IsFreelist (h : Heap) (xs : List ℕ) : Type 0 where
  pub links : Linked h.mem null h.freelist_head xs

abbrev pub heap : Mem → ℕ → Heap
heap m head = record { mem = m; freelist_head = head }

add-nil :
    (m : Mem) (node : ℕ)
    → freelist_add_node node (heap m null)
      ≡ heap (write (write m (prev_of node) null) (next_of node) null) node
unfolding freelist_add_node
add-nil m node = refl

add-cons :
    (m : Mem) (node a : ℕ)
    → a ≢ null
    → freelist_add_node node (heap m a)
      ≡ heap (write (write (write m (prev_of node) null) (next_of node) a) (prev_of a) node) node
unfolding freelist_add_node
add-cons m node a ne = rw (ne→== a null ne)

add-IsFreelist :
    (m : Mem) (head node : ℕ) (xs : List ℕ)
    → Linked m null head xs
    → Spread (node ∷ xs)
    → IsFreelist (freelist_add_node node (heap m head)) (node ∷ xs)
unfolding write
add-IsFreelist m head node [] l s = rw (l, add-nil m node) (record { links = ground arith })
add-IsFreelist m head node (a ∷ rest) l s =
    rw (l.0, add-cons m node a (omega arith))
      (record { links = push-Linked m node a rest (refl, l.1, l.2) s })

-- On a well-formed freelist, adding a node that lies apart from its chunks makes a well-formed
-- freelist with the node in front.
pub freelist_add_node-IsFreelist :
    (node : ℕ) (h : Heap) (xs : List ℕ)
    → IsFreelist h xs
    → Spread (node ∷ xs)
    → IsFreelist (freelist_add_node node h) (node ∷ xs)
freelist_add_node-IsFreelist node h xs l s = add-IsFreelist h.mem h.freelist_head node xs l.links s

-- It writes only the two links of the node and the `prev` link of the old head.
pub freelist_add_node_ne :
    (node : ℕ) (h : Heap) (xs : List ℕ) (x : ℕ)
    → IsFreelist h xs
    → NotLink x (node ∷ xs)
    → (freelist_add_node node h).mem x ≡ h.mem x
unfolding freelist_add_node write
freelist_add_node_ne node h [] x l out = ground (arith, l.links)
freelist_add_node_ne node h (a ∷ rest) x l out = ground (arith, l.links)

-- A change of one word that is no link leaves the list.
pub Linked-touch :
    (m m' : Mem) (before p y : ℕ) (xs : List ℕ)
    → ((x : ℕ) → x ≢ y → m' x ≡ m x)
    → Linked m before p xs
    → NotLink y xs
    → Linked m' before p xs
Linked-touch m m' before p y [] same l out = l
Linked-touch m m' before p y (a ∷ rest) same l out = (
  l.0,
  same (prev_of a) (λ e. out.0.0 (sym e)) ∙ l.1,
  rw (same (next_of a) (λ e. out.0.1 (sym e)))
      (Linked-touch m m' a (m (next_of a)) y rest same l.2 out.1),
)

-- A chunk away from those listed does not start at one of their links.
pub NotLink-self : (x : ℕ) (xs : List ℕ) → InHeap x → All (Far x) xs → Spread xs → NotLink x xs
NotLink-self x [] i f s = tt
NotLink-self x (y ∷ ys) i f s = ((ground arith, ground arith), NotLink-self x ys i f.1 s.2)
