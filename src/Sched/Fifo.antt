-- ===== src/Sched/Fifo.antt =====
-- The thread list is a first-in first-out queue.
use mathlib.Core.Path.{subst}
use flurry.Prelude.{
  ℕ, ◌+◌, ◌<◌, ◌≤◌, ◌≡◌, ◌≢◌, ◌∙◌, refl, sym, ap, false, ◌==◌, if◌then◌else◌, arith, ==_refl,
  ==_iff, List, [], ◌∷◌, ◌++◌,
}
use flurry.Prelude.Memory.{Mem, write, write_self, write_ne}
use flurry.Sched.{ThreadList, thread_list_add, thread_list_get_next}

abbrev pub one_at : ℕ → ℕ → ℕ
one_at x a = if x == a then 1 else 0

-- Cells of a list: a node and its thread.
abbrev pub nodes_at : ℕ → List (ℕ × ℕ) → ℕ
nodes_at x [] = 0
nodes_at x (c ∷ cs) = one_at x c.0 + nodes_at x cs

abbrev pub threads : List (ℕ × ℕ) → List ℕ
threads [] = []
threads (c ∷ cs) = c.1 ∷ threads cs

abbrev pub last_node : ℕ → List (ℕ × ℕ) → ℕ
last_node d [] = d
last_node d (c ∷ cs) = last_node c.0 cs

abbrev pub Chain : Mem → Mem → ℕ → List (ℕ × ℕ) → Type 0
Chain thread next p [] = p ≡ 0
Chain thread next p (c ∷ cs) =
    (p ≡ c.0) × (0 < c.0) × (thread c.0 ≡ c.1) × Chain thread next (next c.0) cs

-- The list holds these threads, the first to be taken at the head.
pub record IsFifo (l : ThreadList) (xs : List ℕ) : Type 0 where
  pub cells : List (ℕ × ℕ)
  pub chain : Chain l.thread l.next l.head cells
  pub tail : l.tail ≡ last_node 0 cells
  pub once : (x : ℕ) → nodes_at x cells ≤ 1
  pub listed : threads cells ≡ xs

last_node-in :
    (d : ℕ) (c : ℕ × ℕ) (cs : List (ℕ × ℕ)) → 0 < nodes_at (last_node d (c ∷ cs)) (c ∷ cs)
last_node-in d c [] = rw (==_refl c.0) (omega arith)
last_node-in d c (e ∷ es) = omega (arith, last_node-in c.0 e es)

module _ (thread next : Mem) (node t : ℕ) (pos : 0 < node) where
  -- The links after a node was hung behind the last one.
  abbrev hung : ℕ → Mem
  hung last = write (write next node 0) last node

  Chain-append :
      (p d : ℕ) (c : ℕ × ℕ) (cs : List (ℕ × ℕ))
      → Chain thread next p (c ∷ cs)
      → ((x : ℕ) → nodes_at x (c ∷ cs) ≤ 1)
      → nodes_at node (c ∷ cs) ≡ 0
      → Chain (write thread node t) (hung (last_node d (c ∷ cs))) p ((c ∷ cs) ++ ((node, t) ∷ []))
  Chain-append p d c [] h once out =
      let other : c.0 ≢ node = ground arith in
      (
        h.0,
        h.1,
        write_ne thread node t c.0 other ∙ h.2,
        (
          write_self (write next node 0) c.0 node,
          pos,
          write_self thread node t,
          write_ne (write next node 0) c.0 node node (λ e. other (sym e)) ∙ write_self next node 0,
        ),
      )
  Chain-append p d c (e ∷ es) h once out =
      let other : c.0 ≢ node = ground arith in
      let not_last : c.0 ≢ last_node c.0 (e ∷ es) = λ same.
        ground (
          arith,
          once c.0,
          last_node-in c.0 e es,
          ==_refl c.0,
          ap (λ x. nodes_at x (e ∷ es)) same,
        ) in
      let stays : hung (last_node c.0 (e ∷ es)) c.0 ≡ next c.0 =
        write_ne (write next node 0) (last_node c.0 (e ∷ es)) node c.0 not_last
        ∙ write_ne next node 0 c.0 other in
      (
        h.0,
        h.1,
        write_ne thread node t c.0 other ∙ h.2,
        subst
            (λ q.
              Chain (write thread node t) (hung (last_node c.0 (e ∷ es))) q
                ((e ∷ es) ++ ((node, t) ∷ [])))
            (sym stays)
            (Chain-append (next c.0) c.0 e es h.3 (λ x. omega (arith, once x))
              (omega (arith, out))),
      )

nodes_at-append :
    (x : ℕ) (cs ds : List (ℕ × ℕ)) → nodes_at x (cs ++ ds) ≡ nodes_at x cs + nodes_at x ds
nodes_at-append x [] ds = omega arith
nodes_at-append x (c ∷ cs) ds = omega (arith, nodes_at-append x cs ds)

threads-append : (cs ds : List (ℕ × ℕ)) → threads (cs ++ ds) ≡ threads cs ++ threads ds
threads-append [] ds = refl
threads-append (c ∷ cs) ds = ap (λ ys. c.1 ∷ ys) (threads-append cs ds)

last_node-append :
    (d : ℕ) (cs : List (ℕ × ℕ)) (node t : ℕ) → last_node d (cs ++ ((node, t) ∷ [])) ≡ node
last_node-append d [] node t = refl
last_node-append d (c ∷ cs) node t = last_node-append c.0 cs node t

add-eq :
    (l : ThreadList) (node t : ℕ) (cells : List (ℕ × ℕ)) (xs : List ℕ)
    → Chain l.thread l.next l.head cells
    → l.tail ≡ last_node 0 cells
    → ((x : ℕ) → nodes_at x cells ≤ 1)
    → threads cells ≡ xs
    → 0 < node
    → nodes_at node cells ≡ 0
    → IsFifo (thread_list_add node t l) (xs ++ (t ∷ []))
unfolding thread_list_add
add-eq l node t [] xs chain tail once listed pos out = rw chain (record {
  cells = (node, t) ∷ [];
  chain = (refl, pos, write_self l.thread node t, write_self l.next node 0);
  tail = refl;
  once = λ x. ground arith;
  listed = ap (λ ys. ys ++ (t ∷ [])) listed;
})
add-eq l node t (c ∷ cs) xs chain tail once listed pos out =
    let some : (l.head == 0) ≡ false = ground (arith, chain.0, chain.1) in
    rw (some, tail)
      (record {
        cells = (c ∷ cs) ++ ((node, t) ∷ []);
        chain = Chain-append l.thread l.next node t pos l.head 0 c cs chain once out;
        tail = sym (last_node-append 0 (c ∷ cs) node t);
        once = λ x. ground (
          arith,
          once x,
          out,
          nodes_at-append x cs ((node, t) ∷ []),
          (==_iff x node).0,
          ap (λ w. nodes_at w (c ∷ cs)),
        );
        listed = threads-append (c ∷ cs) ((node, t) ∷ []) ∙ ap (λ ys. ys ++ (t ∷ [])) listed;
      })

-- What `thread_list_get_next` returns: NULL, or the first thread and the list without it.
abbrev pub Takes : ThreadList → List ℕ → Type 0
Takes l [] = thread_list_get_next l ≡ (0, l)
Takes l (x ∷ xs) = (l' : ThreadList) × (thread_list_get_next l ≡ (x, l')) × IsFifo l' xs

get_next-Takes :
    (l : ThreadList) (cells : List (ℕ × ℕ))
    → Chain l.thread l.next l.head cells
    → l.tail ≡ last_node 0 cells
    → ((x : ℕ) → nodes_at x cells ≤ 1)
    → Takes l (threads cells)
unfolding thread_list_get_next
get_next-Takes l [] chain tail once = rw chain refl
get_next-Takes l (c ∷ []) chain tail once =
    let some : (c.0 == 0) ≡ false = ground (arith, chain.1) in
    (
      record { head = l.next c.0; tail = 0; thread = l.thread; next = l.next },
      rw (chain.0, some, chain.3, chain.2) refl,
      record { cells = []; chain = chain.3; tail = refl; once = λ x. omega arith; listed = refl },
    )
get_next-Takes l (c ∷ (e ∷ es)) chain tail once =
    let some : (c.0 == 0) ≡ false = ground (arith, chain.1) in
    let more : (l.next c.0 == 0) ≡ false = ground (arith, chain.3.0, chain.3.1) in
    (
      record { head = l.next c.0; tail = l.tail; thread = l.thread; next = l.next },
      rw (chain.0, some, more, chain.2) refl,
      record {
        cells = e ∷ es;
        chain = chain.3;
        tail = tail;
        once = λ x. omega (arith, once x);
        listed = refl;
      },
    )

pub get_next-Fifo : (l : ThreadList) (xs : List ℕ) → IsFifo l xs → Takes l xs
get_next-Fifo l xs h = subst (Takes l) h.listed (get_next-Takes l h.cells h.chain h.tail h.once)

pub add-Fifo :
    (l : ThreadList) (xs : List ℕ) (h : IsFifo l xs) (node t : ℕ)
    → 0 < node
    → nodes_at node h.cells ≡ 0
    → IsFifo (thread_list_add node t l) (xs ++ (t ∷ []))
add-Fifo l xs h node t pos out = add-eq l node t h.cells xs h.chain h.tail h.once h.listed pos out

-- With a node that is none of the list's, `thread_list_add` puts the thread behind all others, and
-- `thread_list_get_next` returns NULL for an empty list and takes the first thread out of any other.
pub thread_list-Fifo :
    (l : ThreadList) (xs : List ℕ) (h : IsFifo l xs) (node t : ℕ)
    → 0 < node
    → nodes_at node h.cells ≡ 0
    → IsFifo (thread_list_add node t l) (xs ++ (t ∷ [])) × Takes l xs
thread_list-Fifo l xs h node t pos out = (add-Fifo l xs h node t pos out, get_next-Fifo l xs h)
