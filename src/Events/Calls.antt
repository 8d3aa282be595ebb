-- ===== src/Events/Calls.antt =====
-- What the calls of events.c do to the queue as a list.
use mathlib.Core.Path.{subst}
use flurry.Prelude.{
  ℕ, suc, ◌<◌, ◌≤◌, ◌≡◌, ◌∙◌, refl, sym, ap, Bool, Bool-cases, inl, inr, true, false, ◌==◌, ltb,
  if◌then◌else◌, arith, ==_refl, ne→==, ==_iff, List, [], ◌∷◌, length,
}
use flurry.Prelude.Memory.{Mem, write_self}
use flurry.Prelude.Outcome.{Outcome, ok, panic, ◌>>=◌}
use flurry.Events.{
  Links, Events, set_field, attach, event_bst_insert, bst_minimum, bst_delete, clear_links,
  event_remove, enqueue_removed, event_enqueue, event_peek_next, event_dequeue,
}
use flurry.Events.Shape.{Tree, leaf, node, top, count, one_if, Rep}
use flurry.Events.Placed.{Placed, height, bst_minimum-least}
use flurry.Events.Items.{items, count_in, items-least, zip_up}
use flurry.Events.Order.{
  insert_by, erase, Sorted, insert_by-Sorted, erase-out, erase-Sorted, count_in-insert_by,
  count_in-erase, length-erase, erase-head,
}
use flurry.Events.Insert.{insert_tree, Fresh, insert_parent-Grown, items-insert_tree}
use flurry.Events.Queue.{
  Holds, Flags, IsTree, Makes, Holds-once, Holds-zero, height-xs, count-tree, clear_links-Holds,
  bst_delete-erase,
}

abbrev pub first : List ℕ → ℕ
first [] = 0
first (x ∷ xs) = x

-- An event that is in the queue is not NULL, and the queue is not empty.
module _ (s : Events) (n : ℕ) (xs : List ℕ) (h : Holds s.links xs) (some : 0 < count_in n xs) where
  queue_some : (s.links.root == 0) ≡ false
  queue_some = root_of h.tree h.placed.tree (omega (arith, count-tree s.links xs h n))
    where
      root_of :
          (t : Tree) → Rep s.links s.links.root 0 t → 0 < count n t → (s.links.root == 0) ≡ false
      root_of leaf r pos = absurd (omega arith)
      root_of (node tl a tr) r pos = ground (arith, r.0, r.1)

  event_some : (n == 0) ≡ false
  event_some = ne→== n 0 (λ e. omega (arith, Holds-zero s.links xs h, ap (λ w. count_in w xs) e))

set_field-Flags-false :
    (enqueued : ℕ → Bool) (n : ℕ) (xs : List ℕ)
    → Flags enqueued xs
    → 0 < count_in n xs
    → count_in n xs ≤ 1
    → Flags (set_field n false enqueued) (erase n xs)
unfolding set_field
set_field-Flags-false enqueued n xs flags some once x = elim (Bool-cases (x == n)) [
  | inl e ↦
      let one : one_if x n ≡ 1 = rw e refl in
      let gone : count_in x (erase n xs) ≡ 0 =
        omega
          (arith, count_in-erase x n xs some, one, ap (λ w. count_in w xs) ((==_iff x n).0 e)) in
      rw (e, gone) refl
  | inr e ↦
      let zero_here : one_if x n ≡ 0 = rw e refl in
      let stays : count_in x (erase n xs) ≡ count_in x xs =
        omega (arith, count_in-erase x n xs some, zero_here) in
      rw (e, stays) (flags x)
]

set_field-Flags-true :
    (enqueued : ℕ → Bool) (time : Mem) (n : ℕ) (xs : List ℕ)
    → Flags enqueued xs
    → Flags (set_field n true enqueued) (insert_by time n xs)
unfolding set_field
set_field-Flags-true enqueued time n xs flags x = elim (Bool-cases (x == n)) [
  | inl e ↦
      let one : one_if x n ≡ 1 = rw e refl in
      let some : ltb 0 (count_in x (insert_by time n xs)) ≡ true =
        ground (arith, count_in-insert_by time x n xs, one) in
      rw (e, some) refl
  | inr e ↦
      let zero_here : one_if x n ≡ 0 = rw e refl in
      let stays : count_in x (insert_by time n xs) ≡ count_in x xs =
        omega (arith, count_in-insert_by time x n xs, zero_here) in
      rw (e, stays) (flags x)
]

-- Whatever the order of the queue, an event in it is taken out.
event_remove-Makes :
    (rounds : ℕ) (s : Events) (n : ℕ) (xs : List ℕ)
    → IsTree s xs
    → 0 < count_in n xs
    → length xs ≤ rounds
    → Makes (event_remove rounds n s) s (erase n xs)
unfolding event_remove
event_remove-Makes rounds s n xs h some enough =
    let d = bst_delete-erase rounds s.links n xs h.holds some enough in
    let one : one_if n n ≡ 1 = rw (==_refl n) refl in
    let out : count_in n (erase n xs) ≡ 0 =
      omega (arith, count_in-erase n n xs some, one, Holds-once s.links xs h.holds n) in
    record {
      final = record s { links = clear_links n d.final; enqueued = set_field n false s.enqueued };
      returns = rw (queue_some s n xs h.holds some, event_some s n xs h.holds some, d.returns) refl;
      queue = record {
        holds = clear_links-Holds d.final (erase n xs) d.holds n out;
        flags =
            set_field-Flags-false s.enqueued n xs h.flags some (Holds-once s.links xs h.holds n);
      };
      times = refl;
      callbacks = refl;
    }

-- A call of `event_bst_insert` returns, and these events are in the links.
record Inserts (o : Outcome Links) (xs : List ℕ) : Type 0 where
  final : Links
  returns : o ≡ ok final
  holds : Holds final xs

module _ (rounds : ℕ) (time : Mem) (n : ℕ) (l : Links) (pos : 0 < n) (left : l.left n ≡ 0)
    (right : l.right n ≡ 0) (parent : l.parent n ≡ 0) where
  -- With the links of the event cleared, it goes to its place in the order.
  event_bst_insert-Inserts :
      (t : Tree)
      → Placed l l.root 0 t top
      → count n t ≡ 0
      → height t < rounds
      → Sorted time (items t)
      → Inserts (event_bst_insert rounds time n l) (insert_by time n (items t))
  unfolding event_bst_insert
  event_bst_insert-Inserts leaf h out enough sorted = record {
    final = record l { root = n };
    returns = rw h.tree refl;
    holds = record {
      tree = node leaf n leaf;
      placed = record {
        ctx = (refl, refl);
        tree = (refl, pos, parent, left, right);
        once = λ x. ground arith;
      };
      listed = refl;
    };
  }
  event_bst_insert-Inserts (node tl a tr) h out enough sorted =
      let new : Fresh l n (node tl a tr) top = record {
        pos = pos;
        left = left;
        right = right;
        out = omega (arith, out);
      } in
      let g = insert_parent-Grown rounds time l n l.root 0 a 0 tl tr top h new enough in
      let some : (l.root == 0) ≡ false = ground (arith, h.tree.0, h.tree.1) in
      let whole =
        zip_up (attach time n g.at l) g.q g.par (insert_tree time n (node tl a tr)) top g.placed in
      record {
        final = attach time n g.at l;
        returns = rw (some, g.returns) refl;
        holds = record {
          tree = insert_tree time n (node tl a tr);
          placed = whole;
          listed = items-insert_tree time n (node tl a tr) sorted;
        };
      }

enqueue_removed-Makes :
    (rounds : ℕ) (s : Events) (n : ℕ) (xs : List ℕ)
    → IsTree s xs
    → 0 < n
    → count_in n xs ≡ 0
    → length xs < rounds
    → Sorted s.time xs
    → Makes (enqueue_removed rounds n s) s (insert_by s.time n xs)
unfolding enqueue_removed clear_links
enqueue_removed-Makes rounds s n xs h pos out enough sorted =
    let c = clear_links-Holds s.links xs h.holds n out in
    let i =
      event_bst_insert-Inserts rounds s.time n (clear_links n s.links) pos
        (write_self s.links.left n 0) (write_self s.links.right n 0) (write_self s.links.parent n 0)
        c.tree c.placed (omega (arith, count-tree (clear_links n s.links) xs c n))
        (omega (arith, height-xs (clear_links n s.links) xs c))
        (subst (Sorted s.time) (sym c.listed) sorted) in
    record {
      final = record s { links = i.final; enqueued = set_field n true s.enqueued };
      returns = rw i.returns refl;
      queue = record {
        holds = subst (λ ys. Holds i.final (insert_by s.time n ys)) c.listed i.holds;
        flags = set_field-Flags-true s.enqueued s.time n xs h.flags;
      };
      times = refl;
      callbacks = refl;
    }

-- The queue: these events, in the order of their times.
pub record IsQueue (s : Events) (xs : List ℕ) : Type 0 where
  pub inside : IsTree s xs
  pub sorted : Sorted s.time xs

-- A call returns with this queue, and the times and callbacks are as they were.
pub record Refines (o : Outcome Events) (s : Events) (xs : List ℕ) : Type 0 where
  pub final : Events
  pub returns : o ≡ ok final
  pub queue : IsQueue final xs
  pub times : final.time ≡ s.time
  pub callbacks : final.callback ≡ s.callback

to-Refines :
    (o : Outcome Events) (s : Events) (xs : List ℕ)
    → Makes o s xs
    → Sorted s.time xs
    → Refines o s xs
to-Refines o s xs m sorted = record {
  final = m.final;
  returns = m.returns;
  queue = record { inside = m.queue; sorted = subst (λ t. Sorted t xs) (sym m.times) sorted };
  times = m.times;
  callbacks = m.callbacks;
}

-- With more rounds than events, `event_remove` takes an event that is in the queue out of it, whatever
-- its place in the tree, and leaves the others in their order.
pub event_remove-erase :
    (rounds : ℕ) (s : Events) (n : ℕ) (xs : List ℕ)
    → IsQueue s xs
    → 0 < count_in n xs
    → length xs < rounds
    → Refines (event_remove rounds n s) s (erase n xs)
event_remove-erase rounds s n xs h some enough =
    to-Refines (event_remove rounds n s) s (erase n xs)
      (event_remove-Makes rounds s n xs h.inside some (omega arith))
      (erase-Sorted s.time n xs h.sorted)

flagged-Makes :
    (rounds : ℕ) (s : Events) (n : ℕ) (xs : List ℕ)
    → IsTree s xs
    → 0 < n
    → 0 < count_in n xs
    → length xs < rounds
    → Sorted s.time (erase n xs)
    → Makes
        (event_remove rounds n s >>= enqueue_removed rounds n)
        s
        (insert_by s.time n (erase n xs))
flagged-Makes rounds s n xs h pos some enough sorted =
    let m = event_remove-Makes rounds s n xs h some (omega arith) in
    let one : one_if n n ≡ 1 = rw (==_refl n) refl in
    let out : count_in n (erase n xs) ≡ 0 =
      omega (arith, count_in-erase n n xs some, one, Holds-once s.links xs h.holds n) in
    let e =
      enqueue_removed-Makes rounds m.final n (erase n xs) m.queue pos out
        (omega (arith, length-erase n xs))
        (subst (λ t. Sorted t (erase n xs)) (sym m.times) sorted) in
    record {
      final = e.final;
      returns = rw m.returns e.returns;
      queue = subst (λ t. IsTree e.final (insert_by t n (erase n xs))) m.times e.queue;
      times = e.times ∙ m.times;
      callbacks = e.callbacks ∙ m.callbacks;
    }

enqueue-eq :
    (rounds n : ℕ) (s : Events)
    → event_enqueue rounds n s ≡ (
        if n == 0
        then panic
        else if s.enqueued n
        then (event_remove rounds n s >>= enqueue_removed rounds n)
        else enqueue_removed rounds n s)
unfolding event_enqueue
enqueue-eq rounds n s = refl

-- With more rounds than events, `event_enqueue` puts an event, new or queued before under another time,
-- behind the other events that are not later than its time and before the first that is, if the others
-- are in the order of their times; it is in the queue once.
pub event_enqueue-insert_by :
    (rounds : ℕ) (s : Events) (n : ℕ) (xs : List ℕ)
    → IsTree s xs
    → 0 < n
    → length xs < rounds
    → Sorted s.time (erase n xs)
    → Refines (event_enqueue rounds n s) s (insert_by s.time n (erase n xs))
event_enqueue-insert_by rounds s n xs h pos enough sorted =
    elim (Bool-cases (ltb 0 (count_in n xs))) [
      | inl e ↦
          let flag : s.enqueued n ≡ true = h.flags n ∙ e in
          to-Refines (event_enqueue rounds n s) s (insert_by s.time n (erase n xs))
            (rw (enqueue-eq rounds n s, ne→== n 0 (omega arith), flag)
              (flagged-Makes rounds s n xs h pos (ground arith) enough sorted))
            (insert_by-Sorted s.time n (erase n xs) sorted)
      | inr e ↦
          let flag : s.enqueued n ≡ false = h.flags n ∙ e in
          let out : count_in n xs ≡ 0 = ground arith in
          let same = erase-out n xs out in
          to-Refines (event_enqueue rounds n s) s (insert_by s.time n (erase n xs))
            (rw (enqueue-eq rounds n s, ne→== n 0 (omega arith), flag, same)
              (enqueue_removed-Makes rounds s n xs h pos out enough
                (subst (Sorted s.time) same sorted)))
            (insert_by-Sorted s.time n (erase n xs) sorted)
    ]

minimum-first :
    (rounds : ℕ) (l : Links) (p : ℕ) (t : Tree)
    → Rep l p 0 t
    → height t ≤ rounds
    → bst_minimum rounds l.left p ≡ ok (first (items t))
unfolding bst_minimum
minimum-first rounds l p leaf r enough = rw r refl
minimum-first rounds l p (node tl a tr) r enough =
    bst_minimum-least rounds l p 0 a tl tr r enough
    ∙ ap (λ ys. ok (first ys)) (sym (items-least tl a tr))

-- With as many rounds as events, `event_peek_next` returns the first event of the queue, and NULL when
-- there is none.
pub event_peek_next-first :
    (rounds : ℕ) (s : Events) (xs : List ℕ)
    → IsQueue s xs
    → length xs ≤ rounds
    → event_peek_next rounds s ≡ ok (first xs)
unfolding event_peek_next
event_peek_next-first rounds s xs h enough =
    let held = h.inside.holds in
    minimum-first rounds s.links s.links.root held.tree held.placed.tree
      (omega (arith, height-xs s.links xs held))
    ∙ ap (λ ys. ok (first ys)) held.listed

dequeue-eq :
    (rounds : ℕ) (s : Events)
    → event_dequeue rounds s ≡ (
        if s.links.root == 0 then panic else do
          min_event ← event_peek_next rounds s
          l ← bst_delete rounds min_event s.links
          ok (min_event, record s { links = l }))
unfolding event_dequeue event_peek_next
dequeue-eq rounds s = refl

-- What `event_dequeue` leaves: the event is out of the links, and its flag as it was.
pub record Dequeued (o : Outcome (ℕ × Events)) (s : Events) (x : ℕ) (xs : List ℕ) : Type 0 where
  pub final : Events
  pub returns : o ≡ ok (x, final)
  pub holds : Holds final.links xs
  pub sorted : Sorted final.time xs
  pub flags : final.enqueued ≡ s.enqueued

-- With more rounds than events, `event_dequeue` returns the first event of the queue and leaves the
-- others in their order, but the event's flag still says that it is enqueued.
pub event_dequeue-Dequeued :
    (rounds : ℕ) (s : Events) (x : ℕ) (xs : List ℕ)
    → IsQueue s (x ∷ xs)
    → suc (length xs) < rounds
    → Dequeued (event_dequeue rounds s) s x xs × (s.enqueued x ≡ true)
event_dequeue-Dequeued rounds s x xs h enough =
    let held = h.inside.holds in
    let one : one_if x x ≡ 1 = rw (==_refl x) refl in
    let some : 0 < count_in x (x ∷ xs) = omega (arith, one) in
    let d = bst_delete-erase rounds s.links x (x ∷ xs) held some (omega arith) in
    let flag : ltb 0 (count_in x (x ∷ xs)) ≡ true = ground arith in
    (
      record {
        final = record s { links = d.final };
        returns =
            rw
              (
                dequeue-eq rounds s,
                queue_some s x (x ∷ xs) held some,
                event_peek_next-first rounds s (x ∷ xs) h (omega arith),
                d.returns,
              )
              refl;
        holds = subst (Holds d.final) (erase-head x xs) d.holds;
        sorted = h.sorted.1;
        flags = refl;
      },
      h.inside.flags x ∙ flag,
    )
