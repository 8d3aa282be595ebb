-- ===== src/Tests/Queue.antt =====
-- Concrete inputs for the theorems on the queue of events.
use flurry.Prelude.{true, ◌==◌, ◌*◌, if◌then◌else◌, ◌≡◌, refl, ltb, [], ◌∷◌, arith}
use flurry.Events.{
  Links, Events, no_callback, none_kind, event_enqueue, event_remove, event_dequeue,
}
use flurry.Events.Shape.{leaf, node}
use flurry.Events.Items.{count_in}
use flurry.Events.Queue.{Holds, IsTree}
use flurry.Events.Calls.{
  IsQueue, Refines, Dequeued, event_remove-erase, event_enqueue-insert_by, event_dequeue-Dequeued,
}

-- Event 5 is the root, at the time 50; event 7 is to its right, at the time 70; event 6 is at 60.
abbrev two_links : Links
two_links = record {
  root = 5;
  left = λ x. 0;
  right = λ x. if x == 5 then 7 else 0;
  parent = λ x. if x == 7 then 5 else 0;
}

abbrev two_events : Events
two_events = record {
  links = two_links;
  time = λ x. x * 10;
  enqueued = λ x. ltb 0 (count_in x (5 ∷ 7 ∷ []));
  owner = λ x. 0;
  callback = λ x. no_callback;
  callback_arg = λ x. 0;
  kind = λ x. none_kind;
}

two_links-Holds : Holds two_links (5 ∷ 7 ∷ [])
two_links-Holds = record {
  tree = node leaf 5 (node leaf 7 leaf);
  placed = record {
    ctx = (refl, refl);
    tree = (refl, omega arith, refl, refl, (refl, omega arith, refl, refl, refl));
    once = λ x. ground arith;
  };
  listed = refl;
}

two_events-IsTree : IsTree two_events (5 ∷ 7 ∷ [])
two_events-IsTree = record { holds = two_links-Holds; flags = λ x. refl }

two_events-IsQueue : IsQueue two_events (5 ∷ 7 ∷ [])
two_events-IsQueue = record { inside = two_events-IsTree; sorted = ((omega arith, tt), (tt, tt)) }

event_remove-erase_example : Refines (event_remove 3 5 two_events) two_events (7 ∷ [])
event_remove-erase_example =
    event_remove-erase 3 two_events 5 (5 ∷ 7 ∷ []) two_events-IsQueue (omega arith) (omega arith)

event_enqueue-insert_by_example : Refines (event_enqueue 3 6 two_events) two_events (5 ∷ 6 ∷ 7 ∷ [])
event_enqueue-insert_by_example =
    event_enqueue-insert_by 3 two_events 6 (5 ∷ 7 ∷ []) two_events-IsTree (omega arith)
      (omega arith) ((omega arith, tt), (tt, tt))

event_dequeue-Dequeued_example :
    Dequeued (event_dequeue 3 two_events) two_events 5 (7 ∷ []) × (two_events.enqueued 5 ≡ true)
event_dequeue-Dequeued_example =
    event_dequeue-Dequeued 3 two_events 5 (7 ∷ []) two_events-IsQueue (omega arith)
