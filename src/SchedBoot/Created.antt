-- ===== src/SchedBoot/Created.antt =====
-- What `sched_init` creates: an empty event queue, the threads and the list of the ready ones.
use flurry.Prelude.{ℕ, ◌<◌, ◌≡◌, ◌≢◌, ◌∙◌, refl, ◌==◌, arith, List, [], ◌∷◌, inl, inr, Bool-cases}
use flurry.Prelude.Memory.{write, write_self, write_ne}
use flurry.Events.{
  Events, EventCallback, call_switch_thread, event_create, event_enqueue, set_field,
}
use flurry.Events.Queue.{clear_links-Holds}
use flurry.Events.Calls.{IsQueue}
use flurry.Sched.{thread_list_new, thread_done, thread_ready, Machine}
use flurry.Sched.Fifo.{IsFifo, add-Fifo}
use flurry.Sched.Slice.{Allocates, set_field_self, set_field_ne}
use flurry.Threads.{Threads, thread_kcreate}
use flurry.SchedBoot.{
  NewThread, Given, idle_name, one_name, two_name, kernel_thread, make_init_thread, make_threads,
  first_ready,
}

-- An event created beside an empty queue: the queue stays empty, and all times that were 0 are.
event_create-IsQueue : (e : ℕ) (s : Events) → IsQueue s [] → IsQueue (event_create e s) []
unfolding event_create flurry.Events.clear_links set_field
event_create-IsQueue e s h = record {
  inside = record {
    holds = clear_links-Holds s.links [] h.inside.holds e refl;
    flags = λ x. elim (Bool-cases (x == e)) [ inl q ↦ rw q refl | inr q ↦ rw q (h.inside.flags x) ];
  };
  sorted = tt;
}

event_create-time : (e x : ℕ) (s : Events) → s.time x ≡ 0 → (event_create e s).time x ≡ 0
unfolding event_create write
event_create-time e x s h = elim (Bool-cases (x == e)) [ inl q ↦ rw q refl | inr q ↦ rw q h ]

-- The event queue is empty, and the time of this event is 0.
abbrev pub Quiet : ℕ → Threads → Type 0
Quiet x t = IsQueue t.events [] × (t.events.time x ≡ 0)

kernel_thread-Quiet :
    (x : ℕ) (g : Given) (n : NewThread) (name : List ℕ) (t : Threads)
    → Quiet x t
    → Quiet x (kernel_thread g n name t)
unfolding kernel_thread thread_kcreate
kernel_thread-Quiet x g n name t q =
    let made = event_create-IsQueue n.event t.events q.0 in
    (
      record {
        inside = record { holds = made.inside.holds; flags = made.inside.flags };
        sorted = tt;
      },
      event_create-time n.event x t.events q.1,
    )

make_init_thread-Quiet :
    (g : Given) (t : Threads) → IsQueue t.events [] → Quiet g.init_event (make_init_thread g t)
unfolding make_init_thread event_create
make_init_thread-Quiet g t q =
    (event_create-IsQueue g.init_event t.events q, write_self t.events.time g.init_event 0)

pub make_threads-Quiet :
    (g : Given) (t : Threads) → IsQueue t.events [] → Quiet g.init_event (make_threads g t)
unfolding make_threads
make_threads-Quiet g t q =
    let t0 = make_init_thread g t in
    let t1 = kernel_thread g g.idle idle_name t0 in
    let t2 = kernel_thread g g.one one_name t1 in
    kernel_thread-Quiet g.init_event g g.two two_name t2 (
      kernel_thread-Quiet g.init_event g g.one one_name t1
        (kernel_thread-Quiet g.init_event g g.idle idle_name t0 (make_init_thread-Quiet g t q)))

-- The init thread is none of the three others, threads one and two differ, and thread one, its event and
-- the init thread's event are not NULL.
pub record Distinct (g : Given) : Type 0 where
  pub init_idle : g.init_thread ≢ g.idle.thread
  pub init_one : g.init_thread ≢ g.one.thread
  pub init_two : g.init_thread ≢ g.two.thread
  pub one_two : g.one.thread ≢ g.two.thread
  pub one_some : 0 < g.one.thread
  pub init_event_some : 0 < g.init_event
  pub one_event_some : 0 < g.one.event

module _ (g : Given) (t : Threads) (d : Distinct g) where
  pub make_threads-event : (make_threads g t).event g.one.thread ≡ g.one.event
  unfolding make_threads kernel_thread thread_kcreate
  make_threads-event =
      write_ne _ g.two.thread g.two.event g.one.thread d.one_two
      ∙ write_self _ g.one.thread g.one.event

  pub make_threads-done : (make_threads g t).status g.init_thread ≡ thread_done
  unfolding make_threads kernel_thread thread_kcreate make_init_thread
  make_threads-done =
      let t0 = make_init_thread g t in
      let t1 = kernel_thread g g.idle idle_name t0 in
      let t2 = kernel_thread g g.one one_name t1 in
      set_field_ne g.two.thread thread_ready t2.status g.init_thread d.init_two
      ∙ set_field_ne g.one.thread thread_ready t1.status g.init_thread d.init_one
      ∙ set_field_ne g.idle.thread thread_ready t0.status g.init_thread d.init_idle
      ∙ set_field_self g.init_thread thread_done t.status

pub first_ready-IsFifo :
    (m : Machine) (g : Given)
    → Allocates m 1
    → IsFifo (first_ready m g) (g.one.thread ∷ g.two.thread ∷ [])
unfolding first_ready thread_list_new
first_ready-IsFifo m g fresh =
    let empty : IsFifo (thread_list_new g.node_thread g.node_next) [] = record {
      cells = [];
      chain = refl;
      tail = refl;
      once = λ x. omega arith;
      listed = refl;
    } in
    let node1 = fresh (thread_list_new g.node_thread g.node_next) [] empty (omega arith) in
    let one =
      add-Fifo (thread_list_new g.node_thread g.node_next) [] empty
        (m.new_node (thread_list_new g.node_thread g.node_next)) g.one.thread node1.0 node1.1 in
    let node2 = fresh _ (g.one.thread ∷ []) one (omega arith) in
    add-Fifo _ (g.one.thread ∷ []) one _ g.two.thread node2.0 node2.1
