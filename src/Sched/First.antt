-- ===== src/Sched/First.antt =====
-- The first switch: from a thread that cannot run, to a new one.
use flurry.Prelude.{
  ℕ, ◌+◌, ◌<◌, ◌≡◌, ◌≢◌, ◌∙◌, refl, sym, ap, Bool, true, false, ◌==◌, ne→==, List, [], ◌∷◌,
}
use flurry.Prelude.Memory.{write_self}
use flurry.Prelude.Words.{add64}
use flurry.Prelude.Outcome.{Outcome, ok}
use flurry.Events.{Events, EventKind, switch_kind, call_switch_thread, set_field}
use flurry.Events.Calls.{IsQueue, event_enqueue-insert_by}
use flurry.Sched.{
  ThreadList, thread_running, Resume, Sched, Machine, sched_thread_quantum, lock_scheduler,
  unlock_scheduler, set_event, queue_switch, can_run, requeue, switch_context, switch_to,
  switch_thread,
}
use flurry.Sched.Fifo.{IsFifo, get_next-Fifo}
use flurry.Sched.Slice.{
  slice_end, set_event-IsTree, get_next-eq, switch_thread-eq, maybe_reschedule_thread-eq,
  set_field_self, set_field_ne,
}

set_event-time :
    (event time : ℕ) (kind : EventKind) (s : Events)
    → (set_event event time call_switch_thread 0 kind s).time event ≡ time
unfolding set_event
set_event-time event time kind s = write_self s.time event time

-- The event of the current thread, put into an empty queue.
record OneQueued (o : Outcome Sched) (m : Machine) (s : Sched) : Type 0 where
  events : Events
  returns : o ≡ ok (record s { events = events; clock_reads = s.clock_reads + 1 })
  queue : IsQueue events (s.event s.current_thread ∷ [])
  time_of :
      events.time (s.event s.current_thread)
      ≡ add64 (m.tsc_read_ns s.clock_reads) sched_thread_quantum

queue_switch-OneQueued :
    (m : Machine) (kind : EventKind) (s : Sched)
    → IsQueue s.events []
    → 0 < s.event s.current_thread
    → 0 < m.rounds
    → OneQueued (queue_switch m kind s) m s
unfolding queue_switch
queue_switch-OneQueued m kind s h pos enough =
    let event = s.event s.current_thread in
    let time = add64 (m.tsc_read_ns s.clock_reads) sched_thread_quantum in
    let set = set_event-IsTree event time call_switch_thread 0 kind s.events [] h in
    let r = event_enqueue-insert_by m.rounds (slice_end m kind s) event [] set.0 pos enough set.1 in
    record {
      events = r.final;
      returns = rw r.returns refl;
      queue = r.queue;
      time_of = ap (λ f. f event) r.times ∙ set_event-time event time kind s.events;
    }

requeue-stays :
    (m : Machine) (t : ℕ) (s : Sched)
    → t ≢ s.idle_thread
    → can_run (s.status t) ≡ false
    → requeue m t s ≡ s
unfolding requeue
requeue-stays m t s other stays = rw (ne→== t s.idle_thread other, stays) refl

-- What the first switch leaves: the new thread runs, the one before is not ready, and the new thread's
-- event is the only one.
pub record FirstSwitch (o : Outcome (Bool × Sched)) (m : Machine) (s : Sched) (x : ℕ) (xs : List ℕ)
    : Type 0 where
  pub final : Sched
  pub returns : o ≡ ok (true, final)
  pub current : final.current_thread ≡ x
  pub ready : IsFifo final.ready_threads xs
  pub running : final.status x ≡ thread_running
  pub place : final.resume x ≡ s.resume x
  pub queue : IsQueue final.events (s.event x ∷ [])
  pub time_of :
      final.events.time (s.event x) ≡ add64 (m.tsc_read_ns s.clock_reads) sched_thread_quantum
  pub reads : final.clock_reads ≡ s.clock_reads + 1
  pub writes : final.lapic_writes ≡ s.lapic_writes

module _ (m : Machine) (place : Resume) (s : Sched) (x : ℕ) (xs : List ℕ) (l : ThreadList)
    (fifo : IsFifo l xs) (queue : IsQueue s.events []) (other : s.current_thread ≢ x)
    (not_idle : s.current_thread ≢ s.idle_thread)
    (stays : can_run (s.status s.current_thread) ≡ false) (pos : 0 < s.event x)
    (enough : 0 < m.rounds) where
  abbrev here : Sched
  here = lock_scheduler (
      switch_context s.current_thread x place (record s {
        ready_threads = l;
        current_thread = x;
        status = set_field x thread_running s.status;
      }))

  requeued : requeue m s.current_thread here ≡ here
  unfolding lock_scheduler switch_context
  requeued =
      requeue-stays m s.current_thread here not_idle
        (rw (set_field_ne x thread_running s.status s.current_thread other) stays)

  queued : OneQueued (queue_switch m switch_kind here) m here
  unfolding lock_scheduler switch_context
  queued = queue_switch-OneQueued m switch_kind here queue pos enough

  switch_to-FirstSwitch :
      FirstSwitch (switch_to m place s.current_thread x (record s { ready_threads = l })) m s x xs
  unfolding switch_to lock_scheduler unlock_scheduler switch_context
  switch_to-FirstSwitch =
      let q = queued in
      record {
        final =
            unlock_scheduler
              (record here { events = q.events; clock_reads = here.clock_reads + 1 });
        returns = rw (maybe_reschedule_thread-eq m s.current_thread, requeued, q.returns) refl;
        current = refl;
        ready = fifo;
        running = set_field_self x thread_running s.status;
        place = set_field_ne s.current_thread place s.resume x (λ e. other (sym e));
        queue = q.queue;
        time_of = q.time_of;
        reads = refl;
        writes = refl;
      }

pub switch_thread-FirstSwitch :
    (m : Machine) (place : Resume) (s : Sched) (x : ℕ) (xs : List ℕ)
    → IsFifo s.ready_threads (x ∷ xs)
    → IsQueue s.events []
    → s.current_thread ≢ x
    → s.current_thread ≢ s.idle_thread
    → can_run (s.status s.current_thread) ≡ false
    → 0 < x
    → 0 < s.event x
    → 0 < m.rounds
    → FirstSwitch (switch_thread m place s) m s x xs
switch_thread-FirstSwitch m place s x xs fifo queue other not_idle stays some pos enough =
    let taken = get_next-Fifo s.ready_threads (x ∷ xs) fifo in
    let differs : (x == s.current_thread) ≡ false = ne→== x s.current_thread (λ e. other (sym e)) in
    rw (switch_thread-eq m place s, get_next-eq s x taken.0 taken.1 some, differs)
      (switch_to-FirstSwitch m place s x xs taken.0 taken.2 queue other not_idle stays pos enough)
