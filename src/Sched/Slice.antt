-- ===== src/Sched/Slice.antt =====
-- One switch of threads: the next in the queue runs, and the thread before it queues up.
use flurry.Prelude.{
  ℕ, suc, ◌+◌, ◌<◌, ◌≤◌, ◌≡◌, ◌≢◌, ◌∙◌, refl, sym, Bool, true, false, ◌==◌, if◌then◌else◌, arith,
  ==_refl, ne→==, List, [], ◌∷◌, ◌++◌, length,
}
use flurry.Prelude.Words.{add64}
use flurry.Prelude.Outcome.{Outcome, ok, ◌>>=◌}
use flurry.Events.{Events, EventKind, EventCallback, switch_kind, call_switch_thread, set_field}
use flurry.Events.Order.{
  insert_by, erase, Sorted, erase-Sorted, Sorted-write, length-insert_by, length-erase,
  count_in-erase_self,
}
use flurry.Events.Queue.{Holds-once, IsTree}
use flurry.Events.Calls.{IsQueue, event_enqueue-insert_by}
use flurry.Sched.{
  ThreadList, thread_list_add, thread_list_get_next, thread_ready, thread_running, Resume, Sched,
  Machine, sched_thread_quantum, lock_scheduler, unlock_scheduler, set_event, queue_switch, can_run,
  requeue, maybe_reschedule_thread, get_next_thread, switch_context, switch_to, keep_running,
  switch_thread,
}
use flurry.Sched.Fifo.{IsFifo, nodes_at, get_next-Fifo, add-Fifo}

-- The event of the current thread, set to the end of a time slice.
abbrev pub slice_end : Machine → EventKind → Sched → Events
slice_end m kind s =
    set_event (s.event s.current_thread) (add64 (m.tsc_read_ns s.clock_reads) sched_thread_quantum)
      call_switch_thread 0 kind s.events

pub set_event-IsTree :
    (event time : ℕ) (target : EventCallback) (arg : ℕ) (kind : EventKind) (s : Events)
    (es : List ℕ)
    → IsQueue s es
    → IsTree (set_event event time target arg kind s) es
      × Sorted (set_event event time target arg kind s).time (erase event es)
unfolding set_event
set_event-IsTree event time target arg kind s es h = (
  record { holds = h.inside.holds; flags = h.inside.flags },
  Sorted-write s.time event time (erase event es)
      (count_in-erase_self event es (Holds-once s.links es h.inside.holds event))
      (erase-Sorted s.time event es h.sorted),
)

-- A call returns with the event queue and the clock's readings advanced, and nothing else changed.
pub record Queued (o : Outcome Sched) (s : Sched) (es : List ℕ) : Type 0 where
  pub events : Events
  pub queued : List ℕ
  pub returns : o ≡ ok (record s { events = events; clock_reads = s.clock_reads + 1 })
  pub queue : IsQueue events queued
  pub longer : length queued ≤ suc (length es)

pub queue_switch-Queued :
    (m : Machine) (kind : EventKind) (s : Sched) (es : List ℕ)
    → IsQueue s.events es
    → 0 < s.event s.current_thread
    → length es < m.rounds
    → Queued (queue_switch m kind s) s es
unfolding queue_switch
queue_switch-Queued m kind s es h pos enough =
    let event = s.event s.current_thread in
    let set =
      set_event-IsTree event (add64 (m.tsc_read_ns s.clock_reads) sched_thread_quantum)
        call_switch_thread 0 kind s.events es h in
    let r = event_enqueue-insert_by m.rounds (slice_end m kind s) event es set.0 pos enough set.1 in
    record {
      events = r.final;
      queued = insert_by (slice_end m kind s).time event (erase event es);
      returns = rw r.returns refl;
      queue = r.queue;
      longer = omega (
        arith,
        length-insert_by (slice_end m kind s).time event (erase event es),
        length-erase event es,
      );
    }

-- After a switch: the first of the ready threads runs, the others moved up, and the thread before it
-- is behind them.
pub record Switched (o : Outcome (Bool × Sched)) (s : Sched) (place : Resume) (x : ℕ) (xs : List ℕ)
    (es : List ℕ) : Type 0 where
  pub final : Sched
  pub queued : List ℕ
  pub returns : o ≡ ok (true, final)
  pub current : final.current_thread ≡ x
  pub ready : IsFifo final.ready_threads (xs ++ (s.current_thread ∷ []))
  pub running : final.status x ≡ thread_running
  pub waiting : final.status s.current_thread ≡ thread_ready
  pub place_kept : final.resume s.current_thread ≡ place
  pub event_kept : final.event ≡ s.event
  pub resume_kept : final.resume x ≡ s.resume x
  pub writes_kept : final.lapic_writes ≡ s.lapic_writes
  pub idle_kept : final.idle_thread ≡ s.idle_thread
  pub counter_kept : final.irq_disable_counter ≡ s.irq_disable_counter
  pub queue : IsQueue final.events queued
  pub longer : length queued ≤ suc (length es)

-- That the nodes which a machine allocates for a list of at most `size` threads are new.
abbrev pub Allocates : Machine → ℕ → Type 0
Allocates m size =
    (l : ThreadList) (xs : List ℕ) (h : IsFifo l xs)
    → length xs ≤ size
    → (0 < m.new_node l) × (nodes_at (m.new_node l) h.cells ≡ 0)

pub get_next-eq :
    (s : Sched) (x : ℕ) (l : ThreadList)
    → thread_list_get_next s.ready_threads ≡ (x, l)
    → 0 < x
    → get_next_thread s ≡ (x, record s { ready_threads = l })
unfolding get_next_thread
get_next-eq s x l e pos = rw (e, ne→== x 0 (omega arith)) refl

requeue-eq :
    (m : Machine) (t : ℕ) (s : Sched)
    → t ≢ s.idle_thread
    → can_run (s.status t) ≡ true
    → requeue m t s ≡ record s {
      status = set_field t thread_ready s.status;
      ready_threads = thread_list_add (m.new_node s.ready_threads) t s.ready_threads;
    }
unfolding requeue
requeue-eq m t s other runs = rw (ne→== t s.idle_thread other, runs) refl

pub switch_thread-eq :
    (m : Machine) (place : Resume) (s : Sched)
    → switch_thread m place s ≡ (
        if (get_next_thread s).0 == s.current_thread
        then keep_running m (get_next_thread s).1
        else switch_to m place s.current_thread (get_next_thread s).0 (get_next_thread s).1)
unfolding switch_thread
switch_thread-eq m place s = refl

pub set_field_self {ℓ} : {A : Type ℓ} (p : ℕ) (v : A) (f : ℕ → A) → set_field p v f p ≡ v
unfolding set_field
set_field_self p v f = rw (==_refl p) refl

pub set_field_ne {ℓ} :
    {A : Type ℓ} (p : ℕ) (v : A) (f : ℕ → A) (q : ℕ) → q ≢ p → set_field p v f q ≡ f q
unfolding set_field
set_field_ne p v f q other = rw (ne→== q p other) refl

pub maybe_reschedule_thread-eq :
    (m : Machine) (t : ℕ) (s : Sched)
    → maybe_reschedule_thread m t s ≡ (
        queue_switch m switch_kind (requeue m t (lock_scheduler s))
        >>= (λ s'. ok (unlock_scheduler s')))
unfolding maybe_reschedule_thread
maybe_reschedule_thread-eq m t s = refl

module _ (m : Machine) (place : Resume) (s : Sched) (x : ℕ) (xs es : List ℕ) (l : ThreadList)
    (fifo : IsFifo l xs) (queue : IsQueue s.events es) (other : s.current_thread ≢ x)
    (not_idle : s.current_thread ≢ s.idle_thread)
    (runs : can_run (s.status s.current_thread) ≡ true) (pos : 0 < s.event x)
    (enough : length es < m.rounds) (size : ℕ) (fresh : Allocates m size)
    (fits : length xs ≤ size) where
  -- Before `maybe_reschedule_thread` queues the thread.
  abbrev here : Sched
  here = lock_scheduler (
      switch_context s.current_thread x place (record s {
        ready_threads = l;
        current_thread = x;
        status = set_field x thread_running s.status;
      }))

  abbrev there : Sched
  there = record here {
    status = set_field s.current_thread thread_ready (set_field x thread_running s.status);
    ready_threads = thread_list_add (m.new_node l) s.current_thread l;
  }

  requeued : requeue m s.current_thread here ≡ there
  unfolding lock_scheduler switch_context
  requeued =
      let still : can_run (set_field x thread_running s.status s.current_thread) ≡ true =
        rw (set_field_ne x thread_running s.status s.current_thread other) runs in
      requeue-eq m s.current_thread here not_idle still

  switched_to : Queued (queue_switch m switch_kind there) there es
  unfolding lock_scheduler switch_context
  switched_to = queue_switch-Queued m switch_kind there es queue pos enough

  switch_to-Switched :
      Switched
        (switch_to m place s.current_thread x (record s { ready_threads = l }))
        s
        place
        x
        xs
        es
  unfolding switch_to lock_scheduler unlock_scheduler switch_context
  switch_to-Switched =
      let q = switched_to in
      record {
        final =
            unlock_scheduler
              (record there { events = q.events; clock_reads = there.clock_reads + 1 });
        queued = q.queued;
        returns = rw (maybe_reschedule_thread-eq m s.current_thread, requeued, q.returns) refl;
        current = refl;
        ready =
            add-Fifo l xs fifo (m.new_node l) s.current_thread (fresh l xs fifo fits).0
              (fresh l xs fifo fits).1;
        running =
            set_field_ne s.current_thread thread_ready (set_field x thread_running s.status) x
              (λ e. other (sym e))
            ∙ set_field_self x thread_running s.status;
        waiting =
            set_field_self s.current_thread thread_ready (set_field x thread_running s.status);
        place_kept = set_field_self s.current_thread place s.resume;
        event_kept = refl;
        resume_kept = set_field_ne s.current_thread place s.resume x (λ e. other (sym e));
        writes_kept = refl;
        idle_kept = refl;
        counter_kept = omega arith;
        queue = q.queue;
        longer = q.longer;
      }

-- With new nodes for the thread list and more rounds than events, `switch_thread` in a thread that can run
-- and is not the idle thread switches to the first ready thread, another one with an event: that one is
-- current and running, the others move up, and the thread before it is ready behind them, goes on at
-- the place where it was switched away, and the interrupt counter is as it was.
pub switch_thread-Switched :
    (m : Machine) (place : Resume) (s : Sched) (x : ℕ) (xs es : List ℕ) (size : ℕ)
    → IsFifo s.ready_threads (x ∷ xs)
    → IsQueue s.events es
    → s.current_thread ≢ x
    → s.current_thread ≢ s.idle_thread
    → can_run (s.status s.current_thread) ≡ true
    → 0 < x
    → 0 < s.event x
    → length es < m.rounds
    → Allocates m size
    → length xs ≤ size
    → Switched (switch_thread m place s) s place x xs es
switch_thread-Switched m place s x xs es size fifo queue other not_idle runs some pos enough fresh
      fits =
    let taken = get_next-Fifo s.ready_threads (x ∷ xs) fifo in
    let differs : (x == s.current_thread) ≡ false = ne→== x s.current_thread (λ e. other (sym e)) in
    rw (switch_thread-eq m place s, get_next-eq s x taken.0 taken.1 some, differs)
      (switch_to-Switched m place s x xs es taken.0 taken.2 queue other not_idle runs pos enough
        size fresh fits)
