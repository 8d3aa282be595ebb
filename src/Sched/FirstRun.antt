-- ===== src/Sched/FirstRun.antt =====
-- The first run of the handler: it starts a new thread and sets the timer for the end of its slice.
use flurry.Prelude.{
  ℕ, suc, ◌+◌, ◌<◌, ◌≤◌, ◌≡◌, ◌≢◌, ◌∙◌, refl, ap, Bool, true, false, ◌==◌, ltb, arith, ==_refl,
  ne→==, List, [], ◌∷◌, ◌++◌,
}
use mathlib.Core.Path.{subst}
use flurry.Prelude.Words.{add64, sub64}
use flurry.Prelude.Outcome.{Outcome, ok, ◌>>=◌}
use flurry.Events.{call_switch_thread, event_peek_next}
use flurry.Events.Shape.{one_if}
use flurry.Events.Order.{erase-head}
use flurry.Events.Queue.{Holds-zero}
use flurry.Events.Calls.{IsQueue, event_remove-erase, event_peek_next-first}
use flurry.Lapic.{lapic_eoi, lapic_timer_one_shot}
use flurry.Sched.{
  thread_running, starts, in_handler, Sched, Machine, sched_thread_quantum, can_run, switch_thread,
  end_of_interrupt, goes_on, run_callback, timer_fire_at, arm_next, handle_events,
  handle_next_event,
}
use flurry.Sched.Fifo.{IsFifo}
use flurry.Sched.Handler.{behind, called_back, resumed, handle_events-eq, callback-eq}
use flurry.Sched.First.{FirstSwitch, switch_thread-FirstSwitch}

handle_next_event-eq :
    (rounds : ℕ) (m : Machine) (s : Sched)
    → handle_next_event rounds m s ≡ handle_events rounds m (end_of_interrupt m s)
unfolding handle_next_event
handle_next_event-eq rounds m s = refl

-- The loop with a first event that is not yet due: the timer is set for it.
handle_events-later :
    (rounds : ℕ) (m : Machine) (s : Sched) (e : ℕ)
    → event_peek_next m.rounds s.events ≡ ok e
    → (e == 0) ≡ false
    → ltb (m.tsc_read_ns s.clock_reads) (s.events.time e) ≡ true
    → handle_events (suc rounds) m s
      ≡ ok (timer_fire_at m (s.events.time e) (record s { clock_reads = s.clock_reads + 1 }))
unfolding handle_events arm_next
handle_events-later rounds m s e peek some later = rw (peek, some, later) refl

-- What the loop has before and behind one event.
one_event :
    (m : Machine) (s : Sched) (e : ℕ)
    → IsQueue s.events (e ∷ [])
    → 1 < m.rounds
    → (event_peek_next m.rounds s.events ≡ ok e) × ((e == 0) ≡ false)
one_event m s e queue enough =
    let first : one_if e e ≡ 1 = rw (==_refl e) refl in
    (
      event_peek_next-first m.rounds s.events (e ∷ []) queue (omega arith),
      ne→== e 0 (λ z. omega (
        arith,
        first,
        Holds-zero s.events.links (e ∷ []) queue.inside.holds,
        ap (λ w. one_if w e) z,
      )),
    )

-- After the first run of the handler: the new thread runs, the timer is set for the end of its slice.
pub record Started (o : Outcome Sched) (m : Machine) (s : Sched) (x : ℕ) (xs : List ℕ)
    : Type 0 where
  pub final : Sched
  pub returns : o ≡ ok final
  pub current : final.current_thread ≡ x
  pub ready : IsFifo final.ready_threads xs
  pub running : final.status x ≡ thread_running
  pub queue : IsQueue final.events (s.event x ∷ [])
  pub slice :
      final.events.time (s.event x) ≡ add64 (m.tsc_read_ns (s.clock_reads + 1)) sched_thread_quantum
  pub armed :
      final.lapic_writes
      ≡ ((s.lapic_writes ++ lapic_eoi m.lapic_base) ++ lapic_eoi m.lapic_base)
        ++ lapic_timer_one_shot m.lapic_base m.calibration
            (sub64
              (add64 (m.tsc_read_ns (s.clock_reads + 1)) sched_thread_quantum)
              (m.tsc_read_ns (s.clock_reads + 3)))
            32

module _ (rounds : ℕ) (m : Machine) (s : Sched) (x : ℕ) (xs : List ℕ) (o : Outcome (Bool × Sched))
    (f : FirstSwitch o m s x xs) (new : s.resume x ≡ starts) (enough : 1 < m.rounds)
    (soon : m.tsc_read_ns (s.clock_reads + 1)
      < add64 (m.tsc_read_ns s.clock_reads) sched_thread_quantum) where
  abbrev inside : Sched
  inside = end_of_interrupt m f.final

  abbrev armed_for : Sched
  armed_for =
      timer_fire_at m (inside.events.time (s.event x))
        (record inside { clock_reads = inside.clock_reads + 1 })

  new_place : f.final.resume f.final.current_thread ≡ starts
  new_place = ap f.final.resume f.current ∙ f.place ∙ new

  goes_on_in : behind (suc rounds) m (resumed m o) ≡ ok armed_for
  unfolding end_of_interrupt
  goes_on_in =
      let look = one_event m f.final (s.event x) f.queue enough in
      let later : ltb (m.tsc_read_ns f.final.clock_reads) (f.final.events.time (s.event x)) ≡ true =
        rw (f.reads, f.time_of) (ground (arith, soon)) in
      ap (λ q. behind (suc rounds) m (resumed m q)) f.returns
      ∙ ap (λ p. behind (suc rounds) m (ok (goes_on m p f.final))) new_place
      ∙ handle_events-later rounds m inside (s.event x) look.0 look.1 later

  armed_writes :
      armed_for.lapic_writes
      ≡ (s.lapic_writes ++ lapic_eoi m.lapic_base)
        ++ lapic_timer_one_shot m.lapic_base m.calibration
            (sub64
              (add64 (m.tsc_read_ns s.clock_reads) sched_thread_quantum)
              (m.tsc_read_ns (s.clock_reads + 1 + 1)))
            32
  unfolding end_of_interrupt timer_fire_at
  armed_writes = rw (f.writes, f.time_of, f.reads) refl

  started_final :
      (current : armed_for.current_thread ≡ x) × IsFifo armed_for.ready_threads xs
      × (armed_for.status x ≡ thread_running)
      × IsQueue armed_for.events (s.event x ∷ [])
      × (armed_for.events.time (s.event x)
          ≡ add64 (m.tsc_read_ns s.clock_reads) sched_thread_quantum)
  unfolding end_of_interrupt timer_fire_at
  started_final = (f.current, f.ready, f.running, f.queue, f.time_of)

-- When the only event is due and switches threads, the current thread can no longer run and is not the
-- idle thread, and the first ready thread is another one that has not run yet and has an event:
-- with three rounds for the queue and two for the loop, and a clock that stays below 2 ^ 64 and has not
-- passed the end of the new thread's slice when the loop reads it again, the handler returns with that
-- thread current and running, the thread before it not ready, the new thread's event as the only one,
-- at the end of its slice, and the timer set for it.
pub handle_next_event-Started :
    (rounds : ℕ) (m : Machine) (s : Sched) (e x : ℕ) (xs : List ℕ)
    → IsQueue s.events (e ∷ [])
    → s.events.time e ≤ m.tsc_read_ns s.clock_reads
    → s.events.callback e ≡ call_switch_thread
    → IsFifo s.ready_threads (x ∷ xs)
    → s.current_thread ≢ x
    → s.current_thread ≢ s.idle_thread
    → can_run (s.status s.current_thread) ≡ false
    → 0 < x
    → 0 < s.event x
    → s.resume x ≡ starts
    → 2 < m.rounds
    → m.tsc_read_ns (s.clock_reads + 2)
      < add64 (m.tsc_read_ns (s.clock_reads + 1)) sched_thread_quantum
    → Started (handle_next_event (suc (suc rounds)) m s) m s x xs
unfolding end_of_interrupt
handle_next_event-Started rounds m s e x xs queue due switches fifo other not_idle stays some pos
      new enough soon =
    let s0 = end_of_interrupt m s in
    let look = one_event m s0 e queue (omega arith) in
    let first : one_if e e ≡ 1 = rw (==_refl e) refl in
    let now : ltb (m.tsc_read_ns s.clock_reads) (s.events.time e) ≡ false = ground arith in
    let r =
      event_remove-erase m.rounds s.events e (e ∷ []) queue (omega (arith, first)) (omega arith) in
    let s1 : Sched = record s0 { events = r.final; clock_reads = s.clock_reads + 1 } in
    let empty : IsQueue r.final [] = subst (IsQueue r.final) (erase-head e []) r.queue in
    let f =
      switch_thread-FirstSwitch m in_handler s1 x xs fifo empty other not_idle stays some pos
        (omega arith) in
    let two : s.clock_reads + 1 + 1 ≡ s.clock_reads + 2 = omega arith in
    let soon' : m.tsc_read_ns (s.clock_reads + 1 + 1)
        < add64 (m.tsc_read_ns (s.clock_reads + 1)) sched_thread_quantum =
      rw two soon in
    let a = armed_for rounds m s1 x xs (switch_thread m in_handler s1) f new (omega arith) soon' in
    let facts =
      started_final rounds m s1 x xs (switch_thread m in_handler s1) f new (omega arith) soon' in
    let three : s.clock_reads + 1 + 1 + 1 ≡ s.clock_reads + 3 = omega arith in
    record {
      final = a;
      returns =
          handle_next_event-eq (suc (suc rounds)) m s
          ∙ handle_events-eq (suc rounds) m s0 e look.0 look.1 now
          ∙ ap (λ o. o >>= (λ events. behind (suc rounds) m (called_back m e s0 events))) r.returns
          ∙ ap (λ c. behind (suc rounds) m (run_callback m c (r.final.callback_arg e) s1))
              (ap (λ g. g e) r.callbacks ∙ switches)
          ∙ ap (behind (suc rounds) m) (callback-eq m (r.final.callback_arg e) s1)
          ∙ goes_on_in rounds m s1 x xs (switch_thread m in_handler s1) f new (omega arith) soon';
      current = facts.0;
      ready = facts.1;
      running = facts.2;
      queue = facts.3;
      slice = facts.4;
      armed =
          armed_writes rounds m s1 x xs (switch_thread m in_handler s1) f new (omega arith) soon'
          ∙ rw three refl;
    }
