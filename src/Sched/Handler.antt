-- ===== src/Sched/Handler.antt =====
-- What the handler of the timer does with the first event.
use flurry.Prelude.{
  ℕ, suc, ◌+◌, ◌<◌, ◌≤◌, ◌≡◌, ◌∙◌, refl, ap, Bool, false, ◌==◌, ltb, if◌then◌else◌, arith, ==_refl,
  ne→==, List, [], ◌∷◌, ◌++◌, length,
}
use flurry.Prelude.Outcome.{Outcome, ok, ◌>>=◌}
use flurry.Events.{Events, call_switch_thread, event_peek_next, event_remove}
use flurry.Events.Shape.{one_if}
use flurry.Events.Order.{erase, erase-head}
use flurry.Events.Queue.{Holds-zero}
use flurry.Events.Calls.{IsQueue, event_remove-erase, event_peek_next-first}
use flurry.Sched.{
  in_handler, in_yield, Sched, Machine, switch_thread, goes_on, switch_and_resume, run_callback,
  handle_events,
}
use flurry.Sched.Slice.{Allocates}
use flurry.Sched.Turn.{Turns, one_turn, turn-Turns}

-- The loop behind a callback, and a callback that goes on so.
abbrev pub behind : ℕ → Machine → Outcome (Bool × Sched) → Outcome Sched
behind rounds m o =
    o >>= (λ called. if called.0 then handle_events rounds m called.1 else ok called.1)

abbrev pub called_back : Machine → ℕ → Sched → Events → Outcome (Bool × Sched)
called_back m e s events =
    run_callback m (events.callback e) (events.callback_arg e)
      (record s { events = events; clock_reads = s.clock_reads + 1 })

abbrev pub resumed : Machine → Outcome (Bool × Sched) → Outcome (Bool × Sched)
resumed m o = o >>= (λ switched. ok (
    goes_on m (if switched.0 then switched.1.resume switched.1.current_thread else in_handler)
      switched.1))

pub handle_events-eq :
    (rounds : ℕ) (m : Machine) (s : Sched) (e : ℕ)
    → event_peek_next m.rounds s.events ≡ ok e
    → (e == 0) ≡ false
    → ltb (m.tsc_read_ns s.clock_reads) (s.events.time e) ≡ false
    → handle_events (suc rounds) m s ≡ (
        event_remove m.rounds e s.events >>= (λ events. behind rounds m (called_back m e s events)))
unfolding handle_events
handle_events-eq rounds m s e peek some due = rw (peek, some, due) refl

pub callback-eq :
    (m : Machine) (arg : ℕ) (s : Sched)
    → run_callback m call_switch_thread arg s ≡ resumed m (switch_thread m in_handler s)
unfolding run_callback switch_and_resume
callback-eq m arg s = refl

-- A run of the handler that ends in the code of another thread, with no write to the timer.
pub record Unarmed (o : Outcome Sched) (s : Sched) (x : ℕ) (xs : List ℕ) : Type 0 where
  pub final : Sched
  pub returns : o ≡ ok final
  pub turns : Turns final (xs ++ (s.current_thread ∷ []))
  pub current : final.current_thread ≡ x
  pub unarmed : final.lapic_writes ≡ s.lapic_writes

module _ (rounds : ℕ) (m : Machine) (s : Sched) (e x : ℕ) (es xs : List ℕ) (size : ℕ) where
  -- Where the threads take turns, the first event of the queue is due and switches threads, and the
  -- first ready thread gave the processor up in `thread_yield`: with rounds for the queue and new nodes
  -- for the thread list, the loop of `handle_next_event` ends with that thread as the current one, in its
  -- own code, and has written nothing to the timer.
  pub handle_events-Unarmed :
      IsQueue s.events (e ∷ es)
      → s.events.time e ≤ m.tsc_read_ns s.clock_reads
      → s.events.callback e ≡ call_switch_thread
      → Turns s (x ∷ xs)
      → s.resume x ≡ in_yield
      → suc (length es) < m.rounds
      → Allocates m size
      → length xs ≤ size
      → Unarmed (handle_events (suc rounds) m s) s x xs
  handle_events-Unarmed queue due switches turns yielded enough fresh fits =
      let first : one_if e e ≡ 1 = rw (==_refl e) refl in
      let some : (e == 0) ≡ false = ne→== e 0 (λ z. omega (
        arith,
        first,
        Holds-zero s.events.links (e ∷ es) queue.inside.holds,
        ap (λ w. one_if w e) z,
      )) in
      let now : ltb (m.tsc_read_ns s.clock_reads) (s.events.time e) ≡ false = ground arith in
      let peek = event_peek_next-first m.rounds s.events (e ∷ es) queue (omega arith) in
      let r = event_remove-erase m.rounds s.events e (e ∷ es) queue (omega (arith, first)) enough in
      let s1 : Sched = record s { events = r.final; clock_reads = s.clock_reads + 1 } in
      let turns1 : Turns s1 (x ∷ xs) = record {
        fifo = turns.fifo;
        runs = turns.runs;
        once = turns.once;
        thread = turns.thread;
      } in
      let shorter : length (erase e (e ∷ es)) < m.rounds = rw (erase-head e es) (omega arith) in
      let w =
        one_turn m in_handler s1 x xs (erase e (e ∷ es)) size turns1 r.queue shorter fresh fits in
      let place : w.final.resume w.final.current_thread ≡ in_yield =
        ap w.final.resume w.current ∙ w.resume_kept ∙ yielded in
      record {
        final = w.final;
        returns =
            handle_events-eq rounds m s e peek some now
            ∙ ap (λ o. o >>= (λ events. behind rounds m (called_back m e s events))) r.returns
            ∙ ap (λ c. behind rounds m (run_callback m c (r.final.callback_arg e) s1))
                (ap (λ f. f e) r.callbacks ∙ switches)
            ∙ ap (behind rounds m) (callback-eq m (r.final.callback_arg e) s1)
            ∙ ap (λ o. behind rounds m (resumed m o)) w.returns
            ∙ ap (λ p. behind rounds m (ok (goes_on m p w.final))) place;
        turns =
            turn-Turns (switch_thread m in_handler s1) in_handler s1 x xs (erase e (e ∷ es)) turns1
              w;
        current = w.current;
        unarmed = w.writes_kept;
      }
