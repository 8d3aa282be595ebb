-- ===== src/Sched/Turn.antt =====
-- Threads take turns: a ready thread runs after one time slice of each thread before it.
use mathlib.Core.Path.{subst}
use mathlib.Core.List.{append_assoc}
use flurry.Prelude.{
  ℕ, zero, suc, ◌+◌, ◌<◌, ◌≤◌, ◌≡◌, ◌≢◌, ◌∙◌, refl, ap, true, arith, ==_refl, List, [], ◌∷◌, ◌++◌,
  length, length-append,
}
use flurry.Prelude.Outcome.{Outcome, ok, ◌>>=◌}
use flurry.Events.Items.{count_in, count_in-append}
use flurry.Events.Shape.{one_if}
use flurry.Events.Calls.{IsQueue}
use flurry.Sched.{Resume, Sched, Machine, can_run, switch_thread}
use flurry.Sched.Fifo.{IsFifo}
use flurry.Sched.Slice.{Allocates, Switched, switch_thread-Switched}

-- So many switches in a row, each from the handler of the timer.
abbrev pub switches : ℕ → Machine → Resume → Sched → Outcome Sched
switches zero m place s = ok s
switches (suc n) m place s = do r ← switch_thread m place s; switches n m place r.1

-- The threads that take turns: those that are ready behind the current one, each once, none of them NULL
-- or the idle thread, and each with an event.
pub record Turns (s : Sched) (xs : List ℕ) : Type 0 where
  pub fifo : IsFifo s.ready_threads xs
  pub runs : can_run (s.status s.current_thread) ≡ true
  pub once : (t : ℕ) → one_if t s.current_thread + count_in t xs ≤ 1
  pub thread :
      (t : ℕ)
      → 0 < one_if t s.current_thread + count_in t xs
      → (0 < t) × (t ≢ s.idle_thread) × (0 < s.event t)

-- A thread has its turn.
pub record Turn (o : Outcome Sched) (x : ℕ) (xs : List ℕ) : Type 0 where
  pub final : Sched
  pub returns : o ≡ ok final
  pub current : final.current_thread ≡ x
  pub turns : Turns final xs

pub one_turn :
    (m : Machine) (place : Resume) (s : Sched) (x : ℕ) (xs es : List ℕ) (size : ℕ)
    → Turns s (x ∷ xs)
    → IsQueue s.events es
    → length es < m.rounds
    → Allocates m size
    → length xs ≤ size
    → Switched (switch_thread m place s) s place x xs es
one_turn m place s x xs es size h queue enough fresh fits =
    let self : one_if s.current_thread s.current_thread ≡ 1 = rw (==_refl s.current_thread) refl in
    let first : one_if x x ≡ 1 = rw (==_refl x) refl in
    let here = h.thread s.current_thread (omega (arith, self)) in
    let there = h.thread x (omega (arith, first)) in
    let other : s.current_thread ≢ x =
      λ e. omega (arith, h.once s.current_thread, self, ap (one_if s.current_thread) e) in
    switch_thread-Switched m place s x xs es size h.fifo queue other here.1 h.runs there.0 there.2
      enough fresh fits

pub turn-Turns :
    (o : Outcome _) (place : Resume) (s : Sched) (x : ℕ) (xs es : List ℕ)
    → Turns s (x ∷ xs)
    → (w : Switched o s place x xs es) → Turns w.final (xs ++ (s.current_thread ∷ []))
turn-Turns o place s x xs es h w =
    let same : (t : ℕ)
        → one_if t w.final.current_thread + count_in t (xs ++ (s.current_thread ∷ []))
          ≡ one_if t s.current_thread + count_in t (x ∷ xs) =
      λ t. omega (arith, ap (one_if t) w.current, count_in-append t xs (s.current_thread ∷ [])) in
    record {
      fifo = w.ready;
      runs = rw (w.current, w.running) refl;
      once = λ t. omega (arith, same t, h.once t);
      thread = λ t some.
          let k = h.thread t (omega (arith, same t, some)) in
          (k.0, rw w.idle_kept k.1, rw w.event_kept k.2);
    }

-- Where the threads take turns (Turns), the event queue is in order, with rounds for one more event per
-- switch, and the allocator gives new nodes for lists as long as the ready list without its first
-- thread: the ready thread behind `length ys` others is the current one after `suc (length ys)`
-- switches, and the threads behind it, then the thread that ran first, then those others are ready
-- behind it, again taking turns.
pub switches-Turn :
    (m : Machine) (place : Resume) (s : Sched) (ys : List ℕ) (x : ℕ) (zs es : List ℕ) (size : ℕ)
    → Turns s (ys ++ (x ∷ zs))
    → IsQueue s.events es
    → length es + length ys < m.rounds
    → Allocates m size
    → length ys + length zs ≤ size
    → Turn (switches (suc (length ys)) m place s) x (zs ++ (s.current_thread ∷ ys))
switches-Turn m place s [] x zs es size h queue enough fresh fits =
    let w = one_turn m place s x zs es size h queue (omega arith) fresh (omega arith) in
    record {
      final = w.final;
      returns = rw w.returns refl;
      current = w.current;
      turns = turn-Turns (switch_thread m place s) place s x zs es h w;
    }
switches-Turn m place s (y ∷ ys) x zs es size h queue enough fresh fits =
    let fit : length (ys ++ (x ∷ zs)) ≤ size = omega (arith, length-append ys (x ∷ zs)) in
    let w = one_turn m place s y (ys ++ (x ∷ zs)) es size h queue (omega arith) fresh fit in
    let back : (ys ++ (x ∷ zs)) ++ (s.current_thread ∷ [])
        ≡ ys ++ (x ∷ (zs ++ (s.current_thread ∷ []))) =
      simp append_assoc in
    let next : Turns w.final (ys ++ (x ∷ (zs ++ (s.current_thread ∷ [])))) =
      subst (Turns w.final) back
        (turn-Turns (switch_thread m place s) place s y (ys ++ (x ∷ zs)) es h w) in
    let rest =
      switches-Turn m place w.final ys x (zs ++ (s.current_thread ∷ [])) w.queued size next w.queue
        (omega (arith, w.longer)) fresh (omega (arith, length-append zs (s.current_thread ∷ []))) in
    let order : (zs ++ (s.current_thread ∷ [])) ++ (w.final.current_thread ∷ ys)
        ≡ zs ++ (s.current_thread ∷ (y ∷ ys)) =
      ap (λ t. (zs ++ (s.current_thread ∷ [])) ++ (t ∷ ys)) w.current ∙ simp append_assoc in
    record {
      final = rest.final;
      returns =
          ap (λ o. o >>= (λ r. switches (suc (length ys)) m place r.1)) w.returns ∙ rest.returns;
      current = rest.current;
      turns = subst (Turns rest.final) order rest.turns;
    }
