-- ===== src/SchedBoot/Start.antt =====
-- `sched_init` starts the first thread.
use flurry.Prelude.{ℕ, suc, ◌<◌, ◌≡◌, ◌∙◌, refl, sym, ap, Bool, arith, [], ◌∷◌, ◌++◌}
use mathlib.Core.Path.{subst}
use flurry.Prelude.Words.{add64, sub64}
use flurry.Prelude.Outcome.{Outcome, ok, ◌>>=◌}
use flurry.Events.{Events, call_switch_thread, event_enqueue, set_field}
use flurry.Events.Calls.{IsQueue, event_enqueue-insert_by}
use flurry.Interrupts.{Interrupts, IntHandler, other_handler, interrupts_set_handler}
use flurry.Lapic.{lapic_eoi, lapic_timer_one_shot}
use flurry.Sched.{thread_running, Sched, Machine, sched_thread_quantum, can_run, handle_next_event}
use flurry.Sched.Fifo.{IsFifo}
use flurry.Sched.Slice.{Allocates, set_field_self}
use flurry.Sched.FirstRun.{Started, handle_next_event-Started}
use flurry.Threads.{Threads, process_create}
use flurry.SchedBoot.{Given, kernel_name, make_threads, first_state, Booted, sched_init}
use flurry.SchedBoot.Created.{
  Quiet, make_threads-Quiet, Distinct, make_threads-event, make_threads-done, first_ready-IsFifo,
}

-- After `sched_init`: thread one runs, thread two is ready, the timer is set for the end of the slice of
-- thread one, and the timer's vector leads to the handler.
pub record FirstRuns (o : Outcome Booted) (m : Machine) (g : Given) : Type 0 where
  pub final : Booted
  pub returns : o ≡ ok final
  pub current : final.sched.current_thread ≡ g.one.thread
  pub running : final.sched.status g.one.thread ≡ thread_running
  pub ready : IsFifo final.sched.ready_threads (g.two.thread ∷ [])
  pub queue : IsQueue final.sched.events (g.one.event ∷ [])
  pub slice : final.sched.events.time g.one.event ≡ add64 (m.tsc_read_ns 1) sched_thread_quantum
  pub armed :
      final.sched.lapic_writes
      ≡ (lapic_eoi m.lapic_base ++ lapic_eoi m.lapic_base)
        ++ lapic_timer_one_shot m.lapic_base m.calibration
            (sub64 (add64 (m.tsc_read_ns 1) sched_thread_quantum) (m.tsc_read_ns 3))
            32
  pub handler : final.interrupts.int_handlers 32 ≡ other_handler g.timer_handler

-- The threads before the scheduler runs.
abbrev created : Given → ℕ → Threads → Threads
created g pml4 s = make_threads g ((process_create kernel_name pml4 s).1)

abbrev with_switch : Given → Events → Events
with_switch g e = record e { callback = set_field g.init_event call_switch_thread e.callback }

abbrev booted : Given → ℕ → Threads → Interrupts → Sched → Booted
booted g pml4 s irqs sched = record {
  sched = sched;
  threads = created g pml4 s;
  interrupts = interrupts_set_handler 32 (other_handler g.timer_handler) irqs;
  kernel_process = (process_create kernel_name pml4 s).0;
}

sched_init-eq :
    (rounds : ℕ) (m : Machine) (g : Given) (pml4 : ℕ) (enabled : Bool) (s : Threads)
    (irqs : Interrupts)
    → sched_init rounds m g pml4 enabled s irqs ≡ (
        event_enqueue m.rounds g.init_event (with_switch g (created g pml4 s).events) >>= (λ events.
          handle_next_event rounds m (first_state m g enabled (created g pml4 s) events)
          >>= (λ sched. ok (booted g pml4 s irqs sched))))
unfolding sched_init
sched_init-eq rounds m g pml4 enabled s irqs = refl

created-Quiet :
    (g : Given) (pml4 : ℕ) (s : Threads)
    → IsQueue s.events []
    → Quiet g.init_event (created g pml4 s)
unfolding process_create
created-Quiet g pml4 s q = make_threads-Quiet g ((process_create kernel_name pml4 s).1) q

handler_set :
    (handler : IntHandler) (irqs : Interrupts)
    → (interrupts_set_handler 32 handler irqs).int_handlers 32 ≡ handler
unfolding interrupts_set_handler
handler_set handler irqs = refl

module _ (rounds : ℕ) (m : Machine) (g : Given) (pml4 : ℕ) (enabled : Bool) (s : Threads)
    (d : Distinct g) (fresh : Allocates m 1) (enough : 2 < m.rounds)
    (soon : m.tsc_read_ns 2 < add64 (m.tsc_read_ns 1) sched_thread_quantum) where
  -- The handler's first run.
  first_run :
      (events : Events)
      → IsQueue events (g.init_event ∷ [])
      → events.time g.init_event ≡ 0
      → events.callback g.init_event ≡ call_switch_thread
      → Started
          (handle_next_event
            (suc (suc rounds))
            m
            (first_state m g enabled (created g pml4 s) events))
          m
          (first_state m g enabled (created g pml4 s) events)
          g.one.thread
          (g.two.thread ∷ [])
  unfolding first_state
  first_run events queue early switches =
      let t = (process_create kernel_name pml4 s).1 in
      handle_next_event-Started rounds m (first_state m g enabled (created g pml4 s) events)
        g.init_event g.one.thread (g.two.thread ∷ []) queue (omega (arith, early)) switches
        (first_ready-IsFifo m g fresh) d.init_one d.init_idle (ap can_run (make_threads-done g t d))
        d.one_some (rw (make_threads-event g t d) d.one_event_some) refl enough soon

  -- From an empty event queue, where the init thread is none of the three others, threads one and two
  -- differ, and thread one, its event and the init thread's event are not NULL, with new nodes for the
  -- thread list, three rounds for the event queue and two for the handler's loop, and a clock that has
  -- not passed the end of the first slice (below 2 ^ 64) when the handler reads it again: `sched_init`
  -- comes to the start of thread one, which is current and running, thread two is ready, the only event
  -- is the end of the slice, the timer is set for it, and the timer's vector leads to the handler.
  pub sched_init-FirstRuns :
      (irqs : Interrupts)
      → IsQueue s.events []
      → FirstRuns (sched_init (suc (suc rounds)) m g pml4 enabled s irqs) m g
  unfolding first_state
  sched_init-FirstRuns irqs empty =
      let quiet = created-Quiet g pml4 s empty in
      let events = with_switch g (created g pml4 s).events in
      let r =
        event_enqueue-insert_by m.rounds events g.init_event []
          (record { holds = quiet.0.inside.holds; flags = quiet.0.inside.flags }) d.init_event_some
          (omega arith) tt in
      let f = first_run r.final r.queue (ap (λ h. h g.init_event) r.times ∙ quiet.1) (
        ap (λ h. h g.init_event) r.callbacks
        ∙ set_field_self g.init_event call_switch_thread (created g pml4 s).events.callback) in
      let event_one : (created g pml4 s).event g.one.thread ≡ g.one.event =
        make_threads-event g ((process_create kernel_name pml4 s).1) d in
      record {
        final = booted g pml4 s irqs f.final;
        returns =
            sched_init-eq (suc (suc rounds)) m g pml4 enabled s irqs
            ∙ rw (r.returns, f.returns) refl;
        current = f.current;
        running = f.running;
        ready = f.ready;
        queue = subst (λ e. IsQueue f.final.events (e ∷ [])) event_one f.queue;
        slice = ap f.final.events.time (sym event_one) ∙ f.slice;
        armed = f.armed;
        handler = handler_set (other_handler g.timer_handler) irqs;
      }
