-- ===== src/SchedBoot.antt =====
-- The start of the scheduler: `sched_init` of kernel/multitasking/sched.c. The addresses that `kmalloc`
-- gives and those of the functions are a parameter.
pub mod Created
pub mod Start
use flurry.Prelude.{ℕ, true, Bool, List, [], ◌∷◌}
use flurry.Prelude.Memory.{Mem, write}
use flurry.Prelude.Outcome.{Outcome, ok, ◌>>=◌}
use flurry.Events.{Events, call_switch_thread, set_field, event_create, event_enqueue}
use flurry.Interrupts.{Interrupts, other_handler, interrupts_set_handler}
use flurry.Sched.{
  ThreadList, thread_list_new, thread_list_add, thread_done, starts, Sched, Machine,
  handle_next_event,
}
use flurry.Threads.{Process, Threads, process_create, thread_kcreate}

-- What is given for a thread: its address, its stack, its event and its function.
pub record NewThread : Type 0 where
  pub thread : ℕ
  pub stack : ℕ
  pub event : ℕ
  pub entry : ℕ

-- The init thread has neither stack nor function; `init_function` is the function init_thread, and
-- `timer_handler` is handle_next_event.
pub record Given : Type 0 where
  pub process : ℕ
  pub init_thread : ℕ
  pub init_event : ℕ
  pub idle : NewThread
  pub one : NewThread
  pub two : NewThread
  pub init_function : ℕ
  pub timer_handler : ℕ
  pub node_thread : Mem
  pub node_next : Mem

-- The names, by their bytes.
abbrev pub kernel_name : List ℕ
kernel_name = 107 ∷ 101 ∷ 114 ∷ 110 ∷ 101 ∷ 108 ∷ []

abbrev pub init_name : List ℕ
init_name = 105 ∷ 110 ∷ 105 ∷ 116 ∷ []

abbrev pub idle_name : List ℕ
idle_name = 105 ∷ 100 ∷ 108 ∷ 101 ∷ []

abbrev pub one_name : List ℕ
one_name = 111 ∷ 110 ∷ 101 ∷ []

abbrev pub two_name : List ℕ
two_name = 116 ∷ 119 ∷ 111 ∷ []

unfoldable pub kernel_thread : Given → NewThread → List ℕ → Threads → Threads
unfolding thread_kcreate
kernel_thread g n name s =
    thread_kcreate n.thread n.stack n.event g.init_function name n.entry g.process s

unfoldable pub make_init_thread : Given → Threads → Threads
unfolding event_create set_field
make_init_thread g s = record s {
  name = set_field g.init_thread init_name s.name;
  events = event_create g.init_event s.events;
  event = write s.event g.init_thread g.init_event;
  status = set_field g.init_thread thread_done s.status;
}

unfoldable pub make_threads : Given → Threads → Threads
unfolding kernel_thread make_init_thread
make_threads g s =
    kernel_thread g g.two two_name
      (kernel_thread g g.one one_name (kernel_thread g g.idle idle_name (make_init_thread g s)))

unfoldable pub first_ready : Machine → Given → ThreadList
unfolding thread_list_new thread_list_add
first_ready m g =
    let empty = thread_list_new g.node_thread g.node_next in
    let one = thread_list_add (m.new_node empty) g.one.thread empty in
    thread_list_add (m.new_node one) g.two.thread one

-- The scheduler's variables at the call of `handle_next_event`, with the interrupts on or off. A thread
-- that has not run has the flags 0x202 on its stack: its interrupts are on.
unfoldable pub first_state : Machine → Given → Bool → Threads → Events → Sched
unfolding first_ready
first_state m g enabled t events = record {
  events = events;
  ready_threads = first_ready m g;
  status = t.status;
  event = t.event;
  idle_thread = g.idle.thread;
  current_thread = g.init_thread;
  irq_disable_counter = 0;
  interrupts_enabled = enabled;
  resume = λ thread. starts;
  saved_flags = λ thread. true;
  clock_reads = 0;
  lapic_writes = [];
}

-- The threads' events live on in the scheduler's state.
pub record Booted : Type 0 where
  pub sched : Sched
  pub threads : Threads
  pub interrupts : Interrupts
  pub kernel_process : Process

unfoldable pub sched_init : ℕ → Machine → Given → ℕ → Bool → Threads → Interrupts → Outcome Booted
unfolding make_threads first_state set_field event_enqueue process_create handle_next_event
    interrupts_set_handler
sched_init rounds m g pml4 enabled s irqs =
    let created = process_create kernel_name pml4 s in
    let t = make_threads g (created.1) in
    do
      events ← event_enqueue m.rounds g.init_event (record (t.events) {
        callback = set_field g.init_event call_switch_thread t.events.callback;
      })
      sched ← handle_next_event rounds m (first_state m g enabled t events)
      ok (record {
        sched = sched;
        threads = t;
        interrupts = interrupts_set_handler 32 (other_handler g.timer_handler) irqs;
        kernel_process = created.0;
      })
