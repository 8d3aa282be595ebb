-- ===== src/Sched.antt =====
-- The scheduler, kernel/multitasking/sched.c, with the thread and process structs of thread.c and
-- process.c. Threads, events and list nodes are addresses, with 0 for NULL.
pub mod Fifo
pub mod Slice
pub mod Turn
pub mod Handler
pub mod First
pub mod FirstRun
use flurry.Prelude.{ℕ, zero, suc, ◌+◌, ◌-◌, Bool, true, false, ◌==◌, ltb, if◌then◌else◌, List, ◌++◌}
use flurry.Prelude.Memory.{Mem, write}
use flurry.Prelude.Words.{add64, sub64}
use flurry.Prelude.Outcome.{Outcome, ok, panic, out_of_fuel, ◌>>=◌}
use flurry.Events.{
  Events, EventCallback, no_callback, call_switch_thread, call_thread_wake, EventKind, switch_kind,
  switch_same_kind, wake_kind, set_field, event_create, event_enqueue, event_remove,
  event_peek_next,
}
use flurry.Lapic.{lapic_eoi, lapic_timer_one_shot}

-- Three milliseconds.
abbrev pub sched_thread_quantum : ℕ
sched_thread_quantum = 3_000_000

-- A list of threads, with the fields of its nodes.
pub record ThreadList : Type 0 where
  pub head : ℕ
  pub tail : ℕ
  pub thread : Mem
  pub next : Mem

unfoldable pub thread_list_new : Mem → Mem → ThreadList
thread_list_new thread next = record { head = 0; tail = 0; thread = thread; next = next }

-- `thread_list_add`, with the node that `kmalloc` gave.
unfoldable pub thread_list_add : ℕ → ℕ → ThreadList → ThreadList
thread_list_add node t list =
    if list.head == 0
    then record {
      head = node;
      tail = node;
      thread = write list.thread node t;
      next = write list.next node 0;
    }
    else record {
      head = list.head;
      tail = node;
      thread = write list.thread node t;
      next = write (write list.next node 0) list.tail node;
    }

unfoldable pub thread_list_get_next : ThreadList → ℕ × ThreadList
thread_list_get_next list = if list.head == 0 then (0, list) else (
  list.thread list.head,
  record {
    head = list.next list.head;
    tail = if list.next list.head == 0 then 0 else list.tail;
    thread = list.thread;
    next = list.next;
  },
)

pub data ThreadStatus : Type 0 where
  thread_ready : ThreadStatus
  thread_running : ThreadStatus
  thread_sleeping : ThreadStatus
  thread_blocked : ThreadStatus
  thread_done : ThreadStatus

-- Where a thread goes on when it is switched to: at its start, in the loop of `handle_next_event`, or
-- behind the call of `thread_yield`. The source has this on the thread's saved stack.
pub data Resume : Type 0 where
  starts : Resume
  in_handler : Resume
  in_yield : Resume

pub record Sched : Type 0 where
  pub events : Events
  pub ready_threads : ThreadList
  pub status : ℕ → ThreadStatus
  pub event : Mem
  pub idle_thread : ℕ
  pub current_thread : ℕ
  pub irq_disable_counter : ℕ
  pub interrupts_enabled : Bool
  pub resume : ℕ → Resume
  pub saved_flags : ℕ → Bool
  pub clock_reads : ℕ
  pub lapic_writes : List (ℕ × ℕ)

-- What the scheduler runs on: the value of each reading of the clock, the node that `kmalloc` gives
-- beside a list, the timer's registers and rate, and the rounds allotted to the event queue.
pub record Machine : Type 0 where
  pub tsc_read_ns : ℕ → ℕ
  pub new_node : ThreadList → ℕ
  pub lapic_base : ℕ
  pub calibration : ℕ
  pub rounds : ℕ

unfoldable pub lock_scheduler : Sched → Sched
lock_scheduler s = record s {
  interrupts_enabled = false;
  irq_disable_counter = s.irq_disable_counter + 1;
}

-- It is only called behind `lock_scheduler`: the counter is not 0.
unfoldable pub unlock_scheduler : Sched → Sched
unlock_scheduler s = record s {
  irq_disable_counter = s.irq_disable_counter - 1;
  interrupts_enabled = if s.irq_disable_counter == 1 then true else s.interrupts_enabled;
}

-- The fields of a thread's event that the scheduler sets before it queues the event.
unfoldable pub set_event : ℕ → ℕ → EventCallback → ℕ → EventKind → Events → Events
unfolding set_field
set_event event time callback arg kind s = record s {
  time = write s.time event time;
  callback = set_field event callback s.callback;
  callback_arg = write s.callback_arg event arg;
  kind = set_field event kind s.kind;
}

-- The event of the current thread, queued to switch threads at the end of a time slice.
unfoldable pub queue_switch : Machine → EventKind → Sched → Outcome Sched
unfolding set_event event_enqueue
queue_switch m kind s =
    let event = s.event s.current_thread in
    let time = add64 (m.tsc_read_ns s.clock_reads) sched_thread_quantum in
    do
      events ←
          event_enqueue m.rounds event (set_event event time call_switch_thread 0 kind s.events)
      ok (record s { events = events; clock_reads = s.clock_reads + 1 })

abbrev pub can_run : ThreadStatus → Bool
can_run thread_ready = true
can_run thread_running = true
can_run thread_sleeping = false
can_run thread_blocked = false
can_run thread_done = false

-- The first part of `maybe_reschedule_thread`.
unfoldable pub requeue : Machine → ℕ → Sched → Sched
unfolding set_field thread_list_add
requeue m thread s =
    if thread == s.idle_thread
    then s
    else if can_run (s.status thread)
    then record s {
      status = set_field thread thread_ready s.status;
      ready_threads = thread_list_add (m.new_node s.ready_threads) thread s.ready_threads;
    }
    else s

unfoldable pub maybe_reschedule_thread : Machine → ℕ → Sched → Outcome Sched
unfolding lock_scheduler requeue queue_switch unlock_scheduler
maybe_reschedule_thread m thread s = do
  s' ← queue_switch m switch_kind (requeue m thread (lock_scheduler s))
  ok (unlock_scheduler s')

unfoldable pub get_next_thread : Sched → ℕ × Sched
unfolding thread_list_get_next
get_next_thread s =
    let taken = thread_list_get_next s.ready_threads in
    (if taken.0 == 0 then s.idle_thread else taken.0, record s { ready_threads = taken.1 })

-- `switch_context` of sched.asm: the old thread's flags and place are saved, the new one's flags loaded.
unfoldable pub switch_context : ℕ → ℕ → Resume → Sched → Sched
unfolding set_field
switch_context old new place s = record s {
  saved_flags = set_field old s.interrupts_enabled s.saved_flags;
  resume = set_field old place s.resume;
  interrupts_enabled = set_field old s.interrupts_enabled s.saved_flags new;
}

-- `switch_thread` with no other thread to run.
unfoldable pub keep_running : Machine → Sched → Outcome (Bool × Sched)
unfolding queue_switch
keep_running m s = do s' ← queue_switch m switch_same_kind s; ok (false, s')

-- The end of `switch_thread`, up to the return in the other thread.
unfoldable pub switch_to : Machine → Resume → ℕ → ℕ → Sched → Outcome (Bool × Sched)
unfolding switch_context maybe_reschedule_thread set_field
switch_to m place this next s = do
  s' ← maybe_reschedule_thread m this (
      switch_context this next place
        (record s { current_thread = next; status = set_field next thread_running s.status }))
  ok (true, s')

-- `switch_thread` called at a place: whether the thread changed, and the state behind it.
unfoldable pub switch_thread : Machine → Resume → Sched → Outcome (Bool × Sched)
unfolding get_next_thread keep_running switch_to
switch_thread m place s =
    let taken = get_next_thread s in
    if taken.0 == s.current_thread
    then keep_running m taken.1
    else switch_to m place s.current_thread taken.0 taken.1

abbrev is_sleeping : ThreadStatus → Bool
is_sleeping thread_sleeping = true
is_sleeping thread_ready = false
is_sleeping thread_running = false
is_sleeping thread_blocked = false
is_sleeping thread_done = false

unfoldable pub thread_wake : Machine → ℕ → Sched → Outcome Sched
unfolding set_field thread_list_add
thread_wake m t s =
    if is_sleeping (s.status t)
    then ok (record s {
      status = set_field t thread_ready s.status;
      ready_threads = thread_list_add (m.new_node s.ready_threads) t s.ready_threads;
    })
    else panic

unfoldable pub timer_fire_at : Machine → ℕ → Sched → Sched
unfolding lapic_timer_one_shot
timer_fire_at m time s = record s {
  lapic_writes =
      s.lapic_writes
      ++ lapic_timer_one_shot m.lapic_base m.calibration (sub64 time (m.tsc_read_ns s.clock_reads))
          32;
  clock_reads = s.clock_reads + 1;
}

unfoldable pub end_of_interrupt : Machine → Sched → Sched
unfolding lapic_eoi
end_of_interrupt m s = record s { lapic_writes = s.lapic_writes ++ lapic_eoi m.lapic_base }

-- Where the current thread goes on: in the loop of `handle_next_event`, a new thread from the start of
-- it, or in its own code.
abbrev pub goes_on : Machine → Resume → Sched → Bool × Sched
goes_on m starts s = (true, end_of_interrupt m s)
goes_on m in_handler s = (true, s)
goes_on m in_yield s = (false, s)

-- `switch_thread` and what the thread does next: whether it is in the loop of `handle_next_event`.
unfoldable pub switch_and_resume : Machine → Resume → Sched → Outcome (Bool × Sched)
unfolding switch_thread
switch_and_resume m place s = do
  switched ← switch_thread m place s
  ok (
      goes_on m (if switched.0 then switched.1.resume switched.1.current_thread else place)
        switched.1)

-- A call of the event's callback from the loop. A call of NULL is a fault.
unfoldable pub run_callback : Machine → EventCallback → ℕ → Sched → Outcome (Bool × Sched)
unfolding switch_and_resume thread_wake
run_callback m no_callback arg s = panic
run_callback m call_switch_thread arg s = switch_and_resume m in_handler s
run_callback m call_thread_wake arg s = do s' ← thread_wake m arg s; ok (true, s')

-- The end of `handle_next_event`.
unfoldable pub arm_next : Machine → Sched → Outcome Sched
unfolding event_peek_next timer_fire_at
arm_next m s = do
  next ← event_peek_next m.rounds s.events
  ok (if next == 0 then s else timer_fire_at m (s.events.time next) s)

-- The loop of `handle_next_event` and what is behind it. Where control has left the loop for the code of
-- a thread, the timer is not armed.
unfoldable pub handle_events : ℕ → Machine → Sched → Outcome Sched
unfolding event_peek_next event_remove run_callback arm_next
handle_events zero m s = out_of_fuel
handle_events (suc rounds) m s = do
  event ← event_peek_next m.rounds s.events
  (if event == 0
      then arm_next m s
      else if ltb (m.tsc_read_ns s.clock_reads) (s.events.time event)
      then arm_next m (record s { clock_reads = s.clock_reads + 1 })
      else do
        events ← event_remove m.rounds event s.events
        called ←
            run_callback m (events.callback event) (events.callback_arg event)
              (record s { events = events; clock_reads = s.clock_reads + 1 })
        (if called.0 then handle_events rounds m called.1 else ok called.1))

unfoldable pub handle_next_event : ℕ → Machine → Sched → Outcome Sched
unfolding handle_events end_of_interrupt
handle_next_event rounds m s = handle_events rounds m (end_of_interrupt m s)

-- `thread_sleep`, from the end of `thread_yield` on in the thread that runs then.
unfoldable pub thread_sleep : ℕ → Machine → ℕ → Sched → Outcome Sched
unfolding lock_scheduler unlock_scheduler set_event set_field event_enqueue switch_and_resume
    handle_events
thread_sleep rounds m time s =
    let locked = lock_scheduler s in
    let this = s.current_thread in
    let wake_time = add64 (m.tsc_read_ns s.clock_reads) time in
    do
      events ←
          event_enqueue m.rounds (s.event this)
            (set_event (s.event this) wake_time call_thread_wake this wake_kind s.events)
      yielded ← switch_and_resume m in_yield (
          unlock_scheduler (record locked {
            events = events;
            status = set_field this thread_sleeping s.status;
            clock_reads = s.clock_reads + 1;
          }))
      (if yielded.0 then handle_events rounds m yielded.1 else ok yielded.1)
