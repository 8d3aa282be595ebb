-- ===== src/Tests/Threads.antt =====
-- Concrete inputs for the theorems on the scheduler.
use flurry.Prelude.{
  ◌-◌, ap, sym, ℕ, zero, suc, ◌+◌, ◌<◌, ◌≤◌, ◌≡◌, max, refl, ltb, true, false, ◌==◌, if◌then◌else◌,
  List, [], ◌∷◌, length, arith,
}
use flurry.Prelude.Memory.{Mem}
use flurry.Events.{Events, call_switch_thread, none_kind}
use flurry.Events.Shape.{leaf, node}
use flurry.Events.Items.{count_in}
use flurry.Events.Calls.{IsQueue}
use flurry.Sched.{
  ThreadList, thread_list_add, in_handler, in_yield, thread_running, thread_ready, Sched, Machine,
  switch_thread, handle_events,
}
use flurry.Sched.Fifo.{IsFifo, Takes, Chain, nodes_at, threads, thread_list-Fifo}
use flurry.Sched.Slice.{Allocates, Switched, switch_thread-Switched}
use flurry.Sched.Turn.{Turns, Turn, switches, switches-Turn}
use flurry.Interrupts.{Interrupts, unknown_int_handler}
use flurry.SchedBoot.{Given, sched_init}
use flurry.SchedBoot.Created.{Distinct}
use flurry.SchedBoot.Start.{FirstRuns, sched_init-FirstRuns}
use flurry.Threads.{Threads, thread_kcreate}
use flurry.Threads.Start.{StartsAt, thread_kcreate-StartsAt}
use flurry.Sched.Handler.{Unarmed, handle_events-Unarmed}

-- An allocator for lists of at most four threads: the node behind the highest of the list's.
abbrev highest : ℕ → Mem → ℕ → ℕ
highest zero next p = p
highest (suc n) next p = max p (highest n next (next p))

highest-above :
    (n : ℕ) (x : ℕ) (thread next : Mem) (p : ℕ) (cs : List (ℕ × ℕ))
    → Chain thread next p cs
    → length (threads cs) ≤ n
    → highest n next p < x
    → nodes_at x cs ≡ 0
highest-above n x thread next p [] h fits above = refl
highest-above zero x thread next p (c ∷ cs) h fits above = absurd (omega arith)
highest-above (suc n) x thread next p (c ∷ cs) h fits above =
    let rest : nodes_at x cs ≡ 0 =
      highest-above n x thread next (next c.0) cs h.3 (omega arith)
        (rw (sym h.0) (omega (arith, above))) in
    ground (arith, h.0, rest)

abbrev machine : Machine
machine = record {
  tsc_read_ns = λ i. 1000 + i;
  new_node = λ l. suc (highest 4 l.next l.head);
  lapic_base = 0xfee0_0000;
  calibration = 100;
  rounds = 8;
}

machine-Allocates : Allocates machine 4
machine-Allocates l xs h fits = (
  omega arith,
  highest-above 4 (suc (highest 4 l.next l.head)) l.thread l.next l.head h.cells h.chain
      (omega (arith, fits, ap length h.listed)) (omega arith),
)

-- Threads 2 and 3 are ready, at the nodes 100 and 101.
abbrev two_ready : ThreadList
two_ready = record {
  head = 100;
  tail = 101;
  thread = λ a. if a == 100 then 2 else 3;
  next = λ a. if a == 100 then 101 else 0;
}

two_ready-IsFifo : IsFifo two_ready (2 ∷ 3 ∷ [])
two_ready-IsFifo = record {
  cells = (100, 2) ∷ (101, 3) ∷ [];
  chain = (refl, omega arith, refl, (refl, omega arith, refl, refl));
  tail = refl;
  once = λ x. ground arith;
  listed = refl;
}

-- Thread 1 runs; its event, 11, is the only one in the queue; thread 2 sleeps in `thread_yield`.
abbrev one_event : Events
one_event = record {
  links = record { root = 11; left = λ x. 0; right = λ x. 0; parent = λ x. 0 };
  time = λ x. 500;
  enqueued = λ x. ltb 0 (count_in x (11 ∷ []));
  owner = λ x. 0;
  callback = λ x. call_switch_thread;
  callback_arg = λ x. 0;
  kind = λ x. none_kind;
}

one_event-IsQueue : IsQueue one_event (11 ∷ [])
one_event-IsQueue = record {
  inside = record {
    holds = record {
      tree = node leaf 11 leaf;
      placed = record {
        ctx = (refl, refl);
        tree = (refl, omega arith, refl, refl, refl);
        once = λ x. ground arith;
      };
      listed = refl;
    };
    flags = λ x. refl;
  };
  sorted = (tt, tt);
}

abbrev three_threads : Sched
three_threads = record {
  events = one_event;
  ready_threads = two_ready;
  status = λ t. if t == 1 then thread_running else thread_ready;
  event = λ t. t + 10;
  idle_thread = 9;
  current_thread = 1;
  irq_disable_counter = 0;
  interrupts_enabled = true;
  resume = λ t. in_yield;
  saved_flags = λ t. true;
  clock_reads = 0;
  lapic_writes = [];
}

three_threads-Turns : Turns three_threads (2 ∷ 3 ∷ [])
three_threads-Turns = record {
  fifo = two_ready-IsFifo;
  runs = refl;
  once = λ t. ground arith;
  thread = λ t some. (ground arith, ground arith, omega arith);
}

thread_list-Fifo_example :
    IsFifo (thread_list_add 102 4 two_ready) (2 ∷ 3 ∷ 4 ∷ []) × Takes two_ready (2 ∷ 3 ∷ [])
unfolding two_ready-IsFifo
thread_list-Fifo_example =
    thread_list-Fifo two_ready (2 ∷ 3 ∷ []) two_ready-IsFifo 102 4 (omega arith) refl

switch_thread-Switched_example :
    Switched
      (switch_thread machine in_handler three_threads)
      three_threads
      in_handler
      2
      (3 ∷ [])
      (11 ∷ [])
switch_thread-Switched_example =
    switch_thread-Switched machine in_handler three_threads 2 (3 ∷ []) (11 ∷ []) 4 two_ready-IsFifo
      one_event-IsQueue (omega arith) (omega arith) refl (omega arith) (omega arith) (omega arith)
      machine-Allocates (omega arith)

switches-Turn_example : Turn (switches 2 machine in_handler three_threads) 3 (1 ∷ 2 ∷ [])
switches-Turn_example =
    switches-Turn machine in_handler three_threads (2 ∷ []) 3 [] (11 ∷ []) 4 three_threads-Turns
      one_event-IsQueue (omega arith) machine-Allocates (omega arith)

handle_events-Unarmed_example :
    Unarmed (handle_events 1 machine three_threads) three_threads 2 (3 ∷ [])
handle_events-Unarmed_example =
    handle_events-Unarmed 0 machine three_threads 11 2 [] (3 ∷ []) 4 one_event-IsQueue (omega arith)
      refl three_threads-Turns refl (omega arith) machine-Allocates (omega arith)

abbrev no_threads : Threads
no_threads = record {
  rsp = λ t. 0;
  rsp_base = λ t. 0;
  tid = λ t. 0;
  process = λ t. 0;
  name = λ t. [];
  status = λ t. thread_ready;
  event = λ t. 0;
  stack = λ a. 0;
  events = one_event;
  tid_counter = 0;
  pid_counter = 0;
}

thread_kcreate-StartsAt_example :
    ((thread_kcreate 20 0x8000 30 0x1234 (111 ∷ 110 ∷ 101 ∷ []) 0x5678 40 no_threads).rsp 20
      ≡ 0x8000 + 16384 - 72)
    × StartsAt
        (λ a. 0)
        (thread_kcreate 20 0x8000 30 0x1234 (111 ∷ 110 ∷ 101 ∷ []) 0x5678 40 no_threads).stack
        (0x8000 + 16384 - 72)
        0x1234
        0x5678
thread_kcreate-StartsAt_example =
    thread_kcreate-StartsAt 20 0x8000 30 0x1234 (111 ∷ 110 ∷ 101 ∷ []) 0x5678 40 no_threads
      (omega arith)

abbrev no_events : Events
no_events = record one_event {
  links = record { root = 0; left = λ x. 0; right = λ x. 0; parent = λ x. 0 };
  enqueued = λ x. false;
}

no_events-IsQueue : IsQueue no_events []
no_events-IsQueue = record {
  inside = record {
    holds = record {
      tree = leaf;
      placed = record { ctx = (refl, refl); tree = refl; once = λ x. ground arith };
      listed = refl;
    };
    flags = λ x. refl;
  };
  sorted = tt;
}

abbrev given : Given
given = record {
  process = 1;
  init_thread = 2;
  init_event = 12;
  idle = record { thread = 3; stack = 0x10_0000; event = 13; entry = 0x8003 };
  one = record { thread = 4; stack = 0x11_0000; event = 14; entry = 0x8004 };
  two = record { thread = 5; stack = 0x12_0000; event = 15; entry = 0x8005 };
  init_function = 0x8001;
  timer_handler = 0x8002;
  node_thread = λ a. 0;
  node_next = λ a. 0;
}

given-Distinct : Distinct given
given-Distinct = record {
  init_idle = λ e. omega arith;
  init_one = λ e. omega arith;
  init_two = λ e. omega arith;
  one_two = λ e. omega arith;
  one_some = omega arith;
  init_event_some = omega arith;
  one_event_some = omega arith;
}

abbrev no_handlers : Interrupts
no_handlers = record { int_handlers = λ v. unknown_int_handler; last_allocated_vector = 0 }

sched_init-FirstRuns_example :
    FirstRuns
      (sched_init 2 machine given 0x1000 false
        (record no_threads { events = no_events })
        no_handlers)
      machine
      given
sched_init-FirstRuns_example =
    sched_init-FirstRuns 0 machine given 0x1000 false (record no_threads { events = no_events })
      given-Distinct (λ l xs h fits. machine-Allocates l xs h (omega (arith, fits))) (omega arith)
      (omega arith) no_handlers no_events-IsQueue
