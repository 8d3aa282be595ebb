-- ===== src/Threads.antt =====
-- Threads and processes, kernel/multitasking/thread.c and process.c: their fields as functions of the
-- address, and the words of the stacks. The addresses that `kmalloc` gives are arguments.
pub mod Start
use flurry.Prelude.{ℕ, zero, suc, ◌+◌, ◌*◌, List}
use flurry.Prelude.Memory.{Mem, write}
use flurry.Prelude.Words.{add64, sub64, u64}
use flurry.Events.{Events, set_field, event_create}
use flurry.Sched.{ThreadStatus, thread_ready}

abbrev pub stack_size : ℕ
stack_size = 4096 * 4

-- An InitialKStack: seven registers, and the addresses of `init_thread` and of the thread's function.
abbrev pub initial_kstack_size : ℕ
initial_kstack_size = 72

pub record Process : Type 0 where
  pub pid : ℕ
  pub pml4 : ℕ
  pub name : List ℕ

pub record Threads : Type 0 where
  pub rsp : Mem
  pub rsp_base : Mem
  pub tid : Mem
  pub process : Mem
  pub name : ℕ → List ℕ
  pub status : ℕ → ThreadStatus
  pub event : Mem
  pub stack : Mem
  pub events : Events
  pub tid_counter : ℕ
  pub pid_counter : ℕ

-- `process_create`: the process, and the counter behind it.
unfoldable pub process_create : List ℕ → ℕ → Threads → Process × Threads
process_create name pml4 s = (
  record { pid = s.pid_counter; pml4 = pml4; name = name },
  record s { pid_counter = u64 (s.pid_counter + 1) },
)

-- The stack of a new thread; the six registers below are left as they are.
unfoldable pub push_initial : ℕ → ℕ → ℕ → Mem → Mem
push_initial stack init_thread entry m =
    write (write (write m (add64 stack 48) 0x202) (add64 stack 56) init_thread) (add64 stack 64)
      entry

-- `thread_kcreate`, with the addresses of the thread, its stack and its event, and of `init_thread`.
unfoldable pub thread_kcreate : ℕ → ℕ → ℕ → ℕ → List ℕ → ℕ → ℕ → Threads → Threads
unfolding push_initial event_create set_field
thread_kcreate t rsp_base event init_thread name entry proc s =
    let stack = sub64 (add64 rsp_base stack_size) initial_kstack_size in
    let created = event_create event s.events in
    record s {
      rsp = write s.rsp t stack;
      rsp_base = write s.rsp_base t rsp_base;
      tid = write s.tid t s.tid_counter;
      process = write s.process t proc;
      name = set_field t name s.name;
      status = set_field t thread_ready s.status;
      event = write s.event t event;
      stack = push_initial stack init_thread entry s.stack;
      events = record created { owner = write created.owner event t };
      tid_counter = u64 (s.tid_counter + 1);
    }
