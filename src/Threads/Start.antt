-- ===== src/Threads/Start.antt =====
-- Where a new thread starts.
use flurry.Prelude.{ℕ, ◌+◌, ◌-◌, ◌^◌, ◌<◌, ◌≡◌, ◌≢◌, ◌∙◌, List, arith}
use flurry.Prelude.Memory.{Mem, write_self, write_ne}
use flurry.Prelude.Words.{add64, sub64}
use flurry.Threads.{Threads, push_initial, thread_kcreate}

-- What `switch_context` finds on the stack of a thread: it pops six registers and the flags, and returns
-- to a function, which returns to another one; nothing but the flags and the two is written.
pub record StartsAt (before after : Mem) (rsp init_thread entry : ℕ) : Type 0 where
  pub flags : after (rsp + 48) ≡ 0x202
  pub first : after (rsp + 56) ≡ init_thread
  pub second : after (rsp + 64) ≡ entry
  pub others : (a : ℕ) → a ≢ rsp + 48 → a ≢ rsp + 56 → a ≢ rsp + 64 → after a ≡ before a

push_initial-StartsAt :
    (stack init_thread entry : ℕ) (m : Mem)
    → stack + 72 < 2 ^ 64
    → StartsAt m (push_initial stack init_thread entry m) stack init_thread entry
unfolding push_initial
push_initial-StartsAt stack init_thread entry m fits =
    let flags : add64 stack 48 ≡ stack + 48 = omega arith in
    let first : add64 stack 56 ≡ stack + 56 = omega arith in
    let second : add64 stack 64 ≡ stack + 64 = omega arith in
    rw (flags, first, second)
      (record {
        flags =
            write_ne _ (stack + 64) entry (stack + 48) (omega arith)
            ∙ write_ne _ (stack + 56) init_thread (stack + 48) (omega arith)
            ∙ write_self m (stack + 48) 0x202;
        first =
            write_ne _ (stack + 64) entry (stack + 56) (omega arith)
            ∙ write_self _ (stack + 56) init_thread;
        second = write_self _ (stack + 64) entry;
        others = λ a not_flags not_first not_second.
            write_ne _ (stack + 64) entry a not_second
            ∙ write_ne _ (stack + 56) init_thread a not_first
            ∙ write_ne m (stack + 48) 0x202 a not_flags;
      })

-- With a stack below 2 ^ 64, a new thread has the topmost 72 bytes of it as its first frame, which holds
-- flags with the interrupts on, the address of `init_thread` and that of the thread's function, and no
-- other word of the stacks is written.
pub thread_kcreate-StartsAt :
    (t rsp_base event init_thread : ℕ) (name : List ℕ) (entry proc : ℕ) (s : Threads)
    → rsp_base + 16384 < 2 ^ 64
    → ((thread_kcreate t rsp_base event init_thread name entry proc s).rsp t
        ≡ rsp_base + 16384 - 72)
      × StartsAt s.stack
          (thread_kcreate t rsp_base event init_thread name entry proc s).stack
          (rsp_base + 16384 - 72)
          init_thread
          entry
unfolding thread_kcreate
thread_kcreate-StartsAt t rsp_base event init_thread name entry proc s fits =
    let top : sub64 (add64 rsp_base 16384) 72 ≡ rsp_base + 16384 - 72 = omega arith in
    (
      write_self s.rsp t _ ∙ top,
      rw top
          (push_initial-StartsAt (rsp_base + 16384 - 72) init_thread entry s.stack (omega arith)),
    )
