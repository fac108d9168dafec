-- ===== src/Sched/State.antt =====
-- The threads, processors and blockers of the kernel, and how threads are counted over them.
use asym.Base.{ℕ, Bool, not, ◌&&◌, List, Option, ◌==◌}
pub use asym.Base.Maps.{update, update_self, update_ne}
use asym.Sched.Queue.{Queue}

-- PRIORITY_MAX; PRIORITY_MIN is 0
abbrev pub priority_max : ℕ
priority_max = 2

-- NEVER of include/stdlib/sys/proc.h
pub data BlockResult : Type 0 where
  norm timeout : BlockResult

-- `thread_t` with `block_data_t`. Of the trap frame the scheduler reads `cs` alone; `frame` is the rest.
pub record Thread : Type 0 where
  pub process : ℕ
  pub killed : Bool
  pub time_start : ℕ
  pub time_end : ℕ
  pub deadline : ℕ
  pub result : BlockResult
  pub blocker : Option ℕ
  pub priority : ℕ
  pub cs : ℕ
  pub frame : ℕ

-- `sched_context_t`; a thread is named by its number.
pub record Context : Type 0 where
  pub queues : ℕ → Queue
  pub graveyard : List ℕ
  pub run_thread : Option ℕ

-- The shared state: thread and process objects, the processors' contexts, the threads that wait at
-- each blocker, the list `blockers`, and the threads that `thread_free` was called on.
pub record Kernel : Type 0 where
  pub threads : ℕ → Thread
  pub process_killed : ℕ → Bool
  pub cpu_amount : ℕ
  pub contexts : ℕ → Context
  pub blocker_amount : ℕ
  pub blockers : List ℕ
  pub waiting : ℕ → List ℕ
  pub freed : List ℕ

-- GDT_KERNEL_CODE
abbrev pub kernel_code : ℕ
kernel_code = 0x8

-- `thread->process->killed && thread->trapFrame.cs != GDT_KERNEL_CODE`
abbrev pub is_dead : Kernel → ℕ → Bool
is_dead k t = k.process_killed (k.threads t).process && not ((k.threads t).cs == kernel_code)
