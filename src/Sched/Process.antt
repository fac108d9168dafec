-- ===== src/Sched/Process.antt =====
-- Processes and the life of threads, src/kernel/thread.c. Processes and threads are numbers for their
-- addresses; `malloc` gives numbers not in use.
pub mod Owners
use asym.Base.{
  ℕ, zero, suc, ◌+◌, min, Bool, true, false, List, [], ◌∷◌, ◌++◌, Option, none, some, leb, ◌==◌,
  if◌then◌else◌, add64, sub64,
}
use asym.Base.Maps.{update}
use asym.Sched.State.{Thread, BlockResult, norm, priority_max, kernel_code}

-- `process_t` without its address space, its arguments and its table of files
pub record Process : Type 0 where
  pub id : ℕ
  pub killed : Bool
  pub ref : ℕ
  pub new_tid : ℕ

-- All processes and threads, `newPid`, the threads that exist, and the processes that were freed, in
-- that order.
pub record Tasks : Type 0 where
  pub processes : ℕ → Process
  pub threads : ℕ → Thread
  pub thread_ids : ℕ → ℕ
  pub new_pid : ℕ
  pub existing : List ℕ
  pub freed : List ℕ

-- `has_argv` says that `process_allocate_argv` did not return NULL.
unfoldable pub process_new : Tasks → ℕ → Bool → Tasks × Option ℕ
process_new k p has_argv =
    if has_argv
    then (
      record k {
        processes =
            update k.processes p (record { id = k.new_pid; killed = false; ref = 0; new_tid = 0 });
        new_pid = add64 k.new_pid 1;
      },
      some p,
    )
    else (k, none)

-- The fields that a new thread starts with; `entry` stands for the frame that starts there, on the
-- thread's kernel stack.
abbrev pub fresh_thread : ℕ → ℕ → ℕ → Thread
fresh_thread p entry priority = record {
  process = p;
  killed = false;
  time_start = 0;
  time_end = 0;
  deadline = 0;
  result = norm;
  blocker = none;
  priority = min priority priority_max;
  cs = kernel_code;
  frame = entry;
}

unfoldable pub process_thread_new : Tasks → ℕ → ℕ → ℕ → ℕ → Tasks
process_thread_new k t p entry priority = record k {
  processes = update k.processes p (record (k.processes p) {
    ref = add64 (k.processes p).ref 1;
    new_tid = add64 (k.processes p).new_tid 1;
  });
  threads = update k.threads t (fresh_thread p entry priority);
  thread_ids = update k.thread_ids t (k.processes p).new_tid;
  existing = t ∷ k.existing;
}

unfoldable pub thread_new : Tasks → ℕ → ℕ → Bool → ℕ → ℕ → Tasks × Option ℕ
thread_new k t p has_argv entry priority =
    let (made, process) = process_new k p has_argv in
    elim process [
      | none ↦ (made, none)
      | some q ↦ (process_thread_new made t q entry priority, some t)
    ]

unfoldable pub thread_split : Tasks → ℕ → ℕ → ℕ → ℕ → Tasks
thread_split k t thread entry priority =
    process_thread_new k t (k.threads thread).process entry priority

abbrev pub without : ℕ → List ℕ → List ℕ
without t [] = []
without t (u ∷ us) = if u == t then us else u ∷ without t us

-- `process_free` on the last thread's process, before the thread itself is freed
unfoldable pub thread_free : Tasks → ℕ → Tasks
thread_free k t =
    let p = (k.threads t).process in
    let lowered = record (k.processes p) { ref = sub64 (k.processes p).ref 1 } in
    record k {
      processes = update k.processes p lowered;
      existing = without t k.existing;
      freed = if leb (k.processes p).ref 1 then k.freed ++ p ∷ [] else k.freed;
    }
