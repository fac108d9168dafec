-- ===== src/Sched/Tests.antt =====
-- The theorems on src/kernel/sched.c at a kernel of two processors.
use asym.Base.{
  ℕ, ◌≡◌, ◌<◌, refl, ap, false, Option, some, none, [], ◌∷◌, arith, ◌==◌, if◌then◌else◌, if_cases,
  inl, inr, ◌++◌, true,
}
use asym.Sched.Process.{Tasks, thread_new, thread_free}
use asym.Sched.Process.Owners.{IsOwned, owned, thread_free-IsOwned, thread_new-IsOwned}
use asym.Sched.Queue.{Queue, queue_init, IsCounted, Pops, queue_pop, queue_pop-Pops}
use asym.Sched.State.{Thread, norm, Context, Kernel, is_dead}
use asym.Sched.Context.{
  sched_context_find_any, sched_context_find_higher, levels_above, sched_context_thread_amount,
}
use asym.Sched.Context.Order.{AllCounted, flat}
use asym.Sched.Context.Search.{Found, sched_context_find_any-Found, sched_context_find_higher-Found}
use asym.Sched.Blocker.{
  sched_push, sched_unblock, sched_update_blockers, blocker_push, deadlines, int64_max,
}
use asym.Sched.Balance.{Chosen, sched_push-Least}
use asym.Sched.Sane.{IsSane, Keeps}
use asym.Sched.Wake.{sched_unblock-Keeps, sched_update_blockers-Keeps}
use asym.Sched.Deadlines.{InOrder, blocker_push-InOrder}
use asym.Sched.Schedule.{TrapFrame, Clock, sched_schedule}
use asym.Sched.Schedule.Keep.{sched_schedule-Keeps}

abbrev thread : ℕ → Thread
thread t = record {
  process = if t == 4 then 1 else 0;
  killed = false;
  time_start = 0;
  time_end = 100;
  deadline = if t == 3 then 50 else if t == 5 then 70 else 0;
  result = norm;
  blocker = if t == 3 then some 0 else if t == 5 then some 0 else if t == 1 then some 0 else none;
  priority = if t == 2 then 2 else 1;
  cs = 0x1B;
  frame = t;
}

-- the first processor runs thread 1, with thread 2 and the dead thread 4 behind it; the other idles
abbrev queues : ℕ → Queue
queues i = if i == 2 then record { length = 2; list = 4 ∷ 2 ∷ [] } else queue_init

abbrev busy : Context
busy = record { queues = queues; graveyard = []; run_thread = some 1 }

abbrev idle : Context
idle = record { queues = λ i. queue_init; graveyard = 6 ∷ []; run_thread = none }

-- threads 3 and 5 wait at the one blocker
abbrev kernel : Kernel
kernel = record {
  threads = thread;
  process_killed = λ p. p == 1;
  cpu_amount = 2;
  contexts = λ c. if c == 0 then busy else idle;
  blocker_amount = 1;
  blockers = 0 ∷ [];
  waiting = λ b. if b == 0 then 3 ∷ 5 ∷ [] else [];
  freed = [];
}

queue_init-IsCounted : IsCounted queue_init
queue_init-IsCounted = record { counted = refl; small = omega arith }

two-IsCounted : IsCounted (record { length = 2; list = 4 ∷ 2 ∷ [] })
two-IsCounted = record { counted = refl; small = omega arith }

busy-AllCounted : AllCounted queues
busy-AllCounted = record {
  at = λ i. if_cases IsCounted (i == 2) _ _ (λ e. two-IsCounted) (λ e. queue_init-IsCounted);
}

abbrev number : Option ℕ → ℕ
number none = 0
number (some b) = b

abbrev In : ℕ → Option ℕ → Type 0
In b o = o ≡ some b → b < 1

first : (b : ℕ) → In b (some 0)
first b e = omega (arith, ap number e)

nowhere : (b : ℕ) → In b none
nowhere b e = absurd (ground (arith, e))

kernel-IsSane : IsSane kernel
kernel-IsSane = record {
  some_cpu = omega arith;
  counted = λ c.
      if_cases (λ (d : Context). AllCounted d.queues) (c == 0) busy idle (λ e. busy-AllCounted)
        (λ e. record { at = λ i. queue_init-IsCounted });
  low = λ t. ground arith;
  blocking = λ t b.
      if_cases (In b) (t == 3) _ _ (λ e. first b)
        (λ e.
          if_cases (In b) (t == 5) _ _ (λ e. first b)
            (λ e. if_cases (In b) (t == 1) _ _ (λ e. first b) (λ e. nowhere b)));
  listed = omega arith;
  few = omega arith;
}

abbrev trap : TrapFrame
trap = record { cs = 0x1B; frame = 99 }

abbrev clock : Clock
clock = record { at_update = 60; at_compare = 61; at_load = 62 }

sched_schedule-Keeps_example : Keeps kernel (sched_schedule kernel 0 1 trap 77 clock).0
sched_schedule-Keeps_example =
    sched_schedule-Keeps kernel 0 1 trap 77 clock kernel-IsSane (omega arith) (omega arith)

sched_context_find_any-Found_example :
    Found
      (is_dead kernel)
      (2 ∷ 1 ∷ 0 ∷ [])
      []
      (flat (2 ∷ 1 ∷ 0 ∷ []) queues)
      (sched_context_find_any kernel busy)
sched_context_find_any-Found_example = sched_context_find_any-Found kernel busy busy-AllCounted

sched_context_find_higher-Found_example :
    Found
      (is_dead kernel)
      (levels_above 1)
      []
      (flat (levels_above 1) queues)
      (sched_context_find_higher kernel busy 1)
sched_context_find_higher-Found_example =
    sched_context_find_higher-Found kernel busy 1 busy-AllCounted

sched_push-Least_example : Chosen kernel 9 (sched_push kernel 9)
sched_push-Least_example = sched_push-Least kernel 9 (omega arith) few
  where
    amounts :
        (sched_context_thread_amount busy < int64_max)
        × (sched_context_thread_amount idle < int64_max)
    amounts = unfold sched_context_thread_amount in omega arith

    few :
        (j : ℕ)
        → j < kernel.cpu_amount
        → sched_context_thread_amount (kernel.contexts j) < int64_max
    few j h =
        if_cases (λ (c : Context). sched_context_thread_amount c < int64_max) (j == 0) busy idle
          (λ e. amounts.0) (λ e. amounts.1)

sched_unblock-Keeps_example :
    Keeps kernel (sched_unblock kernel 0) × ((sched_unblock kernel 0).waiting 0 ≡ [])
sched_unblock-Keeps_example = sched_unblock-Keeps kernel 0 kernel-IsSane (omega arith)

sched_update_blockers-Keeps_example : Keeps kernel (sched_update_blockers kernel 60)
sched_update_blockers-Keeps_example = sched_update_blockers-Keeps kernel 60 kernel-IsSane

queue_pop-Pops_example : Pops (4 ∷ 2 ∷ []) (queue_pop (queues 2))
queue_pop-Pops_example = queue_pop-Pops (queues 2) two-IsCounted

blocker_push-InOrder_example : InOrder (deadlines kernel) ((blocker_push kernel 0 1).waiting 0)
blocker_push-InOrder_example = blocker_push-InOrder kernel 0 1 (omega arith)

-- process 0 has the threads 1, 2 and 3, and process 1 the thread 4
abbrev tasks : Tasks
tasks = record {
  processes = λ p. record {
    id = p;
    killed = false;
    ref = if p == 0 then 3 else if p == 1 then 1 else 0;
    new_tid = 9;
  };
  threads = thread;
  thread_ids = λ t. 0;
  new_pid = 2;
  existing = 1 ∷ 2 ∷ 3 ∷ 4 ∷ [];
  freed = [];
}

tasks-IsOwned : IsOwned tasks
tasks-IsOwned = record { count = λ p. ground arith; room = omega arith }

thread_free-IsOwned_example :
    let k = thread_free tasks 4 in
    IsOwned k × (k.freed ≡ (if owned thread 1 k.existing == 0 then [] ++ 1 ∷ [] else []))
thread_free-IsOwned_example = thread_free-IsOwned tasks tasks-IsOwned 4 (inr (inr (inr (inl refl))))

thread_new-IsOwned_example : IsOwned (thread_new tasks 7 5 true 0x1000 1).0
thread_new-IsOwned_example =
    thread_new-IsOwned tasks 7 5 true 0x1000 1 tasks-IsOwned (omega arith) refl (omega arith)
