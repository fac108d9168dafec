-- ===== src/Sched/Blocker.antt =====
-- Blocking and waking threads in src/kernel/sched.c, and the choice of a processor for a thread that
-- becomes ready. `list_t` of a blocker's threads is their sequence.
use asym.Base.{
  ℕ, zero, suc, ◌+◌, ◌-◌, ◌^◌, true, List, [], ◌∷◌, Option, none, some, ◌==◌, ltb, if◌then◌else◌,
  add64, uint64_max,
}
use asym.Sched.State.{Thread, norm, timeout, Context, Kernel, update}
use asym.Sched.Context.{sched_context_push, sched_context_thread_amount}

abbrev pub never : ℕ
never = uint64_max

-- `blocker_push`: before the first thread with a later deadline, or at the end.
unfoldable pub insert_by : (ℕ → ℕ) → ℕ → List ℕ → List ℕ
insert_by deadline thread [] = thread ∷ []
insert_by deadline thread (other ∷ threads) =
    let further = other ∷ insert_by deadline thread threads in
    if ltb (deadline thread) (deadline other) then thread ∷ other ∷ threads else further

abbrev pub deadlines : Kernel → ℕ → ℕ
deadlines k t = (k.threads t).deadline

unfoldable pub blocker_push : Kernel → ℕ → ℕ → Kernel
blocker_push k blocker thread = record k {
  waiting = update k.waiting blocker (insert_by (deadlines k) thread (k.waiting blocker));
}

-- The loop of `sched_push` at processor `i`, with `n` left: the best found. Lengths below 2 ^ 63 are
-- the same as `int64_t`; INT64_MAX is where `bestLength` starts.
unfoldable pub pick : (ℕ → Context) → ℕ → ℕ → ℕ → Option ℕ → Option ℕ
pick contexts zero i best_length best = best
pick contexts (suc n) i best_length best =
    let length = sched_context_thread_amount (contexts i) in
    let next =
      pick contexts n (i + 1) (if ltb length best_length then length else best_length)
        (if ltb length best_length then some i else best) in
    if length == 0 then some i else next

abbrev pub int64_max : ℕ
int64_max = 2 ^ 63 - 1

-- With no processor chosen the code would write through NULL; the model then changes nothing.
unfoldable pub push_to : Kernel → ℕ → Option ℕ → Kernel
push_to k thread none = k
push_to k thread (some i) = record k {
  contexts =
      update k.contexts i (sched_context_push (k.contexts i) (k.threads thread).priority thread);
}

unfoldable pub sched_push : Kernel → ℕ → Kernel
unfolding push_to
sched_push k thread = push_to k thread (pick k.contexts k.cpu_amount 0 int64_max none)

-- `deadline = 0; result = BLOCK_NORM; blocker = NULL` of `sched_unblock`
abbrev pub wake_normal : Thread → Thread
wake_normal t = record t { deadline = 0; result = norm; blocker = none }

abbrev pub wake_timeout : Thread → Thread
wake_timeout t = record t { result = timeout; blocker = none }

abbrev pub with_thread : Kernel → ℕ → (Thread → Thread) → Kernel
with_thread k t f = record k { threads = update k.threads t (f (k.threads t)) }

abbrev pub with_waiting : Kernel → ℕ → List ℕ → Kernel
with_waiting k b ts = record k { waiting = update k.waiting b ts }

-- The loop of `sched_unblock` over the threads that wait at the blocker.
unfoldable pub unblock_all : Kernel → ℕ → List ℕ → Kernel
unblock_all k b [] = k
unblock_all k b (t ∷ ts) =
    unblock_all (sched_push (with_thread (with_waiting k b ts) t wake_normal) t) b ts

unfoldable pub sched_unblock : Kernel → ℕ → Kernel
unfolding unblock_all
sched_unblock k b = unblock_all k b (k.waiting b)

-- One blocker in the loop of `sched_update_blockers`: its first thread, if its deadline has passed.
unfoldable pub update_first : Kernel → ℕ → ℕ → List ℕ → Kernel
update_first k uptime b [] = k
update_first k uptime b (t ∷ ts) =
    if ltb (k.threads t).deadline uptime
    then sched_push (with_thread (with_waiting k b ts) t wake_timeout) t
    else k

unfoldable pub update_each : Kernel → ℕ → List ℕ → Kernel
update_each k uptime [] = k
update_each k uptime (b ∷ bs) = update_each (update_first k uptime b (k.waiting b)) uptime bs

unfoldable pub sched_update_blockers : Kernel → ℕ → Kernel
unfolding update_each update_first
sched_update_blockers k uptime = update_each k uptime k.blockers

-- `sched_block` up to `sched_invoke`, on the running thread `t`
unfoldable pub sched_block : Kernel → ℕ → ℕ → ℕ → ℕ → Kernel
sched_block k t b duration uptime = with_thread k t λ thread. record thread {
  time_end = 0;
  deadline = if duration == never then never else add64 duration uptime;
  blocker = some b;
}

unfoldable pub sched_yield : Kernel → ℕ → Kernel
sched_yield k t = with_thread k t (λ thread. record thread { time_end = 0 })

unfoldable pub sched_thread_exit : Kernel → ℕ → Kernel
sched_thread_exit k t = with_thread k t (λ thread. record thread { killed = true })

unfoldable pub sched_process_exit : Kernel → ℕ → Kernel
unfolding sched_thread_exit
sched_process_exit k t = record (sched_thread_exit k t) {
  process_killed = update k.process_killed (k.threads t).process true;
}
