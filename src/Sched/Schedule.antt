-- ===== src/Sched/Schedule.antt =====
-- `sched_schedule` of src/kernel/sched.c with the parts of src/kernel/thread.c that it calls.
pub mod Moves
pub mod Keep
pub mod Parts
pub mod Search
use asym.Base.{
  ℕ, zero, suc, ◌+◌, Bool, true, false, not, ◌&&◌, ◌||◌, List, [], ◌∷◌, ◌++◌, Option, none, some,
  ◌==◌, ltb, if◌then◌else◌, add64,
}
use asym.Sched.State.{Thread, Context, Kernel, update, kernel_code}
use asym.Sched.Context.{
  Outcome, sched_context_push, sched_context_find_any, sched_context_find_higher,
}
use asym.Sched.Blocker.{blocker_push, sched_update_blockers, with_thread}

-- `trap_frame_t`: the code segment, and the rest
pub record TrapFrame : Type 0 where
  pub cs : ℕ
  pub frame : ℕ

-- CONFIG_TIME_SLICE, a hundredth of a second in nanoseconds
abbrev pub time_slice : ℕ
time_slice = 10_000_000

-- What the calls of `time_uptime` return, in their order.
pub record Clock : Type 0 where
  pub at_update : ℕ
  pub at_compare : ℕ
  pub at_load : ℕ

-- `idle` stands for the frame of the idle loop, with the processor's idle stack.
abbrev pub idle_frame : ℕ → TrapFrame
idle_frame idle = record { cs = kernel_code; frame = idle }

-- `list_push(&graveyard)`, `runThread = ...` and the like
abbrev pub with_context : Kernel → ℕ → Context → Kernel
with_context k self c = record k { contexts = update k.contexts self c }

unfoldable pub thread_save : Kernel → ℕ → TrapFrame → Kernel
thread_save k t trap =
    with_thread k t (λ thread. record thread { cs = trap.cs; frame = trap.frame })

unfoldable pub thread_load : Kernel → Option ℕ → ℕ → ℕ → Kernel × TrapFrame
thread_load k none idle now = (k, idle_frame idle)
thread_load k (some t) idle now = (
  with_thread k t (λ thread. record thread { time_start = now; time_end = add64 now time_slice }),
  record { cs = (k.threads t).cs; frame = (k.threads t).frame },
)

-- `runThread->killed || (runThread->process->killed && trapFrame->cs != GDT_KERNEL_CODE)`
abbrev pub must_die : Kernel → TrapFrame → ℕ → Bool
must_die k trap t =
    (k.threads t).killed || (k.process_killed (k.threads t).process && not (trap.cs == kernel_code))

-- the graveyard is emptied, and a running thread that is to die goes into it
unfoldable pub bury : Kernel → TrapFrame → Context → Option ℕ → Context
bury k trap c none = record c { graveyard = [] }
bury k trap c (some t) =
    if must_die k trap t
    then record c { graveyard = t ∷ []; run_thread = none }
    else record c { graveyard = [] }

unfoldable pub sched_update_graveyard : Kernel → ℕ → TrapFrame → Kernel
unfolding bury
sched_update_graveyard k self trap =
    let c = k.contexts self in
    record (with_context k self (bury k trap c c.run_thread)) { freed = k.freed ++ c.graveyard }

-- `runThread = next` after a search
unfoldable pub run_found : Kernel → ℕ → Outcome → Kernel
run_found k self o =
    record (with_context k self
      (record (k.contexts self) { queues = o.queues; run_thread = o.thread })) {
        freed = k.freed ++ o.freed;
      }

-- No thread runs, or the running one blocks: the next is loaded, or the idle loop.
unfoldable pub switch : Kernel → ℕ → ℕ → Clock → Kernel × TrapFrame
unfolding run_found
switch k self idle clock =
    let o = sched_context_find_any k (k.contexts self) in
    thread_load (run_found k self o) o.thread idle clock.at_load

-- The running thread `t` is saved and put back in its queue, and `next` is loaded.
unfoldable pub preempt : Kernel → ℕ → ℕ → ℕ → TrapFrame → ℕ → Clock → Kernel × TrapFrame
preempt k self t next trap idle clock =
    let saved = thread_save k t trap in
    let c = saved.contexts self in
    let queued = with_context saved self (sched_context_push c (saved.threads t).priority t) in
    let (loaded, frame) = thread_load queued (some next) idle clock.at_load in
    (with_context loaded self (record (loaded.contexts self) { run_thread = some next }), frame)

-- What the search for another thread has freed and left is kept in both cases.
unfoldable pub searched : Kernel → ℕ → Outcome → Kernel
searched k self o = record (with_context k self (record (k.contexts self) { queues = o.queues })) {
  freed = k.freed ++ o.freed;
}

unfoldable pub compare_and_switch : Kernel → ℕ → ℕ → TrapFrame → ℕ → Clock → Kernel × TrapFrame
unfolding preempt searched
compare_and_switch k self t trap idle clock =
    let c = k.contexts self in
    let o =
      if ltb (k.threads t).time_end clock.at_compare
      then sched_context_find_any k c
      else sched_context_find_higher k c (k.threads t).priority in
    elim o.thread [
      | none ↦ (searched k self o, trap)
      | some next ↦ preempt (searched k self o) self t next trap idle clock
    ]

-- The part of `sched_schedule` behind the two updates.
unfoldable pub choose : Kernel → ℕ → Option ℕ → TrapFrame → ℕ → Clock → Kernel × TrapFrame
unfolding switch compare_and_switch
choose k self none trap idle clock = switch k self idle clock
choose k self (some t) trap idle clock = elim (k.threads t).blocker [
  | none ↦ compare_and_switch k self t trap idle clock
  | some b ↦ switch (blocker_push (thread_save k t trap) b t) self idle clock
]

unfoldable pub sched_schedule : Kernel → ℕ → ℕ → TrapFrame → ℕ → Clock → Kernel × TrapFrame
unfolding choose
sched_schedule k self trap_depth trap idle clock =
    let k1 = if self == 0 then sched_update_blockers k clock.at_update else k in
    let k2 = sched_update_graveyard k1 self trap in
    if ltb 1 trap_depth
    then (k, trap)
    else choose k2 self (k2.contexts self).run_thread trap idle clock
