-- ===== src/Sched/Schedule/Moves.antt =====
-- A search, a switch and a preemption in src/kernel/sched.c: what each does to the threads' places.
use asym.Base.{ℕ, ◌+◌, ◌<◌, ◌≡◌, refl, ap, ◌∙◌, Option, none, some, arith, ◌==◌, if_cases, add64}
use asym.Sched.State.{Context, Kernel, update_self}
use asym.Sched.Context.{Outcome, sched_context_push, sched_context_find_any}
use asym.Sched.Context.Order.{AllCounted}
use asym.Sched.Blocker.{int64_max}
use asym.Sched.Weight.{weigh_one, total}
use asym.Sched.Sane.{one, IsSane, Keeps, Keeps-refl, total-context}
use asym.Sched.Push.{Pushed, context_push-Pushed, with_thread-IsSane}
use asym.Sched.Schedule.{
  TrapFrame, Clock, time_slice, with_context, thread_load, thread_save, run_found, switch, preempt,
  searched,
}
use asym.Sched.Schedule.Search.{Searched, find_any-Searched}
use asym.Sched.Schedule.Parts.{total-settle, settle-IsSane, save-IsSane}

-- A step after which the threads of `o` stand in one place less.
pub record Drops (k : Kernel) (o : Option ℕ) (k' : Kernel) : Type 0 where
  pub sane : IsSane k'
  pub same : (w : ℕ → ℕ) → total w k' + weigh_one w o ≡ total w k
  pub cpus : k'.cpu_amount ≡ k.cpu_amount
  pub blocker_range : k'.blocker_amount ≡ k.blocker_amount

load-Keeps :
    (k : Kernel) (o : Option ℕ) (idle now : ℕ) → IsSane k → Keeps k (thread_load k o idle now).0
unfolding thread_load
load-Keeps k none idle now s = Keeps-refl k s
load-Keeps k (some t) idle now s = record {
  sane =
      with_thread-IsSane k t
        (λ thread. record thread { time_start = now; time_end = add64 now time_slice }) s (s.low t)
        (s.blocking t);
  same = λ w. refl;
  cpus = refl;
  blocker_range = refl;
}

run_found-Drops :
    (k : Kernel) (self : ℕ) (o : Outcome)
    → IsSane k
    → self < k.cpu_amount
    → Searched (k.contexts self).queues o
    → Drops k (k.contexts self).run_thread (run_found k self o)
unfolding run_found
run_found-Drops k self o s h f = record {
  sane =
      settle-IsSane k self (record (k.contexts self) { queues = o.queues; run_thread = o.thread })
        o.freed s f.counted (omega (arith, same one, s.few));
  same = same;
  cpus = refl;
  blocker_range = refl;
}
  where
    same :
        (w : ℕ → ℕ)
        → total w (run_found k self o) + weigh_one w (k.contexts self).run_thread ≡ total w k
    same w = omega (
      arith,
      f.same w,
      total-settle w k self (record (k.contexts self) { queues = o.queues; run_thread = o.thread })
          o.freed h,
    )

pub searched-Drops :
    (k : Kernel) (self : ℕ) (o : Outcome)
    → IsSane k
    → self < k.cpu_amount
    → Searched (k.contexts self).queues o
    → Drops k o.thread (searched k self o)
unfolding searched
searched-Drops k self o s h f = record {
  sane =
      settle-IsSane k self (record (k.contexts self) { queues = o.queues }) o.freed s f.counted
        (omega (arith, same one, s.few));
  same = same;
  cpus = refl;
  blocker_range = refl;
}
  where
    same : (w : ℕ → ℕ) → total w (searched k self o) + weigh_one w o.thread ≡ total w k
    same w = omega (
      arith,
      f.same w,
      total-settle w k self (record (k.contexts self) { queues = o.queues }) o.freed h,
    )

pub switch-Drops :
    (k : Kernel) (self idle : ℕ) (clock : Clock)
    → IsSane k
    → self < k.cpu_amount
    → Drops k (k.contexts self).run_thread (switch k self idle clock).0
unfolding switch
switch-Drops k self idle clock s h =
    let o = sched_context_find_any k (k.contexts self) in
    let d = run_found-Drops k self o s h (find_any-Searched k (k.contexts self) (s.counted self)) in
    let l = load-Keeps (run_found k self o) o.thread idle clock.at_load d.sane in
    record {
      sane = l.sane;
      same = λ w. omega (arith, d.same w, l.same w);
      cpus = l.cpus ∙ d.cpus;
      blocker_range = l.blocker_range ∙ d.blocker_range;
    }

-- The running thread of a processor replaced.
change_running-Pushed :
    (k : Kernel) (self t next : ℕ)
    → IsSane k
    → self < k.cpu_amount
    → (k.contexts self).run_thread ≡ some t
    → (let k' = with_context k self (record (k.contexts self) { run_thread = some next }) in
        (w : ℕ → ℕ) → total w k' + w t ≡ total w k + w next)
change_running-Pushed k self t next s h runs w = omega (
  arith,
  total-context w k self (record (k.contexts self) { run_thread = some next }) h,
  ap (λ (o : Option ℕ). weigh_one w o) runs,
)

-- The next thread comes to run, and the running one to its queue.
pub preempt-Pushed :
    (k : Kernel) (self t next : ℕ) (trap : TrapFrame) (idle : ℕ) (clock : Clock)
    → IsSane k
    → self < k.cpu_amount
    → total one k + 1 < int64_max
    → (k.contexts self).run_thread ≡ some t
    → Pushed k next (preempt k self t next trap idle clock).0
unfolding preempt thread_load thread_save sched_context_push
preempt-Pushed k self t next trap idle clock s h room runs = record {
  sane = record {
    some_cpu = s.some_cpu;
    counted = λ i.
        if_cases (λ (d : Context). AllCounted d.queues) (i == self) _ _ (λ e. l.sane.counted self)
          (λ e. l.sane.counted i);
    low = l.sane.low;
    blocking = l.sane.blocking;
    listed = s.listed;
    few = omega (arith, gained one);
  };
  gained = gained;
  cpus = refl;
  blocker_range = refl;
}
  where
    saved : Kernel
    saved = thread_save k t trap

    queued : Kernel
    queued =
        with_context saved self
          (sched_context_push (saved.contexts self) (saved.threads t).priority t)

    loaded : Kernel
    loaded = (thread_load queued (some next) idle clock.at_load).0

    saned : IsSane saved
    saned = save-IsSane k t trap s

    p : Pushed saved t queued
    p = context_push-Pushed saved self t (saved.threads t).priority saned room h (saned.low t)

    l : Keeps queued loaded
    l = load-Keeps queued (some next) idle clock.at_load p.sane

    runs_still : (loaded.contexts self).run_thread ≡ some t
    runs_still =
        ap (λ (c : Context). c.run_thread)
          (update_self saved.contexts self
            (sched_context_push (saved.contexts self) (saved.threads t).priority t))
        ∙ runs

    gained : (w : ℕ → ℕ) → total w (preempt k self t next trap idle clock).0 ≡ total w k + w next
    gained w = omega (
      arith,
      change_running-Pushed loaded self t next l.sane h runs_still w,
      l.same w,
      p.gained w,
    )
