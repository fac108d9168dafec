-- ===== src/Sched/Schedule/Keep.antt =====
-- `sched_schedule` of src/kernel/sched.c loses no thread and doubles none.
use asym.Base.{
  ℕ, ◌+◌, ◌<◌, ◌≡◌, refl, sym, ap, ◌∙◌, subst, Option, none, some, arith, ◌==◌, ltb, if◌then◌else◌,
  if_cases, inl, inr, Option-cases,
}
use asym.Sched.State.{Context, Kernel, update_self}
use asym.Sched.Context.{Outcome}
use asym.Sched.Blocker.{blocker_push, int64_max, sched_update_blockers}
use asym.Sched.Weight.{weigh_one, total}
use asym.Sched.Sane.{one, IsSane, Keeps, Keeps-refl, Keeps-trans}
use asym.Sched.Wake.{sched_update_blockers-Keeps}
use asym.Sched.Schedule.{
  TrapFrame, Clock, thread_save, switch, preempt, searched, compare_and_switch, choose,
  sched_schedule, sched_update_graveyard,
}
use asym.Sched.Schedule.Search.{Searched, find_any-Searched, find_higher-Searched}
use asym.Sched.Schedule.Parts.{graveyard-Keeps, blocker_push-Pushed, save-IsSane}
use asym.Sched.Schedule.Moves.{Drops, searched-Drops, switch-Drops, preempt-Pushed}

-- What a thread found takes out and its preemption puts back.
found-Keeps :
    (k : Kernel) (self t : ℕ) (trap : TrapFrame) (idle : ℕ) (clock : Clock) (o : Outcome)
    → IsSane k
    → self < k.cpu_amount
    → (k.contexts self).run_thread ≡ some t
    → Searched (k.contexts self).queues o
    → Keeps k
        (elim o.thread as (λ x. Kernel × TrapFrame) [
          | none ↦ (searched k self o, trap)
          | some next ↦ preempt (searched k self o) self t next trap idle clock
        ]).0
unfolding searched
found-Keeps k self t trap idle clock o s h runs f = elim (Option-cases o.thread) [
  | inl e ↦ rw e (record {
    sane = d.sane;
    same = λ w. omega (arith, d.same w, ap (λ (o : Option ℕ). weigh_one w o) e);
    cpus = d.cpus;
    blocker_range = d.blocker_range;
  })
  | inr (next, e) ↦
      let p =
        preempt-Pushed (searched k self o) self t next trap idle clock d.sane h
          (omega (arith, d.same one, s.few, ap (λ (o : Option ℕ). weigh_one one o) e)) still in
      rw e (record {
        sane = p.sane;
        same = λ w. omega (arith, p.gained w, d.same w, ap (λ (o : Option ℕ). weigh_one w o) e);
        cpus = p.cpus;
        blocker_range = p.blocker_range;
      })
]
  where
    d : Drops k o.thread (searched k self o)
    d = searched-Drops k self o s h f

    still : ((searched k self o).contexts self).run_thread ≡ some t
    still =
        ap (λ (c : Context). c.run_thread)
          (update_self k.contexts self (record (k.contexts self) { queues = o.queues }))
        ∙ runs

compare_and_switch-Keeps :
    (k : Kernel) (self t : ℕ) (trap : TrapFrame) (idle : ℕ) (clock : Clock)
    → IsSane k
    → self < k.cpu_amount
    → (k.contexts self).run_thread ≡ some t
    → Keeps k (compare_and_switch k self t trap idle clock).0
unfolding compare_and_switch
compare_and_switch-Keeps k self t trap idle clock s h runs =
    found-Keeps k self t trap idle clock _ s h runs (
      if_cases (Searched (k.contexts self).queues) (ltb (k.threads t).time_end clock.at_compare) _ _
        (λ expired. find_any-Searched k (k.contexts self) (s.counted self))
        (λ time_left.
          find_higher-Searched k (k.contexts self) (k.threads t).priority (s.counted self)))

-- A thread that blocks: it joins the blocker's threads, and leaves the processor.
block-Keeps :
    (k : Kernel) (self t b : ℕ) (trap : TrapFrame) (idle : ℕ) (clock : Clock)
    → IsSane k
    → self < k.cpu_amount
    → total one k + 1 < int64_max
    → (k.contexts self).run_thread ≡ some t
    → b < k.blocker_amount
    → Keeps k (switch (blocker_push (thread_save k t trap) b t) self idle clock).0
unfolding blocker_push thread_save
block-Keeps k self t b trap idle clock s h room runs in_range =
    let p = blocker_push-Pushed (thread_save k t trap) b t (save-IsSane k t trap s) in_range room in
    let d = switch-Drops (blocker_push (thread_save k t trap) b t) self idle clock p.sane h in
    record {
      sane = d.sane;
      same = λ w. omega (arith, p.gained w, d.same w, ap (λ (o : Option ℕ). weigh_one w o) runs);
      cpus = d.cpus;
      blocker_range = d.blocker_range;
    }

choose-Keeps :
    (k : Kernel) (self : ℕ) (o : Option ℕ) (trap : TrapFrame) (idle : ℕ) (clock : Clock)
    → IsSane k
    → self < k.cpu_amount
    → total one k + 1 < int64_max
    → (k.contexts self).run_thread ≡ o
    → Keeps k (choose k self o trap idle clock).0
unfolding choose
choose-Keeps k self none trap idle clock s h room e =
    let d = switch-Drops k self idle clock s h in
    record {
      sane = d.sane;
      same = λ w. omega (arith, d.same w, ap (λ (o : Option ℕ). weigh_one w o) e);
      cpus = d.cpus;
      blocker_range = d.blocker_range;
    }
choose-Keeps k self (some t) trap idle clock s h room e =
    elim (Option-cases (k.threads t).blocker) [
      | inl ready ↦ rw (ready, choose) (compare_and_switch-Keeps k self t trap idle clock s h e)
      | inr (b, stuck) ↦
          rw (stuck, choose)
            (block-Keeps k self t b trap idle clock s h room e (s.blocking t b stuck))
    ]

-- In a sane kernel with fewer than INT64_MAX - 1 threads, `sched_schedule` on one of its processors
-- leaves every thread, whatever the clock and the interrupt depth, in as many
-- places as before, over the running threads, the queues, the graveyards, the blockers and those
-- freed: none is lost and none is doubled. The kernel is sane again.
pub sched_schedule-Keeps :
    (k : Kernel) (self trap_depth : ℕ) (trap : TrapFrame) (idle : ℕ) (clock : Clock)
    → IsSane k
    → self < k.cpu_amount
    → total one k + 1 < int64_max
    → Keeps k (sched_schedule k self trap_depth trap idle clock).0
unfolding sched_schedule
sched_schedule-Keeps k self trap_depth trap idle clock s h room =
    if_cases (λ (r : Kernel × TrapFrame). Keeps k r.0) (ltb 1 trap_depth) _ _
      (λ nested. Keeps-refl k s) (λ outer. chosen)
  where
    k1 : Kernel
    k1 = if self == 0 then sched_update_blockers k clock.at_update else k

    k2 : Kernel
    k2 = sched_update_graveyard k1 self trap

    first : Keeps k k1
    first =
        if_cases (Keeps k) (self == 0) _ _ (λ e. sched_update_blockers-Keeps k clock.at_update s)
          (λ e. Keeps-refl k s)

    second : Keeps k k2
    second =
        Keeps-trans first
          (graveyard-Keeps k1 self trap first.sane (subst (λ (n : ℕ). self < n) (sym first.cpus) h))

    chosen : Keeps k (choose k2 self (k2.contexts self).run_thread trap idle clock).0
    chosen = Keeps-trans second (
        choose-Keeps k2 self (k2.contexts self).run_thread trap idle clock second.sane
          (subst (λ (n : ℕ). self < n) (sym second.cpus) h) (omega (arith, second.same one)) refl)
