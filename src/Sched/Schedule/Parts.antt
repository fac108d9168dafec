-- ===== src/Sched/Schedule/Parts.antt =====
-- The parts of `sched_schedule` of src/kernel/sched.c, and where they move the threads.
use asym.Base.{
  ℕ, ◌+◌, ◌<◌, ◌≡◌, refl, ap, List, [], ◌∷◌, ◌++◌, Option, none, some, arith, ◌==◌, ltb, if_cases,
  Bool-cases, inl, inr,
}
use asym.Sched.State.{Context, Kernel}
use asym.Sched.Context.Order.{AllCounted}
use asym.Sched.Blocker.{blocker_push, insert_by, deadlines, int64_max, with_waiting}
use asym.Sched.Weight.{weigh, weigh_one, weigh_context, weigh-append, total}
use asym.Sched.Sane.{one, IsSane, Keeps, total-context, total-waiting}
use asym.Sched.Push.{Pushed, with_thread-IsSane}
use asym.Sched.Schedule.{
  TrapFrame, with_context, must_die, bury, sched_update_graveyard, thread_save,
}

-- one processor's context replaced, and some threads freed
abbrev pub settle : Kernel → ℕ → Context → List ℕ → Kernel
settle k self c gone = record (with_context k self c) { freed = k.freed ++ gone }

pub total-settle :
    (w : ℕ → ℕ) (k : Kernel) (self : ℕ) (c : Context) (gone : List ℕ)
    → self < k.cpu_amount
    → total w (settle k self c gone) + weigh_context w (k.contexts self)
      ≡ total w k + weigh_context w c + weigh w gone
total-settle w k self c gone h =
    omega (arith, total-context w k self c h, weigh-append w k.freed gone)

pub settle-IsSane :
    (k : Kernel) (self : ℕ) (c : Context) (gone : List ℕ)
    → IsSane k
    → AllCounted c.queues
    → total one (settle k self c gone) < int64_max
    → IsSane (settle k self c gone)
settle-IsSane k self c gone s a few = record {
  some_cpu = s.some_cpu;
  counted = λ i.
      if_cases (λ (d : Context). AllCounted d.queues) (i == self) c (k.contexts i) (λ e. a)
        (λ e. s.counted i);
  low = s.low;
  blocking = s.blocking;
  listed = s.listed;
  few = few;
}

-- The graveyard is freed, and the running thread stays or goes there.
weigh-bury :
    (w : ℕ → ℕ) (k : Kernel) (trap : TrapFrame) (c : Context) (o : Option ℕ)
    → c.run_thread ≡ o
    → weigh_context w (bury k trap c o) + weigh w c.graveyard ≡ weigh_context w c
unfolding bury
weigh-bury w k trap c none e = omega (arith, ap (λ (o : Option ℕ). weigh_one w o) e)
weigh-bury w k trap c (some t) e = elim (Bool-cases (must_die k trap t)) [
  | inl dies ↦ rw (dies, bury) (omega (arith, ap (λ (o : Option ℕ). weigh_one w o) e))
  | inr lives ↦ rw (lives, bury) (omega (arith, ap (λ (o : Option ℕ). weigh_one w o) e))
]

bury-AllCounted :
    (k : Kernel) (trap : TrapFrame) (c : Context) (o : Option ℕ)
    → AllCounted c.queues
    → AllCounted (bury k trap c o).queues
unfolding bury
bury-AllCounted k trap c none a = a
bury-AllCounted k trap c (some t) a =
    if_cases (λ (d : Context). AllCounted d.queues) (must_die k trap t) _ _ (λ e. a) (λ e. a)

pub graveyard-Keeps :
    (k : Kernel) (self : ℕ) (trap : TrapFrame)
    → IsSane k
    → self < k.cpu_amount
    → Keeps k (sched_update_graveyard k self trap)
unfolding sched_update_graveyard
graveyard-Keeps k self trap s h = record {
  sane =
      settle-IsSane k self (bury k trap c c.run_thread) c.graveyard s
        (bury-AllCounted k trap c c.run_thread (s.counted self)) (omega (arith, same one, s.few));
  same = same;
  cpus = refl;
  blocker_range = refl;
}
  where
    c : Context
    c = k.contexts self

    same :
        (w : ℕ → ℕ) → total w (settle k self (bury k trap c c.run_thread) c.graveyard) ≡ total w k
    same w = omega (
      arith,
      total-settle w k self (bury k trap c c.run_thread) c.graveyard h,
      weigh-bury w k trap c c.run_thread refl,
    )

-- The queue of a blocker with a thread more.
pub weigh-insert_by :
    (w : ℕ → ℕ) (deadline : ℕ → ℕ) (t : ℕ) (ts : List ℕ)
    → weigh w (insert_by deadline t ts) ≡ weigh w ts + w t
unfolding insert_by
weigh-insert_by w deadline t [] = omega arith
weigh-insert_by w deadline t (u ∷ ts) =
    if_cases (λ (l : List ℕ). weigh w l ≡ weigh w (u ∷ ts) + w t) (ltb (deadline t) (deadline u)) _
      _ (λ e. omega arith) (λ e. omega (arith, weigh-insert_by w deadline t ts))

pub blocker_push-Pushed :
    (k : Kernel) (b t : ℕ)
    → IsSane k
    → b < k.blocker_amount
    → total one k + 1 < int64_max
    → Pushed k t (blocker_push k b t)
unfolding blocker_push
blocker_push-Pushed k b t s h room = record {
  sane = record {
    some_cpu = s.some_cpu;
    counted = s.counted;
    low = s.low;
    blocking = s.blocking;
    listed = s.listed;
    few = omega (arith, gained one);
  };
  gained = gained;
  cpus = refl;
  blocker_range = refl;
}
  where
    ts : List ℕ
    ts = insert_by (deadlines k) t (k.waiting b)

    gained : (w : ℕ → ℕ) → total w (with_waiting k b ts) ≡ total w k + w t
    gained w =
        omega (arith, total-waiting w k b ts h, weigh-insert_by w (deadlines k) t (k.waiting b))

pub save-IsSane : (k : Kernel) (t : ℕ) (trap : TrapFrame) → IsSane k → IsSane (thread_save k t trap)
unfolding thread_save
save-IsSane k t trap s =
    with_thread-IsSane k t (λ thread. record thread { cs = trap.cs; frame = trap.frame }) s
      (s.low t) (s.blocking t)
