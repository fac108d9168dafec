-- ===== src/Sched/Push.antt =====
-- What a push and a wake-up in src/kernel/sched.c do to the threads' places.
use asym.Base.{
  ℕ, zero, suc, ◌+◌, ◌≤◌, ◌<◌, ◌≡◌, refl, sym, ap, subst, List, ◌∷◌, none, some, arith, ◌==◌,
  if_cases, word,
}
use asym.Sched.Queue.{queue_push, queue_push-IsCounted}
use asym.Sched.State.{Thread, Context, Kernel, update}
use asym.Sched.Context.{sched_context_push, sched_context_thread_amount}
use asym.Sched.Context.Order.{AllCounted, AllCounted-update}
use asym.Sched.Blocker.{sched_push, with_thread, with_waiting, int64_max}
use asym.Sched.Balance.{sched_push-Least}
use asym.Sched.Weight.{weigh, weigh_context, weigh-queue_push, weigh_queues-update, total}
use asym.Sched.Sane.{
  one, IsSane, Keeps, weigh-one, amount-le, context-le, total-context, total-waiting,
}

-- A context with one thread more in a queue.
pub weigh-push :
    (w : ℕ → ℕ) (c : Context) (priority t : ℕ)
    → priority ≤ 2
    → weigh_context w (sched_context_push c priority t) ≡ weigh_context w c + w t
unfolding sched_context_push
weigh-push w c priority t h = omega (
  arith,
  weigh_queues-update w c.queues priority (queue_push (c.queues priority) t) h,
  weigh-queue_push w (c.queues priority) t,
)

pub length-le :
    (c : Context) (i : ℕ) → AllCounted c.queues → i ≤ 2 → (c.queues i).length ≤ weigh_context one c
length-le c zero a h = omega (arith, (a.at 0).counted, weigh-one (c.queues 0).list)
length-le c (suc zero) a h = omega (arith, (a.at 1).counted, weigh-one (c.queues 1).list)
length-le c (suc (suc zero)) a h = omega (arith, (a.at 2).counted, weigh-one (c.queues 2).list)
length-le c (suc (suc (suc i))) a h = absurd (omega arith)

sched_context_push-AllCounted :
    (c : Context) (priority t : ℕ)
    → AllCounted c.queues
    → (c.queues priority).length + 1 < word
    → AllCounted (sched_context_push c priority t).queues
unfolding sched_context_push
sched_context_push-AllCounted c priority t a h =
    AllCounted-update c.queues priority (queue_push (c.queues priority) t) a
      (queue_push-IsCounted (c.queues priority) t (a.at priority) h)

-- What a push of a thread that stood nowhere makes of the kernel.
pub record Pushed (k : Kernel) (t : ℕ) (k' : Kernel) : Type 0 where
  pub sane : IsSane k'
  pub gained : (w : ℕ → ℕ) → total w k' ≡ total w k + w t
  pub cpus : k'.cpu_amount ≡ k.cpu_amount
  pub blocker_range : k'.blocker_amount ≡ k.blocker_amount

pub context_push-Pushed :
    (k : Kernel) (i t priority : ℕ)
    → IsSane k
    → total one k + 1 < int64_max
    → i < k.cpu_amount
    → priority ≤ 2
    → Pushed k t
        (record k { contexts = update k.contexts i (sched_context_push (k.contexts i) priority t) })
context_push-Pushed k i t priority s room h l = record {
  sane = record {
    some_cpu = s.some_cpu;
    counted = counted;
    low = s.low;
    blocking = s.blocking;
    listed = s.listed;
    few = omega (arith, gained one);
  };
  gained = gained;
  cpus = refl;
  blocker_range = refl;
}
  where
    pushed : Context
    pushed = sched_context_push (k.contexts i) priority t

    gained :
        (w : ℕ → ℕ) → total w (record k { contexts = update k.contexts i pushed }) ≡ total w k + w t
    gained w = omega (arith, total-context w k i pushed h, weigh-push w (k.contexts i) priority t l)

    pushed-AllCounted : AllCounted pushed.queues
    pushed-AllCounted =
        sched_context_push-AllCounted (k.contexts i) priority t (s.counted i)
          (omega (arith, length-le (k.contexts i) priority (s.counted i) l, context-le k i h))

    counted : (c : ℕ) → AllCounted (update k.contexts i pushed c).queues
    counted c =
        if_cases (λ (d : Context). AllCounted d.queues) (c == i) pushed (k.contexts c)
          (λ e. pushed-AllCounted) (λ e. s.counted c)

pub sched_push-Pushed :
    (k : Kernel) (t : ℕ) → IsSane k → total one k + 1 < int64_max → Pushed k t (sched_push k t)
sched_push-Pushed k t s room =
    let (i, (h, _), e) = sched_push-Least k t s.some_cpu small in
    subst (Pushed k t) (sym e) (context_push-Pushed k i t (k.threads t).priority s room h (s.low t))
  where
    small : (j : ℕ) → j < k.cpu_amount → sched_context_thread_amount (k.contexts j) < int64_max
    small j h = omega (
      arith,
      context-le k j h,
      amount-le (k.contexts j) (s.counted j) (omega (arith, context-le k j h)),
    )

-- A change of one thread's fields that keeps its priority in range and leaves it at no blocker.
pub with_thread-IsSane :
    (k : Kernel) (t : ℕ) (f : Thread → Thread)
    → IsSane k
    → (f (k.threads t)).priority ≤ 2
    → ((b : ℕ) → (f (k.threads t)).blocker ≡ some b → b < k.blocker_amount)
    → IsSane (with_thread k t f)
with_thread-IsSane k t f s low blocking = record {
  some_cpu = s.some_cpu;
  counted = s.counted;
  low = λ u.
      if_cases (λ (x : Thread). x.priority ≤ 2) (u == t) (f (k.threads t)) (k.threads u) (λ e. low)
        (λ e. s.low u);
  blocking = λ u b.
      if_cases (λ (x : Thread). x.blocker ≡ some b → b < k.blocker_amount) (u == t)
        (f (k.threads t)) (k.threads u) (λ e. blocking b) (λ e. s.blocking u b);
  listed = s.listed;
  few = s.few;
}

-- The first thread of a blocker, taken from it, changed and pushed.
pub woken-Keeps :
    (k : Kernel) (b t : ℕ) (ts : List ℕ) (f : Thread → Thread)
    → IsSane k
    → b < k.blocker_amount
    → k.waiting b ≡ t ∷ ts
    → (f (k.threads t)).priority ≤ 2
    → (f (k.threads t)).blocker ≡ none
    → Keeps k (sched_push (with_thread (with_waiting k b ts) t f) t)
woken-Keeps k b t ts f s h e low free =
    let p = sched_push-Pushed taken t sane (omega (arith, gone one, s.few)) in
    record {
      sane = p.sane;
      same = λ w. omega (arith, p.gained w, gone w);
      cpus = p.cpus;
      blocker_range = p.blocker_range;
    }
  where
    left : Kernel
    left = with_waiting k b ts

    taken : Kernel
    taken = with_thread left t f

    gone : (w : ℕ → ℕ) → total w taken + w t ≡ total w k
    gone w = omega (arith, total-waiting w k b ts h, ap (λ (l : List ℕ). weigh w l) e)

    left-IsSane : IsSane left
    left-IsSane = record {
      some_cpu = s.some_cpu;
      counted = s.counted;
      low = s.low;
      blocking = s.blocking;
      listed = s.listed;
      few = omega (arith, gone one, s.few);
    }

    sane : IsSane taken
    sane = with_thread-IsSane left t f left-IsSane low (λ c stuck. cc)
