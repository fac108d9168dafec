-- ===== src/Sched/Sane.antt =====
-- What holds of the kernel's scheduling state between steps, and how its threads are counted.
use asym.Base.{
  ℕ, ◌+◌, ◌≤◌, ◌<◌, ◌≡◌, ◌≢◌, refl, ap, ◌∙◌, List, [], ◌∷◌, Option, none, some, arith, length,
}
use asym.Base.Sums.{sum_below-change, le-sum_below}
use asym.Sched.State.{Context, Kernel, update, update_self, update_ne}
use asym.Sched.Context.{running, sched_context_thread_amount}
use asym.Sched.Context.Order.{AllCounted}
use asym.Sched.Blocker.{with_waiting, int64_max}
use asym.Sched.Weight.{weigh, weigh_one, weigh_context, total}

abbrev pub one : ℕ → ℕ
one t = 1

abbrev pub AllBelow : ℕ → List ℕ → Type 0
AllBelow n [] = Unit
AllBelow n (b ∷ bs) = (b < n) × AllBelow n bs

-- There is a processor, the queue lengths are right, priorities and blockers are in range, and there
-- are fewer threads than INT64_MAX.
pub record IsSane (k : Kernel) : Type 0 where
  pub some_cpu : 0 < k.cpu_amount
  pub counted : (c : ℕ) → AllCounted (k.contexts c).queues
  pub low : (t : ℕ) → (k.threads t).priority ≤ 2
  pub blocking : (t b : ℕ) → (k.threads t).blocker ≡ some b → b < k.blocker_amount
  pub listed : AllBelow k.blocker_amount k.blockers
  pub few : total one k < int64_max

-- A step that keeps all threads: each stands where a thread can stand as often as before.
pub record Keeps (k k' : Kernel) : Type 0 where
  pub sane : IsSane k'
  pub same : (w : ℕ → ℕ) → total w k' ≡ total w k
  pub cpus : k'.cpu_amount ≡ k.cpu_amount
  pub blocker_range : k'.blocker_amount ≡ k.blocker_amount

pub Keeps-refl : (k : Kernel) → IsSane k → Keeps k k
Keeps-refl k s = record { sane = s; same = λ w. refl; cpus = refl; blocker_range = refl }

pub Keeps-trans : {k l m : Kernel} → Keeps k l → Keeps l m → Keeps k m
Keeps-trans a b = record {
  sane = b.sane;
  same = λ w. b.same w ∙ a.same w;
  cpus = b.cpus ∙ a.cpus;
  blocker_range = b.blocker_range ∙ a.blocker_range;
}

pub weigh-one : (xs : List ℕ) → weigh one xs ≡ length xs
weigh-one [] = refl
weigh-one (x ∷ xs) = omega (arith, weigh-one xs)

-- The thread amount of a context is at most the number of threads in it.
pub amount-le :
    (c : Context)
    → AllCounted c.queues
    → weigh_context one c < int64_max
    → sched_context_thread_amount c ≤ weigh_context one c
unfolding sched_context_thread_amount
amount-le c a h = omega (
  arith,
  run_weight c.run_thread,
  (a.at 0).counted,
  (a.at 1).counted,
  (a.at 2).counted,
  weigh-one (c.queues 0).list,
  weigh-one (c.queues 1).list,
  weigh-one (c.queues 2).list,
)
  where
    run_weight : (o : Option ℕ) → running o ≡ weigh_one one o
    run_weight none = refl
    run_weight (some t) = refl

pub context-le :
    (k : Kernel) (c : ℕ) → c < k.cpu_amount → weigh_context one (k.contexts c) ≤ total one k
context-le k c h =
    omega (arith, le-sum_below k.cpu_amount c (λ c. weigh_context one (k.contexts c)) h)

pub total-context :
    (w : ℕ → ℕ) (k : Kernel) (i : ℕ) (c : Context)
    → i < k.cpu_amount
    → total w (record k { contexts = update k.contexts i c }) + weigh_context w (k.contexts i)
      ≡ total w k + weigh_context w c
total-context w k i c h = omega (arith, sum_below-change k.cpu_amount i f g h same, now)
  where
    f : ℕ → ℕ
    f j = weigh_context w (k.contexts j)

    g : ℕ → ℕ
    g j = weigh_context w (update k.contexts i c j)

    same : (j : ℕ) → j ≢ i → g j ≡ f j
    same j ne = ap (λ (d : Context). weigh_context w d) (update_ne k.contexts i c j ne)

    now : g i ≡ weigh_context w c
    now = ap (λ (d : Context). weigh_context w d) (update_self k.contexts i c)

pub total-waiting :
    (w : ℕ → ℕ) (k : Kernel) (b : ℕ) (ts : List ℕ)
    → b < k.blocker_amount
    → total w (with_waiting k b ts) + weigh w (k.waiting b) ≡ total w k + weigh w ts
total-waiting w k b ts h = omega (arith, sum_below-change k.blocker_amount b f g h same, now)
  where
    f : ℕ → ℕ
    f j = weigh w (k.waiting j)

    g : ℕ → ℕ
    g j = weigh w (update k.waiting b ts j)

    same : (j : ℕ) → j ≢ b → g j ≡ f j
    same j ne = ap (λ (d : List ℕ). weigh w d) (update_ne k.waiting b ts j ne)

    now : g b ≡ weigh w ts
    now = ap (λ (d : List ℕ). weigh w d) (update_self k.waiting b ts)
