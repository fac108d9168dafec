-- ===== src/Sched/Weight.antt =====
-- Counting threads over the whole kernel. A weight gives each thread a number; with the weight that
-- is 1 at one thread and 0 elsewhere, the total is the number of places where that thread stands.
use asym.Base.{ℕ, zero, suc, ◌+◌, ◌≤◌, ◌≡◌, List, [], ◌∷◌, ◌++◌, Option, none, some, arith}
use asym.Base.Sums.{sum_below}
use asym.Sched.Queue.{Queue, queue_push, queue_pop}
use asym.Sched.State.{Context, Kernel, update}

module _ (w : ℕ → ℕ) where
  abbrev pub weigh : List ℕ → ℕ
  weigh [] = 0
  weigh (t ∷ ts) = w t + weigh ts

  abbrev pub weigh_one : Option ℕ → ℕ
  weigh_one none = 0
  weigh_one (some t) = w t

  abbrev pub weigh_queues : (ℕ → Queue) → ℕ
  weigh_queues queues = weigh (queues 0).list + weigh (queues 1).list + weigh (queues 2).list

  abbrev pub weigh_context : Context → ℕ
  weigh_context c = weigh_queues c.queues + weigh c.graveyard + weigh_one c.run_thread

  pub weigh-append : (xs ys : List ℕ) → weigh (xs ++ ys) ≡ weigh xs + weigh ys
  weigh-append [] ys = omega arith
  weigh-append (x ∷ xs) ys = omega (arith, weigh-append xs ys)

  pub weigh-queue_push : (q : Queue) (t : ℕ) → weigh (queue_push q t).list ≡ weigh q.list + w t
  unfolding queue_push
  weigh-queue_push q t = omega (arith, weigh-append q.list (t ∷ []))

  pub weigh-queue_pop :
      (q : Queue) → weigh_one (queue_pop q).0 + weigh (queue_pop q).1.list ≡ weigh q.list
  unfolding queue_pop
  weigh-queue_pop q = ground arith

  pub weigh_queues-update :
      (queues : ℕ → Queue) (i : ℕ) (q : Queue)
      → i ≤ 2
      → weigh_queues (update queues i q) + weigh (queues i).list
        ≡ weigh_queues queues + weigh q.list
  weigh_queues-update queues zero q h = omega arith
  weigh_queues-update queues (suc zero) q h = omega arith
  weigh_queues-update queues (suc (suc zero)) q h = omega arith
  weigh_queues-update queues (suc (suc (suc i))) q h = absurd (omega arith)

-- all the places where a thread can stand
abbrev pub total : (ℕ → ℕ) → Kernel → ℕ
total w k =
    sum_below k.cpu_amount (λ c. weigh_context w (k.contexts c))
    + sum_below k.blocker_amount (λ b. weigh w (k.waiting b))
    + weigh w k.freed
