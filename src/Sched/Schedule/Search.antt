-- ===== src/Sched/Schedule/Search.antt =====
-- What the searches of src/kernel/sched.c take out of a processor's queues is found or freed.
use asym.Base.{
  ℕ, zero, suc, ◌+◌, ◌≤◌, ◌≡◌, ap, Bool, List, [], ◌∷◌, ◌++◌, Option, arith, Bool-cases, inl, inr,
  Option-cases,
}
use asym.Sched.Queue.{Queue, queue_pop}
use asym.Sched.State.{Context, Kernel, update, is_dead}
use asym.Sched.Context.{
  pop_first, Outcome, find_in, fuel_of, levels_above, sched_context_find_any,
  sched_context_find_higher,
}
use asym.Sched.Context.Order.{AllCounted}
use asym.Sched.Context.Search.{sched_context_find_any-Found, sched_context_find_higher-Found}
use asym.Sched.Weight.{
  weigh, weigh_one, weigh_queues, weigh-append, weigh-queue_pop, weigh_queues-update,
}

abbrev pub AllLow : List ℕ → Type 0
AllLow [] = Unit
AllLow (i ∷ levels) = (i ≤ 2) × AllLow levels

-- `o` is what a search in `queues` makes of them: no thread is lost.
pub record Searched (queues : ℕ → Queue) (o : Outcome) : Type 0 where
  pub counted : AllCounted o.queues
  pub same :
      (w : ℕ → ℕ)
      → weigh_one w o.thread + weigh_queues w o.queues + weigh w o.freed ≡ weigh_queues w queues

module _ (w : ℕ → ℕ) where
  weigh-pop_first :
      (levels : List ℕ) (queues : ℕ → Queue)
      → AllLow levels
      → weigh_one w (pop_first levels queues).0 + weigh_queues w (pop_first levels queues).1
        ≡ weigh_queues w queues
  unfolding pop_first
  weigh-pop_first [] queues l = omega arith
  weigh-pop_first (i ∷ levels) queues l = elim (Option-cases (queue_pop (queues i)).0) [
    | inl e ↦
        rw (e, pop_first)
          (omega (
            arith,
            popped,
            left,
            ap (λ (o : Option ℕ). weigh_one w o) e,
            weigh-pop_first levels (update queues i (queue_pop (queues i)).1) l.1,
          ))
    | inr (t, e) ↦
        rw (e, pop_first) (omega (arith, popped, left, ap (λ (o : Option ℕ). weigh_one w o) e))
  ]
    where
      popped :
          weigh_queues w (update queues i (queue_pop (queues i)).1) + weigh w (queues i).list
          ≡ weigh_queues w queues + weigh w (queue_pop (queues i)).1.list
      popped = weigh_queues-update w queues i (queue_pop (queues i)).1 l.0

      left :
          weigh_one w (queue_pop (queues i)).0 + weigh w (queue_pop (queues i)).1.list
          ≡ weigh w (queues i).list
      left = weigh-queue_pop w (queues i)

  pub weigh-find_in :
      (dead : ℕ → Bool) (levels : List ℕ) (fuel : ℕ) (queues : ℕ → Queue) (freed : List ℕ)
      → AllLow levels
      → (let o = find_in dead levels fuel queues freed in
          weigh_one w o.thread + weigh_queues w o.queues + weigh w o.freed)
        ≡ weigh_queues w queues + weigh w freed
  unfolding find_in
  weigh-find_in dead levels zero queues freed l = omega arith
  weigh-find_in dead levels (suc fuel) queues freed l =
      elim (Option-cases (pop_first levels queues).0) [
        | inl e ↦ rw (e, find_in) (omega (arith, passed, ap (λ (o : Option ℕ). weigh_one w o) e))
        | inr (t, e) ↦ elim (Bool-cases (dead t)) [
          | inl gone ↦
              rw (e, find_in, gone)
                (omega (
                  arith,
                  passed,
                  ap (λ (o : Option ℕ). weigh_one w o) e,
                  weigh-append w freed (t ∷ []),
                  weigh-find_in dead levels fuel (pop_first levels queues).1 (freed ++ t ∷ []) l,
                ))
          | inr alive ↦
              rw (e, find_in, alive) (omega (arith, passed, ap (λ (o : Option ℕ). weigh_one w o) e))
        ]
      ]
    where
      passed :
          weigh_one w (pop_first levels queues).0 + weigh_queues w (pop_first levels queues).1
          ≡ weigh_queues w queues
      passed = weigh-pop_first levels queues l

levels_above-AllLow : (priority : ℕ) → AllLow (levels_above priority)
levels_above-AllLow zero = omega arith
levels_above-AllLow (suc zero) = omega arith
levels_above-AllLow (suc (suc p)) = ground arith

pub find_any-Searched :
    (k : Kernel) (c : Context)
    → AllCounted c.queues
    → Searched c.queues (sched_context_find_any k c)
unfolding sched_context_find_any
find_any-Searched k c a = record {
  counted = (sched_context_find_any-Found k c a).counted;
  same = λ w.
      omega
        (arith, weigh-find_in w (is_dead k) (2 ∷ 1 ∷ 0 ∷ []) (fuel_of c) c.queues [] (omega arith));
}

pub find_higher-Searched :
    (k : Kernel) (c : Context) (priority : ℕ)
    → AllCounted c.queues
    → Searched c.queues (sched_context_find_higher k c priority)
unfolding sched_context_find_higher
find_higher-Searched k c priority a = record {
  counted = (sched_context_find_higher-Found k c priority a).counted;
  same = λ w. omega (
    arith,
    weigh-find_in w (is_dead k) (levels_above priority) (fuel_of c) c.queues []
        (levels_above-AllLow priority),
  );
}
