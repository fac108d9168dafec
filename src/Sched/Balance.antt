-- ===== src/Sched/Balance.antt =====
-- `sched_push` of src/kernel/sched.c gives a thread to a processor that has fewest.
use asym.Base.{
  ℕ, zero, suc, ◌+◌, ◌≤◌, ◌<◌, ◌≡◌, refl, true, false, Option, none, some, arith, ◌==◌, ltb, lt→ltb,
  if_cases, Bool-cases, inl, inr,
}
use native.Mathlib.Decide.{dec_lt}
use asym.Sched.State.{Context, Kernel, update}
use asym.Sched.Context.{sched_context_thread_amount, sched_context_push}
use asym.Sched.Blocker.{pick, int64_max, sched_push, push_to}

module _ (contexts : ℕ → Context) (amount : ℕ) where
  abbrev pub Least : Option ℕ → Type 0
  Least none = ⊥
  Least (some i) =
      (i < amount)
      × ((j : ℕ)
          → j < amount
          → sched_context_thread_amount (contexts i) ≤ sched_context_thread_amount (contexts j))

  -- The loop with a best so far, `b`, among the processors below `i`.
  pick-Least :
      (n i b best_length : ℕ)
      → i + n ≡ amount
      → b < i
      → sched_context_thread_amount (contexts b) ≡ best_length
      → ((j : ℕ) → j < i → best_length ≤ sched_context_thread_amount (contexts j))
      → Least (pick contexts n i best_length (some b))
  unfolding pick
  pick-Least zero i b best_length e l eb least =
      (omega arith, λ j h. omega (arith, eb, least j (omega arith)))
  pick-Least (suc n) i b best_length e l eb least =
      if_cases Least (sched_context_thread_amount (contexts i) == 0) _ _
        (λ idle. (omega arith, λ j h. ground arith))
        (λ busy. elim (Bool-cases (ltb (sched_context_thread_amount (contexts i)) best_length)) [
          | inl less ↦ rw less (
              pick-Least n (i + 1) i (sched_context_thread_amount (contexts i)) (omega arith)
                (omega arith) refl (λ j h. newer less j (omega arith)))
          | inr more ↦ rw more (
              pick-Least n (i + 1) b best_length (omega arith) (omega arith) eb
                (λ j h. older more j (omega arith)))
        ])
    where
      newer :
          ltb (sched_context_thread_amount (contexts i)) best_length ≡ true
          → (j : ℕ) → j ≤ i
          → sched_context_thread_amount (contexts i) ≤ sched_context_thread_amount (contexts j)
      newer less j h = elim (dec_lt j i) [
        | yes p ↦ ground (arith, least j p)
        | no p ↦ let j≡i : j ≡ i = omega arith in rw j≡i (omega arith)
      ]

      older :
          ltb (sched_context_thread_amount (contexts i)) best_length ≡ false
          → (j : ℕ) → j ≤ i
          → best_length ≤ sched_context_thread_amount (contexts j)
      older more j h = elim (dec_lt j i) [
        | yes p ↦ least j p
        | no p ↦ let j≡i : j ≡ i = omega arith in rw j≡i (ground arith)
      ]

pick-Least_start :
    (contexts : ℕ → Context) (amount : ℕ)
    → 0 < amount
    → sched_context_thread_amount (contexts 0) < int64_max
    → Least contexts amount (pick contexts amount 0 int64_max none)
unfolding pick
pick-Least_start contexts zero some_cpu small = elim some_cpu [ ]
pick-Least_start contexts (suc n) some_cpu small =
    if_cases (Least contexts (suc n)) (sched_context_thread_amount (contexts 0) == 0) _ _
      (λ idle. (omega arith, λ j h. ground arith))
      (λ busy.
        let less : ltb (sched_context_thread_amount (contexts 0)) int64_max ≡ true =
          lt→ltb _ _ small in
        rw less (
          pick-Least contexts (suc n) n 1 0 (sched_context_thread_amount (contexts 0)) (omega arith)
            (omega arith) refl (λ j h. let e : j ≡ 0 = omega arith in rw e (omega arith))))

abbrev pub Chosen : Kernel → ℕ → Kernel → Type 0
Chosen k thread k' =
    (i : ℕ) × Least k.contexts k.cpu_amount (some i)
    × (k' ≡ record k {
      contexts =
          update k.contexts i
            (sched_context_push (k.contexts i) (k.threads thread).priority thread);
    })

-- Where there is a processor and every processor's thread amount is below INT64_MAX, `sched_push`
-- chooses one in range whose amount is at most that of every other, and puts the thread at the end of
-- that processor's queue for the thread's priority.
pub sched_push-Least :
    (k : Kernel) (thread : ℕ)
    → 0 < k.cpu_amount
    → ((j : ℕ) → j < k.cpu_amount → sched_context_thread_amount (k.contexts j) < int64_max)
    → Chosen k thread (sched_push k thread)
unfolding sched_push
sched_push-Least k thread some_cpu small =
    chosen (pick k.contexts k.cpu_amount 0 int64_max none)
      (pick-Least_start k.contexts k.cpu_amount some_cpu (small 0 some_cpu))
  where
    chosen : (o : Option ℕ) → Least k.contexts k.cpu_amount o → Chosen k thread (push_to k thread o)
    chosen none h = absurd h
    chosen (some i) h = (i, h, refl)

-- A push touches no blocker.
pub waiting-sched_push : (k : Kernel) (t b : ℕ) → (sched_push k t).waiting b ≡ k.waiting b
unfolding sched_push
waiting-sched_push k t b = kept (pick k.contexts k.cpu_amount 0 int64_max none)
  where
    kept : (o : Option ℕ) → (push_to k t o).waiting b ≡ k.waiting b
    kept none = refl
    kept (some i) = refl
