-- ===== src/Lock/Tests.antt =====
-- src/kernel/lock.h with two processors.
use asym.Base.{
  ℕ, zero, suc, ap, ◌<◌, ◌+◌, ◌≤◌, ◌≡◌, ◌≢◌, refl, sym, ◌∙◌, arith, false, true, Option, none, some,
  ◌==◌, Bool-cases, inl, inr,
}
use asym.Lock.{
  outside, spinning, inside, Cpu, System, lock_init, Reach, acquire, test, start, later,
  lock_release, Place, Step, release, push, with_cpu,
}
unfoldable use asym.Lock.{lock_acquire, lock_test, cli_push, lock_release, cli_pop}
use asym.Lock.Fair.{place_at, other_place, lock_acquires}
use asym.Lock.Invariant.{inside≢spinning}
unfoldable use asym.Lock.Invariant.{ticket_of}
use asym.Lock.Order.{ahead, mutual_exclusion, interrupts_off, served_in_turn}

abbrev idle : ℕ → Cpu
idle i = record {
  cli_amount = 0;
  prev_flags = false;
  trap_depth = 0;
  interrupts = true;
  place = outside;
  held = 0;
}

-- Processor 0 holds the lock and processor 1 waits.
abbrev contended : System
contended = lock_acquire (lock_test (lock_acquire (lock_init idle) 0) 0 0) 1

contended-Reach : Reach 2 contended
unfolding lock_acquire lock_test cli_push
contended-Reach =
    later
      (later
        (later (start idle (λ i. record { place = refl; cli_amount = refl; held = refl }))
          (acquire 0 (omega arith) refl))
        (test 0 0 (omega arith) refl))
      (acquire 1 (omega arith) refl)

mutual_exclusion_example : ◌≡◌ {A = ℕ} 0 0
unfolding lock_acquire lock_test cli_push
mutual_exclusion_example = mutual_exclusion (omega arith) contended-Reach 0 0 refl refl

interrupts_off_example : (contended.cpus 1).interrupts ≡ false
unfolding lock_acquire lock_test cli_push
interrupts_off_example = interrupts_off (omega arith) contended-Reach 1 (λ e. waits e)
  where
    waits : spinning 1 ≢ outside
    waits e = ground (arith, e)

served_in_turn_example :
    (u : System) × (lock_release contended 0 ≡ some u)
    × ((u.cpus 1).place ≡ spinning 1)
    × (ahead u 1 + 1 ≡ ahead contended 1)
unfolding lock_acquire lock_test cli_push
served_in_turn_example = served_in_turn (omega arith) contended-Reach 0 1 1 (omega arith) refl refl

abbrev released : System → Option System → System
released s none = s
released s (some u) = u

-- Both have had the lock, and processor 0 takes other locks for ever.
unfoldable after_both : ℕ → System
unfolding lock_acquire lock_test cli_push lock_release cli_pop
after_both zero =
    let first = released contended (lock_release contended 0) in
    let second = lock_test first 1 1 in released second (lock_release second 1)
after_both (suc k) =
    let s = after_both k in
    with_cpu s 0 (record (cli_push (s.cpus 0)) { held = (s.cpus 0).held + 1 })

unfoldable both_served : ℕ → System
both_served zero = contended
both_served (suc zero) = released contended (lock_release contended 0)
both_served (suc (suc zero)) = lock_test (released contended (lock_release contended 0)) 1 1
both_served (suc (suc (suc k))) = after_both k

-- The other processors stay outside.
others_outside : (k j : ℕ) → j ≢ 0 → j ≢ 1 → place_at (both_served k) j ≡ outside
unfolding both_served after_both lock_acquire lock_test cli_push lock_release cli_pop
others_outside zero j a b = ground (arith, a, b)
others_outside (suc zero) j a b = ground (arith, a, b)
others_outside (suc (suc zero)) j a b = ground (arith, a, b)
others_outside (suc (suc (suc zero))) j a b = ground (arith, a, b)
others_outside (suc (suc (suc (suc k)))) j a b =
    other_place (after_both k).cpus 0 _ j a ∙ others_outside (suc (suc (suc k))) j a b

after_both-outside : (k j : ℕ) → place_at (after_both k) j ≡ outside
unfolding both_served after_both lock_acquire lock_test cli_push lock_release cli_pop
after_both-outside k j = elim (Bool-cases (j == 1)) [
  | inl e ↦ let here : j ≡ 1 = ground (arith, e) in rw here (second k)
  | inr e ↦ elim (Bool-cases (j == 0)) [
    | inl f ↦ let here : j ≡ 0 = ground (arith, f) in rw here (first k)
    | inr f ↦ others_outside (suc (suc (suc k))) j (ground (arith, f)) (ground (arith, e))
  ]
]
  where
    second : (k : ℕ) → place_at (after_both k) 1 ≡ outside
    second zero = refl
    second (suc k) = second k

    first : (k : ℕ) → place_at (after_both k) 0 ≡ outside
    first zero = refl
    first (suc k) = first k

spinning≢outside : {t : ℕ} {p : Place} → p ≡ outside → p ≢ spinning t
spinning≢outside e f = absurd (differ (sym e ∙ f))
  where
    differ : {t : ℕ} → outside ≢ spinning t
    differ e = ground (arith, e)

both_served-steps : (k : ℕ) → Step 2 (both_served k) (both_served (suc k))
unfolding both_served after_both lock_acquire lock_test cli_push lock_release cli_pop
both_served-steps zero = release 0 (omega arith) refl refl
both_served-steps (suc zero) = test 1 1 (omega arith) refl
both_served-steps (suc (suc zero)) = release 1 (omega arith) refl refl
both_served-steps (suc (suc (suc k))) =
    push 0 (omega arith) (λ t e. spinning≢outside (after_both-outside k 0) e)

both_served-leaves :
    (k j : ℕ)
    → place_at (both_served k) j ≡ inside
    → (m : ℕ) × (k ≤ m) × (place_at (both_served m) j ≢ inside)
unfolding both_served
both_served-leaves k j e =
    (suc (suc (suc k)), omega arith, λ z. outside≢inside (sym (after_both-outside k j) ∙ z))
  where
    outside≢inside : outside ≢ inside
    outside≢inside e = ground (arith, e)

-- Processor 1 is the one that waits, with ticket 1, and not for more than two steps.
one_waits :
    (k j t : ℕ)
    → place_at (both_served k) j ≡ spinning t
    → (k < 2) × (j ≡ 1) × (spinning t ≡ spinning 1)
unfolding both_served lock_acquire lock_test cli_push lock_release cli_pop
one_waits (suc (suc (suc k))) j t e = absurd (spinning≢outside (after_both-outside k j) e)
one_waits zero j t e = elim (Bool-cases (j == 1)) [
  | inl q ↦ let here : j ≡ 1 = ground (arith, q) in (omega arith, here, sym (rw here at e))
  | inr q ↦ elim (Bool-cases (j == 0)) [
    | inl z ↦ let here : j ≡ 0 = ground (arith, z) in absurd (inside≢spinning refl (rw here at e))
    | inr z ↦
        absurd (spinning≢outside (others_outside 0 j (ground (arith, z)) (ground (arith, q))) e)
  ]
]
one_waits (suc zero) j t e = elim (Bool-cases (j == 1)) [
  | inl q ↦ let here : j ≡ 1 = ground (arith, q) in (omega arith, here, sym (rw here at e))
  | inr q ↦ elim (Bool-cases (j == 0)) [
    | inl z ↦ let here : j ≡ 0 = ground (arith, z) in absurd (spinning≢outside refl (rw here at e))
    | inr z ↦
        absurd (spinning≢outside (others_outside 1 j (ground (arith, z)) (ground (arith, q))) e)
  ]
]
one_waits (suc (suc zero)) j t e = elim (Bool-cases (j == 1)) [
  | inl q ↦ let here : j ≡ 1 = ground (arith, q) in absurd (inside≢spinning refl (rw here at e))
  | inr q ↦ elim (Bool-cases (j == 0)) [
    | inl z ↦ let here : j ≡ 0 = ground (arith, z) in absurd (spinning≢outside refl (rw here at e))
    | inr z ↦
        absurd (spinning≢outside (others_outside 2 j (ground (arith, z)) (ground (arith, q))) e)
  ]
]

both_served-tests :
    (k j t : ℕ)
    → place_at (both_served k) j ≡ spinning t
    → (m : ℕ) × (k ≤ m) × (both_served (suc m) ≡ lock_test (both_served m) j t)
unfolding both_served ticket_of
both_served-tests k j t e =
    let (soon, here, ticket) = one_waits k j t e in
    (
      1,
      omega (arith, soon),
      ap (λ x. lock_test (both_served 1) x 1) (sym here)
          ∙ ap (λ p. lock_test (both_served 1) j (ticket_of p)) (sym ticket),
    )

lock_acquires_example : (m : ℕ) × (0 ≤ m) × (place_at (both_served m) 1 ≡ inside)
unfolding both_served lock_acquire lock_test cli_push
lock_acquires_example =
    lock_acquires (omega arith) both_served contended-Reach both_served-steps both_served-leaves
      both_served-tests 1 1 0 refl
