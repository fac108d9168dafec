-- ===== src/Lock/Invariant.antt =====
-- The queue of processors that the tickets of src/kernel/lock.h stand for; kept by every step.
use asym.Base.{
  ℕ, zero, suc, ◌+◌, ◌%◌, ◌^◌, ◌≤◌, ◌<◌, ◌≡◌, ◌≢◌, ◌⊎◌, sym, ap, ◌∙◌, arith, Bool, true, false,
  some, List, [], ◌∷◌, length, get_elem?, inl, inr,
}
use asym.Base.Sums.{sum_below}
use asym.Lock.{Place, outside, spinning, inside, Cpu, System}
unfoldable use asym.Lock.{}

abbrev pub busy : Place → ℕ
busy outside = 0
busy (spinning ticket) = 1
busy inside = 1

pub is_inside : Place → Bool
is_inside inside = true
is_inside p = false

pub inside≢spinning : {p : Place} {t : ℕ} → p ≡ inside → p ≢ spinning t
unfolding is_inside
inside≢spinning e f = ground (arith, ap is_inside (sym e ∙ f))

unfoldable pub ticket_of : Place → ℕ
ticket_of (spinning t) = t
ticket_of p = 0

spinning_inj : {t u : ℕ} → spinning t ≡ spinning u → t ≡ u
unfolding ticket_of
spinning_inj e = ap ticket_of e

busy-outside : {p : Place} → p ≡ outside → busy p ≡ 0
busy-outside e = ap busy e

-- The place of the processor that is `k`-th in the queue.
abbrev pub Stands : ℕ → ℕ → Place → Type 0
Stands serving k p = (p ≡ spinning ((serving + k) % 2 ^ 32)) ⊎ ((k ≡ 0) × (p ≡ inside))

-- What masking keeps on a processor: interrupts are off as long as it holds, or waits for, a lock.
pub record Masked (c : Cpu) : Type 0 where
  pub amount : c.cli_amount ≡ c.held + busy c.place
  pub off : c.cli_amount ≢ 0 → c.interrupts ≡ false

pub record Queued (n : ℕ) (s : System) (queue : List ℕ) : Type 0 where
  pub count : length queue ≡ sum_below n (λ i. busy (s.cpus i).place)
  pub next : s.next_ticket ≡ (s.now_serving + length queue) % 2 ^ 32
  pub small : s.now_serving < 2 ^ 32
  pub stands :
      (k i : ℕ) → get_elem? queue k ≡ some i → (i < n) × Stands s.now_serving k (s.cpus i).place
  pub queued : (i : ℕ) → busy (s.cpus i).place ≢ 0 → (k : ℕ) × (get_elem? queue k ≡ some i)
  pub masked : (i : ℕ) → Masked (s.cpus i)

pub get-lt : (xs : List ℕ) (k i : ℕ) → get_elem? xs k ≡ some i → k < length xs
get-lt [] k i e = absurd (ground (arith, e))
get-lt (x ∷ xs) zero i e = omega arith
get-lt (x ∷ xs) (suc k) i e = omega (arith, get-lt xs k i e)

busy-le : (p : Place) → busy p ≤ 1
busy-le outside = omega arith
busy-le (spinning t) = omega arith
busy-le inside = omega arith

sum-le : (n : ℕ) (f : ℕ → ℕ) → ((i : ℕ) → f i ≤ 1) → sum_below n f ≤ n
sum-le zero f h = omega arith
sum-le (suc n) f h = omega (arith, sum-le n f h, h n)

module _ {n : ℕ} {s : System} {queue : List ℕ} (q : Queued n s queue) (few : n ≤ 2 ^ 32) where
  pub queue-le : length queue ≤ n
  queue-le =
      omega (arith, q.count, sum-le n (λ i. busy (s.cpus i).place) (λ i. busy-le (s.cpus i).place))

  pub spins-at :
      (k i t : ℕ)
      → get_elem? queue k ≡ some i
      → (s.cpus i).place ≡ spinning t
      → t ≡ (s.now_serving + k) % 2 ^ 32
  spins-at k i t g e = elim (q.stands k i g).1 [
    | inl f ↦ spinning_inj (sym e ∙ f)
    | inr (_, f) ↦ absurd (inside≢spinning f e)
  ]

  -- One processor stands at one place.
  pub one_place : (k l i : ℕ) → get_elem? queue k ≡ some i → get_elem? queue l ≡ some i → k ≡ l
  one_place k l i g h = elim (q.stands k i g).1 [
    | inl e ↦ elim (q.stands l i h).1 [
      | inl f ↦ omega (
        arith,
        spinning_inj (sym e ∙ f),
        queue-le,
        get-lt queue k i g,
        get-lt queue l i h,
        q.small,
      )
      | inr (_, f) ↦ absurd (inside≢spinning f e)
    ]
    | inr (z, e) ↦ elim (q.stands l i h).1 [
      | inl f ↦ absurd (inside≢spinning e f)
      | inr (y, _) ↦ omega (arith, z, y)
    ]
  ]

  -- The one inside is at the front.
  pub inside-front : (i : ℕ) → (s.cpus i).place ≡ inside → get_elem? queue 0 ≡ some i
  inside-front i e =
      let (k, g) = q.queued i (omega (arith, ap busy e)) in
      elim (q.stands k i g).1 [
        | inl f ↦ absurd (inside≢spinning e f)
        | inr (z, _) ↦ ap (get_elem? queue) (sym z) ∙ g
      ]
