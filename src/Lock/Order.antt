-- ===== src/Lock/Order.antt =====
-- What src/kernel/lock.h promises at each time: one holder, interrupts off, turns in order.
use asym.Base.{
  ℕ, zero, suc, ◌+◌, ◌-◌, ◌%◌, ◌^◌, ◌≤◌, ◌<◌, ◌≡◌, ◌≢◌, refl, sym, ap, subst, ◌∙◌, arith, false,
  some, List, [], ◌∷◌, ◌++◌, get_elem?,
}
use asym.Base.Sums.{sum_below}
use asym.Lock.{
  Place, outside, spinning, inside, Cpu, System, lock_init, lock_release, acquire, test, release,
  push, pop, Fresh, Reach, start, later,
}
unfoldable use asym.Lock.{}
use asym.Lock.Invariant.{busy, Queued, queue-le, get-lt, spins-at, inside-front, inside≢spinning}
use asym.Lock.Steps.{acquire-Queued, test-Queued, push-Queued, pop-Queued, some_inj}
use asym.Lock.Leave.{release-Released}

sum-zero : (n : ℕ) (f : ℕ → ℕ) → ((i : ℕ) → f i ≡ 0) → sum_below n f ≡ 0
sum-zero zero f h = refl
sum-zero (suc n) f h = omega (arith, sum-zero n f h, h n)

init-Queued : (n : ℕ) (cpus : ℕ → Cpu) → ((i : ℕ) → Fresh (cpus i)) → Queued n (lock_init cpus) []
init-Queued n cpus fresh = record {
  count = sym (sum-zero n (λ i. busy (cpus i).place) (λ i. ap busy (fresh i).place));
  next = refl;
  small = omega arith;
  stands = λ k i g. absurd (ground (arith, g));
  queued = λ i b. absurd (b (ap busy (fresh i).place));
  masked = λ i. record {
    amount = omega (arith, (fresh i).cli_amount, (fresh i).held, ap busy (fresh i).place);
    off = λ h. absurd (h (fresh i).cli_amount);
  };
}

-- The queue of a reachable state.
pub Reach-Queued :
    {n : ℕ} {s : System} → n ≤ 2 ^ 32 → Reach n s → (queue : List ℕ) × Queued n s queue
Reach-Queued {n} few (start cpus fresh) = ([], init-Queued n cpus fresh)
Reach-Queued few (later r (acquire i lt out)) =
    let (queue, q) = Reach-Queued few r in (queue ++ i ∷ [], acquire-Queued q i lt out)
Reach-Queued few (later r (test i t lt e)) =
    let (queue, q) = Reach-Queued few r in (queue, test-Queued q i lt few t e)
Reach-Queued {n} few (later r (release i lt e f)) =
    let (queue, q) = Reach-Queued few r in
    let left = release-Released q i lt few e in
    (left.rest, subst (λ u. Queued n u left.rest) (some_inj (sym left.returns ∙ f)) left.queued)
Reach-Queued few (later r (push i lt free)) =
    let (queue, q) = Reach-Queued few r in (queue, push-Queued q i lt free)
Reach-Queued few (later r (pop i {c} lt free h e)) =
    let (queue, q) = Reach-Queued few r in (queue, pop-Queued q i lt c h e)

-- Of at most 2^32 processors, two never hold the lock at once, though the 32-bit tickets wrap around.
pub mutual_exclusion :
    {n : ℕ} {s : System}
    → n ≤ 2 ^ 32
    → Reach n s
    → (i j : ℕ) → (s.cpus i).place ≡ inside
    → (s.cpus j).place ≡ inside
    → i ≡ j
mutual_exclusion few r i j e f =
    let (queue, q) = Reach-Queued few r in
    some_inj (sym (inside-front q few i e) ∙ inside-front q few j f)

-- A processor that waits for the lock, or holds it, has its interrupts off.
pub interrupts_off :
    {n : ℕ} {s : System}
    → n ≤ 2 ^ 32
    → Reach n s
    → (i : ℕ) → (s.cpus i).place ≢ outside
    → (s.cpus i).interrupts ≡ false
interrupts_off {s} few r i h =
    let (queue, q) = Reach-Queued few r in
    let m = q.masked i in m.off (omega (arith, m.amount, some_busy (s.cpus i).place h))
  where
    some_busy : (p : Place) → p ≢ outside → busy p ≡ 1
    some_busy outside h = absurd (h refl)
    some_busy (spinning t) h = refl
    some_busy inside h = refl

-- how many stand before the one with that ticket
abbrev pub ahead : System → ℕ → ℕ
ahead s ticket = (ticket + 2 ^ 32 - s.now_serving) % 2 ^ 32

-- One more release brings a processor that waits nearer by one place.
pub ahead-served :
    {n : ℕ} {s : System}
    → n ≤ 2 ^ 32
    → Reach n s
    → (i j t : ℕ) → (s.cpus i).place ≡ inside
    → (s.cpus j).place ≡ spinning t
    → (u : System) → u.now_serving ≡ (s.now_serving + 1) % 2 ^ 32
    → ahead u t + 1 ≡ ahead s t
ahead-served {s} few r i j t e f u served =
    let (queue, q) = Reach-Queued few r in
    let ne : j ≢ i = λ z. absurd (inside≢spinning e (ap (λ k. (s.cpus k).place) (sym z) ∙ f)) in
    let (k, g) = q.queued j (omega (arith, ap busy f)) in
    let front : k ≢ 0 = λ z.
      absurd (ne (some_inj (sym (ap (get_elem? queue) (sym z) ∙ g) ∙ inside-front q few i e))) in
    omega
      (arith, served, spins-at q few k j t g f, queue-le q few, get-lt queue k j g, q.small, front)

-- The holder's release succeeds, and brings every processor that waits nearer by exactly one place.
pub served_in_turn :
    {n : ℕ} {s : System}
    → n ≤ 2 ^ 32
    → Reach n s
    → (i j t : ℕ) → i < n
    → (s.cpus i).place ≡ inside
    → (s.cpus j).place ≡ spinning t
    → (u : System) × (lock_release s i ≡ some u)
      × ((u.cpus j).place ≡ spinning t)
      × (ahead u t + 1 ≡ ahead s t)
served_in_turn {s} few r i j t lt e f =
    let (queue, q) = Reach-Queued few r in
    let left = release-Released q i lt few e in
    let ne : j ≢ i = λ z. absurd (inside≢spinning e (ap (λ k. (s.cpus k).place) (sym z) ∙ f)) in
    (
      left.after,
      left.returns,
      ap (λ (c : Cpu). c.place) (left.others j ne) ∙ f,
      ahead-served few r i j t e f left.after left.served,
    )
