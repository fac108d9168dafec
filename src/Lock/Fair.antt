-- ===== src/Lock/Fair.antt =====
-- No processor waits for ever for the lock of src/kernel/lock.h.
use asym.Base.{
  ℕ, zero, suc, ◌+◌, ◌-◌, ◌%◌, ◌^◌, ◌≤◌, ◌<◌, ◌≡◌, ◌≢◌, ◌⊎◌, refl, sym, ap, subst, ◌∙◌, arith, true,
  some, List, [], ◌∷◌, get_elem?, ◌==◌, Bool-cases, inl, inr,
}
use asym.Base.Maps.{update, update_self, update_ne}
use asym.Lock.{
  Place, outside, spinning, inside, Cpu, System, lock_release, Step, acquire, test, release, push,
  pop, Reach, later,
}
unfoldable use asym.Lock.{lock_acquire, lock_test, lock_release, cli_push, cli_pop}
use asym.Lock.Invariant.{busy, inside≢spinning}
use asym.Lock.Steps.{some_inj}
use asym.Lock.Order.{Reach-Queued, ahead, ahead-served}

abbrev pub place_at : System → ℕ → Place
place_at s j = (s.cpus j).place

-- What one step does to a processor that waits for the lock, or holds it: the processor stays where it
-- is, or gets in; or the holder lets go, and the next ticket is served.
data After (s u : System) (j : ℕ) : Type 0 where
  stays : u.now_serving ≡ s.now_serving → place_at u j ≡ place_at s j → After s u j
  gets_in : u.now_serving ≡ s.now_serving → place_at u j ≡ inside → After s u j
  served :
      (i : ℕ)
      → place_at s i ≡ inside
      → u.now_serving ≡ (s.now_serving + 1) % 2 ^ 32
      → (j ≢ i → place_at u j ≡ place_at s j)
      → After s u j

-- An update of one processor that leaves its place as it is changes no place.
same_place :
    (cpus : ℕ → Cpu) (i : ℕ) (c : Cpu)
    → c.place ≡ (cpus i).place
    → (j : ℕ) → (update cpus i c j).place ≡ (cpus j).place
same_place cpus i c e j = elim (Bool-cases (j == i)) [
  | inl q ↦
      let here : j ≡ i = ground (arith, q) in
      rw here (ap (λ (c : Cpu). c.place) (update_self cpus i c) ∙ e)
  | inr q ↦ ap (λ (c : Cpu). c.place) (update_ne cpus i c j (ground (arith, q)))
]

pub other_place :
    (cpus : ℕ → Cpu) (i : ℕ) (c : Cpu) (j : ℕ) → j ≢ i → (update cpus i c j).place ≡ (cpus j).place
other_place cpus i c j ne = ap (λ (c : Cpu). c.place) (update_ne cpus i c j ne)

pop-place : (c d : Cpu) → cli_pop c ≡ some d → d.place ≡ c.place
unfolding cli_pop
pop-place c d e = elim (Bool-cases (c.cli_amount == 0)) [
  | inl z ↦ absurd (ground (arith, (rw z at e)))
  | inr z ↦ sym (ap (λ (x : Cpu). x.place) (some_inj (rw z at e)))
]

release-served :
    (s u : System) (i : ℕ)
    → lock_release s i ≡ some u
    → (u.now_serving ≡ (s.now_serving + 1) % 2 ^ 32)
      × ((j : ℕ) → j ≢ i → place_at u j ≡ place_at s j)
unfolding lock_release cli_pop
release-served s u i e = elim (Bool-cases ((s.cpus i).cli_amount == 0)) [
  | inl z ↦ absurd (ground (arith, (rw z at e)))
  | inr z ↦
      let same = sym (some_inj (rw z at e)) in rw same (refl, λ j ne. other_place s.cpus i _ j ne)
]

Step-After : {n : ℕ} {s u : System} → Step n s u → (j : ℕ) → place_at s j ≢ outside → After s u j
unfolding lock_acquire lock_test cli_push
Step-After {s} (acquire i lt out) j h =
    let ne : j ≢ i = λ q. h (ap (place_at s) q ∙ out) in stays refl (other_place s.cpus i _ j ne)
Step-After {s} (test i t lt e) j h = elim (Bool-cases (s.now_serving == t)) [
  | inr z ↦ rw z (stays refl refl)
  | inl z ↦ elim (Bool-cases (j == i)) [
    | inl q ↦
        let here : j ≡ i = ground (arith, q) in
        rw (z, here)
          (gets_in refl (
            ap (λ (c : Cpu). c.place)
              (update_self s.cpus i (record (s.cpus i) { place = inside }))))
    | inr q ↦ rw z (
        stays refl
          (other_place s.cpus i (record (s.cpus i) { place = inside }) j (ground (arith, q))))
  ]
]
Step-After {s} {u} (release i lt e f) j h =
    let (now, others) = release-served s u i f in served i e now (others j)
Step-After {s} (push i lt free) j h = stays refl (same_place s.cpus i _ refl j)
Step-After {s} (pop i {c} lt free held e) j h =
    stays refl
      (same_place s.cpus i c (pop-place (record (s.cpus i) { held = (s.cpus i).held - 1 }) c e) j)

first_of : (xs : List ℕ) (k i : ℕ) → get_elem? xs k ≡ some i → (j : ℕ) × (get_elem? xs 0 ≡ some j)
first_of [] k i g = absurd (ground (arith, g))
first_of (x ∷ xs) k i g = (x, refl)

-- `at k` is the state after `k` steps, without end. Who holds the lock lets go of it some time later, and
-- who waits goes on testing.
module _ {n : ℕ} (few : n ≤ 2 ^ 32) (at : ℕ → System) (begins : Reach n (at 0))
    (steps : (k : ℕ) → Step n (at k) (at (suc k)))
    (leaves : (k j : ℕ)
      → place_at (at k) j ≡ inside
      → (m : ℕ) × (k ≤ m) × (place_at (at m) j ≢ inside))
    (tests : (k j ticket : ℕ)
      → place_at (at k) j ≡ spinning ticket
      → (m : ℕ) × (k ≤ m) × (at (suc m) ≡ lock_test (at m) j ticket))
    (i ticket : ℕ) where
  reaches : (k : ℕ) → Reach n (at k)
  reaches zero = begins
  reaches (suc k) = later (reaches k) (steps k)

  abbrev GetsIn : ℕ → Type 0
  GetsIn k = (m : ℕ) × (k ≤ m) × (place_at (at m) i ≡ inside)

  -- It waits, and `d` stand before it.
  abbrev Waits : ℕ → ℕ → Type 0
  Waits d k = (place_at (at k) i ≡ spinning ticket) × (ahead (at k) ticket ≡ d)

  -- Whoever waits with one less before it gets in.
  abbrev Nearer : ℕ → Type 0
  Nearer d = (k d' : ℕ) → d' + 1 ≡ d → Waits d' k → GetsIn k

  GetsIn-suc : (k : ℕ) → GetsIn (suc k) → GetsIn k
  GetsIn-suc k (m, le, e) = (m, omega (arith, le), e)

  now-lt : (k : ℕ) → (at k).now_serving < 2 ^ 32
  now-lt k = let (queue, q) = Reach-Queued few (reaches k) in q.small

  -- One step on: it gets in, it gets nearer, or nobody lets go.
  one_step :
      (d k : ℕ)
      → Nearer d
      → Waits d k
      → ((at (suc k)).now_serving ≡ (at k).now_serving → Waits d (suc k) → GetsIn (suc k))
      → GetsIn k
  one_step d k nearer (e, a) more =
      elim (Step-After (steps k) i (λ z. elim (waits≢outside (sym e ∙ z)) [ ])) [
        | stays now same ↦
            GetsIn-suc k
              (more now (same ∙ e, ap (λ (x : ℕ). (ticket + 2 ^ 32 - x) % 2 ^ 32) now ∙ a))
        | gets_in now here ↦ (suc k, omega arith, here)
        | served h holds now others ↦
            let ne : i ≢ h =
              λ z. absurd (inside≢spinning holds (ap (place_at (at k)) (sym z) ∙ e)) in
            let less = ahead-served few (reaches k) h i ticket holds e (at (suc k)) now in
            GetsIn-suc k
              (nearer (suc k) (ahead (at (suc k)) ticket) (less ∙ a) (others ne ∙ e, refl))
      ]
    where
      waits≢outside : spinning ticket ≢ outside
      waits≢outside z = ground (arith, z)

  -- While nobody lets go, who is busy stays, or gets in.
  keeps_place :
      (k j : ℕ)
      → (at (suc k)).now_serving ≡ (at k).now_serving
      → place_at (at k) j ≢ outside
      → (place_at (at (suc k)) j ≡ place_at (at k) j) ⊎ (place_at (at (suc k)) j ≡ inside)
  keeps_place k j same h = elim (Step-After (steps k) j h) [
    | stays now e ↦ inl e
    | gets_in now e ↦ inr e
    | served l holds now others ↦ absurd (omega (arith, now, same, now-lt k))
  ]

  until_left :
      (d r k m j : ℕ)
      → Nearer d
      → Waits d k
      → r + k ≡ m
      → place_at (at k) j ≡ inside
      → place_at (at m) j ≢ inside
      → GetsIn k
  until_left d zero k m j nearer w e holds left =
      let here : k ≡ m = omega (arith, e) in
      absurd (left (subst (λ x. place_at (at x) j ≡ inside) here holds))
  until_left d (suc r) k m j nearer w e holds left = one_step d k nearer w (λ now w'.
      let kept = keeps_place k j now (λ z. inside≢outside (sym holds ∙ z)) in
      until_left d r (suc k) m j nearer w' (omega (arith, e))
        (elim kept [ inl same ↦ same ∙ holds | inr here ↦ here ]) left)
    where
      inside≢outside : inside ≢ outside
      inside≢outside z = ground (arith, z)

  behind_holder : (d k j : ℕ) → Nearer d → Waits d k → place_at (at k) j ≡ inside → GetsIn k
  behind_holder d k j nearer w holds =
      let (m, le, left) = leaves k j holds in
      until_left d (m - k) k m j nearer w (omega (arith, le)) holds left

  until_test :
      (d r k m j t : ℕ)
      → Nearer d
      → Waits d k
      → r + k ≡ m
      → (at k).now_serving ≡ t
      → place_at (at k) j ≡ spinning t
      → at (suc m) ≡ lock_test (at m) j t
      → GetsIn k
  unfolding lock_test
  until_test d zero k m j t nearer w e turn waits tested = one_step d k nearer w (λ now w'.
      let last : m ≡ k = omega (arith, e) in
      let here : at (suc k) ≡ lock_test (at k) j t =
        subst (λ x. at (suc x) ≡ lock_test (at x) j t) last tested in
      let passes : ((at k).now_serving == t) ≡ true = ground (arith, turn) in
      behind_holder d (suc k) j nearer w' (
        ap (λ s. place_at s j) here
        ∙ rw passes (
            ap (λ (c : Cpu). c.place)
              (update_self (at k).cpus j (record ((at k).cpus j) { place = inside })))))
  until_test d (suc r) k m j t nearer w e turn waits tested = one_step d k nearer w (λ now w'.
      elim (keeps_place k j now (λ z. waits≢outside (sym waits ∙ z))) [
        | inl same ↦
            until_test d r (suc k) m j t nearer w' (omega (arith, e)) (now ∙ turn) (same ∙ waits)
              tested
        | inr holds ↦ behind_holder d (suc k) j nearer w' holds
      ])
    where
      waits≢outside : spinning t ≢ outside
      waits≢outside z = ground (arith, z)

  moves_up : (d k : ℕ) → Nearer d → Waits d k → GetsIn k
  moves_up d k nearer w =
      let (queue, q) = Reach-Queued few (reaches k) in
      let (l, g) = q.queued i (omega (arith, ap busy w.0)) in
      let (j, first) = first_of queue l i g in
      elim (q.stands 0 j first).1 [
        | inr (_, holds) ↦ behind_holder d k j nearer w holds
        | inl waits ↦
            let t = ((at k).now_serving + 0) % 2 ^ 32 in
            let (m, le, tested) = tests k j t waits in
            until_test d (m - k) k m j t nearer w (omega (arith, le)) (omega (arith, q.small)) waits
              tested
      ]

  every_distance : (d k : ℕ) → Waits d k → GetsIn k
  every_distance zero k w = moves_up zero k (λ k d e. absurd (omega (arith, e))) w
  every_distance (suc d) k w =
      moves_up (suc d) k (λ l d' e v. every_distance d l (v.0, omega (arith, e, v.1))) w

  -- On every run without end from a state that the lock can reach, in any order of the steps of at most
  -- 2^32 processors, in which whoever holds the lock lets go of it some time, and whoever waits tests it
  -- again some time, each processor that waits holds the lock at a later time.
  pub lock_acquires :
      (k : ℕ)
      → place_at (at k) i ≡ spinning ticket
      → (m : ℕ) × (k ≤ m) × (place_at (at m) i ≡ inside)
  lock_acquires k e = every_distance (ahead (at k) ticket) k (e, refl)
