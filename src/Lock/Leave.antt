-- ===== src/Lock/Leave.antt =====
-- lock_release of src/kernel/lock.h: the front of the queue leaves it.
use asym.Base.{
  ℕ, zero, suc, ◌+◌, ◌%◌, ◌^◌, ◌≤◌, ◌<◌, ◌≡◌, ◌≢◌, refl, sym, ap, ◌∙◌, arith, some, List, [], ◌∷◌,
  length, get_elem?, ◌==◌, Bool-cases, inl, inr,
}
use asym.Base.Maps.{update, update_self, update_ne}
use asym.Base.Sums.{sum_below-change}
use asym.Lock.{outside, spinning, inside, Cpu, System, with_cpu, popped}
unfoldable use asym.Lock.{lock_release}
use asym.Lock.Invariant.{busy, Queued, one_place, inside-front}
use asym.Lock.Steps.{some_inj, pop-Masked}

module _ {n : ℕ} {s : System} {queue : List ℕ} (q : Queued n s queue) (i : ℕ) (lt : i < n) where
  -- What a release leaves: the front is gone, all others move up.
  pub record Released : Type 0 where
    pub after : System
    pub returns : lock_release s i ≡ some after
    pub rest : List ℕ
    pub was : queue ≡ i ∷ rest
    pub queued : Queued n after rest
    pub served : after.now_serving ≡ (s.now_serving + 1) % 2 ^ 32
    pub others : (j : ℕ) → j ≢ i → after.cpus j ≡ s.cpus j
    pub left : (after.cpus i).place ≡ outside

  pub release-Released : n ≤ 2 ^ 32 → (s.cpus i).place ≡ inside → Released
  unfolding lock_release
  release-Released few e =
      let (d, f, masked, place, _) =
        pop-Masked (s.cpus i) outside (s.cpus i).held (q.masked i) (omega (arith, ap busy e)) in
      let (rest, was) = at_front queue (inside-front q few i e) in
      let new : update s.cpus i d i ≡ d = update_self s.cpus i d in
      record {
        after = with_cpu (record s { now_serving = (s.now_serving + 1) % 2 ^ 32 }) i d;
        returns = ap (popped (record s { now_serving = (s.now_serving + 1) % 2 ^ 32 }) i) f;
        rest = rest;
        was = was;
        queued = record {
          count = omega (
            arith,
            q.count,
            ap length was,
            ap busy e,
            ap (λ (c : Cpu). busy c.place) new,
            ap busy place,
            sum_below-change n i (λ j. busy (s.cpus j).place)
                (λ j. busy (update s.cpus i d j).place) lt
                (λ j ne. ap (λ (c : Cpu). busy c.place) (update_ne s.cpus i d j ne)),
          );
          next = omega (arith, q.next, ap length was);
          small = omega arith;
          stands = λ k j g.
              let old : get_elem? queue (suc k) ≡ some j =
                ap (λ xs. get_elem? xs (suc k)) was ∙ g in
              let ne : j ≢ i = λ z. absurd (
                omega (
                  arith,
                  one_place q few 0 (suc k) i (inside-front q few i e) (old ∙ ap some z),
                )) in
              let (less, at) = q.stands (suc k) j old in
              (
                less,
                rw (update_ne s.cpus i d j ne) (elim at [
                  | inl spins ↦ inl (spins ∙ ap spinning (omega arith))
                  | inr (z, _) ↦ absurd (omega (arith, z))
                ]),
              );
          queued = λ j b. elim (Bool-cases (j == i)) [
            | inl z ↦
                let here : update s.cpus i d j ≡ d = ground (arith, z) in
                absurd (b (ap (λ (c : Cpu). busy c.place) here ∙ ap busy place))
            | inr z ↦
                let ne : j ≢ i = ground (arith, z) in
                let (k, g) =
                  q.queued j
                    (λ y. b (ap (λ (c : Cpu). busy c.place) (update_ne s.cpus i d j ne) ∙ y)) in
                behind rest j k ne (ap (λ xs. get_elem? xs k) (sym was) ∙ g)
          ];
          masked = λ j. elim (Bool-cases (j == i)) [
            | inl z ↦ let here : update s.cpus i d j ≡ d = ground (arith, z) in rw here masked
            | inr z ↦
                let old : update s.cpus i d j ≡ s.cpus j = ground (arith, z) in rw old (q.masked j)
          ];
        };
        served = refl;
        others = λ j ne. update_ne s.cpus i d j ne;
        left = ap (λ (c : Cpu). c.place) new ∙ place;
      }
    where
      at_front : (xs : List ℕ) → get_elem? xs 0 ≡ some i → (rest : List ℕ) × (xs ≡ i ∷ rest)
      at_front [] g = absurd (ground (arith, g))
      at_front (x ∷ xs) g = (xs, ap (λ y. y ∷ xs) (some_inj g))

      behind :
          (rest : List ℕ) (j k : ℕ)
          → j ≢ i
          → get_elem? (i ∷ rest) k ≡ some j
          → (l : ℕ) × (get_elem? rest l ≡ some j)
      behind rest j zero ne g = absurd (ne (sym (some_inj g)))
      behind rest j (suc k) ne g = (k, g)
