-- ===== src/Str/Digits.antt =====
-- ulltoa of src/stdlib/stdlib.c: the digits of a number in any base up to 36.
use asym.Base.{
  ℕ, zero, suc, ◌+◌, ◌-◌, ◌*◌, ◌/◌, ◌%◌, ◌^◌, ◌≤◌, ◌<◌, ◌≡◌, ◌≢◌, refl, ap, ◌∙◌, arith, Bool, true,
  false, ◌&&◌, Option, none, some, leb, ltb, ◌==◌, if◌then◌else◌, Bool-cases, inl, inr, at_each,
}
unfoldable use asym.Base.{every}
use native.Mathlib.Nat.{mod-lt, div-add-mod', mul-le-mul_left, pow-suc}
use asym.Str.Memory.{Memory, store8}

-- `do { ++p; shifter = shifter / base; } while (shifter);` with `fuel` rounds; `none` is still running.
unfoldable pub count_digits : ℕ → ℕ → ℕ → ℕ → Option ℕ
count_digits zero base shifter p = none
count_digits (suc fuel) base shifter p =
    let rest = count_digits fuel base (shifter / base) (p + 1) in
    if shifter / base == 0 then some (p + 1) else rest

-- `digit < 10 ? '0' + digit : 'A' + digit - 10`
unfoldable pub digit_char : ℕ → ℕ
digit_char digit = if ltb digit 10 then 48 + digit else 65 + digit - 10

-- the loop that writes the digits, from the last; `digit` is a byte
unfoldable pub write_digits : ℕ → ℕ → ℕ → ℕ → Memory → Option Memory
write_digits zero base i p m = none
write_digits (suc fuel) base i p m =
    let m' = store8 m (p - 1) (digit_char (i % base % 256)) in
    let rest = write_digits fuel base (i / base) (p - 1) m' in
    if i / base == 0 then some m' else rest

abbrev written_at : ℕ → ℕ → ℕ → Memory → Option ℕ → Option Memory
written_at fuel base number m none = none
written_at fuel base number m (some p) = write_digits fuel base number p (store8 m p 0)

-- The text is at `str`; `fuel` bounds both loops.
unfoldable pub ulltoa : ℕ → Memory → ℕ → ℕ → ℕ → Option Memory
ulltoa fuel m number str base = written_at fuel base number m (count_digits fuel base number str)

-- What a character from '0' to '9' and from 'A' to 'Z' stands for; any other is no digit, which is 36.
unfoldable pub digit_value : ℕ → ℕ
digit_value c = if leb 48 c && leb c 57 then c - 48 else if leb 65 c && leb c 90 then c - 55 else 36

-- what `k` characters from `str` stand for in the base
unfoldable pub value_of : Memory → ℕ → ℕ → ℕ → ℕ
value_of m base str zero = 0
value_of m base str (suc k) = value_of m base str k * base + digit_value (m (str + k))

digit_law : ℕ → Bool
digit_law d = digit_value (digit_char d) == d

digit_table : every digit_law 36 ≡ true
unfolding every digit_law digit_value digit_char
digit_table = refl

value-char : (d : ℕ) → d < 36 → digit_value (digit_char d) ≡ d
unfolding digit_law
value-char d h = ground (arith, at_each digit_law 36 d h digit_table)

value_of-ext :
    (m m' : Memory) (base str k : ℕ)
    → ((a : ℕ) → a < str + k → m' a ≡ m a)
    → value_of m' base str k ≡ value_of m base str k
unfolding value_of
value_of-ext m m' base str zero h = refl
value_of-ext m m' base str (suc k) h =
    let front = value_of-ext m m' base str k (λ a l. h a (omega arith)) in
    let last = h (str + k) (omega arith) in rw (front, last) refl

-- What the two loops do with a number of at most `fuel` binary digits.
record Converted (fuel base i : ℕ) : Type 0 where
  count : ℕ
  some_digit : 1 ≤ count
  counts : (p : ℕ) → count_digits fuel base i p ≡ some (p + count)
  writes :
      (str : ℕ) (m : Memory)
      → (m' : Memory) × (write_digits fuel base i (str + count) m ≡ some m')
        × (value_of m' base str count ≡ i)
        × ((j : ℕ) → j < count → digit_value (m' (str + j)) < base)
        × (i ≢ 0 → digit_value (m' str) ≢ 0)
        × ((a : ℕ) → str + count ≤ a → m' a ≡ m a)
        × ((a : ℕ) → a < str → m' a ≡ m a)

module _ (base : ℕ) (low : 2 ≤ base) (high : base ≤ 36) where
  small : (i : ℕ) → i % base < 36
  small i = omega (arith, mod-lt i {m = base} (omega arith))

  halves : (fuel i : ℕ) → i < 2 ^ suc fuel → i / base < 2 ^ fuel
  halves fuel i h =
      omega (arith, pow-suc 2 fuel, mul-le-mul_left (i / base) low, div-add-mod' i base)

  digit : (i : ℕ) → digit_value (digit_char (i % base % 256)) ≡ i % base
  digit i =
      let byte : i % base % 256 ≡ i % base = omega (arith, small i) in
      rw byte (value-char (i % base) (small i))

  last-Converted : (fuel i : ℕ) → i / base ≡ 0 → Converted (suc fuel) base i
  unfolding count_digits write_digits value_of
  last-Converted fuel i e = record {
    count = 1;
    some_digit = omega arith;
    counts = λ p. rw e;
    writes = λ str m.
        let c = digit_char (i % base % 256) in
        let at : store8 m (str + 1 - 1) c str ≡ c = ground arith in
        let at' : store8 m (str + 1 - 1) c (str + 0) ≡ c = ground arith in
        let whole : i % base ≡ i = omega (arith, div-add-mod' i base, ap (λ (t : ℕ). t * base) e) in
        (
          store8 m (str + 1 - 1) (digit_char (i % base % 256)),
          rw e,
          omega (arith, ap digit_value at', digit i, whole),
          λ j l.
              let here : j ≡ 0 = omega (arith, l) in
              rw here
                (omega (arith, ap digit_value at', digit i, mod-lt i {m = base} (omega arith))),
          λ h z. h (omega (arith, ap digit_value at, digit i, whole, z)),
          λ a h. ground arith,
          λ a h. ground arith,
        );
  }

  more-Converted :
      (fuel i : ℕ) → i / base ≢ 0 → Converted fuel base (i / base) → Converted (suc fuel) base i
  unfolding count_digits write_digits value_of
  more-Converted fuel i ne c =
      let more : (i / base == 0) ≡ false = ground (arith, ne) in
      record {
        count = suc c.count;
        some_digit = omega arith;
        counts = λ p. rw more (c.counts (p + 1) ∙ ap some (omega arith));
        writes = λ str m.
            let d = digit_char (i % base % 256) in
            let start = store8 m (str + suc c.count - 1) d in
            let place : str + suc c.count - 1 ≡ str + c.count = omega arith in
            let (m', writes, value, digits, lead, behind, before) = c.writes str start in
            let last : m' (str + c.count) ≡ d =
              behind (str + c.count) (omega arith) ∙ ground (arith, place) in
            (
              m',
              rw (more, place) (rw place at writes),
              omega (
                arith,
                ap (λ (t : ℕ). t * base) value,
                ap digit_value last,
                digit i,
                div-add-mod' i base,
              ),
              λ j l. elim (Bool-cases (j == c.count)) [
                | inl e ↦
                    let here : j ≡ c.count = ground (arith, e) in
                    rw here (
                      omega
                        (arith, ap digit_value last, digit i, mod-lt i {m = base} (omega arith)))
                | inr e ↦ digits j (ground (arith, e, l))
              ],
              λ h. lead ne,
              λ a h. behind a (omega arith) ∙ ground (arith, h),
              λ a h. before a h ∙ ground (arith, h, c.some_digit),
            );
      }

  converts : (fuel i : ℕ) → i < 2 ^ fuel → 1 ≤ fuel → Converted fuel base i
  converts (suc fuel) i h k = elim (Bool-cases (i / base == 0)) [
    | inl e ↦ last-Converted fuel i (ground (arith, e))
    | inr e ↦
        let ne : i / base ≢ 0 = ground (arith, e) in
        let next = halves fuel i h in
        more-Converted fuel i ne (converts fuel (i / base) next (some_fuel fuel next ne))
  ]
    where
      some_fuel : (fuel : ℕ) → i / base < 2 ^ fuel → i / base ≢ 0 → 1 ≤ fuel
      some_fuel zero l n = absurd (omega (arith, l, n))
      some_fuel (suc f) l n = omega arith
  converts zero i h k = elim k [ ]

  -- In a base from 2 to 36, both loops end within 64 rounds, and the text they leave stands for the number:
  -- each of its characters is one of the base's digits '0' to '9' and 'A' to 'Z', with no zero in front,
  -- unless the number is 0, then a NUL; nothing before the text or behind its NUL changes.
  pub ulltoa_lem :
      (m : Memory) (number str : ℕ)
      → number < 2 ^ 64
      → (m' : Memory) × (k : ℕ) × (ulltoa 64 m number str base ≡ some m')
        × (value_of m' base str k ≡ number)
        × ((j : ℕ) → j < k → digit_value (m' (str + j)) < base)
        × (1 ≤ k)
        × (number ≢ 0 → digit_value (m' str) ≢ 0)
        × (m' (str + k) ≡ 0)
        × ((a : ℕ) → str + k < a → m' a ≡ m a)
        × ((a : ℕ) → a < str → m' a ≡ m a)
  unfolding ulltoa
  ulltoa_lem m number str fits =
      let c = converts 64 number fits (omega arith) in
      let (m', writes, value, digits, lead, behind, before) =
        c.writes str (store8 m (str + c.count) 0) in
      (
        m',
        c.count,
        rw (c.counts str) writes,
        value,
        digits,
        c.some_digit,
        lead,
        behind (str + c.count) (omega arith) ∙ ground arith,
        λ a h. behind a (omega arith) ∙ ground (arith, h),
        λ a h. before a h ∙ ground (arith, h),
      )
