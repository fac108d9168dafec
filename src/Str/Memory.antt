-- ===== src/Str/Memory.antt =====
-- The byte memory that the routines of src/stdlib/string.c work on, and its 64-bit accesses.
use asym.Base.{
  ℕ, zero, suc, ◌+◌, ◌-◌, ◌*◌, ◌/◌, ◌%◌, ◌^◌, ◌≤◌, ◌<◌, ◌≡◌, refl, ap, ◌∙◌, fun_ext, ◌⊎◌, ◌&&◌, [],
  ◌∷◌, arith, ltb, leb, ◌==◌, if◌then◌else◌, get_or,
}

-- A byte for each address. Addresses do not wrap: C makes no object across the top of memory.
abbrev pub Memory : Type 0
Memory = ℕ → ℕ

pub record IsBytes (m : Memory) : Type 0 where
  pub byte : (a : ℕ) → m a < 256

-- `*(uint8_t*)p = v`
abbrev pub store8 : Memory → ℕ → ℕ → Memory
store8 m p v a = if a == p then v else m a

-- `*(const uint64_t*)p`, least byte first
abbrev pub load64 : Memory → ℕ → ℕ
load64 m p =
    m p
    + 2 ^ 8 * m (p + 1)
    + 2 ^ 16 * m (p + 2)
    + 2 ^ 24 * m (p + 3)
    + 2 ^ 32 * m (p + 4)
    + 2 ^ 40 * m (p + 5)
    + 2 ^ 48 * m (p + 6)
    + 2 ^ 56 * m (p + 7)

-- byte `i` of a 64-bit value
abbrev pub byte_of : ℕ → ℕ → ℕ
byte_of v i = (v / 2 ^ (8 * i)) % 256

-- `*(uint64_t*)p = v`
abbrev pub store64 : Memory → ℕ → ℕ → Memory
store64 m p v a = if leb p a && ltb a (p + 8) then byte_of v (a - p) else m a

-- The bytes of `[d, d + n)` replaced by those that stood at `[s, s + n)`.
abbrev pub copied : Memory → ℕ → ℕ → ℕ → Memory
copied m d s n a = if leb d a && ltb a (d + n) then m (s + (a - d)) else m a

abbrev pub filled : Memory → ℕ → ℕ → ℕ → Memory
filled m d v n a = if leb d a && ltb a (d + n) then v else m a

-- The eight digits of a number in base 256.
digits :
    (a b c d e f g h i : ℕ)
    → a < 256
    → b < 256
    → c < 256
    → d < 256
    → e < 256
    → f < 256
    → g < 256
    → h < 256
    → i < 8
    → let v =
        a
        + 2 ^ 8 * b
        + 2 ^ 16 * c
        + 2 ^ 24 * d
        + 2 ^ 32 * e
        + 2 ^ 40 * f
        + 2 ^ 48 * g
        + 2 ^ 56 * h in
      byte_of v i ≡ get_or (a ∷ b ∷ c ∷ d ∷ e ∷ f ∷ g ∷ h ∷ []) i 0
digits a b c d e f g h zero ha hb hc hd he hf hg hh l = omega arith
digits a b c d e f g h (suc zero) ha hb hc hd he hf hg hh l = omega arith
digits a b c d e f g h (suc (suc zero)) ha hb hc hd he hf hg hh l = omega arith
digits a b c d e f g h (suc (suc (suc zero))) ha hb hc hd he hf hg hh l = omega arith
digits a b c d e f g h (suc (suc (suc (suc zero)))) ha hb hc hd he hf hg hh l = omega arith
digits a b c d e f g h (suc (suc (suc (suc (suc zero))))) ha hb hc hd he hf hg hh l = omega arith
digits a b c d e f g h (suc (suc (suc (suc (suc (suc zero)))))) ha hb hc hd he hf hg hh l =
    omega arith
digits a b c d e f g h (suc (suc (suc (suc (suc (suc (suc zero))))))) ha hb hc hd he hf hg hh l =
    omega arith
digits a b c d e f g h (suc (suc (suc (suc (suc (suc (suc (suc i)))))))) ha hb hc hd he hf hg hh l =
    absurd (omega arith)

nth :
    (m : Memory) (p i : ℕ)
    → i < 8
    → get_or
        (m p
          ∷ m (p + 1)
          ∷ m (p + 2)
          ∷ m (p + 3)
          ∷ m (p + 4)
          ∷ m (p + 5)
          ∷ m (p + 6)
          ∷ m (p + 7)
          ∷ [])
        i
        0
      ≡ m (p + i)
nth m p zero _ = ap m (omega arith)
nth m p (suc zero) _ = refl
nth m p (suc (suc zero)) _ = refl
nth m p (suc (suc (suc zero))) _ = refl
nth m p (suc (suc (suc (suc zero)))) _ = refl
nth m p (suc (suc (suc (suc (suc zero))))) _ = refl
nth m p (suc (suc (suc (suc (suc (suc zero)))))) _ = refl
nth m p (suc (suc (suc (suc (suc (suc (suc zero))))))) _ = refl
nth m p (suc (suc (suc (suc (suc (suc (suc (suc i)))))))) l = absurd (omega arith)

-- A 64-bit load and store moves eight bytes unchanged.
pub byte_of-load64 : (m : Memory) (p i : ℕ) → IsBytes m → i < 8 → byte_of (load64 m p) i ≡ m (p + i)
byte_of-load64 m p i b h =
    digits _ _ _ _ _ _ _ _ i (b.byte p) (b.byte _) (b.byte _) (b.byte _) (b.byte _) (b.byte _)
      (b.byte _) (b.byte _) h
    ∙ nth m p i h

-- `store64 m p (load64 m q)` is a copy of eight bytes.
pub store64-load64 : (m : Memory) (p q : ℕ) → IsBytes m → store64 m p (load64 m q) ≡ copied m p q 8
store64-load64 m p q b = fun_ext λ a. ground (arith, byte_of-load64 m q (a - p) b)

pub copied-IsBytes : {m : Memory} (d s n : ℕ) → IsBytes m → IsBytes (copied m d s n)
copied-IsBytes {m} d s n b = record { byte = λ a. ground (arith, b.byte a, b.byte (s + (a - d))) }

pub filled-IsBytes : {m : Memory} (d v n : ℕ) → v < 256 → IsBytes m → IsBytes (filled m d v n)
filled-IsBytes {m} d v n h b = record { byte = λ a. ground (arith, b.byte a) }

-- Copying on from a copy that did not reach the rest of the source: the destination lies below
-- the source, or wholly above it.
pub copied-copied :
    (m : Memory) (d s k n : ℕ)
    → (d ≤ s) ⊎ (s + k + n ≤ d)
    → copied (copied m d s k) (d + k) (s + k) n ≡ copied m d s (k + n)
copied-copied m d s k n apart = fun_ext λ a. ground arith

pub filled-filled :
    (m : Memory) (d v k n : ℕ) → filled (filled m d v k) (d + k) v n ≡ filled m d v (k + n)
filled-filled m d v k n = fun_ext λ a. ground arith
