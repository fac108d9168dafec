-- ===== src/Str/Texts/Compare.antt =====
-- strcmp and memcmp of src/stdlib/string.c.
use asym.Base.{
  ℕ, zero, suc, ◌+◌, ◌<◌, ◌≡◌, ◌≢◌, ◌↔◌, refl, sym, ap, ap₂, ◌∙◌, arith, false, Option, some, List,
  [], ◌∷◌, length, ◌==◌, Bool-cases, inl, inr,
}
use asym.Str.Memory.{Memory, IsBytes}
use asym.Str.Texts.{Text, difference}
unfoldable use asym.Str.Texts.{strcmp, memcmp}

differ : (x y : ℕ) → x < 256 → y < 256 → x ≢ y → difference x y ≢ 0
differ x y hx hy ne = omega (arith, ne)

-- What strcmp finds: 0 exactly for equal texts.
record Compared (r : Option ℕ) (Same : Type 0) : Type 0 where
  result : ℕ
  returns : r ≡ some result
  equal : (result ≡ 0) ↔ Same

tail_eq : {c d : ℕ} {cs ds : List ℕ} → c ∷ cs ≡ d ∷ ds → (c ≡ d) × (cs ≡ ds)
tail_eq {c} {cs} e = (ap (λ l. head_or l c) e, ap (λ l. tail_or l) e)
  where
    head_or : List ℕ → ℕ → ℕ
    head_or [] d = d
    head_or (x ∷ xs) d = x

    tail_or : List ℕ → List ℕ
    tail_or [] = []
    tail_or (x ∷ xs) = xs

compares :
    (cs ds : List ℕ) (fuel : ℕ) (m : Memory) (a b : ℕ)
    → IsBytes m
    → Text m a cs
    → Text m b ds
    → length cs < fuel
    → Compared (strcmp fuel m a b) (cs ≡ ds)
unfolding strcmp
compares [] [] (suc fuel) m a b w s t lt = record {
  result = 0;
  returns = rw (s, t) refl;
  equal = (λ e. refl, λ e. refl);
}
compares [] (d ∷ ds) (suc fuel) m a b w s t lt = record {
  result = difference 0 d;
  returns = rw (s, t.0) refl;
  equal = (
    λ e. absurd (differ 0 d (omega arith) (omega (arith, w.byte b, t.0)) (λ z. t.1 (sym z)) e),
    λ e. absurd (ground (arith, e)),
  );
}
compares (c ∷ cs) [] (suc fuel) m a b w s t lt =
    let ne = s.1 in
    let stop : (m a == m b) ≡ false = ground (arith, s.0, t, ne) in
    let some_char : (m a == 0) ≡ false = ground (arith, s.0, ne) in
    record {
      result = difference (m a) (m b);
      returns = rw (some_char, stop) refl;
      equal = (
        λ e. absurd (differ (m a) (m b) (w.byte a) (w.byte b) (omega (arith, s.0, t, ne)) e),
        λ e. absurd (ground (arith, e)),
      );
    }
compares (c ∷ cs) (d ∷ ds) (suc fuel) m a b w s t lt =
    let ne = s.1 in
    let some_char : (m a == 0) ≡ false = ground (arith, s.0, ne) in
    elim (Bool-cases (m a == m b)) [
      | inl e ↦
          let r = compares cs ds fuel m (a + 1) (b + 1) w s.2 t.2 (omega arith) in
          let same : c ≡ d = ground (arith, e, s.0, t.0) in
          record {
            result = r.result;
            returns = rw (some_char, e) r.returns;
            equal = (λ z. ap₂ (λ x y. x ∷ y) same (r.equal.0 z), λ z. r.equal.1 (tail_eq z).1);
          }
      | inr e ↦
          let apart : m a ≢ m b = ground (arith, e) in
          record {
            result = difference (m a) (m b);
            returns = rw (some_char, e) refl;
            equal = (
              λ z. absurd (differ (m a) (m b) (w.byte a) (w.byte b) apart z),
              λ z. absurd (apart (s.0 ∙ (tail_eq z).0 ∙ sym t.0)),
            );
          }
    ]
compares cs ds zero m a b w s t lt = elim lt [ ]

-- strcmp with one round for each character of the first text and one more ends, and returns 0 exactly
-- where the two texts are equal.
pub strcmp_lem :
    (cs ds : List ℕ) (m : Memory) (a b : ℕ)
    → IsBytes m
    → Text m a cs
    → Text m b ds
    → (r : ℕ) × (strcmp (length cs + 1) m a b ≡ some r) × ((r ≡ 0) ↔ (cs ≡ ds))
strcmp_lem cs ds m a b w s t =
    let c = compares cs ds (length cs + 1) m a b w s t (omega arith) in
    (c.result, c.returns, c.equal)

-- memcmp returns 0 exactly where the `count` bytes are equal.
pub memcmp_iff :
    (count : ℕ) (m : Memory) (a b : ℕ)
    → IsBytes m
    → (memcmp m a b count ≡ 0) ↔ ((i : ℕ) → i < count → m (a + i) ≡ m (b + i))
unfolding memcmp
memcmp_iff zero m a b w = (λ e i lt. elim lt [ ], λ h. refl)
memcmp_iff (suc count) m a b w = elim (Bool-cases (m a == m b)) [
  | inl e ↦
      let (from, to) = memcmp_iff count m (a + 1) (b + 1) w in
      let first : m a ≡ m b = ground (arith, e) in
      rw e (λ z i lt. each first (from z) i lt, λ h. to (λ i lt. moved h i lt))
  | inr e ↦
      let apart : m a ≢ m b = ground (arith, e) in
      rw e (
        λ z. absurd (differ (m a) (m b) (w.byte a) (w.byte b) apart z),
        λ h. absurd (apart (first_byte h)),
      )
]
  where
    each :
        m a ≡ m b
        → ((i : ℕ) → i < count → m (a + 1 + i) ≡ m (b + 1 + i))
        → (i : ℕ) → i < suc count
        → m (a + i) ≡ m (b + i)
    each first h zero lt = ap m (omega arith) ∙ first ∙ ap m (omega arith)
    each first h (suc i) lt = ap m (omega arith) ∙ h i (omega arith) ∙ ap m (omega arith)

    moved :
        ((i : ℕ) → i < suc count → m (a + i) ≡ m (b + i))
        → (i : ℕ) → i < count
        → m (a + 1 + i) ≡ m (b + 1 + i)
    moved h i lt = ap m (omega arith) ∙ h (suc i) (omega arith) ∙ ap m (omega arith)

    first_byte : ((i : ℕ) → i < suc count → m (a + i) ≡ m (b + i)) → m a ≡ m b
    first_byte h = ap m (omega arith) ∙ h 0 (omega arith) ∙ ap m (omega arith)
