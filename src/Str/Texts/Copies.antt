-- ===== src/Str/Texts/Copies.antt =====
-- strcpy, strncpy and strcat of src/stdlib/string.c.
use asym.Base.{
  ℕ, zero, suc, ◌+◌, ◌-◌, ◌≤◌, ◌<◌, ◌≡◌, ◌⊎◌, refl, ap, subst, ◌∙◌, arith, true, false, ◌&&◌, some,
  List, [], ◌∷◌, ◌++◌, length, ltb, leb, ◌==◌, if◌then◌else◌, Bool-cases, inl, inr,
}
use asym.Str.Memory.{Memory, store8}
use asym.Str.Texts.{Text}
unfoldable use asym.Str.Texts.{strcpy, fill_nul, strncpy, next_nul, strcat}

Text-same :
    (m k : Memory) (p : ℕ) (cs : List ℕ)
    → ((a : ℕ) → p ≤ a → a ≤ p + length cs → k a ≡ m a)
    → Text m p cs
    → Text k p cs
Text-same m k p [] h t = h p (omega arith) (omega arith) ∙ t
Text-same m k p (c ∷ cs) h t = (
  h p (omega arith) (omega arith) ∙ t.0,
  t.1,
  Text-same m k (p + 1) cs (λ a l r. h a (omega arith) (omega arith)) t.2,
)

-- The text at `dest`, and memory as it was elsewhere.
pub record Copied (m m' : Memory) (dest : ℕ) (cs : List ℕ) : Type 0 where
  pub text : Text m' dest cs
  pub elsewhere : (a : ℕ) → (a < dest) ⊎ (dest + length cs < a) → m' a ≡ m a

copies :
    (fuel : ℕ) (cs : List ℕ) (m : Memory) (dest src : ℕ)
    → Text m src cs
    → (dest + length cs < src) ⊎ (src + length cs < dest)
    → length cs < fuel
    → (m' : Memory) × (strcpy fuel m dest src ≡ some m') × Copied m m' dest cs
unfolding strcpy
copies (suc fuel) [] m dest src t apart lt =
    let here : (m src == 0) ≡ true = ground (arith, t) in
    (
      store8 m dest (m src),
      rw here refl,
      record { text = ground (arith, t); elsewhere = λ a h. ground (arith, h) },
    )
copies (suc fuel) (c ∷ cs) m dest src t apart lt =
    let ne = t.1 in
    let more : (m src == 0) ≡ false = ground (arith, t.0, ne) in
    let start = store8 m dest (m src) in
    let t' = Text-same m start (src + 1) cs (λ a l r. ground (arith, apart)) t.2 in
    let (m', e, cp) =
      copies fuel cs start (dest + 1) (src + 1) t' (ground (arith, apart)) (omega arith) in
    (
      m',
      rw more e,
      record {
        text = (cp.elsewhere dest (inl (omega arith)) ∙ ground (arith, t.0), ne, cp.text);
        elsewhere = λ a h.
            cp.elsewhere a (elim h [ inl l ↦ inl (omega arith) | inr g ↦ inr (omega arith) ])
            ∙ ground (arith, h);
      },
    )
copies zero cs m dest src t apart lt = elim lt [ ]

-- strcpy with one round for each character and one more ends, and leaves the text of `src` at `dest`
-- and all other memory as it was, where the two do not overlap.
pub strcpy_lem :
    (cs : List ℕ) (m : Memory) (dest src : ℕ)
    → Text m src cs
    → (dest + length cs < src) ⊎ (src + length cs < dest)
    → (m' : Memory) × (strcpy (length cs + 1) m dest src ≡ some m') × Copied m m' dest cs
strcpy_lem cs m dest src t apart = copies (length cs + 1) cs m dest src t apart (omega arith)

fill_nul_lem :
    (count : ℕ) (m : Memory) (dest a : ℕ)
    → fill_nul count m dest a ≡ (if leb dest a && ltb (a + 1) (dest + count) then 0 else m a)
unfolding fill_nul
fill_nul_lem zero m dest a = ground arith
fill_nul_lem (suc zero) m dest a = ground arith
fill_nul_lem (suc (suc count)) m dest a =
    fill_nul_lem (suc count) (store8 m dest 0) (dest + 1) a ∙ ground arith

-- the character at `i`, NUL behind the end
abbrev pub char_at : List ℕ → ℕ → ℕ
char_at [] i = 0
char_at (c ∷ cs) zero = c
char_at (c ∷ cs) (suc i) = char_at cs i

-- strncpy writes exactly `count` bytes: the characters of `src`, as many as fit, and NUL for the rest.
-- Nothing else changes; where the text has `count` characters or more, no NUL ends the copy.
pub strncpy_lem :
    (count : ℕ) (cs : List ℕ) (m : Memory) (dest src a : ℕ)
    → Text m src cs
    → (dest + count ≤ src) ⊎ (src + length cs < dest)
    → strncpy m dest src count a
      ≡ (if leb dest a && ltb a (dest + count) then char_at cs (a - dest) else m a)
unfolding strncpy
strncpy_lem zero cs m dest src a t apart = ground arith
strncpy_lem (suc count) [] m dest src a t apart =
    let here : (m src == 0) ≡ true = ground (arith, t) in
    rw here (fill_nul_lem (suc count) (store8 m dest (m src)) (dest + 1) a ∙ ground (arith, t))
strncpy_lem (suc count) (c ∷ cs) m dest src a t apart =
    let ne = t.1 in
    let more : (m src == 0) ≡ false = ground (arith, t.0, ne) in
    let start = store8 m dest (m src) in
    let t' = Text-same m start (src + 1) cs (λ a l r. ground (arith, apart)) t.2 in
    rw more
      (strncpy_lem count cs start (dest + 1) (src + 1) a t' (ground (arith, apart)) ∙ last_step)
  where
    last_step :
        (if leb (dest + 1) a && ltb a (dest + 1 + count)
          then char_at cs (a - (dest + 1))
          else store8 m dest (m src) a)
        ≡ (if leb dest a && ltb a (dest + suc count) then char_at (c ∷ cs) (a - dest) else m a)
    last_step = elim (Bool-cases (leb a dest)) [
      | inl q ↦
          let z : a - dest ≡ 0 = ground (arith, q) in
          ground (arith, q, t.0, ap (char_at (c ∷ cs)) z)
      | inr q ↦
          let z : a - dest ≡ suc (a - (dest + 1)) = ground (arith, q) in
          ground (arith, q, ap (char_at (c ∷ cs)) z)
    ]

nul_after :
    (cs : List ℕ) (fuel : ℕ) (m : Memory) (dest : ℕ)
    → Text m (dest + 1) cs
    → length cs < fuel
    → next_nul fuel m dest ≡ some (dest + 1 + length cs)
unfolding next_nul
nul_after [] (suc fuel) m dest t lt =
    let here : (m (dest + 1) == 0) ≡ true = ground (arith, t) in rw here (ap some (omega arith))
nul_after (c ∷ cs) (suc fuel) m dest t lt =
    let ne = t.1 in
    let more : (m (dest + 1) == 0) ≡ false = ground (arith, t.0, ne) in
    rw more (nul_after cs fuel m (dest + 1) t.2 (omega arith) ∙ ap some (omega arith))
nul_after cs zero m dest t lt = elim lt [ ]

Text-append :
    (m k : Memory) (p : ℕ) (xs ys : List ℕ)
    → ((a : ℕ) → a < p + length xs → k a ≡ m a)
    → Text m p xs
    → Text k (p + length xs) ys
    → Text k p (xs ++ ys)
Text-append m k p [] ys h t u = subst (λ q. Text k q ys) (omega arith) u
Text-append m k p (x ∷ xs) ys h t u = (
  h p (omega arith) ∙ t.0,
  t.1,
  Text-append m k (p + 1) xs ys (λ a l. h a (omega arith)) t.2
      (subst (λ q. Text k q ys) (omega arith) u),
)

-- strcat with as many rounds as the longer text has characters, and one more, ends, and leaves the two
-- texts joined at `dest`, where the text of `src` does not overlap with the place for both.
pub strcat_lem :
    (xs ys : List ℕ) (fuel : ℕ) (m : Memory) (dest src : ℕ)
    → Text m dest xs
    → Text m src ys
    → (dest + length xs + length ys < src) ⊎ (src + length ys < dest)
    → length xs < fuel
    → length ys < fuel
    → (m' : Memory) × (strcat fuel m dest src ≡ some m') × Text m' dest (xs ++ ys)
unfolding strcat
strcat_lem [] ys fuel m dest src t u apart lt lt' =
    let none_there : (m dest == 0) ≡ true = ground (arith, t) in
    let (m', e, cp) = copies fuel ys m dest src u (ground (arith, apart)) lt' in
    (m', rw none_there e, cp.text)
strcat_lem (x ∷ xs) ys fuel m dest src t u apart lt lt' =
    let ne = t.1 in
    let some_there : (m dest == 0) ≡ false = ground (arith, t.0, ne) in
    let (m', e, cp) = copies fuel ys m (dest + suc (length xs)) src u (ground (arith, apart)) lt' in
    let place : dest + 1 + length xs ≡ dest + suc (length xs) = omega arith in
    (
      m',
      rw (some_there, nul_after xs fuel m dest t.2 (omega arith), place) e,
      Text-append m m' dest (x ∷ xs) ys (λ a l. cp.elsewhere a (inl l)) t cp.text,
    )
