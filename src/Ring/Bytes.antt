-- ===== src/Ring/Bytes.antt =====
-- Runs of bytes as lists.
use asym.Base.{ℕ, zero, suc, ◌+◌, ◌<◌, ◌≡◌, refl, ap, ap₂, ◌∙◌, List, [], ◌∷◌, ◌++◌, arith, length}
use asym.Str.Memory.{Memory}

abbrev pub tabulate : ℕ → (ℕ → ℕ) → List ℕ
tabulate zero f = []
tabulate (suc n) f = f 0 ∷ tabulate n (λ k. f (suc k))

-- the `n` bytes from address `p`
abbrev pub bytes : Memory → ℕ → ℕ → List ℕ
bytes m p n = tabulate n (λ k. m (p + k))

pub length-tabulate : (n : ℕ) (f : ℕ → ℕ) → length (tabulate n f) ≡ n
length-tabulate zero f = refl
length-tabulate (suc n) f = ap suc (length-tabulate n (λ k. f (suc k)))

pub tabulate-ext :
    (n : ℕ) (f g : ℕ → ℕ) → ((k : ℕ) → k < n → f k ≡ g k) → tabulate n f ≡ tabulate n g
tabulate-ext zero f g h = refl
tabulate-ext (suc n) f g h =
    ap₂ ◌∷◌ (h 0 (omega arith)) (tabulate-ext n _ _ (λ k l. h (suc k) (omega arith)))

pub tabulate-add :
    (a b c : ℕ) (f : ℕ → ℕ) → c ≡ a + b → tabulate c f ≡ tabulate a f ++ tabulate b (λ k. f (a + k))
tabulate-add zero b c f e =
    let e' : c ≡ b = omega arith in rw e' (tabulate-ext b f _ (λ k l. ap f (omega arith)))
tabulate-add (suc a) b c f e =
    let e' : c ≡ suc (a + b) = omega arith in
    rw e' (
      ap (◌∷◌ (f 0)) (
        tabulate-add a b (a + b) (λ k. f (suc k)) refl
        ∙ ap (◌++◌ (tabulate a (λ k. f (suc k)))) (tabulate-ext b _ _ (λ k l. ap f (omega arith)))))
