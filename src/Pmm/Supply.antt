-- ===== src/Pmm/Supply.antt =====
-- pmm_alloc and pmm_free of src/kernel/pmm.c as a supply of different pages.
use asym.Base.{
  ℕ, suc, ◌+◌, ◌%◌, ◌≤◌, ◌<◌, ◌≡◌, ◌≢◌, ◌⊎◌, refl, sym, subst, ◌∙◌, ap, arith, List, [], ◌∷◌, ◌++◌,
  length, leb, ◌==◌, if◌then◌else◌, round_down, word, Bool-cases, inl, inr,
}
use asym.Pmm.Stack.{PageBuffer, page_stack_alloc, page_stack_free, page_buffer_max}
use asym.Pmm.Stack.Lifo.{
  NotIn, Distinct, IsValid, held, contents, recorded, tail, left_after, chain_left, chain_after,
  page_stack_alloc-held, page_stack_free-held,
}
use asym.Pmm.Bitmap.Reserve.{page_bitmap_free-amount}
use asym.Pmm.Bitmap.{done, page_size, higher_half, max_special_addr}
use asym.Pmm.{
  Pmm, stack_of, bitmap_of, with_stack, with_bitmap, pmm_alloc, pmm_free_unlocked, pmm_free, freed,
  allocated,
}

-- an address in the higher half at which a page starts
pub record IsPage (address : ℕ) : Type 0 where
  pub aligned : address % page_size ≡ 0
  pub high : higher_half ≤ address
  pub fits : address < word

abbrev pub EachPage : List ℕ → Type 0
EachPage [] = Unit
EachPage (a ∷ xs) = IsPage a × EachPage xs

-- The page stack holds `xs`, which are different pages.
pub record Supply (p : Pmm) (xs : List ℕ) : Type 0 where
  pub chain : List ℕ
  pub valid : IsValid (stack_of p) chain
  pub holds : held (stack_of p) chain ≡ xs
  pub distinct : Distinct xs
  pub each_page : EachPage xs

-- What is left once a page is taken: fewer pages by one or two, and none that was not there.
pub record Taken (p : Pmm) (a : ℕ) (xs : List ℕ) : Type 0 where
  pub pmm : Pmm
  pub rest : List ℕ
  pub returns : pmm_alloc p ≡ done (a, pmm)
  pub supply : Supply pmm rest
  pub enough : length xs ≤ suc (length rest)
  pub others : (x : ℕ) → NotIn x xs → NotIn x rest
  pub page : IsPage a
  pub gone : NotIn a rest

abbrev Kept : List ℕ → List ℕ → Type 0
Kept xs ys =
    (Distinct xs → Distinct ys)
    × (EachPage xs → EachPage ys)
    × (length xs ≤ suc (length ys))
    × ((x : ℕ) → NotIn x xs → NotIn x ys)

tail-Kept : (xs : List ℕ) → Kept xs (tail xs)
tail-Kept [] = (λ d. d, λ d. d, omega arith, λ x n. n)
tail-Kept (a ∷ xs) = (λ d. d.1, λ d. d.1, omega arith, λ x n. n.1)

left-Kept : (i : ℕ) (xs : List ℕ) → Kept xs (if i == 0 then tail xs else xs)
left-Kept i xs = elim (Bool-cases (i == 0)) [
  | inl e ↦ rw e (tail-Kept xs)
  | inr e ↦ rw e (λ d. d, λ d. d, omega arith, λ x n. n)
]

pub pmm_alloc-Supply : (p : Pmm) (a : ℕ) (xs : List ℕ) → Supply p (a ∷ xs) → Taken p a xs
unfolding pmm_alloc
pmm_alloc-Supply p a xs h =
    let (gives, valid, left, amount) =
      page_stack_alloc-held (stack_of p) h.chain a xs h.valid h.holds in
    let (distinct, pages, enough, others) = left-Kept p.stack.index xs in
    record {
      pmm = with_stack p (page_stack_alloc (stack_of p)).1;
      rest = left_after (stack_of p) xs;
      returns = rw (gives, allocated);
      supply = record {
        chain = chain_left (stack_of p) h.chain;
        valid = valid;
        holds = left;
        distinct = distinct h.distinct.1;
        each_page = pages h.each_page.1;
      };
      enough = enough;
      others = others;
      page = h.each_page.0;
      gone = others a h.distinct.0;
    }

NotIn-append : (x : ℕ) (xs ys : List ℕ) → NotIn x (xs ++ ys) → NotIn x ys
NotIn-append x [] ys n = n
NotIn-append x (a ∷ xs) ys n = NotIn-append x xs ys n.1

-- What the stack does not hold is none of its buffers.
NotIn-chain :
    (buffers : ℕ → PageBuffer) (x : ℕ) (bs : List ℕ) (i : ℕ)
    → NotIn x (contents buffers bs i)
    → NotIn x bs
NotIn-chain buffers x [] i n = tt
NotIn-chain buffers x (b ∷ bs) i n =
    let m =
      NotIn-append x (recorded (buffers b).pages i) (b ∷ contents buffers bs page_buffer_max) n in
    (m.0, NotIn-chain buffers x bs page_buffer_max m.1)

abbrev pub IsAmong : ℕ → List ℕ → Type 0
IsAmong x [] = ⊥
IsAmong x (a ∷ xs) = (a ≡ x) ⊎ IsAmong x xs

-- What is there once a page is given back.
pub record Given (p : Pmm) (a : ℕ) (xs : List ℕ) : Type 0 where
  pub pmm : Pmm
  pub rest : List ℕ
  pub returns : pmm_free p a ≡ done pmm
  pub supply : Supply pmm rest
  pub others : (x : ℕ) → x ≢ a → NotIn x xs → NotIn x rest
  pub keeps : (x : ℕ) → IsAmong x xs → IsAmong x rest
  pub given_back : max_special_addr + higher_half ≤ a → IsAmong a rest

-- A page is given back to the stack, or to the bitmap when it is below 1 MiB.
pub pmm_free-Supply :
    (p : Pmm) (a : ℕ) (xs : List ℕ) → Supply p xs → IsPage a → NotIn a xs → Given p a xs
unfolding pmm_free pmm_free_unlocked
pmm_free-Supply p a xs h page n =
    let whole : round_down a page_size ≡ a = omega (arith, page.aligned, page.fits) in
    elim (Bool-cases (leb (max_special_addr + higher_half) a)) [
      | inl e ↦
          let apart =
            NotIn-chain p.stack.buffers a h.chain p.stack.index (subst (NotIn a) (sym h.holds) n) in
          let (valid, holds) = page_stack_free-held (stack_of p) a h.chain h.valid apart in
          record {
            pmm = with_stack p (page_stack_free (stack_of p) a);
            rest = a ∷ xs;
            returns = rw (whole, e);
            supply = record {
              chain = chain_after (stack_of p) a h.chain;
              valid = valid;
              holds = holds ∙ ap (◌∷◌ a) h.holds;
              distinct = (n, h.distinct);
              each_page = (page, h.each_page);
            };
            others = λ x ne m. (λ q. ne (sym q), m);
            keeps = λ x m. inr m;
            given_back = λ high. inl refl;
          }
      | inr e ↦
          let (b, returns, amount) =
            page_bitmap_free-amount (bitmap_of p) a page.high (ground arith) in
          record {
            pmm = with_bitmap p b;
            rest = xs;
            returns = rw (whole, e, returns, freed);
            supply = record {
              chain = h.chain;
              valid = record {
                linked = h.valid.linked;
                distinct = h.valid.distinct;
                index_in = h.valid.index_in;
              };
              holds = h.holds;
              distinct = h.distinct;
              each_page = h.each_page;
            };
            others = λ x ne m. m;
            keeps = λ x m. m;
            given_back = λ high. absurd (ground (arith, e, high));
          }
    ]
