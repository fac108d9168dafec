-- ===== src/Pmm/Memory.antt =====
-- pmm_load_memory and the frees and allocations of src/kernel/pmm.c as its callers see them.
use asym.Base.{
  ℕ, zero, suc, ◌+◌, ◌*◌, ◌%◌, ◌≤◌, ◌<◌, ◌≡◌, refl, ◌∙◌, subst, arith, List, [], ◌∷◌, leb,
  if◌then◌else◌, add64, round_down, word, Bool-cases, inl, inr,
}
use asym.Pmm.Stack.{page_stack_alloc, page_stack_free}
use asym.Pmm.Stack.Faults.{page_stack_alloc-free, amount-page_stack_free}
use asym.Pmm.Bitmap.Reserve.{page_bitmap_free-amount}
use asym.Pmm.Bitmap.{Outcome, done, page_size, higher_half, max_special_addr}
use asym.Pmm.{
  Pmm, MemDesc, stack_of, bitmap_of, with_stack, with_bitmap, pmm_alloc, pmm_free_unlocked,
  pmm_free, free_pages_from, pmm_free_pages_unlocked, is_memory_avail, pmm_load_memory, freed,
  allocated, detected, ◌>>=◌,
}

-- A page at or above 1 MiB that is freed is the next that pmm_alloc returns.
pub pmm_alloc-free :
    (p : Pmm) (address : ℕ)
    → max_special_addr + higher_half ≤ address
    → address < word
    → (q : Pmm) × (r : Pmm) × (pmm_free p address ≡ done q)
      × (pmm_alloc q ≡ done (round_down address page_size, r))
unfolding pmm_free pmm_free_unlocked pmm_alloc
pmm_alloc-free p address low high =
    let s' = page_stack_free (stack_of p) (round_down address page_size) in
    (
      with_stack p s',
      with_stack (with_stack p s') (page_stack_alloc s').1,
      ground arith,
      rw (page_stack_alloc-free (stack_of p) (round_down address page_size), allocated),
    )

-- What a free leaves: one page more, and the detected amount as it was.
record Counted (p : Pmm) (n : ℕ) (r : Outcome Pmm) : Type 0 where
  result : Pmm
  returns : r ≡ done result
  free_page_amount : result.free_page_amount ≡ (p.free_page_amount + n) % word
  page_amount : result.page_amount ≡ p.page_amount

pmm_free_unlocked-Counted :
    (p : Pmm) (address : ℕ)
    → higher_half ≤ address
    → address < word
    → Counted p 1 (pmm_free_unlocked p address)
unfolding pmm_free_unlocked
pmm_free_unlocked-Counted p address low high =
    elim (Bool-cases (leb (max_special_addr + higher_half) address)) [
      | inl e ↦ rw e (record {
        result = with_stack p (page_stack_free (stack_of p) address);
        returns = refl;
        free_page_amount = amount-page_stack_free (stack_of p) address;
        page_amount = refl;
      })
      | inr e ↦
          let (b, returns, amount) =
            page_bitmap_free-amount (bitmap_of p) address low (ground arith) in
          rw (e, returns, freed)
            (record {
              result = with_bitmap p b;
              returns = refl;
              free_page_amount = amount;
              page_amount = refl;
            })
    ]

Counted-then :
    (p : Pmm) (n k : ℕ) (m : Outcome Pmm) (f : Pmm → Outcome Pmm)
    → Counted p n m
    → ((q : Pmm) → q.free_page_amount < word → Counted q k (f q))
    → Counted p (n + k) (m >>= f)
Counted-then p n k m f c next =
    let d = next c.result (omega (arith, c.free_page_amount)) in
    rw c.returns (record {
      result = d.result;
      returns = d.returns;
      free_page_amount = omega (arith, d.free_page_amount, c.free_page_amount);
      page_amount = d.page_amount ∙ c.page_amount;
    })

free_pages_from-Counted :
    (n : ℕ) (p : Pmm) (address i : ℕ)
    → p.free_page_amount < word
    → higher_half ≤ address
    → address + (i + n) * page_size < word
    → Counted p n (free_pages_from n p address i)
unfolding free_pages_from
free_pages_from-Counted zero p address i w low high = record {
  result = p;
  returns = refl;
  free_page_amount = omega arith;
  page_amount = refl;
}
free_pages_from-Counted (suc n) p address i w low high =
    let one_plus : 1 + n ≡ suc n = omega arith in
    subst (λ k. Counted p k (free_pages_from (suc n) p address i)) one_plus
      (Counted-then p 1 n _ _ (pmm_free_unlocked-Counted p _ (omega arith) (omega arith))
        (λ q w'. free_pages_from-Counted n q address (i + 1) w' low (omega arith)))

-- the pages of the descriptors that `is_memory_avail` accepts, and of all descriptors
abbrev pub available : List MemDesc → ℕ
available [] = 0
available (d ∷ ds) = (if is_memory_avail d.kind then d.amount_of_pages else 0) + available ds

abbrev pub total : List MemDesc → ℕ
total [] = 0
total (d ∷ ds) = d.amount_of_pages + total ds

-- Every region ends inside the half of the address space that the kernel maps memory to.
abbrev pub AllLow : List MemDesc → Type 0
AllLow [] = Unit
AllLow (d ∷ ds) =
    (d.physical_start + d.amount_of_pages * page_size + higher_half < word) × AllLow ds

free_desc-Counted :
    (p : Pmm) (d : MemDesc)
    → p.free_page_amount < word
    → d.physical_start + d.amount_of_pages * page_size + higher_half < word
    → Counted p (if is_memory_avail d.kind then d.amount_of_pages else 0) (
        if is_memory_avail d.kind
        then pmm_free_pages_unlocked p (add64 d.physical_start higher_half) d.amount_of_pages
        else done p)
unfolding pmm_free_pages_unlocked
free_desc-Counted p d w h = elim (Bool-cases (is_memory_avail d.kind)) [
  | inl e ↦ rw e (free_pages_from-Counted d.amount_of_pages p _ 0 w (omega arith) (omega arith))
  | inr e ↦
      rw e
        (record { result = p; returns = refl; free_page_amount = omega arith; page_amount = refl })
]

-- Loading a memory map whose regions lie in low memory returns without a failed assertion, with every
-- page of the available regions counted as free, and every page of the map as detected.
pub pmm_load_memory-amounts :
    (p : Pmm) (ds : List MemDesc)
    → p.free_page_amount < word
    → p.page_amount < word
    → AllLow ds
    → (q : Pmm) × (pmm_load_memory p ds ≡ done q)
      × (q.free_page_amount ≡ (p.free_page_amount + available ds) % word)
      × (q.page_amount ≡ (p.page_amount + total ds) % word)
unfolding pmm_load_memory
pmm_load_memory-amounts p [] w w' h = (p, refl, omega arith, omega arith)
pmm_load_memory-amounts p (d ∷ ds) w w' h =
    let c = free_desc-Counted p d w h.0 in
    let (q, returns, free, pages) =
      pmm_load_memory-amounts (detected c.result d.amount_of_pages) ds
        (omega (arith, c.free_page_amount)) (omega arith) h.1 in
    rw c.returns
      (q, returns, omega (arith, free, c.free_page_amount), omega (arith, pages, c.page_amount))
