-- ===== src/Heap/Malloc.antt =====
-- `malloc_unlocked` of src/stdlib/stdlib.c.
use asym.Base.{
  ℕ, ◌+◌, ◌-◌, ◌*◌, ◌/◌, ◌≤◌, ◌<◌, ◌≡◌, refl, sym, ◌∙◌, ap, append-nil, subst, subst₂, Bool, true,
  false, List, [], ◌∷◌, ◌++◌, arith, Option, none, some, if_cases, ltb, ◌==◌, word, add64, round_up,
}
use asym.Heap.{
  Block, Heap, header_size, heap_alignment, page_size, start, reserve, block_split, block_new,
  behind, place, extend, placed, malloc_unlocked,
}
use asym.Heap.Blocks.{
  Between, IsValid, live, Inserted, Between-append, Between-le, live-append, Inserted-cons,
  live_used, live_unused,
}

abbrev Placed : List Block → ℕ → ℕ → ℕ → Option (ℕ × List Block) → Type 0
Placed bs size low high none = Unit
Placed bs size low high (some (p, bs')) =
    Between low bs' high × Inserted p size (live bs) (live bs')

-- A block in front that stays as it is.
behind-Placed :
    (b : Block) (bs : List Block) (size low high : ℕ) (r : Option (ℕ × List Block))
    → low ≤ b.address
    → Placed bs size (b.address + header_size + b.size) high r
    → Placed (b ∷ bs) size low high (behind b r)
behind-Placed b bs size low high none l h = tt
behind-Placed b bs size low high (some (p, bs')) l h = ((l, h.0), kept b.reserved refl)
  where
    kept : (r : Bool) → b.reserved ≡ r → Inserted p size (live (b ∷ bs)) (live (b ∷ bs'))
    kept true e =
        subst₂ (Inserted p size) (sym (live_used b bs e)) (sym (live_used b bs' e))
          (Inserted-cons p size b h.1)
    kept false e =
        subst₂ (Inserted p size) (sym (live_unused b bs e)) (sym (live_unused b bs' e)) h.1

-- A free block in front that is taken.
taken :
    (b : Block) (bs made : List Block) (size : ℕ)
    → b.reserved ≡ false
    → live made ≡ record b { size = size; reserved = true } ∷ []
    → Inserted (start b) size (live (b ∷ bs)) (live (made ++ bs))
taken b bs made size e l = record {
  before = [];
  block = record b { size = size; reserved = true };
  after = live bs;
  was = live_unused b bs e;
  now = rw (live-append made bs, l);
  starts = refl;
  fits = omega arith;
}

live-block_split :
    (b : Block) (size : ℕ)
    → live (block_split (reserve b) size) ≡ record b { size = size; reserved = true } ∷ []
unfolding block_split
live-block_split b size = refl

Between-block_split :
    (b : Block) (size low high : ℕ)
    → low ≤ b.address
    → size + header_size ≤ b.size
    → b.address + header_size + b.size ≤ high
    → high < word
    → Between low (block_split (reserve b) size) (b.address + header_size + b.size)
unfolding block_split
Between-block_split b size low high l fits h top = omega arith

place-Placed :
    (size : ℕ) (bs : List Block) (low high : ℕ)
    → size + 128 < word
    → high < word
    → Between low bs high
    → Placed bs size low high (place size bs)
unfolding place
place-Placed size [] low high small top h = tt
place-Placed size (b ∷ bs) low high small top h =
    let skip =
      behind-Placed b bs size low high (place size bs) h.0
        (place-Placed size bs (b.address + header_size + b.size) high small top h.1) in
    if_cases (Placed (b ∷ bs) size low high) b.reserved _ _ (λ used. skip)
      λ unused.
        if_cases (Placed (b ∷ bs) size low high) (b.size == size) _ _ (λ same. whole unused same)
          λ differs.
            if_cases (Placed (b ∷ bs) size low high)
              (ltb (add64 (add64 size header_size) heap_alignment) b.size) _ _
              (λ roomy. front unused roomy) (λ tight. skip)
  where
    whole :
        b.reserved ≡ false
        → (b.size == size) ≡ true
        → Placed (b ∷ bs) size low high (some (start b, reserve b ∷ bs))
    whole unused same =
        let e : b.size ≡ size = ground arith in
        (
          h,
          taken b bs (reserve b ∷ []) size unused
              (ap (λ (k : ℕ). record { address = b.address; size = k; reserved = true } ∷ []) e),
        )

    front :
        b.reserved ≡ false
        → ltb (add64 (add64 size header_size) heap_alignment) b.size ≡ true
        → Placed (b ∷ bs) size low high (some (start b, block_split (reserve b) size ++ bs))
    front unused roomy =
        let fits : size + 128 < b.size = ground arith in
        let ends = Between-le bs (b.address + header_size + b.size) high h.1 in
        (
          Between-append (block_split (reserve b) size) low (b.address + header_size + b.size) high
              bs (Between-block_split b size low high h.0 (omega arith) ends top) h.1,
          taken b bs (block_split (reserve b) size) size unused (live-block_split b size),
        )

-- What `malloc_unlocked` promises of the pointer that it returns and of the heap that it leaves.
pub record Allocated (h : Heap) (size : ℕ) (result : Option ℕ × Heap) : Type 0 where
  pub pointer : ℕ
  pub returns : result.0 ≡ some pointer
  pub valid : IsValid result.1
  pub inserted : Inserted pointer size (live h.blocks) (live result.1.blocks)

-- The list of the new blocks, at the end of the chain.
appended :
    (h : Heap) (b : Block) (made : List Block) (size high : ℕ)
    → IsValid h
    → high < word
    → Between h.new_address made high
    → live made ≡ b ∷ []
    → size ≤ b.size
    → Allocated h size (some (start b), record { blocks = h.blocks ++ made; new_address = high })
appended h b made size high v top k l fits = record {
  pointer = start b;
  returns = refl;
  valid = record {
    between = Between-append h.blocks 0 h.new_address high made v.between k;
    below_top = top;
  };
  inserted = record {
    before = live h.blocks;
    block = b;
    after = [];
    was = sym (append-nil (live h.blocks));
    now = live-append h.blocks made ∙ ap (◌++◌ (live h.blocks)) l;
    starts = refl;
    fits = fits;
  };
}

extend-Allocated :
    (h : Heap) (size : ℕ)
    → IsValid h
    → h.new_address + size + 2 * page_size < word
    → Allocated h size (extend h size)
unfolding extend block_new
extend-Allocated h size v room =
    if_cases
      (λ made.
        Allocated h size (some (start b), record { blocks = h.blocks ++ made; new_address = high }))
      (ltb (add64 (add64 size header_size) heap_alignment) b.size) _ _
      (λ roomy.
        let fits : size + 128 < b.size = ground (arith, size_small) in
        appended h (record b { size = size; reserved = true }) (block_split (reserve b) size) size
          high v high_small
          (subst (Between h.new_address (block_split (reserve b) size)) (sym high_end) (
            Between-block_split b size h.new_address high (omega arith) (omega arith)
              (omega (arith, high_end)) (omega (arith, high_small))))
          (live-block_split b size) (omega arith))
      (λ tight.
        appended h (reserve b) (reserve b ∷ []) size high v high_small
          (omega arith, omega (arith, high_end)) refl (omega (arith, b_size)))
  where
    b : Block
    b = (block_new h size).0

    high : ℕ
    high = (block_new h size).1.new_address

    b_size : b.size ≡ (size + header_size + page_size - 1) / page_size * page_size - header_size
    b_size = omega arith

    high_end : high ≡ h.new_address + header_size + b.size
    high_end = omega arith

    high_small : high < word
    high_small = omega arith

    size_small : size + 128 < word
    size_small = omega arith

-- On a valid heap with room below the top of the address space, a request of at least one byte is
-- answered by a pointer to a block of at least that size. The blocks in use are then those of before
-- and this one, and all blocks still lie one behind the other, so that none overlaps another.
pub malloc_unlocked-Allocated :
    (h : Heap) (size : ℕ)
    → IsValid h
    → 0 < size
    → h.new_address + size + 3 * page_size < word
    → Allocated h size (malloc_unlocked h size)
unfolding malloc_unlocked
malloc_unlocked-Allocated h size v positive room =
    if_cases (Allocated h size) (size == 0) _ _ (λ none_asked. absurd (ground arith))
      (λ asked. larger (
        answer (place rounded h.blocks)
          (place-Placed rounded h.blocks 0 h.new_address (omega arith) (omega arith) v.between)))
  where
    rounded : ℕ
    rounded = round_up size heap_alignment

    larger : {r : Option ℕ × Heap} → Allocated h rounded r → Allocated h size r
    larger a = record {
      pointer = a.pointer;
      returns = a.returns;
      valid = a.valid;
      inserted = record {
        before = a.inserted.before;
        block = a.inserted.block;
        after = a.inserted.after;
        was = a.inserted.was;
        now = a.inserted.now;
        starts = a.inserted.starts;
        fits = omega (arith, a.inserted.fits);
      };
    }

    answer :
        (r : Option (ℕ × List Block))
        → Placed h.blocks rounded 0 h.new_address r
        → Allocated h rounded (placed h rounded r)
    answer none p = extend-Allocated h rounded v (omega arith)
    answer (some (p, bs)) k = record {
      pointer = p;
      returns = refl;
      valid = record { between = k.0; below_top = v.below_top };
      inserted = k.1;
    }
