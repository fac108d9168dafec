-- ===== src/Heap/Free.antt =====
-- `free_unlocked` of src/stdlib/stdlib.c, alone and after `malloc_unlocked`.
use asym.Base.{
  ℕ, ◌+◌, ◌*◌, ◌≤◌, ◌<◌, ◌≡◌, refl, sym, ◌∙◌, ◌⊎◌, ap, subst, true, false, List, [], ◌∷◌, ◌++◌,
  arith, Option, none, some, Bool-cases, Option-cases, inl, inr, ◌==◌, word, sub64,
}
use asym.Heap.{Block, Heap, header_size, page_size, start, release, malloc_unlocked, free_unlocked}
use asym.Heap.Blocks.{Between, IsValid, Between-le, live, live_used, live_unused}
use asym.Heap.Malloc.{malloc_unlocked-Allocated}

-- Where the marked item of a list stands, beside its head.
cons_split {ℓ} :
    {A : Type ℓ} (c : A) (l xs : List A) (b : A) (ys : List A)
    → c ∷ l ≡ xs ++ b ∷ ys
    → ((xs ≡ []) × (c ≡ b) × (l ≡ ys)) ⊎ ((xs' : List A) × (xs ≡ c ∷ xs') × (l ≡ xs' ++ b ∷ ys))
cons_split c l [] b ys e = inl (refl, cc, cc)
cons_split c l (x ∷ xs) b ys e = inr (xs, cc, cc)

-- A block in use lies between the two ends, with its header.
live-within :
    (bs : List Block) (low high : ℕ) (xs : List Block) (b : Block) (ys : List Block)
    → Between low bs high
    → live bs ≡ xs ++ b ∷ ys
    → (low ≤ b.address) × (b.address + header_size ≤ high)
live-within [] low high [] b ys h e = cc
live-within [] low high (x ∷ xs) b ys h e = cc
live-within (c ∷ bs) low high xs b ys h e = elim (Bool-cases c.reserved) [
  | inl used ↦ elim (cons_split c (live bs) xs b ys (sym (live_used c bs used) ∙ e)) [
    | inl (_, c≡b, _) ↦
        subst (λ (x : Block). (low ≤ x.address) × (x.address + header_size ≤ high)) c≡b
          (h.0, omega (arith, Between-le bs (c.address + header_size + c.size) high h.1))
    | inr (xs', _, e') ↦
        omega (arith, live-within bs (c.address + header_size + c.size) high xs' b ys h.1 e')
  ]
  | inr unused ↦ omega (
    arith,
    live-within bs (c.address + header_size + c.size) high xs b ys h.1
        (sym (live_unused c bs unused) ∙ e),
  )
]

-- A chain with the block at `address` freed.
record Released (address low high : ℕ) (xs ys bs : List Block) : Type 0 where
  blocks : List Block
  returns : release address bs ≡ some blocks
  between : Between low blocks high
  rest : live blocks ≡ xs ++ ys

-- The block is not the first of the chain.
further :
    (c : Block) (bs : List Block) (address low high : ℕ) (xs zs ys : List Block)
    → (c.address == address) ≡ false
    → low ≤ c.address
    → ((ds : List Block) → live ds ≡ xs ++ ys → live (c ∷ ds) ≡ zs ++ ys)
    → Released address (c.address + header_size + c.size) high xs ys bs
    → Released address low high zs ys (c ∷ bs)
unfolding release
further c bs address low high xs zs ys other l grow r = record {
  blocks = c ∷ r.blocks;
  returns = rw (other, r.returns);
  between = (l, r.between);
  rest = grow r.blocks r.rest;
}

itself :
    (c : Block) (bs : List Block)
    → c.reserved ≡ true
    → release c.address (c ∷ bs) ≡ some (record c { reserved = false } ∷ bs)
unfolding release
itself c bs used = ground arith

release-Released :
    (bs : List Block) (low high : ℕ) (xs : List Block) (b : Block) (ys : List Block)
    → Between low bs high
    → live bs ≡ xs ++ b ∷ ys
    → Released b.address low high xs ys bs
unfolding release
release-Released [] low high [] b ys h e = cc
release-Released [] low high (x ∷ xs) b ys h e = cc
release-Released (c ∷ bs) low high xs b ys h e = elim (Bool-cases c.reserved) [
  | inr unused ↦
      let e' = sym (live_unused c bs unused) ∙ e in
      let above = live-within bs (c.address + header_size + c.size) high xs b ys h.1 e' in
      further c bs b.address low high xs xs ys (ground arith) h.0
        (λ ds k. live_unused c ds unused ∙ k)
        (release-Released bs (c.address + header_size + c.size) high xs b ys h.1 e')
  | inl used ↦ elim (cons_split c (live bs) xs b ys (sym (live_used c bs used) ∙ e)) [
    | inl (none_before, c≡b, rest) ↦ record {
      blocks = record c { reserved = false } ∷ bs;
      returns =
          subst (λ (a : ℕ). release a (c ∷ bs) ≡ some (record c { reserved = false } ∷ bs))
            (ap (λ (x : Block). x.address) c≡b) (itself c bs used);
      between = h;
      rest = rest ∙ ap (λ (l : List Block). l ++ ys) (sym none_before);
    }
    | inr (xs', cons, e') ↦
        let above = live-within bs (c.address + header_size + c.size) high xs' b ys h.1 e' in
        further c bs b.address low high xs' xs ys (ground arith) h.0
          (λ ds k. live_used c ds used ∙ ap (◌∷◌ c) k ∙ ap (λ (l : List Block). l ++ ys) (sym cons))
          (release-Released bs (c.address + header_size + c.size) high xs' b ys h.1 e')
  ]
]

-- Freeing a block in use of a valid heap returns, leaves the heap valid, and takes exactly that block
-- out of those in use.
pub free_unlocked-live :
    (h : Heap) (xs : List Block) (b : Block) (ys : List Block)
    → IsValid h
    → live h.blocks ≡ xs ++ b ∷ ys
    → (h' : Heap) × (free_unlocked h (start b) ≡ some h') × IsValid h' × (live h'.blocks ≡ xs ++ ys)
unfolding free_unlocked
free_unlocked-live h xs b ys v e =
    let r = release-Released h.blocks 0 h.new_address xs b ys v.between e in
    (
      record h { blocks = r.blocks },
      ground (arith, header, r.returns),
      record { between = r.between; below_top = v.below_top },
      r.rest,
    )
  where
    header : sub64 (start b) header_size ≡ b.address
    header = omega (arith, v.below_top, live-within h.blocks 0 h.new_address xs b ys v.between e)

-- What `malloc_unlocked` returned may be freed, and the blocks in use are then those of before.
pub free-malloc :
    (h : Heap) (size : ℕ)
    → IsValid h
    → 0 < size
    → h.new_address + size + 3 * page_size < word
    → (p : ℕ) × (h' : Heap) × (h'' : Heap) × (malloc_unlocked h size ≡ (some p, h'))
      × (free_unlocked h' p ≡ some h'')
      × (live h''.blocks ≡ live h.blocks)
free-malloc h size v positive room =
    let a = malloc_unlocked-Allocated h size v positive room in
    let h' = (malloc_unlocked h size).1 in
    let i = a.inserted in
    let (h'', returns, _, l) = free_unlocked-live h' i.before i.block i.after a.valid i.now in
    (
      a.pointer,
      h',
      h'',
      ap (λ (r : Option ℕ). (r, h')) a.returns,
      subst (λ (q : ℕ). free_unlocked h' q ≡ some h'') i.starts returns,
      l ∙ sym i.was,
    )

release_twice :
    (address : ℕ) (bs cs : List Block) → release address bs ≡ some cs → release address cs ≡ none
unfolding release
release_twice address [] cs e = cc
release_twice address (b ∷ bs) cs e = elim (Option-cases (release address bs)) [
  | inl gone ↦ ground arith
  | inr (ds, left) ↦ ground (arith, release_twice address bs ds left)
]

-- A pointer that was freed cannot be freed again before it is allocated: the second call stops the
-- kernel.
pub free_unlocked_twice :
    (h h' : Heap) (p : ℕ) → free_unlocked h p ≡ some h' → free_unlocked h' p ≡ none
unfolding free_unlocked
free_unlocked_twice h h' p e = elim (Option-cases (release (sub64 p header_size) h.blocks)) [
  | inl gone ↦ ground arith
  | inr (bs, left) ↦ ground (arith, release_twice (sub64 p header_size) h.blocks bs left)
]
