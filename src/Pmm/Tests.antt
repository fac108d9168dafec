-- ===== src/Pmm/Tests.antt =====
-- The theorems on src/kernel/pmm.c at concrete stacks, bitmaps and memory maps.
use asym.Base.{
  ℕ, ◌≡◌, ◌+◌, ◌%◌, not, ◌&&◌, refl, some, none, List, [], ◌∷◌, arith, word, round_down, sub64,
  ◌==◌, if◌then◌else◌,
}
use asym.Pmm.Stack.{PageBuffer, PageStack, page, fault, page_stack_alloc, page_stack_free}
use asym.Pmm.Stack.Lifo.{
  IsValid, held, chain_after, chain_left, left_after, page_stack_free-held, page_stack_alloc-held,
}
use asym.Pmm.Stack.Faults.{page_stack_alloc_faults, page_stack_alloc-free}
use asym.Pmm.Bitmap.{
  Bitmap, done, page_bitmap_init, page_bitmap_alloc, page_bitmap_free, address_of, bit_at,
  page_size, higher_half,
}
use asym.Pmm.Bitmap.Reserve
use asym.Pmm.Bitmap.Reserve.{page_bitmap_free-bits, page_bitmap_init-IsValid}
use asym.Pmm.Bitmap.Search.{Answers, limit_of, step_of, page_bitmap_alloc-Answers}
use asym.Pmm.{Pmm, MemDesc, pmm_free, pmm_alloc, pmm_load_memory}
use asym.Pmm.Memory.{pmm_alloc-free, pmm_load_memory-amounts, available, total}

-- a buffer at 500 that records the pages 600 and 601
abbrev buffers : ℕ → PageBuffer
buffers a = record { prev = none; pages = λ i. 600 + i }

abbrev three_left : PageStack
three_left = record { last = some 500; index = 2; buffers = buffers; free_page_amount = 3 }

three_left-IsValid : IsValid three_left (500 ∷ [])
three_left-IsValid = record { linked = (refl, refl); distinct = (tt, tt); index_in = omega arith }

page_stack_free-held_example :
    let s = page_stack_free three_left 602 in
    IsValid s (chain_after three_left 602 (500 ∷ []))
    × (held s (chain_after three_left 602 (500 ∷ [])) ≡ 602 ∷ held three_left (500 ∷ []))
page_stack_free-held_example =
    page_stack_free-held three_left 602 (500 ∷ []) three_left-IsValid (omega arith)

page_stack_alloc-held_example :
    let (taken, s) = page_stack_alloc three_left in
    (taken ≡ page 601)
    × IsValid s (chain_left three_left (500 ∷ []))
    × (held s (chain_left three_left (500 ∷ [])) ≡ left_after three_left (600 ∷ 500 ∷ []))
    × (s.free_page_amount ≡ sub64 3 1)
page_stack_alloc-held_example =
    page_stack_alloc-held three_left (500 ∷ []) 601 (600 ∷ 500 ∷ []) three_left-IsValid refl

abbrev one_left : PageStack
one_left = record { last = some 500; index = 0; buffers = buffers; free_page_amount = 1 }

page_stack_alloc_faults_example :
    let (taken, s) = page_stack_alloc one_left in
    (taken ≡ page 500) × ((page_stack_alloc s).0 ≡ fault)
page_stack_alloc_faults_example = page_stack_alloc_faults one_left 500 refl refl refl

page_stack_alloc-free_example : (page_stack_alloc (page_stack_free one_left 602)).0 ≡ page 602
page_stack_alloc-free_example = page_stack_alloc-free one_left 602

-- all pages of the bitmap reserved
abbrev full : Bitmap
full = page_bitmap_init 9

page_bitmap_free-bits_example :
    (b : Bitmap) × (page_bitmap_free full (address_of 77) ≡ done b)
    × Reserve.IsValid b
    × ((k : ℕ) → bit_at b.map k ≡ (not (k == 77) && bit_at full.map k))
page_bitmap_free-bits_example =
    page_bitmap_free-bits full 77 (page_bitmap_init-IsValid 9) (omega arith)

-- pages 8 to 15 and 24 to 31 free
abbrev two_runs : Bitmap
two_runs = record {
  map = λ i. if i == 1 then 0 else if i == 3 then 0 else 255;
  first_free_index = 0;
  free_page_amount = 16;
}

two_runs-IsValid : Reserve.IsValid two_runs
two_runs-IsValid = record { byte = λ i. ground arith; from_start = refl }

page_bitmap_alloc-Answers_example :
    Answers two_runs two_runs-IsValid 5
      (limit_of 0x80000)
      (step_of 0x10000)
      (page_bitmap_alloc two_runs 5 0x80000 0x10000)
page_bitmap_alloc-Answers_example =
    page_bitmap_alloc-Answers two_runs two_runs-IsValid 5 0x80000 0x10000

abbrev small : Pmm
small = record { stack = three_left; bitmap = two_runs; page_amount = 40; free_page_amount = 19 }

pmm_alloc-free_example :
    (q : Pmm) × (r : Pmm) × (pmm_free small (higher_half + 0x200123) ≡ done q)
    × (pmm_alloc q ≡ done (round_down (higher_half + 0x200123) page_size, r))
pmm_alloc-free_example = pmm_alloc-free small (higher_half + 0x200123) (omega arith) (omega arith)

-- conventional memory, a reserved region, and loader code
abbrev memory_map : List MemDesc
memory_map =
    record { kind = 7; physical_start = 0x200000; amount_of_pages = 3 }
    ∷ record { kind = 0; physical_start = 0x300000; amount_of_pages = 2 }
    ∷ record { kind = 1; physical_start = 0x8000; amount_of_pages = 1 }
    ∷ []

pmm_load_memory-amounts_example :
    (q : Pmm) × (pmm_load_memory small memory_map ≡ done q)
    × (q.free_page_amount ≡ (19 + available memory_map) % word)
    × (q.page_amount ≡ (40 + total memory_map) % word)
pmm_load_memory-amounts_example =
    pmm_load_memory-amounts small memory_map (omega arith) (omega arith) (omega arith)
