-- ===== src/Heap/Tests.antt =====
-- The theorems on the kernel's heap at a chain of three blocks.
use asym.Base.{ℕ, ◌≡◌, refl, true, false, some, none, [], ◌∷◌, arith}
use asym.Heap.{Block, Heap, start, malloc_unlocked, free_unlocked}
use asym.Heap.Blocks.{IsValid, live}
use asym.Heap.Malloc.{Allocated, malloc_unlocked-Allocated}
use asym.Heap.Free.{free_unlocked-live, free-malloc, free_unlocked_twice}

abbrev low : Block
low = record { address = 0x10000; size = 128; reserved = true }

abbrev middle : Block
middle = record { address = 0x100C0; size = 1024; reserved = false }

abbrev high : Block
high = record { address = 0x10500; size = 0xAC0; reserved = true }

abbrev heap : Heap
heap = record { blocks = low ∷ middle ∷ high ∷ []; new_address = 0x11000 }

heap-IsValid : IsValid heap
heap-IsValid = record { between = omega arith; below_top = omega arith }

malloc_unlocked-Allocated_example : Allocated heap 200 (malloc_unlocked heap 200)
malloc_unlocked-Allocated_example =
    malloc_unlocked-Allocated heap 200 heap-IsValid (omega arith) (omega arith)

free_unlocked-live_example :
    (h : Heap) × (free_unlocked heap (start high) ≡ some h) × IsValid h × (live h.blocks ≡ low ∷ [])
free_unlocked-live_example = free_unlocked-live heap (low ∷ []) high [] heap-IsValid refl

free-malloc_example :
    (p : ℕ) × (h : Heap) × (h' : Heap) × (malloc_unlocked heap 5000 ≡ (some p, h))
    × (free_unlocked h p ≡ some h')
    × (live h'.blocks ≡ live heap.blocks)
free-malloc_example = free-malloc heap 5000 heap-IsValid (omega arith) (omega arith)

-- the heap once `high` is freed
abbrev without_high : Heap
without_high = record heap { blocks = low ∷ middle ∷ record high { reserved = false } ∷ [] }

high-freed : free_unlocked heap (start high) ≡ some without_high
unfolding free_unlocked
high-freed = refl

free_unlocked_twice_example : free_unlocked without_high (start high) ≡ none
free_unlocked_twice_example = free_unlocked_twice heap without_high (start high) high-freed
