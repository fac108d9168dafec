-- ===== src/Heap.antt =====
-- The kernel's heap: src/stdlib/stdlib.c (malloc to free) over src/stdlib/internal/heap.c, built with
-- __EMBED__.
pub mod Blocks
pub mod Malloc
pub mod Free
mod Tests
use asym.Base.{
  ℕ, ◌+◌, ◌-◌, ◌*◌, ◌/◌, Bool, true, false, not, ◌&&◌, Option, none, some, List, [], ◌∷◌, ◌++◌, ltb,
  ◌==◌, if◌then◌else◌, add64, sub64, mul64, round_up, min,
}

abbrev pub heap_alignment : ℕ
heap_alignment = 64

-- `sizeof(heap_header_t)`
abbrev pub header_size : ℕ
header_size = 64

abbrev pub page_size : ℕ
page_size = 0x1000

-- `heap_header_t` with its address. `magic` holds of every block of the chain, and of nothing else.
pub record Block : Type 0 where
  pub address : ℕ
  pub size : ℕ
  pub reserved : Bool

-- The chain of `next` pointers from `firstBlock`, and `newAddress`, where the next pages are mapped.
pub record Heap : Type 0 where
  pub blocks : List Block
  pub new_address : ℕ

-- HEAP_HEADER_GET_START
abbrev pub start : Block → ℕ
start b = b.address + header_size

abbrev pub reserve : Block → Block
reserve b = record b { reserved = true }

-- What `_HeapBlockSplit` makes of a block: its front, and the rest as a free block behind it.
unfoldable pub block_split : Block → ℕ → List Block
block_split b size =
    record b { size = size }
    ∷ record {
      address = b.address + header_size + size;
      size = sub64 (sub64 b.size header_size) size;
      reserved = false;
    }
    ∷ []

-- `_HeapBlockNew`: the new block, and the heap whose `newAddress` stands behind its pages.
unfoldable pub block_new : Heap → ℕ → Block × Heap
block_new h size =
    let pages = sub64 (add64 (add64 size header_size) page_size) 1 / page_size in
    (
      record {
        address = h.new_address;
        size = sub64 (mul64 pages page_size) header_size;
        reserved = false;
      },
      record h { new_address = add64 h.new_address (mul64 pages page_size) },
    )

unfoldable pub heap_init : ℕ → Heap
unfolding block_new
heap_init kernel_end =
    let empty : Heap = record { blocks = []; new_address = round_up kernel_end page_size } in
    let (b, h) = block_new empty page_size in record h { blocks = b ∷ [] }

abbrev pub behind : Block → Option (ℕ × List Block) → Option (ℕ × List Block)
behind b none = none
behind b (some (p, bs)) = some (p, b ∷ bs)

-- The loop of `malloc_unlocked` over the chain: the address returned and the chain left, or nothing.
pub place : ℕ → List Block → Option (ℕ × List Block)
place size [] = none
place size (b ∷ bs) =
    let further = behind b (place size bs) in
    if b.reserved
    then further
    else if b.size == size
    then some (start b, reserve b ∷ bs)
    else if ltb (add64 (add64 size header_size) heap_alignment) b.size
    then some (start b, block_split (reserve b) size ++ bs)
    else further

-- The end of `malloc_unlocked`: a new block behind the last of the chain.
pub extend : Heap → ℕ → Option ℕ × Heap
unfolding block_new block_split
extend h size =
    let (b, h') = block_new h size in
    let made =
      if ltb (add64 (add64 size header_size) heap_alignment) b.size
      then block_split (reserve b) size
      else reserve b ∷ [] in
    (some (start b), record h' { blocks = h.blocks ++ made })

pub placed : Heap → ℕ → Option (ℕ × List Block) → Option ℕ × Heap
unfolding extend
placed h size none = extend h size
placed h size (some (p, bs)) = (some p, record h { blocks = bs })

unfoldable pub malloc_unlocked : Heap → ℕ → Option ℕ × Heap
unfolding place placed
malloc_unlocked h size =
    let rounded = round_up size heap_alignment in
    if size == 0 then (none, h) else placed h rounded (place rounded h.blocks)

-- The chain with the block at `address` freed; `none` where log_panic stops the kernel, since the
-- address is that of no block or of a block not reserved.
pub release : ℕ → List Block → Option (List Block)
release address [] = none
release address (b ∷ bs) =
    if b.address == address
    then (if b.reserved then some (record b { reserved = false } ∷ bs) else none)
    else elim (release address bs) [ none ↦ none | some bs' ↦ some (b ∷ bs') ]

unfoldable pub free_unlocked : Heap → ℕ → Option Heap
unfolding release
free_unlocked h ptr = elim (release (sub64 ptr header_size) h.blocks) [
  | none ↦ none
  | some bs ↦ some (record h { blocks = bs })
]
