-- ===== src/Pmm/Stack.antt =====
-- The page stack of src/kernel/pmm.c.
pub mod Lifo
pub mod Faults
use asym.Base.{ℕ, zero, suc, ◌+◌, ◌-◌, Option, none, some, ◌==◌, if◌then◌else◌, add64, sub64}
pub use asym.Base.Maps.{update}

-- `PAGE_BUFFER_MAX`: the pointers that fit in a page beside `prev`
abbrev pub page_buffer_max : ℕ
page_buffer_max = 511

-- `page_buffer_t`, the free page that records others; `none` is NULL.
pub record PageBuffer : Type 0 where
  pub prev : Option ℕ
  pub pages : ℕ → ℕ

-- `stack`, the buffers that stand in memory by their addresses, and `freePageAmount`
pub record PageStack : Type 0 where
  pub last : Option ℕ
  pub index : ℕ
  pub buffers : ℕ → PageBuffer
  pub free_page_amount : ℕ

unfoldable pub page_stack_init : (ℕ → PageBuffer) → ℕ → PageStack
page_stack_init buffers free = record {
  last = none;
  index = 0;
  buffers = buffers;
  free_page_amount = free;
}

-- What a call yields: an address, NULL, or a fault, the read through a NULL `stack.last`.
pub data Taken : Type 0 where
  page : ℕ → Taken
  null : Taken
  fault : Taken

abbrev counted : PageStack → PageStack
counted s = record s { free_page_amount = sub64 s.free_page_amount 1 }

-- the buffer page itself, when it records no page
pub alloc_buffer : PageStack → Option ℕ → Taken × PageStack
alloc_buffer s none = (null, s)
alloc_buffer s (some last) =
    (page last, counted (record s { last = (s.buffers last).prev; index = page_buffer_max - 1 }))

pub alloc_recorded : PageStack → ℕ → Option ℕ → Taken × PageStack
alloc_recorded s i none = (fault, s)
alloc_recorded s i (some last) = (page ((s.buffers last).pages i), counted (record s { index = i }))

unfoldable pub page_stack_alloc : PageStack → Taken × PageStack
unfolding alloc_buffer alloc_recorded
page_stack_alloc s =
    if s.index == 0 then alloc_buffer s s.last else alloc_recorded s (s.index - 1) s.last

-- `address` becomes the top buffer, above `prev`.
pub push_buffer : PageStack → ℕ → Option ℕ → PageStack
push_buffer s address prev = record s {
  last = some address;
  index = 0;
  buffers = update s.buffers address (record (s.buffers address) { prev = prev });
}

pub push_page : PageStack → ℕ → ℕ → PageStack
push_page s last address = record s {
  index = s.index + 1;
  buffers =
      update s.buffers last
        (record (s.buffers last) { pages = update (s.buffers last).pages s.index address });
}

pub free_at : PageStack → ℕ → Option ℕ → PageStack
unfolding push_buffer push_page
free_at s address none = push_buffer s address none
free_at s address (some last) =
    if s.index == page_buffer_max
    then push_buffer s address (some last)
    else push_page s last address

unfoldable pub page_stack_free : PageStack → ℕ → PageStack
unfolding free_at
page_stack_free s address =
    free_at (record s { free_page_amount = add64 s.free_page_amount 1 }) address s.last
