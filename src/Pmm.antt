-- ===== src/Pmm.antt =====
-- src/kernel/pmm.c: physical pages. Those above 1 MiB are kept on a stack that lives in the free pages
-- themselves, those below it in a bitmap.
pub mod Stack
pub mod Bitmap
pub mod Memory
pub mod Supply
mod Tests
use asym.Base.{
  ℕ, zero, suc, ◌+◌, ◌-◌, ◌*◌, Bool, ◌||◌, Option, none, some, List, [], ◌∷◌, leb, ◌==◌,
  if◌then◌else◌, add64, sub64, mul64, round_down,
}
use Stack.{
  PageBuffer, PageStack, Taken, page, null, fault, page_stack_init, page_stack_alloc,
  page_stack_free,
}
use Bitmap.{
  Outcome, done, panic, running, page_bitmap_init, page_bitmap_alloc, page_bitmap_free, page_size,
  higher_half, max_special_addr,
}

-- The static state of the file. `free_page_amount` here is the one counter; the copies in the parts
-- are set from it before a call and read back after it.
pub record Pmm : Type 0 where
  pub stack : PageStack
  pub bitmap : Bitmap.Bitmap
  pub page_amount : ℕ
  pub free_page_amount : ℕ

abbrev pub with_stack : Pmm → PageStack → Pmm
with_stack p s = record p { stack = s; free_page_amount = s.free_page_amount }

abbrev pub with_bitmap : Pmm → Bitmap.Bitmap → Pmm
with_bitmap p b = record p { bitmap = b; free_page_amount = b.free_page_amount }

abbrev pub stack_of : Pmm → PageStack
stack_of p = record (p.stack) { free_page_amount = p.free_page_amount }

abbrev pub bitmap_of : Pmm → Bitmap.Bitmap
bitmap_of p = record (p.bitmap) { free_page_amount = p.free_page_amount }

-- A read through NULL is no return either: `running` stands for it.
pub allocated : Pmm → Taken × PageStack → Outcome (ℕ × Pmm)
allocated p (page address, s) = done (address, with_stack p s)
allocated p (null, s) = panic
allocated p (fault, s) = running

unfoldable pub pmm_alloc : Pmm → Outcome (ℕ × Pmm)
unfolding allocated
pmm_alloc p = allocated p (page_stack_alloc (stack_of p))

pub specially : Pmm → Outcome (Option ℕ × Bitmap.Bitmap) → Outcome (ℕ × Pmm)
specially p (done (some address, b)) = done (address, with_bitmap p b)
specially p (done (none, b)) = panic
specially p panic = panic
specially p running = running

unfoldable pub pmm_alloc_special : Pmm → ℕ → ℕ → ℕ → Outcome (ℕ × Pmm)
unfolding specially
pmm_alloc_special p count max_addr alignment =
    specially p (page_bitmap_alloc (bitmap_of p) count max_addr alignment)

pub freed : Pmm → Outcome Bitmap.Bitmap → Outcome Pmm
freed p (done b) = done (with_bitmap p b)
freed p panic = panic
freed p running = running

unfoldable pub pmm_free_unlocked : Pmm → ℕ → Outcome Pmm
unfolding freed
pmm_free_unlocked p address =
    if leb (max_special_addr + higher_half) address
    then done (with_stack p (page_stack_free (stack_of p) address))
    else freed p (page_bitmap_free (bitmap_of p) address)

infixl 5 ◌>>=◌
abbrev pub ◌>>=◌ {ℓ κ} : {A : Type ℓ} {B : Type κ} → Outcome A → (A → Outcome B) → Outcome B
done a >>= f = f a
panic >>= f = panic
running >>= f = running

-- the loop at round `i`, with `n` rounds left
pub free_pages_from : ℕ → Pmm → ℕ → ℕ → Outcome Pmm
free_pages_from zero p address i = done p
free_pages_from (suc n) p address i = do
  p' ← pmm_free_unlocked p (add64 address (mul64 i page_size))
  free_pages_from n p' address (i + 1)

unfoldable pub pmm_free_pages_unlocked : Pmm → ℕ → ℕ → Outcome Pmm
unfolding free_pages_from
pmm_free_pages_unlocked p address count = free_pages_from count p address 0

unfoldable pub pmm_free : Pmm → ℕ → Outcome Pmm
pmm_free p address = pmm_free_unlocked p (round_down address page_size)

unfoldable pub pmm_free_pages : Pmm → ℕ → ℕ → Outcome Pmm
pmm_free_pages p address count = pmm_free_pages_unlocked p (round_down address page_size) count

-- `efi_mem_desc_t`, the fields that are read
pub record MemDesc : Type 0 where
  pub kind : ℕ
  pub physical_start : ℕ
  pub amount_of_pages : ℕ

-- EFI_IS_MEMORY_AVAIL: conventional, persistent, loader and boot services memory
unfoldable pub is_memory_avail : ℕ → Bool
is_memory_avail kind = kind == 7 || (kind == 14 || (kind == 1 || (kind == 3 || kind == 4)))

abbrev pub detected : Pmm → ℕ → Pmm
detected p pages = record p { page_amount = add64 p.page_amount pages }

unfoldable pub pmm_load_memory : Pmm → List MemDesc → Outcome Pmm
pmm_load_memory p [] = done p
pmm_load_memory p (d ∷ ds) = do
  p' ←
      (if is_memory_avail d.kind
        then pmm_free_pages_unlocked p (add64 d.physical_start higher_half) d.amount_of_pages
        else done p)
  pmm_load_memory (detected p' d.amount_of_pages) ds

-- `buffers` is what memory holds before; both counters start at 0.
unfoldable pub pmm_init : (ℕ → PageBuffer) → List MemDesc → Outcome Pmm
pmm_init buffers ds =
    pmm_load_memory
      (record {
        stack = page_stack_init buffers 0;
        bitmap = page_bitmap_init 0;
        page_amount = 0;
        free_page_amount = 0;
      })
      ds

unfoldable pub pmm_reserved_amount : Pmm → ℕ
pmm_reserved_amount p = sub64 p.page_amount p.free_page_amount
