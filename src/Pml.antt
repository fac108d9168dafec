-- ===== src/Pml.antt =====
-- src/kernel/pml.c and pml.h: page tables. A table is known by the address through which the kernel
-- uses it, in the higher half; its entries are 64-bit words.
pub mod Entry
pub mod Shape
pub mod Look
pub mod Grow
pub mod Write
pub mod Map
pub mod Translate
pub mod Unmap
pub mod Change
pub mod Own
pub mod Free
pub mod Sample
mod Tests
use asym.Base.{
  ℕ, zero, suc, ◌+◌, ◌-◌, ◌*◌, ◌/◌, ◌%◌, ◌^◌, Bool, true, false, not, ◌&&◌, Option, none, some,
  List, [], ◌∷◌, ◌==◌, if◌then◌else◌, add64, sub64, round_down, word,
}
use Prim.Native.Nat.{bit_and, bit_or}
use asym.Base.Maps.{update}
use asym.Pmm.{Pmm, pmm_alloc, pmm_free, ◌>>=◌}
use asym.Pmm.Bitmap.{Outcome, done, panic, running, page_size, higher_half}

abbrev pub page_present : ℕ
page_present = 1

abbrev pub page_write : ℕ
page_write = 2

abbrev pub page_user : ℕ
page_user = 4

abbrev pub page_global : ℕ
page_global = 2 ^ 8

abbrev pub page_owned : ℕ
page_owned = 2 ^ 9

abbrev pub page_entry_amount : ℕ
page_entry_amount = 512

-- The entries of the tables, the state of pmm.c (which holds the memory of the free pages itself), and
-- the addresses given to PAGE_INVALIDATE, the latest first.
pub record Paging : Type 0 where
  pub entries : ℕ → ℕ → ℕ
  pub pmm : Pmm
  pub invalidated : List ℕ

-- VMM_HIGHER_TO_LOWER and VMM_LOWER_TO_HIGHER
abbrev pub to_lower : ℕ → ℕ
to_lower address = sub64 address higher_half

abbrev pub to_higher : ℕ → ℕ
to_higher address = add64 address higher_half

-- PAGE_ENTRY_GET_ADDRESS; the mask 0x000FFFFFFFFFF000 takes the 40 binary digits above the lowest 12.
unfoldable pub entry_address : ℕ → ℕ
entry_address entry = to_higher (entry / 2 ^ 12 % 2 ^ 40 * 2 ^ 12)

-- `entry & PAGE_PRESENT` and `entry & PAGE_OWNED`
unfoldable pub is_present : ℕ → Bool
is_present entry = entry % 2 == 1

unfoldable pub is_owned : ℕ → Bool
is_owned entry = entry / 2 ^ 9 % 2 == 1

-- PML_GET_INDEX
unfoldable pub pml_get_index : ℕ → ℕ → ℕ
pml_get_index address level = address / 2 ^ ((level - 1) * 9 + 12) % 2 ^ 9

unfoldable pub page_entry_create : ℕ → ℕ → ℕ
page_entry_create phys_addr flags =
    bit_or (phys_addr / 2 ^ 12 % 2 ^ 40 * 2 ^ 12) (bit_or flags page_present)

abbrev pub with_entry : Paging → ℕ → ℕ → ℕ → Paging
with_entry s table i entry = record s {
  entries = update s.entries table (update (s.entries table) i entry);
}

-- `memset(table, 0, PAGE_SIZE)` for a page that pmm_alloc gave
abbrev pub with_blank : Paging → ℕ → Pmm → Paging
with_blank s table pmm = record s { entries = update s.entries table (λ i. 0); pmm = pmm }

-- `none` is NULL.
unfoldable pub pml_get : Paging → ℕ → ℕ → Option ℕ
pml_get s table i =
    if is_present (s.entries table i) then some (entry_address (s.entries table i)) else none

unfoldable pub pml_new : Paging → Outcome (ℕ × Paging)
pml_new s = do (table, pmm) ← pmm_alloc s.pmm; done (table, with_blank s table pmm)

-- the `else` branch
abbrev pub allocate_at : Paging → ℕ → ℕ → ℕ → Outcome (ℕ × Paging)
allocate_at s table i flags = do
  (address, pmm) ← pmm_alloc s.pmm
  done (
    address,
    with_entry (with_blank s address pmm) table i (page_entry_create (to_lower address) flags),
  )

unfoldable pub pml_get_or_allocate : Paging → ℕ → ℕ → ℕ → Outcome (ℕ × Paging)
pml_get_or_allocate s table i flags =
    if is_present (s.entries table i)
    then done (entry_address (s.entries table i), s)
    else allocate_at s table i flags

-- The walk of three pml_get to the table of level 1. The code reads through a NULL where it does not
-- test for it: that is no return.
abbrev pub and_then : Option ℕ → (ℕ → Option ℕ) → Option ℕ
and_then none f = none
and_then (some table) f = f table

unfoldable pub walk : Paging → ℕ → ℕ → Option ℕ
walk s table virt_addr = and_then (pml_get s table (pml_get_index virt_addr 4)) (λ level3.
    and_then (pml_get s level3 (pml_get_index virt_addr 3))
      (λ level2. pml_get s level2 (pml_get_index virt_addr 2)))

abbrev pub through {ℓ} : {A : Type ℓ} → Option ℕ → (ℕ → Outcome A) → Outcome A
through none f = running
through (some level1) f = f level1

unfoldable pub pml_phys_addr : Paging → ℕ → ℕ → Outcome ℕ
pml_phys_addr s table virt_addr = through (walk s table (round_down virt_addr page_size)) (λ level1.
    done (
      add64 (entry_address (s.entries level1 (pml_get_index (round_down virt_addr page_size) 1)))
        (virt_addr % page_size)))

-- one round of the loop of pml_mapped
abbrev pub page_present_in : Paging → ℕ → Option ℕ → Bool
page_present_in s virt_addr none = false
page_present_in s virt_addr (some level1) =
    is_present (s.entries level1 (pml_get_index virt_addr 1))

unfoldable pub is_mapped : Paging → ℕ → ℕ → Bool
is_mapped s table virt_addr = page_present_in s virt_addr (walk s table virt_addr)

unfoldable pub pml_mapped : Paging → ℕ → ℕ → ℕ → Bool
pml_mapped s table virt_addr zero = true
pml_mapped s table virt_addr (suc n) =
    is_mapped s table virt_addr && pml_mapped s table (add64 virt_addr page_size) n

-- `(flags | PAGE_WRITE | PAGE_USER)`, and that `& ~PAGE_GLOBAL`
unfoldable pub table_flags : ℕ → ℕ
table_flags flags = bit_or (bit_or flags page_write) page_user

unfoldable pub root_flags : ℕ → ℕ
root_flags flags = bit_and (table_flags flags) (word - 1 - page_global)

-- one round of the loop of pml_map
unfoldable pub map_page : Paging → ℕ → ℕ → ℕ → ℕ → Outcome Paging
map_page s table virt_addr phys_addr flags = do
  (level3, s) ← pml_get_or_allocate s table (pml_get_index virt_addr 4) (root_flags flags)
  (level2, s) ← pml_get_or_allocate s level3 (pml_get_index virt_addr 3) (table_flags flags)
  (level1, s) ← pml_get_or_allocate s level2 (pml_get_index virt_addr 2) (table_flags flags)
  done (with_entry s level1 (pml_get_index virt_addr 1) (page_entry_create phys_addr flags))

unfoldable pub pml_map : Paging → ℕ → ℕ → ℕ → ℕ → ℕ → Outcome Paging
pml_map s table virt_addr phys_addr zero flags = done s
pml_map s table virt_addr phys_addr (suc n) flags = do
  s ← map_page s table virt_addr phys_addr flags
  pml_map s table (add64 virt_addr page_size) (add64 phys_addr page_size) n flags

abbrev pub freed_if_owned : Paging → ℕ → Outcome Paging
freed_if_owned s entry =
    if is_owned entry
    then (do pmm ← pmm_free s.pmm (entry_address entry); done (record s { pmm = pmm }))
    else done s

abbrev pub invalidate : Paging → ℕ → Paging
invalidate s address = record s { invalidated = address ∷ s.invalidated }

-- one round of the loop of pml_unmap
unfoldable pub unmap_page : Paging → ℕ → ℕ → Outcome Paging
unmap_page s table virt_addr = through (walk s table virt_addr) (λ level1. do
  s ← freed_if_owned s (s.entries level1 (pml_get_index virt_addr 1))
  done (invalidate (with_entry s level1 (pml_get_index virt_addr 1) 0) virt_addr))

unfoldable pub pml_unmap : Paging → ℕ → ℕ → ℕ → Outcome Paging
pml_unmap s table virt_addr zero = done s
pml_unmap s table virt_addr (suc n) = do
  s ← unmap_page s table virt_addr
  pml_unmap s table (add64 virt_addr page_size) n

abbrev pub final_flags : ℕ → ℕ → ℕ
final_flags entry flags = if is_owned entry then bit_or flags page_owned else flags

-- one round of the loop of pml_change_flags
unfoldable pub change_page : Paging → ℕ → ℕ → ℕ → Outcome Paging
change_page s table virt_addr flags = through (walk s table virt_addr) (λ level1.
    let i = pml_get_index virt_addr 1 in
    let entry = s.entries level1 i in
    done (
      invalidate
        (with_entry s level1 i
          (page_entry_create (to_lower (entry_address entry)) (final_flags entry flags)))
        virt_addr))

unfoldable pub pml_change_flags : Paging → ℕ → ℕ → ℕ → ℕ → Outcome Paging
pml_change_flags s table virt_addr zero flags = done s
pml_change_flags s table virt_addr (suc n) flags = do
  s ← change_page s table virt_addr flags
  pml_change_flags s table (add64 virt_addr page_size) n flags
