-- ===== src/Vmm.antt =====
-- src/kernel/vmm.c and space.c: address spaces over the page tables of pml.c.
pub mod Region
pub mod Calls
pub mod Map
pub mod Alloc
pub mod Init
pub mod Cleanup
mod Tests
use asym.Base.{
  ◌&&◌, ℕ, zero, suc, ◌+◌, ◌-◌, ◌*◌, ◌/◌, ◌%◌, ◌^◌, Bool, true, false, not, ◌==◌, ltb, leb,
  if◌then◌else◌, add64, sub64, mul64, round_down, uint64_max,
}
use Prim.Native.Nat.{bit_or}
use asym.Base.Errors.{Errno, einval, eacces, eexist, efault, Result, value, error}
use asym.Base.Maps.{update}
use asym.Pmm.{pmm_alloc, ◌>>=◌}
use asym.Pmm.Bitmap.{Outcome, done, panic, running, page_size}
use asym.Pml.Free.{pml_free}
use asym.Pml.{
  Paging, pml_new, pml_mapped, pml_map, pml_unmap, pml_change_flags, page_write, page_user,
  page_owned, page_global, page_entry_amount, to_lower, to_higher,
}

-- `space_t` of the running process, and the tables that all spaces share
pub record Space : Type 0 where
  pub paging : Paging
  pub pml : ℕ
  pub free_address : ℕ

abbrev pub with_paging : Space → Paging → Space
with_paging s paging = record s { paging = paging }

-- SIZE_IN_PAGES
unfoldable pub size_in_pages : ℕ → ℕ
size_in_pages size = sub64 (add64 size page_size) 1 / page_size

-- The loop of vmm_find_free_region at `addr`, with `fuel` rounds left.
unfoldable pub find_from : ℕ → Space → ℕ → ℕ → Outcome (ℕ × Space)
find_from zero s page_amount addr = running
find_from (suc fuel) s page_amount addr =
    let rest = find_from fuel s page_amount (add64 addr (mul64 page_amount page_size)) in
    if ltb addr (round_down uint64_max 0x1000)
    then (if pml_mapped s.paging s.pml addr page_amount
        then rest
        else done (addr, record s { free_address = add64 addr (mul64 page_amount page_size) }))
    else panic

unfoldable pub vmm_find_free_region : ℕ → Space → ℕ → Outcome (ℕ × Space)
vmm_find_free_region fuel s length = find_from fuel s (size_in_pages length) s.free_address

-- vmm_align_region: the address and the length as they are after it
unfoldable pub vmm_align_region : ℕ → ℕ → ℕ × ℕ
vmm_align_region virt_addr length = (
  round_down virt_addr page_size,
  add64 length (sub64 virt_addr (round_down virt_addr page_size)),
)

-- `prot & PROT_READ` and `prot & PROT_WRITE`
abbrev pub can_read : ℕ → Bool
can_read prot = prot % 2 == 1

abbrev pub can_write : ℕ → Bool
can_write prot = prot / 2 % 2 == 1

unfoldable pub vmm_prot_to_flags : ℕ → ℕ
vmm_prot_to_flags prot =
    if not (can_read prot)
    then uint64_max
    else bit_or (if can_write prot then page_write else 0) page_user

-- the region that a caller asks for, or a free one for NULL
abbrev pub region_for : ℕ → Space → ℕ → ℕ → Outcome (ℕ × Space)
region_for fuel s virt_addr length =
    if virt_addr == 0 then vmm_find_free_region fuel s length else done (virt_addr, s)

-- the loop of vmm_alloc at round `i`, with `n` rounds left
unfoldable pub alloc_pages : ℕ → Space → ℕ → ℕ → ℕ → Outcome Space
alloc_pages zero s virt_addr i flags = done s
alloc_pages (suc n) s virt_addr i flags = do
  (page, pmm) ← pmm_alloc s.paging.pmm
  paging ←
      pml_map (record (s.paging) { pmm = pmm }) s.pml (add64 virt_addr (mul64 i page_size))
        (to_lower page) 1 flags
  alloc_pages n (with_paging s paging) virt_addr (i + 1) flags

abbrev pub alloc_at : Space → ℕ → ℕ → ℕ → Outcome (Result × Space)
alloc_at s virt_addr length flags =
    if pml_mapped s.paging s.pml virt_addr (size_in_pages length)
    then done (error eexist, s)
    else (do s ← alloc_pages (size_in_pages length) s virt_addr 0 flags; done (value virt_addr, s))

unfoldable pub vmm_alloc : ℕ → Space → ℕ → ℕ → ℕ → Outcome (Result × Space)
vmm_alloc fuel s virt_addr length prot =
    if length == 0
    then done (error einval, s)
    else if vmm_prot_to_flags prot == uint64_max
    then done (error eacces, s)
    else (do
      (virt_addr, s) ← region_for fuel s virt_addr length
      alloc_at s (vmm_align_region virt_addr length).0 (vmm_align_region virt_addr length).1
          (bit_or (vmm_prot_to_flags prot) page_owned))

abbrev pub map_at : Space → ℕ → ℕ → ℕ → ℕ → Outcome (Result × Space)
map_at s virt_addr phys_addr length flags =
    if pml_mapped s.paging s.pml virt_addr (size_in_pages length)
    then done (error eexist, s)
    else (do
      paging ← pml_map s.paging s.pml virt_addr phys_addr (size_in_pages length) flags
      done (value virt_addr, with_paging s paging))

unfoldable pub vmm_map : ℕ → Space → ℕ → ℕ → ℕ → ℕ → Outcome (Result × Space)
vmm_map fuel s virt_addr phys_addr length prot =
    if phys_addr == 0
    then done (error efault, s)
    else if length == 0
    then done (error einval, s)
    else if vmm_prot_to_flags prot == uint64_max
    then done (error eacces, s)
    else (do
      (virt_addr, s) ← region_for fuel s virt_addr length
      map_at s (vmm_align_region virt_addr length).0 (round_down phys_addr page_size)
          (vmm_align_region virt_addr length).1 (vmm_prot_to_flags prot))

abbrev pub unmap_at : Space → ℕ → ℕ → Outcome (Result × Space)
unmap_at s virt_addr length =
    if not (pml_mapped s.paging s.pml virt_addr (size_in_pages length))
    then done (error efault, s)
    else (do
      paging ← pml_unmap s.paging s.pml virt_addr (size_in_pages length)
      done (value 0, with_paging s paging))

unfoldable pub vmm_unmap : Space → ℕ → ℕ → Outcome (Result × Space)
vmm_unmap s virt_addr length =
    unmap_at s (vmm_align_region virt_addr length).0 (vmm_align_region virt_addr length).1

abbrev pub protect_at : Space → ℕ → ℕ → ℕ → Outcome (Result × Space)
protect_at s virt_addr length flags =
    if not (pml_mapped s.paging s.pml virt_addr (size_in_pages length))
    then done (error efault, s)
    else (do
      paging ← pml_change_flags s.paging s.pml virt_addr (size_in_pages length) flags
      done (value 0, with_paging s paging))

unfoldable pub vmm_protect : Space → ℕ → ℕ → ℕ → Outcome (Result × Space)
vmm_protect s virt_addr length prot =
    if vmm_prot_to_flags prot == uint64_max
    then done (error eacces, s)
    else protect_at s (vmm_align_region virt_addr length).0 (vmm_align_region virt_addr length).1
        (vmm_prot_to_flags prot)

unfoldable pub vmm_mapped : Space → ℕ → ℕ → Bool
vmm_mapped s virt_addr length =
    pml_mapped s.paging s.pml (vmm_align_region virt_addr length).0
      (size_in_pages (vmm_align_region virt_addr length).1)

-- vmm_kernel_map on the kernel's table; the address it returns with the tables after it
unfoldable pub vmm_kernel_map : Paging → ℕ → ℕ → ℕ → ℕ → Outcome (ℕ × Paging)
vmm_kernel_map s kernel_pml virt_addr phys_addr length = do
  let virt_addr' = if virt_addr == 0 then to_higher phys_addr else virt_addr
  s ←
      pml_map s kernel_pml virt_addr' phys_addr (size_in_pages length)
        (bit_or page_write page_global)
  done (virt_addr', s)

-- space_init, where the upper half of the root is copied from the kernel's
abbrev pub upper_half_from : Paging → ℕ → ℕ → Paging
upper_half_from s kernel_pml pml = record s {
  entries = update s.entries pml (λ i.
      if leb (page_entry_amount / 2) i
      then (if ltb i page_entry_amount then s.entries kernel_pml i else s.entries pml i)
      else s.entries pml i);
}

unfoldable pub space_init : Paging → ℕ → Outcome Space
space_init s kernel_pml = do
  (pml, s) ← pml_new s
  done (record { paging = upper_half_from s kernel_pml pml; pml = pml; free_address = 0x400000 })

-- space_cleanup, where the upper half of the root, the kernel's, is taken out first
abbrev pub upper_half_cleared : Paging → ℕ → Paging
upper_half_cleared s pml = record s {
  entries = update s.entries pml (λ i.
      if leb (page_entry_amount / 2) i && ltb i page_entry_amount then 0 else s.entries pml i);
}

unfoldable pub space_cleanup : Space → Outcome Paging
space_cleanup u = pml_free (upper_half_cleared u.paging u.pml) u.pml
