-- ===== src/Syscall/Tests.antt =====
-- The checks of src/kernel/syscall.c at small inputs.
use asym.Base.{ℕ, ◌+◌, ◌<◌, ◌≡◌, refl, arith, true, ◌&&◌, ◌==◌, if◌then◌else◌, []}
use asym.Base.Errors.{Result}
use asym.Pmm.Bitmap.{done}
unfoldable use asym.Pml.{
  pml_mapped, is_mapped, walk, pml_get, is_present, pml_get_index, entry_address,
}
use asym.Pml.Look.{entry_at, is_some}
use asym.Pml.Sample.{root, pmm, empty_tables, free_pages, only_root, empty_tables-Shaped}
use asym.Vmm.{Space}
unfoldable use asym.Vmm.{vmm_mapped, size_in_pages, vmm_align_region}
use asym.Syscall.{lower_half_max, syscall_munmap}
unfoldable use asym.Syscall.{verify_pointer, verify_buffer}
use asym.Syscall.Safety.{verify_buffer_safe, syscall_munmap_safe}

-- Tables at frames 1, 2 and 3, which map the page at 0x400000 to frame 9.
abbrev one_page : ℕ → ℕ → ℕ
one_page t i =
    if t == root && i == 0
    then 0x1007
    else if t == 0xFFFF800000001000 && i == 0
    then 0x2007
    else if t == 0xFFFF800000002000 && i == 2
    then 0x3007
    else if t == 0xFFFF800000003000 && i == 0
    then 0x9007
    else 0

abbrev space : Space
space = record {
  paging = record { entries = one_page; pmm = pmm; invalidated = [] };
  pml = root;
  free_address = 0x400000;
}

verify_buffer_safe_example :
    (0x400010 + 7 < lower_half_max) × (is_some (entry_at space.paging root (0x400010 + 7)) ≡ true)
unfolding verify_pointer verify_buffer vmm_mapped size_in_pages vmm_align_region pml_mapped
    is_mapped walk pml_get is_present pml_get_index entry_address
verify_buffer_safe_example =
    verify_buffer_safe space 0x400010 100 7 refl (omega arith) (omega arith)

syscall_munmap_safe_example :
    (r : Result) × (t : Space) × (syscall_munmap
        (record { paging = empty_tables; pml = root; free_address = 0x400000 })
        0x400010
        100
      ≡ done (r, t))
    × (entry_at t.paging root 0xFFFF800000400000 ≡ entry_at empty_tables root 0xFFFF800000400000)
unfolding pml_get_index
syscall_munmap_safe_example =
    syscall_munmap_safe (record { paging = empty_tables; pml = root; free_address = 0x400000 })
      free_pages only_root 0x400010 100 0xFFFF800000400000 empty_tables-Shaped (omega arith)
      (omega arith)
