-- ===== src/Vmm/Tests.antt =====
-- The properties of src/kernel/vmm.c and space.c at small inputs.
use asym.Base.{
  ◌*◌, length, ◌≢◌, ℕ, zero, suc, ◌-◌, ◌^◌, ◌≤◌, ◌<◌, round_down, uint64_max, ◌≡◌, ◌⊎◌, refl, arith,
  true, false, none, List, leb, if◌then◌else◌,
}
use asym.Base.Errors.{efault, eacces, value, error}
use asym.Pmm.Bitmap.{done, running}
use asym.Pml.{Paging, pml_get_index}
unfoldable use asym.Pml.{pml_mapped, is_mapped, walk, pml_get, is_present}
use asym.Pml.Shape.{Places, Shaped}
unfoldable use asym.Pml.Look.{entry_at}
use asym.Pml.Change.{Changed}
use asym.Pml.Unmap.{unmap_spec}
use asym.Pml.Sample.{root, empty_tables, free_pages, only_root, empty_tables-Shaped}
use asym.Vmm.{
  upper_half_cleared, space_cleanup, Space, with_paging, vmm_map, vmm_unmap, vmm_protect,
  vmm_find_free_region, vmm_prot_to_flags, can_read,
}
unfoldable use asym.Vmm.{vmm_alloc, vmm_mapped, size_in_pages, vmm_align_region, space_init}
use asym.Vmm.Region.{stepped, vmm_find_free_region_lem, vmm_find_free_region_hangs}
use asym.Vmm.Calls.{start_of, pages_of, vmm_unmap_lem, vmm_protect_lem}
use asym.Vmm.Map.{MapEnd, Chosen, given, found_free, vmm_map_lem}
use asym.Vmm.Alloc.{AllocEnd, vmm_alloc_lem, vmm_unmap-vmm_alloc}
use asym.Vmm.Cleanup.{lower_part, top_slot, space_cleanup_lem}
use asym.Pml.Free.Once.{Freed}
use asym.Pmm.Stack.Lifo.{NotIn}
use asym.Vmm.Init.{space_init_lem}

abbrev space : Space
space = record { paging = empty_tables; pml = root; free_address = 0x400000 }

vmm_find_free_region_lem_example :
    vmm_find_free_region 1 space 100 ≡ done (0x400000, record space { free_address = 0x401000 })
unfolding size_in_pages pml_mapped is_mapped walk pml_get is_present
vmm_find_free_region_lem_example =
    vmm_find_free_region_lem 0 1 space 100 (omega arith) (λ i le. one i le)
      (λ i lt. absurd (omega arith)) refl
  where
    one : (i : ℕ) → i ≤ 0 → stepped i 1 0x400000 < round_down uint64_max 0x1000
    one zero le = omega arith
    one (suc i) le = elim le [ ]

vmm_find_free_region_hangs_example : vmm_find_free_region 1000000 space (2 ^ 64 - 1) ≡ running
vmm_find_free_region_hangs_example =
    vmm_find_free_region_hangs 1000000 space (2 ^ 64 - 1) (omega arith) (omega arith) (omega arith)

vmm_map_lem_example :
    MapEnd 1 space 0x400010 0xE0000000 100 3 (vmm_map 1 space 0x400010 0xE0000000 100 3)
unfolding size_in_pages vmm_align_region
vmm_map_lem_example =
    vmm_map_lem 1 space free_pages only_root 0x400010 0xE0000000 100 3 empty_tables-Shaped enough
  where
    enough :
        (at : ℕ) (t : Space)
        → Chosen 1 space 0x400010 100 at t
        → 6 * pages_of at 100 ≤ length free_pages
    enough at t (given h) = omega arith
    enough at t (found_free a f h e) = absurd (omega (arith, h))

vmm_alloc_lem_example : AllocEnd space 0x400010 100 3 (vmm_alloc 1 space 0x400010 100 3)
unfolding size_in_pages vmm_align_region
vmm_alloc_lem_example =
    vmm_alloc_lem 1 space free_pages only_root 0x400010 100 3 empty_tables-Shaped (omega arith)
      (omega arith) (omega arith)

nothing : (w : ℕ) → entry_at empty_tables root w ≡ none
unfolding entry_at walk pml_get is_present
nothing w = refl

vmm_unmap-vmm_alloc_example :
    (t : Space) × (u : Space) × (vmm_alloc 1 space 0x400010 100 3
      ≡ done (value (start_of 0x400010 100), t))
    × (vmm_unmap t 0x400010 100 ≡ done (value 0, u))
    × ((w : ℕ) → entry_at u.paging root w ≡ entry_at empty_tables root w)
unfolding size_in_pages vmm_align_region vmm_mapped pml_mapped is_mapped walk pml_get is_present
vmm_unmap-vmm_alloc_example =
    vmm_unmap-vmm_alloc 1 space free_pages only_root 0x400010 100 3 empty_tables-Shaped
      (omega arith) (omega arith) (omega arith) (omega arith) refl refl (λ w k lt q. nothing w)

vmm_unmap_lem_example :
    ((vmm_mapped space 0x400010 100 ≡ false)
      × (vmm_unmap space 0x400010 100 ≡ done (error efault, space)))
    ⊎ ((vmm_mapped space 0x400010 100 ≡ true)
        × ((after : Paging) × (rest : List ℕ) × (places : Places) × (vmm_unmap space 0x400010 100
              ≡ done (value 0, with_paging space after))
            × Shaped after root rest places
            × ((w : ℕ)
                → entry_at after root w
                  ≡ unmap_spec
                      (pages_of 0x400010 100)
                      (start_of 0x400010 100)
                      (entry_at empty_tables root)
                      w)))
unfolding size_in_pages vmm_align_region
vmm_unmap_lem_example =
    vmm_unmap_lem space free_pages only_root 0x400010 100 empty_tables-Shaped (omega arith)

vmm_protect_lem_example :
    ((can_read 1 ≡ false) × (vmm_protect space 0x400010 100 1 ≡ done (error eacces, space)))
    ⊎ ((can_read 1 ≡ true)
        × (((vmm_mapped space 0x400010 100 ≡ false)
              × (vmm_protect space 0x400010 100 1 ≡ done (error efault, space)))
            ⊎ ((vmm_mapped space 0x400010 100 ≡ true)
                × ((after : Paging) × (vmm_protect space 0x400010 100 1
                      ≡ done (value 0, with_paging space after))
                    × Changed empty_tables root free_pages only_root
                        (start_of 0x400010 100)
                        (pages_of 0x400010 100)
                        (vmm_prot_to_flags 1)
                        (done after)))))
unfolding size_in_pages vmm_align_region
vmm_protect_lem_example =
    vmm_protect_lem space free_pages only_root 0x400010 100 1 empty_tables-Shaped (omega arith)

space_init_lem_example :
    (u : Space) × (rest : List ℕ) × (places : Places) × (space_init empty_tables root ≡ done u)
    × Shaped u.paging u.pml rest places
    × ((v : ℕ)
        → entry_at u.paging u.pml v
          ≡ (if leb 256 (pml_get_index v 4) then entry_at empty_tables root v else none))
space_init_lem_example =
    space_init_lem empty_tables root free_pages only_root empty_tables-Shaped (omega arith)

space_cleanup_lem_example :
    (f : Freed
      (upper_half_cleared empty_tables root)
      root
      free_pages
      (lower_part only_root root)
      (space_cleanup space))
    × ((x : ℕ)
        → only_root.rank x ≢ 0
        → x ≢ root
        → 256 ≤ top_slot only_root (4 - only_root.rank x) x
        → NotIn x f.rest)
space_cleanup_lem_example = space_cleanup_lem space free_pages only_root empty_tables-Shaped
