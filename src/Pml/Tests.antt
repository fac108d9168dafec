-- ===== src/Pml/Tests.antt =====
-- The properties of src/kernel/pml.c at small inputs.
use asym.Base.{
  ℕ, ◌+◌, ◌*◌, ◌/◌, ◌%◌, ◌^◌, ◌≡◌, refl, ap, ◌∙◌, arith, Bool, true, false, some, add64,
}
use asym.Pmm.Bitmap.{Outcome, done, page_size}
use asym.Pml.{
  Paging, to_higher, pml_map, pml_unmap, pml_change_flags, pml_phys_addr, pml_mapped,
  page_entry_create,
}
unfoldable use asym.Pml.{is_owned}
use asym.Pml.Sample.{root, empty_tables, free_pages, only_root, empty_tables-Shaped}
unfoldable use asym.Pml.Map.{map_spec}
unfoldable use asym.Pml.Shape.{same_page}
use asym.Pml.Look.{entry_at, is_some}
use asym.Pml.Map.{Mapped, pml_map_lem}
use asym.Pml.Translate.{page_of, pml_phys_addr-pml_map}
use asym.Pml.Unmap.{Unmapped, OnPages, unmap_spec, pml_unmap_lem, Shows}
use asym.Pml.Free.{pml_free}
use asym.Pml.Free.Once.{Freed, pml_free_lem}
use asym.Pml.Change.{Changed, pml_change_flags_lem}

abbrev address : ℕ
address = 0x400000

abbrev frame : ℕ
frame = 0xE0000000

pml_map_lem_example :
    Mapped empty_tables root free_pages
      (map_spec 1 address frame 6)
      6
      (pml_map empty_tables root address frame 1 6)
unfolding is_owned
pml_map_lem_example =
    pml_map_lem 1 empty_tables root free_pages only_root address frame 6 empty_tables-Shaped
      (omega arith) (omega arith) refl

pml_phys_addr-pml_map_example :
    (after : Paging) × (pml_map empty_tables root address frame 1 6 ≡ done after)
    × (pml_phys_addr after root (address + 0x123)
        ≡ done (
            add64
              (to_higher ((frame / 2 ^ 12 + 0) % 2 ^ 40 * 2 ^ 12))
              ((address + 0x123) % page_size)))
unfolding is_owned
pml_phys_addr-pml_map_example =
    pml_phys_addr-pml_map 1 empty_tables root free_pages only_root address frame 6 (address + 0x123)
      0 empty_tables-Shaped (omega arith) (omega arith) refl (omega arith) (omega arith) refl

-- the tables after that call
mapped :
    Mapped empty_tables root free_pages
      (map_spec 1 address frame 6)
      6
      (pml_map empty_tables root address frame 1 6)
unfolding is_owned
mapped =
    pml_map_lem 1 empty_tables root free_pages only_root address frame 6 empty_tables-Shaped
      (omega arith) (omega arith) refl

mapped-Shows_lem : Shows mapped.after root address 1
unfolding map_spec same_page
mapped-Shows_lem w k lt q =
    let here : page_of w ≡ page_of address = omega (arith, q) in
    let there : map_spec 1 address frame 6 (entry_at empty_tables root) w
        ≡ some (page_entry_create frame 6) =
      ground (arith, here) in
    ap is_some (mapped.shows w ∙ there)

pml_unmap_lem_example :
    Unmapped mapped.after root mapped.rest
      (OnPages 1 address)
      (unmap_spec 1 address)
      (pml_unmap mapped.after root address 1)
pml_unmap_lem_example =
    pml_unmap_lem 1 mapped.after root mapped.rest mapped.places address mapped.shape (omega arith)
      mapped-Shows_lem

pml_change_flags_lem_example :
    Changed mapped.after root mapped.rest mapped.places address 1 4
      (pml_change_flags mapped.after root address 1 4)
unfolding is_owned
pml_change_flags_lem_example =
    pml_change_flags_lem 1 mapped.after root mapped.rest mapped.places address 4 mapped.shape
      (omega arith) refl (omega arith) mapped-Shows_lem

-- The code run on these tables: a page is mapped, and no other.
mapped_by : Outcome Paging → ℕ → Bool
mapped_by (done s) v = pml_mapped s root v 1
mapped_by o v = false

maps_there : mapped_by (pml_map empty_tables root address frame 1 6) address ≡ true
unfolding mapped_by pml_map asym.Pml.map_page asym.Pml.pml_get_or_allocate asym.Pml.is_present
    asym.Pmm.pmm_alloc asym.Pmm.Stack.page_stack_alloc pml_mapped asym.Pml.is_mapped asym.Pml.walk
    asym.Pml.pml_get asym.Pml.pml_get_index asym.Pml.page_entry_create asym.Pml.root_flags
    asym.Pml.table_flags asym.Pml.entry_address
maps_there = refl

maps_there_only :
    mapped_by (pml_map empty_tables root address frame 1 6) (address + page_size) ≡ false
unfolding mapped_by pml_map asym.Pml.map_page asym.Pml.pml_get_or_allocate asym.Pml.is_present
    asym.Pmm.pmm_alloc asym.Pmm.Stack.page_stack_alloc pml_mapped asym.Pml.is_mapped asym.Pml.walk
    asym.Pml.pml_get asym.Pml.pml_get_index asym.Pml.page_entry_create asym.Pml.root_flags
    asym.Pml.table_flags asym.Pml.entry_address
maps_there_only = refl

pml_free_lem_example : Freed empty_tables root free_pages only_root (pml_free empty_tables root)
pml_free_lem_example = pml_free_lem empty_tables root free_pages only_root empty_tables-Shaped
