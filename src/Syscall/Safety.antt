-- ===== src/Syscall/Safety.antt =====
-- What the checks of src/kernel/syscall.c make sure of.
use asym.Base.{
  ℕ, ◌+◌, ◌-◌, ◌%◌, ◌^◌, ◌≤◌, ◌<◌, ◌≡◌, ◌≢◌, refl, ◌∙◌, arith, true, List, word, Bool-cases, inl,
  inr,
}
use asym.Base.Errors.{efault, Result, value, error}
use asym.Pmm.Bitmap.{done}
use asym.Pml.{pml_get_index}
use asym.Pml.Shape.{Places}
use asym.Pml.Look.{entry_at, is_some}
use asym.Pml.Translate.{page_of}
use asym.Pml.Unmap.{mapped-Shows, unmap_spec-outside}
use asym.Vmm.{Space}
unfoldable use asym.Vmm.{vmm_mapped, size_in_pages, vmm_align_region}
use asym.Vmm.Calls.{Sound, start_of, pages_of, vmm_unmap_lem}
use asym.Syscall.{lower_half_max}
unfoldable use asym.Syscall.{verify_pointer, verify_buffer, syscall_munmap}

-- A range that verify_pointer accepts, without a wrap.
lower :
    (pointer length : ℕ)
    → verify_pointer pointer length ≡ true
    → pointer + length < word
    → pointer + length ≤ lower_half_max
unfolding verify_pointer
lower pointer length e fits = ground (arith, e)

pages-lower :
    (v length : ℕ)
    → v + length ≤ lower_half_max
    → page_of (start_of v length) + pages_of v length ≤ 2 ^ 35
unfolding size_in_pages vmm_align_region
pages-lower v length low = omega arith

page-in :
    (v length k : ℕ)
    → v + length ≤ lower_half_max
    → k < length
    → (j : ℕ) × (j < pages_of v length)
      × (page_of (v + k) ≡ (page_of (start_of v length) + j) % 2 ^ 36)
unfolding size_in_pages vmm_align_region
page-in v length k low lt =
    (page_of (v + k) - page_of (start_of v length), omega arith, omega arith)

verified :
    (s : Space) (pointer length : ℕ)
    → verify_buffer s pointer length ≡ true
    → (verify_pointer pointer length ≡ true) × (vmm_mapped s pointer length ≡ true)
unfolding verify_buffer
verified s pointer length e = (ground (arith, e), ground (arith, e))

-- Every byte of a buffer that verify_buffer accepts lies in the lower half, on a page that is mapped, as
-- long as the end of the buffer does not wrap around.
pub verify_buffer_safe :
    (s : Space) (pointer length k : ℕ)
    → verify_buffer s pointer length ≡ true
    → pointer + length < word
    → k < length
    → (pointer + k < lower_half_max) × (is_some (entry_at s.paging s.pml (pointer + k)) ≡ true)
unfolding vmm_mapped
verify_buffer_safe s pointer length k e fits lt =
    let (ok, mapped) = verified s pointer length e in
    let low = lower pointer length ok fits in
    let (j, less, here) = page-in pointer length k low lt in
    (
      omega (arith, low, lt),
      mapped-Shows s.paging s.pml (start_of pointer length) (pages_of pointer length) mapped
          (pointer + k) j less here,
    )

-- An address of the upper half is on none of the pages of a range in the lower half.
upper-out :
    (v length w k : ℕ)
    → v + length ≤ lower_half_max
    → 256 ≤ pml_get_index w 4
    → k < pages_of v length
    → page_of w ≢ (page_of (start_of v length) + k) % 2 ^ 36
unfolding pml_get_index
upper-out v length w k low high lt = let few = pages-lower v length low in omega (arith, few)

-- syscall_munmap returns, and what it changes is in the lower half: the kernel's pages show as before,
-- as long as the end of the range does not wrap around.
pub syscall_munmap_safe :
    (s : Space) (xs : List ℕ) (p : Places) (v length w : ℕ)
    → Sound s xs p
    → v + length < word
    → 256 ≤ pml_get_index w 4
    → (r : Result) × (t : Space) × (syscall_munmap s v length ≡ done (r, t))
      × (entry_at t.paging s.pml w ≡ entry_at s.paging s.pml w)
unfolding syscall_munmap
syscall_munmap_safe s xs p v length w shape fits high =
    elim (Bool-cases (verify_pointer v length)) [
      | inr e ↦ (error efault, s, rw e refl, refl)
      | inl e ↦
          let low = lower v length e fits in
          let few = pages-lower v length low in
          elim (vmm_unmap_lem s xs p v length shape (omega (arith, few))) [
            | inl (_, returns) ↦ (error efault, s, rw (e, returns) refl, refl)
            | inr (_, (after, _, _, returns, _, shows)) ↦ (
              value 0,
              record s { paging = after },
              rw (e, returns) refl,
              shows w
                  ∙ unmap_spec-outside (pages_of v length) (start_of v length)
                      (entry_at s.paging s.pml) w (λ k lt. upper-out v length w k low high lt),
            )
          ]
    ]
