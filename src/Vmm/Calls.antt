-- ===== src/Vmm/Calls.antt =====
-- vmm_unmap and vmm_protect of src/kernel/vmm.c on every branch.
use asym.Base.{ℕ, ◌^◌, ◌≤◌, ◌≡◌, ◌⊎◌, refl, true, false, List, length, Bool-cases, inl, inr}
use asym.Base.Errors.{eacces, efault, value, error}
use asym.Pmm.Bitmap.{done}
use asym.Pml.{Paging}
use asym.Pml.Shape.{Places, Shaped}
use asym.Pml.Look.{entry_at}
use asym.Pml.Unmap.{unmap_spec, pml_unmap_lem, mapped-Shows}
use asym.Pml.Change.{Changed, pml_change_flags_lem}
use asym.Vmm.{Space, with_paging, size_in_pages, vmm_align_region, can_read, vmm_prot_to_flags}
unfoldable use asym.Vmm.{vmm_unmap, vmm_protect, vmm_mapped}
use asym.Vmm.Region.{prot-Flags, prot_refused}

-- The tables of a space, the free pages and what each page is.
abbrev pub Sound : Space → List ℕ → Places → Type 0
Sound s xs p = Shaped s.paging s.pml xs p

-- the pages that a call on the region works on
abbrev pub start_of : ℕ → ℕ → ℕ
start_of v length = (vmm_align_region v length).0

abbrev pub pages_of : ℕ → ℕ → ℕ
pages_of v length = size_in_pages (vmm_align_region v length).1

-- vmm_unmap refuses a region that is not wholly mapped, and changes nothing; else it returns 0, no page
-- of the region is mapped any more, and all others are as they were.
pub vmm_unmap_lem :
    (s : Space) (xs : List ℕ) (p : Places) (v length : ℕ)
    → Sound s xs p
    → pages_of v length ≤ 2 ^ 36
    → ((vmm_mapped s v length ≡ false) × (vmm_unmap s v length ≡ done (error efault, s)))
      ⊎ ((vmm_mapped s v length ≡ true)
          × ((after : Paging) × (rest : List ℕ) × (places : Places) × (vmm_unmap s v length
                ≡ done (value 0, with_paging s after))
              × Shaped after s.pml rest places
              × ((w : ℕ)
                  → entry_at after s.pml w
                    ≡ unmap_spec
                        (pages_of v length)
                        (start_of v length)
                        (entry_at s.paging s.pml)
                        w)))
unfolding vmm_unmap vmm_mapped
vmm_unmap_lem s xs p v length shape small = elim (Bool-cases (vmm_mapped s v length)) [
  | inl e ↦
      let u =
        pml_unmap_lem (pages_of v length) s.paging s.pml xs p (start_of v length) shape small
          (mapped-Shows s.paging s.pml (start_of v length) (pages_of v length) e) in
      inr (e, (u.after, u.rest, u.places, rw (e, u.returns) refl, u.shape, u.shows))
  | inr e ↦ inl (e, rw e refl)
]

-- vmm_protect refuses a region that may not be read, then one that is not wholly mapped, and changes
-- nothing; else it returns 0, the pages of the region keep their frames and are writable as asked, and
-- all others are as they were.
pub vmm_protect_lem :
    (s : Space) (xs : List ℕ) (p : Places) (v length prot : ℕ)
    → Sound s xs p
    → pages_of v length ≤ 2 ^ 36
    → ((can_read prot ≡ false) × (vmm_protect s v length prot ≡ done (error eacces, s)))
      ⊎ ((can_read prot ≡ true)
          × (((vmm_mapped s v length ≡ false)
                × (vmm_protect s v length prot ≡ done (error efault, s)))
              ⊎ ((vmm_mapped s v length ≡ true)
                  × ((after : Paging) × (vmm_protect s v length prot
                        ≡ done (value 0, with_paging s after))
                      × Changed s.paging s.pml xs p
                          (start_of v length)
                          (pages_of v length)
                          (vmm_prot_to_flags prot)
                          (done after)))))
unfolding vmm_protect vmm_mapped
vmm_protect_lem s xs p v length prot shape small = elim (Bool-cases (can_read prot)) [
  | inl r ↦
      let f = prot-Flags prot r in
      inr (
        r,
        elim (Bool-cases (vmm_mapped s v length)) [
          | inl e ↦
              let c =
                pml_change_flags_lem (pages_of v length) s.paging s.pml xs p (start_of v length)
                  (vmm_prot_to_flags prot) shape f.few f.unowned small
                  (mapped-Shows s.paging s.pml (start_of v length) (pages_of v length) e) in
              inr (
                e,
                (
                  c.after,
                  rw (f.valid, e, c.returns) refl,
                  record {
                    after = c.after;
                    returns = refl;
                    shape = c.shape;
                    within = c.within;
                    outside = c.outside;
                  },
                ),
              )
          | inr e ↦ inl (e, rw (f.valid, e) refl)
        ],
      )
  | inr r ↦ inl (r, rw (prot_refused prot r) refl)
]
