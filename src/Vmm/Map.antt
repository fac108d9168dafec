-- ===== src/Vmm/Map.antt =====
-- vmm_map of src/kernel/vmm.c on every branch.
use asym.Base.{
  ℕ, zero, suc, ◌*◌, ◌≤◌, ◌≡◌, ◌≢◌, ◌⊎◌, refl, sym, subst, arith, true, false, ◌==◌, List, length,
  round_down, uint64_max, ltb, add64, mul64, Bool-cases, inl, inr,
}
use asym.Base.Errors.{einval, eacces, eexist, efault, Result, value, error}
use asym.Pmm.{◌>>=◌}
use asym.Pmm.Bitmap.{Outcome, done, panic, running, page_size}
use asym.Pml.{Paging, pml_mapped}
use asym.Pml.Shape.{Places, Shaped}
use asym.Pml.Look.{entry_at}
use asym.Pml.Map.{map_spec, pml_map_lem}
use asym.Vmm.{
  Space, with_paging, size_in_pages, vmm_align_region, can_read, vmm_prot_to_flags, region_for,
  map_at,
}
unfoldable use asym.Vmm.{vmm_map, vmm_mapped, find_from, vmm_find_free_region}
use asym.Vmm.Region.{prot-Flags, prot_refused}
use asym.Vmm.Calls.{Sound, start_of, pages_of}

-- The region that a call works on: the one that the caller gives or, for NULL, the one that the search
-- finds, which changes `free_address` alone.
pub data Chosen (fuel : ℕ) (s : Space) (v length : ℕ) : ℕ → Space → Type 0 where
  given : v ≢ 0 → Chosen fuel s v length v s
  found_free :
      (at free_address : ℕ)
      → v ≡ 0
      → vmm_find_free_region fuel s length ≡ done (at, record s { free_address = free_address })
      → Chosen fuel s v length at (record s { free_address = free_address })

Chosen-Sound :
    {fuel : ℕ} {s t : Space} {v length at : ℕ} {xs : List ℕ} {p : Places}
    → Chosen fuel s v length at t
    → Sound s xs p
    → Sound t xs p
Chosen-Sound (given h) shape = shape
Chosen-Sound (found_free at free_address h e) shape = shape

Chosen-region :
    {fuel : ℕ} {s t : Space} {v length at : ℕ}
    → Chosen fuel s v length at t
    → region_for fuel s v length ≡ done (at, t)
Chosen-region (given h) = ground (arith, h)
Chosen-region (found_free at free_address h e) = rw h e

-- Arguments that the tests of vmm_map before its region let pass.
abbrev pub Accepted : ℕ → ℕ → ℕ → Type 0
Accepted phys_addr length prot = (phys_addr ≢ 0) × (length ≢ 0) × (can_read prot ≡ true)

-- How vmm_map ends; the cases exclude one another.
pub data MapEnd (fuel : ℕ) (s : Space) (v phys_addr length prot : ℕ)
    : Outcome (Result × Space) → Type 0 where
  no_frame : phys_addr ≡ 0 → MapEnd fuel s v phys_addr length prot (done (error efault, s))
  empty :
      phys_addr ≢ 0 → length ≡ 0 → MapEnd fuel s v phys_addr length prot (done (error einval, s))
  unreadable :
      phys_addr ≢ 0
      → length ≢ 0
      → can_read prot ≡ false
      → MapEnd fuel s v phys_addr length prot (done (error eacces, s))
  search_panics :
      Accepted phys_addr length prot
      → v ≡ 0
      → vmm_find_free_region fuel s length ≡ panic
      → MapEnd fuel s v phys_addr length prot panic
  search_runs :
      Accepted phys_addr length prot
      → v ≡ 0
      → vmm_find_free_region fuel s length ≡ running
      → MapEnd fuel s v phys_addr length prot running
  taken :
      (at : ℕ) (t : Space)
      → Accepted phys_addr length prot
      → Chosen fuel s v length at t
      → vmm_mapped t at length ≡ true
      → MapEnd fuel s v phys_addr length prot (done (error eexist, t))
  maps :
      (at : ℕ) (t : Space) (after : Paging) (rest : List ℕ) (places : Places)
      → Accepted phys_addr length prot
      → Chosen fuel s v length at t
      → vmm_mapped t at length ≡ false
      → Shaped after t.pml rest places
      → ((w : ℕ)
          → entry_at after t.pml w
            ≡ map_spec
                (pages_of at length)
                (start_of at length)
                (round_down phys_addr page_size)
                (vmm_prot_to_flags prot)
                (entry_at t.paging t.pml)
                w)
      → MapEnd fuel s v phys_addr length prot
          (done (value (start_of at length), with_paging t after))

-- The search returns a region and the next place to search from, or ends otherwise.
find-Chosen :
    (fuel : ℕ) (s : Space) (n addr : ℕ)
    → (find_from fuel s n addr ≡ panic)
      ⊎ ((find_from fuel s n addr ≡ running)
          ⊎ ((at : ℕ) × (free_address : ℕ) × (find_from fuel s n addr
                ≡ done (at, record s { free_address = free_address }))))
unfolding find_from
find-Chosen zero s n addr = inr (inl refl)
find-Chosen (suc fuel) s n addr = elim (Bool-cases (ltb addr (round_down uint64_max 0x1000))) [
  | inr e ↦ inl (rw e)
  | inl e ↦ elim (Bool-cases (pml_mapped s.paging s.pml addr n)) [
    | inl f ↦ rw (e, f) (find-Chosen fuel s n (add64 addr (mul64 n page_size)))
    | inr f ↦ inr (inr (addr, add64 addr (mul64 n page_size), rw (e, f) refl))
  ]
]

module _ (fuel : ℕ) (s : Space) (xs : List ℕ) (p : Places) (v phys_addr length' prot : ℕ)
    (shape : Sound s xs p) (ok : Accepted phys_addr length' prot) where
  -- vmm_map once its arguments are accepted
  abbrev continued : Outcome (ℕ × Space) → Outcome (Result × Space)
  continued o = do
    (at, t) ← o
    map_at t (start_of at length') (round_down phys_addr page_size) (vmm_align_region at length').1
        (vmm_prot_to_flags prot)

  abbrev searching : Outcome (Result × Space)
  searching = continued (region_for fuel s v length')

  accepted : vmm_map fuel s v phys_addr length' prot ≡ searching
  unfolding vmm_map
  accepted =
      let flags = prot-Flags prot ok.2 in
      let a : (phys_addr == 0) ≡ false = ground (arith, ok.0) in
      let b : (length' == 0) ≡ false = ground (arith, ok.1) in rw (a, b, flags.valid) refl

  at_region :
      (at : ℕ) (t : Space)
      → Chosen fuel s v length' at t
      → 6 * pages_of at length' ≤ length xs
      → MapEnd fuel s v phys_addr length' prot searching
  unfolding vmm_mapped
  at_region at t c room =
      let flags = prot-Flags prot ok.2 in
      rw (Chosen-region c)
        (elim (Bool-cases (pml_mapped t.paging t.pml (start_of at length') (pages_of at length'))) [
          | inl m ↦ rw m (taken at t ok c m)
          | inr m ↦
              let r =
                pml_map_lem (pages_of at length') t.paging t.pml xs p (start_of at length')
                  (round_down phys_addr page_size) (vmm_prot_to_flags prot) (Chosen-Sound c shape)
                  room flags.few flags.unowned in
              rw (m, r.returns) (maps at t r.after r.rest r.places ok c m r.shape r.shows)
        ])

  some_region :
      ((at : ℕ) (t : Space) → Chosen fuel s v length' at t → 6 * pages_of at length' ≤ length xs)
      → MapEnd fuel s v phys_addr length' prot searching
  unfolding vmm_find_free_region
  some_region room = elim (Bool-cases (v == 0)) [
    | inr e ↦
        let c : Chosen fuel s v length' v s = given (ground (arith, e)) in
        at_region v s c (room v s c)
    | inl e ↦
        let null : v ≡ 0 = ground (arith, e) in
        elim (find-Chosen fuel s (size_in_pages length') s.free_address) [
          | inl f ↦ no_region panic e f (search_panics ok null f)
          | inr (inl f) ↦ no_region running e f (search_runs ok null f)
          | inr (inr (at, free_address, f)) ↦
              let c = found_free at free_address null f in
              at_region at (record s { free_address = free_address }) c
                (room at (record s { free_address = free_address }) c)
        ]
  ]
    where
      no_region :
          (o : Outcome (ℕ × Space))
          → (v == 0) ≡ true
          → vmm_find_free_region fuel s length' ≡ o
          → MapEnd fuel s v phys_addr length' prot (continued o)
          → MapEnd fuel s v phys_addr length' prot searching
      no_region o e f end = rw (e, f) end

-- With enough free pages for tables, vmm_map ends as its tests say, in their order: no frame, no length,
-- no right to read; else in the region that it is given, or that the search finds for NULL, with EEXIST
-- if all of it is mapped already, and otherwise with the region mapped to the frames from `phys_addr` on
-- and all other pages as they were. A refused call changes nothing but the place where the search goes on.
-- Without a region from the search it ends as the search does.
pub vmm_map_lem :
    (fuel : ℕ) (s : Space) (xs : List ℕ) (p : Places) (v phys_addr length' prot : ℕ)
    → Sound s xs p
    → ((at : ℕ) (t : Space) → Chosen fuel s v length' at t → 6 * pages_of at length' ≤ length xs)
    → MapEnd fuel s v phys_addr length' prot (vmm_map fuel s v phys_addr length' prot)
unfolding vmm_map
vmm_map_lem fuel s xs p v phys_addr length' prot shape room = elim (Bool-cases (phys_addr == 0)) [
  | inl e ↦ rw e (no_frame (ground (arith, e)))
  | inr e ↦ elim (Bool-cases (length' == 0)) [
    | inl f ↦ rw (e, f) (empty (ground (arith, e)) (ground (arith, f)))
    | inr f ↦ elim (Bool-cases (can_read prot)) [
      | inr r ↦
          rw (e, f, prot_refused prot r) (unreadable (ground (arith, e)) (ground (arith, f)) r)
      | inl r ↦
          let ok : Accepted phys_addr length' prot = (ground (arith, e), ground (arith, f), r) in
          subst (MapEnd fuel s v phys_addr length' prot)
            (sym (accepted fuel s xs p v phys_addr length' prot shape ok))
            (some_region fuel s xs p v phys_addr length' prot shape ok room)
    ]
  ]
]
