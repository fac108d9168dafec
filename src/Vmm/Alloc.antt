-- ===== src/Vmm/Alloc.antt =====
-- vmm_alloc of src/kernel/vmm.c: the region gets pages of its own, and vmm_unmap takes them back.
use asym.Base.{
  ℕ, zero, suc, ◌+◌, ◌-◌, ◌*◌, ◌%◌, ◌^◌, ◌≤◌, ◌<◌, ◌≡◌, ◌≢◌, refl, sym, ap, subst, ◌∙◌, arith, ltb,
  ltb→lt, true, false, ◌==◌, none, some, List, [], ◌∷◌, length, add64, mul64, Bool-cases, inl, inr,
}
use Prim.Native.Nat.{bit_or}
use asym.Base.Errors.{einval, eacces, eexist, Result, value, error}
use asym.Pmm.Bitmap.{Outcome, done, page_size}
use asym.Pmm.{◌>>=◌, pmm_alloc}
use asym.Pmm.Supply.{Taken, pmm_alloc-Supply}
use asym.Pml.{Paging, is_owned, page_owned, page_entry_create, to_lower, walk}
unfoldable use asym.Pml.{pml_get}
use asym.Pml.Entry.{flags_end, create-is_owned}
use asym.Pml.Shape.{Places, Shaped}
unfoldable use asym.Pml.Shape.{same_page}
unfoldable use asym.Pml.Look.{entry_at}
use asym.Pml.Own.{map_owned-Mapped}
use asym.Pml.Look.{is_some}
use asym.Pml.Translate.{page_of, pml_mapped_lem, all_shown-each}
use asym.Pml.Unmap.{unmap_spec-inside, unmap_spec-outside}
use asym.Vmm.{Space, with_paging, vmm_prot_to_flags, can_read, vmm_unmap}
unfoldable use asym.Vmm.{vmm_alloc, alloc_pages, vmm_mapped}
use asym.Vmm.Region.{prot-Flags, prot_refused}
use asym.Vmm.Calls.{vmm_unmap_lem, Sound, start_of, pages_of}

-- What allocating `n` pages from page `i` of the region leaves.
pub record Allocated (s : Space) (v i n flags : ℕ) (r : Outcome Space) : Type 0 where
  pub after : Paging
  pub returns : r ≡ done (with_paging s after)
  pub rest : List ℕ
  pub places : Places
  pub shape : Shaped after s.pml rest places
  pub within :
      (w k : ℕ)
      → k < n
      → page_of w ≡ (page_of v + (i + k)) % 2 ^ 36
      → (e : ℕ) × (entry_at after s.pml w ≡ some e) × (is_owned e ≡ true)
  pub outside :
      (w : ℕ)
      → ((k : ℕ) → k < n → page_of w ≢ (page_of v + (i + k)) % 2 ^ 36)
      → entry_at after s.pml w ≡ entry_at s.paging s.pml w

entry_at-pmm :
    (s : Paging) (q : asym.Pmm.Pmm) (root w : ℕ)
    → entry_at (record s { pmm = q }) root w ≡ entry_at s root w
unfolding entry_at walk pml_get
entry_at-pmm s q root w = refl

-- A page is taken from the supply; it is none of the tables.
taken-Shaped :
    {s : Paging} {root a : ℕ} {xs : List ℕ} {p : Places}
    → Shaped s root (a ∷ xs) p
    → (took : Taken s.pmm a xs)
    → Shaped (record s { pmm = took.pmm }) root took.rest p × (p.rank a ≡ 0)
taken-Shaped {a} {p} shape took = (
  record {
    supply = took.supply;
    root_rank = shape.root_rank;
    child = shape.child;
    used = λ x h. took.others x (shape.used x h).1;
    pages = shape.pages;
  },
  elim (Bool-cases (p.rank a == 0)) [
    | inl z ↦ ground (arith, z)
    | inr z ↦ absurd ((shape.used a (ground (arith, z))).0 refl)
  ],
)

alloc_pages-Allocated :
    (n : ℕ) (s : Space) (xs : List ℕ) (p : Places) (v i flags : ℕ)
    → Sound s xs p
    → 8 * n ≤ length xs
    → flags < flags_end
    → is_owned flags ≡ true
    → n ≤ 2 ^ 36
    → Allocated s v i n flags (alloc_pages n s v i flags)
unfolding alloc_pages same_page
alloc_pages-Allocated zero s xs p v i flags shape room few owned small = record {
  after = s.paging;
  returns = refl;
  rest = xs;
  places = p;
  shape = shape;
  within = λ w k lt. elim lt [ ];
  outside = λ w h. refl;
}
alloc_pages-Allocated (suc n) s [] p v i flags shape room few owned small = absurd (omega arith)
alloc_pages-Allocated (suc n) s (a ∷ xs) p v i flags shape room few owned small =
    let took = pmm_alloc-Supply s.paging.pmm a xs shape.supply in
    let (shape', unranked) = taken-Shaped shape took in
    let v' = add64 v (mul64 i page_size) in
    let m =
      map_owned-Mapped (record (s.paging) { pmm = took.pmm }) s.pml took.rest p v' a flags shape'
        (omega (arith, took.enough)) few unranked took.gone took.page in
    let new = page_entry_create (to_lower a) flags in
    let b =
      alloc_pages-Allocated n (with_paging s m.after) m.rest m.places v (i + 1) flags m.shape
        (omega (arith, took.enough, m.enough)) few owned (omega arith) in
    let apart : (w : ℕ)
        → page_of w ≢ (page_of v + i) % 2 ^ 36
        → entry_at m.after s.pml w ≡ entry_at s.paging s.pml w =
      λ w ne. m.shows w ∙ ground (arith, ne, entry_at-pmm s.paging took.pmm s.pml w) in
    record {
      after = b.after;
      returns = rw (took.returns, m.returns) b.returns;
      rest = b.rest;
      places = b.places;
      shape = b.shape;
      within = λ w k lt q. elim (Bool-cases (k == 0)) [
        | inl z ↦
            let here : page_of w ≡ page_of v' = ground (arith, z, q) in
            (
              new,
              b.outside w (λ j lt' r. absurd (omega (arith, here, r)))
                  ∙ m.shows w
                  ∙ ground (arith, here),
              create-is_owned flags few (to_lower a) ∙ owned,
            )
        | inr z ↦
            let up : k ≢ 0 = ground (arith, z) in
            b.within w (k - 1) (omega (arith, up)) (omega (arith, up, q))
      ];
      outside = λ w h.
          b.outside w (λ k lt q. h (suc k) (omega arith) (omega (arith, q)))
          ∙ apart w (λ q. h 0 (omega arith) (omega (arith, q)));
    }

-- How vmm_alloc ends at an address that is given.
pub data AllocEnd (s : Space) (v length prot : ℕ) : Outcome (Result × Space) → Type 0 where
  empty : length ≡ 0 → AllocEnd s v length prot (done (error einval, s))
  unreadable : can_read prot ≡ false → AllocEnd s v length prot (done (error eacces, s))
  taken : vmm_mapped s v length ≡ true → AllocEnd s v length prot (done (error eexist, s))
  allocates :
      (r : Outcome Space)
      (a : Allocated s
        (start_of v length)
        0
        (pages_of v length)
        (bit_or (vmm_prot_to_flags prot) page_owned)
        r)
      → vmm_mapped s v length ≡ false
      → AllocEnd s v length prot (done (value (start_of v length), with_paging s a.after))

module _ (fuel : ℕ) (s : Space) (xs : List ℕ) (p : Places) (v length' prot : ℕ)
    (shape : Sound s xs p) (given : v ≢ 0) (room : 8 * pages_of v length' ≤ length xs)
    (small : pages_of v length' ≤ 2 ^ 36) where
  allocated :
      can_read prot ≡ true
      → Allocated s
          (start_of v length')
          0
          (pages_of v length')
          (bit_or (vmm_prot_to_flags prot) page_owned)
          (alloc_pages
            (pages_of v length')
            s
            (start_of v length')
            0
            (bit_or (vmm_prot_to_flags prot) page_owned))
  allocated r =
      let flags = prot-Flags prot r in
      alloc_pages-Allocated (pages_of v length') s xs p (start_of v length') 0
        (bit_or (vmm_prot_to_flags prot) page_owned) shape room flags.few_owned flags.owned small

  alloc-returns :
      (some_length : length' ≢ 0) (r : can_read prot ≡ true)
      → vmm_mapped s v length' ≡ false
      → vmm_alloc fuel s v length' prot
        ≡ done (value (start_of v length'), with_paging s (allocated r).after)
  unfolding vmm_alloc vmm_mapped
  alloc-returns some_length r t =
      let flags = prot-Flags prot r in
      let not_null : (v == 0) ≡ false = ground (arith, given) in
      let not_empty : (length' == 0) ≡ false = ground (arith, some_length) in
      rw (not_empty, flags.valid, not_null, t, (allocated r).returns) refl

  -- With eight free pages for each page of the region, vmm_alloc at an address other than NULL returns:
  -- every page of the region then shows an owned entry and all others are as they were, unless an
  -- argument is refused or the region is wholly mapped already, when nothing changes.
  pub vmm_alloc_lem : AllocEnd s v length' prot (vmm_alloc fuel s v length' prot)
  unfolding vmm_alloc vmm_mapped
  vmm_alloc_lem = elim (Bool-cases (length' == 0)) [
    | inl f ↦ rw f (empty (ground (arith, f)))
    | inr f ↦ elim (Bool-cases (can_read prot)) [
      | inr r ↦ rw (f, prot_refused prot r) (unreadable r)
      | inl r ↦
          let flags = prot-Flags prot r in
          let not_null : (v == 0) ≡ false = ground (arith, given) in
          elim (Bool-cases (vmm_mapped s v length')) [
            | inl t ↦ rw (f, flags.valid, not_null, t) (taken t)
            | inr t ↦
                subst (AllocEnd s v length' prot) (sym (alloc-returns (ground (arith, f)) r t)) (
                  allocates
                    (alloc_pages (pages_of v length') s (start_of v length') 0
                      (bit_or (vmm_prot_to_flags prot) page_owned))
                    (allocated r) t)
          ]
    ]
  ]

-- A region of which no page was mapped: what vmm_alloc has put there, vmm_unmap takes away, and the
-- address space is as it was before.
pub vmm_unmap-vmm_alloc :
    (fuel : ℕ) (s : Space) (xs : List ℕ) (p : Places) (v length' prot : ℕ)
    → Sound s xs p
    → v ≢ 0
    → 8 * pages_of v length' ≤ length xs
    → pages_of v length' ≤ 2 ^ 36
    → length' ≢ 0
    → can_read prot ≡ true
    → vmm_mapped s v length' ≡ false
    → ((w k : ℕ)
        → k < pages_of v length'
        → page_of w ≡ (page_of (start_of v length') + k) % 2 ^ 36
        → entry_at s.paging s.pml w ≡ none)
    → (t : Space) × (u : Space) × (vmm_alloc fuel s v length' prot
        ≡ done (value (start_of v length'), t))
      × (vmm_unmap t v length' ≡ done (value 0, u))
      × ((w : ℕ) → entry_at u.paging s.pml w ≡ entry_at s.paging s.pml w)
unfolding vmm_mapped
vmm_unmap-vmm_alloc fuel s xs p v length' prot shape given room small some_length readable free
      blank =
    let n = pages_of v length' in
    let start = start_of v length' in
    let a = allocated fuel s xs p v length' prot shape given room small readable in
    let t = with_paging s a.after in
    let shown : vmm_mapped t v length' ≡ true =
      pml_mapped_lem a.after s.pml start n
      ∙ all_shown-each a.after s.pml start n
          (λ w k lt q. let (e, e_at, _) = a.within w k lt (omega (arith, q)) in ap is_some e_at) in
    elim (vmm_unmap_lem t a.rest a.places v length' a.shape small) [
      | inl (refused, _) ↦ absurd (ground (arith, refused, shown))
      | inr (_, (after, _, _, returns, _, shows)) ↦ (
        t,
        with_paging t after,
        alloc-returns fuel s xs p v length' prot shape given room small some_length readable free,
        returns,
        λ w. shows w ∙ elim (Bool-cases (ltb ((page_of w + 2 ^ 36 - page_of start) % 2 ^ 36) n)) [
          | inl lt ↦
              let k = (page_of w + 2 ^ 36 - page_of start) % 2 ^ 36 in
              let less : k < n = ltb→lt k n lt in
              let here : page_of w ≡ (page_of start + k) % 2 ^ 36 = omega arith in
              unmap_spec-inside n start (entry_at a.after s.pml) w k less here
              ∙ sym (blank w k less here)
          | inr ge ↦
              let out : (k : ℕ) → k < n → page_of w ≢ (page_of start + k) % 2 ^ 36 =
                λ k lt q. absurd (ground (arith, ge, q)) in
              unmap_spec-outside n start (entry_at a.after s.pml) w out
              ∙ a.outside w (λ k lt q. out k lt (omega (arith, q)))
        ],
      )
    ]
