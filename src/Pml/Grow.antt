-- ===== src/Pml/Grow.antt =====
-- pml_get_or_allocate of src/kernel/pml.c: a blank table is hung into the tree, and nothing else changes.
use asym.Base.{
  ℕ, zero, suc, ◌+◌, ◌≤◌, ◌<◌, ◌≡◌, ◌≢◌, refl, sym, ap, ◌∙◌, arith, true, false, ◌&&◌, none, some,
  List, [], ◌∷◌, length, ◌==◌, if◌then◌else◌, Bool-cases, Option-cases, inl, inr,
}
use asym.Base.Maps.{update, update_self, update_ne}
use asym.Pmm.Stack.Lifo.{NotIn}
use asym.Pmm.Bitmap.{Outcome, done}
use asym.Pmm.Supply.{Taken, IsPage, pmm_alloc-Supply}
use asym.Pml.{
  Paging, entry_address, is_present, is_owned, pml_get_index, pml_get, pml_get_or_allocate,
  with_entry, with_blank, page_entry_create, to_lower,
}
use asym.Pml.Entry.{flags_end, create-is_present, create-page}
use asym.Pml.Shape.{Places, At, Shaped, index-lt, get-entry, entry-get, none-get, child-get}
unfoldable use asym.Pml.Look.{look}

abbrev pub placed : Places → ℕ → ℕ → ℕ → ℕ → Places
placed p c r table i = record {
  rank = update p.rank c r;
  parent = update p.parent c table;
  slot = update p.slot c i;
}

-- What a call leaves: the table `c`, and a tree that shows the same.
pub record Grown (s : Paging) (root : ℕ) (xs : List ℕ) (p : Places) (table i r : ℕ)
    (m : Outcome (ℕ × Paging)) : Type 0 where
  pub c : ℕ
  pub after : Paging
  pub returns : m ≡ done (c, after)
  pub rest : List ℕ
  pub places : Places
  pub shape : Shaped after root rest places
  pub at : At places c r table i
  pub leads : pml_get after table i ≡ some c
  pub ranks : (x : ℕ) → p.rank x ≢ 0 → places.rank x ≡ p.rank x
  pub keeps : (t j d : ℕ) → p.rank t ≢ 0 → pml_get s t j ≡ some d → pml_get after t j ≡ some d
  pub shows : (n t v : ℕ) → p.rank t ≡ suc (suc n) → look after n t v ≡ look s n t v
  pub enough : length xs ≤ length rest + 2
  pub others : (x : ℕ) → NotIn x xs → NotIn x rest
  pub fresh : (x : ℕ) → p.rank x ≡ 0 → NotIn x xs → places.rank x ≡ 0

module _ {s : Paging} {root : ℕ} {a : ℕ} {xs : List ℕ} {p : Places}
    (shape : Shaped s root (a ∷ xs) p) (took : Taken s.pmm a xs) (table i r e : ℕ)
    (rank_of : p.rank table ≡ suc (suc (suc r))) (small : i < 512)
    (absent : is_present (s.entries table i) ≡ false) (shown : is_present e ≡ true)
    (leads_to : entry_address e ≡ a) where
  abbrev after : Paging
  after = with_entry (with_blank s a took.pmm) table i e

  abbrev places : Places
  places = placed p a (suc (suc r)) table i

  unused : p.rank a ≡ 0
  unused = elim (Bool-cases (p.rank a == 0)) [
    | inl z ↦ ground (arith, z)
    | inr z ↦ absurd ((shape.used a (ground (arith, z))).0 refl)
  ]

  apart : (t : ℕ) → p.rank t ≢ 0 → t ≢ a
  apart t h q = h (ap p.rank q ∙ unused)

  entry-blank : (j : ℕ) → after.entries a j ≡ 0
  entry-blank j = let ne = apart table (omega arith) in ground (arith, ne)

  entry-new : after.entries table i ≡ e
  entry-new = ground arith

  entry-old :
      (t j : ℕ)
      → p.rank t ≢ 0
      → ((t == table) && (j == i)) ≡ false
      → after.entries t j ≡ s.entries t j
  entry-old t j h q = let ne = apart t h in ground (arith, ne, q)

  is_here : (t j : ℕ) → ((t == table) && (j == i)) ≡ true → (t ≡ table) × (j ≡ i)
  is_here t j h = ground (arith, h)

  blank-look : (n v : ℕ) → look after n a v ≡ none
  unfolding look is_present
  blank-look zero v = rw (entry-blank (pml_get_index v 1))
  blank-look (suc n) v = rw (
      none-get after a (pml_get_index v (suc (suc n)))
        (rw (entry-blank (pml_get_index v (suc (suc n))))))

  get-new : pml_get after table i ≡ some a
  get-new =
      entry-get after table i (rw entry-new shown) ∙ ap some (ap entry_address entry-new ∙ leads_to)

  get-old :
      (t j : ℕ)
      → p.rank t ≢ 0
      → ((t == table) && (j == i)) ≡ false
      → pml_get after t j ≡ pml_get s t j
  unfolding pml_get
  get-old t j h q =
      ap (λ e. if is_present e then some (entry_address e) else none) (entry-old t j h q)

  keeps : (t j d : ℕ) → p.rank t ≢ 0 → pml_get s t j ≡ some d → pml_get after t j ≡ some d
  keeps t j d h g = elim (Bool-cases ((t == table) && (j == i))) [
    | inl q ↦
        let (present, _) = get-entry s t j d g in
        let (x, y) = is_here t j q in absurd (ground (arith, absent, (rw (x, y) at present)))
    | inr q ↦ get-old t j h q ∙ g
  ]

  shows : (n t v : ℕ) → p.rank t ≡ suc (suc n) → look after n t v ≡ look s n t v
  unfolding look
  shows zero t v h = elim (Bool-cases ((t == table) && (pml_get_index v 1 == i))) [
    | inl q ↦ absurd (omega (arith, ap p.rank (is_here t (pml_get_index v 1) q).0))
    | inr q ↦
        ap (λ e. if is_present e then some e else none)
          (entry-old t (pml_get_index v 1) (omega arith) q)
  ]
  shows (suc n) t v h = elim (Bool-cases ((t == table) && (pml_get_index v (suc (suc n)) == i))) [
    | inl q ↦
        let (x, y) = is_here t (pml_get_index v (suc (suc n))) q in
        rw (x, y, get-new, none-get s table i absent) (blank-look n v)
    | inr q ↦
        rw (get-old t (pml_get_index v (suc (suc n))) (omega arith) q)
          (elim (Option-cases (pml_get s t (pml_get_index v (suc (suc n))))) [
            | inl f ↦ rw f
            | inr (c, f) ↦ rw f (
                shows n c v
                  (child-get shape t (pml_get_index v (suc (suc n))) n c h
                    (index-lt v (suc (suc n))) f).rank)
          ])
  ]

  blank_absent : {e : ℕ} → e ≡ 0 → is_present e ≢ true
  unfolding is_present
  blank_absent e h = ground (arith, e, h)

  At-old : (c r' t j : ℕ) → At p c (suc r') t j → At places c (suc r') t j
  At-old c r' t j at =
      let ne = apart c (omega (arith, at.rank)) in
      record {
        rank = update_ne p.rank a (suc (suc r)) c ne ∙ at.rank;
        parent = update_ne p.parent a table c ne ∙ at.parent;
        slot = update_ne p.slot a i c ne ∙ at.slot;
      }

  At-new : At places a (suc (suc r)) table i
  At-new = record {
    rank = update_self p.rank a (suc (suc r));
    parent = update_self p.parent a table;
    slot = update_self p.slot a i;
  }

  after-child :
      (t j r' : ℕ)
      → places.rank t ≡ suc (suc r')
      → j < 512
      → is_present (after.entries t j) ≡ true
      → (r' ≡ 0 → is_owned (after.entries t j) ≡ true)
      → At places (entry_address (after.entries t j)) (suc r') t j
  after-child t j r' h k present owned = elim (Bool-cases (t == a)) [
    | inl q ↦
        let here : t ≡ a = ground (arith, q) in
        absurd (blank_absent (entry-blank j) (rw here at present))
    | inr q ↦
        let ne : t ≢ a = ground (arith, q) in
        let h' : p.rank t ≡ suc (suc r') = sym (update_ne p.rank a (suc (suc r)) t ne) ∙ h in
        elim (Bool-cases ((t == table) && (j == i))) [
          | inl here ↦
              let (x, y) = is_here t j here in
              let same : r' ≡ suc r = omega (arith, rank_of, h', ap p.rank x) in
              rw (x, y, entry-new, leads_to, same) At-new
          | inr other ↦
              let old = entry-old t j (omega (arith, h')) other in
              rw old (
                At-old (entry_address (s.entries t j)) r' t j
                  (shape.child t j r' h' k (rw old at present) (λ z. rw old at owned z)))
        ]
  ]

  after-used : (x : ℕ) → places.rank x ≢ 0 → NotIn x took.rest
  after-used x h = elim (Bool-cases (x == a)) [
    | inl q ↦ let here : x ≡ a = ground (arith, q) in rw here took.gone
    | inr q ↦
        let ne : x ≢ a = ground (arith, q) in
        took.others x (shape.used x (λ z. h (update_ne p.rank a (suc (suc r)) x ne ∙ z))).1
  ]

  after-pages : (x : ℕ) → places.rank x ≢ 0 → IsPage x
  after-pages x h = elim (Bool-cases (x == a)) [
    | inl q ↦ let here : x ≡ a = ground (arith, q) in rw here took.page
    | inr q ↦
        let ne : x ≢ a = ground (arith, q) in
        shape.pages x (λ z. h (update_ne p.rank a (suc (suc r)) x ne ∙ z))
  ]

  after-Shaped : Shaped after root took.rest places
  after-Shaped = record {
    supply = took.supply;
    root_rank =
        update_ne p.rank a (suc (suc r)) root (apart root (omega (arith, shape.root_rank)))
        ∙ shape.root_rank;
    child = after-child;
    used = after-used;
    pages = after-pages;
  }

module _ {s : Paging} {root : ℕ} {p : Places} (table i r flags : ℕ)
    (rank_of : p.rank table ≡ suc (suc (suc r))) (small : i < 512) (few : flags < flags_end) where
  there :
      (xs : List ℕ) (shape : Shaped s root xs p)
      → is_present (s.entries table i) ≡ true
      → Grown s root xs p table i (suc (suc r)) (pml_get_or_allocate s table i flags)
  unfolding pml_get_or_allocate
  there xs shape e = record {
    c = entry_address (s.entries table i);
    after = s;
    returns = rw e;
    rest = xs;
    places = p;
    shape = shape;
    at =
        child-get shape table i r (entry_address (s.entries table i)) rank_of small
          (entry-get s table i e);
    leads = entry-get s table i e;
    ranks = λ x h. refl;
    keeps = λ t j d h g. g;
    shows = λ n t v h. refl;
    enough = omega arith;
    others = λ x h. h;
    fresh = λ x h n. h;
  }

  allocated :
      (a : ℕ) (xs : List ℕ) (shape : Shaped s root (a ∷ xs) p)
      → is_present (s.entries table i) ≡ false
      → Grown s root (a ∷ xs) p table i (suc (suc r)) (pml_get_or_allocate s table i flags)
  unfolding pml_get_or_allocate
  allocated a xs shape e =
      let took = pmm_alloc-Supply s.pmm a xs shape.supply in
      let entry = page_entry_create (to_lower a) flags in
      let shown = create-is_present flags few (to_lower a) in
      let leads_to = create-page flags few a took.page in
      record {
        c = a;
        after = with_entry (with_blank s a took.pmm) table i entry;
        returns = rw (e, took.returns);
        rest = took.rest;
        places = placed p a (suc (suc r)) table i;
        shape = after-Shaped shape took table i r entry rank_of small e shown leads_to;
        at = At-new shape took table i r entry rank_of small e shown leads_to;
        leads = get-new shape took table i r entry rank_of small e shown leads_to;
        ranks = λ x h.
            update_ne p.rank a (suc (suc r)) x
              (apart shape took table i r entry rank_of small e shown leads_to x h);
        keeps = keeps shape took table i r entry rank_of small e shown leads_to;
        shows = shows shape took table i r entry rank_of small e shown leads_to;
        enough = omega (arith, took.enough);
        others = λ x h. took.others x h.1;
        fresh = λ x h n. update_ne p.rank a (suc (suc r)) x (λ q. n.0 (sym q)) ∙ h;
      }

  -- With two pages in supply the call returns the table that the entry leads to, a new one if need be.
  pub get_or_allocate-Grown :
      (xs : List ℕ) (shape : Shaped s root xs p)
      → 2 ≤ length xs
      → Grown s root xs p table i (suc (suc r)) (pml_get_or_allocate s table i flags)
  get_or_allocate-Grown [] shape room = elim room [ ]
  get_or_allocate-Grown (a ∷ xs) shape room = elim (Bool-cases (is_present (s.entries table i))) [
    | inl e ↦ there (a ∷ xs) shape e
    | inr e ↦ allocated a xs shape e
  ]
