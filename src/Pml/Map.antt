-- ===== src/Pml/Map.antt =====
-- pml_map of src/kernel/pml.c against a map from addresses to entries.
use asym.Base.{
  ℕ, zero, suc, ◌+◌, ◌*◌, ◌≤◌, ◌<◌, ◌≡◌, refl, sym, ap, ◌∙◌, arith, false, Option, some, List,
  length, if◌then◌else◌, add64, ap₂, fun_ext,
}
use asym.Pmm.Stack.Lifo.{NotIn}
use asym.Pmm.Bitmap.{Outcome, done, page_size}
use asym.Pml.{
  Paging, is_owned, pml_get_index, with_entry, page_entry_create, table_flags, root_flags,
}
unfoldable use asym.Pml.{map_page, pml_map}
use asym.Pml.Entry.{flags_end, table_flags-lt, root_flags-lt, create-is_present, create-is_owned}
use asym.Pml.Shape.{Places, Shaped, index-lt, same_page}
unfoldable use asym.Pml.Shape.{find}
use asym.Pml.Look.{entry_at, entry_at-look}
use asym.Pml.Grow.{get_or_allocate-Grown}
use asym.Pml.Write.{entry_at-written, written-Shaped, shown}

-- The three calls of pml_get_or_allocate of one round: the way to the table of level 1.
pub record Reached (s : Paging) (root : ℕ) (xs : List ℕ) (p : Places) (v f g : ℕ) : Type 0 where
  pub level1 : ℕ
  pub after : Paging
  pub rest : List ℕ
  pub places : Places
  pub shape : Shaped after root rest places
  pub rank_of : places.rank level1 ≡ 2
  pub finds : find after 3 root v ≡ some level1
  pub shows : (w : ℕ) → entry_at after root w ≡ entry_at s root w
  pub enough : length xs ≤ length rest + 6
  pub others : (x : ℕ) → NotIn x xs → NotIn x rest
  pub fresh : (x : ℕ) → p.rank x ≡ 0 → NotIn x xs → places.rank x ≡ 0
  pub returns :
      (phys_addr flags : ℕ)
      → root_flags flags ≡ f
      → table_flags flags ≡ g
      → map_page s root v phys_addr flags
        ≡ done (with_entry after level1 (pml_get_index v 1) (page_entry_create phys_addr flags))

pub reach :
    (s : Paging) (root : ℕ) (xs : List ℕ) (p : Places) (v f g : ℕ)
    → Shaped s root xs p
    → 6 ≤ length xs
    → f < flags_end
    → g < flags_end
    → Reached s root xs p v f g
unfolding map_page find
reach s root xs p v f g shape room hf hg =
    let a =
      get_or_allocate-Grown root (pml_get_index v 4) 2 f shape.root_rank (index-lt v 4) hf xs shape
        (omega arith) in
    let b =
      get_or_allocate-Grown a.c (pml_get_index v 3) 1 g a.at.rank (index-lt v 3) hg a.rest a.shape
        (omega (arith, a.enough)) in
    let c =
      get_or_allocate-Grown b.c (pml_get_index v 2) 0 g b.at.rank (index-lt v 2) hg b.rest b.shape
        (omega (arith, a.enough, b.enough)) in
    let root_b = b.keeps root (pml_get_index v 4) a.c (omega (arith, a.shape.root_rank)) a.leads in
    let root_c = c.keeps root (pml_get_index v 4) a.c (omega (arith, b.shape.root_rank)) root_b in
    let next_c =
      c.keeps a.c (pml_get_index v 3) b.c
        (omega (arith, a.at.rank, b.ranks a.c (omega (arith, a.at.rank)))) b.leads in
    record {
      level1 = c.c;
      after = c.after;
      rest = c.rest;
      places = c.places;
      shape = c.shape;
      rank_of = c.at.rank;
      finds = rw (root_c, next_c, c.leads) refl;
      shows = λ w.
          entry_at-look c.after root w
          ∙ c.shows 3 root w b.shape.root_rank
          ∙ b.shows 3 root w a.shape.root_rank
          ∙ a.shows 3 root w shape.root_rank
          ∙ sym (entry_at-look s root w);
      enough = omega (arith, a.enough, b.enough, c.enough);
      others = λ x n. c.others x (b.others x (a.others x n));
      fresh =
          λ x z n. c.fresh x (b.fresh x (a.fresh x z n) (a.others x n)) (b.others x (a.others x n));
      returns = λ phys_addr flags u t. rw (u, t, a.returns, b.returns, c.returns) refl;
    }

-- `m` with the page of `v` given the entry `e`
abbrev pub put : (ℕ → Option ℕ) → ℕ → ℕ → ℕ → Option ℕ
put m v e w = if same_page w v then some e else m w

-- What mapping `n` pages promises.
unfoldable pub map_spec : ℕ → ℕ → ℕ → ℕ → (ℕ → Option ℕ) → ℕ → Option ℕ
map_spec zero v phys_addr flags m = m
map_spec (suc n) v phys_addr flags m =
    map_spec n (add64 v page_size) (add64 phys_addr page_size) flags
      (put m v (page_entry_create phys_addr flags))

-- What a call leaves.
pub record Mapped (s : Paging) (root : ℕ) (xs : List ℕ) (spec : (ℕ → Option ℕ) → ℕ → Option ℕ)
    (k : ℕ) (r : Outcome Paging) : Type 0 where
  pub after : Paging
  pub returns : r ≡ done after
  pub rest : List ℕ
  pub places : Places
  pub shape : Shaped after root rest places
  pub shows : (w : ℕ) → entry_at after root w ≡ spec (entry_at s root) w
  pub enough : length xs ≤ length rest + k

shown-create :
    (flags p : ℕ)
    → flags < flags_end
    → shown (page_entry_create p flags) ≡ some (page_entry_create p flags)
shown-create flags p few = rw (create-is_present flags few p)

map_page-Mapped :
    (s : Paging) (root : ℕ) (xs : List ℕ) (p : Places) (v phys_addr flags : ℕ)
    → Shaped s root xs p
    → 6 ≤ length xs
    → flags < flags_end
    → is_owned flags ≡ false
    → Mapped s root xs
        (λ m. put m v (page_entry_create phys_addr flags))
        6
        (map_page s root v phys_addr flags)
map_page-Mapped s root xs p v phys_addr flags shape room few unowned =
    let r =
      reach s root xs p v (root_flags flags) (table_flags flags) shape room
        (root_flags-lt flags few) (table_flags-lt flags few) in
    let e = page_entry_create phys_addr flags in
    record {
      after = with_entry r.after r.level1 (pml_get_index v 1) e;
      returns = r.returns phys_addr flags refl refl;
      rest = r.rest;
      places = r.places;
      shape =
          written-Shaped r.shape r.level1 (pml_get_index v 1) e r.rank_of
            (λ a b. absurd (ground (arith, unowned, create-is_owned flags few phys_addr, b)));
      shows = λ w.
          entry_at-written r.shape r.level1 (pml_get_index v 1) e r.rank_of v r.finds refl w
          ∙ ap₂ (λ a b. if same_page w v then a else b) (shown-create flags phys_addr few)
              (r.shows w);
      enough = r.enough;
    }

map_spec-ext :
    (n v phys_addr flags : ℕ) (m k : ℕ → Option ℕ)
    → ((w : ℕ) → m w ≡ k w)
    → (w : ℕ) → map_spec n v phys_addr flags m w ≡ map_spec n v phys_addr flags k w
map_spec-ext n v phys_addr flags m k h w = ap (λ m. map_spec n v phys_addr flags m w) (fun_ext h)

-- With six free pages for each page to map, pml_map returns, and shows what the specification says: the
-- pages of the range lead to the frames from `phys_addr` on, and all others are as they were.
pub pml_map_lem :
    (n : ℕ) (s : Paging) (root : ℕ) (xs : List ℕ) (p : Places) (v phys_addr flags : ℕ)
    → Shaped s root xs p
    → 6 * n ≤ length xs
    → flags < flags_end
    → is_owned flags ≡ false
    → Mapped s root xs (map_spec n v phys_addr flags) (6 * n) (pml_map s root v phys_addr n flags)
unfolding pml_map map_spec
pml_map_lem zero s root xs p v phys_addr flags shape room few unowned = record {
  after = s;
  returns = refl;
  rest = xs;
  places = p;
  shape = shape;
  shows = λ w. refl;
  enough = omega arith;
}
pml_map_lem (suc n) s root xs p v phys_addr flags shape room few unowned =
    let a = map_page-Mapped s root xs p v phys_addr flags shape (omega arith) few unowned in
    let b =
      pml_map_lem n a.after root a.rest a.places (add64 v page_size) (add64 phys_addr page_size)
        flags a.shape (omega (arith, a.enough)) few unowned in
    record {
      after = b.after;
      returns = rw a.returns b.returns;
      rest = b.rest;
      places = b.places;
      shape = b.shape;
      shows = λ w.
          b.shows w
          ∙ map_spec-ext n (add64 v page_size) (add64 phys_addr page_size) flags
              (entry_at a.after root) (put (entry_at s root) v (page_entry_create phys_addr flags))
              a.shows w;
      enough = omega (arith, a.enough, b.enough);
    }
