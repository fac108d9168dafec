-- ===== src/Pml/Translate.antt =====
-- pml_phys_addr and pml_mapped of src/kernel/pml.c after pml_map.
use asym.Base.{
  ℕ, zero, suc, ◌+◌, ◌*◌, ◌/◌, ◌%◌, ◌^◌, ◌≤◌, ◌<◌, ◌≡◌, ◌≢◌, refl, sym, ap, ◌∙◌, arith, Bool, true,
  false, ◌&&◌, Option, some, List, length, add64, round_down,
}
use asym.Pmm.Bitmap.{done, page_size}
use asym.Pml.{
  Paging, entry_address, is_owned, pml_get_index, page_entry_create, to_higher, walk, pml_map,
}
unfoldable use asym.Pml.{pml_phys_addr, pml_mapped}
use asym.Pml.Entry.{flags_end, create-address}
use asym.Pml.Shape.{Places, Shaped, walk-find, page-index}
unfoldable use asym.Pml.Shape.{same_page}
unfoldable use asym.Pml.Look.{entry_at}
use asym.Pml.Look.{entry_at-found, is_some, is_mapped-entry_at}
use asym.Pml.Write.{find-page}
use asym.Pml.Map.{put, pml_map_lem}
unfoldable use asym.Pml.Map.{map_spec}

-- the number of the page that the tables translate
abbrev pub page_of : ℕ → ℕ
page_of v = v / 2 ^ 12 % 2 ^ 36

walk-page : (s : Paging) (root v w : ℕ) → same_page w v ≡ true → walk s root w ≡ walk s root v
walk-page s root v w h = walk-find s root w ∙ find-page s root v w h ∙ sym (walk-find s root v)

-- Addresses of one page show one entry.
pub entry_at-page :
    (s : Paging) (root v w : ℕ) → page_of w ≡ page_of v → entry_at s root w ≡ entry_at s root v
unfolding same_page entry_at
entry_at-page s root v w h =
    let here : same_page w v ≡ true = ground (arith, h) in
    let (_, _, _, i) = page-index w v here in rw (walk-page s root v w here, i) refl

index-down : (v : ℕ) → pml_get_index (round_down v page_size) 1 ≡ pml_get_index v 1
unfolding pml_get_index
index-down v = omega arith

page-down : (v : ℕ) → same_page (round_down v page_size) v ≡ true
unfolding same_page
page-down v =
    let h : round_down v page_size / 2 ^ 12 % 2 ^ 36 ≡ v / 2 ^ 12 % 2 ^ 36 = omega arith in
    ground (arith, h)

-- What the tables show at an address is where pml_phys_addr leads.
pub phys_addr-entry :
    (s : Paging) (root v e : ℕ)
    → entry_at s root v ≡ some e
    → pml_phys_addr s root v ≡ done (add64 (entry_address e) (v % page_size))
unfolding pml_phys_addr
phys_addr-entry s root v e h =
    let (l, f, _, g) = entry_at-found s root v e h in
    rw (walk-page s root v (round_down v page_size) (page-down v), f, index-down v, g)

outside :
    (n v phys_addr flags : ℕ) (m : ℕ → Option ℕ) (w : ℕ)
    → ((k : ℕ) → k < n → page_of w ≢ (page_of v + k) % 2 ^ 36)
    → map_spec n v phys_addr flags m w ≡ m w
unfolding map_spec same_page
outside zero v phys_addr flags m w h = refl
outside (suc n) v phys_addr flags m w h =
    let first = h 0 (omega arith) in
    outside n (add64 v page_size) (add64 phys_addr page_size) flags
      (put m v (page_entry_create phys_addr flags)) w
      (λ k lt q. h (suc k) (omega arith) (omega (arith, q)))
    ∙ ground (arith, first)

inside :
    (n v phys_addr flags : ℕ) (m : ℕ → Option ℕ) (w k : ℕ)
    → n ≤ 2 ^ 36
    → k < n
    → page_of w ≡ (page_of v + k) % 2 ^ 36
    → (q : ℕ) × (q / 2 ^ 12 % 2 ^ 40 ≡ (phys_addr / 2 ^ 12 + k) % 2 ^ 40)
      × (map_spec n v phys_addr flags m w ≡ some (page_entry_create q flags))
unfolding map_spec same_page
inside (suc n) v phys_addr flags m w zero small lt h =
    let here : page_of w ≡ page_of v = omega (arith, h) in
    (
      phys_addr,
      omega arith,
      outside n (add64 v page_size) (add64 phys_addr page_size) flags
            (put m v (page_entry_create phys_addr flags)) w
            (λ k lt' q. absurd (omega (arith, here, q)))
          ∙ ground (arith, here),
    )
inside (suc n) v phys_addr flags m w (suc k) small lt h =
    let (q, frame, e) =
      inside n (add64 v page_size) (add64 phys_addr page_size) flags
        (put m v (page_entry_create phys_addr flags)) w k (omega arith) (omega arith)
        (omega (arith, h)) in
    (q, omega (arith, frame), e)
inside zero v phys_addr flags m w k small lt h = elim lt [ ]

-- pml_map returns, and each address of the range then leads, by pml_phys_addr, to its place in the
-- frames from `phys_addr` on, in the higher half.
pub pml_phys_addr-pml_map :
    (n : ℕ) (s : Paging) (root : ℕ) (xs : List ℕ) (p : Places) (v phys_addr flags w k : ℕ)
    → Shaped s root xs p
    → 6 * n ≤ length xs
    → flags < flags_end
    → is_owned flags ≡ false
    → n ≤ 2 ^ 36
    → k < n
    → page_of w ≡ (page_of v + k) % 2 ^ 36
    → (after : Paging) × (pml_map s root v phys_addr n flags ≡ done after)
      × (pml_phys_addr after root w
          ≡ done (add64 (to_higher ((phys_addr / 2 ^ 12 + k) % 2 ^ 40 * 2 ^ 12)) (w % page_size)))
pml_phys_addr-pml_map n s root xs p v phys_addr flags w k shape room few unowned small lt h =
    let m = pml_map_lem n s root xs p v phys_addr flags shape room few unowned in
    let (q, frame, e) = inside n v phys_addr flags (entry_at s root) w k small lt h in
    let leads : entry_address (page_entry_create q flags)
        ≡ to_higher ((phys_addr / 2 ^ 12 + k) % 2 ^ 40 * 2 ^ 12) =
      create-address flags few q ∙ ap (λ (t : ℕ). to_higher (t * 2 ^ 12)) frame in
    (
      m.after,
      m.returns,
      phys_addr-entry m.after root w (page_entry_create q flags) (m.shows w ∙ e)
          ∙ ap (λ t. done (add64 t (w % page_size))) leads,
    )

-- pml_mapped is the test that every page of the range shows an entry.
abbrev pub all_shown : Paging → ℕ → ℕ → ℕ → Bool
all_shown s root v zero = true
all_shown s root v (suc n) = is_some (entry_at s root v) && all_shown s root (add64 v page_size) n

pub pml_mapped_lem : (s : Paging) (root v n : ℕ) → pml_mapped s root v n ≡ all_shown s root v n
unfolding pml_mapped
pml_mapped_lem s root v zero = refl
pml_mapped_lem s root v (suc n) =
    rw (is_mapped-entry_at s root v, pml_mapped_lem s root (add64 v page_size) n)

pub all_shown-each :
    (s : Paging) (root v n : ℕ)
    → ((w k : ℕ)
        → k < n
        → page_of w ≡ (page_of v + k) % 2 ^ 36
        → is_some (entry_at s root w) ≡ true)
    → all_shown s root v n ≡ true
all_shown-each s root v zero h = refl
all_shown-each s root v (suc n) h = rw (
  h v 0 (omega arith) (omega arith),
  all_shown-each s root (add64 v page_size) n
      (λ w k lt q. h w (suc k) (omega arith) (omega (arith, q))),
)

-- The range that pml_map has mapped is one that pml_mapped accepts.
pub pml_mapped-pml_map :
    (n : ℕ) (s : Paging) (root : ℕ) (xs : List ℕ) (p : Places) (v phys_addr flags : ℕ)
    → Shaped s root xs p
    → 6 * n ≤ length xs
    → flags < flags_end
    → is_owned flags ≡ false
    → n ≤ 2 ^ 36
    → (after : Paging) × (pml_map s root v phys_addr n flags ≡ done after)
      × (pml_mapped after root v n ≡ true)
pml_mapped-pml_map n s root xs p v phys_addr flags shape room few unowned small =
    let m = pml_map_lem n s root xs p v phys_addr flags shape room few unowned in
    (
      m.after,
      m.returns,
      pml_mapped_lem m.after root v n
          ∙ all_shown-each m.after root v n (λ w k lt q.
            let (a, _, e) = inside n v phys_addr flags (entry_at s root) w k small lt q in
            ap is_some (m.shows w ∙ e)),
    )
