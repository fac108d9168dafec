-- ===== src/Pml/Own.antt =====
-- pml_map of src/kernel/pml.c for one page that the tables are to own, as vmm_alloc calls it.
use asym.Base.{
  ℕ, ◌≤◌, ◌<◌, ◌≡◌, refl, sym, ap, ap₂, ◌∙◌, subst, arith, true, some, List, length, if◌then◌else◌,
}
use asym.Pmm.Stack.Lifo.{NotIn}
use asym.Pmm.Supply.{IsPage}
use asym.Pml.{
  Paging, is_present, pml_get_index, with_entry, page_entry_create, table_flags, root_flags,
  to_lower,
}
unfoldable use asym.Pml.{pml_map}
use asym.Base.Maps.{update_self, update_ne}
use asym.Pml.Entry.{flags_end, table_flags-lt, root_flags-lt, create-is_present, create-page}
use asym.Pml.Shape.{Places, At, Shaped, same_page}
unfoldable use asym.Pml.Look.{}
use asym.Pml.Grow.{placed}
use asym.Pml.Write.{entry_at-written, written-Shaped, claimed-Shaped, shown}
use asym.Pml.Map.{Mapped, put, reach}

shown-new : (e : ℕ) → is_present e ≡ true → shown e ≡ some e
shown-new e h = rw h

pub map_owned-Mapped :
    (s : Paging) (root : ℕ) (xs : List ℕ) (p : Places) (v a flags : ℕ)
    → Shaped s root xs p
    → 6 ≤ length xs
    → flags < flags_end
    → p.rank a ≡ 0
    → NotIn a xs
    → IsPage a
    → Mapped s root xs
        (λ m. put m v (page_entry_create (to_lower a) flags))
        6
        (pml_map s root v (to_lower a) 1 flags)
unfolding pml_map
map_owned-Mapped s root xs p v a flags shape room few unranked unlisted page =
    let r =
      reach s root xs p v (root_flags flags) (table_flags flags) shape room
        (root_flags-lt flags few) (table_flags-lt flags few) in
    let e = page_entry_create (to_lower a) flags in
    let i = pml_get_index v 1 in
    let claimed =
      claimed-Shaped r.shape r.level1 i e r.rank_of a (r.fresh a unranked unlisted)
        (r.others a unlisted) page in
    let places = placed r.places a 1 r.level1 i in
    let still : places.rank r.level1 ≡ 2 =
      update_ne r.places.rank a 1 r.level1
        (λ q. absurd (omega (arith, r.rank_of, r.fresh a unranked unlisted, ap r.places.rank q)))
      ∙ r.rank_of in
    record {
      after = with_entry r.after r.level1 i e;
      returns = rw (r.returns (to_lower a) flags refl refl) refl;
      rest = r.rest;
      places = places;
      shape = written-Shaped claimed r.level1 i e still (λ x y.
          subst (λ c. At places c 1 r.level1 i) (sym (create-page flags few a page))
            (record {
              rank = update_self r.places.rank a 1;
              parent = update_self r.places.parent a r.level1;
              slot = update_self r.places.slot a i;
            }));
      shows = λ w.
          entry_at-written r.shape r.level1 i e r.rank_of v r.finds refl w
          ∙ ap₂ (λ x y. if same_page w v then x else y)
              (shown-new e (create-is_present flags few (to_lower a))) (r.shows w);
      enough = r.enough;
    }
