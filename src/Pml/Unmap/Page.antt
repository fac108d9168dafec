-- ===== src/Pml/Unmap/Page.antt =====
-- unmap_page of pml_unmap in src/kernel/pml.c: one page is unmapped, and given back if it is owned.
use asym.Base.{
  subst, ℕ, suc, ◌+◌, ◌≤◌, ◌≡◌, ◌≢◌, refl, sym, ap, ◌∙◌, arith, true, false, Option, none, some,
  List, if◌then◌else◌, Bool-cases, inl, inr,
}
use asym.Base.Maps.{update, update_self, update_ne}
use asym.Pmm.Stack.Lifo.{NotIn}
use asym.Pmm.Supply.{IsAmong, Given, pmm_free-Supply}
use asym.Pmm.Bitmap.{Outcome, done, max_special_addr, higher_half}
use asym.Pml.{
  Paging, entry_address, is_present, is_owned, pml_get_index, with_entry, walk, invalidate,
}
unfoldable use asym.Pml.{unmap_page, pml_get}
use asym.Pml.Shape.{Places, At, Shaped, index-lt, walk-find, find-rank}
unfoldable use asym.Pml.Shape.{same_page}
unfoldable use asym.Pml.Look.{entry_at}
use asym.Pml.Write.{entry_at-written, written-Shaped, shown}
use asym.Pml.Translate.{page_of, entry_at-page}

-- `m` without the page of `v`
abbrev pub take : (ℕ → Option ℕ) → ℕ → ℕ → Option ℕ
take m v w = if same_page w v then none else m w

abbrev pub dropped : Places → ℕ → Places
dropped p c = record p { rank = update p.rank c 0 }

-- An entry that an address of the region shows owns the page.
pub record OwnedIn (s : Paging) (root : ℕ) (Region : ℕ → Type 0) (x : ℕ) : Type 0 where
  pub address : ℕ
  pub entry : ℕ
  pub within : Region address
  pub shown_at : entry_at s root address ≡ some entry
  pub owned : is_owned entry ≡ true
  pub leads : entry_address entry ≡ x

-- What a call on the region leaves of the tables and of the free pages `xs`.
pub record Unmapped (s : Paging) (root : ℕ) (xs : List ℕ) (Region : ℕ → Type 0)
    (spec : (ℕ → Option ℕ) → ℕ → Option ℕ) (r : Outcome Paging) : Type 0 where
  pub after : Paging
  pub returns : r ≡ done after
  pub rest : List ℕ
  pub places : Places
  pub shape : Shaped after root rest places
  pub shows : (w : ℕ) → entry_at after root w ≡ spec (entry_at s root) w
  pub keeps : (x : ℕ) → IsAmong x xs → IsAmong x rest
  pub given_back :
      (x : ℕ) → OwnedIn s root Region x → max_special_addr + higher_half ≤ x → IsAmong x rest
  pub others : (x : ℕ) → NotIn x xs → ¬ OwnedIn s root Region x → NotIn x rest

-- A page that no entry leads to any more is given back.
released-Shaped :
    {s : Paging} {root : ℕ} {xs : List ℕ} {p : Places} (l i c : ℕ)
    → Shaped s root xs p
    → At p c 1 l i
    → is_present (s.entries l i) ≡ false
    → (given : Given s.pmm c xs)
    → Shaped (record s { pmm = given.pmm }) root given.rest (dropped p c)
released-Shaped {s} {root} {p} l i c shape at gone given = record {
  supply = given.supply;
  root_rank =
      update_ne p.rank c 0 root (λ q. absurd (omega (arith, at.rank, shape.root_rank, ap p.rank q)))
      ∙ shape.root_rank;
  child = λ t j r h k present owned.
      let ne = other t (suc r) h in
      let at' = shape.child t j r (sym (update_ne p.rank c 0 t ne) ∙ h) k present owned in
      let ne' = elsewhere t j r present at' in
      record {
        rank = update_ne p.rank c 0 (entry_address (s.entries t j)) ne' ∙ at'.rank;
        parent = at'.parent;
        slot = at'.slot;
      };
  used = λ x h.
      let ne : x ≢ c = λ q. h (ap (update p.rank c 0) q ∙ update_self p.rank c 0) in
      given.others x ne (shape.used x (λ z. h (update_ne p.rank c 0 x ne ∙ z)));
  pages = λ x h.
      let ne : x ≢ c = λ q. h (ap (update p.rank c 0) q ∙ update_self p.rank c 0) in
      shape.pages x (λ z. h (update_ne p.rank c 0 x ne ∙ z));
}
  where
    other : (t r : ℕ) → update p.rank c 0 t ≡ suc r → t ≢ c
    other t r h q = absurd (omega (arith, h, update_self p.rank c 0, ap (update p.rank c 0) q))

    elsewhere :
        (t j r : ℕ)
        → is_present (s.entries t j) ≡ true
        → At p (entry_address (s.entries t j)) (suc r) t j
        → entry_address (s.entries t j) ≢ c
    elsewhere t j r present at' q =
        let x : t ≡ l = sym at'.parent ∙ ap p.parent q ∙ at.parent in
        let y : j ≡ i = sym at'.slot ∙ ap p.slot q ∙ at.slot in
        absurd (ground (arith, gone, (rw (x, y) at present)))

-- The addresses that were invalidated are no part of the tree.
pub invalidate-Shaped :
    {s : Paging} {root : ℕ} {xs : List ℕ} {p : Places} (v : ℕ)
    → Shaped s root xs p
    → Shaped (invalidate s v) root xs p
invalidate-Shaped v shape = record {
  supply = shape.supply;
  root_rank = shape.root_rank;
  child = shape.child;
  used = shape.used;
  pages = shape.pages;
}

pub entry_at-invalidate :
    (s : Paging) (v root w : ℕ) → entry_at (invalidate s v) root w ≡ entry_at s root w
unfolding entry_at walk pml_get
entry_at-invalidate s v root w = refl

blank_absent : is_present 0 ≡ false
unfolding is_present
blank_absent = refl

shown-blank : shown 0 ≡ none
unfolding is_present
shown-blank = refl

module _ {s : Paging} {root : ℕ} {xs : List ℕ} {p : Places} (shape : Shaped s root xs p) (v l : ℕ)
    (found : walk s root v ≡ some l)
    (present : is_present (s.entries l (pml_get_index v 1)) ≡ true) where
  abbrev cleared : Paging
  cleared = with_entry s l (pml_get_index v 1) 0

  rank_of : p.rank l ≡ 2
  rank_of = find-rank shape 3 root v l shape.root_rank (sym (walk-find s root v) ∙ found)

  cleared-Shaped : Shaped cleared root xs p
  cleared-Shaped =
      written-Shaped shape l (pml_get_index v 1) 0 rank_of
        (λ a. absurd (ground (arith, a, blank_absent)))

  cleared-gone : is_present (cleared.entries l (pml_get_index v 1)) ≡ false
  cleared-gone =
      let same : cleared.entries l (pml_get_index v 1) ≡ 0 = ground arith in
      ap is_present same ∙ blank_absent

  cleared-shows : (w : ℕ) → entry_at cleared root w ≡ take (entry_at s root) v w
  cleared-shows w =
      entry_at-written shape l (pml_get_index v 1) 0 rank_of v (sym (walk-find s root v) ∙ found)
        refl w
      ∙ ap (λ t. if same_page w v then t else entry_at s root w) shown-blank

  entry_here :
      (w e : ℕ)
      → page_of w ≡ page_of v
      → entry_at s root w ≡ some e
      → s.entries l (pml_get_index v 1) ≡ e
  unfolding entry_at
  entry_here w e here seen =
      let at : entry_at s root v ≡ some (s.entries l (pml_get_index v 1)) =
        rw (found, present) refl in
      ground (arith, sym at ∙ sym (entry_at-page s root v w here) ∙ seen)

  pub unmap_page-Unmapped :
      Unmapped s root xs (λ w. page_of w ≡ page_of v) (λ m. take m v) (unmap_page s root v)
  unfolding unmap_page entry_at walk pml_get
  unmap_page-Unmapped = elim (Bool-cases (is_owned (s.entries l (pml_get_index v 1)))) [
    | inl owned ↦
        let c = entry_address (s.entries l (pml_get_index v 1)) in
        let at = shape.child l (pml_get_index v 1) 0 rank_of (index-lt v 1) present (λ z. owned) in
        let given =
          pmm_free-Supply s.pmm c xs shape.supply (shape.pages c (omega (arith, at.rank)))
            (shape.used c (omega (arith, at.rank))) in
        record {
          after = invalidate (record cleared { pmm = given.pmm }) v;
          returns = rw (found, owned, given.returns) refl;
          rest = given.rest;
          places = dropped p c;
          shape =
              invalidate-Shaped v
                (released-Shaped l (pml_get_index v 1) c cleared-Shaped at cleared-gone given);
          shows = cleared-shows;
          keeps = given.keeps;
          given_back = λ x o high.
              let same : c ≡ x =
                ap entry_address (entry_here o.address o.entry o.within o.shown_at) ∙ o.leads in
              subst (λ y. IsAmong y given.rest) same (given.given_back (rw same high));
          others = λ x n not_owned.
              given.others x
                (λ q. not_owned (record {
                  address = v;
                  entry = s.entries l (pml_get_index v 1);
                  within = refl;
                  shown_at = rw (found, present) refl;
                  owned = owned;
                  leads = sym q;
                }))
                n;
        }
    | inr other ↦ record {
      after = invalidate cleared v;
      returns = rw (found, other) refl;
      rest = xs;
      places = p;
      shape = invalidate-Shaped v cleared-Shaped;
      shows = cleared-shows;
      keeps = λ x m. m;
      given_back = λ x o high. absurd (
          ground (
            arith,
            other,
            o.owned,
            ap is_owned (entry_here o.address o.entry o.within o.shown_at),
          ));
      others = λ x n _. n;
    }
  ]
