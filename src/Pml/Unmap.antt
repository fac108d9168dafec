-- ===== src/Pml/Unmap.antt =====
-- pml_unmap of src/kernel/pml.c: the pages of the range are gone, and those that were owned are free.
pub mod Page
use asym.Base.{
  ◌⊎◌, subst, ℕ, zero, suc, ◌+◌, ◌%◌, ◌^◌, ◌≤◌, ◌<◌, ◌≡◌, ◌≢◌, refl, sym, ap, fun_ext, ◌∙◌, arith,
  true, false, Option, none, some, List, if◌then◌else◌, add64, Bool-cases, inl, inr,
}
use asym.Base.Maps.{update, update_self, update_ne}
use asym.Pmm.Stack.Lifo.{NotIn}
use asym.Pmm.Supply.{IsAmong, Given, pmm_free-Supply}
use asym.Pmm.Bitmap.{Outcome, done, max_special_addr, higher_half, page_size}
use asym.Pml.{
  Paging, entry_address, is_present, is_owned, pml_get_index, with_entry, walk, invalidate,
  pml_mapped,
}
unfoldable use asym.Pml.{unmap_page, pml_unmap, pml_get}
use asym.Pml.Shape.{Places, At, Shaped, index-lt, walk-find, find-rank}
unfoldable use asym.Pml.Shape.{same_page}
use asym.Pml.Look.{entry_at-found, is_some}
unfoldable use asym.Pml.Look.{entry_at}
use asym.Pml.Write.{entry_at-written, written-Shaped, shown}
use asym.Pml.Translate.{page_of, entry_at-page, all_shown, pml_mapped_lem}
pub use asym.Pml.Unmap.Page.{
  take, dropped, OwnedIn, Unmapped, invalidate-Shaped, entry_at-invalidate, unmap_page-Unmapped,
}

-- What unmapping `n` pages promises.
unfoldable pub unmap_spec : ℕ → ℕ → (ℕ → Option ℕ) → ℕ → Option ℕ
unmap_spec zero v m = m
unmap_spec (suc n) v m = unmap_spec n (add64 v page_size) (take m v)

-- the addresses on the `n` pages from that of `v`
abbrev pub OnPages : ℕ → ℕ → ℕ → Type 0
OnPages n v w = (k : ℕ) × (k < n) × (page_of w ≡ (page_of v + k) % 2 ^ 36)

-- every page of the range shows an entry
abbrev pub Shows : Paging → ℕ → ℕ → ℕ → Type 0
Shows s root v n =
    (w k : ℕ) → k < n → page_of w ≡ (page_of v + k) % 2 ^ 36 → is_some (entry_at s root w) ≡ true

pub is_some-entry : (o : Option ℕ) → is_some o ≡ true → (e : ℕ) × (o ≡ some e)
is_some-entry none h = absurd (ground (arith, h))
is_some-entry (some e) h = (e, refl)

unmap_spec-ext :
    (n v : ℕ) (m k : ℕ → Option ℕ)
    → ((w : ℕ) → m w ≡ k w)
    → (w : ℕ) → unmap_spec n v m w ≡ unmap_spec n v k w
unmap_spec-ext n v m k h w = ap (λ m. unmap_spec n v m w) (fun_ext h)

Shows-taken :
    (s after : Paging) (root v n : ℕ)
    → suc n ≤ 2 ^ 36
    → ((w : ℕ) → entry_at after root w ≡ take (entry_at s root) v w)
    → Shows s root v (suc n)
    → Shows after root (add64 v page_size) n
unfolding same_page
Shows-taken s after root v n small shows h w k lt q =
    let ne : page_of w ≢ page_of v = omega (arith, q) in
    let kept : take (entry_at s root) v w ≡ entry_at s root w = ground (arith, ne) in
    ap is_some (shows w ∙ kept) ∙ h w (suc k) (omega arith) (omega (arith, q))

-- The first page, and those behind it, of a region of pages that is unmapped.
module _ (s after : Paging) (root v n : ℕ) (small : suc n ≤ 2 ^ 36)
    (shows : (w : ℕ) → entry_at after root w ≡ take (entry_at s root) v w) where
  kept_behind :
      (w : ℕ)
      → OnPages n (add64 v page_size) w
      → OnPages (suc n) v w × (entry_at after root w ≡ entry_at s root w)
  unfolding same_page
  kept_behind w on =
      let ne : page_of w ≢ page_of v = omega (arith, on.1, on.2) in
      let kept : take (entry_at s root) v w ≡ entry_at s root w = ground (arith, ne) in
      ((suc on.0, omega (arith, on.1), omega (arith, on.2)), shows w ∙ kept)

  owned_later :
      (x : ℕ)
      → OwnedIn after root (OnPages n (add64 v page_size)) x
      → OwnedIn s root (OnPages (suc n) v) x
  owned_later x o =
      let (on, kept) = kept_behind o.address o.within in
      record {
        address = o.address;
        entry = o.entry;
        within = on;
        shown_at = sym kept ∙ o.shown_at;
        owned = o.owned;
        leads = o.leads;
      }

  owned_first :
      (x : ℕ) → OwnedIn s root (λ w. page_of w ≡ page_of v) x → OwnedIn s root (OnPages (suc n) v) x
  owned_first x o = record {
    address = o.address;
    entry = o.entry;
    within = (0, omega arith, omega (arith, o.within));
    shown_at = o.shown_at;
    owned = o.owned;
    leads = o.leads;
  }

  owned_once :
      (x : ℕ)
      → OwnedIn s root (OnPages (suc n) v) x
      → OwnedIn s root (λ w. page_of w ≡ page_of v) x
        ⊎ OwnedIn after root (OnPages n (add64 v page_size)) x
  owned_once x o = at o.within
    where
      at :
          OnPages (suc n) v o.address
          → OwnedIn s root (λ w. page_of w ≡ page_of v) x
            ⊎ OwnedIn after root (OnPages n (add64 v page_size)) x
      at (zero, lt, q) = inl (record {
        address = o.address;
        entry = o.entry;
        within = omega (arith, q);
        shown_at = o.shown_at;
        owned = o.owned;
        leads = o.leads;
      })
      at (suc k, lt, q) =
          let on : OnPages n (add64 v page_size) o.address =
            (k, omega (arith, lt), omega (arith, q)) in
          inr (record {
            address = o.address;
            entry = o.entry;
            within = on;
            shown_at = (kept_behind o.address on).1 ∙ o.shown_at;
            owned = o.owned;
            leads = o.leads;
          })

-- Where all pages of the range are mapped, pml_unmap returns, none of them is mapped any more and all
-- others are as they were; the tables still form a tree with no part of it among the free pages. The
-- pages that entries of the range owned are given back, those from 1 MiB on to the page stack, which
-- keeps all it had; no other page is.
pub pml_unmap_lem :
    (n : ℕ) (s : Paging) (root : ℕ) (xs : List ℕ) (p : Places) (v : ℕ)
    → Shaped s root xs p
    → n ≤ 2 ^ 36
    → Shows s root v n
    → Unmapped s root xs (OnPages n v) (unmap_spec n v) (pml_unmap s root v n)
unfolding pml_unmap unmap_spec
pml_unmap_lem zero s root xs p v shape small h = record {
  after = s;
  returns = refl;
  rest = xs;
  places = p;
  shape = shape;
  shows = λ w. refl;
  keeps = λ x m. m;
  given_back = λ x o high. absurd (omega (arith, o.within.1));
  others = λ x n _. n;
}
pml_unmap_lem (suc n) s root xs p v shape small h =
    let (e, first) = is_some-entry (entry_at s root v) (h v 0 (omega arith) (omega arith)) in
    let (l, found, present, _) = entry_at-found s root v e first in
    let a = unmap_page-Unmapped shape v l found present in
    let b =
      pml_unmap_lem n a.after root a.rest a.places (add64 v page_size) a.shape (omega arith)
        (Shows-taken s a.after root v n small a.shows h) in
    record {
      after = b.after;
      returns = rw a.returns b.returns;
      rest = b.rest;
      places = b.places;
      shape = b.shape;
      shows = λ w.
          b.shows w
          ∙ unmap_spec-ext n (add64 v page_size) (entry_at a.after root) (take (entry_at s root) v)
              a.shows w;
      keeps = λ x m. b.keeps x (a.keeps x m);
      given_back = λ x owned high. elim (owned_once s a.after root v n small a.shows x owned) [
        | inl o ↦ b.keeps x (a.given_back x o high)
        | inr o ↦ b.given_back x o high
      ];
      others = λ x m not_owned.
          b.others x
            (a.others x m (λ o. not_owned (owned_first s a.after root v n small a.shows x o)))
            (λ o. not_owned (owned_later s a.after root v n small a.shows x o));
    }

-- What pml_mapped accepts are pages that all show.
pub mapped-Shows : (s : Paging) (root v n : ℕ) → pml_mapped s root v n ≡ true → Shows s root v n
mapped-Shows s root v n e = from n v (sym (pml_mapped_lem s root v n) ∙ e)
  where
    from : (n v : ℕ) → all_shown s root v n ≡ true → Shows s root v n
    from (suc n) v h w zero lt q =
        ap is_some (entry_at-page s root v w (omega (arith, q))) ∙ ground (arith, h)
    from (suc n) v h w (suc k) lt q =
        from n (add64 v page_size) (ground (arith, h)) w k (omega arith) (omega (arith, q))
    from zero v h w k lt q = elim lt [ ]

pub unmap_spec-outside :
    (n v : ℕ) (m : ℕ → Option ℕ) (w : ℕ)
    → ((k : ℕ) → k < n → page_of w ≢ (page_of v + k) % 2 ^ 36)
    → unmap_spec n v m w ≡ m w
unfolding unmap_spec same_page
unmap_spec-outside zero v m w h = refl
unmap_spec-outside (suc n) v m w h =
    let first = h 0 (omega arith) in
    unmap_spec-outside n (add64 v page_size) (take m v) w
      (λ k lt q. h (suc k) (omega arith) (omega (arith, q)))
    ∙ ground (arith, first)

unmap_spec-none : (n v : ℕ) (m : ℕ → Option ℕ) (w : ℕ) → m w ≡ none → unmap_spec n v m w ≡ none
unfolding unmap_spec same_page
unmap_spec-none zero v m w h = h
unmap_spec-none (suc n) v m w h =
    unmap_spec-none n (add64 v page_size) (take m v) w (ground (arith, h))

pub unmap_spec-inside :
    (n v : ℕ) (m : ℕ → Option ℕ) (w k : ℕ)
    → k < n
    → page_of w ≡ (page_of v + k) % 2 ^ 36
    → unmap_spec n v m w ≡ none
unfolding unmap_spec same_page
unmap_spec-inside (suc n) v m w zero lt q =
    let here : page_of w ≡ page_of v = omega (arith, q) in
    unmap_spec-none n (add64 v page_size) (take m v) w (ground (arith, here))
unmap_spec-inside (suc n) v m w (suc k) lt q =
    unmap_spec-inside n (add64 v page_size) (take m v) w k (omega arith) (omega (arith, q))
unmap_spec-inside zero v m w k lt q = elim lt [ ]
