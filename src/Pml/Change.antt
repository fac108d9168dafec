-- ===== src/Pml/Change.antt =====
-- pml_change_flags of src/kernel/pml.c: the pages keep their frames and their owner.
use asym.Base.{
  ℕ, zero, suc, ◌+◌, ◌-◌, ◌*◌, ◌/◌, ◌%◌, ◌^◌, ◌≤◌, ◌<◌, ◌≡◌, ◌≢◌, refl, sym, ap, ◌∙◌, subst, arith,
  true, false, some, List, ◌==◌, if◌then◌else◌, add64, Bool-cases, inl, inr,
}
use Prim.Native.Nat.{bit_or}
use asym.Pmm.Bitmap.{Outcome, done, page_size}
use asym.Pml.{
  Paging, is_present, is_owned, pml_get_index, with_entry, invalidate, page_entry_create, to_lower,
  to_higher, final_flags, page_owned,
}
unfoldable use asym.Pml.{change_page, pml_change_flags, entry_address}
use asym.Pml.Entry.{
  flags_end, is_writable, create-is_present, create-is_owned, create-is_writable, create-address,
  owned-lt, owned-is_owned, owned-writable,
}
use asym.Pml.Shape.{Places, At, Shaped, index-lt, walk-find, find-rank}
unfoldable use asym.Pml.Shape.{same_page}
use asym.Pml.Look.{entry_at, entry_at-found, is_some}
use asym.Pml.Write.{entry_at-written, written-Shaped, shown}
use asym.Pml.Translate.{page_of, entry_at-page}
use asym.Pml.Unmap.{invalidate-Shaped, entry_at-invalidate, Shows, is_some-entry}

-- What a new entry keeps of the old one, and what it takes from the flags.
pub record Reflagged (flags e e' : ℕ) : Type 0 where
  pub present : is_present e' ≡ true
  pub address : entry_address e' ≡ entry_address e
  pub owned : is_owned e' ≡ is_owned e
  pub writable : is_writable e' ≡ is_writable flags

abbrev reflag : ℕ → ℕ → ℕ
reflag flags e = page_entry_create (to_lower (entry_address e)) (final_flags e flags)

same_frame :
    (e : ℕ) → to_higher (to_lower (entry_address e) / 2 ^ 12 % 2 ^ 40 * 2 ^ 12) ≡ entry_address e
unfolding entry_address
same_frame e = omega arith

reflag-Reflagged :
    (flags e : ℕ) → flags < flags_end → is_owned flags ≡ false → Reflagged flags e (reflag flags e)
reflag-Reflagged flags e few unowned = elim (Bool-cases (is_owned e)) [
  | inl h ↦
      let f = bit_or flags page_owned in
      let few' = owned-lt flags few in
      rw h (record {
        present = create-is_present f few' (to_lower (entry_address e));
        address = create-address f few' (to_lower (entry_address e)) ∙ same_frame e;
        owned =
            create-is_owned f few' (to_lower (entry_address e)) ∙ owned-is_owned flags few ∙ sym h;
        writable =
            create-is_writable f few' (to_lower (entry_address e)) ∙ owned-writable flags few;
      })
  | inr h ↦ rw h (record {
    present = create-is_present flags few (to_lower (entry_address e));
    address = create-address flags few (to_lower (entry_address e)) ∙ same_frame e;
    owned = create-is_owned flags few (to_lower (entry_address e)) ∙ unowned ∙ sym h;
    writable = create-is_writable flags few (to_lower (entry_address e));
  })
]

-- One page of the range.
record Page (s : Paging) (root : ℕ) (xs : List ℕ) (p : Places) (v flags : ℕ) (r : Outcome Paging)
    : Type 0 where
  after : Paging
  returns : r ≡ done after
  shape : Shaped after root xs p
  old : ℕ
  new : ℕ
  was : entry_at s root v ≡ some old
  reflagged : Reflagged flags old new
  shows : (w : ℕ) → entry_at after root w ≡ (if same_page w v then some new else entry_at s root w)

change_page-Page :
    {s : Paging} {root : ℕ} {xs : List ℕ} {p : Places} (v flags e : ℕ)
    → Shaped s root xs p
    → flags < flags_end
    → is_owned flags ≡ false
    → entry_at s root v ≡ some e
    → Page s root xs p v flags (change_page s root v flags)
unfolding change_page
change_page-Page {s} {root} {xs} {p} v flags e shape few unowned h =
    let (l, found, present, same) = entry_at-found s root v e h in
    let i = pml_get_index v 1 in
    let finds = sym (walk-find s root v) ∙ found in
    let rank_of = find-rank shape 3 root v l shape.root_rank finds in
    let old = s.entries l i in
    let new = reflag flags old in
    let r = reflag-Reflagged flags old few unowned in
    record {
      after = invalidate (with_entry s l i new) v;
      returns = rw found refl;
      shape = invalidate-Shaped v (
          written-Shaped shape l i new rank_of (λ a b.
            subst (λ c. At p c 1 l i) (sym r.address)
              (shape.child l i 0 rank_of (index-lt v 1) present (λ z. sym r.owned ∙ b))));
      old = old;
      new = new;
      was = h ∙ ap some (sym same);
      reflagged = r;
      shows = λ w.
          entry_at-invalidate (with_entry s l i new) v root w
          ∙ entry_at-written shape l i new rank_of v finds refl w
          ∙ ap (λ t. if same_page w v then t else entry_at s root w) (shown_new new r.present);
    }
  where
    shown_new : (n : ℕ) → is_present n ≡ true → shown n ≡ some n
    shown_new n h = rw h

some_inj : {x y : ℕ} → some x ≡ some y → x ≡ y
some_inj h = ground (arith, h)

pub record Changed (s : Paging) (root : ℕ) (xs : List ℕ) (p : Places) (v n flags : ℕ)
    (r : Outcome Paging) : Type 0 where
  pub after : Paging
  pub returns : r ≡ done after
  pub shape : Shaped after root xs p
  pub within :
      (w k e : ℕ)
      → k < n
      → page_of w ≡ (page_of v + k) % 2 ^ 36
      → entry_at s root w ≡ some e
      → (e' : ℕ) × (entry_at after root w ≡ some e') × Reflagged flags e e'
  pub outside :
      (w : ℕ)
      → ((k : ℕ) → k < n → page_of w ≢ (page_of v + k) % 2 ^ 36)
      → entry_at after root w ≡ entry_at s root w

-- Where all pages of the range are mapped, pml_change_flags returns; each of them leads to its frame as
-- before, owned or not as before, and is writable as the flags say; all others are as they were.
pub pml_change_flags_lem :
    (n : ℕ) (s : Paging) (root : ℕ) (xs : List ℕ) (p : Places) (v flags : ℕ)
    → Shaped s root xs p
    → flags < flags_end
    → is_owned flags ≡ false
    → n ≤ 2 ^ 36
    → Shows s root v n
    → Changed s root xs p v n flags (pml_change_flags s root v n flags)
unfolding pml_change_flags same_page
pml_change_flags_lem zero s root xs p v flags shape few unowned small h = record {
  after = s;
  returns = refl;
  shape = shape;
  within = λ w k e lt. elim lt [ ];
  outside = λ w h. refl;
}
pml_change_flags_lem (suc n) s root xs p v flags shape few unowned small h =
    let (e, first) = is_some-entry (entry_at s root v) (h v 0 (omega arith) (omega arith)) in
    let a = change_page-Page v flags e shape few unowned first in
    let apart : (w : ℕ) → page_of w ≢ page_of v → entry_at a.after root w ≡ entry_at s root w =
      λ w ne. a.shows w ∙ ground (arith, ne) in
    let b =
      pml_change_flags_lem n a.after root xs p (add64 v page_size) flags a.shape few unowned
        (omega arith)
        (λ w k lt q.
          ap is_some (apart w (omega (arith, q))) ∙ h w (suc k) (omega arith) (omega (arith, q))) in
    record {
      after = b.after;
      returns = rw a.returns b.returns;
      shape = b.shape;
      within = λ w k d lt q g. elim (Bool-cases (k == 0)) [
        | inl z ↦
            let here : page_of w ≡ page_of v = ground (arith, z, q) in
            let is_old : a.old ≡ d =
              some_inj (sym a.was ∙ sym (entry_at-page s root v w here) ∙ g) in
            (
              a.new,
              b.outside w (λ j lt' r. absurd (omega (arith, here, r)))
                  ∙ a.shows w
                  ∙ ground (arith, here),
              subst (λ d. Reflagged flags d a.new) is_old a.reflagged,
            )
        | inr z ↦
            let up : k ≢ 0 = ground (arith, z) in
            b.within w (k - 1) d (omega (arith, up)) (omega (arith, up, q))
              (apart w (omega (arith, up, q)) ∙ g)
      ];
      outside = λ w out.
          b.outside w (λ k lt q. out (suc k) (omega arith) (omega (arith, q)))
          ∙ apart w (λ q. out 0 (omega arith) (omega (arith, q)));
    }
