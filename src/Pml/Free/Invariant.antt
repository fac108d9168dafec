-- ===== src/Pml/Free/Invariant.antt =====
-- What holds while pml_free_level of src/kernel/pml.c runs, and what it leaves.
use asym.Base.{
  ℕ, zero, suc, ◌+◌, ◌≤◌, ◌<◌, ◌≡◌, ◌≢◌, ◌⊎◌, refl, subst, sym, ap, ◌∙◌, arith, true, List, ◌==◌,
  Bool-cases, inl, inr,
}
use asym.Base.Maps.{update, update_self, update_ne}
use asym.Pmm.Stack.Lifo.{NotIn}
use asym.Pmm.Bitmap.{max_special_addr, higher_half}
use asym.Pmm.Supply.{IsAmong, Supply, IsPage, pmm_free-Supply}
use asym.Pmm.Bitmap.{Outcome, done}
use asym.Pml.{Paging, entry_address, is_present, is_owned}
use asym.Pml.Shape.{Places, At}
use asym.Pml.Unmap.{dropped}
use asym.Pml.Free.{free_table}
unfoldable use asym.Pml.Free.{free_entries, pml_free_level}

-- What holds while tables are freed: the entries that are still `Open` lead to pages that are not free.
pub record Inv (s : Paging) (xs : List ℕ) (p : Places) (Open : ℕ → ℕ → Type 0) : Type 0 where
  pub supply : Supply s.pmm xs
  pub child :
      (table i r : ℕ)
      → Open table i
      → p.rank table ≡ suc (suc r)
      → i < 512
      → is_present (s.entries table i) ≡ true
      → (r ≡ 0 → is_owned (s.entries table i) ≡ true)
      → At p (entry_address (s.entries table i)) (suc r) table i
  pub used : (x : ℕ) → p.rank x ≢ 0 → NotIn x xs
  pub pages : (x : ℕ) → p.rank x ≢ 0 → IsPage x

pub Inv-fewer :
    {s : Paging} {xs : List ℕ} {p : Places} {Open Fewer : ℕ → ℕ → Type 0}
    → ((t j : ℕ) → Fewer t j → Open t j)
    → Inv s xs p Open
    → Inv s xs p Fewer
Inv-fewer f v = record {
  supply = v.supply;
  child = λ t i r o. v.child t i r (f t i o);
  used = v.used;
  pages = v.pages;
}

-- What the freeing of tables of rank `top` or less leaves.
pub record Cleared (s : Paging) (xs : List ℕ) (p : Places) (Open : ℕ → ℕ → Type 0) (top : ℕ)
    (m : Outcome Paging) : Type 0 where
  pub after : Paging
  pub returns : m ≡ done after
  pub rest : List ℕ
  pub places : Places
  pub inv : Inv after rest places Open
  pub kept : (x : ℕ) → p.rank x ≡ 0 → NotIn x xs → NotIn x rest
  pub keeps : (x : ℕ) → IsAmong x xs → IsAmong x rest
  pub given :
      (x : ℕ)
      → p.rank x ≢ 0
      → places.rank x ≡ 0
      → max_special_addr + higher_half ≤ x
      → IsAmong x rest
  pub ranks : (x : ℕ) → (places.rank x ≡ p.rank x) ⊎ ((places.rank x ≡ 0) × (p.rank x ≤ top))
  pub parents : (x : ℕ) → places.parent x ≡ p.parent x
  pub slots : (x : ℕ) → places.slot x ≡ p.slot x
  pub same : (t j : ℕ) → after.entries t j ≡ s.entries t j

-- A table that is freed leaves no page below it behind.
abbrev pub Below : Paging → Places → Places → Type 0
Below s p q =
    (t j r : ℕ)
    → p.rank t ≡ suc (suc r)
    → q.rank t ≡ 0
    → j < 512
    → is_present (s.entries t j) ≡ true
    → (r ≡ 0 → is_owned (s.entries t j) ≡ true)
    → q.rank (entry_address (s.entries t j)) ≡ 0

pub zero_stays :
    {s : Paging} {xs : List ℕ} {p : Places} {Open : ℕ → ℕ → Type 0} {top : ℕ} {m : Outcome Paging}
    (r : Cleared s xs p Open top m) (x : ℕ)
    → p.rank x ≡ 0
    → r.places.rank x ≡ 0
zero_stays r x z = elim (r.ranks x) [ inl e ↦ e ∙ z | inr (y, _) ↦ y ]

pub idle : (n i : ℕ) (s : Paging) (table : ℕ) → free_entries (λ s t. done s) 0 n i s table ≡ done s
unfolding free_entries
idle zero i s table = refl
idle (suc n) i s table = elim (Bool-cases (is_present (s.entries table i))) [
  | inl e ↦ rw e (idle n (i + 1) s table)
  | inr e ↦ rw e (idle n (i + 1) s table)
]

-- The table itself is given back; the entry that leads to it is no longer open.
pub last_free :
    {s : Paging} {xs : List ℕ} {p : Places} {Open : ℕ → ℕ → Type 0} (c : ℕ)
    → Inv s xs p Open
    → p.rank c ≢ 0
    → (r : Cleared s xs p
        (λ t j. Open t j × (t ≡ p.parent c → j ≢ p.slot c))
        (p.rank c)
        (free_table s c))
      × (r.places.rank c ≡ 0)
      × ((t : ℕ) → t ≢ c → r.places.rank t ≡ p.rank t)
last_free {s} {xs} {p} c v h =
    let given = pmm_free-Supply s.pmm c xs v.supply (v.pages c h) (v.used c h) in
    let other : (x : ℕ) → update p.rank c 0 x ≢ 0 → x ≢ c =
      λ x k q. k (ap (update p.rank c 0) q ∙ update_self p.rank c 0) in
    (
      record {
        after = record s { pmm = given.pmm };
        returns = rw given.returns refl;
        rest = given.rest;
        places = dropped p c;
        inv = record {
          supply = given.supply;
          child = λ t i r o k lt present owned.
              let ne = other t (omega (arith, k)) in
              let at = v.child t i r o.0 (sym (update_ne p.rank c 0 t ne) ∙ k) lt present owned in
              let ne' : entry_address (s.entries t i) ≢ c =
                λ q. o.1 (sym at.parent ∙ ap p.parent q) (sym at.slot ∙ ap p.slot q) in
              record {
                rank = update_ne p.rank c 0 (entry_address (s.entries t i)) ne' ∙ at.rank;
                parent = at.parent;
                slot = at.slot;
              };
          used = λ x k.
              let ne = other x k in
              given.others x ne (v.used x (λ z. k (update_ne p.rank c 0 x ne ∙ z)));
          pages = λ x k. let ne = other x k in v.pages x (λ z. k (update_ne p.rank c 0 x ne ∙ z));
        };
        kept = λ x z n. given.others x (λ q. h (sym (ap p.rank q) ∙ z)) n;
        keeps = given.keeps;
        given = λ x k z high. elim (Bool-cases (x == c)) [
          | inl e ↦
              let here : x ≡ c = ground (arith, e) in
              subst (λ y. IsAmong y given.rest) (sym here) (given.given_back (rw here at high))
          | inr e ↦
              let ne : x ≢ c = ground (arith, e) in absurd (k (sym (update_ne p.rank c 0 x ne) ∙ z))
        ];
        ranks = λ x. elim (Bool-cases (x == c)) [
          | inl e ↦
              let here : x ≡ c = ground (arith, e) in
              inr (
                ap (update p.rank c 0) here ∙ update_self p.rank c 0,
                omega (arith, ap p.rank here),
              )
          | inr e ↦ let ne : x ≢ c = ground (arith, e) in inl (update_ne p.rank c 0 x ne)
        ];
        parents = λ x. refl;
        slots = λ x. refl;
        same = λ t j. refl;
      },
      update_self p.rank c 0,
      update_ne p.rank c 0,
    )

-- Freeing the table `c` of rank `l + 1`, and all below it.
abbrev pub Frees : ℕ → Type 1
Frees l =
    (s : Paging) (xs : List ℕ) (p : Places) (Open : ℕ → ℕ → Type 0) (c : ℕ)
    → Inv s xs p Open
    → p.rank c ≡ suc l
    → ((t j : ℕ) → p.rank t ≤ suc l → Open t j)
    → (r : Cleared s xs p (λ t j. Open t j × (t ≡ p.parent c → j ≢ p.slot c)) (suc l)
        (pml_free_level (suc l) s c))
      × (r.places.rank c ≡ 0)
      × Below s p r.places

-- Nothing happens at an entry that is passed over.
unfoldable pub skipped :
    {s : Paging} {xs : List ℕ} {p : Places} {Open Fewer : ℕ → ℕ → Type 0} (top : ℕ)
    → ((t j : ℕ) → Fewer t j → Open t j)
    → Inv s xs p Open
    → Cleared s xs p Fewer top (done s)
skipped {s} {xs} {p} top f v = record {
  after = s;
  returns = refl;
  rest = xs;
  places = p;
  inv = Inv-fewer f v;
  kept = λ x z n. n;
  keeps = λ x m. m;
  given = λ x k z. absurd (k z);
  ranks = λ x. inl refl;
  parents = λ x. refl;
  slots = λ x. refl;
  same = λ t j. refl;
}
