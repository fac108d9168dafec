-- ===== src/Pml/Free/Once.antt =====
-- pml_free of src/kernel/pml.c gives each page of the tree back once.
use asym.Base.{
  ◌≤◌, ◌+◌, ℕ, zero, suc, ◌≡◌, ◌≢◌, ◌⊎◌, sym, ap, ◌∙◌, arith, List, ◌==◌, Bool-cases, inl, inr,
  subst,
}
use asym.Pmm.Stack.Lifo.{NotIn}
use asym.Pmm.Supply.{IsAmong, Supply}
use asym.Pmm.Bitmap.{Outcome, done, max_special_addr, higher_half}
use asym.Pml.{Paging, entry_address, is_present, is_owned}
use asym.Pml.Shape.{Places, Shaped}
unfoldable use asym.Pml.Free.{pml_free_level, pml_free}
use asym.Pml.Free.Invariant.{Inv-fewer, Below, zero_stays, idle, last_free, Frees}
use asym.Pml.Free.Children.{lower, same_rank, all_children}

free_level : (l : ℕ) → Frees l
unfolding pml_free_level
free_level zero s xs p Open c v h low =
    let (r, zeroed, _) = last_free c v (omega (arith, h)) in
    (
      record {
        after = r.after;
        returns = rw (idle 512 0 s c) r.returns;
        rest = r.rest;
        places = r.places;
        inv = r.inv;
        kept = r.kept;
        keeps = r.keeps;
        given = r.given;
        ranks = λ x. elim (r.ranks x) [ inl e ↦ inl e | inr (z, k) ↦ inr (z, omega (arith, k, h)) ];
        parents = r.parents;
        slots = r.slots;
        same = r.same;
      },
      zeroed,
      λ t j k e z. elim (r.ranks t) [
        | inl w ↦ absurd (omega (arith, w, e, z))
        | inr (_, w) ↦ absurd (omega (arith, w, e, h))
      ],
    )
free_level (suc l) s xs p Open c v h low =
    let (a, below, children) =
      all_children 512 0 l (free_level l) s xs p Open c (Inv-fewer (λ t j o. o.0) v) h low
        (omega arith) in
    let still = same_rank a c (omega (arith, h)) in
    let (r, zeroed, kept) = last_free c a.inv (omega (arith, still, h)) in
    (
      record {
        after = r.after;
        returns = rw a.returns r.returns;
        rest = r.rest;
        places = r.places;
        inv = record {
          supply = r.inv.supply;
          child = λ t i k o e.
              r.inv.child t i k
                (
                  (o.0, λ q. absurd (omega (arith, e, zeroed, ap r.places.rank q))),
                  λ q w. o.1 (q ∙ a.parents c) (w ∙ a.slots c),
                )
                e;
          used = r.inv.used;
          pages = r.inv.pages;
        };
        kept = λ x z n. r.kept x (zero_stays a x z) (a.kept x z n);
        keeps = λ x m. r.keeps x (a.keeps x m);
        given = λ x k z high. elim (Bool-cases (a.places.rank x == 0)) [
          | inl e ↦ r.keeps x (a.given x k (ground (arith, e)) high)
          | inr e ↦ r.given x (ground (arith, e)) z high
        ];
        ranks = λ x. elim (r.ranks x) [
          | inl same ↦ elim (a.ranks x) [
            | inl same' ↦ inl (same ∙ same')
            | inr (z, k) ↦ inr (same ∙ z, omega (arith, k))
          ]
          | inr (z, k) ↦ inr (z, lower a x (suc (suc l)) (omega arith) (omega (arith, k, still, h)))
        ];
        parents = λ x. r.parents x ∙ a.parents x;
        slots = λ x. r.slots x ∙ a.slots x;
        same = λ t j. r.same t j ∙ a.same t j;
      },
      zeroed,
      λ t j k e z lt present owned. elim (Bool-cases (t == c)) [
        | inl q ↦
            let here : t ≡ c = ground (arith, q) in
            let top : k ≡ l = omega (arith, e, h, ap p.rank here) in
            zero_stays r (entry_address (s.entries t j)) (
              subst (λ u. a.places.rank (entry_address (s.entries u j)) ≡ 0) (sym here)
                (children j (omega arith) lt
                  (ap (λ u. is_present (s.entries u j)) (sym here) ∙ present)
                  (λ y. ap (λ u. is_owned (s.entries u j)) (sym here) ∙ owned (top ∙ y))))
        | inr q ↦
            let ne : t ≢ c = ground (arith, q) in
            zero_stays r (entry_address (s.entries t j))
              (below t j k e (sym (kept t ne) ∙ z) lt present owned)
      ],
    )

-- What pml_free leaves: the supply `rest`, and what is still part of the tree by `places`.
pub record Freed (s : Paging) (root : ℕ) (xs : List ℕ) (p : Places) (r : Outcome Paging)
    : Type 0 where
  pub after : Paging
  pub returns : r ≡ done after
  pub rest : List ℕ
  pub supply : Supply after.pmm rest
  pub places : Places
  pub apart : (x : ℕ) → places.rank x ≢ 0 → NotIn x rest
  pub ranks : (x : ℕ) → (places.rank x ≡ p.rank x) ⊎ (places.rank x ≡ 0)
  pub kept : (x : ℕ) → p.rank x ≡ 0 → NotIn x xs → NotIn x rest
  pub keeps : (x : ℕ) → IsAmong x xs → IsAmong x rest
  pub given :
      (x : ℕ)
      → p.rank x ≢ 0
      → places.rank x ≡ 0
      → max_special_addr + higher_half ≤ x
      → IsAmong x rest
  pub root_freed : places.rank root ≡ 0
  pub below_freed : Below s p places

-- pml_free of a tree of tables returns, and takes all of it away: the root, and with a table each table
-- and owned page that its entries lead to. What it takes away is given back once, so that the free pages
-- are all different afterwards; those from 1 MiB on are on the page stack, with all that was there before.
-- What is no part of the tree, and was not free, is not given back.
pub pml_free_lem :
    (s : Paging) (root : ℕ) (xs : List ℕ) (p : Places)
    → Shaped s root xs p
    → Freed s root xs p (pml_free s root)
unfolding pml_free
pml_free_lem s root xs p shape =
    let (r, gone, below) =
      free_level 4 s xs p (λ t j. Unit) root
        (record {
          supply = shape.supply;
          child = λ t i k o. shape.child t i k;
          used = shape.used;
          pages = shape.pages;
        })
        shape.root_rank (λ t j k. tt) in
    record {
      after = r.after;
      returns = r.returns;
      rest = r.rest;
      supply = r.inv.supply;
      places = r.places;
      apart = r.inv.used;
      ranks = λ x. elim (r.ranks x) [ inl e ↦ inl e | inr (z, _) ↦ inr z ];
      kept = r.kept;
      keeps = r.keeps;
      given = r.given;
      root_freed = gone;
      below_freed = below;
    }
