-- ===== src/Pml/Free/Children.antt =====
-- The loop of pml_free_level of src/kernel/pml.c over the entries of a table.
use asym.Base.{
  ℕ, zero, suc, ◌+◌, ◌≤◌, ◌<◌, ◌≡◌, sym, ap, ◌∙◌, arith, true, false, not, ◌||◌, List, ◌==◌,
  Bool-cases, inl, inr, subst,
}
use asym.Pmm.Bitmap.{Outcome}
use asym.Pml.{Paging, entry_address, is_present, is_owned}
use asym.Pml.Shape.{Places}
use asym.Pml.Free.{free_child, pml_free_level}
unfoldable use asym.Pml.Free.{free_entries}
use asym.Pml.Free.Invariant.{Inv-fewer, Below, zero_stays, Frees, Inv, Cleared}
unfoldable use asym.Pml.Free.Invariant.{skipped}

one_child :
    (l : ℕ)
    → Frees l
    → (s : Paging) (xs : List ℕ) (p : Places) (Open : ℕ → ℕ → Type 0) (table i : ℕ)
    → Inv s xs p (λ t j. Open t j × (t ≡ table → i ≤ j))
    → p.rank table ≡ suc (suc l)
    → ((t j : ℕ) → p.rank t ≤ suc (suc l) → Open t j)
    → i < 512
    → (r : Cleared s xs p
        (λ t j. Open t j × (t ≡ table → suc i ≤ j))
        (suc l)
        (free_child (pml_free_level (suc l)) (suc l) s (s.entries table i)))
      × Below s p r.places
      × (is_present (s.entries table i) ≡ true
          → (l ≡ 0 → is_owned (s.entries table i) ≡ true)
          → r.places.rank (entry_address (s.entries table i)) ≡ 0)
unfolding skipped
one_child l frees s xs p Open table i v h low lt =
    elim (Bool-cases (is_present (s.entries table i))) [
      | inr e ↦ rw e (skipped (suc l) later v, none_freed, λ a o. absurd (ground (arith, a, e)))
      | inl e ↦ elim (Bool-cases (not (suc l == 1) || is_owned (s.entries table i))) [
        | inr f ↦ rw (e, f) (skipped (suc l) later v, none_freed, λ a o. absurd (not_passed f o))
        | inl f ↦
            let at =
              v.child table i l (low table i (omega (arith, h)), λ z. omega arith) h lt e
                (λ z. ground (arith, f, z)) in
            let c = entry_address (s.entries table i) in
            let (r, gone, below) =
              frees s xs p (λ t j. Open t j × (t ≡ table → i ≤ j)) c v at.rank
                (λ t j k.
                  (low t j (omega (arith, k)), λ q. absurd (omega (arith, k, h, ap p.rank q)))) in
            rw (e, f)
              ((
                record {
                  after = r.after;
                  returns = r.returns;
                  rest = r.rest;
                  places = r.places;
                  inv =
                      Inv-fewer
                        (λ t j o. (
                          (o.0, λ q. omega (arith, o.1 q)),
                          λ q w. absurd (omega (arith, o.1 (q ∙ at.parent), w, at.slot)),
                        ))
                        r.inv;
                  kept = r.kept;
                  keeps = r.keeps;
                  given = r.given;
                  ranks = r.ranks;
                  parents = r.parents;
                  slots = r.slots;
                  same = r.same;
                },
                below,
                λ a o. gone,
              ))
      ]
    ]
  where
    later : (t j : ℕ) → Open t j × (t ≡ table → suc i ≤ j) → Open t j × (t ≡ table → i ≤ j)
    later t j o = (o.0, λ q. omega (arith, o.1 q))

    none_freed : Below s p p
    none_freed t j r k z = absurd (omega (arith, k, z))

    not_passed :
        (not (suc l == 1) || is_owned (s.entries table i)) ≡ false
        → (l ≡ 0 → is_owned (s.entries table i) ≡ true)
        → ⊥
    not_passed f o = let z : l ≡ 0 = ground (arith, f) in ground (arith, f, o z)

-- What was a table of a low rank is one still, or is freed.
pub lower :
    {s : Paging} {xs : List ℕ} {p : Places} {Open : ℕ → ℕ → Type 0} {top : ℕ} {m : Outcome Paging}
    (r : Cleared s xs p Open top m) (x bound : ℕ)
    → top ≤ bound
    → r.places.rank x ≤ bound
    → p.rank x ≤ bound
lower r x bound le h = elim (r.ranks x) [
  | inl e ↦ omega (arith, e, h)
  | inr (_, k) ↦ omega (arith, k, le)
]

pub same_rank :
    {s : Paging} {xs : List ℕ} {p : Places} {Open : ℕ → ℕ → Type 0} {top : ℕ} {m : Outcome Paging}
    (r : Cleared s xs p Open top m) (x : ℕ)
    → top < p.rank x
    → r.places.rank x ≡ p.rank x
same_rank r x lt = elim (r.ranks x) [ inl e ↦ e | inr (_, k) ↦ absurd (omega (arith, k, lt)) ]

pub all_children :
    (n i l : ℕ)
    → Frees l
    → (s : Paging) (xs : List ℕ) (p : Places) (Open : ℕ → ℕ → Type 0) (table : ℕ)
    → Inv s xs p (λ t j. Open t j × (t ≡ table → i ≤ j))
    → p.rank table ≡ suc (suc l)
    → ((t j : ℕ) → p.rank t ≤ suc (suc l) → Open t j)
    → n + i ≡ 512
    → (r : Cleared s xs p
        (λ t j. Open t j × (t ≡ table → 512 ≤ j))
        (suc l)
        (free_entries (pml_free_level (suc l)) (suc l) n i s table))
      × Below s p r.places
      × ((j : ℕ)
          → i ≤ j
          → j < 512
          → is_present (s.entries table j) ≡ true
          → (l ≡ 0 → is_owned (s.entries table j) ≡ true)
          → r.places.rank (entry_address (s.entries table j)) ≡ 0)
unfolding free_entries skipped
all_children zero i l frees s xs p Open table v h low e = (
  skipped (suc l) (λ t j o. (o.0, λ q. omega (arith, o.1 q, e))) v,
  λ t j r k z. absurd (omega (arith, k, z)),
  λ j le lt. absurd (omega (arith, e, le, lt)),
)
all_children (suc n) i l frees s xs p Open table v h low e =
    let (a, below_a, at_i) = one_child l frees s xs p Open table i v h low (omega (arith, e)) in
    let still = same_rank a table (omega (arith, h)) in
    let (b, below_b, later) =
      all_children n (i + 1) l frees a.after a.rest a.places Open table
        (Inv-fewer (λ t j o. (o.0, λ q. omega (arith, o.1 q))) a.inv) (still ∙ h)
        (λ t j k. low t j (lower a t (suc (suc l)) (omega arith) k)) (omega (arith, e)) in
    (
      record {
        after = b.after;
        returns = rw a.returns b.returns;
        rest = b.rest;
        places = b.places;
        inv = b.inv;
        kept = λ x z n. b.kept x (zero_stays a x z) (a.kept x z n);
        keeps = λ x m. b.keeps x (a.keeps x m);
        given = λ x k z high. elim (Bool-cases (a.places.rank x == 0)) [
          | inl e ↦ b.keeps x (a.given x k (ground (arith, e)) high)
          | inr e ↦ b.given x (ground (arith, e)) z high
        ];
        ranks = λ x. elim (b.ranks x) [
          | inl same ↦ elim (a.ranks x) [
            | inl same' ↦ inl (same ∙ same')
            | inr (z, k) ↦ inr (same ∙ z, k)
          ]
          | inr (z, k) ↦ inr (z, lower a x (suc l) (omega arith) k)
        ];
        parents = λ x. b.parents x ∙ a.parents x;
        slots = λ x. b.slots x ∙ a.slots x;
        same = λ t j. b.same t j ∙ a.same t j;
      },
      λ t j r k z lt present owned. elim (a.ranks t) [
        | inr (y, _) ↦
            zero_stays b (entry_address (s.entries t j)) (below_a t j r k y lt present owned)
        | inl e' ↦
            subst (λ x. b.places.rank (entry_address x) ≡ 0) (a.same t j)
              (below_b t j r (e' ∙ k) z lt (ap is_present (a.same t j) ∙ present)
                (λ y. ap is_owned (a.same t j) ∙ owned y))
      ],
      λ j le lt present owned. elim (Bool-cases (j == i)) [
        | inl q ↦
            let here : j ≡ i = ground (arith, q) in
            zero_stays b (entry_address (s.entries table j)) (
              subst (λ k. a.places.rank (entry_address (s.entries table k)) ≡ 0) (sym here)
                (at_i (ap (λ k. is_present (s.entries table k)) (sym here) ∙ present)
                  (λ y. ap (λ k. is_owned (s.entries table k)) (sym here) ∙ owned y)))
        | inr q ↦
            subst (λ x. b.places.rank (entry_address x) ≡ 0) (a.same table j)
              (later j (ground (arith, q, le)) lt (ap is_present (a.same table j) ∙ present)
                (λ y. ap is_owned (a.same table j) ∙ owned y))
      ],
    )
