-- ===== src/Links/Between.antt =====
-- A list of include/stdlib/sys/list.h taken apart between two neighbours, and put together.
use asym.Base.{
  ℕ, ◌≡◌, ◌≢◌, refl, sym, ap, subst, ◌∙◌, arith, List, [], ◌∷◌, ◌++◌, append_assoc, inl, inr,
}
use asym.Links.{Links}
unfoldable use asym.Links.{list_add}
use asym.Links.Path.{
  In, Distinct, Joined, Along, last_of, Left, Along-frame, Along-split, Along-join, Left-In,
  last-In, Left-last, Left-front, In-left, In-right, In-append, Distinct-left, Distinct-right,
  Distinct-apart, Distinct-insert,
}

-- The entries of the list `head` are `xs`, all different, linked in both directions.
pub record IsList (m : Links) (head : ℕ) (xs : List ℕ) : Type 0 where
  pub along : Along m head (xs ++ head ∷ [])
  pub distinct : Distinct (head ∷ xs)

abbrev pub first_of : List ℕ → ℕ → ℕ
first_of [] head = head
first_of (x ∷ xs) head = x

abbrev pub rest_of : List ℕ → ℕ → List ℕ
rest_of [] head = []
rest_of (x ∷ xs) head = xs ++ head ∷ []

ends : (vs : List ℕ) (head : ℕ) → vs ++ head ∷ [] ≡ first_of vs head ∷ rest_of vs head
ends [] head = refl
ends (x ∷ xs) head = refl

-- The entries at which writes between `p` and `n` are not seen.
record Around (a e : ℕ) (us : List ℕ) (n : ℕ) (rest : List ℕ) : Type 0 where
  leaves : (x : ℕ) → Left x a us → (x ≢ last_of a us) × (x ≢ e)
  enters : (x : ℕ) → In x us → (x ≢ n) × (x ≢ e)
  leaves_after : (x : ℕ) → Left x n rest → (x ≢ last_of a us) × (x ≢ e)
  enters_after : (x : ℕ) → In x rest → (x ≢ n) × (x ≢ e)

module _ (head e : ℕ) (us vs : List ℕ) (d : Distinct (head ∷ us ++ vs))
    (new : In e (head ∷ us ++ vs) → ⊥) where
  is_new : (x : ℕ) → In x (head ∷ us ++ vs) → x ≢ e
  is_new x i q = new (subst (λ z. In z (head ∷ us ++ vs)) q i)

  from_us : (x : ℕ) → In x (head ∷ us) → In x (head ∷ us ++ vs)
  from_us x i = elim i [ inl q ↦ inl q | inr j ↦ inr (In-left x us vs j) ]

  from_vs : (x : ℕ) → In x vs → In x (head ∷ us ++ vs)
  from_vs x i = inr (In-right x us vs i)

  dist_us : Distinct (head ∷ us)
  dist_us = Distinct-left (head ∷ us) vs d

  after_first : (x : ℕ) → Left x (first_of vs head) (rest_of vs head) → In x vs
  after_first x l = go vs l
    where
      go : (vs : List ℕ) → Left x (first_of vs head) (rest_of vs head) → In x vs
      go [] l = elim l [ ]
      go (v ∷ vs) l = Left-front x v head vs l

  after_rest : (x : ℕ) → In x (rest_of vs head) → (x ≢ first_of vs head) × (In x (head ∷ vs))
  after_rest x i = go vs (Distinct-right us vs d.1) (λ j. d.0 (In-right head us vs j)) i
    where
      go :
          (vs : List ℕ)
          → Distinct vs
          → (In head vs → ⊥)
          → In x (rest_of vs head)
          → (x ≢ first_of vs head) × In x (head ∷ vs)
      go [] dv nh i = elim i [ ]
      go (v ∷ vs) dv nh i = elim (In-append x vs (head ∷ []) i) [
        | inl j ↦ (λ q. dv.0 (subst (λ z. In z vs) q j), inr (inr j))
        | inr j ↦ elim j [ inl q ↦ (λ r. nh (inl (sym q ∙ r)), inl q) | inr z ↦ elim z [ ] ]
      ]

  first-In : In (first_of vs head) (head ∷ vs)
  first-In = go vs
    where
      go : (vs : List ℕ) → In (first_of vs head) (head ∷ vs)
      go [] = inl refl
      go (v ∷ vs) = inr (inl refl)

  pub first-new : first_of vs head ≢ e
  first-new = elim first-In [
    | inl q ↦ is_new (first_of vs head) (inl q)
    | inr j ↦ is_new (first_of vs head) (from_vs (first_of vs head) j)
  ]

  pub last-new : last_of head us ≢ e
  last-new = is_new (last_of head us) (from_us (last_of head us) (last-In head us))

  around : Around head e us (first_of vs head) (rest_of vs head)
  around = record {
    leaves = λ x l. (Left-last x head us dist_us l, is_new x (from_us x (Left-In x head us l)));
    enters = λ x i. (
      λ q. elim first-In [
        | inl r ↦ dist_us.0 (subst (λ z. In z us) (q ∙ r) i)
        | inr j ↦ Distinct-apart x us vs d.1 i (subst (λ z. In z vs) (sym q) j)
      ],
      is_new x (from_us x (inr i)),
    );
    leaves_after = λ x l.
        let i = after_first x l in
        (
          λ q.
              Distinct-apart x (head ∷ us) vs d
                (subst (λ z. In z (head ∷ us)) (sym q) (last-In head us)) i,
          is_new x (from_vs x i),
        );
    enters_after = λ x i.
        let (ne, j) = after_rest x i in
        (ne, elim j [ inl q ↦ is_new x (inl q) | inr k ↦ is_new x (from_vs x k) ]);
  }

  -- What a change of `next` at the last of `us` and at `e`, and of `prev` at the first of `vs` and at `e`,
  -- leaves of the path up to there and from there on.
  pub kept :
      (m k : Links)
      → ((x : ℕ) → x ≢ last_of head us → x ≢ e → k.next x ≡ m.next x)
      → ((x : ℕ) → x ≢ first_of vs head → x ≢ e → k.prev x ≡ m.prev x)
      → Along m head us
      → Along m (first_of vs head) (rest_of vs head)
      → Along k head us × Along k (first_of vs head) (rest_of vs head)
  kept m k f g p r = (
    Along-frame m k head us (λ x l. let (y, z) = around.leaves x l in f x y z)
        (λ x i. let (y, z) = around.enters x i in g x y z) p,
    Along-frame m k (first_of vs head) (rest_of vs head)
        (λ x l. let (y, z) = around.leaves_after x l in f x y z)
        (λ x i. let (y, z) = around.enters_after x i in g x y z) r,
  )

-- A list taken apart at the place between `us` and `vs`.
pub apart :
    (m : Links) (head : ℕ) (us vs : List ℕ)
    → Along m head ((us ++ vs) ++ head ∷ [])
    → Along m head us
      × Joined m (last_of head us) (first_of vs head)
      × Along m (first_of vs head) (rest_of vs head)
apart m head us vs p =
    Along-split m head us (first_of vs head) (rest_of vs head)
      (subst (Along m head) (append_assoc us vs (head ∷ []) ∙ ap (λ w. us ++ w) (ends vs head)) p)

pub together :
    (m : Links) (head : ℕ) (us vs : List ℕ)
    → Along m head us
    → Joined m (last_of head us) (first_of vs head)
    → Along m (first_of vs head) (rest_of vs head)
    → Along m head ((us ++ vs) ++ head ∷ [])
together m head us vs p j r =
    subst (Along m head) (sym (append_assoc us vs (head ∷ []) ∙ ap (λ w. us ++ w) (ends vs head)))
      (Along-join m head us (first_of vs head) (rest_of vs head) p j r)

-- list_add between two neighbours puts the entry between them.
pub list_add-IsList :
    (m : Links) (head e : ℕ) (us vs : List ℕ)
    → IsList m head (us ++ vs)
    → (In e (head ∷ us ++ vs) → ⊥)
    → IsList (list_add m (last_of head us) (first_of vs head) e) head (us ++ e ∷ vs)
unfolding list_add
list_add-IsList m head e us vs l new =
    let (p, j, r) = apart m head us vs l.along in
    let n = first_of vs head in
    let z = last_of head us in
    let ne_n : n ≢ e = first-new head e us vs l.distinct new in
    let ne_z : z ≢ e = last-new head e us vs l.distinct new in
    let k = list_add m z n e in
    let (p', r') =
      kept head e us vs l.distinct new m k (λ x a b. ground (arith, a, b))
        (λ x a b. ground (arith, a, b)) p r in
    record {
      along =
          together k head us (e ∷ vs) p' (ground arith, ground (arith, ne_n))
            (subst (Along k e) (sym (ends vs head))
              ((ground (arith, ne_z), ground (arith, ne_n)), r'));
      distinct = (
        λ i. elim (In-append head us (e ∷ vs) i) [
          | inl a ↦ l.distinct.0 (In-left head us vs a)
          | inr b ↦ elim b [
            | inl q ↦ new (inl (sym q))
            | inr c ↦ l.distinct.0 (In-right head us vs c)
          ]
        ],
        Distinct-insert e us vs (λ i. new (inr i)) l.distinct.1,
      );
    }
