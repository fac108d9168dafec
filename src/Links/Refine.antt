-- ===== src/Links/Refine.antt =====
-- include/stdlib/sys/list.h as operations on the sequence of a list's entries.
use asym.Base.{
  ℕ, ◌≡◌, ◌≢◌, ◌⊎◌, refl, sym, subst, ◌∙◌, arith, Bool, true, false, Option, none, some, List, [],
  ◌∷◌, ◌++◌, append_assoc, append-nil, inl, inr,
}
use asym.Base.Maps.{update}
use asym.Links.{Links}
unfoldable use asym.Links.{
  list_entry_init, list_init, list_empty, list_add, list_append, list_prepend, list_remove,
  list_push, list_pop, list_first,
}
use asym.Links.Path.{
  In, Distinct, Joined, Along, last_of, Along-frame, last-In, Left-front, In-left, In-right,
  In-append, Distinct-right, Distinct-apart, Distinct-drop,
}
use asym.Links.Between.{
  IsList, first_of, rest_of, kept, first-new, last-new, apart, together, list_add-IsList,
}

-- list_remove takes the entry out, and leaves it as an empty list of its own.
pub list_remove_lem :
    (m : Links) (head e : ℕ) (us vs : List ℕ)
    → IsList m head (us ++ e ∷ vs)
    → IsList (list_remove m e) head (us ++ vs) × IsList (list_remove m e) e []
unfolding list_remove list_entry_init
list_remove_lem m head e us vs l =
    let (p, j, q) = apart m head us (e ∷ vs) l.along in
    let (j', r) = split vs q in
    let d = Distinct-drop e us vs l.distinct.1 in
    let new = not_there in
    let dist : Distinct (head ∷ us ++ vs) = (λ i. l.distinct.0 (widen head i), d) in
    let n = first_of vs head in
    let z = last_of head us in
    let ne_n : n ≢ e = first-new head e us vs dist new in
    let ne_z : z ≢ e = last-new head e us vs dist new in
    let k = list_remove m e in
    let next_e : (update m.next z n) e ≡ n = ground (arith, ne_z, j'.0) in
    let (p', r') =
      kept head e us vs dist new m k (λ x a b. ground (arith, a, b, j.1))
        (λ x a b. ground (arith, a, b, next_e, j.1, j'.0)) p r in
    (
      record {
        along =
            together k head us vs p'
              (ground (arith, ne_z, j.1, j'.0), ground (arith, ne_n, ne_z, next_e, j.1, j'.0)) r';
        distinct = dist;
      },
      record { along = ((ground arith, ground arith), tt); distinct = (λ i. i, tt) },
    )
  where
    split :
        (vs : List ℕ)
        → Along m e (vs ++ head ∷ [])
        → Joined m e (first_of vs head) × Along m (first_of vs head) (rest_of vs head)
    split [] q = (q.0, q.1)
    split (v ∷ vs) q = (q.0, q.1)

    widen : (x : ℕ) → In x (us ++ vs) → In x (us ++ e ∷ vs)
    widen x i = elim (In-append x us vs i) [
      | inl a ↦ In-left x us (e ∷ vs) a
      | inr b ↦ In-right x us (e ∷ vs) (inr b)
    ]

    not_there : In e (head ∷ us ++ vs) → ⊥
    not_there i = elim i [
      | inl q ↦
          l.distinct.0 (subst (λ z. In z (us ++ e ∷ vs)) q (In-right e us (e ∷ vs) (inl refl)))
      | inr k ↦ elim (In-append e us vs k) [
        | inl a ↦ Distinct-apart e us (e ∷ vs) l.distinct.1 a (inl refl)
        | inr b ↦ (Distinct-right us (e ∷ vs) l.distinct.1).0 b
      ]
    ]

-- An initialised list has no entries.
pub list_init_lem : (m : Links) (head : ℕ) → IsList (list_init m head) head []
unfolding list_init list_entry_init
list_init_lem m head = record {
  along = ((ground arith, ground arith), tt);
  distinct = (λ i. i, tt);
}

-- the sequence's own test and front
abbrev pub is_nil : List ℕ → Bool
is_nil [] = true
is_nil (x ∷ xs) = false

abbrev pub front : List ℕ → Option ℕ
front [] = none
front (x ∷ xs) = some x

-- list_empty and list_first read the sequence.
pub list_empty-first :
    (m : Links) (head : ℕ) (xs : List ℕ)
    → IsList m head xs
    → (list_empty m head ≡ is_nil xs) × (list_first m head ≡ front xs)
unfolding list_empty list_first
list_empty-first m head [] l = let e = l.along.0.0 in (ground (arith, e), ground (arith, e))
list_empty-first m head (x ∷ xs) l =
    let e = l.along.0.0 in
    let ne : x ≢ head = λ q. l.distinct.0 (inl (sym q)) in
    (ground (arith, e, ne), ground (arith, e, ne))

-- A list whose entries are apart from the places that were written.
elsewhere :
    (m k : Links) (other : ℕ) (ys : List ℕ)
    → ((x : ℕ) → In x (other ∷ ys) → (k.next x ≡ m.next x) × (k.prev x ≡ m.prev x))
    → IsList m other ys
    → IsList k other ys
elsewhere m k other ys f l = record {
  along =
      Along-frame m k other (ys ++ other ∷ []) (λ x i. (f x (Left-front x other other ys i)).0)
        (λ x i. elim (In-append x ys (other ∷ []) i) [
          | inl a ↦ (f x (inr a)).1
          | inr b ↦ elim b [ inl q ↦ (f x (inl q)).1 | inr z ↦ elim z [ ] ]
        ])
        l.along;
  distinct = l.distinct;
}

prev-last : (m : Links) (head : ℕ) (xs : List ℕ) → IsList m head xs → m.prev head ≡ last_of head xs
prev-last m head xs l =
    (apart m head xs []
      (subst (λ w. Along m head (w ++ head ∷ [])) (sym (append-nil xs)) l.along)).1.1

-- list_push puts a new entry behind all others, and leaves every list alone that has none of these
-- entries.
pub list_push_lem :
    (m : Links) (head e : ℕ) (xs : List ℕ) (other : ℕ) (ys : List ℕ)
    → IsList m head xs
    → (In e (head ∷ xs) → ⊥)
    → IsList m other ys
    → ((x : ℕ) → In x (other ∷ ys) → In x (e ∷ head ∷ xs) → ⊥)
    → IsList (list_push m head e) head (xs ++ e ∷ []) × IsList (list_push m head e) other ys
unfolding list_push list_add
list_push_lem m head e xs other ys l new o away =
    let last = prev-last m head xs l in
    let whole = subst (IsList m head) (sym (append-nil xs)) l in
    let fresh = subst (λ w. In e (head ∷ w) → ⊥) (sym (append-nil xs)) new in
    (
      subst (λ z. IsList (list_add m z head e) head (xs ++ e ∷ [])) (sym last)
          (list_add-IsList m head e xs [] whole fresh),
      elsewhere m (list_push m head e) other ys
          (λ x i.
            let a : x ≢ e = λ q. away x i (inl q) in
            let b : x ≢ head = λ q. away x i (inr (inl q)) in
            let c : x ≢ m.prev head = λ q.
              away x i (inr (subst (λ z. In z (head ∷ xs)) (sym (q ∙ last)) (last-In head xs))) in
            (ground (arith, a, c), ground (arith, a, b)))
          o,
    )

-- list_pop takes the first entry and leaves the others in order, or finds an empty list and changes
-- nothing.
pub list_pop_lem :
    (m : Links) (head : ℕ) (xs : List ℕ)
    → IsList m head xs
    → ((xs ≡ []) × (list_pop m head ≡ (none, m)))
      ⊎ ((x : ℕ) × (rest : List ℕ) × (xs ≡ x ∷ rest)
          × ((list_pop m head).0 ≡ some x)
          × IsList (list_pop m head).1 head rest
          × IsList (list_pop m head).1 x [])
unfolding list_pop
list_pop_lem m head [] l = let (e, _) = list_empty-first m head [] l in inl (refl, rw e refl)
list_pop_lem m head (x ∷ xs) l =
    let (e, _) = list_empty-first m head (x ∷ xs) l in
    let first : m.next head ≡ x = l.along.0.0 in
    let (a, b) = list_remove_lem m head x [] xs l in
    inr (x, xs, refl, rw (e, first) refl, rw (e, first) a, rw (e, first) b)

-- list_append puts a new entry behind an entry of the list, list_prepend one before it.
pub list_append-prepend :
    (m : Links) (head e x : ℕ) (us vs : List ℕ)
    → IsList m head (us ++ x ∷ vs)
    → (In e (head ∷ us ++ x ∷ vs) → ⊥)
    → IsList (list_append m x e) head (us ++ x ∷ e ∷ vs)
      × IsList (list_prepend m x e) head (us ++ e ∷ x ∷ vs)
unfolding list_append list_prepend
list_append-prepend m head e x us vs l new =
    let (_, j, q) = apart m head us (x ∷ vs) l.along in
    let shift : (us ++ x ∷ []) ++ vs ≡ us ++ x ∷ vs = append_assoc us (x ∷ []) vs in
    let shift' : (us ++ x ∷ []) ++ e ∷ vs ≡ us ++ x ∷ e ∷ vs = append_assoc us (x ∷ []) (e ∷ vs) in
    (
      rw (behind vs q) (
          subst (IsList (list_add m x (first_of vs head) e) head) shift' (
            subst (λ z. IsList (list_add m z (first_of vs head) e) head ((us ++ x ∷ []) ++ e ∷ vs))
              (last-snoc head us)
              (list_add-IsList m head e (us ++ x ∷ []) vs (subst (IsList m head) (sym shift) l)
                (subst (λ w. In e (head ∷ w) → ⊥) (sym shift) new)))),
      rw j.1 (list_add-IsList m head e us (x ∷ vs) l new),
    )
  where
    behind : (vs : List ℕ) → Along m x (vs ++ head ∷ []) → m.next x ≡ first_of vs head
    behind [] q = q.0.0
    behind (v ∷ vs) q = q.0.0

    last-snoc : (a : ℕ) (us : List ℕ) → last_of a (us ++ x ∷ []) ≡ x
    last-snoc a [] = refl
    last-snoc a (u ∷ us) = last-snoc u us
