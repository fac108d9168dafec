-- ===== src/Links/Tests.antt =====
-- include/stdlib/sys/list.h on two small lists.
use asym.Base.{ℕ, ◌≡◌, ◌⊎◌, refl, arith, none, some, List, [], ◌∷◌, inl, inr}
use asym.Links.{Links, list_pop, list_push, list_append, list_prepend, list_remove}
unfoldable use asym.Links.{list_entry_init, list_init, list_add, list_push}
use asym.Links.Between.{IsList}
use asym.Links.Refine.{list_push_lem, list_pop_lem, list_remove_lem, list_append-prepend}

abbrev blank : Links
blank = record { prev = λ x. 0; next = λ x. 0 }

abbrev one : Links
one = list_init blank 1

-- the list 1 with the entry 5, and the empty list 2
abbrev two : Links
two = list_init (list_push one 1 5) 2

two-IsList : IsList two 1 (5 ∷ [])
unfolding list_init list_entry_init list_push list_add
two-IsList = record {
  along = ((refl, refl), ((refl, refl), tt));
  distinct = (λ i. elim i [ inl q ↦ absurd (omega (arith, q)) | inr z ↦ z ], (λ z. z, tt));
}

two-other : IsList two 2 []
unfolding list_init list_entry_init list_push list_add
two-other = record { along = ((refl, refl), tt); distinct = (λ z. z, tt) }

list_push_lem_example : IsList (list_push two 1 7) 1 (5 ∷ 7 ∷ []) × IsList (list_push two 1 7) 2 []
list_push_lem_example =
    list_push_lem two 1 7 (5 ∷ []) 2 [] two-IsList
      (λ i. elim i [
        | inl q ↦ absurd (omega (arith, q))
        | inr j ↦ elim j [ inl q ↦ absurd (omega (arith, q)) | inr z ↦ z ]
      ])
      two-other
      (λ x i j. elim i [
        | inl p ↦ elim j [
          | inl q ↦ absurd (omega (arith, p, q))
          | inr k ↦ elim k [
            | inl q ↦ absurd (omega (arith, p, q))
            | inr l ↦ elim l [ inl q ↦ absurd (omega (arith, p, q)) | inr z ↦ z ]
          ]
        ]
        | inr z ↦ z
      ])

list_pop_lem_example :
    ((◌≡◌ {A = List ℕ} (5 ∷ []) []) × (list_pop two 1 ≡ (none, two)))
    ⊎ ((x : ℕ) × (rest : List ℕ) × (5 ∷ [] ≡ x ∷ rest)
        × ((list_pop two 1).0 ≡ some x)
        × IsList (list_pop two 1).1 1 rest
        × IsList (list_pop two 1).1 x [])
list_pop_lem_example = list_pop_lem two 1 (5 ∷ []) two-IsList

list_remove_lem_example : IsList (list_remove two 5) 1 [] × IsList (list_remove two 5) 5 []
list_remove_lem_example = list_remove_lem two 1 5 [] [] two-IsList

list_append-prepend_example :
    IsList (list_append two 5 7) 1 (5 ∷ 7 ∷ []) × IsList (list_prepend two 5 7) 1 (7 ∷ 5 ∷ [])
list_append-prepend_example = list_append-prepend two 1 7 5 [] [] two-IsList (λ i. elim i [
  | inl q ↦ absurd (omega (arith, q))
  | inr j ↦ elim j [ inl q ↦ absurd (omega (arith, q)) | inr z ↦ z ]
])
