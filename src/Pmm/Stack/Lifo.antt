-- ===== src/Pmm/Stack/Lifo.antt =====
-- The page stack as the list of its pages, the next to be allocated first.
use asym.Base.{
  ℕ, zero, suc, ◌+◌, ◌-◌, ◌≤◌, ◌≡◌, ◌≢◌, refl, sym, ap, ◌∙◌, List, [], ◌∷◌, ◌++◌, arith, inl, inr,
  Bool-cases, Option, none, some, ◌==◌, if◌then◌else◌, add64, sub64,
}
use native.Mathlib.Numerals.{add-one}
use asym.Pmm.Stack.{
  PageBuffer, PageStack, page_buffer_max, page, page_stack_alloc, page_stack_free, update,
  push_buffer, push_page, free_at, alloc_buffer, alloc_recorded,
}

-- The first `n` recorded pages of a buffer, the latest first.
abbrev pub recorded : (ℕ → ℕ) → ℕ → List ℕ
recorded pages zero = []
recorded pages (suc n) = pages n ∷ recorded pages n

-- What a chain of buffers holds: the top one records `index` pages, the others are full. A buffer is
-- itself the last page that comes from it.
abbrev pub contents : (ℕ → PageBuffer) → List ℕ → ℕ → List ℕ
contents buffers [] index = []
contents buffers (a ∷ bs) index =
    recorded (buffers a).pages index ++ a ∷ contents buffers bs page_buffer_max

-- `bs` are the addresses of the buffers that the `prev` pointers from `last` lead through.
abbrev pub Linked : (ℕ → PageBuffer) → Option ℕ → List ℕ → Type 0
Linked buffers last [] = last ≡ none
Linked buffers last (a ∷ bs) = (last ≡ some a) × Linked buffers (buffers a).prev bs

abbrev pub NotIn : ℕ → List ℕ → Type 0
NotIn x [] = Unit
NotIn x (a ∷ bs) = (a ≢ x) × NotIn x bs

abbrev pub Distinct : List ℕ → Type 0
Distinct [] = Unit
Distinct (a ∷ bs) = NotIn a bs × Distinct bs

pub record IsValid (s : PageStack) (bs : List ℕ) : Type 0 where
  pub linked : Linked s.buffers s.last bs
  pub distinct : Distinct bs
  pub index_in : s.index ≤ page_buffer_max

abbrev pub held : PageStack → List ℕ → List ℕ
held s bs = contents s.buffers bs s.index

module _ (buffers : ℕ → PageBuffer) (x : ℕ) (b : PageBuffer) where
  Linked-update :
      (last : Option ℕ) (bs : List ℕ)
      → NotIn x bs
      → Linked buffers last bs
      → Linked (update buffers x b) last bs
  Linked-update last [] n l = l
  Linked-update last (a ∷ bs) n l = (l.0, ground (arith, Linked-update (buffers a).prev bs n.1 l.1))

  contents-update :
      (bs : List ℕ) (i : ℕ)
      → NotIn x bs
      → contents (update buffers x b) bs i ≡ contents buffers bs i
  contents-update [] i n = refl
  contents-update (a ∷ bs) i n = ground (arith, contents-update bs page_buffer_max n.1)

recorded-update :
    (pages : ℕ → ℕ) (i v n : ℕ) → n ≤ i → recorded (update pages i v) n ≡ recorded pages n
recorded-update pages i v zero h = refl
recorded-update pages i v (suc n) h = ground (arith, recorded-update pages i v n)

update_self {ℓ} : {A : Type ℓ} (f : ℕ → A) (a : ℕ) (v : A) → update f a v a ≡ v
update_self f a v = ground arith

recorded_next :
    (pages : ℕ → ℕ) (i v : ℕ) → recorded (update pages i v) (i + 1) ≡ v ∷ recorded pages i
recorded_next pages i v =
    rw (add-one, update_self pages i v, recorded-update pages i v i (omega arith))

-- A page that becomes the top buffer.
push_buffer-held :
    (s : PageStack) (address : ℕ) (prev : Option ℕ) (bs : List ℕ)
    → s.last ≡ prev
    → IsValid s bs
    → NotIn address bs
    → let s' = push_buffer s address prev in
      IsValid s' (address ∷ bs)
      × (held s' (address ∷ bs) ≡ address ∷ contents s.buffers bs page_buffer_max)
unfolding push_buffer
push_buffer-held s address prev bs e v n = (
  record {
    linked = (refl, ground (arith, Linked-update s.buffers address b prev bs n (rw e at v.linked)));
    distinct = (n, v.distinct);
    index_in = omega arith;
  },
  ap (◌∷◌ address) (contents-update s.buffers address b bs page_buffer_max n),
)
  where
    b : PageBuffer
    b = record (s.buffers address) { prev = prev }

push_page-held :
    (s : PageStack) (address a : ℕ) (bs : List ℕ)
    → IsValid s (a ∷ bs)
    → s.index ≢ page_buffer_max
    → let s' = push_page s a address in
      IsValid s' (a ∷ bs) × (held s' (a ∷ bs) ≡ address ∷ held s (a ∷ bs))
unfolding push_page
push_page-held s address a bs v h = (
  record {
    linked = (
      v.linked.0,
      ground (arith, Linked-update s.buffers a b (s.buffers a).prev bs v.distinct.0 v.linked.1),
    );
    distinct = v.distinct;
    index_in = omega arith;
  },
  rw (
    contents-update s.buffers a b bs page_buffer_max v.distinct.0,
    update_self s.buffers a b,
    recorded_next (s.buffers a).pages s.index address,
  ),
)
  where
    b : PageBuffer
    b = record (s.buffers a) { pages = update (s.buffers a).pages s.index address }

abbrev one_more : PageStack → PageStack
one_more s = record s { free_page_amount = add64 s.free_page_amount 1 }

one_more-IsValid : (s : PageStack) (bs : List ℕ) → IsValid s bs → IsValid (one_more s) bs
one_more-IsValid s bs v = record { linked = v.linked; distinct = v.distinct; index_in = v.index_in }

-- The buffers of the stack once `address` is freed.
abbrev pub chain_after : PageStack → ℕ → List ℕ → List ℕ
chain_after s address [] = address ∷ []
chain_after s address (a ∷ bs) = if s.index == page_buffer_max then address ∷ a ∷ bs else a ∷ bs

-- Freeing a page that is no buffer puts it on top: it comes out next, and what the stack held after
-- it, in the same order.
pub page_stack_free-held :
    (s : PageStack) (address : ℕ) (bs : List ℕ)
    → IsValid s bs
    → NotIn address bs
    → let s' = page_stack_free s address in
      let bs' = chain_after s address bs in IsValid s' bs' × (held s' bs' ≡ address ∷ held s bs)
unfolding page_stack_free
page_stack_free-held s address [] v n =
    rw (v.linked, free_at)
      (push_buffer-held (one_more s) address none [] v.linked (one_more-IsValid s [] v) tt)
page_stack_free-held s address (a ∷ bs) v n = elim (Bool-cases (s.index == page_buffer_max)) [
  | inl e ↦
      let i : s.index ≡ page_buffer_max = ground arith in
      let (v', h) =
        push_buffer-held (one_more s) address (some a) (a ∷ bs) v.linked.0
          (one_more-IsValid s (a ∷ bs) v) n in
      rw (v.linked.0, free_at, e)
        (v', h ∙ ap (λ k. address ∷ contents s.buffers (a ∷ bs) k) (sym i))
  | inr e ↦
      rw (v.linked.0, free_at, e)
        (push_page-held (one_more s) address a bs (one_more-IsValid s (a ∷ bs) v) (ground arith))
]

abbrev pub tail : List ℕ → List ℕ
tail [] = []
tail (x ∷ xs) = xs

-- What is left once the page on top is allocated. Where that page was itself a buffer, the next page
-- is lost with it: `index` then becomes one less than what the buffer below records.
abbrev pub left_after : PageStack → List ℕ → List ℕ
left_after s rest = if s.index == 0 then tail rest else rest

abbrev pub chain_left : PageStack → List ℕ → List ℕ
chain_left s bs = if s.index == 0 then tail bs else bs

tail-contents :
    (buffers : ℕ → PageBuffer) (bs : List ℕ)
    → tail (contents buffers bs page_buffer_max) ≡ contents buffers bs (page_buffer_max - 1)
tail-contents buffers [] = refl
tail-contents buffers (b ∷ bs) = refl

recorded_pred :
    (pages : ℕ → ℕ) (n : ℕ) → n ≢ 0 → recorded pages n ≡ pages (n - 1) ∷ recorded pages (n - 1)
recorded_pred pages zero h = absurd (h refl)
recorded_pred pages (suc n) h = ap (λ k. pages k ∷ recorded pages k) (omega arith)

-- Allocation returns the page on top and counts it off; the others stay in order, but for the page
-- that goes missing when the page returned was a buffer with another one below it.
pub page_stack_alloc-held :
    (s : PageStack) (bs : List ℕ) (top : ℕ) (rest : List ℕ)
    → IsValid s bs
    → held s bs ≡ top ∷ rest
    → let (taken, s') = page_stack_alloc s in
      (taken ≡ page top)
      × IsValid s' (chain_left s bs)
      × (held s' (chain_left s bs) ≡ left_after s rest)
      × (s'.free_page_amount ≡ sub64 s.free_page_amount 1)
unfolding page_stack_alloc
page_stack_alloc-held s [] top rest v h = ground arith
page_stack_alloc-held s (a ∷ bs) top rest v h = elim (Bool-cases (s.index == 0)) [
  | inl e ↦
      let i : s.index ≡ 0 = ground arith in
      let h' : a ∷ contents s.buffers bs page_buffer_max ≡ top ∷ rest = rw i at h in
      rw (v.linked.0, alloc_buffer, e)
        (
          ground arith,
          record { linked = v.linked.1; distinct = v.distinct.1; index_in = omega arith },
          ground (arith, tail-contents s.buffers bs),
          refl,
        )
  | inr e ↦
      let i : s.index ≢ 0 = ground arith in
      rw (v.linked.0, alloc_recorded, e)
        (
          ground (arith, recorded_pred (s.buffers a).pages s.index),
          record { linked = v.linked; distinct = v.distinct; index_in = omega arith },
          ground (arith, recorded_pred (s.buffers a).pages s.index),
          refl,
        )
]
