-- ===== src/Pmm/Stack/Faults.antt =====
-- The page stack run empty, and a page freed and allocated again.
use asym.Base.{ℕ, ◌≡◌, arith, none, some, ◌==◌, add64, Bool-cases, inl, inr, refl, Option-cases}
use asym.Pmm.Stack.{
  PageStack, page_buffer_max, page, fault, page_stack_alloc, page_stack_free, push_buffer,
  push_page, free_at, alloc_buffer, alloc_recorded,
}

-- The bug: when the page on top is the only page left, it is allocated, and `index` is set to
-- `PAGE_BUFFER_MAX - 1` though no buffer is left. The next allocation does not return NULL: it
-- reads through the NULL `stack.last`.
pub page_stack_alloc_faults :
    (s : PageStack) (a : ℕ)
    → s.last ≡ some a
    → s.index ≡ 0
    → (s.buffers a).prev ≡ none
    → let (taken, s') = page_stack_alloc s in (taken ≡ page a) × ((page_stack_alloc s').0 ≡ fault)
unfolding page_stack_alloc
page_stack_alloc_faults s a l i p = rw (l, alloc_buffer, i) (refl, rw (p, alloc_recorded))

-- A page freed is the page that the next allocation returns, whatever the stack held.
pub page_stack_alloc-free :
    (s : PageStack) (address : ℕ) → (page_stack_alloc (page_stack_free s address)).0 ≡ page address
unfolding page_stack_alloc page_stack_free push_buffer push_page
page_stack_alloc-free s address = elim (Option-cases s.last) [
  | inl e ↦ rw (e, free_at)
  | inr (a, e) ↦
      rw (e, free_at)
        (elim (Bool-cases (s.index == page_buffer_max)) [
          | inl full ↦ rw full
          | inr room ↦ rw (room, e, alloc_buffer, alloc_recorded) (ground arith)
        ])
]

-- Freeing counts one page.
pub amount-page_stack_free :
    (s : PageStack) (address : ℕ)
    → (page_stack_free s address).free_page_amount ≡ add64 s.free_page_amount 1
unfolding page_stack_free push_buffer push_page
amount-page_stack_free s address = elim (Option-cases s.last) [
  | inl e ↦ rw (e, free_at)
  | inr (a, e) ↦
      rw (e, free_at)
        (elim (Bool-cases (s.index == page_buffer_max)) [ inl full ↦ rw full | inr room ↦ rw room ])
]
