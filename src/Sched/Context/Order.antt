-- ===== src/Sched/Context/Order.antt =====
-- The searches of src/kernel/sched.c against one list: the waiting threads, by falling priority and,
-- within a priority, in the order in which they were pushed.
use asym.Base.{
  ℕ, ◌≡◌, ◌≢◌, refl, ap, ◌∙◌, subst, List, [], ◌∷◌, ◌++◌, Option, arith, ◌==◌, if_cases,
}
use mathlib.Core.List.{head?, tail}
use asym.Sched.Queue.{Queue, queue_pop, IsCounted, Pops, queue_pop-Pops}
use asym.Sched.State.{update}
use asym.Sched.Context.{pop_first}

-- the threads of the queues of the levels, in the order of the loop
abbrev pub flat : List ℕ → (ℕ → Queue) → List ℕ
flat [] queues = []
flat (i ∷ levels) queues = (queues i).list ++ flat levels queues

abbrev pub NotIn : ℕ → List ℕ → Type 0
NotIn i [] = Unit
NotIn i (j ∷ levels) = (j ≢ i) × NotIn i levels

abbrev pub Distinct : List ℕ → Type 0
Distinct [] = Unit
Distinct (i ∷ levels) = NotIn i levels × Distinct levels

pub record AllCounted (queues : ℕ → Queue) : Type 0 where
  pub at : (i : ℕ) → IsCounted (queues i)

flat-update :
    (levels : List ℕ) (queues : ℕ → Queue) (i : ℕ) (q : Queue)
    → NotIn i levels
    → flat levels (update queues i q) ≡ flat levels queues
flat-update [] queues i q n = refl
flat-update (j ∷ levels) queues i q n = ground (arith, flat-update levels queues i q n.1)

pub AllCounted-update :
    (queues : ℕ → Queue) (i : ℕ) (q : Queue)
    → AllCounted queues
    → IsCounted q
    → AllCounted (update queues i q)
AllCounted-update queues i q a c = record { at = each }
  where
    each : (j : ℕ) → IsCounted (update queues i q j)
    each j = if_cases IsCounted (j == i) q (queues j) (λ e. c) (λ e. a.at j)

-- What one pass leaves of `queues`, whose threads at the levels were `all`.
pub record Passed (levels : List ℕ) (queues : ℕ → Queue) (all : List ℕ) (r : Option ℕ × (ℕ → Queue))
    : Type 0 where
  pub thread : r.0 ≡ head? all
  pub rest : flat levels r.1 ≡ tail all
  pub counted : AllCounted r.1
  pub others : (j : ℕ) → NotIn j levels → r.1 j ≡ queues j

flat-popped :
    (i : ℕ) (levels : List ℕ) (queues : ℕ → Queue) (q : Queue)
    → NotIn i levels
    → flat (i ∷ levels) (update queues i q) ≡ q.list ++ flat levels queues
flat-popped i levels queues q n = ground (arith, flat-update levels queues i q n)

-- One level before the others.
pop_first-level :
    (i : ℕ) (levels : List ℕ) (queues : ℕ → Queue) (xs : List ℕ)
    → NotIn i levels
    → AllCounted queues
    → (queues i).list ≡ xs
    → Pops xs (queue_pop (queues i))
    → (AllCounted (update queues i (queue_pop (queues i)).1)
        → Passed levels
            (update queues i (queue_pop (queues i)).1)
            (flat levels queues)
            (pop_first levels (update queues i (queue_pop (queues i)).1)))
    → Passed (i ∷ levels) queues (xs ++ flat levels queues) (pop_first (i ∷ levels) queues)
unfolding pop_first
pop_first-level i levels queues [] n a e (popped, left, c) ih =
    let p = ih (AllCounted-update queues i (queue_pop (queues i)).1 a c) in
    rw (popped, pop_first)
      (record {
        thread = p.thread;
        rest = ground (arith, ap (λ (q : Queue). q.list) (p.others i n), p.rest, left);
        counted = p.counted;
        others = λ j m. p.others j m.1 ∙ ground arith;
      })
pop_first-level i levels queues (x ∷ xs) n a e (popped, left, c) ih =
    rw (popped, pop_first)
      (record {
        thread = refl;
        rest =
            flat-popped i levels queues (queue_pop (queues i)).1 n
            ∙ ap (λ (l : List ℕ). l ++ flat levels queues) left;
        counted = AllCounted-update queues i (queue_pop (queues i)).1 a c;
        others = λ j m. ground arith;
      })

pub pop_first-Passed :
    (levels : List ℕ) (queues : ℕ → Queue)
    → Distinct levels
    → AllCounted queues
    → Passed levels queues (flat levels queues) (pop_first levels queues)
pop_first-Passed [] queues d a =
    unfold pop_first in record { thread = refl; rest = refl; counted = a; others = λ j n. refl }
pop_first-Passed (i ∷ levels) queues d a =
    let left = update queues i (queue_pop (queues i)).1 in
    let passed = pop_first-Passed levels left d.1 in
    pop_first-level i levels queues (queues i).list d.0 a refl (queue_pop-Pops (queues i) (a.at i))
      (λ c.
        subst (λ (l : List ℕ). Passed levels left l (pop_first levels left))
          (flat-update levels queues i (queue_pop (queues i)).1 d.0) (passed c))
