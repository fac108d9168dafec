-- ===== src/Sched/Queue.antt =====
-- src/kernel/queue.h: a list of `list_t` with its length. A `list_t` is the sequence of its elements
-- from `head.next` on.
use asym.Base.{
  ℕ, ◌+◌, ◌<◌, ◌≡◌, refl, ap, false, List, [], ◌∷◌, ◌++◌, Option, none, some, arith, length,
  length-append, ◌==◌, if◌then◌else◌, add64, sub64, word,
}

pub record Queue : Type 0 where
  pub length : ℕ
  pub list : List ℕ

abbrev pub queue_init : Queue
queue_init = record { length = 0; list = [] }

unfoldable pub queue_push : Queue → ℕ → Queue
queue_push q element = record { length = add64 q.length 1; list = q.list ++ element ∷ [] }

-- `list_pop` under the decreased length
abbrev pub list_pop : ℕ → List ℕ → Option ℕ × Queue
list_pop n [] = (none, record { length = n; list = [] })
list_pop n (x ∷ xs) = (some x, record { length = n; list = xs })

unfoldable pub queue_pop : Queue → Option ℕ × Queue
queue_pop q = if q.length == 0 then (none, q) else list_pop (sub64 q.length 1) q.list

-- The length is that of the list, and no push makes it wrap.
pub record IsCounted (q : Queue) : Type 0 where
  pub counted : q.length ≡ length q.list
  pub small : q.length < word

abbrev pub Pops : List ℕ → Option ℕ × Queue → Type 0
Pops [] (r, q) = (r ≡ none) × (q.list ≡ []) × IsCounted q
Pops (x ∷ xs) (r, q) = (r ≡ some x) × (q.list ≡ xs) × IsCounted q

-- On a queue whose length is right, `queue_pop` takes the oldest element, or returns NULL on the
-- empty queue, and the length stays right.
pub queue_pop-Pops : (q : Queue) → IsCounted q → Pops q.list (queue_pop q)
unfolding queue_pop
queue_pop-Pops q v = split q.list refl
  where
    split : (xs : List ℕ) → q.list ≡ xs → Pops xs (queue_pop q)
    split [] e = ground (arith, ap length e)
    split (x ∷ xs) e =
        let some_left : (q.length == 0) ≡ false = ground (arith, ap length e) in
        rw (some_left, e)
          (refl, refl, record { counted = omega (arith, ap length e); small = omega arith })

pub queue_push-IsCounted :
    (q : Queue) (x : ℕ) → IsCounted q → q.length + 1 < word → IsCounted (queue_push q x)
unfolding queue_push
queue_push-IsCounted q x v h = record {
  counted = omega (arith, v.counted, length-append q.list (x ∷ []));
  small = omega arith;
}
