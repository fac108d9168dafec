-- ===== src/Sched/Context.antt =====
-- The queues of a processor in src/kernel/sched.c: which thread runs next.
pub mod Order
pub mod Search
use asym.Base.{
  ℕ, zero, suc, ◌+◌, ◌-◌, ◌<◌, Bool, true, false, List, [], ◌∷◌, ◌++◌, Option, none, some, ◌==◌,
  ltb, if◌then◌else◌, add64,
}
use asym.Sched.Queue.{Queue, queue_init, queue_push, queue_pop}
use asym.Sched.State.{Thread, Context, Kernel, update, is_dead}

unfoldable pub sched_context_init : Context
sched_context_init = record { queues = λ i. queue_init; graveyard = []; run_thread = none }

-- `priority` is `thread->priority`.
unfoldable pub sched_context_push : Context → ℕ → ℕ → Context
sched_context_push c priority thread = record c {
  queues = update c.queues priority (queue_push (c.queues priority) thread);
}

abbrev pub running : Option ℕ → ℕ
running none = 0
running (some t) = 1

-- The loop runs from PRIORITY_MAX down to PRIORITY_MIN.
unfoldable pub sched_context_thread_amount : Context → ℕ
sched_context_thread_amount c =
    add64 (add64 (add64 (running c.run_thread) (c.queues 2).length) (c.queues 1).length)
      (c.queues 0).length

-- One pass of the loop: the first thread that a queue of the levels gives.
unfoldable pub pop_first : List ℕ → (ℕ → Queue) → Option ℕ × (ℕ → Queue)
pop_first [] queues = (none, queues)
pop_first (i ∷ levels) queues =
    let rest = pop_first levels (update queues i (queue_pop (queues i)).1) in
    elim (queue_pop (queues i)).0 [
      | none ↦ rest
      | some t ↦ (some t, update queues i (queue_pop (queues i)).1)
    ]

-- What a search yields: the thread, the queues, and the threads that were freed on the way.
pub record Outcome : Type 0 where
  pub thread : Option ℕ
  pub queues : ℕ → Queue
  pub freed : List ℕ

-- The loop over the levels, started again after each dead thread; the fuel bounds the restarts.
unfoldable pub find_in : (ℕ → Bool) → List ℕ → ℕ → (ℕ → Queue) → List ℕ → Outcome
find_in dead levels zero queues freed = record { thread = none; queues = queues; freed = freed }
find_in dead levels (suc fuel) queues freed = elim (pop_first levels queues).0 [
  | none ↦ record { thread = none; queues = (pop_first levels queues).1; freed = freed }
  | some t ↦ elim (dead t) [
    | true ↦ find_in dead levels fuel (pop_first levels queues).1 (freed ++ t ∷ [])
    | false ↦ record { thread = some t; queues = (pop_first levels queues).1; freed = freed }
  ]
]

-- the levels above `priority`, from the highest
abbrev pub levels_above : ℕ → List ℕ
levels_above priority =
    if ltb priority 2 then (if ltb priority 1 then 2 ∷ 1 ∷ [] else 2 ∷ []) else []

-- one round more than the threads that wait
abbrev pub fuel_of : Context → ℕ
fuel_of c = (c.queues 2).length + (c.queues 1).length + (c.queues 0).length + 1

unfoldable pub sched_context_find_higher : Kernel → Context → ℕ → Outcome
unfolding find_in pop_first
sched_context_find_higher k c priority =
    find_in (is_dead k) (levels_above priority) (fuel_of c) c.queues []

unfoldable pub sched_context_find_any : Kernel → Context → Outcome
unfolding find_in pop_first
sched_context_find_any k c = find_in (is_dead k) (2 ∷ 1 ∷ 0 ∷ []) (fuel_of c) c.queues []
