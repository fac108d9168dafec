-- ===== src/Sched/Context/Search.antt =====
-- sched_context_find_any and sched_context_find_higher of src/kernel/sched.c.
use asym.Base.{
  ℕ, zero, suc, ◌<◌, ◌≡◌, refl, sym, ap, ◌∙◌, Bool, true, false, List, [], ◌∷◌, ◌++◌, append_assoc,
  append-nil, Option, none, some, arith, if◌then◌else◌, length, length-append, Bool-cases, inl, inr,
}
use mathlib.Core.List.{tail}
use asym.Sched.Queue.{Queue}
use asym.Sched.State.{Context, Kernel, is_dead}
use asym.Sched.Context.{
  pop_first, Outcome, find_in, fuel_of, levels_above, sched_context_find_any,
  sched_context_find_higher,
}
use asym.Sched.Context.Order.{flat, Distinct, AllCounted, pop_first-Passed}

-- the threads freed, the thread taken, and those left
abbrev pub Skipped : Type 0
Skipped = List ℕ × Option ℕ × List ℕ

-- What a search is to do with the waiting threads, in their order: free the dead ones in front, and
-- take the first other one.
pub skip : (ℕ → Bool) → List ℕ → Skipped
skip dead [] = ([], none, [])
skip dead (t ∷ ts) =
    let (freed, found, rest) = skip dead ts in
    if dead t then (t ∷ freed, found, rest) else ([], some t, ts)

skip_gone :
    (dead : ℕ → Bool) (t : ℕ) (ts : List ℕ)
    → dead t ≡ true
    → (t ∷ (skip dead ts).0, (skip dead ts).1, (skip dead ts).2) ≡ skip dead (t ∷ ts)
unfolding skip
skip_gone dead t ts e = rw e

skip_alive :
    (dead : ℕ → Bool) (t : ℕ) (ts : List ℕ) → dead t ≡ false → ([], some t, ts) ≡ skip dead (t ∷ ts)
unfolding skip
skip_alive dead t ts e = rw e

pub record Found (dead : ℕ → Bool) (levels freed all : List ℕ) (s : Outcome) : Type 0 where
  pub thread : s.thread ≡ (skip dead all).1
  pub rest : flat levels s.queues ≡ (skip dead all).2
  pub gone : s.freed ≡ freed ++ (skip dead all).0
  pub counted : AllCounted s.queues

find_in-Found :
    (dead : ℕ → Bool) (levels : List ℕ) (fuel : ℕ) (queues : ℕ → Queue) (freed all : List ℕ)
    → Distinct levels
    → AllCounted queues
    → flat levels queues ≡ all
    → length all < fuel
    → Found dead levels freed all (find_in dead levels fuel queues freed)
unfolding find_in skip
find_in-Found dead levels zero queues freed all d a e h = absurd (omega arith)
find_in-Found dead levels (suc fuel) queues freed [] d a e h =
    let p = pop_first-Passed levels queues d a in
    rw (p.thread, e, find_in)
      (record {
        thread = refl;
        rest = p.rest ∙ ap tail e;
        gone = sym (append-nil freed);
        counted = p.counted;
      })
find_in-Found dead levels (suc fuel) queues freed (t ∷ ts) d a e h =
    let p = pop_first-Passed levels queues d a in
    let left = (pop_first levels queues).1 in
    let after =
      find_in-Found dead levels fuel left (freed ++ t ∷ []) ts d p.counted (p.rest ∙ ap tail e)
        (omega arith) in
    rw (p.thread, e, find_in)
      (elim (Bool-cases (dead t)) [
        | inl gone ↦
            let as_said = skip_gone dead t ts gone in
            rw gone (record {
              thread = after.thread ∙ ap (λ (r : Skipped). r.1) as_said;
              rest = after.rest ∙ ap (λ (r : Skipped). r.2) as_said;
              gone =
                  after.gone
                  ∙ append_assoc freed (t ∷ []) (skip dead ts).0
                  ∙ ap (λ (r : Skipped). freed ++ r.0) as_said;
              counted = after.counted;
            })
        | inr alive ↦
            let as_said = skip_alive dead t ts alive in
            rw alive (record {
              thread = ap (λ (r : Skipped). r.1) as_said;
              rest = p.rest ∙ ap tail e ∙ ap (λ (r : Skipped). r.2) as_said;
              gone = sym (append-nil freed) ∙ ap (λ (r : Skipped). freed ++ r.0) as_said;
              counted = p.counted;
            })
      ])

-- The lengths that the fuel is made of bound what a search meets.
fuel_enough :
    (c : Context) → AllCounted c.queues → length (flat (2 ∷ 1 ∷ 0 ∷ []) c.queues) < fuel_of c
fuel_enough c a = omega (
  arith,
  (a.at 0).counted,
  (a.at 1).counted,
  (a.at 2).counted,
  length-append (c.queues 2).list (flat (1 ∷ 0 ∷ []) c.queues),
  length-append (c.queues 1).list (flat (0 ∷ []) c.queues),
  length-append (c.queues 0).list [],
)

-- On queues whose lengths are right, `sched_context_find_any` frees the dead threads that stand in
-- front, by falling priority and then by age, and takes the first other one; the threads behind it
-- stay, in their order. It ends within the fuel.
pub sched_context_find_any-Found :
    (k : Kernel) (c : Context)
    → AllCounted c.queues
    → Found
        (is_dead k)
        (2 ∷ 1 ∷ 0 ∷ [])
        []
        (flat (2 ∷ 1 ∷ 0 ∷ []) c.queues)
        (sched_context_find_any k c)
unfolding sched_context_find_any
sched_context_find_any-Found k c a =
    find_in-Found (is_dead k) (2 ∷ 1 ∷ 0 ∷ []) (fuel_of c) c.queues [] _ (omega arith) a refl
      (fuel_enough c a)

-- On queues whose lengths are right, `sched_context_find_higher` frees the dead threads in front among
-- those of a priority above the one given, and takes the first other one; the rest of these stay, in
-- their order.
pub sched_context_find_higher-Found :
    (k : Kernel) (c : Context) (priority : ℕ)
    → AllCounted c.queues
    → Found
        (is_dead k)
        (levels_above priority)
        []
        (flat (levels_above priority) c.queues)
        (sched_context_find_higher k c priority)
unfolding sched_context_find_higher
sched_context_find_higher-Found k c priority a =
    find_in-Found (is_dead k) (levels_above priority) (fuel_of c) c.queues [] _ (distinct priority)
      a refl (enough priority)
  where
    distinct : (priority : ℕ) → Distinct (levels_above priority)
    distinct zero = omega arith
    distinct (suc zero) = omega arith
    distinct (suc (suc p)) = ground arith

    enough : (priority : ℕ) → length (flat (levels_above priority) c.queues) < fuel_of c
    enough zero = omega (
      arith,
      (a.at 1).counted,
      (a.at 2).counted,
      length-append (c.queues 2).list (flat (1 ∷ []) c.queues),
      length-append (c.queues 1).list [],
    )
    enough (suc zero) = omega (arith, (a.at 2).counted, length-append (c.queues 2).list [])
    enough (suc (suc p)) = ground arith
