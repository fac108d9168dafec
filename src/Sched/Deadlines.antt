-- ===== src/Sched/Deadlines.antt =====
-- The order of a blocker's threads in src/kernel/sched.c: `sched_update_blockers` looks at the first
-- alone.
use asym.Base.{ℕ, ◌≤◌, ◌≡◌, refl, sym, subst, List, [], ◌∷◌, arith, ltb, if_cases, ltb→lt}
use asym.Sched.State.{Kernel, update_self}
use asym.Sched.Blocker.{insert_by, blocker_push, deadlines, update_first}

module _ (deadline : ℕ → ℕ) where
  abbrev pub AllFrom : ℕ → List ℕ → Type 0
  AllFrom low [] = Unit
  AllFrom low (t ∷ ts) = (low ≤ deadline t) × AllFrom low ts

  -- no thread's deadline is later than that of a thread behind it
  abbrev pub InOrder : List ℕ → Type 0
  InOrder [] = Unit
  InOrder (t ∷ ts) = AllFrom (deadline t) ts × InOrder ts

  AllFrom-le : (low high : ℕ) (ts : List ℕ) → low ≤ high → AllFrom high ts → AllFrom low ts
  AllFrom-le low high [] l a = tt
  AllFrom-le low high (t ∷ ts) l a = (omega (arith, a.0), AllFrom-le low high ts l a.1)

  AllFrom-insert_by :
      (low t : ℕ) (ts : List ℕ)
      → low ≤ deadline t
      → AllFrom low ts
      → AllFrom low (insert_by deadline t ts)
  unfolding insert_by
  AllFrom-insert_by low t [] l a = (l, tt)
  AllFrom-insert_by low t (u ∷ ts) l a =
      if_cases (AllFrom low) (ltb (deadline t) (deadline u)) _ _ (λ e. (l, a))
        (λ e. (a.0, AllFrom-insert_by low t ts l a.1))

  insert_by-InOrder : (t : ℕ) (ts : List ℕ) → InOrder ts → InOrder (insert_by deadline t ts)
  unfolding insert_by
  insert_by-InOrder t [] s = (tt, tt)
  insert_by-InOrder t (u ∷ ts) s =
      if_cases InOrder (ltb (deadline t) (deadline u)) _ _
        (λ e.
          let sooner = ltb→lt (deadline t) (deadline u) e in
          (
            (
              omega (arith, sooner),
              AllFrom-le (deadline t) (deadline u) ts (omega (arith, sooner)) s.0,
            ),
            s,
          ))
        (λ e. (AllFrom-insert_by (deadline u) t ts (ground arith) s.0, insert_by-InOrder t ts s.1))

-- `blocker_push` keeps a blocker's threads in the order of their deadlines.
pub blocker_push-InOrder :
    (k : Kernel) (b t : ℕ)
    → InOrder (deadlines k) (k.waiting b)
    → InOrder (deadlines k) ((blocker_push k b t).waiting b)
unfolding blocker_push
blocker_push-InOrder k b t s =
    subst (InOrder (deadlines k))
      (sym (update_self k.waiting b (insert_by (deadlines k) t (k.waiting b))))
      (insert_by-InOrder (deadlines k) t (k.waiting b) s)

-- Where a blocker's threads are in the order of their deadlines and the first one's has not passed,
-- `sched_update_blockers` leaves the blocker alone, and no thread at it is overdue.
pub update_first-none :
    (k : Kernel) (uptime b t : ℕ) (ts : List ℕ)
    → InOrder (deadlines k) (t ∷ ts)
    → uptime ≤ deadlines k t
    → (update_first k uptime b (t ∷ ts) ≡ k) × AllFrom (deadlines k) uptime (t ∷ ts)
unfolding update_first
update_first-none k uptime b t ts s later = (
  if_cases (λ (x : Kernel). x ≡ k) (ltb (deadlines k t) uptime) _ _
      (λ due. absurd (omega (arith, ltb→lt (deadlines k t) uptime due))) (λ e. refl),
  (later, AllFrom-le (deadlines k) uptime (deadlines k t) ts later s.0),
)
