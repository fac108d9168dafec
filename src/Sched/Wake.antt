-- ===== src/Sched/Wake.antt =====
-- `sched_unblock` and `sched_update_blockers` of src/kernel/sched.c lose no thread.
use asym.Base.{ℕ, ◌<◌, ◌≡◌, refl, sym, ◌∙◌, subst, List, [], ◌∷◌, ltb, if_cases}
use asym.Sched.State.{Kernel, update_self}
use asym.Sched.Blocker.{
  sched_push, with_thread, with_waiting, unblock_all, sched_unblock, wake_normal, wake_timeout,
  update_first, update_each, sched_update_blockers,
}
use asym.Sched.Balance.{waiting-sched_push}
use asym.Sched.Sane.{IsSane, Keeps, Keeps-refl, Keeps-trans, AllBelow}
use asym.Sched.Push.{woken-Keeps}

update_first-Keeps :
    (k : Kernel) (uptime b : ℕ) (ts : List ℕ)
    → IsSane k
    → b < k.blocker_amount
    → k.waiting b ≡ ts
    → Keeps k (update_first k uptime b ts)
unfolding update_first
update_first-Keeps k uptime b [] s h e = Keeps-refl k s
update_first-Keeps k uptime b (t ∷ ts) s h e =
    if_cases (Keeps k) (ltb (k.threads t).deadline uptime) _ _
      (λ due. woken-Keeps k b t ts wake_timeout s h e (s.low t) refl) (λ later. Keeps-refl k s)

update_each-Keeps :
    (bs : List ℕ) (k : Kernel) (uptime : ℕ)
    → IsSane k
    → AllBelow k.blocker_amount bs
    → Keeps k (update_each k uptime bs)
unfolding update_each
update_each-Keeps [] k uptime s h = Keeps-refl k s
update_each-Keeps (b ∷ bs) k uptime s h =
    let first = update_first-Keeps k uptime b (k.waiting b) s h.0 refl in
    Keeps-trans first (
      update_each-Keeps bs _ uptime first.sane
        (subst (λ (n : ℕ). AllBelow n bs) (sym first.blocker_range) h.1))

-- The timeouts of all blockers keep every thread: one that is woken leaves its blocker for a queue.
pub sched_update_blockers-Keeps :
    (k : Kernel) (uptime : ℕ) → IsSane k → Keeps k (sched_update_blockers k uptime)
unfolding sched_update_blockers
sched_update_blockers-Keeps k uptime s = update_each-Keeps k.blockers k uptime s s.listed

unblock_all-Keeps :
    (ts : List ℕ) (k : Kernel) (b : ℕ)
    → IsSane k
    → b < k.blocker_amount
    → k.waiting b ≡ ts
    → Keeps k (unblock_all k b ts) × ((unblock_all k b ts).waiting b ≡ [])
unfolding unblock_all
unblock_all-Keeps [] k b s h e = (Keeps-refl k s, e)
unblock_all-Keeps (t ∷ ts) k b s h e =
    let first = woken-Keeps k b t ts wake_normal s h e (s.low t) refl in
    let left =
      waiting-sched_push (with_thread (with_waiting k b ts) t wake_normal) t b
      ∙ update_self k.waiting b ts in
    let (others, empty) =
      unblock_all-Keeps ts (sched_push (with_thread (with_waiting k b ts) t wake_normal) t) b
        first.sane (subst (λ (n : ℕ). b < n) (sym first.blocker_range) h) left in
    (Keeps-trans first others, empty)

-- `sched_unblock` empties the blocker, and keeps every thread.
pub sched_unblock-Keeps :
    (k : Kernel) (b : ℕ)
    → IsSane k
    → b < k.blocker_amount
    → Keeps k (sched_unblock k b) × ((sched_unblock k b).waiting b ≡ [])
unfolding sched_unblock
sched_unblock-Keeps k b s h = unblock_all-Keeps (k.waiting b) k b s h refl
