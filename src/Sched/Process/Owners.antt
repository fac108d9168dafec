-- ===== src/Sched/Process/Owners.antt =====
-- Each process of src/kernel/thread.c counts its threads, and is freed with the last of them.
use asym.Base.{
  ℕ, ◌+◌, ◌≤◌, ◌<◌, ◌≡◌, ◌≢◌, ◌⊎◌, refl, ap, Bool, true, false, List, [], ◌∷◌, ◌++◌, arith, leb,
  ◌==◌, if◌then◌else◌, Bool-cases, inl, inr, length, word, ==_iff,
}
use asym.Base.Maps.{update, update_self, update_ne}
use asym.Sched.State.{Thread}
use asym.Sched.Process.{
  Tasks, process_new, process_thread_new, fresh_thread, thread_new, thread_free, without,
}

abbrev pub one_if : Bool → ℕ
one_if true = 1
one_if false = 0

-- the threads of the list that belong to process `p`
abbrev pub owned : (ℕ → Thread) → ℕ → List ℕ → ℕ
owned threads p [] = 0
owned threads p (t ∷ ts) = one_if ((threads t).process == p) + owned threads p ts

abbrev pub In : ℕ → List ℕ → Type 0
In t [] = ⊥
In t (u ∷ us) = (t ≡ u) ⊎ In t us

abbrev pub NotIn : ℕ → List ℕ → Type 0
NotIn t [] = Unit
NotIn t (u ∷ us) = (u ≢ t) × NotIn t us

-- The count of every process is the number of its existing threads, which are fewer than 2 ^ 64 - 1.
pub record IsOwned (k : Tasks) : Type 0 where
  pub count : (p : ℕ) → (k.processes p).ref ≡ owned k.threads p k.existing
  pub room : length k.existing + 1 < word

owned-le : (threads : ℕ → Thread) (p : ℕ) (ts : List ℕ) → owned threads p ts ≤ length ts
owned-le threads p [] = omega arith
owned-le threads p (t ∷ ts) = ground (arith, owned-le threads p ts)

-- A thread that is made does not change whose the others are.
owned-update :
    (threads : ℕ → Thread) (t : ℕ) (v : Thread) (p : ℕ) (ts : List ℕ)
    → NotIn t ts
    → owned (update threads t v) p ts ≡ owned threads p ts
owned-update threads t v p [] n = refl
owned-update threads t v p (u ∷ us) n = omega (
  arith,
  ap (λ (x : Thread). one_if (x.process == p)) (update_ne threads t v u n.0),
  owned-update threads t v p us n.1,
)

owned-without :
    (threads : ℕ → Thread) (t p : ℕ) (ts : List ℕ)
    → In t ts
    → owned threads p (without t ts) + one_if ((threads t).process == p) ≡ owned threads p ts
owned-without threads t p [] i = absurd i
owned-without threads t p (u ∷ us) i = elim (Bool-cases (u == t)) [
  | inl same ↦
      let u≡t : u ≡ t = (==_iff u t).0 same in
      rw same (omega (arith, ap (λ x. one_if ((threads x).process == p)) u≡t))
  | inr other ↦ rw other (omega (arith, owned-without threads t p us (behind i other)))
]
  where
    behind : In t (u ∷ us) → (u == t) ≡ false → In t us
    behind (inl e) other = absurd (ground (arith, e, other))
    behind (inr i) other = i

length-without : (t : ℕ) (ts : List ℕ) → length (without t ts) ≤ length ts
length-without t [] = omega arith
length-without t (u ∷ us) = ground (arith, length-without t us)

module _ (k : Tasks) (o : IsOwned k) where
  ref-le : (p : ℕ) → (k.processes p).ref ≤ length k.existing
  ref-le p = omega (arith, o.count p, owned-le k.threads p k.existing)

  -- A thread made in a process at an address that no thread has: every count is right again.
  pub process_thread_new-IsOwned :
      (t p entry priority : ℕ)
      → NotIn t k.existing
      → length k.existing + 2 < word
      → IsOwned (process_thread_new k t p entry priority)
  unfolding process_thread_new
  process_thread_new-IsOwned t p entry priority fresh room = record {
    count = count;
    room = omega (arith, room);
  }
    where
      made : Tasks
      made = process_thread_new k t p entry priority

      own : (q : ℕ) → one_if ((made.threads t).process == q) ≡ one_if (p == q)
      own q = ap (λ (x : Thread). one_if (x.process == q)) (update_self k.threads t _)

      raised : (q : ℕ) → (made.processes q).ref ≡ (k.processes q).ref + one_if (p == q)
      raised q = elim (Bool-cases (q == p)) [
        | inl same ↦
            let q≡p : q ≡ p = (==_iff q p).0 same in rw q≡p (ground (arith, ref-le p, room))
        | inr other ↦ ground (arith, other)
      ]

      count : (q : ℕ) → (made.processes q).ref ≡ owned made.threads q made.existing
      count q = omega (
        arith,
        raised q,
        own q,
        owned-update k.threads t (fresh_thread p entry priority) q k.existing fresh,
        o.count q,
      )

  -- Freeing an existing thread leaves every count right, and frees the thread's process exactly where
  -- no existing thread belongs to it any more.
  pub thread_free-IsOwned :
      (t : ℕ)
      → In t k.existing
      → (let k' = thread_free k t in
          let p = (k.threads t).process in
          IsOwned k'
          × ((k'.freed
              ≡ (if owned k.threads p k'.existing == 0 then k.freed ++ p ∷ [] else k.freed))))
  unfolding thread_free
  thread_free-IsOwned t exists =
      (record { count = count; room = omega (arith, o.room, length-without t k.existing) }, last)
    where
      p : ℕ
      p = (k.threads t).process

      left : Tasks
      left = thread_free k t

      own : one_if (p == p) ≡ 1
      own = ground arith

      some_ref : 0 < (k.processes p).ref
      some_ref = omega (arith, o.count p, owned-without k.threads t p k.existing exists, own)

      lowered : (q : ℕ) → (left.processes q).ref + one_if (p == q) ≡ (k.processes q).ref
      lowered q = elim (Bool-cases (q == p)) [
        | inl same ↦
            let q≡p : q ≡ p = (==_iff q p).0 same in
            rw q≡p (ground (arith, ref-le p, o.room, some_ref))
        | inr other ↦ ground (arith, other)
      ]

      count : (q : ℕ) → (left.processes q).ref ≡ owned left.threads q left.existing
      count q = omega (arith, lowered q, owned-without k.threads t q k.existing exists, o.count q)

      none_left : (leb (k.processes p).ref 1) ≡ (owned k.threads p left.existing == 0)
      none_left =
          ground (arith, owned-without k.threads t p k.existing exists, own, o.count p, some_ref)

      last :
          left.freed ≡ (if owned k.threads p left.existing == 0 then k.freed ++ p ∷ [] else k.freed)
      last = ap (λ (b : Bool). if b then k.freed ++ p ∷ [] else k.freed) none_left

-- `process_new` at an address that no existing thread's process has keeps every count right.
process_new-IsOwned :
    (k : Tasks) (p : ℕ) (has_argv : Bool)
    → IsOwned k
    → owned k.threads p k.existing ≡ 0
    → IsOwned (process_new k p has_argv).0
unfolding process_new
process_new-IsOwned k p false o unused = o
process_new-IsOwned k p true o unused = record {
  count = λ q. elim (Bool-cases (q == p)) [
    | inl same ↦ let q≡p : q ≡ p = (==_iff q p).0 same in rw q≡p (ground (arith, unused))
    | inr other ↦ ground (arith, other, o.count q)
  ];
  room = o.room;
}

-- At addresses that no existing thread and no thread's process has, `thread_new` keeps the count of
-- every process equal to the number of its threads: its process has one, or, without arguments, nothing
-- is made.
pub thread_new-IsOwned :
    (k : Tasks) (t p : ℕ) (has_argv : Bool) (entry priority : ℕ)
    → IsOwned k
    → NotIn t k.existing
    → owned k.threads p k.existing ≡ 0
    → length k.existing + 2 < word
    → IsOwned (thread_new k t p has_argv entry priority).0
unfolding thread_new process_new
thread_new-IsOwned k t p false entry priority o fresh unused room = o
thread_new-IsOwned k t p true entry priority o fresh unused room =
    process_thread_new-IsOwned (process_new k p true).0 (process_new-IsOwned k p true o unused) t p
      entry priority fresh room
