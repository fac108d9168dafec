-- ===== src/Lock/Steps.antt =====
-- Each step of src/kernel/lock.h moves the queue as a queue: in at the back, out at the front.
use asym.Base.{
  ℕ, zero, suc, ◌+◌, ◌-◌, ◌^◌, ◌≤◌, ◌<◌, ◌≡◌, ◌≢◌, ◌⊎◌, refl, sym, ap, subst, ◌∙◌, arith, true,
  false, ◌&&◌, Option, none, some, List, [], ◌∷◌, ◌++◌, length, get_elem?, length-append, ◌==◌,
  if◌then◌else◌, Bool-cases, inl, inr,
}
use asym.Base.Maps.{update, update_self, update_ne}
use asym.Base.Sums.{sum_below-ext, sum_below-change}
use asym.Lock.{Place, outside, spinning, inside, Cpu, System, with_cpu}
unfoldable use asym.Lock.{cli_push, cli_pop, lock_acquire, lock_test}
use asym.Lock.Invariant.{busy, Stands, Masked, Queued, queue-le, spins-at, get-lt}

pub some_inj : {A : Type 0} {x y : A} → some x ≡ some y → x ≡ y
some_inj {x} e = ap (λ o. or_else o x) e
  where
    or_else : {A : Type 0} → Option A → A → A
    or_else none d = d
    or_else (some a) d = a

push-Masked :
    (c : Cpu) (p : Place) (h : ℕ)
    → Masked c
    → h + busy p ≡ c.held + busy c.place + 1
    → Masked (record (cli_push c) { place = p; held = h })
unfolding cli_push
push-Masked c p h m e = record { amount = omega (arith, m.amount, e); off = λ z. refl }

-- Letting go of one lock, this one or another, does not stop the kernel.
pub pop-Masked :
    (c : Cpu) (p : Place) (h : ℕ)
    → Masked c
    → h + busy p + 1 ≡ c.held + busy c.place
    → (d : Cpu) × (cli_pop (record c { place = p; held = h }) ≡ some d)
      × Masked d
      × (d.place ≡ p)
      × (d.held ≡ h)
unfolding cli_pop
pop-Masked c p h m e =
    let more : (c.cli_amount == 0) ≡ false = ground (arith, m.amount, e) in
    (
      record c {
        place = p;
        held = h;
        cli_amount = c.cli_amount - 1;
        interrupts =
            if (c.cli_amount - 1 == 0) && c.prev_flags && (c.trap_depth == 0)
            then true
            else c.interrupts;
      },
      rw more refl,
      record {
        amount = omega (arith, m.amount, e);
        off = λ z.
            let still : (c.cli_amount - 1 == 0) ≡ false = ground (arith, z) in
            rw still (m.off (omega (arith, z)));
      },
      refl,
      refl,
    )

module _ {n : ℕ} {s : System} {queue : List ℕ} (q : Queued n s queue) (i : ℕ) (lt : i < n) where
  -- A processor changes, and stands where it stood.
  kept :
      (c : Cpu)
      → busy c.place ≡ busy (s.cpus i).place
      → Masked c
      → ((k : ℕ) → get_elem? queue k ≡ some i → Stands s.now_serving k c.place)
      → Queued n (with_cpu s i c) queue
  kept c same m stands = record {
    count =
        q.count
        ∙ sum_below-ext n (λ j. busy (s.cpus j).place) (λ j. busy (update s.cpus i c j).place)
            (λ j l. sym (at j));
    next = q.next;
    small = q.small;
    stands = λ k j g. elim (Bool-cases (j == i)) [
      | inl e ↦
          let here : j ≡ i = ground (arith, e) in
          let new : update s.cpus i c j ≡ c = ground (arith, here) in
          (omega (arith, here, lt), rw new (stands k (g ∙ ap some here)))
      | inr e ↦
          let old : update s.cpus i c j ≡ s.cpus j = ground (arith, e) in rw old (q.stands k j g)
    ];
    queued = λ j b. q.queued j (λ z. b (at j ∙ z));
    masked = λ j. elim (Bool-cases (j == i)) [
      | inl e ↦ let new : update s.cpus i c j ≡ c = ground (arith, e) in rw new m
      | inr e ↦ let old : update s.cpus i c j ≡ s.cpus j = ground (arith, e) in rw old (q.masked j)
    ];
  }
    where
      at : (j : ℕ) → busy (update s.cpus i c j).place ≡ busy (s.cpus j).place
      at j = elim (Bool-cases (j == i)) [
        | inl e ↦
            let here : j ≡ i = ground (arith, e) in
            let new : update s.cpus i c j ≡ c = ground (arith, e) in
            ap (λ (d : Cpu). busy d.place) new ∙ same ∙ ap (λ j. busy (s.cpus j).place) (sym here)
        | inr e ↦
            let old : update s.cpus i c j ≡ s.cpus j = ground (arith, e) in
            ap (λ (d : Cpu). busy d.place) old
      ]

  append-get :
      (xs : List ℕ) (k j : ℕ)
      → get_elem? (xs ++ i ∷ []) k ≡ some j
      → (get_elem? xs k ≡ some j) ⊎ ((k ≡ length xs) × (j ≡ i))
  append-get [] zero j g = inr (refl, sym (ground (arith, g)))
  append-get [] (suc k) j g = absurd (ground (arith, g))
  append-get (x ∷ xs) zero j g = inl g
  append-get (x ∷ xs) (suc k) j g = elim (append-get xs k j g) [
    | inl h ↦ inl h
    | inr (e, f) ↦ inr (ap suc e, f)
  ]

  get-append :
      (xs : List ℕ) (k j : ℕ) → get_elem? xs k ≡ some j → get_elem? (xs ++ i ∷ []) k ≡ some j
  get-append [] k j g = absurd (ground (arith, g))
  get-append (x ∷ xs) zero j g = g
  get-append (x ∷ xs) (suc k) j g = get-append xs k j g

  get-last : (xs : List ℕ) → get_elem? (xs ++ i ∷ []) (length xs) ≡ some i
  get-last [] = refl
  get-last (x ∷ xs) = get-last xs

  -- The new ticket goes to the back.
  pub acquire-Queued : (s.cpus i).place ≡ outside → Queued n (lock_acquire s i) (queue ++ i ∷ [])
  unfolding lock_acquire cli_push
  acquire-Queued out = record {
    count =
        length-append queue (i ∷ [])
        ∙ omega (
          arith,
          q.count,
          ap busy out,
          sum_below-change n i (λ j. busy (s.cpus j).place)
              (λ j. busy (update s.cpus i new j).place) lt
              (λ j ne. ap (λ (d : Cpu). busy d.place) (update_ne s.cpus i new j ne)),
          ap (λ (d : Cpu). busy d.place) (update_self s.cpus i new),
        );
    next = omega (arith, q.next, length-append queue (i ∷ []));
    small = q.small;
    stands = λ k j g. elim (append-get queue k j g) [
      | inl old ↦
          let ne : j ≢ i = λ e. none_at k (old ∙ ap some e) in
          rw (update_ne s.cpus i new j ne) (q.stands k j old)
      | inr (e, here) ↦
          rw (here, update_self s.cpus i new) (lt, inl (ap spinning (omega (arith, q.next, e))))
    ];
    queued = λ j b. elim (Bool-cases (j == i)) [
      | inl e ↦ let here : j ≡ i = ground (arith, e) in (length queue, rw here (get-last queue))
      | inr e ↦
          let old : update s.cpus i new j ≡ s.cpus j = ground (arith, e) in
          let (k, g) = q.queued j (λ z. b (ap (λ (d : Cpu). busy d.place) old ∙ z)) in
          (k, get-append queue k j g)
    ];
    masked = λ j. elim (Bool-cases (j == i)) [
      | inl e ↦
          let here : update s.cpus i new j ≡ new = ground (arith, e) in
          rw here (
            push-Masked (s.cpus i) (spinning s.next_ticket) (s.cpus i).held (q.masked i)
              (omega (arith, ap busy out)))
      | inr e ↦
          let old : update s.cpus i new j ≡ s.cpus j = ground (arith, e) in rw old (q.masked j)
    ];
  }
    where
      new : Cpu
      new = record (cli_push (s.cpus i)) { place = spinning s.next_ticket }

      none_at : (k : ℕ) → get_elem? queue k ≢ some i
      none_at k g = elim (q.stands k i g).1 [
        | inl e ↦ absurd (omega (arith, ap busy out, ap busy e))
        | inr (_, e) ↦ absurd (omega (arith, ap busy out, ap busy e))
      ]

  -- The one whose ticket is served is the one at the front.
  pub front-ticket :
      n ≤ 2 ^ 32
      → (t k : ℕ) → (s.cpus i).place ≡ spinning t
      → get_elem? queue k ≡ some i
      → t ≡ s.now_serving
      → k ≡ 0
  front-ticket few t k e g f =
      omega (arith, spins-at q few k i t g e, f, queue-le q few, get-lt queue k i g, q.small)

  pub test-Queued :
      n ≤ 2 ^ 32 → (t : ℕ) → (s.cpus i).place ≡ spinning t → Queued n (lock_test s i t) queue
  unfolding lock_test
  test-Queued few t e = elim (Bool-cases (s.now_serving == t)) [
    | inl f ↦ rw f (
        kept (record (s.cpus i) { place = inside }) (sym (ap busy e))
          (record {
            amount = (q.masked i).amount ∙ ap (λ (b : ℕ). (s.cpus i).held + b) (ap busy e);
            off = (q.masked i).off;
          })
          (λ k g. inr (front-ticket few t k e g (ground (arith, f)), refl)))
    | inr f ↦ rw f q
  ]

  pub push-Queued :
      ((t : ℕ) → (s.cpus i).place ≢ spinning t)
      → Queued n (with_cpu s i (record (cli_push (s.cpus i)) { held = (s.cpus i).held + 1 })) queue
  unfolding cli_push
  push-Queued free =
      kept (record (cli_push (s.cpus i)) { held = (s.cpus i).held + 1 }) refl
        (push-Masked (s.cpus i) (s.cpus i).place ((s.cpus i).held + 1) (q.masked i) (omega arith))
        (λ k g. (q.stands k i g).1)

  pub pop-Queued :
      (c : Cpu)
      → (s.cpus i).held ≢ 0
      → cli_pop (record (s.cpus i) { held = (s.cpus i).held - 1 }) ≡ some c
      → Queued n (with_cpu s i c) queue
  pop-Queued c h e =
      let (d, f, masked, place, _) =
        pop-Masked (s.cpus i) (s.cpus i).place ((s.cpus i).held - 1) (q.masked i)
          (omega (arith, h)) in
      let same : d ≡ c = some_inj (sym f ∙ e) in
      subst (λ c. Queued n (with_cpu s i c) queue) same
        (kept d (ap busy place) masked (λ k g. rw place (q.stands k i g).1))
