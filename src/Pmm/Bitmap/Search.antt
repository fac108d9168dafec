-- ===== src/Pmm/Bitmap/Search.antt =====
-- The search of `page_bitmap_alloc` in src/kernel/pmm.c.
use asym.Base.{
  ℕ, zero, suc, ◌+◌, ◌-◌, ◌*◌, ◌/◌, ◌%◌, ◌^◌, ◌≤◌, ◌<◌, ◌≡◌, refl, sym, ◌∙◌, arith, max, min, false,
  ltb, ◌==◌, none, some, Bool-cases, inl, inr, round_up, subst, word, ltb→lt,
}
use native.Mathlib.Nat.{
  zero-mod, mod-eq_of_lt, mod-lt, mod_self, div-add-mod', mul-mod_left, add-mod_right,
}
use native.Mathlib.Decide.{dec_le}
use asym.Pmm.Bitmap.{
  Bitmap, done, panic, running, bit_at, Scan, found, stopped, asserted, scan, take_run, search_from,
  page_bitmap_reserved, page_bitmap_alloc, special_pages, max_special_addr, page_size, address_of,
  Answer,
}
use asym.Pmm.Bitmap.Reserve.{IsValid, Reserved, page_bitmap_reserve-Reserved}

abbrev pub AllFree : Bitmap → ℕ → ℕ → Type 0
AllFree b low high = (k : ℕ) → low ≤ k → k < high → bit_at b.map k ≡ false

abbrev Scanned : Bitmap → ℕ → ℕ → ℕ → ℕ → Scan → Type 0
Scanned b count i j n (found k) = (k ≡ i + count) × (i ≤ k) × (k < j + n) × AllFree b i k
Scanned b count i j n (stopped k) = (j ≤ k) × (k ≤ j + n)
Scanned b count i j n asserted = ⊥

AllFree-step : (b : Bitmap) (i j : ℕ) → AllFree b i j → bit_at b.map j ≡ false → AllFree b i (j + 1)
AllFree-step b i j free h k low high = elim (Bool-cases (k == j)) [
  | inl e ↦ let k≡j : k ≡ j = ground arith in rw k≡j h
  | inr e ↦ free k low (ground arith)
]

weaken :
    (b : Bitmap) (count i j n : ℕ) (s : Scan)
    → Scanned b count i (j + 1) n s
    → Scanned b count i j (suc n) s
weaken b count i j n (found k) h = (h.0, h.1, omega arith, h.3)
weaken b count i j n (stopped k) h = omega arith
weaken b count i j n asserted h = h

page_bitmap_reserved-inside :
    (b : Bitmap) (j : ℕ) → j < special_pages → page_bitmap_reserved b j ≡ done (bit_at b.map j)
unfolding page_bitmap_reserved
page_bitmap_reserved-inside b j h = ground arith

scan-Scanned :
    (b : Bitmap) (count i n j : ℕ)
    → i ≤ j
    → j + n ≤ special_pages
    → AllFree b i j
    → Scanned b count i j n (scan b count i n j)
unfolding scan
scan-Scanned b count i zero j h l free = omega arith
scan-Scanned b count i (suc n) j h l free = elim (Bool-cases (j - i == count)) [
  | inl e ↦ rw e (ground arith, h, omega arith, free)
  | inr e ↦
      rw (e, inside)
        (elim (Bool-cases (bit_at b.map j)) [
          | inl set ↦ rw set (omega arith)
          | inr clear ↦ rw clear (
              weaken b count i j n _ (
                scan-Scanned b count i n (j + 1) (omega arith) (omega arith)
                  (AllFree-step b i j free clear)))
        ])
]
  where
    inside : page_bitmap_reserved b j ≡ done (bit_at b.map j)
    inside = page_bitmap_reserved-inside b j (omega arith)

module _ (b : Bitmap) (v : IsValid b) (count limit step : ℕ) where
  -- What the search may answer: a run that was wholly free, starts at a multiple of `step`, ends
  -- below the limit and is now reserved; or NULL, with nothing changed. The kernel is not stopped.
  abbrev pub Answers : Answer → Type 0
  Answers (done (some address, b')) =
      (i : ℕ) × (address ≡ address_of i)
      × (i % step ≡ 0)
      × (i + count < limit)
      × AllFree b i (i + count)
      × Reserved b i (i + count) b'
  Answers (done (none, b')) = b' ≡ b
  Answers panic = ⊥
  Answers running = ⊥

  module _ (positive : 0 < step) (small : step < 2 ^ 52) (in_map : limit ≤ special_pages) where
    round_up-plain : (j : ℕ) → j ≤ special_pages → round_up j step ≡ (j + step - 1) / step * step
    round_up-plain j h = rw inner (mod-eq_of_lt (omega (arith, div-add-mod' (j + step - 1) step)))
      where
        inner : ((j + step) % word + word - 1 % word) % word ≡ j + step - 1
        inner = omega arith

    round_up-le : (j : ℕ) → j ≤ special_pages → (j ≤ round_up j step) × (round_up j step % step ≡ 0)
    round_up-le j h = rw (round_up-plain j h) (
      omega (arith, div-add-mod' (j + step - 1) step, mod-lt (j + step - 1) positive),
      mul-mod_left ((j + step - 1) / step) step,
    )

    next_start :
        (j : ℕ)
        → j ≤ special_pages
        → let i = max (round_up j step) step - step + step in (j ≤ i) × (i % step ≡ 0)
    next_start j h = elim (dec_le (round_up j step) step) [
      | yes p ↦
          let e : max (round_up j step) step - step + step ≡ step = omega arith in
          rw e (omega (arith, round_up-le j h), mod_self step)
      | no p ↦
          let e : max (round_up j step) step - step + step ≡ round_up j step = omega arith in
          rw e (round_up-le j h)
    ]

    take_run-Answers :
        (i : ℕ)
        → i % step ≡ 0
        → i + count < limit
        → AllFree b i (i + count)
        → Answers (take_run b i (i + count))
    take_run-Answers i aligned l free =
        let (b', done_b', r) =
          page_bitmap_reserve-Reserved b i (i + count) v (omega arith) (omega arith) in
        let taken : take_run b i (i + count) ≡ done (some (address_of i), b') =
          unfold take_run in rw (done_b', take_run) in
        subst Answers (sym taken) (i, refl, aligned, l, free, r)

    -- The rest of a round, behind the inner loop; `ih` is the rest of the search.
    after_scan :
        (fuel i : ℕ)
        → i < limit
        → i % step ≡ 0
        → ((i' : ℕ) → i < i' → i' % step ≡ 0 → Answers (search_from b count limit step fuel i'))
        → (s : Scan) → Scanned b count i (i + 1) (limit - (i + 1)) s
        → Answers (elim s [
          | found j ↦ take_run b i j
          | stopped j ↦
              search_from b count limit step fuel (max (round_up j step) step - step + step)
          | asserted ↦ panic
        ])
    after_scan fuel i l a ih (found j) h =
        rw h.0 (take_run-Answers i a (omega arith) (rw h.0 at h.3))
    after_scan fuel i l a ih (stopped j) h =
        let (later, aligned) = next_start j (omega arith) in
        ih (max (round_up j step) step - step + step) (omega arith) aligned
    after_scan fuel i l a ih asserted h = absurd h

    just_one : (i : ℕ) → bit_at b.map i ≡ false → AllFree b i (i + 1)
    just_one i clear k low high = let k≡i : k ≡ i = omega arith in rw k≡i clear

    search_from-Answers :
        (fuel i : ℕ)
        → limit ≤ i + fuel
        → i % step ≡ 0
        → Answers (search_from b count limit step fuel i)
    unfolding search_from
    search_from-Answers zero i l a = let past : ltb i limit ≡ false = ground arith in rw past refl
    search_from-Answers (suc fuel) i l a = elim (Bool-cases (ltb i limit)) [
      | inr past ↦ rw past refl
      | inl below ↦
          let i<limit : i < limit = ltb→lt i limit below in
          rw (below, page_bitmap_reserved-inside b i (omega arith))
            (elim (Bool-cases (bit_at b.map i)) [
              | inl set ↦
                  rw set
                    (search_from-Answers fuel (i + step) (omega arith) (add-mod_right i step ∙ a))
              | inr clear ↦ rw clear (
                  after_scan fuel i i<limit a
                    (λ i' later a'. search_from-Answers fuel i' (omega arith) a') _
                    (scan-Scanned b count i (limit - (i + 1)) (i + 1) (omega arith) (omega arith)
                      (just_one i clear)))
            ])
    ]

abbrev pub limit_of : ℕ → ℕ
limit_of max_addr = min max_addr max_special_addr / page_size

abbrev pub step_of : ℕ → ℕ
step_of alignment = max (round_up alignment page_size) page_size / page_size

-- Called on a valid bitmap, `page_bitmap_alloc` returns: either the address of `count` pages in a row
-- that were all free, start at a multiple of the alignment, end below `maxAddr` and are now reserved
-- and counted off, all other pages being as they were; or NULL, with nothing changed. No assertion
-- fails, and the loop ends within the fuel.
pub page_bitmap_alloc-Answers :
    (b : Bitmap) (v : IsValid b) (count max_addr alignment : ℕ)
    → Answers b v count
        (limit_of max_addr)
        (step_of alignment)
        (page_bitmap_alloc b count max_addr alignment)
unfolding page_bitmap_alloc
page_bitmap_alloc-Answers b v count max_addr alignment =
    search_from-Answers b v count (limit_of max_addr) (step_of alignment) (omega arith)
      (omega arith) (omega arith) (limit_of max_addr) b.first_free_index (omega arith)
      (rw v.from_start (zero-mod (step_of alignment)))
