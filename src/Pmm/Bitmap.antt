-- ===== src/Pmm/Bitmap.antt =====
-- The page bitmap of src/kernel/pmm.c, for the pages below 1 MiB.
pub mod Reserve
pub mod Search
use asym.Base.{
  ℕ, zero, suc, ◌+◌, ◌-◌, ◌*◌, ◌/◌, ◌%◌, max, min, Bool, true, false, Option, none, some, ltb, leb,
  ◌==◌, if◌then◌else◌, test_bit, set_bit, clear_bit, sub64, add64, round_up,
}

abbrev pub page_size : ℕ
page_size = 0x1000

abbrev pub higher_half : ℕ
higher_half = 0xFFFF800000000000

abbrev pub max_special_addr : ℕ
max_special_addr = 0x100000

-- the pages that the bitmap speaks of, `PMM_MAX_SPECIAL_ADDR / PAGE_SIZE`
abbrev pub special_pages : ℕ
special_pages = 256

pub record Bitmap : Type 0 where
  pub map : ℕ → ℕ
  pub first_free_index : ℕ
  pub free_page_amount : ℕ

-- A call that returns, one that stops the kernel by LOG_ASSERT, or one still running when the fuel
-- of the model is used up.
pub data Outcome {ℓ} (A : Type ℓ) : Type ℓ where
  done : A → Outcome A
  panic : Outcome A
  running : Outcome A

unfoldable pub page_bitmap_init : ℕ → Bitmap
page_bitmap_init free = record { map = λ i. 255; first_free_index = 0; free_page_amount = free }

-- bit `index % 8` of byte `index / 8`
abbrev pub bit_at : (ℕ → ℕ) → ℕ → Bool
bit_at map index = test_bit (map (index / 8)) (index % 8)

unfoldable pub page_bitmap_reserved : Bitmap → ℕ → Outcome Bool
page_bitmap_reserved b index = if ltb index special_pages then done (bit_at b.map index) else panic

abbrev pub put : (ℕ → ℕ) → ℕ → ℕ → ℕ → ℕ
put map i v k = if k == i then v else map k

-- the loop from `i` on, with `n` rounds left
pub reserve_from : ℕ → ℕ → (ℕ → ℕ) → ℕ → ℕ
reserve_from zero i map = map
reserve_from (suc n) i map =
    reserve_from n (i + 1) (put map (i / 8) (set_bit (map (i / 8)) (i % 8)))

unfoldable pub page_bitmap_reserve : Bitmap → ℕ → ℕ → Outcome Bitmap
page_bitmap_reserve b low high =
    if ltb high special_pages
    then done (record b {
      map = reserve_from (high - low) low b.map;
      free_page_amount = sub64 b.free_page_amount (high - low);
    })
    else panic

-- How the inner loop ends: at the end of a run of `count` free pages, at a reserved page or at the
-- limit, or by the assertion of `page_bitmap_reserved`.
pub data Scan : Type 0 where
  found : ℕ → Scan
  stopped : ℕ → Scan
  asserted : Scan

-- the inner loop at `j`, with `n` pages left below the limit
pub scan : Bitmap → ℕ → ℕ → ℕ → ℕ → Scan
scan b count i zero j = stopped j
scan b count i (suc n) j =
    let next = scan b count i n (j + 1) in
    if j - i == count then found j else elim (page_bitmap_reserved b j) [
      | done true ↦ stopped j
      | done false ↦ next
      | panic ↦ asserted
      | running ↦ asserted
    ]

-- the address returned and the bitmap; `none` is NULL
abbrev pub Answer : Type 0
Answer = Outcome (Option ℕ × Bitmap)

abbrev pub address_of : ℕ → ℕ
address_of i = add64 (i * page_size) higher_half

pub take_run : Bitmap → ℕ → ℕ → Answer
take_run b i j = elim (page_bitmap_reserve b i j) [
  | done b' ↦ done (some (address_of i), b')
  | panic ↦ panic
  | running ↦ running
]

-- the outer loop at `i`; `limit` is `maxAddr / PAGE_SIZE` and `step` is `alignment / PAGE_SIZE`
pub search_from : Bitmap → ℕ → ℕ → ℕ → ℕ → ℕ → Answer
unfolding take_run
search_from b count limit step zero i = if ltb i limit then running else done (none, b)
search_from b count limit step (suc fuel) i =
    let past = search_from b count limit step fuel (i + step) in
    if ltb i limit
    then elim (page_bitmap_reserved b i) [
      | done true ↦ past
      | done false ↦ elim (scan b count i (limit - (i + 1)) (i + 1)) [
        | found j ↦ take_run b i j
        | stopped j ↦ search_from b count limit step fuel (max (round_up j step) step - step + step)
        | asserted ↦ panic
      ]
      | panic ↦ panic
      | running ↦ panic
    ]
    else done (none, b)

unfoldable pub page_bitmap_alloc : Bitmap → ℕ → ℕ → ℕ → Answer
page_bitmap_alloc b count max_addr alignment =
    let aligned = max (round_up alignment page_size) page_size in
    let limit = min max_addr max_special_addr / page_size in
    search_from b count limit (aligned / page_size) limit b.first_free_index

unfoldable pub page_bitmap_free : Bitmap → ℕ → Outcome Bitmap
page_bitmap_free b address =
    let index = sub64 address higher_half / page_size in
    if ltb index special_pages
    then done (record {
      map = put b.map (index / 8) (clear_bit (b.map (index / 8)) (index % 8));
      first_free_index = min b.first_free_index index;
      free_page_amount = add64 b.free_page_amount 1;
    })
    else panic
