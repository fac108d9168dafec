-- ===== src/Pmm/Bitmap/Reserve.antt =====
-- The bitmap of src/kernel/pmm.c as the set of the pages that it has reserved.
use asym.Base.{
  ℕ, zero, suc, ◌+◌, ◌-◌, ◌/◌, ◌%◌, ◌≤◌, ◌<◌, ◌≡◌, refl, ◌∙◌, arith, Bool, not, ◌&&◌, ◌||◌, ltb,
  leb, ◌==◌, set_bit, clear_bit, set_bit-lt, clear_bit-lt, test_bit-set_bit, test_bit-clear_bit,
  sub64, add64, min,
}
use asym.Pmm.Bitmap.{
  Bitmap, done, bit_at, put, reserve_from, page_bitmap_reserve, page_bitmap_free, special_pages,
  higher_half, page_size, address_of, page_bitmap_init, max_special_addr,
}

-- The map holds bytes, and the search starts at page 0: `page_bitmap_free` only lowers
-- `firstFreeIndex`, which starts at 0.
pub record IsValid (b : Bitmap) : Type 0 where
  pub byte : (i : ℕ) → b.map i < 256
  pub from_start : b.first_free_index ≡ 0

pub page_bitmap_init-IsValid : (free : ℕ) → IsValid (page_bitmap_init free)
unfolding page_bitmap_init
page_bitmap_init-IsValid free = record { byte = λ i. omega arith; from_start = refl }

module _ (map : ℕ → ℕ) (bytes : (i : ℕ) → map i < 256) (i : ℕ) where
  pub bit_at-put_set :
      (k : ℕ)
      → bit_at (put map (i / 8) (set_bit (map (i / 8)) (i % 8))) k ≡ (k == i || bit_at map k)
  bit_at-put_set k = ground (
    arith,
    test_bit-set_bit (map (i / 8)) (i % 8) (bytes (i / 8)) (omega arith) (k % 8) (omega arith),
  )

  pub bit_at-put_clear :
      (k : ℕ)
      → bit_at (put map (i / 8) (clear_bit (map (i / 8)) (i % 8))) k
        ≡ (not (k == i) && bit_at map k)
  bit_at-put_clear k = ground (
    arith,
    test_bit-clear_bit (map (i / 8)) (i % 8) (bytes (i / 8)) (omega arith) (k % 8) (omega arith),
  )

  pub put_set-bytes : (k : ℕ) → put map (i / 8) (set_bit (map (i / 8)) (i % 8)) k < 256
  put_set-bytes k = ground (arith, bytes k, set_bit-lt (map (i / 8)) (i % 8) (bytes (i / 8)))

  pub put_clear-bytes : (k : ℕ) → put map (i / 8) (clear_bit (map (i / 8)) (i % 8)) k < 256
  put_clear-bytes k = ground (arith, bytes k, clear_bit-lt (map (i / 8)) (i % 8) (bytes (i / 8)))

abbrev pub within : ℕ → ℕ → ℕ → Bool
within low high k = leb low k && ltb k high

reserve_from-bytes :
    (n i : ℕ) (map : ℕ → ℕ) → ((i : ℕ) → map i < 256) → (k : ℕ) → reserve_from n i map k < 256
unfolding reserve_from
reserve_from-bytes zero i map h k = h k
reserve_from-bytes (suc n) i map h k = reserve_from-bytes n (i + 1) _ (put_set-bytes map h i) k

bit_at-reserve_from :
    (n i : ℕ) (map : ℕ → ℕ)
    → ((i : ℕ) → map i < 256)
    → (k : ℕ) → bit_at (reserve_from n i map) k ≡ (within i (i + n) k || bit_at map k)
unfolding reserve_from
bit_at-reserve_from zero i map h k = ground arith
bit_at-reserve_from (suc n) i map h k =
    bit_at-reserve_from n (i + 1) _ (put_set-bytes map h i) k
    ∙ ground (arith, bit_at-put_set map h i k)

-- What `page_bitmap_reserve` leaves: the pages from `low` up to `high` are reserved, all others are
-- as they were, and they are counted off.
pub record Reserved (b : Bitmap) (low high : ℕ) (b' : Bitmap) : Type 0 where
  pub valid : IsValid b'
  pub bits : (k : ℕ) → bit_at b'.map k ≡ (within low high k || bit_at b.map k)
  pub amount : b'.free_page_amount ≡ sub64 b.free_page_amount (high - low)

abbrev reserved : Bitmap → ℕ → ℕ → Bitmap
reserved b low high = record b {
  map = reserve_from (high - low) low b.map;
  free_page_amount = sub64 b.free_page_amount (high - low);
}

pub page_bitmap_reserve-Reserved :
    (b : Bitmap) (low high : ℕ)
    → IsValid b
    → low ≤ high
    → high < special_pages
    → (b' : Bitmap) × (page_bitmap_reserve b low high ≡ done b') × Reserved b low high b'
unfolding page_bitmap_reserve
page_bitmap_reserve-Reserved b low high v h l = (
  reserved b low high,
  ground arith,
  record {
    valid = record {
      byte = reserve_from-bytes (high - low) low b.map v.byte;
      from_start = v.from_start;
    };
    bits = λ k. ground (arith, bit_at-reserve_from (high - low) low b.map v.byte k);
    amount = refl;
  },
)

-- Freeing a page of the bitmap makes that page free, leaves every other as it was, counts it, and
-- keeps the bitmap valid.
pub page_bitmap_free-bits :
    (b : Bitmap) (i : ℕ)
    → IsValid b
    → i < special_pages
    → (b' : Bitmap) × (page_bitmap_free b (address_of i) ≡ done b')
      × IsValid b'
      × ((k : ℕ) → bit_at b'.map k ≡ (not (k == i) && bit_at b.map k))
unfolding page_bitmap_free
page_bitmap_free-bits b i v h = (
  record {
    map = put b.map (i / 8) (clear_bit (b.map (i / 8)) (i % 8));
    first_free_index = min b.first_free_index i;
    free_page_amount = add64 b.free_page_amount 1;
  },
  rw index (ground arith),
  record { byte = put_clear-bytes b.map v.byte i; from_start = omega (arith, v.from_start) },
  bit_at-put_clear b.map v.byte i,
)
  where
    index : sub64 (address_of i) higher_half / page_size ≡ i
    index = omega arith

-- For every address below 1 MiB the assertion of `page_bitmap_free` holds, and one page is counted.
pub page_bitmap_free-amount :
    (b : Bitmap) (address : ℕ)
    → higher_half ≤ address
    → address < higher_half + max_special_addr
    → (b' : Bitmap) × (page_bitmap_free b address ≡ done b')
      × (b'.free_page_amount ≡ add64 b.free_page_amount 1)
unfolding page_bitmap_free
page_bitmap_free-amount b address low high =
    let i = sub64 address higher_half / page_size in
    (
      record {
        map = put b.map (i / 8) (clear_bit (b.map (i / 8)) (i % 8));
        first_free_index = min b.first_free_index i;
        free_page_amount = add64 b.free_page_amount 1;
      },
      ground arith,
      refl,
    )
