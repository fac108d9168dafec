-- ===== src/Pml/Entry.antt =====
-- The fields of a page table entry of src/kernel/pml.c, for flags of ten binary digits.
use asym.Base.{
  ℕ, ◌+◌, ◌*◌, ◌/◌, ◌%◌, ◌^◌, ◌<◌, ◌≡◌, refl, ◌∙◌, arith, Bool, true, ◌&&◌, ltb, ◌==◌, at_each,
}
unfoldable use asym.Base.{every}
use Prim.Native.Nat.{bit_or}
use asym.Base.Fields.{bit_or-add}
use asym.Pmm.Supply.{IsPage}
use asym.Pml.{
  page_present, page_owned, entry_address, is_present, is_owned, page_entry_create, table_flags,
  root_flags, to_lower, to_higher,
}

-- the flags of pml.h, PAGE_PRESENT to PAGE_OWNED
abbrev pub flags_end : ℕ
flags_end = 2 ^ 10

-- PAGE_WRITE
unfoldable pub is_writable : ℕ → Bool
is_writable entry = entry / 2 % 2 == 1

-- What `|` does to flags, as a test.
law : ℕ → Bool
law f =
    ltb (bit_or f page_present) flags_end
    && (bit_or f page_present % 2 == 1)
    && (bit_or f page_present / 2 ^ 9 % 2 == f / 2 ^ 9 % 2)
    && ltb (table_flags f) flags_end
    && ltb (root_flags f) flags_end
    && ltb (bit_or f page_owned) flags_end
    && (bit_or f page_owned / 2 ^ 9 % 2 == 1)
    && (bit_or f page_present / 2 % 2 == f / 2 % 2)
    && (bit_or f page_owned / 2 % 2 == f / 2 % 2)

table : every law 1024 ≡ true
unfolding every law table_flags root_flags
table = refl

module _ (f : ℕ) (small : f < flags_end) where
  at_flags : law f ≡ true
  at_flags = at_each law 1024 f small table

  present-lt : bit_or f page_present < flags_end
  unfolding law
  present-lt = ground (arith, at_flags)

  present-odd : bit_or f page_present % 2 ≡ 1
  unfolding law
  present-odd = ground (arith, at_flags)

  present-owned : bit_or f page_present / 2 ^ 9 % 2 ≡ f / 2 ^ 9 % 2
  unfolding law
  present-owned = ground (arith, at_flags)

  pub table_flags-lt : table_flags f < flags_end
  unfolding law
  table_flags-lt = ground (arith, at_flags)

  pub root_flags-lt : root_flags f < flags_end
  unfolding law
  root_flags-lt = ground (arith, at_flags)

  pub owned-lt : bit_or f page_owned < flags_end
  unfolding law
  owned-lt = ground (arith, at_flags)

  pub owned-is_owned : is_owned (bit_or f page_owned) ≡ true
  unfolding law is_owned
  owned-is_owned = ground (arith, at_flags)

  present-writable : bit_or f page_present / 2 % 2 ≡ f / 2 % 2
  unfolding law
  present-writable = ground (arith, at_flags)

  pub owned-writable : is_writable (bit_or f page_owned) ≡ is_writable f
  unfolding law is_writable
  owned-writable =
      let same : bit_or f page_owned / 2 % 2 ≡ f / 2 % 2 = ground (arith, at_flags) in rw same

  create-add :
      (p : ℕ) → page_entry_create p f ≡ p / 2 ^ 12 % 2 ^ 40 * 2 ^ 12 + bit_or f page_present
  unfolding page_entry_create
  create-add p =
      bit_or-add 12 (p / 2 ^ 12 % 2 ^ 40) (bit_or f page_present) (omega (arith, present-lt))

  pub create-is_present : (p : ℕ) → is_present (page_entry_create p f) ≡ true
  unfolding is_present
  create-is_present p = rw (create-add p) (ground (arith, present-odd))

  pub create-is_owned : (p : ℕ) → is_owned (page_entry_create p f) ≡ is_owned f
  unfolding is_owned
  create-is_owned p =
      let same : (p / 2 ^ 12 % 2 ^ 40 * 2 ^ 12 + bit_or f page_present) / 2 ^ 9 % 2
          ≡ f / 2 ^ 9 % 2 =
        omega (arith, present-owned, present-lt) in
      rw (create-add p, same)

  pub create-is_writable : (p : ℕ) → is_writable (page_entry_create p f) ≡ is_writable f
  unfolding is_writable
  create-is_writable p =
      let same : (p / 2 ^ 12 % 2 ^ 40 * 2 ^ 12 + bit_or f page_present) / 2 % 2 ≡ f / 2 % 2 =
        omega (arith, present-writable, present-lt) in
      rw (create-add p, same)

  pub create-address :
      (p : ℕ) → entry_address (page_entry_create p f) ≡ to_higher (p / 2 ^ 12 % 2 ^ 40 * 2 ^ 12)
  unfolding entry_address
  create-address p =
      let same : (p / 2 ^ 12 % 2 ^ 40 * 2 ^ 12 + bit_or f page_present) / 2 ^ 12 % 2 ^ 40 * 2 ^ 12
          ≡ p / 2 ^ 12 % 2 ^ 40 * 2 ^ 12 =
        omega (arith, present-lt) in
      rw (create-add p, same)

  -- An entry made from a page of the kernel's memory leads back to it.
  pub create-page : (a : ℕ) → IsPage a → entry_address (page_entry_create (to_lower a) f) ≡ a
  create-page a page =
      create-address (to_lower a) ∙ omega (arith, page.aligned, page.high, page.fits)
