-- ===== src/Vmm/Region.antt =====
-- vmm_find_free_region and vmm_prot_to_flags of src/kernel/vmm.c.
use asym.Base.{
  ℕ, zero, suc, ◌+◌, ◌-◌, ◌≤◌, ◌<◌, ◌≡◌, refl, sym, ap, subst, ◌∙◌, arith, Bool, true, false,
  lt→ltb, ◌==◌, if◌then◌else◌, add64, mul64, round_down, uint64_max, word,
}
use Prim.Native.Nat.{bit_or}
use asym.Pmm.Bitmap.{done, running, page_size}
unfoldable use asym.Pml.{pml_mapped, is_owned}
use asym.Pml.{page_owned, page_write, page_user}
use asym.Pml.Entry.{flags_end}
unfoldable use asym.Pml.Entry.{is_writable}
use asym.Vmm.{Space, can_read, can_write}
unfoldable use asym.Vmm.{find_from, vmm_find_free_region, size_in_pages, vmm_prot_to_flags}

-- `j` steps of the loop from `addr`
abbrev pub stepped : ℕ → ℕ → ℕ → ℕ
stepped zero page_amount addr = addr
stepped (suc j) page_amount addr = stepped j page_amount (add64 addr (mul64 page_amount page_size))

find_from_lem :
    (j fuel : ℕ) (s : Space) (n addr : ℕ)
    → j < fuel
    → ((i : ℕ) → i ≤ j → stepped i n addr < round_down uint64_max 0x1000)
    → ((i : ℕ) → i < j → pml_mapped s.paging s.pml (stepped i n addr) n ≡ true)
    → pml_mapped s.paging s.pml (stepped j n addr) n ≡ false
    → find_from fuel s n addr
      ≡ done (
        stepped j n addr,
        record s { free_address = add64 (stepped j n addr) (mul64 n page_size) },
      )
unfolding find_from
find_from_lem zero (suc fuel) s n addr lt low taken free =
    let small = lt→ltb addr (round_down uint64_max 0x1000) (low 0 (omega arith)) in rw (small, free)
find_from_lem (suc j) (suc fuel) s n addr lt low taken free =
    let small = lt→ltb addr (round_down uint64_max 0x1000) (low 0 (omega arith)) in
    rw (small, taken 0 (omega arith))
      (find_from_lem j fuel s n (add64 addr (mul64 n page_size)) (omega arith)
        (λ i le. low (suc i) (omega arith)) (λ i less. taken (suc i) (omega arith)) free)
find_from_lem j zero s n addr lt low taken free = elim lt [ ]

-- The search returns the first region behind `free_address` whose pages are not all mapped, and the next
-- search starts behind it, given that it lies before the end of the address space.
pub vmm_find_free_region_lem :
    (j fuel : ℕ) (s : Space) (length : ℕ)
    → j < fuel
    → ((i : ℕ)
        → i ≤ j
        → stepped i (size_in_pages length) s.free_address < round_down uint64_max 0x1000)
    → ((i : ℕ)
        → i < j
        → pml_mapped s.paging s.pml
            (stepped i (size_in_pages length) s.free_address)
            (size_in_pages length)
          ≡ true)
    → pml_mapped s.paging s.pml
        (stepped j (size_in_pages length) s.free_address)
        (size_in_pages length)
      ≡ false
    → vmm_find_free_region fuel s length
      ≡ done (
        stepped j (size_in_pages length) s.free_address,
        record s {
          free_address =
              add64
                (stepped j (size_in_pages length) s.free_address)
                (mul64 (size_in_pages length) page_size);
        },
      )
unfolding vmm_find_free_region
vmm_find_free_region_lem j fuel s length lt low taken free =
    find_from_lem j fuel s (size_in_pages length) s.free_address lt low taken free

find_from-zero :
    (fuel : ℕ) (s : Space) (addr : ℕ)
    → addr < round_down uint64_max 0x1000
    → find_from fuel s 0 addr ≡ running
unfolding find_from pml_mapped
find_from-zero zero s addr low = refl
find_from-zero (suc fuel) s addr low =
    let small = lt→ltb addr (round_down uint64_max 0x1000) low in
    rw small (find_from-zero fuel s (add64 addr (mul64 0 page_size)) (omega (arith, low)))

-- The bug: a length so near to 2^64 that its page count wraps around to 0 makes the search run for ever.
pub vmm_find_free_region_hangs :
    (fuel : ℕ) (s : Space) (length : ℕ)
    → word ≤ length + (page_size - 1)
    → length < word
    → s.free_address < round_down uint64_max 0x1000
    → vmm_find_free_region fuel s length ≡ running
unfolding vmm_find_free_region size_in_pages
vmm_find_free_region_hangs fuel s length wraps fits low =
    let none_left : size_in_pages length ≡ 0 = omega arith in
    ap (λ n. find_from fuel s n s.free_address) none_left ∙ find_from-zero fuel s s.free_address low

-- The flags of a readable region: few, not those of an owned page, and writable as asked.
pub record Flags (flags : ℕ) (writable : Bool) : Type 0 where
  pub few : flags < flags_end
  pub valid : (flags == uint64_max) ≡ false
  pub unowned : is_owned flags ≡ false
  pub few_owned : bit_or flags page_owned < flags_end
  pub owned : is_owned (bit_or flags page_owned) ≡ true
  pub as_asked : is_writable flags ≡ writable

either : (w : Bool) → Flags (bit_or (if w then page_write else 0) page_user) w
unfolding is_owned is_writable
either true = record {
  few = omega arith;
  valid = refl;
  unowned = refl;
  few_owned = omega arith;
  owned = refl;
  as_asked = refl;
}
either false = record {
  few = omega arith;
  valid = refl;
  unowned = refl;
  few_owned = omega arith;
  owned = refl;
  as_asked = refl;
}

pub prot-Flags : (prot : ℕ) → can_read prot ≡ true → Flags (vmm_prot_to_flags prot) (can_write prot)
unfolding vmm_prot_to_flags
prot-Flags prot readable =
    let same : vmm_prot_to_flags prot
        ≡ bit_or (if can_write prot then page_write else 0) page_user =
      rw readable in
    subst (λ f. Flags f (can_write prot)) (sym same) (either (can_write prot))

pub prot_refused :
    (prot : ℕ) → can_read prot ≡ false → (vmm_prot_to_flags prot == uint64_max) ≡ true
unfolding vmm_prot_to_flags
prot_refused prot h = rw h refl
