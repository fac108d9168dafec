-- ===== src/Vfs/Table/Open.antt =====
-- What vfs_context_open of src/kernel/vfs_context.c chooses.
use asym.Base.{
  ℕ, zero, suc, ◌+◌, ◌<◌, ◌≡◌, ◌≢◌, refl, ◌⊎◌, inl, inr, none, some, arith, Option-cases,
}
use native.Mathlib.Decide.{dec_lt}
use asym.Base.Errors.{error, emfile}
use asym.Vfs.Files.{Store}
use asym.Vfs.Table.{VfsContext, Reply, put_file, open_from, vfs_context_open, max_fd}

abbrev pub UsedBelow : VfsContext → ℕ → Type 0
UsedBelow c fd = (j : ℕ) → j < fd → c.files j ≢ none

abbrev pub Chooses : VfsContext → Store → ℕ → Reply → Type 0
Chooses c s file r =
    ((fd : ℕ) × (fd < max_fd) × (c.files fd ≡ none) × UsedBelow c fd × (r ≡ put_file c s fd file))
    ⊎ (UsedBelow c max_fd × (r ≡ record { context = c; store = s; result = error emfile }))

used_further :
    (c : VfsContext) (fd file : ℕ) → UsedBelow c fd → c.files fd ≡ some file → UsedBelow c (fd + 1)
used_further c fd file used e j h = elim (dec_lt j fd) [
  | yes p ↦ used j p
  | no p ↦ let j≡fd : j ≡ fd = omega arith in rw (j≡fd, e) (λ (q : some file ≡ none). cc)
]

open_from-Chooses :
    (c : VfsContext) (s : Store) (file n fd : ℕ)
    → fd + n ≡ max_fd
    → UsedBelow c fd
    → Chooses c s file (open_from c s file n fd)
unfolding open_from
open_from-Chooses c s file zero fd e used =
    let fd≡max : fd ≡ max_fd = omega (arith, e) in inr (λ j h. used j (omega (arith, e)), refl)
open_from-Chooses c s file (suc n) fd e used = elim (Option-cases (c.files fd)) [
  | inl free ↦ rw (free, open_from) (inl (fd, omega arith, free, used, refl))
  | inr (other, taken) ↦
      rw (taken, open_from)
        (open_from-Chooses c s file n (fd + 1) (omega arith) (used_further c fd other used taken))
]

-- `vfs_context_open` puts the file at the least free descriptor and takes a reference to it, or fails
-- with EMFILE and changes nothing where all descriptors are used.
pub vfs_context_open-Chooses :
    (c : VfsContext) (s : Store) (file : ℕ) → Chooses c s file (vfs_context_open c s file)
unfolding vfs_context_open
vfs_context_open-Chooses c s file =
    open_from-Chooses c s file max_fd 0 refl (λ j h. absurd (omega arith))
