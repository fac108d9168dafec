-- ===== src/Vfs/Table/Cleanup.antt =====
-- vfs_context_cleanup of src/kernel/vfs_context.c gives back each descriptor's reference.
use asym.Base.{ℕ, zero, suc, ◌+◌, ◌≤◌, ◌<◌, ◌≡◌, ap, Option, none, some, arith, word}
use asym.Base.Sums.{sum_below}
use asym.Vfs.Files.{Store}
use asym.Vfs.Table.{VfsContext, vfs_context_cleanup, cleanup_from, deref_at, max_fd}
use asym.Vfs.Table.Balance.{IsBalanced, holds, holds-le, refs-file_deref}

-- `f i + ... + f (i + n - 1)`
abbrev sum_from : ℕ → ℕ → (ℕ → ℕ) → ℕ
sum_from zero i f = 0
sum_from (suc n) i f = f i + sum_from n (i + 1) f

sum_below-sum_from : (n i : ℕ) (f : ℕ → ℕ) → sum_below i f + sum_from n i f ≡ sum_below (i + n) f
sum_below-sum_from zero i f =
    let e : i ≡ i + 0 = omega arith in omega (arith, ap (λ (k : ℕ). sum_below k f) e)
sum_below-sum_from (suc n) i f =
    let e : i + 1 + n ≡ i + suc n = omega arith in
    let e1 : i + 1 ≡ suc i = omega arith in
    omega (
      arith,
      sum_below-sum_from n (i + 1) f,
      ap (λ (k : ℕ). sum_below k f) e,
      ap (λ (k : ℕ). sum_below k f) e1,
    )

sum_from-bound : (n i : ℕ) (f : ℕ → ℕ) → ((j : ℕ) → f j ≤ 1) → sum_from n i f ≤ n
sum_from-bound zero i f h = omega arith
sum_from-bound (suc n) i f h = omega (arith, sum_from-bound n (i + 1) f h, h i)

refs-deref_at :
    (s : Store) (o : Option ℕ) (f : ℕ)
    → ((g : ℕ) → holds g o ≤ s.refs g)
    → ((g : ℕ) → s.refs g < word)
    → (deref_at s o).refs f + holds f o ≡ s.refs f
refs-deref_at s none f enough small = omega arith
refs-deref_at s (some file) f enough small =
    refs-file_deref s file f (omega (arith, enough file, held)) (small file)
  where
    held : holds file (some file) ≡ 1
    held = ground arith

module _ (files : ℕ → Option ℕ) (outside : ℕ → ℕ) (room : (f : ℕ) → outside f + max_fd < word) where
  refs-cleanup_from :
      (n i : ℕ) (s : Store)
      → n ≤ max_fd
      → ((f : ℕ) → s.refs f ≡ sum_from n i (λ j. holds f (files j)) + outside f)
      → (f : ℕ) → (cleanup_from files s n i).refs f ≡ outside f
  unfolding cleanup_from
  refs-cleanup_from zero i s h count f = omega (arith, count f)
  refs-cleanup_from (suc n) i s h count f =
      refs-cleanup_from n (i + 1) (deref_at s (files i)) (omega arith)
        (λ g. omega (arith, count g, given g)) f
    where
      small : (g : ℕ) → s.refs g < word
      small g = omega (
        arith,
        count g,
        room g,
        sum_from-bound (suc n) i (λ j. holds g (files j)) (λ j. holds-le g (files j)),
      )

      given : (g : ℕ) → (deref_at s (files i)).refs g + holds g (files i) ≡ s.refs g
      given g = refs-deref_at s (files i) g (λ g. omega (arith, count g)) small

-- When a balanced table is cleaned up, each file keeps as many references as are held outside it.
pub refs-vfs_context_cleanup :
    (c : VfsContext) (s : Store) (outside : ℕ → ℕ)
    → IsBalanced c.files s outside
    → (f : ℕ) → (vfs_context_cleanup c s).refs f ≡ outside f
unfolding vfs_context_cleanup
refs-vfs_context_cleanup c s outside b =
    refs-cleanup_from c.files outside b.room max_fd 0 s (omega arith)
      (λ f. omega (arith, b.count f, sum_below-sum_from max_fd 0 (λ j. holds f (c.files j))))
