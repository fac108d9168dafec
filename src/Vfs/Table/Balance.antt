-- ===== src/Vfs/Table/Balance.antt =====
-- Every descriptor of a table in src/kernel/vfs_context.c holds one reference to its file.
use asym.Base.{
  ℕ, zero, suc, ◌+◌, ◌≤◌, ◌<◌, ◌≡◌, refl, ap, ◌∙◌, inl, inr, Option, none, some, arith, leb, word,
  ◌==◌, if◌then◌else◌, if_cases, sub64, ==_iff, Option-cases, Bool-cases,
}
use asym.Base.Maps.{update, update_self, update_ne}
use asym.Base.Sums.{sum_below, sum_below-change}
use asym.Vfs.Files.{Store, file_ref, file_deref, tear_down}
use asym.Vfs.Table.{
  VfsContext, Reply, put_file, vfs_context_open, vfs_context_close, vfs_context_openat, close_file,
  max_fd,
}
use asym.Vfs.Table.Open.{vfs_context_open-Chooses}

-- 1 where the place holds the file
abbrev pub holds : ℕ → Option ℕ → ℕ
holds f none = 0
holds f (some g) = if g == f then 1 else 0

-- the descriptors of the file
abbrev pub handles : (ℕ → Option ℕ) → ℕ → ℕ
handles files f = sum_below max_fd (λ fd. holds f (files fd))

-- Each file's count is the number of its descriptors in the table and of the references held
-- `outside`, which are few enough that no descriptor makes the count wrap.
pub record IsBalanced (files : ℕ → Option ℕ) (s : Store) (outside : ℕ → ℕ) : Type 0 where
  pub count : (f : ℕ) → s.refs f ≡ handles files f + outside f
  pub room : (f : ℕ) → outside f + max_fd < word

handles-update :
    (files : ℕ → Option ℕ) (fd : ℕ) (o : Option ℕ) (f : ℕ)
    → fd < max_fd
    → handles (update files fd o) f + holds f (files fd) ≡ handles files f + holds f o
handles-update files fd o f h = omega (
  arith,
  sum_below-change max_fd fd (λ j. holds f (files j)) (λ j. holds f (update files fd o j)) h
      (λ j ne. ap (λ (p : Option ℕ). holds f p) (update_ne files fd o j ne)),
  ap (λ (p : Option ℕ). holds f p) (update_self files fd o),
)

pub holds-le : (f : ℕ) (o : Option ℕ) → holds f o ≤ 1
holds-le f none = omega arith
holds-le f (some g) = ground arith

sum_below-bound : (n : ℕ) (g : ℕ → ℕ) → ((i : ℕ) → g i ≤ 1) → sum_below n g ≤ n
sum_below-bound zero g h = omega arith
sum_below-bound (suc n) g h = omega (arith, sum_below-bound n g h, h n)

handles-le : (files : ℕ → Option ℕ) (f : ℕ) → handles files f ≤ max_fd
handles-le files f = sum_below-bound max_fd (λ fd. holds f (files fd)) (λ fd. holds-le f (files fd))

refs-file_ref :
    (s : Store) (file f : ℕ)
    → s.refs file + 1 < word
    → (file_ref s file).refs f ≡ s.refs f + holds f (some file)
unfolding file_ref
refs-file_ref s file f room = elim (Bool-cases (f == file)) [
  | inl e ↦ let f≡file = (==_iff f file).0 e in rw f≡file (ground arith)
  | inr e ↦ ground arith
]

pub refs-file_deref :
    (s : Store) (file f : ℕ)
    → 0 < s.refs file
    → s.refs file < word
    → (file_deref s file).refs f + holds f (some file) ≡ s.refs f
refs-file_deref s file f some_ref room =
    ap (λ (n : ℕ). n + holds f (some file)) (lowered s file f) ∙ counted
  where
    lowered :
        (s : Store) (file f : ℕ)
        → (file_deref s file).refs f ≡ update s.refs file (sub64 (s.refs file) 1) f
    lowered s file f =
        unfold file_deref tear_down in
        if_cases (λ (t : Store). t.refs f ≡ update s.refs file (sub64 (s.refs file) 1) f)
          (leb (s.refs file) 1) _ _ (λ e. refl) (λ e. refl)

    counted : update s.refs file (sub64 (s.refs file) 1) f + holds f (some file) ≡ s.refs f
    counted = elim (Bool-cases (f == file)) [
      | inl e ↦ let f≡file = (==_iff f file).0 e in rw f≡file (ground arith)
      | inr e ↦ ground arith
    ]

put_file-IsBalanced :
    (c : VfsContext) (s : Store) (outside : ℕ → ℕ) (fd file : ℕ)
    → IsBalanced c.files s outside
    → fd < max_fd
    → c.files fd ≡ none
    → (let r = put_file c s fd file in IsBalanced r.context.files r.store outside)
unfolding put_file
put_file-IsBalanced c s outside fd file b h free = record { count = count; room = b.room }
  where
    gained :
        (f : ℕ)
        → handles (update c.files fd (some file)) f ≡ handles c.files f + holds f (some file)
    gained f =
        omega
          (arith, handles-update c.files fd (some file) f h, ap (λ (o : Option ℕ). holds f o) free)

    small : s.refs file + 1 < word
    small = omega (
      arith,
      b.count file,
      b.room file,
      gained file,
      handles-le (update c.files fd (some file)) file,
      one_more,
    )
      where
        one_more : holds file (some file) ≡ 1
        one_more = ground arith

    count :
        (f : ℕ) → (file_ref s file).refs f ≡ handles (update c.files fd (some file)) f + outside f
    count f = omega (arith, refs-file_ref s file f small, gained f, b.count f)

-- `vfs_context_open` on a balanced table leaves it balanced, with and without a free descriptor: each
-- file's count is the number of its descriptors and its references outside.
pub vfs_context_open-IsBalanced :
    (c : VfsContext) (s : Store) (outside : ℕ → ℕ) (file : ℕ)
    → IsBalanced c.files s outside
    → (let r = vfs_context_open c s file in IsBalanced r.context.files r.store outside)
vfs_context_open-IsBalanced c s outside file b = elim (vfs_context_open-Chooses c s file) [
  | inl (fd, below, free, used, e) ↦ rw e (put_file-IsBalanced c s outside fd file b below free)
  | inr (full, e) ↦ rw e b
]

-- `vfs_context_openat` on a balanced table, at any descriptor, free, used or out of range, leaves it
-- balanced: each file's count is the number of its descriptors and its references outside.
pub vfs_context_openat-IsBalanced :
    (c : VfsContext) (s : Store) (outside : ℕ → ℕ) (fd file : ℕ)
    → IsBalanced c.files s outside
    → (let r = vfs_context_openat c s fd file in IsBalanced r.context.files r.store outside)
unfolding vfs_context_openat
vfs_context_openat-IsBalanced c s outside fd file b =
    if_cases (λ (r : Reply). IsBalanced r.context.files r.store outside) (leb max_fd fd) _ _
      (λ e. b)
      (λ e. elim (Option-cases (c.files fd)) [
        | inl free ↦ rw free (put_file-IsBalanced c s outside fd file b (ground arith) free)
        | inr (other, taken) ↦ rw taken b
      ])

close_file-IsBalanced :
    (c : VfsContext) (s : Store) (outside : ℕ → ℕ) (fd : ℕ) (o : Option ℕ)
    → IsBalanced c.files s outside
    → fd < max_fd
    → c.files fd ≡ o
    → (let r = close_file c s fd o in IsBalanced r.context.files r.store outside)
unfolding close_file
close_file-IsBalanced c s outside fd none b h e = b
close_file-IsBalanced c s outside fd (some file) b h e = record { count = count; room = b.room }
  where
    lost : (f : ℕ) → handles (update c.files fd none) f + holds f (some file) ≡ handles c.files f
    lost f = omega (arith, handles-update c.files fd none f h, ap (λ (o : Option ℕ). holds f o) e)

    one_held : holds file (some file) ≡ 1
    one_held = ground arith

    count : (f : ℕ) → (file_deref s file).refs f ≡ handles (update c.files fd none) f + outside f
    count f = omega (
      arith,
      refs-file_deref s file f (omega (arith, lost file, one_held, b.count file))
          (omega (arith, b.count file, b.room file, handles-le c.files file)),
      lost f,
      b.count f,
    )

-- `vfs_context_close` on a balanced table, at any descriptor, open or not or out of range, leaves it
-- balanced: each file's count is the number of its descriptors and its references outside.
pub vfs_context_close-IsBalanced :
    (c : VfsContext) (s : Store) (outside : ℕ → ℕ) (fd : ℕ)
    → IsBalanced c.files s outside
    → (let r = vfs_context_close c s fd in IsBalanced r.context.files r.store outside)
unfolding vfs_context_close
vfs_context_close-IsBalanced c s outside fd b =
    if_cases (λ (r : Reply). IsBalanced r.context.files r.store outside) (leb max_fd fd) _ _
      (λ e. b) (λ e. close_file-IsBalanced c s outside fd (c.files fd) b (ground arith) refl)
