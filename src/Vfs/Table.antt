-- ===== src/Vfs/Table.antt =====
-- src/kernel/vfs_context.c. Each operation holds the context's lock from its start to its end, so that
-- it is one step.
pub mod Open
pub mod Close
pub mod Balance
pub mod Cleanup
use asym.Base.{ℕ, zero, suc, ◌+◌, List, [], ◌∷◌, Option, none, some, leb, if◌then◌else◌}
use asym.Base.Maps.{update}
use asym.Base.Errors.{Errno, Result, value, error, ebadf, emfile, einval}
use asym.Vfs.Files.{Store, file_ref, file_deref}

-- CONFIG_MAX_FD
abbrev pub max_fd : ℕ
max_fd = 64

-- `vfs_context_t`: a place of `files` is NULL or a file. The lock is held by the running operation.
pub record VfsContext : Type 0 where
  pub cwd : List ℕ
  pub files : ℕ → Option ℕ

-- the characters of "sys:"
abbrev pub root_label : List ℕ
root_label = 115 ∷ 121 ∷ 115 ∷ 58 ∷ []

unfoldable pub vfs_context_init : VfsContext
vfs_context_init = record { cwd = root_label; files = λ fd. none }

-- What an operation leaves and returns.
pub record Reply : Type 0 where
  pub context : VfsContext
  pub store : Store
  pub result : Result

unfoldable pub put_file : VfsContext → Store → ℕ → ℕ → Reply
put_file c s fd file = record {
  context = record c { files = update c.files fd (some file) };
  store = file_ref s file;
  result = value fd;
}

-- The loop at `fd`, with `n` places left.
unfoldable pub open_from : VfsContext → Store → ℕ → ℕ → ℕ → Reply
open_from c s file zero fd = record { context = c; store = s; result = error emfile }
open_from c s file (suc n) fd =
    let later = open_from c s file n (fd + 1) in
    elim (c.files fd) [ none ↦ put_file c s fd file | some other ↦ later ]

unfoldable pub vfs_context_open : VfsContext → Store → ℕ → Reply
vfs_context_open c s file = open_from c s file max_fd 0

unfoldable pub close_file : VfsContext → Store → ℕ → Option ℕ → Reply
close_file c s fd none = record { context = c; store = s; result = error ebadf }
close_file c s fd (some file) = record {
  context = record c { files = update c.files fd none };
  store = file_deref s file;
  result = value 0;
}

unfoldable pub vfs_context_close : VfsContext → Store → ℕ → Reply
vfs_context_close c s fd =
    if leb max_fd fd
    then record { context = c; store = s; result = error ebadf }
    else close_file c s fd (c.files fd)

unfoldable pub vfs_context_openat : VfsContext → Store → ℕ → ℕ → Reply
vfs_context_openat c s fd file =
    if leb max_fd fd
    then record { context = c; store = s; result = error einval }
    else elim (c.files fd) [
      | none ↦ put_file c s fd file
      | some other ↦ record { context = c; store = s; result = error emfile }
    ]

-- The code tests no bound: past the array it reads what stands behind it, here `beyond fd`.
unfoldable pub vfs_context_get : (ℕ → Option ℕ) → VfsContext → Store → ℕ → Reply
vfs_context_get beyond c s fd = elim (if leb max_fd fd then beyond fd else c.files fd) [
  | none ↦ record { context = c; store = s; result = error ebadf }
  | some file ↦ record { context = c; store = file_ref s file; result = value file }
]

abbrev pub deref_at : Store → Option ℕ → Store
deref_at s none = s
deref_at s (some file) = file_deref s file

unfoldable pub cleanup_from : (ℕ → Option ℕ) → Store → ℕ → ℕ → Store
cleanup_from files s zero i = s
cleanup_from files s (suc n) i = cleanup_from files (deref_at s (files i)) n (i + 1)

unfoldable pub vfs_context_cleanup : VfsContext → Store → Store
vfs_context_cleanup c s = cleanup_from c.files s max_fd 0
