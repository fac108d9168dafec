-- ===== src/Vfs/Table/Close.antt =====
-- vfs_context_close of src/kernel/vfs_context.c undoes vfs_context_open.
use asym.Base.{
  ℕ, ◌+◌, ◌<◌, ◌≡◌, refl, ap, ap₂, inl, inr, fun_ext, Option, none, some, arith, leb, false, word,
  ◌==◌, if_cases, add64, sub64, ==_iff,
}
use asym.Base.Maps.{update, update_self}
use asym.Base.Errors.{value}
use asym.Vfs.Files.{Store, file_ref, file_deref}
use asym.Vfs.Table.{VfsContext, put_file, vfs_context_open, vfs_context_close, close_file, max_fd}
use asym.Vfs.Table.Open.{vfs_context_open-Chooses, UsedBelow}

deref-ref :
    (s : Store) (file : ℕ)
    → 0 < s.refs file
    → s.refs file + 1 < word
    → file_deref (file_ref s file) file ≡ s
unfolding file_deref file_ref
deref-ref s file some_ref room =
    rw (more, file_deref, file_ref)
      (ap (λ (refs : ℕ → ℕ). record s { refs = refs }) (fun_ext λ f. back f))
  where
    more : leb (update s.refs file (add64 (s.refs file) 1) file) 1 ≡ false
    more = ground arith

    back :
        (f : ℕ)
        → update
            (update s.refs file (add64 (s.refs file) 1))
            file
            (sub64 (update s.refs file (add64 (s.refs file) 1) file) 1)
            f
          ≡ s.refs f
    back f =
        if_cases (λ (n : ℕ). n ≡ s.refs f) (f == file) _ _
          (λ e. let f≡file = (==_iff f file).0 e in ground arith) (λ e. ground arith)

-- the descriptors as they were before the file was put at a free one
cleared :
    (c : VfsContext) (fd file : ℕ)
    → c.files fd ≡ none
    → record c { files = update (update c.files fd (some file)) fd none } ≡ c
cleared c fd file free =
    ap (λ (files : ℕ → Option ℕ). record c { files = files }) (fun_ext λ j. ground arith)

-- Where a descriptor is free and the file has a reference, and one more does not wrap its count,
-- closing the descriptor that `vfs_context_open` returns succeeds and gives back the table and the
-- reference counts that it found; the file is not torn down.
pub close-open :
    (c : VfsContext) (s : Store) (file : ℕ)
    → ¬ (UsedBelow c max_fd)
    → 0 < s.refs file
    → s.refs file + 1 < word
    → (fd : ℕ) × (let opened = vfs_context_open c s file in
        (opened.result ≡ value fd)
        × (vfs_context_close opened.context opened.store fd
            ≡ record { context = c; store = s; result = value 0 }))
unfolding vfs_context_close put_file close_file
close-open c s file free some_ref room = elim (vfs_context_open-Chooses c s file) [
  | inl (fd, below, unused, used, e) ↦ (fd, rw e (refl, closed fd below unused))
  | inr (full, e) ↦ absurd (free full)
]
  where
    closed :
        (fd : ℕ)
        → fd < max_fd
        → c.files fd ≡ none
        → (let r = put_file c s fd file in
            vfs_context_close r.context r.store fd
            ≡ record { context = c; store = s; result = value 0 })
    closed fd below unused =
        let in_range : leb max_fd fd ≡ false = ground arith in
        rw (in_range, update_self c.files fd (some file))
          (ap₂ (λ (d : VfsContext) (t : Store). record { context = d; store = t; result = value 0 })
            (cleared c fd file unused) (deref-ref s file some_ref room))
