-- ===== src/Vfs/Files.antt =====
-- The reference counts of files and volumes in src/kernel/vfs.c. A file is named by its number.
use asym.Base.{ℕ, List, [], ◌∷◌, ◌++◌, Option, none, some, leb, if◌then◌else◌, add64, sub64}
use asym.Base.Maps.{update}

-- `torn_down` lists the files that were cleaned up and freed, in that order: it stands for the call of
-- `ops->cleanup`, whose effects belong to the file system of the file.
pub record Store : Type 0 where
  pub refs : ℕ → ℕ
  pub volume : ℕ → Option ℕ
  pub volume_refs : ℕ → ℕ
  pub torn_down : List ℕ

-- `malloc` gave the file's number; it stands in no table yet.
unfoldable pub file_new : Store → ℕ → Option ℕ → Store
file_new s file volume = record s {
  refs = update s.refs file 1;
  volume = update s.volume file volume;
}

unfoldable pub file_ref : Store → ℕ → Store
file_ref s file = record s { refs = update s.refs file (add64 (s.refs file) 1) }

abbrev pub volume_deref : (ℕ → ℕ) → Option ℕ → ℕ → ℕ
volume_deref refs none = refs
volume_deref refs (some v) = update refs v (sub64 (refs v) 1)

unfoldable pub tear_down : Store → ℕ → Store
tear_down s file = record s {
  volume_refs = volume_deref s.volume_refs (s.volume file);
  torn_down = s.torn_down ++ file ∷ [];
}

unfoldable pub file_deref : Store → ℕ → Store
file_deref s file =
    let lowered = record s { refs = update s.refs file (sub64 (s.refs file) 1) } in
    if leb (s.refs file) 1 then tear_down lowered file else lowered
