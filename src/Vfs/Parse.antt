-- ===== src/Vfs/Parse.antt =====
-- vfs_parse_path of src/kernel/vfs.c: a path from the root of the current volume, one with a label, or
-- one relative to the current directory.
pub mod Labelled
use asym.Base.{ℕ, Bool, not, List, [], ◌∷◌, ◌++◌, Option, none, some, ◌==◌, if◌then◌else◌}
use asym.Str.Strings.{head_of, strchr}
use asym.Vfs.Names.{name_separator, label_separator, end_of_name}
use asym.Vfs.Canonical.{valid_char, Canonical, failed, vfs_make_canonical}

-- How the loop over the first name ends: with ERR, at a ':' with the label before it and the rest
-- behind it, or at the end of the name.
pub data Scan : Type 0 where
  bad relative : Scan
  absolute : List ℕ → List ℕ → Scan

abbrev pub behind : ℕ → Scan → Scan
behind c bad = bad
behind c relative = relative
behind c (absolute label rest) = absolute (c ∷ label) rest

unfoldable pub scan_label : List ℕ → Scan
scan_label [] = relative
scan_label (c ∷ cs) =
    let further = behind c (scan_label cs) in
    if c == name_separator
    then relative
    else if c == label_separator
    then (if not (end_of_name cs) then bad else absolute [] cs)
    else if not (valid_char c)
    then bad
    else further

-- What is written in front of the ':', and what `vfs_make_canonical` makes from there on.
pub record Parsed : Type 0 where
  pub label : List ℕ
  pub rest : Canonical

-- `strchr(cwd, ':') - cwd` characters of `cwd`
abbrev pub before_label_separator : List ℕ → List ℕ
before_label_separator [] = []
before_label_separator (c ∷ cs) = if c == label_separator then [] else c ∷ before_label_separator cs

abbrev pub turned : List ℕ → List ℕ → List ℕ
turned [] rest = rest
turned (x ∷ xs) rest = turned xs (x ∷ rest)

-- The characters of `cwd` from the ':' on, the last first.
abbrev pub cwd_buffer : Option (List ℕ) → List ℕ
cwd_buffer none = []
cwd_buffer (some from_separator) = turned from_separator []

abbrev pub parse_scanned : ℕ → List ℕ → List ℕ → Scan → Parsed
parse_scanned fuel cwd path bad = record { label = []; rest = failed }
parse_scanned fuel cwd path (absolute label rest) = record {
  label = label;
  rest = vfs_make_canonical fuel (label_separator ∷ []) rest;
}
parse_scanned fuel cwd path relative = record {
  label = before_label_separator cwd;
  rest = vfs_make_canonical fuel (name_separator ∷ cwd_buffer (strchr cwd label_separator)) path;
}

-- `fuel` bounds the rounds of `vfs_make_canonical`.
unfoldable pub vfs_parse_path : ℕ → List ℕ → List ℕ → Parsed
vfs_parse_path fuel cwd path =
    if head_of path == name_separator
    then record {
      label = before_label_separator cwd;
      rest = vfs_make_canonical fuel (label_separator ∷ []) path;
    }
    else parse_scanned fuel cwd path (scan_label path)
