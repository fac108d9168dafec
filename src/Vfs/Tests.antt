-- ===== src/Vfs/Tests.antt =====
-- The theorems on src/kernel/vfs_context.c at a table with two open descriptors.
use asym.Base.{
  ℕ, ◌≡◌, refl, some, none, [], arith, ◌==◌, if◌then◌else◌, true, false, ◌++◌, ◌↔◌, ◌∷◌, List,
}
use asym.Vfs.Names.{
  name_first, name_compare, label_compare, compare_within, name_separator, label_separator,
}
use asym.Vfs.Names.Compare.{name_of, compare_lem}
use asym.Vfs.Names.Walk.{walk, joined, walk-path}
use asym.Vfs.Canonical.{valid_char, dot, dot_dot, vfs_make_canonical}
use asym.Vfs.Canonical.Stack.{all_valid, buffer}
use asym.Vfs.Canonical.Resolve.{resolve, outcome, vfs_make_canonical_lem}
use asym.Vfs.Parse.{before_label_separator, vfs_parse_path}
use asym.Vfs.Parse.Labelled.{vfs_parse_path_lem}
use asym.Vfs.Volumes.{Volume, is_taken, vfs_attach_simple, vfs_unmount, volume_get}
use asym.Vfs.Volumes.Labels.{
  NoTwins, IsLabel, get-attach, vfs_attach_simple-NoTwins, vfs_unmount-NoTwins,
}
use asym.Base.Errors.{value}
use asym.Vfs.Files.{Store}
use asym.Vfs.Table.{
  VfsContext, root_label, max_fd, vfs_context_open, vfs_context_openat, vfs_context_close,
  vfs_context_cleanup,
}
use asym.Vfs.Table.Open.{Chooses, UsedBelow, vfs_context_open-Chooses}
use asym.Vfs.Table.Close.{close-open}
use asym.Vfs.Table.Balance.{
  IsBalanced, vfs_context_open-IsBalanced, vfs_context_openat-IsBalanced,
  vfs_context_close-IsBalanced,
}
use asym.Vfs.Table.Cleanup.{refs-vfs_context_cleanup}

-- descriptors 0 and 2 of file 7
abbrev table : VfsContext
table = record {
  cwd = root_label;
  files = λ fd. if fd == 0 then some 7 else if fd == 2 then some 7 else none;
}

-- one more reference to file 7, and one to file 9
abbrev outside : ℕ → ℕ
outside f = if f == 7 then 1 else if f == 9 then 1 else 0

abbrev store : Store
store = record {
  refs = λ f. if f == 7 then 3 else if f == 9 then 1 else 0;
  volume = λ f. none;
  volume_refs = λ v. 0;
  torn_down = [];
}

table-IsBalanced : IsBalanced table.files store outside
table-IsBalanced = record { count = λ f. ground arith; room = λ f. ground arith }

vfs_context_open-Chooses_example : Chooses table store 9 (vfs_context_open table store 9)
vfs_context_open-Chooses_example = vfs_context_open-Chooses table store 9

has_room : ¬ (UsedBelow table max_fd)
has_room full = full 1 (omega arith) refl

close-open_example :
    (fd : ℕ) × (let opened = vfs_context_open table store 9 in
      (opened.result ≡ value fd)
      × (vfs_context_close opened.context opened.store fd
          ≡ record { context = table; store = store; result = value 0 }))
close-open_example = close-open table store 9 has_room (omega arith) (omega arith)

vfs_context_open-IsBalanced_example :
    let r = vfs_context_open table store 9 in IsBalanced r.context.files r.store outside
vfs_context_open-IsBalanced_example =
    vfs_context_open-IsBalanced table store outside 9 table-IsBalanced

vfs_context_openat-IsBalanced_example :
    let r = vfs_context_openat table store 5 9 in IsBalanced r.context.files r.store outside
vfs_context_openat-IsBalanced_example =
    vfs_context_openat-IsBalanced table store outside 5 9 table-IsBalanced

vfs_context_close-IsBalanced_example :
    let r = vfs_context_close table store 2 in IsBalanced r.context.files r.store outside
vfs_context_close-IsBalanced_example =
    vfs_context_close-IsBalanced table store outside 2 table-IsBalanced

refs-vfs_context_cleanup_example : (vfs_context_cleanup table store).refs 7 ≡ outside 7
refs-vfs_context_cleanup_example = refs-vfs_context_cleanup table store outside table-IsBalanced 7

-- "sys" and "home"
abbrev sys : List ℕ
sys = 115 ∷ 121 ∷ 115 ∷ []

abbrev home : List ℕ
home = 104 ∷ 111 ∷ 109 ∷ 101 ∷ []

abbrev volumes : List Volume
volumes = record { id = 1; label = sys; removable = false; ref = 1 } ∷ []

sys-IsLabel : IsLabel sys
sys-IsLabel = record {
  no_nul = omega arith;
  no_name_end = omega arith;
  no_label_end = omega arith;
  short = omega arith;
}

home-IsLabel : IsLabel home
home-IsLabel = record {
  no_nul = omega arith;
  no_name_end = omega arith;
  no_label_end = omega arith;
  short = omega arith;
}

home-free : is_taken volumes home ≡ false
unfolding is_taken name_compare compare_within
home-free = refl

get-attach_example :
    let (attached, result) = vfs_attach_simple volumes 2 home true in
    (result ≡ value 0)
    × ((volume_get attached (home ++ label_separator ∷ name_separator ∷ sys)).1 ≡ some 2)
get-attach_example =
    get-attach home (name_separator ∷ sys) home-IsLabel (omega arith) volumes 2 true
      (sys-IsLabel, tt) home-free

volumes-NoTwins : NoTwins volumes
volumes-NoTwins = (tt, tt)

vfs_attach_simple-NoTwins_example : NoTwins (vfs_attach_simple volumes 2 home true).0
vfs_attach_simple-NoTwins_example = vfs_attach_simple-NoTwins volumes 2 home true volumes-NoTwins

vfs_unmount-NoTwins_example : NoTwins (vfs_unmount volumes sys (λ id. true)).0
vfs_unmount-NoTwins_example = vfs_unmount-NoTwins volumes sys (λ id. true) volumes-NoTwins

walk-path_example :
    (walk 2 (name_first (name_separator ∷ joined (home ∷ sys ∷ []))) ≡ home ∷ sys ∷ [])
    × (walk 2 (name_first (joined (home ∷ sys ∷ []))) ≡ home ∷ sys ∷ [])
walk-path_example = walk-path home (sys ∷ []) (omega arith)

compare_lem_example :
    ((name_compare sys (sys ++ name_separator ∷ home) ≡ true)
      ↔ (name_of name_separator sys ≡ name_of name_separator (sys ++ name_separator ∷ home)))
    × ((label_compare sys (sys ++ name_separator ∷ home) ≡ true)
        ↔ (name_of label_separator sys ≡ name_of label_separator (sys ++ name_separator ∷ home)))
compare_lem_example =
    compare_lem sys (sys ++ name_separator ∷ home) (omega arith) (omega arith) (omega arith)

-- "./../home" from "sys:/sys"
vfs_make_canonical_lem_example :
    vfs_make_canonical 3 (buffer (sys ∷ [])) (joined (dot ∷ dot_dot ∷ home ∷ []))
    ≡ outcome (resolve (sys ∷ []) (dot ∷ dot_dot ∷ home ∷ []))
vfs_make_canonical_lem_example =
    vfs_make_canonical_lem (sys ∷ []) dot (dot_dot ∷ home ∷ []) (omega arith) (omega arith)

home-valid : all_valid home ≡ true
unfolding valid_char
home-valid = refl

-- "home:/sys/../sys" and "/sys/../sys", from "sys:"
vfs_parse_path_lem_example :
    (vfs_parse_path 4
        (sys ++ label_separator ∷ [])
        (home ++ label_separator ∷ name_separator ∷ joined (sys ∷ dot_dot ∷ sys ∷ []))
      ≡ record { label = home; rest = outcome (resolve [] (sys ∷ dot_dot ∷ sys ∷ [])) })
    × (vfs_parse_path 4
          (sys ++ label_separator ∷ [])
          (name_separator ∷ joined (sys ∷ dot_dot ∷ sys ∷ []))
        ≡ record {
          label = before_label_separator (sys ++ label_separator ∷ []);
          rest = outcome (resolve [] (sys ∷ dot_dot ∷ sys ∷ []));
        })
vfs_parse_path_lem_example =
    vfs_parse_path_lem (sys ++ label_separator ∷ []) home sys (dot_dot ∷ sys ∷ []) (omega arith)
      home-valid (omega arith)
