-- ===== src/Ramfs/Tests.antt =====
-- src/kernel/ramfs.c and include/stdlib/sys/node.h on a tree of two files.
use asym.Base.{ℕ, ◌+◌, ◌-◌, ◌≤◌, ◌≡◌, ◌≢◌, arith, min, List, [], ◌∷◌, some, inr, ◌%◌}
use asym.Str.Memory.{Memory, copied}
use asym.Vfs.Names.{name_separator}
use asym.Node.{Node, node, nil, cons, node_traverse}
unfoldable use asym.Node.{}
use asym.Node.Lookup.{IsName, lookup, node_traverse_lem}
unfoldable use asym.Node.Lookup.{Named}
use asym.Ramfs.{
  RamFile, seek_position, ramfs_read, ramfs_seek, ramfs_open, ramfs_listdir, ramfs_stat, open_found,
  list_found, stat_found,
}
use asym.Ramfs.Bounds.{ramfs_read-seek}
use asym.Ramfs.Children.{ramfs-lookup}

-- "b" is 98 and "x" is 120: the root holds the directory "b" with the file "x", and the file "x".
abbrev root : Node
root = node 1 1 (114 ∷ []) (
    cons (node 2 1 (98 ∷ []) (cons (node 3 0 (120 ∷ []) nil) nil))
      (cons (node 4 0 (120 ∷ []) nil) nil))

one_letter : (c : ℕ) → c ≢ name_separator → c ≢ 0 → IsName (c ∷ [])
one_letter c h k = record {
  some_character = omega arith;
  plain = (h, tt);
  no_nul = (k, tt);
  short = omega arith;
}

b : IsName (98 ∷ [])
b = one_letter 98 (omega arith) (omega arith)

x : IsName (120 ∷ [])
x = one_letter 120 (omega arith) (omega arith)

root-Named : Named root
unfolding Named
root-Named = (one_letter 114 (omega arith) (omega arith), ((b, ((x, tt), tt)), ((x, tt), tt)))

abbrev names : List (List ℕ)
names = (98 ∷ []) ∷ (120 ∷ []) ∷ []

node_traverse_lem_example :
    (node_traverse 2 root (some (98 ∷ 47 ∷ 120 ∷ [])) name_separator ≡ lookup root names)
    × (node_traverse 2 root (some (47 ∷ 98 ∷ 47 ∷ 120 ∷ [])) name_separator ≡ lookup root names)
node_traverse_lem_example =
    node_traverse_lem (98 ∷ []) ((120 ∷ []) ∷ []) root (b, (x, tt)) root-Named

ramfs-lookup_example :
    (ramfs_open 2 root (98 ∷ 47 ∷ 120 ∷ []) ≡ open_found (lookup root names))
    × (ramfs_listdir 2 root (98 ∷ 47 ∷ 120 ∷ []) 8 ≡ list_found 8 (lookup root names))
    × (ramfs_stat 2 root (98 ∷ 47 ∷ 120 ∷ []) ≡ stat_found (lookup root names))
ramfs-lookup_example = ramfs-lookup (98 ∷ []) ((120 ∷ []) ∷ []) root 8 (b, (x, tt)) root-Named

abbrev counting : Memory
counting a = a % 256

abbrev file : RamFile
file = record { data_at = 5000; size = 40; pos = 0 }

ramfs_read-seek_example :
    let p = seek_position file 30 0 in
    let at = min p file.size in
    let n = min 100 (file.size - at) in
    let (position, g) = ramfs_seek file 30 0 in
    let (delivered, m', h) = ramfs_read counting g 9000 100 in
    (position ≡ p)
    × (delivered ≡ n)
    × (m' ≡ copied counting 9000 (file.data_at + at) n)
    × (h.pos ≡ at + n)
    × (h.pos ≤ file.size)
ramfs_read-seek_example =
    ramfs_read-seek counting file 30 0 9000 100 (record { byte = λ a. omega arith }) (omega arith)
      (inr (omega arith))
