-- ===== src/Ramfs/Children.antt =====
-- ramfs_listdir of src/kernel/ramfs.c, and ramfs_open and ramfs_stat, by the node that a path leads to.
use asym.Base.{
  ℕ, zero, suc, ◌+◌, ◌≡◌, sym, ap, ◌∙◌, arith, true, false, List, [], ◌∷◌, ◌++◌, length,
  length-append, append_assoc, append-nil, ltb,
}
use asym.Vfs.Names.Walk.{joined}
use asym.Node.{Node, Nodes, nil, cons}
use asym.Node.Lookup.{AreNames, Named, lookup, node_traverse_lem}
use asym.Ramfs.{Listing, DirEntry, entry_of, open_found, list_found, stat_found}
unfoldable use asym.Ramfs.{dir_entry_push, list_children, ramfs_open, ramfs_listdir, ramfs_stat}

-- the entries of all children, in order
abbrev pub entries_of : Nodes → List DirEntry
entries_of nil = []
entries_of (cons child rest) = entry_of child ∷ entries_of rest

abbrev pub first : {A : Type 0} → ℕ → List A → List A
first zero xs = []
first (suc n) [] = []
first (suc n) (x ∷ xs) = x ∷ first n xs

-- With room for `k` more entries.
pub list_children_lem :
    (cs : Nodes) (k amount : ℕ) (l : Listing)
    → length l.entries + k ≡ amount
    → ((list_children amount l cs).entries ≡ l.entries ++ first k (entries_of cs))
      × ((list_children amount l cs).total ≡ l.total + length (entries_of cs))
unfolding list_children dir_entry_push
list_children_lem nil zero amount l e = (sym (append-nil l.entries), omega arith)
list_children_lem nil (suc k) amount l e = (sym (append-nil l.entries), omega arith)
list_children_lem (cons child rest) zero amount l e =
    let full : ltb (length l.entries) amount ≡ false = ground (arith, e) in
    let (a, b) =
      list_children_lem rest zero amount (record { entries = l.entries; total = l.total + 1 }) e in
    rw (full, list_children) (a, omega (arith, b))
list_children_lem (cons child rest) (suc k) amount l e =
    let room : ltb (length l.entries) amount ≡ true = ground (arith, e) in
    let more = l.entries ++ entry_of child ∷ [] in
    let (a, b) =
      list_children_lem rest k amount (record { entries = more; total = l.total + 1 })
        (omega (arith, e, length-append l.entries (entry_of child ∷ []))) in
    rw (room, list_children)
      (
        a ∙ append_assoc l.entries (entry_of child ∷ []) (first k (entries_of rest)),
        omega (arith, b),
      )

-- In a tree of proper names, opening, listing and reading the type of a path from its names are what the
-- node that the names lead to, or its absence, calls for.
pub ramfs-lookup :
    (n : List ℕ) (ns : List (List ℕ)) (root : Node) (amount : ℕ)
    → AreNames (n ∷ ns)
    → Named root
    → let path = joined (n ∷ ns) in
      let fuel = length (n ∷ ns) in
      (ramfs_open fuel root path ≡ open_found (lookup root (n ∷ ns)))
      × (ramfs_listdir fuel root path amount ≡ list_found amount (lookup root (n ∷ ns)))
      × (ramfs_stat fuel root path ≡ stat_found (lookup root (n ∷ ns)))
unfolding ramfs_open ramfs_listdir ramfs_stat
ramfs-lookup n ns root amount a h =
    let (e, _) = node_traverse_lem n ns root a h in
    (ap open_found e, ap (list_found amount) e, ap stat_found e)

-- A listing into room for `amount` entries holds the first `amount` children in their order, and its
-- total counts them all.
pub list_children-first :
    (cs : Nodes) (amount : ℕ)
    → let l = list_children amount (record { entries = []; total = 0 }) cs in
      (l.entries ≡ first amount (entries_of cs)) × (l.total ≡ length (entries_of cs))
list_children-first cs amount =
    let (a, b) =
      list_children_lem cs amount amount (record { entries = []; total = 0 }) (omega arith) in
    (a, omega (arith, b))
