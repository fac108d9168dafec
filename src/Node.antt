-- ===== src/Node.antt =====
-- include/stdlib/sys/node.h: a tree of named nodes. A node is known by its address, and holds its
-- children as values; a name is the list of its characters.
pub mod Lookup
use asym.Base.{ℕ, zero, suc, Bool, List, [], ◌∷◌, Option, none, some, ◌==◌, if◌then◌else◌}
use asym.Str.Strings.{head_of, tail_of, strchr}
use asym.Vfs.Names.{compare_within, max_name}

mutual
  -- `type`, `name` and `children` of the node at the address
  pub data Node : Type 0 where
    node : (address kind : ℕ) → (name : List ℕ) → (children : Nodes) → Node

  pub data Nodes : Type 0 where
    nil : Nodes
    cons : Node → Nodes → Nodes

abbrev pub kind_of : Node → ℕ
kind_of (node address kind name children) = kind

abbrev pub name_in : Node → List ℕ
name_in (node address kind name children) = name

abbrev pub children_of : Node → Nodes
children_of (node address kind name children) = children

-- The loop over the children. The loop over characters is that of name_compare, with MAX_NAME rounds.
unfoldable pub find_among : Nodes → List ℕ → ℕ → Option Node
find_among nil name deliminator = none
find_among (cons child rest) name deliminator =
    let later = find_among rest name deliminator in
    if compare_within deliminator max_name name (name_in child) then some child else later

unfoldable pub node_find : Node → List ℕ → ℕ → Option Node
node_find parent name deliminator = find_among (children_of parent) name deliminator

-- `running` is a loop that is not over when its rounds are used up.
pub data Found : Type 0 where
  found : Node → Found
  missing : Found
  running : Found

abbrev pub past_deliminator : List ℕ → ℕ → List ℕ
past_deliminator path deliminator = if head_of path == deliminator then tail_of path else path

-- The loop of node_traverse with `fuel` rounds; `none` is a NULL path.
unfoldable pub node_traverse : ℕ → Node → Option (List ℕ) → ℕ → Found
node_traverse fuel at none deliminator = found at
node_traverse fuel at (some []) deliminator = found at
node_traverse zero at (some (c ∷ cs)) deliminator = running
node_traverse (suc fuel) at (some (c ∷ cs)) deliminator =
    elim (node_find at (past_deliminator (c ∷ cs) deliminator) deliminator) [
      | none ↦ missing
      | some child ↦
          node_traverse fuel child (strchr (past_deliminator (c ∷ cs) deliminator) deliminator)
            deliminator
    ]
