-- ===== src/Node/Lookup.antt =====
-- node_traverse of include/stdlib/sys/node.h against a lookup name by name.
use asym.Base.{
  ℕ, zero, suc, ◌≤◌, ◌<◌, ◌≡◌, ◌↔◌, refl, sym, ap, subst, ◌∙◌, arith, Bool, true, false, ◌&&◌, List,
  [], ◌∷◌, ◌++◌, Option, none, some, length, ◌==◌, if◌then◌else◌, Bool-cases, Option-cases, inl,
  inr,
}
use asym.Vfs.Names.{compare_within, name_separator, max_name}
use asym.Vfs.Names.Compare.{
  NoNul, name_of, Without, name_of-whole, name_of-front, compare_within_lem,
}
use asym.Vfs.Names.Walk.{joined, strchr-none, strchr-front}
use asym.Node.{
  Node, Nodes, node, nil, cons, name_in, children_of, Found, found, missing, past_deliminator,
}
unfoldable use asym.Node.{find_among, node_find, node_traverse}

-- A name that a node can have: characters other than NUL and '/', as many as fit.
pub record IsName (n : List ℕ) : Type 0 where
  pub some_character : 0 < length n
  pub plain : Without name_separator n
  pub no_nul : NoNul n
  pub short : length n < max_name

abbrev pub AreNames : List (List ℕ) → Type 0
AreNames [] = Unit
AreNames (n ∷ ns) = IsName n × AreNames ns

-- All nodes of a tree have names.
unfoldable mutual
  pub Named : Node → Type 0
  Named (node address kind name children) = IsName name × AllNamed children

  pub AllNamed : Nodes → Type 0
  AllNamed nil = Unit
  AllNamed (cons child rest) = Named child × AllNamed rest

unfoldable pub same_name : List ℕ → List ℕ → Bool
same_name [] [] = true
same_name (a ∷ rest) (b ∷ bs) = (a == b) && same_name rest bs
same_name a b = false

same_name_iff : (a b : List ℕ) → (same_name a b ≡ true) ↔ (a ≡ b)
unfolding same_name
same_name_iff [] [] = (λ e. refl, λ e. refl)
same_name_iff [] (b ∷ bs) = ground arith
same_name_iff (a ∷ rest) [] = ground arith
same_name_iff (a ∷ rest) (b ∷ bs) = ground (arith, same_name_iff rest bs)

-- the first child of that name
unfoldable pub child_named : Nodes → List ℕ → Option Node
child_named nil n = none
child_named (cons child rest) n =
    let later = child_named rest n in if same_name n (name_in child) then some child else later

-- the node that a list of names leads to
unfoldable pub lookup : Node → List (List ℕ) → Found
lookup at [] = found at
lookup at (n ∷ ns) = elim (child_named (children_of at) n) [
  | none ↦ missing
  | some child ↦ lookup child ns
]

equal_tests : (a b : Bool) → (a ≡ true → b ≡ true) → (b ≡ true → a ≡ true) → a ≡ b
equal_tests true b f g = sym (f refl)
equal_tests false true f g = g refl
equal_tests false false f g = refl

joined-NoNul : (ns : List (List ℕ)) → AreNames ns → NoNul (joined ns)
joined-NoNul [] a = tt
joined-NoNul (n ∷ []) a = a.0.no_nul
joined-NoNul (n ∷ m ∷ ns) a = append (joined (m ∷ ns)) (joined-NoNul (m ∷ ns) a.1) n a.0.no_nul
  where
    append :
        (rest : List ℕ) → NoNul rest → (n : List ℕ) → NoNul n → NoNul (n ++ name_separator ∷ rest)
    append rest r [] h = (omega arith, r)
    append rest r (c ∷ cs) h = (h.0, append rest r cs h.1)

first-joined :
    (n : List ℕ) (ns : List (List ℕ)) → IsName n → name_of name_separator (joined (n ∷ ns)) ≡ n
first-joined n [] h = name_of-whole name_separator n h.plain
first-joined n (m ∷ ns) h = name_of-front name_separator n (joined (m ∷ ns)) h.plain

-- A child is found at the start of a path exactly by its whole name.
compare-same :
    (n : List ℕ) (ns : List (List ℕ)) (c : List ℕ)
    → AreNames (n ∷ ns)
    → IsName c
    → compare_within name_separator max_name (joined (n ∷ ns)) c ≡ same_name n c
compare-same n ns c a h =
    let first = first-joined n ns a.0 in
    let short = a.0.short in
    let (to, from) =
      compare_within_lem name_separator (omega arith) max_name (joined (n ∷ ns)) c
        (joined-NoNul (n ∷ ns) a) h.no_nul (omega (arith, ap length first, short)) in
    let whole = name_of-whole name_separator c h.plain in
    let (eq, test) = same_name_iff n c in
    equal_tests (compare_within name_separator max_name (joined (n ∷ ns)) c) (same_name n c)
      (λ e. test (sym first ∙ to e ∙ whole)) (λ e. from (first ∙ eq e ∙ sym whole))

child-name : (child : Node) → Named child → IsName (name_in child)
unfolding Named
child-name (node address kind name children) h = h.0

children-AllNamed : (at : Node) → Named at → AllNamed (children_of at)
unfolding Named
children-AllNamed (node address kind name children) h = h.1

find-same :
    (cs : Nodes) (n : List ℕ) (ns : List (List ℕ))
    → AreNames (n ∷ ns)
    → AllNamed cs
    → find_among cs (joined (n ∷ ns)) name_separator ≡ child_named cs n
unfolding find_among child_named Named
find-same nil n ns a h = refl
find-same (cons child rest) n ns a h =
    rw (compare-same n ns (name_in child) a (child-name child h.0), find-same rest n ns a h.1) refl

found-Named :
    (cs : Nodes) (n : List ℕ) (child : Node)
    → AllNamed cs
    → child_named cs n ≡ some child
    → Named child
unfolding child_named Named
found-Named nil n child h e = absurd (ground (arith, e))
found-Named (cons first rest) n child h e = elim (Bool-cases (same_name n (name_in first))) [
  | inl f ↦ let same : some first ≡ some child = rw f at e in some_Named same h.0
  | inr f ↦ found-Named rest n child h.1 (rw f at e)
]
  where
    some_Named : {x y : Node} → some x ≡ some y → Named x → Named y
    some_Named {x} e h = subst Holds e h
      where
        Holds : Option Node → Type 0
        Holds none = Unit
        Holds (some z) = Named z

traverse-joined :
    (ns : List (List ℕ)) (n : List ℕ) (at : Node) (fuel c : ℕ) (cs : List ℕ)
    → AreNames (n ∷ ns)
    → Named at
    → length (n ∷ ns) ≤ fuel
    → past_deliminator (c ∷ cs) name_separator ≡ joined (n ∷ ns)
    → node_traverse fuel at (some (c ∷ cs)) name_separator ≡ lookup at (n ∷ ns)
unfolding node_traverse node_find lookup
traverse-joined ns n at zero c cs a h k e = elim k [ ]
traverse-joined [] n at (suc fuel) c cs a h k e =
    let same = find-same (children_of at) n [] a (children-AllNamed at h) in
    elim (Option-cases (child_named (children_of at) n)) [
      | inl f ↦ rw (e, same, f, node_traverse, lookup) refl
      | inr (child, f) ↦ rw (e, same, f, e, strchr-none n a.0.plain, node_traverse, lookup) refl
    ]
traverse-joined (m ∷ ms) n at (suc fuel) c cs a h k e =
    let all = children-AllNamed at h in
    let same = find-same (children_of at) n (m ∷ ms) a all in
    elim (Option-cases (child_named (children_of at) n)) [
      | inl f ↦ rw (e, same, f, node_traverse, lookup) refl
      | inr (child, f) ↦
          rw (e, same, f, e, strchr-front n (joined (m ∷ ms)) a.0.plain, node_traverse, lookup)
            (traverse-joined ms m child fuel name_separator (joined (m ∷ ms)) a.1
              (found-Named (children_of at) n child all f) (omega (arith, k)) (ground arith))
    ]

-- In a tree of proper names, node_traverse ends within a round for each name of the path, and finds the
-- node that its names, joined by '/' with or without a '/' in front, lead to, or that there is none.
pub node_traverse_lem :
    (n : List ℕ) (ns : List (List ℕ)) (at : Node)
    → AreNames (n ∷ ns)
    → Named at
    → (node_traverse (length (n ∷ ns)) at (some (joined (n ∷ ns))) name_separator
        ≡ lookup at (n ∷ ns))
      × (node_traverse (length (n ∷ ns)) at (some (name_separator ∷ joined (n ∷ ns))) name_separator
          ≡ lookup at (n ∷ ns))
node_traverse_lem [] ns at a h = absurd (omega (arith, a.0.some_character))
node_traverse_lem (c ∷ cs) ns at a h = (
  starts ns a,
  traverse-joined ns (c ∷ cs) at (length ((c ∷ cs) ∷ ns)) name_separator (joined ((c ∷ cs) ∷ ns)) a
      h (omega arith) (ground arith),
)
  where
    starts :
        (ns : List (List ℕ))
        → AreNames ((c ∷ cs) ∷ ns)
        → node_traverse (length ((c ∷ cs) ∷ ns)) at (some (joined ((c ∷ cs) ∷ ns))) name_separator
          ≡ lookup at ((c ∷ cs) ∷ ns)
    starts [] a =
        let plain = a.0.plain.0 in
        traverse-joined [] (c ∷ cs) at 1 c cs a h (omega arith) (ground (arith, plain))
    starts (m ∷ ms) a =
        let plain = a.0.plain.0 in
        traverse-joined (m ∷ ms) (c ∷ cs) at (length ((c ∷ cs) ∷ m ∷ ms)) c
          (cs ++ name_separator ∷ joined (m ∷ ms)) a h (omega arith) (ground (arith, plain))
