-- ===== src/Links/Path.antt =====
-- Paths through the entries of include/stdlib/sys/list.h, and what a write leaves of them.
use asym.Base.{ℕ, ◌≡◌, ◌≢◌, ◌⊎◌, refl, sym, subst, ◌∙◌, List, [], ◌∷◌, ◌++◌, inl, inr}
use asym.Links.{Links}

abbrev pub In : ℕ → List ℕ → Type 0
In x [] = ⊥
In x (a ∷ bs) = (x ≡ a) ⊎ In x bs

abbrev pub Distinct : List ℕ → Type 0
Distinct [] = Unit
Distinct (a ∷ bs) = (In a bs → ⊥) × Distinct bs

abbrev pub Joined : Links → ℕ → ℕ → Type 0
Joined m a b = (m.next a ≡ b) × (m.prev b ≡ a)

-- From `a` through the entries of the list, in both directions.
abbrev pub Along : Links → ℕ → List ℕ → Type 0
Along m a [] = Unit
Along m a (x ∷ xs) = Joined m a x × Along m x xs

abbrev pub last_of : ℕ → List ℕ → ℕ
last_of a [] = a
last_of a (x ∷ xs) = last_of x xs

-- the entries that a path leaves
abbrev pub Left : ℕ → ℕ → List ℕ → Type 0
Left x a [] = ⊥
Left x a (y ∷ ys) = (x ≡ a) ⊎ Left x y ys

-- A path keeps where `next` of what it leaves and `prev` of what it enters are kept.
pub Along-frame :
    (m k : Links) (a : ℕ) (xs : List ℕ)
    → ((x : ℕ) → Left x a xs → k.next x ≡ m.next x)
    → ((x : ℕ) → In x xs → k.prev x ≡ m.prev x)
    → Along m a xs
    → Along k a xs
Along-frame m k a [] f g p = tt
Along-frame m k a (x ∷ xs) f g p = (
  (f a (inl refl) ∙ p.0.0, g x (inl refl) ∙ p.0.1),
  Along-frame m k x xs (λ y l. f y (inr l)) (λ y i. g y (inr i)) p.1,
)

pub Along-split :
    (m : Links) (a : ℕ) (xs : List ℕ) (b : ℕ) (ys : List ℕ)
    → Along m a (xs ++ b ∷ ys)
    → Along m a xs × Joined m (last_of a xs) b × Along m b ys
Along-split m a [] b ys p = (tt, p.0, p.1)
Along-split m a (x ∷ xs) b ys p = let (q, j, r) = Along-split m x xs b ys p.1 in ((p.0, q), j, r)

pub Along-join :
    (m : Links) (a : ℕ) (xs : List ℕ) (b : ℕ) (ys : List ℕ)
    → Along m a xs
    → Joined m (last_of a xs) b
    → Along m b ys
    → Along m a (xs ++ b ∷ ys)
Along-join m a [] b ys p j r = (j, r)
Along-join m a (x ∷ xs) b ys p j r = (p.0, Along-join m x xs b ys p.1 j r)

pub Left-In : (x a : ℕ) (xs : List ℕ) → Left x a xs → In x (a ∷ xs)
Left-In x a [] l = elim l [ ]
Left-In x a (y ∷ ys) l = elim l [ inl e ↦ inl e | inr r ↦ inr (Left-In x y ys r) ]

pub last-In : (a : ℕ) (xs : List ℕ) → In (last_of a xs) (a ∷ xs)
last-In a [] = inl refl
last-In a (x ∷ xs) = inr (last-In x xs)

-- Where all entries differ, the last is not left.
pub Left-last : (x a : ℕ) (xs : List ℕ) → Distinct (a ∷ xs) → Left x a xs → x ≢ last_of a xs
Left-last x a [] d l = elim l [ ]
Left-last x a (y ∷ ys) d l = elim l [
  | inl e ↦ λ q. d.0 (subst (λ z. In z (y ∷ ys)) (sym q ∙ e) (last-In y ys))
  | inr r ↦ Left-last x y ys d.1 r
]

-- What a path leaves that ends in `h`.
pub Left-front : (x a h : ℕ) (xs : List ℕ) → Left x a (xs ++ h ∷ []) → In x (a ∷ xs)
Left-front x a h [] l = l
Left-front x a h (y ∷ ys) l = elim l [ inl e ↦ inl e | inr r ↦ inr (Left-front x y h ys r) ]

pub In-left : (x : ℕ) (xs ys : List ℕ) → In x xs → In x (xs ++ ys)
In-left x [] ys i = elim i [ ]
In-left x (a ∷ xs) ys i = elim i [ inl e ↦ inl e | inr r ↦ inr (In-left x xs ys r) ]

pub In-right : (x : ℕ) (xs ys : List ℕ) → In x ys → In x (xs ++ ys)
In-right x [] ys i = i
In-right x (a ∷ xs) ys i = inr (In-right x xs ys i)

pub In-append : (x : ℕ) (xs ys : List ℕ) → In x (xs ++ ys) → In x xs ⊎ In x ys
In-append x [] ys i = inr i
In-append x (a ∷ xs) ys i = elim i [
  | inl e ↦ inl (inl e)
  | inr r ↦ elim (In-append x xs ys r) [ inl l ↦ inl (inr l) | inr l ↦ inr l ]
]

pub Distinct-left : (xs ys : List ℕ) → Distinct (xs ++ ys) → Distinct xs
Distinct-left [] ys d = tt
Distinct-left (a ∷ xs) ys d = (λ i. d.0 (In-left a xs ys i), Distinct-left xs ys d.1)

pub Distinct-right : (xs ys : List ℕ) → Distinct (xs ++ ys) → Distinct ys
Distinct-right [] ys d = d
Distinct-right (a ∷ xs) ys d = Distinct-right xs ys d.1

pub Distinct-apart : (x : ℕ) (xs ys : List ℕ) → Distinct (xs ++ ys) → In x xs → In x ys → ⊥
Distinct-apart x [] ys d i j = i
Distinct-apart x (a ∷ xs) ys d i j = elim i [
  | inl e ↦ d.0 (In-right a xs ys (subst (λ z. In z ys) e j))
  | inr r ↦ Distinct-apart x xs ys d.1 r j
]

pub Distinct-insert :
    (e : ℕ) (xs ys : List ℕ) → (In e (xs ++ ys) → ⊥) → Distinct (xs ++ ys) → Distinct (xs ++ e ∷ ys)
Distinct-insert e [] ys n d = (n, d)
Distinct-insert e (a ∷ xs) ys n d = (
  λ i. elim (In-append a xs (e ∷ ys) i) [
    | inl l ↦ d.0 (In-left a xs ys l)
    | inr r ↦ elim r [ inl q ↦ n (inl (sym q)) | inr j ↦ d.0 (In-right a xs ys j) ]
  ],
  Distinct-insert e xs ys (λ i. n (inr i)) d.1,
)

pub Distinct-drop : (e : ℕ) (xs ys : List ℕ) → Distinct (xs ++ e ∷ ys) → Distinct (xs ++ ys)
Distinct-drop e [] ys d = d.1
Distinct-drop e (a ∷ xs) ys d = (
  λ i. elim (In-append a xs ys i) [
    | inl l ↦ d.0 (In-left a xs (e ∷ ys) l)
    | inr r ↦ d.0 (In-right a xs (e ∷ ys) (inr r))
  ],
  Distinct-drop e xs ys d.1,
)
