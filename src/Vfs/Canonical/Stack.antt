-- ===== src/Vfs/Canonical/Stack.antt =====
-- One round of vfs_make_canonical of src/kernel/vfs.c against a stack of names.
use asym.Base.{
  ℕ, zero, suc, ◌+◌, ◌<◌, ◌≡◌, refl, ap, ◌∙◌, Bool, true, false, ◌&&◌, List, [], ◌∷◌, ◌++◌, Option,
  none, some, arith, ◌==◌, ltb, if◌then◌else◌, subst, length,
}
use asym.Str.Strings.{tail_of}
use asym.Vfs.Names.{
  name_separator, label_separator, max_path, name_compare, compare_within, is_empty,
}
use asym.Vfs.Names.Compare.{Without, NoNul}
use asym.Vfs.Canonical.{valid_char, dot, dot_dot, put_name, back_to_separator, put_round, closed}

-- `reversed xs rest` is `xs` turned round in front of `rest`.
abbrev pub reversed : List ℕ → List ℕ → List ℕ
reversed [] rest = rest
reversed (x ∷ xs) rest = reversed xs (x ∷ rest)

-- The buffer that holds a stack of names, the top first: ':' and '/', then each name with a '/'.
abbrev pub buffer : List (List ℕ) → List ℕ
buffer [] = name_separator ∷ label_separator ∷ []
buffer (n ∷ ns) = name_separator ∷ reversed n (buffer ns)

-- a name of the path: proper characters alone, and neither '/' nor NUL among them
abbrev pub all_valid : List ℕ → Bool
all_valid [] = true
all_valid (c ∷ cs) = valid_char c && all_valid cs

abbrev pub same_name : List ℕ → List ℕ → Bool
same_name [] [] = true
same_name [] (d ∷ ds) = false
same_name (c ∷ cs) [] = false
same_name (c ∷ cs) (d ∷ ds) = c == d && same_name cs ds

-- `size` characters and those of the name end more than one place before MAX_PATH from `start` on.
abbrev pub fits : ℕ → List ℕ → Bool
fits size [] = true
fits size (c ∷ cs) = ltb (size + length cs) 255

-- One name on the stack: "." changes nothing, ".." takes the top away, another name is put on it.
unfoldable pub resolve_one : List (List ℕ) → List ℕ → Option (List (List ℕ))
resolve_one stack n =
    if same_name n dot
    then some stack
    else if same_name n dot_dot
    then elim stack [ [] ↦ none | m ∷ ms ↦ some ms ]
    else if all_valid n && fits (length (buffer stack)) n
    then some (n ∷ stack)
    else none

-- what follows a name in a path: nothing, or a '/' and the rest
abbrev pub after : Option (List ℕ) → List ℕ
after none = []
after (some rest) = name_separator ∷ rest

put_name_lem :
    (out n : List ℕ) (e : Option (List ℕ))
    → Without name_separator n
    → put_name out (n ++ after e)
      ≡ (if all_valid n && fits (length out) n then some (reversed n out) else none)
unfolding put_name
put_name_lem out [] none w = refl
put_name_lem out [] (some rest) w = refl
put_name_lem out (c ∷ []) e w = ground (arith, put_name_lem (c ∷ out) [] e w.1)
put_name_lem out (c ∷ d ∷ ds) e w = ground (arith, put_name_lem (c ∷ out) (d ∷ ds) e w.1)

back-reversed :
    (n out : List ℕ)
    → Without name_separator n
    → is_empty out ≡ false
    → back_to_separator (reversed n out) ≡ back_to_separator out
back-reversed [] out w some_left = refl
back-reversed (c ∷ cs) out w some_left = back-reversed cs (c ∷ out) w.1 refl ∙ passed
  where
    passed : back_to_separator (c ∷ out) ≡ back_to_separator out
    passed = unfold back_to_separator in ground (arith, w.0, some_left)

pub compare_within-same :
    (k : ℕ) (n b : List ℕ) (e : Option (List ℕ))
    → Without name_separator n
    → NoNul n
    → Without name_separator b
    → NoNul b
    → length b < k
    → compare_within name_separator k (n ++ after e) b ≡ same_name n b
unfolding compare_within
compare_within-same zero n b e wn nn wb nb h = absurd (omega arith)
compare_within-same (suc k) [] [] none wn nn wb nb h = refl
compare_within-same (suc k) [] [] (some rest) wn nn wb nb h = refl
compare_within-same (suc k) [] (d ∷ ds) none wn nn wb nb h = ground arith
compare_within-same (suc k) [] (d ∷ ds) (some rest) wn nn wb nb h = ground arith
compare_within-same (suc k) (c ∷ cs) [] e wn nn wb nb h = ground arith
compare_within-same (suc k) (c ∷ cs) (d ∷ ds) e wn nn wb nb h =
    ground (arith, compare_within-same k cs ds e wn.1 nn.1 wb.1 nb.1 (omega arith))

abbrev pub as_buffer : Option (List (List ℕ)) → Option (List ℕ)
as_buffer none = none
as_buffer (some stack) = some (buffer stack)

-- no name on the stack has a '/'
abbrev pub AllWithout : List (List ℕ) → Type 0
AllWithout [] = Unit
AllWithout (n ∷ ns) = Without name_separator n × AllWithout ns

back-buffer :
    (stack : List (List ℕ))
    → AllWithout stack
    → back_to_separator (tail_of (buffer stack))
      ≡ as_buffer (elim stack as (λ x. Option (List (List ℕ))) [ [] ↦ none | m ∷ ms ↦ some ms ])
back-buffer [] w = unfold back_to_separator in refl
back-buffer (n ∷ []) w = back-reversed n (buffer []) w.0 refl ∙ (unfold back_to_separator in refl)
back-buffer (n ∷ m ∷ ms) w =
    back-reversed n (buffer (m ∷ ms)) w.0 refl ∙ (unfold back_to_separator in refl)

-- One round does to the buffer what `resolve_one` does to the stack.
pub put_round_lem :
    (stack : List (List ℕ)) (n : List ℕ) (e : Option (List ℕ))
    → AllWithout stack
    → Without name_separator n
    → NoNul n
    → put_round (buffer stack) (n ++ after e) ≡ as_buffer (resolve_one stack n)
unfolding put_round name_compare resolve_one
put_round_lem stack n e ws w nn =
    rw
      (
        compare_within-same max_path n dot e w nn (omega arith) (omega arith) (omega arith),
        compare_within-same max_path n dot_dot e w nn (omega arith) (omega arith) (omega arith),
        put_name_lem (buffer stack) n e w,
        back-buffer stack ws,
      )
      (pushed (same_name n dot) (same_name n dot_dot)
        (all_valid n && fits (length (buffer stack)) n))
  where
    popped : Option (List (List ℕ))
    popped = elim stack [ [] ↦ none | m ∷ ms ↦ some ms ]

    pushed :
        (a b c : Bool)
        → (if a
            then some (buffer stack)
            else if b
            then as_buffer popped
            else closed (if c then some (reversed n (buffer stack)) else none))
          ≡ as_buffer
              (if a then some stack else if b then popped else if c then some (n ∷ stack) else none)
    pushed true b c = refl
    pushed false true c = refl
    pushed false false true = refl
    pushed false false false = refl

abbrev got : Option (List (List ℕ)) → List (List ℕ)
got none = []
got (some stack) = stack

pub resolve_one-AllWithout :
    (stack : List (List ℕ)) (n : List ℕ) (next : List (List ℕ))
    → AllWithout stack
    → Without name_separator n
    → resolve_one stack n ≡ some next
    → AllWithout next
unfolding resolve_one
resolve_one-AllWithout stack n next ws w e =
    kept (same_name n dot) (same_name n dot_dot) (all_valid n && fits (length (buffer stack)) n) e
  where
    popped : List (List ℕ) → Option (List (List ℕ))
    popped stack = elim stack [ [] ↦ none | m ∷ ms ↦ some ms ]

    popped-AllWithout : (s : List (List ℕ)) → AllWithout s → popped s ≡ some next → AllWithout next
    popped-AllWithout [] ws e = absurd (ground (arith, e))
    popped-AllWithout (m ∷ ms) ws e = subst AllWithout (ap got e) ws.1

    kept :
        (a b c : Bool)
        → (if a
            then some stack
            else if b
            then popped stack
            else if c
            then some (n ∷ stack)
            else none)
          ≡ some next
        → AllWithout next
    kept true b c e = subst AllWithout (ap got e) ws
    kept false true c e = popped-AllWithout stack ws e
    kept false false true e = subst AllWithout (ap got e) (w, ws)
    kept false false false e = absurd (ground (arith, e))
