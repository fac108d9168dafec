-- ===== src/Pml/Sample.antt =====
-- A small machine for the tests: ten free pages and an empty root table.
use asym.Base.{
  ℕ, ◌+◌, ◌*◌, ◌≡◌, ◌≢◌, refl, arith, Bool, true, not, ◌&&◌, none, some, List, [], ◌∷◌, ◌==◌, leb,
  ltb, ◌%◌, word,
}
use asym.Base.Maps.{update}
use asym.Pmm.{Pmm}
use asym.Pmm.Bitmap.{page_bitmap_init, page_size, higher_half}
use asym.Pmm.Stack.Lifo.{NotIn, Distinct, held}
use asym.Pmm.Supply.{EachPage, Supply}
use asym.Pml.{Paging}
unfoldable use asym.Pml.{is_present}
use asym.Pml.Shape.{Places, Shaped}

abbrev base : ℕ
base = 0xFFFF800010000000

abbrev pub root : ℕ
root = 0xFFFF800020000000

abbrev pub pmm : Pmm
pmm = record {
  stack = record {
    last = some base;
    index = 9;
    buffers = λ b. record { prev = none; pages = λ i. base + (i + 1) * page_size };
    free_page_amount = 10;
  };
  bitmap = page_bitmap_init 0;
  page_amount = 10;
  free_page_amount = 10;
}

abbrev pub empty_tables : Paging
empty_tables = record { entries = λ t i. 0; pmm = pmm; invalidated = [] }

abbrev pub free_pages : List ℕ
free_pages = held (pmm.stack) (base ∷ [])

abbrev pub only_root : Places
only_root = record { rank = update (λ x. 0) root 5; parent = λ x. 0; slot = λ x. 0 }

not_in : ℕ → List ℕ → Bool
not_in x [] = true
not_in x (a ∷ xs) = not (a == x) && not_in x xs

not_in-NotIn : (x : ℕ) (xs : List ℕ) → not_in x xs ≡ true → NotIn x xs
unfolding not_in
not_in-NotIn x [] h = tt
not_in-NotIn x (a ∷ xs) h = (ground (arith, h), not_in-NotIn x xs (ground (arith, h)))

differ : List ℕ → Bool
differ [] = true
differ (a ∷ xs) = not_in a xs && differ xs

differ-Distinct : (xs : List ℕ) → differ xs ≡ true → Distinct xs
unfolding differ
differ-Distinct [] h = tt
differ-Distinct (a ∷ xs) h =
    (not_in-NotIn a xs (ground (arith, h)), differ-Distinct xs (ground (arith, h)))

are_pages : List ℕ → Bool
are_pages [] = true
are_pages (a ∷ xs) = (a % page_size == 0) && leb higher_half a && ltb a word && are_pages xs

are_pages-EachPage : (xs : List ℕ) → are_pages xs ≡ true → EachPage xs
unfolding are_pages
are_pages-EachPage [] h = tt
are_pages-EachPage (a ∷ xs) h = (
  record { aligned = ground (arith, h); high = ground (arith, h); fits = ground (arith, h) },
  are_pages-EachPage xs (ground (arith, h)),
)

supply : Supply pmm free_pages
unfolding differ not_in are_pages
supply = record {
  chain = base ∷ [];
  valid = record { linked = (refl, refl); distinct = (tt, tt); index_in = omega arith };
  holds = refl;
  distinct = differ-Distinct free_pages refl;
  each_page = are_pages-EachPage free_pages refl;
}

is_root : (x : ℕ) → only_root.rank x ≢ 0 → x ≡ root
is_root x h = ground (arith, h)

pub empty_tables-Shaped : Shaped empty_tables root free_pages only_root
unfolding is_present not_in
empty_tables-Shaped = record {
  supply = supply;
  root_rank = refl;
  child = λ t i r h k present owned. absurd (ground (arith, present));
  used = λ x h. rw (is_root x h) (not_in-NotIn root free_pages refl);
  pages =
      λ x h. rw (is_root x h) (record { aligned = refl; high = omega arith; fits = omega arith });
}
