-- ===== src/Pml/Free.antt =====
-- pml_free of src/kernel/pml.c: a tree of tables is given back.
pub mod Invariant
pub mod Children
pub mod Once
use asym.Base.{
  ℕ, zero, suc, ◌+◌, ◌≤◌, ◌<◌, ◌≡◌, ◌≢◌, ◌⊎◌, refl, sym, ap, ◌∙◌, arith, Bool, true, false, not,
  ◌||◌, List, ◌==◌, if◌then◌else◌, Bool-cases, inl, inr, subst,
}
use asym.Base.Maps.{update, update_self, update_ne}
use asym.Pmm.{pmm_free, ◌>>=◌}
use asym.Pmm.Stack.Lifo.{NotIn}
use asym.Pmm.Supply.{Supply, IsPage, Given, pmm_free-Supply}
use asym.Pmm.Bitmap.{Outcome, done}
use asym.Pml.{Paging, entry_address, is_present, is_owned, page_entry_amount}
use asym.Pml.Shape.{Places, At, Shaped}
use asym.Pml.Unmap.{dropped}

abbrev pub free_table : Paging → ℕ → Outcome Paging
free_table s table = do pmm ← pmm_free s.pmm table; done (record s { pmm = pmm })

-- one round of the loop, with the recursive call `deeper`
abbrev pub free_child : (Paging → ℕ → Outcome Paging) → ℕ → Paging → ℕ → Outcome Paging
free_child deeper level s entry =
    if not (is_present entry)
    then done s
    else if not (level == 1) || is_owned entry
    then deeper s (entry_address entry)
    else done s

-- the loop at round `i`, with `n` rounds left
unfoldable pub free_entries :
    (Paging → ℕ → Outcome Paging) → ℕ → ℕ → ℕ → Paging → ℕ → Outcome Paging
free_entries deeper level zero i s table = done s
free_entries deeper level (suc n) i s table = do
  s ← free_child deeper level s (s.entries table i)
  free_entries deeper level n (i + 1) s table

-- The first argument is the level and one more: it is 0 for a negative level.
unfoldable pub pml_free_level : ℕ → Paging → ℕ → Outcome Paging
pml_free_level zero s table = done s
pml_free_level (suc level) s table = do
  s ← free_entries (pml_free_level level) level page_entry_amount 0 s table
  free_table s table

unfoldable pub pml_free : Paging → ℕ → Outcome Paging
pml_free s table = pml_free_level 5 s table
