-- ===== src/Links.antt =====
-- include/stdlib/sys/list.h: circular lists linked through entries in memory. An entry, and the head of
-- a list, is known by its address.
pub mod Path
pub mod Between
pub mod Refine
mod Tests
use asym.Base.{ℕ, Bool, Option, none, some, ◌==◌, if◌then◌else◌}
use asym.Base.Maps.{update}

-- the fields `prev` and `next` of all entries
pub record Links : Type 0 where
  pub prev : ℕ → ℕ
  pub next : ℕ → ℕ

abbrev pub with_prev : Links → ℕ → ℕ → Links
with_prev m entry x = record m { prev = update m.prev entry x }

abbrev pub with_next : Links → ℕ → ℕ → Links
with_next m entry x = record m { next = update m.next entry x }

unfoldable pub list_entry_init : Links → ℕ → Links
list_entry_init m entry = with_prev (with_next m entry entry) entry entry

unfoldable pub list_init : Links → ℕ → Links
list_init m list = list_entry_init m list

unfoldable pub list_empty : Links → ℕ → Bool
list_empty m list = m.next list == list

-- the four writes in their order
unfoldable pub list_add : Links → ℕ → ℕ → ℕ → Links
list_add m prev next elem =
    with_next (with_prev (with_next (with_prev m next elem) elem next) elem prev) prev elem

unfoldable pub list_append : Links → ℕ → ℕ → Links
list_append m prev elem = list_add m prev (m.next prev) elem

unfoldable pub list_prepend : Links → ℕ → ℕ → Links
list_prepend m head elem = list_add m (m.prev head) head elem

-- `entry->prev->next = entry->next`, and then `entry->next->prev = entry->prev` in what that leaves
abbrev pub bypass_next : Links → ℕ → Links
bypass_next m entry = with_next m (m.prev entry) (m.next entry)

abbrev pub bypass_prev : Links → ℕ → Links
bypass_prev m entry = with_prev m (m.next entry) (m.prev entry)

unfoldable pub list_remove : Links → ℕ → Links
list_remove m elem = list_entry_init (bypass_prev (bypass_next m elem) elem) elem

unfoldable pub list_push : Links → ℕ → ℕ → Links
list_push m list elem = list_add m (m.prev list) list elem

-- `none` is NULL.
unfoldable pub list_pop : Links → ℕ → Option ℕ × Links
list_pop m list =
    if list_empty m list then (none, m) else (some (m.next list), list_remove m (m.next list))

unfoldable pub list_first : Links → ℕ → Option ℕ
list_first m list = if list_empty m list then none else some (m.next list)
