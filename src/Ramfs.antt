-- ===== src/Ramfs.antt =====
-- src/kernel/ramfs.c: the file system in memory, over the tree of nodes.
pub mod Bounds
pub mod Children
mod Tests
use asym.Base.{
  ℕ, zero, suc, ◌+◌, ◌-◌, ◌%◌, ◌^◌, ◌≤◌, ◌<◌, min, Bool, List, [], ◌∷◌, ◌++◌, Option, none, some,
  length, ltb, leb, ◌==◌, if◌then◌else◌, add64, sub64, word,
}
use asym.Base.Errors.{Errno, epath, eisdir, enotdir}
use asym.Str.Memory.{Memory}
use asym.Str.Copy.{memcpy}
use asym.Vfs.Names.{name_separator}
use asym.Node.{
  Node, Nodes, nil, cons, kind_of, name_in, children_of, Found, found, missing, running,
  node_traverse,
}

-- RAMFS_FILE and RAMFS_DIR, and SYSFS_RESOURCE, which ramfs_listdir tests for
abbrev pub ramfs_file : ℕ
ramfs_file = 0

abbrev pub ramfs_dir : ℕ
ramfs_dir = 1

abbrev pub sysfs_resource : ℕ
sysfs_resource = 0

-- The fields `data` and `size` of `ram_file_t`, and the position of the open file.
pub record RamFile : Type 0 where
  pub data_at : ℕ
  pub size : ℕ
  pub pos : ℕ

unfoldable pub read_count : RamFile → ℕ → ℕ
read_count f count = if leb f.pos f.size then min count (f.size - f.pos) else 0

-- the count, the memory and the file after the call
unfoldable pub ramfs_read : Memory → RamFile → ℕ → ℕ → ℕ × Memory × RamFile
ramfs_read m f buffer count = (
  read_count f count,
  (memcpy m buffer (f.data_at + f.pos) (read_count f count)).0,
  record f { pos = add64 f.pos (read_count f count) },
)

-- SEEK_SET, SEEK_CUR and SEEK_END; the offset is an `int64_t` as a 64-bit word
unfoldable pub seek_position : RamFile → ℕ → ℕ → ℕ
seek_position f offset origin =
    if origin == 0
    then offset
    else if origin == 1
    then add64 f.pos offset
    else if origin == 2
    then sub64 f.size offset
    else 0

unfoldable pub ramfs_seek : RamFile → ℕ → ℕ → ℕ × RamFile
ramfs_seek f offset origin =
    (seek_position f offset origin, record f { pos = min (seek_position f offset origin) f.size })

-- What ramfs_open returns: the node whose file is opened, or NULL and `errno`.
pub data Opened : Type 0 where
  opened : Node → Opened
  refused : Errno → Opened
  still_running : Opened

abbrev pub open_found : Found → Opened
open_found (found n) = if kind_of n == ramfs_dir then refused eisdir else opened n
open_found missing = refused epath
open_found running = still_running

unfoldable pub ramfs_open : ℕ → Node → List ℕ → Opened
ramfs_open fuel root path = open_found (node_traverse fuel root (some path) name_separator)

-- STAT_FILE, STAT_DIR and STAT_RES
abbrev pub stat_file : ℕ
stat_file = 0

abbrev pub stat_dir : ℕ
stat_dir = 1

abbrev pub stat_res : ℕ
stat_res = 2

-- `dir_entry_t`
pub record DirEntry : Type 0 where
  pub name : List ℕ
  pub kind : ℕ

-- `entries` as far as it is filled, which `index` counts, and `total`
pub record Listing : Type 0 where
  pub entries : List DirEntry
  pub total : ℕ

-- dir_entry_push of vfs.h
unfoldable pub dir_entry_push : ℕ → Listing → DirEntry → Listing
dir_entry_push amount l entry = record {
  entries = if ltb (length l.entries) amount then l.entries ++ entry ∷ [] else l.entries;
  total = l.total + 1;
}

abbrev pub entry_of : Node → DirEntry
entry_of child = record {
  name = name_in child;
  kind = if kind_of child == sysfs_resource then stat_res else stat_dir;
}

-- the loop over the children
unfoldable pub list_children : ℕ → Listing → Nodes → Listing
list_children amount l nil = l
list_children amount l (cons child rest) =
    list_children amount (dir_entry_push amount l (entry_of child)) rest

pub data Listed : Type 0 where
  listed : Listing → Listed
  failed : Errno → Listed
  not_over : Listed

abbrev pub list_found : ℕ → Found → Listed
list_found amount (found n) =
    if kind_of n == sysfs_resource
    then failed enotdir
    else listed (list_children amount (record { entries = []; total = 0 }) (children_of n))
list_found amount missing = failed epath
list_found amount running = not_over

unfoldable pub ramfs_listdir : ℕ → Node → List ℕ → ℕ → Listed
ramfs_listdir fuel root path amount =
    list_found amount (node_traverse fuel root (some path) name_separator)

-- ramfs_stat: the type it reports
abbrev pub stat_found : Found → Option (Option ℕ)
stat_found (found n) = some (some (if kind_of n == ramfs_file then stat_file else stat_dir))
stat_found missing = some none
stat_found running = none

unfoldable pub ramfs_stat : ℕ → Node → List ℕ → Option (Option ℕ)
ramfs_stat fuel root path = stat_found (node_traverse fuel root (some path) name_separator)
