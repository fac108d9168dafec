-- ===== src/Vfs/Volumes.antt =====
-- The list of mounted volumes in src/kernel/vfs.c. Each call holds `volumesLock`.
use asym.Base.{
  ℕ, zero, suc, ◌+◌, Bool, true, false, List, [], ◌∷◌, ◌++◌, Option, none, some, leb, ◌==◌, not,
  if◌then◌else◌, add64,
}
pub mod Labels
use asym.Base.Errors.{Errno, Result, value, error, passed_on, einval, eexist, epath, ebusy, eacces}
use asym.Str.Strings.{strlen}
use asym.Vfs.Names.{name_compare, label_compare, max_name}

-- `volume_t`, with its number for its address. `removable` says that `ops->unmount` is not NULL.
pub record Volume : Type 0 where
  pub id : ℕ
  pub label : List ℕ
  pub removable : Bool
  pub ref : ℕ

-- The search of `vfs_attach_simple` for a volume of that name.
unfoldable pub is_taken : List Volume → List ℕ → Bool
is_taken [] label = false
is_taken (v ∷ vs) label =
    let later = is_taken vs label in if name_compare v.label label then true else later

-- `id` is the volume that `malloc` gives.
unfoldable pub vfs_attach_simple : List Volume → ℕ → List ℕ → Bool → List Volume × Result
vfs_attach_simple volumes id label removable =
    if leb max_name (strlen label)
    then (volumes, error einval)
    else if is_taken volumes label
    then (volumes, error eexist)
    else (
      volumes ++ record { id = id; label = label; removable = removable; ref = 1 } ∷ [],
      value 0,
    )

-- What `vfs_unmount` does with the volume found: `unmounts` is whether its `ops->unmount` succeeds.
unfoldable pub unmount_found : Volume → List Volume → Bool → List Volume × Result
unmount_found v vs unmounts =
    if not (v.ref == 1)
    then (v ∷ vs, error ebusy)
    else if not v.removable
    then (v ∷ vs, error eacces)
    else if not unmounts
    then (v ∷ vs, passed_on)
    else (vs, value 0)

unfoldable pub vfs_unmount : List Volume → List ℕ → (ℕ → Bool) → List Volume × Result
vfs_unmount [] label unmounts = ([], error epath)
vfs_unmount (v ∷ vs) label unmounts =
    let (left, result) = vfs_unmount vs label unmounts in
    if name_compare v.label label then unmount_found v vs (unmounts v.id) else (v ∷ left, result)

-- The volume, with one reference more, or NULL.
unfoldable pub volume_get : List Volume → List ℕ → List Volume × Option ℕ
volume_get [] label = ([], none)
volume_get (v ∷ vs) label =
    let (left, found) = volume_get vs label in
    if label_compare v.label label
    then (record v { ref = add64 v.ref 1 } ∷ vs, some v.id)
    else (v ∷ left, found)
