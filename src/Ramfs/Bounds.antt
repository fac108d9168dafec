-- ===== src/Ramfs/Bounds.antt =====
-- ramfs_read and ramfs_seek of src/kernel/ramfs.c stay within the file.
use asym.Base.{
  ℕ, ◌+◌, ◌-◌, ◌≤◌, ◌<◌, ◌≡◌, ◌⊎◌, refl, ap, ◌∙◌, arith, true, min, leb, if◌then◌else◌, word, inl,
  inr, add64,
}
use asym.Str.Memory.{Memory, IsBytes, copied}
use asym.Str.Copy.{memcpy}
use asym.Str.Copy.Memcpy.{memcpy_lem, Upward}
use asym.Ramfs.{RamFile, seek_position}
unfoldable use asym.Ramfs.{read_count, ramfs_read, ramfs_seek}

-- Wherever a seek goes, the position stays within the file, also where the sum or the difference wraps
-- around; a read from there delivers as many bytes as are asked for and left, those that stand at the
-- position, changes nothing else, and leaves a position within the file again.
pub ramfs_read-seek :
    (m : Memory) (f : RamFile) (offset origin buffer count : ℕ)
    → IsBytes m
    → f.size < word
    → (buffer ≤ f.data_at) ⊎ (f.data_at + f.size ≤ buffer)
    → let p = seek_position f offset origin in
      let at = min p f.size in
      let n = min count (f.size - at) in
      let (position, g) = ramfs_seek f offset origin in
      let (delivered, m', h) = ramfs_read m g buffer count in
      (position ≡ p)
      × (delivered ≡ n)
      × (m' ≡ copied m buffer (f.data_at + at) n)
      × (h.pos ≡ at + n)
      × (h.pos ≤ f.size)
unfolding ramfs_seek ramfs_read read_count
ramfs_read-seek m f offset origin buffer count bytes fits apart =
    let at = min (seek_position f offset origin) f.size in
    let n = min count (f.size - at) in
    let within : leb at f.size ≡ true = ground arith in
    let up : Upward buffer (f.data_at + at) n = elim apart [
      | inl l ↦ inl (omega (arith, l))
      | inr r ↦ inr (omega (arith, r))
    ] in
    let counted : (if leb at f.size then n else 0) ≡ n = rw within in
    (
      refl,
      counted,
      ap (λ k. (memcpy m buffer (f.data_at + at) k).0) counted
          ∙ ap (λ (r : Memory × ℕ). r.0) (memcpy_lem m buffer (f.data_at + at) n bytes up),
      ap (add64 at) counted ∙ omega (arith, fits),
      omega (arith, counted, fits),
    )
