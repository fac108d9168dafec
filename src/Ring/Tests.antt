-- ===== src/Ring/Tests.antt =====
-- The theorems on src/kernel/ring.h at a ring that goes round.
use asym.Base.{◌≡◌, ◌++◌, ◌%◌, refl, some, arith, inr}
use asym.Str.Memory.{Memory, IsBytes}
use asym.Ring.{Ring, ring_write, ring_read}
use asym.Ring.Bytes.{bytes}
use asym.Ring.Contents.{contents}
use asym.Ring.Invariant.{IsValid, ring_write-IsValid, ring_read-IsValid}
use asym.Ring.Write.{ring_write-appends}
use asym.Ring.Read.{ring_read-takes}

abbrev counting : Memory
counting a = a % 256

counting-IsBytes : IsBytes counting
counting-IsBytes = record { byte = λ a. omega arith }

-- 30 bytes from index 80 on
abbrev wrapped : Ring
wrapped = record { buffer = 4096; read_index = 80; write_index = 10; data_length = 30 }

wrapped-IsValid : IsValid wrapped
wrapped-IsValid = record { read_in = omega arith; length_in = omega arith; write_at = refl }

ring_write-appends_example :
    let (m, r, result) = ring_write counting wrapped 9000 45 in
    (result ≡ some 45) × (contents m r ≡ contents counting wrapped ++ bytes counting 9000 45)
ring_write-appends_example =
    ring_write-appends counting wrapped 9000 45 wrapped-IsValid counting-IsBytes (inr (omega arith))
      (omega arith)

ring_read-takes_example :
    let (m, r, result) = ring_read counting wrapped 9000 25 in
    (result ≡ some 25) × (contents counting wrapped ≡ bytes m 9000 25 ++ contents m r)
ring_read-takes_example =
    ring_read-takes counting wrapped 9000 25 wrapped-IsValid counting-IsBytes (inr (omega arith))
      (omega arith)

ring_write-IsValid_example : IsValid (ring_write counting wrapped 9000 45).1
ring_write-IsValid_example = ring_write-IsValid counting wrapped 9000 45 wrapped-IsValid

ring_read-IsValid_example : IsValid (ring_read counting wrapped 9000 25).1
ring_read-IsValid_example = ring_read-IsValid counting wrapped 9000 25 wrapped-IsValid
