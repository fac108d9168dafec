-- ===== src/Ring/Invariant.antt =====
-- What every operation of src/kernel/ring.h keeps of a ring.
use asym.Base.{ℕ, ◌+◌, ◌%◌, ◌≤◌, ◌<◌, ◌≡◌, arith}
use asym.Str.Memory.{Memory}
use asym.Ring.{Ring, ring_size, ring_init, ring_free_length, ring_write, ring_read}

pub record IsValid (r : Ring) : Type 0 where
  pub read_in : r.read_index < ring_size
  pub length_in : r.data_length ≤ ring_size
  pub write_at : r.write_index ≡ (r.read_index + r.data_length) % ring_size

pub ring_init-IsValid : (page : ℕ) → IsValid (ring_init page)
unfolding ring_init
ring_init-IsValid page = omega arith

-- The free length does not wrap: with the data length it makes up the size.
pub free_length-add : (r : Ring) → IsValid r → ring_free_length r + r.data_length ≡ ring_size
free_length-add r v = omega arith

pub ring_write-IsValid :
    (m : Memory) (r : Ring) (source count : ℕ) → IsValid r → IsValid (ring_write m r source count).1
unfolding ring_write
ring_write-IsValid m r source count v = ground arith

pub ring_read-IsValid :
    (m : Memory) (r : Ring) (dest count : ℕ) → IsValid r → IsValid (ring_read m r dest count).1
unfolding ring_read
ring_read-IsValid m r dest count v = ground arith
