-- ===== src/Ring.antt =====
-- src/kernel/ring.h: the byte ring of a pipe, over a buffer in memory.
pub mod Bytes
pub mod Invariant
pub mod Contents
pub mod Write
pub mod Read
mod Tests
use asym.Base.{ℕ, ◌+◌, ◌-◌, ◌%◌, Option, none, some, ltb, if◌then◌else◌, add64, sub64}
use asym.Str.Memory.{Memory}
use asym.Str.Copy.{memcpy}

abbrev pub ring_size : ℕ
ring_size = 100

pub record Ring : Type 0 where
  pub buffer : ℕ
  pub read_index : ℕ
  pub write_index : ℕ
  pub data_length : ℕ

-- `page` is the page that `pmm_alloc` returned.
unfoldable pub ring_init : ℕ → Ring
ring_init page = record { buffer = page; read_index = 0; write_index = 0; data_length = 0 }

abbrev pub ring_data_length : Ring → ℕ
ring_data_length r = r.data_length

abbrev pub ring_free_length : Ring → ℕ
ring_free_length r = sub64 ring_size r.data_length

-- The new memory and ring, and `count`, or `none` for ERR.
unfoldable pub ring_write : Memory → Ring → ℕ → ℕ → Memory × Ring × Option ℕ
ring_write m r source count =
    if ltb (ring_free_length r) count then (m, r, none) else (filled, moved, some count)
  where
    upper : ℕ
    upper = sub64 ring_size r.write_index

    filled : Memory
    filled =
        if ltb count upper
        then (memcpy m (r.buffer + r.write_index) source count).0
        else (memcpy (memcpy m (r.buffer + r.write_index) source upper).0 r.buffer (source + upper)
            (count - upper)).0

    moved : Ring
    moved = record r {
      write_index = add64 r.write_index count % ring_size;
      data_length = add64 r.data_length count;
    }

unfoldable pub ring_read : Memory → Ring → ℕ → ℕ → Memory × Ring × Option ℕ
ring_read m r dest count =
    if ltb (ring_data_length r) count then (m, r, none) else (emptied, moved, some count)
  where
    upper : ℕ
    upper = sub64 ring_size r.read_index

    emptied : Memory
    emptied =
        if ltb count upper
        then (memcpy m dest (r.buffer + r.read_index) count).0
        else (memcpy (memcpy m dest (r.buffer + r.read_index) upper).0 (dest + upper) r.buffer
            (count - upper)).0

    moved : Ring
    moved = record r {
      read_index = add64 r.read_index count % ring_size;
      data_length = sub64 r.data_length count;
    }
