-- ===== src/Pipe.antt =====
-- src/kernel/pipe.c: a byte stream between processes over src/kernel/ring.h. Each call does its work
-- under the pipe's lock: a call is one attempt, which either ends or blocks and is made again after
-- `sched_unblock`.
pub mod Attempts
pub mod Stream
pub mod Status
mod Tests
use asym.Base.{
  ℕ, ◌+◌, ◌*◌, ◌/◌, ◌%◌, min, Bool, true, false, not, ◌&&◌, ◌||◌, Option, none, some, ltb, leb,
  ◌==◌, if◌then◌else◌,
}
use asym.Base.Errors.{Errno, Result, value, error, einval, epipe}
use asym.Str.Memory.{Memory}
use asym.Ring.{
  Ring, ring_size, ring_init, ring_data_length, ring_free_length, ring_write, ring_read,
}

-- `pipe_private_t`; its blocker is named outside. `freed` says that `pipe_private_free` was called.
pub record Pipe : Type 0 where
  pub ring : Ring
  pub read_closed : Bool
  pub write_closed : Bool
  pub freed : Bool

-- The private part that `pipe_init` makes, with the page of the ring.
unfoldable pub pipe_init : ℕ → Pipe
pipe_init page = record {
  ring = ring_init page;
  read_closed = false;
  write_closed = false;
  freed = false;
}

-- How an attempt ends: it returns, with or without waking those that wait; it blocks; or an assertion
-- fails.
pub data Ending : Type 0 where
  returns : Bool → Result → Ending
  blocks panics : Ending

pub record Attempt : Type 0 where
  pub memory : Memory
  pub pipe : Pipe
  pub ending : Ending

-- `LOG_ASSERT(... != ERR)` on what the ring returned
abbrev pub asserted : Option ℕ → ℕ → Ending
asserted none count = panics
asserted (some n) count = returns true (value count)

unfoldable pub read_ring : Memory → Pipe → ℕ → ℕ → Attempt
read_ring m p dest count =
    let (m', r, result) = ring_read m p.ring dest count in
    record { memory = m'; pipe = record p { ring = r }; ending = asserted result count }

unfoldable pub pipe_read : Memory → Pipe → ℕ → ℕ → Attempt
pipe_read m p dest count =
    if leb ring_size count
    then record { memory = m; pipe = p; ending = returns false (error einval) }
    else if leb count (ring_data_length p.ring) || p.write_closed
    then read_ring m p dest (if p.write_closed then min count (ring_data_length p.ring) else count)
    else record { memory = m; pipe = p; ending = blocks }

unfoldable pub write_ring : Memory → Pipe → ℕ → ℕ → Attempt
write_ring m p source count =
    let (m', r, result) = ring_write m p.ring source count in
    record { memory = m'; pipe = record p { ring = r }; ending = asserted result count }

unfoldable pub pipe_write : Memory → Pipe → ℕ → ℕ → Attempt
pipe_write m p source count =
    if leb ring_size count
    then record { memory = m; pipe = p; ending = returns false (error einval) }
    else if leb count (ring_free_length p.ring) || p.read_closed
    then (if p.read_closed
        then record { memory = m; pipe = p; ending = returns true (error epipe) }
        else write_ring m p source count)
    else record { memory = m; pipe = p; ending = blocks }

unfoldable pub pipe_read_cleanup : Pipe → Pipe
pipe_read_cleanup p = record p {
  read_closed = true;
  freed = if p.write_closed then true else p.freed;
}

unfoldable pub pipe_write_cleanup : Pipe → Pipe
pipe_write_cleanup p = record p {
  write_closed = true;
  freed = if p.read_closed then true else p.freed;
}

-- POLL_READ and POLL_WRITE of include/stdlib/sys/io.h
abbrev pub poll_read : ℕ
poll_read = 1

abbrev pub poll_write : ℕ
poll_write = 2

-- a C condition as an int
abbrev pub int_of : Bool → ℕ
int_of true = 1
int_of false = 0

-- `&` on numbers of two bits
abbrev pub and2 : ℕ → ℕ → ℕ
and2 a b = a % 2 * (b % 2) + 2 * (a / 2 % 2 * (b / 2 % 2))

-- The event mask that the call leaves in `occurred`.
unfoldable pub pipe_read_status : Pipe → ℕ
pipe_read_status p = and2 poll_read (int_of (not (ring_data_length p.ring == 0) || p.write_closed))

unfoldable pub pipe_write_status : Pipe → ℕ
pipe_write_status p = and2 poll_write (int_of (not (ring_free_length p.ring == 0) || p.read_closed))
