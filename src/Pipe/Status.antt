-- ===== src/Pipe/Status.antt =====
-- What polling a pipe reports, in src/kernel/pipe.c.
use asym.Base.{◌≡◌, refl, Bool, true, false, ◌||◌, not, ◌==◌}
use asym.Ring.{ring_free_length, ring_data_length}
use asym.Pipe.{Pipe, pipe_read_status, pipe_write_status, and2, int_of, poll_read, poll_write}

-- `POLL_READ & condition` is POLL_READ exactly where a byte waits or the writer has closed.
pub pipe_read_status_lem :
    (p : Pipe) → pipe_read_status p ≡ int_of (not (ring_data_length p.ring == 0) || p.write_closed)
unfolding pipe_read_status
pipe_read_status_lem p = masked (not (ring_data_length p.ring == 0) || p.write_closed)
  where
    masked : (b : Bool) → and2 poll_read (int_of b) ≡ int_of b
    masked true = refl
    masked false = refl

-- `POLL_WRITE & condition` takes bit 1 of a number that is 0 or 1: a pipe never reports that it can
-- be written, whatever room it has.
pub pipe_write_status-never : (p : Pipe) → pipe_write_status p ≡ 0
unfolding pipe_write_status
pipe_write_status-never p = masked (not (ring_free_length p.ring == 0) || p.read_closed)
  where
    masked : (b : Bool) → and2 poll_write (int_of b) ≡ 0
    masked true = refl
    masked false = refl
