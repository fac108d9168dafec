-- ===== src/Pipe/Tests.antt =====
-- The theorems on src/kernel/pipe.c at concrete pipes.
use asym.Base.{◌≡◌, ◌%◌, ◌++◌, ◌||◌, refl, true, false, not, [], arith, inr, ◌==◌}
use asym.Str.Memory.{Memory, IsBytes}
use asym.Ring.{ring_data_length, ring_init}
use asym.Ring.Contents.{contents}
use asym.Ring.Invariant.{IsValid, ring_init-IsValid}
use asym.Pipe.{Pipe, pipe_init, pipe_read, pipe_write, pipe_read_status, pipe_write_status, int_of}
use asym.Pipe.Attempts.{Reads, Writes, pipe_read-Reads, pipe_write-Writes}
use asym.Pipe.Stream.{
  System, after_write, after_read, Reach, start, later, writes, reads, pipe_stream,
}
use asym.Pipe.Status.{pipe_read_status_lem, pipe_write_status-never}

abbrev counting : Memory
counting a = a % 256

counting-IsBytes : IsBytes counting
counting-IsBytes = record { byte = λ a. omega arith }

-- 30 bytes from index 80 on, and the writer gone
abbrev half : Pipe
half = record {
  ring = record { buffer = 4096; read_index = 80; write_index = 10; data_length = 30 };
  read_closed = false;
  write_closed = true;
  freed = false;
}

half-IsValid : IsValid half.ring
half-IsValid = record { read_in = omega arith; length_in = omega arith; write_at = refl }

pipe_read-Reads_example : Reads counting half 9000 (pipe_read counting half 9000 64)
pipe_read-Reads_example =
    pipe_read-Reads counting half half-IsValid counting-IsBytes 9000 64 (inr (omega arith))

pipe_write-Writes_example : Writes counting half 9000 (pipe_write counting half 9000 64)
pipe_write-Writes_example =
    pipe_write-Writes counting half half-IsValid counting-IsBytes 9000 64 (inr (omega arith))

pipe_read_status_lem_example :
    pipe_read_status half ≡ int_of (not (ring_data_length half.ring == 0) || true)
pipe_read_status_lem_example = pipe_read_status_lem half

pipe_write_status-never_example : pipe_write_status half ≡ 0
pipe_write_status-never_example = pipe_write_status-never half

abbrev fresh : System
fresh = record { memory = counting; pipe = pipe_init 4096; written = []; read = [] }

-- 40 bytes written, and 15 of them read
abbrev used : System
used = after_read (after_write fresh 9000 40) 20000 15

used-Reach : Reach 4096 counting used
unfolding pipe_init ring_init
used-Reach =
    let w =
      pipe_write-Writes counting fresh.pipe (ring_init-IsValid 4096) counting-IsBytes 9000 40
        (inr (omega arith)) in
    later (later start (writes 9000 40 (inr (omega arith))))
      (reads 20000 15 (inr (omega (arith, w.sound.placed))))

pipe_stream_example : used.written ≡ used.read ++ contents used.memory used.pipe.ring
pipe_stream_example = pipe_stream 4096 counting used counting-IsBytes used-Reach
