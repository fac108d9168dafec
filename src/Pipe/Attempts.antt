-- ===== src/Pipe/Attempts.antt =====
-- One attempt of pipe_read and of pipe_write, src/kernel/pipe.c, on every branch.
use asym.Base.{ℕ, ◌≤◌, ◌≡◌, refl, sym, min, true, ◌||◌, ◌++◌, append-nil, arith, leb, if_cases}
use asym.Base.Errors.{value, error, passed_on}
use asym.Str.Memory.{Memory, IsBytes}
use asym.Ring.{ring_size, ring_data_length, ring_free_length}
use asym.Ring.Bytes.{bytes}
use asym.Ring.Contents.{contents, Disjoint}
use asym.Ring.Invariant.{IsValid, ring_write-IsValid, ring_read-IsValid}
use asym.Ring.Write.{ring_write-appends, ring_write-IsBytes, ring_write-buffer}
use asym.Ring.Read.{ring_read-takes, ring_read-IsBytes, ring_read-buffer}
use asym.Pipe.{
  Pipe, Ending, returns, blocks, panics, Attempt, read_ring, write_ring, pipe_read, pipe_write,
}

-- The bytes that an ending says were moved.
abbrev pub moved : Ending → ℕ
moved (returns wakes (value n)) = n
moved (returns wakes (error e)) = 0
moved (returns wakes passed_on) = 0
moved blocks = 0
moved panics = 0

-- What an attempt keeps: the ring stays sound and in its place, and no assertion fails.
pub record Sound (p : Pipe) (a : Attempt) : Type 0 where
  pub valid : IsValid a.pipe.ring
  pub good : IsBytes a.memory
  pub placed : a.pipe.ring.buffer ≡ p.ring.buffer
  pub no_panic : ¬ (a.ending ≡ panics)

-- The bytes that a read delivers stood at the front of the ring.
pub record Reads (m : Memory) (p : Pipe) (dest : ℕ) (a : Attempt) : Type 0 where
  pub sound : Sound p a
  pub taken :
      contents m p.ring ≡ bytes a.memory dest (moved a.ending) ++ contents a.memory a.pipe.ring

-- The bytes that a write accepts stand behind those of the ring.
pub record Writes (m : Memory) (p : Pipe) (source : ℕ) (a : Attempt) : Type 0 where
  pub sound : Sound p a
  pub added : contents a.memory a.pipe.ring ≡ contents m p.ring ++ bytes m source (moved a.ending)

module _ (m : Memory) (p : Pipe) (v : IsValid p.ring) (good : IsBytes m) where
  read_ring-Reads :
      (dest count : ℕ)
      → Disjoint dest count p.ring.buffer ring_size
      → count ≤ p.ring.data_length
      → Reads m p dest (read_ring m p dest count)
  unfolding read_ring
  read_ring-Reads dest count apart held =
      let (got, split) = ring_read-takes m p.ring dest count v good apart held in
      record {
        sound = record {
          valid = ring_read-IsValid m p.ring dest count v;
          good = ring_read-IsBytes m p.ring dest count v good apart held;
          placed = ring_read-buffer m p.ring dest count v good apart held;
          no_panic = rw got (λ (e : returns true (value count) ≡ panics). cc);
        };
        taken = rw got split;
      }

  write_ring-Writes :
      (source count : ℕ)
      → Disjoint source count p.ring.buffer ring_size
      → count ≤ ring_free_length p.ring
      → Writes m p source (write_ring m p source count)
  unfolding write_ring
  write_ring-Writes source count apart fits =
      let (got, joined) = ring_write-appends m p.ring source count v good apart fits in
      record {
        sound = record {
          valid = ring_write-IsValid m p.ring source count v;
          good = ring_write-IsBytes m p.ring source count v good apart fits;
          placed = ring_write-buffer m p.ring source count v good apart fits;
          no_panic = rw got (λ (e : returns true (value count) ≡ panics). cc);
        };
        added = rw got joined;
      }

  -- An attempt that changes nothing.
  still : (e : Ending) → ¬ (e ≡ panics) → Sound p (record { memory = m; pipe = p; ending = e })
  still e h = record { valid = v; good = good; placed = refl; no_panic = h }

  -- Whatever the count, and whether or not the other end is closed, an attempt of `pipe_read` on a
  -- sound pipe and a buffer apart from its ring takes the bytes that it delivers from the front of the
  -- ring, in their order, and keeps the rest; where it refuses or blocks it takes none. Its assertion
  -- holds.
  pub pipe_read-Reads :
      (dest count : ℕ)
      → Disjoint dest count p.ring.buffer ring_size
      → Reads m p dest (pipe_read m p dest count)
  unfolding pipe_read
  pipe_read-Reads dest count apart =
      if_cases (Reads m p dest) (leb ring_size count) _ _
        (λ large. record { sound = still _ (λ e. cc); taken = refl })
        (λ small.
          if_cases (Reads m p dest) (leb count (ring_data_length p.ring) || p.write_closed) _ _
            (λ ready.
              if_cases (λ (n : ℕ). Reads m p dest (read_ring m p dest n)) p.write_closed
                (min count (ring_data_length p.ring)) count
                (λ closed.
                  read_ring-Reads dest (min count (ring_data_length p.ring)) (nearer apart)
                    (omega arith))
                (λ open_end. read_ring-Reads dest count apart (ground arith)))
            (λ wait. record { sound = still _ (λ e. cc); taken = refl }))
    where
      nearer :
          Disjoint dest count p.ring.buffer ring_size
          → Disjoint dest (min count (ring_data_length p.ring)) p.ring.buffer ring_size
      nearer apart = ground arith

  -- An attempt of `pipe_write` likewise puts the bytes that it accepts behind those of the ring, all
  -- of them or none. Its assertion holds.
  pub pipe_write-Writes :
      (source count : ℕ)
      → Disjoint source count p.ring.buffer ring_size
      → Writes m p source (pipe_write m p source count)
  unfolding pipe_write
  pipe_write-Writes source count apart =
      if_cases (Writes m p source) (leb ring_size count) _ _ (λ large. none_added _ (λ e. cc) refl)
        (λ small.
          if_cases (Writes m p source) (leb count (ring_free_length p.ring) || p.read_closed) _ _
            (λ ready.
              if_cases (Writes m p source) p.read_closed _ _ (λ closed. none_added _ (λ e. cc) refl)
                (λ open_end. write_ring-Writes source count apart (ground arith)))
            (λ wait. none_added _ (λ e. cc) refl))
    where
      none_added :
          (e : Ending)
          → ¬ (e ≡ panics)
          → moved e ≡ 0
          → Writes m p source (record { memory = m; pipe = p; ending = e })
      none_added e h no_bytes = record {
        sound = still e h;
        added = rw no_bytes (sym (append-nil (contents m p.ring)));
      }
