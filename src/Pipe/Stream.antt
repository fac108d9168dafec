-- ===== src/Pipe/Stream.antt =====
-- A pipe as its users see it: any sequence of attempts and closings, with the users' own writes to
-- memory between them, delivers the bytes that were written, in their order. src/kernel/pipe.c
use asym.Base.{ℕ, ◌+◌, ◌%◌, ◌<◌, ◌≡◌, refl, ap, sym, ◌∙◌, List, [], ◌++◌, append_assoc, arith}
use asym.Str.Memory.{Memory, IsBytes}
use asym.Ring.{ring_size, ring_init}
use asym.Ring.Bytes.{bytes, tabulate-ext}
use asym.Ring.Contents.{contents, Disjoint}
use asym.Ring.Invariant.{IsValid, ring_init-IsValid}
use asym.Pipe.{Pipe, pipe_init, pipe_read, pipe_write, pipe_read_cleanup, pipe_write_cleanup}
use asym.Pipe.Attempts.{moved, pipe_read-Reads, pipe_write-Writes}

-- `written` and `read` are what the pipe has accepted and delivered since it was made.
pub record System : Type 0 where
  pub memory : Memory
  pub pipe : Pipe
  pub written : List ℕ
  pub read : List ℕ

abbrev pub after_write : System → ℕ → ℕ → System
after_write s source count =
    let a = pipe_write s.memory s.pipe source count in
    record {
      memory = a.memory;
      pipe = a.pipe;
      written = s.written ++ bytes s.memory source (moved a.ending);
      read = s.read;
    }

abbrev pub after_read : System → ℕ → ℕ → System
after_read s dest count =
    let a = pipe_read s.memory s.pipe dest count in
    record {
      memory = a.memory;
      pipe = a.pipe;
      written = s.written;
      read = s.read ++ bytes a.memory dest (moved a.ending);
    }

-- One attempt of a call, a closing of an end, or a change of the memory outside the ring's buffer.
pub data Step (s : System) : System → Type 0 where
  writes :
      (source count : ℕ)
      → Disjoint source count s.pipe.ring.buffer ring_size
      → Step s (after_write s source count)
  reads :
      (dest count : ℕ)
      → Disjoint dest count s.pipe.ring.buffer ring_size
      → Step s (after_read s dest count)
  read_closes : Step s (record s { pipe = pipe_read_cleanup s.pipe })
  write_closes : Step s (record s { pipe = pipe_write_cleanup s.pipe })
  users_write :
      (m : Memory)
      → IsBytes m
      → ((k : ℕ) → k < ring_size → m (s.pipe.ring.buffer + k) ≡ s.memory (s.pipe.ring.buffer + k))
      → Step s (record s { memory = m })

pub data Reach (page : ℕ) (m : Memory) : System → Type 0 where
  start : Reach page m (record { memory = m; pipe = pipe_init page; written = []; read = [] })
  later : {s t : System} → Reach page m s → Step s t → Reach page m t

record IsStream (s : System) : Type 0 where
  valid : IsValid s.pipe.ring
  good : IsBytes s.memory
  kept : s.written ≡ s.read ++ contents s.memory s.pipe.ring

moves-IsStream : (s t : System) → Step s t → IsStream s → IsStream t
unfolding pipe_read_cleanup pipe_write_cleanup
moves-IsStream s _ (writes source count apart) i =
    let w = pipe_write-Writes s.memory s.pipe i.valid i.good source count apart in
    record {
      valid = w.sound.valid;
      good = w.sound.good;
      kept =
          ap
            (λ (l : List ℕ).
              l ++ bytes s.memory source (moved (pipe_write s.memory s.pipe source count).ending))
            i.kept
          ∙ append_assoc s.read (contents s.memory s.pipe.ring) _
          ∙ ap (λ (l : List ℕ). s.read ++ l) (sym w.added);
    }
moves-IsStream s _ (reads dest count apart) i =
    let r = pipe_read-Reads s.memory s.pipe i.valid i.good dest count apart in
    record {
      valid = r.sound.valid;
      good = r.sound.good;
      kept = i.kept ∙ ap (λ (l : List ℕ). s.read ++ l) r.taken ∙ sym (append_assoc s.read _ _);
    }
moves-IsStream s _ read_closes i = record { valid = i.valid; good = i.good; kept = i.kept }
moves-IsStream s _ write_closes i = record { valid = i.valid; good = i.good; kept = i.kept }
moves-IsStream s _ (users_write m good same) i = record {
  valid = i.valid;
  good = good;
  kept =
      i.kept
      ∙ ap (λ (l : List ℕ). s.read ++ l)
          (sym (
            tabulate-ext s.pipe.ring.data_length _ _
              (λ k h. same ((s.pipe.ring.read_index + k) % ring_size) (omega arith))));
}

reach-IsStream : (page : ℕ) (m : Memory) (s : System) → IsBytes m → Reach page m s → IsStream s
unfolding pipe_init
reach-IsStream page m _ good start = record {
  valid = ring_init-IsValid page;
  good = good;
  kept = start_kept page m;
}
  where
    start_kept : (page : ℕ) (m : Memory) → [] ≡ [] ++ contents m (ring_init page)
    start_kept page m = unfold ring_init in refl
reach-IsStream page m _ good (later before step) =
    moves-IsStream _ _ step (reach-IsStream page m _ good before)

-- After any sequence of attempts to write and to read, of closings and of changes of memory outside
-- the ring's buffer, what the pipe has accepted is what it has delivered, in the same order, followed
-- by what its ring holds: no byte is lost, doubled or out of its place.
pub pipe_stream :
    (page : ℕ) (m : Memory) (s : System)
    → IsBytes m
    → Reach page m s
    → s.written ≡ s.read ++ contents s.memory s.pipe.ring
pipe_stream page m s good r = (reach-IsStream page m s good r).kept
