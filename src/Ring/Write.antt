-- ===== src/Ring/Write.antt =====
-- ring_write: whole or in two pieces, it appends to what the ring holds.
use asym.Base.{
  ℕ, ◌+◌, ◌-◌, ◌%◌, ◌≤◌, ◌<◌, ◌≡◌, refl, ap₂, ◌∙◌, fun_ext, inl, inr, ◌&&◌, false, some, ◌++◌,
  arith, ltb, leb, if◌then◌else◌, Bool-cases, if_cases, sub64,
}
use asym.Str.Memory.{Memory, IsBytes, copied-IsBytes}
use asym.Str.Copy.{memcpy}
use asym.Str.Copy.Memcpy.{memcpy_lem}
use asym.Ring.{Ring, ring_size, ring_free_length, ring_write}
use asym.Ring.Bytes.{tabulate, bytes, tabulate-ext, tabulate-add}
use asym.Ring.Contents.{slot, contents, Disjoint}
use asym.Ring.Invariant.{IsValid}

-- How far address `a` of the buffer lies behind index `i`, going round.
abbrev behind : ℕ → ℕ → ℕ → ℕ
behind buffer i a = (a - buffer + (ring_size - i)) % ring_size

abbrev written : Memory → Ring → ℕ → ℕ → Memory
written m r source count a =
    if leb r.buffer a
      && (ltb a (r.buffer + ring_size) && ltb (behind r.buffer r.write_index a) count)
    then m (source + behind r.buffer r.write_index a)
    else m a

module _ (m : Memory) (r : Ring) (source count : ℕ) (v : IsValid r) (good : IsBytes m)
    (apart : Disjoint source count r.buffer ring_size) (fits : count ≤ ring_free_length r) where
  no_error : ltb (ring_free_length r) count ≡ false
  no_error = ground arith

  w_in : r.write_index < ring_size
  w_in = omega arith

  upper : ℕ
  upper = ring_size - r.write_index

  one_piece :
      count < upper
      → (memcpy m (r.buffer + r.write_index) source count).0 ≡ written m r source count
  unfolding upper
  one_piece h =
      rw (memcpy_lem m (r.buffer + r.write_index) source count good (ground arith))
        (fun_ext λ a. ground (arith, w_in))

  two_pieces :
      upper ≤ count
      → (memcpy
          (memcpy m (r.buffer + r.write_index) source upper).0
          r.buffer
          (source + upper)
          (count - upper)).0
        ≡ written m r source count
  unfolding upper
  two_pieces h =
      rw
        (
          memcpy_lem m (r.buffer + r.write_index) source upper good (ground (arith, w_in)),
          memcpy_lem _ r.buffer (source + upper) (count - upper)
              (copied-IsBytes (r.buffer + r.write_index) source upper good) (ground (arith, w_in)),
        )
        (fun_ext λ a. ground (arith, w_in))

  sub64-upper : sub64 ring_size r.write_index ≡ upper
  unfolding upper
  sub64-upper = omega (arith, w_in)

  ring_write-memory : (ring_write m r source count).0 ≡ written m r source count
  unfolding ring_write
  ring_write-memory =
      rw (no_error, sub64-upper)
        (elim (Bool-cases (ltb count upper)) [
          | inl e ↦ rw e (one_piece (ground arith))
          | inr e ↦ rw e (two_pieces (ground arith))
        ])

  ring_write-ring : (ring_write m r source count).1 ≡ record r {
    write_index = (r.write_index + count) % ring_size;
    data_length = r.data_length + count;
  }
  unfolding ring_write
  ring_write-ring = ground (arith, no_error)

  accepted : (ring_write m r source count).2 ≡ some count
  unfolding ring_write
  accepted = ground (arith, no_error)

  -- A write that fits is accepted whole: the ring then holds what it held, followed by the `count`
  -- bytes of the source.
  pub ring_write-appends :
      let (m', r', result) = ring_write m r source count in
      (result ≡ some count) × (contents m' r' ≡ contents m r ++ bytes m source count)
  ring_write-appends = (accepted, rw (ring_write-memory, ring_write-ring) appended)
    where
      appended :
          tabulate (r.data_length + count) (λ k. written m r source count (slot r k))
          ≡ contents m r ++ bytes m source count
      appended =
          tabulate-add r.data_length count _ _ refl
          ∙ ap₂ ◌++◌ (tabulate-ext r.data_length _ _ (λ k l. ground (arith, w_in)))
              (tabulate-ext count _ _ (λ k l. ground (arith, w_in)))

  pub ring_write-IsBytes : IsBytes (ring_write m r source count).0
  ring_write-IsBytes = rw ring_write-memory (record {
    byte = λ a.
        if_cases (λ (b : ℕ). b < 256)
          (leb r.buffer a
            && (ltb a (r.buffer + ring_size) && ltb (behind r.buffer r.write_index a) count))
          _ _ (λ e. good.byte _) (λ e. good.byte a);
  })

  -- The buffer stays where it is.
  pub ring_write-buffer : (ring_write m r source count).1.buffer ≡ r.buffer
  ring_write-buffer = rw ring_write-ring refl
