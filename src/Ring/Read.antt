-- ===== src/Ring/Read.antt =====
-- ring_read: whole or in two pieces, it takes from the front of what the ring holds.
use asym.Base.{
  ℕ, ◌+◌, ◌-◌, ◌%◌, ◌≤◌, ◌<◌, ◌≡◌, refl, ap, ap₂, ◌∙◌, fun_ext, inl, inr, ◌&&◌, false, some, none,
  ◌++◌, arith, ltb, leb, if◌then◌else◌, Bool-cases, if_cases, sub64,
}
use asym.Str.Memory.{Memory, IsBytes, copied-IsBytes}
use asym.Str.Copy.{memcpy}
use asym.Str.Copy.Memcpy.{memcpy_lem}
use asym.Ring.{Ring, ring_size, ring_write, ring_read}
use asym.Ring.Bytes.{tabulate, bytes, tabulate-ext, tabulate-add}
use asym.Ring.Contents.{slot, contents, Disjoint}
use asym.Ring.Invariant.{IsValid}

-- The memory after `count` bytes of the ring have gone to `dest`.
abbrev taken : Memory → Ring → ℕ → ℕ → Memory
taken m r dest count a = if leb dest a && ltb a (dest + count) then m (slot r (a - dest)) else m a

module _ (m : Memory) (r : Ring) (dest count : ℕ) (v : IsValid r) (good : IsBytes m)
    (apart : Disjoint dest count r.buffer ring_size) (held : count ≤ r.data_length) where
  no_error : ltb r.data_length count ≡ false
  no_error = ground arith

  upper : ℕ
  upper = ring_size - r.read_index

  one_piece :
      count < upper → (memcpy m dest (r.buffer + r.read_index) count).0 ≡ taken m r dest count
  unfolding upper
  one_piece h = rw (memcpy_lem m dest (r.buffer + r.read_index) count good (ground arith)) (
      fun_ext λ a.
        ground (arith, ap m {x = r.buffer + r.read_index + (a - dest)} {y = slot r (a - dest)}))

  two_pieces :
      upper ≤ count
      → (memcpy
          (memcpy m dest (r.buffer + r.read_index) upper).0
          (dest + upper)
          r.buffer
          (count - upper)).0
        ≡ taken m r dest count
  unfolding upper
  two_pieces h =
      rw
        (
          memcpy_lem m dest (r.buffer + r.read_index) upper good (ground arith),
          memcpy_lem _ (dest + upper) r.buffer (count - upper)
              (copied-IsBytes dest (r.buffer + r.read_index) upper good) (ground arith),
        )
        (fun_ext λ a. ground arith)

  sub64-upper : sub64 ring_size r.read_index ≡ upper
  unfolding upper
  sub64-upper = omega arith

  ring_read-memory : (ring_read m r dest count).0 ≡ taken m r dest count
  unfolding ring_read
  ring_read-memory =
      rw (no_error, sub64-upper)
        (elim (Bool-cases (ltb count upper)) [
          | inl e ↦ rw e (one_piece (ground arith))
          | inr e ↦ rw e (two_pieces (ground arith))
        ])

  ring_read-ring : (ring_read m r dest count).1 ≡ record r {
    read_index = (r.read_index + count) % ring_size;
    data_length = r.data_length - count;
  }
  unfolding ring_read
  ring_read-ring = ground (arith, no_error)

  delivered : (ring_read m r dest count).2 ≡ some count
  unfolding ring_read
  delivered = ground (arith, no_error)

  -- A read of no more than the ring holds succeeds: the `count` bytes that it leaves at the
  -- destination, followed by what the ring then holds, are what the ring held before.
  pub ring_read-takes :
      let (m', r', result) = ring_read m r dest count in
      (result ≡ some count) × (contents m r ≡ bytes m' dest count ++ contents m' r')
  ring_read-takes = (delivered, rw (ring_read-memory, ring_read-ring) split)
    where
      split :
          contents m r
          ≡ bytes (taken m r dest count) dest count
            ++ tabulate (r.data_length - count) (λ k.
              taken m r dest count
                (r.buffer + ((r.read_index + count) % ring_size + k) % ring_size))
      split =
          tabulate-add count (r.data_length - count) _ _ (omega arith)
          ∙ ap₂ ◌++◌ (tabulate-ext count _ _ (λ k l. ground arith))
              (tabulate-ext (r.data_length - count) _ _ (λ k l. ground arith))

  pub ring_read-IsBytes : IsBytes (ring_read m r dest count).0
  ring_read-IsBytes = rw ring_read-memory (record {
    byte = λ a.
        if_cases (λ (b : ℕ). b < 256) (leb dest a && ltb a (dest + count)) _ _ (λ e. good.byte _)
          (λ e. good.byte a);
  })

  -- The buffer stays where it is.
  pub ring_read-buffer : (ring_read m r dest count).1.buffer ≡ r.buffer
  ring_read-buffer = rw ring_read-ring refl

-- A transfer of more than the ring has free, or holds, changes nothing and returns ERR.
pub ring_refuses :
    (m : Memory) (r : Ring) (at count : ℕ)
    → IsValid r
    → ((ring_size - r.data_length < count) → ring_write m r at count ≡ (m, r, none))
      × ((r.data_length < count) → ring_read m r at count ≡ (m, r, none))
unfolding ring_write ring_read
ring_refuses m r at count v = (λ h. ground arith, λ h. ground arith)
