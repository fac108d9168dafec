-- ===== src/Ring/Contents.antt =====
-- What a ring holds, as a list, and regions of memory that do not overlap.
use asym.Base.{ℕ, ◌+◌, ◌%◌, ◌≤◌, ◌⊎◌, List}
use asym.Str.Memory.{Memory}
use asym.Ring.{Ring, ring_size}
use asym.Ring.Bytes.{tabulate}

-- Byte `k` of what the ring holds.
abbrev pub slot : Ring → ℕ → ℕ
slot r k = r.buffer + (r.read_index + k) % ring_size

-- What the ring holds, oldest byte first.
abbrev pub contents : Memory → Ring → List ℕ
contents m r = tabulate r.data_length (λ k. m (slot r k))

abbrev pub Disjoint : ℕ → ℕ → ℕ → ℕ → Type 0
Disjoint a n b k = (a + n ≤ b) ⊎ (b + k ≤ a)
