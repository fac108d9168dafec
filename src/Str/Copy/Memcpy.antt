-- ===== src/Str/Copy/Memcpy.antt =====
-- memcpy moves `count` bytes between regions that do not overlap; memmove does so between any.
use asym.Base.{
  ℕ, ◌+◌, ◌-◌, ◌≤◌, ◌<◌, ◌≡◌, ap, ◌∙◌, fun_ext, ◌⊎◌, inl, inr, true, false, arith, ltb, ltb→lt,
  leb→le, ◌==◌, while_rule, Bool-cases,
}
use asym.Str.Memory.{Memory, IsBytes, store8, copied, copied-copied, copied-IsBytes, store64-load64}
use asym.Str.Copy.{
  Cursor, byte_round, copy_word, word_round, unaligned, copy_block, block_round, align, blocks,
  words, rest, memcpy,
}

store8-copied : (m : Memory) (d s : ℕ) → store8 m d (m s) ≡ copied m d s 1
store8-copied m d s = fun_ext λ a. elim (Bool-cases (a == d)) [
  | inl e ↦
      let a≡d : a ≡ d = ground arith in rw (e, a≡d) (ground (arith, ap m {x = s} {y = s + (d - d)}))
  | inr e ↦ ground arith
]

-- Moving upwards does not overwrite what is still to be read: the destination starts at or below
-- the source, or lies wholly above it.
abbrev pub Upward : ℕ → ℕ → ℕ → Type 0
Upward d s n = (d ≤ s) ⊎ (s + n ≤ d)

module _ (m : Memory) (bytes : IsBytes m) (d s : ℕ) where
  copy_word-copied : copy_word m d s ≡ copied m d s 8
  unfolding copy_word
  copy_word-copied = store64-load64 m d s bytes

module _ (m : Memory) (bytes : IsBytes m) (d s : ℕ) (up : Upward d s 64) where
  next_word :
      (k : ℕ) → k + 8 ≤ 64 → copy_word (copied m d s k) (d + k) (s + k) ≡ copied m d s (k + 8)
  next_word k h =
      copy_word-copied _ (copied-IsBytes d s k bytes) (d + k) (s + k)
      ∙ copied-copied m d s k 8 (ground arith)

  copy_block-copied : copy_block m d s ≡ copied m d s 64
  unfolding copy_block
  copy_block-copied = rw (
    copy_word-copied m bytes d s,
    next_word 8 (omega arith),
    next_word 16 (omega arith),
    next_word 24 (omega arith),
    next_word 32 (omega arith),
    next_word 40 (omega arith),
    next_word 48 (omega arith),
    next_word 56 (omega arith),
  )

module _ (m : Memory) (bytes : IsBytes m) (dest src n : ℕ) (up : Upward dest src n) where
  -- where a loop of memcpy stands
  pub record Copied (c : Cursor) : Type 0 where
    left : c.count ≤ n
    at_d : c.d ≡ dest + (n - c.count)
    at_s : c.s ≡ src + (n - c.count)
    done : c.mem ≡ copied m dest src (n - c.count)

  advance :
      (c : Cursor) (j : ℕ) (moved : Memory)
      → Copied c
      → j ≤ c.count
      → moved ≡ copied c.mem c.d c.s j
      → Copied (record { d = c.d + j; s = c.s + j; count = c.count - j; mem = moved })
  advance c j moved i h e = record {
    left = omega arith;
    at_d = omega arith;
    at_s = omega arith;
    done =
        e
        ∙ rw (i.at_d, i.at_s, i.done)
            (copied-copied m dest src (n - c.count) j (ground arith)
              ∙ ap (copied m dest src) (omega arith));
  }

  still-IsBytes : (c : Cursor) → Copied c → IsBytes c.mem
  still-IsBytes c i = rw i.done (copied-IsBytes dest src _ bytes)

  byte_round-Copied :
      (c : Cursor)
      → Copied c
      → 1 ≤ c.count
      → Copied (byte_round c) × ((byte_round c).count < c.count)
  unfolding byte_round
  byte_round-Copied c i h = (advance c 1 _ i h (store8-copied c.mem c.d c.s), omega arith)

  word_round-Copied :
      (c : Cursor)
      → Copied c
      → 8 ≤ c.count
      → Copied (word_round c) × ((word_round c).count < c.count)
  unfolding word_round
  word_round-Copied c i h =
      (advance c 8 _ i h (copy_word-copied _ (still-IsBytes c i) _ _), omega arith)

  block_round-Copied :
      (c : Cursor)
      → Copied c
      → 64 ≤ c.count
      → Copied (block_round c) × ((block_round c).count < c.count)
  unfolding block_round
  block_round-Copied c i h =
      (advance c 64 _ i h (copy_block-copied _ (still-IsBytes c i) _ _ (ground arith)), omega arith)

  some_left : (c : Cursor) → unaligned c ≡ true → 0 < c.count
  some_left c t = ground arith

  align-Copied : (c : Cursor) → Copied c → Copied (align c)
  unfolding align
  align-Copied c i =
      (while_rule unaligned byte_round Copied (λ c. c.count) (c.count + 1) c (omega arith) i
        (λ c i t. byte_round-Copied c i (some_left c t))).0

  blocks-Copied : (c : Cursor) → Copied c → Copied (blocks c)
  unfolding blocks
  blocks-Copied c i =
      (while_rule _ block_round Copied (λ c. c.count) (c.count + 1) c (omega arith) i
        (λ c i t. block_round-Copied c i (leb→le 64 c.count t))).0

  words-Copied : (c : Cursor) → Copied c → Copied (words c)
  unfolding words
  words-Copied c i =
      (while_rule _ word_round Copied (λ c. c.count) (c.count + 1) c (omega arith) i
        (λ c i t. word_round-Copied c i (leb→le 8 c.count t))).0

  -- The last loop leaves nothing to move.
  pub mem-rest : (c : Cursor) → Copied c → (rest c).mem ≡ copied m dest src n
  unfolding rest
  mem-rest c i = finish (rest c) (
      while_rule _ byte_round Copied (λ c. c.count) (c.count + 1) c (omega arith) i
        (λ c i t. byte_round-Copied c i (ltb→lt 0 c.count t)))
    where
      finish : (c : Cursor) → Copied c × (ltb 0 c.count ≡ false) → c.mem ≡ copied m dest src n
      finish c (i, t) = i.done ∙ ap (copied m dest src) (ground arith)

  pub start-Copied : Copied (record { d = dest; s = src; count = n; mem = m })
  start-Copied = record {
    left = omega arith;
    at_d = omega arith;
    at_s = omega arith;
    done = fun_ext λ a. ground arith;
  }

-- memcpy returns `dest`, and leaves in the `count` bytes from there what stood in the `count` bytes
-- from `src` before the call, and every other byte as it was, if `dest` is at or below `src` or the
-- destination lies wholly above the source. So it is right for regions that do not overlap.
pub memcpy_lem :
    (m : Memory) (dest src count : ℕ)
    → IsBytes m
    → Upward dest src count
    → memcpy m dest src count ≡ (copied m dest src count, dest)
unfolding memcpy
memcpy_lem m dest src count bytes up =
    ap (λ (r : Memory). (r, dest))
      (mem-rest m bytes dest src count up _ (
        words-Copied m bytes dest src count up _ (
          blocks-Copied m bytes dest src count up _
            (align-Copied m bytes dest src count up _ (start-Copied m bytes dest src count up)))))
