-- ===== src/Str/Copy/Memset.antt =====
-- memset writes one byte value through 64-bit stores.
use asym.Base.{
  ℕ, zero, suc, ◌+◌, ◌-◌, ◌*◌, ◌%◌, ◌≤◌, ◌<◌, ◌≡◌, refl, ap, ◌∙◌, fun_ext, true, false, arith, ltb,
  ltb→lt, leb→le, ◌==◌, ==_iff, while_rule, every, at_each,
}
use asym.Str.Memory.{Memory, store8, byte_of, filled, filled-filled}
use asym.Str.Copy.{
  Filling, ch64, fill_byte, fill_word, fill_block, unaligned_fill, fill_align, fill_blocks,
  fill_words, fill_rest, memset, put_word, put_block,
}

-- The shifted copies do not overlap, so `|` adds them up.
ch64_table : every (λ c. ch64 c == c * 0x0101010101010101) 256 ≡ true
unfolding every ch64
ch64_table = refl

ch64-eq-mul : (c : ℕ) → c < 256 → ch64 c ≡ c * 0x0101010101010101
ch64-eq-mul c h = (==_iff _ _).0 (at_each _ 256 c h ch64_table)

byte_of-ch64 : (c i : ℕ) → c < 256 → i < 8 → byte_of (ch64 c) i ≡ c
byte_of-ch64 c i h l = rw (ch64-eq-mul c h) (each i l)
  where
    each : (i : ℕ) → i < 8 → byte_of (c * 0x0101010101010101) i ≡ c
    each zero l = omega arith
    each (suc zero) l = omega arith
    each (suc (suc zero)) l = omega arith
    each (suc (suc (suc zero))) l = omega arith
    each (suc (suc (suc (suc zero)))) l = omega arith
    each (suc (suc (suc (suc (suc zero))))) l = omega arith
    each (suc (suc (suc (suc (suc (suc zero)))))) l = omega arith
    each (suc (suc (suc (suc (suc (suc (suc zero))))))) l = omega arith
    each (suc (suc (suc (suc (suc (suc (suc (suc i)))))))) l = absurd (omega arith)

store8-filled : (m : Memory) (p c : ℕ) → store8 m p c ≡ filled m p c 1
store8-filled m p c = fun_ext λ a. ground arith

put_word-filled : (m : Memory) (p c : ℕ) → c < 256 → put_word m p (ch64 c) ≡ filled m p c 8
unfolding put_word
put_word-filled m p c h = fun_ext λ a. ground (arith, byte_of-ch64 c (a - p) h)

next_fill :
    (m : Memory) (p c k : ℕ)
    → c < 256
    → put_word (filled m p c k) (p + k) (ch64 c) ≡ filled m p c (k + 8)
next_fill m p c k h = put_word-filled _ _ _ h ∙ filled-filled m p c k 8

put_block-filled : (m : Memory) (p c : ℕ) → c < 256 → put_block m p (ch64 c) ≡ filled m p c 64
unfolding put_block
put_block-filled m p c h = rw (
  put_word-filled m p c h,
  next_fill m p c 8 h,
  next_fill m p c 16 h,
  next_fill m p c 24 h,
  next_fill m p c 32 h,
  next_fill m p c 40 h,
  next_fill m p c 48 h,
  next_fill m p c 56 h,
)

module _ (m : Memory) (dest c n : ℕ) (byte : c < 256) where
  -- where a loop of memset stands
  record Filled (f : Filling) : Type 0 where
    left : f.count ≤ n
    at_p : f.p ≡ dest + (n - f.count)
    done : f.mem ≡ filled m dest c (n - f.count)

  advance :
      (f : Filling) (j : ℕ) (written : Memory)
      → Filled f
      → j ≤ f.count
      → written ≡ filled f.mem f.p c j
      → Filled (record { p = f.p + j; count = f.count - j; mem = written })
  advance f j written i h e = record {
    left = omega arith;
    at_p = omega arith;
    done =
        e
        ∙ rw (i.at_p, i.done)
            (filled-filled m dest c (n - f.count) j ∙ ap (filled m dest c) (omega arith));
  }

  fill_byte-Filled :
      (f : Filling)
      → Filled f
      → 0 < f.count
      → Filled (fill_byte c f) × ((fill_byte c f).count < f.count)
  unfolding fill_byte
  fill_byte-Filled f i h = (advance f 1 _ i h (store8-filled f.mem f.p c), omega arith)

  fill_word-Filled :
      (f : Filling)
      → Filled f
      → 8 ≤ f.count
      → Filled (fill_word (ch64 c) f) × ((fill_word (ch64 c) f).count < f.count)
  unfolding fill_word
  fill_word-Filled f i h = (advance f 8 _ i h (put_word-filled f.mem f.p c byte), omega arith)

  fill_block-Filled :
      (f : Filling)
      → Filled f
      → 64 ≤ f.count
      → Filled (fill_block (ch64 c) f) × ((fill_block (ch64 c) f).count < f.count)
  unfolding fill_block
  fill_block-Filled f i h = (advance f 64 _ i h (put_block-filled f.mem f.p c byte), omega arith)

  some_left : (f : Filling) → unaligned_fill f ≡ true → 0 < f.count
  some_left f t = ground arith

  fill_align-Filled : (f : Filling) → Filled f → Filled (fill_align c f)
  unfolding fill_align
  fill_align-Filled f i =
      (while_rule unaligned_fill (fill_byte c) Filled (λ f. f.count) (f.count + 1) f (omega arith) i
        (λ f i t. fill_byte-Filled f i (some_left f t))).0

  fill_blocks-Filled : (f : Filling) → Filled f → Filled (fill_blocks (ch64 c) f)
  unfolding fill_blocks
  fill_blocks-Filled f i =
      (while_rule _ (fill_block (ch64 c)) Filled (λ f. f.count) (f.count + 1) f (omega arith) i
        (λ f i t. fill_block-Filled f i (leb→le 64 f.count t))).0

  fill_words-Filled : (f : Filling) → Filled f → Filled (fill_words (ch64 c) f)
  unfolding fill_words
  fill_words-Filled f i =
      (while_rule _ (fill_word (ch64 c)) Filled (λ f. f.count) (f.count + 1) f (omega arith) i
        (λ f i t. fill_word-Filled f i (leb→le 8 f.count t))).0

  mem-fill_rest : (f : Filling) → Filled f → (fill_rest c f).mem ≡ filled m dest c n
  unfolding fill_rest
  mem-fill_rest f i = finish (fill_rest c f) (
      while_rule _ (fill_byte c) Filled (λ f. f.count) (f.count + 1) f (omega arith) i
        (λ f i t. fill_byte-Filled f i (ltb→lt 0 f.count t)))
    where
      finish : (f : Filling) → Filled f × (ltb 0 f.count ≡ false) → f.mem ≡ filled m dest c n
      finish f (i, t) = i.done ∙ ap (filled m dest c) (ground arith)

  start-Filled : Filled (record { p = dest; count = n; mem = m })
  start-Filled = record { left = omega arith; at_p = omega arith; done = fun_ext λ a. ground arith }

-- memset returns `dest`, and leaves the low byte of `ch` in each of the `count` bytes from there, and
-- every other byte as it was.
pub memset_lem :
    (m : Memory) (dest ch count : ℕ)
    → memset m dest ch count ≡ (filled m dest (ch % 256) count, dest)
unfolding memset
memset_lem m dest ch count =
    ap (λ (r : Memory). (r, dest))
      (mem-fill_rest m dest c count h _ (
        fill_words-Filled m dest c count h _ (
          fill_blocks-Filled m dest c count h _
            (fill_align-Filled m dest c count h _ (start-Filled m dest c count h)))))
  where
    c : ℕ
    c = ch % 256

    h : ch % 256 < 256
    h = omega arith
