-- ===== src/Str/Copy.antt =====
-- memcpy, memmove and memset of src/stdlib/string.c. Each returns its `dest` beside the memory.
-- The fuel of a loop is one more than `count`, which every round lowers.
pub mod Memcpy
pub mod Memmove
pub mod Memset
use Prim.Native.Nat.{bit_or}
use asym.Base.{
  ℕ, Bool, ◌+◌, ◌-◌, ◌*◌, ◌%◌, ◌^◌, ◌&&◌, not, arith, ltb, leb, ◌==◌, if◌then◌else◌, while,
}
use asym.Str.Memory.{Memory, store8, load64, store64}

-- the two pointers that a loop moves, what is left to move, and the memory
pub record Cursor : Type 0 where
  pub d : ℕ
  pub s : ℕ
  pub count : ℕ
  pub mem : Memory

-- `*d++ = *s++; count--;`
pub byte_round : Cursor → Cursor
byte_round c = record {
  d = c.d + 1;
  s = c.s + 1;
  count = c.count - 1;
  mem = store8 c.mem c.d (c.mem c.s);
}

pub copy_word : Memory → ℕ → ℕ → Memory
copy_word m d s = store64 m d (load64 m s)

pub word_round : Cursor → Cursor
word_round c = record {
  d = c.d + 8;
  s = c.s + 8;
  count = c.count - 8;
  mem = copy_word c.mem c.d c.s;
}

-- the eight assignments of the unrolled loop, in order
pub copy_block : Memory → ℕ → ℕ → Memory
copy_block m d s =
    let m1 = copy_word m d s in
    let m2 = copy_word m1 (d + 8) (s + 8) in
    let m3 = copy_word m2 (d + 16) (s + 16) in
    let m4 = copy_word m3 (d + 24) (s + 24) in
    let m5 = copy_word m4 (d + 32) (s + 32) in
    let m6 = copy_word m5 (d + 40) (s + 40) in
    let m7 = copy_word m6 (d + 48) (s + 48) in copy_word m7 (d + 56) (s + 56)

pub block_round : Cursor → Cursor
block_round c = record {
  d = c.d + 64;
  s = c.s + 64;
  count = c.count - 64;
  mem = copy_block c.mem c.d c.s;
}

abbrev pub unaligned : Cursor → Bool
unaligned c = not (c.d % 8 == 0) && ltb 0 c.count

pub align : Cursor → Cursor
align c = while unaligned byte_round (c.count + 1) c

pub blocks : Cursor → Cursor
blocks c = while (λ c. leb 64 c.count) block_round (c.count + 1) c

pub words : Cursor → Cursor
words c = while (λ c. leb 8 c.count) word_round (c.count + 1) c

pub rest : Cursor → Cursor
rest c = while (λ c. ltb 0 c.count) byte_round (c.count + 1) c

unfoldable pub memcpy : Memory → ℕ → ℕ → ℕ → Memory × ℕ
unfolding align blocks words rest
memcpy m dest src count = (
  (rest (words (blocks (align (record { d = dest; s = src; count = count; mem = m }))))).mem,
  dest,
)

-- `*--p2 = *--p1;` with both pointers past the end
pub back_round : Cursor → Cursor
back_round c = record {
  d = c.d - 1;
  s = c.s - 1;
  count = c.count - 1;
  mem = store8 c.mem (c.d - 1) (c.mem (c.s - 1));
}

pub backward : Cursor → Cursor
backward c = while (λ c. ltb 0 c.count) back_round (c.count + 1) c

unfoldable pub memmove : Memory → ℕ → ℕ → ℕ → Memory × ℕ
unfolding rest backward
memmove m dest src count = (
  (if leb dest src
      then (rest (record { d = dest; s = src; count = count; mem = m })).mem
      else (backward (record { d = dest + count; s = src + count; count = count; mem = m })).mem),
  dest,
)

-- `ch8` in each of the eight bytes
pub ch64 : ℕ → ℕ
ch64 c =
    bit_or
      (bit_or
        (bit_or
          (bit_or (bit_or (bit_or (bit_or c (c * 2 ^ 8)) (c * 2 ^ 16)) (c * 2 ^ 24)) (c * 2 ^ 32))
          (c * 2 ^ 40))
        (c * 2 ^ 48))
      (c * 2 ^ 56)

pub record Filling : Type 0 where
  pub p : ℕ
  pub count : ℕ
  pub mem : Memory

pub fill_byte : ℕ → Filling → Filling
fill_byte ch8 c = record { p = c.p + 1; count = c.count - 1; mem = store8 c.mem c.p ch8 }

pub put_word : Memory → ℕ → ℕ → Memory
put_word m p w = store64 m p w

pub fill_word : ℕ → Filling → Filling
fill_word w c = record { p = c.p + 8; count = c.count - 8; mem = put_word c.mem c.p w }

pub put_block : Memory → ℕ → ℕ → Memory
put_block m p w =
    let m1 = put_word m p w in
    let m2 = put_word m1 (p + 8) w in
    let m3 = put_word m2 (p + 16) w in
    let m4 = put_word m3 (p + 24) w in
    let m5 = put_word m4 (p + 32) w in
    let m6 = put_word m5 (p + 40) w in let m7 = put_word m6 (p + 48) w in put_word m7 (p + 56) w

pub fill_block : ℕ → Filling → Filling
fill_block w c = record { p = c.p + 64; count = c.count - 64; mem = put_block c.mem c.p w }

abbrev pub unaligned_fill : Filling → Bool
unaligned_fill c = not (c.p % 8 == 0) && ltb 0 c.count

pub fill_align : ℕ → Filling → Filling
fill_align ch8 c = while unaligned_fill (fill_byte ch8) (c.count + 1) c

pub fill_blocks : ℕ → Filling → Filling
fill_blocks w c = while (λ c. leb 64 c.count) (fill_block w) (c.count + 1) c

pub fill_words : ℕ → Filling → Filling
fill_words w c = while (λ c. leb 8 c.count) (fill_word w) (c.count + 1) c

pub fill_rest : ℕ → Filling → Filling
fill_rest ch8 c = while (λ c. ltb 0 c.count) (fill_byte ch8) (c.count + 1) c

unfoldable pub memset : Memory → ℕ → ℕ → ℕ → Memory × ℕ
unfolding ch64 fill_align fill_blocks fill_words fill_rest
memset m dest ch count =
    let ch8 = ch % 256 in
    let start : Filling = record { p = dest; count = count; mem = m } in
    (
      (fill_rest ch8 (fill_words (ch64 ch8) (fill_blocks (ch64 ch8) (fill_align ch8 start)))).mem,
      dest,
    )
