-- ===== src/Heap/Blocks.antt =====
-- The chain of blocks: where the blocks lie, and which are in use.
use asym.Base.{
  ℕ, ◌+◌, ◌≤◌, ◌<◌, ◌≡◌, refl, ap, true, false, List, [], ◌∷◌, ◌++◌, arith, word, if◌then◌else◌,
}
use asym.Heap.{Block, Heap, header_size}

-- The blocks lie one behind the other between two addresses, each with its header before it.
abbrev pub Between : ℕ → List Block → ℕ → Type 0
Between low [] high = low ≤ high
Between low (b ∷ bs) high = (low ≤ b.address) × Between (b.address + header_size + b.size) bs high

pub record IsValid (h : Heap) : Type 0 where
  pub between : Between 0 h.blocks h.new_address
  pub below_top : h.new_address < word

-- the blocks in use
abbrev pub live : List Block → List Block
live [] = []
live (b ∷ bs) = if b.reserved then b ∷ live bs else live bs

-- `Inserted p size xs ys`: `ys` is `xs` with one block more, which starts at `p` and has `size` bytes
-- at least.
pub record Inserted (p size : ℕ) (xs ys : List Block) : Type 0 where
  pub before : List Block
  pub block : Block
  pub after : List Block
  pub was : xs ≡ before ++ after
  pub now : ys ≡ before ++ block ∷ after
  pub starts : block.address + header_size ≡ p
  pub fits : size ≤ block.size

pub Between-mono :
    (low low' high : ℕ) (bs : List Block) → low' ≤ low → Between low bs high → Between low' bs high
Between-mono low low' high [] h b = omega arith
Between-mono low low' high (x ∷ bs) h b = (omega arith, b.1)

pub Between-append :
    (xs : List Block) (low mid high : ℕ) (ys : List Block)
    → Between low xs mid
    → Between mid ys high
    → Between low (xs ++ ys) high
Between-append [] low mid high ys h k = Between-mono mid low high ys h k
Between-append (x ∷ xs) low mid high ys h k =
    (h.0, Between-append xs (x.address + header_size + x.size) mid high ys h.1 k)

-- Every block ends below the upper end.
pub Between-le : (bs : List Block) (low high : ℕ) → Between low bs high → low ≤ high
Between-le [] low high h = h
Between-le (x ∷ bs) low high h =
    omega (arith, Between-le bs (x.address + header_size + x.size) high h.1)

pub live-append : (xs ys : List Block) → live (xs ++ ys) ≡ live xs ++ live ys
live-append [] ys = refl
live-append (x ∷ xs) ys = ground (arith, live-append xs ys)

pub Inserted-cons :
    (p size : ℕ) (b : Block) {xs ys : List Block}
    → Inserted p size xs ys
    → Inserted p size (b ∷ xs) (b ∷ ys)
Inserted-cons p size b i = record {
  before = b ∷ i.before;
  block = i.block;
  after = i.after;
  was = ap (◌∷◌ b) i.was;
  now = ap (◌∷◌ b) i.now;
  starts = i.starts;
  fits = i.fits;
}

pub live_used : (b : Block) (bs : List Block) → b.reserved ≡ true → live (b ∷ bs) ≡ b ∷ live bs
live_used b bs e = ground arith

pub live_unused : (b : Block) (bs : List Block) → b.reserved ≡ false → live (b ∷ bs) ≡ live bs
live_unused b bs e = ground arith
