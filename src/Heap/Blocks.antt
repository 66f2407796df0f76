-- ===== src/Heap/Blocks.antt =====
-- What the heap promises, on the list of its blocks in address order.
use god_os.Base.{
  ℕ, ◌+◌, ◌-◌, Bool, true, false, ◌&&◌, Option, none, some, List, [], ◌∷◌, leb, if◌then◌else◌,
}

pub record Block : Type 0 where
  pub free : Bool
  pub size : ℕ

abbrev pub used : ℕ → Block
used n = record { free = false; size = n }

abbrev pub hole : ℕ → Block
hole n = record { free = true; size = n }

-- The bytes that the blocks take, headers included.
unfoldable pub extent : List Block → ℕ
extent [] = 0
extent (b ∷ bs) = 16 + b.size + extent bs

unfoldable pub free_total : List Block → ℕ
free_total [] = 0
free_total (b ∷ bs) = (if b.free then b.size else 0) + free_total bs

-- A block of at least `need` bytes, taken: split where a header and 16 bytes remain.
unfoldable pub carve : ℕ → Block → List Block → List Block
carve need b bs =
    if leb 32 (b.size - need) then used need ∷ hole (b.size - need - 16) ∷ bs else used b.size ∷ bs

abbrev pub fits : ℕ → Block → Bool
fits need b = b.free && leb need b.size

-- A result of the blocks behind `b`, seen from `b`.
unfoldable pub past : Block → Option (ℕ × List Block) → Option (ℕ × List Block)
past b none = none
past b (some (o, bs)) = some (16 + b.size + o, b ∷ bs)

-- First fit: the offset of the block that was taken, and the blocks afterwards.
unfoldable pub alloc : ℕ → List Block → Option (ℕ × List Block)
alloc need [] = none
alloc need (b ∷ bs) = if fits need b then some (0, carve need b bs) else past b (alloc need bs)

-- A hole of `n` bytes takes up the free blocks right behind it: its size then, and the blocks left.
unfoldable pub absorb : ℕ → List Block → ℕ × List Block
absorb n [] = (n, [])
absorb n (b ∷ bs) = if b.free then absorb (n + (16 + b.size)) bs else (n, b ∷ bs)

-- A hole of `n` bytes between `pre` and `post`: it joins a free block at the end of `pre`.
unfoldable pub join : List Block → ℕ → List Block → List Block
join [] n post = hole n ∷ post
join (b ∷ []) n post = if b.free then hole (b.size + (16 + n)) ∷ post else b ∷ hole n ∷ post
join (b ∷ c ∷ pre) n post = b ∷ join (c ∷ pre) n post

-- The block of `n` bytes between `pre` and `post` is given back.
unfoldable pub release : List Block → ℕ → List Block → List Block
release pre n post = let (m, rest) = absorb n post in join pre m rest
