-- ===== src/Heap/Layout.antt =====
-- The headers in memory lay out a list of blocks, one behind the other.
use god_os.Base.{ℕ, ◌+◌, ◌*◌, ◌≤◌, ◌<◌, ◌≡◌, ◌∙◌, List, [], ◌∷◌, ◌++◌, arith, if◌then◌else◌, length}
use god_os.Heap.{Header, heap_magic}
use god_os.Heap.Blocks.{Block, extent}

abbrev pub header : Block → Header
header b = record { magic = heap_magic; free = if b.free then 1 else 0; size = b.size }

-- From address `a` on, the headers describe `bs`, and the last block ends at `e`.
abbrev pub Lays : (ℕ → Header) → ℕ → List Block → ℕ → Type 0
Lays mem a [] e = a ≡ e
Lays mem a (b ∷ bs) e = (mem a ≡ header b) × Lays mem (a + (16 + b.size)) bs e

pub Lays-extent :
    (mem : ℕ → Header) (a : ℕ) (bs : List Block) (e : ℕ) → Lays mem a bs e → a + extent bs ≡ e
unfolding extent
Lays-extent mem a [] e l = omega arith
Lays-extent mem a (b ∷ bs) e l = omega (arith, Lays-extent mem (a + (16 + b.size)) bs e (l.1))

-- Each block has a header of 16 bytes.
pub length-extent : (bs : List Block) → length bs * 16 ≤ extent bs
unfolding extent
length-extent [] = omega arith
length-extent (b ∷ bs) = omega (arith, length-extent bs)

-- A write outside the run changes nothing of it.
pub Lays-frame :
    (mem mem' : ℕ → Header) (a : ℕ) (bs : List Block) (e : ℕ)
    → ((x : ℕ) → a ≤ x → x < e → mem' x ≡ mem x)
    → Lays mem a bs e
    → Lays mem' a bs e
Lays-frame mem mem' a [] e same l = l
Lays-frame mem mem' a (b ∷ bs) e same l =
    let long = Lays-extent mem (a + (16 + b.size)) bs e (l.1) in
    (
      same a (omega arith) (omega arith) ∙ l.0,
      Lays-frame mem mem' (a + (16 + b.size)) bs e (λ x lo hi. same x (omega arith) hi) (l.1),
    )

Lays-append :
    (mem : ℕ → Header) (a : ℕ) (xs : List Block) (m : ℕ) (ys : List Block) (e : ℕ)
    → Lays mem a xs m
    → Lays mem m ys e
    → Lays mem a (xs ++ ys) e
Lays-append mem a [] m ys e l r = rw l r
Lays-append mem a (b ∷ xs) m ys e l r = (l.0, Lays-append mem (a + (16 + b.size)) xs m ys e (l.1) r)

-- The parts of a run before and behind a place in the list.
pub Lays-split :
    (mem : ℕ → Header) (a : ℕ) (xs ys : List Block) (e : ℕ)
    → Lays mem a (xs ++ ys) e
    → Lays mem a xs (a + extent xs) × Lays mem (a + extent xs) ys e
unfolding extent
Lays-split mem a [] ys e l = let same : a + 0 ≡ a = omega arith in (omega arith, rw same l)
Lays-split mem a (b ∷ xs) ys e l =
    let (front, back) = Lays-split mem (a + (16 + b.size)) xs ys e (l.1) in
    let same : a + (16 + b.size) + extent xs ≡ a + (16 + b.size + extent xs) = omega arith in
    ((l.0, rw same at front), rw same at back)
