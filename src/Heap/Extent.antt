-- ===== src/Heap/Extent.antt =====
-- Allocation and release move the borders of blocks, and keep the bytes that all blocks take.
use god_os.Base.{
  ℕ, ◌+◌, ◌≡◌, refl, true, List, [], ◌∷◌, Option, none, some, ◌++◌, arith, Bool-cases, inl, inr,
}
use god_os.Heap.Blocks.{Block, used, extent, fits, carve, past, alloc, absorb, join, release}

-- A result of `alloc` behind a block comes from a result behind the next.
pub past-some :
    (b : Block) (r : Option (ℕ × List Block)) (o : ℕ) (bs : List Block)
    → past b r ≡ some (o, bs)
    → (o' : ℕ) × (bs' : List Block) × (r ≡ some (o', bs')) × (o ≡ 16 + b.size + o') × (bs ≡ b ∷ bs')
unfolding past
past-some b none o bs e = cc
past-some b (some (o', bs')) o bs e = (o', bs', refl, ground arith, ground arith)

extent-carve :
    (need : ℕ) (b : Block) (bs : List Block)
    → fits need b ≡ true
    → extent (carve need b bs) ≡ extent (b ∷ bs)
unfolding extent carve
extent-carve need b bs h = ground arith

pub alloc-extent :
    (need : ℕ) (bs : List Block) (o : ℕ) (bs' : List Block)
    → alloc need bs ≡ some (o, bs')
    → extent bs' ≡ extent bs
unfolding alloc extent
alloc-extent need [] o bs' e = cc
alloc-extent need (b ∷ bs) o bs' e = elim (Bool-cases (fits need b)) [
  | inl hit ↦ ground (arith, extent-carve need b bs hit)
  | inr miss ↦
      let (o', bs'', eq, _, eq') = past-some b (alloc need bs) o bs' (rw miss at e) in
      ground (arith, alloc-extent need bs o' bs'' eq)
]

pub extent-append : (xs ys : List Block) → extent (xs ++ ys) ≡ extent xs + extent ys
unfolding extent
extent-append [] ys = omega arith
extent-append (b ∷ xs) ys = omega (arith, extent-append xs ys)

extent-absorb :
    (n : ℕ) (bs : List Block) → (absorb n bs).0 + extent ((absorb n bs).1) ≡ n + extent bs
unfolding absorb extent
extent-absorb n [] = omega arith
extent-absorb n (b ∷ bs) = ground (arith, extent-absorb (n + (16 + b.size)) bs)

extent-join :
    (pre : List Block) (n : ℕ) (post : List Block)
    → extent (join pre n post) ≡ extent pre + (16 + n + extent post)
unfolding join extent
extent-join [] n post = omega arith
extent-join (b ∷ []) n post = ground arith
extent-join (b ∷ c ∷ pre) n post = omega (arith, extent-join (c ∷ pre) n post)

pub extent-release :
    (pre : List Block) (n : ℕ) (post : List Block)
    → extent (release pre n post) ≡ extent (pre ++ used n ∷ post)
unfolding release extent
extent-release pre n post = omega (
  arith,
  extent-join pre ((absorb n post).0) ((absorb n post).1),
  extent-absorb n post,
  extent-append pre (used n ∷ post),
)
