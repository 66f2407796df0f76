-- ===== src/Heap/Coalesced.antt =====
-- The shape of the block list that src/heap.c keeps: sizes are multiples of 16, and no two free blocks
-- are neighbours.
use god_os.Base.{
  ℕ, ◌+◌, ◌%◌, ◌≡◌, refl, Bool, true, false, ◌&&◌, List, [], ◌∷◌, Option, some, ◌++◌, arith,
  Bool-cases, inl, inr,
}
use god_os.Heap.Blocks.{Block, used, hole, fits, carve, alloc, absorb, join, release}
use god_os.Heap.Extent.{past-some}

abbrev pub starts_free : List Block → Bool
starts_free [] = false
starts_free (b ∷ bs) = b.free

abbrev pub Tidy : List Block → Type 0
Tidy [] = Unit
Tidy (b ∷ bs) = (b.size % 16 ≡ 0) × ((b.free && starts_free bs) ≡ false) × Tidy bs

Tidy-carve :
    (need : ℕ) (b : Block) (bs : List Block)
    → need % 16 ≡ 0
    → fits need b ≡ true
    → Tidy (b ∷ bs)
    → Tidy (carve need b bs)
unfolding carve
Tidy-carve need b bs whole fit t = ground arith

pub some_pair :
    (o o' : ℕ) (bs bs' : List Block)
    → ◌≡◌ {A = Option (ℕ × List Block)} (some (o, bs)) (some (o', bs'))
    → (o ≡ o') × (bs ≡ bs')
some_pair o o' bs bs' e = ground arith

starts_free-join :
    (d : Block) (pre : List Block) (m : ℕ) (rest : List Block)
    → starts_free (join (d ∷ pre) m rest) ≡ d.free
unfolding join
starts_free-join d [] m rest = ground arith
starts_free-join d (c ∷ pre) m rest = refl

starts_free-carve : (need : ℕ) (b : Block) (bs : List Block) → starts_free (carve need b bs) ≡ false
unfolding carve
starts_free-carve need b bs = ground arith

starts_free-alloc :
    (need : ℕ) (bs : List Block) (o : ℕ) (bs' : List Block)
    → alloc need bs ≡ some (o, bs')
    → starts_free bs ≡ false
    → starts_free bs' ≡ false
unfolding alloc
starts_free-alloc need [] o bs' e h = cc
starts_free-alloc need (b ∷ bs) o bs' e h =
    let (o', bs'', eq, _, eq') = past-some b (alloc need bs) o bs' (ground arith) in ground arith

pub alloc-Tidy :
    (need : ℕ) (bs : List Block) (o : ℕ) (bs' : List Block)
    → need % 16 ≡ 0
    → Tidy bs
    → alloc need bs ≡ some (o, bs')
    → (o % 16 ≡ 0) × Tidy bs'
unfolding alloc
alloc-Tidy need [] o bs' whole t e = cc
alloc-Tidy need (b ∷ bs) o bs' whole t e = elim (Bool-cases (fits need b)) [
  | inl hit ↦
      let eq : some (0, carve need b bs) ≡ some (o, bs') = rw hit at e in
      let tidy = Tidy-carve need b bs whole hit t in
      let (off, same) = some_pair 0 o (carve need b bs) bs' eq in (omega arith, rw same at tidy)
  | inr miss ↦
      let (o', bs'', eq, off, eq') = past-some b (alloc need bs) o bs' (rw miss at e) in
      let (low, tidy) = alloc-Tidy need bs o' bs'' whole (t.2) eq in
      (omega arith, rw eq' (t.0, ground (arith, t.1, starts_free-alloc need bs o' bs'' eq), tidy))
]

absorb-Tidy :
    (n : ℕ) (bs : List Block)
    → n % 16 ≡ 0
    → Tidy bs
    → Tidy (hole ((absorb n bs).0) ∷ (absorb n bs).1)
unfolding absorb
absorb-Tidy n [] whole t = (whole, refl, tt)
absorb-Tidy n (b ∷ bs) whole t = ground (arith, absorb-Tidy (n + (16 + b.size)) bs)

Tidy-tail : (pre bs : List Block) → Tidy (pre ++ bs) → Tidy bs
Tidy-tail [] bs t = t
Tidy-tail (b ∷ pre) bs t = Tidy-tail pre bs (t.2)

join-Tidy :
    (pre : List Block) (b : Block) (bs : List Block) (m : ℕ) (rest : List Block)
    → Tidy (pre ++ b ∷ bs)
    → Tidy (hole m ∷ rest)
    → Tidy (join pre m rest)
unfolding join
join-Tidy [] b bs m rest t u = u
join-Tidy (c ∷ []) b bs m rest t u = ground arith
join-Tidy (c ∷ d ∷ pre) b bs m rest t u = (
  t.0,
  ground (arith, t.1, starts_free-join d pre m rest),
  join-Tidy (d ∷ pre) b bs m rest (t.2) u,
)

release-Tidy :
    (pre : List Block) (n : ℕ) (post : List Block)
    → Tidy (pre ++ used n ∷ post)
    → Tidy (release pre n post)
unfolding release
release-Tidy pre n post t =
    let (whole, _, behind) = Tidy-tail pre (used n ∷ post) t in
    join-Tidy pre (used n) post _ _ t (absorb-Tidy n post whole behind)
