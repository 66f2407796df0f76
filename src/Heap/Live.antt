-- ===== src/Heap/Live.antt =====
-- `kmalloc` and `kfree` of src/heap.c never move, shrink or free a block that another caller has.
use god_os.Base.{
  ℕ, ◌+◌, ◌-◌, ◌≤◌, ◌≡◌, ◌≢◌, refl, true, false, ◌⊎◌, List, [], ◌∷◌, Option, some, none, ◌++◌,
  arith, Bool-cases, inl, inr, leb,
}
use god_os.Heap.{Heap, ok, kmalloc, kfree, round_up}
use god_os.Heap.Blocks.{Block, used, hole, extent, fits, carve, alloc, absorb, join, release}
use god_os.Heap.Extent.{past-some}
use god_os.Heap.Coalesced.{some_pair}
use god_os.Heap.Malloc.{Holds, Allocated, request, request-some, kmalloc_refines}
use god_os.Heap.Merge.{absorb-kept, absorb-taken, join-free, join-used}
use god_os.Heap.Free.{kfree_in_place}

-- A block of `n` bytes that is in use stands `o` bytes into the run.
abbrev pub InUse : List Block → ℕ → ℕ → Type 0
InUse [] o n = ⊥
InUse (b ∷ bs) o n =
    ((o ≡ 0) × (b.free ≡ false) × (b.size ≡ n))
    ⊎ ((16 + b.size ≤ o) × InUse bs (o - (16 + b.size)) n)

InUse-at : (bs : List Block) (o o' n : ℕ) → o ≡ o' → InUse bs o n → InUse bs o' n
InUse-at bs o o' n e u = rw e at u

carve_keeps :
    (need : ℕ) (b : Block) (bs : List Block) (o n : ℕ)
    → fits need b ≡ true
    → InUse (b ∷ bs) o n
    → InUse (carve need b bs) o n
unfolding carve
carve_keeps need b bs o n hit u = elim (Bool-cases (leb 32 (b.size - need))) [
  | inl split ↦ rw split (
      ground
        (arith, InUse-at bs (o - (16 + b.size)) (o - (16 + need) - (16 + (b.size - need - 16))) n))
  | inr whole ↦ rw whole (ground arith)
]

alloc_keeps :
    (need : ℕ) (bs : List Block) (o' : ℕ) (bs' : List Block) (o n : ℕ)
    → alloc need bs ≡ some (o', bs')
    → InUse bs o n
    → InUse bs' o n
unfolding alloc
alloc_keeps need [] o' bs' o n e u = absurd u
alloc_keeps need (b ∷ bs) o' bs' o n e u = elim (Bool-cases (fits need b)) [
  | inl hit ↦
      let (off, same) = some_pair 0 o' (carve need b bs) bs' (rw hit at e) in
      rw (← same) (carve_keeps need b bs o n hit u)
  | inr miss ↦
      let (o'', bs'', eq, off, eq') = past-some b (alloc need bs) o' bs' (rw miss at e) in
      rw eq' (ground (arith, alloc_keeps need bs o'' bs'' (o - (16 + b.size)) n eq))
]

-- Two free neighbours seen as one.
merged_keeps :
    (b : Block) (m : ℕ) (bs : List Block) (k o n : ℕ)
    → b.free ≡ true
    → k ≡ b.size + (16 + m)
    → InUse (b ∷ hole m ∷ bs) o n ⊎ InUse (hole m ∷ b ∷ bs) o n
    → InUse (hole k ∷ bs) o n
merged_keeps b m bs k o n open_block e u = ground (
  arith,
  InUse-at bs (o - (16 + b.size) - (16 + m)) (o - (16 + k)) n,
  InUse-at bs (o - (16 + m) - (16 + b.size)) (o - (16 + k)) n,
)

absorb_keeps :
    (m : ℕ) (bs : List Block) (o n : ℕ)
    → InUse (hole m ∷ bs) o n
    → InUse (hole ((absorb m bs).0) ∷ (absorb m bs).1) o n
absorb_keeps m [] o n u = unfold absorb in u
absorb_keeps m (b ∷ bs) o n u = elim (Bool-cases b.free) [
  | inl taken ↦ rw (absorb-taken m b bs taken) (
      absorb_keeps (m + (16 + b.size)) bs o n
        (merged_keeps b m bs _ o n taken (omega arith) (inr u)))
  | inr kept ↦ rw (absorb-kept m b bs kept) u
]

InUse-append :
    (pre xs ys : List Block) (o n : ℕ)
    → ((k : ℕ) → o ≡ extent pre + k → InUse xs k n → InUse ys k n)
    → InUse (pre ++ xs) o n
    → InUse (pre ++ ys) o n
unfolding extent
InUse-append [] xs ys o n f u = f o (omega arith) u
InUse-append (b ∷ pre) xs ys o n f (inl here) = inl here
InUse-append (b ∷ pre) xs ys o n f (inr (far, u)) =
    inr (far, InUse-append pre xs ys (o - (16 + b.size)) n (λ k e. f k (omega arith)) u)

one_keeps :
    (b : Block) (m : ℕ) (rest : List Block) (o n : ℕ)
    → InUse (b ∷ hole m ∷ rest) o n
    → InUse (join (b ∷ []) m rest) o n
one_keeps b m rest o n u = elim (Bool-cases b.free) [
  | inl open_block ↦
      rw (join-free b m rest open_block) (merged_keeps b m rest _ o n open_block refl (inl u))
  | inr closed ↦ rw (join-used b m rest closed) u
]

join_keeps :
    (pre : List Block) (m : ℕ) (rest : List Block) (o n : ℕ)
    → InUse (pre ++ hole m ∷ rest) o n
    → InUse (join pre m rest) o n
unfolding join
join_keeps [] m rest o n u = u
join_keeps (b ∷ []) m rest o n u = one_keeps b m rest o n u
join_keeps (b ∷ c ∷ pre) m rest o n (inl here) = inl here
join_keeps (b ∷ c ∷ pre) m rest o n (inr (far, u)) = inr (far, join_keeps (c ∷ pre) m rest _ n u)

release_keeps :
    (pre : List Block) (m : ℕ) (post : List Block) (o n : ℕ)
    → o ≢ extent pre
    → InUse (pre ++ used m ∷ post) o n
    → InUse (release pre m post) o n
unfolding release
release_keeps pre m post o n other u =
    join_keeps pre _ _ o n
      (InUse-append pre (used m ∷ post) _ o n (λ k e v. absorb_keeps m post k n (ground arith)) u)

-- Every block in use before a `kmalloc` is in use after it, at the same address and with the same
-- size.
pub kmalloc_keeps :
    (size : ℕ) {bs : List Block} (h : Heap)
    → Holds bs h
    → (bs' : List Block) × ((o n : ℕ) → InUse bs o n → InUse bs' o n)
      × (p : ℕ) × (h' : Heap) × (kmalloc size h ≡ ok (p, h'))
      × (h'.start ≡ h.start)
      × Holds bs' h'
kmalloc_keeps size {bs} h v = keeps (request size bs) refl (kmalloc_refines size h v)
  where
    keeps :
        (r : Option (ℕ × List Block))
        → request size bs ≡ r
        → Allocated h r (kmalloc size h)
        → (bs' : List Block) × ((o n : ℕ) → InUse bs o n → InUse bs' o n)
          × (p : ℕ) × (h' : Heap) × (kmalloc size h ≡ ok (p, h'))
          × (h'.start ≡ h.start)
          × Holds bs' h'
    keeps none e out = (bs, λ o n u. u, 0, h, out, refl, v)
    keeps (some (o', bs')) e (h', out, start, w) = (
      bs',
      λ o n. alloc_keeps (round_up size) bs o' bs' o n ((request-some size bs o' bs' e).1),
      h.start + (o' + 16),
      h',
      out,
      start,
      w,
    )

-- `kfree` of a block in use returns and leaves the start of the heap in place; every other block in use
-- before it is in use after it, at the same address and with the same
-- size.
pub kfree_keeps :
    (pre : List Block) (m : ℕ) (post : List Block) (h : Heap)
    → Holds (pre ++ used m ∷ post) h
    → (bs' : List Block) × ((o n : ℕ)
        → o ≢ extent pre
        → InUse (pre ++ used m ∷ post) o n
        → InUse bs' o n)
      × (h' : Heap) × (kfree (h.start + extent pre + 16) h ≡ ok h')
      × (h'.start ≡ h.start)
      × Holds bs' h'
kfree_keeps pre m post h v =
    let (h', out, start, w) = kfree_in_place pre m post h v in
    (release pre m post, release_keeps pre m post, h', out, start, w)
