-- ===== src/Heap/Malloc.antt =====
-- `kmalloc` of src/heap.c takes the first block that fits, and nothing else.
use god_os.Base.{
  ℕ, zero, suc, ◌+◌, ◌-◌, ◌/◌, ◌≤◌, ◌<◌, ◌%◌, ◌^◌, ◌≡◌, refl, ap, ◌∙◌, true, ◌||◌, ◌≢◌, List, [],
  ◌∷◌, Option, none, some, arith, if◌then◌else◌, length, ◌==◌, Bool-cases, inl, inr, leb, ltb,
}
use god_os.Base.Bits.{bit_and-mask, bit_and-shift}
use god_os.Heap.{Heap, Outcome, ok, heap_size, rounds, take_block, find_block, round_up, kmalloc}
use god_os.Heap.Blocks.{Block, extent, fits, carve, past, alloc}
use god_os.Heap.Extent.{alloc-extent}
use god_os.Heap.Layout.{header, Lays, Lays-extent, Lays-frame, length-extent}

-- `h'` has the blocks `bs` from `a` on, and is `h` below `a`.
pub record Rewrites (h : Heap) (a : ℕ) (bs : List Block) (h' : Heap) : Type 0 where
  pub start : h'.start ≡ h.start
  pub limit : h'.limit ≡ h.limit
  pub blocks : Lays h'.mem a bs h.limit
  pub below : (x : ℕ) → x < a → h'.mem x ≡ h.mem x

take_block-Rewrites :
    (need a : ℕ) (h : Heap) (b : Block) (bs : List Block)
    → h.mem a ≡ header b
    → Lays h.mem (a + (16 + b.size)) bs h.limit
    → h.limit < 2 ^ 64
    → 16 ≤ need
    → fits need b ≡ true
    → Rewrites h a (carve need b bs) (take_block need a h)
unfolding take_block carve
take_block-Rewrites need a h b bs e l small pos ok_fit =
    let long = Lays-extent h.mem (a + (16 + b.size)) bs h.limit l in
    elim (Bool-cases (leb 32 (b.size - need))) [
      | inl split ↦
          rw (e, split)
            (let room : 32 ≤ b.size - need = ground arith in
              let nb : ((a + 16) % 2 ^ 64 + need) % 2 ^ 64 ≡ a + (16 + need) = omega arith in
              let back : a + (16 + b.size) ≡ a + (16 + need) + (16 + (b.size - need - 16)) =
                omega arith in
              record {
                start = refl;
                limit = refl;
                blocks = (
                  ground arith,
                  (
                    ground arith,
                    Lays-frame h.mem _ (a + (16 + need) + (16 + (b.size - need - 16))) bs h.limit
                        (λ x lo hi. ground arith) (rw back at l),
                  ),
                );
                below = λ x lt. ground arith;
              })
      | inr whole ↦
          rw (e, whole)
            (record {
              start = refl;
              limit = refl;
              blocks = (
                ground arith,
                Lays-frame h.mem _ (a + (16 + b.size)) bs h.limit (λ x lo hi. ground arith) l,
              );
              below = λ x lt. ground arith;
            })
    ]

-- What the loop returns where first fit has the result `r`: null and the same heap, or the address
-- behind the header of the block and the heap with the new blocks.
abbrev pub Found : Heap → ℕ → Option (ℕ × List Block) → Outcome (ℕ × Heap) → Type 0
Found h a none out = out ≡ ok (0, h)
Found h a (some (o, bs)) out = (h' : Heap) × (out ≡ ok (a + (o + 16), h')) × Rewrites h a bs h'

Found-past :
    (h : Heap) (a : ℕ) (b : Block) (r : Option (ℕ × List Block)) (out : Outcome (ℕ × Heap))
    → h.mem a ≡ header b
    → Found h (a + (16 + b.size)) r out
    → Found h a (past b r) out
unfolding past
Found-past h a b none out e f = f
Found-past h a b (some (o, bs)) out e (h', eq, w) = (
  h',
  rw eq (ap (λ p. ok (p, h')) (omega arith)),
  record {
    start = w.start;
    limit = w.limit;
    blocks = (w.below a (omega arith) ∙ e, w.blocks);
    below = λ x lt. w.below x (omega arith);
  },
)

-- Nothing fits behind the last block.
alloc_end : (need : ℕ) (bs : List Block) → extent bs ≡ 0 → alloc need bs ≡ none
unfolding extent alloc
alloc_end need [] e = refl
alloc_end need (b ∷ bs) e = absurd (omega arith)

-- The loop of `kmalloc` is first fit on the blocks that the memory lays out, and one round for each
-- block and one more are enough.
find_block-Found :
    (fuel need a : ℕ) (h : Heap) (bs : List Block)
    → Lays h.mem a bs h.limit
    → h.limit < 2 ^ 64
    → 16 ≤ need
    → length bs < fuel
    → Found h a (alloc need bs) (find_block fuel need a h)
unfolding find_block alloc past
find_block-Found zero need a h bs l small pos enough = absurd (omega arith)
find_block-Found (suc fuel) need a h [] l small pos enough = ground arith
find_block-Found (suc fuel) need a h (b ∷ bs) l small pos enough =
    let e = l.0 in
    let long = Lays-extent h.mem (a + (16 + b.size)) bs h.limit (l.1) in
    let inside : ltb a h.limit ≡ true = ground arith in
    let next : ((a + 16) % 2 ^ 64 + b.size) % 2 ^ 64 ≡ a + (16 + b.size) = omega arith in
    elim (Bool-cases (fits need b)) [
      | inl hit ↦
          let out : find_block (suc fuel) need a h ≡ ok (a + (0 + 16), take_block need a h) =
            ground arith in
          rw (hit, out)
            (take_block need a h, refl, take_block-Rewrites need a h b bs e (l.1) small pos hit)
      | inr miss ↦ elim (Bool-cases (leb h.limit (a + (16 + b.size)))) [
        | inl last ↦
            let out : find_block (suc fuel) need a h ≡ ok (0, h) = ground arith in
            let stop : alloc need bs ≡ none = alloc_end need bs (ground arith) in
            rw (miss, out, stop)
        | inr more ↦
            let out : find_block (suc fuel) need a h ≡ find_block fuel need (a + (16 + b.size)) h =
              ground arith in
            rw (miss, out)
              (Found-past h a b (alloc need bs) _ e
                (find_block-Found fuel need (a + (16 + b.size)) h bs (l.1) small pos (omega arith)))
      ]
    ]

-- `(size + 15) & ~15` is the least multiple of 16 that is not below `size`.
pub round_up_lem :
    (size : ℕ)
    → size ≤ heap_size
    → (round_up size % 16 ≡ 0) × (size ≤ round_up size) × (round_up size < size + 16)
unfolding round_up
round_up_lem size h = omega (
  arith,
  bit_and-shift 4 ((size + 15) % 2 ^ 64) (2 ^ 60 - 1),
  bit_and-mask 60 ((size + 15) % 2 ^ 64 / 2 ^ 4),
)

-- The heap that `heap_init` sets up has its limits, and the memory lays the blocks `bs` out.
pub record Holds (bs : List Block) (h : Heap) : Type 0 where
  pub started : h.start ≢ 0
  pub bounded : h.limit < 2 ^ 64
  pub sized : extent bs ≤ heap_size
  pub laid : Lays h.mem h.start bs h.limit

-- What `kmalloc` returns for first fit's result `r`.
abbrev pub Allocated : Heap → Option (ℕ × List Block) → Outcome (ℕ × Heap) → Type 0
Allocated h none out = out ≡ ok (0, h)
Allocated h (some (o, bs)) out =
    (h' : Heap) × (out ≡ ok (h.start + (o + 16), h')) × (h'.start ≡ h.start) × Holds bs h'

-- A request that `kmalloc` looks for, at its size rounded up.
unfoldable pub request : ℕ → List Block → Option (ℕ × List Block)
request size bs = if size == 0 || ltb heap_size size then none else alloc (round_up size) bs

Allocated-of_Found :
    (h : Heap) (bs : List Block) (r : Option (ℕ × List Block)) (out : Outcome (ℕ × Heap))
    → Holds bs h
    → ((o : ℕ) (bs' : List Block) → r ≡ some (o, bs') → extent bs' ≡ extent bs)
    → Found h h.start r out
    → Allocated h r out
Allocated-of_Found h bs none out v same f = f
Allocated-of_Found h bs (some (o, bs')) out v same (h', eq, w) = (
  h',
  eq,
  w.start,
  record {
    started = rw (w.start) (v.started);
    bounded = rw (w.limit) (v.bounded);
    sized = rw (same o bs' refl) (v.sized);
    laid = rw (w.start, w.limit) (w.blocks);
  },
)

-- A request that is answered is one that first fit answers.
pub request-some :
    (size : ℕ) (bs : List Block) (o : ℕ) (bs' : List Block)
    → request size bs ≡ some (o, bs')
    → (size ≤ heap_size) × (alloc (round_up size) bs ≡ some (o, bs'))
unfolding request
request-some size bs o bs' e = ground arith

-- `kmalloc` answers a request as first fit does, and leaves the blocks that first fit leaves: null
-- and the same heap for 0 bytes, for more than the heap, and where no free block is large enough;
-- otherwise the address behind the header of the first free block that is. It does not panic, and its
-- loop ends.
pub kmalloc_refines :
    (size : ℕ) {bs : List Block} (h : Heap)
    → Holds bs h
    → Allocated h (request size bs) (kmalloc size h)
unfolding kmalloc request
kmalloc_refines size {bs} h v = elim (Bool-cases (size == 0 || ltb heap_size size)) [
  | inl bad ↦ let out : kmalloc size h ≡ ok (0, h) = ground arith in rw (bad, out)
  | inr good ↦
      let out : kmalloc size h ≡ find_block rounds (round_up size) h.start h =
        ground (arith, v.started) in
      let many = length-extent bs in
      let up = round_up_lem size (ground arith) in
      rw (good, out)
        (Allocated-of_Found h bs _ _ v (alloc-extent (round_up size) bs) (
          find_block-Found rounds (round_up size) h.start h bs v.laid v.bounded (ground (arith, up))
            (omega (arith, v.sized))))
]
