-- ===== src/Heap/Free.antt =====
-- `kfree` of src/heap.c gives a block back and joins it to its free neighbours.
use god_os.Base.{
  ℕ, ◌+◌, ◌-◌, ◌≤◌, ◌<◌, ◌%◌, ◌^◌, ◌≡◌, ◌≢◌, refl, ◌∙◌, List, ◌∷◌, ◌++◌, arith, length,
}
use god_os.Heap.{Heap, ok, rounds, write, merge_back, coalesce, kfree}
use god_os.Heap.Blocks.{Block, used, hole, extent, absorb, release}
use god_os.Heap.Extent.{extent-append, extent-release}
use god_os.Heap.Layout.{header, Lays, Lays-extent, Lays-frame, Lays-split, length-extent}
use god_os.Heap.Malloc.{Rewrites, Holds}
use god_os.Heap.Merge.{
  write-Rewrites, merge_forward-absorb, last_at, find_prev-last_at, merge_back-join,
}

used_total :
    (pre : List Block) (n : ℕ) (post : List Block)
    → extent (pre ++ used n ∷ post) ≡ extent pre + (16 + n + extent post)
unfolding extent
used_total pre n post = omega (arith, extent-append pre (used n ∷ post))

-- At the address of an allocated block the tests of `kfree` pass.
kfree_step :
    (n b : ℕ) (h : Heap)
    → h.mem b ≡ header (used n)
    → h.start ≤ b
    → b < h.limit
    → h.limit < 2 ^ 64
    → kfree (b + 16) h ≡ coalesce b (write h b (header (hole n)))
unfolding kfree
kfree_step n b h e lo hi small =
    let addr : (b + 16 + 2 ^ 64 - 16) % 2 ^ 64 ≡ b = omega arith in rw (addr, e) (ground arith)

-- The block at `b`, already marked free, is joined to its neighbours.
coalesce-release :
    (pre : List Block) (n : ℕ) (post : List Block) (b : ℕ) (h : Heap)
    → h.start ≢ 0
    → Lays h.mem h.start pre b
    → Lays h.mem b (hole n ∷ post) h.limit
    → h.limit < 2 ^ 64
    → length pre < rounds
    → length post < rounds
    → (h' : Heap) × (coalesce b h ≡ ok h') × Rewrites h h.start (release pre n post) h'
unfolding coalesce release
coalesce-release pre n post b h begun front back small short_pre short_post =
    let room = Lays-extent h.mem b (hole n ∷ post) h.limit back in
    let low = Lays-extent h.mem h.start pre b front in
    let (h2, out, w) = merge_forward-absorb rounds b n h post back small short_post in
    let front2 = Lays-frame h.mem h2.mem h.start pre b (λ x lo hi. w.below x hi) front in
    let prev = find_prev-last_at rounds 0 h.start b h2 pre front2 (omega arith) short_pre in
    let w3 =
      merge_back-join h.start b ((absorb n post).0) h2 pre ((absorb n post).1) begun front2
        (rw (w.limit) (w.blocks)) (rw (w.limit) small) in
    (
      merge_back (last_at 0 h.start pre) b h2,
      rw (out, w.start, prev),
      record {
        start = w3.start ∙ w.start;
        limit = w3.limit ∙ w.limit;
        blocks = rw (w.limit) at (w3.blocks);
        below = λ x lt. w3.below x lt ∙ w.below x (omega arith);
      },
    )

pub kfree_in_place :
    (pre : List Block) (n : ℕ) (post : List Block) (h : Heap)
    → Holds (pre ++ used n ∷ post) h
    → (h' : Heap) × (kfree (h.start + extent pre + 16) h ≡ ok h')
      × (h'.start ≡ h.start)
      × Holds (release pre n post) h'
unfolding kfree
kfree_in_place pre n post h v =
    let b = h.start + extent pre in
    let (front, back) = Lays-split h.mem h.start pre (used n ∷ post) h.limit (v.laid) in
    let w = write-Rewrites h b (hole n) post (header (hole n)) refl (back.1) in
    let many_pre = length-extent pre in
    let many_post = length-extent post in
    let total = used_total pre n post in
    let bounds = v.sized in
    let (h', out, w') =
      coalesce-release pre n post b (write h b (header (hole n))) (v.started)
        (Lays-frame h.mem _ h.start pre b (λ x lo hi. w.below x hi) front) (w.blocks) (v.bounded)
        (omega arith) (omega arith) in
    let room = Lays-extent h.mem (b + (16 + n)) post h.limit (back.1) in
    let step : kfree (b + 16) h ≡ coalesce b (write h b (header (hole n))) =
      kfree_step n b h (back.0) (omega arith) (omega arith) (v.bounded) in
    (
      h',
      step ∙ out,
      w'.start,
      record {
        started = rw (w'.start) (v.started);
        bounded = rw (w'.limit) (v.bounded);
        sized = rw (extent-release pre n post) (v.sized);
        laid = rw (w'.start, w'.limit) (w'.blocks);
      },
    )

-- Given the address behind the header of an allocated block of `n` bytes, `kfree` returns: the block
-- becomes free and is joined to the free blocks behind it and to a free block before it, and every
-- other block stays where it is.
pub kfree_refines :
    (pre : List Block) (n : ℕ) (post : List Block) (h : Heap)
    → Holds (pre ++ used n ∷ post) h
    → (h' : Heap) × (kfree (h.start + extent pre + 16) h ≡ ok h') × Holds (release pre n post) h'
kfree_refines pre n post h v =
    let (h', out, start, w) = kfree_in_place pre n post h v in (h', out, w)
