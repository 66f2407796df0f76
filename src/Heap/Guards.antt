-- ===== src/Heap/Guards.antt =====
-- The calls of `kfree` in src/heap.c that do not free: null, addresses outside, a block that is free
-- already. `heap_init`, and the count of `heap_free_bytes`.
use god_os.Base.{
  ℕ, zero, suc, ◌+◌, ◌-◌, ◌≤◌, ◌<◌, ◌%◌, ◌^◌, ◌≡◌, refl, ap, ◌∙◌, ◌⊎◌, List, [], ◌∷◌, ◌++◌, arith,
  if◌then◌else◌, length, ◌==◌,
}
use god_os.Heap.{
  Header, Heap, ok, panic, double_free, free_out_of_range, heap_size, rounds, heap_init, kfree,
  sum_free, heap_free_bytes,
}
use god_os.Heap.Blocks.{Block, hole, extent, free_total}
use god_os.Heap.Layout.{Lays, Lays-extent, Lays-split, length-extent}
use god_os.Heap.Malloc.{Holds}

-- `heap_init` leaves one free block over the whole region, whatever was in memory.
pub heap_init-Holds : (mem : ℕ → Header) → Holds (hole (heap_size - 16) ∷ []) (heap_init mem)
unfolding heap_init extent
heap_init-Holds mem = record {
  started = omega arith;
  bounded = omega arith;
  sized = omega arith;
  laid = (refl, refl);
}

-- Freeing a block that is free already stops the kernel with the double-free message.
pub kfree_twice :
    (pre : List Block) (n : ℕ) (post : List Block) (h : Heap)
    → Holds (pre ++ hole n ∷ post) h
    → kfree (h.start + extent pre + 16) h ≡ panic double_free
unfolding kfree
kfree_twice pre n post h v =
    let b = h.start + extent pre in
    let (front, back) = Lays-split h.mem h.start pre (hole n ∷ post) h.limit (v.laid) in
    let room = Lays-extent h.mem (b + (16 + n)) post h.limit (back.1) in
    let small = v.bounded in
    let addr : (b + 16 + 2 ^ 64 - 16) % 2 ^ 64 ≡ b = omega arith in rw (addr, back.0) (ground arith)

-- A pointer whose header would lie outside of the heap stops the kernel, and null is ignored.
pub kfree_outside :
    (ptr : ℕ) (h : Heap)
    → ptr < 2 ^ 64
    → (ptr < h.start + 16) ⊎ (h.limit + 16 ≤ ptr)
    → 16 ≤ h.start
    → h.limit + 16 ≤ 2 ^ 64
    → kfree ptr h ≡ (if ptr == 0 then ok h else panic free_out_of_range)
unfolding kfree
kfree_outside ptr h word out lo hi = ground arith

sum_free-total :
    (fuel acc a : ℕ) (h : Heap) (bs : List Block)
    → Lays h.mem a bs h.limit
    → h.limit < 2 ^ 64
    → acc + free_total bs < 2 ^ 64
    → length bs < fuel
    → sum_free fuel acc a h ≡ ok (acc + free_total bs)
unfolding sum_free free_total extent
sum_free-total zero acc a h bs l small sum enough = absurd (omega arith)
sum_free-total (suc fuel) acc a h [] l small sum enough = ground arith
sum_free-total (suc fuel) acc a h (b ∷ []) l small sum enough = ground arith
sum_free-total (suc fuel) acc a h (b ∷ c ∷ bs) l small sum enough =
    let long = Lays-extent h.mem (a + (16 + b.size)) (c ∷ bs) h.limit (l.1) in
    let step : sum_free (suc fuel) acc a h
        ≡ sum_free fuel (acc + (if b.free then b.size else 0)) (a + (16 + b.size)) h =
      ground arith in
    let rest =
      sum_free-total fuel (acc + (if b.free then b.size else 0)) (a + (16 + b.size)) h (c ∷ bs)
        (l.1) small (ground arith) (omega arith) in
    step ∙ rest ∙ ap (λ n. ok n) (omega arith)

free_total-extent : (bs : List Block) → free_total bs ≤ extent bs
unfolding free_total extent
free_total-extent [] = omega arith
free_total-extent (b ∷ bs) = ground (arith, free_total-extent bs)

-- `heap_free_bytes` returns the sizes of the free blocks together, and ends.
pub heap_free_bytes_lem :
    {bs : List Block} (h : Heap) → Holds bs h → heap_free_bytes h ≡ ok (free_total bs)
unfolding heap_free_bytes
heap_free_bytes_lem {bs} h v =
    let many = length-extent bs in
    let few = free_total-extent bs in
    let sized = v.sized in
    sum_free-total rounds 0 h.start h bs (v.laid) (v.bounded) (omega arith) (omega arith)
    ∙ ap (λ n. ok n) (omega arith)
