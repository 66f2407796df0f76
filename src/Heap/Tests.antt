-- ===== src/Heap/Tests.antt =====
-- Runs of src/heap.c, and its theorems at concrete heaps.
use god_os.Base.{ℕ, ◌+◌, ◌-◌, ◌≡◌, ◌≢◌, refl, List, [], ◌∷◌, arith, ◌==◌, if◌then◌else◌, inl}
use god_os.Heap.{
  Header, Heap, ok, panic, double_free, free_out_of_range, heap_base, heap_size, heap_magic,
  heap_init, take_block, find_block, round_up, kmalloc, kfree,
}
use god_os.Heap.Blocks.{Block, used, hole, extent}
use god_os.Heap.Coalesced.{Tidy}
use god_os.Heap.Malloc.{Holds, Allocated, request, kmalloc_refines}
use god_os.Heap.Free.{kfree_refines}
use god_os.Heap.Guards.{heap_init-Holds, kfree_twice, kfree_outside}
use god_os.Heap.RoundTrip.{Granted, kmalloc-Granted, kfree-kmalloc}
use god_os.Heap.Live.{InUse, kmalloc_keeps, kfree_keeps}
use god_os.Heap.Blocks.{release}

abbrev junk : ℕ → Header
junk x = record { magic = 0; free = 0; size = 0 }

abbrev fresh : Heap
fresh = heap_init junk

abbrev fresh_blocks : List Block
fresh_blocks = hole (heap_size - 16) ∷ []

fresh-Holds : Holds fresh_blocks fresh
fresh-Holds = heap_init-Holds junk

kmalloc_refines_example : Allocated fresh (request 200 fresh_blocks) (kmalloc 200 fresh)
kmalloc_refines_example = kmalloc_refines 200 fresh fresh-Holds

-- Three blocks: 16 bytes in use, 208 free, and the rest in use.
abbrev mixed : Heap
mixed = record {
  start = heap_base;
  limit = heap_base + 16 + 16 + 16 + 208 + 16 + 64;
  mem = λ x.
      if x == heap_base
      then record { magic = heap_magic; free = 0; size = 16 }
      else if x == heap_base + 32
      then record { magic = heap_magic; free = 1; size = 208 }
      else record { magic = heap_magic; free = 0; size = 64 };
}

abbrev mixed_blocks : List Block
mixed_blocks = used 16 ∷ hole 208 ∷ used 64 ∷ []

mixed-Holds : Holds mixed_blocks mixed
unfolding extent
mixed-Holds = record {
  started = omega arith;
  bounded = omega arith;
  sized = omega arith;
  laid = (refl, (refl, (refl, refl)));
}

mixed-Tidy : Tidy mixed_blocks
mixed-Tidy = (refl, refl, (refl, refl, (refl, refl, tt)))

kfree_refines_example :
    (h' : Heap) × (kfree (mixed.start + extent [] + 16) mixed ≡ ok h')
    × Holds (release [] 16 (hole 208 ∷ used 64 ∷ [])) h'
kfree_refines_example = kfree_refines [] 16 (hole 208 ∷ used 64 ∷ []) mixed mixed-Holds

kfree_twice_example : kfree (mixed.start + extent (used 16 ∷ []) + 16) mixed ≡ panic double_free
kfree_twice_example = kfree_twice (used 16 ∷ []) 208 (used 64 ∷ []) mixed mixed-Holds

kfree_outside_example : kfree 8 mixed ≡ (if 8 == 0 then ok mixed else panic free_out_of_range)
kfree_outside_example =
    kfree_outside 8 mixed (omega arith) (inl (omega arith)) (omega arith) (omega arith)

kmalloc_keeps_example :
    (bs' : List Block) × ((o n : ℕ) → InUse mixed_blocks o n → InUse bs' o n)
    × (p : ℕ) × (h' : Heap) × (kmalloc 100 mixed ≡ ok (p, h'))
    × (h'.start ≡ mixed.start)
    × Holds bs' h'
kmalloc_keeps_example = kmalloc_keeps 100 mixed mixed-Holds

kfree_keeps_example :
    (bs' : List Block) × ((o n : ℕ) → o ≢ extent [] → InUse mixed_blocks o n → InUse bs' o n)
    × (h' : Heap) × (kfree (mixed.start + extent [] + 16) mixed ≡ ok h')
    × (h'.start ≡ mixed.start)
    × Holds bs' h'
kfree_keeps_example = kfree_keeps [] 16 (hole 208 ∷ used 64 ∷ []) mixed mixed-Holds

-- What is left of `mixed` once 100 bytes were taken.
abbrev taken : Heap
taken = take_block 112 (heap_base + 32) mixed

taken_runs : kmalloc 100 mixed ≡ ok (heap_base + 48, taken)
unfolding kmalloc find_block round_up take_block
taken_runs = refl

kmalloc-Granted_example : Granted 100 mixed_blocks (heap_base + 48) taken
kmalloc-Granted_example =
    kmalloc-Granted 100 mixed (heap_base + 48) taken mixed-Holds mixed-Tidy taken_runs (omega arith)

kfree-kmalloc_example :
    (h'' : Heap) × (kfree (heap_base + 48) taken ≡ ok h'') × Holds mixed_blocks h''
kfree-kmalloc_example =
    kfree-kmalloc 100 mixed (heap_base + 48) taken mixed-Holds mixed-Tidy taken_runs (omega arith)
