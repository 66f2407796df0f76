-- ===== src/Heap.antt =====
-- src/heap.c and heap.h: the first-fit kernel heap. Memory is read and written at block headers, so
-- it is a map from addresses to headers; `heap_panic`, which does not return, is an outcome.
pub mod Blocks
pub mod Extent
pub mod Layout
pub mod Malloc
pub mod Merge
pub mod Free
pub mod Guards
pub mod Coalesced
pub mod RoundTrip
pub mod Live
mod Tests
use god_os.Base.{
  ℕ, zero, suc, ◌+◌, ◌-◌, ◌*◌, ◌/◌, ◌%◌, ◌^◌, ◌≡◌, Bool, true, false, not, ◌&&◌, ◌||◌, bit_and, ltb,
  leb, ◌==◌, if◌then◌else◌,
}

abbrev pub heap_magic : ℕ
heap_magic = 0x48454150

abbrev pub heap_base : ℕ
heap_base = 0xFFFF800000000000

abbrev pub heap_size : ℕ
heap_size = 0x01000000

-- `sizeof(block_t)`
abbrev pub header_size : ℕ
header_size = 16

-- `block_t`
pub record Header : Type 0 where
  pub magic : ℕ
  pub free : ℕ
  pub size : ℕ

-- `heap_start` and `heap_end` with the headers in memory; a null pointer is 0.
pub record Heap : Type 0 where
  pub start : ℕ
  pub limit : ℕ
  pub mem : ℕ → Header

pub data Panic : Type 0 where
  corrupt_in_kmalloc free_out_of_range free_bad_magic double_free bad_forward
        corrupt_in_free_bytes :
      Panic

pub data Outcome (A : Type 0) : Type 0 where
  ok : A → Outcome A
  panic : Panic → Outcome A
  out_of_fuel : Outcome A

infixl 5 ◌>>=◌
abbrev pub ◌>>=◌ : {A B : Type 0} → Outcome A → (A → Outcome B) → Outcome B
ok a >>= f = f a
panic p >>= f = panic p
out_of_fuel >>= f = out_of_fuel

-- Pointer and `size_t` addition.
abbrev pub add64 : ℕ → ℕ → ℕ
add64 a b = (a + b) % 2 ^ 64

abbrev pub write : Heap → ℕ → Header → Heap
write h a v = record h { mem = λ x. if x == a then v else h.mem x }

-- `(uint8_t *)b + sizeof(block_t) + b->size`
abbrev pub next_block : Heap → ℕ → ℕ
next_block h b = add64 (add64 b header_size) (h.mem b).size

-- One round for each block that fits, and one to see the end.
abbrev pub rounds : ℕ
rounds = heap_size / header_size + 1

pub heap_init : (ℕ → Header) → Heap
heap_init mem =
    write (record { start = heap_base; limit = heap_base + heap_size; mem = mem }) heap_base
      (record { magic = heap_magic; free = 1; size = heap_size - header_size })

-- The body of the `if` in `kmalloc`: split the block where a header and 16 bytes remain.
pub take_block : ℕ → ℕ → Heap → Heap
take_block need b h =
    let hd = h.mem b in
    let remain = hd.size - need in
    let nb = add64 (add64 b header_size) need in
    if leb (header_size + 16) remain
    then write (write h nb (record { magic = heap_magic; free = 1; size = remain - header_size })) b
        (record hd { free = 0; size = need })
    else write h b (record hd { free = 0 })

-- The loop of `kmalloc`.
pub find_block : ℕ → ℕ → ℕ → Heap → Outcome (ℕ × Heap)
find_block zero need b h = out_of_fuel
find_block (suc fuel) need b h =
    let hd = h.mem b in
    let next = next_block h b in
    let rest = find_block fuel need next h in
    if not (ltb b h.limit)
    then ok (0, h)
    else if not (hd.magic == heap_magic)
    then panic corrupt_in_kmalloc
    else if not (hd.free == 0) && leb need hd.size
    then ok (add64 b header_size, take_block need b h)
    else if leb h.limit next
    then ok (0, h)
    else rest

-- `(size + 15) & ~15` on `size_t`.
pub round_up : ℕ → ℕ
round_up size = bit_and ((size + 15) % 2 ^ 64) (2 ^ 64 - 16)

pub kmalloc : ℕ → Heap → Outcome (ℕ × Heap)
kmalloc size h =
    if size == 0 || (ltb heap_size size || h.start == 0)
    then ok (0, h)
    else find_block rounds (round_up size) h.start h

-- The forward loop of `kfree`: absorb the free blocks behind `b`.
pub merge_forward : ℕ → ℕ → Heap → Outcome Heap
merge_forward zero b h = out_of_fuel
merge_forward (suc fuel) b h =
    let hd = h.mem b in
    let next = next_block h b in
    let nx = h.mem next in
    let rest =
      merge_forward fuel b
        (write h b (record hd { size = add64 hd.size (add64 header_size nx.size) })) in
    if leb h.limit next
    then ok h
    else if not (nx.magic == heap_magic)
    then panic bad_forward
    else if nx.free == 0
    then ok h
    else rest

-- The walk of `kfree` from the start to the block before `b`; 0 is the null `prev`.
pub find_prev : ℕ → ℕ → ℕ → ℕ → Heap → Outcome ℕ
find_prev zero prev cur b h = out_of_fuel
find_prev (suc fuel) prev cur b h =
    let rest = find_prev fuel cur (next_block h cur) b h in if ltb cur b then rest else ok prev

-- The last step of `kfree`: join `b` to a free block before it.
pub merge_back : ℕ → ℕ → Heap → Heap
merge_back prev b h =
    let pv = h.mem prev in
    if not (prev == 0) && not (pv.free == 0)
    then write h prev (record pv { size = add64 pv.size (add64 header_size (h.mem b).size) })
    else h

-- What `kfree` does once the block at `b` is marked free.
pub coalesce : ℕ → Heap → Outcome Heap
coalesce b h = do
  h' ← merge_forward rounds b h
  prev ← find_prev rounds 0 h'.start b h'
  ok (merge_back prev b h')

pub kfree : ℕ → Heap → Outcome Heap
kfree ptr h =
    let b = (ptr + 2 ^ 64 - header_size) % 2 ^ 64 in
    let hd = h.mem b in
    if ptr == 0
    then ok h
    else if ltb b h.start || leb h.limit b
    then panic free_out_of_range
    else if not (hd.magic == heap_magic)
    then panic free_bad_magic
    else if not (hd.free == 0)
    then panic double_free
    else coalesce b (write h b (record hd { free = 1 }))

-- The loop of `heap_free_bytes`.
pub sum_free : ℕ → ℕ → ℕ → Heap → Outcome ℕ
sum_free zero total b h = out_of_fuel
sum_free (suc fuel) total b h =
    let hd = h.mem b in
    let next = next_block h b in
    let total' = if hd.free == 0 then total else add64 total hd.size in
    let rest = sum_free fuel total' next h in
    if not (ltb b h.limit)
    then ok total
    else if not (hd.magic == heap_magic)
    then panic corrupt_in_free_bytes
    else if leb h.limit next
    then ok total'
    else rest

pub heap_free_bytes : Heap → Outcome ℕ
heap_free_bytes h = sum_free rounds 0 h.start h
