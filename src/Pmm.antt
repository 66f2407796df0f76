-- ===== src/Pmm.antt =====
-- src/pmm.c and pmm.h: the bitmap allocator of 4 KB physical frames below 1 GB. The static variables
-- are the fields of `Pmm`; the bitmap is a map from byte indices to bytes, one bit for each frame.
pub mod Bitmap
pub mod Ranges
pub mod Count
pub mod Invariant
pub mod Alloc
pub mod Init
pub mod Exclusive
mod Tests
use god_os.Base.{
  ℕ, zero, suc, ◌+◌, ◌-◌, ◌*◌, ◌/◌, ◌%◌, ◌^◌, ◌≡◌, Bool, true, false, not, ◌&&◌, ◌||◌, bit_and,
  bit_or, Option, none, some, List, [], ◌∷◌, ltb, leb, ◌==◌, if◌then◌else◌,
}
use god_os.Base.Loop.{count_to}

abbrev pub frame_size : ℕ
frame_size = 4096

-- 1 GB
abbrev pub max_phys : ℕ
max_phys = 0x40000000

abbrev pub frame_count : ℕ
frame_count = max_phys / frame_size

abbrev pub bitmap_bytes : ℕ
bitmap_bytes = frame_count / 8

abbrev pub low_reserved : ℕ
low_reserved = 0x100000

abbrev pub Bitmap : Type 0
Bitmap = ℕ → ℕ

pub record Pmm : Type 0 where
  pub bitmap : Bitmap
  pub free_frames : ℕ
  pub hint : ℕ
  pub mb_info : ℕ
  pub info_end : ℕ
  pub max_end : ℕ

-- `mb2_range_t`
pub record Range : Type 0 where
  pub base : ℕ
  pub length : ℕ

-- `x & ~(PMM_FRAME_SIZE - 1)` on a 64-bit word.
pub align_down_4k : ℕ → ℕ
align_down_4k x = bit_and x (2 ^ 64 - frame_size)

pub align_up_4k : ℕ → ℕ
align_up_4k x = align_down_4k ((x + frame_size - 1) % 2 ^ 64)

abbrev pub store : Bitmap → ℕ → ℕ → Bitmap
store bm i v = λ j. if j == i then v else bm j

unfoldable pub bit_test : Bitmap → ℕ → ℕ
bit_test bm frame = bit_and (bm (frame / 2 ^ 3) / 2 ^ (bit_and frame 7)) 1

unfoldable pub bit_set : ℕ → Bitmap → Bitmap
bit_set frame bm =
    store bm (frame / 2 ^ 3) (bit_or (bm (frame / 2 ^ 3)) (2 ^ (bit_and frame 7) % 256))

-- `(uint8_t)~(1u << k)` is 255 less the bit.
unfoldable pub bit_clear : ℕ → Bitmap → Bitmap
bit_clear frame bm =
    store bm (frame / 2 ^ 3) (bit_and (bm (frame / 2 ^ 3)) (255 - 2 ^ (bit_and frame 7) % 256))

-- `for (pa = first; pa < last; pa += PMM_FRAME_SIZE) op(pa / PMM_FRAME_SIZE)`.
pub each_frame : (ℕ → Bitmap → Bitmap) → ℕ → ℕ → ℕ → Bitmap → Bitmap
each_frame op zero pa last bm = bm
each_frame op (suc fuel) pa last bm =
    let rest = each_frame op fuel (pa + frame_size) last (op (pa / frame_size) bm) in
    if ltb pa last then rest else bm

-- `end` of both marking functions: the sum, or 1 GB where it wraps or lies above.
pub clamp_end : ℕ → ℕ → ℕ
clamp_end base len =
    let sum = (base + len) % 2 ^ 64 in if ltb sum base || ltb max_phys sum then max_phys else sum

pub mark_free : ℕ → ℕ → Bitmap → Bitmap
mark_free base len bm =
    if len == 0 || leb max_phys base
    then bm
    else each_frame bit_clear (frame_count + 1) (align_up_4k base)
        (align_down_4k (clamp_end base len)) bm

pub mark_used : ℕ → ℕ → Bitmap → Bitmap
mark_used base len bm =
    let up = align_up_4k (clamp_end base len) in
    if len == 0 || leb max_phys base
    then bm
    else each_frame bit_set (frame_count + 1) (align_down_4k base)
        (if ltb max_phys up then max_phys else up) bm

-- The frames below `n` whose bit is clear: the last loop of `pmm_bitmap_init`.
pub count_free : ℕ → Bitmap → ℕ
count_free n bm = count_to n (λ frame total. if bit_test bm frame == 0 then total + 1 else total) 0

-- The loop of `pmm_bitmap_init` over the usable ranges.
pub mark_ranges : List Range → Bitmap → Bitmap
mark_ranges [] bm = bm
mark_ranges (r ∷ ranges) bm = mark_ranges ranges (mark_free r.base r.length bm)

-- `if (hi > lo) pmm_mark_used(lo, hi - lo)`, which `pmm_bitmap_init` has twice.
pub mark_between : ℕ → ℕ → Bitmap → Bitmap
mark_between lo hi bm = if ltb lo hi then mark_used lo (hi - lo) bm else bm

-- The bits of `pmm_bitmap_init`; `bss_end` is the linker's symbol `__bss_end`.
pub init_bits : ℕ → List Range → Pmm → Bitmap
init_bits bss_end ranges s =
    let all_used = count_to bitmap_bytes (λ i bm. store bm i 0xFF) s.bitmap in
    let usable = mark_ranges ranges all_used in
    let kernel_end = align_up_4k bss_end in
    let no_kernel = mark_between low_reserved kernel_end (mark_used 0 low_reserved usable) in
    mark_between s.mb_info s.info_end no_kernel

unfoldable pub bitmap_init : ℕ → List Range → Pmm → Pmm
bitmap_init bss_end ranges s =
    let bits = init_bits bss_end ranges s in
    record s { bitmap = bits; free_frames = count_free frame_count bits; hint = 0 }

-- One pass of `pmm_alloc_frame`: the first free frame among `n` from `frame` on.
unfoldable pub first_free : ℕ → ℕ → Bitmap → Option ℕ
first_free zero frame bm = none
first_free (suc n) frame bm =
    let rest = first_free n (frame + 1) bm in if bit_test bm frame == 0 then some frame else rest

-- The body of the `if` in the loop of `pmm_alloc_frame`.
unfoldable pub take_frame : ℕ → Pmm → Pmm
take_frame frame s = record s {
  bitmap = bit_set frame s.bitmap;
  free_frames = s.free_frames - 1;
  hint = frame + 1;
}

-- What a pass returns for the frame that it found.
unfoldable pub hand_out : Option ℕ → Pmm → ℕ × Pmm
hand_out none s = (0, s)
hand_out (some frame) s = (frame * frame_size, take_frame frame s)

-- The two passes: from `start` to the end, then from the beginning.
unfoldable pub find_free : ℕ → Bitmap → Option ℕ
find_free start bm =
    let second = first_free frame_count 0 bm in
    elim (first_free (frame_count - start) start bm) [ some frame ↦ some frame | none ↦ second ]

-- `pmm_alloc_frame`: the address, 0 where no frame is free, and the new state.
unfoldable pub alloc_frame : Pmm → ℕ × Pmm
alloc_frame s =
    let found = find_free (if leb frame_count s.hint then 0 else s.hint) s.bitmap in
    if s.free_frames == 0 then (0, s) else hand_out found s

-- `pmm_free_frame`.
unfoldable pub free_frame : ℕ → Pmm → Pmm
free_frame pa s =
    let frame = pa / frame_size in
    if pa == 0 || (not (bit_and pa (frame_size - 1) == 0) || leb max_phys pa)
    then s
    else if bit_test s.bitmap frame == 0
    then s
    else record s {
      bitmap = bit_clear frame s.bitmap;
      free_frames = s.free_frames + 1;
      hint = if ltb frame s.hint then frame else s.hint;
    }

pub free_count : Pmm → ℕ
free_count s = s.free_frames

pub total_count : ℕ
total_count = frame_count
