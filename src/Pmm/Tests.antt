-- ===== src/Pmm/Tests.antt =====
-- Runs of src/pmm.c, and its theorems at concrete states.
use god_os.Base.{
  ℕ, ◌+◌, ◌*◌, ◌≡◌, refl, sym, true, false, not, ◌&&◌, arith, ◌==◌, if◌then◌else◌, List, [], ◌∷◌,
}
use god_os.Pmm.{
  Pmm, Bitmap, Range, frame_count, bit_test, bit_set, bit_clear, first_free, find_free, take_frame,
  hand_out, alloc_frame, free_frame, each_frame, clamp_end, mark_free, align_down_4k, align_up_4k,
  bitmap_init,
}
use god_os.Pmm.Bitmap.{is_used}
use god_os.Pmm.Count.{frees_all}
use god_os.Pmm.Invariant.{IsValid, accepts, free_frame-IsValid, free_frame_lem}
use god_os.Pmm.Alloc.{Handed, alloc_frame-Handed}
use god_os.Pmm.Init.{is_used-full, usable, reserved, bitmap_init-free}
use god_os.Pmm.Exclusive.{
  alloc_frame-free_frame, alloc, free, run, All, Outside, run-Outside, run-within_map,
}

-- Every frame in use.
abbrev full_map : Bitmap
full_map i = 255

-- All in use but frames 512 to 519.
abbrev one_byte_free : Bitmap
one_byte_free i = if i == 64 then 0 else 255

abbrev boot : Pmm
boot = record {
  bitmap = full_map;
  free_frames = 0;
  hint = 0;
  mb_info = 0x10000;
  info_end = 0x11000;
  max_end = 0;
}

abbrev busy : Pmm
busy = record boot { bitmap = one_byte_free; free_frames = 8; hint = 512 }

first_alloc : (alloc_frame busy).0 ≡ 512 * 4096
unfolding alloc_frame hand_out find_free first_free bit_test
first_alloc = refl

-- Two allocations, then the first frame again once it is freed.
run_reuses :
    (run (alloc ∷ alloc ∷ free (512 * 4096) ∷ alloc ∷ []) busy).0
    ≡ 512 * 4096 ∷ 513 * 4096 ∷ 512 * 4096 ∷ []
unfolding run alloc_frame hand_out find_free take_frame first_free bit_test bit_set free_frame
    bit_clear
run_reuses = refl

free_ignores :
    (free_frame 4097 busy ≡ busy)
    × (free_frame 0 busy ≡ busy)
    × (free_frame (512 * 4096) busy ≡ busy)
    × (free_frame 0x40000000 busy ≡ busy)
unfolding free_frame bit_test
free_ignores = (refl, refl, refl, refl)

-- The range from 1 MB less 1 to 1 MB and 8 KB holds the frames 256 and 257.
marks :
    (is_used (mark_free 0xFFFFF 0x2001 full_map) 255 ≡ true)
    × (is_used (mark_free 0xFFFFF 0x2001 full_map) 256 ≡ false)
    × (is_used (mark_free 0xFFFFF 0x2001 full_map) 257 ≡ false)
    × (is_used (mark_free 0xFFFFF 0x2001 full_map) 258 ≡ true)
unfolding mark_free each_frame clamp_end align_up_4k align_down_4k is_used bit_test bit_clear
marks = (refl, refl, refl, refl)

full : (g : ℕ) → is_used full_map g ≡ true
full g = is_used-full full_map g refl

boot-IsValid : IsValid boot
boot-IsValid = record {
  bytes = λ i. omega arith;
  counted = sym (frees_all frame_count full_map (λ g h. full g));
  hint_in = omega arith;
  below_hint = λ g h. full g;
  first_used = full 0;
}

-- Two megabytes on, one frame was given back.
abbrev one_free : Pmm
one_free = free_frame 0x200000 boot

one_free-IsValid : IsValid one_free
one_free-IsValid = free_frame-IsValid 0x200000 boot-IsValid

abbrev map : List Range
map = record { base = 0; length = 0x9FC00 } ∷ record { base = 0x100000; length = 0x7EE0000 } ∷ []

bitmap_init-free_example :
    is_used (bitmap_init 0x110000 map boot).bitmap 512
    ≡ not (usable map 512 && not (reserved 0x110000 boot 512))
bitmap_init-free_example =
    bitmap_init-free 0x110000 map boot (omega arith) (omega arith) (omega arith) (λ i. omega arith)
      512 (omega arith)

alloc_frame-Handed_example : Handed one_free (alloc_frame one_free)
alloc_frame-Handed_example = alloc_frame-Handed one_free one_free-IsValid

free_frame_lem_example :
    ((g : ℕ)
      → is_used (free_frame 0x200000 boot).bitmap g
        ≡ (if accepts boot 0x200000 && (g == 512) then false else is_used boot.bitmap g))
    × ((free_frame 0x200000 boot).free_frames ≡ 0 + (if accepts boot 0x200000 then 1 else 0))
    × (accepts boot 0x200000 ≡ false → free_frame 0x200000 boot ≡ boot)
free_frame_lem_example = free_frame_lem 0x200000 boot-IsValid

free_frame-IsValid_example : IsValid (free_frame 0x201000 one_free)
free_frame-IsValid_example = free_frame-IsValid 0x201000 one_free-IsValid

-- Frame 511 is held throughout.
run-Outside_example :
    All (Outside (λ g. g == 511)) ((run (alloc ∷ free 0x200000 ∷ alloc ∷ []) one_free).0)
run-Outside_example =
    run-Outside (λ g. g == 511) (alloc ∷ free 0x200000 ∷ alloc ∷ []) one_free one_free-IsValid
      (λ g small marked. ground (arith, (free_frame_lem 0x200000 boot-IsValid).0 g, full g))
      (refl, tt)

run-within_map_example :
    All
      (Outside (λ g. not (usable map g && not (reserved 0x110000 boot g))))
      ((run (alloc ∷ free 0x200000 ∷ alloc ∷ []) (bitmap_init 0x110000 map boot)).0)
unfolding align_up_4k align_down_4k
run-within_map_example =
    run-within_map 0x110000 map boot (alloc ∷ free 0x200000 ∷ alloc ∷ []) (omega arith)
      (omega arith) (omega arith) (λ i. omega arith) (refl, tt)

alloc_frame-free_frame_example : (alloc_frame (free_frame (184 * 4096) boot)).0 ≡ 184 * 4096
alloc_frame-free_frame_example =
    alloc_frame-free_frame 184 boot-IsValid (omega arith) (omega arith) (λ h le. full h)
