-- ===== src/Pmm/Init.antt =====
-- `pmm_bitmap_init` of src/pmm.c: which frames are free when the kernel starts.
use god_os.Base.{
  ℕ, ◌+◌, ◌-◌, ◌/◌, ◌%◌, ◌^◌, ◌<◌, ◌≡◌, refl, ◌∙◌, Bool, true, false, not, ◌&&◌, ◌||◌, arith, ltb,
  ◌==◌, if◌then◌else◌, Bool-cases, inl, inr, List, [], ◌∷◌, bit_and, ==_true,
}
use god_os.Base.Bits.{all_below, all_below_sound, bit_and-mask}
use god_os.Base.Loop.{count_to, count_to_inv}
use god_os.Pmm.{
  Pmm, Bitmap, Range, frame_count, bitmap_bytes, low_reserved, store, bit_test, mark_free,
  mark_used, mark_ranges, mark_between, align_up_4k, init_bits, bitmap_init,
}
use god_os.Pmm.Bitmap.{Bytes, is_used}
use god_os.Pmm.Ranges.{
  covers, overlaps, align_up_lem, mark_free-Bytes, mark_used-Bytes, mark_free-covers,
  mark_used-overlaps,
}
use god_os.Pmm.Count.{count_free-frees}
use god_os.Pmm.Invariant.{IsValid}

-- Some usable range holds the whole frame.
abbrev pub usable : List Range → ℕ → Bool
usable [] g = false
usable (r ∷ ranges) g = covers r.base r.length g || usable ranges g

-- The ranges are 64-bit values.
abbrev pub Words : List Range → Type 0
Words [] = Unit
Words (r ∷ ranges) = (r.base < 2 ^ 64) × (r.length < 2 ^ 64) × Words ranges

-- The bytes from `lo` up to `hi` have one in frame `g`.
abbrev touches : ℕ → ℕ → ℕ → Bool
touches lo hi g = ltb lo hi && overlaps lo (hi - lo) g

-- Kept back: the first MB, the kernel image up to the end of .bss, and the boot information.
abbrev pub reserved : ℕ → Pmm → ℕ → Bool
reserved bss_end s g =
    overlaps 0 low_reserved g
    || (touches low_reserved (align_up_4k bss_end) g || touches s.mb_info s.info_end g)

full_byte : all_below 8 (λ j. bit_and (255 / 2 ^ j) 1 == 1) ≡ true
unfolding all_below count_to
full_byte = refl

-- A frame whose byte is 0xFF is in use.
pub is_used-full : (bm : Bitmap) (g : ℕ) → bm (g / 8) ≡ 255 → is_used bm g ≡ true
unfolding is_used bit_test
is_used-full bm g e =
    let bit =
      ==_true _ _
        (all_below_sound 8 (λ j. bit_and (255 / 2 ^ j) 1 == 1) (g % 8) full_byte (omega arith)) in
    rw (bit_and-mask 3 g, e, bit)

-- After the first loop every frame is in use.
all_used_lem :
    (bm : Bitmap)
    → Bytes bm
    → let bm' = count_to bitmap_bytes (λ i b. store b i 0xFF) bm in
      Bytes bm' × ((g : ℕ) → g < frame_count → is_used bm' g ≡ true)
all_used_lem bm b =
    let (bytes, full) =
      count_to_inv (λ k (c : Bitmap). Bytes c × ((i : ℕ) → i < k → c i ≡ 255)) bitmap_bytes
        (λ k c lt (bytes, full). (λ i. ground (arith, bytes i), λ i h. ground (arith, full i)))
        (b, λ i h. absurd (omega arith)) in
    (bytes, λ g h. is_used-full _ g (full (g / 8) (omega arith)))

mark_ranges-usable :
    (ranges : List Range) (bm : Bitmap)
    → Words ranges
    → Bytes bm
    → Bytes (mark_ranges ranges bm)
      × ((g : ℕ)
          → g < frame_count
          → is_used (mark_ranges ranges bm) g ≡ (if usable ranges g then false else is_used bm g))
unfolding mark_ranges
mark_ranges-usable [] bm w b = (b, λ g h. refl)
mark_ranges-usable (r ∷ ranges) bm (base, len, w) b =
    let (bytes, later) =
      mark_ranges-usable ranges (mark_free r.base r.length bm) w
        (mark_free-Bytes r.base r.length bm base len b) in
    (bytes, λ g h. ground (arith, later g h, mark_free-covers r.base r.length bm base len b g h))

mark_between-touches :
    (lo hi : ℕ) (bm : Bitmap)
    → lo < 2 ^ 64
    → hi < 2 ^ 64
    → Bytes bm
    → Bytes (mark_between lo hi bm)
      × ((g : ℕ)
          → g < frame_count
          → is_used (mark_between lo hi bm) g ≡ (touches lo hi g || is_used bm g))
unfolding mark_between
mark_between-touches lo hi bm a z b = elim (Bool-cases (ltb lo hi)) [
  | inl some_bytes ↦ rw some_bytes (
    mark_used-Bytes lo (hi - lo) bm a (omega arith) b,
    λ g h. ground (arith, mark_used-overlaps lo (hi - lo) bm a (omega arith) b g h),
  )
  | inr none_at_all ↦ rw none_at_all (b, λ g h. refl)
]

-- The four passes over a bit, in one formula.
passes_formula :
    (info kernel low range u0 u1 u2 u3 u4 : Bool)
    → u0 ≡ true
    → u1 ≡ (if range then false else u0)
    → u2 ≡ (if low then true else u1)
    → u3 ≡ (kernel || u2)
    → u4 ≡ (info || u3)
    → u4 ≡ not (range && not (low || (kernel || info)))
passes_formula info kernel low range u0 u1 u2 u3 u4 a b c d e = ground arith

module _ (bss_end : ℕ) (ranges : List Range) (s : Pmm) (image : bss_end + 4095 < 2 ^ 64)
    (info : (s.mb_info < 2 ^ 64) × (s.info_end < 2 ^ 64)) (words : Words ranges)
    (bytes : Bytes s.bitmap) where
  init_bits-reserved :
      Bytes (init_bits bss_end ranges s)
      × ((g : ℕ)
          → g < frame_count
          → is_used (init_bits bss_end ranges s) g
            ≡ not (usable ranges g && not (reserved bss_end s g)))
  unfolding init_bits
  init_bits-reserved =
      let full = count_to bitmap_bytes (λ i bm. store bm i 0xFF) s.bitmap in
      let (b0, u0) = all_used_lem s.bitmap bytes in
      let bm1 = mark_ranges ranges full in
      let (b1, u1) = mark_ranges-usable ranges full words b0 in
      let bm2 = mark_used 0 low_reserved bm1 in
      let b2 = mark_used-Bytes 0 low_reserved bm1 (omega arith) (omega arith) b1 in
      let u2 = mark_used-overlaps 0 low_reserved bm1 (omega arith) (omega arith) b1 in
      let up = align_up_lem bss_end image in
      let (b3, u3) =
        mark_between-touches low_reserved (align_up_4k bss_end) bm2 (omega arith) (omega arith)
          b2 in
      let bm3 = mark_between low_reserved (align_up_4k bss_end) bm2 in
      let (b4, u4) = mark_between-touches s.mb_info s.info_end bm3 (info.0) (info.1) b3 in
      (b4, λ g h. passes_formula _ _ _ _ _ _ _ _ _ (u0 g h) (u1 g h) (u2 g h) (u3 g h) (u4 g h))

  -- After `pmm_bitmap_init` a frame below 1 GB is free exactly if a usable range of the memory map
  -- holds all of it and it has no byte of the first MB, of the kernel image (to the end of .bss,
  -- rounded up) or of the boot information.
  pub bitmap_init-free :
      (g : ℕ)
      → g < frame_count
      → is_used (bitmap_init bss_end ranges s).bitmap g
        ≡ not (usable ranges g && not (reserved bss_end s g))
  unfolding bitmap_init
  bitmap_init-free g h = init_bits-reserved.1 g h

  -- `pmm_bitmap_init` establishes the invariant: the counter counts the free frames, and frame 0 is
  -- not one of them.
  pub bitmap_init-IsValid : IsValid (bitmap_init bss_end ranges s)
  unfolding bitmap_init
  bitmap_init-IsValid = record {
    bytes = init_bits-reserved.0;
    counted = count_free-frees frame_count (init_bits bss_end ranges s);
    hint_in = omega arith;
    below_hint = λ g h. absurd (omega arith);
    first_used =
        init_bits-reserved.1 0 (omega arith)
        ∙ zero_reserved (usable ranges 0)
            (touches low_reserved (align_up_4k bss_end) 0 || touches s.mb_info s.info_end 0);
  }
    where
      zero_reserved : (a b : Bool) → not (a && not (overlaps 0 low_reserved 0 || b)) ≡ true
      zero_reserved a b = ground arith
