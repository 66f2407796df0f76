-- ===== src/Pmm/Ranges.antt =====
-- `pmm_mark_free` and `pmm_mark_used` of src/pmm.c, against ranges of bytes.
use god_os.Base.{
  ℕ, zero, suc, ◌+◌, ◌-◌, ◌*◌, ◌/◌, ◌%◌, ◌^◌, ◌≤◌, ◌<◌, ◌≡◌, Bool, true, false, not, ◌&&◌, ◌||◌,
  arith, ltb, leb, ◌==◌, if◌then◌else◌, Bool-cases, inl, inr,
}
use god_os.Base.Bits.{bit_and_page}
use god_os.Pmm.{
  Bitmap, frame_size, max_phys, frame_count, bit_set, bit_clear, align_down_4k, align_up_4k,
  each_frame, clamp_end, mark_free, mark_used,
}
use god_os.Pmm.Bitmap.{
  Bytes, is_used, bit_set-Bytes, bit_clear-Bytes, is_used-bit_set, is_used-bit_clear,
}

-- Frame `g` lies wholly inside of the range.
abbrev pub covers : ℕ → ℕ → ℕ → Bool
covers base len g = leb base (g * 4096) && leb (g * 4096 + 4096) (base + len)

-- Frame `g` has a byte of the range.
abbrev pub overlaps : ℕ → ℕ → ℕ → Bool
overlaps base len g = not (len == 0) && (ltb base (g * 4096 + 4096) && ltb (g * 4096) (base + len))

align_down_lem : (x : ℕ) → x < 2 ^ 64 → align_down_4k x ≡ x - x % 4096
unfolding align_down_4k
align_down_lem x h = bit_and_page x h

pub align_up_lem : (x : ℕ) → x + 4095 < 2 ^ 64 → align_up_4k x ≡ x + 4095 - (x + 4095) % 4096
unfolding align_up_4k
align_up_lem x h =
    let sum : (x + 4096 - 1) % 2 ^ 64 ≡ x + 4095 = omega arith in
    rw sum (align_down_lem (x + 4095) h)

-- What the loop does, for an operation that gives the bit of its frame the value `v`.
module _ (op : ℕ → Bitmap → Bitmap) (v : Bool)
    (keeps : (f : ℕ) (bm : Bitmap) → Bytes bm → Bytes (op f bm))
    (effect : (f g : ℕ) (bm : Bitmap)
      → Bytes bm
      → is_used (op f bm) g ≡ (if g == f then v else is_used bm g)) where
  each_frame-Bytes :
      (fuel pa last : ℕ) (bm : Bitmap) → Bytes bm → Bytes (each_frame op fuel pa last bm)
  unfolding each_frame
  each_frame-Bytes zero pa last bm b = b
  each_frame-Bytes (suc fuel) pa last bm b = elim (Bool-cases (ltb pa last)) [
    | inl more ↦ rw more (
        each_frame-Bytes fuel (pa + frame_size) last (op (pa / frame_size) bm)
          (keeps (pa / frame_size) bm b))
    | inr done ↦ rw done b
  ]

  each_frame-effect :
      (fuel pa last g : ℕ) (bm : Bitmap)
      → pa % 4096 ≡ 0
      → last ≤ pa + fuel * 4096
      → Bytes bm
      → is_used (each_frame op fuel pa last bm) g
        ≡ (if leb pa (g * 4096) && ltb (g * 4096) last then v else is_used bm g)
  unfolding each_frame
  each_frame-effect zero pa last g bm whole enough b = ground arith
  each_frame-effect (suc fuel) pa last g bm whole enough b = elim (Bool-cases (ltb pa last)) [
    | inl more ↦
        rw
          (
            more,
            each_frame-effect fuel (pa + frame_size) last g (op (pa / frame_size) bm) (omega arith)
                (omega arith) (keeps (pa / frame_size) bm b),
            effect (pa / frame_size) g bm b,
          )
          (ground arith)
    | inr done ↦ rw done (ground arith)
  ]

clamp_end_lem :
    (base len : ℕ)
    → base < max_phys
    → len < 2 ^ 64
    → (clamp_end base len ≤ max_phys)
      × ((g : ℕ)
          → g < frame_count
          → leb (g * 4096 + 4096) (clamp_end base len) ≡ leb (g * 4096 + 4096) (base + len))
      × ((g : ℕ)
          → g < frame_count
          → ltb (g * 4096) (clamp_end base len) ≡ ltb (g * 4096) (base + len))
unfolding clamp_end
clamp_end_lem base len hb hl = (ground arith, λ g hg. ground arith, λ g hg. ground arith)

module _ (base len : ℕ) (bm : Bitmap) (small_base : base < 2 ^ 64) (small_len : len < 2 ^ 64)
    (b : Bytes bm) where
  pub mark_free-Bytes : Bytes (mark_free base len bm)
  unfolding mark_free
  mark_free-Bytes = elim (Bool-cases (len == 0 || leb max_phys base)) [
    | inl nothing ↦ rw nothing b
    | inr some_bytes ↦ rw some_bytes (
        each_frame-Bytes bit_clear false bit_clear-Bytes is_used-bit_clear (frame_count + 1) _ _ bm
          b)
  ]

  pub mark_used-Bytes : Bytes (mark_used base len bm)
  unfolding mark_used
  mark_used-Bytes = elim (Bool-cases (len == 0 || leb max_phys base)) [
    | inl nothing ↦ rw nothing b
    | inr some_bytes ↦
        rw some_bytes
          (each_frame-Bytes bit_set true bit_set-Bytes is_used-bit_set (frame_count + 1) _ _ bm b)
  ]

  -- `pmm_mark_free` frees exactly the frames that lie wholly inside of the range; a range that runs
  -- past 2^64 or past 1 GB counts up to 1 GB.
  pub mark_free-covers :
      (g : ℕ)
      → g < frame_count
      → is_used (mark_free base len bm) g ≡ (if covers base len g then false else is_used bm g)
  unfolding mark_free
  mark_free-covers g hg = elim (Bool-cases (len == 0 || leb max_phys base)) [
    | inl nothing ↦ rw nothing (ground arith)
    | inr some_bytes ↦
        let (top, ends, _) = clamp_end_lem base len (ground arith) small_len in
        let up = align_up_lem base (ground arith) in
        let down = align_down_lem (clamp_end base len) (omega arith) in
        rw
          (
            some_bytes,
            up,
            down,
            each_frame-effect bit_clear false bit_clear-Bytes is_used-bit_clear (frame_count + 1)
                (base + 4095 - (base + 4095) % 4096)
                (clamp_end base len - clamp_end base len % 4096) g bm (omega arith) (omega arith) b,
          )
          (ground (arith, ends g hg))
  ]

  -- `pmm_mark_used` takes exactly the frames that have a byte of the range, up to 1 GB.
  pub mark_used-overlaps :
      (g : ℕ)
      → g < frame_count
      → is_used (mark_used base len bm) g ≡ (if overlaps base len g then true else is_used bm g)
  unfolding mark_used
  mark_used-overlaps g hg = elim (Bool-cases (len == 0 || leb max_phys base)) [
    | inl nothing ↦ rw nothing (ground arith)
    | inr some_bytes ↦
        let (top, _, ends) = clamp_end_lem base len (ground arith) small_len in
        let up = align_up_lem (clamp_end base len) (omega arith) in
        let down = align_down_lem base small_base in
        let last = clamp_end base len + 4095 - (clamp_end base len + 4095) % 4096 in
        let fits : ltb max_phys last ≡ false = ground arith in
        rw
          (
            some_bytes,
            up,
            down,
            fits,
            each_frame-effect bit_set true bit_set-Bytes is_used-bit_set (frame_count + 1)
                (base - base % 4096) last g bm (omega arith) (omega arith) b,
          )
          (ground (arith, ends g hg))
  ]
