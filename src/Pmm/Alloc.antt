-- ===== src/Pmm/Alloc.antt =====
-- `pmm_alloc_frame` of src/pmm.c hands out the lowest free frame.
use god_os.Base.{
  ℕ, zero, suc, ◌+◌, ◌-◌, ◌*◌, ◌≤◌, ◌<◌, ◌≡◌, ◌≢◌, refl, ap, sym, ◌∙◌, true, false, not, ◌⊎◌, arith,
  ltb, leb, ◌==◌, if◌then◌else◌, Bool-cases, inl, inr, Option, some, none,
}
use god_os.Pmm.{
  Pmm, Bitmap, frame_count, bit_set, bit_test, first_free, find_free, take_frame, hand_out,
  alloc_frame,
}
use god_os.Pmm.Bitmap.{is_used, bit_set-Bytes, is_used-bit_set}
use god_os.Pmm.Count.{Flips, frees_take, frees_none, frees_all}
use god_os.Pmm.Invariant.{IsValid}

-- What a scan of the frames from `lo` up to `hi` found: none is free, or the first that is.
abbrev pub First : Bitmap → ℕ → ℕ → Option ℕ → Type 0
First bm lo hi none = (g : ℕ) → lo ≤ g → g < hi → is_used bm g ≡ true
First bm lo hi (some f) =
    (lo ≤ f) × (f < hi) × (is_used bm f ≡ false) × ((g : ℕ) → lo ≤ g → g < f → is_used bm g ≡ true)

First-later :
    (bm : Bitmap) (lo hi : ℕ) (r : Option ℕ)
    → is_used bm lo ≡ true
    → First bm (lo + 1) hi r
    → First bm lo hi r
First-later bm lo hi none used f = λ g a b. elim (Bool-cases (g == lo)) [
  | inl here ↦ ground arith
  | inr there ↦ f g (ground arith) b
]
First-later bm lo hi (some k) used (a, b, c, d) = (
  omega arith,
  b,
  c,
  λ g lo_g g_k. elim (Bool-cases (g == lo)) [
    | inl here ↦ ground arith
    | inr there ↦ d g (ground arith) g_k
  ],
)

first_free-First : (n lo hi : ℕ) (bm : Bitmap) → lo + n ≡ hi → First bm lo hi (first_free n lo bm)
unfolding first_free
first_free-First zero lo hi bm e = λ g a b. absurd (omega arith)
first_free-First (suc n) lo hi bm e = elim (Bool-cases (bit_test bm lo == 0)) [
  | inl open_bit ↦
      rw open_bit (omega arith, omega arith, not_used bm lo open_bit, λ g a b. absurd (omega arith))
  | inr taken ↦
      rw taken (
        First-later bm lo hi _ (used bm lo taken) (first_free-First n (lo + 1) hi bm (omega arith)))
]
  where
    not_used : (bm : Bitmap) (f : ℕ) → (bit_test bm f == 0) ≡ true → is_used bm f ≡ false
    not_used bm f h = unfold is_used in ap not h

    used : (bm : Bitmap) (f : ℕ) → (bit_test bm f == 0) ≡ false → is_used bm f ≡ true
    used bm f h = unfold is_used in ap not h

-- Where no frame below `start` is free, the two passes find the lowest free frame of all.
find_free-First :
    (start : ℕ) (bm : Bitmap)
    → start ≤ frame_count
    → ((g : ℕ) → g < start → is_used bm g ≡ true)
    → First bm 0 frame_count (find_free start bm)
unfolding find_free
find_free-First start bm small below =
    passes (first_free (frame_count - start) start bm) (first_free frame_count 0 bm)
      (first_free-First (frame_count - start) start frame_count bm (omega arith))
      (first_free-First frame_count 0 frame_count bm (omega arith))
  where
    passes :
        (r r' : Option ℕ)
        → First bm start frame_count r
        → First bm 0 frame_count r'
        → First bm 0 frame_count (elim r [ some f ↦ some f | none ↦ r' ])
    passes none r' a b = b
    passes (some f) r' (a, b, c, d) _ = (
      omega arith,
      b,
      c,
      λ g lo hi. elim (Bool-cases (ltb g start)) [
        | inl low ↦ below g (ground arith)
        | inr high ↦ d g (ground arith) hi
      ],
    )

take_frame-IsValid :
    (f : ℕ) {s : Pmm}
    → IsValid s
    → f < frame_count
    → is_used s.bitmap f ≡ false
    → ((g : ℕ) → g < f → is_used s.bitmap g ≡ true)
    → IsValid (take_frame f s) × ((take_frame f s).free_frames + 1 ≡ s.free_frames)
unfolding take_frame
take_frame-IsValid f {s} v small free below =
    let flips : Flips f true s.bitmap (bit_set f s.bitmap) =
      λ g. is_used-bit_set f g s.bitmap (v.bytes) in
    let fewer = frees_take frame_count f s.bitmap (bit_set f s.bitmap) flips small free in
    (
      record {
        bytes = bit_set-Bytes f s.bitmap (v.bytes);
        counted = omega (arith, v.counted);
        hint_in = omega arith;
        below_hint = λ g h. ground (arith, flips g, below g);
        first_used = ground (arith, flips 0, v.first_used);
      },
      omega (arith, v.counted),
    )

-- What `pmm_alloc_frame` returns: 0 and the same state where every frame is in use; otherwise the
-- address of the lowest free frame, which is taken and is the only one that changes.
pub record Lowest (s : Pmm) (f : ℕ) (s' : Pmm) : Type 0 where
  pub small : f < frame_count
  pub was_free : is_used s.bitmap f ≡ false
  pub lowest : (g : ℕ) → g < f → is_used s.bitmap g ≡ true
  pub takes : (g : ℕ) → is_used s'.bitmap g ≡ (if g == f then true else is_used s.bitmap g)
  pub counts : s'.free_frames + 1 ≡ s.free_frames
  pub valid : IsValid s'

abbrev pub Handed : Pmm → ℕ × Pmm → Type 0
Handed s (pa, s') =
    ((pa ≡ 0)
      × (s' ≡ s)
      × (s.free_frames ≡ 0)
      × ((g : ℕ) → g < frame_count → is_used s.bitmap g ≡ true))
    ⊎ ((f : ℕ) × (pa ≡ f * 4096) × (pa ≢ 0) × Lowest s f s')

hand_out-Handed :
    {s : Pmm} (r : Option ℕ) → IsValid s → First s.bitmap 0 frame_count r → Handed s (hand_out r s)
unfolding hand_out take_frame
hand_out-Handed {s} none v f = inl (
  refl,
  refl,
  v.counted ∙ frees_all frame_count s.bitmap (λ g h. f g (omega arith) h),
  λ g h. f g (omega arith) h,
)
hand_out-Handed {s} (some f) v (_, small, free, below) =
    let low : (g : ℕ) → g < f → is_used s.bitmap g ≡ true = λ g h. below g (omega arith) h in
    let (valid, counts) = take_frame-IsValid f v small free low in
    let other : f ≢ 0 =
      λ z. elim (true_false (sym (v.first_used) ∙ ap (is_used s.bitmap) (sym z) ∙ free)) [ ] in
    inr (
      f,
      refl,
      λ e. other (omega arith),
      record {
        small = small;
        was_free = free;
        lowest = low;
        takes = λ g. is_used-bit_set f g s.bitmap (v.bytes);
        counts = counts;
        valid = valid;
      },
    )
  where
    true_false : true ≡ false → ⊥
    true_false e = cc

-- `pmm_alloc_frame` on a valid state returns 0 exactly where every frame is in use, and otherwise
-- takes the lowest free frame, keeping the invariant; no result is the address of frame 0.
pub alloc_frame-Handed : (s : Pmm) → IsValid s → Handed s (alloc_frame s)
unfolding alloc_frame
alloc_frame-Handed s v = elim (Bool-cases (s.free_frames == 0)) [
  | inl empty ↦
      rw empty (
        inl (refl, refl, ground arith, frees_none frame_count s.bitmap (ground (arith, v.counted))))
  | inr some_free ↦ rw some_free (
      hand_out-Handed _ v (
        find_free-First (if leb frame_count s.hint then 0 else s.hint) s.bitmap (ground arith)
          (λ g h. v.below_hint g (ground (arith, v.hint_in)))))
]
