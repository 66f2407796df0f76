-- ===== src/Pmm/Invariant.antt =====
-- What holds of the allocator state of src/pmm.c between two calls, and that freeing keeps it.
use god_os.Base.{
  ℕ, ◌+◌, ◌/◌, ◌%◌, ◌≤◌, ◌<◌, ◌≡◌, ◌≢◌, refl, Bool, true, false, not, ◌&&◌, arith, ltb, ◌==◌,
  if◌then◌else◌, Bool-cases, inl, inr,
}
use god_os.Base.Bits.{bit_and-mask}
use god_os.Pmm.{Pmm, frame_count, max_phys, bit_clear, free_frame}
use god_os.Pmm.Bitmap.{Bytes, is_used, bit_clear-Bytes, is_used-bit_clear}
use god_os.Pmm.Count.{frees, Flips, frees_give}

-- The counter counts the free frames, no frame below the hint is free, and frame 0 is not.
pub record IsValid (s : Pmm) : Type 0 where
  pub bytes : Bytes s.bitmap
  pub counted : s.free_frames ≡ frees frame_count s.bitmap
  pub hint_in : s.hint ≤ frame_count
  pub below_hint : (g : ℕ) → g < s.hint → is_used s.bitmap g ≡ true
  pub first_used : is_used s.bitmap 0 ≡ true

-- The addresses that `pmm_free_frame` acts on.
abbrev pub accepts : Pmm → ℕ → Bool
accepts s pa =
    not (pa == 0) && ((pa % 4096 == 0) && (ltb pa max_phys && is_used s.bitmap (pa / 4096)))

-- The state after freeing frame `f`.
abbrev pub freed : ℕ → Pmm → Pmm
freed f s = record s {
  bitmap = bit_clear f s.bitmap;
  free_frames = s.free_frames + 1;
  hint = if ltb f s.hint then f else s.hint;
}

free_frame-cases :
    (pa : ℕ) (s : Pmm) → free_frame pa s ≡ (if accepts s pa then freed (pa / 4096) s else s)
unfolding free_frame is_used
free_frame-cases pa s = ground (arith, bit_and-mask 12 pa)

freed-IsValid :
    (f : ℕ) {s : Pmm}
    → IsValid s
    → f ≢ 0
    → f < frame_count
    → is_used s.bitmap f ≡ true
    → IsValid (freed f s)
freed-IsValid f {s} v other small used =
    let flips : Flips f false s.bitmap (bit_clear f s.bitmap) =
      λ g. is_used-bit_clear f g s.bitmap (v.bytes) in
    record {
      bytes = bit_clear-Bytes f s.bitmap (v.bytes);
      counted = omega (
        arith,
        frees_give frame_count f s.bitmap (bit_clear f s.bitmap) flips small used,
        v.counted,
      );
      hint_in = ground (arith, v.hint_in);
      below_hint = λ g h. ground (arith, flips g, v.below_hint g);
      first_used = ground (arith, flips 0, v.first_used);
    }

-- `pmm_free_frame` keeps the invariant, whatever address it is given.
pub free_frame-IsValid : (pa : ℕ) {s : Pmm} → IsValid s → IsValid (free_frame pa s)
free_frame-IsValid pa {s} v = elim (Bool-cases (accepts s pa)) [
  | inl good ↦
      rw (free_frame-cases pa s, good)
        (freed-IsValid (pa / 4096) v (ground arith) (ground arith) (ground arith))
  | inr bad ↦ rw (free_frame-cases pa s, bad) v
]

-- `pmm_free_frame` makes exactly the frame at `pa` free, and counts it, if `pa` is not 0, a multiple
-- of 4096 below 1 GB, and its frame is in use; any other call changes nothing.
pub free_frame_lem :
    (pa : ℕ) {s : Pmm}
    → IsValid s
    → ((g : ℕ)
        → is_used (free_frame pa s).bitmap g
          ≡ (if accepts s pa && (g == pa / 4096) then false else is_used s.bitmap g))
      × ((free_frame pa s).free_frames ≡ s.free_frames + (if accepts s pa then 1 else 0))
      × (accepts s pa ≡ false → free_frame pa s ≡ s)
free_frame_lem pa {s} v = elim (Bool-cases (accepts s pa)) [
  | inl good ↦
      rw (free_frame-cases pa s, good)
        (λ g. is_used-bit_clear (pa / 4096) g s.bitmap (v.bytes), refl, λ e. cc)
  | inr bad ↦ rw (free_frame-cases pa s, bad) (λ g. refl, omega arith, λ e. refl)
]
