-- ===== src/Pmm/Exclusive.antt =====
-- Sequences of calls of src/pmm.c: a frame in use is not handed out again before it is freed.
use god_os.Base.{
  ℕ, ◌+◌, ◌*◌, ◌/◌, ◌^◌, ◌≤◌, ◌<◌, ◌≡◌, ◌≢◌, refl, ap, sym, ◌∙◌, Bool, true, false, not, ◌&&◌, ◌⊎◌,
  arith, ◌==◌, Bool-cases, inl, inr, List, [], ◌∷◌,
}
use god_os.Pmm.{Pmm, Range, frame_count, alloc_frame, free_frame, bitmap_init}
use god_os.Pmm.Bitmap.{Bytes, is_used}
use god_os.Pmm.Invariant.{IsValid, accepts, free_frame_lem, free_frame-IsValid}
use god_os.Pmm.Alloc.{Handed, alloc_frame-Handed}
use god_os.Pmm.Init.{usable, Words, reserved, bitmap_init-free, bitmap_init-IsValid}

pub data Call : Type 0 where
  alloc : Call
  free : ℕ → Call

-- The addresses that the allocations of a sequence of calls return, and the state at the end.
unfoldable pub run : List Call → Pmm → List ℕ × Pmm
run [] s = ([], s)
run (alloc ∷ calls) s =
    let (pa, s') = alloc_frame s in let (pas, s'') = run calls s' in (pa ∷ pas, s'')
run (free pa ∷ calls) s = run calls (free_frame pa s)

abbrev pub All {κ} : (ℕ → Type κ) → List ℕ → Type κ
All P [] = Unit
All P (x ∷ xs) = P x × All P xs

-- No call frees a frame that `held` marks.
abbrev pub Spares : (ℕ → Bool) → List Call → Type 0
Spares held [] = Unit
Spares held (alloc ∷ calls) = Spares held calls
Spares held (free pa ∷ calls) = (held (pa / 4096) ≡ false) × Spares held calls

-- The frames that `held` marks are in use.
abbrev pub Holds : (ℕ → Bool) → Pmm → Type 0
Holds held s = (g : ℕ) → g < frame_count → held g ≡ true → is_used s.bitmap g ≡ true

-- 0, or the address of a frame below 1 GB that `held` does not mark.
abbrev pub Outside : (ℕ → Bool) → ℕ → Type 0
Outside held pa = (pa ≡ 0) ⊎ ((f : ℕ) × (pa ≡ f * 4096) × (f < frame_count) × (held f ≡ false))

alloc_step :
    (held : ℕ → Bool) (s : Pmm) (r : ℕ × Pmm)
    → Holds held s
    → IsValid s
    → Handed s r
    → Outside held (r.0) × Holds held (r.1) × IsValid (r.1)
alloc_step held s (pa, s') h v (inl (e, same, _, _)) = (inl e, rw same h, rw same v)
alloc_step held s (pa, s') h v (inr (f, e, _, l)) = (
  inr (f, e, l.small, free_of_unheld (held f) refl),
  λ g small marked. ground (arith, l.takes g, h g small marked),
  l.valid,
)
  where
    free_of_unheld : (b : Bool) → held f ≡ b → held f ≡ false
    free_of_unheld true m = ground (arith, h f l.small m, l.was_free)
    free_of_unheld false m = m

free_step :
    (held : ℕ → Bool) (pa : ℕ) {s : Pmm}
    → held (pa / 4096) ≡ false
    → Holds held s
    → IsValid s
    → Holds held (free_frame pa s)
free_step held pa {s} spared h v g small marked = elim (Bool-cases (g == pa / 4096)) [
  | inl same ↦
      let e : g ≡ pa / 4096 = ground arith in absurd (clash (sym marked ∙ ap held e ∙ spared))
  | inr other ↦ ground (arith, (free_frame_lem pa v).0 g, h g small marked)
]
  where
    clash : true ≡ false → ⊥
    clash e = cc

-- Over any sequence of calls, frames that are in use at the start and that no call frees are not
-- returned: each allocation returns 0 or the address of another frame below 1 GB.
pub run-Outside :
    (held : ℕ → Bool) (calls : List Call) (s : Pmm)
    → IsValid s
    → Holds held s
    → Spares held calls
    → All (Outside held) ((run calls s).0)
unfolding run
run-Outside held [] s v h spares = tt
run-Outside held (alloc ∷ calls) s v h spares =
    let (out, h', v') = alloc_step held s (alloc_frame s) h v (alloc_frame-Handed s v) in
    (out, run-Outside held calls ((alloc_frame s).1) v' h' spares)
run-Outside held (free pa ∷ calls) s v h (spared, spares) =
    run-Outside held calls (free_frame pa s) (free_frame-IsValid pa v)
      (free_step held pa spared h v) spares

-- After the memory map was read, no sequence of calls that frees only usable, unreserved frames is
-- ever handed a frame of the first MB, of the kernel image, of the boot information, or one that no
-- usable range holds.
pub run-within_map :
    (bss_end : ℕ) (ranges : List Range) (s : Pmm) (calls : List Call)
    → bss_end + 4095 < 2 ^ 64
    → (s.mb_info < 2 ^ 64) × (s.info_end < 2 ^ 64)
    → Words ranges
    → Bytes s.bitmap
    → Spares (λ g. not (usable ranges g && not (reserved bss_end s g))) calls
    → All
        (Outside (λ g. not (usable ranges g && not (reserved bss_end s g))))
        ((run calls (bitmap_init bss_end ranges s)).0)
run-within_map bss_end ranges s calls image info words bytes spares =
    run-Outside _ calls (bitmap_init bss_end ranges s)
      (bitmap_init-IsValid bss_end ranges s image info words bytes)
      (λ g small marked. bitmap_init-free bss_end ranges s image info words bytes g small ∙ marked)
      spares

-- A frame given back is the next one handed out where all frames below it are in use, whether or not
-- it was ever handed out before: `pmm_free_frame` accepts any frame in use, reserved ones too.
pub alloc_frame-free_frame :
    (g : ℕ) {s : Pmm}
    → IsValid s
    → g ≢ 0
    → g < frame_count
    → ((h : ℕ) → h ≤ g → is_used s.bitmap h ≡ true)
    → (alloc_frame (free_frame (g * 4096) s)).0 ≡ g * 4096
alloc_frame-free_frame g {s} v other small used =
    let s' = free_frame (g * 4096) s in
    let (bits, count, _) = free_frame_lem (g * 4096) v in
    let good : accepts s (g * 4096) ≡ true =
      let whole : g * 4096 / 4096 ≡ g = omega arith in rw whole (ground (arith, used g)) in
    lowest s' (alloc_frame s') (alloc_frame-Handed s' (free_frame-IsValid (g * 4096) v))
      (ground (arith, count)) (ground (arith, bits g)) (λ h lt. ground (arith, bits h, used h))
  where
    lowest :
        (s' : Pmm) (r : ℕ × Pmm)
        → Handed s' r
        → s'.free_frames ≢ 0
        → is_used s'.bitmap g ≡ false
        → ((h : ℕ) → h < g → is_used s'.bitmap h ≡ true)
        → r.0 ≡ g * 4096
    lowest s' (pa, s'') (inl (_, _, none_free, _)) some_free opened below =
        absurd (some_free none_free)
    lowest s' (pa, s'') (inr (f, e, _, l)) some_free opened below =
        ground (arith, below f, l.lowest g, l.was_free)
