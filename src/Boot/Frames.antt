-- ===== src/Boot/Frames.antt =====
-- The memory that `pmm_init` of src/pmm.c maps reaches to the end of every usable frame.
use god_os.Base.{
  ℕ, ◌+◌, ◌*◌, ◌^◌, ◌≡◌, ◌≢◌, ◌<◌, ◌≤◌, Bool, true, false, ◌||◌, arith, Bool-cases, inl, inr, List,
  [], ◌∷◌,
}
use god_os.Pmm.{Range, frame_count}
use god_os.Pmm.Ranges.{covers}
use god_os.Pmm.Init.{usable, Words}
use god_os.Boot.{range_end, max_of}

-- The greatest end, after the loop over the ranges.
abbrev pub ends : List Range → ℕ → ℕ
ends [] max_end = max_end
ends (r ∷ ranges) max_end = ends ranges (max_of (range_end r) max_end)

ends_grow : (ranges : List Range) (max_end : ℕ) → max_end ≤ ends ranges max_end
ends_grow [] max_end = omega arith
ends_grow (r ∷ ranges) max_end = ground (arith, ends_grow ranges (max_of (range_end r) max_end))

covers-range_end :
    (r : Range) (g : ℕ)
    → r.base < 2 ^ 64
    → r.length < 2 ^ 64
    → g < frame_count
    → covers r.base r.length g ≡ true
    → g * 4096 + 4096 ≤ range_end r
unfolding range_end
covers-range_end r g a b h c = ground arith

pub usable-ends :
    (ranges : List Range) (max_end g : ℕ)
    → Words ranges
    → g < frame_count
    → usable ranges g ≡ true
    → g * 4096 + 4096 ≤ ends ranges max_end
usable-ends [] max_end g w h e = absurd (false_true e)
  where
    false_true : false ≢ true
    false_true e = cc
usable-ends (r ∷ ranges) max_end g w h e = elim (Bool-cases (covers r.base r.length g)) [
  | inl here ↦ omega (
    arith,
    covers-range_end r g w.0 w.1 h here,
    larger (range_end r) max_end,
    ends_grow ranges (max_of (range_end r) max_end),
  )
  | inr other ↦
      usable-ends ranges (max_of (range_end r) max_end) g w.2 h
        (later (covers r.base r.length g) other e)
]
  where
    larger : (a b : ℕ) → a ≤ max_of a b
    larger a b = ground arith

    later : (a : Bool) {b : Bool} → a ≡ false → (a || b) ≡ true → b ≡ true
    later a h e = ground arith
