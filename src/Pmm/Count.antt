-- ===== src/Pmm/Count.antt =====
-- The number of free frames below a bound, and how it changes with one bit.
use god_os.Base.{
  ℕ, zero, suc, ◌+◌, ◌<◌, ◌≡◌, refl, Bool, true, false, not, ◌&&◌, arith, ltb, ◌==◌, if◌then◌else◌,
  Bool-cases, inl, inr,
}
use god_os.Base.Loop.{count_to_inv}
use god_os.Pmm.{Bitmap, bit_test, count_free}
use god_os.Pmm.Bitmap.{is_used}

unfoldable pub frees : ℕ → Bitmap → ℕ
frees zero bm = 0
frees (suc n) bm = (if is_used bm n then 0 else 1) + frees n bm

frees-step : (n : ℕ) (bm : Bitmap) → frees (n + 1) bm ≡ (if is_used bm n then 0 else 1) + frees n bm
unfolding frees
frees-step n bm = let next : n + 1 ≡ suc n = omega arith in rw next

-- The loop of `pmm_bitmap_init` counts them.
pub count_free-frees : (n : ℕ) (bm : Bitmap) → count_free n bm ≡ frees n bm
unfolding count_free
count_free-frees n bm =
    count_to_inv (λ k total. total ≡ frees k bm) n
      (λ k total lt e. ground (arith, frees-step k bm, used_test bm k)) (frees_zero bm)
  where
    used_test : (bm : Bitmap) (k : ℕ) → is_used bm k ≡ not (bit_test bm k == 0)
    used_test bm k = unfold is_used in refl

    frees_zero : (bm : Bitmap) → 0 ≡ frees 0 bm
    frees_zero bm = unfold frees in refl

pub frees_none : (n : ℕ) (bm : Bitmap) → frees n bm ≡ 0 → (g : ℕ) → g < n → is_used bm g ≡ true
unfolding frees
frees_none zero bm e g h = absurd (omega arith)
frees_none (suc n) bm e g h = elim (Bool-cases (g == n)) [
  | inl last ↦ ground arith
  | inr other ↦ frees_none n bm (ground arith) g (ground arith)
]

pub frees_all : (n : ℕ) (bm : Bitmap) → ((g : ℕ) → g < n → is_used bm g ≡ true) → frees n bm ≡ 0
unfolding frees
frees_all zero bm h = refl
frees_all (suc n) bm h = ground (arith, h n, frees_all n bm (λ g lt. h g (omega arith)))

-- `bm'` is `bm` with the bit of frame `f` given the value `v`.
abbrev pub Flips : ℕ → Bool → Bitmap → Bitmap → Type 0
Flips f v bm bm' = (g : ℕ) → is_used bm' g ≡ (if g == f then v else is_used bm g)

frees-Flips :
    (n f : ℕ) (v : Bool) (bm bm' : Bitmap)
    → Flips f v bm bm'
    → frees n bm' + (if ltb f n && not (is_used bm f) then 1 else 0)
      ≡ frees n bm + (if ltb f n && not v then 1 else 0)
unfolding frees
frees-Flips zero f v bm bm' e = ground arith
frees-Flips (suc n) f v bm bm' e = ground (arith, e n, frees-Flips n f v bm bm' e)

pub frees_take :
    (n f : ℕ) (bm bm' : Bitmap)
    → Flips f true bm bm'
    → f < n
    → is_used bm f ≡ false
    → frees n bm' + 1 ≡ frees n bm
frees_take n f bm bm' e h free = ground (arith, frees-Flips n f true bm bm' e)

pub frees_give :
    (n f : ℕ) (bm bm' : Bitmap)
    → Flips f false bm bm'
    → f < n
    → is_used bm f ≡ true
    → frees n bm' ≡ frees n bm + 1
frees_give n f bm bm' e h used = ground (arith, frees-Flips n f false bm bm' e)
