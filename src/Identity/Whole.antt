-- ===== src/Identity/Whole.antt =====
-- What the upper tables of src/pmm.c say of the first gigabyte, and the addresses of its pages.
use god_os.Base.{
  ℕ, ◌+◌, ◌-◌, ◌*◌, ◌/◌, ◌%◌, ◌^◌, ◌≡◌, ◌≢◌, ◌<◌, refl, ◌==◌, leb, false, some, bit_and, arith,
  Bool-cases, inl, inr, ◌⊎◌,
}
use god_os.Vm.Entries.{present_lem, huge_lem}
use god_os.Base.Bits.{bit_and-shift, bit_and-mask}
use god_os.Identity.{
  FirstGb, missing, whole, by_pd, first_gb, large_page, translate, align_down_2mb,
}
use god_os.Identity.Fills.{IsLarge}
use god_os.Identity.Keeps.{IsIdentity}

pub align_down_2mb_lem : (x : ℕ) → x < 2 ^ 64 → align_down_2mb x ≡ x / 2 ^ 21 * 2 ^ 21
unfolding align_down_2mb
align_down_2mb_lem x h =
    let down : bit_and x (2 ^ 64 - 2 ^ 21) ≡ bit_and (x / 2 ^ 21) (2 ^ 43 - 1) * 2 ^ 21 =
      bit_and-shift 21 x (2 ^ 43 - 1) in
    omega (arith, down, bit_and-mask 43 (x / 2 ^ 21))

whole-IsLarge :
    (cr3 : ℕ) (words : ℕ → ℕ)
    → first_gb cr3 words ≡ whole
    → IsLarge (words (bit_and (words (bit_and cr3 0x000FFFFFFFFFF000)) 0x000FFFFFFFFFF000))
unfolding first_gb
whole-IsLarge cr3 words is =
    let pml4 = words (bit_and cr3 0x000FFFFFFFFFF000) in
    let gb = words (bit_and pml4 0x000FFFFFFFFFF000) in
    elim (Bool-cases (bit_and pml4 1 == 0)) [
      | inl absent ↦ absurd (missing_whole (rw absent at is))
      | inr there ↦ elim (Bool-cases (bit_and gb 1 == 0)) [
        | inl absent ↦ absurd (missing_whole (rw (there, absent) at is))
        | inr present ↦ elim (Bool-cases (bit_and gb 0x80 == 0)) [
          | inl table ↦ absurd (by_pd_whole (rw (there, present, table) at is))
          | inr huge ↦ (ground (arith, present_lem gb), ground (arith, huge_lem gb))
        ]
      ]
    ]
  where
    missing_whole : missing ≢ whole
    missing_whole e = cc

    by_pd_whole : {pd : ℕ} → by_pd pd ≢ whole
    by_pd_whole e = cc

pub whole-translate :
    (cr3 : ℕ) (words : ℕ → ℕ) (j : ℕ)
    → IsIdentity cr3 words
    → first_gb cr3 words ≡ whole
    → j < 2 ^ 30
    → translate cr3 words j ≡ some j
unfolding translate large_page
whole-translate cr3 words j identity is h =
    let low : leb (2 ^ 30) j ≡ false = ground arith in
    let page = identity.big is in
    let gb = words (bit_and (words (bit_and cr3 0x000FFFFFFFFFF000)) 0x000FFFFFFFFFF000) in
    let (present, huge) = whole-IsLarge cr3 words is in
    let whole_page : gb % 2 ^ 52 / 2 ^ 30 * 2 ^ 30 + j % 2 ^ 30 ≡ j = omega (arith, page) in
    rw (low, is, present, huge, whole_page)

pub First-cases : (f : FirstGb) → (f ≡ missing) ⊎ ((f ≡ whole) ⊎ ((pd : ℕ) × (f ≡ by_pd pd)))
First-cases missing = inl refl
First-cases whole = inr (inl refl)
First-cases (by_pd pd) = inr (inr (pd, refl))
