-- ===== src/Identity/Fills.antt =====
-- What the boot code of src/pmm.c may do to a PD: entries that are not present become large pages of the
-- kernel, and no other word changes.
use god_os.Base.{
  ℕ, ◌+◌, ◌*◌, ◌/◌, ◌%◌, ◌^◌, ◌≡◌, ◌<◌, ap, sym, ◌∙◌, ◌==◌, bit_or, arith, Bool-cases, inl, inr,
  ==_true,
}
use god_os.Base.Bits.{bit_or-disjoint}
use god_os.Vm.{put_word}
use god_os.Identity.{pte_kernel}

-- The entry of the large page `i`.
abbrev pub kernel_page : ℕ → ℕ
kernel_page i = i * 2 ^ 21 + 131

pub kernel_page_lem : (i : ℕ) → i < 512 → bit_or (i * 2 ^ 21 % 2 ^ 64) pte_kernel ≡ kernel_page i
kernel_page_lem i h =
    let flat : i * 2 ^ 21 % 2 ^ 64 ≡ i * 2 ^ 21 = omega arith in
    ap (λ x. bit_or x 131) flat ∙ bit_or-disjoint 21 i 131 (omega arith)

-- A word at `x` after the change from `words` to `words'`.
pub data Filled (pd : ℕ) (words words' : ℕ → ℕ) (x : ℕ) : Type 0 where
  kept : words' x ≡ words x → Filled pd words words' x
  filled :
      (i : ℕ)
      → i < 512
      → x ≡ pd + 8 * i
      → words x % 2 ≡ 0
      → words' x ≡ kernel_page i
      → Filled pd words words' x

abbrev pub Fills : ℕ → (ℕ → ℕ) → (ℕ → ℕ) → Type 0
Fills pd words words' = (x : ℕ) → Filled pd words words' x

pub Fills-trans : {pd : ℕ} {u v w : ℕ → ℕ} → Fills pd u v → Fills pd v w → Fills pd u w
Fills-trans {pd} {u} {v} {w} a b x = both (a x) (b x)
  where
    both : Filled pd u v x → Filled pd v w x → Filled pd u w x
    both (kept e) (kept e') = kept (e' ∙ e)
    both (kept e) (filled i h at empty e') = filled i h at (ap (λ y. y % 2) (sym e) ∙ empty) e'
    both (filled i h at empty e) (kept e') = filled i h at empty (e' ∙ e)
    both (filled i h at empty e) (filled j h' at' empty' e') = absurd (omega (arith, e))

-- One entry that was not present.
pub put_kernel-Fills :
    (pd i : ℕ) (words : ℕ → ℕ)
    → i < 512
    → words (pd + 8 * i) % 2 ≡ 0
    → Fills pd words (put_word (pd + 8 * i) (kernel_page i) words)
put_kernel-Fills pd i words h empty x = elim (Bool-cases (x == pd + 8 * i)) [
  | inl here ↦
      let at = ==_true x (pd + 8 * i) here in
      filled i h at (ap (λ y. words y % 2) at ∙ empty) (rw here)
  | inr other ↦ kept (rw other)
]

-- A large page of the kernel, or one that was there.
abbrev pub IsLarge : ℕ → Type 0
IsLarge e = (e % 2 ≡ 1) × (e / 128 % 2 ≡ 1)

pub kernel_page-IsLarge : (i : ℕ) → IsLarge (kernel_page i)
kernel_page-IsLarge i = (omega arith, omega arith)

pub Fills-IsLarge :
    {pd : ℕ} {words words' : ℕ → ℕ} (x : ℕ)
    → Fills pd words words'
    → IsLarge (words x)
    → IsLarge (words' x)
Fills-IsLarge {pd} {words} {words'} x fills large = from (fills x)
  where
    from : Filled pd words words' x → IsLarge (words' x)
    from (kept e) = (ap (λ y. y % 2) e ∙ large.0, ap (λ y. y / 128 % 2) e ∙ large.1)
    from (filled i h at empty e) = absurd (omega (arith, large.0))
