-- ===== src/Boot/Verdicts.antt =====
-- The tests of `pmm_self_test` in src/pmm.c on an address that was handed out.
use god_os.Base.{
  ℕ, ◌+◌, ◌%◌, ◌^◌, ◌≡◌, ◌≢◌, refl, ltb, ◌==◌, false, not, ◌&&◌, arith, Bool-cases, inl, inr,
  bit_and, ==_true,
}
use god_os.Boot.SelfTest.{
  Verdict, fine, no_frame, unaligned, in_kernel, in_info, verdict, any_frame,
}
use god_os.Boot.Borrow.{Spots}

-- An address that is not 0, and a verdict that is not "no frame".
other_than :
    (pa : ℕ) (v : Verdict)
    → (pa == 0) ≡ false
    → v ≢ no_frame
    → (v ≡ no_frame → pa ≡ 0) × (pa ≡ 0 → v ≡ no_frame)
other_than pa v given other = ((λ e. absurd (other e)), λ e. absurd (ground arith))

pub any_frame-Spots : Spots any_frame
unfolding any_frame
any_frame-Spots pa s = elim (Bool-cases (pa == 0)) [
  | inl null ↦ rw null ((λ e. ==_true pa 0 null), λ e. refl)
  | inr given ↦ rw given (other_than pa fine given (λ e. cc))
]

pub verdict-Spots : (kernel_end : ℕ) → Spots (verdict kernel_end)
unfolding verdict
verdict-Spots kernel_end pa s = elim (Bool-cases (pa == 0)) [
  | inl null ↦ rw null ((λ e. ==_true pa 0 null), λ e. refl)
  | inr given ↦ elim (Bool-cases (not (bit_and pa 4095 == 0))) [
    | inl odd ↦ rw (given, odd) (other_than pa unaligned given (λ e. cc))
    | inr aligned ↦ elim (Bool-cases (ltb pa kernel_end)) [
      | inl low ↦ rw (given, aligned, low) (other_than pa in_kernel given (λ e. cc))
      | inr high ↦ elim (Bool-cases (ltb pa s.info_end && ltb s.mb_info ((pa + 4096) % 2 ^ 64))) [
        | inl info ↦ rw (given, aligned, high, info) (other_than pa in_info given (λ e. cc))
        | inr clear ↦ rw (given, aligned, high, clear) (other_than pa fine given (λ e. cc))
      ]
    ]
  ]
]
