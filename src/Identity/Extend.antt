-- ===== src/Identity/Extend.antt =====
-- `pmm_extend_identity` of src/pmm.c maps all memory up to an end to itself.
use god_os.Base.{
  ℕ, ◌+◌, ◌-◌, ◌*◌, ◌/◌, ◌%◌, ◌^◌, ◌≡◌, ◌≢◌, ◌<◌, ◌≤◌, refl, ap, sym, ◌∙◌, ◌==◌, ltb, if◌then◌else◌,
  Bool, true, false, some, bit_and, arith, Bool-cases, inl, inr, ==_true,
}
use mathlib.Core.Path.{subst}
use god_os.Vm.{put_word}
use god_os.Vm.Entries.{present_lem}
use god_os.Base.Loop.{count_to, count_to_inv}
use god_os.Pmm.{max_phys}
use god_os.Identity.{first_gb, translate, extend_entry, extend_in, pmm_extend_identity, two_mb}
use god_os.Identity.Fills.{
  kernel_page, kernel_page_lem, Filled, kept, filled, Fills, Fills-trans, put_kernel-Fills, IsLarge,
  kernel_page-IsLarge, Fills-IsLarge,
}
use god_os.Identity.Keeps.{
  IsIdentity, Keeps, Keeps-refl, IsLarge-translate, translate-IsLarge, Fills-Keeps, AllLarge,
  Fills-AllLarge,
}
use god_os.Identity.Whole.{whole-translate, First-cases}

extend_entry-Fills :
    (pd i : ℕ) (words : ℕ → ℕ)
    → i < 512
    → Fills pd words (extend_entry pd i words) × (extend_entry pd i words (pd + 8 * i) % 2 ≡ 1)
unfolding extend_entry
extend_entry-Fills pd i words h =
    let entry = words (pd + 8 * i) in
    elim (Bool-cases (bit_and entry 1 == 0)) [
      | inl absent ↦
          let page = kernel_page_lem i h in
          let empty : entry % 2 ≡ 0 = omega (arith, ==_true _ _ absent, present_lem entry) in
          let here : put_word (pd + 8 * i) (kernel_page i) words (pd + 8 * i) ≡ kernel_page i =
            ground arith in
          rw (absent, page)
            (put_kernel-Fills pd i words h empty, ap (λ y. y % 2) here ∙ (kernel_page-IsLarge i).0)
      | inr present ↦ rw present ((λ x. kept refl), ground (arith, present_lem entry))
    ]

Fills-present : {pd : ℕ} {u v : ℕ → ℕ} (x : ℕ) → Fills pd u v → u x % 2 ≡ 1 → v x % 2 ≡ 1
Fills-present {pd} {u} {v} x fills h = from (fills x)
  where
    from : Filled pd u v x → v x % 2 ≡ 1
    from (kept e) = ap (λ y. y % 2) e ∙ h
    from (filled i lt at empty e) = absurd (omega arith)

-- The entries 1 to `n` are present after the loop.
extend_loop :
    (pd n : ℕ) (words : ℕ → ℕ)
    → n < 512
    → let w = count_to n (λ k w. extend_entry pd (k + 1) w) words in
      Fills pd words w × ((i : ℕ) → 1 ≤ i → i ≤ n → w (pd + 8 * i) % 2 ≡ 1)
extend_loop pd n words h =
    count_to_inv
      (λ k (w : ℕ → ℕ). Fills pd words w × ((i : ℕ) → 1 ≤ i → i ≤ k → w (pd + 8 * i) % 2 ≡ 1)) n
      (λ k w lt so_far.
        let (fills, present) = extend_entry-Fills pd (k + 1) w (omega arith) in
        (
          Fills-trans so_far.0 fills,
          λ i lo hi. elim (Bool-cases (i == k + 1)) [
            | inl new ↦
                subst (λ q. extend_entry pd (k + 1) w (pd + 8 * q) % 2 ≡ 1)
                  (sym (==_true i (k + 1) new)) present
            | inr old ↦ Fills-present (pd + 8 * i) fills (so_far.1 i lo (ground arith))
          ],
        ))
      ((λ x. kept refl), λ i lo hi. absurd (omega arith))

-- What the tables say after a return, with 0 if `ok`.
abbrev pub Extended : ℕ → ℕ → (ℕ → ℕ) → Bool × (ℕ → ℕ) → Type 0
Extended max_end cr3 words (ok, w) =
    Keeps cr3 words w
    × (ok ≡ true → (j : ℕ) → j < max_end → j < max_phys → translate cr3 w j ≡ some j)

-- On tables that map by large pages and to the same addresses, address 0 among them, with the PD apart from
-- the tables above it and without tables of 4 KB pages, `pmm_extend_identity` keeps all that and every address
-- that was mapped. If it returns 0, every address below the end given and below 1 GB is mapped to itself.
pub pmm_extend_identity-Extended :
    (max_end cr3 : ℕ) (words : ℕ → ℕ)
    → IsIdentity cr3 words
    → AllLarge cr3 words
    → translate cr3 words 0 ≡ some 0
    → Extended max_end cr3 words (pmm_extend_identity max_end cr3 words)
unfolding pmm_extend_identity extend_in
pmm_extend_identity-Extended max_end cr3 words identity all first =
    let end = if ltb max_phys max_end then max_phys else max_end in
    let up = (end + two_mb - 1) / two_mb in
    let n = if ltb 512 up then 512 else up in
    elim (Bool-cases (max_end == 0)) [
      | inl nothing ↦ rw nothing (Keeps-refl identity, λ e j a b. absurd (ground arith))
      | inr some_memory ↦ elim (First-cases (first_gb cr3 words)) [
        | inl is ↦ rw (some_memory, is) (Keeps-refl identity, λ e. absurd (false_true e))
        | inr (inl is) ↦
            rw (some_memory, is)
              (
                Keeps-refl identity,
                λ e j a b. whole-translate cr3 words j identity is (omega arith),
              )
        | inr (inr (pd, is)) ↦
            let (fills, present) = extend_loop pd (n - 1) words (ground arith) in
            let w = count_to (n - 1) (λ k w. extend_entry pd (k + 1) w) words in
            let keeps = Fills-Keeps pd identity is fills in
            rw (some_memory, is)
              (
                keeps,
                λ e j a b. elim (Bool-cases (j / 2 ^ 21 == 0)) [
                  | inr later ↦
                      IsLarge-translate pd j keeps.identity (keeps.top ∙ is) (omega arith) (
                        Fills-AllLarge cr3 pd is all fills (j / 2 ^ 21) (omega arith)
                          (present (j / 2 ^ 21) (ground arith) (ground arith)))
                  | inl front ↦
                      let zero_page : pd + 8 * (0 / 2 ^ 21) ≡ pd + 8 * (j / 2 ^ 21) =
                        omega (arith, ==_true (j / 2 ^ 21) 0 front) in
                      IsLarge-translate pd j keeps.identity (keeps.top ∙ is) (omega arith) (
                        subst (λ x. IsLarge (w x)) zero_page
                          (Fills-IsLarge (pd + 8 * (0 / 2 ^ 21)) fills
                            (translate-IsLarge cr3 words pd 0 0 is first)))
                ],
              )
      ]
    ]
  where
    false_true : false ≢ true
    false_true e = cc
