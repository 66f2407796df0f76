-- ===== src/Identity/Ensure.antt =====
-- `ensure_2mb_mapped` of src/pmm.c maps what it was asked for, or says that it did not, and ends.
use god_os.Base.{
  ℕ, zero, ◌||◌, suc, ◌+◌, ◌-◌, ◌*◌, ◌/◌, ◌%◌, ◌^◌, ◌≡◌, ◌<◌, ◌≤◌, refl, ap, sym, ◌∙◌, ◌==◌, ltb,
  leb, false, none, some, bit_and, arith, Bool-cases, inl, inr, ◌⊎◌, ==_true,
}
use mathlib.Core.Path.{subst}
use god_os.Vm.{put_word}
use god_os.Vm.Entries.{present_lem, huge_lem}
use god_os.Pmm.{max_phys}
use god_os.Identity.{
  by_pd, first_gb, translate, ensure_entry, Ensured, mapped, unmapped, ensure_from, ensure_in,
  ensure_2mb_mapped, two_mb,
}
use god_os.Identity.Fills.{
  kernel_page, kernel_page_lem, kept, Fills, Fills-trans, put_kernel-Fills, IsLarge,
  kernel_page-IsLarge, Fills-IsLarge,
}
use god_os.Identity.Whole.{align_down_2mb_lem, whole-translate, First-cases}
use god_os.Identity.Keeps.{IsIdentity, Keeps, Keeps-refl, IsLarge-translate, Fills-Keeps}

-- One entry: refused, or a large page afterwards.
ensure_entry-Fills :
    (pd i : ℕ) (words : ℕ → ℕ)
    → i < 512
    → (ensure_entry pd i words ≡ none)
      ⊎ ((w : ℕ → ℕ) × (ensure_entry pd i words ≡ some w)
          × Fills pd words w
          × IsLarge (w (pd + 8 * i)))
unfolding ensure_entry
ensure_entry-Fills pd i words h =
    let entry = words (pd + 8 * i) in
    let inside : leb 512 i ≡ false = ground arith in
    elim (Bool-cases (bit_and entry 1 == 0)) [
      | inl absent ↦
          let page = kernel_page_lem i h in
          let empty : entry % 2 ≡ 0 = omega (arith, ==_true _ _ absent, present_lem entry) in
          let w = put_word (pd + 8 * i) (kernel_page i) words in
          let here : w (pd + 8 * i) ≡ kernel_page i = ground arith in
          inr (
            w,
            rw (inside, absent, page),
            put_kernel-Fills pd i words h empty,
            (
              ap (λ y. y % 2) here ∙ (kernel_page-IsLarge i).0,
              ap (λ y. y / 128 % 2) here ∙ (kernel_page-IsLarge i).1,
            ),
          )
      | inr present ↦ elim (Bool-cases (bit_and entry 0x80 == 0)) [
        | inl small ↦ inl (rw (inside, present, small))
        | inr huge ↦ inr (
          words,
          rw (inside, present, huge),
          λ x. kept refl,
          (ground (arith, present_lem entry), ground (arith, huge_lem entry)),
        )
      ]
    ]

-- How the loop ends, from page `k` to page `l`.
abbrev Ends : ℕ → ℕ → ℕ → (ℕ → ℕ) → Ensured → Type 0
Ends pd k l words e =
    (w : ℕ → ℕ) × Fills pd words w
    × ((e ≡ unmapped w) ⊎ ((e ≡ mapped w) × ((i : ℕ) → k ≤ i → i ≤ l → IsLarge (w (pd + 8 * i)))))

ensure_from-next :
    (fuel pd k last : ℕ) (words : ℕ → ℕ) {w : ℕ → ℕ}
    → k < 512
    → ensure_entry pd k words ≡ some w
    → (k * 2 ^ 21 == last) ≡ false
    → ensure_from (suc fuel) pd (k * 2 ^ 21) last words
      ≡ ensure_from fuel pd (suc k * 2 ^ 21) last w
unfolding ensure_from
ensure_from-next fuel pd k last words {w} h step more =
    let index : k * 2 ^ 21 / 2 ^ 21 ≡ k = omega arith in
    let next : (k * 2 ^ 21 + two_mb) % 2 ^ 64 ≡ suc k * 2 ^ 21 = omega arith in
    rw (index, step, more, ensure_from) (ap (λ a. ensure_from fuel pd a last w) next)

ensure_from-Ends :
    (fuel pd k l : ℕ) (words : ℕ → ℕ)
    → k ≤ l
    → l < 512
    → l < k + fuel
    → Ends pd k l words (ensure_from fuel pd (k * 2 ^ 21) (l * 2 ^ 21) words)
unfolding ensure_from
ensure_from-Ends zero pd k l words a b c = absurd (omega arith)
ensure_from-Ends (suc fuel) pd k l words a b c =
    let index : k * 2 ^ 21 / 2 ^ 21 ≡ k = omega arith in
    elim (ensure_entry-Fills pd k words (omega arith)) [
      | inl refused ↦ (words, (λ x. kept refl), rw (index, refused, ensure_from) (inl refl))
      | inr (w, step, fills, large) ↦ elim (Bool-cases (k * 2 ^ 21 == l * 2 ^ 21)) [
        | inl last ↦ (
          w,
          fills,
          rw (index, step, last, ensure_from)
              (inr (refl, λ i lo hi. subst (λ q. IsLarge (w (pd + 8 * q))) (ground arith) large)),
        )
        | inr more ↦
            let next = ensure_from-next fuel pd k (l * 2 ^ 21) words (omega arith) step more in
            let (w', fills', ends) =
              ensure_from-Ends fuel pd (suc k) l w (ground arith) b (omega arith) in
            (
              w',
              Fills-trans fills fills',
              rest w w' large fills' (subst (After w') (sym next) ends),
            )
      ]
    ]
  where
    After : (ℕ → ℕ) → Ensured → Type 0
    After w' e =
        (e ≡ unmapped w')
        ⊎ ((e ≡ mapped w') × ((i : ℕ) → suc k ≤ i → i ≤ l → IsLarge (w' (pd + 8 * i))))

    rest :
        (w w' : ℕ → ℕ) {e : Ensured}
        → IsLarge (w (pd + 8 * k))
        → Fills pd w w'
        → After w' e
        → (e ≡ unmapped w')
          ⊎ ((e ≡ mapped w') × ((i : ℕ) → k ≤ i → i ≤ l → IsLarge (w' (pd + 8 * i))))
    rest w w' large fills (inl stopped) = inl stopped
    rest w w' large fills (inr (went, later)) = inr (
      went,
      λ i lo hi. elim (Bool-cases (i == k)) [
        | inl first ↦
            subst (λ q. IsLarge (w' (pd + 8 * q))) (sym (==_true i k first))
              (Fills-IsLarge (pd + 8 * k) fills large)
        | inr other ↦ later i (ground arith) hi
      ],
    )

-- What the tables say after a return with 0 or -1.
abbrev pub Outcome : ℕ → ℕ → ℕ → (ℕ → ℕ) → Ensured → Type 0
Outcome addr len cr3 words e =
    (w : ℕ → ℕ) × Keeps cr3 words w
    × ((e ≡ unmapped w)
        ⊎ ((e ≡ mapped w) × ((j : ℕ) → addr ≤ j → j < addr + len → translate cr3 w j ≡ some j)))

-- On tables that map by large pages and to the same addresses, with the PD apart from the tables above it,
-- `ensure_2mb_mapped` ends, and keeps all that and every address that was mapped. If it returns 0, every
-- address of the range is mapped to itself.
pub ensure_2mb_mapped-Outcome :
    (addr len cr3 : ℕ) (words : ℕ → ℕ)
    → IsIdentity cr3 words
    → Outcome addr len cr3 words (ensure_2mb_mapped addr len cr3 words)
unfolding ensure_2mb_mapped ensure_in
ensure_2mb_mapped-Outcome addr len cr3 words identity = elim (Bool-cases (len == 0)) [
  | inl nothing ↦
      rw nothing (words, Keeps-refl identity, inr (refl, λ j lo hi. absurd (ground arith)))
  | inr bytes ↦ elim (Bool-cases (leb max_phys addr || ltb (max_phys - addr) len)) [
    | inl far ↦ rw (bytes, far) (words, Keeps-refl identity, inl refl)
    | inr near ↦ elim (First-cases (first_gb cr3 words)) [
      | inl is ↦ rw (bytes, near, is) (words, Keeps-refl identity, inl refl)
      | inr (inl is) ↦
          rw (bytes, near, is)
            (
              words,
              Keeps-refl identity,
              inr (refl, λ j lo hi. whole-translate cr3 words j identity is (ground arith)),
            )
      | inr (inr (pd, is)) ↦
          let inside : (addr < 2 ^ 30) × (addr + len ≤ 2 ^ 30) × (1 ≤ len) = ground arith in
          let first = align_down_2mb_lem addr (omega (arith, inside)) in
          let flat : (addr + len - 1) % 2 ^ 64 ≡ addr + len - 1 = omega (arith, inside) in
          let last = align_down_2mb_lem (addr + len - 1) (omega (arith, inside)) in
          let (w, fills, ends) =
            ensure_from-Ends 513 pd (addr / 2 ^ 21) ((addr + len - 1) / 2 ^ 21) words
              (omega (arith, inside)) (omega (arith, inside)) (omega (arith, inside)) in
          let keeps = Fills-Keeps pd identity is fills in
          rw (bytes, near, is, first, flat, last) (w, keeps, ended w inside is keeps ends)
    ]
  ]
]
  where
    ended :
        {pd : ℕ} {e : Ensured} (w : ℕ → ℕ)
        → (addr < 2 ^ 30) × (addr + len ≤ 2 ^ 30) × (1 ≤ len)
        → first_gb cr3 words ≡ by_pd pd
        → Keeps cr3 words w
        → (e ≡ unmapped w)
          ⊎ ((e ≡ mapped w)
              × ((i : ℕ)
                  → addr / 2 ^ 21 ≤ i
                  → i ≤ (addr + len - 1) / 2 ^ 21
                  → IsLarge (w (pd + 8 * i))))
        → (e ≡ unmapped w)
          ⊎ ((e ≡ mapped w) × ((j : ℕ) → addr ≤ j → j < addr + len → translate cr3 w j ≡ some j))
    ended w inside is keeps (inl stopped) = inl stopped
    ended {pd} w inside is keeps (inr (went, large)) = inr (
      went,
      λ j lo hi.
          IsLarge-translate pd j keeps.identity (keeps.top ∙ is) (omega (arith, inside))
            (large (j / 2 ^ 21) (omega arith) (omega arith)),
    )
