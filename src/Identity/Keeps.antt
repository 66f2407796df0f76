-- ===== src/Identity/Keeps.antt =====
-- What the tables of src/pmm.c say while their PD is filled: large pages, each at its own address.
use god_os.Base.{
  ℕ, ◌+◌, ◌*◌, ◌/◌, ◌%◌, ◌^◌, ◌≡◌, ◌≢◌, ◌<◌, refl, ap, sym, ◌∙◌, leb, false, none, some, bit_and,
  arith, Bool-cases, inl, inr,
}
use mathlib.Core.Path.{subst}
use god_os.Identity.{whole, by_pd, first_gb, large_page, translate, in_page}
use god_os.Vm.Entries.{child_of}
use god_os.Identity.Fills.{
  Filled, kept, filled, Fills, IsLarge, kernel_page, kernel_page-IsLarge, Fills-IsLarge,
}

-- Where a large page of 2 MB lies, in its own size.
abbrev pub frame_of : ℕ → ℕ
frame_of e = e % 2 ^ 52 / 2 ^ 21

-- The tables map by large pages and to the same addresses, and the PD holds neither entry above it. An
-- address that a table of 4 KB pages maps counts as not mapped.
pub record IsIdentity (cr3 : ℕ) (words : ℕ → ℕ) : Type 0 where
  pub big :
      first_gb cr3 words ≡ whole
      → words (bit_and (words (bit_and cr3 0x000FFFFFFFFFF000)) 0x000FFFFFFFFFF000)
          % 2 ^ 52
          / 2 ^ 30
        ≡ 0
  pub pages :
      (pd i : ℕ)
      → first_gb cr3 words ≡ by_pd pd
      → i < 512
      → IsLarge (words (pd + 8 * i))
      → frame_of (words (pd + 8 * i)) ≡ i
  pub apart :
      (pd i : ℕ)
      → first_gb cr3 words ≡ by_pd pd
      → i < 512
      → (pd + 8 * i ≢ bit_and cr3 0x000FFFFFFFFFF000)
        × (pd + 8 * i ≢ bit_and (words (bit_and cr3 0x000FFFFFFFFFF000)) 0x000FFFFFFFFFF000)

-- No entry of the PD leads to a table of 4 KB pages.
abbrev pub AllLarge : ℕ → (ℕ → ℕ) → Type 0
AllLarge cr3 words =
    (pd i : ℕ)
    → first_gb cr3 words ≡ by_pd pd
    → i < 512
    → words (pd + 8 * i) % 2 ≡ 1
    → words (pd + 8 * i) / 128 % 2 ≡ 1

-- What a change keeps: the shape, and every address that was mapped.
pub record Keeps (cr3 : ℕ) (words words' : ℕ → ℕ) : Type 0 where
  pub identity : IsIdentity cr3 words'
  pub top : first_gb cr3 words' ≡ first_gb cr3 words
  pub large : AllLarge cr3 words → AllLarge cr3 words'
  pub old : (j p : ℕ) → translate cr3 words j ≡ some p → translate cr3 words' j ≡ some p
  pub children : (x c : ℕ) → child_of (words' x) ≡ some c → child_of (words x) ≡ some c

module _ {cr3 : ℕ} {words words' : ℕ → ℕ} (identity : IsIdentity cr3 words) (pd : ℕ)
    (at_pd : first_gb cr3 words ≡ by_pd pd) (fills : Fills pd words words') where
  abbrev pml4 : ℕ
  pml4 = bit_and cr3 0x000FFFFFFFFFF000

  above_pd : (x : ℕ) → ((i : ℕ) → i < 512 → pd + 8 * i ≢ x) → words' x ≡ words x
  above_pd x away = from (fills x)
    where
      from : Filled pd words words' x → words' x ≡ words x
      from (kept e) = e
      from (filled i h at empty e) = absurd (away i h (sym at))

  same_pml4 : words' pml4 ≡ words pml4
  same_pml4 = above_pd pml4 (λ i h. (identity.apart pd i at_pd h).0)

  same_pdpt :
      words' (bit_and (words pml4) 0x000FFFFFFFFFF000)
      ≡ words (bit_and (words pml4) 0x000FFFFFFFFFF000)
  same_pdpt =
      above_pd (bit_and (words pml4) 0x000FFFFFFFFFF000) (λ i h. (identity.apart pd i at_pd h).1)

  Fills-top : first_gb cr3 words' ≡ first_gb cr3 words
  unfolding first_gb
  Fills-top = rw (same_pml4, same_pdpt)

  Fills-pages :
      (i : ℕ) → i < 512 → IsLarge (words' (pd + 8 * i)) → frame_of (words' (pd + 8 * i)) ≡ i
  Fills-pages i h large = from (fills (pd + 8 * i))
    where
      from : Filled pd words words' (pd + 8 * i) → frame_of (words' (pd + 8 * i)) ≡ i
      from (kept e) =
          ap frame_of e
          ∙ identity.pages pd i at_pd h
              (ap (λ y. y % 2) (sym e) ∙ large.0, ap (λ y. y / 128 % 2) (sym e) ∙ large.1)
      from (filled j h' at empty e) = ap frame_of e ∙ omega (arith, at)

  Fills-IsIdentity : IsIdentity cr3 words'
  Fills-IsIdentity = record {
    big = λ e. absurd (whole_by_pd (sym (Fills-top ∙ at_pd) ∙ e));
    pages = λ pd' i e h.
        subst (λ q. IsLarge (words' (q + 8 * i)) → frame_of (words' (q + 8 * i)) ≡ i) (same pd' e)
          (Fills-pages i h);
    apart = λ pd' i e h.
        let (one, two) = identity.apart pd' i (sym Fills-top ∙ e) h in
        (one, λ eq. two (eq ∙ ap (λ w. bit_and w 0x000FFFFFFFFFF000) same_pml4));
  }
    where
      whole_by_pd : by_pd pd ≢ whole
      whole_by_pd e = cc

      inj : {a b : ℕ} → by_pd a ≡ by_pd b → a ≡ b
      inj e = cc

      same : (pd' : ℕ) → first_gb cr3 words' ≡ by_pd pd' → pd ≡ pd'
      same pd' e = inj (sym (Fills-top ∙ at_pd) ∙ e)

translate-by_pd :
    (cr3 : ℕ) (words : ℕ → ℕ) (pd j : ℕ)
    → first_gb cr3 words ≡ by_pd pd
    → j < 2 ^ 30
    → translate cr3 words j ≡ in_page (2 ^ 21) (words (pd + 8 * (j / 2 ^ 21))) j
unfolding translate large_page
translate-by_pd cr3 words pd j at h =
    let low : leb (2 ^ 30) j ≡ false = ground arith in rw (low, at)

-- A large page maps to itself.
pub IsLarge-translate :
    {cr3 : ℕ} {words : ℕ → ℕ} (pd j : ℕ)
    → IsIdentity cr3 words
    → first_gb cr3 words ≡ by_pd pd
    → j < 2 ^ 30
    → IsLarge (words (pd + 8 * (j / 2 ^ 21)))
    → translate cr3 words j ≡ some j
IsLarge-translate {cr3} {words} pd j identity at h (present, huge) =
    let page = identity.pages pd (j / 2 ^ 21) at (omega arith) (present, huge) in
    let whole_page : words (pd + 8 * (j / 2 ^ 21)) % 2 ^ 52 / 2 ^ 21 * 2 ^ 21 + j % 2 ^ 21 ≡ j =
      omega (arith, page) in
    translate-by_pd cr3 words pd j at h ∙ rw (present, huge, whole_page)

in_page-IsLarge : (size e j p : ℕ) → in_page size e j ≡ some p → IsLarge e
in_page-IsLarge size e j p h = ground arith

pub translate-low :
    (cr3 : ℕ) (words : ℕ → ℕ) (j p : ℕ) → translate cr3 words j ≡ some p → j < 2 ^ 30
unfolding translate
translate-low cr3 words j p e = elim (Bool-cases (leb (2 ^ 30) j)) [
  | inl high ↦ absurd (none_some (rw high at e))
  | inr low ↦ ground arith
]
  where
    none_some : none ≢ some p
    none_some e = cc

pub translate-IsLarge :
    (cr3 : ℕ) (words : ℕ → ℕ) (pd j p : ℕ)
    → first_gb cr3 words ≡ by_pd pd
    → translate cr3 words j ≡ some p
    → IsLarge (words (pd + 8 * (j / 2 ^ 21)))
translate-IsLarge cr3 words pd j p at e =
    in_page-IsLarge (2 ^ 21) (words (pd + 8 * (j / 2 ^ 21))) j p
      (sym (translate-by_pd cr3 words pd j at (translate-low cr3 words j p e)) ∙ e)

pub Fills-AllLarge :
    (cr3 : ℕ) {words w : ℕ → ℕ} (pd : ℕ)
    → first_gb cr3 words ≡ by_pd pd
    → AllLarge cr3 words
    → Fills pd words w
    → (i : ℕ) → i < 512
    → w (pd + 8 * i) % 2 ≡ 1
    → IsLarge (w (pd + 8 * i))
Fills-AllLarge cr3 {words} {w} pd is all fills i h present = (present, from (fills (pd + 8 * i)))
  where
    from : Filled pd words w (pd + 8 * i) → w (pd + 8 * i) / 128 % 2 ≡ 1
    from (kept e) = ap (λ y. y / 128 % 2) e ∙ all pd i is h (ap (λ y. y % 2) (sym e) ∙ present)
    from (filled j lt at empty e) = ap (λ y. y / 128 % 2) e ∙ (kernel_page-IsLarge j).1

pub Fills-Keeps :
    {cr3 : ℕ} {words words' : ℕ → ℕ} (pd : ℕ)
    → IsIdentity cr3 words
    → first_gb cr3 words ≡ by_pd pd
    → Fills pd words words'
    → Keeps cr3 words words'
Fills-Keeps {cr3} {words} {words'} pd identity at fills = record {
  identity = Fills-IsIdentity identity pd at fills;
  top = Fills-top identity pd at fills;
  large = λ all pd' i e h there.
      subst (λ q. words' (q + 8 * i) % 2 ≡ 1 → words' (q + 8 * i) / 128 % 2 ≡ 1)
        (same pd' (sym (Fills-top identity pd at fills) ∙ e))
        (λ present. (Fills-AllLarge cr3 pd at all fills i h present).1) there;
  old = λ j p e. stays j p e;
  children = λ x c e. child x c (fills x) e;
}
  where
    child :
        (x c : ℕ)
        → Filled pd words words' x
        → child_of (words' x) ≡ some c
        → child_of (words x) ≡ some c
    child x c (kept e) there = ap child_of (sym e) ∙ there
    child x c (filled i h at empty e) there =
        absurd (large i (words' x) (kernel_page-IsLarge i) e there)
      where
        large : (i w : ℕ) → IsLarge (kernel_page i) → w ≡ kernel_page i → child_of w ≢ some c
        large i w is e there = ground arith

    inj : {a b : ℕ} → by_pd a ≡ by_pd b → a ≡ b
    inj e = cc

    same : (pd' : ℕ) → first_gb cr3 words ≡ by_pd pd' → pd ≡ pd'
    same pd' e = inj (sym at ∙ e)

    stays : (j p : ℕ) → translate cr3 words j ≡ some p → translate cr3 words' j ≡ some p
    stays j p e =
        let low = translate-low cr3 words j p e in
        let large = translate-IsLarge cr3 words pd j p at e in
        IsLarge-translate pd j (Fills-IsIdentity identity pd at fills)
          (Fills-top identity pd at fills ∙ at) low
          (Fills-IsLarge (pd + 8 * (j / 2 ^ 21)) fills large)
        ∙ sym (IsLarge-translate pd j identity at low large)
        ∙ e

pub Keeps-refl : {cr3 : ℕ} {words : ℕ → ℕ} → IsIdentity cr3 words → Keeps cr3 words words
Keeps-refl identity = record {
  identity = identity;
  top = refl;
  large = λ all. all;
  old = λ j p e. e;
  children = λ x c e. e;
}
