-- ===== src/Identity/Tests.antt =====
-- Runs of the boot's mapping functions of src/pmm.c on tables that map the first 2 MB, and their theorems there.
use god_os.Base.{
  ℕ, ◌+◌, ◌*◌, ◌%◌, ◌/◌, ◌≡◌, ◌≢◌, ◌<◌, refl, sym, ◌∙◌, some, arith, ◌==◌, if◌then◌else◌,
}
use god_os.Base.Loop.{count_to}
use god_os.Identity.{
  whole, by_pd, first_gb, large_page, translate, Ensured, mapped, unmapped, ensure_entry,
  ensure_from, align_down_2mb, ensure_in, ensure_2mb_mapped, extend_entry, extend_in,
  pmm_extend_identity,
}
use god_os.Identity.Fills.{IsLarge}
use god_os.Identity.Keeps.{IsIdentity, AllLarge, frame_of}
use god_os.Identity.Ensure.{Outcome, ensure_2mb_mapped-Outcome}

-- The PML4 at 0x1000, the PDPT at 0x2000 and the PD at 0x3000.
abbrev pub boot_words : ℕ → ℕ
boot_words a =
    if a == 0x1000 then 0x2003 else if a == 0x2000 then 0x3003 else if a == 0x3000 then 0x83 else 0

at_pd : first_gb 0x1000 boot_words ≡ by_pd 0x3000
unfolding first_gb
at_pd = refl

inj : {a b : ℕ} → by_pd a ≡ by_pd b → a ≡ b
inj e = cc

pd_is : (pd : ℕ) → first_gb 0x1000 boot_words ≡ by_pd pd → pd ≡ 0x3000
pd_is pd e = inj (sym e ∙ at_pd)

pub boot-IsIdentity : IsIdentity 0x1000 boot_words
boot-IsIdentity = record {
  big = λ e. absurd (whole_by_pd (sym e ∙ at_pd));
  pages = λ pd i e h large. page i h pd (pd_is pd e) large;
  apart = λ pd i e h. (ground (arith, pd_is pd e), ground (arith, pd_is pd e));
}
  where
    whole_by_pd : whole ≢ by_pd 0x3000
    whole_by_pd e = cc

    page :
        (i : ℕ)
        → i < 512
        → (pd : ℕ) → pd ≡ 0x3000
        → IsLarge (boot_words (pd + 8 * i))
        → frame_of (boot_words (pd + 8 * i)) ≡ i
    page i h pd e large = ground arith

pub boot-AllLarge : AllLarge 0x1000 boot_words
boot-AllLarge pd i e h present = large i h pd (pd_is pd e) present
  where
    large :
        (i : ℕ)
        → i < 512
        → (pd : ℕ) → pd ≡ 0x3000
        → boot_words (pd + 8 * i) % 2 ≡ 1
        → boot_words (pd + 8 * i) / 128 % 2 ≡ 1
    large i h pd e present = ground arith

pub boot-first : translate 0x1000 boot_words 0 ≡ some 0
unfolding translate large_page first_gb
boot-first = refl

ensure_2mb_mapped-Outcome_example :
    Outcome 0x3FFFF8 16 0x1000 boot_words (ensure_2mb_mapped 0x3FFFF8 16 0x1000 boot_words)
ensure_2mb_mapped-Outcome_example =
    ensure_2mb_mapped-Outcome 0x3FFFF8 16 0x1000 boot_words boot-IsIdentity

-- The second and the third entry of the PD, after a return with 0.
abbrev entries : Ensured → ℕ × ℕ
entries (mapped w) = (w 0x3008, w 0x3010)
entries _ = (0, 0)

-- The range has bytes of two pages; a range that ends above 1 GB is refused.
two_pages :
    (entries (ensure_2mb_mapped 0x3FFFF8 16 0x1000 boot_words) ≡ (0x200083, 0x400083))
    × (ensure_2mb_mapped 0x3FFFFFF8 16 0x1000 boot_words ≡ unmapped boot_words)
unfolding ensure_2mb_mapped ensure_in ensure_from ensure_entry first_gb align_down_2mb
two_pages = (refl, refl)

three_pages : (pmm_extend_identity 0x500000 0x1000 boot_words).1 0x3010 ≡ 0x400083
unfolding pmm_extend_identity extend_in extend_entry first_gb count_to
three_pages = refl
