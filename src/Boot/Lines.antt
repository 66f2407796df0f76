-- ===== src/Boot/Lines.antt =====
-- The lines that `pmm_init` and `pmm_self_test` of src/pmm.c print: every conversion of theirs has its argument.
use god_os.Base.{ℕ, refl, [], ◌∷◌}
use god_os.Base.Text.{codes}
use god_os.Vga.Format.{
  word, parse_conversion, parse_flag, parse_width, parse_length, skip_l, split_first,
}
use god_os.Boot.Checks.{Line, reads_all, reads_all-Line}

pub null-Line : Line (codes "M8: mb_info is NULL\n") ([])
unfolding reads_all parse_conversion parse_flag parse_width parse_length skip_l split_first
null-Line = reads_all-Line 64 _ _ refl

pub failed-Line : Line (codes "M8: mb2_init failed\n") ([])
unfolding reads_all parse_conversion parse_flag parse_width parse_length skip_l split_first
failed-Line = reads_all-Line 64 _ _ refl

pub header-Line : (a : ℕ) → Line (codes "M8: cannot map mb_info header at %p\n") (word a ∷ [])
unfolding reads_all parse_conversion parse_flag parse_width parse_length skip_l split_first
header-Line a = reads_all-Line 64 _ _ refl

pub size-Line : (a : ℕ) → Line (codes "M8: bad multiboot2 total_size=0x%x\n") (word a ∷ [])
unfolding reads_all parse_conversion parse_flag parse_width parse_length skip_l split_first
size-Line a = reads_all-Line 64 _ _ refl

pub body-Line : (a : ℕ) → Line (codes "M8: cannot map mb_info body (%u bytes)\n") (word a ∷ [])
unfolding reads_all parse_conversion parse_flag parse_width parse_length skip_l split_first
body-Line a = reads_all-Line 64 _ _ refl

pub info-Line :
    (a b : ℕ) → Line (codes "M8: mb_info=%p total_size=0x%016llx\n") (word a ∷ word b ∷ [])
unfolding reads_all parse_conversion parse_flag parse_width parse_length skip_l split_first
info-Line a b = reads_all-Line 64 _ _ refl

pub count-Line : (a : ℕ) → Line (codes "M8: usable ranges=%d\n") (word a ∷ [])
unfolding reads_all parse_conversion parse_flag parse_width parse_length skip_l split_first
count-Line a = reads_all-Line 64 _ _ refl

pub range-Line :
    (a b c : ℕ) → Line (codes "  [%d] base=%p len=0x%016llx\n") (word a ∷ word b ∷ word c ∷ [])
unfolding reads_all parse_conversion parse_flag parse_width parse_length skip_l split_first
range-Line a b c = reads_all-Line 64 _ _ refl

pub usable-Line :
    (a b : ℕ) → Line (codes "M8: usable=0x%016llx (~%llu MB)\n") (word a ∷ word b ∷ [])
unfolding reads_all parse_conversion parse_flag parse_width parse_length skip_l split_first
usable-Line a b = reads_all-Line 64 _ _ refl

pub extend-Line : (a : ℕ) → Line (codes "M8/PMM: cannot extend identity map to %p\n") (word a ∷ [])
unfolding reads_all parse_conversion parse_flag parse_width parse_length skip_l split_first
extend-Line a = reads_all-Line 64 _ _ refl

pub total-Line : (a b : ℕ) → Line (codes "M8/PMM: total=%llu free=%llu\n") (word a ∷ word b ∷ [])
unfolding reads_all parse_conversion parse_flag parse_width parse_length skip_l split_first
total-Line a b = reads_all-Line 64 _ _ refl

pub no_frame-Line : (a : ℕ) → Line (codes "M8/PMM: FAIL alloc frame %d\n") (word a ∷ [])
unfolding reads_all parse_conversion parse_flag parse_width parse_length skip_l split_first
no_frame-Line a = reads_all-Line 64 _ _ refl

pub unaligned-Line : (a : ℕ) → Line (codes "M8/PMM: FAIL frame not aligned: %p\n") (word a ∷ [])
unfolding reads_all parse_conversion parse_flag parse_width parse_length skip_l split_first
unaligned-Line a = reads_all-Line 64 _ _ refl

pub in_kernel-Line :
    (a b : ℕ) → Line (codes "M8/PMM: FAIL frame inside kernel: %p < %p\n") (word a ∷ word b ∷ [])
unfolding reads_all parse_conversion parse_flag parse_width parse_length skip_l split_first
in_kernel-Line a b = reads_all-Line 64 _ _ refl

pub in_info-Line : (a : ℕ) → Line (codes "M8/PMM: FAIL frame overlaps mb_info: %p\n") (word a ∷ [])
unfolding reads_all parse_conversion parse_flag parse_width parse_length skip_l split_first
in_info-Line a = reads_all-Line 64 _ _ refl

pub height-Line :
    (a : ℕ) → Line (codes "M8/PMM: FAIL no frame above 2MB (max_pa=%p)\n") (word a ∷ [])
unfolding reads_all parse_conversion parse_flag parse_width parse_length skip_l split_first
height-Line a = reads_all-Line 64 _ _ refl

pub frames-Line : (a : ℕ) → Line (codes "M8/PMM: 512 frames, max_pa=%p\n") (word a ∷ [])
unfolding reads_all parse_conversion parse_flag parse_width parse_length skip_l split_first
frames-Line a = reads_all-Line 64 _ _ refl

pub pattern-Line : Line (codes "M8/PMM: pattern PASS\n") ([])
unfolding reads_all parse_conversion parse_flag parse_width parse_length skip_l split_first
pattern-Line = reads_all-Line 64 _ _ refl

pub mismatch-Line : (a : ℕ) → Line (codes "M8/PMM: FAIL pattern mismatch at %p\n") (word a ∷ [])
unfolding reads_all parse_conversion parse_flag parse_width parse_length skip_l split_first
mismatch-Line a = reads_all-Line 64 _ _ refl

pub lost-Line :
    (a b : ℕ)
    → Line (codes "M8/PMM: FAIL free-after-free=%llu, expected %llu\n") (word a ∷ word b ∷ [])
unfolding reads_all parse_conversion parse_flag parse_width parse_length skip_l split_first
lost-Line a b = reads_all-Line 64 _ _ refl

pub back-Line : (a : ℕ) → Line (codes "M8/PMM: free-after-free=%llu\n") (word a ∷ [])
unfolding reads_all parse_conversion parse_flag parse_width parse_length skip_l split_first
back-Line a = reads_all-Line 64 _ _ refl

pub reuse-Line : (a : ℕ) → Line (codes "M8/PMM: FAIL reuse alloc frame %d\n") (word a ∷ [])
unfolding reads_all parse_conversion parse_flag parse_width parse_length skip_l split_first
reuse-Line a = reads_all-Line 64 _ _ refl

pub reused-Line : Line (codes "M8/PMM: reuse PASS\n") ([])
unfolding reads_all parse_conversion parse_flag parse_width parse_length skip_l split_first
reused-Line = reads_all-Line 64 _ _ refl
