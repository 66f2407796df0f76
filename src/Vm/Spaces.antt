-- ===== src/Vm/Spaces.antt =====
-- What a new address space of src/vm.c shares with the kernel's.
use god_os.Base.{
  ℕ, suc, ◌+◌, ◌-◌, ◌*◌, ◌/◌, ◌%◌, ◌≡◌, ◌≢◌, ◌<◌, refl, sym, ap, ◌∙◌, ◌==◌, ltb, leb, if◌then◌else◌,
  true, false, Bool, not, ◌&&◌, ◌||◌, arith, Bool-cases, inl, inr, ==_ne, ==_true,
}
use god_os.Base.Loop.{count_to_inv}
use god_os.Pmm.{alloc_frame}
use god_os.Pmm.Bitmap.{is_used}
use god_os.Pmm.Invariant.{IsValid}
use god_os.Pmm.Alloc.{alloc_frame-Handed}
use god_os.Vm.{Vm, put_word, clear_page, share_kernel, vm_create_space}
use god_os.Vm.Tables.{clear_page_lem}

-- The memory after the entries 256 to 255 + `k` and entry 0 were copied.
abbrev shared : ℕ → ℕ → (ℕ → ℕ) → ℕ → ℕ → ℕ
shared kernel space words k j =
    if j == space
    then words kernel
    else if leb (space + 2048) j && (ltb j (space + 2048 + 8 * k) && (j - space) % 8 == 0)
    then words (kernel + (j - space))
    else words j

-- One more entry.
share_next :
    (kernel space : ℕ) (words w : ℕ → ℕ) (k j : ℕ)
    → kernel % 4096 ≡ 0
    → space % 4096 ≡ 0
    → kernel ≢ space
    → k < 256
    → w j ≡ shared kernel space words k j
    → w (kernel + 8 * (256 + k)) ≡ shared kernel space words k (kernel + 8 * (256 + k))
    → put_word (space + 8 * (256 + k)) (w (kernel + 8 * (256 + k))) w j
      ≡ shared kernel space words (suc k) j
share_next kernel space words w k j a b ne lt here source =
    let entry = kernel + 8 * (256 + k) in
    let outside : (entry == space) ≡ false = ground arith in
    let apart : (leb (space + 2048) entry
          && (ltb entry (space + 2048 + 8 * k) && (entry - space) % 8 == 0))
        ≡ false =
      ground arith in
    let read : w entry ≡ words entry = source ∙ rw (outside, apart) in
    elim (Bool-cases (j == space + 8 * (256 + k))) [
      | inl written ↦
          let new : (leb (space + 2048) j
                && (ltb j (space + 2048 + 8 * suc k) && (j - space) % 8 == 0))
              ≡ true =
            ground arith in
          let first : (j == space) ≡ false = ground arith in
          let same : entry ≡ kernel + (j - space) = ground arith in
          rw (written, first, new) (read ∙ ap words same)
      | inr other ↦
          let old : (leb (space + 2048) j
                && (ltb j (space + 2048 + 8 * suc k) && (j - space) % 8 == 0))
              ≡ (leb (space + 2048) j && (ltb j (space + 2048 + 8 * k) && (j - space) % 8 == 0)) =
            ground arith in
          rw (other, old) here
    ]

-- The two tables are pages, and not the same one.
share_kernel_lem :
    (kernel space : ℕ) (words : ℕ → ℕ) (j : ℕ)
    → kernel % 4096 ≡ 0
    → space % 4096 ≡ 0
    → kernel ≢ space
    → share_kernel kernel space words j ≡ shared kernel space words 256 j
unfolding share_kernel
share_kernel_lem kernel space words j a b ne =
    count_to_inv (λ k (w : ℕ → ℕ). (j : ℕ) → w j ≡ shared kernel space words k j) 256
      (λ k w lt so_far j.
        share_next kernel space words w k j a b ne lt (so_far j) (so_far (kernel + 8 * (256 + k))))
      (λ j. copied j) j
  where
    copied : (j : ℕ) → put_word space (words kernel) words j ≡ shared kernel space words 0 j
    copied j =
        let none : (leb (space + 2048) j && (ltb j (space + 2048 + 8 * 0) && (j - space) % 8 == 0))
            ≡ false =
          ground arith in
        rw none

-- The table made from a frame other than the kernel's.
made_entry :
    (kernel pa : ℕ) (words : ℕ → ℕ) (k : ℕ)
    → kernel % 4096 ≡ 0
    → pa % 4096 ≡ 0
    → kernel ≢ pa
    → k < 512
    → share_kernel kernel pa (clear_page pa words) (pa + 8 * k)
      ≡ (if k == 0 || leb 256 k then words (kernel + 8 * k) else 0)
made_entry kernel pa words k a b ne lt =
    let cleared = clear_page_lem pa words in
    let offset : pa + 8 * k - pa ≡ 8 * k = omega arith in
    let source : clear_page pa words (kernel + 8 * k) ≡ words (kernel + 8 * k) =
      ground (arith, cleared (kernel + 8 * k)) in
    let own : clear_page pa words (pa + 8 * k) ≡ 0 = ground (arith, cleared (pa + 8 * k)) in
    share_kernel_lem kernel pa (clear_page pa words) (pa + 8 * k) a b ne
    ∙ elim (Bool-cases (k == 0)) [
      | inl first ↦
          let here : (pa + 8 * k == pa) ≡ true = ground arith in
          let zero_th : kernel ≡ kernel + 8 * k = ground arith in
          rw (here, first) (ap (clear_page pa words) zero_th ∙ source)
      | inr later ↦
          let here : (pa + 8 * k == pa) ≡ false = ground arith in
          let upper : (leb (pa + 2048) (pa + 8 * k)
                && (ltb (pa + 8 * k) (pa + 2048 + 8 * 256) && (pa + 8 * k - pa) % 8 == 0))
              ≡ leb 256 k =
            ground arith in
          rw (here, later, upper, offset, source, own)
    ]

made_outside :
    (kernel pa : ℕ) (words : ℕ → ℕ) (j : ℕ)
    → kernel % 4096 ≡ 0
    → pa % 4096 ≡ 0
    → kernel ≢ pa
    → (leb pa j && ltb j (pa + 4096)) ≡ false
    → share_kernel kernel pa (clear_page pa words) j ≡ words j
made_outside kernel pa words j a b ne out =
    let cleared : clear_page pa words j ≡ words j = ground (arith, clear_page_lem pa words j) in
    let here : (j == pa) ≡ false = ground arith in
    let upper : (leb (pa + 2048) j && (ltb j (pa + 2048 + 8 * 256) && (j - pa) % 8 == 0)) ≡ false =
      ground arith in
    share_kernel_lem kernel pa (clear_page pa words) j a b ne ∙ rw (here, upper, cleared)

-- With a valid frame allocator and a kernel table, a page whose frame is in use, `vm_create_space` either
-- returns 0, because no frame is free, and changes no memory and no frame; or it returns the address of a
-- frame that was free, which alone is taken, as a table whose entries 0 and 256 to 511 are the kernel's
-- and whose other entries are 0, and changes nothing outside of it.
pub vm_create_space_lem :
    (s : Vm) (k j g : ℕ)
    → IsValid s.pmm
    → s.kernel_space ≢ 0
    → s.kernel_space % 4096 ≡ 0
    → is_used s.pmm.bitmap (s.kernel_space / 4096) ≡ true
    → k < 512
    → let (space, s') = vm_create_space s in
      (s'.words (space + 8 * k) ≡ (
        if space == 0
        then s.words (space + 8 * k)
        else if k == 0 || leb 256 k
        then s.words (s.kernel_space + 8 * k)
        else 0))
      × (s'.words j ≡ (
          if (space == 0) || not (leb space j && ltb j (space + 4096))
          then s.words j
          else s'.words j))
      × ((space == 0) ≡ (s.pmm.free_frames == 0))
      × (space % 4096 ≡ 0)
      × (is_used s.pmm.bitmap (space / 4096) ≡ (space == 0))
      × (is_used s'.pmm.bitmap g ≡ ((g == space / 4096) || is_used s.pmm.bitmap g))
unfolding vm_create_space
vm_create_space_lem s k j g valid given page used lt =
    let got = alloc_frame s.pmm in
    let kernel_there : (s.kernel_space == 0) ≡ false = ==_ne s.kernel_space 0 given in
    elim (alloc_frame-Handed s.pmm valid) [
      | inl (zero_address, same, none_free, all_used) ↦
          let failed : (got.0 == 0) ≡ true = ground arith in
          let empty : (s.pmm.free_frames == 0) ≡ true = ground arith in
          rw (kernel_there, failed, empty)
            (
              refl,
              refl,
              refl,
              refl,
              valid.first_used,
              ap (λ x. is_used x.bitmap g) same ∙ first_frame g valid.first_used,
            )
      | inr (f, address, nonzero, lowest) ↦
          let made : (got.0 == 0) ≡ false = ==_ne got.0 0 nonzero in
          let some_free : (s.pmm.free_frames == 0) ≡ false = ground (arith, lowest.counts) in
          let aligned : got.0 % 4096 ≡ 0 = omega arith in
          let frame : got.0 / 4096 ≡ f = omega arith in
          let other : s.kernel_space ≢ got.0 = λ e.
            let same_frame : s.kernel_space / 4096 ≡ f = omega (arith, e) in
            true-false (sym used ∙ ap (is_used s.pmm.bitmap) same_frame ∙ lowest.was_free) in
          rw (kernel_there, made, made, some_free)
            (
              made_entry s.kernel_space got.0 s.words k page aligned other lt,
              outside got.0 other aligned,
              refl,
              aligned,
              ap (is_used s.pmm.bitmap) frame ∙ lowest.was_free,
              lowest.takes g ∙ taken g f _ _ frame,
            )
    ]
  where
    true-false : true ≢ false
    true-false e = cc

    first_frame :
        (g : ℕ)
        → is_used s.pmm.bitmap 0 ≡ true
        → is_used s.pmm.bitmap g ≡ ((g == 0) || is_used s.pmm.bitmap g)
    first_frame g first = elim (Bool-cases (g == 0)) [
      | inl here ↦ rw here (ap (is_used s.pmm.bitmap) (==_true g 0 here) ∙ first)
      | inr other ↦ rw other
    ]

    taken : (g f n : ℕ) (b : Bool) → n ≡ f → (if g == f then true else b) ≡ ((g == n) || b)
    taken g f n b e = ground arith

    outside :
        (pa : ℕ)
        → s.kernel_space ≢ pa
        → pa % 4096 ≡ 0
        → share_kernel s.kernel_space pa (clear_page pa s.words) j ≡ (
            if not (leb pa j && ltb j (pa + 4096))
            then s.words j
            else share_kernel s.kernel_space pa (clear_page pa s.words) j)
    outside pa ne aligned = elim (Bool-cases (leb pa j && ltb j (pa + 4096))) [
      | inl inside ↦ rw inside
      | inr out ↦ rw out (made_outside s.kernel_space pa s.words j page aligned ne out)
    ]
