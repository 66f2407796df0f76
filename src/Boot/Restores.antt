-- ===== src/Boot/Restores.antt =====
-- `pmm_self_test` of src/pmm.c comes to its end and gives every frame back.
use god_os.Base.{
  ℕ, ◌≡◌, refl, ap, sym, ◌∙◌, leb, ◌==◌, Bool, true, false, not, ◌&&◌, Bool-cases, Option-cases,
  inl, inr, ◌⊎◌, [], ◌∷◌,
}
use mathlib.Core.Path.{subst}
use god_os.Io.{Bus}
use god_os.Pmm.{Pmm, frame_count, align_up_4k}
use god_os.Pmm.Invariant.{IsValid}
use god_os.Base.Text.{codes}
use god_os.Vga.Format.{word}
use god_os.Boot.{Machine, Init, ready, failed, with_words, with_pmm, say}
use god_os.Boot.Lines.{
  total-Line, no_frame-Line, unaligned-Line, in_kernel-Line, in_info-Line, height-Line, frames-Line,
  pattern-Line, mismatch-Line, lost-Line, back-Line, reuse-Line, reused-Line,
}
use god_os.Boot.Says.{say-Leads}
use god_os.Boot.SelfTest.{
  Verdict, fine, no_frame, unaligned, in_kernel, in_info, verdict, any_frame, Taken, take_frames,
  give_back, write_patterns, find_mismatch, report_taken, test_height, test_patterns, test_count,
  answer, return_reused, test_reuse, pmm_self_test, test_frames,
}
use god_os.Boot.Borrow.{Same, give_back-Same, take_frames-Borrowed}
use god_os.Boot.Verdicts.{any_frame-Spots, verdict-Spots}

Same-trans : {a b c : Pmm} → Same a b → Same b c → Same a c
Same-trans x y = record {
  valid = y.valid;
  counts = y.counts ∙ x.counts;
  used = λ g. y.used g ∙ x.used g;
}

-- The code returns 0 or -1, with the same frames in use as in `s`.
abbrev pub Restores : {D : Type 0} → Pmm → Init (Machine D) → Type 0
Restores {D} s r = (m : Machine D) × ((r ≡ ready m) ⊎ (r ≡ failed m)) × Same s m.vm.pmm

-- What follows does so from the allocator `pmm`.
abbrev After : {D : Type 0} → Pmm → Pmm → (Bool → Machine D → Init (Machine D)) → Type 0
After {D} s pmm rest = (ok : Bool) (m : Machine D) → m.vm.pmm ≡ pmm → Restores s (rest ok m)

module _ {D : Type 0} (bus : Bus D) (bss_end : ℕ) (s : Pmm) where
  report_taken-Restores :
      (t : Taken) (rest : Bool → Machine D → Init (Machine D)) (m : Machine D)
      → After s t.pmm rest
      → m.vm.pmm ≡ t.pmm
      → Restores s (report_taken bus bss_end t rest m)
  unfolding report_taken
  report_taken-Restores t rest m after e = on t.stopped refl
    where
      on : (v : Verdict) → t.stopped ≡ v → Restores s (report_taken bus bss_end t rest m)
      on fine is = rw (is, report_taken) (after true m e)
      on no_frame is =
          rw (is, report_taken)
            (say-Leads bus bss_end (Restores s) (rest false) m (no_frame-Line t.index)
              (λ screen. after false _ e))
      on unaligned is =
          rw (is, report_taken)
            (say-Leads bus bss_end (Restores s) (rest false) m (unaligned-Line t.address)
              (λ screen. after false _ e))
      on in_kernel is =
          rw (is, report_taken)
            (say-Leads bus bss_end (Restores s) (rest false) m
              (in_kernel-Line t.address (align_up_4k bss_end)) (λ screen. after false _ e))
      on in_info is =
          rw (is, report_taken)
            (say-Leads bus bss_end (Restores s) (rest false) m (in_info-Line t.address)
              (λ screen. after false _ e))

  test_height-Restores :
      (t : Taken) {pmm : Pmm} {rest : Bool → Machine D → Init (Machine D)}
      → After s pmm rest
      → After s pmm (test_height bus bss_end t rest)
  unfolding test_height
  test_height-Restores t {pmm} {rest} after ok m e =
      elim (Bool-cases (ok && leb t.max_pa 0x200000)) [
        | inl low ↦
            rw (low, test_height)
              (say-Leads bus bss_end (Restores s) (rest false) m (height-Line t.max_pa)
                (λ screen. after false _ e))
        | inr high ↦ rw (high, test_height) (after ok m e)
      ]

  test_patterns-Restores :
      (t : Taken) {pmm : Pmm} {rest : Bool → Machine D → Init (Machine D)}
      → After s pmm rest
      → After s pmm (test_patterns bus bss_end t rest)
  unfolding test_patterns
  test_patterns-Restores t {pmm} {rest} after false m e = after false m e
  test_patterns-Restores t {pmm} {rest} after true m e =
      say-Leads bus bss_end (Restores s) _ m (frames-Line t.max_pa) (λ screen.
        let m' = with_words (write_patterns 0 t.frames m.vm.words) (record m { screen = screen }) in
        elim (Option-cases (find_mismatch 0 t.frames m'.vm.words)) [
          | inl same ↦
              rw (same, Restores)
                (say-Leads bus bss_end (Restores s) (rest true) m' pattern-Line
                  (λ screen. after true _ e))
          | inr (pa, is) ↦
              rw (is, Restores)
                (say-Leads bus bss_end (Restores s) (rest false) m' (mismatch-Line pa)
                  (λ screen. after false _ e))
        ])

  test_count-Restores :
      (before : ℕ) (t : Taken) {rest : Bool → Machine D → Init (Machine D)}
      → After s (give_back t.frames t.pmm) rest
      → After s t.pmm (test_count bus bss_end before t rest)
  unfolding test_count
  test_count-Restores before t {rest} after ok m e =
      let m' = with_pmm (give_back t.frames m.vm.pmm) m in
      let e' : m'.vm.pmm ≡ give_back t.frames t.pmm = ap (give_back t.frames) e in
      let count = m'.vm.pmm.free_frames in
      elim (Bool-cases (not ok)) [
        | inl failing ↦ rw (failing, test_count) (after false m' e')
        | inr fine_so_far ↦ elim (Bool-cases (not (count == before))) [
          | inl lost ↦
              rw (fine_so_far, lost, test_count)
                (say-Leads bus bss_end (Restores s) (rest false) m' (lost-Line count before)
                  (λ screen. after false _ e'))
          | inr same ↦
              rw (fine_so_far, same, test_count)
                (say-Leads bus bss_end (Restores s) (rest true) m' (back-Line count)
                  (λ screen. after true _ e'))
        ]
      ]

  answer-Restores : {pmm : Pmm} → Same s pmm → After s pmm (answer bus bss_end)
  unfolding answer
  answer-Restores same true m e = (m, inl refl, subst (Same s) (sym e) same)
  answer-Restores same false m e = (m, inr refl, subst (Same s) (sym e) same)

  return_reused-Restores :
      (t : Taken) → Same s (give_back t.frames t.pmm) → After s t.pmm (return_reused bus bss_end t)
  unfolding return_reused
  return_reused-Restores t same ok m e =
      let m' = with_pmm (give_back t.frames m.vm.pmm) m in
      let e' : m'.vm.pmm ≡ give_back t.frames t.pmm = ap (give_back t.frames) e in
      elim (Bool-cases ok) [
        | inl passed ↦
            rw (passed, return_reused)
              (say-Leads bus bss_end (Restores s) (answer bus bss_end true) m' reused-Line
                (λ screen. answer-Restores same true _ e'))
        | inr failing ↦ rw (failing, return_reused) (answer-Restores same false m' e')
      ]

  test_reuse-Restores : {pmm : Pmm} → Same s pmm → After s pmm (test_reuse bus bss_end)
  unfolding test_reuse
  test_reuse-Restores same false m e = answer-Restores same false m e
  test_reuse-Restores {pmm} same true m e =
      let t = take_frames any_frame test_frames 0 0 m.vm.pmm in
      let here : Same s m.vm.pmm = subst (Same s) (sym e) same in
      let borrowed =
        take_frames-Borrowed any_frame test_frames 0 0 m.vm.pmm any_frame-Spots here.valid in
      let back = Same-trans here (give_back-Same t.frames m.vm.pmm t.pmm borrowed) in
      on t back t.stopped refl
    where
      on :
          (t : Taken)
          → Same s (give_back t.frames t.pmm)
          → (v : Verdict) → t.stopped ≡ v
          → Restores s (elim t.stopped [
            | no_frame ↦
                say bus bss_end
                  (codes "M8/PMM: FAIL reuse alloc frame %d\n")
                  (word t.index ∷ [])
                  (return_reused bus bss_end t false)
                  (with_pmm t.pmm m)
            | _ ↦ return_reused bus bss_end t true (with_pmm t.pmm m)
          ])
      on t back no_frame is = rw is (
          say-Leads bus bss_end (Restores s) (return_reused bus bss_end t false) (with_pmm t.pmm m)
            (reuse-Line t.index) (λ screen. return_reused-Restores t back false _ refl))
      on t back fine is = rw is (return_reused-Restores t back true _ refl)
      on t back unaligned is = rw is (return_reused-Restores t back true _ refl)
      on t back in_kernel is = rw is (return_reused-Restores t back true _ refl)
      on t back in_info is = rw is (return_reused-Restores t back true _ refl)

-- From a valid allocator `pmm_self_test` returns 0 or -1, without a print that fails, and on every way
-- through it gives back what it took: the same frames are in use as before, the same number is
-- free, and the allocator is valid.
pub pmm_self_test-Restores :
    {D : Type 0} (bus : Bus D) (bss_end : ℕ) (m : Machine D)
    → IsValid m.vm.pmm
    → Restores m.vm.pmm (pmm_self_test bus bss_end m)
unfolding pmm_self_test
pmm_self_test-Restores bus bss_end m v =
    let s = m.vm.pmm in
    let before = s.free_frames in
    let test = verdict (align_up_4k bss_end) in
    let t = take_frames test test_frames 0 0 s in
    let borrowed =
      take_frames-Borrowed test test_frames 0 0 s (verdict-Spots (align_up_4k bss_end)) v in
    let reuse = test_reuse-Restores bus bss_end s (give_back-Same t.frames s t.pmm borrowed) in
    say-Leads bus bss_end (Restores s) _ m (total-Line frame_count before) (λ screen.
      report_taken-Restores bus bss_end s t _ (with_pmm t.pmm (record m { screen = screen }))
        (test_height-Restores bus bss_end s t (
          test_patterns-Restores bus bss_end s t
            (test_count-Restores bus bss_end s before t reuse)))
        refl)
