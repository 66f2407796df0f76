-- ===== src/Boot/SelfTest.antt =====
-- src/pmm.c: `pmm_self_test`, on the state of the boot. A frame is written and read by its first word.
use god_os.Base.{
  ℕ, zero, suc, ◌+◌, ◌-◌, ◌%◌, ◌^◌, ◌==◌, ltb, leb, if◌then◌else◌, Bool, true, false, not, ◌&&◌,
  Option, none, some, List, [], ◌∷◌, bit_and, bit_xor,
}
use god_os.Base.Text.{codes}
use god_os.Io.{Bus}
use god_os.Pmm.{Pmm, frame_size, frame_count, align_up_4k, alloc_frame, free_frame}
use god_os.Vga.Format.{word}
use god_os.Vm.{put_word}
use god_os.Identity.{two_mb}
use god_os.Boot.{Machine, Init, ready, failed, with_words, with_pmm, max_of, say}

-- `PMM_SELF_TEST_FRAMES`
abbrev pub test_frames : ℕ
test_frames = 512

-- What is wrong with an address that was handed out, which ends the first loop.
pub data Verdict : Type 0 where
  fine no_frame unaligned in_kernel in_info : Verdict

unfoldable pub verdict : ℕ → ℕ → Pmm → Verdict
verdict kernel_end pa s =
    if pa == 0
    then no_frame
    else if not (bit_and pa (frame_size - 1) == 0)
    then unaligned
    else if ltb pa kernel_end
    then in_kernel
    else if ltb pa s.info_end && ltb s.mb_info ((pa + frame_size) % 2 ^ 64)
    then in_info
    else fine

-- The test of the last loop.
unfoldable pub any_frame : ℕ → Pmm → Verdict
any_frame pa s = if pa == 0 then no_frame else fine

-- The frames taken so far, the greatest of them, and where and why the loop has ended.
pub record Taken : Type 0 where
  pub frames : List ℕ
  pub max_pa : ℕ
  pub stopped : Verdict
  pub index : ℕ
  pub address : ℕ
  pub pmm : Pmm

abbrev stop_at : Verdict → ℕ → ℕ → ℕ → List ℕ → Pmm → Taken
stop_at why i pa max_pa frames s = record {
  frames = frames;
  max_pa = max_pa;
  stopped = why;
  index = i;
  address = pa;
  pmm = s;
}

-- The end of a round: the frames with the one at `pa`, and those of the rounds after it.
unfoldable pub keep : Verdict → ℕ → ℕ → ℕ → Pmm → Taken → Taken
keep fine i pa max_pa s rest = record rest { frames = pa ∷ rest.frames }
keep no_frame i pa max_pa s rest = stop_at no_frame i pa max_pa [] s
keep unaligned i pa max_pa s rest = stop_at unaligned i pa max_pa (pa ∷ []) s
keep in_kernel i pa max_pa s rest = stop_at in_kernel i pa max_pa (pa ∷ []) s
keep in_info i pa max_pa s rest = stop_at in_info i pa max_pa (pa ∷ []) s

-- The loops that take frames, from index `i` on.
unfoldable pub take_frames : (ℕ → Pmm → Verdict) → ℕ → ℕ → ℕ → Pmm → Taken
take_frames test zero i max_pa s = stop_at fine i 0 max_pa [] s
take_frames test (suc n) i max_pa s =
    let (pa, s') = alloc_frame s in
    keep (test pa s') i pa max_pa s' (take_frames test n (i + 1) (max_of pa max_pa) s')

-- The loops that give them back.
unfoldable pub give_back : List ℕ → Pmm → Pmm
give_back [] s = s
give_back (pa ∷ frames) s = give_back frames (free_frame pa s)

abbrev pattern : ℕ → ℕ
pattern i = bit_xor 0xA5A5A5A5A5A5A5A5 i

unfoldable pub write_patterns : ℕ → List ℕ → (ℕ → ℕ) → ℕ → ℕ
write_patterns i [] words = words
write_patterns i (pa ∷ frames) words = write_patterns (i + 1) frames (put_word pa (pattern i) words)

-- The first address whose word is another.
unfoldable pub find_mismatch : ℕ → List ℕ → (ℕ → ℕ) → Option ℕ
find_mismatch i [] words = none
find_mismatch i (pa ∷ frames) words =
    let rest = find_mismatch (i + 1) frames words in if words pa == pattern i then rest else some pa

module _ {D : Type 0} (bus : Bus D) (bss_end : ℕ) where
  -- The message of a loop that has ended early.
  unfoldable pub report_taken :
      Taken → (Bool → Machine D → Init (Machine D)) → Machine D → Init (Machine D)
  report_taken t rest m = elim t.stopped [
    | fine ↦ rest true m
    | no_frame ↦
        say bus bss_end (codes "M8/PMM: FAIL alloc frame %d\n") (word t.index ∷ []) (rest false) m
    | unaligned ↦
        say bus bss_end (codes "M8/PMM: FAIL frame not aligned: %p\n") (word t.address ∷ [])
          (rest false) m
    | in_kernel ↦
        say bus bss_end (codes "M8/PMM: FAIL frame inside kernel: %p < %p\n")
          (word t.address ∷ word (align_up_4k bss_end) ∷ []) (rest false) m
    | in_info ↦
        say bus bss_end (codes "M8/PMM: FAIL frame overlaps mb_info: %p\n") (word t.address ∷ [])
          (rest false) m
  ]

  unfoldable pub test_height :
      Taken → (Bool → Machine D → Init (Machine D)) → Bool → Machine D → Init (Machine D)
  test_height t rest ok m =
      if ok && leb t.max_pa two_mb
      then say bus bss_end (codes "M8/PMM: FAIL no frame above 2MB (max_pa=%p)\n")
          (word t.max_pa ∷ []) (rest false) m
      else rest ok m

  unfoldable pub test_patterns :
      Taken → (Bool → Machine D → Init (Machine D)) → Bool → Machine D → Init (Machine D)
  test_patterns t rest false m = rest false m
  test_patterns t rest true m =
      say bus bss_end (codes "M8/PMM: 512 frames, max_pa=%p\n") (word t.max_pa ∷ [])
        (λ m.
          let m' = with_words (write_patterns 0 t.frames m.vm.words) m in
          elim (find_mismatch 0 t.frames m'.vm.words) [
            | none ↦ say bus bss_end (codes "M8/PMM: pattern PASS\n") [] (rest true) m'
            | some pa ↦
                say bus bss_end (codes "M8/PMM: FAIL pattern mismatch at %p\n") (word pa ∷ [])
                  (rest false) m'
          ])
        m

  -- The frees, and the count after them.
  unfoldable pub test_count :
      ℕ → Taken → (Bool → Machine D → Init (Machine D)) → Bool → Machine D → Init (Machine D)
  test_count before t rest ok m =
      let m' = with_pmm (give_back t.frames m.vm.pmm) m in
      let after = m'.vm.pmm.free_frames in
      if not ok
      then rest false m'
      else if not (after == before)
      then say bus bss_end (codes "M8/PMM: FAIL free-after-free=%llu, expected %llu\n")
          (word after ∷ word before ∷ []) (rest false) m'
      else say bus bss_end (codes "M8/PMM: free-after-free=%llu\n") (word after ∷ []) (rest true) m'

  -- `return ok ? 0 : -1`
  unfoldable pub answer : Bool → Machine D → Init (Machine D)
  answer ok m = if ok then ready m else failed m

  -- The second frees, after a message if the loop has ended early.
  unfoldable pub return_reused : Taken → Bool → Machine D → Init (Machine D)
  return_reused t ok m =
      let m' = with_pmm (give_back t.frames m.vm.pmm) m in
      if ok
      then say bus bss_end (codes "M8/PMM: reuse PASS\n") [] (answer true) m'
      else answer false m'

  unfoldable pub test_reuse : Bool → Machine D → Init (Machine D)
  test_reuse false m = answer false m
  test_reuse true m =
      let t = take_frames any_frame test_frames 0 0 m.vm.pmm in
      elim t.stopped [
        | no_frame ↦
            say bus bss_end (codes "M8/PMM: FAIL reuse alloc frame %d\n") (word t.index ∷ [])
              (return_reused t false) (with_pmm t.pmm m)
        | _ ↦ return_reused t true (with_pmm t.pmm m)
      ]

  unfoldable pub pmm_self_test : Machine D → Init (Machine D)
  pmm_self_test m =
      let before = m.vm.pmm.free_frames in
      let t = take_frames (verdict (align_up_4k bss_end)) test_frames 0 0 m.vm.pmm in
      say bus bss_end (codes "M8/PMM: total=%llu free=%llu\n") (word frame_count ∷ word before ∷ [])
        (λ m.
          report_taken t (test_height t (test_patterns t (test_count before t test_reuse)))
            (with_pmm t.pmm m))
        m
