-- ===== src/Boot.antt =====
-- src/pmm.c: `pmm_init`, which runs before any frame is handed out: it maps the boot information to itself
-- by large pages, has src/mb2.c parse it, fills the bitmap, and maps the rest of the memory to itself.
-- The bytes of the boot information are read at the addresses that the tables give them.
pub mod Checks
pub mod Lines
pub mod Says
pub mod Frames
pub mod Reads
pub mod Ready
pub mod Runs
pub mod SelfTest
pub mod Borrow
pub mod Verdicts
pub mod Restores
pub mod Tests
use god_os.Base.{
  ℕ, zero, suc, ◌+◌, ◌-◌, ◌*◌, ◌/◌, ◌%◌, ◌^◌, ◌==◌, ltb, leb, if◌then◌else◌, Bool, true, false, not,
  ◌||◌, ◌&&◌, Option, none, some, List, [], ◌∷◌, length, bit_and, bit_or,
}
use god_os.Base.Text.{codes}
use god_os.Base.Loop.{count_to}
use god_os.Identity.{
  Ensured, mapped, unmapped, out_of_rounds, ensure_2mb_mapped, pmm_extend_identity, translate,
}
use god_os.Io.{Bus}
use god_os.Mb2.{Memory, Status, ok, error, fault, out_of_fuel as walk_unfinished, load, mb2_init}
use god_os.Pmm.{Pmm, Range, max_phys, bitmap_init}
use god_os.Vga.{Screen}
use god_os.Vga.Format.{Arg, word, Printed, done, bad_argument, out_of_fuel, vga_printf}
use god_os.Vm.{Vm}

-- `MB2_MAX_RANGES`
abbrev pub max_ranges : ℕ
max_ranges = 32

-- The state of the boot: tables, frames and registers, the bytes of physical memory outside of the tables,
-- and the screen.
pub record Machine (D : Type 0) : Type 0 where
  pub vm : Vm
  pub bytes : ℕ → ℕ
  pub screen : Screen D

-- The bytes as the processor reads them.
unfoldable pub memory : {D : Type 0} → Machine D → Memory
memory m a = elim (translate m.vm.cr3 m.vm.words a) [ none ↦ none | some p ↦ some (m.bytes p) ]

-- `pmm_init` returns 0 or -1. It could also read what is not mapped, or its model could run out of fuel or
-- print what is no format.
pub data Init (A : Type 0) : Type 0 where
  ready failed : A → Init A
  faulted stuck : Init A

abbrev pub with_words : {D : Type 0} → (ℕ → ℕ) → Machine D → Machine D
with_words words m = record m { vm = record (m.vm) { words = words } }

abbrev pub with_pmm : {D : Type 0} → Pmm → Machine D → Machine D
with_pmm pmm m = record m { vm = record (m.vm) { pmm = pmm } }

-- The step of the loop over the ranges: the sum of the lengths, and the greatest end.
unfoldable pub range_end : Range → ℕ
range_end r =
    let end = (r.base + r.length) % 2 ^ 64 in
    if ltb end r.base || ltb max_phys end then max_phys else end

abbrev pub max_of : ℕ → ℕ → ℕ
max_of a b = if ltb b a then a else b

module _ {D : Type 0} (bus : Bus D) (bss_end : ℕ) where
  -- One `vga_printf` before the rest.
  unfoldable pub say :
      List ℕ → List Arg → (Machine D → Init (Machine D)) → Machine D → Init (Machine D)
  say fmt args rest m = elim (vga_printf bus fmt args m.screen) [
    | done screen ↦ rest (record m { screen = screen })
    | bad_argument ↦ stuck
    | out_of_fuel ↦ stuck
  ]

  unfoldable pub fail : List ℕ → List Arg → Machine D → Init (Machine D)
  fail fmt args m = say fmt args (λ m. failed m) m

  -- The end of `pmm_init`, after the print of the sum.
  unfoldable pub set_up : ℕ → ℕ → ℕ → List Range → Machine D → Init (Machine D)
  set_up mb_info info_end max_end ranges m =
      let known = record (m.vm.pmm) { mb_info = mb_info; info_end = info_end; max_end = max_end } in
      let m' = with_pmm (bitmap_init bss_end ranges known) m in
      let (extended, words) = pmm_extend_identity max_end m'.vm.cr3 m'.vm.words in
      if extended
      then ready (with_words words m')
      else fail (codes "M8/PMM: cannot extend identity map to %p\n") (word max_end ∷ [])
          (with_words words m')

  -- The loop over the ranges, from number `i` on, before `rest`.
  unfoldable pub list_ranges :
      ℕ → List Range → ℕ → ℕ → (ℕ → Machine D → Init (Machine D)) → Machine D → Init (Machine D)
  list_ranges i [] usable max_end rest m =
      say (codes "M8: usable=0x%016llx (~%llu MB)\n") (word usable ∷ word (usable / 2 ^ 20) ∷ [])
        (rest max_end) m
  list_ranges i (r ∷ ranges) usable max_end rest m =
      say (codes "  [%d] base=%p len=0x%016llx\n") (word i ∷ word r.base ∷ word r.length ∷ [])
        (list_ranges (i + 1) ranges ((usable + r.length) % 2 ^ 64) (max_of (range_end r) max_end)
          rest)
        m

  unfoldable pub with_info : ℕ → ℕ → ℕ → List Range → Machine D → Init (Machine D)
  with_info mb_info total_size info_end ranges m =
      say (codes "M8: mb_info=%p total_size=0x%016llx\n") (word mb_info ∷ word total_size ∷ [])
        (say (codes "M8: usable ranges=%d\n") (word (length ranges) ∷ [])
          (list_ranges 0 ranges 0 0 (λ max_end. set_up mb_info info_end max_end ranges)))
        m

  unfoldable pub parse_info : ℕ → ℕ → Machine D → Init (Machine D)
  parse_info mb_info total_size m =
      let parsed = mb2_init (memory m) false false max_ranges mb_info in
      elim parsed.status [
        | ok ↦
            with_info mb_info total_size (elim parsed.info_end [ none ↦ 0 | some end ↦ end ])
              parsed.found m
        | error ↦ fail (codes "M8: mb2_init failed\n") [] m
        | fault ↦ faulted
        | walk_unfinished ↦ stuck
      ]

  -- `if (ensure_2mb_mapped(addr, len) != 0) { ...; return -1; }` before the rest.
  unfoldable pub ensure_then :
      ℕ
      → ℕ
      → (Machine D → Init (Machine D))
      → (Machine D → Init (Machine D))
      → Machine D
      → Init (Machine D)
  ensure_then addr len otherwise rest m = elim (ensure_2mb_mapped addr len m.vm.cr3 m.vm.words) [
    | mapped words ↦ rest (with_words words m)
    | unmapped words ↦ otherwise (with_words words m)
    | out_of_rounds ↦ stuck
  ]

  unfoldable pub read_info : ℕ → Machine D → Init (Machine D)
  read_info mb_info m = elim (load 4 (memory m) mb_info) [
    | none ↦ faulted
    | some total_size ↦
        if total_size == 0 || ltb 0x100000 total_size
        then fail (codes "M8: bad multiboot2 total_size=0x%x\n") (word total_size ∷ []) m
        else ensure_then mb_info total_size
            (fail (codes "M8: cannot map mb_info body (%u bytes)\n") (word total_size ∷ []))
            (parse_info mb_info total_size) m
  ]

  unfoldable pub pmm_init : ℕ → Machine D → Init (Machine D)
  pmm_init mb_info m =
      if mb_info == 0
      then fail (codes "M8: mb_info is NULL\n") [] m
      else ensure_then mb_info 8
          (fail (codes "M8: cannot map mb_info header at %p\n") (word mb_info ∷ []))
          (read_info mb_info) m
