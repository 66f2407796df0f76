-- ===== src/Identity.antt =====
-- src/pmm.c: the two functions of the boot that map memory below 1 GB to itself, by large pages, and what
-- the processor makes of such tables. The tables are read and written at their physical addresses.
pub mod Fills
pub mod Keeps
pub mod Whole
pub mod Ensure
pub mod Extend
pub mod Tests
use god_os.Base.{
  ℕ, zero, suc, ◌+◌, ◌-◌, ◌*◌, ◌/◌, ◌%◌, ◌^◌, ◌==◌, ltb, leb, if◌then◌else◌, Bool, true, false, not,
  ◌||◌, ◌&&◌, Option, none, some, bit_and, bit_or,
}
use god_os.Base.Loop.{count_to}
use god_os.Pmm.{max_phys}
use god_os.Vm.{put_word}

-- `PMM_PTE_PRESENT | PMM_PTE_RW | PMM_PTE_HUGE`, and the other constants.
abbrev pub pte_kernel : ℕ
pte_kernel = 0x83

abbrev pte_addr : ℕ
pte_addr = 0x000FFFFFFFFFF000

abbrev pub two_mb : ℕ
two_mb = 2 * 1024 * 1024

-- What the two upper tables say of the first gigabyte: nothing, that one page holds all of it, or where
-- its PD is.
pub data FirstGb : Type 0 where
  missing whole : FirstGb
  by_pd : ℕ → FirstGb

unfoldable pub first_gb : ℕ → (ℕ → ℕ) → FirstGb
first_gb cr3 words =
    let pml4 = bit_and cr3 pte_addr in
    let pdpt = bit_and (words pml4) pte_addr in
    if bit_and (words pml4) 1 == 0
    then missing
    else if bit_and (words pdpt) 1 == 0
    then missing
    else if not (bit_and (words pdpt) 0x80 == 0)
    then whole
    else by_pd (bit_and (words pdpt) pte_addr)

-- One round of the loop of `ensure_2mb_mapped`; `none` is its return with -1.
unfoldable pub ensure_entry : ℕ → ℕ → (ℕ → ℕ) → Option (ℕ → ℕ)
ensure_entry pd idx words =
    let entry = words (pd + 8 * idx) in
    if leb 512 idx
    then none
    else if bit_and entry 1 == 0
    then some (put_word (pd + 8 * idx) (bit_or (idx * 2 ^ 21 % 2 ^ 64) pte_kernel) words)
    else if bit_and entry 0x80 == 0
    then none
    else some words

-- How the loop ends: with the result 0 or -1, or on too little fuel.
pub data Ensured : Type 0 where
  mapped unmapped : (ℕ → ℕ) → Ensured
  out_of_rounds : Ensured

-- The loop, which ends on a return or behind the page at `last`.
unfoldable pub ensure_from : ℕ → ℕ → ℕ → ℕ → (ℕ → ℕ) → Ensured
ensure_from zero pd a last words = out_of_rounds
ensure_from (suc fuel) pd a last words = elim (ensure_entry pd (a / 2 ^ 21) words) [
  | none ↦ unmapped words
  | some words' ↦ elim (a == last) [
    | true ↦ mapped words'
    | false ↦ ensure_from fuel pd ((a + two_mb) % 2 ^ 64) last words'
  ]
]

-- `x & ~(PMM_2MB - 1)`
unfoldable pub align_down_2mb : ℕ → ℕ
align_down_2mb x = bit_and x (2 ^ 64 - two_mb)

unfoldable pub ensure_in : FirstGb → ℕ → ℕ → (ℕ → ℕ) → Ensured
ensure_in missing addr len words = unmapped words
ensure_in whole addr len words = mapped words
ensure_in (by_pd pd) addr len words =
    ensure_from 513 pd (align_down_2mb addr) (align_down_2mb ((addr + len - 1) % 2 ^ 64)) words

-- No entry of a PD is taken twice, so that 513 rounds suffice. The store of CR3 keeps its value.
unfoldable pub ensure_2mb_mapped : ℕ → ℕ → ℕ → (ℕ → ℕ) → Ensured
ensure_2mb_mapped addr len cr3 words =
    if len == 0
    then mapped words
    else if leb max_phys addr || ltb (max_phys - addr) len
    then unmapped words
    else ensure_in (first_gb cr3 words) addr len words

-- The body of the loop of `pmm_extend_identity`.
unfoldable pub extend_entry : ℕ → ℕ → (ℕ → ℕ) → ℕ → ℕ
extend_entry pd i words =
    if bit_and (words (pd + 8 * i)) 1 == 0
    then put_word (pd + 8 * i) (bit_or (i * 2 ^ 21 % 2 ^ 64) pte_kernel) words
    else words

-- The loop runs from 1 up to `n - 1`.
unfoldable pub extend_in : FirstGb → ℕ → (ℕ → ℕ) → Bool × (ℕ → ℕ)
extend_in missing n words = (false, words)
extend_in whole n words = (true, words)
extend_in (by_pd pd) n words = (true, count_to (n - 1) (λ k w. extend_entry pd (k + 1) w) words)

unfoldable pub pmm_extend_identity : ℕ → ℕ → (ℕ → ℕ) → Bool × (ℕ → ℕ)
pmm_extend_identity max_end cr3 words =
    let end = if ltb max_phys max_end then max_phys else max_end in
    let n = (end + two_mb - 1) / two_mb in
    if max_end == 0
    then (true, words)
    else extend_in (first_gb cr3 words) (if ltb 512 n then 512 else n) words

-- Where the tables put an address: a large page, of 1 GB or 2 MB, of the first gigabyte. The boot code makes
-- no other.
abbrev pub in_page : ℕ → ℕ → ℕ → Option ℕ
in_page size entry a =
    if entry % 2 == 1 && entry / 128 % 2 == 1
    then some (entry % 2 ^ 52 / size * size + a % size)
    else none

unfoldable pub large_page : FirstGb → ℕ → (ℕ → ℕ) → ℕ → Option ℕ
large_page missing gb words a = none
large_page whole gb words a = in_page (2 ^ 30) gb a
large_page (by_pd pd) gb words a = in_page (2 ^ 21) (words (pd + 8 * (a / 2 ^ 21))) a

unfoldable pub translate : ℕ → (ℕ → ℕ) → ℕ → Option ℕ
translate cr3 words a =
    if leb (2 ^ 30) a
    then none
    else large_page (first_gb cr3 words) (words (bit_and (words (bit_and cr3 pte_addr)) pte_addr))
        words a
