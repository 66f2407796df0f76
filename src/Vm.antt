-- ===== src/Vm.antt =====
-- src/vm.c and vm.h: page tables in physical memory, address spaces, and the page-fault handler.
-- Physical memory below 1 GB is mapped to itself, so that a table is read and written at its physical
-- address: memory is a map from byte addresses to the 64-bit words that begin there.
pub mod Entries
pub mod Tables
pub mod Forest
pub mod Grow
pub mod Level
pub mod Route
pub mod Lookup
mod Same
pub mod Written
pub mod Map
pub mod Unmap
pub mod Fault
pub mod Serves
pub mod Spaces
pub mod Tests
mod MapTests
use god_os.Base.{
  ℕ, ◌+◌, ◌-◌, ◌*◌, ◌/◌, ◌%◌, ◌^◌, ◌==◌, ltb, leb, if◌then◌else◌, Bool, true, false, not, ◌||◌,
  Option, none, some, List, [], ◌∷◌, bit_and, bit_or,
}
use god_os.Base.Loop.{count_to}
use god_os.Heap.{heap_base, heap_size}
use god_os.Pmm.{Pmm, max_phys, alloc_frame, free_frame}
use god_os.Regs.{Regs}

abbrev page_size : ℕ
page_size = 4096

abbrev pub pte_present : ℕ
pte_present = 1

abbrev pub pte_write : ℕ
pte_write = 2

abbrev pub pte_huge : ℕ
pte_huge = 2 ^ 7

abbrev pub addr_mask : ℕ
addr_mask = 0x000FFFFFFFFFF000

-- Memory, the frame allocator, CR3 and CR2, the static variables, and the pages flushed.
pub record Vm : Type 0 where
  pub words : ℕ → ℕ
  pub pmm : Pmm
  pub cr3 : ℕ
  pub cr2 : ℕ
  pub kernel_space : ℕ
  pub faults : ℕ
  pub in_fault : Bool
  pub flushed : List ℕ

abbrev pub put_word : ℕ → ℕ → (ℕ → ℕ) → ℕ → ℕ
put_word a v words j = if j == a then v else words j

-- `for (i = 0; i < 512; i++) next[i] = 0`
unfoldable pub clear_page : ℕ → (ℕ → ℕ) → ℕ → ℕ
clear_page pa words = count_to 512 (λ i w. put_word (pa + 8 * i) 0 w) words

unfoldable pub vm_init : Vm → Vm
vm_init s = record s { kernel_space = bit_and s.cr3 addr_mask; faults = 0; in_fault = false }

unfoldable pub vm_current_space : Vm → ℕ
vm_current_space s = bit_and s.cr3 addr_mask

-- A new table for the entry at `slot`, whose old entry is not present.
unfoldable pub add_table : ℕ → Vm → Option ℕ × Vm
add_table slot s =
    let (pa, pmm) = alloc_frame s.pmm in
    if pa == 0
    then (none, record s { pmm = pmm })
    else let entry = bit_or (bit_or (bit_and pa addr_mask) pte_present) pte_write in
      let words = put_word slot entry (clear_page pa s.words) in
      (some (bit_and (words slot) addr_mask), record s { words = words; pmm = pmm })

-- One level of `vm_walk`: the table that an entry leads to.
unfoldable pub descend : ℕ → ℕ → Bool → Vm → Option ℕ × Vm
descend table index create s =
    let slot = table + 8 * index in
    let entry = s.words slot in
    if bit_and entry pte_present == 0
    then (if create then add_table slot s else (none, s))
    else if not (bit_and entry pte_huge == 0)
    then (none, s)
    else (some (bit_and entry addr_mask), s)

abbrev pub and_then : {A B : Type 0} → Option A × Vm → (A → Vm → Option B × Vm) → Option B × Vm
and_then (none, s) f = (none, s)
and_then (some a, s) f = f a s

-- `(va >> shift) & 0x1FF`
abbrev pub index_at : ℕ → ℕ → ℕ
index_at va shift = bit_and (va / 2 ^ shift) 0x1FF

-- The levels of the walk from below: the last entry in its table, then from a PD and from a PDPT.
unfoldable pub last_entry : ℕ → ℕ → Vm → Option ℕ × Vm
last_entry va pt s = (some (pt + 8 * index_at va 12), s)

unfoldable pub walk_pd : ℕ → Bool → ℕ → Vm → Option ℕ × Vm
walk_pd va create pd s = and_then (descend pd (index_at va 21) create s) (last_entry va)

unfoldable pub walk_pdpt : ℕ → Bool → ℕ → Vm → Option ℕ × Vm
walk_pdpt va create pdpt s = and_then (descend pdpt (index_at va 30) create s) (walk_pd va create)

-- The address of the last entry; a null pointer is none.
unfoldable pub vm_walk : ℕ → ℕ → Bool → Vm → Option ℕ × Vm
vm_walk space va create s =
    if space == 0
    then (none, s)
    else and_then (descend space (index_at va 39) create s) (walk_pdpt va create)

-- The tests before the walk of `vm_map`.
unfoldable pub map_rejects : ℕ → ℕ → ℕ → Bool
map_rejects space va pa =
    space == 0
    || (not (bit_and va (page_size - 1) == 0) || not (bit_and pa (page_size - 1) == 0))
    || leb max_phys pa
    || ltb va max_phys

unfoldable pub map_at : ℕ → ℕ → ℕ → Option ℕ × Vm → Bool × Vm
map_at va pa flags (none, s) = (false, s)
map_at va pa flags (some pte, s) =
    if not (bit_and (s.words pte) pte_present == 0) then (false, s) else (
      true,
      record s {
        words = put_word pte (bit_or (bit_and pa addr_mask) flags) s.words;
        flushed = va ∷ s.flushed;
      },
    )

-- True for the result 0, false for -1.
unfoldable pub vm_map : ℕ → ℕ → ℕ → ℕ → Vm → Bool × Vm
vm_map space va pa flags s =
    if map_rejects space va pa then (false, s) else map_at va pa flags (vm_walk space va true s)

unfoldable pub unmap_at : ℕ → Option ℕ × Vm → ℕ × Vm
unmap_at va (none, s) = (0, s)
unmap_at va (some pte, s) = if bit_and (s.words pte) pte_present == 0 then (0, s) else (
  bit_and (s.words pte) addr_mask,
  record s { words = put_word pte 0 s.words; flushed = va ∷ s.flushed },
)

unfoldable pub vm_unmap : ℕ → ℕ → Vm → ℕ × Vm
vm_unmap space va s = if space == 0 then (0, s) else unmap_at va (vm_walk space va false s)

-- The copies of `vm_create_space`: entry 0, and the entries 256 to 511.
unfoldable pub share_kernel : ℕ → ℕ → (ℕ → ℕ) → ℕ → ℕ
share_kernel kernel space words =
    count_to 256 (λ k w. put_word (space + 8 * (256 + k)) (w (kernel + 8 * (256 + k))) w)
      (put_word space (words kernel) words)

unfoldable pub vm_create_space : Vm → ℕ × Vm
vm_create_space s =
    let (pa, pmm) = alloc_frame s.pmm in
    if s.kernel_space == 0 then (0, s) else if pa == 0 then (0, record s { pmm = pmm }) else (
      pa,
      record s { words = share_kernel s.kernel_space pa (clear_page pa s.words); pmm = pmm },
    )

unfoldable pub vm_switch : ℕ → Vm → Vm
vm_switch space s = if space == 0 then s else record s { cr3 = space }

unfoldable pub vm_switch_kernel : Vm → Vm
vm_switch_kernel s = vm_switch s.kernel_space s

-- The tests of `vm_handle_page_fault` that leave the fault to the panic.
unfoldable pub not_ours : ℕ → Vm → Bool
not_ours err s =
    s.in_fault
    || not (bit_and err 1 == 0)
    || not (bit_and err 8 == 0)
    || not (bit_and err 16 == 0)
    || (ltb s.cr2 heap_base || leb (heap_base + heap_size) s.cr2)

unfoldable pub finish_fault : ℕ → Bool × Vm → Bool × Vm
finish_fault frame (false, s) = (false, record s { pmm = free_frame frame s.pmm; in_fault = false })
finish_fault frame (true, s) =
    (true, record s { faults = (s.faults + 1) % 2 ^ 64; in_fault = false })

unfoldable pub vm_handle_page_fault : Regs → Vm → Bool × Vm
vm_handle_page_fault r s =
    let (frame, pmm) = alloc_frame s.pmm in
    let page = bit_and s.cr2 (2 ^ 64 - page_size) in
    let started = record s { pmm = pmm; in_fault = true } in
    if not_ours r.error_code s
    then (false, s)
    else if frame == 0
    then (false, record started { in_fault = false })
    else let cleared = record started { words = clear_page frame s.words } in
      finish_fault frame
        (vm_map (vm_current_space cleared) page frame (bit_or pte_present pte_write) cleared)
