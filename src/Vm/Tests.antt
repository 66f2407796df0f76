-- ===== src/Vm/Tests.antt =====
-- Runs of src/vm.c on empty tables and a frame allocator with one free frame, and its theorems there.
use god_os.Base.{
  ◌+◌, ◌%◌, ◌/◌, ◌*◌, ◌≡◌, refl, sym, Bool, true, false, not, ◌||◌, ◌&&◌, arith, ◌==◌, leb, ltb,
  if◌then◌else◌, [],
}
use god_os.Base.Loop.{count_to}
use god_os.Regs.{Regs}
use god_os.Pmm.{
  Pmm, frame_count, bit_test, bit_set, bit_clear, first_free, find_free, take_frame, hand_out,
  alloc_frame, free_frame,
}
use god_os.Pmm.Bitmap.{is_used}
use god_os.Pmm.Count.{frees_all}
use god_os.Pmm.Init.{is_used-full}
use god_os.Pmm.Invariant.{IsValid, free_frame-IsValid}
use god_os.Vm.{
  Vm, vm_map, vm_unmap, vm_walk, walk_pd, walk_pdpt, last_entry, descend, add_table, clear_page,
  map_rejects, map_at, unmap_at, vm_create_space, vm_handle_page_fault,
}
use god_os.Vm.Fault.{Restores, ours, vm_handle_page_fault-Restores}
use god_os.Vm.Spaces.{vm_create_space_lem}

abbrev pub full : Pmm
full = record {
  bitmap = λ i. 255;
  free_frames = 0;
  hint = 0;
  mb_info = 0x10000;
  info_end = 0x11000;
  max_end = 0;
}

pub full-IsValid : IsValid full
full-IsValid = record {
  bytes = λ i. omega arith;
  counted = sym (frees_all frame_count full.bitmap (λ g h. is_used-full full.bitmap g refl));
  hint_in = omega arith;
  below_hint = λ g h. is_used-full full.bitmap g refl;
  first_used = is_used-full full.bitmap 0 refl;
}

-- The kernel's table is at 0x1000, and the frame at 2 MB was given back.
abbrev pub machine : Vm
machine = record {
  words = λ a. a;
  pmm = free_frame 0x200000 full;
  cr3 = 0x1000;
  cr2 = 0xFFFF800000001234;
  kernel_space = 0x1000;
  faults = 0;
  in_fault = false;
  flushed = [];
}

kernel_used : is_used machine.pmm.bitmap 1 ≡ true
unfolding is_used bit_test free_frame bit_clear
kernel_used = refl

vm_create_space_lem_example :
    let (space, s') = vm_create_space machine in
    (s'.words (space + 8 * 256) ≡ (if space == 0 then space + 8 * 256 else 0x1000 + 8 * 256))
    × (s'.words 0x1000 ≡ (
        if (space == 0) || not (leb space 0x1000 && ltb 0x1000 (space + 4096))
        then 0x1000
        else s'.words 0x1000))
    × ((space == 0) ≡ (machine.pmm.free_frames == 0))
    × (space % 4096 ≡ 0)
    × (is_used machine.pmm.bitmap (space / 4096) ≡ (space == 0))
    × (is_used s'.pmm.bitmap 512 ≡ ((512 == space / 4096) || is_used machine.pmm.bitmap 512))
vm_create_space_lem_example =
    vm_create_space_lem machine 256 0x1000 512 (free_frame-IsValid 0x200000 full-IsValid)
      (omega arith) refl kernel_used (omega arith)

abbrev pub fault : Regs
fault = record {
  r15 = 0;
  r14 = 0;
  r13 = 0;
  r12 = 0;
  r11 = 0;
  r10 = 0;
  r9 = 0;
  r8 = 0;
  rbp = 0;
  rdi = 0;
  rsi = 0;
  rdx = 0;
  rcx = 0;
  rbx = 0;
  rax = 0;
  vector = 14;
  error_code = 2;
  rip = 0;
  cs = 8;
  rflags = 0;
}

vm_handle_page_fault-Restores_example :
    let (answer, s') = vm_handle_page_fault fault machine in
    Restores machine answer s'
    × (vm_handle_page_fault fault machine
        ≡ (if ours 2 machine then vm_handle_page_fault fault machine else (false, machine)))
vm_handle_page_fault-Restores_example = vm_handle_page_fault-Restores fault machine

-- Eight free frames, and tables that are empty.
abbrev fresh : Vm
fresh = record machine {
  words = λ a. 0;
  pmm = record full { bitmap = λ i. if i == 64 then 0 else 255; free_frames = 8; hint = 512 };
}

abbrev mapped : Bool × Vm
mapped = vm_map 0x1000 0xFFFF800001000000 0x300000 3 fresh

map-unmap : (mapped.0 ≡ true) × ((vm_unmap 0x1000 0xFFFF800001000000 mapped.1).0 ≡ 0x300000)
unfolding vm_map map_rejects map_at vm_walk walk_pdpt walk_pd last_entry descend add_table
    clear_page vm_unmap unmap_at alloc_frame hand_out find_free take_frame first_free bit_test
    bit_set count_to
map-unmap = (refl, refl)
