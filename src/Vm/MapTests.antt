-- ===== src/Vm/MapTests.antt =====
-- Runs of src/vm.c on tables that map a page of the heap, and its theorems on mappings there.
use god_os.Base.{ℕ, ◌*◌, ◌==◌, if◌then◌else◌}
use god_os.Pmm.{Pmm, free_frame}
use god_os.Vm.{Vm}
use god_os.Vm.Forest.{Roles}
use god_os.Vm.{put_word}
use god_os.Vm.Tests.{full, machine}

abbrev four_free : Pmm
four_free =
    free_frame 0x206000 (free_frame 0x203000 (free_frame 0x201000 (free_frame 0x200000 full)))

-- Tables at 0x1000 to 0x4000 that map the first page of the heap to 0x300000.
abbrev heap_mapped : Vm
heap_mapped = record machine {
  pmm = four_free;
  words = λ a.
      if a == 0x1800
      then 0x2003
      else if a == 0x2000
      then 0x3003
      else if a == 0x3000
      then 0x4003
      else if a == 0x4000
      then 0x300003
      else 0;
}

abbrev roles : Roles
roles = record {
  level = λ p.
      if p == 0x1000
      then 4
      else if p == 0x2000
      then 3
      else if p == 0x3000
      then 2
      else if p == 0x4000
      then 1
      else 0;
  key = λ p.
      if p == 0x2000
      then 256
      else if p == 0x3000
      then 256 * 512
      else if p == 0x4000
      then 256 * 512 * 512
      else 0;
}

abbrev first : ℕ
first = 0xFFFF800000000000

-- A page of the heap that needs no table, and one that needs a PD and a PT.
abbrev second : ℕ
second = 0xFFFF800000001000

abbrev far : ℕ
far = 0xFFFF800040000000

-- The two pages of the heap are mapped.
abbrev both : Vm
both = record heap_mapped { words = put_word 0x4008 0x301003 heap_mapped.words }
