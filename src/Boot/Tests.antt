-- ===== src/Boot/Tests.antt =====
-- The theorem on `pmm_init` of src/pmm.c for an empty memory map at 0x10000.
use god_os.Base.{ℕ, arith, ◌==◌, if◌then◌else◌, false, []}
use god_os.Io.{Bus}
use god_os.Vm.{Vm}
use god_os.Identity.Tests.{boot_words, boot-IsIdentity, boot-AllLarge, boot-first}
use god_os.Boot.{Machine, pmm_init}
use god_os.Pmm.{free_frame}
use god_os.Pmm.Invariant.{free_frame-IsValid}
use god_os.Vm.Tests.{full, full-IsValid}
use god_os.Boot.SelfTest.{pmm_self_test}
use god_os.Boot.Restores.{Restores, pmm_self_test-Restores}
use god_os.Boot.Ready.{Booted, Returns}
use god_os.Boot.Runs.{pmm_init-Returns}

abbrev pub ports : Bus ℕ
ports = record { outb = λ p v d. v; inb = λ p d. (30, d) }

-- The total size 16, and an end tag of 8 bytes.
abbrev pub info_bytes : ℕ → ℕ
info_bytes a = if a == 0x10000 then 16 else if a == 0x1000C then 8 else 0

abbrev pub boot_vm : Vm
boot_vm = record {
  words = boot_words;
  pmm = record {
    bitmap = λ i. 0;
    free_frames = 0;
    hint = 0;
    mb_info = 0;
    info_end = 0;
    max_end = 0;
  };
  cr3 = 0x1000;
  cr2 = 0;
  kernel_space = 0;
  faults = 0;
  in_fault = false;
  flushed = [];
}

abbrev machine : Machine ℕ
machine = record {
  vm = boot_vm;
  bytes = info_bytes;
  screen = record { cells = λ j. 0; row = 0; col = 0; color = 7; devices = 0 };
}

pub boot_vm-Booted : Booted 0x1000 boot_words info_bytes (λ i. 0)
boot_vm-Booted = record {
  identity = boot-IsIdentity;
  large = boot-AllLarge;
  first = boot-first;
  memory = λ a. ground arith;
  frames = λ i. omega arith;
}

pmm_init-Returns_example :
    Returns 0x109000 0x10000 machine (pmm_init ports 0x109000 0x10000 machine)
pmm_init-Returns_example =
    pmm_init-Returns ports 0x109000 (omega arith) 0x10000 machine boot_vm-Booted

-- One free frame: the self test runs out of frames, and gives that one back.
abbrev one_free : Machine ℕ
one_free = record machine { vm = record boot_vm { pmm = free_frame 0x200000 full } }

pmm_self_test-Restores_example :
    Restores (free_frame 0x200000 full) (pmm_self_test ports 0x109000 one_free)
pmm_self_test-Restores_example =
    pmm_self_test-Restores ports 0x109000 one_free (free_frame-IsValid 0x200000 full-IsValid)
