-- ===== src/Kernel/Start.antt =====
-- The order of `kmain` in src/kernel.c: what it has set up when the self tests begin.
use god_os.Base.{ℕ, ◌-◌, ◌^◌, ◌≡◌, ◌<◌, [], ◌∷◌, ltb, if◌then◌else◌, ◌⊎◌, not, ◌==◌, false, true}
use god_os.Io.{Bus}
use god_os.Heap.{heap_base, heap_size}
use god_os.Regs.{Regs}
use god_os.Pic.Masks.{IsPic, is_masked}
use god_os.Vm.Entries.{entry_address}
use god_os.Kernel.Touch.{Paged}
use god_os.Kernel.{reaches}
use god_os.Heap.Blocks.{hole}
use god_os.Heap.Malloc.{Holds}
use god_os.Keyboard.Ring.{IsValid}
use god_os.Irq.{System}
use god_os.Idt.Gates.{target, present}
use god_os.Idt.{idt_init}
use god_os.Boot.{Machine}
use god_os.Boot.Ready.{Ready}
use god_os.Kernel.{Kernel, Started, up, halted}
use god_os.Kernel.Typing.{IsListening}

-- The part of the state that `pmm_init` works on.
abbrev pub machine_of : {D : Type 0} → System D Kernel → Machine D
machine_of s = record { vm = s.kernel.vm; bytes = s.kernel.bytes; screen = s.screen }

-- The state that the heap is set up in.
abbrev after_pmm : {D : Type 0} → (ℕ → ℕ) → System D Kernel → Machine D → System D Kernel
after_pmm stubs s m = record s {
  screen = m.screen;
  kernel = record (s.kernel) { idt = idt_init stubs s.kernel.idt; vm = m.vm; bytes = m.bytes };
}

-- Every part is ready: a gate for each exception and line; the allocator of `pmm_init`, with the variables
-- of src/vm.c set up; the heap's first page there, after a served page fault or at once, and one free
-- block in the heap; every line of the controllers masked but line 1; and the keyboard's handler
-- registered before a valid buffer.
pub record Brought {D : Type 0} {bus : Bus D} (pic : IsPic bus) (stubs : ℕ → ℕ)
    (bss_end mb_info : ℕ) (place : Regs) (s s' : System D Kernel) : Type 0 where
  pub gates :
      (j : ℕ)
      → j < 256
      → stubs j < 2 ^ 64
      → (target (s'.kernel.idt j) ≡ (if ltb j 48 then stubs j else 0))
        × (present (s'.kernel.idt j) ≡ ltb j 48)
  pub booted : Machine D
  pub frames :
      Ready bss_end mb_info s.kernel.bytes
        (s.kernel.vm.cr3, entry_address s.kernel.vm.cr3, 0, false)
        s.kernel.vm.words
        booted
  pub paged : Paged place booted.vm s'.kernel.vm
  pub heap_page : reaches s'.kernel.vm.words (entry_address s'.kernel.vm.cr3) heap_base ≡ true
  pub heap : Holds (hole (heap_size - 16) ∷ []) s'.kernel.heap
  pub lines : (n : ℕ) → n < 16 → is_masked pic s'.screen.devices n ≡ not (n == 1)
  pub listening : IsValid s.kernel.keyboard → IsListening s'

-- The code halts, or is up with every part ready.
abbrev pub Starts :
    {D : Type 0} {bus : Bus D}
    → IsPic bus
    → (ℕ → ℕ)
    → ℕ
    → ℕ
    → Regs
    → System D Kernel
    → Started (System D Kernel)
    → Type 0
Starts {D} pic stubs bss_end mb_info place s r =
    (s' : System D Kernel) × ((r ≡ halted s')
      ⊎ ((r ≡ up s') × Brought pic stubs bss_end mb_info place s s'))
