-- ===== src/Kernel.antt =====
-- src/kernel.c: the order in which `kmain` brings the kernel up, and its main loop; with `keyboard_init` of
-- src/keyboard.c, and the entry of src/idt.c with its two callees, the handlers and the page-fault handler.
mod Touch
pub mod Start
pub mod Loop
pub mod View
pub mod Typing
mod Tests
use god_os.Base.{
  ℕ, zero, suc, ◌+◌, ◌*◌, ◌%◌, ◌^◌, if◌then◌else◌, Bool, true, false, Option, none, some, List, [],
  ◌∷◌, ◌==◌, ◌/◌, ◌&&◌, ◌||◌,
}
use god_os.Base.Text.{codes}
use god_os.Io.{Bus}
use god_os.Regs.{Regs}
use god_os.Pic.{pic_init, pic_unmask}
use god_os.Keyboard.{Keyboard, keyboard_handler, kb_get}
use god_os.Heap.{Heap, Header, heap_base, heap_init}
use god_os.Vga.{Screen, vga_clear, vga_putchar, vga_puts}
use god_os.Vga.Format.{Arg, Printed, done, bad_argument, out_of_fuel, vga_printf}
use god_os.Vm.{Vm, index_at, vm_init, vm_current_space, vm_handle_page_fault}
use god_os.Vm.Entries.{child_of}
use god_os.Irq.{Handlers, System, irq_register}
use god_os.Idt.{Gate, idt_init, Exit, resumed, halted as stopped, print_failed, isr_handler}
use god_os.Boot.{Machine, ready, failed, faulted, stuck, pmm_init}

-- The one handler that is registered.
pub data Driver : Type 0 where
  keyboard_driver : Driver

-- The static variables of the kernel's parts, and the bytes of physical memory.
pub record Kernel : Type 0 where
  pub idt : ℕ → Gate
  pub handlers : Handlers Driver
  pub vm : Vm
  pub heap : Heap
  pub keyboard : Keyboard
  pub bytes : ℕ → ℕ

unfoldable pub keyboard_init : Handlers Driver → Handlers Driver
keyboard_init handlers = irq_register 1 (some keyboard_driver) handlers

-- `vm_handle_page_fault` on the kernel's tables.
unfoldable pub page_fault : {D : Type 0} → Regs → System D Kernel → Bool × System D Kernel
page_fault r s =
    let (fixed, vm) = vm_handle_page_fault r s.kernel.vm in
    (fixed, record s { kernel = record (s.kernel) { vm = vm } })

-- A page above the last level, or a page, that the processor finds itself.
abbrev pub large : ℕ → Bool
large e = (e % 2 == 1) && (e / 128 % 2 == 1)

-- The processor finds the address in the tables, in a page of 1 GB, 2 MB or 4 KB. CR0.WP is clear, so
-- that for a write of the kernel the present bits alone count.
unfoldable pub reaches : (ℕ → ℕ) → ℕ → ℕ → Bool
reaches words space va = elim (child_of (words (space + 8 * index_at va 39))) [
  | none ↦ false
  | some pdpt ↦
      let e3 = words (pdpt + 8 * index_at va 30) in
      large e3 || elim (child_of e3) [
        | none ↦ false
        | some pd ↦
            let e2 = words (pd + 8 * index_at va 21) in
            large e2 || elim (child_of e2) [
              | none ↦ false
              | some pt ↦ words (pt + 8 * index_at va 12) % 2 == 1
            ]
      ]
]

-- The frame of a page fault on a write of the kernel to a page that is not present.
abbrev pub write_fault : Regs → Regs
write_fault place = record place { vector = 14; error_code = 2 }

abbrev pub with_vm : {D : Type 0} → Vm → System D Kernel → System D Kernel
with_vm vm s = record s { kernel = record (s.kernel) { vm = vm } }

-- How the bring-up ends: before the self tests, in a halting loop, or where C says nothing.
pub data Started (A : Type 0) : Type 0 where
  up halted : A → Started A
  lost : Started A

module _ {D : Type 0} (bus : Bus D) where
  -- `keyboard_handler` reads its byte from the controller.
  unfoldable pub call : Driver → Regs → System D Kernel → System D Kernel
  call keyboard_driver r s =
      let (sc, devices) = bus.inb 0x60 s.screen.devices in
      record s {
        screen = record (s.screen) { devices = devices };
        kernel = record (s.kernel) { keyboard = keyboard_handler sc s.kernel.keyboard };
      }

  -- The entry of an interrupt, with CR2 and the table of handlers as they are.
  unfoldable pub interrupt : Regs → System D Kernel → Exit (System D Kernel)
  interrupt r s = isr_handler bus call page_fault s.kernel.vm.cr2 s.kernel.handlers r s

  -- The message before a halting loop.
  unfoldable pub halt : List ℕ → System D Kernel → Started (System D Kernel)
  halt message s = elim (vga_printf bus message [] s.screen) [
    | done screen ↦ halted (record s { screen = screen })
    | bad_argument ↦ lost
    | out_of_fuel ↦ lost
  ]

  -- The first write of `heap_init`, with the registers of `place`: while its page is not there, a page
  -- fault, which halts or after which the write is tried again. The fuel counts the tries.
  unfoldable pub touch : ℕ → Regs → System D Kernel → Started (System D Kernel)
  touch zero place s = lost
  touch (suc fuel) place s =
      elim (reaches s.kernel.vm.words (vm_current_space s.kernel.vm) heap_base) [
        | true ↦ up s
        | false ↦
            elim (interrupt (write_fault place)
              (with_vm (record (s.kernel.vm) { cr2 = heap_base }) s)) [
                | resumed s' ↦ touch fuel place s'
                | stopped s' ↦ halted s'
                | print_failed ↦ lost
              ]
      ]

  -- From `heap_init` to `keyboard_init`; `mem` is what the heap's memory held. `heap_init` returns 0 once
  -- its first write was done; the two writes after it are to the same page.
  unfoldable pub with_memory : (ℕ → Header) → Regs → System D Kernel → Started (System D Kernel)
  with_memory mem place s = elim (touch 2 place s) [
    | up s ↦ up (record s {
      screen = record (s.screen) { devices = pic_unmask bus 1 (pic_init bus s.screen.devices) };
      kernel = record (s.kernel) {
        heap = heap_init mem;
        handlers = keyboard_init s.kernel.handlers;
      };
    })
    | halted s ↦ halted s
    | lost ↦ lost
  ]

  -- `kmain` up to the self tests. `vm_init` returns 0; `stubs` is `isr_stub_table`, `bss_end` is the
  -- linker's `__bss_end`, and `place` holds the registers at the first write of `heap_init`.
  unfoldable pub start :
      (ℕ → ℕ) → ℕ → (ℕ → Header) → Regs → ℕ → System D Kernel → Started (System D Kernel)
  start stubs bss_end mem place mb_info s =
      let machine : Machine D = record {
        vm = vm_init s.kernel.vm;
        bytes = s.kernel.bytes;
        screen = vga_clear bus s.screen;
      } in
      let after = λ (m : Machine D). record s {
        screen = m.screen;
        kernel = record (s.kernel) {
          idt = idt_init stubs s.kernel.idt;
          vm = m.vm;
          bytes = m.bytes;
        };
      } in
      elim (pmm_init bus bss_end mb_info machine) [
        | ready m ↦ with_memory mem place (after m)
        | failed m ↦ halt (codes "M8: pmm_init failed, halt\n") (after m)
        | faulted ↦ lost
        | stuck ↦ lost
      ]

  -- The two lines after the self tests.
  unfoldable pub greet : System D Kernel → System D Kernel
  greet s = record s {
    screen =
        vga_puts bus (codes "This is 8GodOS\n") (vga_puts bus (codes "Hello, kernel!\n") s.screen);
  }

  -- What the main loop does with an answer of `kb_get`: it prints a character, as a `char`.
  unfoldable pub show : Option ℕ → System D Kernel → System D Kernel
  show none s = s
  show (some c) s = record s { screen = vga_putchar bus (c % 256) s.screen }

  -- A round of `while ((c = kb_get()) >= 0)`: the answer, and the state after it.
  unfoldable pub poll : System D Kernel → Option ℕ × System D Kernel
  poll s =
      let (c, keyboard) = kb_get s.kernel.keyboard in
      (c, show c (record s { kernel = record (s.kernel) { keyboard = keyboard } }))

  -- The rounds up to the first empty answer, where no interrupt comes; `none` if the fuel runs out.
  unfoldable pub drain : ℕ → System D Kernel → Option (System D Kernel)
  drain zero s = none
  drain (suc fuel) s = let (c, s') = poll s in elim c [ none ↦ some s' | some char ↦ drain fuel s' ]
