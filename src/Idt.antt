-- ===== src/Idt.antt =====
-- src/idt.c and idt.h: the gates of the interrupt table, and the C entry of all interrupts. The
-- addresses of the stubs come from the assembler, and the table register is not read back.
pub mod Gates
pub mod Handler
mod Tests
use god_os.Base.{
  ℕ, ◌+◌, ◌-◌, ◌*◌, ◌/◌, ◌%◌, ◌^◌, ◌==◌, ltb, leb, if◌then◌else◌, Bool, true, false, Option, none,
  some, List, [], ◌∷◌, bit_and, get_or,
}
use god_os.Base.Loop.{count_to}
use god_os.Base.Text.{codes}
use god_os.Io.{Bus}
use god_os.Regs.{Regs}
use god_os.Irq.{irq_base, irq_last, Handlers, System, irq_dispatch}
use god_os.Vga.{Screen}
use god_os.Vga.Format.{Arg, word, text, Printed, done, bad_argument, out_of_fuel, vga_printf}

abbrev idt_selector : ℕ
idt_selector = 0x08

abbrev idt_type_attr : ℕ
idt_type_attr = 0x8E

abbrev idt_entries : ℕ
idt_entries = 256

abbrev idt_exceptions : ℕ
idt_exceptions = 32

-- `idt_entry_t`
pub record Gate : Type 0 where
  pub offset_low : ℕ
  pub selector : ℕ
  pub ist : ℕ
  pub type_attr : ℕ
  pub offset_mid : ℕ
  pub offset_high : ℕ
  pub zero_word : ℕ

abbrev pub no_gate : Gate
no_gate = record {
  offset_low = 0;
  selector = 0;
  ist = 0;
  type_attr = 0;
  offset_mid = 0;
  offset_high = 0;
  zero_word = 0;
}

unfoldable pub gate_to : ℕ → Gate
gate_to handler = record {
  offset_low = bit_and handler 0xFFFF % 2 ^ 16;
  selector = idt_selector;
  ist = 0;
  type_attr = idt_type_attr;
  offset_mid = bit_and (handler / 2 ^ 16) 0xFFFF % 2 ^ 16;
  offset_high = bit_and (handler / 2 ^ 32) 0xFFFFFFFF % 2 ^ 32;
  zero_word = 0;
}

unfoldable pub set_gate : ℕ → Gate → (ℕ → Gate) → ℕ → Gate
set_gate vec gate idt j = if j == vec then gate else idt j

-- The three loops; `stubs` is `isr_stub_table`.
unfoldable pub idt_init : (ℕ → ℕ) → (ℕ → Gate) → ℕ → Gate
idt_init stubs idt =
    let cleared = count_to idt_entries (λ i t. set_gate i no_gate t) idt in
    let exceptions = count_to idt_exceptions (λ i t. set_gate i (gate_to (stubs i)) t) cleared in
    count_to (irq_last - irq_base + 1)
      (λ k t. set_gate (irq_base + k) (gate_to (stubs (irq_base + k))) t) exceptions

abbrev pub exception_names : List (List ℕ)
exception_names =
    codes "#DE Divide Error"
    ∷ codes "#DB Debug"
    ∷ codes "NMI Interrupt"
    ∷ codes "#BP Breakpoint"
    ∷ codes "#OF Overflow"
    ∷ codes "#BR BOUND Range Exceeded"
    ∷ codes "#UD Invalid Opcode"
    ∷ codes "#NM Device Not Available"
    ∷ codes "#DF Double Fault"
    ∷ codes "Coprocessor Segment Overrun"
    ∷ codes "#TS Invalid TSS"
    ∷ codes "#NP Segment Not Present"
    ∷ codes "#SS Stack-Segment Fault"
    ∷ codes "#GP General Protection"
    ∷ codes "#PF Page Fault"
    ∷ codes "Reserved"
    ∷ codes "#MF x87 FPU Error"
    ∷ codes "#AC Alignment Check"
    ∷ codes "#MC Machine Check"
    ∷ codes "#XM SIMD FP Exception"
    ∷ codes "#VE Virtualization Exception"
    ∷ codes "#CP Control Protection Exception"
    ∷ codes "Reserved"
    ∷ codes "Reserved"
    ∷ codes "Reserved"
    ∷ codes "Reserved"
    ∷ codes "Reserved"
    ∷ codes "Reserved"
    ∷ codes "#HV Hypervisor Injection"
    ∷ codes "#VC VMM Communication"
    ∷ codes "#SX Security Exception"
    ∷ codes "Reserved"
    ∷ []

-- How the entry ends: back to what was interrupted, or in the halting loop.
pub data Exit (A : Type 0) : Type 0 where
  resumed : A → Exit A
  halted : A → Exit A
  print_failed : Exit A

module _ {D K : Type 0} (bus : Bus D) where
  -- One `vga_printf` before the rest of the report.
  unfoldable pub report :
      List ℕ → List Arg → (System D K → Exit (System D K)) → System D K → Exit (System D K)
  report fmt args rest s = elim (vga_printf bus fmt args s.screen) [
    | done screen ↦ rest (record s { screen = screen })
    | bad_argument ↦ print_failed
    | out_of_fuel ↦ print_failed
  ]

  -- The report of an exception, with `cr2` for a page fault.
  unfoldable pub panic_report : ℕ → Regs → System D K → Exit (System D K)
  panic_report cr2 r s =
      let place =
        report (codes "rip=0x%016lx cs=0x%04lx rflags=0x%016lx\n")
          (word r.rip ∷ word r.cs ∷ word r.rflags ∷ []) (λ s. halted s) in
      let name = get_or exception_names (bit_and r.vector 31) [] in
      report (codes "EXCEPTION 0x%02lX %s\n") (word r.vector ∷ text name ∷ [])
        (report (codes "error=0x%016lx\n") (word r.error_code ∷ [])
          (if r.vector == 14 then report (codes "cr2=0x%016lx\n") (word cr2 ∷ []) place else place))
        s

unfoldable pub after_dispatch : {D K : Type 0} → Printed (System D K) → Exit (System D K)
after_dispatch (done s) = resumed s
after_dispatch bad_argument = print_failed
after_dispatch out_of_fuel = print_failed

module _ {D K H : Type 0} (bus : Bus D) (call : H → Regs → System D K → System D K)
    (page_fault : Regs → System D K → Bool × System D K) where
  -- `page_fault` is `vm_handle_page_fault`, which is asked for vector 14 alone.
  unfoldable pub isr_handler : ℕ → Handlers H → Regs → System D K → Exit (System D K)
  isr_handler cr2 handlers r s =
      let (fixed, after) = page_fault r s in
      if leb irq_base r.vector
      then after_dispatch (irq_dispatch bus call handlers r s)
      else if r.vector == 14
      then (if fixed then resumed after else panic_report bus cr2 r after)
      else panic_report bus cr2 r s
