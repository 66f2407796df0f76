-- ===== src/Idt/Tests.antt =====
-- The table and the entry of src/idt.c at concrete vectors.
use god_os.Base.{ℕ, ◌≡◌, ◌+◌, ◌*◌, arith, refl, none, true, false}
use god_os.Base.Text.{codes}
use god_os.Io.{Bus}
use god_os.Vga.Format.{digits_of, collect, digit_char}
use god_os.Regs.{Regs}
use god_os.Irq.{System, Handlers}
use god_os.Idt.{no_gate, halted, isr_handler, idt_init}
use god_os.Idt.Gates.{target, present, idt_init_lem}
use god_os.Idt.Handler.{printed, report_text, isr_handler_lem}

-- Stubs 16 bytes apart in the upper half.
abbrev stub : ℕ → ℕ
stub i = 0xFFFF800000100000 + 16 * i

idt_init_lem_example :
    let g = idt_init stub (λ i. no_gate) 33 in
    (target g ≡ 0xFFFF800000100210)
    × (present g ≡ true)
    × (g.selector ≡ 8)
    × (g.ist ≡ 0)
    × (g.type_attr ≡ 0x8E)
    × (g.zero_word ≡ 0)
idt_init_lem_example = idt_init_lem stub (λ i. no_gate) 33 (omega arith) (omega arith)

abbrev silent : Bus ℕ
silent = record { outb = λ port v d. d + v; inb = λ port d. (0, d) }

abbrev frame : ℕ → Regs
frame vector = record {
  r15 = 0;
  r14 = 0;
  r13 = 0;
  r12 = 0;
  r11 = 0;
  r10 = 0;
  r9 = 0;
  r8 = 0;
  rbp = 0;
  rdi = 0;
  rsi = 0;
  rdx = 0;
  rcx = 0;
  rbx = 0;
  rax = 0;
  vector = vector;
  error_code = 2;
  rip = 0;
  cs = 8;
  rflags = 0;
}

abbrev start : System ℕ ℕ
start = record {
  screen = record { cells = λ i. 0; row = 0; col = 0; color = 7; devices = 0 };
  kernel = 0;
}

abbrev keep : ℕ → Regs → System ℕ ℕ → System ℕ ℕ
keep n r s = s

abbrev no_handlers : Handlers ℕ
no_handlers = λ j. none

isr_handler_lem_example :
    isr_handler silent keep (λ r s. (false, s)) 0x1000 no_handlers (frame 14) start
    ≡ halted (printed silent (report_text 0x1000 (frame 14)) start)
isr_handler_lem_example =
    isr_handler_lem silent keep (λ r s. (false, s)) 0x1000 no_handlers (frame 14) start
      (omega arith)

-- The report of a page fault at address 0x1000, from its first to its last line.
report_text-lines :
    report_text 0x1000 (frame 14)
    ≡ codes
        "EXCEPTION 0x0E #PF Page Fault\nerror=0x0000000000000002\ncr2=0x0000000000001000\nrip=0x0000000000000000 cs=0x0008 rflags=0x0000000000000000\n"
unfolding report_text digits_of collect digit_char
report_text-lines = refl
