-- ===== src/Irq/Tests.antt =====
-- The dispatch of src/irq.c at concrete vectors.
use god_os.Base.{ℕ, ◌≡◌, ◌+◌, arith, none, List, [], ◌∷◌}
use god_os.Io.{Bus}
use god_os.Regs.{Regs}
use god_os.Vga.Format.{done}
use god_os.Irq.{System, Handlers, irq_dispatch, acknowledge}
use god_os.Irq.Dispatch.{handled, irq_dispatch_lem}

-- The bytes written, the last one first.
abbrev log : Bus (List (ℕ × ℕ))
log = record { outb = λ port v d. (port, v) ∷ d; inb = λ port d. (0, d) }

abbrev frame : ℕ → Regs
frame vector = record {
  r15 = 0;
  r14 = 0;
  r13 = 0;
  r12 = 0;
  r11 = 0;
  r10 = 0;
  r9 = 0;
  r8 = 0;
  rbp = 0;
  rdi = 0;
  rsi = 0;
  rdx = 0;
  rcx = 0;
  rbx = 0;
  rax = 0;
  vector = vector;
  error_code = 0;
  rip = 0;
  cs = 8;
  rflags = 0;
}

abbrev start : System (List (ℕ × ℕ)) ℕ
start = record {
  screen = record { cells = λ i. 0; row = 0; col = 0; color = 7; devices = [] };
  kernel = 0;
}

-- A handler adds its number to the state.
abbrev add_number : ℕ → Regs → System (List (ℕ × ℕ)) ℕ → System (List (ℕ × ℕ)) ℕ
add_number n r s = record s { kernel = s.kernel + n }

abbrev no_handlers : Handlers ℕ
no_handlers = λ j. none

irq_dispatch_lem_example :
    irq_dispatch log add_number no_handlers (frame 34) start
    ≡ done (acknowledge log 2 (handled log add_number none 2 (frame 34) start))
irq_dispatch_lem_example =
    irq_dispatch_lem log add_number no_handlers (frame 34) start (omega arith)
