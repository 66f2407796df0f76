-- ===== src/Kernel/Tests.antt =====
-- The theorems on src/kernel.c at a key that is pressed and two rounds of the main loop.
use god_os.Base.{ℕ, ◌≡◌, ◌<◌, ◌==◌, if◌then◌else◌, refl, none, arith, true, false, [], ◌∷◌}
use god_os.Regs.{Regs}
use god_os.Heap.{Header, heap_init}
use god_os.Idt.{no_gate}
use god_os.Irq.{System, irq_register, acknowledge}
use god_os.Keyboard.{initial}
use god_os.Keyboard.Ring.{initial-IsValid}
use god_os.Keyboard.Refine.{session, irq, poll as polled, run_session}
use god_os.Vga.{
  vga_puts, vga_putchar, vga_update_cursor, put_switch, put_visible, vga_newline, vga_entry,
}
use god_os.Boot.Tests.{ports, info_bytes, boot_vm}
use god_os.Kernel.{Kernel, keyboard_driver, keyboard_init, call, poll, drain, greet}
use god_os.Kernel.Loop.{Drained, drain_lem}
use god_os.Vm.Forest.{Roles}
use god_os.Kernel.Typing.{
  Cpu, after_poll, Runs, key, round, end, step, IsListening, Shows, somes, interrupt-key,
  Runs-Shows,
}

abbrev blank : Header
blank = record { magic = 0; free = 0; size = 0 }

abbrev kernel : System ℕ Kernel
kernel = record {
  screen = record { cells = λ j. 0; row = 0; col = 0; color = 7; devices = 0 };
  kernel = record {
    idt = λ j. no_gate;
    handlers = keyboard_init (λ j. none);
    vm = boot_vm;
    heap = heap_init (λ a. blank);
    keyboard = initial;
    bytes = info_bytes;
  };
}

abbrev regs : Regs
regs = record {
  r15 = 0;
  r14 = 0;
  r13 = 0;
  r12 = 0;
  r11 = 0;
  r10 = 0;
  r9 = 0;
  r8 = 0;
  rbp = 0;
  rdi = 0;
  rsi = 0;
  rdx = 0;
  rcx = 0;
  rbx = 0;
  rax = 0;
  vector = 33;
  error_code = 0;
  rip = 0;
  cs = 8;
  rflags = 0;
}

-- The same kernel before two mask registers.
abbrev cold : System (ℕ → ℕ) Kernel
cold = record {
  screen = record { cells = λ j. 0; row = 0; col = 0; color = 7; devices = λ q. 0 };
  kernel = kernel.kernel;
}

abbrev boot_roles : Roles
boot_roles = record {
  level = λ p. if p == 0x1000 then 4 else if p == 0x2000 then 3 else if p == 0x3000 then 2 else 0;
  key = λ p. 0;
}

drain_lem_example : Drained ports [] kernel (drain ports 64 kernel)
drain_lem_example = drain_lem ports kernel initial-IsValid

-- The two lines end at the start of row 2.
greeted : ((greet ports kernel).screen.row ≡ 2) × ((greet ports kernel).screen.cells 80 ≡ 0x754)
unfolding greet vga_puts vga_putchar vga_update_cursor put_switch put_visible vga_newline vga_entry
greeted = (refl, refl)

listening : IsListening kernel
unfolding keyboard_init irq_register
listening = record { keyboard = initial-IsValid; registered = refl }

bytes : (p d : ℕ) → (ports.inb p d).0 < 256
bytes p d = omega arith

abbrev asleep : Cpu ℕ
asleep = record { enabled = true; asleep = true; system = kernel }

abbrev woken : Cpu ℕ
woken = record {
  enabled = true;
  asleep = false;
  system = acknowledge ports 1 (call ports keyboard_driver regs kernel);
}

abbrev shown : Cpu ℕ
shown = after_poll (poll ports woken.system) woken

-- The key A, and a round of the loop.
typed : Runs ports (irq 30 ∷ polled ∷ []) asleep shown
typed =
    step (key regs refl refl (interrupt-key ports bytes regs kernel refl listening.registered))
      (step (round refl) end)

Runs-Shows_example :
    Shows (somes (run_session (session initial) (irq 30 ∷ polled ∷ []))) kernel shown.system
Runs-Shows_example = Runs-Shows ports bytes typed listening
