-- ===== src/Irq.antt =====
-- src/irq.c: the table of interrupt handlers and the dispatch to them.
pub mod Dispatch
mod Tests
use god_os.Base.{
  ℕ, ◌+◌, ◌-◌, ◌*◌, ◌/◌, ◌%◌, ◌^◌, ◌==◌, ltb, leb, if◌then◌else◌, Bool, true, false, Option, none,
  some, List, [], ◌∷◌,
}
use god_os.Base.Text.{codes}
use god_os.Io.{Bus}
use god_os.Regs.{Regs}
use god_os.Pic.{pic_send_eoi}
use god_os.Vga.{Screen}
use god_os.Vga.Format.{word, Printed, done, bad_argument, out_of_fuel, vga_printf}

abbrev pub irq_base : ℕ
irq_base = 32

abbrev pub irq_last : ℕ
irq_last = 47

abbrev irq_count : ℕ
irq_count = irq_last - irq_base + 1

-- The 64 bits of `vector - IDT_IRQ_BASE`.
unfoldable pub irq_of_vector : ℕ → ℕ
irq_of_vector vector = (vector + (2 ^ 64 - irq_base)) % 2 ^ 64

-- `irq_handlers`; a null entry is `none`. `H` are the handlers.
abbrev pub Handlers : Type 0 → Type 0
Handlers H = ℕ → Option H

unfoldable pub irq_register : {H : Type 0} → ℕ → Option H → Handlers H → Handlers H
irq_register irq fn handlers =
    λ j. if leb irq_count irq then handlers j else if j == irq then fn else handlers j

-- What the handlers act on: the screen with the devices, and the rest of the kernel's state.
pub record System (D K : Type 0) : Type 0 where
  pub screen : Screen D
  pub kernel : K

-- "unhandled IRQ %lu\n"
abbrev pub unhandled_format : List ℕ
unhandled_format = codes "unhandled IRQ %lu\n"

module _ {D K : Type 0} (bus : Bus D) where
  -- What follows a print: an end of the interrupt to the controllers.
  unfoldable pub acknowledge : ℕ → System D K → System D K
  acknowledge irq s = record s {
    screen = record (s.screen) { devices = pic_send_eoi bus irq s.screen.devices };
  }

  unfoldable pub then_acknowledge : ℕ → System D K → Printed (Screen D) → Printed (System D K)
  then_acknowledge irq s (done screen) = done (acknowledge irq (record s { screen = screen }))
  then_acknowledge irq s bad_argument = bad_argument
  then_acknowledge irq s out_of_fuel = out_of_fuel

module _ {D K H : Type 0} (bus : Bus D) (call : H → Regs → System D K → System D K) where
  unfoldable pub run_handler : Option H → ℕ → Regs → System D K → Printed (System D K)
  run_handler (some fn) irq r s = done (acknowledge bus (irq % 256) (call fn r s))
  run_handler none irq r s =
      then_acknowledge bus (irq % 256) s (vga_printf bus unhandled_format (word irq ∷ []) s.screen)

  unfoldable pub irq_dispatch : Handlers H → Regs → System D K → Printed (System D K)
  irq_dispatch handlers r s =
      let irq = irq_of_vector r.vector in
      if leb irq_count irq then done s else run_handler (handlers irq) irq r s
