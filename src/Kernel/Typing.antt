-- ===== src/Kernel/Typing.antt =====
-- The keyboard of src/keyboard.c and the main loop of src/kernel.c together: interrupts may come between
-- any two rounds of the loop once it has enabled them.
use god_os.Base.{
  ℕ, ◌-◌, ◌%◌, ◌≡◌, ◌<◌, refl, ap, sym, ◌∙◌, Option, none, some, List, [], ◌∷◌, Bool, true, false,
  arith, ltb, leb,
}
use mathlib.Core.Path.{subst}
use god_os.Io.{Bus}
use god_os.Regs.{Regs}
use god_os.Keyboard.{kb_get}
use god_os.Keyboard.Queue.{Session, get, scan}
use god_os.Keyboard.Ring.{IsValid, kb_get-IsValid}
use god_os.Keyboard.Refine.{
  session, Event, irq, poll as polled, run_session, kb_get_refines, handler_refines,
  handler-IsValid,
}
use god_os.Vga.{Screen, vga_puts}
use god_os.Irq.{System, acknowledge}
use god_os.Irq.Dispatch.{handled}
use god_os.Idt.{resumed}
use god_os.Idt.Handler.{isr_handler_lem}
use god_os.Kernel.{Kernel, keyboard_driver, call, page_fault, interrupt, show, poll}
use god_os.Kernel.Loop.{chars, poll_lem, with_keyboard}
use god_os.Kernel.View.{Nothing, no_bus, look, vga_putchar-look}

-- The processor in the main loop: are interrupts enabled, and does it sleep.
pub record Cpu (D : Type 0) : Type 0 where
  pub enabled : Bool
  pub asleep : Bool
  pub system : System D Kernel

-- The end of a round: `sti; hlt` after an empty answer.
abbrev pub after_poll : {D : Type 0} → Option ℕ × System D Kernel → Cpu D → Cpu D
after_poll (none, s) c = record { enabled = true; asleep = true; system = s }
after_poll (some char, s) c = record c { system = s }

module _ {D : Type 0} (bus : Bus D) where
  -- The byte that the keyboard's controller has.
  abbrev pub scancode : System D Kernel → ℕ
  scancode s = (bus.inb 0x60 s.screen.devices).0

  -- An interrupt of line 1, which also wakes the processor; or a round of the loop.
  pub data Step : Event → Cpu D → Cpu D → Type 0 where
    key :
        {c : Cpu D} {s' : System D Kernel} (r : Regs)
        → c.enabled ≡ true
        → r.vector ≡ 33
        → interrupt bus r c.system ≡ resumed s'
        → Step (irq (scancode c.system)) c (record c { asleep = false; system = s' })
    round : {c : Cpu D} → c.asleep ≡ false → Step polled c (after_poll (poll bus c.system) c)

  pub data Runs : List Event → Cpu D → Cpu D → Type 0 where
    end : {c : Cpu D} → Runs [] c c
    step :
        {e : Event} {es : List Event} {c c' c'' : Cpu D}
        → Step e c c'
        → Runs es c' c''
        → Runs (e ∷ es) c c''

-- The characters among the answers.
unfoldable pub somes : List (Option ℕ) → List ℕ
somes [] = []
somes (none ∷ os) = somes os
somes (some c ∷ os) = c ∷ somes os

-- The keyboard is valid, and its handler is registered.
pub record IsListening {D : Type 0} (s : System D Kernel) : Type 0 where
  pub keyboard : IsValid s.kernel.keyboard
  pub registered : s.kernel.handlers 1 ≡ some keyboard_driver

-- What the characters `out` have added to the screen.
abbrev pub Shows : {D : Type 0} → List ℕ → System D Kernel → System D Kernel → Type 0
Shows out s s' = look s'.screen ≡ vga_puts no_bus (chars out) (look s.screen)

module _ {D : Type 0} (bus : Bus D) (bytes : (p : ℕ) (d : D) → (bus.inb p d).0 < 256) where
  -- The interrupt of a key runs the keyboard's handler, acknowledges, and resumes.
  pub interrupt-key :
      (r : Regs) (s : System D Kernel)
      → r.vector ≡ 33
      → s.kernel.handlers 1 ≡ some keyboard_driver
      → interrupt bus r s ≡ resumed (acknowledge bus 1 (call bus keyboard_driver r s))
  unfolding interrupt
  interrupt-key r s v there =
      let e =
        isr_handler_lem bus (call bus) page_fault s.kernel.vm.cr2 s.kernel.handlers r s
          (omega arith) in
      let from : leb 32 r.vector ≡ true = ground arith in
      let line : ltb r.vector 48 ≡ true = ground arith in
      let one : r.vector - 32 ≡ 1 = omega arith in
      let answer = rw (from, line) at e in
      let handler : s.kernel.handlers (r.vector - 32) ≡ some keyboard_driver =
        ap s.kernel.handlers one ∙ there in
      answer
      ∙ ap
          (λ n.
            resumed (
              acknowledge bus n (handled bus (call bus) (s.kernel.handlers (r.vector - 32)) n r s)))
          one
      ∙ ap (λ h. resumed (acknowledge bus 1 (handled bus (call bus) h 1 r s))) handler

  -- What an event makes of the system.
  abbrev Does : Session → List ℕ → System D Kernel → System D Kernel → Type 0
  Does to out s s' = IsListening s' × (session s'.kernel.keyboard ≡ to) × Shows out s s'

  key-Does :
      (r : Regs) (s s' : System D Kernel)
      → IsListening s
      → r.vector ≡ 33
      → interrupt bus r s ≡ resumed s'
      → Does (scan (scancode bus s % 256) (session s.kernel.keyboard)) [] s s'
  unfolding call acknowledge chars vga_puts
  key-Does r s s' fine v e =
      let sc = scancode bus s in
      let small = bytes 0x60 s.screen.devices in
      let to = scan (sc % 256) (session s.kernel.keyboard) in
      let same : sc % 256 ≡ sc = omega arith in
      subst (Does to [] s) (inj (sym (interrupt-key r s v fine.registered) ∙ e)) (
        record { keyboard = handler-IsValid sc fine.keyboard; registered = fine.registered },
        handler_refines sc fine.keyboard small
            ∙ ap (λ n. scan n (session s.kernel.keyboard)) (sym same),
        refl,
      )
    where
      inj : {a b : System D Kernel} → resumed a ≡ resumed b → a ≡ b
      inj e = cc

  poll-Does :
      (s : System D Kernel)
      → IsListening s
      → ((poll bus s).0 ≡ (get (session s.kernel.keyboard)).0)
        × Does (get (session s.kernel.keyboard)).1 (somes ((poll bus s).0 ∷ [])) s (poll bus s).1
  unfolding show chars vga_puts somes
  poll-Does s fine =
      let both = kb_get_refines fine.keyboard in
      let k = (kb_get s.kernel.keyboard).1 in
      let to = (get (session s.kernel.keyboard)).1 in
      let after = λ (x : Option ℕ × System D Kernel).
        (x.0 ≡ (get (session s.kernel.keyboard)).0) × Does to (somes (x.0 ∷ [])) s x.1 in
      subst after (sym (poll_lem bus s refl)) (
        ap (λ x. x.0) both,
        shown (kb_get s.kernel.keyboard).0 (kb_get-IsValid fine.keyboard) (ap (λ x. x.1) both),
      )
    where
      shown :
          (o : Option ℕ)
          → IsValid (kb_get s.kernel.keyboard).1
          → session (kb_get s.kernel.keyboard).1 ≡ (get (session s.kernel.keyboard)).1
          → Does
              (get (session s.kernel.keyboard)).1
              (somes (o ∷ []))
              s
              (show bus o (with_keyboard (kb_get s.kernel.keyboard).1 s))
      shown none v e = (record { keyboard = v; registered = fine.registered }, e, refl)
      shown (some c) v e = (
        record { keyboard = v; registered = fine.registered },
        e,
        vga_putchar-look bus (c % 256) s.screen,
      )

  after_system : (x : Option ℕ × System D Kernel) (c : Cpu D) → (after_poll x c).system ≡ x.1
  after_system (none, s) c = refl
  after_system (some char, s) c = refl

  -- Output after output.
  chars_append :
      (o : Option ℕ) (os : List (Option ℕ)) (v : Screen Nothing)
      → vga_puts no_bus (chars (somes (o ∷ os))) v
        ≡ vga_puts no_bus (chars (somes os)) (vga_puts no_bus (chars (somes (o ∷ []))) v)
  unfolding chars vga_puts somes
  chars_append none os v = refl
  chars_append (some c) os v = refl

  -- In any order of interrupts of the keyboard and rounds of the main loop, from a valid keyboard whose
  -- handler is registered and with a controller that gives bytes, the screen shows, after what it showed
  -- before, exactly the characters that a decoder in front of a queue of 63 characters gives for
  -- the same keys and rounds, in that order.
  pub Runs-Shows :
      {es : List Event} {c c' : Cpu D}
      → Runs bus es c c'
      → IsListening c.system
      → Shows (somes (run_session (session c.system.kernel.keyboard) es)) c.system c'.system
  unfolding run_session chars vga_puts somes
  Runs-Shows end fine = refl
  Runs-Shows (step {es = es} {c} {c'} {c''} (key {s' = s'} r on v e) rest) fine =
      let (fine', to, same) = key-Does r c.system s' fine v e in
      let later = Runs-Shows rest fine' in
      later
      ∙ ap (λ x. vga_puts no_bus (chars (somes (run_session x es))) (look s'.screen)) to
      ∙ ap
          (vga_puts no_bus (
            chars (
              somes (
                run_session (scan (scancode bus c.system % 256) (session c.system.kernel.keyboard))
                  es))))
          same
  Runs-Shows (step {es = es} {c} {c'} {c''} (round awake) rest) fine =
      let (answer, (fine', to, shown)) = poll-Does c.system fine in
      let s1 = (poll bus c.system).1 in
      let sess = session c.system.kernel.keyboard in
      let there : (after_poll (poll bus c.system) c).system ≡ s1 =
        after_system (poll bus c.system) c in
      let later =
        subst
          (λ t.
            look c''.system.screen
            ≡ vga_puts no_bus (chars (somes (run_session (session t.kernel.keyboard) es)))
                (look t.screen))
          there (Runs-Shows rest (subst IsListening (sym there) fine')) in
      later
      ∙ ap (λ x. vga_puts no_bus (chars (somes (run_session x es))) (look s1.screen)) to
      ∙ ap (vga_puts no_bus (chars (somes (run_session (get sess).1 es)))) shown
      ∙ sym
          (chars_append (poll bus c.system).0 (run_session (get sess).1 es) (look c.system.screen))
      ∙ ap
          (λ o.
            vga_puts no_bus (chars (somes (o ∷ run_session (get sess).1 es)))
              (look c.system.screen))
          answer
