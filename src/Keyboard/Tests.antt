-- ===== src/Keyboard/Tests.antt =====
-- Runs of src/keyboard.c, and its theorems at concrete inputs.
use god_os.Base.{◌≡◌, refl, none, some, List, [], ◌∷◌, arith}
use god_os.Keyboard.{Keyboard, initial, next_index, keyboard_handler, kb_load, kb_advance, kb_get}
use god_os.Keyboard.Queue.{scan}
use god_os.Keyboard.Ring.{initial-IsValid}
use god_os.Keyboard.Refine.{
  session, handler_refines, Event, irq, poll, run, run_session, run_refines,
}
use god_os.Keyboard.Interrupt.{interrupts, kb_get_interrupted}

-- Shift down, h, Shift up, an arrow key, i, and three polls.
abbrev script : List Event
script = irq 0x2A ∷ irq 0x23 ∷ irq 0xAA ∷ irq 0xE0 ∷ irq 0x48 ∷ irq 0x17 ∷ poll ∷ poll ∷ poll ∷ []

run-script : run initial script ≡ some b'H' ∷ some b'i' ∷ none ∷ []
unfolding run keyboard_handler kb_get next_index
run-script = refl

handler_refines_example : session (keyboard_handler 0x23 initial) ≡ scan 0x23 (session initial)
handler_refines_example = handler_refines 0x23 initial-IsValid (omega arith)

run_refines_example : run initial script ≡ run_session (session initial) script
run_refines_example = run_refines script initial-IsValid

-- One character waits.
abbrev typed : Keyboard
typed = record initial { buf = b'h' ∷ initial.buf; head = 1 }

kb_get_interrupted_example :
    (some (kb_load typed), kb_advance (interrupts (0x17 ∷ 0x97 ∷ []) typed))
    ≡ kb_get (interrupts (0x17 ∷ 0x97 ∷ []) typed)
kb_get_interrupted_example = kb_get_interrupted (0x17 ∷ 0x97 ∷ []) typed (omega arith)
