-- ===== src/Keyboard/Interrupt.antt =====
-- Interrupts of src/keyboard.c that leave no trace, and interrupts in the middle of `kb_get`.
use god_os.Base.{
  ℕ, ◌≡◌, ◌≢◌, refl, false, some, List, [], ◌∷◌, arith, bit_and, get_or, get_or-set_ne,
}
use god_os.Keyboard.{Keyboard, enqueue, press, keyboard_handler, kb_load, kb_advance, kb_get}

-- An extended key sends 0xE0 and one more byte, whatever it is: together they change nothing, no
-- character and no modifier.
pub extended_pair :
    (second : ℕ) (k : Keyboard)
    → k.e0_prefix ≡ false
    → keyboard_handler second (keyboard_handler 0xE0 k) ≡ k
unfolding keyboard_handler
extended_pair second k e = ground arith

-- What an interrupt leaves alone while a character waits.
record Kept (k k' : Keyboard) : Type 0 where
  tail : k'.tail ≡ k.tail
  cell : get_or k'.buf k.tail 0 ≡ get_or k.buf k.tail 0
  waits : k'.head ≢ k.tail

enqueue-Kept : (c : ℕ) {k : Keyboard} → k.head ≢ k.tail → Kept k (enqueue c k)
unfolding enqueue
enqueue-Kept c {k} h = ground (arith, get_or-set_ne k.buf {i = k.head} {j = k.tail} c 0)

press-Kept : (code : ℕ) {k : Keyboard} → k.head ≢ k.tail → Kept k (press code k)
unfolding press
press-Kept code {k} h = grind (arith, enqueue-Kept)

handler-Kept : (sc : ℕ) {k : Keyboard} → k.head ≢ k.tail → Kept k (keyboard_handler sc k)
unfolding keyboard_handler
handler-Kept sc {k} h = ground (arith, press-Kept (bit_and sc 0x7F) {k = k} h)

-- Interrupts with the bytes `scs`, one after the other.
abbrev pub interrupts : List ℕ → Keyboard → Keyboard
interrupts [] k = k
interrupts (sc ∷ scs) k = interrupts scs (keyboard_handler sc k)

interrupts-Kept : (scs : List ℕ) {k : Keyboard} → k.head ≢ k.tail → Kept k (interrupts scs k)
interrupts-Kept [] h = record { tail = refl; cell = refl; waits = h }
interrupts-Kept (sc ∷ scs) {k} h =
    ground (arith, handler-Kept sc {k = k} h, interrupts-Kept scs {k = keyboard_handler sc k})

-- Interrupts that come between the load and the index store of a `kb_get` on a nonempty buffer are
-- as good as interrupts before the call: it returns the same character and leaves the same state.
pub kb_get_interrupted :
    (scs : List ℕ) (k : Keyboard)
    → k.head ≢ k.tail
    → (some (kb_load k), kb_advance (interrupts scs k)) ≡ kb_get (interrupts scs k)
unfolding kb_get
kb_get_interrupted scs k h = ground (arith, interrupts-Kept scs {k = k} h)
