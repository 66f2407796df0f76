-- ===== src/Keyboard/Refine.antt =====
-- src/keyboard.c refines the decoder and the bounded queue of Keyboard/Queue.
use god_os.Base.{
  ℕ, ◌/◌, ◌%◌, ◌<◌, bit_and, ◌≡◌, refl, ap, ◌∙◌, ◌||◌, Option, none, some, List, [], ◌∷◌, arith,
  ltb, ◌==◌, if◌then◌else◌, get_or, Bool-cases, inl, inr,
}
use god_os.Base.Bits.{bit_and-mask, bit_and-shift}
use god_os.Keyboard.{Keyboard, enqueue, press, keyboard_handler, kb_get}
use god_os.Keyboard.Tables.{kb_normal, kb_shift}
use god_os.Keyboard.Queue.{Mode, Session, classify, character, decode, push, scan, get}
use god_os.Keyboard.Ring.{
  IsValid, contents, enqueue-IsValid, kb_get-IsValid, contents-enqueue, contents-kb_get,
}

abbrev pub mode : Keyboard → Mode
mode k = record { left_held = k.shift_left; right_held = k.shift_right; extended = k.e0_prefix }

abbrev pub session : Keyboard → Session
session k = record { mode = mode k; queue = contents k }

low_bits : (sc : ℕ) → bit_and sc 0x7F ≡ sc % 128
low_bits sc = bit_and-mask 7 sc

top_bit : (sc : ℕ) → sc < 256 → (bit_and sc 0x80 == 0) ≡ ltb (sc % 256) 128
top_bit sc h = ground (arith, bit_and-shift 7 sc 1, bit_and-mask 1 (sc / 128))

enqueue_fields :
    (c : ℕ) (k : Keyboard)
    → ((enqueue c k).shift_left ≡ k.shift_left)
      × ((enqueue c k).shift_right ≡ k.shift_right)
      × ((enqueue c k).e0_prefix ≡ k.e0_prefix)
unfolding enqueue
enqueue_fields c k = ground arith

pub kb_get_fields : (k : Keyboard) → mode (kb_get k).1 ≡ mode k
unfolding kb_get
kb_get_fields k = ground arith

press-session :
    (key : ℕ) {k : Keyboard}
    → IsValid k
    → session (press key k)
      ≡ record { mode = mode k; queue = push (contents k) (character (mode k) key) }
unfolding press character push
press-session key {k} v = elim (Bool-cases (k.shift_left || k.shift_right)) [
  | inl shifted ↦ rw shifted (typed (get_or kb_shift key 0))
  | inr plain ↦ rw plain (typed (get_or kb_normal key 0))
]
  where
    typed :
        (c : ℕ)
        → session (if c == 0 then k else enqueue c k)
          ≡ record { mode = mode k; queue = push (contents k) (if c == 0 then none else some c) }
    typed c = elim (Bool-cases (c == 0)) [
      | inl zero_char ↦ rw zero_char
      | inr char ↦ rw (char, ← contents-enqueue c v) (ground (arith, enqueue_fields c k))
    ]

pub handler-IsValid : (sc : ℕ) {k : Keyboard} → IsValid k → IsValid (keyboard_handler sc k)
unfolding keyboard_handler press
handler-IsValid sc {k} v = ground (
  arith,
  enqueue-IsValid (get_or kb_shift (bit_and sc 0x7F) 0) v,
  enqueue-IsValid (get_or kb_normal (bit_and sc 0x7F) 0) v,
)

-- One byte from the controller, handled in an interrupt, acts on the waiting characters and the
-- modifiers as the decoder and the bounded queue do.
pub handler_refines :
    (sc : ℕ) {k : Keyboard}
    → IsValid k
    → sc < 256
    → session (keyboard_handler sc k) ≡ scan sc (session k)
unfolding keyboard_handler scan decode classify push
handler_refines sc {k} v byte =
    rw (low_bits sc, top_bit sc byte) (ground (arith, press-session (sc % 128) v))

pub kb_get_refines :
    {k : Keyboard} → IsValid k → ((kb_get k).0, session (kb_get k).1) ≡ get (session k)
unfolding get
kb_get_refines {k} v = rw (← contents-kb_get v) (ground (arith, kb_get_fields k))

-- What can happen to the driver: an interrupt with its byte, or a call of the main loop.
pub data Event : Type 0 where
  irq : ℕ → Event
  poll : Event

-- The answers of the polls, in order.
unfoldable pub run : Keyboard → List Event → List (Option ℕ)
run k [] = []
run k (irq sc ∷ es) = run (keyboard_handler (sc % 256) k) es
run k (poll ∷ es) = let (c, k') = kb_get k in c ∷ run k' es

unfoldable pub run_session : Session → List Event → List (Option ℕ)
run_session s [] = []
run_session s (irq sc ∷ es) = run_session (scan (sc % 256) s) es
run_session s (poll ∷ es) = let (c, s') = get s in c ∷ run_session s' es

-- No order of interrupts and polls tells the driver from the decoder in front of a queue of 63
-- characters: nothing is lost below capacity, nothing is reordered, and a full queue drops the new
-- character.
pub run_refines :
    (es : List Event) {k : Keyboard} → IsValid k → run k es ≡ run_session (session k) es
unfolding run run_session
run_refines [] v = refl
run_refines (irq sc ∷ es) v =
    run_refines es (handler-IsValid (sc % 256) v)
    ∙ ap (λ s. run_session s es) (handler_refines (sc % 256) v (omega arith))
run_refines (poll ∷ es) {k} v = ground (arith, run_refines es (kb_get-IsValid v), kb_get_refines v)
