-- ===== src/Keyboard.antt =====
-- src/keyboard.c and keyboard.h: the scancode state machine in the interrupt, the ring buffer that
-- it fills, and `kb_get` in the main loop. The file-level variables are the fields of `Keyboard`.
pub mod Tables
pub mod Queue
pub mod Ring
pub mod Refine
pub mod Interrupt
mod Tests
use god_os.Base.{
  ℕ, ◌+◌, ◌-◌, ◌%◌, ◌^◌, bit_and, ◌≡◌, Bool, true, false, not, ◌||◌, Option, none, some, List, ◌==◌,
  if◌then◌else◌, get_or, set, replicate,
}
use Tables.{kb_normal, kb_shift}

abbrev pub buf_size : ℕ
buf_size = 64

-- `kb_buf`, `kb_head`, `kb_tail`, the two Shift flags and `e0_prefix`.
pub record Keyboard : Type 0 where
  pub buf : List ℕ
  pub head : ℕ
  pub tail : ℕ
  pub shift_left : Bool
  pub shift_right : Bool
  pub e0_prefix : Bool

-- The variables in .bss, before the first interrupt.
abbrev pub initial : Keyboard
initial = record {
  buf = replicate 64 0;
  head = 0;
  tail = 0;
  shift_left = false;
  shift_right = false;
  e0_prefix = false;
}

-- `(index + 1) & (KB_BUF_SIZE - 1)` on `unsigned`.
pub next_index : ℕ → ℕ
next_index i = bit_and ((i + 1) % 2 ^ 32) (buf_size - 1)

-- The end of `keyboard_handler`: a full buffer drops the new character.
pub enqueue : ℕ → Keyboard → Keyboard
enqueue c k =
    let next = next_index k.head in
    if next == k.tail then k else record k { buf = set k.buf k.head c; head = next }

-- The table look-up of a pressed key; 0 stands for a key with no character.
pub press : ℕ → Keyboard → Keyboard
unfolding enqueue
press code k =
    let c =
      if k.shift_left || k.shift_right then get_or kb_shift code 0 else get_or kb_normal code 0 in
    if c == 0 then k else enqueue c k

-- `keyboard_handler`, given the byte `sc` that `inb(0x60)` returns.
pub keyboard_handler : ℕ → Keyboard → Keyboard
unfolding press
keyboard_handler sc k =
    if k.e0_prefix
    then record k { e0_prefix = false }
    else if sc == 0xE0
    then record k { e0_prefix = true }
    else let release = not (bit_and sc 0x80 == 0) in
      let code = bit_and sc 0x7F in
      if code == 0x2A
      then record k { shift_left = not release }
      else if code == 0x36
      then record k { shift_right = not release }
      else if release
      then k
      else press code k

-- The two accesses of `kb_get` behind its test: the load of the character, and the store of the
-- index. An interrupt may come between them.
pub kb_load : Keyboard → ℕ
kb_load k = get_or k.buf k.tail 0

pub kb_advance : Keyboard → Keyboard
kb_advance k = record k { tail = next_index k.tail }

-- `kb_get`; `none` is the -1 of an empty buffer. The buffer holds bytes.
pub kb_get : Keyboard → Option ℕ × Keyboard
unfolding kb_load kb_advance
kb_get k = if k.head == k.tail then (none, k) else (some (kb_load k), kb_advance k)
