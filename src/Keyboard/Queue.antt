-- ===== src/Keyboard/Queue.antt =====
-- What the keyboard promises: a decoder of scancodes before a FIFO of at most 63 characters.
use god_os.Base.{
  ℕ, ◌%◌, Bool, true, false, ◌||◌, Option, none, some, List, [], ◌∷◌, ◌++◌, ltb, ◌==◌,
  if◌then◌else◌, length, get_or,
}
use god_os.Keyboard.Tables.{kb_normal, kb_shift}

abbrev pub capacity : ℕ
capacity = 63

-- What one byte from the controller means on its own.
pub data Code : Type 0 where
  prefix : Code
  left : Bool → Code
  right : Bool → Code
  released : Code
  pressed : ℕ → Code

unfoldable pub classify : ℕ → Code
classify sc =
    if sc == 0xE0
    then prefix
    else if sc % 128 == 0x2A
    then left (ltb (sc % 256) 128)
    else if sc % 128 == 0x36
    then right (ltb (sc % 256) 128)
    else if ltb (sc % 256) 128
    then pressed (sc % 128)
    else released

-- Which modifiers are held, and whether the next byte ends an extended pair.
pub record Mode : Type 0 where
  pub left_held : Bool
  pub right_held : Bool
  pub extended : Bool

-- The character of a key under a mode, if it has one.
unfoldable pub character : Mode → ℕ → Option ℕ
character m key =
    let c = get_or (if m.left_held || m.right_held then kb_shift else kb_normal) key 0 in
    if c == 0 then none else some c

unfoldable pub decode : Mode → Code → Mode × Option ℕ
decode m prefix = (record m { extended = true }, none)
decode m (left down) = (record m { left_held = down }, none)
decode m (right down) = (record m { right_held = down }, none)
decode m released = (m, none)
decode m (pressed key) = (m, character m key)

pub record Session : Type 0 where
  pub mode : Mode
  pub queue : List ℕ

unfoldable pub push : List ℕ → Option ℕ → List ℕ
push q none = q
push q (some c) = if length q == capacity then q else q ++ (c ∷ [])

unfoldable pub scan : ℕ → Session → Session
scan sc s =
    if s.mode.extended
    then record s { mode = record (s.mode) { extended = false } }
    else let (m, c) = decode s.mode (classify sc) in record { mode = m; queue = push s.queue c }

unfoldable pub pop : List ℕ → Option ℕ × List ℕ
pop [] = (none, [])
pop (c ∷ q) = (some c, q)

unfoldable pub get : Session → Option ℕ × Session
get s = let (c, q) = pop s.queue in (c, record s { queue = q })
