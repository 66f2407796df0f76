-- ===== src/Vga.antt =====
-- src/vga.c, the terminal: the text buffer, the cursor, and the characters that move it. Output of
-- numbers and `vga_printf` are in Vga/Format. A `char` is its byte, 0 to 255.
pub mod Format
pub mod Cells
pub mod Bounds
pub mod Cursor
pub mod Scroll
pub mod Digits
pub mod Render
pub mod Refine
pub mod Directives
mod Parsed
pub mod Spelled
pub mod Stays
mod Tests
use god_os.Base.{
  ℕ, ◌+◌, ◌-◌, ◌*◌, ◌/◌, ◌%◌, ◌^◌, ◌==◌, ltb, leb, if◌then◌else◌, List, [], ◌∷◌, bit_and, bit_or,
}
use god_os.Base.Loop.{count_to}
use god_os.Io.{Bus}

abbrev pub vga_width : ℕ
vga_width = 80

abbrev pub vga_height : ℕ
vga_height = 25

-- `vga_buffer` by cell from 0xB8000 on, `vga_row`, `vga_col` and `vga_color`, before the devices.
pub record Screen (D : Type 0) : Type 0 where
  pub cells : ℕ → ℕ
  pub row : ℕ
  pub col : ℕ
  pub color : ℕ
  pub devices : D

-- `(uint16_t)c`: the sign of a `char` is extended.
abbrev pub char_to_u16 : ℕ → ℕ
char_to_u16 c = if ltb c 128 then c else 0xFF00 + c

unfoldable pub vga_entry : ℕ → ℕ → ℕ
vga_entry c color = bit_or (char_to_u16 c) (color * 2 ^ 8) % 2 ^ 16

-- `vga_buffer[i] = v`
abbrev pub write_cell : ℕ → ℕ → (ℕ → ℕ) → ℕ → ℕ
write_cell i v cells j = if j == i then v else cells j

-- The first loop of `vga_scroll`.
unfoldable pub shift_up : (ℕ → ℕ) → ℕ → ℕ
shift_up cells =
    count_to ((vga_height - 1) * vga_width) (λ i bs. write_cell i (bs (i + vga_width)) bs) cells

-- `n` blanks from the cell `first` on: the second loop of `vga_scroll`, and the loop of `vga_clear`.
unfoldable pub blank_cells : ℕ → ℕ → ℕ → (ℕ → ℕ) → ℕ → ℕ
blank_cells color first n cells =
    count_to n (λ k bs. write_cell (first + k) (vga_entry b' ' color) bs) cells

unfoldable pub vga_scroll : {D : Type 0} → Screen D → Screen D
vga_scroll s = record s {
  cells = blank_cells s.color ((vga_height - 1) * vga_width) vga_width (shift_up s.cells);
}

unfoldable pub vga_newline : {D : Type 0} → Screen D → Screen D
vga_newline s =
    let s = record s { col = 0; row = s.row + 1 } in
    if leb vga_height s.row then record (vga_scroll s) { row = vga_height - 1 } else s

unfoldable pub vga_set_color : {D : Type 0} → ℕ → Screen D → Screen D
vga_set_color attr s = record s { color = attr }

-- The `default` of the switch.
unfoldable pub put_visible : {D : Type 0} → ℕ → Screen D → Screen D
put_visible c s =
    let cells = write_cell (s.row * vga_width + s.col) (vga_entry c s.color) s.cells in
    let s = record s { cells = cells; col = s.col + 1 } in
    if leb vga_width s.col then vga_newline s else s

-- The case '\t'; `~7` of a 32-bit `int`.
unfoldable pub put_tab : {D : Type 0} → Screen D → Screen D
put_tab s =
    let s = record s { col = bit_and (s.col + 8) (2 ^ 32 - 8) } in
    if leb vga_width s.col then vga_newline s else s

unfoldable pub put_switch : {D : Type 0} → ℕ → Screen D → Screen D
put_switch c s =
    if c == 10
    then vga_newline s
    else if c == 13
    then record s { col = 0 }
    else if c == 9
    then put_tab s
    else if c == 8
    then (if ltb 0 s.col then record s { col = s.col - 1 } else s)
    else put_visible c s

module _ {D : Type 0} (bus : Bus D) where
  unfoldable pub vga_enable_cursor : Screen D → Screen D
  vga_enable_cursor s =
      let d = bus.outb 0x3D4 0x0A s.devices in
      let (start, d) = bus.inb 0x3D5 d in
      let d = bus.outb 0x3D5 (bit_or (bit_and start 0xC0) 0x0E % 256) d in
      let d = bus.outb 0x3D4 0x0B d in record s { devices = bus.outb 0x3D5 0x0F d }

  unfoldable pub vga_update_cursor : Screen D → Screen D
  vga_update_cursor s =
      let pos = (s.row * vga_width + s.col) % 2 ^ 16 in
      let d = bus.outb 0x3D4 0x0F s.devices in
      let d = bus.outb 0x3D5 (bit_and pos 0xFF % 256) d in
      let d = bus.outb 0x3D4 0x0E d in record s { devices = bus.outb 0x3D5 (pos / 2 ^ 8 % 256) d }

  unfoldable pub vga_clear : Screen D → Screen D
  vga_clear s =
      let blank = blank_cells s.color 0 (vga_width * vga_height) s.cells in
      vga_update_cursor (vga_enable_cursor (record s { cells = blank; row = 0; col = 0 }))

  unfoldable pub vga_putchar : ℕ → Screen D → Screen D
  vga_putchar c s = vga_update_cursor (put_switch c s)

  -- A C string is the list of its characters before the NUL.
  unfoldable pub vga_puts : List ℕ → Screen D → Screen D
  vga_puts [] s = s
  vga_puts (c ∷ cs) s = vga_puts cs (vga_putchar c s)
