-- ===== src/Vga/Scroll.antt =====
-- The lines of the screen of src/vga.c, and the cells a character is written as.
use god_os.Base.{
  ℕ, ◌+◌, ◌*◌, ◌^◌, ◌<◌, ◌≡◌, refl, ap, ◌==◌, ltb, leb, if◌then◌else◌, arith, bit_or, Bool, true,
  false, Bool-cases, ==_true, inl, inr, ◌&&◌, ◌||◌,
}
use Prim.Native.Nat.{bit_or-bitwise}
use god_os.Base.Loop.{count_to}
use god_os.Base.Bits.{bit_or-shift, all_below, all_below_sound}
use god_os.Io.{Bus}
use god_os.Vga.{
  Screen, vga_entry, write_cell, vga_newline, vga_scroll, vga_clear, vga_putchar, put_switch,
  put_visible, vga_update_cursor, vga_enable_cursor,
}
use god_os.Vga.Bounds.{OnScreen}
use god_os.Vga.Cells.{vga_scroll_lem, blank_cells_lem}

-- The cell at a row and a column.
abbrev pub at : {D : Type 0} → Screen D → ℕ → ℕ → ℕ
at s r c = s.cells (r * 80 + c)

ored : all_below 256 (λ c. bit_or 0xFF c == 0xFF) ≡ true
unfolding all_below count_to
ored = refl

abbrev pub is_control : ℕ → Bool
is_control c = (c == 10) || (c == 13) || (c == 9) || (c == 8)

low_entry : (c color : ℕ) → c < 256 → bit_or c (color * 2 ^ 8) ≡ color * 256 + c
low_entry c color h =
    let parts = bit_or-shift 8 0 c color h in
    let same : 0 * 2 ^ 8 + c ≡ c = omega arith in
    let flat = ap (λ x. bit_or x (color * 2 ^ 8)) same in
    omega (arith, parts, flat, bit_or-bitwise 0 color)

high_entry :
    (c color : ℕ) → c < 256 → color < 256 → bit_or (0xFF00 + c) (color * 2 ^ 8) ≡ 0xFF00 + c
high_entry c color h hk =
    let full = ==_true _ _ (all_below_sound 256 (λ k. bit_or 0xFF k == 0xFF) color ored hk) in
    omega (arith, bit_or-shift 8 0xFF c color h, full)

-- A cell has the colour in its high byte and the character in its low byte if the character is below
-- 0x80. Every other character of 8 bits gets the high byte 0xFF, whatever the colour is.
pub vga_entry_lem :
    (c color : ℕ)
    → c < 256
    → color < 256
    → vga_entry c color ≡ (if ltb c 128 then color * 256 + c else 0xFF00 + c)
unfolding vga_entry
vga_entry_lem c color hc hk = ground (arith, low_entry c color hc, high_entry c color hc hk)

module _ {D : Type 0} where
  -- A line feed at the last row moves each of the rows 1 to 24 up by one and leaves row 24 blank in the
  -- current colour, with the cursor at its start; at a row above it moves the cursor to the start
  -- of the next row and leaves the cells alone.
  pub vga_newline_lem :
      (s : Screen D) (r c : ℕ)
      → s.row < 25
      → r < 25
      → c < 80
      → let s' = vga_newline s in
        (at s' r c ≡ (
          if s.row == 24
          then (if r == 24 then vga_entry b' ' s.color else at s (r + 1) c)
          else at s r c))
        × (s'.row ≡ (if s.row == 24 then 24 else s.row + 1))
        × (s'.col ≡ 0)
  unfolding vga_newline vga_scroll
  vga_newline_lem s r c here hr hc =
      let next = record s { col = 0; row = s.row + 1 } in
      let below : r * 80 + c + 80 ≡ (r + 1) * 80 + c = omega arith in
      ground (arith, vga_scroll_lem next (r * 80 + c), ap s.cells below)

  -- The cell (r, k) after `c` is written at the cursor.
  abbrev pub drawn : ℕ → Screen D → ℕ → ℕ → ℕ
  drawn c s r k = if (r == s.row) && (k == s.col) then vga_entry c s.color else at s r k

  -- The cursor is in the last cell of the screen.
  abbrev pub at_end : Screen D → Bool
  at_end s = (s.row == 24) && (s.col == 79)

  drawn_cell :
      (c : ℕ) (s : Screen D) (r k : ℕ)
      → s.col < 80
      → k < 80
      → write_cell (s.row * 80 + s.col) (vga_entry c s.color) s.cells (r * 80 + k) ≡ drawn c s r k
  drawn_cell c s r k h hk = ground arith

  put_visible_lem :
      (c : ℕ) (s : Screen D) (r k : ℕ)
      → OnScreen s
      → r < 25
      → k < 80
      → let s' = put_visible c s in
        (at s' r k ≡ (
          if at_end s
          then (if r == 24 then vga_entry b' ' s.color else drawn c s (r + 1) k)
          else drawn c s r k))
        × (s'.row * 80 + s'.col ≡ (if at_end s then 24 * 80 else s.row * 80 + s.col + 1))
  unfolding put_visible
  put_visible_lem c s r k on hr hk =
      let cells = write_cell (s.row * 80 + s.col) (vga_entry c s.color) s.cells in
      let next = record s { cells = cells; col = s.col + 1 } in
      let line = vga_newline_lem next r k (on.0) hr hk in
      let here = drawn_cell c s r k (on.1) hk in
      let below = drawn_cell c s (r + 1) k (on.1) hk in
      elim (Bool-cases (leb 80 (s.col + 1))) [
        | inl full ↦ rw full (ground (arith, line, here, below))
        | inr room ↦ rw room (ground (arith, here))
      ]

  put_switch-visible :
      (c : ℕ) (s : Screen D) → is_control c ≡ false → put_switch c s ≡ put_visible c s
  unfolding put_switch
  put_switch-visible c s h = ground arith

  -- A character other than the four control characters, printed with the cursor on the screen, is
  -- drawn at the cursor, which goes to the next cell in reading order, and no other cell changes;
  -- in the last cell of the screen the lines then move up by one, a blank line follows, and the
  -- cursor goes to its start.
  pub vga_putchar-drawn :
      (bus : Bus D) (c : ℕ) (s : Screen D) (r k : ℕ)
      → is_control c ≡ false
      → OnScreen s
      → r < 25
      → k < 80
      → let s' = vga_putchar bus c s in
        (at s' r k ≡ (
          if at_end s
          then (if r == 24 then vga_entry b' ' s.color else drawn c s (r + 1) k)
          else drawn c s r k))
        × (s'.row * 80 + s'.col ≡ (if at_end s then 24 * 80 else s.row * 80 + s.col + 1))
  unfolding vga_putchar vga_update_cursor
  vga_putchar-drawn bus c s r k visible on hr hk =
      rw (put_switch-visible c s visible) (put_visible_lem c s r k on hr hk)

  -- `vga_clear` blanks the 2000 cells in the current colour and nothing behind them, and puts the
  -- cursor at the upper left.
  pub vga_clear_lem :
      (bus : Bus D) (s : Screen D) (j : ℕ)
      → let s' = vga_clear bus s in
        (s'.cells j ≡ (if ltb j 2000 then vga_entry b' ' s.color else s.cells j))
        × (s'.row ≡ 0)
        × (s'.col ≡ 0)
        × (s'.color ≡ s.color)
  unfolding vga_clear vga_update_cursor vga_enable_cursor
  vga_clear_lem bus s j =
      (ground (arith, blank_cells_lem s.color 0 (80 * 25) s.cells j), refl, refl, refl)
