-- ===== src/Vga/Bounds.antt =====
-- The cursor of src/vga.c stays on the screen, and output stays in the 2000 cells of the text mode.
use god_os.Base.{
  ℕ, ◌+◌, ◌-◌, ◌*◌, ◌^◌, ◌≤◌, ◌<◌, ◌≡◌, refl, ◌∙◌, ◌==◌, ltb, leb, if◌then◌else◌, Bool, true, false,
  arith, bit_and, List, [], ◌∷◌, Bool-cases, inl, inr,
}
use god_os.Io.{Bus}
use god_os.Vga.{
  Screen, write_cell, vga_entry, vga_scroll, vga_newline, put_visible, put_tab, put_switch,
  vga_putchar, vga_puts, vga_update_cursor,
}
use god_os.Vga.Cells.{vga_scroll_lem}

-- The cursor is on the screen.
abbrev pub OnScreen : {D : Type 0} → Screen D → Type 0
OnScreen s = (s.row < 25) × (s.col < 80)

-- What output of `s` that ends in `s'` keeps to: the cursor on the screen, the colour, and all
-- memory behind the 2000 cells.
pub record Within {D : Type 0} (s s' : Screen D) : Type 0 where
  pub on_screen : OnScreen s'
  pub same_color : s'.color ≡ s.color
  pub behind : (j : ℕ) → 25 * 80 ≤ j → s'.cells j ≡ s.cells j

module _ {D : Type 0} where
  pub Within-trans : {s t u : Screen D} → Within s t → Within t u → Within s u
  Within-trans a b = record {
    on_screen = b.on_screen;
    same_color = b.same_color ∙ a.same_color;
    behind = λ j h. b.behind j h ∙ a.behind j h;
  }

  -- A line feed at any row of the screen; the column is not looked at.
  newline-Within : (s : Screen D) → s.row < 25 → Within s (vga_newline s)
  unfolding vga_newline vga_scroll
  newline-Within s h = record {
    on_screen = ground arith;
    same_color = ground arith;
    behind = λ j far. ground (arith, vga_scroll_lem (record s { col = 0; row = s.row + 1 }) j);
  }

  newline_after :
      (s t : Screen D)
      → t.row < 25
      → t.color ≡ s.color
      → ((j : ℕ) → 25 * 80 ≤ j → t.cells j ≡ s.cells j)
      → Within s (vga_newline t)
  newline_after s t row color behind =
      let next = newline-Within t row in
      record {
        on_screen = next.on_screen;
        same_color = next.same_color ∙ color;
        behind = λ j far. next.behind j far ∙ behind j far;
      }

  put_visible-Within : (c : ℕ) (s : Screen D) → OnScreen s → Within s (put_visible c s)
  unfolding put_visible
  put_visible-Within c s on =
      let cells = write_cell (s.row * 80 + s.col) (vga_entry c s.color) s.cells in
      let kept : (j : ℕ) → 25 * 80 ≤ j → cells j ≡ s.cells j = λ j far. ground arith in
      let next = newline_after s (record s { cells = cells; col = s.col + 1 }) (on.0) refl kept in
      elim (Bool-cases (leb 80 (s.col + 1))) [
        | inl full ↦ rw full next
        | inr room ↦
            rw room (record { on_screen = (on.0, ground arith); same_color = refl; behind = kept })
      ]

  put_tab-Within : (s : Screen D) → OnScreen s → Within s (put_tab s)
  unfolding put_tab
  put_tab-Within s on =
      let col = bit_and (s.col + 8) (2 ^ 32 - 8) in
      let next = newline_after s (record s { col = col }) (on.0) refl (λ j far. refl) in
      elim (Bool-cases (leb 80 col)) [
        | inl full ↦ rw full next
        | inr room ↦
            rw room (record {
              on_screen = (on.0, ground arith);
              same_color = refl;
              behind = λ j far. refl;
            })
      ]

  pub put_switch-Within : (c : ℕ) (s : Screen D) → OnScreen s → Within s (put_switch c s)
  unfolding put_switch
  put_switch-Within c s on =
      let stay : (col : ℕ) → col < 80 → Within s (record s { col = col }) =
        λ col h. record { on_screen = (on.0, h); same_color = refl; behind = λ j far. refl } in
      if-Within (c == 10) (newline-Within s (on.0)) (
        if-Within (c == 13) (stay 0 (omega arith)) (
          if-Within (c == 9) (put_tab-Within s on) (
            if-Within (c == 8)
              (if-Within (ltb 0 s.col) (stay (s.col - 1) (omega arith)) (stay s.col (on.1)))
              (put_visible-Within c s on))))
    where
      if-Within :
          {t u : Screen D} (b : Bool) → Within s t → Within s u → Within s (if b then t else u)
      if-Within true x y = x
      if-Within false x y = y

module _ {D : Type 0} (bus : Bus D) where
  -- Any character, printed on a screen with the cursor at row < 25 and column < 80, leaves the cursor
  -- there, keeps the colour, and changes no memory behind the 2000 cells of the text buffer.
  pub vga_putchar-Within : (c : ℕ) (s : Screen D) → OnScreen s → Within s (vga_putchar bus c s)
  unfolding vga_putchar vga_update_cursor
  vga_putchar-Within c s on =
      let inner = put_switch-Within c s on in
      record { on_screen = inner.on_screen; same_color = inner.same_color; behind = inner.behind }

  pub vga_puts-Within : (cs : List ℕ) (s : Screen D) → OnScreen s → Within s (vga_puts bus cs s)
  unfolding vga_puts
  vga_puts-Within [] s on = record { on_screen = on; same_color = refl; behind = λ j far. refl }
  vga_puts-Within (c ∷ cs) s on =
      let first = vga_putchar-Within c s on in
      Within-trans first (vga_puts-Within cs (vga_putchar bus c s) first.on_screen)
