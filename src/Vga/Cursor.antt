-- ===== src/Vga/Cursor.antt =====
-- The hardware cursor of src/vga.c: registers 0x0E and 0x0F of the CRT controller.
use god_os.Base.{
  ℕ, ◌+◌, ◌*◌, ◌/◌, ◌%◌, ◌^◌, ◌≤◌, ◌≡◌, refl, ◌∙◌, ◌==◌, if◌then◌else◌, arith, bit_and, ==_refl,
  false,
}
use god_os.Base.Bits.{bit_and-mask}
use god_os.Io.{Bus}
use god_os.Vga.{Screen, vga_update_cursor, vga_putchar, put_switch}
use god_os.Vga.Bounds.{OnScreen, put_switch-Within}

-- What the driver relies on: port 0x3D4 selects a register, and a byte written to 0x3D5 is kept by
-- the selected one. Stated for the two registers of the cursor position, which have all 8 bits.
pub record IsCrtc {D : Type 0} (bus : Bus D) : Type 0 where
  pub index : D → ℕ
  pub register : D → ℕ → ℕ
  pub select : (v : ℕ) (d : D) → index (bus.outb 0x3D4 v d) ≡ v
  pub select_keeps : (v i : ℕ) (d : D) → register (bus.outb 0x3D4 v d) i ≡ register d i
  pub write_index : (v : ℕ) (d : D) → index (bus.outb 0x3D5 v d) ≡ index d
  pub write :
      (v i : ℕ) (d : D)
      → 0x0E ≤ i
      → i ≤ 0x0F
      → register (bus.outb 0x3D5 v d) i ≡ (if i == index d then v else register d i)

module _ {D : Type 0} {bus : Bus D} (crtc : IsCrtc bus) where
  -- The position that the controller shows.
  abbrev pub shown : Screen D → ℕ
  shown s = crtc.register s.devices 0x0E * 256 + crtc.register s.devices 0x0F

  -- A register written through the two ports, and one that is not.
  selected :
      (i v : ℕ) (d : D)
      → 0x0E ≤ i
      → i ≤ 0x0F
      → crtc.register (bus.outb 0x3D5 v (bus.outb 0x3D4 i d)) i ≡ v
  selected i v d lo hi =
      let e = bus.outb 0x3D4 i d in crtc.write v i e lo hi ∙ rw (crtc.select i d, ==_refl i)

  other :
      (i j v : ℕ) (d : D)
      → 0x0E ≤ j
      → j ≤ 0x0F
      → (j == i) ≡ false
      → crtc.register (bus.outb 0x3D5 v (bus.outb 0x3D4 i d)) j ≡ crtc.register d j
  other i j v d lo hi ne =
      let e = bus.outb 0x3D4 i d in
      crtc.write v j e lo hi ∙ rw (crtc.select i d, ne) (crtc.select_keeps i j d)

  update_cursor_lem :
      (s : Screen D) → OnScreen s → shown (vga_update_cursor bus s) ≡ s.row * 80 + s.col
  unfolding vga_update_cursor
  update_cursor_lem s on =
      let pos = (s.row * 80 + s.col) % 2 ^ 16 in
      let low = bit_and pos 0xFF % 256 in
      let d = bus.outb 0x3D5 low (bus.outb 0x3D4 0x0F s.devices) in
      let high = selected 0x0E (pos / 2 ^ 8 % 256) d (omega arith) (omega arith) in
      let kept = other 0x0E 0x0F (pos / 2 ^ 8 % 256) d (omega arith) (omega arith) refl in
      let first = selected 0x0F low s.devices (omega arith) (omega arith) in
      omega (arith, high, kept, first, bit_and-mask 8 pos)

  -- After any character, printed on a screen with the cursor at row < 25 and column < 80, the
  -- registers of the CRT controller hold the position row * 80 + column of the cursor.
  pub vga_putchar-shown :
      (c : ℕ) (s : Screen D)
      → OnScreen s
      → shown (vga_putchar bus c s) ≡ (vga_putchar bus c s).row * 80 + (vga_putchar bus c s).col
  unfolding vga_putchar vga_update_cursor
  vga_putchar-shown c s on = update_cursor_lem (put_switch c s) (put_switch-Within c s on).on_screen
