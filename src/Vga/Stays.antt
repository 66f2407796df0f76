-- ===== src/Vga/Stays.antt =====
-- Formatted output of src/vga.c stays on the screen.
use god_os.Base.{ℕ, ◌≡◌, List}
use god_os.Io.{Bus}
use god_os.Vga.{Screen, vga_puts}
use god_os.Vga.Bounds.{OnScreen, Within, vga_puts-Within}
use god_os.Vga.Format.{Arg, done, vga_printf}
use god_os.Vga.Render.{Prints}
use god_os.Vga.Refine.{vga_printf-Prints}

-- With arguments that the format language gives the format, and the cursor at row < 25 and column < 80,
-- `vga_printf` ends in a screen whose cursor is there again, with the same colour, and has written no
-- memory behind the 2000 cells of the text buffer.
pub vga_printf-Within :
    {D : Type 0} (bus : Bus D) {fmt out : List ℕ} {args : List Arg} (s : Screen D)
    → Prints fmt args out
    → OnScreen s
    → (s' : Screen D) × (vga_printf bus fmt args s ≡ done s') × Within s s'
vga_printf-Within bus {out = out} s prints on =
    (vga_puts bus out s, vga_printf-Prints bus s prints, vga_puts-Within bus out s on)
