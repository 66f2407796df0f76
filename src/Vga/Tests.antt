-- ===== src/Vga/Tests.antt =====
-- Runs of src/vga.c on a model of the CRT controller, and its theorems at concrete inputs.
use god_os.Base.{
  ℕ, false, ◌≡◌, ◌≢◌, ◌≤◌, ◌+◌, ◌*◌, refl, inr, true, ◌==◌, if◌then◌else◌, List, [], ◌∷◌, length,
  get_or, arith,
}
use god_os.Io.{Bus}
use god_os.Vga.{Screen, vga_entry, vga_putchar, vga_puts}
use god_os.Vga.Bounds.{Within}
use god_os.Vga.Cursor.{IsCrtc}
use god_os.Vga.Scroll.{at, vga_entry_lem, vga_putchar-drawn}
use god_os.Vga.Digits.{digit_value, read_on, digits_of-read}
use god_os.Vga.Format.{
  word, digits_of, parse_conversion, parse_flag, parse_width, parse_length, split_first, collect,
  digit_char, vga_printf, done, out_of_fuel,
}
use god_os.Vga.Render.{Prints, finish, plain, item, upper_hex}
use god_os.Base.Text.{codes}
use god_os.Vga.Directives.{Directive, int, size, Means, end, copy, directive, high_hex, natural}
use god_os.Vga.Spelled.{vga_printf-Means}
use god_os.Vga.Refine.{vga_printf-ends}
use god_os.Vga.Stays.{vga_printf-Within}

-- A controller with an index and registers.
record Crtc : Type 0 where
  selected : ℕ
  registers : ℕ → ℕ

abbrev write_port : ℕ → ℕ → Crtc → Crtc
write_port port v d =
    if port == 0x3D4
    then record d { selected = v }
    else record d { registers = λ i. if i == d.selected then v else d.registers i }

abbrev crtc_bus : Bus Crtc
crtc_bus = record { outb = write_port; inb = λ port d. (d.registers d.selected, d) }

abbrev crtc_bus-IsCrtc : IsCrtc crtc_bus
crtc_bus-IsCrtc = record {
  index = λ d. d.selected;
  register = λ d i. d.registers i;
  select = λ v d. refl;
  select_keeps = λ v i d. refl;
  write_index = λ v d. refl;
  write = λ v i d lo hi. refl;
}

abbrev screen : ℕ → ℕ → Screen Crtc
screen row col = record {
  cells = λ i. i;
  row = row;
  col = col;
  color = 0x07;
  devices = record { selected = 0; registers = λ i. 0 };
}

vga_putchar-drawn_example :
    let s' = vga_putchar crtc_bus b'A' (screen 24 79) in
    (at s' 23 79 ≡ vga_entry b'A' 0x07) × (s'.row * 80 + s'.col ≡ 24 * 80)
vga_putchar-drawn_example =
    vga_putchar-drawn crtc_bus b'A' (screen 24 79) 23 79 refl (omega arith, omega arith)
      (omega arith) (omega arith)

digits_of-read_example :
    (read_on 16 0 (digits_of 16 true 0xBEEF) ≡ 0xBEEF)
    × (length (digits_of 16 true 0xBEEF) ≤ 24)
    × ((digit_value (get_or (digits_of 16 true 0xBEEF) 0 0) == 0) ≡ false)
digits_of-read_example = digits_of-read 16 0xBEEF true (inr refl) (omega arith)

-- "v=%02X\n"
abbrev format : List ℕ
format = b'v' ∷ b'=' ∷ b'%' ∷ b'0' ∷ b'2' ∷ b'X' ∷ 10 ∷ []

format-Prints : Prints format (word 0xE ∷ []) (b'v' ∷ b'=' ∷ b'0' ∷ b'E' ∷ 10 ∷ [])
unfolding parse_conversion parse_flag parse_width parse_length split_first digits_of collect
    digit_char
format-Prints =
    let tail = b'0' ∷ b'2' ∷ b'X' ∷ 10 ∷ [] in
    plain (omega arith) (
      plain (omega arith)
        (item {c = b'X'} {p = tail} refl (upper_hex {w = 0xE}) (plain (omega arith) finish)))

-- "v=%02X %12zu\n"
abbrev spelled : List ℕ
spelled = codes "v=%02X %12zu\n"

spelled-Means : Means spelled (word 0xE ∷ word 7 ∷ []) (codes "v=0E            7\n")
unfolding digits_of collect digit_char read_on digit_value
spelled-Means =
    let byte : Directive = record { zeros = true; digits = b'2' ∷ []; length = int; kind = b'X' } in
    let count : Directive = record {
      zeros = false;
      digits = b'1' ∷ b'2' ∷ [];
      length = size;
      kind = b'u';
    } in
    copy (omega arith) (
      copy (omega arith) (
        directive {d = byte} ((omega arith, omega arith), tt) (λ e. omega arith)
          (high_hex {w = 0xE} refl)
          (copy (omega arith) (
            directive {d = count} ((omega arith, omega arith), ((omega arith, omega arith), tt))
              (λ e. omega arith) (natural {w = 7} refl) (copy (omega arith) end)))))

vga_printf-Means_example :
    vga_printf crtc_bus spelled (word 0xE ∷ word 7 ∷ []) (screen 0 0)
    ≡ done (vga_puts crtc_bus (codes "v=0E            7\n") (screen 0 0))
vga_printf-Means_example = vga_printf-Means crtc_bus (screen 0 0) spelled-Means

vga_printf-ends_example : vga_printf crtc_bus (b'%' ∷ b's' ∷ []) [] (screen 0 0) ≢ out_of_fuel
vga_printf-ends_example = vga_printf-ends crtc_bus (b'%' ∷ b's' ∷ []) [] (screen 0 0)

vga_printf-Within_example :
    (s' : Screen Crtc) × (vga_printf crtc_bus format (word 0xE ∷ []) (screen 24 78) ≡ done s')
    × Within (screen 24 78) s'
vga_printf-Within_example =
    vga_printf-Within crtc_bus (screen 24 78) format-Prints (omega arith, omega arith)

vga_entry_lem_example : vga_entry 0xE4 0x07 ≡ 0xFFE4
vga_entry_lem_example = vga_entry_lem 0xE4 0x07 (omega arith) (omega arith)
