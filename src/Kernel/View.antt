-- ===== src/Kernel/View.antt =====
-- What is to be seen of a screen of src/vga.c does not depend on the devices behind its cursor.
use god_os.Base.{
  ℕ, ◌+◌, ◌*◌, ◌-◌, ◌%◌, ◌^◌, ◌≡◌, refl, ap, sym, ◌∙◌, Option, List, [], ◌∷◌, arith, ◌==◌, ltb, leb,
  if◌then◌else◌, Bool, true, false, Bool-cases, inl, inr,
}
use god_os.Io.{Bus}
use god_os.Vga.{
  Screen, vga_scroll, vga_newline, put_visible, put_tab, put_switch, vga_update_cursor, vga_putchar,
}

pub data Nothing : Type 0 where
  nothing : Nothing

-- Ports without devices, and a screen without them.
abbrev pub no_bus : Bus Nothing
no_bus = record { outb = λ p v d. d; inb = λ p d. (0, d) }

abbrev pub look : {D : Type 0} → Screen D → Screen Nothing
look s = record { cells = s.cells; row = s.row; col = s.col; color = s.color; devices = nothing }

newline-look : {D : Type 0} (s : Screen D) → look (vga_newline s) ≡ vga_newline (look s)
unfolding vga_newline vga_scroll
newline-look s = elim (Bool-cases (leb 25 (s.row + 1))) [ inl full ↦ rw full | inr room ↦ rw room ]

put_visible-look :
    {D : Type 0} (c : ℕ) (s : Screen D) → look (put_visible c s) ≡ put_visible c (look s)
unfolding put_visible
put_visible-look c s = elim (Bool-cases (leb 80 (s.col + 1))) [
  | inl full ↦ rw full (newline-look _)
  | inr room ↦ rw room
]

put_tab-look : {D : Type 0} (s : Screen D) → look (put_tab s) ≡ put_tab (look s)
unfolding put_tab
put_tab-look s = elim (Bool-cases (leb 80 (god_os.Base.bit_and (s.col + 8) (2 ^ 32 - 8)))) [
  | inl full ↦ rw full (newline-look _)
  | inr room ↦ rw room
]

put_switch-look :
    {D : Type 0} (c : ℕ) (s : Screen D) → look (put_switch c s) ≡ put_switch c (look s)
unfolding put_switch
put_switch-look c s = elim (Bool-cases (c == 10)) [
  | inl line ↦ rw line (newline-look s)
  | inr a ↦ elim (Bool-cases (c == 13)) [
    | inl return ↦ rw (a, return)
    | inr b ↦ elim (Bool-cases (c == 9)) [
      | inl tab ↦ rw (a, b, tab) (put_tab-look s)
      | inr d ↦ elim (Bool-cases (c == 8)) [
        | inl back ↦ elim (Bool-cases (ltb 0 s.col)) [
          | inl room ↦ rw (a, b, d, back, room)
          | inr edge ↦ rw (a, b, d, back, edge)
        ]
        | inr e ↦ rw (a, b, d, e) (put_visible-look c s)
      ]
    ]
  ]
]

pub vga_putchar-look :
    {D : Type 0} (bus : Bus D) (c : ℕ) (s : Screen D)
    → look (vga_putchar bus c s) ≡ vga_putchar no_bus c (look s)
unfolding vga_putchar vga_update_cursor
vga_putchar-look bus c s = put_switch-look c s
