-- ===== src/Vga/Format.antt =====
-- src/vga.c, formatted output: `vga_put_uint` and `vga_printf`. A format and its arguments are
-- lists; reading an argument that is missing or of another kind is undefined in C, and stops here.
use god_os.Base.{
  ℕ, zero, suc, ◌+◌, ◌-◌, ◌*◌, ◌/◌, ◌%◌, ◌^◌, ◌==◌, ltb, leb, if◌then◌else◌, Bool, true, false,
  ◌&&◌, ◌||◌, Option, none, some, List, [], ◌∷◌, length,
}
use god_os.Io.{Bus}
use god_os.Vga.{Screen, vga_putchar, vga_puts}

unfoldable pub digit_char : Bool → ℕ → ℕ
digit_char upper d = if ltb d 10 then b'0' + d else (if upper then b'A' else b'a') + (d - 10)

-- The `while (value > 0)` of `vga_put_uint`; the last digit stored stands first.
unfoldable pub collect : ℕ → Bool → ℕ → ℕ → List ℕ → List ℕ
collect base upper zero value digits = digits
collect base upper (suc fuel) value digits = elim (value == 0) [
  | true ↦ digits
  | false ↦ collect base upper fuel (value / base) (digit_char upper (value % base) ∷ digits)
]

-- `digits[n - 1]` to `digits[0]`; a 64-bit value has at most 64 digits in any base.
unfoldable pub digits_of : ℕ → Bool → ℕ → List ℕ
digits_of base upper value = if value == 0 then b'0' ∷ [] else collect base upper 64 value []

-- What stands between the `%` and the conversion character, that character (none at the end of the
-- format) and the format behind it.
pub record Conversion : Type 0 where
  pub zero_pad : Bool
  pub width : ℕ
  pub is64 : Bool
  pub conversion : Option ℕ
  pub rest : List ℕ

abbrev pub is_digit : ℕ → Bool
is_digit c = leb b'0' c && leb c b'9'

unfoldable pub parse_flag : List ℕ → Bool × List ℕ
parse_flag [] = (false, [])
parse_flag (c ∷ p) = if c == b'0' then (true, p) else (false, c ∷ p)

unfoldable pub parse_width : ℕ → List ℕ → ℕ × List ℕ
parse_width width [] = (width, [])
parse_width width (c ∷ p) =
    let longer = parse_width (width * 10 + (c - b'0')) p in
    if is_digit c then longer else (width, c ∷ p)

-- The second `l` of `ll`, or of `zl`.
unfoldable pub skip_l : List ℕ → List ℕ
skip_l [] = []
skip_l (c ∷ p) = if c == b'l' then p else c ∷ p

unfoldable pub parse_length : List ℕ → Bool × List ℕ
parse_length [] = (false, [])
parse_length (c ∷ p) = if (c == b'l') || (c == b'z') then (true, skip_l p) else (false, c ∷ p)

unfoldable pub split_first : List ℕ → Option ℕ × List ℕ
split_first [] = (none, [])
split_first (c ∷ p) = (some c, p)

unfoldable pub parse_conversion : List ℕ → Conversion
parse_conversion p =
    let (zero_pad, p) = parse_flag p in
    let (width, p) = parse_width 0 p in
    let (is64, p) = parse_length p in
    let (conversion, rest) = split_first p in
    record { zero_pad = zero_pad; width = width; is64 = is64; conversion = conversion; rest = rest }

-- A variadic argument: an integer or a pointer as its 64 bits, or a string.
pub data Arg : Type 0 where
  word : ℕ → Arg
  text : List ℕ → Arg

-- `va_arg` for an integer and for a string.
unfoldable pub next_word : List Arg → Option (ℕ × List Arg)
next_word (word w ∷ args) = some (w % 2 ^ 64, args)
next_word _ = none

unfoldable pub next_text : List Arg → Option (List ℕ × List Arg)
next_text (text cs ∷ args) = some (cs, args)
next_text _ = none

-- `(int64_t)va_arg(ap, int)`
abbrev sign_extend : ℕ → ℕ
sign_extend w = if ltb (w % 2 ^ 32) (2 ^ 31) then w % 2 ^ 32 else 2 ^ 64 - 2 ^ 32 + w % 2 ^ 32

abbrev pub signed_arg : Bool → ℕ → ℕ
signed_arg is64 w = if is64 then w else sign_extend w

abbrev pub unsigned_arg : Bool → ℕ → ℕ
unsigned_arg is64 w = if is64 then w else w % 2 ^ 32

-- How a `vga_printf` ends.
pub data Printed (A : Type 0) : Type 0 where
  done : A → Printed A
  bad_argument : Printed A
  out_of_fuel : Printed A

module _ {D : Type 0} (bus : Bus D) where
  -- `for (i = n; i < width; i++) vga_putchar(pad)`, with `width - n` rounds.
  unfoldable pub put_pad : ℕ → ℕ → Screen D → Screen D
  put_pad zero pad s = s
  put_pad (suc n) pad s = put_pad n pad (vga_putchar bus pad s)

  unfoldable pub vga_put_uint : ℕ → ℕ → ℕ → ℕ → Bool → Screen D → Screen D
  vga_put_uint value base width pad upper s =
      let digits = digits_of base upper value in
      vga_puts bus digits (put_pad (width - length digits) pad s)

  -- The case 'd', with the value as its 64 bits: `(uint64_t)(~sv) + 1` for a negative one.
  unfoldable pub put_signed : ℕ → ℕ → ℕ → Screen D → Screen D
  put_signed value width pad s =
      if leb (2 ^ 63) value
      then vga_put_uint ((2 ^ 64 - 1 - value + 1) % 2 ^ 64) 10 width pad false
          (vga_putchar bus b'-' s)
      else vga_put_uint value 10 width pad false s

  -- The cases of the switch that read an integer.
  unfoldable pub put_word : ℕ → Conversion → ℕ → Screen D → Screen D
  put_word c spec w s =
      let pad = if spec.zero_pad then b'0' else b' ' in
      if c == b'c'
      then vga_putchar bus (w % 256) s
      else if c == b'd'
      then put_signed (signed_arg spec.is64 w) spec.width pad s
      else if c == b'u'
      then vga_put_uint (unsigned_arg spec.is64 w) 10 spec.width pad false s
      else if c == b'p'
      then vga_put_uint w 16 16 b'0' false (vga_puts bus (b'0' ∷ b'x' ∷ []) s)
      else vga_put_uint (unsigned_arg spec.is64 w) 16 spec.width pad (c == b'X') s

  abbrev pub reads_word : ℕ → Bool
  reads_word c =
      (c == b'c') || (c == b'd') || (c == b'u') || (c == b'x') || (c == b'X') || (c == b'p')

  unfoldable pub with_word :
      ℕ → Conversion → Option (ℕ × List Arg) → Screen D → Option (List Arg × Screen D)
  with_word c spec none s = none
  with_word c spec (some (w, args)) s = some (args, put_word c spec w s)

  unfoldable pub with_text : Option (List ℕ × List Arg) → Screen D → Option (List Arg × Screen D)
  with_text none s = none
  with_text (some (cs, args)) s = some (args, vga_puts bus cs s)

  -- The switch on the conversion character; an unknown one prints nothing.
  unfoldable pub convert : ℕ → Conversion → List Arg → Screen D → Option (List Arg × Screen D)
  convert c spec args s =
      if reads_word c
      then with_word c spec (next_word args) s
      else if c == b's'
      then with_text (next_text args) s
      else if c == b'%'
      then some (args, vga_putchar bus b'%' s)
      else some (args, s)

  -- The loop over the format.
  unfoldable pub print_loop : ℕ → List ℕ → List Arg → Screen D → Printed (Screen D)
  print_loop zero fmt args s = out_of_fuel
  print_loop (suc fuel) [] args s = done s
  print_loop (suc fuel) (c ∷ p) args s = elim (c == b'%') [
    | false ↦ print_loop fuel p args (vga_putchar bus c s)
    | true ↦
        let spec = parse_conversion p in
        elim spec.conversion [
          | none ↦ done s
          | some conv ↦ elim (convert conv spec args s) [
            | none ↦ bad_argument
            | some (args', s') ↦ print_loop fuel spec.rest args' s'
          ]
        ]
  ]

  -- Every round takes a character of the format at least.
  unfoldable pub vga_printf : List ℕ → List Arg → Screen D → Printed (Screen D)
  vga_printf fmt args s = print_loop (length fmt + 1) fmt args s
