-- ===== src/Vga/Render.antt =====
-- The language of formats that `vga_printf` of src/vga.c promises, and that it prints them.
use god_os.Base.{
  ℕ, ◌+◌, ◌-◌, ◌*◌, ◌%◌, ◌^◌, ◌≤◌, ◌<◌, ◌≡◌, ◌≢◌, if◌then◌else◌, Bool, true, false, arith, List, [],
  ◌∷◌, ◌++◌, length, replicate, Bool-cases, none, some, inl, inr,
}
use god_os.Vga.Format.{
  Arg, word, text, Conversion, is_digit, parse_flag, parse_width, skip_l, parse_length, split_first,
  parse_conversion, signed_arg, unsigned_arg, digits_of,
}

-- The characters of a number: padded on the left to a width, which does not count a sign.
abbrev pub padded : ℕ → ℕ → List ℕ → List ℕ
padded width pad digits = replicate (width - length digits) pad ++ digits

abbrev pub pad_of : Conversion → ℕ
pad_of spec = if spec.zero_pad then b'0' else b' '

abbrev pub decimal : Conversion → ℕ → List ℕ
decimal spec v = padded spec.width (pad_of spec) (digits_of 10 false v)

abbrev pub hexadecimal : Bool → Conversion → ℕ → List ℕ
hexadecimal upper spec v = padded spec.width (pad_of spec) (digits_of 16 upper v)

-- What a conversion takes of the arguments and prints.
pub data Item (spec : Conversion) : ℕ → List Arg → List Arg → List ℕ → Type 0 where
  percent : {args : List Arg} → Item spec b'%' args args (b'%' ∷ [])
  char : {w : ℕ} {args : List Arg} → Item spec b'c' (word w ∷ args) args (w % 2 ^ 64 % 256 ∷ [])
  string : {cs : List ℕ} {args : List Arg} → Item spec b's' (text cs ∷ args) args cs
  unsigned :
      {w : ℕ} {args : List Arg}
      → Item spec b'u' (word w ∷ args) args (decimal spec (unsigned_arg spec.is64 (w % 2 ^ 64)))
  nonnegative :
      {w v : ℕ} {args : List Arg}
      → signed_arg spec.is64 (w % 2 ^ 64) ≡ v
      → v < 2 ^ 63
      → Item spec b'd' (word w ∷ args) args (decimal spec v)
  negative :
      {w v : ℕ} {args : List Arg}
      → signed_arg spec.is64 (w % 2 ^ 64) + v ≡ 2 ^ 64
      → 0 < v
      → v ≤ 2 ^ 63
      → Item spec b'd' (word w ∷ args) args (b'-' ∷ decimal spec v)
  lower_hex :
      {w : ℕ} {args : List Arg}
      → Item spec b'x'
          (word w ∷ args)
          args
          (hexadecimal false spec (unsigned_arg spec.is64 (w % 2 ^ 64)))
  upper_hex :
      {w : ℕ} {args : List Arg}
      → Item spec b'X'
          (word w ∷ args)
          args
          (hexadecimal true spec (unsigned_arg spec.is64 (w % 2 ^ 64)))
  pointer :
      {w : ℕ} {args : List Arg}
      → Item spec b'p'
          (word w ∷ args)
          args
          (b'0' ∷ b'x' ∷ padded 16 b'0' (digits_of 16 false (w % 2 ^ 64)))

-- A format with arguments prints characters. A `%` at the end of the format ends it.
pub data Prints : List ℕ → List Arg → List ℕ → Type 0 where
  finish : {args : List Arg} → Prints [] args []
  plain :
      {c : ℕ} {p out : List ℕ} {args : List Arg}
      → c ≢ b'%'
      → Prints p args out
      → Prints (c ∷ p) args (c ∷ out)
  item :
      {c : ℕ} {p out piece : List ℕ} {args args' : List Arg}
      → (parse_conversion p).conversion ≡ some c
      → Item (parse_conversion p) c args args' piece
      → Prints (parse_conversion p).rest args' out
      → Prints (b'%' ∷ p) args (piece ++ out)
  cut_off :
      {p : List ℕ} {args : List Arg}
      → (parse_conversion p).conversion ≡ none
      → Prints (b'%' ∷ p) args []

-- Parsing does not add characters, and a conversion character is one less.
parse_width-length : (w : ℕ) (p : List ℕ) → length (parse_width w p).1 ≤ length p
unfolding parse_width
parse_width-length w [] = omega arith
parse_width-length w (c ∷ p) =
    let later = parse_width-length (w * 10 + (c - b'0')) p in
    elim (Bool-cases (is_digit c)) [
      | inl yes' ↦ rw yes' (omega (arith, later))
      | inr no' ↦ rw no' (omega arith)
    ]

parse_flag-length : (p : List ℕ) → length (parse_flag p).1 ≤ length p
unfolding parse_flag
parse_flag-length [] = omega arith
parse_flag-length (c ∷ p) = ground arith

parse_length-length : (p : List ℕ) → length (parse_length p).1 ≤ length p
unfolding parse_length skip_l
parse_length-length [] = omega arith
parse_length-length (c ∷ []) = ground arith
parse_length-length (c ∷ c' ∷ p) = ground arith

split_first-length :
    (p : List ℕ) (c : ℕ) → (split_first p).0 ≡ some c → length (split_first p).1 < length p
unfolding split_first
split_first-length [] c e = absurd (ground arith)
split_first-length (x ∷ p) c e = omega arith

pub parse_conversion-length :
    (p : List ℕ) (c : ℕ)
    → (parse_conversion p).conversion ≡ some c
    → length (parse_conversion p).rest < length p
unfolding parse_conversion
parse_conversion-length p c e =
    let (flag, p1) = parse_flag p in
    let (width, p2) = parse_width 0 (parse_flag p).1 in
    omega (
      arith,
      parse_flag-length p,
      parse_width-length 0 (parse_flag p).1,
      parse_length-length (parse_width 0 (parse_flag p).1).1,
      split_first-length (parse_length (parse_width 0 (parse_flag p).1).1).1 c e,
    )
