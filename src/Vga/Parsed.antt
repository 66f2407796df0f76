-- ===== src/Vga/Parsed.antt =====
-- What `vga_printf` of src/vga.c reads of a directive that is spelled in a format.
use god_os.Base.{
  ℕ, ◌+◌, ◌-◌, ◌*◌, ◌≡◌, ◌≢◌, refl, sym, ltb, if◌then◌else◌, Bool, true, false, arith, List, [],
  ◌∷◌, ◌++◌, some,
}
use mathlib.Core.Path.{subst}
use god_os.Vga.Format.{
  Arg, Conversion, parse_flag, parse_width, skip_l, parse_length, split_first, parse_conversion,
  is_digit,
}
use god_os.Vga.Digits.{read_on, digit_value}
use god_os.Vga.Directives.{
  Size, int, long, long_long, size, size_long, letters, Directive, spell, AllDigits, Starts, Shown,
  sign, character, words, natural, positive, minus, low_hex, high_hex, address,
}

-- The characters that a conversion can be.
abbrev IsKind : ℕ → Type 0
IsKind c = (is_digit c ≡ false) × (c ≢ b'l') × (c ≢ b'z') × (c ≢ b'0')

pub Shown-IsKind :
    {d : Directive} {args args' : List Arg} {piece : List ℕ}
    → Shown d args args' piece
    → IsKind d.kind
Shown-IsKind (sign e) = subst IsKind (sym e) (refl, omega arith, omega arith, omega arith)
Shown-IsKind (character e) = subst IsKind (sym e) (refl, omega arith, omega arith, omega arith)
Shown-IsKind (words e) = subst IsKind (sym e) (refl, omega arith, omega arith, omega arith)
Shown-IsKind (natural e) = subst IsKind (sym e) (refl, omega arith, omega arith, omega arith)
Shown-IsKind (positive e h) = subst IsKind (sym e) (refl, omega arith, omega arith, omega arith)
Shown-IsKind (minus e h) = subst IsKind (sym e) (refl, omega arith, omega arith, omega arith)
Shown-IsKind (low_hex e) = subst IsKind (sym e) (refl, omega arith, omega arith, omega arith)
Shown-IsKind (high_hex e) = subst IsKind (sym e) (refl, omega arith, omega arith, omega arith)
Shown-IsKind (address e) = subst IsKind (sym e) (refl, omega arith, omega arith, omega arith)

abbrev pub wide : Size → Bool
wide int = false
wide _ = true

parse_length-letters :
    (l : Size) (c : ℕ) (p : List ℕ)
    → IsKind c
    → parse_length (letters l ++ (c ∷ p)) ≡ (wide l, c ∷ p)
unfolding parse_length skip_l
parse_length-letters int c p (a, b, e, f) = ground arith
parse_length-letters long c p (a, b, e, f) = ground arith
parse_length-letters long_long c p k = refl
parse_length-letters size c p (a, b, e, f) = ground arith
parse_length-letters size_long c p k = refl

-- What follows the digits is no digit.
parse_width-stop :
    (n : ℕ) (l : Size) (c : ℕ) (p : List ℕ)
    → IsKind c
    → parse_width n (letters l ++ (c ∷ p)) ≡ (n, letters l ++ (c ∷ p))
unfolding parse_width
parse_width-stop n int c p (a, _, _, _) = rw a
parse_width-stop n long c p k = refl
parse_width-stop n long_long c p k = refl
parse_width-stop n size c p k = refl
parse_width-stop n size_long c p k = refl

parse_width-digits :
    (n : ℕ) (cs q : List ℕ)
    → AllDigits cs
    → ((m : ℕ) → parse_width m q ≡ (m, q))
    → parse_width n (cs ++ q) ≡ (read_on 10 n cs, q)
unfolding parse_width read_on digit_value
parse_width-digits n [] q all stop = stop n
parse_width-digits n (c ∷ cs) q ((lo, hi), all) stop =
    let digit : is_digit c ≡ true = ground arith in
    let value : (if ltb c b'A'
          then c - b'0'
          else if ltb c b'a'
          then c - b'A' + 10
          else c - b'a' + 10)
        ≡ c - b'0' =
      ground arith in
    rw (digit, value) (parse_width-digits (n * 10 + (c - b'0')) cs q all stop)

parse_flag-other : (c : ℕ) (p : List ℕ) → c ≢ b'0' → parse_flag (c ∷ p) ≡ (false, c ∷ p)
unfolding parse_flag
parse_flag-other c p ne = ground arith

parse_flag-none :
    (cs : List ℕ) (l : Size) (c : ℕ) (p : List ℕ)
    → Starts cs
    → IsKind c
    → parse_flag (cs ++ (letters l ++ (c ∷ p))) ≡ (false, cs ++ (letters l ++ (c ∷ p)))
parse_flag-none (x ∷ cs) l c p ne k = parse_flag-other x _ ne
parse_flag-none [] int c p s (_, _, _, ne) = parse_flag-other c p ne
parse_flag-none [] long c p s k = parse_flag-other b'l' _ (omega arith)
parse_flag-none [] long_long c p s k = parse_flag-other b'l' _ (omega arith)
parse_flag-none [] size c p s k = parse_flag-other b'z' _ (omega arith)
parse_flag-none [] size_long c p s k = parse_flag-other b'z' _ (omega arith)

flagged :
    (zeros : Bool) (cs : List ℕ) (l : Size) (c : ℕ) (p : List ℕ)
    → (zeros ≡ false → Starts cs)
    → IsKind c
    → parse_flag ((if zeros then b'0' ∷ [] else []) ++ (cs ++ (letters l ++ (c ∷ p))))
      ≡ (zeros, cs ++ (letters l ++ (c ∷ p)))
unfolding parse_flag
flagged true cs l c p s k = refl
flagged false cs l c p s k = parse_flag-none cs l c p (s refl) k

-- What the code reads of a directive.
abbrev pub reading : Directive → List ℕ → Conversion
reading d p = record {
  zero_pad = d.zeros;
  width = read_on 10 0 d.digits;
  is64 = wide d.length;
  conversion = some d.kind;
  rest = p;
}

pub parse_conversion-spell :
    (d : Directive) (p : List ℕ)
    → AllDigits d.digits
    → (d.zeros ≡ false → Starts d.digits)
    → IsKind d.kind
    → parse_conversion (spell d p) ≡ reading d p
unfolding parse_conversion split_first
parse_conversion-spell d p all s k =
    let a = flagged d.zeros d.digits d.length d.kind p s k in
    let b =
      parse_width-digits 0 d.digits (letters d.length ++ (d.kind ∷ p)) all
        (λ m. parse_width-stop m d.length d.kind p k) in
    let c = parse_length-letters d.length d.kind p k in rw (a, b, c)
