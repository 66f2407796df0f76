-- ===== src/Vga/Spelled.antt =====
-- `vga_printf` of src/vga.c prints what the spelled directives of its format mean.
use god_os.Base.{
  ℕ, ◌+◌, ◌-◌, ◌%◌, ◌^◌, ◌≤◌, ◌<◌, ◌≡◌, refl, sym, ap, ◌∙◌, true, false, arith, List, [], ◌∷◌, ◌++◌,
  some,
}
use mathlib.Core.Path.{subst}
use god_os.Io.{Bus}
use god_os.Vga.{Screen, vga_puts}
use god_os.Vga.Format.{
  Arg, word, Conversion, done, parse_flag, parse_width, parse_length, split_first, parse_conversion,
  signed_arg, unsigned_arg, digits_of, vga_printf,
}
use god_os.Vga.Render.{
  Item, percent, char, string, unsigned, nonnegative, negative, lower_hex, upper_hex, pointer,
  Prints, finish, plain, item, cut_off,
}
use god_os.Vga.Refine.{vga_printf-Prints}
use god_os.Vga.Directives.{
  Size, int, long, long_long, size, size_long, modulus, half, Directive, field, Shown, sign,
  character, words, natural, positive, minus, low_hex, high_hex, address, Means, end, dangling,
  copy, directive,
}
use god_os.Vga.Parsed.{Shown-IsKind, wide, reading, parse_conversion-spell}

signed_small :
    (l : Size) (w : ℕ) → w % modulus l < half l → signed_arg (wide l) (w % 2 ^ 64) ≡ w % modulus l
signed_small int w h = ground arith
signed_small long w h = refl
signed_small long_long w h = refl
signed_small size w h = refl
signed_small size_long w h = refl

signed_great :
    (l : Size) (w : ℕ)
    → half l ≤ w % modulus l
    → (signed_arg (wide l) (w % 2 ^ 64) + (modulus l - w % modulus l) ≡ 2 ^ 64)
      × (0 < modulus l - w % modulus l)
      × (modulus l - w % modulus l ≤ 2 ^ 63)
signed_great int w h = ground arith
signed_great long w h = (omega arith, omega arith, omega arith)
signed_great long_long w h = (omega arith, omega arith, omega arith)
signed_great size w h = (omega arith, omega arith, omega arith)
signed_great size_long w h = (omega arith, omega arith, omega arith)

small_bound : (l : Size) (v : ℕ) → v < half l → v < 2 ^ 63
small_bound int v h = omega arith
small_bound long v h = h
small_bound long_long v h = h
small_bound size v h = h
small_bound size_long v h = h

unsigned_value : (l : Size) (w : ℕ) → unsigned_arg (wide l) (w % 2 ^ 64) ≡ w % modulus l
unsigned_value int w = omega arith
unsigned_value long w = refl
unsigned_value long_long w = refl
unsigned_value size w = refl
unsigned_value size_long w = refl

-- What a directive prints the conversion of the code prints.
of_kind :
    {spec : Conversion} {c k : ℕ} {args args' : List Arg} {piece : List ℕ}
    → c ≡ k
    → Item spec k args args' piece
    → Item spec c args args' piece
of_kind {spec} {args = args} {args' = args'} {piece = piece} e it =
    subst (λ c. Item spec c args args' piece) (sym e) it

Shown-Item :
    {d : Directive} {args args' : List Arg} {piece : List ℕ} (p : List ℕ)
    → Shown d args args' piece
    → Item (reading d p) d.kind args args' piece
Shown-Item p (sign e) = of_kind e percent
Shown-Item {d} p (character {w} {args} e) =
    let byte : w % 2 ^ 64 % 256 ≡ w % 2 ^ 8 = omega arith in
    of_kind e (subst (λ v. Item (reading d p) b'c' (word w ∷ args) args (v ∷ [])) byte char)
Shown-Item p (words e) = of_kind e string
Shown-Item {d} p (natural {w} {args} e) = of_kind e (
    subst (λ v. Item (reading d p) b'u' (word w ∷ args) args (field d (digits_of 10 false v)))
      (unsigned_value d.length w) unsigned)
Shown-Item {d} p (positive {w} {args} e h) =
    of_kind e
      (nonnegative (signed_small d.length w h) (small_bound d.length (w % modulus d.length) h))
Shown-Item {d} p (minus {w} {args} e h) =
    let (sum, above, bound) = signed_great d.length w h in of_kind e (negative sum above bound)
Shown-Item {d} p (low_hex {w} {args} e) = of_kind e (
    subst (λ v. Item (reading d p) b'x' (word w ∷ args) args (field d (digits_of 16 false v)))
      (unsigned_value d.length w) lower_hex)
Shown-Item {d} p (high_hex {w} {args} e) = of_kind e (
    subst (λ v. Item (reading d p) b'X' (word w ∷ args) args (field d (digits_of 16 true v)))
      (unsigned_value d.length w) upper_hex)
Shown-Item {d} p (address e) = of_kind e pointer

Prints-Item :
    (spec : Conversion) {c : ℕ} {p out piece : List ℕ} {args args' : List Arg}
    → parse_conversion p ≡ spec
    → spec.conversion ≡ some c
    → Item spec c args args' piece
    → Prints spec.rest args' out
    → Prints (b'%' ∷ p) args (piece ++ out)
Prints-Item spec {c} {p} {out} {piece} {args} {args'} e kind it prints =
    item {p = p} (ap (λ x. x.conversion) e ∙ kind)
      (subst (λ x. Item x c args args' piece) (sym e) it)
      (subst (λ x. Prints x.rest args' out) (sym e) prints)

Means-Prints : {fmt out : List ℕ} {args : List Arg} → Means fmt args out → Prints fmt args out
unfolding parse_conversion parse_flag parse_width parse_length split_first
Means-Prints end = finish
Means-Prints dangling = cut_off refl
Means-Prints (copy ne m) = plain ne (Means-Prints m)
Means-Prints (directive {d} {p} all s shown m) =
    Prints-Item (reading d p) (parse_conversion-spell d p all s (Shown-IsKind shown)) refl
      (Shown-Item p shown) (Means-Prints m)

-- For a format of plain characters and of directives as they are spelled, with arguments of their kinds,
-- `vga_printf` ends and prints exactly what these mean, as `vga_puts` would, on any screen: each number with the
-- bits of its length, in its base, and padded to the width that the digits say.
pub vga_printf-Means :
    {D : Type 0} (bus : Bus D) {fmt out : List ℕ} {args : List Arg} (s : Screen D)
    → Means fmt args out
    → vga_printf bus fmt args s ≡ done (vga_puts bus out s)
vga_printf-Means bus s means = vga_printf-Prints bus s (Means-Prints means)
