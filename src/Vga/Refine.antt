-- ===== src/Vga/Refine.antt =====
-- `vga_printf` of src/vga.c against its format language, and the end of its loop.
use god_os.Base.{
  ℕ, zero, suc, ◌+◌, ◌-◌, ◌%◌, ◌^◌, ◌≤◌, ◌<◌, ◌≡◌, ◌≢◌, refl, ◌∙◌, ap, sym, ◌==◌, leb, Bool, true,
  false, arith, List, [], ◌∷◌, ◌++◌, length, replicate, Bool-cases, Option-cases, none, some, inl,
  inr, ==_ne, ==_true,
}
use god_os.Io.{Bus}
use god_os.Vga.{Screen, vga_putchar, vga_puts}
use god_os.Vga.Format.{
  Arg, Conversion, parse_conversion, next_word, next_text, signed_arg, unsigned_arg, digits_of,
  put_pad, vga_put_uint, put_signed, put_word, with_word, with_text, convert, print_loop,
  vga_printf, Printed, done, bad_argument, out_of_fuel,
}
use god_os.Vga.Render.{
  padded, pad_of, Item, percent, char, string, unsigned, nonnegative, negative, lower_hex,
  upper_hex, pointer, Prints, finish, plain, item, cut_off, parse_conversion-length,
}

module _ {D : Type 0} (bus : Bus D) where
  pub vga_puts-append :
      (xs ys : List ℕ) (s : Screen D)
      → vga_puts bus (xs ++ ys) s ≡ vga_puts bus ys (vga_puts bus xs s)
  unfolding vga_puts
  vga_puts-append [] ys s = refl
  vga_puts-append (x ∷ xs) ys s = vga_puts-append xs ys (vga_putchar bus x s)

  put_pad-puts : (n pad : ℕ) (s : Screen D) → put_pad bus n pad s ≡ vga_puts bus (replicate n pad) s
  unfolding put_pad vga_puts
  put_pad-puts zero pad s = refl
  put_pad-puts (suc n) pad s = put_pad-puts n pad (vga_putchar bus pad s)

  vga_put_uint-puts :
      (value base width pad : ℕ) (upper : Bool) (s : Screen D)
      → vga_put_uint bus value base width pad upper s
        ≡ vga_puts bus (padded width pad (digits_of base upper value)) s
  unfolding vga_put_uint
  vga_put_uint-puts value base width pad upper s =
      let digits = digits_of base upper value in
      let n = width - length digits in
      ap (vga_puts bus digits) (put_pad-puts n pad s)
      ∙ sym (vga_puts-append (replicate n pad) digits s)

  put_signed-nonnegative :
      (v width pad : ℕ) (s : Screen D)
      → v < 2 ^ 63
      → put_signed bus v width pad s ≡ vga_puts bus (padded width pad (digits_of 10 false v)) s
  unfolding put_signed
  put_signed-nonnegative v width pad s h =
      let small : leb (2 ^ 63) v ≡ false = ground arith in
      rw small (vga_put_uint-puts v 10 width pad false s)

  put_signed-negative :
      (u v width pad : ℕ) (s : Screen D)
      → u + v ≡ 2 ^ 64
      → 0 < v
      → v ≤ 2 ^ 63
      → put_signed bus u width pad s
        ≡ vga_puts bus (b'-' ∷ padded width pad (digits_of 10 false v)) s
  unfolding put_signed vga_puts
  put_signed-negative u v width pad s e pos small =
      let big : leb (2 ^ 63) u ≡ true = ground arith in
      let flip : (2 ^ 64 - 1 - u + 1) % 2 ^ 64 ≡ v = omega arith in
      rw (big, flip) (vga_put_uint-puts v 10 width pad false (vga_putchar bus b'-' s))

  convert-Item :
      {spec : Conversion} {c : ℕ} {args args' : List Arg} {piece : List ℕ} (s : Screen D)
      → Item spec c args args' piece
      → convert bus c spec args s ≡ some (args', vga_puts bus piece s)
  unfolding convert with_word with_text next_word next_text put_word vga_puts
  convert-Item s percent = refl
  convert-Item s char = refl
  convert-Item s string = refl
  convert-Item {spec} s (unsigned {w} {args}) =
      ap (λ t. some (args, t))
        (vga_put_uint-puts (unsigned_arg spec.is64 (w % 2 ^ 64)) 10 spec.width (pad_of spec) false
          s)
  convert-Item {spec} s (nonnegative {w} {v} {args} e small) =
      ap (λ t. some (args, t))
        (ap (λ u. put_signed bus u spec.width (pad_of spec) s) e
          ∙ put_signed-nonnegative v spec.width (pad_of spec) s small)
  convert-Item {spec} s (negative {w} {v} {args} e pos small) =
      ap (λ t. some (args, t))
        (put_signed-negative (signed_arg spec.is64 (w % 2 ^ 64)) v spec.width (pad_of spec) s e pos
          small)
  convert-Item {spec} s (lower_hex {w} {args}) =
      ap (λ t. some (args, t))
        (vga_put_uint-puts (unsigned_arg spec.is64 (w % 2 ^ 64)) 16 spec.width (pad_of spec) false
          s)
  convert-Item {spec} s (upper_hex {w} {args}) =
      ap (λ t. some (args, t))
        (vga_put_uint-puts (unsigned_arg spec.is64 (w % 2 ^ 64)) 16 spec.width (pad_of spec) true s)
  convert-Item {spec} s (pointer {w} {args}) =
      ap (λ t. some (args, t))
        (vga_put_uint-puts (w % 2 ^ 64) 16 16 b'0' false
          (vga_putchar bus b'x' (vga_putchar bus b'0' s)))

  -- One round of the loop over the format.
  module _ (fuel : ℕ) (p : List ℕ) (args : List Arg) (s : Screen D) where
    round_plain :
        (c : ℕ)
        → (c == b'%') ≡ false
        → print_loop bus (suc fuel) (c ∷ p) args s
          ≡ print_loop bus fuel p args (vga_putchar bus c s)
    unfolding print_loop
    round_plain c e = rw (e, print_loop)

    round_end :
        (parse_conversion p).conversion ≡ none
        → print_loop bus (suc fuel) (b'%' ∷ p) args s ≡ done s
    unfolding print_loop
    round_end e = rw (e, print_loop)

    round_item :
        {c : ℕ} {args' : List Arg} {s' : Screen D}
        → (parse_conversion p).conversion ≡ some c
        → convert bus c (parse_conversion p) args s ≡ some (args', s')
        → print_loop bus (suc fuel) (b'%' ∷ p) args s
          ≡ print_loop bus fuel (parse_conversion p).rest args' s'
    unfolding print_loop
    round_item e conv = rw (e, conv, print_loop)

    round_bad :
        {c : ℕ}
        → (parse_conversion p).conversion ≡ some c
        → convert bus c (parse_conversion p) args s ≡ none
        → print_loop bus (suc fuel) (b'%' ∷ p) args s ≡ bad_argument
    unfolding print_loop
    round_bad e conv = rw (e, conv, print_loop)

  print_loop-Prints :
      (fuel : ℕ) {fmt out : List ℕ} {args : List Arg} (s : Screen D)
      → Prints fmt args out
      → length fmt < fuel
      → print_loop bus fuel fmt args s ≡ done (vga_puts bus out s)
  unfolding vga_puts
  print_loop-Prints zero s prints h = absurd (omega arith)
  print_loop-Prints (suc fuel) s finish h = unfold print_loop in refl
  print_loop-Prints (suc fuel) s (plain {c} {p} {out} {args} ne prints) h =
      round_plain fuel p args s c (==_ne c b'%' ne)
      ∙ print_loop-Prints fuel (vga_putchar bus c s) prints (omega arith)
  print_loop-Prints (suc fuel) s (item {c} {p} {out} {piece} {args} {args'} e it prints) h =
      round_item fuel p args s e (convert-Item s it)
      ∙ print_loop-Prints fuel (vga_puts bus piece s) prints
          (omega (arith, parse_conversion-length p c e))
      ∙ ap done (sym (vga_puts-append piece out s))
  print_loop-Prints (suc fuel) s (cut_off {p} {args} e) h = round_end fuel p args s e

  -- `vga_printf` ends and prints exactly the characters that the format language gives the format and its
  -- arguments, as `vga_puts` would, on any screen.
  pub vga_printf-Prints :
      {fmt out : List ℕ} {args : List Arg} (s : Screen D)
      → Prints fmt args out
      → vga_printf bus fmt args s ≡ done (vga_puts bus out s)
  unfolding vga_printf
  vga_printf-Prints {fmt = fmt} s prints = print_loop-Prints (length fmt + 1) s prints (omega arith)

  -- A round at a `%`, if the rounds after it end.
  conversion-ends :
      (fuel : ℕ) (p : List ℕ) (args : List Arg) (s : Screen D)
      → ((args' : List Arg) (s' : Screen D)
          → length (parse_conversion p).rest < fuel
          → print_loop bus fuel (parse_conversion p).rest args' s' ≢ out_of_fuel)
      → length p < fuel
      → print_loop bus (suc fuel) (b'%' ∷ p) args s ≢ out_of_fuel
  conversion-ends fuel p args s later h = elim (Option-cases (parse_conversion p).conversion) [
    | inl cut ↦ let step = round_end fuel p args s cut in done_ne step
    | inr (c, some_c) ↦ elim (Option-cases (convert bus c (parse_conversion p) args s)) [
      | inl bad ↦ let step = round_bad fuel p args s some_c bad in bad_ne step
      | inr ((args', s'), ok') ↦
          let step = round_item fuel p args s some_c ok' in
          λ e. later args' s' (omega (arith, parse_conversion-length p c some_c)) (sym step ∙ e)
    ]
  ]
    where
      done_ne : {A : Type 0} {a : A} {r : Printed A} → r ≡ done a → r ≢ out_of_fuel
      done_ne e e' = cc

      bad_ne : {A : Type 0} {r : Printed A} → r ≡ bad_argument → r ≢ out_of_fuel
      bad_ne e e' = cc

  print_loop-ends :
      (fuel : ℕ) (fmt : List ℕ) (args : List Arg) (s : Screen D)
      → length fmt < fuel
      → print_loop bus fuel fmt args s ≢ out_of_fuel
  print_loop-ends zero fmt args s h = absurd (omega arith)
  print_loop-ends (suc fuel) [] args s h = unfold print_loop in λ e. cc
  print_loop-ends (suc fuel) (c ∷ p) args s h = elim (Bool-cases (c == b'%')) [
    | inl conversion ↦
        let here : b'%' ≡ c = sym (==_true c b'%' conversion) in
        λ e.
          conversion-ends fuel p args s
            (λ args' s' lt. print_loop-ends fuel (parse_conversion p).rest args' s' lt)
            (omega arith) (ap (λ x. print_loop bus (suc fuel) (x ∷ p) args s) here ∙ e)
    | inr ordinary ↦ λ e.
        print_loop-ends fuel p args (vga_putchar bus c s) (omega arith)
          (sym (round_plain fuel p args s c ordinary) ∙ e)
  ]

  -- For every format and all arguments, matching ones or not, the loop of `vga_printf` ends: it reaches the
  -- end of the format, or an argument that is missing or of another kind.
  pub vga_printf-ends :
      (fmt : List ℕ) (args : List Arg) (s : Screen D) → vga_printf bus fmt args s ≢ out_of_fuel
  unfolding vga_printf
  vga_printf-ends fmt args s = print_loop-ends (length fmt + 1) fmt args s (omega arith)
