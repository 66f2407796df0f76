-- ===== src/Boot/Checks.antt =====
-- A test of a format of src/vga.c against its arguments, where every conversion reads an integer.
use god_os.Base.{
  ℕ, zero, suc, ◌-◌, ◌%◌, ◌^◌, ◌≡◌, ◌≢◌, refl, sym, leb, ◌==◌, ◌||◌, if◌then◌else◌, Bool, true,
  false, arith, Bool-cases, Option-cases, inl, inr, none, some, List, [], ◌∷◌, ==_true,
}
use mathlib.Core.Path.{subst}
use god_os.Vga.Format.{Arg, word, text, Conversion, signed_arg, parse_conversion}
use god_os.Vga.Render.{
  Prints, Item, finish, plain, item, cut_off, char, lower_hex, upper_hex, pointer, unsigned,
  nonnegative, negative,
}

-- A line with these arguments prints some text.
abbrev pub Line : List ℕ → List Arg → Type 0
Line fmt args = (out : List ℕ) × Prints fmt args out

-- `%d` prints any value.
integer :
    (spec : Conversion) (w : ℕ) (args : List Arg)
    → (piece : List ℕ) × Item spec b'd' (word w ∷ args) args piece
integer spec w args =
    let v = signed_arg spec.is64 (w % 2 ^ 64) in
    elim (Bool-cases (leb (2 ^ 63) v)) [
      | inr below ↦ (_, nonnegative refl (ground arith))
      | inl above ↦ (_, negative {v = 2 ^ 64 - v} (ground arith) (ground arith) (ground arith))
    ]

abbrev reads_integer : ℕ → Bool
reads_integer c =
    (c == b'c') || ((c == b'd') || ((c == b'u') || ((c == b'x') || ((c == b'X') || (c == b'p')))))

-- The format reads as many integers as there are, or fewer.
unfoldable pub reads_all : ℕ → List ℕ → List Arg → Bool
reads_all zero fmt args = false
reads_all (suc fuel) [] args = true
reads_all (suc fuel) (c ∷ p) [] = if c == b'%' then false else reads_all fuel p []
reads_all (suc fuel) (c ∷ p) (text cs ∷ args) = false
reads_all (suc fuel) (c ∷ p) (word w ∷ args) = elim (c == b'%') [
  | false ↦ reads_all fuel p (word w ∷ args)
  | true ↦ elim (parse_conversion p).conversion [
    | none ↦ true
    | some conv ↦ elim (reads_integer conv) [
      | false ↦ false
      | true ↦ reads_all fuel (parse_conversion p).rest args
    ]
  ]
]

-- Such a conversion prints any integer.
abbrev PrintsInteger : Conversion → ℕ → ℕ → List Arg → Type 0
PrintsInteger spec c w args = (piece : List ℕ) × Item spec c (word w ∷ args) args piece

reads_integer-item :
    (spec : Conversion) (c w : ℕ) (args : List Arg)
    → reads_integer c ≡ true
    → PrintsInteger spec c w args
reads_integer-item spec c w args h = elim (Bool-cases (c == b'c')) [
  | inl is ↦ at b'c' is (_, char)
  | inr c1 ↦ elim (Bool-cases (c == b'd')) [
    | inl is ↦ at b'd' is (integer spec w args)
    | inr c2 ↦ elim (Bool-cases (c == b'u')) [
      | inl is ↦ at b'u' is (_, unsigned)
      | inr c3 ↦ elim (Bool-cases (c == b'x')) [
        | inl is ↦ at b'x' is (_, lower_hex)
        | inr c4 ↦ elim (Bool-cases (c == b'X')) [
          | inl is ↦ at b'X' is (_, upper_hex)
          | inr c5 ↦ at b'p' (last _ _ _ _ _ c1 c2 c3 c4 c5 h) (_, pointer)
        ]
      ]
    ]
  ]
]
  where
    at : (k : ℕ) → (c == k) ≡ true → PrintsInteger spec k w args → PrintsInteger spec c w args
    at k is p = subst (λ x. PrintsInteger spec x w args) (sym (==_true c k is)) p

    last :
        (a b d e f : Bool) {g : Bool}
        → a ≡ false
        → b ≡ false
        → d ≡ false
        → e ≡ false
        → f ≡ false
        → (a || (b || (d || (e || (f || g))))) ≡ true
        → g ≡ true
    last a b d e f ha hb hd he hf h = ground arith

false-true : false ≢ true
false-true e = cc

pub reads_all-Line :
    (fuel : ℕ) (fmt : List ℕ) (args : List Arg) → reads_all fuel fmt args ≡ true → Line fmt args
unfolding reads_all
reads_all-Line zero fmt args h = absurd (false-true h)
reads_all-Line (suc fuel) [] args h = (_, finish)
reads_all-Line (suc fuel) (c ∷ p) [] h = elim (Bool-cases (c == b'%')) [
  | inl sign ↦ absurd (false-true (rw sign at h))
  | inr other ↦
      let (out, prints) = reads_all-Line fuel p [] (rw other at h) in
      (_, plain (ground arith) prints)
]
reads_all-Line (suc fuel) (c ∷ p) (text cs ∷ args) h = absurd (false-true h)
reads_all-Line (suc fuel) (c ∷ p) (word w ∷ args) h = elim (Bool-cases (c == b'%')) [
  | inr other ↦
      let (out, prints) = reads_all-Line fuel p (word w ∷ args) (rw (other, reads_all) at h) in
      (_, plain (ground arith) prints)
  | inl sign ↦
      subst (λ x. Line (x ∷ p) (word w ∷ args)) (sym (==_true c b'%' sign))
        (elim (Option-cases (parse_conversion p).conversion) [
          | inl absent ↦ (_, cut_off absent)
          | inr (conv, is) ↦ elim (Bool-cases (reads_integer conv)) [
            | inr other ↦ absurd (false-true (rw (sign, is, other, reads_all) at h))
            | inl integral ↦
                let (piece, i) = reads_integer-item (parse_conversion p) conv w args integral in
                let (out, prints) =
                  reads_all-Line fuel (parse_conversion p).rest args
                    (rw (sign, is, integral, reads_all) at h) in
                (_, item is i prints)
          ]
        ])
]
