-- ===== src/Vga/Directives.antt =====
-- The formats of `vga_printf` of src/vga.c as they are spelled: a flag, the digits of a width, a length and a
-- conversion; and what they print, by the value of the digits and the bits of the length.
use god_os.Base.{
  ℕ, ◌-◌, ◌%◌, ◌^◌, ◌≤◌, ◌<◌, ◌≡◌, ◌≢◌, if◌then◌else◌, Bool, true, false, List, [], ◌∷◌, ◌++◌,
}
use god_os.Vga.Format.{Arg, word, text, digits_of}
use god_os.Vga.Digits.{read_on}
use god_os.Vga.Render.{padded}

-- The length: `int`, `long`, `long long`, `size_t`, and `zl`, which the code takes too.
pub data Size : Type 0 where
  int long long_long size size_long : Size

abbrev pub letters : Size → List ℕ
letters int = []
letters long = b'l' ∷ []
letters long_long = b'l' ∷ b'l' ∷ []
letters size = b'z' ∷ []
letters size_long = b'z' ∷ b'l' ∷ []

-- One more than the greatest unsigned value, and than the greatest signed one.
abbrev pub modulus : Size → ℕ
modulus int = 2 ^ 32
modulus _ = 2 ^ 64

abbrev pub half : Size → ℕ
half int = 2 ^ 31
half _ = 2 ^ 63

pub record Directive : Type 0 where
  pub zeros : Bool
  pub digits : List ℕ
  pub length : Size
  pub kind : ℕ

abbrev pub spell : Directive → List ℕ → List ℕ
spell d rest =
    (if d.zeros then b'0' ∷ [] else []) ++ (d.digits ++ (letters d.length ++ (d.kind ∷ rest)))

abbrev pub AllDigits : List ℕ → Type 0
AllDigits [] = Unit
AllDigits (c ∷ cs) = ((b'0' ≤ c) × (c ≤ b'9')) × AllDigits cs

-- The first digit of a width is not the flag.
abbrev pub Starts : List ℕ → Type 0
Starts [] = Unit
Starts (c ∷ cs) = c ≢ b'0'

-- A number printed in the width, after the flag.
abbrev pub field : Directive → List ℕ → List ℕ
field d digits = padded (read_on 10 0 d.digits) (if d.zeros then b'0' else b' ') digits

-- What a directive takes of the arguments and prints.
pub data Shown (d : Directive) : List Arg → List Arg → List ℕ → Type 0 where
  sign : {args : List Arg} → d.kind ≡ b'%' → Shown d args args (b'%' ∷ [])
  character :
      {w : ℕ} {args : List Arg} → d.kind ≡ b'c' → Shown d (word w ∷ args) args (w % 2 ^ 8 ∷ [])
  words : {cs : List ℕ} {args : List Arg} → d.kind ≡ b's' → Shown d (text cs ∷ args) args cs
  natural :
      {w : ℕ} {args : List Arg}
      → d.kind ≡ b'u'
      → Shown d (word w ∷ args) args (field d (digits_of 10 false (w % modulus d.length)))
  positive :
      {w : ℕ} {args : List Arg}
      → d.kind ≡ b'd'
      → w % modulus d.length < half d.length
      → Shown d (word w ∷ args) args (field d (digits_of 10 false (w % modulus d.length)))
  minus :
      {w : ℕ} {args : List Arg}
      → d.kind ≡ b'd'
      → half d.length ≤ w % modulus d.length
      → Shown d
          (word w ∷ args)
          args
          (b'-' ∷ field d (digits_of 10 false (modulus d.length - w % modulus d.length)))
  low_hex :
      {w : ℕ} {args : List Arg}
      → d.kind ≡ b'x'
      → Shown d (word w ∷ args) args (field d (digits_of 16 false (w % modulus d.length)))
  high_hex :
      {w : ℕ} {args : List Arg}
      → d.kind ≡ b'X'
      → Shown d (word w ∷ args) args (field d (digits_of 16 true (w % modulus d.length)))
  address :
      {w : ℕ} {args : List Arg}
      → d.kind ≡ b'p'
      → Shown d
          (word w ∷ args)
          args
          (b'0' ∷ b'x' ∷ padded 16 b'0' (digits_of 16 false (w % 2 ^ 64)))

-- A format that is spelled so, with arguments, means characters. A `%` at its end means none.
pub data Means : List ℕ → List Arg → List ℕ → Type 0 where
  end : {args : List Arg} → Means [] args []
  dangling : {args : List Arg} → Means (b'%' ∷ []) args []
  copy :
      {c : ℕ} {p out : List ℕ} {args : List Arg}
      → c ≢ b'%'
      → Means p args out
      → Means (c ∷ p) args (c ∷ out)
  directive :
      {d : Directive} {p out piece : List ℕ} {args args' : List Arg}
      → AllDigits d.digits
      → (d.zeros ≡ false → Starts d.digits)
      → Shown d args args' piece
      → Means p args' out
      → Means (b'%' ∷ spell d p) args (piece ++ out)
