-- ===== src/Vga/Digits.antt =====
-- The numerals of src/vga.c: what `vga_put_uint` prints is the value in its base.
use god_os.Base.{
  ℕ, zero, suc, ◌+◌, ◌-◌, ◌*◌, ◌/◌, ◌%◌, ◌^◌, ◌≤◌, ◌<◌, ◌≡◌, ◌≢◌, ◌⊎◌, inl, inr, refl, ◌∙◌, ap, sym,
  ◌==◌, ltb, if◌then◌else◌, Bool, true, false, arith, List, [], ◌∷◌, length, get_or, Bool-cases,
  ==_ne,
}
use native.Mathlib.Nat.{pow-suc}
use god_os.Vga.Format.{digit_char, collect, digits_of}

-- The bases that the code uses.
abbrev IsBase : ℕ → Type 0
IsBase base = (base ≡ 10) ⊎ (base ≡ 16)

-- The digit that a character stands for, and the number that a numeral stands for after `n`.
unfoldable pub digit_value : ℕ → ℕ
digit_value c = if ltb c b'A' then c - b'0' else if ltb c b'a' then c - b'A' + 10 else c - b'a' + 10

unfoldable pub read_on : ℕ → ℕ → List ℕ → ℕ
read_on base n [] = n
read_on base n (c ∷ cs) = read_on base (n * base + digit_value c) cs

digit_value-char : (upper : Bool) (d : ℕ) → d < 16 → digit_value (digit_char upper d) ≡ d
unfolding digit_value digit_char
digit_value-char true d h = ground arith
digit_value-char false d h = ground arith

-- One digit split off and put back.
split_digit :
    (base value : ℕ)
    → IsBase base
    → (value % base < 16) × (value / base * base + value % base ≡ value)
split_digit base value (inl ten) = rw ten (omega arith)
split_digit base value (inr sixteen) = rw sixteen (omega arith)

fewer : (base value k : ℕ) → IsBase base → value < 2 ^ suc k → value / base < 2 ^ k
fewer base value k (inl ten) h = rw ten (omega (arith, pow-suc 2 k))
fewer base value k (inr sixteen) h = rw sixteen (omega (arith, pow-suc 2 k))

module _ (base : ℕ) (upper : Bool) (fuel value : ℕ) (digits : List ℕ) where
  collect-stop : (value == 0) ≡ true → collect base upper (suc fuel) value digits ≡ digits
  unfolding collect
  collect-stop e = rw (e, collect)

  collect-more :
      (value == 0) ≡ false
      → collect base upper (suc fuel) value digits
        ≡ collect base upper fuel (value / base) (digit_char upper (value % base) ∷ digits)
  unfolding collect
  collect-more e = rw (e, collect)

collect-read :
    (base : ℕ) (upper : Bool) (fuel value : ℕ) (digits : List ℕ)
    → IsBase base
    → value < 2 ^ fuel
    → read_on base 0 (collect base upper fuel value digits) ≡ read_on base value digits
unfolding collect read_on
collect-read base upper zero value digits b h = let none : value ≡ 0 = omega arith in rw none
collect-read base upper (suc fuel) value digits b h =
    let split = split_digit base value b in
    let digit = digit_value-char upper (value % base) (split.0) in
    let later =
      collect-read base upper fuel (value / base) (digit_char upper (value % base) ∷ digits) b
        (fewer base value fuel b h) in
    elim (Bool-cases (value == 0)) [
      | inl none ↦
          ap (read_on base 0) (collect-stop base upper fuel value digits none)
          ∙ ap (λ n. read_on base n digits) (ground arith)
      | inr some_left ↦
          ap (read_on base 0) (collect-more base upper fuel value digits some_left)
          ∙ (later ∙ ap (λ n. read_on base n digits) (ground arith))
    ]

-- A value below `top ^ k`, for the two bases, has at most `k` digits.
collect-length :
    (base : ℕ) (upper : Bool) (fuel k value : ℕ) (digits : List ℕ)
    → IsBase base
    → value < 10 ^ k
    → length (collect base upper fuel value digits) ≤ length digits + k
unfolding collect
collect-length base upper zero k value digits b h = omega arith
collect-length base upper (suc fuel) zero value digits b h =
    let stop = ap length (collect-stop base upper fuel value digits (ground arith)) in
    omega (arith, stop)
collect-length base upper (suc fuel) (suc k) value digits b h =
    let later =
      collect-length base upper fuel k (value / base) (digit_char upper (value % base) ∷ digits) b
        (shorter b) in
    elim (Bool-cases (value == 0)) [
      | inl none ↦
          let stop = ap length (collect-stop base upper fuel value digits none) in
          omega (arith, stop)
      | inr some_left ↦
          let more = ap length (collect-more base upper fuel value digits some_left) in
          omega (arith, more, later)
    ]
  where
    shorter : IsBase base → value / base < 10 ^ k
    shorter (inl ten) = rw ten (omega (arith, pow-suc 10 k))
    shorter (inr sixteen) = rw sixteen (omega (arith, pow-suc 10 k))

collect-zero :
    (base : ℕ) (upper : Bool) (fuel : ℕ) (digits : List ℕ)
    → collect base upper fuel 0 digits ≡ digits
unfolding collect
collect-zero base upper zero digits = refl
collect-zero base upper (suc fuel) digits = refl

last_digit : (base value : ℕ) → IsBase base → value / base ≡ 0 → value % base ≡ value
last_digit base value (inl ten) h =
    omega (arith, split_digit base value (inl ten), ap (λ (t : ℕ). t * base) h)
last_digit base value (inr sixteen) h =
    omega (arith, split_digit base value (inr sixteen), ap (λ (t : ℕ). t * base) h)

-- The numeral of a number other than 0 does not begin with the digit 0.
collect-leading :
    (base : ℕ) (upper : Bool) (fuel value : ℕ) (digits : List ℕ)
    → IsBase base
    → value ≢ 0
    → value < 2 ^ fuel
    → digit_value (get_or (collect base upper fuel value digits) 0 0) ≢ 0
collect-leading base upper zero value digits b some_left h = absurd (omega arith)
collect-leading base upper (suc fuel) value digits b some_left h =
    let d = digit_char upper (value % base) in
    let step : collect base upper (suc fuel) value digits
        ≡ collect base upper fuel (value / base) (d ∷ digits) =
      collect-more base upper fuel value digits (ground arith) in
    elim (Bool-cases (value / base == 0)) [
      | inl last ↦
          let none : value / base ≡ 0 = ground arith in
          let only : collect base upper (suc fuel) value digits ≡ d ∷ digits =
            step
            ∙ ap (λ v. collect base upper fuel v (d ∷ digits)) none
            ∙ collect-zero base upper fuel (d ∷ digits) in
          let head = ap (λ ds. digit_value (get_or ds 0 0)) only in
          let small = (split_digit base value b).0 in
          λ e. some_left (
            omega (
              arith,
              e,
              head,
              digit_value-char upper (value % base) small,
              last_digit base value b none,
            ))
      | inr more ↦
          let inner : digit_value (get_or (collect base upper fuel (value / base) (d ∷ digits)) 0 0)
              ≢ 0 =
            collect-leading base upper fuel (value / base) (d ∷ digits) b (ground arith)
              (fewer base value fuel b h) in
          λ e. inner (ap (λ ds. digit_value (get_or ds 0 0)) (sym step) ∙ e)
    ]

-- For the bases 10 and 16 and a value of 64 bits, the digits that `vga_put_uint` stores read back as the
-- value, they fit into the 24 places of its buffer, and the first of them is not 0 unless the value
-- is.
pub digits_of-read :
    (base value : ℕ) (upper : Bool)
    → IsBase base
    → value < 2 ^ 64
    → (read_on base 0 (digits_of base upper value) ≡ value)
      × (length (digits_of base upper value) ≤ 24)
      × ((digit_value (get_or (digits_of base upper value) 0 0) == 0) ≡ (value == 0))
unfolding digits_of read_on
digits_of-read base value upper b h = elim (Bool-cases (value == 0)) [
  | inl none ↦ rw none (zero_read base value (ground arith), omega arith, zero_leads)
  | inr some_left ↦ rw some_left (
    collect-read base upper 64 value [] b h,
    omega (arith, collect-length base upper 64 20 value [] b (omega arith)),
    ==_ne _ 0 (collect-leading base upper 64 value [] b (ground arith) h),
  )
]
  where
    zero_leads : (digit_value b'0' == 0) ≡ true
    zero_leads = unfold digit_value in refl

    zero_read : (base value : ℕ) → value ≡ 0 → read_on base 0 (b'0' ∷ []) ≡ value
    zero_read base value e = unfold read_on digit_value in omega (arith, e)
