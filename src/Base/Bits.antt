-- ===== src/Base/Bits.antt =====
-- Bit operations as arithmetic, at every width: `x & (2^k - 1)`, `x & (m << k)` and `hi | lo`.
use Prim.Native.Nat.{
  ℕ, zero, suc, ◌+◌, ◌-◌, ◌*◌, ◌/◌, ◌%◌, ◌^◌, ◌≤◌, ◌<◌, min, max, bit_and, bit_or, digits,
  bit_and-bitwise, bit_or-bitwise,
}
use mathlib.Core.Path.{◌≡◌, refl, ap, sym, ◌∙◌}
use mathlib.Core.Logic.{◌⊎◌, inl, inr}
use mathlib.Core.Bool.{Bool, true, ◌&&◌}
use native.Mathlib.Nat.{
  pow-suc, one-le-pow, div-div-eq-div-mul, div-add-mod, mul_comm, mul-one, div-one, add-zero,
}
use native.Mathlib.Omega.{arith}
use god_os.Base.Loop.{count_to, count_to_inv}

Nat-cases : (j k : ℕ) → j < suc k → (j ≡ k) ⊎ (j < k)
Nat-cases j k lt = ground arith

-- Whether a test holds of all numbers below `n`, by trying them.
unfoldable pub all_below : ℕ → (ℕ → Bool) → Bool
all_below n test = count_to n (λ k so_far. test k && so_far) true

-- One round more.
all_below-round :
    (test : ℕ → Bool) (k : ℕ) (so_far : Bool)
    → (so_far ≡ true → (j : ℕ) → j < k → test j ≡ true)
    → (test k && so_far) ≡ true
    → (j : ℕ) → j < suc k
    → test j ≡ true
all_below-round test k so_far earlier both j lt =
    let (here, before) = both_true (test k) so_far both in
    elim (Nat-cases j k lt) [ inl last ↦ ap test last ∙ here | inr lower ↦ earlier before j lower ]
  where
    both_true : (a b : Bool) → (a && b) ≡ true → (a ≡ true) × (b ≡ true)
    both_true a b h = ground arith

pub all_below_sound :
    (n : ℕ) (test : ℕ → Bool) (x : ℕ) → all_below n test ≡ true → x < n → test x ≡ true
unfolding all_below
all_below_sound n test x all below =
    count_to_inv (λ k so_far. so_far ≡ true → (j : ℕ) → j < k → test j ≡ true) n
      (λ k so_far _. all_below-round test k so_far) (λ _ j lt. absurd (omega arith)) all x below

-- More fuel than the first number is worth changes nothing.
enough_fuel :
    (base : ℕ → ℕ) (op : ℕ → ℕ → ℕ) (x y k l : ℕ)
    → x ≤ k
    → x ≤ l
    → digits base op k x y ≡ digits base op l x y
enough_fuel base op zero y zero zero hk hl = refl
enough_fuel base op zero y zero (suc l) hk hl = refl
enough_fuel base op zero y (suc k) zero hk hl = refl
enough_fuel base op zero y (suc k) (suc l) hk hl = refl
enough_fuel base op (suc x) y zero l hk hl = elim hk [ ]
enough_fuel base op (suc x) y (suc k) zero hk hl = elim hl [ ]
enough_fuel base op (suc x) y (suc k) (suc l) hk hl =
    ap (λ r. r * 2 + op (suc x % 2) (y % 2))
      (enough_fuel base op (suc x / 2) (y / 2) k l (omega arith) (omega arith))

-- The lowest binary digit of `|`, and the digits above it.
bit_or-digit : (x y : ℕ) → bit_or x y ≡ bit_or (x / 2) (y / 2) * 2 + max (x % 2) (y % 2)
bit_or-digit zero y = omega (arith, bit_or-bitwise 0 y, bit_or-bitwise 0 (y / 2))
bit_or-digit (suc x) y = omega (
  arith,
  bit_or-bitwise (suc x) y,
  bit_or-bitwise (suc x / 2) (y / 2),
  enough_fuel (λ b. b) max (suc x / 2) (y / 2) x (suc x / 2) (omega arith) (omega arith),
)

-- The lowest binary digit of `&`, and the digits above it.
bit_and-digit : (x y : ℕ) → bit_and x y ≡ bit_and (x / 2) (y / 2) * 2 + min (x % 2) (y % 2)
bit_and-digit zero y = omega (arith, bit_and-bitwise 0 y, bit_and-bitwise 0 (y / 2))
bit_and-digit (suc x) y = omega (
  arith,
  bit_and-bitwise (suc x) y,
  bit_and-bitwise (suc x / 2) (y / 2),
  enough_fuel (λ b. 0) min (suc x / 2) (y / 2) x (suc x / 2) (omega arith) (omega arith),
)

below_and : (n x : ℕ) → x ≤ n → bit_and x 0 ≡ 0
below_and zero zero h = refl
below_and zero (suc x) h = elim h [ ]
below_and (suc n) zero h = refl
below_and (suc n) (suc x) h =
    omega (arith, bit_and-digit (suc x) 0, below_and n (suc x / 2) (omega arith))

bit_and-zero : (x : ℕ) → bit_and x 0 ≡ 0
bit_and-zero x = below_and x x (omega arith)

below_or : (n x : ℕ) → x ≤ n → bit_or x 0 ≡ x
below_or zero zero h = refl
below_or zero (suc x) h = elim h [ ]
below_or (suc n) zero h = refl
below_or (suc n) (suc x) h =
    omega (arith, bit_or-digit (suc x) 0, below_or n (suc x / 2) (omega arith))

bit_or-zero : (x : ℕ) → bit_or x 0 ≡ x
bit_or-zero x = below_or x x (omega arith)

-- `hi | lo` is a sum where `lo` fits below the lowest digit of `hi`.
pub bit_or-disjoint : (k m lo : ℕ) → lo < 2 ^ k → bit_or (m * 2 ^ k) lo ≡ m * 2 ^ k + lo
bit_or-disjoint zero m lo h = ground (arith, bit_or-zero m)
bit_or-disjoint (suc k) m lo h = ground (
  arith,
  pow-suc 2 k,
  ap (λ (t : ℕ). m * t) (pow-suc 2 k),
  bit_or-digit (m * 2 ^ suc k) lo,
  bit_or-disjoint k m (lo / 2) (omega (arith, pow-suc 2 k)),
)

-- The remainder by a doubled divisor, one binary digit at a time.
mod-double : (x p : ℕ) → 0 < p → x % (p * 2) ≡ x / 2 % p * 2 + x % 2
mod-double x p h =
    let same : x / (p * 2) ≡ x / 2 / p =
      ap (λ t. x / t) (mul_comm p 2) ∙ sym (div-div-eq-div-mul x 2 p) in
    let scaled = ap (λ (t : ℕ). p * 2 * t) same in
    omega (arith, div-add-mod x (p * 2), div-add-mod (x / 2) p, scaled)

half_mask : (p : ℕ) → 0 < p → (p * 2 - 1) / 2 ≡ p - 1
half_mask p h = omega arith

-- `x & (2^k - 1)` is the remainder.
pub bit_and-mask : (k x : ℕ) → bit_and x (2 ^ k - 1) ≡ x % 2 ^ k
bit_and-mask zero x = omega (arith, bit_and-zero x)
bit_and-mask (suc k) x = rw pow-suc (
    omega (
      arith,
      one-le-pow k 2 (omega arith),
      bit_and-digit x (2 ^ k * 2 - 1),
      ap (λ t. bit_and (x / 2) t) (half_mask (2 ^ k) (one-le-pow k 2 (omega arith))),
      bit_and-mask k (x / 2),
      mod-double x (2 ^ k) (one-le-pow k 2 (omega arith)),
    ))

-- `x & (m << k)` looks at the digits from `k` on.
pub bit_and-shift : (k x m : ℕ) → bit_and x (m * 2 ^ k) ≡ bit_and (x / 2 ^ k) m * 2 ^ k
bit_and-shift zero x m = simp (mul-one, div-one)
bit_and-shift (suc k) x m =
    let inner : bit_and (x / 2) (m * 2 ^ suc k / 2) ≡ bit_and (x / 2) (m * 2 ^ k) =
      ap (λ t. bit_and (x / 2) t)
        (omega (arith, pow-suc 2 k, ap (λ (t : ℕ). m * t) (pow-suc 2 k))) in
    let deep : bit_and (x / 2 / 2 ^ k) m * 2 ^ k ≡ bit_and (x / 2 ^ suc k) m * 2 ^ k =
      ap (λ t. bit_and t m * 2 ^ k)
        (div-div-eq-div-mul x 2 (2 ^ k) ∙ ap (λ t. x / t) (omega (arith, pow-suc 2 k))) in
    omega (
      arith,
      inner,
      deep,
      ap (λ (t : ℕ). bit_and (x / 2 ^ suc k) m * t) (pow-suc 2 k),
      bit_and-digit x (m * 2 ^ suc k),
      bit_and-shift k (x / 2) m,
      pow-suc 2 k,
      ap (λ (t : ℕ). m * t) (pow-suc 2 k),
    )

-- `x & ~(2^12 - 1)` and `x & ~7` on a 64-bit word round down.
pub bit_and_page : (x : ℕ) → x < 2 ^ 64 → bit_and x (2 ^ 64 - 2 ^ 12) ≡ x - x % 4096
bit_and_page x h = omega (arith, bit_and-shift 12 x (2 ^ 52 - 1), bit_and-mask 52 (x / 2 ^ 12))

-- `(hi_lo) | (m << k)` leaves the digits below `k` alone.
pub bit_or-shift :
    (k a lo m : ℕ) → lo < 2 ^ k → bit_or (a * 2 ^ k + lo) (m * 2 ^ k) ≡ bit_or a m * 2 ^ k + lo
bit_or-shift zero a lo m h = let none : lo ≡ 0 = omega arith in rw (none) (omega (arith, same a m))
  where
    same : (a m : ℕ) → bit_or (a * 1 + 0) (m * 1) ≡ bit_or a m
    same a m = rw (add-zero, mul-one, mul-one)
bit_or-shift (suc k) a lo m h =
    let upper : (a * 2 ^ suc k + lo) / 2 ≡ a * 2 ^ k + lo / 2 =
      omega (arith, pow-suc 2 k, ap (λ (t : ℕ). a * t) (pow-suc 2 k)) in
    let shifted : m * 2 ^ suc k / 2 ≡ m * 2 ^ k =
      omega (arith, pow-suc 2 k, ap (λ (t : ℕ). m * t) (pow-suc 2 k)) in
    omega (
      arith,
      pow-suc 2 k,
      ap (λ (t : ℕ). a * t) (pow-suc 2 k),
      ap (λ (t : ℕ). m * t) (pow-suc 2 k),
      ap (λ (t : ℕ). bit_or a m * t) (pow-suc 2 k),
      bit_or-digit (a * 2 ^ suc k + lo) (m * 2 ^ suc k),
      ap (λ x. bit_or x (m * 2 ^ suc k / 2)) upper,
      ap (λ y. bit_or (a * 2 ^ k + lo / 2) y) shifted,
      bit_or-shift k a (lo / 2) m (omega (arith, pow-suc 2 k)),
    )
