-- ===== src/Pmm/Bitmap.antt =====
-- The bit operations of src/pmm.c on a bitmap of bytes.
use god_os.Base.{
  ℕ, ◌+◌, ◌-◌, ◌*◌, ◌/◌, ◌%◌, ◌^◌, ◌<◌, ◌≡◌, refl, Bool, true, false, not, ◌&&◌, bit_and, bit_or,
  arith, ltb, ◌==◌, if◌then◌else◌,
}
use god_os.Base.Loop.{count_to}
use god_os.Base.Bits.{all_below, all_below_sound, bit_and-mask}
use god_os.Pmm.{Bitmap, bit_test, bit_set, bit_clear}

-- Every entry is a byte.
abbrev pub Bytes : Bitmap → Type 0
Bytes bm = (i : ℕ) → bm i < 256

-- The frame's bit says that it cannot be handed out.
unfoldable pub is_used : Bitmap → ℕ → Bool
is_used bm frame = not (bit_test bm frame == 0)

-- Bit `j` of a byte after bit `k` was set or cleared, for every byte and every pair of bits.
set_entry : ℕ → Bool
set_entry n =
    let v = n % 256 in
    let k = n / 256 % 8 in
    let j = n / 2048 in
    let w = bit_or v (2 ^ k % 256) in
    ltb w 256 && (bit_and (w / 2 ^ j) 1 == (if j == k then 1 else bit_and (v / 2 ^ j) 1))

clear_entry : ℕ → Bool
clear_entry n =
    let v = n % 256 in
    let k = n / 256 % 8 in
    let j = n / 2048 in
    let w = bit_and v (255 - 2 ^ k % 256) in
    ltb w 256 && (bit_and (w / 2 ^ j) 1 == (if j == k then 0 else bit_and (v / 2 ^ j) 1))

set_table : all_below 16384 set_entry ≡ true
unfolding all_below count_to set_entry
set_table = refl

clear_table : all_below 16384 clear_entry ≡ true
unfolding all_below count_to clear_entry
clear_table = refl

table_entry : (w x y : ℕ) → (ltb w 256 && (x == y)) ≡ true → (w < 256) × (x ≡ y)
table_entry w x y h = ground arith

pub byte_set :
    (v k j : ℕ)
    → v < 256
    → k < 8
    → j < 8
    → (bit_or v (2 ^ k % 256) < 256)
      × (bit_and (bit_or v (2 ^ k % 256) / 2 ^ j) 1 ≡ (if j == k then 1 else bit_and (v / 2 ^ j) 1))
unfolding set_entry
byte_set v k j hv hk hj =
    let n = v + 256 * k + 2048 * j in
    let low : n % 256 ≡ v = omega arith in
    let mid : n / 256 % 8 ≡ k = omega arith in
    let high : n / 2048 ≡ j = omega arith in
    let entry : set_entry n ≡ true = all_below_sound 16384 set_entry n set_table (omega arith) in
    table_entry _ _ _ (rw (low, mid, high) at entry)

pub byte_clear :
    (v k j : ℕ)
    → v < 256
    → k < 8
    → j < 8
    → (bit_and v (255 - 2 ^ k % 256) < 256)
      × (bit_and (bit_and v (255 - 2 ^ k % 256) / 2 ^ j) 1
          ≡ (if j == k then 0 else bit_and (v / 2 ^ j) 1))
unfolding clear_entry
byte_clear v k j hv hk hj =
    let n = v + 256 * k + 2048 * j in
    let low : n % 256 ≡ v = omega arith in
    let mid : n / 256 % 8 ≡ k = omega arith in
    let high : n / 2048 ≡ j = omega arith in
    let entry : clear_entry n ≡ true =
      all_below_sound 16384 clear_entry n clear_table (omega arith) in
    table_entry _ _ _ (rw (low, mid, high) at entry)

low_three : (f : ℕ) → bit_and f 7 ≡ f % 8
low_three f = bit_and-mask 3 f

-- `pmm_bit_set` keeps bytes, and changes the bit of its frame only.
pub bit_set-Bytes : (f : ℕ) (bm : Bitmap) → Bytes bm → Bytes (bit_set f bm)
unfolding bit_set
bit_set-Bytes f bm b i =
    ground (arith, low_three f, b i, byte_set (bm (f / 8)) (f % 8) 0 (b (f / 8)))

pub bit_clear-Bytes : (f : ℕ) (bm : Bitmap) → Bytes bm → Bytes (bit_clear f bm)
unfolding bit_clear
bit_clear-Bytes f bm b i =
    ground (arith, low_three f, b i, byte_clear (bm (f / 8)) (f % 8) 0 (b (f / 8)))

pub is_used-bit_set :
    (f g : ℕ) (bm : Bitmap)
    → Bytes bm
    → is_used (bit_set f bm) g ≡ (if g == f then true else is_used bm g)
unfolding is_used bit_test bit_set
is_used-bit_set f g bm b =
    rw (low_three f, low_three g)
      (ground (arith, byte_set (bm (f / 8)) (f % 8) (g % 8) (b (f / 8))))

pub is_used-bit_clear :
    (f g : ℕ) (bm : Bitmap)
    → Bytes bm
    → is_used (bit_clear f bm) g ≡ (if g == f then false else is_used bm g)
unfolding is_used bit_test bit_clear
is_used-bit_clear f g bm b =
    rw (low_three f, low_three g)
      (ground (arith, byte_clear (bm (f / 8)) (f % 8) (g % 8) (b (f / 8))))
