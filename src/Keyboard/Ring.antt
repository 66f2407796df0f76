-- ===== src/Keyboard/Ring.antt =====
-- The ring buffer of src/keyboard.c as the list of the characters that wait in it.
use god_os.Base.{
  ℕ, zero, suc, ◌+◌, ◌-◌, ◌%◌, ◌^◌, ◌<◌, ◌≡◌, ◌≢◌, refl, ap, ◌∙◌, List, [], ◌∷◌, ◌++◌, arith,
  length, get_or, set, length-set, get_or-set_self, get_or-set_ne, some, Bool-cases, ◌==◌, ==_ne,
  inl, inr,
}
use mathlib.Core.Path.{ap₂}
use god_os.Base.Bits.{bit_and-mask}
use god_os.Keyboard.{Keyboard, buf_size, next_index, enqueue, kb_get, initial}
use god_os.Keyboard.Queue.{push, pop}

-- The indices are in range and the array has its 64 cells.
pub record IsValid (k : Keyboard) : Type 0 where
  pub cells : length k.buf ≡ buf_size
  pub head_in : k.head < buf_size
  pub tail_in : k.tail < buf_size

next_index_lem : (i : ℕ) → i < buf_size → next_index i ≡ (i + 1) % 64
unfolding next_index
next_index_lem i h = omega (arith, bit_and-mask 6 ((i + 1) % 2 ^ 32))

-- `n` characters from cell `i` on, going round.
abbrev pub items : List ℕ → ℕ → ℕ → List ℕ
items buf i zero = []
items buf i (suc n) = get_or buf (i % 64) 0 ∷ items buf (i + 1) n

abbrev pub waiting : Keyboard → ℕ
waiting k = (k.head + 64 - k.tail) % 64

abbrev pub contents : Keyboard → List ℕ
contents k = items k.buf k.tail (waiting k)

length-items : (buf : List ℕ) (i n : ℕ) → length (items buf i n) ≡ n
length-items buf i zero = refl
length-items buf i (suc n) = ap suc (length-items buf (i + 1) n)

-- No more than 63 characters wait.
pub contents_short : (k : Keyboard) → length (contents k) < 64
contents_short k = omega (arith, length-items k.buf k.tail (waiting k))

items-mod : (buf : List ℕ) (i j n : ℕ) → i % 64 ≡ j % 64 → items buf i n ≡ items buf j n
items-mod buf i j zero e = refl
items-mod buf i j (suc n) e =
    ap₂ ◌∷◌ (ap (λ t. get_or buf t 0) e) (items-mod buf (i + 1) (j + 1) n (omega arith))

-- A write to a cell that the run does not reach, then the run extended by that cell.
items-set :
    (buf : List ℕ) (i n c p : ℕ)
    → length buf ≡ 64
    → n < 64
    → p ≡ (i + n) % 64
    → items (set buf p c) i (suc n) ≡ items buf i n ++ (c ∷ [])
items-set buf i zero c p len lt e =
    let here : i % 64 ≡ p = omega arith in
    ap (λ t. t ∷ [])
      (ap (λ t. get_or (set buf p c) t 0) here ∙ get_or-set_self buf p c 0 (omega arith))
items-set buf i (suc n) c p len lt e =
    let away : p ≢ i % 64 = omega arith in
    ap₂ ◌∷◌ (get_or-set_ne buf c 0 away)
      (items-set buf (i + 1) n c p len (omega arith) (omega arith))

-- `items` matches on `suc`, the code compares the two indices.
items-pop :
    (buf : List ℕ) (i n : ℕ)
    → n ≢ 0
    → pop (items buf i n) ≡ (some (get_or buf (i % 64) 0), items buf (i + 1) (n - 1))
unfolding pop
items-pop buf i zero h = absurd (h refl)
items-pop buf i (suc n) h =
    ap (λ t. (some (get_or buf (i % 64) 0), items buf (i + 1) t)) (omega arith)

pub initial-IsValid : IsValid initial
initial-IsValid = omega arith

pub enqueue-IsValid : (c : ℕ) {k : Keyboard} → IsValid k → IsValid (enqueue c k)
unfolding enqueue
enqueue-IsValid c {k} v = ground (arith, length-set k.buf k.head c, next_index_lem k.head)

pub kb_get-IsValid : {k : Keyboard} → IsValid k → IsValid (kb_get k).1
unfolding kb_get
kb_get-IsValid {k} v = ground (arith, next_index_lem k.tail)

-- Appending a character is `push` on the list of the characters that wait.
pub contents-enqueue :
    (c : ℕ) {k : Keyboard} → IsValid k → contents (enqueue c k) ≡ push (contents k) (some c)
unfolding enqueue push
contents-enqueue c {k} v =
    let long = length-items k.buf k.tail (waiting k) in
    elim (Bool-cases (next_index k.head == k.tail)) [
      | inl full ↦ rw (full, long) (ground (arith, next_index_lem k.head v.head_in))
      | inr room ↦
          let e = next_index_lem k.head v.head_in in
          let more : (next_index k.head + 64 - k.tail) % 64 ≡ suc (waiting k) = ground arith in
          let small : waiting k < 63 = ground arith in
          rw (room, more, long, ==_ne (waiting k) 63 (omega arith))
            (items-set k.buf k.tail (waiting k) c k.head v.cells (omega arith) (omega arith))
    ]

-- Taking a character is `pop`.
pub contents-kb_get :
    {k : Keyboard} → IsValid k → ((kb_get k).0, contents (kb_get k).1) ≡ pop (contents k)
unfolding kb_get pop
contents-kb_get {k} v =
    let e = next_index_lem k.tail v.tail_in in
    elim (Bool-cases (k.head == k.tail)) [
      | inl empty ↦ let none_wait : waiting k ≡ 0 = ground arith in rw (empty, none_wait)
      | inr some_wait ↦
          let left : (k.head + 64 - next_index k.tail) % 64 ≡ waiting k - 1 = ground arith in
          rw
            (
              some_wait,
              left,
              items-pop k.buf k.tail (waiting k) (ground arith),
              items-mod k.buf (next_index k.tail) (k.tail + 1) (waiting k - 1) (omega arith),
            )
            (ap (λ t. (some (get_or k.buf t 0), items k.buf (k.tail + 1) (waiting k - 1)))
              (omega arith))
    ]
