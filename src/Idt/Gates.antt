-- ===== src/Idt/Gates.antt =====
-- The interrupt table that `idt_init` of src/idt.c leaves.
use god_os.Base.{
  ℕ, ◌+◌, ◌*◌, ◌/◌, ◌%◌, ◌^◌, ◌≡◌, ◌<◌, refl, sym, ap, ◌∙◌, ◌==◌, ltb, leb, if◌then◌else◌, Bool,
  true, false, ◌&&◌, arith, suc, Bool-cases, ==_true, inl, inr,
}
use god_os.Base.Bits.{bit_and-mask}
use god_os.Base.Loop.{count_to, count_to_inv}
use god_os.Idt.{Gate, no_gate, gate_to, set_gate, idt_init}

-- The address that the processor puts together from a gate, and its present bit.
unfoldable pub target : Gate → ℕ
target g = g.offset_low + g.offset_mid * 2 ^ 16 + g.offset_high * 2 ^ 32

unfoldable pub present : Gate → Bool
present g = g.type_attr / 2 ^ 7 % 2 == 1

target-gate : (handler : ℕ) → handler < 2 ^ 64 → target (gate_to handler) ≡ handler
unfolding target gate_to
target-gate handler h = omega (
  arith,
  bit_and-mask 16 handler,
  bit_and-mask 16 (handler / 2 ^ 16),
  bit_and-mask 32 (handler / 2 ^ 32),
)

-- A loop that fills `n` gates from `first` on.
fill_lem :
    (index : ℕ → ℕ) (first n : ℕ) (gates idt : ℕ → Gate) (j : ℕ)
    → ((k : ℕ) → index k ≡ first + k)
    → count_to n (λ k t. set_gate (index k) (gates (index k)) t) idt j
      ≡ (if leb first j && ltb j (first + n) then gates j else idt j)
unfolding set_gate
fill_lem index first n gates idt j at =
    count_to_inv
      (λ k (t : ℕ → Gate).
        (j : ℕ) → t j ≡ (if leb first j && ltb j (first + k) then gates j else idt j))
      n (λ k t lt so_far j. one_more k t j (at k) (so_far j)) (λ j. none_yet j) j
  where
    none_yet : (j : ℕ) → idt j ≡ (if leb first j && ltb j (first + 0) then gates j else idt j)
    none_yet j = let out : (leb first j && ltb j (first + 0)) ≡ false = ground arith in rw out

    one_more :
        (k : ℕ) (t : ℕ → Gate) (j : ℕ)
        → index k ≡ first + k
        → t j ≡ (if leb first j && ltb j (first + k) then gates j else idt j)
        → (if j == index k then gates (index k) else t j)
          ≡ (if leb first j && ltb j (first + suc k) then gates j else idt j)
    one_more k t j e so_far = elim (Bool-cases (j == index k)) [
      | inl here ↦
          let inside : (leb first j && ltb j (first + suc k)) ≡ true = ground arith in
          rw (here, inside) (ap gates (sym (==_true j (index k) here)))
      | inr other ↦
          let same : (leb first j && ltb j (first + suc k)) ≡ (leb first j && ltb j (first + k)) =
            ground arith in
          rw (other, same) so_far
    ]

idt_init-gates :
    (stubs : ℕ → ℕ) (idt : ℕ → Gate) (j : ℕ)
    → idt_init stubs idt j
      ≡ (if ltb j 48 then gate_to (stubs j) else if ltb j 256 then no_gate else idt j)
unfolding idt_init
idt_init-gates stubs idt j =
    let to : ℕ → Gate = λ i. gate_to (stubs i) in
    let cleared = count_to 256 (λ i t. set_gate i no_gate t) idt in
    let exceptions = count_to 32 (λ i t. set_gate i (to i) t) cleared in
    let a = fill_lem (λ k. k) 0 256 (λ i. no_gate) idt j (λ k. omega arith) in
    let b = fill_lem (λ k. k) 0 32 to cleared j (λ k. omega arith) in
    let c = fill_lem (λ k. 32 + k) 32 16 to exceptions j (λ k. refl) in
    c
    ∙ ap (λ g. if leb 32 j && ltb j 48 then to j else g)
        (b ∙ ap (λ g. if leb 0 j && ltb j 32 then to j else g) a)
    ∙ together j (to j) (idt j)
  where
    together :
        (j : ℕ) (g rest : Gate)
        → (if leb 32 j && ltb j (32 + 16)
            then g
            else if leb 0 j && ltb j (0 + 32)
            then g
            else if leb 0 j && ltb j (0 + 256)
            then no_gate
            else rest)
          ≡ (if ltb j 48 then g else if ltb j 256 then no_gate else rest)
    together j g rest = ground arith

-- After `idt_init`, the gates 0 to 47 are present and lead to the stubs of their vectors, for stub
-- addresses of 64 bits, as interrupt gates of ring 0 (0x8E), with the kernel's code selector, on the
-- current stack; the gates 48 to 255 are not present and all zero.
pub idt_init_lem :
    (stubs : ℕ → ℕ) (idt : ℕ → Gate) (j : ℕ)
    → j < 256
    → stubs j < 2 ^ 64
    → let g = idt_init stubs idt j in
      (target g ≡ (if ltb j 48 then stubs j else 0))
      × (present g ≡ ltb j 48)
      × (g.selector ≡ (if ltb j 48 then 8 else 0))
      × (g.ist ≡ 0)
      × (g.type_attr ≡ (if ltb j 48 then 0x8E else 0))
      × (g.zero_word ≡ 0)
unfolding present target gate_to
idt_init_lem stubs idt j hj h = elim (Bool-cases (ltb j 48)) [
  | inl low ↦
      rw (idt_init-gates stubs idt j, low) (target-gate (stubs j) h, refl, refl, refl, refl, refl)
  | inr high ↦
      let inside : ltb j 256 ≡ true = ground arith in
      rw (idt_init-gates stubs idt j, high, inside) (refl, refl, refl, refl, refl, refl)
]
