-- ===== src/Pic/Masks.antt =====
-- The interrupt masks of src/pic.c: which lines the controllers let through.
use god_os.Base.{
  ℕ, zero, suc, ◌-◌, ◌/◌, ◌%◌, ◌^◌, ◌≡◌, ◌<◌, ◌≤◌, refl, ap, ◌∙◌, ◌==◌, ltb, leb, if◌then◌else◌,
  Bool, true, false, ◌&&◌, not, bit_and, bit_or, arith, Bool-cases, ==_true, inl, inr, ◌⊎◌,
}
use god_os.Base.Bits.{bit_and-mask}
use god_os.Io.{Bus}
use god_os.Pic.{data_port, new_mask, pic_update_mask, pic_init, pic_mask, pic_unmask}
use god_os.Pmm.Bitmap.{byte_set, byte_clear}

abbrev IsData : ℕ → Type 0
IsData p = (p ≡ 0x21) ⊎ (p ≡ 0xA1)

-- The eight initialisation words of the two 8259As, from the first command word on.
abbrev words_of : {D : Type 0} → Bus D → D → D
words_of bus d = bus.outb 0xA1 0x01 (
    bus.outb 0x21 0x01 (
      bus.outb 0xA1 0x02 (
        bus.outb 0x21 0x04
          (bus.outb 0xA1 0x28 (bus.outb 0x21 0x20 (bus.outb 0xA0 0x11 (bus.outb 0x20 0x11 d)))))))

-- What the driver relies on: after the eight initialisation words the controllers are ready, and stay so
-- while only the data ports are used. A ready controller's data port holds its mask, which a read
-- answers and leaves alone and a write replaces.
pub record IsPic {D : Type 0} (bus : Bus D) : Type 1 where
  pub ready : D → Type 0
  pub initialised : (d : D) → ready (words_of bus d)
  pub mask : D → ℕ → ℕ
  pub mask_byte : (d : D) (p : ℕ) → mask d p < 256
  pub read : (d : D) (p : ℕ) → ready d → IsData p → (bus.inb p d).0 ≡ mask d p
  pub read_ready : (d : D) (p : ℕ) → ready d → IsData p → ready (bus.inb p d).1
  pub read_keeps :
      (d : D) (p q : ℕ) → ready d → IsData p → IsData q → mask (bus.inb p d).1 q ≡ mask d q
  pub write_ready : (d : D) (p v : ℕ) → ready d → IsData p → v < 256 → ready (bus.outb p v d)
  pub write :
      (d : D) (p q v : ℕ)
      → ready d
      → IsData p
      → IsData q
      → v < 256
      → mask (bus.outb p v d) q ≡ (if q == p then v else mask d q)

-- Bit `j` of the byte written back for line `irq`.
new_mask-bit :
    (irq : ℕ) (masked : Bool) (old j : ℕ)
    → old < 256
    → j < 8
    → (new_mask irq masked old < 256)
      × (bit_and (new_mask irq masked old / 2 ^ j) 1
          ≡ (if j == irq % 8 then (if masked then 1 else 0) else bit_and (old / 2 ^ j) 1))
unfolding new_mask
new_mask-bit irq true old j h hj =
    let low : bit_and irq 7 ≡ irq % 8 = bit_and-mask 3 irq in
    let (byte, bit) = byte_set old (irq % 8) j h (omega arith) hj in
    let flat : bit_or old (2 ^ (irq % 8) % 256) % 256 ≡ bit_or old (2 ^ (irq % 8) % 256) =
      omega (arith, byte) in
    rw (low, flat) (byte, bit)
new_mask-bit irq false old j h hj =
    let low : bit_and irq 7 ≡ irq % 8 = bit_and-mask 3 irq in
    let (byte, bit) = byte_clear old (irq % 8) j h (omega arith) hj in
    let flat : bit_and old (255 - 2 ^ (irq % 8) % 256) % 256
        ≡ bit_and old (255 - 2 ^ (irq % 8) % 256) =
      omega (arith, byte) in
    rw (low, flat) (byte, bit)

either : (irq : ℕ) → IsData (data_port irq)
either irq = elim (Bool-cases (ltb irq 8)) [
  | inl first ↦ rw first (inl refl)
  | inr second ↦ rw second (inr refl)
]

same_chip :
    (irq n : ℕ)
    → irq < 16
    → n < 16
    → (data_port n == data_port irq) ≡ true
    → (n == irq) ≡ (n % 8 == irq % 8)
same_chip irq n h hn e = ground arith

-- Both masks were set to 0xFF.
all_ones :
    (p old k : ℕ)
    → IsData p
    → k < 8
    → not (bit_and ((if p == 0xA1 then 255 else if p == 0x21 then 255 else old) / 2 ^ k) 1 == 0)
      ≡ true
all_ones p old k port h =
    let full : (if p == 0xA1 then 255 else if p == 0x21 then 255 else old) ≡ 255 = ground arith in
    let odd = bit k h in rw (full, odd)
  where
    bit : (k : ℕ) → k < 8 → bit_and (255 / 2 ^ k) 1 ≡ 1
    bit zero h = refl
    bit (suc zero) h = refl
    bit (suc (suc zero)) h = refl
    bit (suc (suc (suc zero))) h = refl
    bit (suc (suc (suc (suc zero)))) h = refl
    bit (suc (suc (suc (suc (suc zero))))) h = refl
    bit (suc (suc (suc (suc (suc (suc zero)))))) h = refl
    bit (suc (suc (suc (suc (suc (suc (suc zero))))))) h = refl
    bit (suc (suc (suc (suc (suc (suc (suc (suc k)))))))) h = absurd (omega arith)

module _ {D : Type 0} {bus : Bus D} (pic : IsPic bus) where
  -- Line `n` is masked: bit `n % 8` of the first controller's mask (port 0x21) for the lines 0 to 7, and
  -- of the second's (port 0xA1) for the others.
  abbrev pub is_masked : D → ℕ → Bool
  is_masked d n = not (bit_and (pic.mask d (if ltb n 8 then 0x21 else 0xA1) / 2 ^ (n % 8)) 1 == 0)

  update_line :
      (irq : ℕ) (masked : Bool) (d : D)
      → irq < 16
      → pic.ready d
      → pic.ready (pic_update_mask bus irq masked d)
        × ((n : ℕ)
            → n < 16
            → is_masked (pic_update_mask bus irq masked d) n
              ≡ (if n == irq then masked else is_masked d n))
  unfolding pic_update_mask
  update_line irq masked d h ready =
      let p = data_port irq in
      let d' = (bus.inb p d).1 in
      let port = either irq in
      let old = pic.read d p ready port in
      let ready' = pic.read_ready d p ready port in
      let valid : leb 16 irq ≡ false = ground arith in
      let (small, _) = new_mask-bit irq masked (pic.mask d p) 0 (pic.mask_byte d p) (omega arith) in
      rw (valid, old)
        (
          pic.write_ready d' p _ ready' port small,
          λ n hn.
              let (byte, bit) =
                new_mask-bit irq masked (pic.mask d p) (n % 8) (pic.mask_byte d p) (omega arith) in
              let wrote =
                pic.write d' p (data_port n) (new_mask irq masked (pic.mask d p)) ready' port
                  (either n) byte in
              let kept = pic.read_keeps d p (data_port n) ready port (either n) in
              elim (Bool-cases (data_port n == data_port irq)) [
                | inl same ↦
                    let one_chip = same_chip irq n h hn same in
                    let mask_same = ap (pic.mask d) (==_true (data_port n) (data_port irq) same) in
                    rw (wrote, same, mask_same, one_chip) (ground (arith, bit))
                | inr other ↦
                    let two_chips : (n == irq) ≡ false = ground arith in
                    rw (wrote, other, two_chips, kept)
              ],
        )

  update_outside :
      (irq : ℕ) (masked : Bool) (d : D) → 16 ≤ irq → pic_update_mask bus irq masked d ≡ d
  unfolding pic_update_mask
  update_outside irq masked d h = let outside : leb 16 irq ≡ true = ground arith in rw outside

  mask_line :
      (irq : ℕ) (d : D) (n : ℕ)
      → pic.ready d
      → n < 16
      → is_masked (pic_mask bus irq d) n ≡ (if n == irq then true else is_masked d n)
  unfolding pic_mask
  mask_line irq d n ready hn = elim (Bool-cases (ltb irq 16)) [
    | inl line ↦ (update_line irq true d (ground arith) ready).1 n hn
    | inr outside ↦
        let ne : (n == irq) ≡ false = ground arith in
        rw (ne, update_outside irq true d (ground arith))
  ]

  unmask_line :
      (irq : ℕ) (d : D) (n : ℕ)
      → pic.ready d
      → n < 16
      → is_masked (pic_unmask bus irq d) n ≡ (
          if n == irq
          then false
          else if leb 8 irq && (ltb irq 16 && n == 2)
          then false
          else is_masked d n)
  unfolding pic_unmask
  unmask_line irq d n ready hn = elim (Bool-cases (ltb irq 16)) [
    | inr outside ↦
        let ne : (n == irq) ≡ false = ground arith in
        let far : leb 8 irq ≡ true = ground arith in
        rw (ne, far, outside, update_outside irq false d (ground arith))
    | inl line ↦ elim (Bool-cases (leb 8 irq)) [
      | inr first ↦ rw first ((update_line irq false d (ground arith) ready).1 n hn)
      | inl second ↦
          let d' = pic_update_mask bus 2 false d in
          let (ready', cascade) = update_line 2 false d (omega arith) ready in
          rw (second, line)
            ((update_line irq false d' (ground arith) ready').1 n hn
              ∙ ap (λ b. if n == irq then false else b) (cascade n hn))
    ]
  ]

  -- After the initialisation every line is masked.
  pub init_lines :
      (d : D)
      → pic.ready (pic_init bus d) × ((n : ℕ) → n < 16 → is_masked (pic_init bus d) n ≡ true)
  unfolding pic_init
  init_lines d =
      let d0 = words_of bus d in
      let d1 = bus.outb 0x21 0xFF d0 in
      let ready0 = pic.initialised d in
      let ready1 = pic.write_ready d0 0x21 0xFF ready0 (inl refl) (omega arith) in
      (
        pic.write_ready d1 0xA1 0xFF ready1 (inr refl) (omega arith),
        λ n hn.
            let second =
              pic.write d1 0xA1 (data_port n) 0xFF ready1 (inr refl) (either n) (omega arith) in
            let first =
              pic.write d0 0x21 (data_port n) 0xFF ready0 (inl refl) (either n) (omega arith) in
            rw (second, first) (all_ones (data_port n) _ (n % 8) (either n) (omega arith)),
      )

  -- `pic_mask` and `pic_unmask` on initialised controllers, for every line of the 16: `pic_mask` closes
  -- its line and leaves the others; `pic_unmask` opens its line, and line 2 with a line from 8 on, and
  -- leaves the others. With a number from 16 on both leave all lines.
  pub mask_lines :
      (irq : ℕ) (d : D) (n : ℕ)
      → pic.ready d
      → n < 16
      → (is_masked (pic_mask bus irq d) n ≡ (if n == irq then true else is_masked d n))
        × (is_masked (pic_unmask bus irq d) n ≡ (
            if n == irq
            then false
            else if leb 8 irq && (ltb irq 16 && n == 2)
            then false
            else is_masked d n))
  mask_lines irq d n ready hn = (mask_line irq d n ready hn, unmask_line irq d n ready hn)
