-- ===== src/Pic/Tests.antt =====
-- Runs of src/pic.c on a record of port writes, and its theorem on two mask registers.
use god_os.Base.{
  ℕ, ◌≡◌, ◌%◌, ◌==◌, refl, arith, if◌then◌else◌, ◌||◌, ◌-◌, false, List, [], ◌∷◌, ◌++◌,
}
use god_os.Io.{Bus}
use god_os.Pic.{pic_init, pic_mask, pic_unmask, pic_send_eoi}
use god_os.Pic.Masks.{IsPic, is_masked, mask_lines}

-- All writes, in order.
abbrev written : Bus (List (ℕ × ℕ))
written = record { outb = λ port v d. d ++ ((port, v) ∷ []); inb = λ port d. (0, d) }

init-writes :
    pic_init written []
    ≡ (0x20, 0x11)
      ∷ (0xA0, 0x11)
      ∷ (0x21, 0x20)
      ∷ (0xA1, 0x28)
      ∷ (0x21, 0x04)
      ∷ (0xA1, 0x02)
      ∷ (0x21, 0x01)
      ∷ (0xA1, 0x01)
      ∷ (0x21, 0xFF)
      ∷ (0xA1, 0xFF)
      ∷ []
unfolding pic_init
init-writes = refl

eoi-order : pic_send_eoi written 12 [] ≡ (0xA0, 0x20) ∷ (0x20, 0x20) ∷ []
unfolding pic_send_eoi
eoi-order = refl

-- Two mask registers, at 0x21 and 0xA1, and at 0x20 and 0xA0 how many initialisation words are due.
abbrev pub masks : Bus (ℕ → ℕ)
masks = record {
  outb = λ port v d q.
      if port == 0x20 || port == 0xA0
      then (if q == port then (if v == 0x11 then 3 else d q) else d q)
      else if d (port - 1) == 0
      then (if q == port then v else d q)
      else if q == port - 1
      then d q - 1
      else d q;
  inb = λ port d. (d port % 256, d);
}

abbrev pub masks-IsPic : IsPic masks
masks-IsPic = record {
  ready = λ d. (d 0x20 ≡ 0) × (d 0xA0 ≡ 0);
  initialised = λ d. (refl, refl);
  mask = λ d p. d p % 256;
  mask_byte = λ d p. omega arith;
  read = λ d p ready port. refl;
  read_ready = λ d p ready port. ready;
  read_keeps = λ d p q ready port other. refl;
  write_ready = λ d p v ready port byte. ground arith;
  write = λ d p q v ready port other byte. ground arith;
}

-- The registers after the initialisation.
abbrev masked : ℕ → ℕ
masked = λ p. if p == 0x21 || p == 0xA1 then 0xFF else 0

mask_lines_example :
    (is_masked masks-IsPic (pic_mask masks 12 masked) 2 ≡ is_masked masks-IsPic masked 2)
    × (is_masked masks-IsPic (pic_unmask masks 12 masked) 2 ≡ false)
mask_lines_example = mask_lines masks-IsPic 12 masked 2 (refl, refl) (omega arith)
