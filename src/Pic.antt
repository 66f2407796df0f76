-- ===== src/Pic.antt =====
-- src/pic.c and pic.h: the two interrupt controllers, behind the port interface.
pub mod Masks
pub mod Tests
use god_os.Base.{
  ℕ, ◌+◌, ◌-◌, ◌*◌, ◌/◌, ◌%◌, ◌^◌, ◌==◌, ltb, leb, if◌then◌else◌, Bool, true, false, ◌&&◌, bit_and,
  bit_or,
}
use god_os.Io.{Bus}

abbrev pic1_cmd : ℕ
pic1_cmd = 0x20

abbrev pub pic1_data : ℕ
pic1_data = 0x21

abbrev pic2_cmd : ℕ
pic2_cmd = 0xA0

abbrev pub pic2_data : ℕ
pic2_data = 0xA1

abbrev pic_eoi : ℕ
pic_eoi = 0x20

abbrev pic_icw1_init : ℕ
pic_icw1_init = 0x11

abbrev pic_icw2_master : ℕ
pic_icw2_master = 0x20

abbrev pic_icw2_slave : ℕ
pic_icw2_slave = 0x28

abbrev pic_icw3_master : ℕ
pic_icw3_master = 0x04

abbrev pic_icw3_slave : ℕ
pic_icw3_slave = 0x02

abbrev pic_icw4_8086 : ℕ
pic_icw4_8086 = 0x01

abbrev pic_mask_all : ℕ
pic_mask_all = 0xFF

-- `(irq < 8) ? PIC1_DATA : PIC2_DATA`, and `1u << (irq & 7u)`.
abbrev pub data_port : ℕ → ℕ
data_port irq = if ltb irq 8 then pic1_data else pic2_data

abbrev line_bit : ℕ → ℕ
line_bit irq = 2 ^ bit_and irq 7 % 256

-- The byte written back: `~bit` as a `uint8_t`.
unfoldable pub new_mask : ℕ → Bool → ℕ → ℕ
new_mask irq masked old =
    if masked then bit_or old (line_bit irq) % 256 else bit_and old (255 - line_bit irq) % 256

module _ {D : Type 0} (bus : Bus D) where
  unfoldable pub pic_init : D → D
  pic_init d =
      let d = bus.outb pic1_cmd pic_icw1_init d in
      let d = bus.outb pic2_cmd pic_icw1_init d in
      let d = bus.outb pic1_data pic_icw2_master d in
      let d = bus.outb pic2_data pic_icw2_slave d in
      let d = bus.outb pic1_data pic_icw3_master d in
      let d = bus.outb pic2_data pic_icw3_slave d in
      let d = bus.outb pic1_data pic_icw4_8086 d in
      let d = bus.outb pic2_data pic_icw4_8086 d in
      let d = bus.outb pic1_data pic_mask_all d in bus.outb pic2_data pic_mask_all d

  unfoldable pub pic_update_mask : ℕ → Bool → D → D
  pic_update_mask irq masked d =
      let port = data_port irq in
      let (old, after_read) = bus.inb port d in
      if leb 16 irq then d else bus.outb port (new_mask irq masked old) after_read

  unfoldable pub pic_mask : ℕ → D → D
  pic_mask irq d = pic_update_mask irq true d

  unfoldable pub pic_unmask : ℕ → D → D
  pic_unmask irq d =
      pic_update_mask irq false (if leb 8 irq && ltb irq 16 then pic_update_mask 2 false d else d)

  unfoldable pub pic_send_eoi : ℕ → D → D
  pic_send_eoi irq d =
      if leb 16 irq
      then d
      else bus.outb pic1_cmd pic_eoi (if leb 8 irq then bus.outb pic2_cmd pic_eoi d else d)
