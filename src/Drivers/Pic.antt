-- ===== src/Drivers/Pic.antt =====
-- kernel/src/drivers/pic.c: the two interrupt controllers.
pub mod Mask
use j_oe_s.Base.{
  ℕ, ◌+◌, ◌-◌, ◌*◌, Bool, bit_and, bit_or, u8, ltb, not32, shifted_one, if◌then◌else◌,
}
use j_oe_s.Base.Bits.{set_bit, clear_bit}
use j_oe_s.Drivers.Port.{Bus, Machine, port_write_byte, port_read_byte}

abbrev pub pic1_command : ℕ
pic1_command = 0x20

abbrev pub pic1_data : ℕ
pic1_data = 0x21

abbrev pub pic2_command : ℕ
pic2_command = 0xa0

abbrev pub pic2_data : ℕ
pic2_data = 0xa1

abbrev pub end_of_interrupt : ℕ
end_of_interrupt = shifted_one 5

-- The port of the mask register, and the bit in it.
abbrev pub mask_port : ℕ → ℕ
mask_port irq = if ltb 7 irq then pic2_data else pic1_data

abbrev pub mask_bit : ℕ → ℕ
mask_bit irq = if ltb 7 irq then irq - 8 else irq

module _ {D : Type 0} (bus : Bus D) where
  unfoldable pub pic_send_eoi : ℕ → Machine D → Machine D
  pic_send_eoi irq m =
      let m' = if ltb 7 irq then port_write_byte bus pic2_command end_of_interrupt m else m in
      port_write_byte bus pic1_command end_of_interrupt m'

  unfoldable pub pic_enable_irq : ℕ → Machine D → Machine D
  pic_enable_irq irq m =
      let (mask, m') = port_read_byte bus (mask_port irq) m in
      port_write_byte bus (mask_port irq) (clear_bit mask (mask_bit irq)) m'

  unfoldable pub pic_disable_irq : ℕ → Machine D → Machine D
  pic_disable_irq irq m =
      let (mask, m') = port_read_byte bus (mask_port irq) m in
      port_write_byte bus (mask_port irq) (set_bit mask (mask_bit irq)) m'

  -- `PIC_ICW1_INIT | PIC_ICW1_CASCADE_MODE | PIC_ICW1_ICW4_NEEDED`
  abbrev pub icw1 : ℕ
  icw1 = bit_or (bit_or (shifted_one 4) 0) 1

  -- The fourth initialization word goes to PIC1 twice.
  unfoldable pub pic_init : ℕ → ℕ → Machine D → Machine D
  pic_init offset_pic1 offset_pic2 m =
      let m1 = port_write_byte bus pic2_command icw1 (port_write_byte bus pic1_command icw1 m) in
      let m2 =
        port_write_byte bus pic2_data offset_pic2 (port_write_byte bus pic1_data offset_pic1 m1) in
      let m3 = port_write_byte bus pic2_data 2 (port_write_byte bus pic1_data (shifted_one 2) m2) in
      let m4 = port_write_byte bus pic1_data 1 (port_write_byte bus pic1_data 1 m3) in
      port_write_byte bus pic2_data 255 (port_write_byte bus pic1_data 255 m4)
