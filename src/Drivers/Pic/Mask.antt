-- ===== src/Drivers/Pic/Mask.antt =====
-- kernel/src/drivers/pic.c: which interrupts are masked after `pic_enable_irq` and
-- `pic_disable_irq`, on controllers whose data ports read and write their mask registers.
use j_oe_s.Base.{
  ℕ, ◌<◌, ◌≡◌, refl, Bool, true, false, ltb, Bool-cases, inl, inr, ◌==◌, if◌then◌else◌, ◌∙◌, ap,
  arith,
}
use j_oe_s.Base.Bits.{
  bit_at, set_bit, clear_bit, bit_at-set_bit, bit_at-clear_bit, set_bit-lt, clear_bit-lt,
}
use j_oe_s.Drivers.Port.{Bus, Machine, port_read_byte, port_write_byte}
use j_oe_s.Drivers.Pic.{mask_port, mask_bit, pic1_data, pic2_data, pic_enable_irq, pic_disable_irq}

-- The mask registers of controllers that have been initialized, as the ports show them.
pub record MaskRegisters {D : Type 0} (bus : Bus D) : Type 0 where
  pub mask1 : D → ℕ
  pub mask2 : D → ℕ
  pub small1 : (d : D) → mask1 d < 256
  pub small2 : (d : D) → mask2 d < 256
  pub read1 : (d : D) → bus.read pic1_data d ≡ (mask1 d, d)
  pub read2 : (d : D) → bus.read pic2_data d ≡ (mask2 d, d)
  pub write1 : (v : ℕ) (d : D) → v < 256 → mask1 (bus.write pic1_data v d) ≡ v
  pub write2 : (v : ℕ) (d : D) → v < 256 → mask2 (bus.write pic2_data v d) ≡ v
  pub keep1 : (v : ℕ) (d : D) → mask1 (bus.write pic2_data v d) ≡ mask1 d
  pub keep2 : (v : ℕ) (d : D) → mask2 (bus.write pic1_data v d) ≡ mask2 d

-- Both interrupts belong to PIC1, or both to PIC2.
same_chip : ℕ → ℕ → Bool
same_chip irq other = if ltb 7 irq then ltb 7 other else (if ltb 7 other then false else true)

same_bit :
    (irq other : ℕ) → same_chip irq other ≡ true → (mask_bit irq == mask_bit other) ≡ (irq == other)
unfolding same_chip
same_bit irq other h = ground arith

different : (irq other : ℕ) → same_chip irq other ≡ false → (irq == other) ≡ false
unfolding same_chip
different irq other h = ground arith

module _ {D : Type 0} {bus : Bus D} (pic : MaskRegisters bus) where
  -- Interrupt `irq` is masked.
  abbrev pub masked : Machine D → ℕ → Bool
  masked m irq =
      bit_at (if ltb 7 irq then pic.mask2 m.device else pic.mask1 m.device) (mask_bit irq)

  -- Writing one register's byte changes only what that register masks.
  abbrev written : ℕ → ℕ → Machine D → Machine D
  written irq v m = port_write_byte bus (mask_port irq) v (port_read_byte bus (mask_port irq) m).1

  abbrev register_of : Machine D → ℕ → ℕ
  register_of m irq = if ltb 7 irq then pic.mask2 m.device else pic.mask1 m.device

  read_register :
      (irq : ℕ) (m : Machine D) → (port_read_byte bus (mask_port irq) m).0 ≡ register_of m irq
  unfolding port_read_byte
  read_register irq m = elim (Bool-cases (ltb 7 irq)) [
    | inl high ↦ rw (high, pic.read2 m.device) (ground (arith, pic.small2 m.device))
    | inr low ↦ rw (low, pic.read1 m.device) (ground (arith, pic.small1 m.device))
  ]

  register_of_written :
      (irq other v : ℕ) (m : Machine D)
      → v < 256
      → register_of (written irq v m) other
        ≡ (if same_chip irq other then v else register_of m other)
  unfolding port_read_byte port_write_byte same_chip
  register_of_written irq other v m small = elim (Bool-cases (ltb 7 irq)) [
    | inl high ↦
        rw high
          (ground (arith, pic.write2 v m.device small, pic.keep1 v m.device, pic.read2 m.device))
    | inr low ↦
        rw low
          (ground (arith, pic.write1 v m.device small, pic.keep2 v m.device, pic.read1 m.device))
  ]

  mask_bit-lt : (irq : ℕ) → irq < 16 → mask_bit irq < 8
  mask_bit-lt irq h = ground arith

  register_of-lt : (m : Machine D) (irq : ℕ) → register_of m irq < 256
  register_of-lt m irq = ground (arith, pic.small1 m.device, pic.small2 m.device)

  same_register :
      (m : Machine D) (irq other : ℕ)
      → same_chip irq other ≡ true
      → register_of m irq ≡ register_of m other
  unfolding same_chip
  same_register m irq other h = ground arith

  -- Interrupts of one controller have different bits.
  masked_written :
      (irq other v : ℕ) (b : Bool) (m : Machine D)
      → v < 256
      → bit_at v (mask_bit other) ≡ (
          if mask_bit irq == mask_bit other then b else bit_at (register_of m irq) (mask_bit other))
      → masked (written irq v m) other ≡ (if irq == other then b else masked m other)
  masked_written irq other v b m small law =
      rw (register_of_written irq other v m small) (elim (Bool-cases (same_chip irq other)) [
        | inl same ↦ rw same (
            law
            ∙ ap (λ t. if t then b else bit_at (register_of m irq) (mask_bit other))
                (same_bit irq other same)
            ∙ ap (λ r. if irq == other then b else bit_at r (mask_bit other))
                (same_register m irq other same))
        | inr other_chip ↦ rw (other_chip, different irq other other_chip) refl
      ])

  -- On controllers whose data ports show their mask registers, `pic_enable_irq` unmasks its
  -- interrupt and `pic_disable_irq` masks it, for interrupt numbers below 16, and every other
  -- interrupt of both controllers stays as it was.
  pub pic_enable_irq-pic_disable_irq-masked :
      (irq other : ℕ) (m : Machine D)
      → irq < 16
      → other < 16
      → (masked (pic_enable_irq bus irq m) other ≡ (if irq == other then false else masked m other))
        × (masked (pic_disable_irq bus irq m) other
            ≡ (if irq == other then true else masked m other))
  unfolding pic_enable_irq pic_disable_irq
  pic_enable_irq-pic_disable_irq-masked irq other m hi ho =
      let value = read_register irq m in
      let bits = mask_bit-lt irq hi in
      let bits' = mask_bit-lt other ho in
      (
        rw value (
            masked_written irq other (clear_bit (register_of m irq) (mask_bit irq)) false m
              (clear_bit-lt _ _) (bit_at-clear_bit _ _ _ (register_of-lt m irq) bits bits')),
        rw value (
            masked_written irq other (set_bit (register_of m irq) (mask_bit irq)) true m
              (set_bit-lt _ _) (bit_at-set_bit _ _ _ (register_of-lt m irq) bits bits')),
      )
