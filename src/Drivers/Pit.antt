-- ===== src/Drivers/Pit.antt =====
-- kernel/src/drivers/pit.c and kernel/include/drivers/pit.h: the interval timer. The log message of
-- the error branch is left out.
use j_oe_s.Base.{
  ℕ, ◌+◌, ◌*◌, ◌/◌, ◌^◌, ◌<◌, ◌≤◌, ◌≡◌, min, refl, Bool, true, false, ◌||◌, ◌∷◌, ◌⊎◌, inl, inr,
  bit_or, u8, u16, u32, ltb, ◌==◌, shifted_one, if◌then◌else◌, Bool-cases, arith,
}
use native.Mathlib.Nat.{le-div_iff_mul-le, div-lt_iff_lt-mul}
use j_oe_s.Drivers.Port.{Bus, Machine, wrote, port_write_byte, cli, sti}

-- `pit_error_codes`
pub data PitError : Type 0 where
  pit_ok frequency_out_of_bounds : PitError

abbrev pub f_ref : ℕ
f_ref = 1193182

abbrev pub max_frequency : ℕ
max_frequency = f_ref

-- `PIT_F_REF / UINT16_MAX`
abbrev pub min_frequency : ℕ
min_frequency = f_ref / 65535

abbrev pub pit_command : ℕ
pit_command = 0x43

abbrev pub pit_channel_0 : ℕ
pit_channel_0 = 0x40

-- The divisor of a frequency in bounds, limited to `UINT16_MAX`.
unfoldable pub divisor_of : ℕ → ℕ
divisor_of frequency =
    let divisor = u32 (f_ref / frequency) in if ltb 65535 divisor then 65535 else divisor

-- `select_counter | PIT_RW_LOW_HIGH | mode | PIT_BCD_BINARY`
unfoldable pub control_word : ℕ → ℕ → ℕ
control_word channel mode =
    let select_counter = if channel == pit_channel_0 then 0 else shifted_one 7 in
    bit_or (bit_or (bit_or select_counter (bit_or (shifted_one 5) (shifted_one 4))) mode) 0

abbrev pub out_of_bounds : ℕ → Bool
out_of_bounds frequency = ltb frequency min_frequency || ltb max_frequency frequency

module _ {D : Type 0} (bus : Bus D) where
  unfoldable pub pit_init_channel : ℕ → ℕ → ℕ → Machine D → PitError × Machine D
  pit_init_channel channel frequency mode m =
      let off = cli m in
      if out_of_bounds frequency
      then (frequency_out_of_bounds, off)
      else (let divisor = divisor_of frequency in
          let m1 = port_write_byte bus pit_command (control_word channel mode) off in
          let m2 = port_write_byte bus channel (u8 divisor) m1 in
          let m3 = port_write_byte bus channel (u16 divisor / 2 ^ 8) m2 in (pit_ok, sti m3))

divisor_of-bounds :
    (frequency : ℕ)
    → 18 ≤ frequency
    → frequency ≤ f_ref
    → (divisor_of frequency ≡ min (f_ref / frequency) 65535)
      × (1 ≤ divisor_of frequency)
      × (divisor_of frequency < 2 ^ 16)
unfolding divisor_of
divisor_of-bounds frequency low high =
    let at_least =
      (le-div_iff_mul-le {k = frequency} {x = 1} {y = f_ref} (omega arith)).1 (omega arith) in
    let below =
      (div-lt_iff_lt-mul {k = frequency} {x = f_ref} {y = 2 ^ 32} (omega arith)).1 (omega arith) in
    (ground arith, ground arith, ground arith)

module _ {D : Type 0} (bus : Bus D) where
  -- For every frequency and every channel that is a 16-bit port, `pit_init_channel` either refuses a
  -- frequency below 18 or above 1193182 Hz, and then it has written nothing and leaves the
  -- interrupts disabled, or the frequency is from 18 to 1193182 Hz, the control word and
  -- two bytes have been written to the channel, low byte first, that make the quotient of the clock by
  -- the frequency, cut to 65535 and at least 1, and the interrupts are enabled.
  pub pit_init_channel_lem :
      (channel frequency mode : ℕ) (m : Machine D)
      → channel < 2 ^ 16
      → let (r, m') = pit_init_channel bus channel frequency mode m in
        ((r ≡ frequency_out_of_bounds)
          × ((frequency < 18) ⊎ (1193182 < frequency))
          × (m' ≡ record m { interrupts = false }))
        ⊎ ((r ≡ pit_ok)
            × (18 ≤ frequency)
            × (frequency ≤ 1193182)
            × (m'.interrupts ≡ true)
            × ((low : ℕ) × (high : ℕ) × (m'.log
                  ≡ wrote channel high
                    ∷ wrote channel low
                    ∷ wrote 0x43 (u8 (control_word channel mode))
                    ∷ m.log)
                × (low + high * 256 ≡ min (1193182 / frequency) 65535)
                × (1 ≤ low + high * 256)))
  unfolding pit_init_channel port_write_byte
  pit_init_channel_lem channel frequency mode m small =
      elim (Bool-cases (out_of_bounds frequency)) [
        | inl out ↦ rw out (inl (refl, ground arith, refl))
        | inr within ↦
            let bounds = divisor_of-bounds frequency (ground arith) (ground arith) in
            rw within (
              inr (
                refl,
                ground arith,
                ground arith,
                refl,
                (
                  u8 (divisor_of frequency),
                  u16 (divisor_of frequency) / 2 ^ 8,
                  ground arith,
                  omega (arith, bounds),
                  omega (arith, bounds),
                ),
              ))
      ]
