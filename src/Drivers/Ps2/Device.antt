-- ===== src/Drivers/Ps2/Device.antt =====
-- kernel/src/drivers/ps2.c: `ps2_reset_device` and `ps2_identify_device`;
-- kernel/src/drivers/ps2_keyboard.c: `ps2_kbd_set_scancode_set` and `ps2_kbd_init`.
use j_oe_s.Base.{ℕ, zero, suc, ◌*◌, ◌^◌, Bool, true, false, ◌==◌, bit_or, if◌then◌else◌}
use j_oe_s.Base.Bits.{clear_bit}
use j_oe_s.Keyboard.Irq.{Keyboard, State, uninitialized, normal}
use j_oe_s.Drivers.Port.{Bus}
use j_oe_s.Drivers.Port.Io.{Io, pure, ◌>>=◌, ◌>>◌}
use j_oe_s.Drivers.Ps2.{
  Ps2Error, ps2_ok, device_reset_failed, timed_out, no_ack, is_ok, is_timeout, is_no_ack, port_cmd,
  kbd_at, ps2_receive_byte, ps2_send_command, ps2_flush_output_buffer, ps2_raw_send_byte,
  ps2_send_byte,
}

-- `ps2_kbd_error_codes_t`
pub data KbdError : Type 0 where
  kbd_ok already_initialized set_scancode_set_failed too_many_resends : KbdError

abbrev pub is_kbd_ok : KbdError → Bool
is_kbd_ok kbd_ok = true
is_kbd_ok _ = false

abbrev pub is_uninitialized : State → Bool
is_uninitialized uninitialized = true
is_uninitialized _ = false

-- `ps2_kbd_port` and the other static variables of the keyboard driver.
pub record KeyboardDriver : Type 0 where
  pub port : ℕ
  pub keyboard : Keyboard

module _ {D : Type 0} (bus : Bus D) (fuel : ℕ) where
  -- What `ps2_reset_device` does once the command, 0xff, has been acknowledged.
  unfoldable pub reset_response : Io D Ps2Error
  reset_response = do
    answer ← ps2_receive_byte bus
    if is_timeout answer.0
        then pure timed_out
        else (if answer.1 == 0xaa then pure ps2_ok else pure device_reset_failed)

  unfoldable pub ps2_reset_device : ℕ → Io D Ps2Error
  ps2_reset_device port = do
    sent ← ps2_send_byte bus fuel port 0xff
    if is_no_ack sent then pure no_ack else reset_response

  -- The second byte of the device type, if there is one.
  unfoldable pub second_byte : ℕ → Io D ℕ
  second_byte type = do
    answer ← ps2_receive_byte bus
    pure (if is_ok answer.0 then bit_or type answer.1 else type)

  -- The type of the device, from up to two bytes.
  unfoldable pub receive_type : Io D ℕ
  receive_type = do
    answer ← ps2_receive_byte bus
    if is_ok answer.0 then second_byte (answer.1 * 2 ^ 8) else pure kbd_at

  -- Writing a configuration byte to the controller.
  unfoldable pub write_config : ℕ → Io D (Unit {0})
  write_config config = do
    ps2_send_command bus fuel 0x60
    ps2_raw_send_byte bus fuel port_cmd config
    pure tt

  -- The end of `ps2_identify_device`, from the acknowledged identify command on.
  unfoldable pub identified : ℕ → Io D (Ps2Error × ℕ)
  identified config = do type ← receive_type; write_config config; pure (ps2_ok, type)

  -- The middle of `ps2_identify_device`, from the configuration byte on.
  unfoldable pub identify_untranslated : ℕ → ℕ → ℕ → Io D (Ps2Error × ℕ)
  identify_untranslated port old config = do
    write_config (clear_bit config 6)
    sent ← ps2_send_byte bus fuel port 0xf2
    if is_no_ack sent then pure (no_ack, old) else identified config

  unfoldable pub identify_quiet : ℕ → ℕ → Io D (Ps2Error × ℕ)
  identify_quiet port old = do
    ps2_send_command bus fuel 0x20
    answer ← ps2_receive_byte bus
    if is_timeout answer.0 then pure (timed_out, old) else identify_untranslated port old answer.1

  -- `ps2_identify_device`: the error code and the device type, which is `old` where none is stored.
  unfoldable pub ps2_identify_device : ℕ → ℕ → Io D (Ps2Error × ℕ)
  ps2_identify_device port old = do
    ps2_flush_output_buffer bus fuel
    sent ← ps2_send_byte bus fuel port 0xf5
    if is_no_ack sent then pure (no_ack, old) else identify_quiet port old

  -- One round of the loop of `ps2_kbd_set_scancode_set`: the last response.
  unfoldable pub select_set : ℕ → ℕ → Io D ℕ
  select_set port set = do
    ps2_send_byte bus fuel port 0xf0
    ps2_receive_byte bus
    ps2_send_byte bus fuel port set
    answer ← ps2_receive_byte bus
    pure answer.1

  -- The loop with `left` tries left; its result after the last one does not look at the response.
  unfoldable pub select_loop : ℕ → ℕ → ℕ → Io D KbdError
  select_loop zero port set = pure too_many_resends
  select_loop (suc left) port set =
      let rest = select_loop left port set in
      do
        response ← select_set port set
        if response == 0xfa
            then pure kbd_ok
            else (if response == 0xfe
                then rest
                else (if left == 0 then pure too_many_resends else pure kbd_ok))

  abbrev pub ps2_kbd_set_scancode_set : ℕ → ℕ → Io D KbdError
  ps2_kbd_set_scancode_set port set = select_loop 3 port set

  -- The end of `ps2_kbd_init`, after the scan code set has been selected.
  unfoldable pub start_scanning : KeyboardDriver → Io D (KbdError × KeyboardDriver)
  start_scanning k = do
    ps2_send_byte bus fuel k.port 0xf4
    pure (kbd_ok, record k { keyboard = record k.keyboard { state = normal } })

  unfoldable pub kbd_setup : KeyboardDriver → Io D (KbdError × KeyboardDriver)
  kbd_setup k = do
    ps2_send_byte bus fuel k.port 0xf5
    selected ← ps2_kbd_set_scancode_set k.port 1
    if is_kbd_ok selected then start_scanning k else pure (set_scancode_set_failed, k)

  unfoldable pub ps2_kbd_init : ℕ → KeyboardDriver → Io D (KbdError × KeyboardDriver)
  ps2_kbd_init port k =
      let k' = record k { port = port } in
      if is_uninitialized k.keyboard.state then kbd_setup k' else pure (already_initialized, k')
