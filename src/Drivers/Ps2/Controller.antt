-- ===== src/Drivers/Ps2/Controller.antt =====
-- kernel/src/drivers/ps2.c: `ps2_init_controller`, cut into the stages between its early returns.
pub mod Outcome
pub mod Init
use j_oe_s.Base.{
  ℕ, ◌*◌, ◌^◌, Bool, true, false, ◌||◌, some, ◌==◌, bit_and, shifted_one, if◌then◌else◌,
}
use j_oe_s.Base.Bits.{set_bit, clear_bit}
use j_oe_s.Drivers.Port.{Bus, Machine}
use j_oe_s.Drivers.Port.Io.{Io, pure, ◌>>=◌, ◌>>◌}
use j_oe_s.Drivers.Pic.{pic_enable_irq}
use j_oe_s.Drivers.Ps2.{
  Ps2Error, ps2_ok, controller_test_failed, no_working_ports, timed_out, is_timeout, port_1, port_2,
  device_is_keyboard, ps2_receive_byte, ps2_send_command, ps2_flush_output_buffer,
}
use j_oe_s.Drivers.Ps2.Device.{
  KeyboardDriver, ps2_reset_device, ps2_identify_device, ps2_kbd_init, write_config,
}

-- The static variables of ps2.c, with `ps2_ports`, and those of the keyboard driver.
pub record Controller : Type 0 where
  pub port_2_supported : Bool
  pub port_1_works : Bool
  pub port_2_works : Bool
  pub port_1_populated : Bool
  pub device_type_port_1 : ℕ
  pub port_2_populated : Bool
  pub device_type_port_2 : ℕ
  pub driver : KeyboardDriver

-- Bits of the configuration byte: interrupts 0 and 1, clocks (off) 4 and 5, translation 6.
abbrev pub quiet_config : ℕ → ℕ
quiet_config config = clear_bit (set_bit (clear_bit (clear_bit (clear_bit config 0) 1) 4) 5) 6

abbrev pub enable_port : Bool → ℕ → ℕ → ℕ → ℕ
enable_port works interrupt clock config =
    if works then clear_bit (set_bit config interrupt) clock else config

abbrev pub final_config : Controller → ℕ → ℕ
final_config c config = enable_port c.port_2_works 1 5 (enable_port c.port_1_works 0 4 config)

-- The result of the function, with its effect on the variables.
abbrev pub Result : Type 0
Result = Ps2Error × Controller

module _ {D : Type 0} (bus : Bus D) (fuel : ℕ) where
  abbrev pub command_if : Bool → ℕ → Io D (Unit {0})
  command_if b command = if b then ps2_send_command bus fuel command else pure tt

  -- The keyboard driver's initialization where the device is a keyboard: it is always told port 1.
  unfoldable pub init_keyboard : ℕ → Controller → Io D Controller
  init_keyboard type c =
      if device_is_keyboard type
      then (do r ← ps2_kbd_init bus fuel port_1 c.driver; pure (record c { driver = r.1 }))
      else pure c

  unfoldable pub identify_port_1 : Controller → Io D Controller
  identify_port_1 c = do
    r ← ps2_identify_device bus fuel port_1 c.device_type_port_1
    init_keyboard r.1 (record c { device_type_port_1 = r.1 })

  unfoldable pub identify_port_2 : Controller → Io D Controller
  identify_port_2 c = do
    r ← ps2_identify_device bus fuel port_2 c.device_type_port_2
    init_keyboard r.1 (record c { device_type_port_2 = r.1 })

  -- Both identifications depend on port 1.
  unfoldable pub identify_ports : Controller → Io D Result
  identify_ports c = do
    c' ← if c.port_1_populated then identify_port_1 c else pure c
    c'' ← if c'.port_1_populated then identify_port_2 c' else pure c'
    λ m. some ((ps2_ok, c''), pic_enable_irq bus 1 m)

  -- The result of a reset is only logged.
  abbrev pub reset_if : Bool → ℕ → Io D (Unit {0})
  reset_if works port = if works then ps2_reset_device bus fuel port >> pure tt else pure tt

  unfoldable pub reset_ports : Controller → Io D Result
  reset_ports c = do
    reset_if c.port_1_works port_1
    reset_if c.port_2_works port_2
    identify_ports (record c {
      port_1_populated = c.port_1_works || c.port_1_populated;
      port_2_populated = c.port_2_works || c.port_2_populated;
    })

  unfoldable pub enable_ports : ℕ → Controller → Io D Result
  enable_ports config c = do
    command_if c.port_1_works 0xae
    command_if c.port_2_works 0xa8
    write_config bus fuel (final_config c config)
    reset_ports c

  unfoldable pub check_ports : ℕ → Controller → Io D Result
  check_ports config c =
      if c.port_1_works || c.port_2_works then enable_ports config c else pure (no_working_ports, c)

  -- The interface test of port 2, for which the command of port 1, 0xab, is sent.
  unfoldable pub test_port_2 : ℕ → Controller → Io D Result
  test_port_2 config c = do
    ps2_send_command bus fuel 0xab
    answer ← ps2_receive_byte bus
    if is_timeout answer.0
        then pure (timed_out, c)
        else check_ports config (record c { port_2_works = answer.1 == 0 || c.port_2_works })

  unfoldable pub test_ports : ℕ → Controller → Io D Result
  test_ports config c = do
    ps2_send_command bus fuel 0xab
    answer ← ps2_receive_byte bus
    if is_timeout answer.0
        then pure (timed_out, c)
        else (let c' = record c { port_1_works = answer.1 == 0 || c.port_1_works } in
            if c'.port_2_supported then test_port_2 config c' else check_ports config c')

  -- Port 2 is taken as supported where bit 1 of the configuration byte is clear.
  unfoldable pub found_port_2 : ℕ → Bool → Controller → Io D Result
  found_port_2 config supported c = do
    if supported then ps2_send_command bus fuel 0xa7 >> write_config bus fuel config else pure tt
    test_ports config (record c { port_2_supported = supported })

  unfoldable pub detect_port_2 : ℕ → Controller → Io D Result
  detect_port_2 config c = do
    write_config bus fuel config
    ps2_send_command bus fuel 0xa8
    ps2_send_command bus fuel 0x20
    answer ← ps2_receive_byte bus
    if is_timeout answer.0
        then pure (timed_out, c)
        else found_port_2 config (bit_and answer.1 (shifted_one 1) == 0) c

  unfoldable pub self_test : ℕ → Controller → Io D Result
  self_test config c = do
    write_config bus fuel config
    ps2_send_command bus fuel 0xaa
    answer ← ps2_receive_byte bus
    if is_timeout answer.0
        then pure (timed_out, c)
        else (if answer.1 == 0x55 then detect_port_2 config c else pure (controller_test_failed, c))

  unfoldable pub ps2_init_controller : Controller → Io D Result
  ps2_init_controller c = do
    ps2_flush_output_buffer bus fuel
    ps2_send_command bus fuel 0xad
    ps2_send_command bus fuel 0xa7
    ps2_flush_output_buffer bus fuel
    ps2_send_command bus fuel 0x20
    answer ← ps2_receive_byte bus
    if is_timeout answer.0 then pure (timed_out, c) else self_test (quiet_config answer.1) c
