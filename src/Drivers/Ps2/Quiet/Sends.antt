-- ===== src/Drivers/Ps2/Quiet/Sends.antt =====
-- The operations on a port and on a device return, and leave the mask register alone.
use j_oe_s.Base.{ℕ, zero, suc, true, ◌≡◌, refl, ◌==◌}
use j_oe_s.Keyboard.Irq.{normal}
use j_oe_s.Drivers.Port.{Bus, port_write_byte}
use j_oe_s.Drivers.Port.Io.{out_port, wait_while}
use j_oe_s.Drivers.Ps2.{
  ps2_ok, timed_out, device_reset_failed, is_timeout, input_buffer_full, ps2_command,
  ps2_send_command, flush_loop, ps2_raw_send_byte, acknowledged, attempt, attempts,
}
use j_oe_s.Drivers.Ps2.Quiet.{
  Gives, Keeps, masks, Responsive, pure-Gives, pure-Keeps, bind-Keeps, if-Gives, wait_while-masks,
  flush_loop-masks, ps2_receive_byte-Keeps, write_data-Keeps,
}
use j_oe_s.Drivers.Ps2.Device.{
  reset_response, ps2_reset_device, second_byte, receive_type, write_config, identified,
  identify_untranslated, identify_quiet, ps2_identify_device, select_set, select_loop,
  start_scanning, kbd_setup, ps2_kbd_init, KeyboardDriver, KbdError, kbd_ok, too_many_resends,
  is_kbd_ok, is_uninitialized,
}

module _ {D : Type 0} {bus : Bus D} {fuel : ℕ} (able : Responsive bus fuel) where
  takes-Keeps : Keeps (wait_while bus fuel input_buffer_full ps2_command)
  takes-Keeps m =
      let (m', e) = able.takes m in
      record {
        value = tt;
        after = m';
        returns = e;
        holds = (tt, wait_while-masks bus fuel input_buffer_full ps2_command m m' e);
      }

  send-Keeps : (command : ℕ) → Keeps (out_port bus ps2_command command)
  unfolding port_write_byte masks
  send-Keeps command m = record {
    value = tt;
    after = port_write_byte bus ps2_command command m;
    returns = refl;
    holds = (tt, refl);
  }

  pub ps2_send_command-Keeps : (command : ℕ) → Keeps (ps2_send_command bus fuel command)
  unfolding ps2_send_command
  ps2_send_command-Keeps command = bind-Keeps takes-Keeps (λ taken. send-Keeps command)

  pub flush-Keeps : Keeps (flush_loop bus fuel)
  flush-Keeps m =
      let (m', e) = able.drains m in
      record { value = tt; after = m'; returns = e; holds = (tt, flush_loop-masks bus fuel m m' e) }

  raw_send-Keeps : (port data' : ℕ) → Keeps (ps2_raw_send_byte bus fuel port data')
  unfolding ps2_raw_send_byte
  raw_send-Keeps port data' =
      if-Gives (port == 2)
        (bind-Keeps (ps2_send_command-Keeps 0xd4) (λ done. write_data-Keeps bus data'))
        (write_data-Keeps bus data')

  attempts-Keeps : (left port data' : ℕ) → Keeps (attempts bus fuel left port data')
  unfolding attempts attempt acknowledged
  attempts-Keeps zero port data' = pure-Keeps _
  attempts-Keeps (suc left) port data' =
      bind-Keeps
        (bind-Keeps (raw_send-Keeps port data') λ sent.
          if-Gives _ (bind-Keeps (ps2_receive_byte-Keeps bus) (λ answer. pure-Keeps _))
            (pure-Keeps _))
        λ done. if-Gives done (pure-Keeps _) (attempts-Keeps left port data')

  reset_response-Keeps : Keeps (reset_response bus fuel)
  unfolding reset_response
  reset_response-Keeps = bind-Keeps (ps2_receive_byte-Keeps bus) λ answer.
      if-Gives (is_timeout answer.0) (pure-Keeps timed_out)
        (if-Gives (answer.1 == 0xaa) (pure-Keeps ps2_ok) (pure-Keeps device_reset_failed))

  pub ps2_reset_device-Keeps : (port : ℕ) → Keeps (ps2_reset_device bus fuel port)
  unfolding ps2_reset_device
  ps2_reset_device-Keeps port =
      bind-Keeps (attempts-Keeps 5 port 0xff) λ sent. if-Gives _ (pure-Keeps _) reset_response-Keeps

  pub write_config-Keeps : (config : ℕ) → Keeps (write_config bus fuel config)
  unfolding write_config
  write_config-Keeps config =
      bind-Keeps (ps2_send_command-Keeps 0x60)
        λ done. bind-Keeps (raw_send-Keeps 0 config) (λ sent. pure-Keeps tt)

  receive_type-Keeps : Keeps (receive_type bus fuel)
  unfolding receive_type second_byte
  receive_type-Keeps = bind-Keeps (ps2_receive_byte-Keeps bus) λ answer.
      if-Gives _ (bind-Keeps (ps2_receive_byte-Keeps bus) (λ answer'. pure-Keeps _)) (pure-Keeps _)

  identify_untranslated-Keeps :
      (port old config : ℕ) → Keeps (identify_untranslated bus fuel port old config)
  unfolding identify_untranslated identified
  identify_untranslated-Keeps port old config = bind-Keeps (write_config-Keeps _) λ done.
      bind-Keeps (attempts-Keeps 5 port 0xf2) λ sent. if-Gives _ (pure-Keeps _) (
        bind-Keeps receive_type-Keeps
          λ type. bind-Keeps (write_config-Keeps config) (λ restored. pure-Keeps _))

  pub ps2_identify_device-Keeps : (port old : ℕ) → Keeps (ps2_identify_device bus fuel port old)
  unfolding ps2_identify_device identify_quiet
  ps2_identify_device-Keeps port old = bind-Keeps flush-Keeps λ flushed.
      bind-Keeps (attempts-Keeps 5 port 0xf5) λ sent. if-Gives _ (pure-Keeps _) (
        bind-Keeps (ps2_send_command-Keeps 0x20) λ done.
          bind-Keeps (ps2_receive_byte-Keeps bus)
            λ answer. if-Gives _ (pure-Keeps _) (identify_untranslated-Keeps port old answer.1))

  select_set-Keeps : (port set : ℕ) → Keeps (select_set bus fuel port set)
  unfolding select_set
  select_set-Keeps port set = bind-Keeps (attempts-Keeps 5 port 0xf0) λ asked.
      bind-Keeps (ps2_receive_byte-Keeps bus) λ first.
        bind-Keeps (attempts-Keeps 5 port set)
          λ told. bind-Keeps (ps2_receive_byte-Keeps bus) (λ answer. pure-Keeps _)

  select_loop-Keeps : (left port set : ℕ) → Keeps (select_loop bus fuel left port set)
  unfolding select_loop
  select_loop-Keeps zero port set = pure-Keeps _
  select_loop-Keeps (suc left) port set = bind-Keeps (select_set-Keeps port set) λ response.
      if-Gives (response == 0xfa) (pure-Keeps kbd_ok) (
        if-Gives (response == 0xfe) (select_loop-Keeps left port set)
          (if-Gives (left == 0) (pure-Keeps too_many_resends) (pure-Keeps kbd_ok)))

  -- Where `ps2_kbd_init` reports success, the driver is in its normal state.
  abbrev pub Started : KbdError × KeyboardDriver → Type 0
  Started r = is_kbd_ok r.0 ≡ true → r.1.keyboard.state ≡ normal

  pub ps2_kbd_init-Gives :
      (port : ℕ) (k : KeyboardDriver) → Gives (ps2_kbd_init bus fuel port k) Started
  unfolding ps2_kbd_init kbd_setup start_scanning
  ps2_kbd_init-Gives port k =
      if-Gives (is_uninitialized k.keyboard.state)
        (bind-Keeps (attempts-Keeps 5 port 0xf5) λ quiet.
          bind-Keeps (select_loop-Keeps 3 port 1) λ selected.
            if-Gives (is_kbd_ok selected)
              (bind-Keeps (attempts-Keeps 5 port 0xf4) (λ scanning. pure-Gives _ (λ ok. refl)))
              (pure-Gives _ (λ ok. cc)))
        (pure-Gives _ (λ ok. cc))
