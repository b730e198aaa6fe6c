-- ===== src/Drivers/Ps2.antt =====
-- kernel/src/drivers/ps2.c and kernel/include/drivers/ps2.h: the PS/2 controller. `fuel` bounds the
-- rounds of the loops without a timeout; the log messages are left out.
pub mod Send
pub mod Quiet
pub mod Device
pub mod Controller
use j_oe_s.Base.{
  ℕ, zero, suc, ◌+◌, ◌*◌, ◌^◌, Bool, true, false, ◌&&◌, ◌||◌, Option, none, some, bit_and, ltb,
  ◌==◌, shifted_one, if◌then◌else◌,
}
use j_oe_s.Drivers.Port.{Bus, Machine, port_read_byte, port_write_byte}
use j_oe_s.Drivers.Port.Io.{Io, pure, ◌>>=◌, ◌>>◌, out_port, in_port, wait_while}

-- `ps2_error_codes_t`
pub data Ps2Error : Type 0 where
  ps2_ok controller_test_failed port_test_failed no_working_ports device_reset_failed timed_out
        no_ack :
      Ps2Error

abbrev pub is_ok : Ps2Error → Bool
is_ok ps2_ok = true
is_ok _ = false

abbrev pub is_timeout : Ps2Error → Bool
is_timeout timed_out = true
is_timeout _ = false

abbrev pub is_no_ack : Ps2Error → Bool
is_no_ack no_ack = true
is_no_ack _ = false

abbrev pub ps2_data : ℕ
ps2_data = 0x60

-- `PS2_COMMAND` and `PS2_STATUS`
abbrev pub ps2_command : ℕ
ps2_command = 0x64

abbrev pub port_cmd : ℕ
port_cmd = 0

abbrev pub port_1 : ℕ
port_1 = 1

abbrev pub port_2 : ℕ
port_2 = 2

-- `PS2_TIMEOUT` and `PS2_MAX_RESENDS`
abbrev pub timeout_rounds : ℕ
timeout_rounds = 100000

abbrev pub max_resends : ℕ
max_resends = 5

-- `ps2_device_types`
abbrev pub kbd_at : ℕ
kbd_at = 0x01ffff

abbrev pub device_is_keyboard : ℕ → Bool
device_is_keyboard type = type == kbd_at || (type == 0xab83 || type == 0xabc1)

abbrev pub device_is_mouse : ℕ → Bool
device_is_mouse type = type == 0x0000 || (type == 0x0300 || type == 0x0400)

-- `ps2_device_response`
abbrev pub dev_ack : ℕ
dev_ack = 0xfa

abbrev pub dev_resend : ℕ
dev_resend = 0xfe

abbrev pub dev_echo : ℕ
dev_echo = 0xee

-- The tests of `ps2_output_buffer_full` and `ps2_input_buffer_full` on the status byte.
abbrev pub output_buffer_full : ℕ → Bool
output_buffer_full status = if bit_and status 1 == 0 then false else true

abbrev pub input_buffer_full : ℕ → Bool
input_buffer_full status = if bit_and status (shifted_one 1) == 0 then false else true

abbrev pub output_buffer_empty : ℕ → Bool
output_buffer_empty status = if output_buffer_full status then false else true

-- Whether a response ends the attempts.
abbrev pub acknowledges : ℕ → ℕ → Bool
acknowledges response data' =
    if response == dev_resend
    then false
    else if response == dev_ack
    then true
    else response == dev_echo && data' == dev_echo

module _ {D : Type 0} (bus : Bus D) where
  -- The loops with a timeout, which wait while `busy` holds of the status; `false` where the
  -- counter, which starts at the first argument, has reached 0.
  unfoldable pub wait_bounded : ℕ → (ℕ → Bool) → Machine D → Bool × Machine D
  wait_bounded zero busy m = (false, m)
  wait_bounded (suc timeout) busy m =
      let (status, m') = port_read_byte bus ps2_command m in
      let rest = wait_bounded timeout busy m' in if busy status then rest else (true, m')

  -- The loop of `ps2_flush_output_buffer`.
  unfoldable pub flush_loop : ℕ → Io D (Unit {0})
  flush_loop zero m = none
  flush_loop (suc left) m =
      let (status, m') = port_read_byte bus ps2_command m in
      let rest = flush_loop left (port_read_byte bus ps2_data m').1 in
      if output_buffer_full status then rest else some (tt, m')

  -- `ps2_receive_byte`: the error code and what it stores at its argument.
  unfoldable pub ps2_receive_byte : Io D (Ps2Error × ℕ)
  ps2_receive_byte m =
      let (ready, m') = wait_bounded timeout_rounds output_buffer_empty m in
      let (byte, m'') = port_read_byte bus ps2_data m' in
      if ready then some ((ps2_ok, byte), m'') else some ((timed_out, 0), m')

  -- The end of `ps2_raw_send_byte`: waiting and writing the byte.
  unfoldable pub write_data : ℕ → Io D Ps2Error
  write_data data' m =
      let (ready, m') = wait_bounded timeout_rounds input_buffer_full m in
      if ready then some (ps2_ok, port_write_byte bus ps2_data data' m') else some (timed_out, m')

module _ {D : Type 0} (bus : Bus D) (fuel : ℕ) where
  unfoldable pub ps2_send_command : ℕ → Io D (Unit {0})
  ps2_send_command command =
      wait_while bus fuel input_buffer_full ps2_command >> out_port bus ps2_command command

  abbrev pub ps2_flush_output_buffer : Io D (Unit {0})
  ps2_flush_output_buffer = flush_loop bus fuel

  -- `PS2_CMD_SEND_NEXT_BYTE_TO_PORT_2` is 0xd4.
  unfoldable pub ps2_raw_send_byte : ℕ → ℕ → Io D Ps2Error
  ps2_raw_send_byte port data' =
      if port == port_2 then ps2_send_command 0xd4 >> write_data bus data' else write_data bus data'

  -- What follows a byte that has been sent: whether an answer ends the attempts.
  unfoldable pub acknowledged : ℕ → Io D Bool
  acknowledged data' = do
    answer ← ps2_receive_byte bus
    pure (is_ok answer.0 && acknowledges answer.1 data')

  -- One round of the loop of `ps2_send_byte`: whether it returns.
  unfoldable pub attempt : ℕ → ℕ → Io D Bool
  attempt port data' = do
    sent ← ps2_raw_send_byte port data'
    if is_ok sent then acknowledged data' else pure false

  unfoldable pub attempts : ℕ → ℕ → ℕ → Io D Ps2Error
  attempts zero port data' = pure no_ack
  attempts (suc left) port data' =
      let rest = attempts left port data' in
      do done ← attempt port data'; if done then pure ps2_ok else rest

  abbrev pub ps2_send_byte : ℕ → ℕ → Io D Ps2Error
  ps2_send_byte port data' = attempts max_resends port data'
