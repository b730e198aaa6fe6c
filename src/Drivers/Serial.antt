-- ===== src/Drivers/Serial.antt =====
-- kernel/src/drivers/serial.c: the serial port. `fuel` bounds the rounds of each loop that waits for
-- the device; the log messages are left out.
pub mod Line
pub mod Log
use j_oe_s.Base.{
  ℕ, zero, suc, ◌+◌, ◌-◌, ◌*◌, ◌/◌, ◌%◌, ◌^◌, Bool, ◌||◌, Option, none, some, bit_and, bit_or, u8,
  u16, ltb, ◌==◌, shifted_one, if◌then◌else◌,
}
use j_oe_s.Libc.{Memory, write, strlen}
use j_oe_s.Drivers.Port.{Bus, Machine}
use j_oe_s.Drivers.Port.Io.{Io, pure, ◌>>=◌, ◌>>◌, out_port, in_port, wait_while}

-- `serial_error_codes_t`
pub data SerialError : Type 0 where
  serial_ok br_out_of_bounds loopback_failed : SerialError

abbrev pub baud_rate_max : ℕ
baud_rate_max = 115200

abbrev pub test_byte : ℕ
test_byte = 0x69

module _ {D : Type 0} (bus : Bus D) (fuel : ℕ) where
  unfoldable pub serial_send_byte : ℕ → ℕ → Io D (Unit {0})
  serial_send_byte port data' =
      wait_while bus fuel (λ status. bit_and status (shifted_one 5) == 0) (port + 5)
      >> out_port bus port data'

  unfoldable pub serial_read_byte : ℕ → Io D ℕ
  serial_read_byte port =
      wait_while bus fuel (λ status. bit_and status 1 == 0) (port + 5) >> in_port bus port

  -- The loop of `serial_print` at index `i`, with `left` rounds left.
  unfoldable pub serial_print_loop : ℕ → ℕ → ℕ → Memory → ℕ → Io D (Unit {0})
  serial_print_loop zero i port memory data' = pure tt
  serial_print_loop (suc left) i port memory data' = do
    serial_send_byte port (memory (data' + i))
    serial_print_loop left (i + 1) port memory data'

  -- `none` also where the string is longer than `fuel`.
  unfoldable pub serial_print : ℕ → Memory → ℕ → Io D (Unit {0})
  serial_print port memory data' m = elim (strlen fuel memory data') [
    | none ↦ none
    | some len ↦ serial_print_loop len 0 port memory data' m
  ]

  unfoldable pub serial_print_line : ℕ → Memory → ℕ → Io D (Unit {0})
  serial_print_line port memory data' = do serial_print port memory data'; serial_send_byte port 10

  -- The loop of `serial_read_line` at index `i`, with `left` rounds left until `buffer_size - 1`: the
  -- memory and the index after it.
  unfoldable pub read_loop : ℕ → ℕ → ℕ → ℕ → Memory → Io D (Memory × ℕ)
  read_loop zero i port dest memory m = some ((memory, i), m)
  read_loop (suc left) i port dest memory m = elim (serial_read_byte port m) [
    | none ↦ none
    | some (byte, m') ↦
        let memory' = write memory (dest + i) byte in
        let rest = read_loop left (i + 1) port dest memory' m' in
        if byte == 10 then some ((memory', i), m') else rest
  ]

  -- For a buffer size of at least 1, since `buffer_size - 1` wraps at 0.
  unfoldable pub serial_read_line : ℕ → ℕ → ℕ → Memory → Io D Memory
  serial_read_line port dest buffer_size memory = do
    byte ← serial_read_byte port
    r ← read_loop (buffer_size - 2) 1 port dest (write memory dest byte)
    pure (write r.0 (dest + (r.1 + 1)) 0)

  -- `serial_test`
  unfoldable pub serial_test : ℕ → Io D SerialError
  serial_test port = do
    out_port bus (port + 4) 0b00011011
    out_port bus port test_byte
    answer ← in_port bus port
    out_port bus (port + 4) 0b00001011
    pure (if answer == test_byte then serial_ok else loopback_failed)

  unfoldable pub serial_init : ℕ → ℕ → ℕ → Io D SerialError
  serial_init port baud_rate mode m =
      if ltb baud_rate_max baud_rate || ltb baud_rate 1
      then some (br_out_of_bounds, m)
      else ((do
        out_port bus (port + 1) 0
        out_port bus (port + 3) (shifted_one 7)
        out_port bus port (u8 (u16 (baud_rate_max / baud_rate)))
        out_port bus (port + 1) (u16 (baud_rate_max / baud_rate) / 2 ^ 8)
        out_port bus (port + 3) mode
        out_port bus (port + 2) (bit_or (bit_or (shifted_one 2) (shifted_one 1)) 1)
        serial_test port)
          m)

  -- `serial_log_write`: the context holds the port.
  abbrev pub serial_log_write : ℕ → ℕ → Io D (Unit {0})
  serial_log_write c context = serial_send_byte (u16 context) c
