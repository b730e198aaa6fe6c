-- ===== src/Keyboard/Buffer.antt =====
-- kernel/src/drivers/keyboard.c: the ring buffer of key events. Its counters are `uint8_t`.
pub mod Queue
use j_oe_s.Base.{
  ℕ, ◌+◌, ◌%◌, ◌-◌, List, Option, none, some, ltb, ◌==◌, if◌then◌else◌, get_elem?, set, replicate,
  u8,
}
use j_oe_s.Keyboard.Event.{KeyEvent, undefined}
use j_oe_s.Keyboard.KeyCode.{key_unknown}

abbrev pub buffer_size : ℕ
buffer_size = 32

pub record KeyBuffer : Type 0 where
  pub events : List KeyEvent
  pub capacity : ℕ
  pub size : ℕ
  pub front : ℕ

abbrev pub no_event : KeyEvent
no_event = record { keycode = key_unknown; pressed = undefined; modifiers = 0 }

-- The static initial values.
abbrev pub empty_buffer : KeyBuffer
empty_buffer = record {
  events = replicate buffer_size no_event;
  capacity = buffer_size;
  size = 0;
  front = 0;
}

-- A `set` out of range changes nothing; the invariant rules it out.
unfoldable pub append_key_event : KeyBuffer → KeyEvent → KeyBuffer
append_key_event b e =
    let rear = (b.front + b.size) % buffer_size in
    let events = set b.events rear e in
    if ltb b.size b.capacity
    then record b { events = events; size = u8 (b.size + 1) }
    else record b { events = events; front = (b.front + 1) % buffer_size }

-- `none` is KBD_ERROR_KEY_EVENT_BUFFER_EMPTY, with `*dest` untouched; otherwise the event that is
-- stored there, `none` inside for a read out of range.
unfoldable pub get_key_event : KeyBuffer → Option (Option KeyEvent × KeyBuffer)
get_key_event b =
    if b.size == 0
    then none
    else some (
      get_elem? b.events b.front,
      record b { front = (b.front + 1) % buffer_size; size = b.size - 1 },
    )
