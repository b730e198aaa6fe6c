-- ===== src/Keyboard/Irq.antt =====
-- kernel/src/drivers/ps2_keyboard.c: the state machine of `ps2_kbd_irq_callback`, which decodes scan
-- code set 1. The byte that `ps2_receive_byte` leaves in `scancode_raw` is an argument.
pub mod Decode
pub mod Sequences
use j_oe_s.Base.{
  ℕ, Bool, true, false, ◌||◌, List, [], ◌∷◌, Option, none, some, bit_and, bit_or, ◌==◌,
  if◌then◌else◌, u8, not32, shifted_one,
}
use j_oe_s.Keyboard.KeyCode.{KeyCode, key_unknown}
use j_oe_s.Keyboard.Scancodes.{scancode_set_1}
use j_oe_s.Keyboard.Event.{KeyEvent, EventType, pressed, released}
use j_oe_s.Keyboard.Buffer.{KeyBuffer, append_key_event}
use j_oe_s.Keyboard.Modifiers.{Modifiers, set_modifiers}

-- `ps2_kbd_scancode_set_t`
pub data ScancodeSet : Type 0 where
  get_current_scancode_set scancode_set_one scancode_set_two scancode_set_three : ScancodeSet

-- `ps2_kbd_state_t`
pub data State : Type 0 where
  uninitialized normal prefix_e0 prefix_e02a prefix_e02ae0 prefix_e0b7 prefix_e0b7e0 prefix_e1
        prefix_e11d prefix_e11d45 prefix_e11d45e1 prefix_e11d45e19d invalid :
      State

abbrev pub is_normal : State → Bool
is_normal normal = true
is_normal _ = false

-- `ps2_kbd_scancode_to_keycode`
unfoldable pub scancode_to_keycode : ℕ → State → ScancodeSet → KeyCode
scancode_to_keycode scancode state scancode_set_one =
    let code = u8 (bit_and scancode (not32 (shifted_one 7))) in
    scancode_set_1 (if is_normal state then code else u8 (bit_or code (shifted_one 7)))
scancode_to_keycode scancode state _ = key_unknown

-- The switch over the states: the new state where it returns, `none` where it breaks and a full
-- scan code has been received.
unfoldable pub switch : State → ℕ → Option State
switch normal raw =
    if raw == 0xe0 then some prefix_e0 else if raw == 0xe1 then some prefix_e1 else none
switch prefix_e0 raw =
    if raw == 0x2a then some prefix_e02a else if raw == 0xb7 then some prefix_e0b7 else none
switch prefix_e02a raw = if raw == 0xe0 then some prefix_e02ae0 else some invalid
switch prefix_e02ae0 raw = if raw == 0x37 then none else some normal
switch prefix_e0b7 raw = if raw == 0xe0 then some prefix_e02ae0 else some invalid
switch prefix_e0b7e0 raw = if raw == 0xaa then none else some normal
switch prefix_e1 raw = if raw == 0x1d then some prefix_e11d else some invalid
switch prefix_e11d raw = if raw == 0x45 then some prefix_e11d45 else some invalid
switch prefix_e11d45 raw = if raw == 0xe1 then some prefix_e11d45e1 else some invalid
switch prefix_e11d45e1 raw = if raw == 0x9d then some prefix_e11d45e19d else some invalid
switch prefix_e11d45e19d raw = if raw == 0xc5 then none else some normal
switch invalid raw =
    if raw == 0x37 || (raw == 0xaa || raw == 0xc5) then some normal else some invalid
switch uninitialized raw = none

-- The driver's static variables and the buffer that it feeds.
pub record Keyboard : Type 0 where
  pub state : State
  pub modifiers : Modifiers
  pub buffer : KeyBuffer

-- The event of a full scan code, before its modifiers are set.
unfoldable pub decode : State → ℕ → KeyEvent
decode state raw = record {
  keycode = scancode_to_keycode raw state scancode_set_one;
  pressed = if bit_and raw (shifted_one 7) == 0 then pressed else released;
  modifiers = 0;
}

-- What follows the switch where it breaks.
unfoldable pub complete : Keyboard → ℕ → Keyboard
complete k raw =
    let (modifiers', e) = set_modifiers k.modifiers (decode k.state raw) in
    record { state = normal; modifiers = modifiers'; buffer = append_key_event k.buffer e }

unfoldable pub irq_callback : Keyboard → ℕ → Keyboard
irq_callback k raw = elim (switch k.state raw) [
  | some state' ↦ record k { state = state' }
  | none ↦ complete k raw
]

-- The bytes of several interrupts, in order.
unfoldable pub receive : Keyboard → List ℕ → Keyboard
receive k [] = k
receive k (raw ∷ rest) = receive (irq_callback k raw) rest
