-- ===== src/Keyboard/Modifiers.antt =====
-- kernel/src/drivers/ps2_keyboard.c: `ps2_kbd_set_modifiers`. Its static variables, a `uint16_t` and
-- two `uint8_t`, are a record. Each case of the switch only selects a mask and one of the two code
-- sections at the end; `Kind` is what it selects.
pub mod Flags
pub mod Laws
pub mod Keys
use j_oe_s.Base.{
  ℕ, ◌+◌, ◌-◌, Bool, true, false, bit_and, bit_or, bit_xor, ◌==◌, if◌then◌else◌, u8, u16, not32,
}
use j_oe_s.Keyboard.KeyCode.{
  KeyCode, key_caps_lock, key_num_lock, key_scroll_lock, key_lshift, key_rshift, key_lstrg,
  key_rstrg, key_alt, key_altgr, key_lsuper, key_rsuper,
}
use j_oe_s.Keyboard.Event.{KeyEvent, EventType, pressed}
use j_oe_s.Keyboard.Mask

pub record Modifiers : Type 0 where
  pub modifiers_old : ℕ
  pub num_shift_keys_pressed : ℕ
  pub num_strg_keys_pressed : ℕ

abbrev pub no_modifiers : Modifiers
no_modifiers = record { modifiers_old = 0; num_shift_keys_pressed = 0; num_strg_keys_pressed = 0 }

pub data Kind : Type 0 where
  toggled : ℕ → Kind
  held : ℕ → Kind
  shift_key strg_key plain : Kind

unfoldable pub kind_of : KeyCode → Kind
kind_of key_caps_lock = toggled Mask.caps_lock
kind_of key_num_lock = toggled Mask.num_lock
kind_of key_scroll_lock = toggled Mask.scroll_lock
kind_of key_lshift = shift_key
kind_of key_rshift = shift_key
kind_of key_lstrg = strg_key
kind_of key_rstrg = strg_key
kind_of key_alt = held Mask.alt
kind_of key_altgr = held Mask.altgr
kind_of key_lsuper = held Mask.lsuper
kind_of key_rsuper = held Mask.rsuper
kind_of _ = plain

abbrev pub is_pressed : EventType → Bool
is_pressed pressed = true
is_pressed _ = false

-- The section APPLY_TOGGLED_MODIFIERS_MASK.
abbrev pub apply_toggled : ℕ → Bool → ℕ → ℕ
apply_toggled modifiers_old down mask =
    if down then u16 (bit_xor modifiers_old mask) else modifiers_old

-- The section APPLY_PRESSED_RELEASED_MODIFIERS_MASK.
abbrev pub apply_pressed_released : ℕ → Bool → ℕ → ℕ
apply_pressed_released modifiers_old down mask =
    if down then u16 (bit_or modifiers_old mask) else u16 (bit_and modifiers_old (not32 mask))

-- The counter of the Shift or Strg keys after the event; a `uint8_t`, which wraps below 0.
abbrev pub counted : ℕ → Bool → ℕ
counted count down = if down then u8 (count + 1) else u8 (count + 256 - 1)

-- The mask that is selected for such a key: none if another one is still pressed.
abbrev pub counted_mask : ℕ → Bool → ℕ → ℕ
counted_mask count down mask = if down then mask else if counted count down == 0 then mask else 0

-- The static variables after an event of a key of the given kind.
unfoldable pub update : Modifiers → Kind → Bool → Modifiers
update m (toggled mask) down = record m { modifiers_old = apply_toggled m.modifiers_old down mask }
update m (held mask) down = record m {
  modifiers_old = apply_pressed_released m.modifiers_old down mask;
}
update m shift_key down =
    let count = m.num_shift_keys_pressed in
    record m {
      modifiers_old =
          apply_pressed_released m.modifiers_old down (counted_mask count down Mask.shift);
      num_shift_keys_pressed = counted count down;
    }
update m strg_key down =
    let count = m.num_strg_keys_pressed in
    record m {
      modifiers_old =
          apply_pressed_released m.modifiers_old down (counted_mask count down Mask.strg);
      num_strg_keys_pressed = counted count down;
    }
update m plain down = m

-- `ps2_kbd_set_modifiers`: the static variables afterwards, and the event with its flags.
unfoldable pub set_modifiers : Modifiers → KeyEvent → Modifiers × KeyEvent
set_modifiers m e =
    let m' = update m (kind_of e.keycode) (is_pressed e.pressed) in
    (m', record e { modifiers = m'.modifiers_old })
