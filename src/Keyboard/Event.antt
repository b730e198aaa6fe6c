-- ===== src/Keyboard/Event.antt =====
-- kernel/include/drivers/keyboard.h: key events. kernel/src/drivers/keyboard.c: their conversion to
-- characters.
use j_oe_s.Base.{ℕ, Bool, true, false, List, [], not, bit_and, ◌==◌, if◌then◌else◌}
use j_oe_s.Keyboard.KeyCode.{KeyCode}
use j_oe_s.Keyboard.Layout
use j_oe_s.Keyboard.Mask

-- `key_event_type_t`
pub data EventType : Type 0 where
  undefined pressed released : EventType

-- `struct key_event_t`
pub record KeyEvent : Type 0 where
  pub keycode : KeyCode
  pub pressed : EventType
  pub modifiers : ℕ

-- `modifiers & mask`, as a truth value.
abbrev pub has_mask : ℕ → ℕ → Bool
has_mask modifiers mask = not (bit_and modifiers mask == 0)

abbrev pub is_released : EventType → Bool
is_released released = true
is_released _ = false

-- `kbd_key_event_to_ascii`: the bytes of the string.
unfoldable pub key_event_to_ascii : KeyEvent → List ℕ
key_event_to_ascii e =
    if is_released e.pressed
    then []
    else if has_mask e.modifiers Mask.altgr
    then Layout.altgr e.keycode
    else if has_mask e.modifiers Mask.caps_lock
    then (if has_mask e.modifiers Mask.shift
        then Layout.normal e.keycode
        else Layout.shift e.keycode)
    else if has_mask e.modifiers Mask.shift
    then Layout.shift e.keycode
    else Layout.normal e.keycode
