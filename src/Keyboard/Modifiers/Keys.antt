-- ===== src/Keyboard/Modifiers/Keys.antt =====
-- `ps2_kbd_set_modifiers` for every key, and for a key that repeats.
use j_oe_s.Base.{ℕ, zero, suc, ◌+◌, ◌<◌, ◌≡◌, true, false, ◌==◌, if◌then◌else◌, refl, arith, ◌∙◌}
use j_oe_s.Base.Bits.{bit_at}
use j_oe_s.Keyboard.KeyCode.{
  KeyCode, key_caps_lock, key_num_lock, key_scroll_lock, key_lshift, key_rshift, key_lstrg,
  key_rstrg, key_alt, key_altgr, key_lsuper, key_rsuper,
}
use j_oe_s.Keyboard.Event.{KeyEvent, pressed, released}
use j_oe_s.Keyboard.Modifiers.{
  Modifiers, Kind, shift_key, kind_of, update, set_modifiers, is_pressed,
}
use j_oe_s.Keyboard.Modifiers.Laws.{IsValid, Controls, NoWrap, flag_after, update_lem}

SomeFlag : (kind : Kind) → Type 0
SomeFlag kind = (k : ℕ) × Controls kind k

-- Every key controls one of the nine flags, or none of them.
flag_of : (key : KeyCode) → SomeFlag (kind_of key)
unfolding SomeFlag kind_of
flag_of key_caps_lock = (1, omega arith)
flag_of key_num_lock = (5, omega arith)
flag_of key_scroll_lock = (6, omega arith)
flag_of key_lshift = (0, refl)
flag_of key_rshift = (0, refl)
flag_of key_lstrg = (4, refl)
flag_of key_rstrg = (4, refl)
flag_of key_alt = (2, omega arith)
flag_of key_altgr = (3, omega arith)
flag_of key_lsuper = (7, omega arith)
flag_of key_rsuper = (8, omega arith)
flag_of _ = (9, refl)

-- `ps2_kbd_set_modifiers` changes the one flag that the key controls, if any: a lock key toggles its
-- flag when it is pressed, Alt, AltGr and the Super keys set it while they are held, and the flags
-- of Shift and Strg are set while the count of their presses is above 0. The event gets the new
-- flags and is otherwise unchanged. The count must not wrap.
pub set_modifiers_lem :
    (m : Modifiers) (e : KeyEvent)
    → IsValid m
    → NoWrap m (kind_of e.keycode) (is_pressed e.pressed)
    → let (m', e') = set_modifiers m e in
      IsValid m'
      × (e' ≡ record e { modifiers = m'.modifiers_old })
      × ((k : ℕ) × Controls (kind_of e.keycode) k
          × ((l : ℕ)
              → l < 9
              → bit_at m'.modifiers_old l ≡ (
                  if k == l
                  then flag_after m
                      (kind_of e.keycode)
                      (is_pressed e.pressed)
                      (bit_at m.modifiers_old l)
                  else bit_at m.modifiers_old l)))
unfolding set_modifiers SomeFlag
set_modifiers_lem m e valid free =
    let (k, c) = flag_of e.keycode in
    let (keeps, law) = update_lem m (kind_of e.keycode) (is_pressed e.pressed) k valid c free in
    (keeps, refl, (k, c, law))

-- The key is pressed `n` times without a release, as a held key repeats.
unfoldable pub repeat : ℕ → Modifiers → KeyEvent → Modifiers
repeat zero m e = m
repeat (suc n) m e = repeat n (set_modifiers m e).0 e

abbrev pub shift_down : KeyEvent
shift_down = record { keycode = key_lshift; pressed = pressed; modifiers = 0 }

abbrev pub shift_up : KeyEvent
shift_up = record { keycode = key_lshift; pressed = released; modifiers = 0 }

repeat_count :
    (n : ℕ) (m : Modifiers)
    → IsValid m
    → m.num_shift_keys_pressed + n < 256
    → IsValid (repeat n m shift_down)
      × ((repeat n m shift_down).num_shift_keys_pressed ≡ m.num_shift_keys_pressed + n)
unfolding repeat
repeat_count zero m valid small = (valid, omega arith)
repeat_count (suc n) m valid small =
    let (keeps, same, flags) =
      set_modifiers_lem m shift_down valid (unfold kind_of in omega arith) in
    let more : (set_modifiers m shift_down).0.num_shift_keys_pressed
        ≡ m.num_shift_keys_pressed + 1 =
      unfold set_modifiers update kind_of in omega arith in
    let (done, count) = repeat_count n (set_modifiers m shift_down).0 keeps (omega (arith, more)) in
    (done, omega (arith, count, more))

-- The left Shift key, when it repeats while it is held: from consistent flags with no Shift key held,
-- after two or more presses, fewer than 256, and the release, the flag stays set.
pub shift_stuck :
    (m : Modifiers) (n : ℕ)
    → IsValid m
    → m.num_shift_keys_pressed ≡ 0
    → n + 2 < 256
    → bit_at (set_modifiers (repeat (n + 2) m shift_down) shift_up).0.modifiers_old 0 ≡ true
unfolding set_modifiers kind_of
shift_stuck m n valid none_held small =
    let (keeps, count) = repeat_count (n + 2) m valid (omega arith) in
    let r = repeat (n + 2) m shift_down in
    let pressed_often : r.num_shift_keys_pressed ≡ n + 2 = omega (arith, count) in
    let (keeps', law) = update_lem r shift_key false 0 keeps refl (omega arith) in
    law 0 (omega arith) ∙ ground (arith, pressed_often)
