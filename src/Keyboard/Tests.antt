-- ===== src/Keyboard/Tests.antt =====
-- The theorems on the keyboard at concrete keys and bytes.
use j_oe_s.Base.{ℕ, ◌+◌, ◌<◌, ◌≡◌, ◌≢◌, true, [], ◌∷◌, ◌++◌, ◌==◌, if◌then◌else◌, refl, arith}
use j_oe_s.Base.Bits.{bit_at}
use j_oe_s.Keyboard.KeyCode.{key_a, key_lshift}
use j_oe_s.Keyboard.Event.{KeyEvent, pressed}
use j_oe_s.Keyboard.Buffer.{KeyBuffer, empty_buffer, append_key_event, get_key_event}
use j_oe_s.Keyboard.Buffer.Queue
use j_oe_s.Keyboard.Buffer.Queue.{
  contents, push, pop, Gets, append_key_event_refines, get_key_event_refines,
}
use j_oe_s.Keyboard.Modifiers.{no_modifiers, kind_of, set_modifiers}
use j_oe_s.Keyboard.Modifiers.Laws.{IsValid, Controls, flag_after}
use j_oe_s.Keyboard.Modifiers.Keys.{set_modifiers_lem, shift_stuck, repeat, shift_down, shift_up}
use j_oe_s.Keyboard.Irq.{Keyboard, normal, prefix_e0b7e0, receive}
use j_oe_s.Keyboard.Irq.Sequences.{
  extended, encode, event_of, handle, receive-encode, print_screen_release_lost, state_unreached,
  resynchronise,
}

abbrev keyboard : Keyboard
keyboard = record { state = normal; modifiers = no_modifiers; buffer = empty_buffer }

abbrev a_down : KeyEvent
a_down = record { keycode = key_a; pressed = pressed; modifiers = 0 }

no_modifiers-IsValid : IsValid no_modifiers
no_modifiers-IsValid = record {
  flags = omega arith;
  shift_count = omega arith;
  strg_count = omega arith;
  shift_flag = refl;
  strg_flag = refl;
}

empty_buffer-IsValid : Queue.IsValid empty_buffer
empty_buffer-IsValid = record {
  stored = refl;
  full_capacity = refl;
  front_in = omega arith;
  size_in = omega arith;
}

append_key_event_example :
    (contents (append_key_event empty_buffer a_down) ≡ push (contents empty_buffer) a_down)
    × Queue.IsValid (append_key_event empty_buffer a_down)
append_key_event_example = append_key_event_refines empty_buffer a_down empty_buffer-IsValid

abbrev one_event : KeyBuffer
one_event = append_key_event empty_buffer a_down

get_key_event_example : Gets one_event (get_key_event one_event) (pop (contents one_event))
get_key_event_example =
    get_key_event_refines one_event
      (append_key_event_refines empty_buffer a_down empty_buffer-IsValid).1

shift_small : no_modifiers.num_shift_keys_pressed < 255
shift_small = omega arith

set_modifiers_example :
    let (m', e') = set_modifiers no_modifiers shift_down in
    IsValid m'
    × (e' ≡ record shift_down { modifiers = m'.modifiers_old })
    × ((k : ℕ) × Controls (kind_of key_lshift) k
        × ((l : ℕ)
            → l < 9
            → bit_at m'.modifiers_old l ≡ (
                if k == l
                then flag_after no_modifiers (kind_of key_lshift) true (bit_at 0 l)
                else bit_at 0 l)))
unfolding kind_of
set_modifiers_example = set_modifiers_lem no_modifiers shift_down no_modifiers-IsValid shift_small

shift_stuck_example :
    bit_at (set_modifiers (repeat (3 + 2) no_modifiers shift_down) shift_up).0.modifiers_old 0
    ≡ true
shift_stuck_example = shift_stuck no_modifiers 3 no_modifiers-IsValid refl (omega arith)

receive-encode_example :
    receive keyboard (encode (extended 0x1d)) ≡ handle keyboard (event_of (extended 0x1d))
receive-encode_example =
    receive-encode keyboard (extended 0x1d) refl
      (omega arith, λ e. omega (arith, e), λ e. omega (arith, e))

print_screen_example :
    (receive keyboard (0xe0 ∷ 0xb7 ∷ 0xe0 ∷ 0xaa ∷ []) ≡ keyboard)
    × (receive keyboard (0xe0 ∷ 0xb7 ∷ 0xe0 ∷ []) ≡ receive keyboard (0xe0 ∷ 0x2a ∷ 0xe0 ∷ []))
print_screen_example = print_screen_release_lost keyboard refl

normal_ne : keyboard.state ≢ prefix_e0b7e0
normal_ne e = ground (arith, e)

state_unreached_example : (receive keyboard (0xe1 ∷ 0x1d ∷ [])).state ≢ prefix_e0b7e0
state_unreached_example = state_unreached (0xe1 ∷ 0x1d ∷ []) keyboard normal_ne

resynchronise_example : (receive keyboard ((0xe1 ∷ 0x1d ∷ []) ++ (0xc5 ∷ 0xc5 ∷ []))).state ≡ normal
resynchronise_example = resynchronise keyboard (0xe1 ∷ 0x1d ∷ [])
