-- ===== src/Keyboard/Irq/Decode.antt =====
-- The translation of a full scan code: bit 7 tells a release, the other bits and the prefix the key.
use j_oe_s.Base.{
  ℕ, ◌+◌, ◌%◌, ◌<◌, ◌≡◌, Bool, true, bit_and, bit_or, ltb, ◌==◌, if◌then◌else◌, u8, not32,
  shifted_one, refl, arith, ap, ◌∙◌, sym, Bool-cases, inl, inr,
}
use j_oe_s.Base.Bits.{all_below, all_below_sound}
use j_oe_s.Keyboard.KeyCode.{KeyCode}
use j_oe_s.Keyboard.Scancodes.{scancode_set_1}
use j_oe_s.Keyboard.Event.{KeyEvent, pressed, released}
use j_oe_s.Keyboard.Irq.{State, is_normal, decode, scancode_to_keycode, scancode_set_one}

abbrev low_law : ℕ → Bool
low_law c = u8 (bit_and c (not32 (shifted_one 7))) == c % 128

abbrev high_law : ℕ → Bool
high_law c = u8 (bit_or (u8 (bit_and c (not32 (shifted_one 7)))) (shifted_one 7)) == c % 128 + 128

abbrev bit_law : ℕ → Bool
bit_law c = if ltb c 128 then bit_and c (shifted_one 7) == 0 else bit_and c (shifted_one 7) == 128

tables :
    (all_below 256 low_law ≡ true)
    × (all_below 256 high_law ≡ true)
    × (all_below 256 bit_law ≡ true)
unfolding all_below
tables = (refl, refl, refl)

low_lem : (c : ℕ) → c < 256 → u8 (bit_and c (not32 (shifted_one 7))) ≡ c % 128
low_lem c h = ground (arith, all_below_sound 256 low_law c tables.0 h)

high_lem : (c : ℕ) → c < 256 → u8 (bit_or (c % 128) (shifted_one 7)) ≡ c % 128 + 128
high_lem c h =
    ap (λ m. u8 (bit_or m (shifted_one 7))) (sym (low_lem c h))
    ∙ ground (arith, all_below_sound 256 high_law c tables.1 h)

bit_lem : (c : ℕ) → c < 256 → (bit_and c (shifted_one 7) == 0) ≡ ltb c 128
bit_lem c h = elim (Bool-cases (ltb c 128)) [
  | inl e ↦ ground (arith, e, all_below_sound 256 bit_law c tables.2 h)
  | inr e ↦ ground (arith, e, all_below_sound 256 bit_law c tables.2 h)
]

-- A key that is pressed or released.
abbrev pub key_event : KeyCode → Bool → KeyEvent
key_event key down = record {
  keycode = key;
  pressed = if down then pressed else released;
  modifiers = 0;
}

-- Where the key of a full scan code is looked up.
abbrev pub table_index : State → ℕ → ℕ
table_index state raw = if is_normal state then raw % 128 else raw % 128 + 128

scancode_to_keycode_lem :
    (state : State) (raw : ℕ)
    → raw < 256
    → scancode_to_keycode raw state scancode_set_one ≡ scancode_set_1 (table_index state raw)
unfolding scancode_to_keycode
scancode_to_keycode_lem state raw h = elim (Bool-cases (is_normal state)) [
  | inl e ↦ rw (e, low_lem raw h)
  | inr e ↦ rw (e, low_lem raw h, high_lem raw h)
]

pub decode_lem :
    (state : State) (raw : ℕ)
    → raw < 256
    → decode state raw ≡ key_event (scancode_set_1 (table_index state raw)) (ltb raw 128)
unfolding decode
decode_lem state raw h = rw (scancode_to_keycode_lem state raw h, bit_lem raw h)
