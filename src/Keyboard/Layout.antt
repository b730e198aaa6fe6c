-- ===== src/Keyboard/Layout.antt =====
-- kernel/include/drivers/keyboard_layouts.h: the German layout, each string as its bytes.
use j_oe_s.Base.{ℕ, List, [], ◌∷◌}
use j_oe_s.Keyboard.KeyCode.{
  KeyCode, key_circumflex, key_1, key_2, key_3, key_4, key_5, key_6, key_7, key_8, key_9, key_0,
  key_sz, key_back_tick, key_backspace, key_tab, key_q, key_w, key_e, key_r, key_t, key_z, key_u,
  key_i, key_o, key_p, key_ue, key_plus, key_enter, key_a, key_s, key_d, key_f, key_g, key_h, key_j,
  key_k, key_l, key_oe, key_ae, key_hashtag, key_less_then, key_y, key_x, key_c, key_v, key_b,
  key_n, key_m, key_comma, key_period, key_minus, key_space, key_keypad_slash, key_keypad_asterisk,
  key_keypad_minus, key_keypad_7, key_keypad_8, key_keypad_9, key_keypad_plus, key_keypad_4,
  key_keypad_5, key_keypad_6, key_keypad_1, key_keypad_2, key_keypad_3, key_keypad_enter,
  key_keypad_0, key_keypad_delete,
}

-- `kbd_layout_german.normal`
unfoldable pub normal : KeyCode → List ℕ
normal key_circumflex = 94 ∷ []
normal key_1 = b'1' ∷ []
normal key_2 = b'2' ∷ []
normal key_3 = b'3' ∷ []
normal key_4 = b'4' ∷ []
normal key_5 = b'5' ∷ []
normal key_6 = b'6' ∷ []
normal key_7 = b'7' ∷ []
normal key_8 = b'8' ∷ []
normal key_9 = b'9' ∷ []
normal key_0 = b'0' ∷ []
normal key_sz = b's' ∷ b's' ∷ []
normal key_back_tick = 39 ∷ []
normal key_backspace = 8 ∷ []
normal key_tab = 9 ∷ []
normal key_q = b'q' ∷ []
normal key_w = b'w' ∷ []
normal key_e = b'e' ∷ []
normal key_r = b'r' ∷ []
normal key_t = b't' ∷ []
normal key_z = b'z' ∷ []
normal key_u = b'u' ∷ []
normal key_i = b'i' ∷ []
normal key_o = b'o' ∷ []
normal key_p = b'p' ∷ []
normal key_ue = b'u' ∷ b'e' ∷ []
normal key_plus = 43 ∷ []
normal key_enter = 10 ∷ []
normal key_a = b'a' ∷ []
normal key_s = b's' ∷ []
normal key_d = b'd' ∷ []
normal key_f = b'f' ∷ []
normal key_g = b'g' ∷ []
normal key_h = b'h' ∷ []
normal key_j = b'j' ∷ []
normal key_k = b'k' ∷ []
normal key_l = b'l' ∷ []
normal key_oe = b'o' ∷ b'e' ∷ []
normal key_ae = b'a' ∷ b'e' ∷ []
normal key_hashtag = 35 ∷ []
normal key_less_then = 60 ∷ []
normal key_y = b'y' ∷ []
normal key_x = b'x' ∷ []
normal key_c = b'c' ∷ []
normal key_v = b'v' ∷ []
normal key_b = b'b' ∷ []
normal key_n = b'n' ∷ []
normal key_m = b'm' ∷ []
normal key_comma = 44 ∷ []
normal key_period = 46 ∷ []
normal key_minus = 45 ∷ []
normal key_space = 32 ∷ []
normal key_keypad_slash = 47 ∷ []
normal key_keypad_asterisk = 42 ∷ []
normal key_keypad_minus = 45 ∷ []
normal key_keypad_7 = b'7' ∷ []
normal key_keypad_8 = b'8' ∷ []
normal key_keypad_9 = b'9' ∷ []
normal key_keypad_plus = 43 ∷ []
normal key_keypad_4 = b'4' ∷ []
normal key_keypad_5 = b'5' ∷ []
normal key_keypad_6 = b'6' ∷ []
normal key_keypad_1 = b'1' ∷ []
normal key_keypad_2 = b'2' ∷ []
normal key_keypad_3 = b'3' ∷ []
normal key_keypad_0 = b'0' ∷ []
normal key_keypad_delete = 46 ∷ []
normal key_keypad_enter = 10 ∷ []
normal _ = []

-- `kbd_layout_german.shift`
unfoldable pub shift : KeyCode → List ℕ
shift key_1 = 33 ∷ []
shift key_2 = 34 ∷ []
shift key_4 = 36 ∷ []
shift key_5 = 37 ∷ []
shift key_6 = 38 ∷ []
shift key_7 = 47 ∷ []
shift key_8 = 40 ∷ []
shift key_9 = 41 ∷ []
shift key_0 = 61 ∷ []
shift key_sz = 63 ∷ []
shift key_back_tick = 96 ∷ []
shift key_q = b'Q' ∷ []
shift key_w = b'W' ∷ []
shift key_e = b'E' ∷ []
shift key_r = b'R' ∷ []
shift key_t = b'T' ∷ []
shift key_z = b'Z' ∷ []
shift key_u = b'U' ∷ []
shift key_i = b'I' ∷ []
shift key_o = b'O' ∷ []
shift key_p = b'P' ∷ []
shift key_ue = b'U' ∷ b'E' ∷ []
shift key_plus = 42 ∷ []
shift key_a = b'A' ∷ []
shift key_s = b'S' ∷ []
shift key_d = b'D' ∷ []
shift key_f = b'F' ∷ []
shift key_g = b'G' ∷ []
shift key_h = b'H' ∷ []
shift key_j = b'J' ∷ []
shift key_k = b'K' ∷ []
shift key_l = b'L' ∷ []
shift key_oe = b'O' ∷ b'E' ∷ []
shift key_ae = b'A' ∷ b'E' ∷ []
shift key_hashtag = 39 ∷ []
shift key_less_then = 62 ∷ []
shift key_y = b'Y' ∷ []
shift key_x = b'X' ∷ []
shift key_c = b'C' ∷ []
shift key_v = b'V' ∷ []
shift key_b = b'B' ∷ []
shift key_n = b'N' ∷ []
shift key_m = b'M' ∷ []
shift key_comma = 59 ∷ []
shift key_period = 58 ∷ []
shift key_minus = 95 ∷ []
shift key_space = 32 ∷ []
shift key_keypad_slash = 47 ∷ []
shift key_keypad_asterisk = 42 ∷ []
shift key_keypad_minus = 45 ∷ []
shift key_keypad_7 = b'7' ∷ []
shift key_keypad_8 = b'8' ∷ []
shift key_keypad_9 = b'9' ∷ []
shift key_keypad_plus = 43 ∷ []
shift key_keypad_4 = b'4' ∷ []
shift key_keypad_5 = b'5' ∷ []
shift key_keypad_6 = b'6' ∷ []
shift key_keypad_1 = b'1' ∷ []
shift key_keypad_2 = b'2' ∷ []
shift key_keypad_3 = b'3' ∷ []
shift key_keypad_0 = b'0' ∷ []
shift key_keypad_delete = 46 ∷ []
shift _ = []

-- `kbd_layout_german.altgr`
unfoldable pub altgr : KeyCode → List ℕ
altgr key_q = 64 ∷ []
altgr key_7 = 123 ∷ []
altgr key_8 = 91 ∷ []
altgr key_9 = 93 ∷ []
altgr key_0 = 125 ∷ []
altgr key_sz = 92 ∷ []
altgr key_plus = 126 ∷ []
altgr key_hashtag = 39 ∷ []
altgr key_less_then = 124 ∷ []
altgr _ = []

-- `kbd_layout_german.ctrl`
unfoldable pub ctrl : KeyCode → List ℕ
ctrl k = []
