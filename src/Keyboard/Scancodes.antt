-- ===== src/Keyboard/Scancodes.antt =====
-- kernel/src/drivers/ps2_keyboard.c: the table of scan code set 1.
use j_oe_s.Base.{ℕ, List, [], ◌∷◌, ◌==◌, if◌then◌else◌}
use j_oe_s.Keyboard.KeyCode.{
  KeyCode, key_unknown, key_esc, key_f1, key_f2, key_f3, key_f4, key_f5, key_f6, key_f7, key_f8,
  key_f9, key_f10, key_f11, key_f12, key_circumflex, key_1, key_2, key_3, key_4, key_5, key_6,
  key_7, key_8, key_9, key_0, key_sz, key_back_tick, key_backspace, key_tab, key_q, key_w, key_e,
  key_r, key_t, key_z, key_u, key_i, key_o, key_p, key_ue, key_plus, key_enter, key_caps_lock,
  key_a, key_s, key_d, key_f, key_g, key_h, key_j, key_k, key_l, key_oe, key_ae, key_hashtag,
  key_lshift, key_less_then, key_y, key_x, key_c, key_v, key_b, key_n, key_m, key_comma, key_period,
  key_minus, key_rshift, key_lstrg, key_lsuper, key_alt, key_space, key_altgr, key_rsuper, key_menu,
  key_rstrg, key_up, key_left, key_down, key_right, key_print_screen, key_scroll_lock, key_pause,
  key_insert, key_pos1, key_page_up, key_del, key_end, key_page_down, key_num_lock,
  key_keypad_slash, key_keypad_asterisk, key_keypad_minus, key_keypad_7, key_keypad_8, key_keypad_9,
  key_keypad_plus, key_keypad_4, key_keypad_5, key_keypad_6, key_keypad_1, key_keypad_2,
  key_keypad_3, key_keypad_enter, key_keypad_0, key_keypad_delete, key_multimedia_previous_track,
  key_multimedia_next_track, key_multimedia_mute, key_multimedia_calculator, key_multimedia_play,
  key_multimedia_stop, key_multimedia_volume_down, key_multimedia_volume_up,
  key_multimedia_www_home, key_multimedia_www_search, key_multimedia_favorites,
  key_multimedia_www_refresh, key_multimedia_www_stop, key_multimedia_www_forward,
  key_multimedia_www_back, key_multimedia_my_computer, key_multimedia_email,
  key_multimedia_media_select, key_power, key_sleep, key_wake,
}

-- The entries that are not `key_unknown`.
abbrev entries : List (ℕ × KeyCode)
entries =
    (0x01, key_esc)
    ∷ (0x02, key_1)
    ∷ (0x03, key_2)
    ∷ (0x04, key_3)
    ∷ (0x05, key_4)
    ∷ (0x06, key_5)
    ∷ (0x07, key_6)
    ∷ (0x08, key_7)
    ∷ (0x09, key_8)
    ∷ (0x0a, key_9)
    ∷ (0x0b, key_0)
    ∷ (0x0c, key_sz)
    ∷ (0x0d, key_back_tick)
    ∷ (0x0e, key_backspace)
    ∷ (0x0f, key_tab)
    ∷ (0x10, key_q)
    ∷ (0x11, key_w)
    ∷ (0x12, key_e)
    ∷ (0x13, key_r)
    ∷ (0x14, key_t)
    ∷ (0x15, key_z)
    ∷ (0x16, key_u)
    ∷ (0x17, key_i)
    ∷ (0x18, key_o)
    ∷ (0x19, key_p)
    ∷ (0x1a, key_ue)
    ∷ (0x1b, key_plus)
    ∷ (0x1c, key_enter)
    ∷ (0x1d, key_lstrg)
    ∷ (0x1e, key_a)
    ∷ (0x1f, key_s)
    ∷ (0x20, key_d)
    ∷ (0x21, key_f)
    ∷ (0x22, key_g)
    ∷ (0x23, key_h)
    ∷ (0x24, key_j)
    ∷ (0x25, key_k)
    ∷ (0x26, key_l)
    ∷ (0x27, key_oe)
    ∷ (0x28, key_ae)
    ∷ (0x29, key_circumflex)
    ∷ (0x2a, key_lshift)
    ∷ (0x2b, key_hashtag)
    ∷ (0x2c, key_y)
    ∷ (0x2d, key_x)
    ∷ (0x2e, key_c)
    ∷ (0x2f, key_v)
    ∷ (0x30, key_b)
    ∷ (0x31, key_n)
    ∷ (0x32, key_m)
    ∷ (0x33, key_comma)
    ∷ (0x34, key_period)
    ∷ (0x35, key_minus)
    ∷ (0x36, key_rshift)
    ∷ (0x37, key_keypad_asterisk)
    ∷ (0x38, key_alt)
    ∷ (0x39, key_space)
    ∷ (0x3a, key_caps_lock)
    ∷ (0x3b, key_f1)
    ∷ (0x3c, key_f2)
    ∷ (0x3d, key_f3)
    ∷ (0x3e, key_f4)
    ∷ (0x3f, key_f5)
    ∷ (0x40, key_f6)
    ∷ (0x41, key_f7)
    ∷ (0x42, key_f8)
    ∷ (0x43, key_f9)
    ∷ (0x44, key_f10)
    ∷ (0x45, key_num_lock)
    ∷ (0x46, key_scroll_lock)
    ∷ (0x47, key_keypad_7)
    ∷ (0x48, key_keypad_8)
    ∷ (0x49, key_keypad_9)
    ∷ (0x4a, key_keypad_minus)
    ∷ (0x4b, key_keypad_4)
    ∷ (0x4c, key_keypad_5)
    ∷ (0x4d, key_keypad_6)
    ∷ (0x4e, key_keypad_plus)
    ∷ (0x4f, key_keypad_1)
    ∷ (0x50, key_keypad_2)
    ∷ (0x51, key_keypad_3)
    ∷ (0x52, key_keypad_0)
    ∷ (0x53, key_keypad_delete)
    ∷ (0x57, key_f11)
    ∷ (0x56, key_less_then)
    ∷ (0x58, key_f12)
    ∷ (0x90, key_multimedia_previous_track)
    ∷ (0x99, key_multimedia_next_track)
    ∷ (0x9c, key_keypad_enter)
    ∷ (0x9d, key_rstrg)
    ∷ (0xa0, key_multimedia_mute)
    ∷ (0xa1, key_multimedia_calculator)
    ∷ (0xa2, key_multimedia_play)
    ∷ (0xa4, key_multimedia_stop)
    ∷ (0xae, key_multimedia_volume_down)
    ∷ (0xb0, key_multimedia_volume_up)
    ∷ (0xb2, key_multimedia_www_home)
    ∷ (0xb5, key_keypad_slash)
    ∷ (0xb8, key_altgr)
    ∷ (0xc7, key_pos1)
    ∷ (0xc8, key_up)
    ∷ (0xc9, key_page_up)
    ∷ (0xcb, key_left)
    ∷ (0xcd, key_right)
    ∷ (0xcf, key_end)
    ∷ (0xd0, key_down)
    ∷ (0xd1, key_page_down)
    ∷ (0xd2, key_insert)
    ∷ (0xd3, key_del)
    ∷ (0xdb, key_lsuper)
    ∷ (0xdc, key_rsuper)
    ∷ (0xdd, key_menu)
    ∷ (0xde, key_power)
    ∷ (0xdf, key_sleep)
    ∷ (0xe3, key_wake)
    ∷ (0xe5, key_multimedia_www_search)
    ∷ (0xe6, key_multimedia_favorites)
    ∷ (0xe7, key_multimedia_www_refresh)
    ∷ (0xe8, key_multimedia_www_stop)
    ∷ (0xe9, key_multimedia_www_forward)
    ∷ (0xea, key_multimedia_www_back)
    ∷ (0xeb, key_multimedia_my_computer)
    ∷ (0xec, key_multimedia_email)
    ∷ (0xed, key_multimedia_media_select)
    ∷ (0xb7, key_print_screen)
    ∷ (0xaa, key_print_screen)
    ∷ (0xc5, key_pause)
    ∷ []

abbrev find : ℕ → List (ℕ × KeyCode) → KeyCode
find code [] = key_unknown
find code ((c, key) ∷ rest) = if c == code then key else find code rest

-- `ps2_kbd_mapping_scancode_set_1_to_keycode[code]`
unfoldable pub scancode_set_1 : ℕ → KeyCode
scancode_set_1 code = find code entries
