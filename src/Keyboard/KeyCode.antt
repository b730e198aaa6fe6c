-- ===== src/Keyboard/KeyCode.antt =====
-- kernel/include/drivers/keyboard.h: the key codes, with umlauts spelt out.

-- `key_code_t`
pub data KeyCode : Type 0 where
  key_unknown key_esc key_f1 key_f2 key_f3 key_f4 key_f5 key_f6 key_f7 key_f8 key_f9 key_f10 key_f11
        key_f12 key_circumflex key_1 key_2 key_3 key_4 key_5 key_6 key_7 key_8 key_9 key_0 key_sz
        key_back_tick key_backspace key_tab key_q key_w key_e key_r key_t key_z key_u key_i key_o
        key_p key_ue key_plus key_enter key_caps_lock key_a key_s key_d key_f key_g key_h key_j
        key_k key_l key_oe key_ae key_hashtag key_lshift key_less_then key_y key_x key_c key_v key_b
        key_n key_m key_comma key_period key_minus key_rshift key_lstrg key_lsuper key_alt key_space
        key_altgr key_rsuper key_menu key_rstrg key_up key_left key_down key_right key_print_screen
        key_scroll_lock key_pause key_insert key_pos1 key_page_up key_del key_end key_page_down
        key_num_lock key_keypad_slash key_keypad_asterisk key_keypad_minus key_keypad_7 key_keypad_8
        key_keypad_9 key_keypad_plus key_keypad_4 key_keypad_5 key_keypad_6 key_keypad_1
        key_keypad_2 key_keypad_3 key_keypad_enter key_keypad_0 key_keypad_delete
        key_multimedia_previous_track key_multimedia_next_track key_multimedia_mute
        key_multimedia_calculator key_multimedia_play key_multimedia_stop key_multimedia_volume_down
        key_multimedia_volume_up key_multimedia_www_home key_multimedia_www_search
        key_multimedia_favorites key_multimedia_www_refresh key_multimedia_www_stop
        key_multimedia_www_forward key_multimedia_www_back key_multimedia_my_computer
        key_multimedia_email key_multimedia_media_select key_power key_sleep key_wake :
      KeyCode
