-- ===== src/Keyboard.antt =====
-- The keys, the modifiers and the key events of libghostty/key_event.go. A `Key` is its number.
use hauntty.Prelude.{ℕ, Bool, Text}

-- The constants of the type `Key`.
pub data KeyName : Type 0 where
  key_unidentified key_backquote key_backslash key_bracket_left key_bracket_right key_comma
        key_digit0 :
      KeyName
  key_digit1 key_digit2 key_digit3 key_digit4 key_digit5 key_digit6 key_digit7 : KeyName
  key_digit8 key_digit9 key_equal key_intl_backslash key_intl_ro key_intl_yen key_a : KeyName
  key_b key_c key_d key_e key_f key_g key_h : KeyName
  key_i key_j key_k key_l key_m key_n key_o : KeyName
  key_p key_q key_r key_s key_t key_u key_v : KeyName
  key_w key_x key_y key_z key_minus key_period key_quote : KeyName
  key_semicolon key_slash key_alt_left key_alt_right key_backspace key_caps_lock key_context_menu :
      KeyName
  key_control_left key_control_right key_enter key_meta_left key_meta_right key_shift_left
        key_shift_right :
      KeyName
  key_space key_tab key_convert key_kana_mode key_non_convert key_delete key_end : KeyName
  key_help key_home key_insert key_page_down key_page_up key_arrow_down key_arrow_left : KeyName
  key_arrow_right key_arrow_up key_num_lock key_numpad0 key_numpad1 key_numpad2 key_numpad3 :
      KeyName
  key_numpad4 key_numpad5 key_numpad6 key_numpad7 key_numpad8 key_numpad9 key_numpad_add : KeyName
  key_numpad_backspace key_numpad_clear key_numpad_clear_entry key_numpad_comma key_numpad_decimal
        key_numpad_divide key_numpad_enter :
      KeyName
  key_numpad_equal key_numpad_memory_add key_numpad_memory_clear key_numpad_memory_recall
        key_numpad_memory_store key_numpad_memory_sub key_numpad_multiply :
      KeyName
  key_numpad_paren_left key_numpad_paren_right key_numpad_subtract key_numpad_separator
        key_numpad_up key_numpad_down key_numpad_right :
      KeyName
  key_numpad_left key_numpad_begin key_numpad_home key_numpad_end key_numpad_insert
        key_numpad_delete key_numpad_page_up :
      KeyName
  key_numpad_page_down key_escape key_f1 key_f2 key_f3 key_f4 key_f5 : KeyName
  key_f6 key_f7 key_f8 key_f9 key_f10 key_f11 key_f12 : KeyName
  key_f13 key_f14 key_f15 key_f16 key_f17 key_f18 key_f19 : KeyName
  key_f20 key_f21 key_f22 key_f23 key_f24 key_f25 key_fn : KeyName
  key_fn_lock key_print_screen key_scroll_lock key_pause key_browser_back key_browser_favorites
        key_browser_forward :
      KeyName
  key_browser_home key_browser_refresh key_browser_search key_browser_stop key_eject key_launch_app1
        key_launch_app2 :
      KeyName
  key_launch_mail key_media_play_pause key_media_select key_media_stop key_media_track_next
        key_media_track_previous key_power :
      KeyName
  key_sleep key_audio_volume_down key_audio_volume_mute key_audio_volume_up key_wake_up key_copy
        key_cut :
      KeyName
  key_paste : KeyName

unfoldable pub key : KeyName → ℕ
key key_unidentified = 0
key key_backquote = 1
key key_backslash = 2
key key_bracket_left = 3
key key_bracket_right = 4
key key_comma = 5
key key_digit0 = 6
key key_digit1 = 7
key key_digit2 = 8
key key_digit3 = 9
key key_digit4 = 10
key key_digit5 = 11
key key_digit6 = 12
key key_digit7 = 13
key key_digit8 = 14
key key_digit9 = 15
key key_equal = 16
key key_intl_backslash = 17
key key_intl_ro = 18
key key_intl_yen = 19
key key_a = 20
key key_b = 21
key key_c = 22
key key_d = 23
key key_e = 24
key key_f = 25
key key_g = 26
key key_h = 27
key key_i = 28
key key_j = 29
key key_k = 30
key key_l = 31
key key_m = 32
key key_n = 33
key key_o = 34
key key_p = 35
key key_q = 36
key key_r = 37
key key_s = 38
key key_t = 39
key key_u = 40
key key_v = 41
key key_w = 42
key key_x = 43
key key_y = 44
key key_z = 45
key key_minus = 46
key key_period = 47
key key_quote = 48
key key_semicolon = 49
key key_slash = 50
key key_alt_left = 51
key key_alt_right = 52
key key_backspace = 53
key key_caps_lock = 54
key key_context_menu = 55
key key_control_left = 56
key key_control_right = 57
key key_enter = 58
key key_meta_left = 59
key key_meta_right = 60
key key_shift_left = 61
key key_shift_right = 62
key key_space = 63
key key_tab = 64
key key_convert = 65
key key_kana_mode = 66
key key_non_convert = 67
key key_delete = 68
key key_end = 69
key key_help = 70
key key_home = 71
key key_insert = 72
key key_page_down = 73
key key_page_up = 74
key key_arrow_down = 75
key key_arrow_left = 76
key key_arrow_right = 77
key key_arrow_up = 78
key key_num_lock = 79
key key_numpad0 = 80
key key_numpad1 = 81
key key_numpad2 = 82
key key_numpad3 = 83
key key_numpad4 = 84
key key_numpad5 = 85
key key_numpad6 = 86
key key_numpad7 = 87
key key_numpad8 = 88
key key_numpad9 = 89
key key_numpad_add = 90
key key_numpad_backspace = 91
key key_numpad_clear = 92
key key_numpad_clear_entry = 93
key key_numpad_comma = 94
key key_numpad_decimal = 95
key key_numpad_divide = 96
key key_numpad_enter = 97
key key_numpad_equal = 98
key key_numpad_memory_add = 99
key key_numpad_memory_clear = 100
key key_numpad_memory_recall = 101
key key_numpad_memory_store = 102
key key_numpad_memory_sub = 103
key key_numpad_multiply = 104
key key_numpad_paren_left = 105
key key_numpad_paren_right = 106
key key_numpad_subtract = 107
key key_numpad_separator = 108
key key_numpad_up = 109
key key_numpad_down = 110
key key_numpad_right = 111
key key_numpad_left = 112
key key_numpad_begin = 113
key key_numpad_home = 114
key key_numpad_end = 115
key key_numpad_insert = 116
key key_numpad_delete = 117
key key_numpad_page_up = 118
key key_numpad_page_down = 119
key key_escape = 120
key key_f1 = 121
key key_f2 = 122
key key_f3 = 123
key key_f4 = 124
key key_f5 = 125
key key_f6 = 126
key key_f7 = 127
key key_f8 = 128
key key_f9 = 129
key key_f10 = 130
key key_f11 = 131
key key_f12 = 132
key key_f13 = 133
key key_f14 = 134
key key_f15 = 135
key key_f16 = 136
key key_f17 = 137
key key_f18 = 138
key key_f19 = 139
key key_f20 = 140
key key_f21 = 141
key key_f22 = 142
key key_f23 = 143
key key_f24 = 144
key key_f25 = 145
key key_fn = 146
key key_fn_lock = 147
key key_print_screen = 148
key key_scroll_lock = 149
key key_pause = 150
key key_browser_back = 151
key key_browser_favorites = 152
key key_browser_forward = 153
key key_browser_home = 154
key key_browser_refresh = 155
key key_browser_search = 156
key key_browser_stop = 157
key key_eject = 158
key key_launch_app1 = 159
key key_launch_app2 = 160
key key_launch_mail = 161
key key_media_play_pause = 162
key key_media_select = 163
key key_media_stop = 164
key key_media_track_next = 165
key key_media_track_previous = 166
key key_power = 167
key key_sleep = 168
key key_audio_volume_down = 169
key key_audio_volume_mute = 170
key key_audio_volume_up = 171
key key_wake_up = 172
key key_copy = 173
key key_cut = 174
key key_paste = 175

abbrev pub mod_shift : ℕ
mod_shift = 0x0001

abbrev pub mod_ctrl : ℕ
mod_ctrl = 0x0002

-- What the setters of a key event have set; the action is KeyActionPress.
pub record KeyEvent : Type 0 where
  pub key : ℕ
  pub mods : ℕ
  pub consumed_mods : ℕ
  pub composing : Bool
  pub unshifted_codepoint : ℕ
  pub utf8 : Text
