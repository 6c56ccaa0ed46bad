-- ===== src/Keyboard/Keymap.antt =====
-- The scancode table `keymap` of kernel/arch/i386/vga_tty/ps2_keyb.c.
use missy_micro.Common.{List, [], ◌∷◌, ℕ}
use missy_micro.Keyboard.Letters.{key_a, key_b, key_c, key_d, key_e}
use missy_micro.Keyboard.Letters.{key_f, key_g, key_h, key_i, key_j}
use missy_micro.Keyboard.Letters.{key_k, key_l, key_m, key_n, key_o}
use missy_micro.Keyboard.Letters.{key_p, key_q, key_r, key_s, key_t}
use missy_micro.Keyboard.Letters.{key_u, key_v, key_w, key_x, key_y}
use missy_micro.Keyboard.Letters.{key_z, key_upper_a, key_upper_b, key_upper_c, key_upper_d}
use missy_micro.Keyboard.Letters.{key_upper_e, key_upper_f, key_upper_g, key_upper_h, key_upper_i}
use missy_micro.Keyboard.Letters.{key_upper_j, key_upper_k, key_upper_l, key_upper_m, key_upper_n}
use missy_micro.Keyboard.Letters.{key_upper_o, key_upper_p, key_upper_q, key_upper_r, key_upper_s}
use missy_micro.Keyboard.Letters.{key_upper_t, key_upper_u, key_upper_v, key_upper_w, key_upper_x}
use missy_micro.Keyboard.Letters.{key_upper_y, key_upper_z}
use missy_micro.Keyboard.Keys.{key_space, key_0, key_1, key_2, key_3}
use missy_micro.Keyboard.Keys.{key_4, key_5, key_6, key_7, key_8}
use missy_micro.Keyboard.Keys.{key_9, key_return, key_escape, key_backspace, key_f1}
use missy_micro.Keyboard.Keys.{key_f2, key_f3, key_f4, key_f5, key_f6}
use missy_micro.Keyboard.Keys.{key_f7, key_f8, key_f9, key_f10, key_f11}
use missy_micro.Keyboard.Keys.{key_f12, key_dot, key_comma, key_colon, key_semicolon}
use missy_micro.Keyboard.Keys.{key_slash, key_backslash, key_plus, key_minus, key_asterisk}
use missy_micro.Keyboard.Keys.{key_exclamation, key_question, key_quotedouble, key_quote, key_equal}
use missy_micro.Keyboard.Keys.{
  key_hash, key_percent, key_ampersand, key_underscore, key_leftparenthesis,
}
use missy_micro.Keyboard.Keys.{
  key_rightparenthesis, key_leftbracket, key_rightbracket, key_leftcurl, key_rightcurl,
}
use missy_micro.Keyboard.Keys.{key_dollar, key_less, key_greater, key_bar, key_grave}
use missy_micro.Keyboard.Keys.{key_tilde, key_at, key_carret, key_kp_0, key_kp_2}
use missy_micro.Keyboard.Keys.{key_kp_3, key_kp_8, key_kp_decimal, key_kp_asterisk, key_kp_numlock}
use missy_micro.Keyboard.Keys.{key_tab, key_capslock, key_lshift, key_lctrl, key_rshift}
use missy_micro.Keyboard.Keys.{key_ralt, key_home, key_pageup, key_scrolllock, key_unknown}

-- `keymap_entry`: the key of a scancode without and with the shift key.
pub record KeymapEntry : Type 0 where
  pub lowercase : ℕ
  pub uppercase : ℕ

abbrev key : ℕ → ℕ → KeymapEntry
key lower upper = record { lowercase = lower; uppercase = upper }

abbrev pub keymap : List KeymapEntry
keymap =
    key key_unknown key_unknown
    ∷ key key_escape key_escape
    ∷ key key_1 key_exclamation
    ∷ key key_2 key_at
    ∷ key key_3 key_hash
    ∷ key key_4 key_dollar
    ∷ key key_5 key_percent
    ∷ key key_6 key_carret
    ∷ key key_7 key_ampersand
    ∷ key key_8 key_asterisk
    ∷ key key_9 key_leftparenthesis
    ∷ key key_0 key_rightparenthesis
    ∷ key key_minus key_underscore
    ∷ key key_equal key_plus
    ∷ key key_backspace key_backspace
    ∷ key key_tab key_tab
    ∷ key key_q key_upper_q
    ∷ key key_w key_upper_w
    ∷ key key_e key_upper_e
    ∷ key key_r key_upper_r
    ∷ key key_t key_upper_t
    ∷ key key_y key_upper_y
    ∷ key key_u key_upper_u
    ∷ key key_i key_upper_i
    ∷ key key_o key_upper_o
    ∷ key key_p key_upper_p
    ∷ key key_leftbracket key_leftcurl
    ∷ key key_rightbracket key_rightcurl
    ∷ key key_return key_return
    ∷ key key_lctrl key_lctrl
    ∷ key key_a key_upper_a
    ∷ key key_s key_upper_s
    ∷ key key_d key_upper_d
    ∷ key key_f key_upper_f
    ∷ key key_g key_upper_g
    ∷ key key_h key_upper_h
    ∷ key key_j key_upper_j
    ∷ key key_k key_upper_k
    ∷ key key_l key_upper_l
    ∷ key key_semicolon key_colon
    ∷ key key_quote key_quotedouble
    ∷ key key_grave key_tilde
    ∷ key key_lshift key_lshift
    ∷ key key_backslash key_bar
    ∷ key key_z key_upper_z
    ∷ key key_x key_upper_x
    ∷ key key_c key_upper_c
    ∷ key key_v key_upper_v
    ∷ key key_b key_upper_b
    ∷ key key_n key_upper_n
    ∷ key key_m key_upper_m
    ∷ key key_comma key_less
    ∷ key key_dot key_greater
    ∷ key key_slash key_question
    ∷ key key_rshift key_rshift
    ∷ key key_kp_asterisk key_kp_asterisk
    ∷ key key_ralt key_ralt
    ∷ key key_space key_space
    ∷ key key_capslock key_capslock
    ∷ key key_f1 key_f1
    ∷ key key_f2 key_f2
    ∷ key key_f3 key_f3
    ∷ key key_f4 key_f4
    ∷ key key_f5 key_f5
    ∷ key key_f6 key_f6
    ∷ key key_f7 key_f7
    ∷ key key_f8 key_f8
    ∷ key key_f9 key_f9
    ∷ key key_f10 key_f10
    ∷ key key_kp_numlock key_kp_numlock
    ∷ key key_scrolllock key_scrolllock
    ∷ key key_home key_home
    ∷ key key_kp_8 key_kp_8
    ∷ key key_pageup key_pageup
    ∷ key key_kp_2 key_kp_2
    ∷ key key_kp_3 key_kp_3
    ∷ key key_kp_0 key_kp_0
    ∷ key key_kp_decimal key_kp_decimal
    ∷ key key_unknown key_unknown
    ∷ key key_unknown key_unknown
    ∷ key key_unknown key_unknown
    ∷ key key_f11 key_f11
    ∷ key key_f12 key_f12
    ∷ []
