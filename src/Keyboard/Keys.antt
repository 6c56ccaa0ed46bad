-- ===== src/Keyboard/Keys.antt =====
-- The key codes of kernel/arch/i386/include/ps2_kb.h that the scancode table uses, the letters
-- apart.
use missy_micro.Common.{ℕ}

abbrev pub key_space : ℕ
key_space = 32

abbrev pub key_0 : ℕ
key_0 = 48

abbrev pub key_1 : ℕ
key_1 = 49

abbrev pub key_2 : ℕ
key_2 = 50

abbrev pub key_3 : ℕ
key_3 = 51

abbrev pub key_4 : ℕ
key_4 = 52

abbrev pub key_5 : ℕ
key_5 = 53

abbrev pub key_6 : ℕ
key_6 = 54

abbrev pub key_7 : ℕ
key_7 = 55

abbrev pub key_8 : ℕ
key_8 = 56

abbrev pub key_9 : ℕ
key_9 = 57

abbrev pub key_return : ℕ
key_return = 13

abbrev pub key_escape : ℕ
key_escape = 0x1001

abbrev pub key_backspace : ℕ
key_backspace = 8

abbrev pub key_f1 : ℕ
key_f1 = 0x1201

abbrev pub key_f2 : ℕ
key_f2 = 0x1202

abbrev pub key_f3 : ℕ
key_f3 = 0x1203

abbrev pub key_f4 : ℕ
key_f4 = 0x1204

abbrev pub key_f5 : ℕ
key_f5 = 0x1205

abbrev pub key_f6 : ℕ
key_f6 = 0x1206

abbrev pub key_f7 : ℕ
key_f7 = 0x1207

abbrev pub key_f8 : ℕ
key_f8 = 0x1208

abbrev pub key_f9 : ℕ
key_f9 = 0x1209

abbrev pub key_f10 : ℕ
key_f10 = 0x120a

abbrev pub key_f11 : ℕ
key_f11 = 0x120b

abbrev pub key_f12 : ℕ
key_f12 = 0x120b

abbrev pub key_dot : ℕ
key_dot = 46

abbrev pub key_comma : ℕ
key_comma = 44

abbrev pub key_colon : ℕ
key_colon = 58

abbrev pub key_semicolon : ℕ
key_semicolon = 59

abbrev pub key_slash : ℕ
key_slash = 47

abbrev pub key_backslash : ℕ
key_backslash = 92

abbrev pub key_plus : ℕ
key_plus = 43

abbrev pub key_minus : ℕ
key_minus = 45

abbrev pub key_asterisk : ℕ
key_asterisk = 42

abbrev pub key_exclamation : ℕ
key_exclamation = 33

abbrev pub key_question : ℕ
key_question = 63

abbrev pub key_quotedouble : ℕ
key_quotedouble = 34

abbrev pub key_quote : ℕ
key_quote = 39

abbrev pub key_equal : ℕ
key_equal = 61

abbrev pub key_hash : ℕ
key_hash = 35

abbrev pub key_percent : ℕ
key_percent = 37

abbrev pub key_ampersand : ℕ
key_ampersand = 38

abbrev pub key_underscore : ℕ
key_underscore = 95

abbrev pub key_leftparenthesis : ℕ
key_leftparenthesis = 40

abbrev pub key_rightparenthesis : ℕ
key_rightparenthesis = 41

abbrev pub key_leftbracket : ℕ
key_leftbracket = 91

abbrev pub key_rightbracket : ℕ
key_rightbracket = 93

abbrev pub key_leftcurl : ℕ
key_leftcurl = 123

abbrev pub key_rightcurl : ℕ
key_rightcurl = 125

abbrev pub key_dollar : ℕ
key_dollar = 36

abbrev pub key_less : ℕ
key_less = 60

abbrev pub key_greater : ℕ
key_greater = 62

abbrev pub key_bar : ℕ
key_bar = 124

abbrev pub key_grave : ℕ
key_grave = 96

abbrev pub key_tilde : ℕ
key_tilde = 126

abbrev pub key_at : ℕ
key_at = 64

abbrev pub key_carret : ℕ
key_carret = 94

abbrev pub key_kp_0 : ℕ
key_kp_0 = 48

abbrev pub key_kp_2 : ℕ
key_kp_2 = 50

abbrev pub key_kp_3 : ℕ
key_kp_3 = 51

abbrev pub key_kp_8 : ℕ
key_kp_8 = 56

abbrev pub key_kp_decimal : ℕ
key_kp_decimal = 46

abbrev pub key_kp_asterisk : ℕ
key_kp_asterisk = 42

abbrev pub key_kp_numlock : ℕ
key_kp_numlock = 0x300f

abbrev pub key_tab : ℕ
key_tab = 0x4000

abbrev pub key_capslock : ℕ
key_capslock = 0x4001

abbrev pub key_lshift : ℕ
key_lshift = 0x4002

abbrev pub key_lctrl : ℕ
key_lctrl = 0x4003

abbrev pub key_rshift : ℕ
key_rshift = 0x4006

abbrev pub key_ralt : ℕ
key_ralt = 0x4008

abbrev pub key_home : ℕ
key_home = 0x400c

abbrev pub key_pageup : ℕ
key_pageup = 0x400e

abbrev pub key_scrolllock : ℕ
key_scrolllock = 0x4010

abbrev pub key_unknown : ℕ
key_unknown = 0x4012
