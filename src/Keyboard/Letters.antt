-- ===== src/Keyboard/Letters.antt =====
-- The key codes of the letters in kernel/arch/i386/include/ps2_kb.h.
use missy_micro.Common.{ℕ}

abbrev pub key_a : ℕ
key_a = 97

abbrev pub key_b : ℕ
key_b = 98

abbrev pub key_c : ℕ
key_c = 99

abbrev pub key_d : ℕ
key_d = 100

abbrev pub key_e : ℕ
key_e = 101

abbrev pub key_f : ℕ
key_f = 102

abbrev pub key_g : ℕ
key_g = 103

abbrev pub key_h : ℕ
key_h = 104

abbrev pub key_i : ℕ
key_i = 105

abbrev pub key_j : ℕ
key_j = 106

abbrev pub key_k : ℕ
key_k = 107

abbrev pub key_l : ℕ
key_l = 108

abbrev pub key_m : ℕ
key_m = 109

abbrev pub key_n : ℕ
key_n = 110

abbrev pub key_o : ℕ
key_o = 111

abbrev pub key_p : ℕ
key_p = 112

abbrev pub key_q : ℕ
key_q = 113

abbrev pub key_r : ℕ
key_r = 114

abbrev pub key_s : ℕ
key_s = 115

abbrev pub key_t : ℕ
key_t = 116

abbrev pub key_u : ℕ
key_u = 117

abbrev pub key_v : ℕ
key_v = 118

abbrev pub key_w : ℕ
key_w = 119

abbrev pub key_x : ℕ
key_x = 120

abbrev pub key_y : ℕ
key_y = 121

abbrev pub key_z : ℕ
key_z = 122

abbrev pub key_upper_a : ℕ
key_upper_a = 65

abbrev pub key_upper_b : ℕ
key_upper_b = 66

abbrev pub key_upper_c : ℕ
key_upper_c = 67

abbrev pub key_upper_d : ℕ
key_upper_d = 68

abbrev pub key_upper_e : ℕ
key_upper_e = 69

abbrev pub key_upper_f : ℕ
key_upper_f = 70

abbrev pub key_upper_g : ℕ
key_upper_g = 71

abbrev pub key_upper_h : ℕ
key_upper_h = 72

abbrev pub key_upper_i : ℕ
key_upper_i = 73

abbrev pub key_upper_j : ℕ
key_upper_j = 74

abbrev pub key_upper_k : ℕ
key_upper_k = 75

abbrev pub key_upper_l : ℕ
key_upper_l = 76

abbrev pub key_upper_m : ℕ
key_upper_m = 77

abbrev pub key_upper_n : ℕ
key_upper_n = 78

abbrev pub key_upper_o : ℕ
key_upper_o = 79

abbrev pub key_upper_p : ℕ
key_upper_p = 80

abbrev pub key_upper_q : ℕ
key_upper_q = 81

abbrev pub key_upper_r : ℕ
key_upper_r = 82

abbrev pub key_upper_s : ℕ
key_upper_s = 83

abbrev pub key_upper_t : ℕ
key_upper_t = 84

abbrev pub key_upper_u : ℕ
key_upper_u = 85

abbrev pub key_upper_v : ℕ
key_upper_v = 86

abbrev pub key_upper_w : ℕ
key_upper_w = 87

abbrev pub key_upper_x : ℕ
key_upper_x = 88

abbrev pub key_upper_y : ℕ
key_upper_y = 89

abbrev pub key_upper_z : ℕ
key_upper_z = 90
