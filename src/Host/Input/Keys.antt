-- ===== src/Host/Input/Keys.antt =====
-- The keys of src/uwin/sdl_ui_gmq.cpp: SDL's scancodes and the virtual keys of Windows
-- (include/uwin/uwindows.h).
use uwin_old.Common.{ℕ}

pub data Scancode : Type 0 where
  scancode_unknown scancode_a scancode_b scancode_c scancode_d : Scancode
  scancode_e scancode_f scancode_g scancode_h scancode_i : Scancode
  scancode_j scancode_k scancode_l scancode_m scancode_n : Scancode
  scancode_o scancode_p scancode_q scancode_r scancode_s : Scancode
  scancode_t scancode_u scancode_v scancode_w scancode_x : Scancode
  scancode_y scancode_z scancode_1 scancode_2 scancode_3 : Scancode
  scancode_4 scancode_5 scancode_6 scancode_7 scancode_8 : Scancode
  scancode_9 scancode_0 scancode_return scancode_escape scancode_backspace : Scancode
  scancode_tab scancode_space scancode_minus scancode_equals scancode_leftbracket : Scancode
  scancode_rightbracket scancode_backslash scancode_semicolon scancode_apostrophe scancode_grave :
      Scancode
  scancode_comma scancode_period scancode_slash scancode_f1 scancode_f2 : Scancode
  scancode_f3 scancode_f4 scancode_f5 scancode_f6 scancode_f7 : Scancode
  scancode_f8 scancode_f9 scancode_f10 scancode_f11 scancode_f12 : Scancode
  scancode_printscreen scancode_scrolllock scancode_pause scancode_insert scancode_home : Scancode
  scancode_pageup scancode_delete scancode_end scancode_pagedown scancode_right : Scancode
  scancode_left scancode_down scancode_up scancode_numlockclear scancode_kp_divide : Scancode
  scancode_kp_multiply scancode_kp_minus scancode_kp_plus scancode_kp_enter scancode_kp_1 : Scancode
  scancode_kp_2 scancode_kp_3 scancode_kp_4 scancode_kp_5 scancode_kp_6 : Scancode
  scancode_kp_7 scancode_kp_8 scancode_kp_9 scancode_kp_0 scancode_kp_period : Scancode
  scancode_application scancode_kp_equals scancode_f13 scancode_f14 scancode_f15 : Scancode
  scancode_f16 scancode_f17 scancode_f18 scancode_f19 scancode_f20 : Scancode
  scancode_f21 scancode_f22 scancode_f23 scancode_f24 scancode_lctrl : Scancode
  scancode_lshift scancode_lalt scancode_lgui scancode_rctrl scancode_rshift : Scancode
  scancode_ralt scancode_rgui : Scancode
  other_scancode : Scancode

-- `sdl_scancode_to_gmq_key`; a key that it does not know gives 0.
pub key_of_scancode : Scancode → ℕ
key_of_scancode scancode_unknown = 0
key_of_scancode scancode_a = b'A'
key_of_scancode scancode_b = b'B'
key_of_scancode scancode_c = b'C'
key_of_scancode scancode_d = b'D'
key_of_scancode scancode_e = b'E'
key_of_scancode scancode_f = b'F'
key_of_scancode scancode_g = b'G'
key_of_scancode scancode_h = b'H'
key_of_scancode scancode_i = b'I'
key_of_scancode scancode_j = b'J'
key_of_scancode scancode_k = b'K'
key_of_scancode scancode_l = b'L'
key_of_scancode scancode_m = b'M'
key_of_scancode scancode_n = b'N'
key_of_scancode scancode_o = b'O'
key_of_scancode scancode_p = b'P'
key_of_scancode scancode_q = b'Q'
key_of_scancode scancode_r = b'R'
key_of_scancode scancode_s = b'S'
key_of_scancode scancode_t = b'T'
key_of_scancode scancode_u = b'U'
key_of_scancode scancode_v = b'V'
key_of_scancode scancode_w = b'W'
key_of_scancode scancode_x = b'X'
key_of_scancode scancode_y = b'Y'
key_of_scancode scancode_z = b'Z'
key_of_scancode scancode_1 = b'1'
key_of_scancode scancode_2 = b'2'
key_of_scancode scancode_3 = b'3'
key_of_scancode scancode_4 = b'4'
key_of_scancode scancode_5 = b'5'
key_of_scancode scancode_6 = b'6'
key_of_scancode scancode_7 = b'7'
key_of_scancode scancode_8 = b'8'
key_of_scancode scancode_9 = b'9'
key_of_scancode scancode_0 = b'0'
key_of_scancode scancode_return = 0x0D
key_of_scancode scancode_escape = 0x1B
key_of_scancode scancode_backspace = 0x08
key_of_scancode scancode_tab = 0x09
key_of_scancode scancode_space = 0x20
key_of_scancode scancode_minus = 0xBD
key_of_scancode scancode_equals = 0xBB
key_of_scancode scancode_leftbracket = 0xDB
key_of_scancode scancode_rightbracket = 0xDD
key_of_scancode scancode_backslash = 0xDC
key_of_scancode scancode_semicolon = 0xBA
key_of_scancode scancode_apostrophe = 0xDE
key_of_scancode scancode_grave = 0xC0
key_of_scancode scancode_comma = 0xBC
key_of_scancode scancode_period = 0xBE
key_of_scancode scancode_slash = 0xBF
key_of_scancode scancode_f1 = 0x70
key_of_scancode scancode_f2 = 0x71
key_of_scancode scancode_f3 = 0x72
key_of_scancode scancode_f4 = 0x73
key_of_scancode scancode_f5 = 0x74
key_of_scancode scancode_f6 = 0x75
key_of_scancode scancode_f7 = 0x76
key_of_scancode scancode_f8 = 0x77
key_of_scancode scancode_f9 = 0x78
key_of_scancode scancode_f10 = 0x79
key_of_scancode scancode_f11 = 0x7A
key_of_scancode scancode_f12 = 0x7B
key_of_scancode scancode_printscreen = 0x2C
key_of_scancode scancode_scrolllock = 0x91
key_of_scancode scancode_pause = 0x13
key_of_scancode scancode_insert = 0x2D
key_of_scancode scancode_home = 0x24
key_of_scancode scancode_pageup = 0x21
key_of_scancode scancode_delete = 0x2E
key_of_scancode scancode_end = 0x23
key_of_scancode scancode_pagedown = 0x22
key_of_scancode scancode_right = 0x27
key_of_scancode scancode_left = 0x25
key_of_scancode scancode_down = 0x28
key_of_scancode scancode_up = 0x26
key_of_scancode scancode_numlockclear = 0x90
key_of_scancode scancode_kp_divide = 0x6F
key_of_scancode scancode_kp_multiply = 0x6A
key_of_scancode scancode_kp_minus = 0x6D
key_of_scancode scancode_kp_plus = 0x6B
key_of_scancode scancode_kp_enter = 0x0D
key_of_scancode scancode_kp_1 = 0x61
key_of_scancode scancode_kp_2 = 0x62
key_of_scancode scancode_kp_3 = 0x63
key_of_scancode scancode_kp_4 = 0x64
key_of_scancode scancode_kp_5 = 0x65
key_of_scancode scancode_kp_6 = 0x66
key_of_scancode scancode_kp_7 = 0x67
key_of_scancode scancode_kp_8 = 0x68
key_of_scancode scancode_kp_9 = 0x69
key_of_scancode scancode_kp_0 = 0x60
key_of_scancode scancode_kp_period = 0xBE
key_of_scancode scancode_application = 0xA4
key_of_scancode scancode_kp_equals = 0
key_of_scancode scancode_f13 = 0x7C
key_of_scancode scancode_f14 = 0x7D
key_of_scancode scancode_f15 = 0x7E
key_of_scancode scancode_f16 = 0x7F
key_of_scancode scancode_f17 = 0x80
key_of_scancode scancode_f18 = 0x81
key_of_scancode scancode_f19 = 0x82
key_of_scancode scancode_f20 = 0x83
key_of_scancode scancode_f21 = 0x84
key_of_scancode scancode_f22 = 0x85
key_of_scancode scancode_f23 = 0x86
key_of_scancode scancode_f24 = 0x87
key_of_scancode scancode_lctrl = 0x11
key_of_scancode scancode_lshift = 0x10
key_of_scancode scancode_lalt = 0x12
key_of_scancode scancode_lgui = 0x5B
key_of_scancode scancode_rctrl = 0x11
key_of_scancode scancode_rshift = 0x10
key_of_scancode scancode_ralt = 0x12
key_of_scancode scancode_rgui = 0x5C
key_of_scancode other_scancode = 0
