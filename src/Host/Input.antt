-- ===== src/Host/Input.antt =====
-- The events of src/uwin/sdl_ui_gmq.cpp, as the messages that the emulator makes of them.
pub mod Keys
use uwin_old.Common.{ℕ, zero, suc, ◌+◌, ◌-◌, ◌*◌, ◌/◌, ◌%◌, ◌^◌, ◌≤◌, ◌<◌, bit_and, bit_or}
use uwin_old.Common.{◌≡◌, refl, sym, ap, ap₂, ◌∙◌, fun_ext, ◌≢◌, ◌↔◌, ◌⊎◌, inl, inr, arith}
use uwin_old.Common.{
  Bool, true, false, not, ◌&&◌, ◌||◌, Option, none, some, List, [], ◌∷◌, ◌++◌, map,
}
use uwin_old.Common.{
  ltb, leb, ◌==◌, if◌then◌else◌, Bool-cases, Option-cases, length, get_elem?, set,
}
use uwin_old.Common.{
  get_or, take, drop, replicate, length-append, length-set, get_elem?-set_self, get_elem?-set_ne,
}
use uwin_old.Common.{
  Outcome, done, panic, ◌>>=◌, ◌>>◌, require, u8, u16, u32, u64, sub32, sub64, signed32,
}
use uwin_old.Common.Int.{ℤ, pos, negsuc, pos_part, neg_part, sub_ℕ, ◌+ℤ◌, ◌-ℤ◌, ◌*ℤ◌, ◌≤ℤ◌, ltb_ℤ}
use uwin_old.Host.Messages.{
  Event, mouse_move, mouse_l_down, mouse_l_up, mouse_r_down, mouse_r_up, other_event,
}
use uwin_old.Host.Input.Keys.{Scancode, key_of_scancode}

-- The types of an `SDL_Event` that the code looks at.
pub data EventType : Type 0 where
  gmq_event quit key_down key_up mouse_motion mouse_button_up mouse_button_down : EventType
  other_type : EventType

-- The fields that the code reads from the union `SDL_Event`, as it reads them.
pub record SdlEvent : Type 0 where
  pub etype : EventType
  pub user_code : Event
  pub user_data1 : ℕ
  pub user_data2 : ℕ
  pub key_repeat : Bool
  pub scancode : Scancode
  pub motion_state : ℕ
  pub motion_x : ℕ
  pub motion_y : ℕ
  pub button : ℕ

pub record GmqMessage : Type 0 where
  pub message : Event
  pub param1 : ℕ
  pub param2 : ℕ

-- MK_LBUTTON, MK_MBUTTON and MK_RBUTTON for the buttons of SDL, whose masks are the bits 0, 1 and 2.
abbrev pub buttons : ℕ → ℕ
buttons state =
    (if state % 2 == 0 then 0 else 0x1)
    + (if state / 2 % 2 == 0 then 0 else 0x10)
    + (if state / 4 % 2 == 0 then 0 else 0x2)

-- The coordinates in one parameter.
abbrev pub pack : ℕ → ℕ → ℕ
pack x y = u16 x + u16 y * 2 ^ 16

-- What a click of a mouse button is: SDL_BUTTON_LEFT is 1, SDL_BUTTON_RIGHT is 3.
abbrev pub button_message : ℕ → Bool → Option Event
button_message button down =
    if button == 1
    then some (if down then mouse_l_down else mouse_l_up)
    else if button == 3
    then some (if down then mouse_r_down else mouse_r_up)
    else none

abbrev pub mouse_event : SdlEvent → Event → GmqMessage
mouse_event e m = record {
  message = m;
  param1 = buttons e.motion_state;
  param2 = pack e.motion_x e.motion_y;
}

abbrev pub clicked : SdlEvent → Bool → Option GmqMessage
clicked e down = elim (button_message e.button down) [
  | none ↦ none
  | some m ↦ some (mouse_event e m)
]

abbrev pub pressed : SdlEvent → GmqMessage → Option GmqMessage
pressed e before =
    if e.key_repeat
    then none
    else some (record before { message = other_event; param1 = key_of_scancode e.scancode })

-- `translate_SDL_Event`: `none` is -1, and `before` is what the result holds before, parts of which stay.
-- The messages of the keys and of the end are some of `other_event`.
unfoldable pub translate_event : SdlEvent → GmqMessage → Option GmqMessage
translate_event e before = elim e.etype [
  | gmq_event ↦
      some (record { message = e.user_code; param1 = e.user_data1; param2 = e.user_data2 })
  | quit ↦ some (record before { message = other_event })
  | key_down ↦ pressed e before
  | key_up ↦ pressed e before
  | mouse_motion ↦ some (mouse_event e mouse_move)
  | mouse_button_up ↦ clicked e false
  | mouse_button_down ↦ clicked e true
  | other_type ↦ none
]
