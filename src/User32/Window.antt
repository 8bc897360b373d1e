-- ===== src/User32/Window.antt =====
-- The one window of src/uwin/target_dlls/USER32/user32.c, its messages, and the pointer. Its procedure is
-- code of the emulated program, which may call this DLL again: a parameter that works on its state.
pub mod Pointer
mod Tests
use uwin_old.Common.{ℕ, zero, suc, ◌+◌, ◌-◌, ◌*◌, ◌/◌, ◌%◌, ◌^◌, ◌≤◌, ◌<◌, bit_and, bit_or}
use uwin_old.Common.{◌≡◌, refl, sym, ap, ap₂, ◌∙◌, fun_ext, ◌≢◌, ◌↔◌, ◌⊎◌, inl, inr, arith}
use uwin_old.Common.{
  Bool, true, false, not, ◌&&◌, ◌||◌, Option, none, some, List, [], ◌∷◌, ◌++◌, map,
}
use uwin_old.Common.{
  ltb, leb, ◌==◌, if◌then◌else◌, Bool-cases, Option-cases, length, get_elem?, set,
}
use uwin_old.Common.{
  get_or, take, drop, replicate, length-append, length-set, get_elem?-set_self, get_elem?-set_ne,
}
use uwin_old.Common.{
  Outcome, done, panic, ◌>>=◌, ◌>>◌, require, u8, u16, u32, u64, sub32, sub64, signed32,
}
use uwin_old.Common.Int.{ℤ, pos, negsuc, pos_part, neg_part, sub_ℕ, ◌+ℤ◌, ◌-ℤ◌, ◌*ℤ◌, ◌≤ℤ◌, ltb_ℤ}
use uwin_old.Host.Messages.{Message, Queue, try_pop}

-- HWND_DUMMY_GAME
abbrev pub hwnd_dummy_game : ℕ
hwnd_dummy_game = 1

-- The static variables, with the number of subscriptions to the messages of the user.
pub record User : Type 0 where
  pub window_thread_handle : ℕ
  pub window_thread_id : ℕ
  pub window_instance : ℕ
  pub window_style : ℕ
  pub window_created : Bool
  pub window_proc : ℕ
  pub window_param : ℕ
  pub mouse_x : ℕ
  pub mouse_y : ℕ
  pub cursor : ℕ
  pub display_count : ℤ
  pub subscriptions : ℕ

pub initial : User
initial = record {
  window_thread_handle = 0;
  window_thread_id = 0;
  window_instance = 0;
  window_style = 0;
  window_created = false;
  window_proc = 0;
  window_param = 0;
  mouse_x = 400;
  mouse_y = 300;
  cursor = 0;
  display_count = pos 0;
  subscriptions = 0;
}

-- What a call of the window procedure at an address does: its window, message and two parameters, its
-- result, and the state.
abbrev pub WindowProc : Type 0
WindowProc = ℕ → ℕ → ℕ → ℕ → ℕ → User → Outcome (ℕ × User)

-- `RegisterClassA`, which returns ATOM_DUMMY
pub register_class : User → ℕ → ℕ × User
register_class u proc = (0x1234, record u { window_proc = proc })

-- `AdjustWindowRect`: the one style is WS_VISIBLE | WS_POPUP.
pub adjust_window_rect : ℕ → Outcome Bool
adjust_window_rect style = require (style == 0x90000000) >> done true

-- `SendMessage` on the thread `current`
pub send_message : WindowProc → ℕ → User → ℕ → ℕ → ℕ → ℕ → Outcome (ℕ × User)
send_message call current u hwnd msg wparam lparam =
    require (current == u.window_thread_id) >> call u.window_proc hwnd msg wparam lparam u

-- The arguments of `CreateWindowExA` that it looks at, and the address of its CREATESTRUCT.
pub record CreateArgs : Type 0 where
  pub ex_style : ℕ
  pub style : ℕ
  pub width : ℕ
  pub height : ℕ
  pub instance_handle : ℕ
  pub param : ℕ
  pub create_struct : ℕ

-- What `CreateWindowExA` requires: no window yet, WS_EX_TOPMOST, a window procedure, the one size.
abbrev pub can_create : User → CreateArgs → Bool
can_create u a =
    not u.window_created
    && (a.ex_style == 0x8)
    && not (u.window_proc == 0)
    && (a.width == 800)
    && (a.height == 600)

abbrev pub with_window : User → CreateArgs → ℕ → ℕ → User
with_window u a thread_handle thread_id = record u {
  window_thread_handle = thread_handle;
  window_thread_id = thread_id;
  window_instance = a.instance_handle;
  window_style = a.style;
  window_param = a.param;
}

-- `CreateWindowExA`: WM_CREATE is 1, and the result -1 of the procedure gives no window.
pub create_window : WindowProc → ℕ → ℕ → User → CreateArgs → Outcome (ℕ × User)
create_window call thread_handle thread_id u a = do
  require (can_create u a)
  r ←
      send_message call thread_id (with_window u a thread_handle thread_id) hwnd_dummy_game 0x1 0
        a.create_struct
  let created : User = record r.1 { window_created = true; subscriptions = r.1.subscriptions + 1 }
  done (if r.0 == 0xffffffff then (0, r.1) else (hwnd_dummy_game, created))

-- `SetCursor`
pub set_cursor : User → ℕ → ℕ × User
set_cursor u cursor = (u.cursor, record u { cursor = cursor })

-- `ShowCursor`
pub show_cursor : User → Bool → ℤ × User
show_cursor u show =
    let count = if show then u.display_count +ℤ pos 1 else u.display_count -ℤ pos 1 in
    (count, record u { display_count = count })

-- `GetCursorPos`
pub get_cursor_pos : User → ℕ × ℕ
get_cursor_pos u = (u.mouse_x, u.mouse_y)

-- `GetTopWindow`
pub get_top_window : ℕ → ℕ
get_top_window hwnd = if hwnd == 0 then hwnd_dummy_game else 0

-- `GetWindowThreadProcessId`
pub get_window_thread : User → ℕ → Outcome ℕ
get_window_thread u hwnd = require (hwnd == hwnd_dummy_game) >> done u.window_thread_id

-- `GetWindowLongA`: GWL_HINSTANCE is -6, GWL_STYLE is -16.
pub get_window_long : User → ℕ → ℤ → Outcome ℕ
get_window_long u hwnd index = require (hwnd == hwnd_dummy_game) >> elim index [
  | pos n ↦ panic
  | negsuc n ↦
      if n == 5 then done u.window_instance else if n == 15 then done u.window_style else panic
]

-- The time of `SetTimer`, between USER_TIMER_MINIMUM and USER_TIMER_MAXIMUM; a timer of a window, or
-- with an identifier, stops the process.
pub set_timer : ℕ → ℕ → ℕ → Outcome ℕ
set_timer hwnd id elapse =
    require ((hwnd == 0) && (id == 0))
    >> (let low = if ltb elapse 0xa then 0xa else elapse in
        done (if ltb 0x7fffffff low then 0x7fffffff else low))

-- `PeekMessageA` on the queue of the thread: PM_REMOVE is 1.
pub peek_message : Queue → ℕ → ℕ → ℕ → ℕ → Outcome (Option Message × Queue)
peek_message mq hwnd filter_min filter_max remove_msg =
    require ((hwnd == 0) && (filter_min == 0) && (filter_max == 0) && (remove_msg == 1))
    >> try_pop mq

-- `TranslateMessage`: WM_MOUSEMOVE is 0x200.
pub translate_message : User → Message → User
translate_message u m =
    if m.message == 0x200
    then record u { mouse_x = m.lparam % 2 ^ 16; mouse_y = m.lparam / 2 ^ 16 % 2 ^ 16 }
    else u

-- `DispatchMessageA` on the thread `current`
pub dispatch_message : WindowProc → ℕ → User → Message → Outcome (ℕ × User)
dispatch_message call current u m =
    require (current == u.window_thread_id)
    >> call u.window_proc m.hwnd m.message m.wparam m.lparam u

-- `IsWindow`
pub is_window : ℕ → Outcome Bool
is_window hwnd = require (hwnd == hwnd_dummy_game) >> done true
