-- ===== src/User32/Window/Tests.antt =====
-- A motion of the mouse with two threads, and a window.
use uwin_old.Common.{ℕ, ◌/◌}
use uwin_old.Common.{◌≡◌, refl}
use uwin_old.Common.{Bool, true, false, some, [], ◌∷◌, map}
use uwin_old.Common.{Outcome, done, panic}
use uwin_old.Host.Messages.{Message, other_event, Published, publish}
use uwin_old.Host.Input.{SdlEvent, mouse_motion, GmqMessage, translate_event}
use uwin_old.Host.Input.Keys.{other_scancode}
use uwin_old.User32.Window.{
  User, initial, CreateArgs, WindowProc, translate_message, get_cursor_pos, register_class,
  create_window, set_timer,
}
use uwin_old.User32.Window.{send_message}
use uwin_old.User32.Window.Pointer.{EachPost, pointer_follows}

abbrev moved : SdlEvent
moved = record {
  etype = mouse_motion;
  user_code = other_event;
  user_data1 = 0;
  user_data2 = 0;
  key_repeat = false;
  scancode = other_scancode;
  motion_state = 1;
  motion_x = 640;
  motion_y = 70000;
  button = 0;
}

abbrev no_message : GmqMessage
no_message = record { message = other_event; param1 = 0; param2 = 0 }

pointer_follows_example :
    (g : GmqMessage) × (p : Published) × (translate_event moved no_message ≡ some g)
    × (publish (λ h. h / 2) (4 ∷ 6 ∷ []) g.message g.param1 g.param2 ≡ some p)
    × (map (λ (r : ℕ × Message). r.0) p.posts ≡ 2 ∷ 3 ∷ [])
    × EachPost (λ m. get_cursor_pos (translate_message initial m) ≡ (640, 4464)) p.posts
pointer_follows_example = pointer_follows moved no_message (λ h. h / 2) (4 ∷ 6 ∷ []) initial refl

abbrev accepts : WindowProc
accepts proc hwnd message wparam lparam u = done (0, u)

abbrev full_screen : CreateArgs
full_screen = record {
  ex_style = 8;
  style = 0x90000000;
  width = 800;
  height = 600;
  instance_handle = 0x400000;
  param = 0;
  create_struct = 0x700000;
}

abbrev window_result : Outcome (ℕ × User) → ℕ × Bool
window_result (done r) = (r.0, r.1.window_created)
window_result panic = (0, false)

window_made :
    window_result (create_window accepts 5 6 (register_class initial 0x401000).1 full_screen)
    ≡ (1, true)
unfolding create_window initial register_class send_message
window_made = refl

shortest_time : set_timer 0 0 3 ≡ done 10
unfolding set_timer
shortest_time = refl
