-- ===== src/User32/Window/Pointer.antt =====
-- The way of the pointer: from src/uwin/sdl_ui_gmq.cpp over src/uwin/win32_mq.cpp to
-- src/uwin/target_dlls/USER32/user32.c.
use uwin_old.Common.{ℕ, ◌/◌, ◌%◌, ◌^◌}
use uwin_old.Common.{◌≡◌, refl, ap, ◌∙◌, arith}
use uwin_old.Common.{some, List, [], ◌∷◌, map}
use uwin_old.Common.{u16, u32}
use uwin_old.Host.Messages.{Message, mouse_move, Published, publish}
use uwin_old.Host.Input.{SdlEvent, mouse_motion, GmqMessage, mouse_event, translate_event, pack}
use uwin_old.User32.Window.{User, translate_message, get_cursor_pos}

-- Some property of every message that is posted.
abbrev pub EachPost : (Message → Type 0) → List (ℕ × Message) → Type 0
EachPost P [] = Unit
EachPost P (p ∷ ps) = P p.1 × EachPost P ps

EachPost-map :
    (P : Message → Type 0) (thread_of : ℕ → ℕ) (m : Message) (hs : List ℕ)
    → P m
    → EachPost P (map (λ h. (thread_of h, m)) hs)
EachPost-map P thread_of m [] p = tt
EachPost-map P thread_of m (h ∷ hs) p = (p, EachPost-map P thread_of m hs p)

get_cursor_pos-translate_message :
    (u : User) (m : Message)
    → m.message ≡ 0x200
    → get_cursor_pos (translate_message u m) ≡ (m.lparam % 2 ^ 16, m.lparam / 2 ^ 16 % 2 ^ 16)
unfolding get_cursor_pos translate_message
get_cursor_pos-translate_message u m e = ground (arith, e)

translate_event-motion :
    (e : SdlEvent) (before : GmqMessage)
    → e.etype ≡ mouse_motion
    → translate_event e before ≡ some (mouse_event e mouse_move)
unfolding translate_event
translate_event-motion e before k = rw k refl

abbrev move_message : ℕ → ℕ → Message
move_message param1 param2 = record {
  hwnd = 0;
  message = 0x200;
  wparam = u32 param1;
  lparam = u32 param2;
}

receivers :
    (thread_of : ℕ → ℕ) (m : Message) (hs : List ℕ)
    → map (λ (r : ℕ × Message). r.0) (map (λ h. (thread_of h, m)) hs) ≡ map thread_of hs
receivers thread_of m [] = refl
receivers thread_of m (h ∷ hs) = ap (λ l. thread_of h ∷ l) (receivers thread_of m hs)

unpack : (x y : ℕ) → (u32 (pack x y) % 2 ^ 16 ≡ u16 x) × (u32 (pack x y) / 2 ^ 16 % 2 ^ 16 ≡ u16 y)
unpack x y = omega arith

-- A motion of the mouse on the host becomes a message that is posted to every subscribed thread, to
-- each once and in the order of the subscriptions; once a thread has passed it to
-- `TranslateMessage`, `GetCursorPos` gives the coordinates of the event, cut to 16 bits.
pub pointer_follows :
    (e : SdlEvent) (before : GmqMessage) (thread_of : ℕ → ℕ) (subscribers : List ℕ) (u : User)
    → e.etype ≡ mouse_motion
    → (g : GmqMessage) × (p : Published) × (translate_event e before ≡ some g)
      × (publish thread_of subscribers g.message g.param1 g.param2 ≡ some p)
      × (map (λ (r : ℕ × Message). r.0) p.posts ≡ map thread_of subscribers)
      × EachPost
          (λ m. get_cursor_pos (translate_message u m) ≡ (u16 e.motion_x, u16 e.motion_y))
          p.posts
unfolding publish
pointer_follows e before thread_of subscribers u k =
    let g = mouse_event e mouse_move in
    let m = move_message g.param1 g.param2 in
    (
      g,
      record {
        subscribers = subscribers;
        dropped = [];
        posts = map (λ h. (thread_of h, m)) subscribers;
      },
      translate_event-motion e before k,
      refl,
      receivers thread_of m subscribers,
      EachPost-map _ thread_of m subscribers (
          get_cursor_pos-translate_message u m refl
          ∙ (let w = unpack e.motion_x e.motion_y in λ i. (w.0 i, w.1 i))),
    )
