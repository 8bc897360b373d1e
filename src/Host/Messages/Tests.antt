-- ===== src/Host/Messages/Tests.antt =====
-- A queue with two messages of which the consumer takes one, and three subscriptions.
use uwin_old.Common.{ℕ, ◌+◌, ◌/◌}
use uwin_old.Common.{◌≡◌, refl, arith}
use uwin_old.Common.{Bool, true, some, List, [], ◌∷◌, ◌++◌}
use uwin_old.Common.{length}
use uwin_old.Host.Messages.{Message, Nodes, Queue, create, post, acquire, publish, mouse_l_down}
use uwin_old.Common.Links.{Linked}
use uwin_old.Host.Messages.System.{System, posts, acquires, Reach, here, next, messages, next_in}
use uwin_old.Host.Messages.Fifo.{fifo}

abbrev two_nodes : List ℕ
two_nodes = 0x1000 ∷ 0x2000 ∷ []

abbrev click : ℕ → Message
click code = record { hwnd = 0; message = code; wparam = 0; lparam = 0 }

abbrev no_nodes : Nodes
no_nodes p = record { msg = click 0; next = 0 }

abbrev two_posts : Queue
two_posts = post (post (create no_nodes) 0x1000 (click 0x201)) 0x2000 (click 0x202)

abbrev waiting : Bool → ℕ → System
waiting holding sem = record {
  queue = record two_posts { sem = sem };
  live = two_nodes;
  holding = holding;
  posted = click 0x201 ∷ click 0x202 ∷ [];
  received = [];
}

acquired : acquire two_posts ≡ some (record two_posts { sem = 1 })
unfolding acquire post create
acquired = refl

waiting-Reach : Reach no_nodes (waiting true 1)
waiting-Reach =
    next
      (next (next here (posts 0x1000 (click 0x201) (omega arith) tt))
        (posts 0x2000 (click 0x202) (omega arith) (omega arith, tt)))
      (acquires (record two_posts { sem = 1 }) refl acquired)

fifo_example :
    ((click 0x201 ∷ click 0x202 ∷ []) ≡ [] ++ messages two_posts.nodes two_nodes)
    × Linked (next_in two_posts.nodes) two_posts.first two_nodes
    × (1 + 1 ≡ length two_nodes)
fifo_example = fifo no_nodes (waiting true 1) waiting-Reach

clicked :
    publish (λ h. h / 2) (4 ∷ 6 ∷ []) mouse_l_down 1 0x20000a
    ≡ some (record {
      subscribers = 4 ∷ 6 ∷ [];
      dropped = [];
      posts =
          (2, record { hwnd = 0; message = 0x201; wparam = 1; lparam = 0x20000a })
          ∷ (3, record { hwnd = 0; message = 0x201; wparam = 1; lparam = 0x20000a })
          ∷ [];
    })
unfolding publish
clicked = refl
