-- ===== src/Host/Messages/System.antt =====
-- The queue of src/uwin/win32_mq.cpp as a system of one consumer and any number of producers. The mutex
-- makes the work on the list one step; the semaphore is taken in a step before it.
use uwin_old.Common.{ℕ, ◌+◌}
use uwin_old.Common.{◌≡◌, ◌≢◌}
use uwin_old.Common.{Bool, true, false, some, List, [], ◌∷◌, ◌++◌, map}
use uwin_old.Common.{◌==◌, if◌then◌else◌, length}
use uwin_old.Common.{done}
use uwin_old.Common.Links.{Linked, Outside, AllDistinct, last_of}
use uwin_old.Host.Messages.{Message, Nodes, Queue, create, post, acquire, take_first}

abbrev pub remove : ℕ → List ℕ → List ℕ
remove p [] = []
remove p (x ∷ xs) = if x == p then xs else x ∷ remove p xs

-- A queue, the nodes that are allocated, whether the consumer is behind the semaphore, and all
-- messages that were posted and received so far.
pub record System : Type 0 where
  pub queue : Queue
  pub live : List ℕ
  pub holding : Bool
  pub posted : List Message
  pub received : List Message

abbrev pub start : Nodes → System
start nodes = record {
  queue = create nodes;
  live = [];
  holding = false;
  posted = [];
  received = [];
}

pub data Step : System → System → Type 0 where
  posts :
      {s : System} (p : ℕ) (m : Message)
      → p ≢ 0
      → Outside p s.live
      → Step s (record s {
        queue = post s.queue p m;
        live = s.live ++ (p ∷ []);
        posted = s.posted ++ (m ∷ []);
      })
  acquires :
      {s : System} (q : Queue)
      → s.holding ≡ false
      → acquire s.queue ≡ some q
      → Step s (record s { queue = q; holding = true })
  takes :
      {s : System} (p : ℕ) (m : Message) (q : Queue)
      → s.holding ≡ true
      → take_first s.queue ≡ done (p, m, q)
      → Step s (record s {
        queue = q;
        live = remove p s.live;
        holding = false;
        received = s.received ++ (m ∷ []);
      })

pub data Reach (nodes : Nodes) : System → Type 0 where
  here : Reach nodes (start nodes)
  next : {s t : System} → Reach nodes s → Step s t → Reach nodes t

abbrev pub next_in : Nodes → ℕ → ℕ
next_in nodes p = (nodes p).next

-- The messages at some nodes.
abbrev pub messages : Nodes → List ℕ → List Message
messages nodes = map (λ p. (nodes p).msg)

abbrev pub LastIs : ℕ → List ℕ → Type 0
LastIs last [] = Unit
LastIs last (x ∷ xs) = last ≡ last_of x xs

pub record IsFifo (s : System) : Type 0 where
  pub linked : Linked (next_in s.queue.nodes) s.queue.first s.live
  pub last : LastIs s.queue.last s.live
  pub once : AllDistinct s.live
  pub count : s.queue.sem + (if s.holding then 1 else 0) ≡ length s.live
  pub order : s.posted ≡ s.received ++ messages s.queue.nodes s.live
