-- ===== src/Host/Messages/Fifo.antt =====
-- The queue of src/uwin/win32_mq.cpp under any interleaving of its producers and its one consumer.
use uwin_old.Common.{◌+◌}
use uwin_old.Common.{◌≡◌, refl, sym, ap, ◌∙◌}
use uwin_old.Common.{true, List, [], ◌∷◌, ◌++◌}
use uwin_old.Common.{if◌then◌else◌, length}
use uwin_old.Common.{done}
use mathlib.Core.List.{append_assoc}
use uwin_old.Common.Links.{Linked}
use uwin_old.Host.Messages.{Message, Nodes, Queue, create, take_first}
use uwin_old.Host.Messages.System.{
  System, posts, acquires, takes, Reach, here, next, messages, next_in, IsFifo,
}
use uwin_old.Host.Messages.Post.{post-IsFifo}
use uwin_old.Host.Messages.Take.{
  take-IsFifo, acquire-IsFifo, take_first-done, after_take, take_first-live,
}

Reach-IsFifo : {nodes : Nodes} {s : System} → Reach nodes s → IsFifo s
unfolding create
Reach-IsFifo here = record { linked = refl; last = tt; once = tt; count = refl; order = refl }
Reach-IsFifo (next r (posts p m nonzero off)) = post-IsFifo _ p m (Reach-IsFifo r) nonzero off
Reach-IsFifo (next r (acquires q h a)) = acquire-IsFifo _ q (Reach-IsFifo r) h a
Reach-IsFifo (next r (takes p m q h t)) = take-IsFifo _ p m q (Reach-IsFifo r) h t

-- Whatever posts, acquisitions and takes have run, in whatever order, on a new queue: the posted
-- messages are the received ones and then those of the list's nodes from the first on, each once and in
-- order, and the semaphore with the acquired message counts the nodes.
pub fifo :
    (nodes : Nodes) (s : System)
    → Reach nodes s
    → (s.posted ≡ s.received ++ messages s.queue.nodes s.live)
      × Linked (next_in s.queue.nodes) s.queue.first s.live
      × (s.queue.sem + (if s.holding then 1 else 0) ≡ length s.live)
fifo nodes s r = let f = Reach-IsFifo r in (f.order, f.linked, f.count)

-- In every reachable state in which the consumer has got behind the semaphore, the assertion of
-- `uw_win32_mq_try_pop` and of `uw_win32_mq_pop` holds and they take the first node: its message is the
-- first of the posted ones that was not received.
pub take_first_succeeds :
    (nodes : Nodes) (s : System)
    → Reach nodes s
    → s.holding ≡ true
    → (m : Message) × (q : Queue) × (rest : List Message) × (take_first s.queue
        ≡ done (s.queue.first, m, q))
      × (s.posted ≡ (s.received ++ (m ∷ [])) ++ rest)
take_first_succeeds nodes s r h =
    let f = Reach-IsFifo r in
    let z = take_first-live s s.live refl f h in
    let m = (s.queue.nodes s.queue.first).msg in
    (
      m,
      after_take s.queue,
      messages s.queue.nodes z.0,
      take_first-done s.queue z.2 z.3,
      f.order
          ∙ ap (λ l. s.received ++ messages s.queue.nodes l) z.1
          ∙ sym (append_assoc s.received (m ∷ []) (messages s.queue.nodes z.0)),
    )
