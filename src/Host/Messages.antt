-- ===== src/Host/Messages.antt =====
-- The message queues of src/uwin/win32_mq.cpp: one linked list for each thread, a semaphore that counts
-- its messages, and the threads that hear of the user's actions.
pub mod Fifo
pub mod Post
pub mod Subscribers
pub mod System
pub mod Take
mod Tests
use uwin_old.Common.{ℕ, zero, suc, ◌+◌, ◌-◌, ◌*◌, ◌/◌, ◌%◌, ◌^◌, ◌≤◌, ◌<◌, bit_and, bit_or}
use uwin_old.Common.{◌≡◌, refl, sym, ap, ap₂, ◌∙◌, fun_ext, ◌≢◌, ◌↔◌, ◌⊎◌, inl, inr, arith}
use uwin_old.Common.{
  Bool, true, false, not, ◌&&◌, ◌||◌, Option, none, some, List, [], ◌∷◌, ◌++◌, map,
}
use uwin_old.Common.{
  ltb, leb, ◌==◌, if◌then◌else◌, Bool-cases, Option-cases, length, get_elem?, set,
}
use uwin_old.Common.{erase_at}
use uwin_old.Common.{
  get_or, take, drop, replicate, length-append, length-set, get_elem?-set_self, get_elem?-set_ne,
}
use uwin_old.Common.{
  Outcome, done, panic, ◌>>=◌, ◌>>◌, require, u8, u16, u32, u64, sub32, sub64, signed32,
}
use uwin_old.Common.Int.{ℤ, pos, negsuc, pos_part, neg_part, sub_ℕ, ◌+ℤ◌, ◌-ℤ◌, ◌*ℤ◌, ◌≤ℤ◌, ltb_ℤ}

pub record Message : Type 0 where
  pub hwnd : ℕ
  pub message : ℕ
  pub wparam : ℕ
  pub lparam : ℕ

-- uw_win32_msg_internal
pub record Node : Type 0 where
  pub msg : Message
  pub next : ℕ

abbrev pub Nodes : Type 0
Nodes = ℕ → Node

abbrev pub put_node : Nodes → ℕ → Node → Nodes
put_node nodes p v q = if q == p then v else nodes q

-- uw_win32_mq, with the memory that its nodes are in
pub record Queue : Type 0 where
  pub nodes : Nodes
  pub first : ℕ
  pub last : ℕ
  pub sem : ℕ

-- `uw_win32_mq_create`
pub create : Nodes → Queue
create nodes = record { nodes = nodes; first = 0; last = 0; sem = 0 }

-- `uw_win32_mq_post`, with `p` the address of the new node.
pub post : Queue → ℕ → Message → Queue
post mq p m =
    let nodes = put_node mq.nodes p (record { msg = m; next = 0 }) in
    if mq.first == 0
    then record { nodes = nodes; first = p; last = p; sem = mq.sem + 1 }
    else record {
      nodes = put_node nodes mq.last (record (nodes mq.last) { next = p });
      first = mq.first;
      last = p;
      sem = mq.sem + 1;
    }

-- `sem_trywait`, and what `sem_wait` does when it returns
pub acquire : Queue → Option Queue
acquire mq = if mq.sem == 0 then none else some (record mq { sem = mq.sem - 1 })

-- The rest of `uw_win32_mq_try_pop` and of `uw_win32_mq_pop`: the node taken, its message, and the
-- queue. The assertion stops the process.
pub take_first : Queue → Outcome (ℕ × Message × Queue)
take_first mq =
    require (not (mq.first == 0) && not (mq.last == 0))
    >> done (
      mq.first,
      (mq.nodes mq.first).msg,
      if mq.first == mq.last
          then record mq { first = 0; last = 0 }
          else record mq { first = (mq.nodes mq.first).next },
    )

-- `uw_win32_mq_try_pop` when no other thread runs: `none` is -1.
pub try_pop : Queue → Outcome (Option Message × Queue)
try_pop mq = elim (acquire mq) [
  | none ↦ done (none, mq)
  | some mq' ↦ take_first mq' >>= λ r. done (some r.1, r.2)
]

-- `uw_win32_mq_free`: how many nodes it frees, with fuel.
pub free_nodes : ℕ → Nodes → ℕ → Option ℕ
free_nodes zero nodes p = if p == 0 then some 0 else none
free_nodes (suc fuel) nodes p =
    let rest : Option ℕ = elim (free_nodes fuel nodes (nodes p).next) [
      | none ↦ none
      | some n ↦ some (suc n)
    ] in
    if p == 0 then some 0 else rest

-- The messages of the user interface that the code knows.
pub data Event : Type 0 where
  mouse_move mouse_l_down mouse_r_down mouse_l_up mouse_r_up : Event
  thread_died : Event
  other_event : Event

-- The Windows message of a mouse event.
abbrev pub mouse_message : Event → Option ℕ
mouse_message mouse_move = some 0x200
mouse_message mouse_l_down = some 0x201
mouse_message mouse_l_up = some 0x202
mouse_message mouse_r_down = some 0x204
mouse_message mouse_r_up = some 0x205
mouse_message thread_died = none
mouse_message other_event = none

-- The loop for a dead thread, with fuel: `thread_of` is the thread that a handle stands for, `dropped`
-- the references given up so far. An erased element's place is looked at again.
pub drop_thread : ℕ → (ℕ → ℕ) → ℕ → ℕ → List ℕ → List ℕ → Option (List ℕ × List ℕ)
drop_thread zero thread_of dead i handles dropped = none
drop_thread (suc fuel) thread_of dead i handles dropped =
    let h = get_or handles i 0 in
    let next : ℕ × List ℕ × List ℕ =
      if thread_of h == dead
      then (i, erase_at i handles, dropped ++ (h ∷ []))
      else (i + 1, handles, dropped) in
    let rest = drop_thread fuel thread_of dead next.0 next.1 next.2 in
    if ltb i (length handles) then rest else some (handles, dropped)

-- What a published event leads to: the subscriptions, the handles dropped, and the messages posted
-- with the threads that get them.
pub record Published : Type 0 where
  pub subscribers : List ℕ
  pub dropped : List ℕ
  pub posts : List (ℕ × Message)

-- `uw_win32_mq_subscribe_global`, with the new reference
pub subscribe_global : List ℕ → ℕ → List ℕ
subscribe_global subscribers handle = subscribers ++ (handle ∷ [])

-- `uw_win32_mq_publish_global_message`; the loop has fuel for every handle.
unfoldable pub publish : (ℕ → ℕ) → List ℕ → Event → ℕ → ℕ → Option Published
publish thread_of subscribers event param1 param2 = elim (mouse_message event) [
  | some code ↦
      let m : Message = record {
        hwnd = 0;
        message = code;
        wparam = u32 param1;
        lparam = u32 param2;
      } in
      some (record {
        subscribers = subscribers;
        dropped = [];
        posts = map (λ h. (thread_of h, m)) subscribers;
      })
  | none ↦ elim event [
    | thread_died ↦
        elim (drop_thread (suc (length subscribers)) thread_of param1 0 subscribers []) [
          | none ↦ none
          | some r ↦ some (record { subscribers = r.0; dropped = r.1; posts = [] })
        ]
    | _ ↦ some (record { subscribers = subscribers; dropped = []; posts = [] })
  ]
]
