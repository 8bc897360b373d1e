-- ===== src/Host/Messages/Post.antt =====
-- What `uw_win32_mq_post` (src/uwin/win32_mq.cpp) keeps of a queue.
use uwin_old.Common.{ℕ, ◌+◌}
use uwin_old.Common.{◌≡◌, sym, ap, ap₂, ◌∙◌, ◌≢◌, arith}
use uwin_old.Common.{List, [], ◌∷◌, ◌++◌}
use uwin_old.Common.{◌==◌, if◌then◌else◌}
use uwin_old.Common.{length-append}
use mathlib.Core.List.{append_assoc}
use uwin_old.Common.Links.{
  Linked, Outside, AllDistinct, Outside-last, AllDistinct-append, last_of-append, Linked-append,
}
use uwin_old.Host.Messages.{Message, Nodes, Queue, post}
use uwin_old.Host.Messages.System.{System, messages, next_in, LastIs, IsFifo}

messages-append :
    (nodes nodes' : Nodes) (p : ℕ) (m : Message) (xs : List ℕ)
    → Outside p xs
    → ((q : ℕ) → q ≢ p → (nodes' q).msg ≡ (nodes q).msg)
    → (nodes' p).msg ≡ m
    → messages nodes' (xs ++ (p ∷ [])) ≡ messages nodes xs ++ (m ∷ [])
messages-append nodes nodes' p m [] off same new = ap (λ x. x ∷ []) new
messages-append nodes nodes' p m (x ∷ xs) off same new =
    ap₂ (λ (a : Message) (l : List Message). a ∷ l) (same x off.0)
      (messages-append nodes nodes' p m xs off.1 same new)

post-next :
    (mq : Queue) (p : ℕ) (m : Message) (q : ℕ)
    → mq.first ≢ 0
    → mq.last ≢ p
    → ((post mq p m).nodes q).next
      ≡ (if q == p then 0 else if q == mq.last then p else (mq.nodes q).next)
unfolding post
post-next mq p m q ne off = ground arith

post-msg :
    (mq : Queue) (p : ℕ) (m : Message) (q : ℕ)
    → q ≢ p
    → ((post mq p m).nodes q).msg ≡ (mq.nodes q).msg
unfolding post
post-msg mq p m q ne = ground arith

post-msg_new : (mq : Queue) (p : ℕ) (m : Message) → ((post mq p m).nodes p).msg ≡ m
unfolding post
post-msg_new mq p m = ground arith

post-first :
    (mq : Queue) (p : ℕ) (m : Message)
    → (post mq p m).first ≡ (if mq.first == 0 then p else mq.first)
unfolding post
post-first mq p m = ground arith

post-last : (mq : Queue) (p : ℕ) (m : Message) → (post mq p m).last ≡ p
unfolding post
post-last mq p m = ground arith

post-sem : (mq : Queue) (p : ℕ) (m : Message) → (post mq p m).sem ≡ mq.sem + 1
unfolding post
post-sem mq p m = ground arith

post-next_new : (mq : Queue) (p : ℕ) (m : Message) → mq.first ≡ 0 → ((post mq p m).nodes p).next ≡ 0
unfolding post
post-next_new mq p m empty = ground arith

-- The links after a post.
post-Linked :
    (mq : Queue) (p : ℕ) (m : Message) (live : List ℕ)
    → Linked (next_in mq.nodes) mq.first live
    → LastIs mq.last live
    → AllDistinct live
    → p ≢ 0
    → Outside p live
    → Linked (next_in (post mq p m).nodes) (post mq p m).first (live ++ (p ∷ []))
post-Linked mq p m [] links end once nonzero off =
    (ground (arith, post-first mq p m), nonzero, post-next_new mq p m links)
post-Linked mq p m (x ∷ xs) links end once nonzero off =
    let away : mq.last ≢ p = λ e. Outside-last p x xs off (sym end ∙ e) in
    let nonempty : mq.first ≢ 0 = λ e. links.1 (sym links.0 ∙ e) in
    (
      ground (arith, post-first mq p m),
      links.1,
      Linked-append (next_in mq.nodes) (next_in (post mq p m).nodes) x p xs links.2 once off nonzero
          (λ q. ground (arith, post-next mq p m q nonempty away, end)),
    )

LastIs-append : (p last : ℕ) (live : List ℕ) → last ≡ p → LastIs last (live ++ (p ∷ []))
LastIs-append p last [] e = e
LastIs-append p last (x ∷ xs) e = e ∙ sym (last_of-append x p xs)

pub post-IsFifo :
    (s : System) (p : ℕ) (m : Message)
    → IsFifo s
    → p ≢ 0
    → Outside p s.live
    → IsFifo (record s {
      queue = post s.queue p m;
      live = s.live ++ (p ∷ []);
      posted = s.posted ++ (m ∷ []);
    })
post-IsFifo s p m f nonzero off = record {
  linked = post-Linked s.queue p m s.live f.linked f.last f.once nonzero off;
  last = LastIs-append p (post s.queue p m).last s.live (post-last s.queue p m);
  once = AllDistinct-append p s.live f.once off;
  count = omega (arith, post-sem s.queue p m, f.count, length-append s.live (p ∷ []));
  order =
      ap (λ l. l ++ (m ∷ [])) f.order
      ∙ append_assoc s.received (messages s.queue.nodes s.live) (m ∷ [])
      ∙ ap (λ l. s.received ++ l)
          (sym (
            messages-append s.queue.nodes (post s.queue p m).nodes p m s.live off
              (post-msg s.queue p m) (post-msg_new s.queue p m)));
}
