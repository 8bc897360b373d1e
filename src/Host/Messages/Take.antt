-- ===== src/Host/Messages/Take.antt =====
-- What `uw_win32_mq_try_pop` and `uw_win32_mq_pop` (src/uwin/win32_mq.cpp) keep of a queue.
use uwin_old.Common.{ℕ, ◌-◌}
use uwin_old.Common.{◌≡◌, refl, sym, ap, ap₂, ◌∙◌, ◌≢◌, arith}
use uwin_old.Common.{true, false, not, ◌&&◌, some, List, [], ◌∷◌, ◌++◌}
use uwin_old.Common.{◌==◌, if◌then◌else◌, length}
use uwin_old.Common.{done}
use mathlib.Core.List.{append_assoc}
use mathlib.Core.Path.{subst}
use uwin_old.Common.Links.{Linked, AllDistinct, last_of, Outside-last, Linked-last}
use uwin_old.Host.Messages.{Message, Nodes, Queue, acquire, take_first}
use uwin_old.Common.{require-eq-done}
use uwin_old.Host.Messages.System.{System, remove, messages, next_in, LastIs, IsFifo}

-- What a take leaves, when the assertion holds.
pub after_take : Queue → Queue
after_take mq =
    if mq.first == mq.last
    then record mq { first = 0; last = 0 }
    else record mq { first = (mq.nodes mq.first).next }

pub take_first-done :
    (mq : Queue)
    → mq.first ≢ 0
    → mq.last ≢ 0
    → take_first mq ≡ done (mq.first, (mq.nodes mq.first).msg, after_take mq)
unfolding take_first after_take
take_first-done mq f l = ground arith

take_first-taken :
    (mq q : Queue) (p : ℕ) (m : Message)
    → take_first mq ≡ done (p, m, q)
    → (p ≡ mq.first) × (m ≡ (mq.nodes mq.first).msg) × (q ≡ after_take mq)
unfolding take_first after_take
take_first-taken mq q p m t =
    let e = (require-eq-done (not (mq.first == 0) && not (mq.last == 0)) _ _ t).1 in
    (sym (ap (λ r. r.0) e), sym (ap (λ r. r.1) e), sym (ap (λ r. r.2) e))

after_take-more :
    (mq : Queue)
    → mq.first ≢ mq.last
    → after_take mq ≡ record mq { first = (mq.nodes mq.first).next }
unfolding after_take
after_take-more mq more = ground arith

after_take-Linked :
    (mq : Queue) (x : ℕ) (xs : List ℕ)
    → Linked (next_in mq.nodes) mq.first (x ∷ xs)
    → LastIs mq.last (x ∷ xs)
    → AllDistinct (x ∷ xs)
    → Linked (next_in (after_take mq).nodes) (after_take mq).first xs
      × LastIs (after_take mq).last xs
unfolding after_take
after_take-Linked mq x [] links end once = ground arith
after_take-Linked mq x (y ∷ ys) links end once =
    let more : mq.first ≢ mq.last = λ e. Outside-last x y ys once.0 (sym end ∙ sym e ∙ links.0) in
    subst (λ q. Linked (next_in q.nodes) q.first (y ∷ ys) × LastIs q.last (y ∷ ys))
      (sym (after_take-more mq more))
      ((ap (next_in mq.nodes) links.0 ∙ links.2.0, links.2.1, links.2.2), end)

after_take-nodes :
    (mq : Queue) → ((after_take mq).nodes ≡ mq.nodes) × ((after_take mq).sem ≡ mq.sem)
unfolding after_take
after_take-nodes mq = ground arith

-- Removing the first live node.
remove-head : (x : ℕ) (xs : List ℕ) → remove x (x ∷ xs) ≡ xs
remove-head x xs = ground arith

-- A step that receives, with the live nodes split.
take-IsFifo_cons :
    (s : System) (x : ℕ) (xs : List ℕ)
    → s.live ≡ x ∷ xs
    → IsFifo s
    → s.holding ≡ true
    → IsFifo (record s {
      queue = after_take s.queue;
      live = xs;
      holding = false;
      received = s.received ++ ((s.queue.nodes s.queue.first).msg ∷ []);
    })
take-IsFifo_cons s x xs l f h =
    let links : Linked (next_in s.queue.nodes) s.queue.first (x ∷ xs) =
      subst (Linked (next_in s.queue.nodes) s.queue.first) l f.linked in
    let once : AllDistinct (x ∷ xs) = subst AllDistinct l f.once in
    let left = after_take-Linked s.queue x xs links (subst (LastIs s.queue.last) l f.last) once in
    let kept = after_take-nodes s.queue in
    record {
      linked = left.0;
      last = left.1;
      once = once.1;
      count = ground (arith, f.count, ap length l, kept.1, h);
      order =
          f.order
          ∙ ap (λ l'. s.received ++ messages s.queue.nodes l') l
          ∙ sym (append_assoc s.received ((s.queue.nodes x).msg ∷ []) (messages s.queue.nodes xs))
          ∙ ap₂
              (λ (a : ℕ) (n : Nodes). (s.received ++ ((s.queue.nodes a).msg ∷ [])) ++ messages n xs)
              (sym links.0) (sym kept.0);
    }

nonempty : (s : System) → IsFifo s → s.holding ≡ true → s.live ≢ []
nonempty s f h e = ground (arith, f.count, ap length e)

-- The queue, the node and the message of a take.
abbrev pub Taken : System → ℕ × Message × Queue → System
Taken s r = record s {
  queue = r.2;
  live = remove r.0 s.live;
  holding = false;
  received = s.received ++ (r.1 ∷ []);
}

take-IsFifo_live :
    (s : System) (live : List ℕ)
    → s.live ≡ live
    → IsFifo s
    → s.holding ≡ true
    → IsFifo (Taken s (s.queue.first, (s.queue.nodes s.queue.first).msg, after_take s.queue))
take-IsFifo_live s [] l f h = elim (nonempty s f h l) [ ]
take-IsFifo_live s (x ∷ xs) l f h =
    let links : Linked (next_in s.queue.nodes) s.queue.first (x ∷ xs) =
      subst (Linked (next_in s.queue.nodes) s.queue.first) l f.linked in
    let rest : remove s.queue.first s.live ≡ xs = ap₂ remove links.0 l ∙ remove-head x xs in
    subst
      (λ r. IsFifo (record s {
        queue = after_take s.queue;
        live = r;
        holding = false;
        received = s.received ++ ((s.queue.nodes s.queue.first).msg ∷ []);
      }))
      (sym rest) (take-IsFifo_cons s x xs l f h)

pub take-IsFifo :
    (s : System) (p : ℕ) (m : Message) (q : Queue)
    → IsFifo s
    → s.holding ≡ true
    → take_first s.queue ≡ done (p, m, q)
    → IsFifo (Taken s (p, m, q))
take-IsFifo s p m q f h t =
    let e = take_first-taken s.queue q p m t in
    subst (λ r. IsFifo (Taken s r)) (λ i. (sym e.0 i, sym e.1 i, sym e.2 i))
      (take-IsFifo_live s s.live refl f h)

acquire-some :
    (mq q : Queue) → acquire mq ≡ some q → (mq.sem ≢ 0) × (record mq { sem = mq.sem - 1 } ≡ q)
unfolding acquire
acquire-some mq q a = ground arith

pub acquire-IsFifo :
    (s : System) (q : Queue)
    → IsFifo s
    → s.holding ≡ false
    → acquire s.queue ≡ some q
    → IsFifo (record s { queue = q; holding = true })
acquire-IsFifo s q f h a =
    let e = acquire-some s.queue q a in
    subst (λ q'. IsFifo (record s { queue = q'; holding = true })) e.1
      (record {
        linked = f.linked;
        last = f.last;
        once = f.once;
        count = ground (arith, f.count, e.0, h);
        order = f.order;
      })

pub take_first-live :
    (s : System) (live : List ℕ)
    → s.live ≡ live
    → IsFifo s
    → s.holding ≡ true
    → (xs : List ℕ) × (s.live ≡ s.queue.first ∷ xs) × (s.queue.first ≢ 0) × (s.queue.last ≢ 0)
take_first-live s [] l f h = elim (nonempty s f h l) [ ]
take_first-live s (x ∷ xs) l f h =
    let links : Linked (next_in s.queue.nodes) s.queue.first (x ∷ xs) =
      subst (Linked (next_in s.queue.nodes) s.queue.first) l f.linked in
    let end : s.queue.last ≡ last_of x xs = subst (LastIs s.queue.last) l f.last in
    (
      xs,
      l ∙ ap (λ y. y ∷ xs) (sym links.0),
      (λ e. links.1 (sym links.0 ∙ e)),
      (λ e. Linked-last (next_in s.queue.nodes) s.queue.first x xs links (sym end ∙ e)),
    )
