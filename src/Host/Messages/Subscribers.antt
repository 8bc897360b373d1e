-- ===== src/Host/Messages/Subscribers.antt =====
-- The subscriptions of src/uwin/win32_mq.cpp.
use uwin_old.Common.{ℕ, suc, ◌+◌, ◌≤◌, ◌<◌}
use uwin_old.Common.{◌≡◌, sym, ap, ap₂, ◌∙◌, ◌≢◌, inl, inr, arith}
use uwin_old.Common.{Bool, not, Option, none, some, List, [], ◌∷◌, ◌++◌}
use uwin_old.Common.{◌==◌, Bool-cases, length}
use uwin_old.Common.{get_or, length-append}
use mathlib.Core.List.{append_assoc, append-nil}
use uwin_old.Common.{select, erase_at, erase_at-append, get_or-append_at}
use uwin_old.Common.{==_iff}
use uwin_old.Host.Messages.{drop_thread, publish, Published, thread_died}

module _ (thread_of : ℕ → ℕ) (dead : ℕ) where
  drop_thread-erases :
      (fuel i : ℕ) (l dropped : List ℕ)
      → i < length l
      → thread_of (get_or l i 0) ≡ dead
      → drop_thread (suc fuel) thread_of dead i l dropped
        ≡ drop_thread fuel thread_of dead i (erase_at i l) (dropped ++ (get_or l i 0 ∷ []))
  unfolding drop_thread
  drop_thread-erases fuel i l dropped lt e = ground arith

  drop_thread-keeps :
      (fuel i : ℕ) (l dropped : List ℕ)
      → i < length l
      → thread_of (get_or l i 0) ≢ dead
      → drop_thread (suc fuel) thread_of dead i l dropped
        ≡ drop_thread fuel thread_of dead (i + 1) l dropped
  unfolding drop_thread
  drop_thread-keeps fuel i l dropped lt e = ground arith

  drop_thread-stops :
      (fuel i : ℕ) (l dropped : List ℕ)
      → length l ≤ i
      → drop_thread (suc fuel) thread_of dead i l dropped ≡ some (l, dropped)
  unfolding drop_thread
  drop_thread-stops fuel i l dropped le = ground arith

  abbrev is_dead : ℕ → Bool
  is_dead h = thread_of h == dead

  abbrev is_alive : ℕ → Bool
  is_alive h = not (is_dead h)

  drop_thread-from :
      (seen hs dropped : List ℕ)
      → drop_thread (suc (length hs)) thread_of dead (length seen) (seen ++ hs) dropped
        ≡ some (seen ++ select is_alive hs, dropped ++ select is_dead hs)
  drop_thread-from seen [] dropped =
      drop_thread-stops 0 (length seen) (seen ++ []) dropped (omega (arith, length-append seen []))
      ∙ ap (λ d. some (seen ++ [], d)) (sym (append-nil dropped))
  drop_thread-from seen (h ∷ hs) dropped =
      let at : get_or (seen ++ (h ∷ hs)) (length seen) 0 ≡ h = get_or-append_at seen h hs 0 in
      let lt : length seen < length (seen ++ (h ∷ hs)) =
        omega (arith, length-append seen (h ∷ hs)) in
      elim (Bool-cases (is_dead h)) [
        | inl e ↦
            drop_thread-erases (suc (length hs)) (length seen) (seen ++ (h ∷ hs)) dropped lt
              (ap thread_of at ∙ (==_iff (thread_of h) dead).0 e)
            ∙ ap₂
                (λ (l : List ℕ) (k : ℕ).
                  drop_thread (suc (length hs)) thread_of dead (length seen) l
                    (dropped ++ (k ∷ [])))
                (erase_at-append seen h hs) at
            ∙ drop_thread-from seen hs (dropped ++ (h ∷ []))
            ∙ rw e (
                ap (λ d. some (seen ++ select is_alive hs, d))
                  (append_assoc dropped (h ∷ []) (select is_dead hs)))
        | inr e ↦
            drop_thread-keeps (suc (length hs)) (length seen) (seen ++ (h ∷ hs)) dropped lt
              (λ d. ground (arith, e, ap thread_of at, d))
            ∙ ap₂ (λ (n : ℕ) (l : List ℕ). drop_thread (suc (length hs)) thread_of dead n l dropped)
                (sym (length-append seen (h ∷ []))) (sym (append_assoc seen (h ∷ []) hs))
            ∙ drop_thread-from (seen ++ (h ∷ [])) hs dropped
            ∙ rw e (
                ap (λ l. some (l, dropped ++ select is_dead hs))
                  (append_assoc seen (h ∷ []) (select is_alive hs)))
      ]

-- The loop for a dead thread comes to an end with a round for each subscription and one more: exactly
-- the references to the dead thread are given up, each once, and the other subscriptions stay in order.
-- Nothing is posted.
pub publish_thread_died :
    (thread_of : ℕ → ℕ) (subscribers : List ℕ) (dead param2 : ℕ)
    → publish thread_of subscribers thread_died dead param2
      ≡ some (record {
        subscribers = select (λ h. not (thread_of h == dead)) subscribers;
        dropped = select (λ h. thread_of h == dead) subscribers;
        posts = [];
      })
unfolding publish
publish_thread_died thread_of subscribers dead param2 =
    ap
      (λ (o : Option (List ℕ × List ℕ)). elim o as (λ _. Option Published) [
        | none ↦ none
        | some r ↦ some (record { subscribers = r.0; dropped = r.1; posts = [] })
      ])
      (drop_thread-from thread_of dead [] subscribers [])
