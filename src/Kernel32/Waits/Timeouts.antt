-- ===== src/Kernel32/Waits/Timeouts.antt =====
-- What a timeout does to a wait for an event in src/uwin/target_dlls/KERNEL32/kernel32.c.
use uwin_old.Common.{ℕ, ◌≤◌}
use uwin_old.Common.{◌≡◌, refl, ◌≢◌, ◌⊎◌, inl, inr, arith}
use uwin_old.Common.{Bool, true, false, Option, none, some, List, [], ◌∷◌}
use uwin_old.Common.{leb, ◌==◌, Bool-cases}
use uwin_old.Common.{done, sub64}
use uwin_old.Common.{leb→le, leb}
use uwin_old.Kernel32.Waits.{
  Event, infinite, Wake, timeout_us, wait_loop, event_wait, event, wait_for_single_object,
}

-- The event was set at none of the wakes.
abbrev pub NeverSet : List Wake → Type 0
NeverSet [] = Unit
NeverSet (w ∷ ws) = (w.state ≡ false) × NeverSet ws

-- Some wake comes when the time is over.
abbrev pub Expires : ℕ → ℕ → List Wake → Type 0
Expires timeout_ms start [] = ⊥
Expires timeout_ms start (w ∷ ws) =
    (timeout_us timeout_ms ≤ sub64 w.now start) ⊎ Expires timeout_ms start ws

wait_loop-Expires :
    (timeout_ms start now : ℕ) (ws : List Wake)
    → timeout_ms ≢ infinite
    → NeverSet ws
    → Expires timeout_ms start ws
    → (left_at : ℕ) × (wait_loop timeout_ms start now false ws ≡ some left_at)
      × (timeout_us timeout_ms ≤ sub64 left_at start)
unfolding wait_loop
wait_loop-Expires timeout_ms start now [] finite never expires = absurd expires
wait_loop-Expires timeout_ms start now (w ∷ ws) finite never expires =
    let some_time : (timeout_ms == infinite) ≡ false = ground (arith, finite) in
    elim (Bool-cases (leb (timeout_us timeout_ms) (sub64 w.now start))) [
      | inl over ↦ (w.now, rw (some_time, over) refl, leb→le _ _ over)
      | inr early ↦
          let later : Expires timeout_ms start ws = elim expires [
            | inl over ↦ absurd (ground (arith, early, over))
            | inr rest ↦ rest
          ] in
          let (left_at, is, late) =
            wait_loop-Expires timeout_ms start w.now ws finite never.1 later in
          (left_at, rw (some_time, early, never.0) is, late)
    ]

-- A wait with a finite timeout for an event that is never set answers WAIT_OBJECT_0, as if it had
-- been set, when the time is over.
pub timed_out_wait :
    (timed_out : Option ℕ → Bool) (e : Event) (timeout_ms start : ℕ) (ws : List Wake)
    → e.is_manual_reset ≡ true
    → e.state ≡ false
    → timeout_ms ≢ infinite
    → NeverSet ws
    → Expires timeout_ms start ws
    → wait_for_single_object timed_out (event e) timeout_ms start ws ≡ done (some 0)
unfolding event_wait wait_for_single_object
timed_out_wait timed_out e timeout_ms start ws manual unset finite never expires =
    let (left_at, is, late) = wait_loop-Expires timeout_ms start start ws finite never expires in
    rw (manual, unset, is) refl

-- The event is set at some wake.
abbrev pub SetAtSome : List Wake → Type 0
SetAtSome [] = ⊥
SetAtSome (w ∷ ws) = (w.state ≡ true) ⊎ SetAtSome ws

wait_loop-true :
    (timeout_ms start now : ℕ) (state : Bool) (ws : List Wake)
    → state ≡ true
    → wait_loop timeout_ms start now state ws ≡ some now
unfolding wait_loop
wait_loop-true timeout_ms start now state ws e = rw (wait_loop, e) refl

-- Whatever the loop does after a wake, it ends if it does so on both of its ways.
wait_loop-cons :
    (timeout_ms start now : ℕ) (w : Wake) (ws : List Wake)
    → ((t : ℕ) → (left_at : ℕ) × (wait_loop timeout_ms start t w.state ws ≡ some left_at))
    → (left_at : ℕ) × (wait_loop timeout_ms start now false (w ∷ ws) ≡ some left_at)
unfolding wait_loop
wait_loop-cons timeout_ms start now w ws rest = elim (Bool-cases (timeout_ms == infinite)) [
  | inl forever ↦ let (t, e) = rest now in (t, rw forever e)
  | inr finite ↦ elim (Bool-cases (leb (timeout_us timeout_ms) (sub64 w.now start))) [
    | inl over ↦ (w.now, rw (finite, over) refl)
    | inr early ↦ let (t, e) = rest w.now in (t, rw (finite, early) e)
  ]
]

wait_loop-SetAtSome :
    (timeout_ms start now : ℕ) (state : Bool) (ws : List Wake)
    → SetAtSome ws
    → (left_at : ℕ) × (wait_loop timeout_ms start now state ws ≡ some left_at)
unfolding wait_loop
wait_loop-SetAtSome timeout_ms start now true ws h =
    (now, wait_loop-true timeout_ms start now true ws refl)
wait_loop-SetAtSome timeout_ms start now false [] h = absurd h
wait_loop-SetAtSome timeout_ms start now false (w ∷ ws) h = elim h [
  | inl set_here ↦
      wait_loop-cons timeout_ms start now w ws
        (λ t. (t, wait_loop-true timeout_ms start t w.state ws set_here))
  | inr later ↦
      wait_loop-cons timeout_ms start now w ws
        (λ t. wait_loop-SetAtSome timeout_ms start t w.state ws later)
]

-- A wait for a manual-reset event that is found set at some wake returns WAIT_OBJECT_0, whatever the
-- timeout.
pub set_event_wait :
    (timed_out : Option ℕ → Bool) (e : Event) (timeout_ms start : ℕ) (ws : List Wake)
    → e.is_manual_reset ≡ true
    → SetAtSome ws
    → wait_for_single_object timed_out (event e) timeout_ms start ws ≡ done (some 0)
unfolding event_wait wait_for_single_object
set_event_wait timed_out e timeout_ms start ws manual set_ =
    let (left_at, is) = wait_loop-SetAtSome timeout_ms start start e.state ws set_ in
    rw (manual, is) refl

-- A wait for an event without a timeout goes on as long as it is not set.
pub unset_event_wait :
    (timed_out : Option ℕ → Bool) (e : Event) (start : ℕ) (ws : List Wake)
    → e.is_manual_reset ≡ true
    → e.state ≡ false
    → NeverSet ws
    → wait_for_single_object timed_out (event e) infinite start ws ≡ done none
unfolding event_wait wait_for_single_object wait_loop
unset_event_wait timed_out e start ws manual unset never =
    rw (manual, unset, waits start ws never) refl
  where
    waits : (now : ℕ) (l : List Wake) → NeverSet l → wait_loop infinite start now false l ≡ none
    waits now [] h = refl
    waits now (w ∷ l) h = rw h.0 (waits now l h.1)
