-- ===== src/Kernel32/CriticalSection/Invariant.antt =====
-- What holds in every reachable state of a critical section.
use uwin_old.Common.{ℕ, ◌+◌, ◌-◌, ◌^◌, ◌≤◌, ◌<◌}
use uwin_old.Common.{◌≡◌, refl, ◌≢◌, arith}
use uwin_old.Common.{u32, sub32}
use Prim.Native.Nat.{min}
use uwin_old.Common.Tally.{at, tally, tally-le, tally_unique, tally-at}
use uwin_old.Kernel32.CriticalSection.{System}
use uwin_old.Kernel32.CriticalSection.{initialize_critical_section}
use uwin_old.Kernel32.CriticalSection.{Reach}
use uwin_old.Kernel32.CriticalSection.{start}
use uwin_old.Common.Tally.{tally-zero}
use uwin_old.Kernel32.CriticalSection.{later}
use uwin_old.Common.{sym}
use uwin_old.Kernel32.CriticalSection.{pick}
use uwin_old.Common.{inl}
use uwin_old.Common.{◌⊎◌}
use uwin_old.Common.{inr}
use uwin_old.Kernel32.CriticalSection.{own, disown, begin}
use uwin_old.Kernel32.CriticalSection.{
  Section, increment, decrement, Pc, outside, contended, waiting, owning, inside, unnesting,
  disowning, Move, enter_free, enter_busy, nest_free, nest_busy, reenter, queue, wake, leave_nested,
  leave_last, release_alone, release_wanted, entries, Handles, total,
}

-- The right to be in the section: a thread has it from the moment it gets the section until it has
-- given it back or handed it to the semaphore.
abbrev pub token : Pc → ℕ
token outside = 0
token (contended d) = min d 1
token waiting = 0
token _ = 1

-- Whether a thread stands as the owner in `OwningThread`.
abbrev pub owns : Pc → ℕ
owns (contended d) = min d 1
owns owning = 1
owns (inside d) = 1
owns (unnesting d) = 1
owns disowning = 1
owns _ = 0

-- What `RecursionCount` is where a thread relies on it.
abbrev pub Counted : ℕ → Pc → Type 0
Counted r (contended d) = 0 < d → r ≡ d
Counted r (inside d) = (0 < d) × (r ≡ d)
Counted r (unnesting d) = (1 < d) × (r + 1 ≡ d)
Counted r _ = Unit

abbrev pub tokens : ℕ → (ℕ → Pc) → ℕ
tokens n pc = tally (λ i. token (pc i)) n

pub record Inv (handle : ℕ → ℕ) (n : ℕ) (s : Section) (pc : ℕ → Pc) : Type 0 where
  pub few : total n pc < 2 ^ 31
  pub count : s.lock_count ≡ u32 (total n pc + (2 ^ 32 - 1))
  pub token_free : s.semaphore + tokens n pc ≡ min (total n pc) 1
  pub owner_set : (i : ℕ) → i < n → 0 < owns (pc i) → s.owning_thread ≡ handle i
  pub owner_is : (i : ℕ) → i < n → s.owning_thread ≡ handle i → 0 < owns (pc i)
  pub counted : (i : ℕ) → i < n → Counted s.recursion_count (pc i)
  pub owner_known : (s.owning_thread ≡ 0) ⊎ ((i : ℕ) × (i < n) × (s.owning_thread ≡ handle i))

-- What a move tested, for the clauses below that take several moves at once.
abbrev Tested : {me : ℕ} {s s' : Section} {p p' : Pc} → Move me s p s' p' → Type 0
Tested {s} (enter_free g) = increment s.lock_count ≡ 0
Tested {s} (enter_busy g) = increment s.lock_count ≢ 0
Tested {s} (nest_free g) = increment s.lock_count ≡ 0
Tested {s} (nest_busy g) = increment s.lock_count ≢ 0
Tested {me} {s} (reenter g) = me ≡ s.owning_thread
Tested {me} {s} (queue g) = me ≢ s.owning_thread
Tested {s} (wake g) = 0 < s.semaphore
Tested {s} (leave_nested g) = sub32 s.recursion_count 1 ≢ 0
Tested {s} (leave_last g) = sub32 s.recursion_count 1 ≡ 0
Tested {s} (release_alone g) = decrement s.lock_count ≡ 2 ^ 32 - 1
Tested {s} (release_wanted g) = decrement s.lock_count ≢ 2 ^ 32 - 1
Tested _ = Unit

tested : {me : ℕ} {s s' : Section} {p p' : Pc} (mv : Move me s p s' p') → Tested mv
tested (enter_free g) = g
tested (enter_busy g) = g
tested (nest_free g) = g
tested (nest_busy g) = g
tested (reenter g) = g
tested (queue g) = g
tested (wake g) = g
tested (leave_nested g) = g
tested (leave_last g) = g
tested (release_alone g) = g
tested (release_wanted g) = g
tested _ = tt

module _ (handle : ℕ → ℕ) (hs : Handles handle) (n : ℕ) {s : Section} {pc : ℕ → Pc}
    (inv : Inv handle n s pc) (i : ℕ) (lt : i < n) where
  open inv use {few, count, token_free, owner_set, owner_is, counted}
  open hs use {nonzero, distinct}

  -- Thread `i` goes from `p` to `p'`.
  record Mover (p p' : Pc) : Type 0 where
    here : pc i ≡ p
    entered : total n (at pc i p') + entries p ≡ total n pc + entries p'
    tokened : tokens n (at pc i p') + token p ≡ tokens n pc + token p'
    entries_le : entries p ≤ total n pc
    tokens_le : (token p ≤ tokens n pc) × (tokens n pc ≤ 1)
    set : 0 < owns p → s.owning_thread ≡ handle i
    is : s.owning_thread ≡ handle i → 0 < owns p
    own_count : Counted s.recursion_count p
    few' : total n (at pc i p') < 2 ^ 31

  mover : (p' : Pc) → total n (at pc i p') < 2 ^ 31 → Mover (pc i) p'
  mover p' h = record {
    here = refl;
    entered = tally-at entries pc i p' n lt;
    tokened = tally-at token pc i p' n lt;
    entries_le = tally-le (λ j. entries (pc j)) n i lt;
    tokens_le = (tally-le (λ j. token (pc j)) n i lt, omega arith);
    set = owner_set i lt;
    is = owner_is i lt;
    own_count = counted i lt;
    few' = h;
  }

  alone :
      (p : Pc)
      → pc i ≡ p
      → tokens n pc ≤ 1
      → (j : ℕ) → j < n
      → 0 < token p
      → 0 < token (pc j)
      → j ≡ i
  alone p e le j hj h hq = tally_unique (λ j. token (pc j)) n j i le hj lt hq (rw e h)

  Move-count :
      {p p' : Pc} {s' : Section}
      → Move (handle i) s p s' p'
      → Mover p p'
      → s'.lock_count ≡ u32 (total n (at pc i p') + (2 ^ 32 - 1))
  Move-count (enter_free g) f = ground arith
  Move-count mv f = ground (arith, tested mv)

  Move-token :
      {p p' : Pc} {s' : Section}
      → Move (handle i) s p s' p'
      → Mover p p'
      → s'.semaphore + tokens n (at pc i p') ≡ min (total n (at pc i p')) 1
  Move-token (enter_free g) f = ground arith
  Move-token mv f = ground (arith, tested mv)

  Move-owner_set :
      {p p' : Pc} {s' : Section}
      → Move (handle i) s p s' p'
      → Mover p p'
      → (j : ℕ) → j < n
      → 0 < owns (at pc i p' j)
      → s'.owning_thread ≡ handle j
  Move-owner_set (enter_free g) f j hj o = ground (arith, owner_set j hj)
  Move-owner_set {p} mv f j hj o =
      ground (arith, tested mv, owner_set j hj, alone p f.here f.tokens_le.1 j hj)

  Move-owner_is :
      {p p' : Pc} {s' : Section}
      → Move (handle i) s p s' p'
      → Mover p p'
      → (j : ℕ) → j < n
      → s'.owning_thread ≡ handle j
      → 0 < owns (at pc i p' j)
  Move-owner_is (enter_free g) f j hj o = ground (arith, owner_is j hj)
  Move-owner_is mv f j hj o = ground (arith, tested mv, owner_is j hj, nonzero j, distinct i j)

  Move-Counted :
      {p p' : Pc} {s' : Section}
      → Move (handle i) s p s' p'
      → Mover p p'
      → (j : ℕ) → j < n
      → Counted s'.recursion_count (at pc i p' j)
  Move-Counted (enter_free g) f j hj = ground (arith, counted j hj)
  Move-Counted {p} mv f j hj =
      ground (arith, tested mv, counted j hj, alone p f.here f.tokens_le.1 j hj)

  Move-owner_known :
      {p p' : Pc} {s' : Section}
      → Move (handle i) s p s' p'
      → (s'.owning_thread ≡ 0) ⊎ ((j : ℕ) × (j < n) × (s'.owning_thread ≡ handle j))
  Move-owner_known own = inr (i, lt, refl)
  Move-owner_known disown = inl refl
  Move-owner_known mv = inv.owner_known

  Move-Inv :
      {p' : Pc} {s' : Section}
      → Move (handle i) s (pc i) s' p'
      → total n (at pc i p') < 2 ^ 31
      → Inv handle n s' (at pc i p')
  Move-Inv {p'} mv h =
      let f : Mover (pc i) p' = mover p' h in
      record {
        few = h;
        count = Move-count mv f;
        token_free = Move-token mv f;
        owner_set = Move-owner_set mv f;
        owner_is = Move-owner_is mv f;
        counted = Move-Counted mv f;
        owner_known = Move-owner_known mv;
      }

start-Inv : (handle : ℕ → ℕ) → Handles handle → (n : ℕ) → Inv handle n start.section start.pc
unfolding initialize_critical_section
start-Inv handle hs n =
    let none_in : total n start.pc ≡ 0 = tally-zero _ n (λ i lt. refl) in
    let no_token : tokens n start.pc ≡ 0 = tally-zero _ n (λ i lt. refl) in
    record {
      few = omega arith;
      count = rw none_in;
      token_free = omega (arith, none_in, no_token);
      owner_set = λ i lt h. absurd (omega arith);
      owner_is = λ i lt e. absurd (hs.nonzero i (sym e));
      counted = λ i lt. tt;
      owner_known = inl refl;
    }

pub Reach-Inv :
    {handle : ℕ → ℕ} {n : ℕ} {s : System}
    → Handles handle
    → Reach handle n s
    → Inv handle n s.section s.pc
Reach-Inv {handle} {n} hs begin = start-Inv handle hs n
Reach-Inv {handle} {n} hs (later r (pick i lt mv h)) =
    Move-Inv handle hs n (Reach-Inv hs r) i lt mv h
