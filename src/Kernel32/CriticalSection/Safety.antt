-- ===== src/Kernel32/CriticalSection/Safety.antt =====
-- What a critical section promises the threads that use it.
use uwin_old.Common.{ℕ, ◌-◌, ◌^◌, ◌≤◌, ◌<◌}
use uwin_old.Common.{◌≡◌, ap, ◌↔◌, ◌⊎◌, inl, inr, arith}
use uwin_old.Common.{Bool, true, false}
use uwin_old.Common.{ltb}
use uwin_old.Common.Tally.{tally-pos, tally-le, tally_unique, tally-zero}
use uwin_old.Kernel32.CriticalSection.{
  Pc, outside, contended, waiting, inside, unnesting, disowning, entries, Handles, System, total,
  Reach,
}
use native.Mathlib.Decide.{dec_lt}
use uwin_old.Kernel32.CriticalSection.Invariant.{Inv, token, owns, Reach-Inv}

-- From the return of `EnterCriticalSection` to the write that gives up the ownership.
abbrev pub critical : Pc → Bool
critical (inside d) = true
critical (unnesting d) = true
critical disowning = true
critical _ = false

-- A thread that has the section, or has left it and is about to post the semaphore: one that does
-- not wait.
abbrev pub served : Pc → Bool
served outside = false
served (contended d) = ltb 0 d
served waiting = false
served _ = true

module _ {handle : ℕ → ℕ} {n : ℕ} {s : System} (hs : Handles handle) (r : Reach handle n s) where
  -- In every reachable state at most one thread is in the section, at any nesting.
  pub mutual_exclusion :
      (i j : ℕ) → i < n → j < n → critical (s.pc i) ≡ true → critical (s.pc j) ≡ true → i ≡ j
  mutual_exclusion i j hi hj in_i in_j =
      let inv = Reach-Inv hs r in
      tally_unique (λ k. token (s.pc k)) n i j (omega (arith, inv.token_free)) hi hj (ground arith)
        (ground arith)

  owned : (i : ℕ) {d : ℕ} → i < n → s.pc i ≡ contended d → 0 < owns (s.pc i) → 0 < d
  owned i hi e h = ground arith

  unowned :
      Inv handle n s.section s.pc
      → ((i : ℕ) → i < n → s.pc i ≡ outside)
      → s.section.owning_thread ≡ 0
  unowned inv out = elim inv.owner_known [
    | inl none_owns ↦ none_owns
    | inr (i, hi, e) ↦ absurd (ground (arith, inv.owner_is i hi e, out i hi))
  ]

  -- A thread that is in the section and enters it again finds itself in `OwningThread`, so it does
  -- not wait for itself; a thread that is not in the section does not.
  pub owner_lem :
      (i d : ℕ) → i < n → s.pc i ≡ contended d → (0 < d) ↔ (s.section.owning_thread ≡ handle i)
  owner_lem i d hi e =
      let inv = Reach-Inv hs r in
      (λ h. inv.owner_set i hi (ground arith), λ h. owned i hi e (inv.owner_is i hi h))

  -- No wake-up is lost: while a thread waits, the semaphore is up, or another thread has the section
  -- or is about to post.
  pub no_lost_wakeup :
      (i : ℕ)
      → i < n
      → s.pc i ≡ waiting
      → (0 < s.section.semaphore) ⊎ ((j : ℕ) × (j < n) × (served (s.pc j) ≡ true))
  no_lost_wakeup i hi e =
      let inv = Reach-Inv hs r in
      let one : 1 ≤ total n s.pc =
        omega (arith, tally-le (λ k. entries (s.pc k)) n i hi, ap entries e) in
      elim (dec_lt 0 s.section.semaphore) [
        | yes up ↦ inl up
        | no down ↦
            let (j, hj, h) = tally-pos (λ k. token (s.pc k)) n (omega (arith, inv.token_free)) in
            inr (j, hj, ground arith)
      ]

  -- When every thread is out, the section is as it was initialised.
  pub quiescent :
      ((i : ℕ) → i < n → s.pc i ≡ outside)
      → (s.section.lock_count ≡ 2 ^ 32 - 1)
        × (s.section.owning_thread ≡ 0)
        × (s.section.semaphore ≡ 0)
  quiescent out =
      let inv = Reach-Inv hs r in
      let none_in : total n s.pc ≡ 0 = tally-zero _ n (λ i lt. ap entries (out i lt)) in
      (rw none_in at inv.count, unowned inv out, omega (arith, inv.token_free))
