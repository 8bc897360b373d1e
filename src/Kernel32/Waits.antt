-- ===== src/Kernel32/Waits.antt =====
-- Events and waits of src/uwin/target_dlls/KERNEL32/kernel32.c: `CreateEventA`, `SetEvent`,
-- `win32_event_wait` and `WaitForSingleObject`.
pub mod Timeouts
mod Tests
use uwin_old.Common.{ℕ, zero, suc, ◌+◌, ◌-◌, ◌*◌, ◌/◌, ◌%◌, ◌^◌, ◌≤◌, ◌<◌, bit_and, bit_or}
use uwin_old.Common.{◌≡◌, refl, sym, ap, ap₂, ◌∙◌, fun_ext, ◌≢◌, ◌↔◌, ◌⊎◌, inl, inr, arith}
use uwin_old.Common.{
  Bool, true, false, not, ◌&&◌, ◌||◌, Option, none, some, List, [], ◌∷◌, ◌++◌, map,
}
use uwin_old.Common.{
  ltb, leb, ◌==◌, if◌then◌else◌, Bool-cases, Option-cases, length, get_elem?, set,
}
use uwin_old.Common.{
  get_or, take, drop, replicate, length-append, length-set, get_elem?-set_self, get_elem?-set_ne,
}
use uwin_old.Common.{
  Outcome, done, panic, ◌>>=◌, ◌>>◌, require, u8, u16, u32, u64, sub32, sub64, signed32,
}
use uwin_old.Common.Int.{ℤ, pos, negsuc, pos_part, neg_part, sub_ℕ, ◌+ℤ◌, ◌-ℤ◌, ◌*ℤ◌, ◌≤ℤ◌, ltb_ℤ}

-- win32_event_t, but for its lock, its condition and its name
pub record Event : Type 0 where
  pub is_manual_reset : Bool
  pub state : Bool

-- `CreateEventA`
pub create_event : Bool → Bool → Bool → Outcome Event
create_event with_attributes manual_reset initial_state =
    require (not with_attributes)
    >> done (record { is_manual_reset = manual_reset; state = initial_state })

-- `SetEvent`
pub set_event : Event → Outcome Event
set_event e = require e.is_manual_reset >> done (record e { state = true })

abbrev pub infinite : ℕ
infinite = 0xffffffff

-- What a thread sees when `kcond_wait` returns: the event's state and the clock.
pub record Wake : Type 0 where
  pub state : Bool
  pub now : ℕ

-- `uint64_t timeout_us = timeout_ms * 1000;` multiplies in 32 bits.
abbrev pub timeout_us : ℕ → ℕ
timeout_us timeout_ms = u32 (timeout_ms * 1000)

-- The loop over the wakes: whether it ends, and the time that it is left at. `none` means that the
-- thread still waits.
pub wait_loop : (timeout_ms start now : ℕ) → Bool → List Wake → Option ℕ
wait_loop timeout_ms start now true wakes = some now
wait_loop timeout_ms start now false [] = none
wait_loop timeout_ms start now false (w ∷ wakes) =
    let forever = wait_loop timeout_ms start now w.state wakes in
    let again = wait_loop timeout_ms start w.now w.state wakes in
    if timeout_ms == infinite
    then forever
    else if leb (timeout_us timeout_ms) (sub64 w.now start)
    then some w.now
    else again

-- `win32_event_wait`: its result, 0 for success, once the loop is left.
pub event_wait : Event → ℕ → ℕ → List Wake → Outcome (Option ℤ)
event_wait e timeout_ms start wakes =
    require e.is_manual_reset
    >> done (elim (wait_loop timeout_ms start start e.state wakes) [
      | none ↦ none
      | some left_at ↦ some (pos 0)
    ])

-- What a handle stands for.
pub data Object : Type 0 where
  event : Event → Object
  mutex thread semaphore other_object : Object

-- `WaitForSingleObject`: 0 is WAIT_OBJECT_0, 258 WAIT_TIMEOUT. `taken` is what `ksem_wait` returns for
-- a timeout in microseconds; `none` as a timeout waits for ever.
unfoldable pub wait_for_single_object :
    (Option ℕ → Bool) → Object → ℕ → ℕ → List Wake → Outcome (Option ℕ)
wait_for_single_object timed_out (event e) timeout_ms start wakes =
    event_wait e timeout_ms start wakes >>= λ r. done (elim r [
      | none ↦ none
      | some v ↦ some (elim v [ pos n ↦ if n == 0 then 0 else 258 | negsuc n ↦ 258 ])
    ])
wait_for_single_object timed_out mutex timeout_ms start wakes = panic
wait_for_single_object timed_out thread timeout_ms start wakes =
    require (timeout_ms == infinite) >> done (some 0)
wait_for_single_object timed_out semaphore timeout_ms start wakes = done (
    some (
      if timed_out (if timeout_ms == infinite then none else some (timeout_ms * 1000))
      then 258
      else 0))
wait_for_single_object timed_out other_object timeout_ms start wakes = panic
