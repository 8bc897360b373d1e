-- ===== src/Jit/ExecLock.antt =====
-- The spinlock of src/uwin/jit_cpu_loop.cpp, which lets one thread at a time run translated code, with the
-- system calls of src/uwin/syscall.cpp and `uw_thread_leave` of src/uwin/thread.cpp, as
-- interleavings of threads, one access to the flag at a time.
pub mod Exclusion
mod Tests
use uwin_old.Common.{ℕ, zero, suc, ◌+◌, ◌-◌, ◌*◌, ◌/◌, ◌%◌, ◌^◌, ◌≤◌, ◌<◌, bit_and, bit_or}
use uwin_old.Common.{◌≡◌, refl, sym, ap, ap₂, ◌∙◌, fun_ext, ◌≢◌, ◌↔◌, ◌⊎◌, inl, inr, arith}
use uwin_old.Common.{
  Bool, true, false, not, ◌&&◌, ◌||◌, Option, none, some, List, [], ◌∷◌, ◌++◌, map,
}
use uwin_old.Common.{
  ltb, leb, ◌==◌, if◌then◌else◌, Bool-cases, Option-cases, length, get_elem?, set,
}
use uwin_old.Common.{
  get_or, take, drop, replicate, length-append, length-set, get_elem?-set_self, get_elem?-set_ne,
}
use uwin_old.Common.{
  Outcome, done, panic, ◌>>=◌, ◌>>◌, require, u8, u16, u32, u64, sub32, sub64, signed32,
}
use uwin_old.Common.Int.{ℤ, pos, negsuc, pos_part, neg_part, sub_ℕ, ◌+ℤ◌, ◌-ℤ◌, ◌*ℤ◌, ◌≤ℤ◌, ltb_ℤ}
use uwin_old.Common.Tally.{at}

-- Where a thread stands.
pub data Place : Type 0 where
  looking : Place  -- in `uw_cpu_loop`, for its next block and then for the lock
  executing : Place  -- in `basic_block->execute`
  in_syscall : Place  -- in `real_do_syscall`, and then in `uw_cpu_syscall_exit`
  gone : Place  -- behind `uw_break_cpu_loop` of `uw_thread_leave`

-- One access to `exec_lock`, which is the flag before and the flag after, by a thread.
pub data Access : Bool → Place → Bool → Place → Type 0 where
  spin : Access true looking true looking  -- `while (exec_lock.test_and_set())` of `uw_cpu_loop`
  take_lock : Access false looking true executing
  give_lock : {flag : Bool} → Access flag executing false looking  -- behind the block
  syscall_enter : {flag : Bool} → Access flag executing false in_syscall
  syscall_spin : Access true in_syscall true in_syscall  -- `uw_cpu_syscall_exit`
  syscall_exit : Access false in_syscall true executing
  leave : {flag : Bool} → Access flag in_syscall false gone  -- SYSCALL_THREAD_LEAVE

pub record Threads : Type 0 where
  pub flag : Bool
  pub place : ℕ → Place

-- ATOMIC_FLAG_INIT, before any thread has run.
abbrev pub fresh : Threads
fresh = record { flag = false; place = λ i. looking }

-- The states that `n` threads reach; where `calm` is true, a thread leaves only while the flag is clear.
pub data Reached (calm : Bool) (n : ℕ) : Threads → Type 0 where
  first : Reached calm n fresh
  next :
      (i : ℕ) {t : Threads} {flag : Bool} {p : Place}
      → Reached calm n t
      → i < n
      → Access t.flag (t.place i) flag p
      → (calm ≡ true → p ≡ gone → t.flag ≡ false)
      → Reached calm n (record { flag = flag; place = at t.place i p })

-- The states that steps of `n` threads, none of which leaves, lead to from a state.
pub data Leads (n : ℕ) (t : Threads) : Threads → Type 0 where
  stay : Leads n t t
  step :
      (i : ℕ) {u : Threads} {flag : Bool} {p : Place}
      → Leads n t u
      → i < n
      → Access u.flag (u.place i) flag p
      → p ≢ gone
      → Leads n t (record { flag = flag; place = at u.place i p })
