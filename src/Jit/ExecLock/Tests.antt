-- ===== src/Jit/ExecLock/Tests.antt =====
-- Runs of the lock of src/uwin/jit_cpu_loop.cpp.
use uwin_old.Common.{ℕ, ◌≡◌, refl, inr, arith, Bool, true, false}
use uwin_old.Common.Tally.{at}
use uwin_old.Jit.ExecLock.{
  Place, executing, in_syscall, take_lock, syscall_enter, Threads, fresh, Reached, first, next,
  Leads,
}
use uwin_old.Jit.ExecLock.Exclusion.{one_executes, no_deadlock, leave-two_execute}

abbrev after : Threads → ℕ → Bool → Place → Threads
after t i flag p = record { flag = flag; place = at t.place i p }

-- Thread 1 is in a system call, and thread 0 executes.
abbrev busy : Threads
busy = after (after (after fresh 1 true executing) 1 false in_syscall) 0 true executing

busy-Reached : (calm : Bool) → Reached calm 3 busy
busy-Reached calm =
    next 0
      (next 1 (next 1 first (omega arith) take_lock (λ e g. refl)) (omega arith) syscall_enter
        (λ e g. cc))
      (omega arith) take_lock (λ e g. refl)

one_executes_example : ◌≡◌ {A = ℕ} 0 0
one_executes_example =
    one_executes 3 0 0 busy (busy-Reached true) (omega arith) (omega arith) refl refl

no_deadlock_example : (t : Threads) × (Leads 3 busy t × (t.place 1 ≡ executing))
no_deadlock_example = no_deadlock 3 1 busy (busy-Reached true) (omega arith) (inr refl)

leave-two_execute_example :
    (t : Threads) × (Reached false 3 t × ((t.place 0 ≡ executing) × (t.place 2 ≡ executing)))
leave-two_execute_example =
    leave-two_execute 3 0 1 2 busy (busy-Reached false) (omega arith) (omega arith) (omega arith)
      (omega arith) (omega arith) refl refl refl
