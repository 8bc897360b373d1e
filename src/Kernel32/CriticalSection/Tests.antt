-- ===== src/Kernel32/CriticalSection/Tests.antt =====
-- Two threads at one critical section.
use uwin_old.Common.{ℕ, suc, ◌+◌, ◌<◌}
use uwin_old.Common.{◌≡◌, refl, ◌⊎◌, arith}
use uwin_old.Common.{true}
use uwin_old.Common.Tally.{at, tally}
use uwin_old.Kernel32.CriticalSection.{
  Section, initialize_critical_section, Pc, contended, waiting, acquired, owning, inside,
  enter_free, enter_busy, nest_busy, queue, own, count_one, entries, Handles, System, total, pick,
  start, Reach, begin, later,
}
use uwin_old.Kernel32.CriticalSection.Safety.{served, mutual_exclusion, no_lost_wakeup}

suc-Handles : Handles suc
suc-Handles = record { nonzero = λ i e. absurd (omega arith); distinct = λ i j e. omega arith }

two_threads : (pc : ℕ → Pc) → total 2 pc ≡ entries (pc 0) + entries (pc 1)
unfolding tally
two_threads pc = omega arith

abbrev after : System → ℕ → Section → Pc → System
after s i c p = record { section = c; pc = at s.pc i p }

-- Thread 0 is inside.
abbrev one_inside : System
one_inside =
    after
      (after (after start 0 (record initialize_critical_section { lock_count = 0 }) acquired) 0
        (record initialize_critical_section { lock_count = 0; owning_thread = 1 }) owning)
      0
      (record initialize_critical_section {
        lock_count = 0;
        owning_thread = 1;
        recursion_count = 1;
      })
      (inside 1)

inside-Reach : Reach suc 2 one_inside
unfolding initialize_critical_section tally
inside-Reach =
    later
      (later (later begin (pick 0 (omega arith) (enter_free refl) (omega arith)))
        (pick 0 (omega arith) own (omega arith)))
      (pick 0 (omega arith) count_one (omega arith))

-- Thread 1 waits for it.
abbrev busy : Section
busy = record initialize_critical_section { lock_count = 1; owning_thread = 1; recursion_count = 1 }

abbrev one_waits : System
one_waits = after (after one_inside 1 busy (contended 0)) 1 busy waiting

waiting-Reach : Reach suc 2 one_waits
unfolding initialize_critical_section tally
waiting-Reach =
    later (later inside-Reach (pick 1 (omega arith) (enter_busy (omega arith)) (omega arith)))
      (pick 1 (omega arith) (queue (omega arith)) (omega arith))

-- Thread 0 enters once more.
abbrev nested : System
nested = after one_inside 0 busy (contended 1)

nested-Reach : Reach suc 2 nested
unfolding initialize_critical_section tally
nested-Reach = later inside-Reach (pick 0 (omega arith) (nest_busy (omega arith)) (omega arith))

mutual_exclusion_example : ◌≡◌ {A = ℕ} 0 0
mutual_exclusion_example =
    mutual_exclusion suc-Handles waiting-Reach 0 0 (omega arith) (omega arith) refl refl

no_lost_wakeup_example :
    (0 < one_waits.section.semaphore) ⊎ ((j : ℕ) × (j < 2) × (served (one_waits.pc j) ≡ true))
no_lost_wakeup_example = no_lost_wakeup suc-Handles waiting-Reach 1 (omega arith) refl
