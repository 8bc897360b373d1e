-- ===== src/Kernel32/Waits/Tests.antt =====
-- Waits of ten milliseconds and without end.
use uwin_old.Common.{ℕ}
use uwin_old.Common.{Bool, true, false, Option}
use uwin_old.Kernel32.Waits.{Event, Wake}

abbrev unset : Event
unset = record { is_manual_reset = true; state = false }

abbrev never : Option ℕ → Bool
never t = false

abbrev wake : Bool → ℕ → Wake
wake on t = record { state = on; now = t }
