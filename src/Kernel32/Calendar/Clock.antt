-- ===== src/Kernel32/Calendar/Clock.antt =====
-- Conversions between the clocks: Unix times, 100 ns ticks, local times.
use uwin_old.Common.{ℕ, ◌+◌, ◌-◌, ◌*◌, ◌/◌, ◌^◌, ◌≤◌, ◌<◌}
use uwin_old.Common.{◌≡◌, ◌⊎◌, inl, inr, arith}
use uwin_old.Common.{false, none, some}
use uwin_old.Common.{leb, Bool-cases}
use uwin_old.Common.{u32, u64}
use uwin_old.Kernel32.Calendar.{
  FileTime, quad, unix_time_to_filetime, file_time_to_system_time, file_time_to_local_file_time,
  TimeFields, get_system_time, get_tick_count, query_performance_counter, performance_frequency,
  ticks_per_sec,
}
use uwin_old.Kernel32.Calendar.Dates.{IsDate, ticks_of, time_to_time_fields_lem}

-- The seconds between the first of January 1601 and that of 1970.
abbrev pub unix_epoch : ℕ
unix_epoch = 11644473600

-- A Unix time in seconds that fits goes to ticks since 1601 with nothing lost.
pub unix_time_to_filetime_lem :
    (t : ℕ)
    → t < 2 ^ 40
    → (quad (unix_time_to_filetime t) ≡ (t + unix_epoch) * ticks_per_sec)
      × (quad (unix_time_to_filetime t) < 2 ^ 64)
unfolding unix_time_to_filetime
unix_time_to_filetime_lem t h = (omega arith, omega arith)

filetime_words :
    (t : ℕ) → ((unix_time_to_filetime t).low < 2 ^ 32) × ((unix_time_to_filetime t).high < 2 ^ 32)
unfolding unix_time_to_filetime
filetime_words t = (omega arith, omega arith)

-- `FileTimeToSystemTime` refuses exactly the negative times, and gives the date of any other.
pub file_time_to_system_time_lem :
    (ft : FileTime)
    → ft.low < 2 ^ 32
    → ft.high < 2 ^ 32
    → ((2 ^ 31 ≤ ft.high) × (file_time_to_system_time ft ≡ none))
      ⊎ ((ft.high < 2 ^ 31)
          × ((f : TimeFields) × (file_time_to_system_time ft ≡ some (some f))
              × IsDate f
              × (ticks_of f ≡ quad ft / 10000 * 10000)))
unfolding file_time_to_system_time
file_time_to_system_time_lem ft hl hh = elim (Bool-cases (leb (2 ^ 63) (quad ft))) [
  | inl neg ↦ inl (ground arith, rw neg)
  | inr nonneg ↦
      let (f, e, date, ticks, week) = time_to_time_fields_lem (quad ft) (omega arith) in
      inr (ground arith, (f, rw (nonneg, e), date, ticks))
]

-- A file's time is shown as the date that it stands for, to the second.
pub unix_time_shown :
    (t : ℕ)
    → t < 2 ^ 39
    → (f : TimeFields) × (file_time_to_system_time (unix_time_to_filetime t) ≡ some (some f))
      × IsDate f
      × (ticks_of f ≡ (t + unix_epoch) * ticks_per_sec)
unix_time_shown t h =
    let ft = unix_time_to_filetime t in
    let (ticks, small) = unix_time_to_filetime_lem t (omega arith) in
    let words = filetime_words t in
    elim (file_time_to_system_time_lem ft words.0 words.1) [
      | inl (high, e) ↦ absurd (omega arith)
      | inr (low, (f, e, date, count)) ↦ (f, e, date, omega arith)
    ]

-- `GetSystemTime` hands microseconds to a conversion that takes seconds: while the product still
-- fits, the clock at `now` microseconds is shown as the date `now` seconds after 1970.
pub get_system_time_scaled :
    (now : ℕ)
    → now < 2 ^ 39
    → (f : TimeFields) × (get_system_time now ≡ some (some f))
      × IsDate f
      × (ticks_of f ≡ (now + unix_epoch) * ticks_per_sec)
unfolding get_system_time
get_system_time_scaled now h = unix_time_shown now h

-- `FileTimeToLocalFileTime` refuses the negative times and adds the offset, read as an unsigned
-- number of seconds, to any other; an offset `-x` of a zone, stored as `2 ^ 32 - x`, so moves the
-- time on by `2 ^ 32 - x` seconds instead of back.
pub local_file_time_lem :
    (offset : ℕ) (ft : FileTime)
    → offset < 2 ^ 32
    → ((2 ^ 63 ≤ quad ft) × (file_time_to_local_file_time offset ft ≡ none))
      ⊎ ((quad ft < 2 ^ 63)
          × ((local : FileTime) × (file_time_to_local_file_time offset ft ≡ some local)
              × (quad local ≡ quad ft + offset * ticks_per_sec)))
unfolding file_time_to_local_file_time
local_file_time_lem offset ft h = elim (Bool-cases (leb (2 ^ 63) (quad ft))) [
  | inl neg ↦ inl (ground arith, rw neg)
  | inr nonneg ↦
      let sum : ℕ = u64 (quad ft + offset * ticks_per_sec) in
      inr (
        ground arith,
        (
          record { low = u32 sum; high = u32 (sum / 2 ^ 32) },
          rw nonneg,
          omega (arith, below nonneg),
        ),
      )
]
  where
    below : leb (2 ^ 63) (quad ft) ≡ false → quad ft < 2 ^ 63
    below e = ground arith

-- The performance counter and its frequency measure the monotonic clock in the same seconds.
pub query_performance_counter_lem :
    (now : ℕ) → now < 2 ^ 60 → query_performance_counter now * 1000000 ≡ now * performance_frequency
unfolding query_performance_counter
query_performance_counter_lem now h = omega arith

-- `GetTickCount` counts milliseconds from ten minutes at the start, never backwards, until the DWORD
-- is full.
pub get_tick_count_mono :
    (start now later : ℕ)
    → start ≤ now
    → now ≤ later
    → later < start + 4294367296 * 1000
    → later < 2 ^ 64
    → (get_tick_count start start ≡ 600000)
      × (get_tick_count now start ≤ get_tick_count later start)
      × (get_tick_count now start ≡ 600000 + (now - start) / 1000)
unfolding get_tick_count
get_tick_count_mono start now later a b c d = (omega arith, omega arith, omega arith)
