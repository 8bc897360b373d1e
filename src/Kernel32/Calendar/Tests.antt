-- ===== src/Kernel32/Calendar/Tests.antt =====
-- Dates and clocks at concrete times.
use uwin_old.Common.{ℕ, ◌+◌, ◌*◌, ◌/◌, ◌%◌, ◌^◌, ◌<◌}
use uwin_old.Common.{◌≡◌, refl, arith}
use uwin_old.Common.{some}
use uwin_old.Kernel32.Calendar.{
  FileTime, TimeFields, unix_time_to_filetime, time_to_time_fields, find_date, find_year,
  find_month, is_leap_year, days_since_epoch,
}
use uwin_old.Kernel32.Calendar.Dates.{IsDate, day_of, ticks_of, time_to_time_fields_lem}
use uwin_old.Kernel32.Calendar.Unique.{time_to_time_fields-ticks_of}

-- 2020-02-29 12:34:56.789, a Saturday
abbrev leap_day : TimeFields
leap_day = record {
  year = 2020;
  month = 2;
  day = 29;
  hour = 12;
  minute = 34;
  second = 56;
  milliseconds = 789;
  weekday = 6;
}

abbrev leap_ticks : ℕ
leap_ticks = 132274532967890000

leap_day_read : time_to_time_fields leap_ticks ≡ some leap_day
unfolding time_to_time_fields find_date find_year find_month is_leap_year days_since_epoch
leap_day_read = refl

time_to_time_fields_lem_example :
    (f : TimeFields) × (time_to_time_fields leap_ticks ≡ some f)
    × IsDate f
    × (ticks_of f ≡ leap_ticks / 10000 * 10000)
    × (f.weekday ≡ (1 + day_of f) % 7)
time_to_time_fields_lem_example = time_to_time_fields_lem leap_ticks (omega arith)

leap_day-IsDate : IsDate leap_day
unfolding is_leap_year
leap_day-IsDate = omega arith

leap_day_week : leap_day.weekday ≡ (1 + day_of leap_day) % 7
unfolding is_leap_year days_since_epoch
leap_day_week = refl

leap_day_small : ticks_of leap_day < 2 ^ 64
unfolding is_leap_year days_since_epoch
leap_day_small = omega arith

time_to_time_fields-ticks_of_example : time_to_time_fields (ticks_of leap_day) ≡ some leap_day
time_to_time_fields-ticks_of_example =
    time_to_time_fields-ticks_of leap_day leap_day-IsDate leap_day_week leap_day_small

abbrev new_year : FileTime
new_year = unix_time_to_filetime 1577836800
