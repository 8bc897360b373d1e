-- ===== src/Kernel32/Calendar.antt =====
-- Times and dates of src/uwin/target_dlls/KERNEL32/kernel32.c: from a count of 100 ns ticks since
-- 1601 to a date, and from a Unix time to such a count.
pub mod Years
pub mod Dates
pub mod Unique
pub mod Clock
mod Tests
use uwin_old.Common.{ℕ, zero, suc, ◌+◌, ◌-◌, ◌*◌, ◌/◌, ◌%◌, ◌^◌, ◌≤◌, ◌<◌, bit_and, bit_or}
use uwin_old.Common.{◌≡◌, refl, sym, ap, ap₂, ◌∙◌, fun_ext, ◌≢◌, ◌↔◌, ◌⊎◌, inl, inr, arith}
use uwin_old.Common.{
  Bool, true, false, not, ◌&&◌, ◌||◌, Option, none, some, List, [], ◌∷◌, ◌++◌, map,
}
use uwin_old.Common.{
  ltb, leb, ◌==◌, if◌then◌else◌, Bool-cases, Option-cases, length, get_elem?, set,
}
use uwin_old.Common.{
  get_or, take, drop, replicate, length-append, length-set, get_elem?-set_self, get_elem?-set_ne,
}
use uwin_old.Common.{
  Outcome, done, panic, ◌>>=◌, ◌>>◌, require, u8, u16, u32, u64, sub32, sub64, signed32,
}
use uwin_old.Common.Int.{ℤ, pos, negsuc, pos_part, neg_part, sub_ℕ, ◌+ℤ◌, ◌-ℤ◌, ◌*ℤ◌, ◌≤ℤ◌, ltb_ℤ}

abbrev pub ticks_per_sec : ℕ
ticks_per_sec = 10000000

abbrev pub secs_per_day : ℕ
secs_per_day = 86400

-- The result of `RtlTimeToTimeFields`.
pub record TimeFields : Type 0 where
  pub year : ℕ
  pub month : ℕ
  pub day : ℕ
  pub hour : ℕ
  pub minute : ℕ
  pub second : ℕ
  pub milliseconds : ℕ
  pub weekday : ℕ

abbrev pub year_length : Bool → ℕ
year_length false = 365
year_length true = 366

abbrev pub month_lengths : Bool → List ℕ
month_lengths false = 31 ∷ 28 ∷ 31 ∷ 30 ∷ 31 ∷ 30 ∷ 31 ∷ 31 ∷ 30 ∷ 31 ∷ 30 ∷ 31 ∷ []
month_lengths true = 31 ∷ 29 ∷ 31 ∷ 30 ∷ 31 ∷ 30 ∷ 31 ∷ 31 ∷ 30 ∷ 31 ∷ 30 ∷ 31 ∷ []

pub is_leap_year : ℕ → Bool
is_leap_year year = year % 4 == 0 && (not (year % 100 == 0) || year % 400 == 0)

-- Days from the first of January 1601 to that of `year`, for a year from 1601 on; no difference
-- here goes below zero.
abbrev pub days_before : ℕ → ℕ
days_before y = y * 365 + y / 4 - y / 100 + y / 400

pub days_since_epoch : ℕ → ℕ
days_since_epoch year = days_before (year - 1) - days_before 1600

-- `while (TRUE)`: the year, and the day in it; `none` means that the fuel ran out.
pub find_year : ℕ → ℕ → ℕ → Option (ℕ × ℕ)
find_year zero cur days = none
find_year (suc fuel) cur days =
    let len = year_length (is_leap_year cur) in
    let later = find_year fuel (u32 (cur + 1)) (sub32 days len) in
    if ltb days len then some (cur, days) else later

-- `for (CurMonth = 0; Days >= Months[CurMonth]; CurMonth++)`; `none` is a read past the table.
pub find_month : List ℕ → ℕ → ℕ → Option (ℕ × ℕ)
find_month [] cur days = none
find_month (len ∷ months) cur days =
    let later = find_month months (cur + 1) (sub32 days len) in
    if leb len days then later else some (cur, days)

-- The year from which the search starts.
abbrev pub first_guess : ℕ → ℕ
first_guess days = 1601 + days / 366

-- The search for year and month on a count of days, with fuel for more years than it can take.
pub find_date : ℕ → Option (ℕ × ℕ × ℕ)
find_date days =
    let left = sub32 days (days_since_epoch (first_guess days)) in
    elim (find_year (suc left) (first_guess days) left) [
      | none ↦ none
      | some (year, in_year) ↦ elim (find_month (month_lengths (is_leap_year year)) 0 in_year) [
        | none ↦ none
        | some (month, in_month) ↦ some (year, month, in_month)
      ]
    ]

-- The stores go through `(SHORT)` into fields of 16 bits.
pub time_to_time_fields : ℕ → Option TimeFields
time_to_time_fields time =
    let seconds = time / ticks_per_sec in
    let days = u32 (seconds / secs_per_day) in
    let in_day = seconds % secs_per_day in
    elim (find_date days) [
      | none ↦ none
      | some (year, month, in_month) ↦ some (record {
        year = u16 year;
        month = u16 (month + 1);
        day = u16 (in_month + 1);
        hour = u16 (in_day / 3600);
        minute = u16 (in_day % 3600 / 60);
        second = u16 (in_day % 3600 % 60);
        milliseconds = u16 (time % ticks_per_sec / 10000);
        weekday = u16 ((1 + days) % 7);
      })
    ]

-- A FILETIME or LARGE_INTEGER in two words.
pub record FileTime : Type 0 where
  pub low : ℕ
  pub high : ℕ

abbrev pub quad : FileTime → ℕ
quad ft = ft.high * 2 ^ 32 + ft.low

-- `ll` is a 64-bit product and sum; both stores cut it to a word.
pub unix_time_to_filetime : ℕ → FileTime
unix_time_to_filetime unix_time =
    let ll = u64 (unix_time * 10000000 + 116444736000000000) in
    record { low = u32 ll; high = u32 (ll / 2 ^ 32) }

-- `none` is the return of FALSE with the error ERROR_INVALID_PARAMETER: the 64-bit integer is
-- negative. Inside is the result of `RtlTimeToTimeFields`.
pub file_time_to_system_time : FileTime → Option (Option TimeFields)
file_time_to_system_time ft =
    if leb (2 ^ 63) (quad ft) then none else some (time_to_time_fields (quad ft))

-- `offset` is what `kget_timezone_offset` returns, a `uint32_t`.
pub file_time_to_local_file_time : ℕ → FileTime → Option FileTime
file_time_to_local_file_time offset ft =
    if leb (2 ^ 63) (quad ft)
    then none
    else some (
        let sum = u64 (quad ft + offset * ticks_per_sec) in
        record { low = u32 sum; high = u32 (sum / 2 ^ 32) })

-- `-kget_timezone_offset() / 60`: the negation and the division are those of `uint32_t`.
pub time_zone_bias : ℕ → ℤ
time_zone_bias offset = signed32 (u32 (2 ^ 32 - offset) / 60)

-- `GetSystemTime`, on what `kget_real_time` returns.
pub get_system_time : ℕ → Option (Option TimeFields)
get_system_time real_time = file_time_to_system_time (unix_time_to_filetime real_time)

-- `GetLocalTime`; the sum is a `uint64_t`.
pub get_local_time : ℕ → ℕ → Option (Option TimeFields)
get_local_time real_time offset =
    file_time_to_system_time (unix_time_to_filetime (u64 (real_time + offset * 1000000)))

-- `GetTickCount`, from the monotonic clock in microseconds and its value at the start: a DWORD.
pub get_tick_count : ℕ → ℕ → ℕ
get_tick_count now start = u32 (u64 (sub64 now start / 1000 + 600000))

-- `QueryPerformanceCounter`, which counts at the rate that `QueryPerformanceFrequency` gives.
pub query_performance_counter : ℕ → ℕ
query_performance_counter now = u64 (now * 10)

abbrev pub performance_frequency : ℕ
performance_frequency = 10000000
