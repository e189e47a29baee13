-- ===== src/Attributes/Clock.antt =====
-- src/attributes.rs, `datetime_utc`: a Unix time as a civil date in UTC.
pub mod Civil
use ipp_printer_app.Base.{◌≤◌, arith, if◌then◌else◌, leb, ltb, ℕ, ◌%◌, ◌*◌, ◌+◌, ◌-◌, ◌/◌, ◌<◌}
use ipp_printer_app.Base.Int.{as_u32, leb_ℤ, negsuc, pos, ℤ, ◌*ℤ◌, ◌+ℤ◌, ◌-ℤ◌, ◌/ℤ◌}
use ipp_printer_app.Ipp.{IppValue, date_time}

-- Rust's `div_euclid` and `rem_euclid` by a positive constant.
abbrev pub div_euclid : ℤ → ℕ → ℤ
div_euclid (pos n) d = pos (n / d)
div_euclid (negsuc n) d = negsuc (n / d)

abbrev pub rem_euclid : ℤ → ℕ → ℕ
rem_euclid (pos n) d = n % d
rem_euclid (negsuc n) d = d - 1 - n % d

-- The days since 0000-03-01 of a day counted from 1970-01-01.
abbrev pub shifted : ℤ → ℤ
shifted days = days +ℤ pos 719468

abbrev pub era_of : ℤ → ℤ
era_of z = if leb_ℤ (pos 0) z then z /ℤ 146097 else (z -ℤ pos 146096) /ℤ 146097

abbrev pub magnitude : ℤ → ℕ
magnitude (pos n) = n
magnitude (negsuc n) = 0

-- The day of the era, which is never negative.
abbrev pub day_of_era : ℤ → ℕ
day_of_era z = magnitude (z -ℤ era_of z *ℤ pos 146097)

abbrev pub year_of_era : ℕ → ℕ
year_of_era doe = (doe - doe / 1460 + doe / 36524 - doe / 146096) / 365

abbrev pub day_of_year : ℕ → ℕ
day_of_year doe = let yoe = year_of_era doe in doe - (365 * yoe + yoe / 4 - yoe / 100)

abbrev pub shifted_month : ℕ → ℕ
shifted_month doy = (5 * doy + 2) / 153

abbrev pub day_of_month : ℕ → ℕ
day_of_month doy = doy - (153 * shifted_month doy + 2) / 5 + 1

abbrev pub month_of : ℕ → ℕ
month_of doy = let mp = shifted_month doy in if ltb mp 10 then mp + 3 else mp - 9

-- The year of a month in the `yoe`th March year of an era.
abbrev pub year_in : ℕ → ℕ → ℤ → ℤ
year_in yoe month era =
    let year = pos yoe +ℤ era *ℤ pos 400 in if leb month 2 then year +ℤ pos 1 else year

abbrev pub year_of : ℤ → ℤ
year_of z =
    let doe = day_of_era z in year_in (year_of_era doe) (month_of (day_of_year doe)) (era_of z)

unfoldable pub datetime_utc : ℤ → IppValue
datetime_utc unix_secs =
    let rem = rem_euclid unix_secs 86400 in
    let z = shifted (div_euclid unix_secs 86400) in
    let doy = day_of_year (day_of_era z) in
    date_time (as_u32 (year_of z) % 65536) (month_of doy % 256) (day_of_month doy % 256)
      (rem / 3600) (rem % 3600 / 60) (rem % 60)
