-- ===== src/Attributes/Clock/Civil.antt =====
-- src/attributes.rs: that the civil date of a Unix time is the date of that time.
use ipp_printer_app.Base.{
  not, ◌||◌, ◌&&◌, ◌==◌, true, Bool, ap, ◌∙◌, ◌^◌, arith, if◌then◌else◌, leb, ℕ, ◌%◌, ◌*◌, ◌+◌, ◌-◌,
  ◌/◌, ◌<◌, ◌≡◌, ◌≤◌,
}
use ipp_printer_app.Base.Int.{as_u32, negsuc, pos, ℤ}
use ipp_printer_app.Ipp.{IppValue, date_time}
use ipp_printer_app.Attributes.Clock.{
  shifted, era_of, day_of_era, year_of_era, day_of_year, day_of_month, month_of, year_in, year_of,
  datetime_utc,
}

-- The days of the whole years before a year of the era, by the Gregorian leap years.
abbrev pub days_before : ℕ → ℕ
days_before yoe = 365 * yoe + yoe / 4 - yoe / 100

-- The days from 1970-01-01 to a date of the Gregorian calendar, whose year is counted from March.
abbrev pub days_from_civil : ℕ → ℕ → ℕ → ℕ
days_from_civil year month day =
    let y = if leb month 2 then year - 1 else year in
    let m = if leb month 2 then month + 9 else month - 3 in
    y / 400 * 146097 + days_before (y % 400) + ((153 * m + 2) / 5 + day - 1) - 719468

pub unix_time : IppValue → ℕ
unix_time (date_time year month day hour minutes seconds) =
    days_from_civil year month day * 86400 + hour * 3600 + minutes * 60 + seconds
unix_time _ = 0

day_of_era-bounds : (days : ℤ) → day_of_era (shifted days) < 146097
day_of_era-bounds (pos n) = ground arith
day_of_era-bounds (negsuc n) = ground arith

year_of_era-bounds : (doe : ℕ) → doe < 146097 → year_of_era doe ≤ 399
year_of_era-bounds doe h = omega arith

days_before-year_of_era : (doe : ℕ) → doe < 146097 → days_before (year_of_era doe) ≤ doe
days_before-year_of_era doe h = omega arith

day_of_year-bounds : (doe : ℕ) → doe < 146097 → day_of_year doe ≤ 365
day_of_year-bounds doe h = omega arith

-- A day of the year, of month and day `m` and `d`, in the year `yoe` of the era `era`.
days_from_civil_lem :
    (era yoe doy : ℕ)
    → yoe ≤ 399
    → doy ≤ 365
    → days_from_civil
        (if leb (month_of doy) 2 then yoe + era * 400 + 1 else yoe + era * 400)
        (month_of doy)
        (day_of_month doy)
      ≡ era * 146097 + days_before yoe + doy - 719468
days_from_civil_lem era yoe doy h k = ground arith

add_assoc : (a b c : ℕ) → a + b + c ≡ a + (b + c)
add_assoc a b c = omega arith

year_in-pos :
    (yoe month era : ℕ)
    → year_in yoe month (pos era)
      ≡ pos (if leb month 2 then yoe + era * 400 + 1 else yoe + era * 400)
year_in-pos yoe month era = ground arith

era_of-pos : (z : ℕ) → era_of (pos z) ≡ pos (z / 146097)
era_of-pos z = ground arith

day_of_era-pos : (z : ℕ) → day_of_era (pos z) ≡ z % 146097
day_of_era-pos z = ground arith

year-fits :
    (yoe month era : ℕ)
    → yoe ≤ 399
    → era < 150
    → as_u32 (year_in yoe month (pos era)) % 65536
      ≡ (if leb month 2 then yoe + era * 400 + 1 else yoe + era * 400)
year-fits yoe month era h k = rw (year_in-pos yoe month era) (ground arith)

month-fits : (doy : ℕ) → doy ≤ 365 → month_of doy % 256 ≡ month_of doy
month-fits doy h = ground arith

day-fits : (doy : ℕ) → doy ≤ 365 → day_of_month doy % 256 ≡ day_of_month doy
day-fits doy h = ground arith

date-fits :
    (era yoe doy : ℕ)
    → era < 150
    → yoe ≤ 399
    → doy ≤ 365
    → days_from_civil
        (as_u32 (year_in yoe (month_of doy) (pos era)) % 65536)
        (month_of doy % 256)
        (day_of_month doy % 256)
      ≡ era * 146097 + days_before yoe + doy - 719468
date-fits era yoe doy h k l =
    rw (month-fits doy l, day-fits doy l, year-fits yoe (month_of doy) era k h)
      (days_from_civil_lem era yoe doy k l)

day_of_year-days_before :
    (doe : ℕ) → doe < 146097 → days_before (year_of_era doe) + day_of_year doe ≡ doe
day_of_year-days_before doe h = omega (arith, days_before-year_of_era doe h)

civil : ℤ → ℕ
civil z =
    days_from_civil (as_u32 (year_of z) % 65536) (month_of (day_of_year (day_of_era z)) % 256)
      (day_of_month (day_of_year (day_of_era z)) % 256)

civil-at :
    (era doe : ℕ)
    → era < 150
    → doe < 146097
    → days_from_civil
        (as_u32 (year_in (year_of_era doe) (month_of (day_of_year doe)) (pos era)) % 65536)
        (month_of (day_of_year doe) % 256)
        (day_of_month (day_of_year doe) % 256)
      ≡ era * 146097 + doe - 719468
civil-at era doe h k =
    date-fits era (year_of_era doe) (day_of_year doe) h (year_of_era-bounds doe k)
      (day_of_year-bounds doe k)
    ∙ ap (λ n. n - 719468)
        (add_assoc (era * 146097) (days_before (year_of_era doe)) (day_of_year doe)
          ∙ ap (λ n. era * 146097 + n) (day_of_year-days_before doe k))

civil-pos : (z : ℕ) → z < 20000000 → civil (pos z) ≡ z - 719468
unfolding civil
civil-pos z h =
    rw (day_of_era-pos z, era_of-pos z)
      (civil-at (z / 146097) (z % 146097) (omega arith) (omega arith) ∙ omega arith)

shifted-pos : (days : ℕ) → shifted (pos days) ≡ pos (days + 719468)
shifted-pos days = ground arith

civil-shifted : (days : ℕ) → days < 19000000 → civil (shifted (pos days)) ≡ days
civil-shifted days h = rw (shifted-pos days, civil-pos (days + 719468) (omega arith)) (omega arith)

-- The length of a month of the Gregorian calendar.
abbrev pub is_leap : ℕ → Bool
is_leap year = year % 4 == 0 && (not (year % 100 == 0) || year % 400 == 0)

abbrev pub days_in_month : ℕ → ℕ → ℕ
days_in_month year month =
    if month == 2
    then if is_leap year then 29 else 28
    else if month == 4 || (month == 6 || (month == 9 || month == 11))
    then 30
    else 31

abbrev pub IsDate : ℕ → ℕ → ℕ → Type 0
IsDate year month day = (1 ≤ month) × (month ≤ 12) × (1 ≤ day) × (day ≤ days_in_month year month)

-- A date of the calendar, and a time of the day.
abbrev pub IsDateTime : IppValue → Type 0
IsDateTime (date_time year month day hour minutes seconds) =
    IsDate year month day × (hour < 24) × (minutes < 60) × (seconds < 60)
IsDateTime _ = ⊥

-- The year from March on has its 366th day only if the calendar year in which it ends is a leap year.
long_year :
    (doe : ℕ)
    → doe < 146097
    → day_of_year doe ≡ 365
    → ((year_of_era doe + 1) % 4 ≡ 0)
      × (((year_of_era doe + 1) % 100 ≡ 0) → (year_of_era doe ≡ 399))
long_year doe h k = (omega arith, λ e. omega arith)

civil_year-IsDate :
    (year doy : ℕ)
    → doy ≤ 365
    → (doy ≡ 365 → is_leap (year + 1) ≡ true)
    → IsDate (if leb (month_of doy) 2 then year + 1 else year) (month_of doy) (day_of_month doy)
civil_year-IsDate year doy h k = ground arith

leap_in_era :
    (era yoe : ℕ)
    → (yoe + 1) % 4 ≡ 0
    → ((yoe + 1) % 100 ≡ 0 → yoe ≡ 399)
    → is_leap (yoe + era * 400 + 1) ≡ true
leap_in_era era yoe h k = ground arith

-- What `datetime_utc` makes of a day counted from 0000-03-01.
abbrev IsCivil : ℤ → Type 0
IsCivil z =
    IsDate (as_u32 (year_of z) % 65536) (month_of (day_of_year (day_of_era z)) % 256)
      (day_of_month (day_of_year (day_of_era z)) % 256)

era-IsDate :
    (era doe : ℕ)
    → era < 150
    → doe < 146097
    → IsDate
        (as_u32 (year_in (year_of_era doe) (month_of (day_of_year doe)) (pos era)) % 65536)
        (month_of (day_of_year doe) % 256)
        (day_of_month (day_of_year doe) % 256)
era-IsDate era doe h k =
    let doy : ℕ = day_of_year doe in
    let short : doy ≤ 365 = day_of_year-bounds doe k in
    let yoe_in = year_of_era-bounds doe k in
    rw
      (
        month-fits doy short,
        day-fits doy short,
        year-fits (year_of_era doe) (month_of doy) era yoe_in h,
      )
      (civil_year-IsDate (year_of_era doe + era * 400) doy short (λ last.
        let (four, hundred) = long_year doe k last in
        leap_in_era era (year_of_era doe) four hundred))

pos-IsCivil : (z : ℕ) → z < 20000000 → IsCivil (pos z)
pos-IsCivil z h =
    rw (day_of_era-pos z, era_of-pos z)
      (era-IsDate (z / 146097) (z % 146097) (omega arith) (omega arith))

shifted-IsCivil : (days : ℕ) → days < 19000000 → IsCivil (shifted (pos days))
shifted-IsCivil days h = rw (shifted-pos days) (pos-IsCivil (days + 719468) (omega arith))

-- The date of a time that is not before 1970-01-01 and below 2^40 seconds (a year of at most five digits, which
-- a 16-bit number holds) is a date of the Gregorian calendar, its day being one of its month and year, with a time of
-- the day; and it is that time, counted back to seconds.
pub unix_time-datetime_utc :
    (secs : ℕ)
    → secs < 2 ^ 40
    → IsDateTime (datetime_utc (pos secs)) × (unix_time (datetime_utc (pos secs)) ≡ secs)
unfolding datetime_utc unix_time civil
unix_time-datetime_utc secs h = (
  (shifted-IsCivil (secs / 86400) (omega arith), omega arith, omega arith, omega arith),
  rw (civil-shifted (secs / 86400) (omega arith)) (omega arith),
)
