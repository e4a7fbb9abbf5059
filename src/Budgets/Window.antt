-- ===== src/Budgets/Window.antt =====
-- internal/budgets/window.go. An instant is its Unix time in seconds, from 1970 on: what lies below a
-- second decides nothing here, and 1970 begins with its first Monday. A date is a year with the number of the day in it, then a month with
-- the number of the day in that.
pub mod Holds
use portico_gateway.Base.{
  ℕ, zero, suc, ◌+◌, ◌-◌, ◌*◌, ◌/◌, ◌%◌, Bool, true, false, not, ◌&&◌, ◌||◌, Option, none, some,
  List, [], ◌∷◌, ◌++◌, if◌then◌else◌, ltb, leb, ◌==◌, GoString, codes, str_eq, contains, decimal,
}

pub record Window : Type 0 where
  pub key : GoString
  pub start : ℕ
  pub resets_at : ℕ

abbrev pub minute : ℕ
minute = 60

abbrev pub hour : ℕ
hour = 3600

abbrev pub day : ℕ
day = 86400

abbrev pub periods : List GoString
periods = codes "1m" ∷ codes "1h" ∷ codes "1d" ∷ codes "1w" ∷ codes "1M" ∷ codes "1Y" ∷ []

unfoldable pub parse_period : GoString → Option GoString
parse_period s = if contains periods s then some s else none

unfoldable pub parse_alignment : GoString → Option GoString
parse_alignment s = if contains (codes "calendar" ∷ codes "rolling" ∷ []) s then some s else none

unfoldable pub rolling_duration : GoString → Option ℕ
rolling_duration period =
    if str_eq period (codes "1m")
    then some minute
    else if str_eq period (codes "1h")
    then some hour
    else if str_eq period (codes "1d")
    then some day
    else if str_eq period (codes "1w")
    then some (7 * day)
    else if str_eq period (codes "1M")
    then some (30 * day)
    else if str_eq period (codes "1Y")
    then some (365 * day)
    else none

-- The bucket of a duration that the instant falls into.
unfoldable pub bucket_window : GoString → ℕ → ℕ → Window
unfolding decimal
bucket_window period now secs = record {
  key = codes "roll:" ++ period ++ b':' ∷ decimal (now / secs);
  start = (now / secs) * secs;
  resets_at = (now / secs) * secs + secs;
}

unfoldable pub rolling_window : ℕ → GoString → Option Window
rolling_window now period = elim (rolling_duration period) [
  | none ↦ none
  | some secs ↦ some (bucket_window period now secs)
]

unfoldable pub is_leap : ℕ → Bool
is_leap y = (y % 4 == 0) && (not (y % 100 == 0) || (y % 400 == 0))

unfoldable pub year_length : ℕ → ℕ
unfolding is_leap
year_length y = if is_leap y then 366 else 365

-- The year, and the day in it, of a day counted from the first of a year.
unfoldable pub year_from : ℕ → ℕ → ℕ → ℕ × ℕ
year_from zero y d = (y, d)
year_from (suc f) y d =
    let later = year_from f (y + 1) (d - year_length y) in
    if ltb d (year_length y) then (y, d) else later

unfoldable pub month_lengths : ℕ → List ℕ
month_lengths y =
    31 ∷ (if is_leap y then 29 else 28) ∷ 31 ∷ 30 ∷ 31 ∷ 30 ∷ 31 ∷ 31 ∷ 30 ∷ 31 ∷ 30 ∷ 31 ∷ []

pub record Month : Type 0 where
  pub number : ℕ
  pub day_in : ℕ
  pub length : ℕ

-- The month of a day of the year, counted from the months that are left.
unfoldable pub month_from : ℕ → List ℕ → ℕ → Month
month_from m [] d = record { number = m; day_in = d; length = suc d }
month_from m (n ∷ ns) d =
    let later = month_from (m + 1) ns (d - n) in
    if ltb d n then record { number = m; day_in = d; length = n } else later

-- No year has fewer than 365 days, so that the fuel is enough.
unfoldable pub year_of : ℕ → ℕ × ℕ
year_of days = year_from (suc (days / 365)) 1970 days

unfoldable pub month_of : ℕ → Month
month_of days = let (y, d) = year_of days in month_from 1 (month_lengths y) d

-- Two and four digits.
abbrev pub pad2 : ℕ → GoString
pad2 n = (48 + n / 10 % 10) ∷ (48 + n % 10) ∷ []

abbrev pub pad4 : ℕ → GoString
pad4 n = (48 + n / 1000 % 10) ∷ (48 + n / 100 % 10) ∷ (48 + n / 10 % 10) ∷ (48 + n % 10) ∷ []

-- The layouts 2006, 2006-01, 2006-01-02 and the two with the time of day.
unfoldable pub format_year : ℕ → GoString
format_year t = pad4 (year_of (t / day)).0

unfoldable pub format_month : ℕ → GoString
format_month t = format_year t ++ b'-' ∷ pad2 (month_of (t / day)).number

unfoldable pub format_day : ℕ → GoString
format_day t = format_month t ++ b'-' ∷ pad2 ((month_of (t / day)).day_in + 1)

unfoldable pub format_hour : ℕ → GoString
format_hour t = format_day t ++ b'T' ∷ pad2 (t % day / hour)

unfoldable pub format_minute : ℕ → GoString
format_minute t = format_hour t ++ b':' ∷ pad2 (t % hour / minute)

-- The window of a number of seconds from `start`.
unfoldable pub spanning : GoString → GoString → ℕ → ℕ → Window
spanning label stamp start length = record {
  key = codes "cal:" ++ label ++ b':' ∷ stamp;
  start = start;
  resets_at = start + length;
}

-- The first day of the ISO week: 1 January 1970 was a Thursday.
unfoldable pub monday : ℕ → ℕ
monday days = days - (days + 4 + 6) % 7

-- Before 5 January 1970 the first day of the week lies before 1970, which no instant is here.
unfoldable pub calendar_window : ℕ → GoString → Option Window
calendar_window now period =
    let days = now / day in
    if str_eq period (codes "1m")
    then (let start = now / minute * minute in
        some (spanning period (format_minute start) start minute))
    else if str_eq period (codes "1h")
    then (let start = now / hour * hour in some (spanning period (format_hour start) start hour))
    else if str_eq period (codes "1d")
    then (let start = days * day in some (spanning period (format_day start) start day))
    else if str_eq period (codes "1w")
    then (let start = monday days * day in
        some (spanning period (format_day start) start (7 * day)))
    else if str_eq period (codes "1M")
    then (let m = month_of days in
        let start = (days - m.day_in) * day in
        some (spanning period (format_month start) start (m.length * day)))
    else if str_eq period (codes "1Y")
    then (let (y, d) = year_of days in
        let start = (days - d) * day in
        some (spanning period (format_year start) start (year_length y * day)))
    else none

-- `none` is an error, for an unknown alignment or period.
unfoldable pub window_for : ℕ → GoString → GoString → Option Window
window_for now period alignment =
    if str_eq alignment (codes "calendar")
    then calendar_window now period
    else if str_eq alignment (codes "rolling")
    then rolling_window now period
    else none
