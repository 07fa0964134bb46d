-- ===== src/Client/Schedule.antt =====
-- client/schedule.go: whether a time lies in a daily range of hours, on given weekdays or dates.
-- A `time.Time` is a number of nanoseconds, here from the day before Go's zero time, Sunday
-- 31 December of the year 0, so that the start of a range that began the day before is a number. The
-- standard library's `time.Date` and `AddDate` count hours and days beyond their range on, and the
-- conversions by `strconv.Atoi` of the digits that a pattern has matched do not fail.
pub mod Windows
use Prim.Native.String.{◌++◌ as str_append}
use simpleiot.Prelude.{
  ℕ, zero, suc, ◌+◌, ◌-◌, ◌*◌, ◌/◌, ◌%◌, String, Bool, true, false, ◌&&◌, ◌||◌, List, [], ◌∷◌, ◌++◌,
  Option, none, some, ltb, leb, ◌==◌, if◌then◌else◌, ◌≡◌, refl,
}
use simpleiot.Prelude.Options.{◌>>=◌}
use simpleiot.Prelude.Crc32.{utf8_bytes}

-- A value, or the text of an error
pub data Result {ℓ} (A : Type ℓ) : Type ℓ where
  ok : A → Result A
  err : String → Result A

-- `schedule`; a weekday is 0 on Sunday.
pub record Schedule : Type 0 where
  pub start_time : String
  pub end_time : String
  pub weekdays : List ℕ
  pub dates : List String

-- `timeRange`
pub record TimeRange : Type 0 where
  pub start : ℕ
  pub end : ℕ

-- `newSchedule`
unfoldable pub new_schedule : String → String → List ℕ → List String → Schedule
new_schedule start end weekdays dates = record {
  start_time = start;
  end_time = end;
  weekdays = weekdays;
  dates = dates;
}

-- The nanoseconds of a day, and of a time of day
abbrev pub day_ns : ℕ
day_ns = 86400000000000

abbrev pub clock_ns : ℕ → ℕ → ℕ
clock_ns hour min = hour * 3600000000000 + min * 60000000000

-- `\d`, followed by the rest
digit_at : List ℕ → Option (ℕ × List ℕ)
digit_at [] = none
digit_at (c ∷ cs) = if leb b'0' c && leb c b'9' then some (c - b'0', cs) else none

-- `\d\d`
two_digits : List ℕ → Option (ℕ × List ℕ)
unfolding digit_at
two_digits cs = do (a, cs) ← digit_at cs; (b, cs) ← digit_at cs; some (a * 10 + b, cs)

expect : ℕ → List ℕ → Option (List ℕ)
expect c [] = none
expect c (d ∷ ds) = if d == c then some ds else none

-- `:(\d\d)`, after the hour
minutes_after : ℕ × List ℕ → Option (ℕ × ℕ)
unfolding expect two_digits
minutes_after (hour, cs) = do cs ← expect b':' cs; (min, cs) ← two_digits cs; some (hour, min)

first_of : {A : Type 0} → Option A → Option A → Option A
first_of (some a) o = some a
first_of none o = o

-- `reHourMin` at one place: two digits for the hour are preferred.
hour_min_at : List ℕ → Option (ℕ × ℕ)
unfolding first_of two_digits digit_at minutes_after
hour_min_at cs = first_of (two_digits cs >>= minutes_after) (digit_at cs >>= minutes_after)

-- `reDate` at one place
date_at : List ℕ → Option (ℕ × ℕ × ℕ)
unfolding expect two_digits
date_at cs = do
  (century, cs) ← two_digits cs
  (year, cs) ← two_digits cs
  cs ← expect b'-' cs
  (month, cs) ← two_digits cs
  cs ← expect b'-' cs
  (day, cs) ← two_digits cs
  some (century * 100 + year, month, day)

-- `FindStringSubmatch`: the first place that matches
find_first : {A : Type 0} → (List ℕ → Option A) → List ℕ → Option A
unfolding first_of
find_first at [] = at []
find_first at (c ∷ cs) = first_of (at (c ∷ cs)) (find_first at cs)

unfoldable pub parse_hour_min : String → Option (ℕ × ℕ)
unfolding find_first hour_min_at
parse_hour_min s = find_first hour_min_at (utf8_bytes s)

unfoldable pub parse_date : String → Option (ℕ × ℕ × ℕ)
unfolding find_first date_at
parse_date s = find_first date_at (utf8_bytes s)

-- `Year`, `Month` and `Day` of the standard library, for a day that is counted as above: the years
-- start in March, 305 days before, and repeat after 146097 days.
unfoldable pub civil_date : ℕ → ℕ × ℕ × ℕ
civil_date n =
    let z = n + 305 in
    let doe = z % 146097 in
    let yoe = (doe - doe / 1460 + doe / 36524 - doe / 146096) / 365 in
    let doy = doe - (365 * yoe + yoe / 4 - yoe / 100) in
    let mp = (5 * doy + 2) / 153 in
    let month = if ltb mp 10 then mp + 3 else mp - 9 in
    (yoe + z / 146097 * 400 + (if leb month 2 then 1 else 0), month, doy - (153 * mp + 2) / 5 + 1)

-- `Weekday` of the standard library
abbrev pub weekday : ℕ → ℕ
weekday n = n % 7

-- `timeRange.in`
unfoldable pub in_range : TimeRange → ℕ → Bool
in_range r t = if ltb r.end r.start then false else if ltb t r.start then false else ltb t r.end

-- `timeRanges.in`
unfoldable pub in_ranges : List TimeRange → ℕ → Bool
in_ranges [] t = false
in_ranges (r ∷ rs) t = in_range r t || in_ranges rs t

-- The loop over the weekdays in `filterWeekdays`
unfoldable pub has_weekday : ℕ → List ℕ → Bool
has_weekday d [] = false
has_weekday d (wd ∷ wds) = d == wd || has_weekday d wds

unfoldable pub keep_weekdays : List ℕ → List TimeRange → List TimeRange
unfolding has_weekday
keep_weekdays wds [] = []
keep_weekdays wds (r ∷ rs) =
    let rest = keep_weekdays wds rs in
    if has_weekday (weekday (r.start / day_ns)) wds then r ∷ rest else rest

-- `timeRanges.filterWeekdays`
unfoldable pub filter_weekdays : List ℕ → List TimeRange → List TimeRange
unfolding keep_weekdays
filter_weekdays [] rs = rs
filter_weekdays (wd ∷ wds) rs = keep_weekdays (wd ∷ wds) rs

-- One round of the loop over the dates in `filterDates`, and what the other rounds give; a range
-- stays as often as its date is listed.
unfoldable pub keep_date :
    TimeRange → String → Option (ℕ × ℕ × ℕ) → Result (List TimeRange) → Result (List TimeRange)
keep_date r text none rest = err (str_append "Invalid date: " text)
keep_date r text (some date) (err e) = err e
keep_date r text (some (y, m, d)) (ok rest) =
    let (y', m', d') = civil_date (r.start / day_ns) in
    ok (if y == y' && m == m' && d == d' then r ∷ rest else rest)

unfoldable pub keep_dates : TimeRange → List String → Result (List TimeRange)
unfolding keep_date
keep_dates r [] = ok []
keep_dates r (d ∷ ds) = keep_date r d (parse_date d) (keep_dates r ds)

-- The loop over the ranges in `filterDates`; an error of the first ends it.
unfoldable pub append_results :
    Result (List TimeRange) → Result (List TimeRange) → Result (List TimeRange)
append_results (err e) rest = err e
append_results (ok new) (err e) = err e
append_results (ok new) (ok rest) = ok (new ++ rest)

unfoldable pub keep_all_dates : List TimeRange → List String → Result (List TimeRange)
unfolding append_results
keep_all_dates [] ds = ok []
keep_all_dates (r ∷ rs) ds = append_results (keep_dates r ds) (keep_all_dates rs ds)

-- `timeRanges.filterDates`
unfoldable pub filter_dates : List String → List TimeRange → Result (List TimeRange)
unfolding keep_all_dates
filter_dates [] rs = ok rs
filter_dates (d ∷ ds) rs = keep_all_dates rs (d ∷ ds)

-- The ranges of the day that starts at `midnight`, from and to a time of day
unfoldable pub time_ranges : (midnight start end : ℕ) → List TimeRange
time_ranges midnight start end =
    if ltb (midnight + start) (midnight + end)
    then record { start = midnight + start; end = midnight + end } ∷ []
    else (record { start = midnight + start; end = midnight + end + day_ns }
        ∷ record { start = midnight + start - day_ns; end = midnight + end }
        ∷ [])

-- Whether the time is in one of the ranges that the filters keep
unfoldable pub in_result : Result (List TimeRange) → ℕ → Result Bool
in_result (err e) t = err e
in_result (ok rs) t = ok (in_ranges rs t)

-- `schedule.activeForTime` once the hours are parsed, if they are
unfoldable pub active_between : Schedule → ℕ → Option (ℕ × ℕ) → Option (ℕ × ℕ) → Result Bool
unfolding in_result
active_between s t none end =
    err (str_append "TimeRange: invalid start: " (str_append s.start_time " "))
active_between s t (some start) none =
    err (str_append "TimeRange: invalid end: " (str_append s.end_time " "))
active_between s t (some (start_hour, start_min)) (some (end_hour, end_min)) =
    let start = clock_ns start_hour start_min in
    let end = clock_ns end_hour end_min in
    let rs = filter_weekdays s.weekdays (time_ranges (t / day_ns * day_ns) start end) in
    in_result (filter_dates s.dates rs) t

-- `schedule.activeForTime`, for a time since Go's zero time
unfoldable pub active_for_time : Schedule → ℕ → Result Bool
unfolding active_between
active_for_time s time =
    active_between s (time + day_ns) (parse_hour_min s.start_time) (parse_hour_min s.end_time)

-- 1 January of the year 1, 29 February 2000, 1 March 1900 and 31 December 2023
civil_dates :
    (civil_date 1 ≡ (1, 1, 1))
    × (civil_date 730179 ≡ (2000, 2, 29))
    × (civil_date 693655 ≡ (1900, 3, 1))
    × (civil_date 738885 ≡ (2023, 12, 31))
unfolding civil_date
civil_dates = (refl, refl, refl, refl)

hour_mins :
    (parse_hour_min "8:05" ≡ some (8, 5))
    × (parse_hour_min "x123:45" ≡ some (23, 45))
    × (parse_hour_min "12" ≡ none)
unfolding parse_hour_min utf8_bytes
hour_mins = (refl, refl, refl)
