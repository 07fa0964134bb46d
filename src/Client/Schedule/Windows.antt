-- ===== src/Client/Schedule/Windows.antt =====
-- client/schedule.go: `activeForTime` against the daily window that a schedule describes.
use simpleiot.Prelude.{
  ℕ, ◌+◌, ◌-◌, ◌*◌, ◌/◌, ◌%◌, ◌<◌, ◌≤◌, String, Bool, true, false, ◌&&◌, ◌||◌, List, [], ◌∷◌, ◌++◌,
  Option, none, some, ltb, leb, ◌==◌, if◌then◌else◌, ◌≡◌, refl, ap, ap₂, ◌∙◌, arith, lt→ltb,
  ltb-false,
}
use native.Mathlib.Decide.{dec_lt}
use simpleiot.Client.Schedule.{
  ok, Schedule, TimeRange, day_ns, clock_ns, parse_hour_min, parse_date, civil_date, weekday,
  in_range, in_ranges, has_weekday, keep_weekdays, filter_weekdays, keep_dates, keep_all_dates,
  filter_dates, time_ranges, active_for_time,
}

-- The dates that the texts stand for, if all are dates
cons_date : Option (ℕ × ℕ × ℕ) → Option (List (ℕ × ℕ × ℕ)) → Option (List (ℕ × ℕ × ℕ))
cons_date none dates = none
cons_date (some date) none = none
cons_date (some date) (some dates) = some (date ∷ dates)

unfoldable pub parse_dates : List String → Option (List (ℕ × ℕ × ℕ))
unfolding cons_date
parse_dates [] = some []
parse_dates (d ∷ ds) = cons_date (parse_date d) (parse_dates ds)

unfoldable pub has_date : ℕ × ℕ × ℕ → List (ℕ × ℕ × ℕ) → Bool
has_date (y', m', day') [] = false
has_date (y', m', day') ((y, m, day) ∷ ds) =
    (y == y' && m == m' && day == day') || has_date (y', m', day') ds

-- No list of weekdays, or of dates, allows every day.
unfoldable pub weekday_allowed : List ℕ → ℕ → Bool
weekday_allowed [] d = true
weekday_allowed (wd ∷ wds) d = has_weekday (weekday d) (wd ∷ wds)

unfoldable pub date_allowed : List (ℕ × ℕ × ℕ) → ℕ → Bool
unfolding has_date
date_allowed [] d = true
date_allowed (date ∷ ds) d = has_date (civil_date d) (date ∷ ds)

-- A window within the day, or one that runs over midnight and belongs to the day on which it starts
unfoldable pub in_window : (start end : ℕ) (today yesterday : Bool) → (time_of_day : ℕ) → Bool
in_window start end today yesterday t =
    if ltb start end
    then today && (leb start t && ltb t end)
    else ((today && leb start t) || (yesterday && ltb t end))

-- The time is in a range that starts on an allowed day.
in_allowed : (ℕ → Bool) → List TimeRange → ℕ → Bool
in_allowed p [] t = false
in_allowed p (r ∷ rs) t = (p (r.start / day_ns) && in_range r t) || in_allowed p rs t

in_allowed-true :
    (p : ℕ → Bool) (rs : List TimeRange) (t : ℕ)
    → in_allowed p rs t ≡ in_allowed (λ d. p d && true) rs t
unfolding in_allowed
in_allowed-true p [] t = refl
in_allowed-true p (r ∷ rs) t = ground (arith, in_allowed-true p rs t)

in_allowed-keep_weekdays :
    (p : ℕ → Bool) (wds : List ℕ) (rs : List TimeRange) (t : ℕ)
    → in_allowed p (keep_weekdays wds rs) t
      ≡ in_allowed (λ d. p d && has_weekday (weekday d) wds) rs t
unfolding in_allowed keep_weekdays
in_allowed-keep_weekdays p wds [] t = refl
in_allowed-keep_weekdays p wds (r ∷ rs) t = ground (arith, in_allowed-keep_weekdays p wds rs t)

in_allowed-filter_weekdays :
    (p : ℕ → Bool) (wds : List ℕ) (rs : List TimeRange) (t : ℕ)
    → in_allowed p (filter_weekdays wds rs) t ≡ in_allowed (λ d. p d && weekday_allowed wds d) rs t
unfolding filter_weekdays weekday_allowed
in_allowed-filter_weekdays p [] rs t = in_allowed-true p rs t
in_allowed-filter_weekdays p (wd ∷ wds) rs t = in_allowed-keep_weekdays p (wd ∷ wds) rs t

in_ranges-append :
    (xs ys : List TimeRange) (t : ℕ) → in_ranges (xs ++ ys) t ≡ (in_ranges xs t || in_ranges ys t)
unfolding in_ranges
in_ranges-append [] ys t = refl
in_ranges-append (x ∷ xs) ys t = ground (arith, in_ranges-append xs ys t)

-- The date of the first text, and those of the others
parse_dates-cons :
    (d : String) (ds : List String) (dates : List (ℕ × ℕ × ℕ))
    → parse_dates (d ∷ ds) ≡ some dates
    → (date : ℕ × ℕ × ℕ) × (rest : List (ℕ × ℕ × ℕ)) × (parse_date d ≡ some date)
      × (parse_dates ds ≡ some rest)
      × (dates ≡ date ∷ rest)
unfolding parse_dates
parse_dates-cons d ds dates h = split (parse_date d) (parse_dates ds) h
  where
    split :
        (o : Option (ℕ × ℕ × ℕ)) (os : Option (List (ℕ × ℕ × ℕ)))
        → cons_date o os ≡ some dates
        → (date : ℕ × ℕ × ℕ) × (rest : List (ℕ × ℕ × ℕ)) × (o ≡ some date)
          × (os ≡ some rest)
          × (dates ≡ date ∷ rest)
    split none os k = absurd (cc)
    split (some date) none k = absurd (cc)
    split (some date) (some rest) k = (date, rest, refl, refl, cc)

keep_dates_lem :
    (r : TimeRange) (ds : List String) (dates : List (ℕ × ℕ × ℕ)) (t : ℕ)
    → parse_dates ds ≡ some dates
    → (out : List TimeRange) × (keep_dates r ds ≡ ok out)
      × (in_ranges out t ≡ (has_date (civil_date (r.start / day_ns)) dates && in_range r t))
unfolding keep_dates in_ranges has_date parse_dates
keep_dates_lem r [] dates t h = ([], refl, rw (← e) refl)
  where
    e : [] ≡ dates
    e = cc
keep_dates_lem r (d ∷ ds) dates t h =
    let (date, rest, e, e', e'') = parse_dates-cons d ds dates h in
    let (out, k, i) = keep_dates_lem r ds rest t e' in
    let r_date = civil_date (r.start / day_ns) in
    let same = date.0 == r_date.0 && date.1 == r_date.1 && date.2 == r_date.2 in
    (if same then r ∷ out else out, rw (e, k) refl, rw e'' (kept same out (has_date r_date rest) i))
  where
    kept :
        (same : Bool) (out : List TimeRange) (listed : Bool)
        → in_ranges out t ≡ (listed && in_range r t)
        → in_ranges (if same then r ∷ out else out) t ≡ ((same || listed) && in_range r t)
    kept true out listed i = ground arith
    kept false out listed i = i

keep_all_dates_lem :
    (rs : List TimeRange) (ds : List String) (dates : List (ℕ × ℕ × ℕ)) (t : ℕ)
    → parse_dates ds ≡ some dates
    → (out : List TimeRange) × (keep_all_dates rs ds ≡ ok out)
      × (in_ranges out t ≡ in_allowed (λ d. has_date (civil_date d) dates) rs t)
unfolding keep_all_dates in_ranges in_allowed
keep_all_dates_lem [] ds dates t h = ([], refl, refl)
keep_all_dates_lem (r ∷ rs) ds dates t h =
    let (new, k, i) = keep_dates_lem r ds dates t h in
    let (rest, k', i') = keep_all_dates_lem rs ds dates t h in
    (new ++ rest, rw (k, k') refl, in_ranges-append new rest t ∙ ap₂ (λ a b. a || b) i i')

in_ranges-all : (rs : List TimeRange) (t : ℕ) → in_ranges rs t ≡ in_allowed (date_allowed []) rs t
unfolding in_ranges in_allowed date_allowed
in_ranges-all [] t = refl
in_ranges-all (r ∷ rs) t = ap (λ b. in_range r t || b) (in_ranges-all rs t)

filter_dates_lem :
    (ds : List String) (rs : List TimeRange) (dates : List (ℕ × ℕ × ℕ)) (t : ℕ)
    → parse_dates ds ≡ some dates
    → (out : List TimeRange) × (filter_dates ds rs ≡ ok out)
      × (in_ranges out t ≡ in_allowed (date_allowed dates) rs t)
unfolding filter_dates date_allowed parse_dates
filter_dates_lem [] rs dates t h = (rs, refl, rw (no_dates dates h) (in_ranges-all rs t))
  where
    no_dates : (dates : List (ℕ × ℕ × ℕ)) → parse_dates [] ≡ some dates → dates ≡ []
    no_dates dates k = cc
filter_dates_lem (d ∷ ds) rs dates t h =
    let (date, rest, e, e', e'') = parse_dates-cons d ds dates h in
    let (out, k, i) = keep_all_dates_lem rs (d ∷ ds) dates t h in (out, k, i ∙ rw e'' refl)

-- A time by its day and its time of day
module _ (q tod start end : ℕ) (tod_lt : tod < day_ns) (start_lt : start < day_ns)
    (end_lt : end < day_ns) where
  same_day :
      start < end
      → in_range (record { start = q * day_ns + start; end = q * day_ns + end }) (q * day_ns + tod)
        ≡ (leb start tod && ltb tod end)
  unfolding in_range
  same_day h = ground arith

  over_midnight :
      end ≤ start
      → in_range
          (record { start = q * day_ns + start; end = q * day_ns + end + day_ns })
          (q * day_ns + tod)
        ≡ leb start tod
  unfolding in_range
  over_midnight h = ground arith

  after_midnight :
      0 < q
      → in_range
          (record { start = q * day_ns + start - day_ns; end = q * day_ns + end })
          (q * day_ns + tod)
        ≡ ltb tod end
  unfolding in_range
  after_midnight h = ground arith

  in_allowed-time_ranges :
      (p : ℕ → Bool)
      → 0 < q
      → in_allowed p (time_ranges (q * day_ns) start end) (q * day_ns + tod)
        ≡ in_window start end (p q) (p (q - 1)) tod
  unfolding in_allowed time_ranges in_window
  in_allowed-time_ranges p pos =
      let today : (q * day_ns + start) / day_ns ≡ q = omega arith in
      let yesterday : (q * day_ns + start - day_ns) / day_ns ≡ q - 1 = omega arith in
      elim (dec_lt start end) [
        | yes l ↦
            rw
              (
                lt→ltb _ _ l,
                lt→ltb (q * day_ns + start) (q * day_ns + end) (omega arith),
                same_day l,
                today,
              )
              (or_false _)
        | no l ↦
            rw
              (
                ltb-false start end (omega (arith, l)),
                ltb-false (q * day_ns + start) (q * day_ns + end) (omega (arith, l)),
                over_midnight (omega (arith, l)),
                after_midnight pos,
                today,
                yesterday,
              )
              (ap (λ b. (p q && leb start tod) || b) (or_false _))
      ]
    where
      or_false : (b : Bool) → (b || false) ≡ b
      or_false true = refl
      or_false false = refl

-- `activeForTime` is the daily window of the schedule: if the start and the end are times of day below 24
-- hours and all dates are dates, it reports no error, and tells whether the time is at or after the start and before the
-- end on an allowed day, or, where the end is not after the start, at or after the start on an
-- allowed day or before the end on the day after an allowed day. A day is allowed if its weekday and its date are
-- listed, where such a list is given.
pub active_for_time-in_window :
    (s : Schedule) (time : ℕ) (h m h' m' : ℕ) (dates : List (ℕ × ℕ × ℕ))
    → parse_hour_min s.start_time ≡ some (h, m)
    → parse_hour_min s.end_time ≡ some (h', m')
    → parse_dates s.dates ≡ some dates
    → clock_ns h m < day_ns
    → clock_ns h' m' < day_ns
    → active_for_time s time
      ≡ ok (
          let day = (time + day_ns) / day_ns in
          in_window
            (clock_ns h m)
            (clock_ns h' m')
            (date_allowed dates day && weekday_allowed s.weekdays day)
            (date_allowed dates (day - 1) && weekday_allowed s.weekdays (day - 1))
            (time % day_ns))
unfolding active_for_time
active_for_time-in_window s time h m h' m' dates starts ends dated l l' =
    let t = time + day_ns in
    let q = t / day_ns in
    let rs = time_ranges (q * day_ns) (clock_ns h m) (clock_ns h' m') in
    let (out, k, i) = filter_dates_lem s.dates (filter_weekdays s.weekdays rs) dates t dated in
    let p = λ (d : ℕ). date_allowed dates d && weekday_allowed s.weekdays d in
    let split : t ≡ q * day_ns + time % day_ns = omega arith in
    rw (starts, ends, k)
      (ap ok (
        i
        ∙ in_allowed-filter_weekdays (date_allowed dates) s.weekdays rs t
        ∙ ap (in_allowed p rs) split
        ∙ in_allowed-time_ranges q (time % day_ns) (clock_ns h m) (clock_ns h' m') (omega arith) l
            l' p (omega arith)))
