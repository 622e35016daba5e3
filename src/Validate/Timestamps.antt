-- ===== src/Validate/Timestamps.antt =====
-- adapters/core/typescript/src/validate.ts: `parseTimestamp`, with what it uses of `Date`: `Date.UTC`, for which a year below 100 is
-- one of the 1900s, and the number of days of a month.
use Prim.Native.Char.{code}
use audr.Base.{
  ℕ, zero, suc, ◌+◌, ◌-◌, ◌*◌, ◌/◌, ◌%◌, ◌^◌, Bool, true, false, not, ◌&&◌, ◌||◌, Option, none,
  some, String, leb, ◌==◌, if◌then◌else◌,
}
use audr.Base.Text.{is_digit}
use audr.Base.Result.{◌>>=◌, ◌>>◌, guard}
use audr.Record.{Instant, pos, negsuc}

-- What `TIMESTAMP` captures. `Z` is the offset `+00:00`.
pub record Timestamp : Type 0 where
  pub year : ℕ
  pub month : ℕ
  pub day : ℕ
  pub hour : ℕ
  pub minute : ℕ
  pub second : ℕ
  pub fraction : String
  pub is_behind : Bool
  pub offset_hour : ℕ
  pub offset_minute : ℕ

-- `\d{n}`, as its number, and the rest of the text.
unfoldable pub digits : ℕ → ℕ → String → Option (ℕ × String)
digits zero acc s = some (acc, s)
digits (suc n) acc String.[] = none
digits (suc n) acc (String.◌∷◌ c s) =
    let rest = digits n (10 * acc + (code c - b'0')) s in if is_digit (code c) then rest else none

-- One character.
abbrev pub after : ℕ → String → Option String
after d String.[] = none
after d (String.◌∷◌ c s) = if code c == d then some s else none

-- `\d*`, and the rest of the text.
unfoldable pub leading_digits : String → String × String
leading_digits String.[] = ("", "")
leading_digits (String.◌∷◌ c s) =
    let (front, rest) = leading_digits s in
    if is_digit (code c) then (String.◌∷◌ c front, rest) else ("", String.◌∷◌ c s)

abbrev one_at_least : String × String → Option (String × String)
one_at_least (String.[], rest) = none
one_at_least (String.◌∷◌ c front, rest) = some (String.◌∷◌ c front, rest)

-- `(?:\.(\d+))?`
unfoldable pub fraction_of : String → Option (String × String)
unfolding leading_digits
fraction_of String.[] = some ("", "")
fraction_of (String.◌∷◌ c s) =
    if code c == b'.' then one_at_least (leading_digits s) else some ("", String.◌∷◌ c s)

abbrev at_end : {A : Type 0} → A → String → Option A
at_end a String.[] = some a
at_end a (String.◌∷◌ c s) = none

unfoldable pub hours_and_minutes : Bool → String → Option (Bool × ℕ × ℕ)
unfolding digits
hours_and_minutes is_behind s = do
  (h, s) ← digits 2 0 s
  s ← after b':' s
  (m, s) ← digits 2 0 s
  at_end (is_behind, h, m) s

-- `(?:Z|([+-])(\d{2}):(\d{2}))$`
unfoldable pub zone_of : String → Option (Bool × ℕ × ℕ)
unfolding hours_and_minutes
zone_of String.[] = none
zone_of (String.◌∷◌ c s) =
    if code c == b'Z'
    then at_end (false, 0, 0) s
    else if code c == b'+'
    then hours_and_minutes false s
    else if code c == b'-'
    then hours_and_minutes true s
    else none

-- `TIMESTAMP.exec`
unfoldable pub match_timestamp : String → Option Timestamp
unfolding digits fraction_of zone_of
match_timestamp s = do
  (year, s) ← digits 4 0 s
  s ← after b'-' s
  (month, s) ← digits 2 0 s
  s ← after b'-' s
  (day, s) ← digits 2 0 s
  s ← after b'T' s
  (hour, s) ← digits 2 0 s
  s ← after b':' s
  (minute, s) ← digits 2 0 s
  s ← after b':' s
  (second, s) ← digits 2 0 s
  (fraction, s) ← fraction_of s
  (is_behind, h, m) ← zone_of s
  some (record {
    year = year;
    month = month;
    day = day;
    hour = hour;
    minute = minute;
    second = second;
    fraction = fraction;
    is_behind = is_behind;
    offset_hour = h;
    offset_minute = m;
  })

-- The year that `Date.UTC` takes a number for.
abbrev full_year : ℕ → ℕ
full_year y = if leb y 99 then 1900 + y else y

abbrev is_leap : ℕ → Bool
is_leap y = y % 4 == 0 && (not (y % 100 == 0) || y % 400 == 0)

-- The days of a month, counted from 1.
abbrev pub month_days : ℕ → ℕ → ℕ
month_days y mo =
    if mo == 2
    then (if is_leap y then 29 else 28)
    else if mo == 4 || mo == 6 || mo == 9 || mo == 11
    then 30
    else 31

-- The days of the year before a month.
unfoldable pub days_before_month : ℕ → ℕ → ℕ
days_before_month y zero = 0
days_before_month y (suc zero) = 0
days_before_month y (suc (suc n)) = days_before_month y (suc n) + month_days y (suc n)

-- The days from the first of January of the year 0.
abbrev days_before_year : ℕ → ℕ
days_before_year y = 365 * y + (y + 3) / 4 - (y + 99) / 100 + (y + 399) / 400

-- The milliseconds from there to 1970.
abbrev pub epoch_base : ℕ
epoch_base = 719528 * 86400000

abbrev pub from_year_zero : ℕ → Instant
from_year_zero ms =
    if leb epoch_base ms then pos (ms - epoch_base) else negsuc (epoch_base - ms - 1)

-- `Number(fraction.slice(0, 3).padEnd(3, '0'))`
unfoldable pub millis_from : ℕ → String → ℕ
millis_from zero s = 0
millis_from (suc n) String.[] = 0
millis_from (suc n) (String.◌∷◌ c s) = (code c - b'0') * 10 ^ n + millis_from n s

-- `fraction.slice(n)`
unfoldable pub slice_from : ℕ → String → String
slice_from zero s = s
slice_from (suc n) String.[] = ""
slice_from (suc n) (String.◌∷◌ c s) = slice_from n s

-- The moment, in milliseconds from the year 0, without its offset.
unfoldable pub local_ms : Timestamp → ℕ
unfolding days_before_month millis_from
local_ms t =
    let y = full_year t.year in
    let days = days_before_year y + days_before_month y t.month + (t.day - 1) in
    (((days * 24 + t.hour) * 60 + t.minute) * 60 + t.second) * 1000 + millis_from 3 t.fraction

abbrev pub is_date : Timestamp → Bool
is_date t =
    leb 1 t.month
    && leb t.month 12
    && leb 1 t.day
    && leb t.day (month_days (full_year t.year) t.month)
    && leb t.hour 23
    && leb t.minute 59
    && leb t.second 59

abbrev pub is_offset : Timestamp → Bool
is_offset t = leb t.offset_hour 23 && leb t.offset_minute 59

-- What `parseTimestamp` returns.
pub record Moment : Type 0 where
  pub epoch_ms : Instant
  pub fraction : String

unfoldable pub moment_of : Timestamp → Moment
unfolding local_ms
moment_of t =
    let offset = (t.offset_hour * 60 + t.offset_minute) * 60000 in
    record {
      epoch_ms = from_year_zero (if t.is_behind then local_ms t + offset else local_ms t - offset);
      fraction = t.fraction;
    }

-- `parseTimestamp`
unfoldable pub parse_timestamp : String → Option Moment
unfolding match_timestamp moment_of
parse_timestamp s = do
  t ← match_timestamp s
  guard (is_date t)
  guard (is_offset t)
  some (moment_of t)
