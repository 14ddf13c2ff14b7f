-- ===== src/Duration.antt =====
-- dino/validation/duration.py, and the ban durations of dino/utils/__init__.py that it guards.
-- A date is its number of seconds since the start of the year 1.
pub mod Laws
use dino.Prelude.{
  ℕ, ◌+◌, ◌-◌, ◌*◌, Bool, true, false, not, ◌&&◌, ◌||◌, Option, none, some, [], ◌∷◌, eqb, leb,
  if◌then◌else◌, drop, init, last_or,
}
use dino.Prelude.Text.{Text, starts_with, str}
use dino.Prelude.Int.{ℤ, pos, negsuc}
use dino.Prelude.Result.{Result, ok, err, ◌>>=◌, ◌>>◌, guard}
use dino.Generic.{is_digit, parse_int}

-- The `ValueError`s of the constructor, the one of `int`, and the OverflowError of timedelta and of
-- the addition of dates.
pub data DurationError : Type 0 where
  empty_duration invalid_end negative_duration not_a_number int_error : DurationError
  overflow_error : DurationError

-- `ban_duration[-1] not in valid_ends`, negated
abbrev pub is_valid_end : ℕ → Bool
is_valid_end c = eqb c b's' || eqb c b'm' || eqb c b'h' || eqb c b'd'

-- `if ban_duration.startswith('+'): ban_duration = ban_duration[1:]`
abbrev pub drop_plus : Text → Text
drop_plus d = if starts_with (str "+") d then drop 1 d else d

-- The tests of `DurationValidator` at a text that is not empty.
unfoldable pub check_duration : Text → Result DurationError (Unit {0})
check_duration d = do
  guard (is_valid_end (last_or 0 d)) invalid_end
  guard (not (starts_with (str "-") d)) negative_duration
  guard (is_digit (init (drop_plus d))) not_a_number

-- `DurationValidator(ban_duration)`
unfoldable pub validate_duration : Option Text → Result DurationError (Unit {0})
unfolding check_duration
validate_duration none = err empty_duration
validate_duration (some []) = err empty_duration
validate_duration (some (c ∷ d)) = check_duration (c ∷ d)

-- Seconds of one unit: `timedelta(days=, hours=, seconds=)`, and `* 60` for the minutes.
abbrev pub unit_seconds : ℕ → ℕ
unit_seconds u =
    if eqb u b'd' then 86400 else if eqb u b'h' then 3600 else if eqb u b'm' then 60 else 1

abbrev pub scale : ℕ → ℤ → ℤ
scale k (pos n) = pos (k * n)
scale k (negsuc n) = negsuc (k * (n + 1) - 1)

abbrev pub or_int_error : Option ℤ → Result DurationError ℤ
or_int_error none = err int_error
or_int_error (some z) = ok z

-- Of the four branches the one of the unit is taken, if the rest `is_digit`; else all stays 0.
unfoldable pub offset : ℕ → Text → Result DurationError ℤ
offset u number =
    if is_valid_end u && is_digit number
    then (do n ← or_int_error (parse_int number); ok (scale (unit_seconds u) n))
    else ok (pos 0)

-- The last second of the year 9999, after which there is no datetime
abbrev pub last_second : ℕ
last_second = 315537897599

abbrev pub datetime_at : ℕ → Result DurationError ℕ
datetime_at date = if leb date last_second then ok date else err overflow_error

-- `now + ban_time`. A timedelta is at most 999999999 days, with which the sum is too late as well.
abbrev pub shift : ℕ → ℤ → Result DurationError ℕ
shift now (pos n) = datetime_at (now + n)
shift now (negsuc n) = if leb (n + 1) now then datetime_at (now - (n + 1)) else err overflow_error

-- `ban_duration_to_datetime`
unfoldable pub ban_duration_to_datetime : ℕ → Option Text → Result DurationError ℕ
unfolding validate_duration offset
ban_duration_to_datetime now none = err empty_duration
ban_duration_to_datetime now (some d) = do
  validate_duration (some d)
  z ← offset (last_or 0 d) (init d)
  shift now z
