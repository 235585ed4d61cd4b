-- ===== src/Polls/Timestamp.antt =====
-- Vote times: `normalize_vote_timestamp` and `valid_settle_timestamp`. A Python number is read in
-- whole millionths, so that the rounding to microseconds is exact but for the division by 1000.
use home_assistant_whatsapp.Base.{
  Bool, Option, false, if◌then◌else◌, leb, ltb, none, some, str_eq, true, ℕ, ◌%◌, ◌&&◌, ◌*◌, ◌+◌,
  ◌/◌, ◌==◌, ◌>>=◌,
}
use home_assistant_whatsapp.Base.Int.{pos}
use home_assistant_whatsapp.Json.{Value, finite, float, int, null, str}

-- `MAX_TIMESTAMP_SECONDS`, in microseconds.
abbrev pub max_timestamp : ℕ
max_timestamp = 253402300799999969

-- `MAX_TIMESTAMP_MILLISECONDS`, in millionths of a millisecond.
abbrev pub max_timestamp_milliseconds : ℕ
max_timestamp_milliseconds = 253402300799999968750

-- The millionths of a finite number that is not negative.
unfoldable pub millionths_of : Value → Option ℕ
millionths_of (int (pos n)) = some (n * 1000000)
millionths_of (float (finite (pos n))) = some n
millionths_of _ = none

-- Division by 1000, ties to even.
unfoldable pub round_thousandth : ℕ → ℕ
round_thousandth n =
    let q = n / 1000 in
    let r = n % 1000 in
    if ltb r 500 then q else if ltb 500 r then q + 1 else if q % 2 == 0 then q else q + 1

-- The `unit` that a value is marked with; `none` is a mark that is not supported.
unfoldable pub is_marked : Value → Option Bool
is_marked null = some false
is_marked (str s) = if str_eq s "seconds" then some true else none
is_marked _ = none

-- The microseconds of a number, by whether it is marked as seconds.
unfoldable pub microseconds : Bool → ℕ → Option ℕ
microseconds true n = if leb n max_timestamp then some n else none
microseconds false n =
    if leb n max_timestamp
    then some n
    else if leb n max_timestamp_milliseconds && leb (round_thousandth n) max_timestamp
    then some (round_thousandth n)
    else none

-- `normalize_vote_timestamp`
unfoldable pub normalize_vote_timestamp : Value → Value → Option ℕ
unfolding microseconds
normalize_vote_timestamp value unit = do
  marked ← is_marked unit
  n ← millionths_of value
  microseconds marked n

-- `valid_settle_timestamp`, of an instant.
unfoldable pub valid_settle_timestamp : ℕ → Bool
valid_settle_timestamp t = leb t max_timestamp
