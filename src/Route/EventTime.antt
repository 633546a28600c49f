-- ===== src/Route/EventTime.antt =====
-- `getEventTime` of route/route.go: the guess of the format of a time header. Times are nanoseconds
-- since Go's zero time. The parsers of the packages time and strconv are parameters.
use Prim.Native.String.{◌++◌, len, slice}
use tracing_proxy.Base.{ℕ, String, Option, none, some, ltb, ◌==◌, if◌then◌else◌, same_text}
use tracing_proxy.Base.Int.{ℤ}

-- `time.Parse` with RFC 3339, which answers the zero time with an error; `strconv.ParseInt` with the
-- base of the text's prefix; `strconv.ParseFloat`; `time.Unix` of seconds; and `time.Unix` of the
-- parts that `math.Modf` gives.
pub record TimeParsers : Type 0 where
  pub parse_rfc3339 : String → ℕ
  pub parse_int : String → Option ℤ
  pub parse_float : String → Option ℕ
  pub unix : ℤ → ℕ
  pub unix_float : ℕ → ℕ

module _ (P : TimeParsers) where
  open P use {parse_rfc3339, parse_int, parse_float, unix, unix_float}

  unfoldable pub or_zero_time : Option ℕ → ℕ
  or_zero_time (some epoch) = unix_float epoch
  or_zero_time none = 0

  -- a text that is an integer
  unfoldable pub epoch_time : String → ℤ → ℕ
  unfolding or_zero_time
  epoch_time header epoch =
      if len header == 10
      then unix epoch
      else if ltb 10 (len header)
      then or_zero_time (parse_float (slice header 0 10 ++ "." ++ slice header 10 (len header)))
      else 0

  unfoldable pub guess_time : String → ℕ
  unfolding epoch_time or_zero_time
  guess_time header = elim (parse_int header) [
    | some epoch ↦ epoch_time header epoch
    | none ↦ or_zero_time (parse_float header)
  ]

  unfoldable pub get_event_time : String → ℕ
  unfolding same_text guess_time
  get_event_time header =
      if same_text header ""
      then 0
      else if parse_rfc3339 header == 0
      then guess_time header
      else parse_rfc3339 header
