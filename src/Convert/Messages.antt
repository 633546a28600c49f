-- ===== src/Convert/Messages.antt =====
-- The messages of OTLP that pkg/convert/traces.go reads, as the decoder leaves them, and the events
-- of pkg/convert/common.go that it makes of them. A nil list is an empty one.
use tracing_proxy.Base.{ℕ, ◌-◌, ◌^◌, String, List, Option, Bool, ltb, if◌then◌else◌}
use tracing_proxy.Base.Int.{ℤ, pos, negsuc}
use tracing_proxy.Types.{Value, SpanEvent}
use tracing_proxy.Convert.Values.{AnyValue, Attribute, Encoder}

-- a message inside a span: `Span_Event`
pub record OtlpEvent : Type 0 where
  pub name : String
  pub time_unix_nano : ℕ
  pub attributes : List Attribute

pub data SpanKind : Type 0 where
  unspecified internal server client producer consumer : SpanKind
  -- a number that the protocol does not name
  other : SpanKind

-- The times are `uint64`.
pub record OtlpSpan : Type 0 where
  pub trace_id : List ℕ
  pub span_id : List ℕ
  pub parent_span_id : Option (List ℕ)
  pub name : String
  pub kind : SpanKind
  pub start_time_unix_nano : ℕ
  pub end_time_unix_nano : ℕ
  pub attributes : List Attribute
  pub events : List OtlpEvent
  pub num_links : ℕ
  -- the message of the status
  pub status_message : Option String

pub record Scope : Type 0 where
  pub name : String
  pub version : String
  pub attributes : List Attribute

pub record ScopeSpans : Type 0 where
  pub scope : Option Scope
  pub spans : List OtlpSpan

pub record ResourceSpans : Type 0 where
  -- the attributes of the resource, if there is one
  pub resource : Option (List Attribute)
  pub scope_spans : List ScopeSpans

-- `Event`
pub record Translated : Type 0 where
  pub attributes : List (String × Value)
  pub timestamp : ℕ
  pub sample_rate : ℤ
  pub span_events : List SpanEvent

pub record Batch : Type 0 where
  pub dataset : String
  pub size_bytes : ℕ
  pub events : List Translated

-- What packages do: `normal` is `strings.ToLower` after `strings.TrimSpace`; `shows_int` is whether
-- what `fmt` prints of a value contains "int"; `parse_int` is the number that `strconv.ParseInt`
-- answers, also with an error; `millis` is a `uint64` of nanoseconds as a `float64` of milliseconds;
-- `unix` is `time.Unix` of nanoseconds; `size` is `proto.Size`.
pub record Tools : Type 0 where
  pub encoder : Encoder
  pub normal : String → String
  pub shows_int : Option AnyValue → Bool
  pub parse_int : String → ℤ
  pub parse_int32 : String → Option ℤ
  pub millis : ℕ → ℕ
  pub unix : ℤ → ℕ
  pub size : ResourceSpans → ℕ

-- `int64` of a `uint64`
unfoldable pub to_int64 : ℕ → ℤ
to_int64 n = if ltb n (2 ^ 63) then pos n else negsuc (2 ^ 64 - n - 1)

unfoldable pub get_span_kind : SpanKind → String
get_span_kind SpanKind.client = "client"
get_span_kind SpanKind.server = "server"
get_span_kind SpanKind.producer = "producer"
get_span_kind SpanKind.consumer = "consumer"
get_span_kind SpanKind.internal = "internal"
get_span_kind SpanKind.unspecified = "unspecified"
get_span_kind SpanKind.other = "unspecified"
