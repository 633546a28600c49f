-- ===== src/Types.antt =====
-- types/event.go: events, spans and traces, and the sizes by which the cache weighs them.
--
-- A value of Go's `interface{}` is a `Value`, a `float64` its bit pattern. Times are nanoseconds
-- on one clock. What a span never changes after it is decoded is its `Header`.
pub mod Impact
use tracing_proxy.Base.{
  ℕ, ◌+◌, ◌-◌, ◌*◌, ◌/◌, ◌%◌, ◌^◌, String, Bool, true, false, ite, List, [], ◌∷◌, ◌++◌, Option,
  none, some, length, ◌==◌, if◌then◌else◌, text_discrete, same_text,
}
use Prim.Native.String.{len}
use tracing_proxy.Base.Int.{ℤ}

mutual
  pub data Value : Type 0 where
    null : Value
    bool : Bool → Value
    int : ℤ → Value
    int64 : ℤ → Value
    uint : ℕ → Value
    float64 : ℕ → Value
    text : String → Value
    bytes : List ℕ → Value
    object : Fields → Value

  pub data Fields : Type 0 where
    end : Fields
    field : String → Value → Fields → Fields

pub record SpanEvent : Type 0 where
  pub attributes : List (String × Value)
  pub name : String
  pub timestamp : ℕ

pub record Header : Type 0 where
  pub api_host : String
  pub api_key : String
  pub api_token : String
  pub api_tenant_id : String
  pub dataset : String
  pub environment : String
  pub timestamp : ℕ
  pub span_events : List SpanEvent
  pub trace_id : String

pub record Span : Type 0 where
  pub header : Header
  pub sample_rate : ℕ
  pub values : List (String × Value)
  pub data_size : ℕ
  pub arrival_time : ℕ

pub record Trace : Type 0 where
  pub api_host : String
  pub api_key : String
  pub dataset : String
  pub trace_id : String
  pub sample_rate : ℕ
  pub keep_sample : Bool
  pub sent : Bool
  pub send_by : ℕ
  pub arrival_time : ℕ
  -- the place in `spans` of the span that `RootSpan` points to
  pub root_span : Option ℕ
  pub data_size : ℕ
  pub spans : List Span
  pub total_impact : ℕ

-- `uint` has 64 bits.
abbrev pub uint_mod : ℕ
uint_mod = 2 ^ 64

unfoldable pub value_size : Value → ℕ
value_size null = 8
value_size (bool _) = 1
value_size (int _) = 8
value_size (int64 _) = 8
value_size (uint _) = 8
value_size (float64 _) = 8
value_size (text s) = len s
value_size (bytes b) = length b
value_size (object _) = 8

-- the loop of `GetDataSize`, with its total so far
unfoldable pub add_sizes : ℕ → List (String × Value) → ℕ
unfolding value_size
add_sizes total [] = total
add_sizes total ((_, v) ∷ m) = add_sizes (total + value_size v) m

unfoldable pub get_data_size : Span → ℕ
unfolding add_sizes
get_data_size sp = add_sizes 0 sp.values

-- the span as `AddSpan` stores it, at the time `now`
unfoldable pub arrived : ℕ → Span → Span
unfolding get_data_size
arrived now sp = record sp { arrival_time = now; data_size = get_data_size sp }

unfoldable pub add_span : ℕ → Trace → Span → Trace
unfolding arrived
add_span now t sp = record t {
  data_size = t.data_size + (arrived now sp).data_size;
  spans = t.spans ++ arrived now sp ∷ [];
  total_impact = 0;
}

abbrev pub cache_impact_factor : ℕ
cache_impact_factor = 4

unfoldable pub span_impact : ℕ → ℕ → Span → ℕ
span_impact trace_timeout now sp =
    (cache_impact_factor * (now - sp.arrival_time) / trace_timeout + 1) * sp.data_size

-- the loop of `CacheImpact`
unfoldable pub add_impacts : ℕ → ℕ → ℕ → List Span → ℕ
unfolding span_impact
add_impacts trace_timeout now total [] = total
add_impacts trace_timeout now total (sp ∷ sps) =
    add_impacts trace_timeout now (total + span_impact trace_timeout now sp) sps

-- `CacheImpact` stores what it computes in the trace.
unfoldable pub cache_impact : ℕ → ℕ → Trace → Trace × ℕ
unfolding add_impacts
cache_impact trace_timeout now t =
    let total = add_impacts trace_timeout now t.total_impact t.spans in
    if t.total_impact == 0 then (record t { total_impact = total }, total) else (t, t.total_impact)

unfoldable pub descendant_count : Trace → ℕ
descendant_count t = length t.spans % uint_mod

unfoldable pub is_legacy_api_key : String → Bool
is_legacy_api_key key = len key == 32

-- the loop of `GetSamplerKey`: the first environment that is not empty
unfoldable pub first_environment : List Span → String
unfolding same_text
first_environment [] = ""
first_environment (sp ∷ sps) =
    if same_text sp.header.environment "" then first_environment sps else sp.header.environment

unfoldable pub get_sampler_key : Trace → String × Bool
unfolding is_legacy_api_key first_environment
get_sampler_key t =
    if is_legacy_api_key t.api_key then (t.dataset, true) else (first_environment t.spans, false)
