-- ===== src/Transmit.antt =====
-- transmit/transmit.go: what of an event goes to the client library, and what is counted of its
-- responses. The library, with its events, is a parameter where it decides; a panic is none. Metrics
-- are the names that are incremented; logging is left out.
pub mod Counts
use Prim.Native.String.{◌++◌ as join}
use tracing_proxy.Base.{
  ℕ, String, List, [], ◌∷◌, ◌++◌, Option, none, some, Bool, true, false, ltb, ◌||◌, if◌then◌else◌,
}
use tracing_proxy.Base.Dict.{lookup, insert}
use tracing_proxy.Base.Fallible.{◌>>=◌}
use tracing_proxy.Types.{Value, Span, SpanEvent}

-- the event of the library, as far as it is set here; `fields` are the calls of `AddField`
pub record LibtraceEvent : Type 0 where
  pub api_host : String
  pub api_token : String
  pub api_tenant_id : String
  pub dataset : String
  pub sample_rate : ℕ
  pub timestamp : ℕ
  pub span_events : List SpanEvent
  pub metadata : List (String × Value)
  pub fields : List (String × Value)

unfoldable pub put_present : String → Option Value → List (String × Value) → List (String × Value)
unfolding insert
put_present key none metadata = metadata
put_present key (some v) metadata = insert key v metadata

-- the loop over the additional fields
unfoldable pub add_error_fields :
    List String → List (String × Value) → List (String × Value) → List (String × Value)
unfolding lookup put_present
add_error_fields [] values metadata = metadata
add_error_fields (k ∷ ks) values metadata =
    add_error_fields ks values (put_present k (lookup k values) metadata)

unfoldable pub metadata_of : List String → Span → List (String × Value)
unfolding add_error_fields
metadata_of additional sp = add_error_fields additional sp.values (
    ("api_host", Value.text sp.header.api_host)
    ∷ ("dataset", Value.text sp.header.dataset)
    ∷ ("environment", Value.text sp.header.environment)
    ∷ [])

unfoldable pub libtrace_event : List String → Span → LibtraceEvent
unfolding metadata_of
libtrace_event additional sp = record {
  api_host = sp.header.api_host;
  api_token = sp.header.api_token;
  api_tenant_id = sp.header.api_tenant_id;
  dataset = sp.header.dataset;
  sample_rate = sp.sample_rate;
  timestamp = sp.header.timestamp;
  span_events = sp.header.span_events;
  metadata = metadata_of additional sp;
  fields = sp.values;
}

-- A `DefaultTransmission`: the events given to `SendPresampled`, and the metrics incremented.
pub record Transmission : Type 0 where
  pub name : String
  pub sent : List LibtraceEvent
  pub incremented : List String

-- `sends` tells whether `SendPresampled` answers no error
unfoldable pub enqueue_event :
    (LibtraceEvent → Bool) → List String → Span → Transmission → Transmission
unfolding libtrace_event
enqueue_event sends additional sp d =
    let ev = libtrace_event additional sp in
    record d {
      sent = d.sent ++ ev ∷ [];
      incremented =
          if sends ev then d.incremented else d.incremented ++ join d.name "enqueue_errors" ∷ [];
    }

-- `metadata` is none if it is not a map
pub record Response : Type 0 where
  pub failed : Bool
  pub status_code : ℕ
  pub metadata : Option (List (String × Value))

unfoldable pub is_error : Response → Bool
is_error r = r.failed || ltb 202 r.status_code

-- The loop over the additional fields asserts that the metadata are a map: whether it gets through.
unfoldable pub gets_through : List String → Option (List (String × Value)) → Bool
gets_through [] metadata = true
gets_through (k ∷ ks) none = false
gets_through (k ∷ ks) (some m) = true

-- one response
unfoldable pub process_response : List String → Response → Transmission → Option Transmission
unfolding is_error gets_through
process_response additional r d = elim (is_error r) [
  | false ↦ some (record d { incremented = d.incremented ++ join d.name "response_20x" ∷ [] })
  | true ↦ elim (gets_through additional r.metadata) [
    | false ↦ none
    | true ↦ some (record d { incremented = d.incremented ++ join d.name "response_errors" ∷ [] })
  ]
]

unfoldable pub process_responses : List String → List Response → Transmission → Option Transmission
unfolding process_response
process_responses additional [] d = some d
process_responses additional (r ∷ rs) d =
    process_response additional r d >>= process_responses additional rs
