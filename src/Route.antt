-- ===== src/Route.antt =====
-- route/route.go: what the two servers, for clients and for peers, do with what they receive. This
-- file models `processEvent`, with the channels of collect/collect.go that take in spans.

pub mod Lands
pub mod Environment
pub mod EventTime
pub mod Handlers
pub mod Guard
pub mod Otlp
use Prim.Native.String.{◌++◌ as join}
use tracing_proxy.Base.{
  ℕ, ◌*◌, String, List, [], ◌∷◌, Option, none, some, Bool, true, false, ◌&&◌, not, ltb, length,
  ◌++◌, if◌then◌else◌, same_text,
}
use tracing_proxy.Base.Dict.{lookup}
use tracing_proxy.Types.{Span, SpanEvent, Value}
use tracing_proxy.Sharder.{Shard, equals, get_address}

-- `types.Event`, less its context
pub record Event : Type 0 where
  pub api_host : String
  pub api_key : String
  pub api_token : String
  pub api_tenant_id : String
  pub dataset : String
  pub environment : String
  pub sample_rate : ℕ
  pub timestamp : ℕ
  pub values : List (String × Value)
  pub span_events : List SpanEvent

-- the span of `processEvent`, with the zero values of the fields that it does not set
unfoldable pub to_span : Event → String → Span
to_span ev trace_id = record {
  header = record {
    api_host = ev.api_host;
    api_key = ev.api_key;
    api_token = ev.api_token;
    api_tenant_id = ev.api_tenant_id;
    dataset = ev.dataset;
    environment = ev.environment;
    timestamp = ev.timestamp;
    span_events = ev.span_events;
    trace_id = trace_id;
  };
  sample_rate = ev.sample_rate;
  values = ev.values;
  data_size = 0;
  arrival_time = 0;
}

-- The interface `Sharder`.
pub record Sharder : Type 0 where
  pub my_shard : Shard
  pub which_shard : String → Shard

unfoldable pub shard_equals : Shard → Shard → Bool
unfolding equals
shard_equals (Shard.det d) o = equals d o
shard_equals (Shard.single s) o = true

unfoldable pub shard_address : Shard → String
unfolding get_address
shard_address (Shard.det d) = get_address d
shard_address (Shard.single s) = ""

-- A buffered channel of spans.
pub record Queue : Type 0 where
  pub items : List Span
  pub capacity : ℕ

-- the channels that `Start` makes
unfoldable pub new_queue : ℕ → Queue
new_queue cache_capacity = record { items = []; capacity = cache_capacity * 3 }

-- `add` without `BlockOnAddSpan`, which no code of the program sets; none is `ErrWouldBlock`. The
-- test is the rule of Go for a `select` that sends to a buffered channel, with a default; what is
-- done without room is the code's.
unfoldable pub add : Span → Queue → Option Queue
add sp q = elim (ltb (length q.items) q.capacity) [
  | true ↦ some (record q { items = q.items ++ sp ∷ [] })
  | false ↦ none
]

-- `incomingOrPeer`: which of the two servers a router is
pub data Side : Type 0 where
  incoming peer : Side

unfoldable pub side_name : Side → String
side_name Side.incoming = "incoming"
side_name Side.peer = "peer"

unfoldable pub same_side : Side → Side → Bool
same_side Side.incoming Side.incoming = true
same_side Side.peer Side.peer = true
same_side _ _ = false

-- What the routers write to: the events handed to `UpstreamTransmission` and to `PeerTransmission`,
-- in order, the channels of the collector, and the names given to `Metrics.Increment`.
pub record Outlets : Type 0 where
  pub upstream : List Event
  pub to_peers : List Event
  pub incoming : Queue
  pub from_peer : Queue
  pub incremented : List String

unfoldable pub text_of : Value → String
text_of (Value.text s) = s
text_of _ = ""

-- the trace ID of an event, empty if it has none
unfoldable pub trace_id_of : List (String × Value) → String
unfolding text_of
trace_id_of values = elim (lookup "traceTraceID" values) [
  | some v ↦ text_of v
  | none ↦ elim (lookup "traceId" values) [ some v ↦ text_of v | none ↦ "" ]
]

unfoldable pub count : Side → String → Outlets → Outlets
unfolding side_name
count side name o = record o { incremented = o.incremented ++ join (side_name side) name ∷ [] }

unfoldable pub send_upstream : Side → Event → Outlets → Outlets
unfolding count
send_upstream side ev o =
    let counted = count side "_router_nonspan" o in
    record counted { upstream = counted.upstream ++ ev ∷ [] }

unfoldable pub send_to_peer : Side → Shard → Event → Outlets → Outlets
unfolding count shard_address
send_to_peer side target ev o =
    let counted = count side "_router_peer" o in
    record counted {
      to_peers = counted.to_peers ++ record ev { api_host = shard_address target } ∷ [];
    }

-- `AddSpan` or `AddSpanFromPeer`
unfoldable pub add_on : Side → Span → Outlets → Option Outlets
unfolding add
add_on Side.incoming sp o = elim (add sp o.incoming) [
  | some q ↦ some (record o { incoming = q })
  | none ↦ none
]
add_on Side.peer sp o = elim (add sp o.from_peer) [
  | some q ↦ some (record o { from_peer = q })
  | none ↦ none
]

-- what a call answers
pub data Answer : Type 0 where
  accepted : Answer
  err_would_block : Answer

unfoldable pub collect_span : Side → Span → Outlets → Answer × Outlets
unfolding add_on count
collect_span side sp o = elim (add_on side sp o) [
  | some o' ↦ (accepted, count side "_router_span" o')
  | none ↦ (err_would_block, count side "_router_dropped" o)
]

-- whether the span goes on to a peer
unfoldable pub is_for_peer : Sharder → Side → String → Bool
unfolding same_side shard_equals
is_for_peer sharder side trace_id =
    same_side side Side.incoming
    && not (shard_equals (sharder.which_shard trace_id) sharder.my_shard)

unfoldable pub process_event : Sharder → Side → Event → Outlets → Answer × Outlets
unfolding trace_id_of send_upstream send_to_peer collect_span is_for_peer same_text
process_event sharder side ev o =
    let trace_id = trace_id_of ev.values in
    if same_text trace_id ""
    then (accepted, send_upstream side ev o)
    else if is_for_peer sharder side trace_id
    then (accepted, send_to_peer side (sharder.which_shard trace_id) ev o)
    else collect_span side (to_span ev trace_id) o
