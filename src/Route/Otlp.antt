-- ===== src/Route/Otlp.antt =====
-- The gRPC and OTLP handlers of route/otlp_trace.go: `processTraceRequest` for what clients send,
-- and `ExportTraceProxy` and `ExportLogTraceProxy` for what peers send. Decoded messages are
-- parameters, as are the getters of the configuration. A panic is none.
pub mod Batches
pub mod Export
use tracing_proxy.Base.{
  ℕ, Result, String, List, [], ◌∷◌, ◌++◌, Option, none, some, Bool, true, false, if◌then◌else◌,
  same_text,
}
use tracing_proxy.Base.Int.{ℤ}
use tracing_proxy.Base.Dict.{insert}
use tracing_proxy.Base.Fallible.{◌>>=◌}
use tracing_proxy.Types.{Value, Fields, SpanEvent}
use tracing_proxy.Convert.Messages.{Translated}
use tracing_proxy.Sample.Rules.{to_uint}
use tracing_proxy.Route.{Event, Sharder, Side, Outlets, process_event, count}

unfoldable pub translated_event : String → String → String → String → Translated → Event
translated_event api_host token tenant_id dataset ev = record {
  api_host = api_host;
  api_key = "";
  api_token = token;
  api_tenant_id = tenant_id;
  dataset = dataset;
  environment = dataset;
  sample_rate = to_uint ev.sample_rate;
  timestamp = ev.timestamp;
  values = ev.attributes;
  span_events = ev.span_events;
}

-- A value of the peers' protocol, with what the code prints of it.
pub data AnyValue : Type 0 where
  string_value : String → AnyValue
  bool_value : Bool → AnyValue
  int_value : ℤ → AnyValue
  double_value : ℕ → AnyValue
  other_value : AnyValue

-- the value of an attribute of a span event; none is a missing value
unfoldable pub any_value : Option AnyValue → Value
any_value none = Value.text ""
any_value (some (string_value s)) = Value.text s
any_value (some (bool_value b)) = Value.bool b
any_value (some (int_value n)) = Value.int64 n
any_value (some (double_value x)) = Value.float64 x
any_value (some other_value) = Value.text ""

-- the loop of `ConvertKeyValueSliceToMap`, with its map so far
unfoldable pub add_key_values :
    List (String × Value) → List (String × Option AnyValue) → List (String × Value)
unfolding insert any_value
add_key_values m [] = m
add_key_values m ((key, value) ∷ rest) = add_key_values (insert key (any_value value) m) rest

unfoldable pub convert_key_value_slice_to_map :
    List (String × Option AnyValue) → List (String × Value)
unfolding add_key_values
convert_key_value_slice_to_map = add_key_values []

-- the data of an item from a peer; none is an error
pub record ProxyData : Type 0 where
  -- the fields, by way of JSON
  pub values : Option (List (String × Value))
  -- the attributes, each printed by `extractKeyValue`
  pub resource_attributes : Fields
  pub span_attributes : Fields
  pub event_attributes : Fields
  pub start_time : ℕ
  pub end_time : ℕ
  pub span_events : List SpanEvent

-- an item from a peer, as the decoder and `time.Parse` give it; the peer may leave out its data
pub record ProxyItem : Type 0 where
  pub timestamp : Option ℕ
  pub contents : Option ProxyData

-- what the configuration answers; the errors of the last two are ignored
pub record Answers : Type 0 where
  pub get_opsramp_api : Result String String
  pub get_dataset : Result String String
  pub get_tenant_id : Result String String

unfoldable pub or_empty : Result String String → String
or_empty (Result.ok s) = s
or_empty (Result.err e) = ""

unfoldable pub proxy_values : ProxyData → List (String × Value) → List (String × Value)
unfolding insert
proxy_values item m = insert "endTime" (Value.uint item.end_time) (
    insert "startTime" (Value.uint item.start_time) (
      insert "eventAttributes" (Value.object item.event_attributes) (
        insert "spanAttributes" (Value.object item.span_attributes)
          (insert "resourceAttributes" (Value.object item.resource_attributes) m))))

-- The fields that the code does not set are zero, the sample rate among them. `keeps` is whether the
-- handler sets the span events.
unfoldable pub proxy_event :
    Bool → String → String → String → ProxyData → ℕ → List (String × Value) → Event
unfolding proxy_values
proxy_event keeps api_host tenant_id dataset item timestamp m = record {
  api_host = api_host;
  api_key = "";
  api_token = "";
  api_tenant_id = tenant_id;
  dataset = dataset;
  environment = "";
  sample_rate = 0;
  timestamp = timestamp;
  values = proxy_values item m;
  span_events = if keeps then item.span_events else [];
}

-- the answer of the handlers for peers: the message and the status
abbrev pub PeerReply : Type 0
PeerReply = String × String

module _ (sharder : Sharder) (side : Side) (A : Answers) where
  -- `processEvent`, whose error is only logged
  unfoldable pub process_or_log : Event → Outlets → Outlets
  unfolding process_event
  process_or_log ev o = (process_event sharder side ev o).1

  -- the events of a batch
  unfoldable pub process_translated :
      String → String → String → String → List Translated → Outlets → Outlets
  unfolding process_or_log translated_event
  process_translated api_host token tenant_id dataset [] o = o
  process_translated api_host token tenant_id dataset (ev ∷ evs) o =
      process_translated api_host token tenant_id dataset evs
        (process_or_log (translated_event api_host token tenant_id dataset ev) o)

  unfoldable pub process_batches :
      String → String → String → String → List (List Translated) → Outlets → Outlets
  unfolding process_translated
  process_batches api_host token tenant_id dataset [] o = o
  process_batches api_host token tenant_id dataset (batch ∷ batches) o =
      process_batches api_host token tenant_id dataset batches
        (process_translated api_host token tenant_id dataset batch o)

  unfoldable pub process_trace_request :
      List (List Translated) → String → String → Outlets → Result String (Unit {0}) × Outlets
  unfolding process_batches
  process_trace_request batches token tenant_id o = elim A.get_opsramp_api [
    | Result.err e ↦ (Result.err e, o)
    | Result.ok host ↦ elim A.get_dataset [
      | Result.err e ↦ (Result.err e, o)
      | Result.ok dataset ↦ (Result.ok tt, process_batches host token tenant_id dataset batches o)
    ]
  ]

  -- an item from a peer; what cannot be read is left out. Without data, `json.Marshal` writes null,
  -- which is read as a nil map without an error, and then the data are used: a panic.
  unfoldable pub process_item : Bool → String → ProxyItem → Outlets → Option Outlets
  unfolding process_or_log proxy_event or_empty
  process_item keeps api_host item o = elim item.timestamp [
    | none ↦ some o
    | some timestamp ↦ elim item.contents [
      | none ↦ none
      | some d ↦ elim d.values [
        | none ↦ some o
        | some m ↦ some (
            process_or_log
              (proxy_event keeps api_host (or_empty A.get_tenant_id) (or_empty A.get_dataset) d
                timestamp m)
              o)
      ]
    ]
  ]

  unfoldable pub process_items : Bool → String → List ProxyItem → Outlets → Option Outlets
  unfolding process_item
  process_items keeps api_host [] o = some o
  process_items keeps api_host (item ∷ items) o =
      process_item keeps api_host item o >>= process_items keeps api_host items

  -- `ExportLogTraceProxy` with the span events, and `ExportTraceProxy` without
  unfoldable pub export_from_peer : Bool → List ProxyItem → Outlets → Option (PeerReply × Outlets)
  unfolding process_items count
  export_from_peer keeps items o =
      let counted = count side "_router_batch" o in
      elim A.get_opsramp_api [
        | Result.err e ↦ some (("Failed to get apihost", "Failed"), counted)
        | Result.ok host ↦ process_items keeps host items counted >>= λ o'.
            some (("Received Successfully by peer", "Success"), o')
      ]
