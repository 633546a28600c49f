-- ===== src/Convert/Translate.antt =====
-- `TranslateTraceRequest` of pkg/convert/traces.go: the maps of a span and of its events. The maps of Go are association lists; a map that
-- the code changes through two names is written once, with what it holds in the end.
pub mod Request
pub mod Keeps
pub mod SpanId
pub mod Web
pub mod Ids
pub mod Panics
use tracing_proxy.Base.{
  ℕ, ◌+◌, ◌-◌, ◌%◌, ◌^◌, String, List, [], ◌∷◌, ◌++◌, map, Option, none, some, Bool, true, false,
  length, if◌then◌else◌, same_text,
}
use tracing_proxy.Base.Int.{ℤ, pos}
use tracing_proxy.Base.Dict.{lookup, insert, delete}
use tracing_proxy.Types.{Value, Fields, SpanEvent}
use tracing_proxy.Convert.TraceId.{bytes_to_trace_id, hex_encode}
use tracing_proxy.Base.Fallible.{◌>>=◌}
use tracing_proxy.Convert.Values.{Attribute, add_attributes_to_map}
use tracing_proxy.Convert.Classification.{
  Classification, KeyValue, classify_resource, classify_scope, normalize_classification, unknown,
}
use tracing_proxy.Convert.SampleRate.{get_sample_rate}
use tracing_proxy.Convert.Messages.{
  OtlpEvent, OtlpSpan, Scope, ScopeSpans, ResourceSpans, Translated, Batch, Tools, to_int64,
  get_span_kind,
}
use tracing_proxy.Convert.Status.{span_status, get_string_value}

abbrev pub ValueMap : Type 0
ValueMap = List (String × Value)

unfoldable pub to_fields : ValueMap → Fields
to_fields [] = Fields.end
to_fields ((k, v) ∷ m) = Fields.field k v (to_fields m)

-- the loop that copies one map into another
unfoldable pub put_all : ValueMap → ValueMap → ValueMap
unfolding insert
put_all [] m = m
put_all ((k, v) ∷ from) m = put_all from (insert k v m)

-- the loop over `possibleServiceNames` or `possibleInstanceNames`
unfoldable pub first_key : List String → ValueMap → Option (String × Value)
unfolding lookup
first_key [] m = none
first_key (key ∷ keys) m = elim (lookup key m) [ some v ↦ some (key, v) | none ↦ first_key keys m ]

abbrev pub possible_service_names : List String
possible_service_names = "service_name" ∷ "service.name" ∷ []

abbrev pub possible_instance_names : List String
possible_instance_names = "instance" ∷ "k8s.pod.name" ∷ "host.name" ∷ []

unfoldable pub normalize_service : ValueMap → ValueMap
unfolding first_key insert delete
normalize_service m = elim (first_key possible_service_names m) [
  | some (key, v) ↦ insert "service_name" v (delete key m)
  | none ↦ insert "service_name" (Value.text unknown) m
]

-- the map, and whether the instance is unknown
unfoldable pub normalize_instance : ValueMap → ValueMap × Bool
unfolding first_key insert
normalize_instance m = elim (first_key possible_instance_names m) [
  | some (key, v) ↦ (insert "instance" v m, false)
  | none ↦ (insert "instance" (Value.text unknown) m, true)
]

unfoldable pub or_null : Option Value → Value
or_null (some v) = v
or_null none = Value.null

unfoldable pub to_key_value : Attribute → KeyValue
unfolding get_string_value
to_key_value (key, v) = (key, get_string_value v)

-- the four entries of a classification
unfoldable pub put_classification : Classification → ValueMap → ValueMap
unfolding insert
put_classification c m = insert "language" (Value.text c.language) (
    insert "transaction.sub_category" (Value.text c.sub_category) (
      insert "transaction.category" (Value.text c.category)
        (insert "transaction.type" (Value.text c.type) m)))

unfoldable pub put_if_text : String → Option String → ValueMap → ValueMap
unfolding insert same_text
put_if_text key none m = m
put_if_text key (some s) m = if same_text s "" then m else insert key (Value.text s) m

unfoldable pub put_error : Bool → ValueMap → ValueMap
unfolding insert
put_error error m = if error then insert "error" (Value.bool true) m else m

-- the instance of the span, if that of the resource is unknown
unfoldable pub put_instance : Bool → ValueMap → ValueMap
unfolding normalize_instance
put_instance unknown_instance m = if unknown_instance then (normalize_instance m).0 else m

unfoldable pub fill_instance : ValueMap → ValueMap → ValueMap
unfolding lookup insert or_null
fill_instance resource_map m = elim (lookup "instance" m) [
  | some Value.null ↦ insert "instance" (or_null (lookup "instance" resource_map)) m
  | some v ↦ m
  | none ↦ insert "instance" (or_null (lookup "instance" resource_map)) m
]

-- what the loop over the events of a span changes
pub record EventLoop : Type 0 where
  pub event_attributes : ValueMap
  pub span_attributes : ValueMap
  pub span_events : List SpanEvent

module _ (tools : Tools) where
  open tools use {encoder, normal, parse_int32, millis, unix, size}
  open encoder use {to_text}

  unfoldable pub trace_id : OtlpSpan → String
  unfolding bytes_to_trace_id
  trace_id span = to_text (bytes_to_trace_id span.trace_id)

  unfoldable pub span_id : OtlpSpan → String
  unfolding hex_encode
  span_id span = to_text (hex_encode span.span_id)

  unfoldable pub get_resource_attributes : Option (List Attribute) → Option ValueMap
  unfolding add_attributes_to_map
  get_resource_attributes none = some []
  get_resource_attributes (some attrs) = add_attributes_to_map encoder attrs []

  unfoldable pub get_scope_attributes : Option Scope → Option ValueMap
  unfolding add_attributes_to_map put_if_text
  get_scope_attributes none = some []
  get_scope_attributes (some scope) = add_attributes_to_map encoder scope.attributes (
      put_if_text "library.version" (some scope.version)
        (put_if_text "library.name" (some scope.name) []))

  -- the map that the code begins with
  unfoldable pub base_attributes : OtlpSpan → ℤ → ValueMap
  unfolding trace_id span_id get_span_kind to_int64
  base_attributes span code =
      ("traceTraceID", Value.text (trace_id span))
      ∷ ("traceSpanID", Value.text (span_id span))
      ∷ ("type", Value.text (get_span_kind span.kind))
      ∷ ("spanKind", Value.text (get_span_kind span.kind))
      ∷ ("spanName", Value.text span.name)
      ∷ (
        "durationMs",
        Value.float64
            (millis ((span.end_time_unix_nano + 2 ^ 64 - span.start_time_unix_nano) % 2 ^ 64)),
      )
      ∷ ("startTime", Value.int64 (to_int64 span.start_time_unix_nano))
      ∷ ("endTime", Value.int64 (to_int64 span.end_time_unix_nano))
      ∷ ("statusCode", Value.int64 code)
      ∷ ("spanNumLinks", Value.int (pos span.num_links))
      ∷ ("spanNumEvents", Value.int (pos (length span.events)))
      ∷ ("meta.signal_type", Value.text "trace")
      ∷ []

  unfoldable pub put_parent : Option (List ℕ) → ValueMap → ValueMap
  unfolding insert hex_encode
  put_parent none m = m
  put_parent (some id) m = insert "traceParentID" (Value.text (to_text (hex_encode id))) m

  -- `eventAttrs` with the attributes of the resource and the scope
  unfoldable pub event_attributes : ValueMap → ValueMap → OtlpSpan → ℤ × Bool → ValueMap
  unfolding base_attributes put_parent put_error put_if_text put_all
  event_attributes resource_attrs scope_attrs span (code, error) = put_all scope_attrs (
      put_all resource_attrs (
        put_if_text "statusMessage" span.status_message
          (put_error error (put_parent span.parent_span_id (base_attributes span code)))))

  -- the attributes of the span itself, with its classification
  unfoldable pub own_attributes : Option Classification → List Attribute → Bool → Option ValueMap
  unfolding add_attributes_to_map put_classification put_error to_key_value normalize_classification
  own_attributes known [] error = some (put_error error [])
  own_attributes known (a ∷ rest) error =
      add_attributes_to_map encoder (a ∷ rest) (put_error error []) >>= λ m.
      some
        (put_classification (normalize_classification normal known (map to_key_value (a ∷ rest))) m)

  unfoldable pub span_event_attributes : ValueMap → ValueMap → OtlpSpan → ValueMap → ValueMap
  unfolding insert trace_id span_id or_null lookup
  span_event_attributes resource_map span_map span m =
      insert "trace_service" (or_null (lookup "service_name" resource_map)) (
        insert "trace_instance" (or_null (lookup "instance" span_map)) (
          insert "trace_operation" (Value.text span.name) (
            insert "spanId" (Value.text (span_id span))
              (insert "traceId" (Value.text (trace_id span)) m))))

  unfoldable pub translate_event : ValueMap → OtlpSpan → OtlpEvent → EventLoop → Option EventLoop
  unfolding add_attributes_to_map fill_instance span_event_attributes
  translate_event resource_map span e l =
      add_attributes_to_map encoder e.attributes l.event_attributes >>= λ all.
      add_attributes_to_map encoder e.attributes [] >>= λ own.
      let span_map = fill_instance resource_map l.span_attributes in
      some (record {
        event_attributes = all;
        span_attributes = span_map;
        span_events =
            l.span_events
            ++ record {
              attributes = span_event_attributes resource_map span_map span own;
              name = e.name;
              timestamp = e.time_unix_nano;
            }
              ∷ [];
      })

  unfoldable pub translate_events :
      ValueMap → OtlpSpan → List OtlpEvent → EventLoop → Option EventLoop
  unfolding translate_event
  translate_events resource_map span [] l = some l
  translate_events resource_map span (e ∷ es) l =
      translate_event resource_map span e l >>= λ l'. translate_events resource_map span es l'
