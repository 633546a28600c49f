-- ===== src/Convert/Translate/Request.antt =====
-- `TranslateTraceRequest` of pkg/convert/traces.go: its loops over resources, scopes and spans.
use tracing_proxy.Base.{String, List, [], ◌∷◌, ◌++◌, map, Option, none, some, Bool, if◌then◌else◌}
use tracing_proxy.Base.Int.{ℤ}
use tracing_proxy.Base.Dict.{insert}
use tracing_proxy.Types.{Value}
use tracing_proxy.Base.Fallible.{◌>>=◌}
use tracing_proxy.Convert.Values.{mapped, Attribute, add_attributes_to_map}
use tracing_proxy.Convert.Classification.{
  Classification, KeyValue, classify_resource, classify_scope,
}
use tracing_proxy.Convert.SampleRate.{get_sample_rate}
use tracing_proxy.Convert.Messages.{
  OtlpSpan, Scope, ScopeSpans, ResourceSpans, Translated, Batch, Tools, to_int64,
}
use tracing_proxy.Convert.Status.{span_status}
use tracing_proxy.Convert.Translate.{
  ValueMap, to_fields, put_all, normalize_service, normalize_instance, to_key_value, put_instance,
  get_resource_attributes, get_scope_attributes, event_attributes, own_attributes, translate_events,
  EventLoop,
}

-- What the spans of a resource share.
abbrev pub Shared : Type 0
Shared = ValueMap × ValueMap × Bool

unfoldable pub scope_key_values : Option Scope → Option (List KeyValue)
unfolding to_key_value
scope_key_values none = none
scope_key_values (some scope) = some (map to_key_value scope.attributes)

unfoldable pub resource_key_values : Option (List Attribute) → Option (List KeyValue)
unfolding to_key_value
resource_key_values none = none
resource_key_values (some attrs) = some (map to_key_value attrs)

module _ (tools : Tools) where
  open tools use {encoder, normal, parse_int32, unix, size}

  -- the map of the resource, with the additional attributes
  unfoldable pub resource_attributes : ValueMap → Option (List Attribute) → Option ValueMap
  unfolding put_all add_attributes_to_map
  resource_attributes additional none = some (put_all additional [])
  resource_attributes additional (some attrs) =
      add_attributes_to_map encoder attrs (put_all additional [])

  -- the attributes of the span, then the events; the map of the resource and whether its instance
  -- is unknown
  unfoldable pub span_loop :
      Bool → ValueMap → Bool → ValueMap → Option Classification → OtlpSpan → Bool → Option EventLoop
  unfolding own_attributes put_instance put_all translate_events
  span_loop send_events resource_map unknown_instance scope_attrs known span error =
      own_attributes tools known span.attributes error >>= λ own.
      translate_events tools resource_map span (if send_events then span.events else []) (record {
        event_attributes = [];
        span_attributes = put_all scope_attrs (put_instance unknown_instance own);
        span_events = [];
      })

  -- the four entries that are written last
  unfoldable pub put_last : ValueMap → OtlpSpan → EventLoop → ValueMap → ValueMap
  unfolding insert to_fields to_int64
  put_last resource_map span l m =
      insert "time" (Value.int64 (to_int64 span.start_time_unix_nano)) (
        insert "eventAttributes" (Value.object (to_fields l.event_attributes)) (
          insert "spanAttributes" (Value.object (to_fields l.span_attributes))
            (insert "resourceAttributes" (Value.object (to_fields resource_map)) m)))

  unfoldable pub finish_span : ValueMap → OtlpSpan → ℤ × ValueMap → EventLoop → Translated
  unfolding put_last to_int64
  finish_span resource_map span (rate, m) l = record {
    attributes = put_last resource_map span l m;
    timestamp = unix (to_int64 span.start_time_unix_nano);
    sample_rate = rate;
    span_events = l.span_events;
  }

  -- `shared` is the map of `getResourceAttributes`, the map of the resource, and whether its
  -- instance is unknown.
  unfoldable pub translate_span :
      Bool → Shared → ValueMap → Option Classification → OtlpSpan → Option Translated
  unfolding span_status event_attributes get_sample_rate span_loop finish_span
  translate_span send_events (resource_attrs, resource_map, unknown_instance) scope_attrs known
        span =
      let status = span_status tools span.attributes in
      mapped
        (finish_span resource_map span (
          get_sample_rate parse_int32
            (event_attributes tools resource_attrs scope_attrs span status)))
        (span_loop send_events resource_map unknown_instance scope_attrs known span status.1)

  unfoldable pub translate_spans :
      Bool → Shared → ValueMap → Option Classification → List OtlpSpan → Option (List Translated)
  unfolding translate_span
  translate_spans send_events shared scope_attrs known [] = some []
  translate_spans send_events shared scope_attrs known (span ∷ spans) =
      translate_span send_events shared scope_attrs known span >>= λ ev.
      translate_spans send_events shared scope_attrs known spans >>= λ evs. some (ev ∷ evs)

  unfoldable pub translate_scopes :
      Bool → Shared → Option Classification → List ScopeSpans → Option (List Translated)
  unfolding translate_spans get_scope_attributes classify_scope scope_key_values
  translate_scopes send_events shared known [] = some []
  translate_scopes send_events shared known (s ∷ rest) =
      get_scope_attributes tools s.scope >>= λ scope_attrs.
      translate_spans send_events shared scope_attrs
        (classify_scope normal known (scope_key_values s.scope)) s.spans
      >>= λ evs. translate_scopes send_events shared known rest >>= λ more. some (evs ++ more)

  unfoldable pub translate_resource : String → ValueMap → Bool → ResourceSpans → Option Batch
  unfolding translate_scopes get_resource_attributes resource_attributes normalize_service
      normalize_instance classify_resource resource_key_values
  translate_resource dataset additional send_events rs =
      get_resource_attributes tools rs.resource >>= λ resource_attrs.
      resource_attributes additional rs.resource >>= λ m.
      let (resource_map, unknown_instance) = normalize_instance (normalize_service m) in
      translate_scopes send_events (resource_attrs, resource_map, unknown_instance)
        (classify_resource normal (resource_key_values rs.resource)) rs.scope_spans
      >>= λ evs. some (record { dataset = dataset; size_bytes = size rs; events = evs })

  -- The data set is that of the request: `hasLegacyKey` is always true.
  unfoldable pub translate_trace_request :
      String → ValueMap → Bool → List ResourceSpans → Option (List Batch)
  unfolding translate_resource
  translate_trace_request dataset additional send_events [] = some []
  translate_trace_request dataset additional send_events (rs ∷ rest) =
      translate_resource dataset additional send_events rs >>= λ b.
      translate_trace_request dataset additional send_events rest >>= λ bs. some (b ∷ bs)
