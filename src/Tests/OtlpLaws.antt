-- ===== src/Tests/OtlpLaws.antt =====
-- The theorems on the translation of OTLP requests at concrete inputs: a request of one resource
-- with two spans, an attribute that holds a key without a value, and a span of a web server.
use tracing_proxy.Base.{
  ◌≡◌, ◌≢◌, refl, ◌↔◌, ◌⊎◌, String, List, [], ◌∷◌, none, some, true, false, filter, same_text,
  same_text_iff, text_discrete,
}
use tracing_proxy.Base.Int.{pos}
use tracing_proxy.Convert.Values.{AnyValue, Attribute, Members, write_all, new_limited_writer}
use tracing_proxy.Convert.Values.Writer.{write_all-new_limited_writer}
use tracing_proxy.Convert.Messages.{OtlpSpan, SpanKind, ResourceSpans, Batch, Tools}
use tracing_proxy.Convert.Status.{span_status, span_status-filter, is_error, first_error}
use tracing_proxy.Convert.Translate.Request.{translate_trace_request}
use tracing_proxy.Convert.Translate.Ids.{translate_trace_request-ids, batch_ids, request_ids}
use tracing_proxy.Convert.Classification.{web_transaction}
use tracing_proxy.Convert.Classification.Covers.{HasWebKey, HasWebKey?}
use tracing_proxy.Convert.Translate.{own_attributes, ValueMap, to_key_value}
use tracing_proxy.Convert.Translate.Request.{resource_key_values, scope_key_values}
use tracing_proxy.Convert.Translate.Web.{known_of, transaction_type_iff}
use tracing_proxy.Base.Dict.{lookup}
use tracing_proxy.Types.{Value}
use tracing_proxy.Base.{map, Option, ◌⊎◌}
use tracing_proxy.Convert.Translate.Panics.{translate_trace_request_iff, ResourceBreaks}

abbrev tools : Tools
tools = record {
  encoder = record { encode = λ m. some ((1 ∷ []) ∷ []); to_text = λ bs. "id" };
  normal = λ s. s;
  shows_int = λ v. true;
  parse_int = λ s. pos 0;
  parse_int32 = λ s. none;
  millis = λ n. n;
  unix = λ n. 0;
  size = λ rs. 0;
}

abbrev statuses : List Attribute
statuses =
    ("http.status_code", some (AnyValue.int_value (pos 200)))
    ∷ ("rpc.grpc.status_code", some (AnyValue.int_value (pos 5)))
    ∷ []

abbrev span_of : List Attribute → OtlpSpan
span_of attrs = record {
  trace_id = 1 ∷ 2 ∷ [];
  span_id = 3 ∷ [];
  parent_span_id = none;
  name = "GET";
  kind = SpanKind.server;
  start_time_unix_nano = 5;
  end_time_unix_nano = 9;
  attributes = attrs;
  events = [];
  num_links = 0;
  status_message = none;
}

abbrev request_of : List Attribute → List ResourceSpans
request_of attrs =
    record {
      resource = some (("service.name", some (AnyValue.string_value "shop")) ∷ []);
      scope_spans = record { scope = none; spans = span_of attrs ∷ span_of [] ∷ [] } ∷ [];
    }
    ∷ []

span_status-filter_example :
    span_status tools statuses ≡ first_error tools (filter (is_error tools) statuses)
span_status-filter_example = span_status-filter tools statuses

write_all-new_limited_writer_example :
    let l = write_all (new_limited_writer 3) ((1 ∷ 2 ∷ []) ∷ (3 ∷ 4 ∷ []) ∷ []) in
    (l.w ≡ 1 ∷ 2 ∷ 3 ∷ []) × (l.truncated_bytes ≡ 1)
write_all-new_limited_writer_example =
    write_all-new_limited_writer 3 ((1 ∷ 2 ∷ []) ∷ (3 ∷ 4 ∷ []) ∷ [])

abbrev empty_pair : List Attribute
empty_pair = ("a", some (AnyValue.kvlist_value (Members.missing "b" Members.no_members))) ∷ []

translate_trace_request_iff_example :
    (translate_trace_request tools "shop" [] true (request_of empty_pair) ≡ none) ↔ (
      ResourceBreaks true (record {
        resource = some (("service.name", some (AnyValue.string_value "shop")) ∷ []);
        scope_spans = record { scope = none; spans = span_of empty_pair ∷ span_of [] ∷ [] } ∷ [];
      })
      ⊎ ⊥)
translate_trace_request_iff_example =
    translate_trace_request_iff tools "shop" [] true (request_of empty_pair)

other_key : ◌≢◌ {A = String} "service.name" "traceTraceID"
unfolding same_text
other_key e =
    let differ : false ≡ true = (same_text_iff "service.name" "traceTraceID").1 e in
    absurd (cc differ)

translated :
    (bs : List Batch) × (translate_trace_request tools "shop" [] true (request_of statuses)
      ≡ some bs)
unfolding translate_trace_request text_discrete
translated = (_, refl)

translate_trace_request-ids_example :
    batch_ids translated.0 ≡ request_ids tools (request_of statuses)
translate_trace_request-ids_example =
    translate_trace_request-ids tools "shop" [] true (request_of statuses) translated.0
      (((other_key, tt), (tt, tt)), tt) translated.1

abbrev database : Option (List Attribute)
database = some (("db.system", some (AnyValue.string_value "mysql")) ∷ [])

abbrev served : List Attribute
served = ("http.request.method", some (AnyValue.string_value "GET")) ∷ []

owned : (m : ValueMap) × (own_attributes tools (known_of tools database none) served true ≡ some m)
unfolding own_attributes
owned = (_, refl)

transaction_type_iff_example :
    (lookup "transaction.type" owned.0 ≡ some (Value.text web_transaction)) ↔ (
      (served ≢ [])
      × (HasWebKey? (λ s. s) (resource_key_values database)
          ⊎ HasWebKey? (λ s. s) (scope_key_values none)
          ⊎ HasWebKey (λ s. s) (map to_key_value served)))
transaction_type_iff_example = transaction_type_iff tools database none served true owned.0 owned.1
