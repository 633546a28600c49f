-- ===== src/Collect/Observe.antt =====
-- The loop of `send` of collect/collect.go over the spans of a trace: their labelled metrics, as
-- the calls of the type `Metrics`, of which there are none if the loop panics. A span's `Data` is
-- a map that has been made, and the clock is read once for a span.
pub mod Panics
pub mod Balance
pub mod Registers
use tracing_proxy.Base.{
  ℕ, String, List, [], ◌∷◌, ◌++◌, Option, none, some, Bool, true, false, not, ◌&&◌, ◌||◌, same_text,
  if◌then◌else◌,
}
use tracing_proxy.Base.Dict.{lookup, insert}
use tracing_proxy.Base.Fallible.{◌>>=◌}
use tracing_proxy.Types.{Value, Fields, Span}
use tracing_proxy.Metrics.{LabelMap}
use tracing_proxy.Metrics.Creates.{Op, gauges_with, sums_with, increments_with, records_with}
use tracing_proxy.Metrics.Labels.{Numbers, convert_numeric, get_field, extract_labels_from_span}
use tracing_proxy.Collect.State.{is_nil, is_root_span}

abbrev pub label_to_key_map : List (String × List String)
label_to_key_map =
    ("service_name", "service_name" ∷ [])
    ∷ ("operation", "spanName" ∷ [])
    ∷ ("app", "app" ∷ [])
    ∷ ("instance", "instance" ∷ [])
    ∷ ("transaction_type", "transaction.type" ∷ [])
    ∷ ("transaction_category", "transaction.category" ∷ [])
    ∷ ("transaction_sub_category", "transaction.sub_category" ∷ [])
    ∷ ("language", "language" ∷ [])
    ∷ []

-- Numbers, `fmt.Sprintf("%v", …)` of a value that is neither nil nor text, and that of
-- `4 * Threshold`.
pub record Printer : Type 0 where
  pub numbers : Numbers
  pub sprint : Value → String
  pub apdex_threshold : String

unfoldable pub label_or_empty : Option String → String
label_or_empty (some s) = s
label_or_empty none = ""

unfoldable pub or_unknown : String → String
unfolding same_text
or_unknown s = if same_text s "" then "unknown" else s

unfoldable pub is_unknown : String → Bool
unfolding same_text
is_unknown s = same_text s "unknown"

-- `ok && errorStatus != nil && errorStatus.(bool)`, which panics for a value of another type
unfoldable pub error_status : Option Value → Option Bool
error_status none = some false
error_status (some Value.null) = some false
error_status (some (Value.bool b)) = some b
error_status (some _) = none

module _ (printer : Printer) where
  open printer use {numbers, sprint, apdex_threshold}

  unfoldable pub get_string_value : Option Value → String
  get_string_value none = ""
  get_string_value (some Value.null) = ""
  get_string_value (some (Value.text s)) = s
  get_string_value (some v) = sprint v

  -- the first of two keys that has a value that is not empty, or "unknown"
  unfoldable pub either_key : String → String → Fields → String
  unfolding get_string_value get_field or_unknown same_text
  either_key first second sa =
      let s = get_string_value (get_field first sa) in
      if same_text s "" then or_unknown (get_string_value (get_field second sa)) else s

  -- for a method and a status
  unfoldable pub count_http : LabelMap → String → String → ℕ → List Op
  unfolding is_unknown insert
  count_http labels method status now =
      if not (is_unknown method) || not (is_unknown status)
      then sums_with "trace_response_http_status"
          (insert "status_code" status (insert "method" method labels)) numbers.one now
        ∷ []
      else []

  unfoldable pub observe_http : LabelMap → Fields → ℕ → List Op
  unfolding either_key count_http
  observe_http labels sa now =
      count_http labels (either_key "http.request.method" "http.method" sa)
        (either_key "http.response.status_code" "http.status_code" sa) now

  unfoldable pub count_grpc : LabelMap → String → ℕ → List Op
  unfolding is_unknown insert
  count_grpc labels status now =
      if is_unknown status
      then []
      else sums_with "trace_response_grpc_status" (insert "status_code" status labels) numbers.one
          now
        ∷ []

  unfoldable pub observe_grpc : LabelMap → Fields → ℕ → List Op
  unfolding get_string_value get_field or_unknown count_grpc
  observe_grpc labels sa now =
      count_grpc labels (or_unknown (get_string_value (get_field "rpc.grpc.status_code" sa))) now

  unfoldable pub observe_web : LabelMap → Option Value → ℕ → List Op
  unfolding observe_http observe_grpc
  observe_web labels (some (Value.object sa)) now =
      observe_http labels sa now ++ observe_grpc labels sa now
  observe_web labels _ now = []

  unfoldable pub observe_status : LabelMap → List (String × Value) → ℕ → List Op
  unfolding observe_web lookup label_or_empty same_text
  observe_status labels values now =
      if same_text (label_or_empty (lookup "transaction_type" labels)) "web"
      then observe_web labels (lookup "spanAttributes" values) now
      else []

  unfoldable pub latency : List (String × Value) → ℕ
  unfolding convert_numeric lookup
  latency values = numbers.in_millis (
      numbers.minus (convert_numeric numbers (lookup "endTime" values))
        (convert_numeric numbers (lookup "startTime" values)))

  unfoldable pub apdex_labels : Bool → LabelMap → LabelMap
  unfolding insert
  apdex_labels error labels =
      insert "error" (if error then "true" else "false")
        (insert "apdex_threshold" apdex_threshold labels)

  unfoldable pub observe_duration : LabelMap → List (String × Value) → ℕ → Option (List Op)
  unfolding is_nil lookup convert_numeric latency error_status apdex_labels
  observe_duration labels values now = elim (is_nil (lookup "durationMs" values)) [
    | true ↦ some []
    | false ↦ error_status (lookup "error" values) >>= λ error. some (
        gauges_with "trace_operations_latency_ms" labels
          (convert_numeric numbers (lookup "durationMs" values)) now
        ∷ records_with "trace_operations_latency" labels (latency values) now
        ∷ records_with "trace_apdex_latency" (apdex_labels error labels) (latency values) now
        ∷ [])
  ]

  unfoldable pub observe_root : LabelMap → Span → ℕ → List Op
  unfolding is_root_span lookup convert_numeric latency
  observe_root labels sp now =
      if is_root_span sp
      then records_with "trace_root_operation_latency" labels (latency sp.values) now
        ∷ gauges_with "trace_root_operation_latency_ms" labels
            (convert_numeric numbers (lookup "durationMs" sp.values)) now
        ∷ increments_with "trace_root_span" labels now
        ∷ []
      else []

  unfoldable pub observe_outcome : LabelMap → Bool → Bool → ℕ → List Op
  observe_outcome labels root true now =
      increments_with "trace_operations_failed" labels now
      ∷ sums_with "trace_operations_succeeded" labels numbers.zero now
      ∷ increments_with "trace_operations_total" labels now
      ∷ (if root then increments_with "trace_root_operations_failed" labels now ∷ [] else [])
  observe_outcome labels root false now =
      increments_with "trace_operations_succeeded" labels now
      ∷ sums_with "trace_operations_failed" labels numbers.zero now
      ∷ increments_with "trace_operations_total" labels now
      ∷ []

  unfoldable pub observe_span : Span → ℕ → Option (List Op)
  unfolding extract_labels_from_span observe_status observe_duration observe_root error_status
      observe_outcome is_root_span lookup
  observe_span sp now = extract_labels_from_span label_to_key_map sp.values >>= λ labels.
      observe_duration labels sp.values now >>= λ timed.
      error_status (lookup "error" sp.values) >>= λ error. some (
        observe_status labels sp.values now
        ++ timed
        ++ observe_root labels sp now
        ++ increments_with "trace_spans_count" labels now
          ∷ observe_outcome labels (is_root_span sp) error now)

  -- What the loop reads, and the calls that it makes; the panics of these are in `write_spans`.
  unfoldable pub observe_spans : List Span → ℕ → Option (List Op)
  unfolding observe_span
  observe_spans [] now = some []
  observe_spans (sp ∷ sps) now =
      observe_span sp now >>= λ ops. observe_spans sps now >>= λ more. some (ops ++ more)
