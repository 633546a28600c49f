-- ===== src/Collect/Observe/Registers/Fits.antt =====
-- That no write with labels of `send` of collect/collect.go panics, if all labels are set.
use tracing_proxy.Base.{
  if◌then◌else◌, ◌≡◌, refl, inl, inr, ℕ, String, List, [], ◌∷◌, ◌++◌, Option, none, some, map, true,
  Bool, false, Bool-cases, same_text, if-cases,
}
use tracing_proxy.Base.All.{All, IsPermutation}
use tracing_proxy.Base.Dict.{lookup}
use tracing_proxy.Metrics.{Library, LabelMap, Metrics}
use tracing_proxy.Metrics.Creates.{Op, increments_with}
use tracing_proxy.Collect.Observe.Registers.{operation_labels, perform_each, shape}
use tracing_proxy.Types.{Value, Span}
use tracing_proxy.Collect.State.{is_nil, is_root_span}
use tracing_proxy.Metrics.Labels.{get_field, extract_labels_from_span}
use tracing_proxy.Collect.Observe.{
  Printer, label_to_key_map, error_status, observe_http, observe_grpc, observe_web, observe_status,
  apdex_labels, observe_duration, observe_root, either_key, or_unknown, get_string_value,
  observe_outcome, observe_span, observe_spans,
}
use tracing_proxy.Base.Fallible.{AllSome, bind-AllSome}
use tracing_proxy.Collect.Observe.Registers.Goes.{perform_each-Goes}
use tracing_proxy.Collect.Observe.Registers.Holds.{
  TakesNames, IsComplete, registered, Fit, All-++, put_name, operations_latency_ms_Takes,
  operations_latency_Takes, apdex_latency_Takes, root_operation_latency_Takes,
  root_operation_latency_ms_Takes, root_span_Takes, spans_count_Takes, operations_failed_Takes,
  operations_succeeded_Takes, operations_total_Takes, root_operations_failed_Takes, http_Fit,
  grpc_Fit,
}

pub unit_of : {A : Type 0} (o : Option A) → AllSome (λ _. Unit) o
unit_of none = tt
unit_of (some a) = tt

-- The labels of the span, if they can be read, are all set.
abbrev pub IsLabelled : Span → Type 0
IsLabelled sp = AllSome IsComplete (extract_labels_from_span label_to_key_map sp.values)

module _ (lib : Library) (takes : TakesNames lib) (printer : Printer) where
  web_Fit :
      (labels : LabelMap) (v : Option Value) (now : ℕ)
      → IsComplete labels
      → Fit lib (observe_web printer labels v now)
  unfolding observe_web observe_http observe_grpc
  web_Fit labels none now c = tt
  web_Fit labels (some (Value.object sa)) now c =
      All-++ _ _ _
        (http_Fit lib takes printer labels
          (either_key printer "http.request.method" "http.method" sa)
          (either_key printer "http.response.status_code" "http.status_code" sa) now c)
        (grpc_Fit lib takes printer labels
          (or_unknown (get_string_value printer (get_field "rpc.grpc.status_code" sa))) now c)
  web_Fit labels (some Value.null) now c = tt
  web_Fit labels (some (Value.text s)) now c = tt
  web_Fit labels (some (Value.bool b)) now c = tt
  web_Fit labels (some (Value.int n)) now c = tt
  web_Fit labels (some (Value.int64 n)) now c = tt
  web_Fit labels (some (Value.uint n)) now c = tt
  web_Fit labels (some (Value.float64 x)) now c = tt
  web_Fit labels (some (Value.bytes b)) now c = tt

  status_Fit :
      (labels : LabelMap) (values : List (String × Value)) (now : ℕ)
      → IsComplete labels
      → Fit lib (observe_status printer labels values now)
  unfolding observe_status
  status_Fit labels values now c =
      if-cases (Fit lib) _ (observe_web printer labels (lookup "spanAttributes" values) now) []
        (web_Fit labels (lookup "spanAttributes" values) now c) tt

  apdex_names :
      (error : Bool) (labels : LabelMap)
      → IsComplete labels
      → IsPermutation
          (operation_labels ++ "apdex_threshold" ∷ "error" ∷ [])
          (map (λ kv. kv.0) (apdex_labels printer error labels))
  unfolding apdex_labels same_text
  apdex_names error labels c =
      let one = put_name "apdex_threshold" printer.apdex_threshold operation_labels labels refl c in
      put_name "error" (if error then "true" else "false")
        (operation_labels ++ "apdex_threshold" ∷ []) _ refl one

  duration_Fit :
      (labels : LabelMap) (values : List (String × Value)) (now : ℕ)
      → IsComplete labels
      → AllSome (Fit lib) (observe_duration printer labels values now)
  unfolding observe_duration
  duration_Fit labels values now c = elim (Bool-cases (is_nil (lookup "durationMs" values))) [
    | inl e ↦ rw (observe_duration, e) tt
    | inr e ↦
        rw (observe_duration, e)
          (bind-AllSome (λ _. Unit) (Fit lib) (error_status (lookup "error" values)) _
            (unit_of (error_status (lookup "error" values)))
            (λ error _. (
              operations_latency_ms_Takes lib takes labels c,
              (
                operations_latency_Takes lib takes labels c,
                (apdex_latency_Takes lib takes _ (apdex_names error labels c), tt),
              ),
            )))
  ]

  root_Fit :
      (labels : LabelMap) (sp : Span) (now : ℕ)
      → IsComplete labels
      → Fit lib (observe_root printer labels sp now)
  unfolding observe_root
  root_Fit labels sp now c =
      if-cases (Fit lib) (is_root_span sp) _ []
        (
          root_operation_latency_Takes lib takes labels c,
          (
            root_operation_latency_ms_Takes lib takes labels c,
            (root_span_Takes lib takes labels c, tt),
          ),
        )
        tt

  outcome_Fit :
      (labels : LabelMap) (root error : Bool) (now : ℕ)
      → IsComplete labels
      → Fit lib (
          increments_with "trace_spans_count" labels now
          ∷ observe_outcome printer labels root error now)
  unfolding observe_outcome
  outcome_Fit labels true true now c = (
    spans_count_Takes lib takes labels c,
    (
      operations_failed_Takes lib takes labels c,
      (
        operations_succeeded_Takes lib takes labels c,
        (
          operations_total_Takes lib takes labels c,
          (root_operations_failed_Takes lib takes labels c, tt),
        ),
      ),
    ),
  )
  outcome_Fit labels false true now c = (
    spans_count_Takes lib takes labels c,
    (
      operations_failed_Takes lib takes labels c,
      (
        operations_succeeded_Takes lib takes labels c,
        (operations_total_Takes lib takes labels c, tt),
      ),
    ),
  )
  outcome_Fit labels root false now c = (
    spans_count_Takes lib takes labels c,
    (
      operations_succeeded_Takes lib takes labels c,
      (operations_failed_Takes lib takes labels c, (operations_total_Takes lib takes labels c, tt)),
    ),
  )

  pub span_Fit :
      (sp : Span) (now : ℕ) → IsLabelled sp → AllSome (Fit lib) (observe_span printer sp now)
  unfolding observe_span
  span_Fit sp now l = bind-AllSome IsComplete (Fit lib) _ _ l (λ labels c.
      bind-AllSome (Fit lib) (Fit lib) _ _ (duration_Fit labels sp.values now c) (λ timed b.
        bind-AllSome (λ _. Unit) (Fit lib) (error_status (lookup "error" sp.values)) _ (unit_of _)
          (λ error _.
            All-++ _ _ _
              (All-++ _ _ _ (All-++ _ _ timed (status_Fit labels sp.values now c) b)
                (root_Fit labels sp now c))
              (outcome_Fit labels (is_root_span sp) error now c))))

  spans_Fit :
      (sps : List Span) (now : ℕ)
      → All IsLabelled sps
      → AllSome (Fit lib) (observe_spans printer sps now)
  unfolding observe_spans
  spans_Fit [] now h = tt
  spans_Fit (sp ∷ sps) now h = bind-AllSome (Fit lib) (Fit lib) _ _ (span_Fit sp now h.0) (λ ops b.
      bind-AllSome (Fit lib) (Fit lib) _ _ (spans_Fit sps now h.1)
        (λ more d. All-++ _ ops more b d))

  -- After the registrations of `Start`, where the Prometheus library takes every map of
  -- labels whose names are those of the vector in some order: if each of the eight labels of
  -- every span is set, and the loop of `send` over the spans answers its writes, then none of
  -- these writes panics.
  pub observe_spans-some :
      (sps : List Span) (now : ℕ) (ops : List Op)
      → All IsLabelled sps
      → observe_spans printer sps now ≡ some ops
      → (p : Metrics) × (perform_each lib ops (registered lib) ≡ some p)
  observe_spans-some sps now ops h e =
      perform_each-Goes lib (shape (registered lib)) ops (registered lib) (λ n. refl)
        (rw e at (spans_Fit sps now h))
