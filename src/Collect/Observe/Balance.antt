-- ===== src/Collect/Observe/Balance.antt =====
-- What the loop of `send` of collect/collect.go counts for the spans of a trace, by their labels.
use tracing_proxy.Base.{
  arith, ℕ, ◌+◌, ◌≡◌, refl, String, List, [], ◌∷◌, ◌++◌, Option, none, some, Bool, true, false,
  same_text, ◌&&◌, ◌||◌, not, if◌then◌else◌, Bool-cases, if-cases, inl, inr,
}
use tracing_proxy.Base.Dict.{lookup}
use tracing_proxy.Base.Fallible.{AllSome, bind-AllSome}
use tracing_proxy.Types.{Value, Span}
use tracing_proxy.Collect.State.{is_nil, is_root_span}
use tracing_proxy.Metrics.{LabelMap}
use tracing_proxy.Metrics.Creates.{Op, increments_with}
use tracing_proxy.Metrics.Labels.{get_field, extract_labels_from_span}
use tracing_proxy.Collect.Observe.{
  Printer, label_to_key_map, error_status, count_http, count_grpc, observe_http, observe_grpc,
  observe_web, observe_status, observe_duration, observe_root, is_unknown, either_key, or_unknown,
  get_string_value, observe_outcome, observe_span, observe_spans,
}

-- 1 for a call that increments the metric with labels that pass the test, and else 0
abbrev pub hit : (LabelMap → Bool) → String → Op → ℕ
hit test name (increments_with n labels now) = if same_text n name && test labels then 1 else 0
hit test name _ = 0

-- How often a metric is incremented with labels that pass the test.
abbrev pub hits : (LabelMap → Bool) → String → List Op → ℕ
hits test name [] = 0
hits test name (o ∷ os) = hit test name o + hits test name os

hits-++ :
    (test : LabelMap → Bool) (name : String) (os more : List Op)
    → hits test name (os ++ more) ≡ hits test name os + hits test name more
hits-++ test name [] more = omega arith
hits-++ test name (o ∷ os) more = omega (arith, hits-++ test name os more)

-- The total is that of the successes and failures, and that of the spans.
record Balances (test : LabelMap → Bool) (os : List Op) : Type 0 where
  outcomes :
      hits test "trace_operations_total" os
      ≡ hits test "trace_operations_succeeded" os + hits test "trace_operations_failed" os
  spans : hits test "trace_operations_total" os ≡ hits test "trace_spans_count" os

unit_of : {A : Type 0} (o : Option A) → AllSome (λ _. Unit) o
unit_of none = tt
unit_of (some a) = tt

module _ (test : LabelMap → Bool) where
  Balances-++ :
      (os more : List Op) → Balances test os → Balances test more → Balances test (os ++ more)
  Balances-++ os more a b = record {
    outcomes =
        rw
          (
            hits-++ test "trace_operations_total" os more,
            hits-++ test "trace_operations_succeeded" os more,
            hits-++ test "trace_operations_failed" os more,
          )
          (omega (arith, a.outcomes, b.outcomes));
    spans =
        rw (hits-++ test "trace_operations_total" os more, hits-++ test "trace_spans_count" os more)
          (omega (arith, a.spans, b.spans));
  }

  none-Balances : Balances test []
  none-Balances = record { outcomes = refl; spans = refl }

module _ (printer : Printer) (test : LabelMap → Bool) where
  http-Balances :
      (labels : LabelMap) (method status : String) (now : ℕ)
      → Balances test (count_http printer labels method status now)
  unfolding same_text count_http
  http-Balances labels method status now =
      elim (Bool-cases (not (is_unknown method) || not (is_unknown status))) [
        | inl e ↦ rw (count_http, e) (record { outcomes = refl; spans = refl })
        | inr e ↦ rw (count_http, e) (none-Balances test)
      ]

  grpc-Balances :
      (labels : LabelMap) (status : String) (now : ℕ)
      → Balances test (count_grpc printer labels status now)
  unfolding same_text count_grpc
  grpc-Balances labels status now = elim (Bool-cases (is_unknown status)) [
    | inl e ↦ rw (count_grpc, e) (none-Balances test)
    | inr e ↦ rw (count_grpc, e) (record { outcomes = refl; spans = refl })
  ]

  web-Balances :
      (labels : LabelMap) (v : Option Value) (now : ℕ)
      → Balances test (observe_web printer labels v now)
  unfolding observe_web observe_http observe_grpc
  web-Balances labels none now = none-Balances test
  web-Balances labels (some (Value.object sa)) now =
      Balances-++ test _ _
        (http-Balances labels (either_key printer "http.request.method" "http.method" sa)
          (either_key printer "http.response.status_code" "http.status_code" sa) now)
        (grpc-Balances labels
          (or_unknown (get_string_value printer (get_field "rpc.grpc.status_code" sa))) now)
  web-Balances labels (some Value.null) now = none-Balances test
  web-Balances labels (some (Value.text s)) now = none-Balances test
  web-Balances labels (some (Value.bool b)) now = none-Balances test
  web-Balances labels (some (Value.int n)) now = none-Balances test
  web-Balances labels (some (Value.int64 n)) now = none-Balances test
  web-Balances labels (some (Value.uint n)) now = none-Balances test
  web-Balances labels (some (Value.float64 x)) now = none-Balances test
  web-Balances labels (some (Value.bytes b)) now = none-Balances test

  status-Balances :
      (labels : LabelMap) (values : List (String × Value)) (now : ℕ)
      → Balances test (observe_status printer labels values now)
  unfolding same_text observe_status
  status-Balances labels values now =
      if-cases (Balances test) _ _ [] (web-Balances labels (lookup "spanAttributes" values) now)
        (none-Balances test)

  duration-Balances :
      (labels : LabelMap) (values : List (String × Value)) (now : ℕ)
      → AllSome (Balances test) (observe_duration printer labels values now)
  unfolding same_text observe_duration
  duration-Balances labels values now = elim (Bool-cases (is_nil (lookup "durationMs" values))) [
    | inl e ↦ rw (observe_duration, e) (none-Balances test)
    | inr e ↦
        rw (observe_duration, e)
          (bind-AllSome (λ _. Unit) (Balances test) (error_status (lookup "error" values)) _
            (unit_of (error_status (lookup "error" values)))
            (λ error _. record { outcomes = refl; spans = refl }))
  ]

  root-Balances :
      (labels : LabelMap) (sp : Span) (now : ℕ) → Balances test (observe_root printer labels sp now)
  unfolding same_text observe_root
  root-Balances labels sp now =
      if-cases (Balances test) (is_root_span sp) _ [] (record { outcomes = refl; spans = refl })
        (none-Balances test)

  -- the count of the span, and its outcome
  outcome-Balances :
      (labels : LabelMap) (root error : Bool) (now : ℕ)
      → Balances test (
          increments_with "trace_spans_count" labels now
          ∷ observe_outcome printer labels root error now)
  unfolding same_text observe_outcome
  outcome-Balances labels root true now = record { outcomes = ground arith; spans = ground arith }
  outcome-Balances labels root false now = record { outcomes = ground arith; spans = ground arith }

  span-Balances : (sp : Span) (now : ℕ) → AllSome (Balances test) (observe_span printer sp now)
  unfolding observe_span
  span-Balances sp now =
      bind-AllSome (λ _. Unit) (Balances test) (extract_labels_from_span label_to_key_map sp.values)
        _ (unit_of _)
        (λ labels _.
          bind-AllSome (Balances test) (Balances test) _ _ (duration-Balances labels sp.values now)
            (λ timed b.
              bind-AllSome (λ _. Unit) (Balances test) (error_status (lookup "error" sp.values)) _
                (unit_of _)
                (λ error _.
                  Balances-++ test _ _
                    (Balances-++ test _ _
                      (Balances-++ test _ timed (status-Balances labels sp.values now) b)
                      (root-Balances labels sp now))
                    (outcome-Balances labels (is_root_span sp) error now))))

  spans-Balances :
      (sps : List Span) (now : ℕ) → AllSome (Balances test) (observe_spans printer sps now)
  unfolding observe_spans
  spans-Balances [] now = none-Balances test
  spans-Balances (sp ∷ sps) now =
      bind-AllSome (Balances test) (Balances test) _ _ (span-Balances sp now) (λ ops b.
        bind-AllSome (Balances test) (Balances test) _ _ (spans-Balances sps now)
          (λ more c. Balances-++ test ops more b c))

  -- If the loop of `send` over the spans does not panic, then for any choice of labels,
  -- `trace_operations_total` is incremented with them as often as
  -- `trace_operations_succeeded` and `trace_operations_failed` together, and as often as
  -- `trace_spans_count`.
  pub observe_spans-Balances :
      (sps : List Span) (now : ℕ) (ops : List Op)
      → observe_spans printer sps now ≡ some ops
      → (hits test "trace_operations_total" ops
          ≡ hits test "trace_operations_succeeded" ops + hits test "trace_operations_failed" ops)
        × (hits test "trace_operations_total" ops ≡ hits test "trace_spans_count" ops)
  observe_spans-Balances sps now ops e =
      let b = rw e at (spans-Balances sps now) in (b.outcomes, b.spans)
