-- ===== src/Collect/Observe/Registers/Writes.antt =====
-- When the loop of `send` of collect/collect.go over the spans of a trace panics, with the writes that
-- it makes in metrics/opsramp.go.
use tracing_proxy.Base.{
  ◌≡◌, refl, subst, ◌∙◌, ◌↔◌, ◌⊎◌, inl, inr, ℕ, String, List, [], ◌∷◌, ◌++◌, Option, none, some,
  map, Bool, true, false, Bool-cases, Option-cases, if-cases, not, ◌||◌,
}
use tracing_proxy.Base.All.{All, IsPermutation}
use tracing_proxy.Base.Dict.{lookup}
use tracing_proxy.Base.Fallible.{AnyOf, AllSome, bind-AllSome, some_iff}
use tracing_proxy.Types.{Value, Span}
use tracing_proxy.Collect.State.{is_nil, is_root_span}
use tracing_proxy.Metrics.{Library, LabelMap, Metrics, counter, adds_with, increment_with_labels}
use tracing_proxy.Metrics.Creates.{Op, increments_with, perform, perform_all}
use tracing_proxy.Metrics.Labels.{get_field, extract_labels_from_span}
use tracing_proxy.Collect.Observe.{
  Printer, label_to_key_map, error_status, count_http, count_grpc, observe_http, observe_grpc,
  observe_web, observe_status, observe_duration, observe_root, either_key, or_unknown,
  get_string_value, is_unknown, observe_outcome, observe_span,
}
use tracing_proxy.Collect.Observe.Panics.{SpanPanics, observe_span_iff}
use tracing_proxy.Collect.Observe.Registers.{
  operation_labels, register_metrics, perform_each, shape, write_spans,
}
use tracing_proxy.Collect.Observe.Registers.Goes.{perform_each-Goes}
use tracing_proxy.Collect.Observe.Registers.Holds.{IsComplete, registered, All-++}
use tracing_proxy.Collect.Observe.Registers.Fits.{unit_of, span_Fit}
use tracing_proxy.Collect.Observe.Registers.Keeps.{
  IsWrite, SameShapes, perform_each-keeps, perform_each-++, write_vector-refused,
}

-- `With` takes a map of labels exactly if its names are those of the vector, in any order.
abbrev pub TakesExactly : Library → Type 0
TakesExactly lib =
    (names : List String) (labels : LabelMap)
    → (lib.accepts (lib.sort names) labels ≡ true) ↔ IsPermutation names (map (λ kv. kv.0) labels)

-- The labels that are read from the span are not the eight: one of them is not set.
abbrev pub LacksLabel : Span → Type 0
LacksLabel sp =
    (labels : LabelMap) × ((extract_labels_from_span label_to_key_map sp.values ≡ some labels)
      × ¬ IsComplete labels)

module _ (printer : Printer) where
  web-IsWrite :
      (labels : LabelMap) (v : Option Value) (now : ℕ)
      → All IsWrite (observe_web printer labels v now)
  unfolding observe_web observe_http observe_grpc
  web-IsWrite labels none now = tt
  web-IsWrite labels (some (Value.object sa)) now =
      All-++ _ _ _
        (http-IsWrite labels (either_key printer "http.request.method" "http.method" sa)
          (either_key printer "http.response.status_code" "http.status_code" sa) now)
        (grpc-IsWrite labels
          (or_unknown (get_string_value printer (get_field "rpc.grpc.status_code" sa))) now)
    where
      http-IsWrite :
          (labels : LabelMap) (method status : String) (now : ℕ)
          → All IsWrite (count_http printer labels method status now)
      http-IsWrite labels method status now =
          elim (Bool-cases (not (is_unknown method) || not (is_unknown status))) [
            | inl e ↦ rw (count_http, e) (tt, tt)
            | inr e ↦ rw (count_http, e) tt
          ]

      grpc-IsWrite :
          (labels : LabelMap) (status : String) (now : ℕ)
          → All IsWrite (count_grpc printer labels status now)
      grpc-IsWrite labels status now = elim (Bool-cases (is_unknown status)) [
        | inl e ↦ rw (count_grpc, e) tt
        | inr e ↦ rw (count_grpc, e) (tt, tt)
      ]
  web-IsWrite labels (some Value.null) now = tt
  web-IsWrite labels (some (Value.text s)) now = tt
  web-IsWrite labels (some (Value.bool b)) now = tt
  web-IsWrite labels (some (Value.int n)) now = tt
  web-IsWrite labels (some (Value.int64 n)) now = tt
  web-IsWrite labels (some (Value.uint n)) now = tt
  web-IsWrite labels (some (Value.float64 x)) now = tt
  web-IsWrite labels (some (Value.bytes b)) now = tt

  status-IsWrite :
      (labels : LabelMap) (values : List (String × Value)) (now : ℕ)
      → All IsWrite (observe_status printer labels values now)
  unfolding observe_status
  status-IsWrite labels values now =
      if-cases (All IsWrite) _ (observe_web printer labels (lookup "spanAttributes" values) now) []
        (web-IsWrite labels (lookup "spanAttributes" values) now) tt

  duration-IsWrite :
      (labels : LabelMap) (values : List (String × Value)) (now : ℕ)
      → AllSome (All IsWrite) (observe_duration printer labels values now)
  unfolding observe_duration
  duration-IsWrite labels values now = elim (Bool-cases (is_nil (lookup "durationMs" values))) [
    | inl e ↦ rw (observe_duration, e) tt
    | inr e ↦
        rw (observe_duration, e)
          (bind-AllSome (λ _. Unit) (All IsWrite) (error_status (lookup "error" values)) _
            (unit_of (error_status (lookup "error" values))) (λ error _. (tt, (tt, (tt, tt)))))
  ]

  root-IsWrite :
      (labels : LabelMap) (sp : Span) (now : ℕ) → All IsWrite (observe_root printer labels sp now)
  unfolding observe_root
  root-IsWrite labels sp now = if-cases (All IsWrite) (is_root_span sp) _ [] (tt, (tt, (tt, tt))) tt

  outcome-IsWrite :
      (labels : LabelMap) (root error : Bool) (now : ℕ)
      → All IsWrite (observe_outcome printer labels root error now)
  unfolding observe_outcome
  outcome-IsWrite labels true true now = (tt, (tt, (tt, (tt, tt))))
  outcome-IsWrite labels false true now = (tt, (tt, (tt, tt)))
  outcome-IsWrite labels root false now = (tt, (tt, (tt, tt)))

module _ (lib : Library) (exact : TakesExactly lib) (printer : Printer) where
  -- the count of a span whose labels the library does not take
  count-refused :
      (labels : LabelMap) (now : ℕ) (p : Metrics) (more : List Op)
      → SameShapes (registered lib) p
      → lib.accepts (lib.sort operation_labels) labels ≡ false
      → perform_each lib (increments_with "trace_spans_count" labels now ∷ more) p ≡ none
  unfolding perform_each perform increment_with_labels register_metrics perform_all
  count-refused labels now p more same a =
      rw
        (write_vector-refused lib counter (adds_with "trace_spans_count" labels lib.one)
          "trace_spans_count" labels now p (lib.sort operation_labels) (same "trace_spans_count") a)
        refl

  refused-behind :
      (front more : List Op) (labels : LabelMap) (now : ℕ) (p : Metrics)
      → All IsWrite front
      → SameShapes (registered lib) p
      → lib.accepts (lib.sort operation_labels) labels ≡ false
      → perform_each lib (front ++ increments_with "trace_spans_count" labels now ∷ more) p ≡ none
  refused-behind front more labels now p w same a =
      let kept = perform_each-keeps lib front p (registered lib) same w in
      let split =
        perform_each-++ lib front (increments_with "trace_spans_count" labels now ∷ more) p in
      elim (Option-cases (perform_each lib front p)) [
        | inl e ↦ split ∙ rw e refl
        | inr (p', e) ↦ split ∙ rw e (count-refused labels now p' more (rw e at kept) a)
      ]

  -- A span whose labels are not taken: its writes panic.
  span-refused :
      (sp : Span) (now : ℕ) (p : Metrics)
      → SameShapes (registered lib) p
      → AllSome
          (λ labels. lib.accepts (lib.sort operation_labels) labels ≡ false)
          (extract_labels_from_span label_to_key_map sp.values)
      → AllSome (λ ops. perform_each lib ops p ≡ none) (observe_span printer sp now)
  unfolding observe_span
  span-refused sp now p same l = bind-AllSome _ _ _ _ l (λ labels a.
      bind-AllSome (All IsWrite) _ _ _ (duration-IsWrite printer labels sp.values now) (λ timed w.
        bind-AllSome (λ _. Unit) _ (error_status (lookup "error" sp.values)) _ (unit_of _)
          (λ error _.
            refused-behind _ (observe_outcome printer labels (is_root_span sp) error now) labels now
              p
              (All-++ _ _ _ (All-++ _ _ timed (status-IsWrite printer labels sp.values now) w)
                (root-IsWrite printer labels sp now))
              same a)))

  span-IsWrite : (sp : Span) (now : ℕ) → AllSome (All IsWrite) (observe_span printer sp now)
  unfolding observe_span
  span-IsWrite sp now =
      bind-AllSome (λ _. Unit) (All IsWrite) (extract_labels_from_span label_to_key_map sp.values) _
        (unit_of _)
        (λ labels _.
          bind-AllSome (All IsWrite) (All IsWrite) _ _
            (duration-IsWrite printer labels sp.values now)
            (λ timed w.
              bind-AllSome (λ _. Unit) (All IsWrite) (error_status (lookup "error" sp.values)) _
                (unit_of _)
                (λ error _.
                  All-++ _ _ _
                    (All-++ _ _ _ (All-++ _ _ timed (status-IsWrite printer labels sp.values now) w)
                      (root-IsWrite printer labels sp now))
                    (tt, outcome-IsWrite printer labels (is_root_span sp) error now))))

  -- a span without labels is not read
  unread :
      (sp : Span) (now : ℕ)
      → extract_labels_from_span label_to_key_map sp.values ≡ none
      → observe_span printer sp now ≡ none
  unfolding observe_span
  unread sp now e = rw (observe_span, e) refl

  -- the writes of a span that is read, from a state in which the metrics are registered
  span-writes :
      (sp : Span) (now : ℕ) (p : Metrics) (ops : List Op)
      → SameShapes (registered lib) p
      → observe_span printer sp now ≡ some ops
      → (LacksLabel sp × (perform_each lib ops p ≡ none))
        ⊎ ((¬ LacksLabel sp)
            × ((p' : Metrics) × ((perform_each lib ops p ≡ some p')
                  × SameShapes (registered lib) p')))
  span-writes sp now p ops same o =
      elim (Option-cases (extract_labels_from_span label_to_key_map sp.values)) [
        | inl e ↦ absurd (cc (unread sp now e, o))
        | inr (labels, e) ↦
            let (back, forth) = exact operation_labels labels in
            elim (Bool-cases (lib.accepts (lib.sort operation_labels) labels)) [
              | inr a ↦ inl (
                (labels, (e, λ c. cc (forth c, a))),
                rw o at (span-refused sp now p same (rw e a)),
              )
              | inl a ↦
                  let fits =
                    rw o at (span_Fit lib (λ n m. (exact n m).1) printer sp now (rw e (back a))) in
                  let (p', done) = perform_each-Goes lib (shape (registered lib)) ops p same fits in
                  let kept =
                    perform_each-keeps lib ops p (registered lib) same
                      (rw o at (span-IsWrite sp now)) in
                  inr (
                    λ (labels', (e', lacks)).
                        let one : labels ≡ labels' = cc (e, e') in
                        lacks (subst IsComplete one (back a)),
                    (p', (done, rw done at kept)),
                  )
            ]
      ]

  write_spans-Shapes :
      (sps : List Span) (now : ℕ) (p : Metrics)
      → SameShapes (registered lib) p
      → (write_spans lib printer sps now p ≡ none) ↔ AnyOf (λ sp. SpanPanics sp ⊎ LacksLabel sp) sps
  unfolding write_spans
  write_spans-Shapes [] now p same = some_iff p
  write_spans-Shapes (sp ∷ sps) now p same =
      let (panics, back) = observe_span_iff printer sp now in
      elim (Option-cases (observe_span printer sp now)) [
        | inl o ↦ rw (write_spans, o) (λ _. inl (inl (panics o)), λ _. refl)
        | inr (ops, o) ↦ elim (span-writes sp now p ops same o) [
          | inl (lacks, e) ↦ rw (write_spans, o, e) (λ _. inl (inr lacks), λ _. refl)
          | inr (complete, (p', (e, kept))) ↦
              let (a, b) = write_spans-Shapes sps now p' kept in
              rw (write_spans, o, e)
                (
                  λ n. inr (a n),
                  λ h. elim h [
                    | inl here ↦ elim here [
                      | inl x ↦ absurd (cc (back x, o))
                      | inr x ↦ absurd (complete x)
                    ]
                    | inr there ↦ b there
                  ],
                )
        ]
      ]

  -- After the registrations of `Start`, where the Prometheus library takes a map of labels
  -- for a vector exactly if its names are those of the vector in some order: the loop of
  -- `send` over the spans, with its writes, panics exactly if some span has a field "error"
  -- that is neither nil nor a bool, or has for one of the eight labels no value under the key
  -- itself and an attribute that is neither nil nor a map among those that are then searched,
  -- or is read into labels that are not the eight.
  pub write_spans_iff :
      (sps : List Span) (now : ℕ)
      → (write_spans lib printer sps now (registered lib) ≡ none)
        ↔ AnyOf (λ sp. SpanPanics sp ⊎ LacksLabel sp) sps
  write_spans_iff sps now = write_spans-Shapes sps now (registered lib) (λ n. refl)
