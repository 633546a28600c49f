-- ===== src/Collect/Observe/Registers/Holds.antt =====
-- That the metrics registered by `Start` of collect/collect.go take the labels of a span, if all of
-- these are set, also with those that are added to them.
use tracing_proxy.Base.{
  arith, ap, sym, ◌∙◌, if◌then◌else◌, ◌≡◌, refl, inl, inr, ℕ, String, List, [], ◌∷◌, ◌++◌, map,
  true, arith, Bool, false, Bool-cases, same_text,
}
use tracing_proxy.Base.All.{All, IsPermutation, IsPermutation-refl, append-back}
use tracing_proxy.Base.Dict.{insert}
use tracing_proxy.Metrics.{Library, LabelMap, Metrics, gauge, counter, histogram, started}
use tracing_proxy.Metrics.Creates.{Op, perform_all}
use tracing_proxy.Collect.Observe.Registers.{operation_labels, register_metrics, shape}
use tracing_proxy.Collect.Observe.{Printer, count_http, count_grpc, is_unknown}
use tracing_proxy.Base.{not, ◌||◌}
use tracing_proxy.Collect.Observe.Registers.Goes.{Takes, Admits}

-- `With` takes a map of labels whose names are those of the vector, in any order.
abbrev pub TakesNames : Library → Type 0
TakesNames lib =
    (names : List String) (labels : LabelMap)
    → IsPermutation names (map (λ kv. kv.0) labels)
    → lib.accepts (lib.sort names) labels ≡ true

-- The labels of a span are all set, in some order.
abbrev pub IsComplete : LabelMap → Type 0
IsComplete labels = IsPermutation operation_labels (map (λ kv. kv.0) labels)

abbrev pub registered : Library → Metrics
registered lib = perform_all lib register_metrics started

-- The writes go to metrics that were registered, with the labels that they were registered with.
abbrev pub Fit : Library → List Op → Type 0
Fit lib os = All (Admits lib (shape (registered lib))) os

pub All-++ : {A : Type 0} (P : A → Type 0) (xs ys : List A) → All P xs → All P ys → All P (xs ++ ys)
All-++ P [] ys h k = k
All-++ P (x ∷ xs) ys h k = (h.0, All-++ P xs ys h.1 k)

-- whether a name is among the names
abbrev has : String → List String → Bool
has name [] = false
has name (n ∷ ns) = if same_text n name then true else has name ns

insert_names :
    (name v : String) (labels : LabelMap)
    → has name (map (λ kv. kv.0) labels) ≡ false
    → map (λ kv. kv.0) (insert name v labels) ≡ map (λ kv. kv.0) labels ++ name ∷ []
unfolding insert same_text
insert_names name v [] h = refl
insert_names name v ((n, w) ∷ rest) h = ground (arith, insert_names name v rest)

has-permute :
    (name : String) {ns ns' : List String} → IsPermutation ns ns' → has name ns ≡ has name ns'
has-permute name IsPermutation.none = refl
has-permute name (IsPermutation.keep n p) =
    ap (λ b. if same_text n name then true else b) (has-permute name p)
has-permute name (IsPermutation.swap n m ns) = ground arith
has-permute name (IsPermutation.trans p q) = has-permute name p ∙ has-permute name q

-- a name that is not among the names is put behind them
pub put_name :
    (name v : String) (names : List String) (labels : LabelMap)
    → has name names ≡ false
    → IsPermutation names (map (λ kv. kv.0) labels)
    → IsPermutation (names ++ name ∷ []) (map (λ kv. kv.0) (insert name v labels))
put_name name v names labels absent p =
    rw (insert_names name v labels (sym (has-permute name p) ∙ absent)) (append-back (name ∷ []) p)

rotate : {A : Type 0} (x : A) (xs : List A) → IsPermutation (x ∷ xs) (xs ++ x ∷ [])
rotate x [] = IsPermutation-refl (x ∷ [])
rotate x (y ∷ ys) =
    IsPermutation.trans (IsPermutation.swap x y ys) (IsPermutation.keep y (rotate x ys))

module _ (lib : Library) (takes : TakesNames lib) where
  pub operations_latency_ms_Takes :
      (labels : LabelMap)
      → IsPermutation operation_labels (map (λ kv. kv.0) labels)
      → Takes lib gauge labels (shape (registered lib) "trace_operations_latency_ms")
  unfolding register_metrics perform_all
  operations_latency_ms_Takes labels h =
      (lib.sort operation_labels, (refl, takes operation_labels labels h))

  pub operations_latency_Takes :
      (labels : LabelMap)
      → IsPermutation operation_labels (map (λ kv. kv.0) labels)
      → Takes lib histogram labels (shape (registered lib) "trace_operations_latency")
  unfolding register_metrics perform_all
  operations_latency_Takes labels h =
      (lib.sort operation_labels, (refl, takes operation_labels labels h))

  pub apdex_latency_Takes :
      (labels : LabelMap)
      → IsPermutation
          (operation_labels ++ "apdex_threshold" ∷ "error" ∷ [])
          (map (λ kv. kv.0) labels)
      → Takes lib histogram labels (shape (registered lib) "trace_apdex_latency")
  unfolding register_metrics perform_all
  apdex_latency_Takes labels h = (
    lib.sort (operation_labels ++ "apdex_threshold" ∷ "error" ∷ []),
    (refl, takes (operation_labels ++ "apdex_threshold" ∷ "error" ∷ []) labels h),
  )

  pub root_operation_latency_Takes :
      (labels : LabelMap)
      → IsPermutation operation_labels (map (λ kv. kv.0) labels)
      → Takes lib histogram labels (shape (registered lib) "trace_root_operation_latency")
  unfolding register_metrics perform_all
  root_operation_latency_Takes labels h =
      (lib.sort operation_labels, (refl, takes operation_labels labels h))

  pub root_operation_latency_ms_Takes :
      (labels : LabelMap)
      → IsPermutation operation_labels (map (λ kv. kv.0) labels)
      → Takes lib gauge labels (shape (registered lib) "trace_root_operation_latency_ms")
  unfolding register_metrics perform_all
  root_operation_latency_ms_Takes labels h =
      (lib.sort operation_labels, (refl, takes operation_labels labels h))

  pub root_span_Takes :
      (labels : LabelMap)
      → IsPermutation operation_labels (map (λ kv. kv.0) labels)
      → Takes lib counter labels (shape (registered lib) "trace_root_span")
  unfolding register_metrics perform_all
  root_span_Takes labels h = (lib.sort operation_labels, (refl, takes operation_labels labels h))

  pub spans_count_Takes :
      (labels : LabelMap)
      → IsPermutation operation_labels (map (λ kv. kv.0) labels)
      → Takes lib counter labels (shape (registered lib) "trace_spans_count")
  unfolding register_metrics perform_all
  spans_count_Takes labels h = (lib.sort operation_labels, (refl, takes operation_labels labels h))

  pub operations_failed_Takes :
      (labels : LabelMap)
      → IsPermutation operation_labels (map (λ kv. kv.0) labels)
      → Takes lib counter labels (shape (registered lib) "trace_operations_failed")
  unfolding register_metrics perform_all
  operations_failed_Takes labels h =
      (lib.sort operation_labels, (refl, takes operation_labels labels h))

  pub operations_succeeded_Takes :
      (labels : LabelMap)
      → IsPermutation operation_labels (map (λ kv. kv.0) labels)
      → Takes lib counter labels (shape (registered lib) "trace_operations_succeeded")
  unfolding register_metrics perform_all
  operations_succeeded_Takes labels h =
      (lib.sort operation_labels, (refl, takes operation_labels labels h))

  pub operations_total_Takes :
      (labels : LabelMap)
      → IsPermutation operation_labels (map (λ kv. kv.0) labels)
      → Takes lib counter labels (shape (registered lib) "trace_operations_total")
  unfolding register_metrics perform_all
  operations_total_Takes labels h =
      (lib.sort operation_labels, (refl, takes operation_labels labels h))

  pub root_operations_failed_Takes :
      (labels : LabelMap)
      → IsPermutation operation_labels (map (λ kv. kv.0) labels)
      → Takes lib counter labels (shape (registered lib) "trace_root_operations_failed")
  unfolding register_metrics perform_all
  root_operations_failed_Takes labels h =
      (lib.sort operation_labels, (refl, takes operation_labels labels h))

  pub response_http_status_Takes :
      (labels : LabelMap)
      → IsPermutation ("method" ∷ "status_code" ∷ operation_labels) (map (λ kv. kv.0) labels)
      → Takes lib counter labels (shape (registered lib) "trace_response_http_status")
  unfolding register_metrics perform_all
  response_http_status_Takes labels h = (
    lib.sort ("method" ∷ "status_code" ∷ operation_labels),
    (refl, takes ("method" ∷ "status_code" ∷ operation_labels) labels h),
  )

  pub response_grpc_status_Takes :
      (labels : LabelMap)
      → IsPermutation ("status_code" ∷ operation_labels) (map (λ kv. kv.0) labels)
      → Takes lib counter labels (shape (registered lib) "trace_response_grpc_status")
  unfolding register_metrics perform_all
  response_grpc_status_Takes labels h = (
    lib.sort ("status_code" ∷ operation_labels),
    (refl, takes ("status_code" ∷ operation_labels) labels h),
  )

  pub http_Fit :
      (printer : Printer) (labels : LabelMap) (method status : String) (now : ℕ)
      → IsComplete labels
      → Fit lib (count_http printer labels method status now)
  unfolding count_http same_text
  http_Fit printer labels method status now c =
      elim (Bool-cases (not (is_unknown method) || not (is_unknown status))) [
        | inr e ↦ rw (count_http, e) tt
        | inl e ↦
            let one = put_name "method" method operation_labels labels refl c in
            let two =
              put_name "status_code" status (operation_labels ++ "method" ∷ [])
                (insert "method" method labels) refl one in
            rw (count_http, e)
              (
                response_http_status_Takes _ (
                    IsPermutation.trans (IsPermutation.swap "method" "status_code" operation_labels)
                      (IsPermutation.trans
                        (IsPermutation.keep "status_code" (rotate "method" operation_labels))
                        (IsPermutation.trans
                          (rotate "status_code" (operation_labels ++ "method" ∷ [])) two))),
                tt,
              )
      ]

  pub grpc_Fit :
      (printer : Printer) (labels : LabelMap) (status : String) (now : ℕ)
      → IsComplete labels
      → Fit lib (count_grpc printer labels status now)
  unfolding count_grpc same_text
  grpc_Fit printer labels status now c = elim (Bool-cases (is_unknown status)) [
    | inl e ↦ rw (count_grpc, e) tt
    | inr e ↦
        let one = put_name "status_code" status operation_labels labels refl c in
        rw (count_grpc, e)
          (
            response_grpc_status_Takes _
                (IsPermutation.trans (rotate "status_code" operation_labels) one),
            tt,
          )
  ]
