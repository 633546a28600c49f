-- ===== src/Metrics/Creates/Write.antt =====
-- That the writes of metrics/opsramp.go make no metric.
use tracing_proxy.Base.{
  ℕ, ◌≡◌, inl, inr, String, none, Bool, if◌then◌else◌, Option-cases, Bool-cases,
}
use tracing_proxy.Base.Dict.{lookup}
use tracing_proxy.Base.Fallible.{AllSome}
use tracing_proxy.Utils.{set}
use tracing_proxy.Metrics.{
  MetricType, Collector, LabelMap, Call, MetricData, Metrics, calls_to, is_vector, touch,
  write_single, with_labels, write_vector, Library,
}
use tracing_proxy.Metrics.Creates.{IsValid, made_by, insert-IsValid, if-IsValid, calls_to-IsValid}

touch-IsValid :
    (name : String) (d : MetricData) (key : String) (now : ℕ) (p : Metrics)
    → IsValid p
    → IsValid (touch name d key now p)
unfolding touch
touch-IsValid name d key now p v =
    insert-IsValid name (record d { label_values = set key now d.label_values }) p v

pub write_single-IsValid :
    (test : Collector → Bool) (c : Call) (name : String) (now : ℕ) (p : Metrics)
    → made_by c ≡ none
    → IsValid p
    → IsValid (write_single test c name now p)
unfolding write_single
write_single-IsValid test c name now p e v = elim (Option-cases (lookup name p.metrics)) [
  | inl n ↦ rw (IsValid, write_single, n) v
  | inr (d, n) ↦ elim (Option-cases d.collector) [
    | inl k ↦ rw (IsValid, write_single, n, k) v
    | inr (made', k) ↦
        rw (write_single, n, k)
          (touch-IsValid name d "" now (if test made' then calls_to c p else p)
            (if-IsValid (test made') c p e v))
  ]
]

module _ (lib : Library) where
  with_labels-IsValid :
      (t : MetricType) (c : Call) (labels : LabelMap) (d : MetricData) (made' : Collector)
      (p : Metrics)
      → made_by c ≡ none
      → IsValid p
      → AllSome IsValid (with_labels lib t c labels d made' p)
  unfolding with_labels
  with_labels-IsValid t c labels d made' p e v = elim (Bool-cases (is_vector t made')) [
    | inr n ↦ rw (with_labels, n) v
    | inl n ↦ elim (Bool-cases (lib.accepts d.labels labels)) [
      | inl k ↦ rw (with_labels, n, k) (calls_to-IsValid c p e v)
      | inr k ↦ rw (with_labels, n, k) tt
    ]
  ]

  pub write_vector-IsValid :
      (t : MetricType) (c : Call) (name : String) (labels : LabelMap) (now : ℕ) (p : Metrics)
      → made_by c ≡ none
      → IsValid p
      → AllSome IsValid (write_vector lib t c name labels now p)
  unfolding write_vector
  write_vector-IsValid t c name labels now p e v = elim (Option-cases (lookup name p.metrics)) [
    | inl n ↦ rw (write_vector, n) v
    | inr (d, n) ↦ elim (Option-cases d.collector) [
      | inl k ↦ rw (write_vector, n, k) v
      | inr (made', k) ↦
          let safe = with_labels-IsValid t c labels d made' p e v in
          elim (Option-cases (with_labels lib t c labels d made' p)) [
            | inl w ↦ rw (write_vector, n, k, w) tt
            | inr (p', w) ↦
                rw (write_vector, n, k, w) (touch-IsValid name d _ now p' (rw w at safe))
          ]
    ]
  ]
