-- ===== src/Metrics.antt =====
-- metrics/opsramp.go: the metrics by name, and what is asked of the Prometheus library, as a list of
-- calls. Each operation holds the lock, and is one step. A panic is none.
pub mod Creates
pub mod Labels
pub mod Sweep
use tracing_proxy.Base.{
  ℕ, ◌+◌, String, List, [], ◌∷◌, ◌++◌, Option, none, some, Bool, true, false, if◌then◌else◌,
  same_text,
}
use tracing_proxy.Base.Dict.{lookup, insert}
use tracing_proxy.Utils.{SyncedMap, set}

-- without `SUMMARY`, which nothing uses
pub data MetricType : Type 0 where
  gauge counter histogram : MetricType

-- what the library makes: one value, or a vector of values by labels
pub data Collector : Type 0 where
  single : MetricType → Collector
  vector : MetricType → Collector

-- A map from the names of labels to values.
abbrev pub LabelMap : Type 0
LabelMap = List (String × String)

-- a call of the library; a `float64` is its bit pattern
pub data Call : Type 0 where
  creates : String → Collector → List String → Call
  adds : String → ℕ → Call
  sets : String → ℕ → Call
  observes : String → ℕ → Call
  adds_with : String → LabelMap → ℕ → Call
  sets_with : String → LabelMap → ℕ → Call
  observes_with : String → LabelMap → ℕ → Call
  -- `WithLabelValues` and then `Set(0)`
  clears : String → List String → Call
  deletes : String → List String → Call

-- The times are those of the last write, by the joined values of the labels.
pub record MetricData : Type 0 where
  pub collector : Option Collector
  pub type : MetricType
  pub labels : List String
  pub label_values : SyncedMap ℕ

pub record Metrics : Type 0 where
  pub metrics : List (String × MetricData)
  pub calls : List Call

-- the state once `Start` has made the map and the registry
abbrev pub started : Metrics
started = record { metrics = []; calls = [] }

unfoldable pub calls_to : Call → Metrics → Metrics
calls_to c p = record p { calls = p.calls ++ c ∷ [] }

-- the new metric, unless there is one of the name
unfoldable pub put_new : String → Option Collector → MetricType → List String → Metrics → Metrics
unfolding lookup insert calls_to
put_new name made type labels p = elim (lookup name p.metrics) [
  | some d ↦ p
  | none ↦
      let p' : Metrics = elim made [ none ↦ p | some c ↦ calls_to (creates name c labels) p ] in
      record p' {
        metrics =
            insert name
              (record {
                collector = made;
                type = type;
                labels = labels;
                label_values = record { m = none };
              })
              p'.metrics;
      }
]

-- The type of a name that is none of these is the first one, and nothing is made.
unfoldable pub type_of : String → Option MetricType
unfolding same_text
type_of t =
    if same_text t "counter"
    then some counter
    else if same_text t "gauge"
    then some gauge
    else if same_text t "histogram"
    then some histogram
    else none

unfoldable pub put_typed :
    String → (MetricType → Collector) → Option MetricType → List String → Metrics → Metrics
unfolding put_new
put_typed name make none labels p = put_new name none gauge labels p
put_typed name make (some t) labels p = put_new name (some (make t)) t labels p

unfoldable pub register : String → String → Metrics → Metrics
unfolding put_typed type_of
register name t p = put_typed name single (type_of t) [] p

-- `Counter` and `Gauge` of the library are interfaces; a gauge has all the methods of a counter.
unfoldable pub is_counter : Collector → Bool
is_counter (single counter) = true
is_counter (single gauge) = true
is_counter _ = false

unfoldable pub is_gauge : Collector → Bool
is_gauge (single gauge) = true
is_gauge _ = false

unfoldable pub is_histogram : Collector → Bool
is_histogram (single histogram) = true
is_histogram _ = false

unfoldable pub same_type : MetricType → MetricType → Bool
same_type gauge gauge = true
same_type counter counter = true
same_type histogram histogram = true
same_type _ _ = false

unfoldable pub is_vector : MetricType → Collector → Bool
unfolding same_type
is_vector t (vector t') = same_type t t'
is_vector t (single t') = false

-- the time of the write, for a key
unfoldable pub touch : String → MetricData → String → ℕ → Metrics → Metrics
unfolding insert set
touch name d key now p = record p {
  metrics = insert name (record d { label_values = set key now d.label_values }) p.metrics;
}

-- `Increment`, `Count`, `Gauge` and `Histogram`, by the test of the collector and the call
unfoldable pub write_single : (Collector → Bool) → Call → String → ℕ → Metrics → Metrics
unfolding lookup touch calls_to
write_single test call name now p = elim (lookup name p.metrics) [
  | none ↦ p
  | some d ↦ elim d.collector [
    | none ↦ p
    | some c ↦ touch name d "" now (if test c then calls_to call p else p)
  ]
]

-- What the text library does with the values of labels, and whether a vector accepts a map, or
-- values, for its labels; the sort of `sort.Strings`; and 1 as a `float64`.
pub record Library : Type 0 where
  pub join : List String → String
  pub split : String → List String
  pub accepts : List String → LabelMap → Bool
  pub fits : List String → List String → Bool
  pub sort : List String → List String
  pub one : ℕ

unfoldable pub value_or_empty : Option String → String
value_or_empty (some v) = v
value_or_empty none = ""

unfoldable pub get_label_values : List String → LabelMap → List String
unfolding lookup value_or_empty
get_label_values [] m = []
get_label_values (l ∷ ls) m = value_or_empty (lookup l m) ∷ get_label_values ls m

module _ (lib : Library) where
  -- `RegisterGauge`, `RegisterCounter` and `RegisterHistogram`
  unfoldable pub register_vector : MetricType → String → List String → Metrics → Metrics
  unfolding put_new
  register_vector t name labels p = put_new name (some (vector t)) t (lib.sort labels) p

  unfoldable pub register_with_description_labels :
      String → String → List String → Metrics → Metrics
  unfolding put_typed type_of
  register_with_description_labels name t labels p =
      put_typed name vector (type_of t) (lib.sort labels) p

  unfoldable pub increment : String → ℕ → Metrics → Metrics
  unfolding write_single is_counter
  increment name now p = write_single is_counter (adds name lib.one) name now p

  unfoldable pub count : String → ℕ → ℕ → Metrics → Metrics
  unfolding write_single is_counter
  count name n now p = write_single is_counter (adds name n) name now p

  unfoldable pub set_gauge : String → ℕ → ℕ → Metrics → Metrics
  unfolding write_single is_gauge
  set_gauge name v now p = write_single is_gauge (sets name v) name now p

  unfoldable pub observe : String → ℕ → ℕ → Metrics → Metrics
  unfolding write_single is_histogram
  observe name v now p = write_single is_histogram (observes name v) name now p

  -- the call with labels; `With` panics if the vector does not accept them
  unfoldable pub with_labels :
      MetricType → Call → LabelMap → MetricData → Collector → Metrics → Option Metrics
  unfolding is_vector calls_to
  with_labels t call labels d c p = elim (is_vector t c) [
    | false ↦ some p
    | true ↦ elim (lib.accepts d.labels labels) [ true ↦ some (calls_to call p) | false ↦ none ]
  ]

  -- `GaugeWithLabels`, `AddWithLabels`, `IncrementWithLabels` and `HistogramWithLabels`
  unfoldable pub write_vector : MetricType → Call → String → LabelMap → ℕ → Metrics → Option Metrics
  unfolding lookup with_labels touch get_label_values
  write_vector t call name labels now p = elim (lookup name p.metrics) [
    | none ↦ some p
    | some d ↦ elim d.collector [
      | none ↦ some p
      | some c ↦ elim (with_labels t call labels d c p) [
        | none ↦ none
        | some p' ↦ some (touch name d (lib.join (get_label_values d.labels labels)) now p')
      ]
    ]
  ]

  unfoldable pub gauge_with_labels : String → LabelMap → ℕ → ℕ → Metrics → Option Metrics
  unfolding write_vector
  gauge_with_labels name labels v now p =
      write_vector gauge (sets_with name labels v) name labels now p

  unfoldable pub add_with_labels : String → LabelMap → ℕ → ℕ → Metrics → Option Metrics
  unfolding write_vector
  add_with_labels name labels v now p =
      write_vector counter (adds_with name labels v) name labels now p

  unfoldable pub increment_with_labels : String → LabelMap → ℕ → Metrics → Option Metrics
  unfolding write_vector
  increment_with_labels name labels now p =
      write_vector counter (adds_with name labels lib.one) name labels now p

  unfoldable pub histogram_with_labels : String → LabelMap → ℕ → ℕ → Metrics → Option Metrics
  unfolding write_vector
  histogram_with_labels name labels v now p =
      write_vector histogram (observes_with name labels v) name labels now p
