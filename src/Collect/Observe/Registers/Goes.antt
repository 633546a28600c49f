-- ===== src/Collect/Observe/Registers/Goes.antt =====
-- Writes with labels of metrics/opsramp.go, to metrics that take the labels.
use tracing_proxy.Base.{
  ◌≡◌, refl, subst, sym, ◌∙◌, inl, inr, ℕ, String, List, [], ◌∷◌, Option, none, some, true,
  Option-cases, arith,
}
use tracing_proxy.Base.All.{All}
use tracing_proxy.Base.Dict.{lookup, lookup-insert}
use tracing_proxy.Utils.{set}
use tracing_proxy.Metrics.{
  Library, LabelMap, Metrics, MetricData, MetricType, gauge, counter, histogram, Collector, vector,
  Call, is_vector, calls_to, touch, with_labels, write_vector, sets_with, adds_with, observes_with,
  get_label_values, gauge_with_labels, add_with_labels, increment_with_labels,
  histogram_with_labels,
}
use tracing_proxy.Metrics.Creates.{
  Op, gauges_with, sums_with, increments_with, records_with, registers, describes, registers_vector,
  increments, counts, gauges, records, sweeps, perform,
}
use tracing_proxy.Collect.Observe.Registers.{perform_each, Shape, shape}

-- The metric is a vector of the type, and takes the labels.
abbrev pub Takes : Library → MetricType → LabelMap → Shape → Type 0
Takes lib t labels s =
    (names : List String) × ((s ≡ some (some (vector t), names))
      × (lib.accepts names labels ≡ true))

-- A write with labels that the metric takes.
abbrev pub Admits : Library → (String → Shape) → Op → Type 0
Admits lib sh (gauges_with name labels v now) = Takes lib gauge labels (sh name)
Admits lib sh (sums_with name labels v now) = Takes lib counter labels (sh name)
Admits lib sh (increments_with name labels now) = Takes lib counter labels (sh name)
Admits lib sh (records_with name labels v now) = Takes lib histogram labels (sh name)
Admits lib sh _ = ⊥

-- a metric of that shape
pub of_shape :
    (p : Metrics) (name : String) (c : Option Collector) (names : List String)
    → shape p name ≡ some (c, names)
    → (d : MetricData) × ((lookup name p.metrics ≡ some d)
        × ((d.collector ≡ c) × (d.labels ≡ names)))
of_shape p name c names e = elim (Option-cases (lookup name p.metrics)) [
  | inl n ↦ absurd (cc (rw (shape, n) at e))
  | inr (d, n) ↦ (d, (n, (cc (rw (shape, n) at e), cc (rw (shape, n) at e))))
]

pub touch-shape :
    (name : String) (d : MetricData) (key : String) (now : ℕ) (p : Metrics) (other : String)
    → lookup name p.metrics ≡ some d
    → shape (touch name d key now p) other ≡ shape p other
unfolding touch
touch-shape name d key now p other e =
    rw
      (
        shape,
        lookup-insert name other (record d { label_values = set key now d.label_values }) p.metrics,
      )
      (ground (arith, e))

pub vector_same : (t : MetricType) → is_vector t (vector t) ≡ true
unfolding is_vector
vector_same gauge = refl
vector_same counter = refl
vector_same histogram = refl

-- A write goes through, and changes no shape.
abbrev Goes : Metrics → Option Metrics → Type 0
Goes p o = (p' : Metrics) × ((o ≡ some p') × ((n : String) → shape p' n ≡ shape p n))

with_labels-vector :
    (lib : Library) (t : MetricType) (c : Call) (labels : LabelMap) (d : MetricData) (p : Metrics)
    → lib.accepts d.labels labels ≡ true
    → with_labels lib t c labels d (vector t) p ≡ some (calls_to c p)
unfolding with_labels
with_labels-vector lib t c labels d p a = rw (with_labels, vector_same t, a) refl

-- the write, for a collector
written :
    (lib : Library) (t : MetricType) (c : Call) (name : String) (labels : LabelMap) (now : ℕ)
    (p : Metrics) (d : MetricData)
    → lookup name p.metrics ≡ some d
    → d.collector ≡ some (vector t)
    → lib.accepts d.labels labels ≡ true
    → write_vector lib t c name labels now p
      ≡ some (touch name d (lib.join (get_label_values d.labels labels)) now (calls_to c p))
unfolding write_vector
written lib t c name labels now p d l k a =
    rw (write_vector, l)
      (subst
        (λ o.
          elim o as (λ _. Option Metrics) [
            | none ↦ some p
            | some made ↦ elim (with_labels lib t c labels d made p) as (λ _. Option Metrics) [
              | none ↦ none
              | some p' ↦ some (touch name d (lib.join (get_label_values d.labels labels)) now p')
            ]
          ]
          ≡ some (touch name d (lib.join (get_label_values d.labels labels)) now (calls_to c p)))
        (sym k) (rw (with_labels-vector lib t c labels d p a) refl))

write_vector-Goes :
    (lib : Library) (t : MetricType) (c : Call) (name : String) (labels : LabelMap) (now : ℕ)
    (p : Metrics)
    → Takes lib t labels (shape p name)
    → Goes p (write_vector lib t c name labels now p)
unfolding calls_to
write_vector-Goes lib t c name labels now p (names, (s, a)) =
    let (d, (l, (k, n))) = of_shape p name (some (vector t)) names s in
    (
      touch name d (lib.join (get_label_values d.labels labels)) now (calls_to c p),
      (
        written lib t c name labels now p d l k (rw n a),
        λ other. touch-shape name d _ now (calls_to c p) other l,
      ),
    )

perform-Goes :
    (lib : Library) (sh : String → Shape) (o : Op) (p : Metrics)
    → ((n : String) → shape p n ≡ sh n)
    → Admits lib sh o
    → Goes p (perform lib o p)
unfolding perform gauge_with_labels add_with_labels increment_with_labels histogram_with_labels
perform-Goes lib sh (gauges_with name labels v now) p same (names, (s, a)) =
    write_vector-Goes lib gauge (sets_with name labels v) name labels now p
      (names, (same name ∙ s, a))
perform-Goes lib sh (sums_with name labels v now) p same (names, (s, a)) =
    write_vector-Goes lib counter (adds_with name labels v) name labels now p
      (names, (same name ∙ s, a))
perform-Goes lib sh (increments_with name labels now) p same (names, (s, a)) =
    write_vector-Goes lib counter (adds_with name labels lib.one) name labels now p
      (names, (same name ∙ s, a))
perform-Goes lib sh (records_with name labels v now) p same (names, (s, a)) =
    write_vector-Goes lib histogram (observes_with name labels v) name labels now p
      (names, (same name ∙ s, a))
perform-Goes lib sh (registers name t) p same h = absurd h
perform-Goes lib sh (describes name t labels) p same h = absurd h
perform-Goes lib sh (registers_vector t name labels) p same h = absurd h
perform-Goes lib sh (increments name now) p same h = absurd h
perform-Goes lib sh (counts name n now) p same h = absurd h
perform-Goes lib sh (gauges name v now) p same h = absurd h
perform-Goes lib sh (records name v now) p same h = absurd h
perform-Goes lib sh (sweeps interval now) p same h = absurd h

pub perform_each-Goes :
    (lib : Library) (sh : String → Shape) (os : List Op) (p : Metrics)
    → ((n : String) → shape p n ≡ sh n)
    → All (Admits lib sh) os
    → (p' : Metrics) × (perform_each lib os p ≡ some p')
unfolding perform_each
perform_each-Goes lib sh [] p same h = (p, refl)
perform_each-Goes lib sh (o ∷ os) p same h =
    let (p', (e, kept)) = perform-Goes lib sh o p same h.0 in
    let (p'', f) = perform_each-Goes lib sh os p' (λ n. kept n ∙ same n) h.1 in
    (p'', rw (perform_each, e) f)
