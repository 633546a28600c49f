-- ===== src/Collect/Observe/Registers/Keeps.antt =====
-- Writes with labels of metrics/opsramp.go change no metric's collector or labels, and panic for
-- labels that the vector does not accept.
use tracing_proxy.Base.{
  ◌≡◌, refl, subst, sym, ap, ◌∙◌, inl, inr, ℕ, String, List, [], ◌∷◌, ◌++◌, Option, none, some,
  false, Option-cases, Bool-cases,
}
use tracing_proxy.Base.All.{All}
use tracing_proxy.Base.Dict.{lookup}
use tracing_proxy.Base.Fallible.{◌>>=◌, AllSome, bind-AllSome}
use tracing_proxy.Metrics.{
  Library, LabelMap, Metrics, MetricData, MetricType, gauge, counter, histogram, Collector, vector,
  Call, is_vector, calls_to, touch, with_labels, write_vector, get_label_values, gauge_with_labels,
  add_with_labels, increment_with_labels, histogram_with_labels,
}
use tracing_proxy.Metrics.Creates.{
  Op, gauges_with, sums_with, increments_with, records_with, registers, describes, registers_vector,
  increments, counts, gauges, records, sweeps, perform,
}
use tracing_proxy.Collect.Observe.Registers.{perform_each, shape}
use tracing_proxy.Collect.Observe.Registers.Goes.{of_shape, touch-shape, vector_same}

-- A write with labels.
abbrev pub IsWrite : Op → Type 0
IsWrite (gauges_with name labels v now) = Unit
IsWrite (sums_with name labels v now) = Unit
IsWrite (increments_with name labels now) = Unit
IsWrite (records_with name labels v now) = Unit
IsWrite _ = ⊥

abbrev pub SameShapes : Metrics → Metrics → Type 0
SameShapes p p' = (n : String) → shape p' n ≡ shape p n

module _ (lib : Library) where
  with_labels-metrics :
      (t : MetricType) (c : Call) (labels : LabelMap) (d : MetricData) (made : Collector)
      (p : Metrics)
      → AllSome (λ p'. p'.metrics ≡ p.metrics) (with_labels lib t c labels d made p)
  unfolding with_labels calls_to
  with_labels-metrics t c labels d made p = elim (Bool-cases (is_vector t made)) [
    | inr n ↦ rw (with_labels, n) refl
    | inl n ↦ elim (Bool-cases (lib.accepts d.labels labels)) [
      | inl k ↦ rw (with_labels, n, k) refl
      | inr k ↦ rw (with_labels, n, k) tt
    ]
  ]

  same_metrics : (p p' : Metrics) → p'.metrics ≡ p.metrics → SameShapes p p'
  same_metrics p p' e n = rw (shape, e) refl

  write_vector-keeps :
      (t : MetricType) (c : Call) (name : String) (labels : LabelMap) (now : ℕ) (p : Metrics)
      → AllSome (SameShapes p) (write_vector lib t c name labels now p)
  unfolding write_vector
  write_vector-keeps t c name labels now p = elim (Option-cases (lookup name p.metrics)) [
    | inl n ↦ rw (write_vector, n) (λ other. refl)
    | inr (d, n) ↦ elim (Option-cases d.collector) [
      | inl k ↦ rw (write_vector, n, k) (λ other. refl)
      | inr (made, k) ↦
          let same = with_labels-metrics t c labels d made p in
          elim (Option-cases (with_labels lib t c labels d made p)) [
            | inl w ↦ rw (write_vector, n, k, w) tt
            | inr (p', w) ↦
                let e : p'.metrics ≡ p.metrics = rw w at same in
                rw (write_vector, n, k, w)
                  (λ other.
                    touch-shape name d (lib.join (get_label_values d.labels labels)) now p' other
                      (ap (lookup name) e ∙ n)
                    ∙ same_metrics p p' e other)
          ]
    ]
  ]

  perform-keeps : (o : Op) (p : Metrics) → IsWrite o → AllSome (SameShapes p) (perform lib o p)
  unfolding perform gauge_with_labels add_with_labels increment_with_labels histogram_with_labels
  perform-keeps (gauges_with name labels v now) p h = write_vector-keeps gauge _ name labels now p
  perform-keeps (sums_with name labels v now) p h = write_vector-keeps counter _ name labels now p
  perform-keeps (increments_with name labels now) p h =
      write_vector-keeps counter _ name labels now p
  perform-keeps (records_with name labels v now) p h =
      write_vector-keeps histogram _ name labels now p
  perform-keeps (registers name t) p h = absurd h
  perform-keeps (describes name t labels) p h = absurd h
  perform-keeps (registers_vector t name labels) p h = absurd h
  perform-keeps (increments name now) p h = absurd h
  perform-keeps (counts name n now) p h = absurd h
  perform-keeps (gauges name v now) p h = absurd h
  perform-keeps (records name v now) p h = absurd h
  perform-keeps (sweeps interval now) p h = absurd h

  pub perform_each-keeps :
      (os : List Op) (p p0 : Metrics)
      → SameShapes p0 p
      → All IsWrite os
      → AllSome (SameShapes p0) (perform_each lib os p)
  unfolding perform_each
  perform_each-keeps [] p p0 same h = same
  perform_each-keeps (o ∷ os) p p0 same h =
      bind-AllSome (SameShapes p) (SameShapes p0) (perform lib o p) (perform_each lib os)
        (perform-keeps o p h.0) (λ p' s. perform_each-keeps os p' p0 (λ n. s n ∙ same n) h.1)

  -- the calls of two lists, one after the other
  pub perform_each-++ :
      (os more : List Op) (p : Metrics)
      → perform_each lib (os ++ more) p ≡ (perform_each lib os p >>= perform_each lib more)
  unfolding perform_each
  perform_each-++ [] more p = refl
  perform_each-++ (o ∷ os) more p = elim (Option-cases (perform lib o p)) [
    | inl e ↦ rw (perform_each, e) refl
    | inr (p', e) ↦ rw (perform_each, e) (perform_each-++ os more p')
  ]

  with_labels-refused :
      (t : MetricType) (c : Call) (labels : LabelMap) (d : MetricData) (p : Metrics)
      → lib.accepts d.labels labels ≡ false
      → with_labels lib t c labels d (vector t) p ≡ none
  unfolding with_labels
  with_labels-refused t c labels d p a = rw (with_labels, vector_same t, a) refl

  pub write_vector-refused :
      (t : MetricType) (c : Call) (name : String) (labels : LabelMap) (now : ℕ) (p : Metrics)
      (names : List String)
      → shape p name ≡ some (some (vector t), names)
      → lib.accepts names labels ≡ false
      → write_vector lib t c name labels now p ≡ none
  unfolding write_vector
  write_vector-refused t c name labels now p names s a =
      let (d, (l, (k, n))) = of_shape p name (some (vector t)) names s in
      rw (write_vector, l)
        (subst
          (λ o.
            elim o as (λ _. Option Metrics) [
              | none ↦ some p
              | some made ↦ elim (with_labels lib t c labels d made p) as (λ _. Option Metrics) [
                | none ↦ none
                | some p' ↦ some (touch name d (lib.join (get_label_values d.labels labels)) now p')
              ]
            ]
            ≡ none)
          (sym k) (rw (with_labels-refused t c labels d p (rw n a)) refl))
