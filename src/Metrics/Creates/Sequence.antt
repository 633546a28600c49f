-- ===== src/Metrics/Creates/Sequence.antt =====
-- That no sequence of the operations of metrics/opsramp.go makes a metric twice.
use tracing_proxy.Base.{
  ℕ, ◌-◌, ◌*◌, ltb, ◌≢◌, refl, inl, inr, String, List, [], ◌∷◌, Option, none, some, if◌then◌else◌,
  Option-cases, Bool-cases, if-cases,
}
use tracing_proxy.Base.All.{Apart}
use tracing_proxy.Base.Dict.{lookup}
use tracing_proxy.Base.Fallible.{AllSome, bind-AllSome}
use tracing_proxy.Utils.{remove, entries}
use tracing_proxy.Metrics.{
  MetricType, gauge, counter, histogram, Collector, adds_with, sets_with, observes_with, clears,
  deletes, MetricData, Metrics, started, calls_to, type_of, register, is_vector, register_vector,
  register_with_description_labels, increment, count, set_gauge, observe, gauge_with_labels,
  add_with_labels, increment_with_labels, histogram_with_labels, Library, single, vector,
}
use tracing_proxy.Metrics.Sweep.{
  delete_label_values, delete_after, clear_value, sweep_typed, sweep_value, sweep_values,
  sweep_metrics, sweep, minute,
}
use tracing_proxy.Metrics.Creates.{
  Op, registers, describes, registers_vector, increments, counts, gauges, records, gauges_with,
  sums_with, increments_with, records_with, sweeps, perform, perform_all, made, IsValid,
  insert-IsValid, if-IsValid, calls_to-IsValid, put_typed-IsValid, put_new-IsValid,
}
use tracing_proxy.Metrics.Creates.Write.{write_single-IsValid, write_vector-IsValid}

module _ (lib : Library) where
  delete-IsValid :
      (t : MetricType) (name : String) (values : List String) (p : Metrics)
      → IsValid p
      → IsValid (delete_label_values lib t name values p)
  unfolding delete_label_values
  delete-IsValid t name values p v = elim (Option-cases (lookup name p.metrics)) [
    | inl n ↦ rw (IsValid, delete_label_values, n) v
    | inr (d, n) ↦ elim (Option-cases d.collector) [
      | inl k ↦ rw (IsValid, delete_label_values, n, k) v
      | inr (made', k) ↦
          rw (delete_label_values, n, k)
            (insert-IsValid name
              (record d { label_values = remove (lib.join values) d.label_values })
              (if is_vector t made' then calls_to (deletes name values) p else p)
              (if-IsValid (is_vector t made') (deletes name values) p refl v))
    ]
  ]

  delete_after-IsValid :
      (age limit : ℕ) (t : MetricType) (name : String) (values : List String) (p : Metrics)
      → IsValid p
      → IsValid (delete_after lib age limit t name values p)
  unfolding delete_after
  delete_after-IsValid age limit t name values p v =
      if-cases IsValid (ltb limit age) (delete_label_values lib t name values p) p
        (delete-IsValid t name values p v) v

  clear_value-IsValid :
      (name : String) (values labels : List String) (c : Option Collector) (p : Metrics)
      → IsValid p
      → AllSome IsValid (clear_value lib name values labels c p)
  unfolding clear_value
  clear_value-IsValid name values labels none p v = v
  clear_value-IsValid name values labels (some (single t)) p v = v
  clear_value-IsValid name values labels (some (vector counter)) p v = v
  clear_value-IsValid name values labels (some (vector histogram)) p v = v
  clear_value-IsValid name values labels (some (vector gauge)) p v =
      elim (Bool-cases (lib.fits labels values)) [
        | inl e ↦ rw (clear_value, e) (calls_to-IsValid (clears name values) p refl v)
        | inr e ↦ rw (clear_value, e) tt
      ]

  sweep_typed-IsValid :
      (t : MetricType) (quiet age : ℕ) (name : String) (d : MetricData) (values : List String)
      (p : Metrics)
      → IsValid p
      → AllSome IsValid (sweep_typed lib t quiet age name d values p)
  unfolding sweep_typed
  sweep_typed-IsValid gauge quiet age name d values p v =
      bind-AllSome IsValid IsValid _ _
        (if-cases (AllSome IsValid) (ltb quiet age) _ (some p)
          (clear_value-IsValid name values d.labels d.collector p v) v)
        (λ p' v'. delete_after-IsValid age (15 * minute) gauge name values p' v')
  sweep_typed-IsValid counter quiet age name d values p v =
      delete_after-IsValid age (24 * 60 * minute) counter name values p v
  sweep_typed-IsValid histogram quiet age name d values p v =
      delete_after-IsValid age (24 * 60 * minute) histogram name values p v

  sweep_values-IsValid :
      (quiet now : ℕ) (name : String) (d : MetricData) (es : List (String × ℕ)) (p : Metrics)
      → IsValid p
      → AllSome IsValid (sweep_values lib quiet now name d es p)
  unfolding sweep_values sweep_value
  sweep_values-IsValid quiet now name d [] p v = v
  sweep_values-IsValid quiet now name d ((key, t) ∷ es) p v =
      bind-AllSome IsValid IsValid _ _
        (if-cases (AllSome IsValid) (ltb (now - t) quiet) (some p) _ v
          (sweep_typed-IsValid d.type quiet (now - t) name d (lib.split key) p v))
        (sweep_values-IsValid quiet now name d es)

  sweep_metrics-IsValid :
      (quiet now : ℕ) (ms : List (String × MetricData)) (p : Metrics)
      → IsValid p
      → AllSome IsValid (sweep_metrics lib quiet now ms p)
  unfolding sweep_metrics
  sweep_metrics-IsValid quiet now [] p v = v
  sweep_metrics-IsValid quiet now ((name, d) ∷ rest) p v =
      bind-AllSome IsValid IsValid _ _
        (sweep_values-IsValid quiet now name d (entries d.label_values) p v)
        (sweep_metrics-IsValid quiet now rest)

  perform-IsValid : (o : Op) (p : Metrics) → IsValid p → AllSome IsValid (perform lib o p)
  unfolding perform register register_with_description_labels register_vector increment count
      set_gauge observe gauge_with_labels add_with_labels increment_with_labels
      histogram_with_labels sweep
  perform-IsValid (registers name t) p v = put_typed-IsValid name single (type_of t) [] p v
  perform-IsValid (describes name t labels) p v =
      put_typed-IsValid name vector (type_of t) (lib.sort labels) p v
  perform-IsValid (registers_vector t name labels) p v =
      put_new-IsValid name (some (vector t)) t (lib.sort labels) p v
  perform-IsValid (increments name now) p v = write_single-IsValid _ _ name now p refl v
  perform-IsValid (counts name n now) p v = write_single-IsValid _ _ name now p refl v
  perform-IsValid (gauges name n now) p v = write_single-IsValid _ _ name now p refl v
  perform-IsValid (records name n now) p v = write_single-IsValid _ _ name now p refl v
  perform-IsValid (gauges_with name labels n now) p v =
      write_vector-IsValid lib gauge (sets_with name labels n) name labels now p refl v
  perform-IsValid (sums_with name labels n now) p v =
      write_vector-IsValid lib counter (adds_with name labels n) name labels now p refl v
  perform-IsValid (increments_with name labels now) p v =
      write_vector-IsValid lib counter (adds_with name labels lib.one) name labels now p refl v
  perform-IsValid (records_with name labels n now) p v =
      write_vector-IsValid lib histogram (observes_with name labels n) name labels now p refl v
  perform-IsValid (sweeps interval now) p v = sweep_metrics-IsValid (interval * 2) now p.metrics p v

  perform_all-IsValid : (os : List Op) (p : Metrics) → IsValid p → IsValid (perform_all lib os p)
  unfolding perform_all
  perform_all-IsValid [] p v = v
  perform_all-IsValid (o ∷ os) p v =
      let safe = perform-IsValid o p v in
      elim (Option-cases (perform lib o p)) [
        | inl e ↦ rw (IsValid, perform_all, e) v
        | inr (p', e) ↦ rw (IsValid, perform_all, e) (perform_all-IsValid os p' (rw e at safe))
      ]

  -- After any sequence of registrations, writes and sweeps from the start, up to a call that
  -- panics, the names of the metrics that were made in the Prometheus library are pairwise
  -- different.
  pub perform_all-made :
      (os : List Op) → Apart (λ a b. a ≢ b) (made (perform_all lib os started).calls)
  perform_all-made os = (perform_all-IsValid os started (tt, tt)).0
