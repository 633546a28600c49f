-- ===== src/Metrics/Sweep.antt =====
-- The first part of `OpsRampMetrics.Push` of metrics/opsramp.go, under the lock: values that have
-- not been written for a while are set to 0, and then removed. Times are nanoseconds.
use tracing_proxy.Base.{
  arith, ◌^◌, ℕ, ◌-◌, ◌*◌, ◌<◌, ◌≡◌, refl, ◌↔◌, inl, inr, String, List, [], ◌∷◌, Option, none, some,
  true, false, ltb, ltb→lt, lt→ltb, if◌then◌else◌, Bool-cases,
}
use tracing_proxy.Base.Dict.{lookup, insert}
use tracing_proxy.Base.Fallible.{◌>>=◌, AnyOf, bind_iff, some_iff}
use tracing_proxy.Utils.{remove, entries}
use tracing_proxy.Metrics.{
  Collector, single, vector, MetricType, gauge, counter, histogram, MetricData, Metrics, Library,
  clears, deletes, calls_to, is_vector,
}

abbrev pub minute : ℕ
minute = 60 * 10 ^ 9

-- `gaugeDeleteLabelValues`, `counterDeleteLabelValues` and `histogramDeleteLabelValues`
module _ (lib : Library) where
  unfoldable pub delete_label_values : MetricType → String → List String → Metrics → Metrics
  unfolding lookup insert is_vector calls_to remove
  delete_label_values t name values p = elim (lookup name p.metrics) [
    | none ↦ p
    | some d ↦ elim d.collector [
      | none ↦ p
      | some c ↦
          let p' : Metrics = if is_vector t c then calls_to (deletes name values) p else p in
          record p' {
            metrics =
                insert name (record d { label_values = remove (lib.join values) d.label_values })
                  p'.metrics;
          }
    ]
  ]

  unfoldable pub delete_after : ℕ → ℕ → MetricType → String → List String → Metrics → Metrics
  unfolding delete_label_values
  delete_after age limit t name values p =
      if ltb limit age then delete_label_values t name values p else p

  -- `WithLabelValues` panics if the values are not as many as the labels
  unfoldable pub clear_value :
      String → List String → List String → Option Collector → Metrics → Option Metrics
  unfolding calls_to
  clear_value name values labels (some (vector gauge)) p = elim (lib.fits labels values) [
    | true ↦ some (calls_to (clears name values) p)
    | false ↦ none
  ]
  clear_value name values labels _ p = some p

  -- one key, not written for `age`; `quiet` is twice the reporting interval
  unfoldable pub sweep_typed :
      MetricType → ℕ → ℕ → String → MetricData → List String → Metrics → Option Metrics
  unfolding clear_value delete_after
  sweep_typed gauge quiet age name d values p =
      (if ltb quiet age then clear_value name values d.labels d.collector p else some p) >>= λ p'.
      some (delete_after age (15 * minute) gauge name values p')
  sweep_typed counter quiet age name d values p =
      some (delete_after age (24 * 60 * minute) counter name values p)
  sweep_typed histogram quiet age name d values p =
      some (delete_after age (24 * 60 * minute) histogram name values p)

  unfoldable pub sweep_value : ℕ → ℕ → String → MetricData → String × ℕ → Metrics → Option Metrics
  unfolding sweep_typed
  sweep_value quiet now name d (key, t) p =
      if ltb (now - t) quiet
      then some p
      else sweep_typed d.type quiet (now - t) name d (lib.split key) p

  unfoldable pub sweep_values :
      ℕ → ℕ → String → MetricData → List (String × ℕ) → Metrics → Option Metrics
  unfolding sweep_value
  sweep_values quiet now name d [] p = some p
  sweep_values quiet now name d (e ∷ es) p =
      sweep_value quiet now name d e p >>= sweep_values quiet now name d es

  unfoldable pub sweep_metrics : ℕ → ℕ → List (String × MetricData) → Metrics → Option Metrics
  unfolding sweep_values
  sweep_metrics quiet now [] p = some p
  sweep_metrics quiet now ((name, d) ∷ rest) p =
      sweep_values quiet now name d (entries d.label_values) p >>= sweep_metrics quiet now rest

  -- `interval` is the reporting interval
  unfoldable pub sweep : ℕ → ℕ → Metrics → Option Metrics
  unfolding sweep_metrics
  sweep interval now p = sweep_metrics (interval * 2) now p.metrics p

  -- A key of a vector of gauges that was not written for longer than `quiet`, and that, split
  -- again, is not as many values as the vector has labels.
  abbrev pub Stuck : ℕ → ℕ → MetricData → String × ℕ → Type 0
  Stuck quiet now d (key, t) =
      (d.type ≡ gauge)
      × ((quiet < now - t)
          × ((d.collector ≡ some (vector gauge)) × (lib.fits d.labels (lib.split key) ≡ false)))

  clear_value_iff :
      (name : String) (values labels : List String) (c : Option Collector) (p : Metrics)
      → (clear_value name values labels c p ≡ none)
        ↔ ((c ≡ some (vector gauge)) × (lib.fits labels values ≡ false))
  unfolding clear_value
  clear_value_iff name values labels none p = (λ e. cc e, λ h. cc (h.0))
  clear_value_iff name values labels (some (single t)) p = (λ e. cc e, λ h. cc (h.0))
  clear_value_iff name values labels (some (vector gauge)) p = ground arith
  clear_value_iff name values labels (some (vector counter)) p = (λ e. cc e, λ h. cc (h.0))
  clear_value_iff name values labels (some (vector histogram)) p = (λ e. cc e, λ h. cc (h.0))

  sweep_typed_iff :
      (type : MetricType) (quiet age : ℕ) (name : String) (d : MetricData) (values : List String)
      (p : Metrics)
      → (sweep_typed type quiet age name d values p ≡ none) ↔ (
          (type ≡ gauge)
          × ((quiet < age)
              × ((d.collector ≡ some (vector gauge)) × (lib.fits d.labels values ≡ false))))
  unfolding sweep_typed
  sweep_typed_iff gauge quiet age name d values p = elim (Bool-cases (ltb quiet age)) [
    | inl e ↦
        let (a, b) =
          bind_iff _ _ (clear_value_iff name values d.labels d.collector p)
            (λ p'. some_iff (delete_after age (15 * minute) gauge name values p')) in
        rw e (
          λ n. (refl, (ltb→lt quiet age e, elim (a n) [ inl h ↦ h | inr h ↦ absurd h ])),
          λ h. b (inl h.1.1),
        )
    | inr e ↦ rw e (λ n. cc n, λ h. absurd (cc (e, lt→ltb quiet age h.1.0)))
  ]
  sweep_typed_iff counter quiet age name d values p = (λ e. cc e, λ h. cc (h.0))
  sweep_typed_iff histogram quiet age name d values p = (λ e. cc e, λ h. cc (h.0))

  sweep_value_iff :
      (quiet now : ℕ) (name : String) (d : MetricData) (e : String × ℕ) (p : Metrics)
      → (sweep_value quiet now name d e p ≡ none) ↔ Stuck quiet now d e
  unfolding sweep_value
  sweep_value_iff quiet now name d (key, t) p = elim (Bool-cases (ltb (now - t) quiet)) [
    | inl e ↦ rw e (λ n. cc n, λ h. absurd (omega (arith, h.1.0, ltb→lt (now - t) quiet e)))
    | inr e ↦ rw e (sweep_typed_iff d.type quiet (now - t) name d (lib.split key) p)
  ]

  sweep_values_iff :
      (quiet now : ℕ) (name : String) (d : MetricData) (es : List (String × ℕ)) (p : Metrics)
      → (sweep_values quiet now name d es p ≡ none) ↔ AnyOf (Stuck quiet now d) es
  unfolding sweep_values
  sweep_values_iff quiet now name d [] p = some_iff p
  sweep_values_iff quiet now name d (e ∷ es) p =
      bind_iff _ _ (sweep_value_iff quiet now name d e p)
        (λ p'. sweep_values_iff quiet now name d es p')

  sweep_metrics_iff :
      (quiet now : ℕ) (ms : List (String × MetricData)) (p : Metrics)
      → (sweep_metrics quiet now ms p ≡ none)
        ↔ AnyOf (λ m. AnyOf (Stuck quiet now m.1) (entries m.1.label_values)) ms
  unfolding sweep_metrics
  sweep_metrics_iff quiet now [] p = some_iff p
  sweep_metrics_iff quiet now ((name, d) ∷ rest) p =
      bind_iff _ _ (sweep_values_iff quiet now name d (entries d.label_values) p)
        (λ p'. sweep_metrics_iff quiet now rest p')

  -- The sweep of `Push` panics exactly if a vector of gauges has a key that was not written
  -- for more than two reporting intervals and that, split at the delimiter, does not fit the
  -- labels of the vector.
  pub sweep_iff :
      (interval now : ℕ) (p : Metrics)
      → (sweep interval now p ≡ none)
        ↔ AnyOf (λ m. AnyOf (Stuck (interval * 2) now m.1) (entries m.1.label_values)) p.metrics
  unfolding sweep
  sweep_iff interval now p = sweep_metrics_iff (interval * 2) now p.metrics p
