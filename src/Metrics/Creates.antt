-- ===== src/Metrics/Creates.antt =====
-- The operations of metrics/opsramp.go in any order, and the names of the metrics that they make.
-- The Prometheus library panics if a metric is made twice.
pub mod Sequence
pub mod Write
use tracing_proxy.Base.{
  arith, ℕ, ◌-◌, ◌*◌, ltb, ◌≡◌, ◌≢◌, refl, ◌⊎◌, inl, inr, String, List, [], ◌∷◌, ◌++◌, Option, none,
  some, Bool, true, false, if◌then◌else◌, Option-cases, Bool-cases, if-cases, text_discrete, subst,
  sym, ap, ◌∙◌,
}
use tracing_proxy.Base.All.{All, All-map, Apart}
use tracing_proxy.Base.Dict.{lookup, insert, lookup-insert}
use tracing_proxy.Base.Fallible.{◌>>=◌, AllSome, bind-AllSome}
use tracing_proxy.Utils.{set, remove, entries}
use tracing_proxy.Metrics.{
  MetricType, gauge, counter, histogram, Collector, LabelMap, Call, creates, adds, adds_with, sets,
  observes, sets_with, observes_with, clears, deletes, MetricData, Metrics, started, calls_to,
  put_new, type_of, put_typed, register, is_vector, touch, write_single, register_vector,
  register_with_description_labels, increment, count, set_gauge, observe, with_labels, write_vector,
  gauge_with_labels, add_with_labels, increment_with_labels, histogram_with_labels, Library, single,
  vector,
}
use tracing_proxy.Metrics.Sweep.{
  delete_label_values, delete_after, clear_value, sweep_typed, sweep_value, sweep_values,
  sweep_metrics, sweep, minute,
}

-- A call of the type `Metrics`, or the sweep of `Push`. The times are those of the clock.
pub data Op : Type 0 where
  registers : String → String → Op
  describes : String → String → List String → Op
  registers_vector : MetricType → String → List String → Op
  increments : String → ℕ → Op
  counts : String → ℕ → ℕ → Op
  gauges : String → ℕ → ℕ → Op
  records : String → ℕ → ℕ → Op
  gauges_with : String → LabelMap → ℕ → ℕ → Op
  sums_with : String → LabelMap → ℕ → ℕ → Op
  increments_with : String → LabelMap → ℕ → Op
  records_with : String → LabelMap → ℕ → ℕ → Op
  sweeps : ℕ → ℕ → Op

unfoldable pub perform : Library → Op → Metrics → Option Metrics
unfolding register register_with_description_labels register_vector increment count set_gauge
    observe gauge_with_labels add_with_labels increment_with_labels histogram_with_labels sweep
perform lib (registers name t) p = some (register name t p)
perform lib (describes name t labels) p =
    some (register_with_description_labels lib name t labels p)
perform lib (registers_vector t name labels) p = some (register_vector lib t name labels p)
perform lib (increments name now) p = some (increment lib name now p)
perform lib (counts name n now) p = some (count lib name n now p)
perform lib (gauges name v now) p = some (set_gauge lib name v now p)
perform lib (records name v now) p = some (observe lib name v now p)
perform lib (gauges_with name labels v now) p = gauge_with_labels lib name labels v now p
perform lib (sums_with name labels v now) p = add_with_labels lib name labels v now p
perform lib (increments_with name labels now) p = increment_with_labels lib name labels now p
perform lib (records_with name labels v now) p = histogram_with_labels lib name labels v now p
perform lib (sweeps interval now) p = sweep lib interval now p

-- the calls in their order, up to one that panics
unfoldable pub perform_all : Library → List Op → Metrics → Metrics
unfolding perform
perform_all lib [] p = p
perform_all lib (o ∷ os) p = elim (perform lib o p) [ none ↦ p | some p' ↦ perform_all lib os p' ]

-- The name of the metric that a call makes.
abbrev pub made_by : Call → Option String
made_by (creates name c labels) = some name
made_by _ = none

-- The names of the metrics made, in order.
abbrev pub made : List Call → List String
made [] = []
made (c ∷ cs) = elim (made_by c) [ none ↦ made cs | some name ↦ name ∷ made cs ]

abbrev Known : List (String × MetricData) → String → Type 0
Known ms name = lookup name ms ≢ none

abbrev pub IsValid : Metrics → Type 0
IsValid p = Apart (λ a b. a ≢ b) (made p.calls) × All (Known p.metrics) (made p.calls)

insert-Known :
    (name other : String) (d : MetricData) (ms : List (String × MetricData))
    → Known ms other
    → Known (insert name d ms) other
insert-Known name other d ms h = rw (lookup-insert name other d ms) (ground arith)

insert-Known_self :
    (name : String) (d : MetricData) (ms : List (String × MetricData))
    → Known (insert name d ms) name
insert-Known_self name d ms = rw (lookup-insert name name d ms) (ground arith)

made-last_none : (cs : List Call) (c : Call) → made_by c ≡ none → made (cs ++ c ∷ []) ≡ made cs
made-last_none [] c e = rw (made, e) refl
made-last_none (x ∷ cs) c e = elim (Option-cases (made_by x)) [
  | inl n ↦ rw (made, n) (made-last_none cs c e)
  | inr (name, n) ↦ rw (made, n) (ap (λ ns. name ∷ ns) (made-last_none cs c e))
]

made-last_some :
    (cs : List Call) (name : String) (c : Collector) (labels : List String)
    → made (cs ++ creates name c labels ∷ []) ≡ made cs ++ name ∷ []
made-last_some [] name c labels = refl
made-last_some (x ∷ cs) name c labels = elim (Option-cases (made_by x)) [
  | inl n ↦ rw (made, n) (made-last_some cs name c labels)
  | inr (other, n) ↦ rw (made, n) (ap (λ ns. other ∷ ns) (made-last_some cs name c labels))
]

All-last :
    {A : Type 0} (P : A → Type 0) (xs : List A) (y : A) → All P xs → P y → All P (xs ++ y ∷ [])
All-last P [] y h k = (k, tt)
All-last P (x ∷ xs) y h k = (h.0, All-last P xs y h.1 k)

Apart-last :
    {A : Type 0} (R : A → A → Type 0) (xs : List A) (y : A)
    → Apart R xs
    → All (λ x. R x y) xs
    → Apart R (xs ++ y ∷ [])
Apart-last R [] y h k = (tt, tt)
Apart-last R (x ∷ xs) y h k = (All-last (R x) xs y h.0 k.0, Apart-last R xs y h.1 k.1)

-- a change of the metrics that forgets no name, and a call that makes nothing
frame :
    (p p' : Metrics)
    → IsValid p
    → made p'.calls ≡ made p.calls
    → ((name : String) → Known p.metrics name → Known p'.metrics name)
    → IsValid p'
frame p p' v e f = rw e (v.0, All-map (made p.calls) f v.1)

pub calls_to-IsValid :
    (c : Call) (p : Metrics) → made_by c ≡ none → IsValid p → IsValid (calls_to c p)
unfolding calls_to
calls_to-IsValid c p e v = frame p (calls_to c p) v (made-last_none p.calls c e) (λ name k. k)

pub put_new-IsValid :
    (name : String) (c : Option Collector) (t : MetricType) (labels : List String) (p : Metrics)
    → IsValid p
    → IsValid (put_new name c t labels p)
unfolding put_new calls_to
put_new-IsValid name c t labels p v = elim (Option-cases (lookup name p.metrics)) [
  | inr (d, e) ↦ rw (IsValid, put_new, e) v
  | inl e ↦ elim (Option-cases c) [
    | inl n ↦
        rw (IsValid, put_new, e, n)
          (v.0, All-map (made p.calls) (λ other. insert-Known name other _ p.metrics) v.1)
    | inr (made', n) ↦
        rw (IsValid, put_new, e, n, made-last_some p.calls name made' labels)
          (
            Apart-last (λ a b. a ≢ b) (made p.calls) name v.0
                (All-map (made p.calls) (λ other k same. k (rw same e)) v.1),
            All-last (Known _) (made p.calls) name
                (All-map (made p.calls) (λ other. insert-Known name other _ p.metrics) v.1)
                (insert-Known_self name _ p.metrics),
          )
  ]
]

pub put_typed-IsValid :
    (name : String) (make : MetricType → Collector) (t : Option MetricType) (labels : List String)
    (p : Metrics)
    → IsValid p
    → IsValid (put_typed name make t labels p)
unfolding put_typed
put_typed-IsValid name make none labels p v = put_new-IsValid name none gauge labels p v
put_typed-IsValid name make (some t) labels p v = put_new-IsValid name (some (make t)) t labels p v

pub insert-IsValid :
    (name : String) (d : MetricData) (p : Metrics)
    → IsValid p
    → IsValid (record p { metrics = insert name d p.metrics })
insert-IsValid name d p v =
    frame p (record p { metrics = insert name d p.metrics }) v refl
      (λ other. insert-Known name other d p.metrics)

pub if-IsValid :
    (b : Bool) (c : Call) (p : Metrics)
    → made_by c ≡ none
    → IsValid p
    → IsValid (if b then calls_to c p else p)
if-IsValid b c p e v = if-cases IsValid b (calls_to c p) p (calls_to-IsValid c p e v) v
