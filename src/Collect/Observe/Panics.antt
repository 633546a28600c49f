-- ===== src/Collect/Observe/Panics.antt =====
-- When the loop of `send` of collect/collect.go over the spans of a trace panics.
use tracing_proxy.Base.{
  ℕ, ◌≡◌, refl, ◌↔◌, ◌⊎◌, inl, inr, String, List, [], ◌∷◌, Option, none, some, Bool, true, false,
  Bool-cases, map, ◌++◌,
}
use tracing_proxy.Base.Dict.{lookup}
use tracing_proxy.Base.Fallible.{◌>>=◌, AnyOf, bind_iff, some_iff, last_iff}
use tracing_proxy.Types.{Value, Span}
use tracing_proxy.Collect.State.{is_nil}
use tracing_proxy.Metrics.{LabelMap}
use tracing_proxy.Metrics.Labels.{
  Found, nothing, is_text, no_text, found, get_field, search_attribute, or_search,
  search_attributes, attribute_map_keys, search_keys, put_label, extract_labels,
  extract_labels_from_span,
}
use tracing_proxy.Collect.Observe.{
  Printer, label_to_key_map, error_status, observe_duration, observe_span, observe_spans,
}

-- A value that cannot be read as a map.
abbrev pub NotMap : Option Value → Type 0
NotMap none = ⊥
NotMap (some Value.null) = ⊥
NotMap (some (Value.object fields)) = ⊥
NotMap (some _) = Unit

-- An attribute in which a key has no value.
abbrev pub Passes : String → Option Value → Type 0
Passes key none = Unit
Passes key (some Value.null) = Unit
Passes key (some (Value.object fields)) = is_nil (get_field key fields) ≡ true
Passes key (some _) = ⊥

-- One of the attributes cannot be read as a map, and the key has no value in those before it.
abbrev pub Blocks : String → List String → List (String × Value) → Type 0
Blocks key [] values = ⊥
Blocks key (a ∷ rest) values =
    NotMap (lookup a values) ⊎ (Passes key (lookup a values) × Blocks key rest values)

-- The key has no value in the span itself, and the search in its attributes is stopped.
abbrev pub LabelBreaks : List (String × Value) → String × List String → Type 0
LabelBreaks values (name, []) = ⊥
LabelBreaks values (name, key ∷ keys) =
    (is_nil (lookup key values) ≡ true) × Blocks key attribute_map_keys values

-- neither nil nor a `bool`
abbrev pub NotBool : Option Value → Type 0
NotBool none = ⊥
NotBool (some Value.null) = ⊥
NotBool (some (Value.bool b)) = ⊥
NotBool (some _) = Unit

found_cases :
    (v : Option Value)
    → ((is_nil v ≡ true) × ((e : Bool) × (found v ≡ nothing e)))
      ⊎ ((is_nil v ≡ false) × ((found v ≡ no_text) ⊎ ((s : String) × (found v ≡ is_text s))))
unfolding found is_nil
found_cases none = inl (refl, (false, refl))
found_cases (some Value.null) = inl (refl, (true, refl))
found_cases (some (Value.text s)) = inr (refl, inr (s, refl))
found_cases (some (Value.bool b)) = inr (refl, inl refl)
found_cases (some (Value.int n)) = inr (refl, inl refl)
found_cases (some (Value.int64 n)) = inr (refl, inl refl)
found_cases (some (Value.uint n)) = inr (refl, inl refl)
found_cases (some (Value.float64 x)) = inr (refl, inl refl)
found_cases (some (Value.bytes b)) = inr (refl, inl refl)
found_cases (some (Value.object fields)) = inr (refl, inl refl)

-- a step that goes on just if nothing was found
or_search_iff :
    (v : Option Value) (more : Bool → Option Found) {Q : Type 0}
    → ((e : Bool) → (more e ≡ none) ↔ Q)
    → (or_search more (found v) ≡ none) ↔ ((is_nil v ≡ true) × Q)
unfolding or_search
or_search_iff v more h = elim (found_cases v) [
  | inl (n, (e, f)) ↦ let (a, b) = h e in rw f (λ m. (n, a m), λ k. b k.1)
  | inr (n, inl f) ↦ rw f (λ m. cc m, λ k. cc (k.0, n))
  | inr (n, inr (s, f)) ↦ rw f (λ m. cc m, λ k. cc (k.0, n))
]

search_attribute_iff :
    (key : String) (exists : Bool) (v : Option Value) (more : Bool → Option Found) {Q : Type 0}
    → ((e : Bool) → (more e ≡ none) ↔ Q)
    → ((search_attribute key exists v >>= or_search more) ≡ none) ↔ (NotMap v ⊎ (Passes key v × Q))
unfolding search_attribute or_search
search_attribute_iff key exists none more h =
    let (a, b) = h exists in (λ m. inr (tt, a m), λ k. elim k [ inl x ↦ absurd x | inr y ↦ b y.1 ])
search_attribute_iff key exists (some Value.null) more h =
    let (a, b) = h exists in (λ m. inr (tt, a m), λ k. elim k [ inl x ↦ absurd x | inr y ↦ b y.1 ])
search_attribute_iff key exists (some (Value.object fields)) more h =
    let (a, b) = or_search_iff (get_field key fields) more h in
    (λ m. inr (a m), λ k. elim k [ inl x ↦ absurd x | inr y ↦ b y ])
search_attribute_iff key exists (some (Value.text s)) more h = (λ m. inl tt, λ k. refl)
search_attribute_iff key exists (some (Value.bool b)) more h = (λ m. inl tt, λ k. refl)
search_attribute_iff key exists (some (Value.int n)) more h = (λ m. inl tt, λ k. refl)
search_attribute_iff key exists (some (Value.int64 n)) more h = (λ m. inl tt, λ k. refl)
search_attribute_iff key exists (some (Value.uint n)) more h = (λ m. inl tt, λ k. refl)
search_attribute_iff key exists (some (Value.float64 x)) more h = (λ m. inl tt, λ k. refl)
search_attribute_iff key exists (some (Value.bytes b)) more h = (λ m. inl tt, λ k. refl)

search_attributes_iff :
    (key : String) (attrs : List String) (values : List (String × Value)) (exists : Bool)
    → (search_attributes key attrs values exists ≡ none) ↔ Blocks key attrs values
unfolding search_attributes
search_attributes_iff key [] values exists = some_iff (nothing exists)
search_attributes_iff key (a ∷ rest) values exists =
    search_attribute_iff key exists (lookup a values) _
      (λ e. search_attributes_iff key rest values e)

error_status_iff : (v : Option Value) → (error_status v ≡ none) ↔ NotBool v
unfolding error_status
error_status_iff none = some_iff false
error_status_iff (some Value.null) = some_iff false
error_status_iff (some (Value.bool b)) = some_iff b
error_status_iff (some (Value.text s)) = (λ m. tt, λ k. refl)
error_status_iff (some (Value.int n)) = (λ m. tt, λ k. refl)
error_status_iff (some (Value.int64 n)) = (λ m. tt, λ k. refl)
error_status_iff (some (Value.uint n)) = (λ m. tt, λ k. refl)
error_status_iff (some (Value.float64 x)) = (λ m. tt, λ k. refl)
error_status_iff (some (Value.bytes b)) = (λ m. tt, λ k. refl)
error_status_iff (some (Value.object fields)) = (λ m. tt, λ k. refl)

search_key_iff :
    (name key : String) (values : List (String × Value))
    → (search_keys (key ∷ []) values none false ≡ none) ↔ LabelBreaks values (name, key ∷ [])
unfolding search_keys
search_key_iff name key values = elim (found_cases (lookup key values)) [
  | inl (n, (e, f)) ↦
      let (a, b) =
        last_iff (
          bind_iff _ _ (search_attributes_iff key attribute_map_keys values e) (λ r. some_iff _)) in
      rw (search_keys, f) (λ m. (n, a m), λ k. b k.1)
  | inr (n, inl f) ↦ rw (search_keys, f) (λ m. cc m, λ k. cc (k.0, n))
  | inr (n, inr (s, f)) ↦ rw (search_keys, f) (λ m. cc m, λ k. cc (k.0, n))
]

abbrev single : String × String → String × List String
single (name, key) = (name, key ∷ [])

extract_labels_iff :
    (ls : List (String × String)) (values : List (String × Value)) (labels : LabelMap)
    → (extract_labels (map single ls) values labels ≡ none)
      ↔ AnyOf (LabelBreaks values) (map single ls)
unfolding extract_labels
extract_labels_iff [] values labels = some_iff labels
extract_labels_iff ((name, key) ∷ rest) values labels =
    bind_iff _ _ (search_key_iff name key values)
      (λ label. extract_labels_iff rest values (put_label name label labels))

abbrev searched : List (String × String)
searched =
    ("service_name", "service_name")
    ∷ ("operation", "spanName")
    ∷ ("app", "app")
    ∷ ("instance", "instance")
    ∷ ("transaction_type", "transaction.type")
    ∷ ("transaction_category", "transaction.category")
    ∷ ("transaction_sub_category", "transaction.sub_category")
    ∷ ("language", "language")
    ∷ []

extract_from_span_iff :
    (values : List (String × Value))
    → (extract_labels_from_span label_to_key_map values ≡ none)
      ↔ AnyOf (LabelBreaks values) label_to_key_map
unfolding extract_labels_from_span
extract_from_span_iff values = extract_labels_iff searched values []

-- The span makes the loop panic.
abbrev pub SpanPanics : Span → Type 0
SpanPanics sp = AnyOf (LabelBreaks sp.values) label_to_key_map ⊎ NotBool (lookup "error" sp.values)

-- a step that may panic as the next one does, and only so
maybe_iff : {N P Q : Type 0} → N ↔ (P ⊎ (Q ⊎ ⊥)) → (P → Q) → N ↔ Q
maybe_iff (a, b) f = (
  λ n. elim (a n) [ inl p ↦ f p | inr h ↦ elim h [ inl q ↦ q | inr x ↦ absurd x ] ],
  λ q. b (inr (inl q)),
)

module _ (printer : Printer) where
  duration_none :
      (labels : LabelMap) (values : List (String × Value)) (now : ℕ)
      → observe_duration printer labels values now ≡ none
      → NotBool (lookup "error" values)
  unfolding observe_duration
  duration_none labels values now = elim (Bool-cases (is_nil (lookup "durationMs" values))) [
    | inl e ↦ rw (observe_duration, e) (λ n. cc n)
    | inr e ↦
        let (a, b) =
          last_iff
            (bind_iff _ _ (error_status_iff (lookup "error" values)) (λ error. some_iff _)) in
        rw (observe_duration, e) (λ n. a n)
  ]

  pub observe_span_iff :
      (sp : Span) (now : ℕ) → (observe_span printer sp now ≡ none) ↔ SpanPanics sp
  unfolding observe_span
  observe_span_iff sp now = bind_iff _ _ (extract_from_span_iff sp.values) (λ labels.
      maybe_iff
        (bind_iff _ _ ((λ n. n, λ n. n)) (λ timed.
          bind_iff _ _ (error_status_iff (lookup "error" sp.values)) (λ error. some_iff _)))
        (duration_none labels sp.values now))

  -- What the loop of `send` reads of the spans, without the writes, panics exactly if some
  -- span has a field "error" that is neither nil nor a bool, or if for one of the eight
  -- labels the span itself has no value under the key and one of its three attributes that
  -- are searched is neither nil nor a map, while those before it have no value under the key
  -- either.
  pub observe_spans_iff :
      (sps : List Span) (now : ℕ) → (observe_spans printer sps now ≡ none) ↔ AnyOf SpanPanics sps
  unfolding observe_spans
  observe_spans_iff [] now = some_iff []
  observe_spans_iff (sp ∷ sps) now =
      bind_iff _ _ (observe_span_iff sp now) (λ ops.
        last_iff (bind_iff _ _ (observe_spans_iff sps now) (λ more. some_iff (ops ++ more))))
