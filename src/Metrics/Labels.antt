-- ===== src/Metrics/Labels.antt =====
-- metrics/metrics.go: numbers of a span's fields, and the labels of its metrics. A panic is none.
-- What Go does with a `float64`, a bit pattern, is a parameter.
use tracing_proxy.Base.{
  ℕ, String, List, [], ◌∷◌, Option, none, some, Bool, true, false, ◌||◌, text_discrete, ite,
  if◌then◌else◌,
}
use tracing_proxy.Base.Int.{ℤ}
use tracing_proxy.Base.Dict.{lookup, insert}
use tracing_proxy.Base.Fallible.{◌>>=◌}
use tracing_proxy.Types.{Value, Fields}
use tracing_proxy.Metrics.{LabelMap}

-- conversions to `float64`, a difference, the quotient by `time.Millisecond`, and 0 and 1
pub record Numbers : Type 0 where
  pub of_int : ℤ → ℕ
  pub of_uint : ℕ → ℕ
  pub minus : ℕ → ℕ → ℕ
  pub in_millis : ℕ → ℕ
  pub zero : ℕ
  pub one : ℕ

unfoldable pub convert_numeric : Numbers → Option Value → ℕ
convert_numeric numbers (some (Value.int n)) = numbers.of_int n
convert_numeric numbers (some (Value.int64 n)) = numbers.of_int n
convert_numeric numbers (some (Value.uint n)) = numbers.of_uint n
convert_numeric numbers (some (Value.float64 x)) = x
convert_numeric numbers _ = numbers.zero

unfoldable pub get_field : String → Fields → Option Value
unfolding text_discrete
get_field k Fields.end = none
get_field k (Fields.field j v rest) = ite (text_discrete j k) (some v) (get_field k rest)

-- what a key was found to hold
pub data Found : Type 0 where
  -- no value; `exists` tells whether there is the key, with nil
  nothing : Bool → Found
  is_text : String → Found
  no_text : Found

unfoldable pub found : Option Value → Found
found none = nothing false
found (some Value.null) = nothing true
found (some (Value.text s)) = is_text s
found (some _) = no_text

-- one of the attributes of the span, read as a map, which panics for another value
unfoldable pub search_attribute : String → Bool → Option Value → Option Found
unfolding found get_field
search_attribute key exists none = some (nothing exists)
search_attribute key exists (some Value.null) = some (nothing exists)
search_attribute key exists (some (Value.object fields)) = some (found (get_field key fields))
search_attribute key exists (some _) = none

-- the search goes on where nothing was found
unfoldable pub or_search : (Bool → Option Found) → Found → Option Found
or_search more (nothing exists) = more exists
or_search more r = some r

-- the loop over the attributes, with `exists` so far
unfoldable pub search_attributes :
    String → List String → List (String × Value) → Bool → Option Found
unfolding lookup search_attribute or_search
search_attributes key [] values exists = some (nothing exists)
search_attributes key (a ∷ rest) values exists =
    search_attribute key exists (lookup a values) >>= or_search (search_attributes key rest values)

abbrev pub attribute_map_keys : List String
attribute_map_keys = "spanAttributes" ∷ "resourceAttributes" ∷ "eventAttributes" ∷ []

-- the label after a key was looked for in the attributes, and `searchKeyExists`
unfoldable pub label_after : Found → Option String → Bool → Option String × Bool
label_after (is_text s) label known = (some s, true)
label_after (nothing exists) label known =
    if exists || known then (label, known) else (some "", known)
label_after no_text label known = (label, known)

-- the loop over the keys of a label, with the label so far and `searchKeyExists`
unfoldable pub search_keys :
    List String → List (String × Value) → Option String → Bool → Option (Option String)
unfolding lookup found search_attributes label_after
search_keys [] values label known = some label
search_keys (key ∷ keys) values label known = elim (found (lookup key values)) [
  | is_text s ↦ some (some s)
  | no_text ↦ some label
  | nothing exists ↦ search_attributes key attribute_map_keys values exists >>= λ r.
      let (label', known') = label_after r label known in search_keys keys values label' known'
]

unfoldable pub put_label : String → Option String → LabelMap → LabelMap
unfolding insert
put_label name none labels = labels
put_label name (some v) labels = insert name v labels

unfoldable pub extract_labels :
    List (String × List String) → List (String × Value) → LabelMap → Option LabelMap
unfolding search_keys put_label
extract_labels [] values labels = some labels
extract_labels ((name, keys) ∷ rest) values labels = search_keys keys values none false >>= λ label.
    extract_labels rest values (put_label name label labels)

unfoldable pub extract_labels_from_span :
    List (String × List String) → List (String × Value) → Option LabelMap
unfolding extract_labels
extract_labels_from_span label_to_key_map values = extract_labels label_to_key_map values []
