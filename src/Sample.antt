-- ===== src/Sample.antt =====
-- The conditions of rules in sample/rules.go: `compare`, `conditionMatchesValue` and
-- `extractValueFromSpan`. The children model the rules and what holds of them. Conversion to and
-- order of `float64` belong to the language, and the search in JSON to a package: parameters.
pub mod Rules
pub mod Matches
pub mod Dynamic
pub mod Factory
pub mod Deterministic
pub mod TraceKey
use Prim.Native.Nat.{Ordering}
use Prim.Native.String.{compare, find, len}
use text.Mathlib.Text.{starts_with}
use tracing_proxy.Base.{
  ℕ, String, List, Option, none, some, Bool, true, false, ◌&&◌, ◌||◌, not, leb, if◌then◌else◌,
  same_text,
}
use tracing_proxy.Base.Int.{ℤ, ltb_ℤ}
use tracing_proxy.Base.Dict.{lookup}
use tracing_proxy.Types.{Span, Value}

-- the constants less, equal and more
pub data Comparison : Type 0 where
  less equal more : Comparison

-- `float64(n)`, and `<` of two floats by their bit patterns
pub record Floats : Type 0 where
  pub of_int : ℤ → ℕ
  pub below : ℕ → ℕ → Bool

-- a `switch` on `<` and `>`
abbrev pub by_order {ℓ} : {A : Type ℓ} → (A → A → Bool) → A → A → Comparison
by_order lt a b =
    if lt a b then Comparison.less else if lt b a then Comparison.more else Comparison.equal

abbrev pub bool_below : Bool → Bool → Bool
bool_below a b = not a && b

abbrev pub compare_texts : String → String → Comparison
compare_texts a b = elim (compare a b) [
  | Ordering.lt ↦ Comparison.less
  | Ordering.eq ↦ Comparison.equal
  | Ordering.gt ↦ Comparison.more
]

abbrev pub is_null : Value → Bool
is_null Value.null = true
is_null _ = false

abbrev pub holds : (Comparison → Bool) → Option Comparison → Bool
holds test none = false
holds test (some c) = test c

abbrev pub is_less : Comparison → Bool
is_less Comparison.less = true
is_less _ = false

abbrev pub is_equal : Comparison → Bool
is_equal Comparison.equal = true
is_equal _ = false

abbrev pub is_more : Comparison → Bool
is_more Comparison.more = true
is_more _ = false

-- two texts, tested
abbrev pub texts : (String → String → Bool) → Value → Value → Bool
texts test (Value.text a) (Value.text b) = test a b
texts test _ _ = false

-- `strings.Contains`
abbrev pub contains : String → String → Bool
contains a b = leb (find a b) (len a)

module _ (R : Floats) where
  open R use {of_int, below}

  -- the cases of `compare` on the second value, for each type of the first; `int` and `int64` have
  -- 64 bits
  abbrev pub compare_int64 : ℤ → Value → Option Comparison
  compare_int64 a (Value.int b) = some (by_order ltb_ℤ a b)
  compare_int64 a (Value.int64 b) = some (by_order ltb_ℤ a b)
  compare_int64 a (Value.float64 b) = some (by_order below (of_int a) b)
  compare_int64 a _ = none

  abbrev pub compare_float64 : ℕ → Value → Option Comparison
  compare_float64 a (Value.int b) = some (by_order below a (of_int b))
  compare_float64 a (Value.int64 b) = some (by_order below a (of_int b))
  compare_float64 a (Value.float64 b) = some (by_order below a b)
  compare_float64 a _ = none

  abbrev pub compare_bool : Bool → Value → Option Comparison
  compare_bool a (Value.bool b) = some (by_order bool_below a b)
  compare_bool a _ = none

  abbrev pub compare_text : String → Value → Option Comparison
  compare_text a (Value.text b) = some (compare_texts a b)
  compare_text a _ = none

  -- `compare` of two values that are not nil
  abbrev pub compare_typed : Value → Value → Option Comparison
  compare_typed (Value.int64 a) b = compare_int64 a b
  compare_typed (Value.float64 a) b = compare_float64 a b
  compare_typed (Value.bool a) b = compare_bool a b
  compare_typed (Value.text a) b = compare_text a b
  compare_typed _ b = none

  -- `compare`; none where the second answer is false
  unfoldable pub compare_values : Value → Value → Option Comparison
  compare_values a b =
      if is_null a
      then some (if is_null b then Comparison.equal else Comparison.less)
      else if is_null b
      then some Comparison.more
      else compare_typed a b

  -- the cases of `conditionMatchesValue` for a value that exists
  unfoldable pub operator_holds : String → Value → Value → Bool
  unfolding same_text compare_values
  operator_holds operator value v =
      let c = compare_values value v in
      if same_text operator "exists"
      then true
      else if same_text operator "!="
      then holds (λ o. not (is_equal o)) c
      else if same_text operator "="
      then holds is_equal c
      else if same_text operator ">"
      then holds is_more c
      else if same_text operator ">="
      then holds (λ o. is_more o || is_equal o) c
      else if same_text operator "<"
      then holds is_less c
      else if same_text operator "<="
      then holds (λ o. is_less o || is_equal o) c
      else if same_text operator "starts-with"
      then texts starts_with value v
      else if same_text operator "contains"
      then texts contains value v
      else if same_text operator "does-not-contain"
      then texts (λ a b. not (contains a b)) value v
      else false

pub record Condition : Type 0 where
  pub field : String
  pub operator : String
  pub value : Value

-- `conditionMatchesValue`: none is a value that does not exist
unfoldable pub condition_matches_value : Floats → Condition → Option Value → Bool
unfolding operator_holds same_text
condition_matches_value R c (some v) = operator_holds R c.operator v c.value
condition_matches_value R c none = same_text c.operator "not-exists"

-- `nested` is the search of a path in the span's fields as JSON, by `gjson.Get`.
unfoldable pub extract_value_from_span :
    (Span → String → Option String) → Bool → Span → Condition → Option Value
extract_value_from_span nested check_nested_fields sp c = elim (lookup c.field sp.values) [
  | some v ↦ some v
  | none ↦
      if check_nested_fields
      then elim (nested sp c.field) [ some s ↦ some (Value.text s) | none ↦ none ]
      else none
]
