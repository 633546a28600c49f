-- ===== src/Conditions.antt =====
-- The conditions of rules as config/sampler_config.go prepares them: `setMatchesFunction`, which
-- chooses by operator and type a test of a span's value. The formatter, the parsers of numbers and
-- the conversions and order of floats, which are bit patterns, are parameters.
pub mod Agrees
use Prim.Native.String.{◌++◌}
use text.Mathlib.Text.{starts_with}
use tracing_proxy.Base.{
  ℕ, Result, String, Option, none, some, Bool, true, false, ◌&&◌, ◌||◌, not, if◌then◌else◌,
  same_text,
}
use tracing_proxy.Base.Int.{ℤ, pos, ltb_ℤ}
use tracing_proxy.Types.{Value}
use tracing_proxy.Sample.{Floats, Comparison, compare_texts, is_less, is_equal, by_order, contains}

-- `fmt.Sprintf` with %v, the parsers of package strconv, and the conversion of a float to `int`
pub record Conversions : Type 0 where
  pub floats : Floats
  pub print : Value → String
  pub atoi : String → Option ℤ
  pub parse_float : String → Option ℕ
  pub parse_bool : String → Option Bool
  pub int_of_float : ℕ → ℤ
  -- `==` of two floats
  pub same_float : ℕ → ℕ → Bool

pub record TypedCondition : Type 0 where
  pub field : String
  pub operator : String
  pub value : Value
  pub datatype : String

-- The field `Matches`, of a value and whether it exists; nil is none.
abbrev pub Matches : Type 0
Matches = Option (Value → Bool → Bool)

-- The comparisons that the code writes out for each type: `=`, `<` and the operator.
unfoldable pub relation :
    {A : Type 0} → (A → A → Bool) → (A → A → Bool) → String → Option (A → A → Bool)
unfolding same_text
relation same lower operator =
    if same_text operator "!="
    then some (λ n c. not (same n c))
    else if same_text operator "="
    then some same
    else if same_text operator ">"
    then some (λ n c. lower c n)
    else if same_text operator ">="
    then some (λ n c. lower c n || same n c)
    else if same_text operator "<"
    then some lower
    else if same_text operator "<="
    then some (λ n c. lower n c || same n c)
    else none

abbrev pub text_lower : String → String → Bool
text_lower a b = is_less (compare_texts a b)

-- Texts have no case for `>=`.
unfoldable pub text_relation : String → Option (String → String → Bool)
unfolding relation same_text
text_relation operator =
    if same_text operator ">=" then none else relation same_text text_lower operator

abbrev pub same_ℤ : ℤ → ℤ → Bool
same_ℤ a b = not (ltb_ℤ a b) && not (ltb_ℤ b a)

unfoldable pub same_bool : Bool → Bool → Bool
same_bool true b = b
same_bool false b = not b

abbrev pub is_comparison : String → Bool
is_comparison operator =
    same_text operator "!="
    || same_text operator "="
    || same_text operator ">"
    || same_text operator "<"
    || same_text operator "<="
    || same_text operator ">="

abbrev pub is_search : String → Bool
is_search operator =
    same_text operator "starts-with"
    || same_text operator "contains"
    || same_text operator "does-not-contain"

module _ (C : Conversions) where
  open C use {print, atoi, parse_float, parse_bool, int_of_float, same_float, floats}

  unfoldable pub try_convert_to_int : Value → Option ℤ
  try_convert_to_int (Value.int n) = some n
  try_convert_to_int (Value.int64 n) = some n
  try_convert_to_int (Value.float64 x) = some (int_of_float x)
  try_convert_to_int (Value.text s) = atoi s
  try_convert_to_int _ = none

  unfoldable pub try_convert_to_float : Value → Option ℕ
  try_convert_to_float (Value.float64 x) = some x
  try_convert_to_float (Value.int n) = some (floats.of_int n)
  try_convert_to_float (Value.int64 n) = some (floats.of_int n)
  try_convert_to_float (Value.text s) = parse_float s
  try_convert_to_float _ = none

  -- `tryConvertToBool`: false as well where the text is not a Boolean
  unfoldable pub try_convert_to_bool : Value → Bool
  try_convert_to_bool v = elim (parse_bool (print v)) [ some b ↦ b | none ↦ false ]

  -- the function that a case stores, for the value of the condition
  unfoldable pub matcher :
      {A : Type 0} → (Value → Option A) → (A → A → Bool) → A → Value → Bool → Bool
  matcher convert related c v exists = elim (convert v) [
    | some n ↦ exists && related n c
    | none ↦ false
  ]

  unfoldable pub stored : {A : Type 0} → (Value → Option A) → A → Option (A → A → Bool) → Matches
  unfolding matcher
  stored convert c (some related) = some (matcher convert related c)
  stored convert c none = none

  unfoldable pub could_not_convert : Value → String
  could_not_convert v = "could not convert " ++ print v ++ " to string"

  -- a type whose conversion may fail
  unfoldable pub typed :
      {A : Type 0} → (Value → Option A) → Option (A → A → Bool) → Value → Result String Matches
  unfolding stored could_not_convert
  typed convert related v = elim (convert v) [
    | some c ↦ Result.ok (stored convert c related)
    | none ↦ Result.err (could_not_convert v)
  ]

  -- the function of a Boolean condition: it looks at a span's value only if that is true
  unfoldable pub bool_matcher : (Bool → Bool → Bool) → Bool → Value → Bool → Bool
  unfolding try_convert_to_bool
  bool_matcher related c v exists =
      if exists && try_convert_to_bool v then related (try_convert_to_bool v) c else false

  unfoldable pub bool_typed : String → Value → Matches
  unfolding bool_matcher same_text same_bool
  bool_typed operator v =
      if same_text operator "!="
      then some (bool_matcher (λ n c. not (same_bool n c)) (try_convert_to_bool v))
      else if same_text operator "="
      then some (bool_matcher same_bool (try_convert_to_bool v))
      else none

  unfoldable pub set_compare_operators : TypedCondition → Result String Matches
  unfolding same_text typed text_relation relation bool_typed try_convert_to_int
      try_convert_to_float stored
  set_compare_operators r =
      if same_text r.datatype "string"
      then Result.ok (stored (λ v. some (print v)) (print r.value) (text_relation r.operator))
      else if same_text r.datatype "int"
      then typed try_convert_to_int (relation same_ℤ ltb_ℤ r.operator) r.value
      else if same_text r.datatype "float"
      then typed try_convert_to_float (relation same_float floats.below r.operator) r.value
      else if same_text r.datatype "bool"
      then Result.ok (bool_typed r.operator r.value)
      else if same_text r.datatype ""
      then Result.ok none
      else Result.err (r.datatype ++ " must be either string, int, float or bool")

  -- These look at the printed value, whether or not it exists.
  unfoldable pub set_match_string_based_operators : TypedCondition → Matches
  unfolding same_text
  set_match_string_based_operators r =
      let c = print r.value in
      if same_text r.operator "starts-with"
      then some (λ v exists. starts_with (print v) c)
      else if same_text r.operator "contains"
      then some (λ v exists. contains (print v) c)
      else some (λ v exists. not (contains (print v) c))

  unfoldable pub set_matches_function : TypedCondition → Result String Matches
  unfolding same_text set_compare_operators set_match_string_based_operators
  set_matches_function r =
      if same_text r.operator "exists"
      then Result.ok (some (λ v exists. exists))
      else if same_text r.operator "not-exists"
      then Result.ok (some (λ v exists. not exists))
      else if is_comparison r.operator
      then set_compare_operators r
      else if is_search r.operator
      then Result.ok (set_match_string_based_operators r)
      else Result.err ("unknown operator '" ++ r.operator ++ "'")
