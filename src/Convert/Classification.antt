-- ===== src/Convert/Classification.antt =====
-- pkg/convert/classification.go: the kind of a span, by the attributes of its resource, its scope
-- and itself. `strings.ToLower` after `strings.TrimSpace` is a parameter, as are the attributes'
-- accessors.
pub mod Covers
use text.Mathlib.Text.{starts_with}
use tracing_proxy.Base.{
  String, List, [], ◌∷◌, Option, none, some, Bool, true, false, ◌||◌, if◌then◌else◌, same_text,
}
use tracing_proxy.Base.Dict.{lookup, insert}

abbrev pub web_transaction : String
web_transaction = "web"

abbrev pub non_web_transaction : String
non_web_transaction = "non-web"

abbrev pub unknown : String
unknown = "unknown"

-- The map that the code builds has these four keys.
pub record Classification : Type 0 where
  pub type : String
  pub category : String
  pub sub_category : String
  pub language : String

-- `_categoryAttributes`: the first attribute that a span has gives its category
abbrev pub category_attributes : List (String × String)
category_attributes =
    ("http.request.method", "HTTP")
    ∷ ("db.system", "Databases")
    ∷ ("messaging.system", "Messaging queues")
    ∷ ("rpc.system", "RPC Systems")
    ∷ ("aws.s3.bucket", "Object Store")
    ∷ ("exception.type", "Exceptions")
    ∷ ("faas.trigger", "FAAS (Function as a service)")
    ∷ ("feature_flag.key", "Feature Flag")
    ∷ ("telemetry.sdk.language", "Programming Language")
    ∷ []

unfoldable pub is_web_key : String → Bool
is_web_key key = starts_with key "http." || starts_with key "user_agent." || starts_with key "rpc."

-- the loop over the categories: the category and the sub-category
unfoldable pub categorize : List (String × String) → List (String × String) → String × String
unfolding lookup
categorize attributes [] = (unknown, unknown)
categorize attributes ((key, category) ∷ rest) = elim (lookup key attributes) [
  | some value ↦ (category, value)
  | none ↦ categorize attributes rest
]

unfoldable pub language_of : List (String × String) → String
unfolding lookup same_text
language_of attributes = elim (lookup "telemetry.sdk.language" attributes) [
  | some value ↦ if same_text value "" then unknown else value
  | none ↦ unknown
]

-- an attribute: its key, and its text, empty for a value that is not a text
abbrev pub KeyValue : Type 0
KeyValue = String × String

module _ (normal : String → String) where
  -- the loop over the attributes: the type, and the map of their values
  unfoldable pub gather :
      String → List (String × String) → List KeyValue → String × List (String × String)
  unfolding insert is_web_key
  gather type attributes [] = (type, attributes)
  gather type attributes ((key, value) ∷ rest) =
      gather (if is_web_key (normal key) then web_transaction else type)
        (insert (normal key) value attributes) rest

  -- `DetermineClassification` of one list of attributes, which is all that the code passes
  unfoldable pub determine_classification : List KeyValue → Classification
  unfolding gather categorize language_of
  determine_classification attrs =
      let (type, attributes) = gather non_web_transaction [] attrs in
      let (category, sub_category) = categorize attributes category_attributes in
      record {
        type = type;
        category = category;
        sub_category = sub_category;
        language = language_of attributes;
      }

  unfoldable pub is_unknown : String → Bool
  unfolding same_text
  is_unknown s = same_text s unknown || same_text s ""

  -- the merge of what was known with what the attributes say
  unfoldable pub merge : Classification → Classification → Classification
  unfolding is_unknown same_text
  merge existing new = record {
    type = if same_text existing.type web_transaction then web_transaction else new.type;
    category = if is_unknown new.category then existing.category else new.category;
    sub_category = if is_unknown new.category then existing.sub_category else new.sub_category;
    language = if is_unknown new.language then existing.language else new.language;
  }

  -- `NormalizeClassification`: an empty map is none
  unfoldable pub normalize_classification : Option Classification → List KeyValue → Classification
  unfolding determine_classification merge
  normalize_classification none attrs = determine_classification attrs
  normalize_classification (some existing) attrs = merge existing (determine_classification attrs)

  -- `TranslateTraceRequest`: the resource, then the scope if there is one; the span follows in
  -- `own_attributes`, if it has attributes
  unfoldable pub classify_resource : Option (List KeyValue) → Option Classification
  unfolding determine_classification
  classify_resource (some attrs) = some (determine_classification attrs)
  classify_resource none = none

  unfoldable pub classify_scope :
      Option Classification → Option (List KeyValue) → Option Classification
  unfolding normalize_classification
  classify_scope existing (some attrs) = some (normalize_classification existing attrs)
  classify_scope existing none = existing
