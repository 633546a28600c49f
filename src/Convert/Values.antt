-- ===== src/Convert/Values.antt =====
-- pkg/convert/common.go: the values of OTLP attributes, and the map that a list of attributes is
-- written into. JSON encoding is a parameter, with the chunks in which it writes. A panic is none.
pub mod Writer
pub mod Panics
use tracing_proxy.Base.{
  ℕ, ◌+◌, ◌-◌, String, Bool, true, false, List, [], ◌∷◌, ◌++◌, Option, none, some, length, take,
  ltb, ◌==◌, if◌then◌else◌, same_text, text_discrete, ite,
}
use tracing_proxy.Base.Int.{ℤ}
use tracing_proxy.Base.Dict.{insert}
use tracing_proxy.Base.Fallible.{◌>>=◌}
use tracing_proxy.Types.{Value}

-- `AnyValue`. In a list of keys and values the value may be missing, a nil pointer; in an array
-- it is not, since the decoder makes each element. A value with nothing set is `unset`.
mutual
  pub data AnyValue : Type 0 where
    unset : AnyValue
    string_value : String → AnyValue
    bool_value : Bool → AnyValue
    double_value : ℕ → AnyValue
    int_value : ℤ → AnyValue
    bytes_value : List ℕ → AnyValue
    array_value : Items → AnyValue
    kvlist_value : Members → AnyValue

  pub data Items : Type 0 where
    no_items : Items
    item : AnyValue → Items → Items

  pub data Members : Type 0 where
    no_members : Members
    member : String → AnyValue → Members → Members
    -- a key without a value
    missing : String → Members → Members

-- What `getMarshallableValue` answers. A map lists its keys in the order of their last writes.
mutual
  pub data Marshallable : Type 0 where
    nil : Marshallable
    text : String → Marshallable
    bool : Bool → Marshallable
    float64 : ℕ → Marshallable
    int64 : ℤ → Marshallable
    bytes : List ℕ → Marshallable
    array : Elements → Marshallable
    object : Entries → Marshallable

  pub data Elements : Type 0 where
    end : Elements
    element : Marshallable → Elements → Elements

  pub data Entries : Type 0 where
    empty : Entries
    entry : String → Marshallable → Entries → Entries

-- the entry with the key, if there is one, is written over
unfoldable pub write_entry : String → Marshallable → Entries → Entries
write_entry k v empty = entry k v empty
write_entry k v (entry j w es) =
    ite (text_discrete j k) (entry k v es) (entry j w (write_entry k v es))

abbrev pub both : {A B C : Type 0} → (A → B → C) → Option A → Option B → Option C
both f (some a) (some b) = some (f a b)
both f (some a) none = none
both f none b = none

abbrev pub mapped : {A B : Type 0} → (A → B) → Option A → Option B
mapped f (some a) = some (f a)
mapped f none = none

unfoldable mutual
  unfolding write_entry

  pub get_marshallable_value : AnyValue → Option Marshallable
  get_marshallable_value unset = some nil
  get_marshallable_value (string_value s) = some (Marshallable.text s)
  get_marshallable_value (bool_value b) = some (Marshallable.bool b)
  get_marshallable_value (double_value x) = some (Marshallable.float64 x)
  get_marshallable_value (int_value n) = some (Marshallable.int64 n)
  get_marshallable_value (bytes_value bs) = some (Marshallable.bytes bs)
  get_marshallable_value (array_value items) = mapped array (marshal_items items)
  get_marshallable_value (kvlist_value pairs) =
      mapped Marshallable.object (marshal_members pairs empty)

  pub marshal_items : Items → Option Elements
  marshal_items no_items = some end
  marshal_items (item v items) = both element (get_marshallable_value v) (marshal_items items)

  -- the loop over the members, with its map so far
  pub marshal_members : Members → Entries → Option Entries
  marshal_members no_members es = some es
  marshal_members (member k v pairs) es = elim (get_marshallable_value v) [
    | none ↦ none
    | some m ↦ marshal_members pairs (write_entry k m es)
  ]
  marshal_members (missing k pairs) es = none

-- `limitedWriter`: what it was told to write is cut off at `max`.
pub record LimitedWriter : Type 0 where
  pub max : ℕ
  pub w : List ℕ
  pub truncated_bytes : ℕ

unfoldable pub new_limited_writer : ℕ → LimitedWriter
new_limited_writer n = record { max = n; w = []; truncated_bytes = 0 }

-- `Write`, which answers that all of `b` is written
unfoldable pub write : LimitedWriter → List ℕ → LimitedWriter
write l b =
    let n = length b in
    let kept = if ltb l.max (n + length l.w) then take (l.max - length l.w) b else b in
    record l { w = l.w ++ kept; truncated_bytes = l.truncated_bytes + (n - length kept) }

unfoldable pub write_all : LimitedWriter → List (List ℕ) → LimitedWriter
unfolding write
write_all l [] = l
write_all l (b ∷ bs) = write_all (write l b) bs

abbrev pub field_size_max : ℕ
field_size_max = 65535

-- an attribute of a message, with its value if it has one
abbrev pub Attribute : Type 0
Attribute = String × Option AnyValue

-- `encode` answers the chunks that the encoder of JSON writes, or an error; `to_text` is `string`.
pub record Encoder : Type 0 where
  pub encode : Marshallable → Option (List (List ℕ))
  pub to_text : List ℕ → String

-- The field for the number of bytes cut off gets the value.
unfoldable pub put_value : String → Option Value × ℕ → List (String × Value) → List (String × Value)
unfolding insert
put_value key (none, n) attrs = attrs
put_value key (some v, n) attrs =
    if n == 0
    then insert key v attrs
    else insert "meta.truncated_field" (Value.text key)
        (insert "meta.truncated_bytes" v (insert key v attrs))

module _ (E : Encoder) where
  unfoldable pub encoded : Marshallable → Option Value × ℕ
  unfolding write_all new_limited_writer
  encoded m = elim (E.encode m) [
    | none ↦ (none, 0)
    | some chunks ↦
        let w = write_all (new_limited_writer field_size_max) chunks in
        (some (Value.text (E.to_text w.w)), w.truncated_bytes)
  ]

  -- the value, none for nil, and the number of bytes cut off
  unfoldable pub get_value : AnyValue → Option (Option Value × ℕ)
  unfolding encoded get_marshallable_value
  get_value unset = some (none, 0)
  get_value (string_value s) = some (some (Value.text s), 0)
  get_value (bool_value b) = some (some (Value.bool b), 0)
  get_value (double_value x) = some (some (Value.float64 x), 0)
  get_value (int_value n) = some (some (Value.int64 n), 0)
  get_value (bytes_value bs) = mapped encoded (get_marshallable_value (bytes_value bs))
  get_value (array_value items) = mapped encoded (get_marshallable_value (array_value items))
  get_value (kvlist_value pairs) = mapped encoded (get_marshallable_value (kvlist_value pairs))

  unfoldable pub add_attribute : Attribute → List (String × Value) → Option (List (String × Value))
  unfolding get_value put_value same_text
  add_attribute (key, none) attrs = some attrs
  add_attribute (key, some value) attrs =
      if same_text key "" then some attrs else mapped (λ r. put_value key r attrs) (get_value value)

  unfoldable pub add_attributes_to_map :
      List Attribute → List (String × Value) → Option (List (String × Value))
  unfolding add_attribute
  add_attributes_to_map [] attrs = some attrs
  add_attributes_to_map (a ∷ rest) attrs = add_attribute a attrs >>= add_attributes_to_map rest
