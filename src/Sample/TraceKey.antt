-- ===== src/Sample/TraceKey.antt =====
-- sample/trace_key.go: the key by which the dynamic samplers group traces. `fmt.Sprintf` with %v,
-- `strconv.FormatInt` and `sort.Strings` are parameters.
use Prim.Native.String.{◌++◌ as join}
use tracing_proxy.Base.{
  ℕ, ◌≡◌, refl, String, List, [], ◌∷◌, ◌++◌, Option, none, some, Bool, true, false, length,
  if◌then◌else◌, same_text, Bool-cases, inl, inr,
}
use tracing_proxy.Base.All.{
  append-front, append-back, IsPermutation, IsPermutation-refl, length-permute,
}
use tracing_proxy.Base.Dict.{lookup, insert}
use tracing_proxy.Types.{Span, Trace, Value}

pub record TraceKey : Type 0 where
  pub fields : List String
  pub use_trace_length : Bool
  pub add_dynsample_key : Bool
  pub add_dynsample_field : String

pub record Printers : Type 0 where
  pub print : Value → String
  pub format_int : ℕ → String
  pub sort : List String → List String

-- `newTraceKey`, which sorts the fields
unfoldable pub new_trace_key : Printers → List String → Bool → Bool → String → TraceKey
new_trace_key P fields use_trace_length add_dynsample_key add_dynsample_field = record {
  fields = P.sort fields;
  use_trace_length = use_trace_length;
  add_dynsample_key = add_dynsample_key;
  add_dynsample_field = add_dynsample_field;
}

-- the values with one more in front, if the span has the field
abbrev pub put_printed : Printers → Option Value → List String → List String
put_printed P (some v) l = P.print v ∷ l
put_printed P none l = l

-- the values of a field, span by span
unfoldable pub values_of : Printers → String → List Span → List String
unfolding lookup
values_of P field [] = []
values_of P field (sp ∷ sps) = put_printed P (lookup field sp.values) (values_of P field sps)

-- What `fieldCollector` holds for a field in the end: its values, once for each time that the
-- configuration lists it.
unfoldable pub collected : Printers → String → List String → List Span → List String
unfolding values_of same_text
collected P field [] sps = []
collected P field (f ∷ fs) sps = elim (same_text f field) [
  | true ↦ values_of P field sps ++ collected P field fs sps
  | false ↦ collected P field fs sps
]

-- the loop over the sorted values, after the one before
unfoldable pub distinct_values : String → List String → String
unfolding same_text
distinct_values prev [] = ""
distinct_values prev (s ∷ ss) =
    let rest = distinct_values s ss in if same_text s prev then rest else join (join s "•") rest

-- the loop over the fields
unfoldable pub key_of_fields : Printers → List String → List String → List Span → String
unfolding collected distinct_values
key_of_fields P all [] sps = ""
key_of_fields P all (f ∷ fs) sps =
    join (join (distinct_values "" (P.sort (collected P f all sps))) ",")
      (key_of_fields P all fs sps)

unfoldable pub build : Printers → TraceKey → List Span → String
unfolding key_of_fields
build P k sps =
    join (key_of_fields P k.fields k.fields sps)
      (if k.use_trace_length then P.format_int (length sps) else "")

-- the field that `buildAndAdd` writes into the spans
unfoldable pub add_key : String → String → List Span → List Span
unfolding insert
add_key field key [] = []
add_key field key (sp ∷ sps) =
    record sp { values = insert field (Value.text key) sp.values } ∷ add_key field key sps

unfoldable pub build_and_add : Printers → TraceKey → Trace → String × Trace
unfolding build add_key
build_and_add P k t =
    let key = build P k t.spans in
    if k.add_dynsample_key
    then (key, record t { spans = add_key k.add_dynsample_field key t.spans })
    else (key, t)

module _ (P : Printers) where
  put-IsPermutation :
      (o : Option Value) {l l' : List String}
      → IsPermutation l l'
      → IsPermutation (put_printed P o l) (put_printed P o l')
  put-IsPermutation (some v) p = IsPermutation.keep (P.print v) p
  put-IsPermutation none p = p

  put-swap :
      (o o' : Option Value) (l : List String)
      → IsPermutation (put_printed P o (put_printed P o' l)) (put_printed P o' (put_printed P o l))
  put-swap (some v) (some w) l = IsPermutation.swap (P.print v) (P.print w) l
  put-swap (some v) none l = IsPermutation-refl (P.print v ∷ l)
  put-swap none (some w) l = IsPermutation-refl (P.print w ∷ l)
  put-swap none none l = IsPermutation-refl l

  values-IsPermutation :
      (field : String) {sps sps' : List Span}
      → IsPermutation sps sps'
      → IsPermutation (values_of P field sps) (values_of P field sps')
  unfolding values_of
  values-IsPermutation field IsPermutation.none = IsPermutation.none
  values-IsPermutation field (IsPermutation.keep sp p) =
      put-IsPermutation (lookup field sp.values) (values-IsPermutation field p)
  values-IsPermutation field (IsPermutation.swap x y sps) =
      put-swap (lookup field x.values) (lookup field y.values) (values_of P field sps)
  values-IsPermutation field (IsPermutation.trans p q) =
      IsPermutation.trans (values-IsPermutation field p) (values-IsPermutation field q)

  collected-IsPermutation :
      (field : String) (fs : List String) (sps sps' : List Span)
      → IsPermutation sps sps'
      → IsPermutation (collected P field fs sps) (collected P field fs sps')
  unfolding collected
  collected-IsPermutation field [] sps sps' p = IsPermutation.none
  collected-IsPermutation field (f ∷ fs) sps sps' p = elim (Bool-cases (same_text f field)) [
    | inl e ↦
        rw (e, collected)
          (IsPermutation.trans
            (append-back (collected P field fs sps) (values-IsPermutation field p))
            (append-front (values_of P field sps') (collected-IsPermutation field fs sps sps' p)))
    | inr e ↦ rw (e, collected) (collected-IsPermutation field fs sps sps' p)
  ]

  -- Sorted lists with the same texts are the same.
  abbrev pub Sorted : Type 0
  Sorted = (l l' : List String) → IsPermutation l l' → P.sort l ≡ P.sort l'

  module _ (sorted : Sorted) where
    fields-permute :
        (all fs : List String) (sps sps' : List Span)
        → IsPermutation sps sps'
        → key_of_fields P all fs sps ≡ key_of_fields P all fs sps'
    unfolding key_of_fields
    fields-permute all [] sps sps' p = refl
    fields-permute all (f ∷ fs) sps sps' p = cc (
      sorted (collected P f all sps) (collected P f all sps')
          (collected-IsPermutation f all sps sps' p),
      fields-permute all fs sps sps' p,
    )

    -- If sorting gives the same list for lists that are permutations of each other, the key
    -- of a trace does not depend on the order in which its spans arrived.
    pub build-permute :
        (k : TraceKey) (sps sps' : List Span)
        → IsPermutation sps sps'
        → build P k sps ≡ build P k sps'
    unfolding build
    build-permute k sps sps' p = cc (fields-permute k.fields k.fields sps sps' p, length-permute p)
