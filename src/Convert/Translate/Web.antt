-- ===== src/Convert/Translate/Web.antt =====
-- Which spans `TranslateTraceRequest` of pkg/convert/traces.go marks as transactions of the web.
use tracing_proxy.Base.{
  ◌≡◌, ◌≢◌, refl, ◌∙◌, ◌↔◌, ◌⊎◌, inl, inr, String, List, [], ◌∷◌, Option, none, some, Bool, true,
  false, map, Option-cases, text_discrete, sym, ap,
}
use tracing_proxy.Base.Dict.{lookup, insert, lookup-insert}
use tracing_proxy.Types.{Value}
use tracing_proxy.Convert.Values.{Attribute, add_attributes_to_map}
use tracing_proxy.Convert.Classification.{
  Classification, web_transaction, classify_resource, classify_scope, normalize_classification,
}
use tracing_proxy.Convert.Classification.Covers.{HasWebKey, HasWebKey?, classified_iff}
use tracing_proxy.Convert.Messages.{Tools, Scope}
use tracing_proxy.Convert.Translate.{
  ValueMap, own_attributes, put_classification, put_error, to_key_value,
}
use tracing_proxy.Convert.Translate.Request.{resource_key_values, scope_key_values}

type_of :
    (c : Classification) (m : ValueMap)
    → lookup "transaction.type" (put_classification c m) ≡ some (Value.text c.type)
unfolding put_classification text_discrete
type_of c m =
    lookup-insert "language" "transaction.type" (Value.text c.language) _
    ∙ lookup-insert "transaction.sub_category" "transaction.type" (Value.text c.sub_category) _
    ∙ lookup-insert "transaction.category" "transaction.type" (Value.text c.category) _
    ∙ lookup-insert "transaction.type" "transaction.type" (Value.text c.type) m

no_type : (error : Bool) → lookup "transaction.type" (put_error error []) ≡ none
unfolding put_error insert lookup text_discrete
no_type true = refl
no_type false = refl

same_type :
    (s : String) → (some (Value.text s) ≡ some (Value.text web_transaction)) ↔ (s ≡ web_transaction)
same_type s = (λ e. cc e, λ e. ap (λ t. some (Value.text t)) e)

module _ (tools : Tools) where
  open tools use {encoder, normal}

  -- what is known of the resource and the scope
  abbrev pub known_of : Option (List Attribute) → Option Scope → Option Classification
  known_of resource scope =
      classify_scope normal (classify_resource normal (resource_key_values resource))
        (scope_key_values scope)

  classified :
      (known : Option Classification) (a : Attribute) (rest : List Attribute) (error : Bool)
      (m : ValueMap)
      → own_attributes tools known (a ∷ rest) error ≡ some m
      → lookup "transaction.type" m
        ≡ some
            (Value.text (normalize_classification normal known (map to_key_value (a ∷ rest))).type)
  unfolding own_attributes
  classified known a rest error m e =
      let c = normalize_classification normal known (map to_key_value (a ∷ rest)) in
      elim (Option-cases (add_attributes_to_map encoder (a ∷ rest) (put_error error []))) [
        | inl n ↦ absurd (cc (rw (own_attributes, n) at e))
        | inr (m', n) ↦
            let same : put_classification c m' ≡ m = cc (rw (own_attributes, n) at e) in
            ap (lookup "transaction.type") (sym same) ∙ type_of c m'
      ]

  -- If the values of a span can be read: in the map of its own attributes, as it is before
  -- the instance and the attributes of the scope are put in, the type of the transaction is
  -- that of the web exactly if the span has attributes and the resource, the scope or the
  -- span has a key that, as normalised, marks the web.
  pub transaction_type_iff :
      (resource : Option (List Attribute)) (scope : Option Scope) (attrs : List Attribute)
      (error : Bool) (m : ValueMap)
      → own_attributes tools (known_of resource scope) attrs error ≡ some m
      → (lookup "transaction.type" m ≡ some (Value.text web_transaction)) ↔ (
          (attrs ≢ [])
          × (HasWebKey? normal (resource_key_values resource)
              ⊎ HasWebKey? normal (scope_key_values scope)
              ⊎ HasWebKey normal (map to_key_value attrs)))
  unfolding own_attributes
  transaction_type_iff resource scope [] error m e =
      let same : m ≡ put_error error [] = cc (e) in
      let nothing : lookup "transaction.type" m ≡ none =
        ap (lookup "transaction.type") same ∙ no_type error in
      (λ h. cc (nothing, h), λ h. absurd (h.0 refl))
  transaction_type_iff resource scope (a ∷ rest) error m e =
      let found = classified (known_of resource scope) a rest error m e in
      let (a', b') =
        classified_iff normal (resource_key_values resource) (scope_key_values scope)
          (map to_key_value (a ∷ rest)) in
      let (web, text) =
        same_type
          (normalize_classification normal (known_of resource scope)
            (map to_key_value (a ∷ rest))).type in
      rw found (λ h. (λ n. cc n, a' (web h)), λ h. text (b' h.1))
