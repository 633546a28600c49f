-- ===== src/Convert/Translate/Keeps.antt =====
-- Which keys the maps of pkg/convert/traces.go keep.
use tracing_proxy.Base.{
  ◌≡◌, ◌≢◌, refl, ◌∙◌, sym, ap, inl, inr, String, List, [], ◌∷◌, Option, none, some, if_neg, if_pos,
  text_discrete, same_text, Option-cases, Bool-cases, ◌==◌, ℕ,
}
use tracing_proxy.Base.All.{All}
use tracing_proxy.Base.Dict.{lookup, insert, lookup-insert}
use tracing_proxy.Types.{Value}
use tracing_proxy.Base.Fallible.{◌>>=◌}
use tracing_proxy.Convert.Values.{
  Attribute, Encoder, get_value, put_value, add_attribute, add_attributes_to_map,
}
use tracing_proxy.Convert.Translate.{ValueMap, put_all}

pub >>=-eq-some :
    {A B : Type 0} (m : Option A) (f : A → Option B) {b : B}
    → (m >>= f) ≡ some b
    → (a : A) × (m ≡ some a) × (f a ≡ some b)
>>=-eq-some none f e = absurd (cc e)
>>=-eq-some (some a) f e = (a, refl, e)

pub lookup-insert_ne :
    (k j : String) (v : Value) (m : ValueMap) → j ≢ k → lookup k (insert j v m) ≡ lookup k m
lookup-insert_ne k j v m ne =
    lookup-insert j k v m ∙ if_neg (text_discrete j k) ne (some v) (lookup k m)

pub lookup-put_all :
    (k : String) (from m : ValueMap) → lookup k from ≡ none → lookup k (put_all from m) ≡ lookup k m
unfolding put_all lookup
lookup-put_all k [] m e = refl
lookup-put_all k ((j, v) ∷ from) m e = elim (text_discrete j k) [
  | yes p ↦ absurd (cc (sym (if_pos (text_discrete j k) p (some v) (lookup k from)) ∙ e))
  | no p ↦
      lookup-put_all k from (insert j v m)
        (sym (if_neg (text_discrete j k) p (some v) (lookup k from)) ∙ e)
      ∙ lookup-insert_ne k j v m p
]

-- A key that `addAttributesToMap` does not write for its own use.
abbrev pub IsPlain : String → Type 0
IsPlain k = ("meta.truncated_bytes" ≢ k) × ("meta.truncated_field" ≢ k)

lookup-put_value :
    (k key : String) (r : Option Value × ℕ) (m : ValueMap)
    → key ≢ k
    → IsPlain k
    → lookup k (put_value key r m) ≡ lookup k m
unfolding put_value
lookup-put_value k key (none, n) m ne plain = refl
lookup-put_value k key (some v, n) m ne (p, q) = elim (Bool-cases (n == 0)) [
  | inl e ↦ rw e (lookup-insert_ne k key v m ne)
  | inr e ↦ rw e (
      lookup-insert_ne k "meta.truncated_field" (Value.text key)
        (insert "meta.truncated_bytes" v (insert key v m)) q
      ∙ (lookup-insert_ne k "meta.truncated_bytes" v (insert key v m) p
          ∙ lookup-insert_ne k key v m ne))
]

module _ (E : Encoder) where
  lookup-add_attribute :
      (k : String) (a : Attribute) (m m' : ValueMap)
      → a.0 ≢ k
      → IsPlain k
      → add_attribute E a m ≡ some m'
      → lookup k m' ≡ lookup k m
  unfolding add_attribute
  lookup-add_attribute k (key, none) m m' ne plain e = (cc e)
  lookup-add_attribute k (key, some v) m m' ne plain e = elim (Bool-cases (same_text key "")) [
    | inl named ↦ (cc (rw (named, add_attribute) at e))
    | inr named ↦ elim (Option-cases (get_value E v)) [
      | inl stuck ↦ absurd (cc (rw (named, stuck, add_attribute) at e))
      | inr (r, found) ↦
          let same : put_value key r m ≡ m' = cc (rw (named, found, add_attribute) at e) in
          ap (lookup k) (sym same) ∙ lookup-put_value k key r m ne plain
    ]
  ]

  -- A key that none of the attributes has keeps its value.
  pub lookup-add_attributes_to_map :
      (k : String) (attrs : List Attribute) (m m' : ValueMap)
      → All (λ a. a.0 ≢ k) attrs
      → IsPlain k
      → add_attributes_to_map E attrs m ≡ some m'
      → lookup k m' ≡ lookup k m
  unfolding add_attributes_to_map
  lookup-add_attributes_to_map k [] m m' ne plain e = (cc e)
  lookup-add_attributes_to_map k (a ∷ rest) m m' (ne, nes) plain e =
      elim (Option-cases (add_attribute E a m)) [
        | inl stuck ↦ absurd (cc (rw (stuck, add_attributes_to_map) at e))
        | inr (m1, found) ↦
            lookup-add_attributes_to_map k rest m1 m' nes plain
              (rw (found, add_attributes_to_map) at e)
            ∙ lookup-add_attribute k a m m1 ne plain found
      ]
