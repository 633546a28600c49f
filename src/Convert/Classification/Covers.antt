-- ===== src/Convert/Classification/Covers.antt =====
-- Which attributes decide the type of a span, in pkg/convert/classification.go and the calls of it
-- in pkg/convert/traces.go.
use tracing_proxy.Base.{
  ◌≡◌, ◌↔◌, ◌⊎◌, inl, inr, refl, String, List, [], ◌∷◌, Option, none, some, true, same_text,
  same_text_iff, Bool-cases,
}
use tracing_proxy.Base.Dict.{insert}
use tracing_proxy.Convert.Classification.{
  Classification, KeyValue, web_transaction, non_web_transaction, is_web_key, gather,
  determine_classification, merge, normalize_classification, classify_resource, classify_scope,
}

module _ (normal : String → String) where
  -- Some attribute has a key of the web.
  abbrev pub HasWebKey : List KeyValue → Type 0
  HasWebKey [] = ⊥
  HasWebKey ((key, _) ∷ rest) = (is_web_key (normal key) ≡ true) ⊎ HasWebKey rest

  abbrev pub HasWebKey? : Option (List KeyValue) → Type 0
  HasWebKey? none = ⊥
  HasWebKey? (some attrs) = HasWebKey attrs

  gather_iff :
      (type : String) (attributes : List (String × String)) (attrs : List KeyValue)
      → ((gather normal type attributes attrs).0 ≡ web_transaction)
        ↔ ((type ≡ web_transaction) ⊎ HasWebKey attrs)
  unfolding gather
  gather_iff type attributes [] = (λ e. inl e, λ h. elim h [ inl e ↦ e | inr e ↦ absurd e ])
  gather_iff type attributes ((key, value) ∷ rest) =
      let k = normal key in
      elim (Bool-cases (is_web_key k)) [
        | inl e ↦
            let later = gather_iff web_transaction (insert k value attributes) rest in
            rw (e, gather) (λ _. inr (inl refl), λ _. later.1 (inl refl))
        | inr e ↦
            let later = gather_iff type (insert k value attributes) rest in
            rw (e, gather)
              (
                λ h. elim (later.0 h) [ inl t ↦ inl t | inr w ↦ inr (inr w) ],
                λ h. elim h [
                  | inl t ↦ later.1 (inl t)
                  | inr w ↦ elim w [ inl web ↦ absurd (cc web) | inr r ↦ later.1 (inr r) ]
                ],
              )
      ]

  determine_iff :
      (attrs : List KeyValue)
      → ((determine_classification normal attrs).type ≡ web_transaction) ↔ HasWebKey attrs
  unfolding determine_classification same_text
  determine_iff attrs =
      let h = gather_iff non_web_transaction [] attrs in
      (
        λ e. elim (h.0 e) [
          | inl other ↦ absurd (cc ((same_text_iff non_web_transaction web_transaction).1 other))
          | inr w ↦ w
        ],
        λ w. h.1 (inr w),
      )

  merge_iff :
      (existing : Classification) (attrs : List KeyValue)
      → ((merge normal existing (determine_classification normal attrs)).type ≡ web_transaction)
        ↔ ((existing.type ≡ web_transaction) ⊎ HasWebKey attrs)
  unfolding merge
  merge_iff existing attrs = elim (Bool-cases (same_text existing.type web_transaction)) [
    | inl e ↦ rw e (λ _. inl ((same_text_iff existing.type web_transaction).0 e), λ _. refl)
    | inr e ↦ rw e (
      λ h. inr ((determine_iff attrs).0 h),
      λ h. elim h [
        | inl t ↦ absurd (cc (e, (same_text_iff existing.type web_transaction).1 t))
        | inr w ↦ (determine_iff attrs).1 w
      ],
    )
  ]

  -- the resource, the scope and the span
  pub classified_iff :
      (resource scope : Option (List KeyValue)) (span : List KeyValue)
      → ((normalize_classification normal
            (classify_scope normal (classify_resource normal resource) scope)
            span).type
          ≡ web_transaction)
        ↔ (HasWebKey? resource ⊎ HasWebKey? scope ⊎ HasWebKey span)
  unfolding classify_resource classify_scope normalize_classification
  classified_iff none none span =
      let d = determine_iff span in
      (
        λ e. inr (inr (d.0 e)),
        λ h. elim h [ inl n ↦ absurd n | inr g ↦ elim g [ inl n ↦ absurd n | inr w ↦ d.1 w ] ],
      )
  classified_iff (some r) none span =
      let d = determine_iff r in
      let m = merge_iff (determine_classification normal r) span in
      (
        λ e. elim (m.0 e) [ inl t ↦ inl (d.0 t) | inr w ↦ inr (inr w) ],
        λ h. elim h [
          | inl t ↦ m.1 (inl (d.1 t))
          | inr g ↦ elim g [ inl n ↦ absurd n | inr w ↦ m.1 (inr w) ]
        ],
      )
  classified_iff none (some s) span =
      let d = determine_iff s in
      let m = merge_iff (determine_classification normal s) span in
      (
        λ e. elim (m.0 e) [ inl t ↦ inr (inl (d.0 t)) | inr w ↦ inr (inr w) ],
        λ h. elim h [
          | inl n ↦ absurd n
          | inr g ↦ elim g [ inl t ↦ m.1 (inl (d.1 t)) | inr w ↦ m.1 (inr w) ]
        ],
      )
  classified_iff (some r) (some s) span =
      let d = determine_iff r in
      let m = merge_iff (determine_classification normal r) s in
      let n =
        merge_iff
          (merge normal (determine_classification normal r) (determine_classification normal s))
          span in
      (
        λ e. elim (n.0 e) [
          | inl t ↦ elim (m.0 t) [ inl u ↦ inl (d.0 u) | inr w ↦ inr (inl w) ]
          | inr w ↦ inr (inr w)
        ],
        λ h. elim h [
          | inl t ↦ n.1 (inl (m.1 (inl (d.1 t))))
          | inr g ↦ elim g [ inl w ↦ n.1 (inl (m.1 (inr w))) | inr w ↦ n.1 (inr w) ]
        ],
      )
