-- ===== src/Settings/Usable.antt =====
-- What the checks of config/file_config.go mean for `GetSamplerConfigForDataset`.
use Prim.Native.String.{◌++◌}
use tracing_proxy.Base.{
  String, List, [], ◌∷◌, Option, none, some, true, ◌≡◌, refl, ◌∙◌, ap, sym, inl, inr, Option-cases,
  Bool-cases, arith, same_text, if◌then◌else◌,
}
use tracing_proxy.Base.All.{Any}
use tracing_proxy.Settings.{
  Reads, SamplerKind, or_else, wrapped, check_sampler, check_default, check_dataset, check_parts,
  check_keys, validate_sampler_configs, sampler_kind,
}
use tracing_proxy.Settings.Samplers.{sampler_config, get_sampler_config_for_dataset}

module _ {V Rest Sampler : Type 0} (reads : Reads V Rest Sampler) where
  open reads use {all_keys, is_set, get_string, sub, split, unmarshal_sampler, validate_sampler}

  -- A configuration of a sampler, without an error, that the validator passes.
  abbrev pub IsUsable : Option Sampler × String × Option String → Type 0
  IsUsable r = (s : Sampler) × (t : String) × (r ≡ (some s, t, none)) × (validate_sampler s ≡ none)

  check_sampler-none :
      (unread invalid : String) (v : V) (kind : SamplerKind)
      → check_sampler reads unread invalid v kind ≡ none
      → ((unmarshal_sampler v kind).1 ≡ none)
        × (validate_sampler (unmarshal_sampler v kind).0 ≡ none)
  unfolding check_sampler or_else wrapped
  check_sampler-none unread invalid v kind e = ground arith

  usable :
      (v : V) (t : String) (kind : SamplerKind)
      → (unmarshal_sampler v kind).1 ≡ none
      → validate_sampler (unmarshal_sampler v kind).0 ≡ none
      → IsUsable (some (unmarshal_sampler v kind).0, t, (unmarshal_sampler v kind).1)
  usable v t kind read valid = (
    (unmarshal_sampler v kind).0,
    t,
    ap (λ e. (some (unmarshal_sampler v kind).0, t, e)) read,
    valid,
  )

  check_default-kind :
      (v : V) (t : String) (kind : SamplerKind)
      → sampler_kind t ≡ some kind
      → check_default reads v t
        ≡ check_sampler reads "Failed to unmarshal sampler rule: "
            "Failed to validate sampler rule: " v kind
  unfolding check_default
  check_default-kind v t kind k = rw (k, check_default) refl

  check_dataset-kind :
      (v : V) (t : String) (kind : SamplerKind)
      → sampler_kind t ≡ some kind
      → check_dataset reads (some v) t
        ≡ check_sampler reads "Failed to unmarshal dataset sampler rule: "
            "Failed to validate dataset sampler rule: " v kind
  unfolding check_dataset
  check_dataset-kind v t kind k = rw (k, check_dataset) refl

  checked-IsUsable :
      (unread invalid : String) (v : V) (t : String) (kind : SamplerKind)
      → sampler_kind t ≡ some kind
      → check_sampler reads unread invalid v kind ≡ none
      → IsUsable (sampler_config reads (some v) t)
  unfolding sampler_config
  checked-IsUsable unread invalid v t kind k e =
      let (read, valid) = check_sampler-none unread invalid v kind e in
      rw (k, sampler_config) (usable v t kind read valid)

  check_default-IsUsable :
      (v : V) (t : String)
      → check_default reads v t ≡ none
      → IsUsable (sampler_config reads (some v) t)
  unfolding check_default
  check_default-IsUsable v t e = elim (Option-cases (sampler_kind t)) [
    | inl k ↦ ground (arith, k, e)
    | inr (kind, k) ↦
        checked-IsUsable "Failed to unmarshal sampler rule: " "Failed to validate sampler rule: " v
          t kind k (sym (check_default-kind v t kind k) ∙ e)
  ]

  check_dataset-IsUsable :
      (v : V) (t : String)
      → check_dataset reads (some v) t ≡ none
      → IsUsable (sampler_config reads (some v) t)
  unfolding check_dataset
  check_dataset-IsUsable v t e = elim (Option-cases (sampler_kind t)) [
    | inl k ↦ ground (arith, k, e)
    | inr (kind, k) ↦
        checked-IsUsable "Failed to unmarshal dataset sampler rule: "
          "Failed to validate dataset sampler rule: " v t kind k
          (sym (check_dataset-kind v t kind k) ∙ e)
  ]

  or_else-none :
      (first next : Option String) → or_else first next ≡ none → (first ≡ none) × (next ≡ none)
  unfolding or_else
  or_else-none first next e = ground arith

  -- What the check of a key found, for some key with a property.
  check_keys-Any :
      (P : String → Type 0) (v : V) (keys : List String)
      → check_keys reads v keys ≡ none
      → Any P keys
      → (k : String) × P k × (check_parts reads v k (split k) ≡ none)
  unfolding check_keys
  check_keys-Any P v [] e any = absurd (omega (arith, any))
  check_keys-Any P v (k ∷ ks) e any =
      let (here, there) =
        or_else-none (check_parts reads v k (split k)) (check_keys reads v ks) e in
      elim any [ inl p ↦ (k, p, here) | inr more ↦ check_keys-Any P v ks there more ]

  -- viper lists the name of the default sampler among its keys, in lower case, and has the same
  -- value for both spellings.
  abbrev pub ListsDefault : V → Type 0
  ListsDefault v =
      Any (λ k. (split k ≡ "sampler" ∷ []) × (get_string v k ≡ get_string v "Sampler")) (all_keys v)

  -- viper lists the name of the sampler of a dataset among its keys, in lower case, has the same
  -- value for both spellings, and has the same part of the rules for the dataset. The key has
  -- exactly two parts, so this is not assumed of a dataset with a dot in its name.
  abbrev pub ListsDataset : V → String → Type 0
  ListsDataset v dataset =
      Any
        (λ k.
          (name : String) × (v' : V) × (split k ≡ name ∷ "sampler" ∷ [])
          × (get_string v k ≡ get_string v (dataset ++ ".Sampler"))
          × (sub v name ≡ some v')
          × (sub v dataset ≡ some v'))
        (all_keys v)

  default-IsUsable :
      (v : V)
      → validate_sampler_configs reads v ≡ none
      → ListsDefault v
      → IsUsable (sampler_config reads (some v) (get_string v "Sampler"))
  unfolding validate_sampler_configs check_parts same_text
  default-IsUsable v e lists =
      let (k, (parts, same), ok) =
        check_keys-Any (λ k. (split k ≡ "sampler" ∷ []) × (get_string v k ≡ get_string v "Sampler"))
          v (all_keys v) e lists in
      let found : check_default reads v (get_string v k) ≡ none =
        ap (check_parts reads v k) (sym parts) ∙ ok in
      check_default-IsUsable v (get_string v "Sampler")
        (ap (check_default reads v) (sym same) ∙ found)

  check_parts-dataset :
      (v : V) (k name : String)
      → check_parts reads v k (name ∷ "sampler" ∷ []) ≡ none
      → check_dataset reads (sub v name) (get_string v k) ≡ none
  unfolding check_parts same_text
  check_parts-dataset v k name e =
      (or_else-none
        (if same_text name "sampler" then check_default reads v (get_string v k) else none)
        (check_dataset reads (sub v name) (get_string v k)) e).1

  dataset-IsUsable :
      (v : V) (dataset : String)
      → validate_sampler_configs reads v ≡ none
      → ListsDataset v dataset
      → IsUsable (sampler_config reads (sub v dataset) (get_string v (dataset ++ ".Sampler")))
  unfolding validate_sampler_configs
  dataset-IsUsable v dataset e lists =
      let (k, (name, v', parts, same, sub_name, sub_dataset), ok) =
        check_keys-Any
          (λ k.
            (name : String) × (v' : V) × (split k ≡ name ∷ "sampler" ∷ [])
            × (get_string v k ≡ get_string v (dataset ++ ".Sampler"))
            × (sub v name ≡ some v')
            × (sub v dataset ≡ some v'))
          v (all_keys v) e lists in
      let found = check_parts-dataset v k name (ap (check_parts reads v k) (sym parts) ∙ ok) in
      let t = get_string v (dataset ++ ".Sampler") in
      let checked =
        ap (λ o. check_dataset reads o t) (sym sub_name)
        ∙ (ap (check_dataset reads (sub v name)) (sym same) ∙ found) in
      rw sub_dataset (check_dataset-IsUsable v' t checked)

  -- If `validateSamplerConfigs` passes the rules and the name of a default sampler is set; if
  -- viper lists a key that splits at its dots into "sampler" alone and has the value of
  -- "Sampler"; and if, where the dataset has a sampler of its own, viper lists a key that
  -- splits into exactly a name and "sampler" and has the value of the dataset's, and its
  -- `Sub` answers the same part of the rules, not nil, for that name and for the dataset:
  -- then `GetSamplerConfigForDataset` answers for the dataset, without an error, a
  -- configuration that the validator passes.
  pub get_sampler_config_for_dataset-IsUsable :
      (v : V) (dataset : String)
      → validate_sampler_configs reads v ≡ none
      → is_set v "Sampler" ≡ true
      → ListsDefault v
      → (is_set v (dataset ++ ".Sampler") ≡ true → ListsDataset v dataset)
      → IsUsable (get_sampler_config_for_dataset reads v dataset)
  unfolding get_sampler_config_for_dataset
  get_sampler_config_for_dataset-IsUsable v dataset e set lists knows =
      elim (Bool-cases (is_set v (dataset ++ ".Sampler"))) [
        | inl own ↦
            rw (own, get_sampler_config_for_dataset) (dataset-IsUsable v dataset e (knows own))
        | inr other ↦ rw (other, set, get_sampler_config_for_dataset) (default-IsUsable v e lists)
      ]
