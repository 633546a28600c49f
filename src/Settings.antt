-- ===== src/Settings.antt =====
-- config/file_config.go: what the process checks in its two files. viper and the validator are parameters.
pub mod Reload
pub mod Samplers
pub mod Stuck
pub mod Usable
use Prim.Native.String.{◌++◌}
use tracing_proxy.Base.{
  ℕ, ◌+◌, String, List, [], ◌∷◌, Option, none, some, Bool, true, false, if◌then◌else◌, same_text,
  ltb, length, not,
}
use tracing_proxy.Base.Int.{ℤ, pos, negsuc}

pub data SamplerKind : Type 0 where
  deterministic_sampler : SamplerKind
  dynamic_sampler : SamplerKind
  ema_dynamic_sampler : SamplerKind
  rules_based_sampler : SamplerKind
  total_throughput_sampler : SamplerKind

-- the five cases of the `switch` on the name of a sampler
unfoldable pub sampler_kind : String → Option SamplerKind
unfolding same_text
sampler_kind t =
    if same_text t "DeterministicSampler"
    then some deterministic_sampler
    else if same_text t "DynamicSampler"
    then some dynamic_sampler
    else if same_text t "EMADynamicSampler"
    then some ema_dynamic_sampler
    else if same_text t "RulesBasedSampler"
    then some rules_based_sampler
    else if same_text t "TotalThroughputSampler"
    then some total_throughput_sampler
    else none

-- The fields of the configuration that are read here, and the others.
pub record ConfigContents (Rest : Type 0) : Type 0 where
  pub reporting_interval : ℤ
  pub metrics_list : List String
  pub rest : Rest

-- An instance of viper, of type `V`: what `AllKeys`, `IsSet`, `GetString` and `Sub` answer, what
-- `Unmarshal` into the configuration leaves there, with its error, and what it leaves in a new
-- configuration of a sampler. `validate` and `validate_sampler` are `validator.Struct`,
-- `split` is `strings.Split` at dots, `decimal` prints an integer.
pub record Reads (V Rest Sampler : Type 0) : Type 0 where
  pub all_keys : V → List String
  pub is_set : V → String → Bool
  pub get_string : V → String → String
  pub sub : V → String → Option V
  pub unmarshal : V → ConfigContents Rest → ConfigContents Rest × Option String
  pub unmarshal_sampler : V → SamplerKind → Sampler × Option String
  pub validate : ConfigContents Rest → Option String
  pub validate_sampler : Sampler → Option String
  pub split : String → List String
  pub decimal : ℤ → String

unfoldable pub at_least_ten : ℤ → Bool
at_least_ten (pos n) = not (ltb n 10)
at_least_ten (negsuc n) = false

-- the second error of a list of checks is looked at only if the first check passes
unfoldable pub or_else : Option String → Option String → Option String
or_else (some e) next = some e
or_else none next = next

unfoldable pub wrapped : String → Option String → Option String
wrapped prefix none = none
wrapped prefix (some e) = some (prefix ++ e)

module _ {V Rest Sampler : Type 0} (reads : Reads V Rest Sampler) where
  open reads use {all_keys, get_string, sub, unmarshal_sampler, validate_sampler, split, decimal}

  -- what is left in a new configuration of the kind, and the errors of the two checks
  unfoldable pub check_sampler : String → String → V → SamplerKind → Option String
  unfolding wrapped or_else
  check_sampler unread invalid v kind =
      let (sampler, error) = unmarshal_sampler v kind in
      or_else (wrapped unread error) (wrapped invalid (validate_sampler sampler))

  unfoldable pub check_default : V → String → Option String
  unfolding check_sampler sampler_kind
  check_default rules t = elim (sampler_kind t) [
    | none ↦ some ("Invalid or missing default sampler type: " ++ t)
    | some kind ↦
        check_sampler "Failed to unmarshal sampler rule: " "Failed to validate sampler rule: " rules
          kind
  ]

  -- `sub` is what `Sub` answers for the name of the dataset
  unfoldable pub check_dataset : Option V → String → Option String
  unfolding check_sampler sampler_kind
  check_dataset sub t = elim (sampler_kind t) [
    | none ↦ some ("Invalid or missing dataset sampler type: " ++ t)
    | some kind ↦ elim sub [
      | none ↦ none
      | some v ↦
          check_sampler "Failed to unmarshal dataset sampler rule: "
            "Failed to validate dataset sampler rule: " v kind
    ]
  ]

  -- the body of the loop of `validateSamplerConfigs`, by the parts of the key
  unfoldable pub check_parts : V → String → List String → Option String
  unfolding check_default check_dataset or_else same_text
  check_parts rules key [] = none
  check_parts rules key (p ∷ []) =
      if same_text p "sampler" then check_default rules (get_string rules key) else none
  check_parts rules key (p ∷ q ∷ ps) =
      or_else (if same_text p "sampler" then check_default rules (get_string rules key) else none)
        (if same_text q "sampler" then check_dataset (sub rules p) (get_string rules key) else none)

  unfoldable pub check_keys : V → List String → Option String
  unfolding check_parts or_else
  check_keys rules [] = none
  check_keys rules (key ∷ keys) =
      or_else (check_parts rules key (split key)) (check_keys rules keys)

  unfoldable pub validate_sampler_configs : V → Option String
  unfolding check_keys
  validate_sampler_configs rules = check_keys rules (all_keys rules)

  -- what `validateGeneralConfigs` looks at
  unfoldable pub check_metrics : ConfigContents Rest → Option String
  unfolding at_least_ten
  check_metrics conf =
      if not (at_least_ten conf.reporting_interval)
      then some (
          "mertics reporting interval "
          ++ (decimal conf.reporting_interval ++ " not allowed, must be >= 10"))
      else if ltb (length conf.metrics_list) 1
      then some "mertics list cant be empty"
      else none
