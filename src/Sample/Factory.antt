-- ===== src/Sample/Factory.antt =====
-- sample/sample.go: how a sampler is made for a key, and `RulesBasedSampler.Start` of sample/rules.go,
-- which makes the downstream samplers. A rule is named by its text, `rule.String()`, as in the code;
-- that its conditions are initialized is in Conditions. Metrics and logging are left out.
use Prim.Native.String.{◌++◌}
use tracing_proxy.Base.{
  subst, sym, ℕ, ◌≡◌, refl, ◌↔◌, inl, inr, String, List, [], ◌∷◌, Bool, false, Option, none, some,
  if◌then◌else◌, same_text, ◌&&◌, not, ◌==◌, Bool-cases, ==_iff, ap,
}
use tracing_proxy.Base.Int.{ℤ}
use tracing_proxy.Base.Dict.{insert}
use tracing_proxy.Sample.TraceKey.{Printers}
use tracing_proxy.Sample.Deterministic.{DeterministicSampler, start, to_uint32}
use tracing_proxy.Sample.Dynamic.{
  KeyConfig, Dynsampler, DynamicSampler, start_dynamic, start_ema, start_throughput,
}

pub record DynamicSamplerConfig : Type 0 where
  pub key_config : KeyConfig
  pub sample_rate : ℤ
  pub clear_frequency_sec : ℤ

pub record EmaDynamicSamplerConfig : Type 0 where
  pub key_config : KeyConfig
  pub goal_sample_rate : ℤ
  pub adjustment_interval : ℤ
  pub weight : ℕ
  pub age_out_value : ℕ
  pub burst_multiple : ℕ
  pub burst_detection_delay : ℕ
  pub max_keys : ℤ

pub record TotalThroughputSamplerConfig : Type 0 where
  pub key_config : KeyConfig
  pub goal_throughput_per_sec : ℤ
  pub clear_frequency_sec : ℤ

-- the downstream sampler of a rule
pub record RulesBasedDownstreamSampler : Type 0 where
  pub dynamic_sampler : Option DynamicSamplerConfig
  pub ema_dynamic_sampler : Option EmaDynamicSamplerConfig
  pub total_throughput_sampler : Option TotalThroughputSamplerConfig

-- The text of a rule, and its downstream sampler.
abbrev pub RuleConfig : Type 0
RuleConfig = String × Option RulesBasedDownstreamSampler

pub data SamplerConfig : Type 0 where
  deterministic : ℤ → SamplerConfig
  dynamic : DynamicSamplerConfig → SamplerConfig
  ema : EmaDynamicSamplerConfig → SamplerConfig
  rules_based : List RuleConfig → SamplerConfig
  total_throughput : TotalThroughputSamplerConfig → SamplerConfig

module _ (D : Dynsampler) (P : Printers) where
  pub data Sampler : Type 0 where
    deterministic_sampler : DeterministicSampler → Sampler
    dynamic_sampler : DynamicSampler D P → Sampler
    -- the downstream samplers by the texts of their rules
    rules_based_sampler : List (String × DynamicSampler D P) → Sampler

  -- the sampler, nil, or the end of the process
  pub data Made : Type 0 where
    made : Sampler → Made
    nil : Made
    exits : Made

  unfoldable pub make_dynamic : DynamicSamplerConfig → DynamicSampler D P
  unfolding start_dynamic
  make_dynamic c = start_dynamic D P c.key_config c.sample_rate c.clear_frequency_sec

  unfoldable pub make_ema : EmaDynamicSamplerConfig → DynamicSampler D P
  unfolding start_ema
  make_ema c =
      start_ema D P c.key_config c.goal_sample_rate c.adjustment_interval c.weight c.age_out_value
        c.burst_multiple c.burst_detection_delay c.max_keys

  unfoldable pub make_throughput : TotalThroughputSamplerConfig → DynamicSampler D P
  unfolding start_throughput
  make_throughput c =
      start_throughput D P c.key_config c.goal_throughput_per_sec c.clear_frequency_sec

  -- the first of the three that is set
  unfoldable pub make_downstream : RulesBasedDownstreamSampler → Option (DynamicSampler D P)
  unfolding make_dynamic make_ema make_throughput
  make_downstream c = elim c.dynamic_sampler [
    | some d ↦ some (make_dynamic d)
    | none ↦ elim c.ema_dynamic_sampler [
      | some e ↦ some (make_ema e)
      | none ↦ elim c.total_throughput_sampler [ some t ↦ some (make_throughput t) | none ↦ none ]
    ]
  ]

  unfoldable pub put_downstream :
      RuleConfig → List (String × DynamicSampler D P) → List (String × DynamicSampler D P)
  unfolding make_downstream insert
  put_downstream (rule, none) samplers = samplers
  put_downstream (rule, some c) samplers = elim (make_downstream c) [
    | none ↦ samplers
    | some s ↦ insert rule s samplers
  ]

  -- `RulesBasedSampler.Start`
  unfoldable pub start_rules :
      List RuleConfig → List (String × DynamicSampler D P) → List (String × DynamicSampler D P)
  unfolding put_downstream
  start_rules [] samplers = samplers
  start_rules (r ∷ rs) samplers = start_rules rs (put_downstream r samplers)

  -- the `switch` on the configuration, and `Start`
  unfoldable pub start_sampler : SamplerConfig → Made
  unfolding start make_dynamic make_ema make_throughput start_rules
  start_sampler (deterministic rate) = elim (start rate) [
    | none ↦ nil
    | some d ↦ made (deterministic_sampler d)
  ]
  start_sampler (dynamic c) = made (dynamic_sampler (make_dynamic c))
  start_sampler (ema c) = made (dynamic_sampler (make_ema c))
  start_sampler (rules_based rules) = made (rules_based_sampler (start_rules rules []))
  start_sampler (total_throughput c) = made (dynamic_sampler (make_throughput c))

  unfoldable pub prefixed : String → String → Bool → String
  unfolding same_text
  prefixed dataset_prefix key is_legacy_key =
      if is_legacy_key && not (same_text dataset_prefix "")
      then dataset_prefix ++ "." ++ key
      else key

  -- what is made of the answer of `GetSamplerConfigForDataset`
  unfoldable pub make_from : Option SamplerConfig × String × Option String → Made
  unfolding start_sampler
  make_from (c, name, some error) = nil
  make_from (none, name, none) = exits
  make_from (some c, name, none) = start_sampler c

  -- `config` is `GetSamplerConfigForDataset`, with its error
  unfoldable pub get_sampler_implementation_for_key :
      (String → Option SamplerConfig × String × Option String) → String → String → Bool → Made
  unfolding prefixed make_from
  get_sampler_implementation_for_key config dataset_prefix key is_legacy_key =
      make_from (config (prefixed dataset_prefix key is_legacy_key))

  -- the rate of a deterministic sampler
  rate_of : SamplerConfig → ℤ → ℤ
  rate_of (deterministic rate) other = rate
  rate_of _ other = other

  same_rate :
      (rate : ℤ)
      → (r : ℤ) × ((deterministic rate ≡ deterministic r) × (to_uint32 r ≡ 0))
      → (to_uint32 rate == 0) ≡ false
      → ⊥
  unfolding rate_of
  same_rate rate (r, (c, z)) e =
      let same : rate ≡ r = ap (λ k. rate_of k rate) c in
      let (_, back) = ==_iff (to_uint32 rate) 0 in cc (e, back (rw same z))

  start_sampler-nil :
      (c : SamplerConfig)
      → (start_sampler c ≡ nil) ↔ ((rate : ℤ) × ((c ≡ deterministic rate) × (to_uint32 rate ≡ 0)))
  unfolding start_sampler start
  start_sampler-nil (deterministic rate) =
      let (is_zero, back) = ==_iff (to_uint32 rate) 0 in
      elim (Bool-cases (to_uint32 rate == 0)) [
        | inl e ↦ rw (start_sampler, start, e) (λ n. (rate, (refl, is_zero e)), λ h. refl)
        | inr e ↦ rw (start_sampler, start, e) (λ n. cc n, λ h. absurd (same_rate rate h e))
      ]
  start_sampler-nil (dynamic c) = (λ e. cc e, λ h. cc (h.1.0))
  start_sampler-nil (ema c) = (λ e. cc e, λ h. cc (h.1.0))
  start_sampler-nil (rules_based c) = (λ e. cc e, λ h. cc (h.1.0))
  start_sampler-nil (total_throughput c) = (λ e. cc e, λ h. cc (h.1.0))

  -- Without an error of the lookup, and with a configuration, the answer is nil exactly for a
  -- deterministic sampler whose rate is 0 as a `uint32`.
  pub get_sampler_implementation-nil :
      (config : String → Option SamplerConfig × String × Option String)
      (dataset_prefix key : String) (is_legacy_key : Bool) (c : SamplerConfig) (name : String)
      → config (prefixed dataset_prefix key is_legacy_key) ≡ (some c, name, none)
      → (get_sampler_implementation_for_key config dataset_prefix key is_legacy_key ≡ nil)
        ↔ ((rate : ℤ) × ((c ≡ deterministic rate) × (to_uint32 rate ≡ 0)))
  unfolding get_sampler_implementation_for_key make_from
  get_sampler_implementation-nil config dataset_prefix key is_legacy_key c name e =
      subst
        (λ answer.
          (make_from answer ≡ nil)
          ↔ ((rate : ℤ) × ((c ≡ deterministic rate) × (to_uint32 rate ≡ 0))))
        (sym e) (start_sampler-nil c)
