-- ===== src/Sample/Rules.antt =====
-- `RulesBasedSampler.GetSampleRate` of sample/rules.go and the two ways in which a rule matches. The
-- downstream samplers and the random number are parameters; metrics and logging are left out.
use Prim.Native.String.{◌++◌}
use tracing_proxy.Base.{
  ℕ, suc, ◌+◌, ◌-◌, String, List, [], ◌∷◌, Option, none, some, Bool, true, false, ◌&&◌, ◌||◌, not,
  ◌==◌, length, if◌then◌else◌, same_text,
}
use tracing_proxy.Base.Int.{ℤ, pos, negsuc}
use tracing_proxy.Types.{Span, Trace, uint_mod}
use tracing_proxy.Sample.{Floats, Condition, condition_matches_value, extract_value_from_span}

-- `Condition` may be nil, and `Sampler` may be set.
pub record Rule : Type 0 where
  pub name : String
  pub sample_rate : ℤ
  pub has_sampler : Bool
  pub drop : Bool
  pub scope : String
  pub condition : Option (List Condition)

pub record Rate : Type 0 where
  pub rate : ℕ
  pub keep : Bool
  pub reason : String

-- what `GetSampleRate` calls: the float64 operations, the search in JSON, the downstream sampler
-- that `Start` stored for a rule, if it stored one, and `rand.Intn`
pub record Environment : Type 0 where
  pub floats : Floats
  pub nested : Span → String → Option String
  pub downstream : Rule → Option (Trace → Rate)
  pub intn : ℕ → ℕ

-- `uint(rule.SampleRate)`
abbrev pub to_uint : ℤ → ℕ
to_uint (pos n) = n
to_uint (negsuc n) = uint_mod - suc n

module _ (E : Environment) (check_nested_fields : Bool) where
  -- whether a condition is matched by a span
  unfoldable pub span_matches : Condition → Span → Bool
  unfolding condition_matches_value extract_value_from_span
  span_matches c sp =
      condition_matches_value E.floats c (extract_value_from_span E.nested check_nested_fields sp c)

  -- the inner loop of `ruleMatchesTrace`: whether it adds to `matched`
  unfoldable pub some_span_matches : Condition → List Span → Bool
  unfolding span_matches
  some_span_matches c [] = false
  some_span_matches c (sp ∷ sps) = span_matches c sp || some_span_matches c sps

  -- the outer loop, with the count so far
  unfoldable pub count_matched : List Span → ℕ → List Condition → ℕ
  unfolding some_span_matches
  count_matched sps matched [] = matched
  count_matched sps matched (c ∷ cs) =
      count_matched sps (if some_span_matches c sps then matched + 1 else matched) cs

  unfoldable pub rule_matches_trace : Trace → Rule → Bool
  unfolding count_matched
  rule_matches_trace t rule = elim rule.condition [
    | none ↦ true
    | some cs ↦ count_matched t.spans 0 cs == length cs
  ]

  -- the inner loop of `ruleMatchesSpanInTrace`
  unfoldable pub all_conditions_match : Span → List Condition → Bool
  unfolding span_matches
  all_conditions_match sp [] = true
  all_conditions_match sp (c ∷ cs) = span_matches c sp && all_conditions_match sp cs

  unfoldable pub one_span_matches : List Span → List Condition → Bool
  unfolding all_conditions_match
  one_span_matches [] cs = false
  one_span_matches (sp ∷ sps) cs = all_conditions_match sp cs || one_span_matches sps cs

  unfoldable pub rule_matches_span_in_trace : Trace → Rule → Bool
  unfolding one_span_matches
  rule_matches_span_in_trace t rule = elim rule.condition [
    | none ↦ true
    | some cs ↦ one_span_matches t.spans cs
  ]

  -- whether the rule matches, and the reason by its scope
  unfoldable pub scoped : Trace → Rule → Bool × String
  unfolding rule_matches_trace rule_matches_span_in_trace same_text
  scoped t rule =
      if same_text rule.scope "span"
      then (rule_matches_span_in_trace t rule, "rules/span/")
      else if same_text rule.scope "trace" || same_text rule.scope ""
      then (rule_matches_trace t rule, "rules/trace/")
      else (true, "rules/invalid scope/")

  abbrev pub is_positive : ℤ → Bool
  is_positive (pos (suc n)) = true
  is_positive _ = false

  abbrev pub is_first : ℤ → Bool
  is_first (pos n) = E.intn n == 0
  is_first _ = false

  -- the answer of a rule without a downstream sampler
  unfoldable pub decide_by_rate : Rule → String → Rate
  decide_by_rate rule reason = record {
    rate = to_uint rule.sample_rate;
    keep = not rule.drop && is_positive rule.sample_rate && is_first rule.sample_rate;
    reason = reason ++ rule.name;
  }

  unfoldable pub decide_by_sampler : Trace → Rule → String → Rate
  decide_by_sampler t rule reason = elim (E.downstream rule) [
    | none ↦ record { rate = 1; keep = true; reason = reason ++ "bad_rule:" ++ rule.name }
    | some sampler ↦ record (sampler t) {
      reason = reason ++ rule.name ++ ":" ++ (sampler t).reason;
    }
  ]

  -- the answer for a rule that matches
  unfoldable pub decide : Trace → Rule → String → Rate
  unfolding decide_by_rate decide_by_sampler
  decide t rule reason =
      if rule.has_sampler then decide_by_sampler t rule reason else decide_by_rate rule reason

  unfoldable pub get_sample_rate : Trace → List Rule → Rate
  unfolding scoped decide
  get_sample_rate t [] = record { rate = 1; keep = true; reason = "no rule matched" }
  get_sample_rate t (rule ∷ rules) =
      let rest = get_sample_rate t rules in
      if (scoped t rule).0 then decide t rule (scoped t rule).1 else rest
