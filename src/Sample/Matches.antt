-- ===== src/Sample/Matches.antt =====
-- What it means that a rule of sample/rules.go matches a trace, and which rule decides.
use tracing_proxy.Base.{
  ℕ, ◌+◌, ◌≤◌, ◌≡◌, ◌↔◌, inl, inr, refl, List, [], ◌∷◌, ◌++◌, some, Bool, true, false, and_iff,
  or_iff, arith, length, Bool-cases,
}
use tracing_proxy.Base.All.{Any, All}
use tracing_proxy.Types.{Span, Trace}
use tracing_proxy.Sample.{Condition}
use tracing_proxy.Sample.Rules.{
  Environment, Rule, span_matches, some_span_matches, count_matched, all_conditions_match,
  one_span_matches, rule_matches_trace, rule_matches_span_in_trace, scoped, decide, get_sample_rate,
}

module _ (E : Environment) (check_nested_fields : Bool) where
  abbrev pub Matched : Condition → Span → Type 0
  Matched c sp = span_matches E check_nested_fields c sp ≡ true

  some_span_matches_iff :
      (c : Condition) (sps : List Span)
      → (some_span_matches E check_nested_fields c sps ≡ true) ↔ Any (Matched c) sps
  unfolding some_span_matches
  some_span_matches_iff c [] = (λ e. absurd (cc (e)), λ h. absurd (omega (arith, h)))
  some_span_matches_iff c (sp ∷ sps) =
      or_iff (span_matches E check_nested_fields c sp)
        (some_span_matches E check_nested_fields c sps) (λ e. e, λ e. e)
        (some_span_matches_iff c sps)

  count_matched-bounds :
      (sps : List Span) (n : ℕ) (cs : List Condition)
      → (count_matched E check_nested_fields sps n cs ≤ n + length cs)
        × (n ≤ count_matched E check_nested_fields sps n cs)
  unfolding count_matched
  count_matched-bounds sps n [] = ground arith
  count_matched-bounds sps n (c ∷ cs) =
      ground (arith, count_matched-bounds sps n cs, count_matched-bounds sps (n + 1) cs)

  count_matched_iff :
      (sps : List Span) (n : ℕ) (cs : List Condition)
      → (count_matched E check_nested_fields sps n cs ≡ n + length cs)
        ↔ All (λ c. Any (Matched c) sps) cs
  unfolding count_matched
  count_matched_iff sps n [] = ground arith
  count_matched_iff sps n (c ∷ cs) =
      elim (Bool-cases (some_span_matches E check_nested_fields c sps)) [
        | inl e ↦ ground (arith, e, some_span_matches_iff c sps, count_matched_iff sps (n + 1) cs)
        | inr e ↦ ground (arith, e, some_span_matches_iff c sps, count_matched-bounds sps n cs)
      ]

  all_conditions_match_iff :
      (sp : Span) (cs : List Condition)
      → (all_conditions_match E check_nested_fields sp cs ≡ true) ↔ All (λ c. Matched c sp) cs
  unfolding all_conditions_match
  all_conditions_match_iff sp [] = (λ e. tt, λ h. refl)
  all_conditions_match_iff sp (c ∷ cs) =
      and_iff (span_matches E check_nested_fields c sp)
        (all_conditions_match E check_nested_fields sp cs) (λ e. e, λ e. e)
        (all_conditions_match_iff sp cs)

  -- For a rule with a list of conditions, `ruleMatchesTrace` answers true exactly if every
  -- condition is matched by some span of the trace.
  pub rule_matches_trace_iff :
      (t : Trace) (rule : Rule) (cs : List Condition)
      → rule.condition ≡ some cs
      → (rule_matches_trace E check_nested_fields t rule ≡ true)
        ↔ All (λ c. Any (Matched c) t.spans) cs
  unfolding rule_matches_trace
  rule_matches_trace_iff t rule cs e = ground (arith, e, count_matched_iff t.spans 0 cs)

  one_span_matches_iff :
      (sps : List Span) (cs : List Condition)
      → (one_span_matches E check_nested_fields sps cs ≡ true)
        ↔ Any (λ sp. All (λ c. Matched c sp) cs) sps
  unfolding one_span_matches
  one_span_matches_iff [] cs = (λ e. absurd (cc (e)), λ h. absurd (omega (arith, h)))
  one_span_matches_iff (sp ∷ sps) cs =
      or_iff (all_conditions_match E check_nested_fields sp cs)
        (one_span_matches E check_nested_fields sps cs) (all_conditions_match_iff sp cs)
        (one_span_matches_iff sps cs)

  -- For a rule with a list of conditions, `ruleMatchesSpanInTrace` answers true exactly if
  -- some one span of the trace matches every condition.
  pub rule_matches_span_in_trace_iff :
      (t : Trace) (rule : Rule) (cs : List Condition)
      → rule.condition ≡ some cs
      → (rule_matches_span_in_trace E check_nested_fields t rule ≡ true)
        ↔ Any (λ sp. All (λ c. Matched c sp) cs) t.spans
  unfolding rule_matches_span_in_trace
  rule_matches_span_in_trace_iff t rule cs e = ground (arith, e, one_span_matches_iff t.spans cs)

  -- If no rule before it matches in its scope and the rule does, `GetSampleRate` answers what
  -- that rule decides, whatever rules follow.
  pub get_sample_rate-append :
      (t : Trace) (before after : List Rule) (rule : Rule)
      → All (λ r. (scoped E check_nested_fields t r).0 ≡ false) before
      → (scoped E check_nested_fields t rule).0 ≡ true
      → get_sample_rate E check_nested_fields t (before ++ rule ∷ after)
        ≡ decide E check_nested_fields t rule (scoped E check_nested_fields t rule).1
  unfolding get_sample_rate
  get_sample_rate-append t [] after rule others here = rw (here, get_sample_rate) refl
  get_sample_rate-append t (r ∷ before) after rule others here =
      rw (others.0, get_sample_rate) (get_sample_rate-append t before after rule others.1 here)
