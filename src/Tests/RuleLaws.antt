-- ===== src/Tests/RuleLaws.antt =====
-- The theorems on sample/rules.go at concrete inputs.
use tracing_proxy.Base.{◌≡◌, ◌↔◌, refl, List, [], ◌∷◌, none, some, true, false, ltb}
use tracing_proxy.Base.Int.{pos}
use tracing_proxy.Base.All.{All, Any}
use tracing_proxy.Types.{Trace, Value}
use tracing_proxy.Sample.{Condition}
use tracing_proxy.Sample.Rules.{Environment, Rule, rule_matches_trace, rule_matches_span_in_trace}
use tracing_proxy.Sample.Matches.{Matched, rule_matches_trace_iff, rule_matches_span_in_trace_iff}
use tracing_proxy.Tests.{empty_trace, child_span, root_span}

abbrev plain : Environment
plain = record {
  floats = record { of_int = λ _. 0; below = ltb };
  nested = λ _ _. none;
  downstream = λ _. none;
  intn = λ _. 0;
}

abbrev conditions : List Condition
conditions =
    record { field = "parentId"; operator = "exists"; value = Value.null }
    ∷ record { field = "name"; operator = "="; value = Value.text "checkout" }
    ∷ []

abbrev rule : Rule
rule = record {
  name = "checkout";
  sample_rate = pos 2;
  has_sampler = false;
  drop = false;
  scope = "anything";
  condition = some conditions;
}

abbrev trace : Trace
trace = record (empty_trace "a") { spans = child_span "a" ∷ root_span "a" ∷ [] }

rule_matches_trace_iff_example :
    (rule_matches_trace plain false trace rule ≡ true)
    ↔ All (λ c. Any (Matched plain false c) trace.spans) conditions
rule_matches_trace_iff_example = rule_matches_trace_iff plain false trace rule conditions refl

rule_matches_span_in_trace_iff_example :
    (rule_matches_span_in_trace plain false trace rule ≡ true)
    ↔ Any (λ sp. All (λ c. Matched plain false c sp) conditions) trace.spans
rule_matches_span_in_trace_iff_example =
    rule_matches_span_in_trace_iff plain false trace rule conditions refl
