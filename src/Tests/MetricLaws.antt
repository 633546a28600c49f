-- ===== src/Tests/MetricLaws.antt =====
-- The theorems on metrics at concrete inputs: a vector of gauges with a key that does not fit its
-- labels, and a span that has failed.
use tracing_proxy.Base.{
  map, ◌&&◌, and_iff, same_text_iff, subst, sym, ◌⊎◌, length, ◌==◌, ◌≡◌, ◌≢◌, refl, ◌↔◌, ◌+◌, ◌*◌,
  String, List, [], ◌∷◌, none, some, Bool, true, false, same_text, text_discrete,
}
use tracing_proxy.Base.All.{Apart, IsPermutation, IsPermutation-refl, IsPermutation-sym}
use tracing_proxy.Base.Int.{pos}
use tracing_proxy.Tests.Texts.{sort_texts, sort_texts_lem, sort_texts-permute}
use tracing_proxy.Collect.Observe.Registers.{perform_each, write_spans}
use tracing_proxy.Collect.Observe.Registers.Holds.{registered}
use tracing_proxy.Collect.Observe.Registers.Writes.{TakesExactly, LacksLabel, write_spans_iff}
use tracing_proxy.Collect.Observe.Registers.Fits.{observe_spans-some}
use tracing_proxy.Base.Fallible.{AnyOf}
use tracing_proxy.Utils.{entries}
use tracing_proxy.Types.{Value, Span}
use tracing_proxy.Metrics.{Library, LabelMap, Metrics, started, vector, gauge}
use tracing_proxy.Metrics.Creates.{
  Op, registers, increments, increments_with, sums_with, perform_all, made,
}
use tracing_proxy.Metrics.Creates.Sequence.{perform_all-made}
use tracing_proxy.Metrics.Sweep.{sweep, sweep_iff, Stuck}
use tracing_proxy.Collect.Observe.{Printer, observe_spans}
use tracing_proxy.Collect.Observe.Panics.{SpanPanics}
use tracing_proxy.Collect.Observe.Balance.{observe_spans-Balances, hits}

abbrev library : Library
library = record {
  join = λ vs. "";
  split = λ s. s ∷ [];
  accepts = λ labels m. true;
  fits = λ labels vs. false;
  sort = λ labels. labels;
  one = 1;
}

abbrev operations : List Op
operations =
    registers "sent" "counter"
    ∷ registers "sent" "gauge"
    ∷ increments "sent" 1
    ∷ registers "kept" "gauge"
    ∷ []

perform_all-made_example :
    Apart (λ a b. a ≢ b) (made (perform_all library operations started).calls)
perform_all-made_example = perform_all-made library operations

abbrev one_gauge : Metrics
one_gauge = record {
  metrics =
      (
        "latency",
        record {
          collector = some (vector gauge);
          type = gauge;
          labels = "app" ∷ [];
          label_values = record { m = some (("shop", 3) ∷ []) };
        },
      )
      ∷ [];
  calls = [];
}

sweep_iff_example :
    (sweep library 2 9 one_gauge ≡ none)
    ↔ AnyOf (λ m. AnyOf (Stuck library (2 * 2) 9 m.1) (entries m.1.label_values)) one_gauge.metrics
sweep_iff_example = sweep_iff library 2 9 one_gauge

abbrev printer : Printer
printer = record {
  numbers = record {
    of_int = λ n. 0;
    of_uint = λ n. n;
    minus = λ x y. x;
    in_millis = λ x. x;
    zero = 0;
    one = 1;
  };
  sprint = λ v. "value";
  apdex_threshold = "500";
}

abbrev with_values : List (String × Value) → Span
with_values values = record {
  header = record {
    api_host = "";
    api_key = "";
    api_token = "";
    api_tenant_id = "";
    dataset = "";
    environment = "";
    timestamp = 0;
    span_events = [];
    trace_id = "t";
  };
  sample_rate = 1;
  values = values;
  data_size = 0;
  arrival_time = 0;
}

abbrev failed : Span
failed = with_values (("traceParentID", Value.text "p") ∷ ("error", Value.bool true) ∷ [])

abbrev no_labels : LabelMap
no_labels =
    ("service_name", "")
    ∷ ("operation", "")
    ∷ ("app", "")
    ∷ ("instance", "")
    ∷ ("transaction_type", "")
    ∷ ("transaction_category", "")
    ∷ ("transaction_sub_category", "")
    ∷ ("language", "")
    ∷ []

abbrev failed_ops : List Op
failed_ops =
    increments_with "trace_spans_count" no_labels 4
    ∷ increments_with "trace_operations_failed" no_labels 4
    ∷ sums_with "trace_operations_succeeded" no_labels 0 4
    ∷ increments_with "trace_operations_total" no_labels 4
    ∷ []

abbrev any_labels : LabelMap → Bool
any_labels labels = true

observe_spans-Balances_example :
    (hits any_labels "trace_operations_total" failed_ops
      ≡ hits any_labels "trace_operations_succeeded" failed_ops
        + hits any_labels "trace_operations_failed" failed_ops)
    × (hits any_labels "trace_operations_total" failed_ops
        ≡ hits any_labels "trace_spans_count" failed_ops)
unfolding observe_spans same_text text_discrete
observe_spans-Balances_example =
    observe_spans-Balances printer any_labels (failed ∷ []) 4 failed_ops refl

abbrev same_texts : List String → List String → Bool
same_texts [] [] = true
same_texts (x ∷ xs) (y ∷ ys) = same_text x y && same_texts xs ys
same_texts _ _ = false

same_texts_iff : (xs ys : List String) → (same_texts xs ys ≡ true) ↔ (xs ≡ ys)
same_texts_iff [] [] = (λ e. refl, λ e. refl)
same_texts_iff [] (y ∷ ys) = (λ e. cc e, λ e. cc e)
same_texts_iff (x ∷ xs) [] = (λ e. cc e, λ e. cc e)
same_texts_iff (x ∷ xs) (y ∷ ys) =
    let (a, b) =
      and_iff (same_text x y) (same_texts xs ys) (same_text_iff x y) (same_texts_iff xs ys) in
    (λ e. let (first, rest) = a e in cc (first, rest), λ e. b (cc e, cc e))

-- a vector takes the labels whose sorted names are its own
abbrev by_names : Library
by_names = record {
  join = λ vs. "";
  split = λ s. s ∷ [];
  accepts = λ names labels. same_texts names (sort_texts (map (λ kv. kv.0) labels));
  fits = λ labels vs. length labels == length vs;
  sort = sort_texts;
  one = 1;
}

by_names-TakesExactly : TakesExactly by_names
by_names-TakesExactly names labels =
    let own = map (λ kv. kv.0) labels in
    let (same, back) = same_texts_iff (sort_texts names) (sort_texts own) in
    (
      λ e. IsPermutation.trans (sort_texts_lem names).0 (
          subst (λ l. IsPermutation l own) (sym (same e))
            (IsPermutation-sym (sort_texts_lem own).0)),
      λ p. back (sort_texts-permute names own p),
    )

observe_spans-some_example :
    (p : Metrics) × (perform_each by_names failed_ops (registered by_names) ≡ some p)
unfolding observe_spans same_text text_discrete
observe_spans-some_example =
    observe_spans-some by_names (λ names labels. (by_names-TakesExactly names labels).1) printer
      (failed ∷ []) 4 failed_ops (IsPermutation-refl _, tt) refl

abbrev numbered : Span
numbered = with_values (("app", Value.int (pos 1)) ∷ [])

write_spans_iff_example :
    (write_spans by_names printer (failed ∷ numbered ∷ []) 4 (registered by_names) ≡ none)
    ↔ AnyOf (λ sp. SpanPanics sp ⊎ LacksLabel sp) (failed ∷ numbered ∷ [])
write_spans_iff_example =
    write_spans_iff by_names by_names-TakesExactly printer (failed ∷ numbered ∷ []) 4
