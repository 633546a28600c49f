-- ===== src/Tests.antt =====
-- Concrete inputs for the tests: a sampler, a record of sent traces, an insertion sort, and a
-- collector that has taken in a few spans.
pub mod CacheLaws
pub mod CollectLaws
pub mod SentLaws
pub mod ShardLaws
pub mod RuleLaws
pub mod Texts
pub mod MemberLaws
pub mod OtlpLaws
pub mod SettingLaws
pub mod RouteLaws
pub mod HandlerLaws
pub mod PipelineLaws
pub mod ConvertLaws
pub mod ConditionLaws
pub mod MetricLaws
use tracing_proxy.Base.{
  ℕ, ◌+◌, ◌*◌, ◌≡◌, refl, String, List, [], ◌∷◌, Option, none, some, Bool, true, false, length, leb,
  if◌then◌else◌, if-cases,
}
use tracing_proxy.Base.All.{IsPermutation, IsPermutation-refl}
use tracing_proxy.Base.Dict.{lookup, insert}
use tracing_proxy.Types.{Header, Span, Trace, Value, descendant_count}
use tracing_proxy.Collect.State.{Config, SamplerFactory, TraceSentCache, SentRecord, Collector}
use tracing_proxy.Collect.Process.{second}
use tracing_proxy.Collect.Loop.{Sort}
use tracing_proxy.Collect.Overrun.{Sorts}
use tracing_proxy.Collect.Invariant.{IsLive}
use tracing_proxy.Collect.History.{Event, History, start, run, run-start-IsLive}

-- A sampler that counts its calls and keeps the traces of two spans or more.
abbrev pub long_traces : SamplerFactory
long_traces = record {
  Sampler = ℕ;
  get_sampler_implementation_for_key = λ key legacy. 0;
  get_sample_rate = λ n t. record {
    sampler = n + 1;
    rate = 2;
    keep = leb 2 (length t.spans);
    reason = "rules/long";
    mark = none;
  };
}

-- Every decision is remembered.
abbrev pub all_records : TraceSentCache
all_records = record {
  Sent = List (String × SentRecord);
  record_decision = λ s t keep.
      insert t.trace_id
        (record { kept = keep; rate = t.sample_rate; descendant_count = descendant_count t }) s;
  check = λ s sp. (s, lookup sp.header.trace_id s);
  resize = λ s cfg. some s;
}

abbrev put_sorted : {A : Type 0} → (A → A → Bool) → A → List A → List A
put_sorted before x [] = x ∷ []
put_sorted before x (y ∷ ys) =
    let rest = put_sorted before x ys in if before y x then y ∷ rest else x ∷ y ∷ ys

abbrev pub sorted : {A : Type 0} → (A → A → Bool) → List A → List A
sorted before [] = []
sorted before (x ∷ xs) = put_sorted before x (sorted before xs)

put_sorted-IsPermutation :
    {A : Type 0} (before : A → A → Bool) (x : A) (ys : List A)
    → IsPermutation (x ∷ ys) (put_sorted before x ys)
put_sorted-IsPermutation before x [] = IsPermutation.keep x IsPermutation.none
put_sorted-IsPermutation before x (y ∷ ys) =
    if-cases (IsPermutation (x ∷ y ∷ ys)) (before y x) (y ∷ put_sorted before x ys) (x ∷ y ∷ ys)
      (IsPermutation.trans (IsPermutation.swap x y ys)
        (IsPermutation.keep y (put_sorted-IsPermutation before x ys)))
      (IsPermutation-refl (x ∷ y ∷ ys))

pub sorted-IsPermutation :
    {A : Type 0} (before : A → A → Bool) (xs : List A) → IsPermutation xs (sorted before xs)
sorted-IsPermutation before [] = IsPermutation.none
sorted-IsPermutation before (x ∷ xs) =
    IsPermutation.trans (IsPermutation.keep x (sorted-IsPermutation before xs))
      (put_sorted-IsPermutation before x (sorted before xs))

abbrev pub insertion_sort : Sort
insertion_sort = sorted

pub insertion_sort-Sorts : Sorts insertion_sort
insertion_sort-Sorts = sorted-IsPermutation

abbrev pub dry_config : Config
dry_config = record {
  cache_capacity = 3;
  max_alloc = 1000;
  trace_timeout = some (10 * second);
  send_delay = none;
  cache_overrun_strategy = "impact";
  sample_cache = record { kept_size = 10; dropped_size = 10 };
  is_dry_run = true;
  dry_run_field_name = "meta.dryrun.kept";
  add_span_count_to_root = true;
  add_rule_reason_to_trace = true;
}

abbrev pub small_config : Config
small_config = record dry_config { cache_capacity = 2; cache_overrun_strategy = "resize" }

abbrev pub header : String → Header
header id = record {
  api_host = "https://api";
  api_key = "key";
  api_token = "";
  api_tenant_id = "tenant";
  dataset = "shop";
  environment = "prod";
  timestamp = 7;
  span_events = [];
  trace_id = id;
}

abbrev pub child_span : String → Span
child_span id = record {
  header = header id;
  sample_rate = 1;
  values = ("parentId", Value.text "p") ∷ [];
  data_size = 0;
  arrival_time = 0;
}

abbrev pub root_span : String → Span
root_span id = record (child_span id) { values = ("name", Value.text "checkout") ∷ [] }

abbrev pub empty_trace : String → Trace
empty_trace id = record {
  api_host = "https://api";
  api_key = "key";
  dataset = "shop";
  trace_id = id;
  sample_rate = 1;
  keep_sample = false;
  sent = false;
  send_by = 5;
  arrival_time = 1;
  root_span = none;
  data_size = 0;
  spans = [];
  total_impact = 0;
}

abbrev pub one : Header → ℕ
one _ = 1

-- Four traces through a cache of three places, a tick over the memory limit, and a reload.
abbrev pub busy : History
busy =
    (dry_config, Event.span 1 (child_span "a"))
    ∷ (dry_config, Event.span 2 (child_span "b"))
    ∷ (dry_config, Event.span 3 (root_span "a"))
    ∷ (dry_config, Event.span 4 (child_span "c"))
    ∷ (dry_config, Event.span 5 (child_span "d"))
    ∷ (dry_config, Event.ticked 6 5000)
    ∷ (small_config, Event.reload)
    ∷ []

abbrev pub fresh : Collector ℕ (List (String × SentRecord))
fresh = start long_traces all_records insertion_sort 3 "host" (λ _. empty_trace "") []

abbrev pub warm : Collector ℕ (List (String × SentRecord))
warm = run long_traces all_records insertion_sort busy fresh

pub warm-IsLive : IsLive warm
warm-IsLive =
    run-start-IsLive long_traces all_records insertion_sort insertion_sort-Sorts busy 3 "host"
      (λ _. empty_trace "") []
