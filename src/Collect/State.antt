-- ===== src/Collect/State.antt =====
-- The state of `InMemCollector` (collect/collect.go), the configuration that it reads, and the two
-- components that it calls: the samplers (package sample) and the record of sent traces (the
-- interface of collect/cache/traceSentCache.go).
use tracing_proxy.Base.{
  ℕ, ◌*◌, ◌%◌, ltb, String, List, Option, none, some, Bool, true, false, ◌&&◌, ◌==◌, if◌then◌else◌,
}
use tracing_proxy.Base.Dict.{lookup, insert}
use tracing_proxy.Cache.{Heap, Ring}
use tracing_proxy.Types.{Span, Trace, Value, uint_mod}

pub record SampleCacheConfig : Type 0 where
  pub kept_size : ℕ
  pub dropped_size : ℕ

-- What the collector reads of the configuration. A getter that fails is `none`.
pub record Config : Type 0 where
  pub cache_capacity : ℕ
  pub max_alloc : ℕ
  pub trace_timeout : Option ℕ
  pub send_delay : Option ℕ
  pub cache_overrun_strategy : String
  pub sample_cache : SampleCacheConfig
  pub is_dry_run : Bool
  pub dry_run_field_name : String
  pub add_span_count_to_root : Bool
  pub add_rule_reason_to_trace : Bool

-- What `GetSampleRate` answers: the sampler after the call (its counts and its random source), the
-- decision, and the field that the sampler writes into every span of the trace, if it does.
pub record Decision (Sampler : Type 0) : Type 0 where
  pub sampler : Sampler
  pub rate : ℕ
  pub keep : Bool
  pub reason : String
  pub mark : Option (String × String)

pub record SamplerFactory : Type 1 where
  pub Sampler : Type 0
  pub get_sampler_implementation_for_key : String → Bool → Sampler
  pub get_sample_rate : Sampler → Trace → Decision Sampler

-- The methods `Kept`, `Rate` and `DescendantCount` of a `TraceSentRecord`.
pub record SentRecord : Type 0 where
  pub kept : Bool
  pub rate : ℕ
  pub descendant_count : ℕ

pub record TraceSentCache : Type 1 where
  pub Sent : Type 0
  pub record_decision : Sent → Trace → Bool → Sent
  pub check : Sent → Span → Sent × Option SentRecord
  -- `none` is an error.
  pub resize : Sent → SampleCacheConfig → Option Sent

pub record Collector (Sampler Sent : Type 0) : Type 0 where
  -- the traces, and the first pointer that is not in use
  pub heap : Heap
  pub next : ℕ
  pub ring : Ring
  pub dataset_samplers : List (String × Sampler)
  pub sample_trace_cache : Sent
  pub hostname : String
  -- the spans handed to `Transmission.EnqueueSpan`, in order
  pub enqueued : List Span
  -- the names that this file gives to `Metrics.Increment`, in order
  pub incremented : List String

-- A write through a pointer.
unfoldable pub write : Heap → ℕ → Trace → Heap
write h r t q = if q == r then t else h q

unfoldable pub put_value : String → Value → Span → Span
put_value k v sp = record sp { values = insert k v sp.values }

-- `sp.Data[k] == nil`: the key is missing, or its value is nil
unfoldable pub is_nil : Option Value → Bool
is_nil none = true
is_nil (some Value.null) = true
is_nil (some _) = false

unfoldable pub is_root_span : Span → Bool
unfolding is_nil
is_root_span sp = is_nil (lookup "traceParentID" sp.values) && is_nil (lookup "parentId" sp.values)

unfoldable pub note_original_rate : ℕ → Span → Span
unfolding put_value
note_original_rate trace_rate sp =
    if trace_rate == 1
    then sp
    else put_value "meta.refinery.original_sample_rate" (Value.uint sp.sample_rate) sp

unfoldable pub merge_sample_rates : Span → ℕ → Span
unfolding note_original_rate
merge_sample_rates sp trace_rate =
    let noted = note_original_rate trace_rate sp in
    let rate = if ltb noted.sample_rate 1 then 1 else noted.sample_rate in
    record noted { sample_rate = rate * trace_rate % uint_mod }
