-- ===== src/Collect/Send.antt =====
-- `send` of collect/collect.go: the sampling decision on a trace, and the spans handed on.
-- The metrics per span are in Observe; they and the logging read the trace and change nothing in it.
use tracing_proxy.Base.{
  ℕ, zero, suc, String, List, [], ◌∷◌, ◌++◌, Option, none, some, Bool, true, ◌&&◌, not, map,
  if◌then◌else◌, same_text,
}
use tracing_proxy.Base.Int.{pos}
use tracing_proxy.Base.Dict.{lookup, insert}
use tracing_proxy.Types.{Span, Trace, Value, get_sampler_key, descendant_count}
use tracing_proxy.Collect.State.{
  Config, Decision, SamplerFactory, TraceSentCache, Collector, write, put_value, is_root_span,
  merge_sample_rates,
}

pub data Reason : Type 0 where
  got_root expired ejected_full ejected_memsize : Reason

unfoldable pub metric : Reason → String
metric got_root = "trace_send_got_root"
metric expired = "trace_send_expired"
metric ejected_full = "trace_send_ejected_full"
metric ejected_memsize = "trace_send_ejected_memsize"

abbrev pub span_count : Trace → Value
span_count t = Value.int64 (pos (descendant_count t))

unfoldable pub put_nth : ℕ → String → Value → List Span → List Span
unfolding put_value
put_nth p k v [] = []
put_nth zero k v (sp ∷ sps) = put_value k v sp ∷ sps
put_nth (suc p) k v (sp ∷ sps) = sp ∷ put_nth p k v sps

-- a write through the pointer `trace.RootSpan`
unfoldable pub put_root : Option ℕ → String → Value → List Span → List Span
unfolding put_nth
put_root none k v sps = sps
put_root (some p) k v sps = put_nth p k v sps

-- the root span's count, written before the sampler is asked
unfoldable pub count_root : Config → Trace → Trace
unfolding put_root
count_root cfg t =
    if cfg.add_span_count_to_root
    then record t { spans = put_root t.root_span "meta.span_count" (span_count t) t.spans }
    else t

-- the field that a sampler with `AddSampleRateKeyToTrace` writes into each span
unfoldable pub mark_span : Option (String × String) → Span → Span
unfolding put_value
mark_span none sp = sp
mark_span (some (k, v)) sp = put_value k (Value.text v) sp

unfoldable pub add_reason : Config → String → Span → Span
unfolding put_value
add_reason cfg reason sp =
    if cfg.add_rule_reason_to_trace then put_value "meta.reason" (Value.text reason) sp else sp

unfoldable pub add_span_count : Config → Trace → Span → Span
unfolding put_value
add_span_count cfg t sp =
    if cfg.add_span_count_to_root && is_root_span sp
    then put_value "meta.span_count" (span_count t) sp
    else sp

unfoldable pub add_dry_run : Config → Bool → Span → Span
unfolding put_value
add_dry_run cfg keep sp =
    if cfg.is_dry_run then put_value cfg.dry_run_field_name (Value.bool keep) sp else sp

unfoldable pub add_hostname : String → Span → Span
unfolding put_value same_text
add_hostname hostname sp =
    if same_text hostname "" then sp else put_value "meta.local_hostname" (Value.text hostname) sp

-- the body of the loop over the spans of a trace that is sent
unfoldable pub decorate : Config → String → String → Trace → Span → Span
unfolding add_reason add_span_count add_dry_run add_hostname
decorate cfg hostname reason t sp =
    let reasoned = add_reason cfg reason sp in
    let counted = add_span_count cfg t reasoned in
    let dried = add_dry_run cfg t.keep_sample counted in
    let named = add_hostname hostname dried in merge_sample_rates named t.sample_rate

module _ (F : SamplerFactory) (T : TraceSentCache) where
  open F use {Sampler, get_sampler_implementation_for_key, get_sample_rate}
  open T use {Sent, record_decision}

  -- `if sampler, found = i.datasetSamplers[samplerKey]; !found { … }`
  unfoldable pub sampler_for : List (String × Sampler) → String × Bool → Sampler
  sampler_for samplers (key, legacy) = elim (lookup key samplers) [
    | some s ↦ s
    | none ↦ get_sampler_implementation_for_key key legacy
  ]

  -- the trace with the decision on it
  unfoldable pub decided : Decision Sampler → Trace → Trace
  unfolding mark_span
  decided d t = record t {
    sample_rate = d.rate;
    keep_sample = d.keep;
    spans = map (mark_span d.mark) t.spans;
  }

  -- the end of `send`, where the trace is not dropped
  unfoldable pub forward :
      Config → Collector Sampler Sent → ℕ → String → Trace → Collector Sampler Sent
  unfolding decorate write
  forward cfg c r reason t =
      let spans = map (decorate cfg c.hostname reason t) t.spans in
      record c {
        heap = write c.heap r (record t { spans = spans });
        enqueued = c.enqueued ++ spans;
        incremented = c.incremented ++ "trace_send_kept" ∷ [];
      }

  unfoldable pub root_metric : Option ℕ → String
  root_metric (some _) = "trace_send_has_root"
  root_metric none = "trace_send_no_root"

  -- `send` of a trace that has not been sent
  unfoldable pub send_unsent :
      Config → Collector Sampler Sent → ℕ → Reason → Trace → Collector Sampler Sent
  unfolding metric root_metric count_root sampler_for decided forward
  send_unsent cfg c r reason t =
      let key = get_sampler_key t in
      let counted = count_root cfg (record t { sent = true }) in
      let d = get_sample_rate (sampler_for c.dataset_samplers key) counted in
      let t' = decided d counted in
      let c' = record c {
        heap = write c.heap r t';
        dataset_samplers = insert key.0 d.sampler c.dataset_samplers;
        sample_trace_cache = record_decision c.sample_trace_cache t' d.keep;
        incremented = c.incremented ++ root_metric t.root_span ∷ metric reason ∷ [];
      } in
      if not d.keep && not cfg.is_dry_run
      then record c' { incremented = c'.incremented ++ "trace_send_dropped" ∷ [] }
      else forward cfg c' r d.reason t'

  unfoldable pub send : Config → Collector Sampler Sent → ℕ → Reason → Collector Sampler Sent
  unfolding send_unsent
  send cfg c r reason = let t = c.heap r in if t.sent then c else send_unsent cfg c r reason t
