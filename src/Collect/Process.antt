-- ===== src/Collect/Process.antt =====
-- `processSpan` and `dealWithSentTrace` of collect/collect.go: what becomes of an incoming span.
use tracing_proxy.Base.{
  ℕ, ◌+◌, ◌*◌, ◌^◌, String, [], ◌∷◌, ◌++◌, Option, none, some, false, ◌&&◌, not, length,
  if◌then◌else◌,
}
use tracing_proxy.Base.Int.{pos}
use tracing_proxy.Cache
use tracing_proxy.Cache.{set_trace}
use tracing_proxy.Types.{Span, Trace, Value, add_span, descendant_count}
use tracing_proxy.Collect.State.{
  Config, SamplerFactory, TraceSentCache, SentRecord, Collector, write, put_value, is_root_span,
  merge_sample_rates,
}
use tracing_proxy.Collect.Send.{Reason, send}

abbrev pub second : ℕ
second = 10 ^ 9

abbrev pub or_default : Option ℕ → ℕ → ℕ
or_default none n = n
or_default (some t) n = t

unfoldable pub late_count : Config → ℕ → Span → Span
unfolding put_value
late_count cfg span_count sp =
    if cfg.add_span_count_to_root && is_root_span sp
    then put_value "meta.span_count" (Value.int64 (pos span_count)) sp
    else sp

-- the trace that `processSpan` creates for a span with a new ID
unfoldable pub new_trace : Config → ℕ → Span → Trace
new_trace cfg now sp = record {
  api_host = sp.header.api_host;
  api_key = sp.header.api_key;
  dataset = sp.header.dataset;
  trace_id = sp.header.trace_id;
  sample_rate = sp.sample_rate;
  keep_sample = false;
  sent = false;
  send_by = now + or_default cfg.trace_timeout (60 * second);
  arrival_time = now;
  root_span = none;
  data_size = 0;
  spans = [];
  total_impact = 0;
}

-- `trace.AddSpan(sp)`, and the new deadline if the span is a root
unfoldable pub grow : Config → ℕ → Span → Trace → Trace
grow cfg now sp t =
    let t' = add_span now t sp in
    if is_root_span sp
    then record t' {
      send_by = now + or_default cfg.send_delay (2 * second);
      root_span = some (length t.spans);
    }
    else t'

module _ (F : SamplerFactory) (T : TraceSentCache) where
  open F use {Sampler}
  open T use {Sent, check}

  abbrev pub State : Type 0
  State = Collector Sampler Sent

  unfoldable pub enqueue : State → Span → State
  enqueue c sp = record c { enqueued = c.enqueued ++ sp ∷ [] }

  unfoldable pub increment : State → String → State
  increment c name = record c { incremented = c.incremented ++ name ∷ [] }

  -- `dealWithSentTrace`: the state after the call, and the span as the call leaves it
  unfoldable pub deal_with_sent_trace : Config → State → SentRecord → Span → State × Span
  unfolding put_value late_count enqueue
  deal_with_sent_trace cfg c sr sp =
      let sp1 =
        if cfg.is_dry_run then put_value cfg.dry_run_field_name (Value.bool sr.kept) sp else sp in
      let sp2 = late_count cfg sr.descendant_count (merge_sample_rates sp1 sr.rate) in
      if cfg.is_dry_run && not sr.kept
      then (enqueue c sp1, sp1)
      else if sr.kept
      then (enqueue c sp2, sp2)
      else (c, sp1)

  -- a call of `send` for the trace that `Set` kicked out, if it did
  unfoldable pub send_ejected : Config → State → Option ℕ → State
  send_ejected cfg c none = c
  send_ejected cfg c (some r) = send F T cfg c r Reason.ejected_full

  -- the state after `Set` of a trace at a new pointer
  abbrev pub placed : State → Trace → State
  placed c t =
      let heap = write c.heap c.next t in
      record c { heap = heap; next = c.next + 1; ring = (set_trace heap c.ring c.next).0 }

  -- a new trace in the ring, and the one that it kicked out sent
  unfoldable pub admit : Config → ℕ → State → Span → State
  unfolding increment send_ejected new_trace
  admit cfg now c sp =
      let t = new_trace cfg now sp in
      send_ejected cfg (placed (increment c "trace_accepted") t)
        (set_trace (write c.heap c.next t) c.ring c.next).1

  abbrev pub record_of : Trace → SentRecord
  record_of t = record {
    kept = t.keep_sample;
    rate = t.sample_rate;
    descendant_count = descendant_count t;
  }

  -- `if trace.Sent { … }`, which does not return
  unfoldable pub pass_if_sent : Config → State → Trace → Span → State × Span
  unfolding deal_with_sent_trace
  pass_if_sent cfg c t sp = if t.sent then deal_with_sent_trace cfg c (record_of t) sp else (c, sp)

  -- the rest of `processSpan`, for the trace at `r`
  unfoldable pub join : Config → ℕ → State → ℕ → Span → State
  unfolding pass_if_sent grow write
  join cfg now c r sp =
      let dealt = pass_if_sent cfg c (c.heap r) sp in
      record dealt.0 { heap = write c.heap r (grow cfg now dealt.1 (c.heap r)) }

  -- a span of a trace that is not in the cache
  unfoldable pub process_unknown : Config → ℕ → State → Span → State
  unfolding increment deal_with_sent_trace admit join
  process_unknown cfg now c sp =
      let checked = check c.sample_trace_cache sp in
      let c' = record c { sample_trace_cache = checked.0 } in
      elim checked.1 [
        | some sr ↦ (deal_with_sent_trace cfg (increment c' "trace_sent_cache_hit") sr sp).0
        | none ↦ join cfg now (admit cfg now c' sp) c.next sp
      ]

  -- `processSpan`, with `now` for the calls of `time.Now`
  unfoldable pub process_span : Config → ℕ → State → Span → State
  unfolding process_unknown join
  process_span cfg now c sp = elim (Cache.get c.ring sp.header.trace_id) [
    | some r ↦ join cfg now c r sp
    | none ↦ process_unknown cfg now c sp
  ]
