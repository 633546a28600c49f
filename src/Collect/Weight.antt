-- ===== src/Collect/Weight.antt =====
-- Spans counted by their headers, and `send` of collect/collect.go by that count.
use tracing_proxy.Base.{
  ℕ, zero, suc, ◌+◌, ◌≡◌, refl, ap, ◌∙◌, List, [], ◌∷◌, Option, none, some, true, false, arith, map,
  String, ◌⊎◌,
}
use tracing_proxy.Types.{Span, Trace, Header, Value, get_sampler_key}
use tracing_proxy.Types.Impact.{sum_of, sum_of-append}
use tracing_proxy.Collect.State.{
  Config, Decision, SamplerFactory, TraceSentCache, Collector, write, merge_sample_rates,
}
use tracing_proxy.Collect.Send.{
  Reason, send, send_unsent, forward, decided, count_root, put_root, put_nth, mark_span, decorate,
  add_reason, add_span_count, add_dry_run, add_hostname, sampler_for, span_count,
}

-- `decorate` changes fields, sizes and rates, never the header.
pub header-decorate :
    (cfg : Config) (hostname reason : String) (t : Trace) (sp : Span)
    → (decorate cfg hostname reason t sp).header ≡ sp.header
unfolding decorate add_reason add_span_count add_dry_run add_hostname merge_sample_rates
header-decorate cfg hostname reason t sp = ground arith

header-mark_span :
    (mark : Option (String × String)) (sp : Span) → (mark_span mark sp).header ≡ sp.header
unfolding mark_span
header-mark_span mark sp = ground arith

module _ (w : Header → ℕ) where
  abbrev pub weight : List Span → ℕ
  weight = sum_of (λ sp. w sp.header)

  pub weight-map :
      (f : Span → Span) (sps : List Span)
      → ((sp : Span) → (f sp).header ≡ sp.header)
      → weight (map f sps) ≡ weight sps
  weight-map f [] h = refl
  weight-map f (sp ∷ sps) h = omega (arith, ap w (h sp), weight-map f sps h)

  weight-put_nth :
      (p : ℕ) (k : String) (v : Value) (sps : List Span) → weight (put_nth p k v sps) ≡ weight sps
  unfolding put_nth
  weight-put_nth p k v [] = refl
  weight-put_nth zero k v (sp ∷ sps) = refl
  weight-put_nth (suc p) k v (sp ∷ sps) = omega (arith, weight-put_nth p k v sps)

  weight-put_root :
      (p : Option ℕ) (k : String) (v : Value) (sps : List Span)
      → weight (put_root p k v sps) ≡ weight sps
  unfolding put_root
  weight-put_root none k v sps = refl
  weight-put_root (some p) k v sps = weight-put_nth p k v sps

  weight-count_root : (cfg : Config) (t : Trace) → weight (count_root cfg t).spans ≡ weight t.spans
  unfolding count_root
  weight-count_root cfg t =
      ground (arith, weight-put_root t.root_span "meta.span_count" (span_count t) t.spans)

module _ (w : Header → ℕ) (F : SamplerFactory) (T : TraceSentCache) (cfg : Config)
    (c : Collector (SamplerFactory.Sampler F) (TraceSentCache.Sent T)) (r : ℕ)
    (reason : Reason) where
  open F use {Sampler, get_sample_rate}

  -- the trace as the sampler sees it, its decision, and the trace with the decision
  abbrev counted : Trace
  counted = count_root cfg (record (c.heap r) { sent = true })

  abbrev decision : Decision Sampler
  decision =
      get_sample_rate (sampler_for F T c.dataset_samplers (get_sampler_key (c.heap r))) counted

  abbrev final : Trace
  final = decided F T decision counted

  abbrev delivered : List Span
  delivered = map (decorate cfg c.hostname decision.reason final) final.spans

  weight-final : weight w final.spans ≡ weight w (c.heap r).spans
  unfolding decided
  weight-final =
      weight-map w (mark_span decision.mark) counted.spans (header-mark_span decision.mark)
      ∙ weight-count_root w cfg (record (c.heap r) { sent = true })

  weight-delivered : weight w delivered ≡ weight w (c.heap r).spans
  weight-delivered =
      weight-map w (decorate cfg c.hostname decision.reason final) final.spans
        (header-decorate cfg c.hostname decision.reason final)
      ∙ weight-final

  -- What the heap holds weighs the same after the call.
  pub weight-send_heap :
      (q : ℕ) → weight w ((send F T cfg c r reason).heap q).spans ≡ weight w (c.heap q).spans
  unfolding send send_unsent forward write
  weight-send_heap q = ground (arith, weight-delivered, weight-final)

  abbrev pub Delivers : Type 0
  Delivers =
      weight w (send F T cfg c r reason).enqueued ≡ weight w c.enqueued + weight w (c.heap r).spans

  -- In a dry run `send` of a trace that has not been sent hands on spans that weigh what its
  -- spans weigh, whatever the sampler decides.
  pub weight-send_dry_run : cfg.is_dry_run ≡ true → (c.heap r).sent ≡ false → Delivers
  unfolding send send_unsent forward
  weight-send_dry_run dry live =
      ground (arith, weight-delivered, sum_of-append (λ sp. w sp.header) c.enqueued delivered)

  -- `send` hands on nothing, or the trace had not been sent and the spans handed on gain the
  -- weight of all its spans.
  pub weight-send_cases :
      ((send F T cfg c r reason).enqueued ≡ c.enqueued) ⊎ (((c.heap r).sent ≡ false) × Delivers)
  unfolding send send_unsent forward
  weight-send_cases =
      ground (arith, weight-delivered, sum_of-append (λ sp. w sp.header) c.enqueued delivered)
