-- ===== src/Collect/Fate.antt =====
-- Ways of a span through `processSpan` of collect/collect.go: what becomes of a span that starts a
-- trace or joins a live one.
use tracing_proxy.Base.{ℕ, ◌≡◌, ap, ◌∙◌, subst, String, none, some, arith}
use tracing_proxy.Cache.{get, slot, looped}
use tracing_proxy.Types.{Span, Trace, add_span}
use tracing_proxy.Collect.State.{Config, SamplerFactory, TraceSentCache, Collector, write}
use tracing_proxy.Collect.Process.{process_span, process_unknown, admit, grow, new_trace}
use tracing_proxy.Collect.Invariant.{IsLive}
use tracing_proxy.Collect.Keeps.{
  admit-slot, join-live, admit-heap_new, checked-IsLive, write_self, process_span-IsLive,
}

module _ (F : SamplerFactory) (T : TraceSentCache) (cfg : Config) (now : ℕ)
    (c : Collector (SamplerFactory.Sampler F) (TraceSentCache.Sent T)) (sp : Span)
    (v : IsLive c) where
  open T use {Sent, check}

  abbrev checked : Collector (SamplerFactory.Sampler F) Sent
  checked = record c { sample_trace_cache = (check c.sample_trace_cache sp).0 }

  abbrev admitted : Collector (SamplerFactory.Sampler F) Sent
  admitted = admit F T cfg now checked sp

  module _ (new : get c.ring sp.header.trace_id ≡ none) where
    module _ (unseen : (check c.sample_trace_cache sp).1 ≡ none) where
      started : process_span F T cfg now c sp ≡ record admitted {
        heap = write admitted.heap c.next (grow cfg now sp (admitted.heap c.next));
      }
      unfolding process_span process_unknown
      started =
          rw (new, unseen, process_span, process_unknown)
            (join-live F T cfg now admitted c.next sp (
              ap (λ (t : Trace). t.sent)
                (admit-heap_new F T cfg now checked sp
                  (checked-IsLive F T cfg c (check c.sample_trace_cache sp).0 v))))

      started-heap :
          (process_span F T cfg now c sp).heap c.next ≡ grow cfg now sp (new_trace cfg now sp)
      started-heap =
          ap (λ (c' : Collector (SamplerFactory.Sampler F) Sent). c'.heap c.next) started
          ∙ write_self admitted.heap c.next (grow cfg now sp (admitted.heap c.next))
          ∙ ap (grow cfg now sp) (
              admit-heap_new F T cfg now checked sp
                (checked-IsLive F T cfg c (check c.sample_trace_cache sp).0 v))

      started-slot :
          slot (process_span F T cfg now c sp).ring.insertion_order (looped c.ring) ≡ some c.next
      started-slot =
          ap
            (λ (c' : Collector (SamplerFactory.Sampler F) Sent).
              slot c'.ring.insertion_order (looped c.ring))
            started
          ∙ admit-slot F T cfg now checked sp
              (checked-IsLive F T cfg c (check c.sample_trace_cache sp).0 v)

      grown_id : (grow cfg now sp (new_trace cfg now sp)).trace_id ≡ sp.header.trace_id
      unfolding grow new_trace add_span
      grown_id = ground arith

      -- From a collector that satisfies `IsLive`, if neither the cache nor the record of
      -- sent traces knows the trace of the span, then after `processSpan` `Get` finds
      -- under its ID the next free pointer, and there stands the new trace with the span
      -- added, whatever trace was ejected.
      pub process_span-starts :
          let c' = process_span F T cfg now c sp in
          (get c'.ring sp.header.trace_id ≡ some c.next)
          × (c'.heap c.next ≡ grow cfg now sp (new_trace cfg now sp))
      unfolding get
      process_span-starts =
          let c' = process_span F T cfg now c sp in
          let live = process_span-IsLive F T cfg now c sp v in
          (
            subst (λ (k : String). get c'.ring k ≡ some c.next)
                (ap (λ (t : Trace). t.trace_id) started-heap ∙ grown_id)
                (live.valid.stored (looped c.ring) c.next started-slot),
            started-heap,
          )
