-- ===== src/Collect/Conserve.antt =====
-- What a collector holds and has handed on, by weight, and `processSpan` of collect/collect.go by it.
use tracing_proxy.Base.{
  ℕ, ◌+◌, ◌≡◌, refl, ap, ◌∙◌, [], ◌∷◌, Option, none, some, true, false, arith, inl, inr,
  Option-cases,
}
use tracing_proxy.Base.Dict.{lookup}
use tracing_proxy.Cache.{Heap, Ring, kicked_out, slot, set_trace, get, looped}
use tracing_proxy.Cache.Insert.{looped-lt}
use tracing_proxy.Types.{Span, Trace, Header, add_span, arrived}
use tracing_proxy.Types.Impact.{sum_of-append}
use tracing_proxy.Collect.State.{
  Config, SamplerFactory, TraceSentCache, Collector, SentRecord, write, merge_sample_rates,
}
use tracing_proxy.Collect.Send.{Reason, send}
use tracing_proxy.Collect.Sent.{send-ring}
use tracing_proxy.Collect.Weight.{weight, weight-send_heap, weight-send_dry_run}
use tracing_proxy.Cache.Held.{held_sum, at_slot, held_sum-set, held_sum-same, held_sum-one}
use tracing_proxy.Collect.Process.{
  placed, process_span, process_unknown, join, admit, grow, deal_with_sent_trace, send_ejected,
  new_trace, increment, enqueue,
}
use tracing_proxy.Collect.Invariant.{IsLive, admit-IsLive, set_trace-kicked, counted-IsLive}
use tracing_proxy.Collect.Keeps.{admit-slot, write_self, write_other, checked-IsLive, join-live}

module _ (w : Header → ℕ) where
  -- What a collector holds and has handed on, by the weights of the headers.
  abbrev pub live_weight : {Sampler Sent : Type 0} → Collector Sampler Sent → ℕ
  live_weight c = held_sum (λ r. weight w (c.heap r).spans) c.ring.insertion_order

  abbrev pub total : {Sampler Sent : Type 0} → Collector Sampler Sent → ℕ
  total c = live_weight c + weight w c.enqueued

kicked_out-unsent :
    (h : Heap) (d : Ring) (r : ℕ)
    → ((o : ℕ) → slot d.insertion_order (looped d) ≡ some o → (h o).sent ≡ false)
    → (set_trace h d r).1 ≡ slot d.insertion_order (looped d)
unfolding set_trace
kicked_out-unsent h d r f = go (slot d.insertion_order (looped d)) f
  where
    go : (o : Option ℕ) → ((q : ℕ) → o ≡ some q → (h q).sent ≡ false) → kicked_out h o ≡ o
    go none f = refl
    go (some q) f = rw (f q refl, kicked_out)

module _ (w : Header → ℕ) (F : SamplerFactory) (T : TraceSentCache) (cfg : Config)
    (dry : cfg.is_dry_run ≡ true) where
  open F use {Sampler}
  open T use {Sent, check}

  -- `send` of a trace that is not in the ring adds its spans to what is handed on.
  pub total-send :
      (c : Collector Sampler Sent) (r : ℕ) (reason : Reason)
      → (c.heap r).sent ≡ false
      → total w (send F T cfg c r reason) ≡ total w c + weight w (c.heap r).spans
  total-send c r reason live = rw (send-ring F T cfg c r reason) (
      omega (
        arith,
        weight-send_dry_run w F T cfg c r reason dry live,
        held_sum-same (λ q. weight w ((send F T cfg c r reason).heap q).spans)
            (λ q. weight w (c.heap q).spans) c.ring.insertion_order
            (λ i q e. weight-send_heap w F T cfg c r reason q),
      ))

  deal-dry_run :
      (c : Collector Sampler Sent) (sr : SentRecord) (sp : Span)
      → (deal_with_sent_trace F T cfg c sr sp).0
        ≡ enqueue F T c (deal_with_sent_trace F T cfg c sr sp).1
  unfolding deal_with_sent_trace
  deal-dry_run c sr sp = ground arith

  header-deal :
      (c : Collector Sampler Sent) (sr : SentRecord) (sp : Span)
      → (deal_with_sent_trace F T cfg c sr sp).1.header ≡ sp.header
  unfolding deal_with_sent_trace merge_sample_rates
  header-deal c sr sp = ground arith

  total-enqueue :
      (c : Collector Sampler Sent) (sp : Span)
      → total w (enqueue F T c sp) ≡ total w c + w sp.header
  unfolding enqueue
  total-enqueue c sp = omega (arith, sum_of-append (λ s. w s.header) c.enqueued (sp ∷ []))

  -- A late span is handed on.
  pub total-deal :
      (c : Collector Sampler Sent) (sr : SentRecord) (sp : Span)
      → total w (deal_with_sent_trace F T cfg c sr sp).0 ≡ total w c + w sp.header
  total-deal c sr sp =
      let sp' = (deal_with_sent_trace F T cfg c sr sp).1 in
      ap (total w) (deal-dry_run c sr sp)
      ∙ total-enqueue c sp'
      ∙ ap (λ (h : Header). total w c + w h) (header-deal c sr sp)

  total-send_ejected :
      (c : Collector Sampler Sent) (o : Option ℕ)
      → ((r : ℕ) → o ≡ some r → (c.heap r).sent ≡ false)
      → total w (send_ejected F T cfg c o) ≡ total w c + at_slot (λ r. weight w (c.heap r).spans) o
  unfolding send_ejected
  total-send_ejected c none live = omega arith
  total-send_ejected c (some r) live = total-send c r Reason.ejected_full (live r refl)

  weight-grow :
      (now : ℕ) (sp : Span) (t : Trace)
      → weight w (grow cfg now sp t).spans ≡ weight w t.spans + w sp.header
  unfolding grow add_span
  weight-grow now sp t =
      ground (arith, sum_of-append (λ s. w s.header) t.spans (arrived now sp ∷ []))

  -- A live trace that grows by a span.
  pub total-grow :
      (now : ℕ) (c : Collector Sampler Sent) (r i : ℕ) (sp : Span)
      → IsLive c
      → slot c.ring.insertion_order i ≡ some r
      → total w (record c { heap = write c.heap r (grow cfg now sp (c.heap r)) })
        ≡ total w c + w sp.header
  total-grow now c r i sp v here =
      let h' = write c.heap r (grow cfg now sp (c.heap r)) in
      omega (
        arith,
        held_sum-one (λ q. weight w (h' q).spans) (λ q. weight w (c.heap q).spans)
            c.ring.insertion_order i r here (λ j e. v.valid.distinct j i r e here)
            (λ q ne. ap (λ (t : Trace). weight w t.spans) (write_other c.heap r q _ ne)),
        ap (λ (t : Trace). weight w t.spans) (write_self c.heap r (grow cfg now sp (c.heap r))),
        weight-grow now sp (c.heap r),
      )

  module _ (c : Collector Sampler Sent) (t : Trace) (v : IsLive c) where
    abbrev heap : Heap
    heap = write c.heap c.next t

    heap_old : (i r : ℕ) → slot c.ring.insertion_order i ≡ some r → heap r ≡ c.heap r
    heap_old i r e = write_other c.heap c.next r t (λ p. omega (arith, v.allocated i r e, p))

    kicked-slot : (set_trace heap c.ring c.next).1 ≡ slot c.ring.insertion_order (looped c.ring)
    kicked-slot =
        kicked_out-unsent heap c.ring c.next
          (λ r e. ap (λ (s : Trace). s.sent) (heap_old (looped c.ring) r e) ∙ v.unsent _ r e)

    -- What the new trace displaces is what was kicked out.
    total-placed :
        t.spans ≡ []
        → total w (placed F T c t)
            + at_slot (λ r. weight w (heap r).spans) (set_trace heap c.ring c.next).1
          ≡ total w c
    unfolding set_trace
    total-placed empty = omega (
      arith,
      ap (at_slot (λ r. weight w (heap r).spans)) kicked-slot,
      held_sum-set (λ r. weight w (heap r).spans) c.ring.insertion_order (looped c.ring)
          (some c.next) (looped-lt c.heap c.ring c.next v.valid),
      held_sum-same (λ r. weight w (heap r).spans) (λ r. weight w (c.heap r).spans)
          c.ring.insertion_order (λ i r e. ap (λ (s : Trace). weight w s.spans) (heap_old i r e)),
      ap (λ (s : Trace). weight w s.spans) (write_self c.heap c.next t),
      ap (weight w) empty,
    )

  -- A new trace takes no span with it, and what it kicks out is handed on.
  pub total-admit :
      (now : ℕ) (c : Collector Sampler Sent) (sp : Span)
      → IsLive c
      → total w (admit F T cfg now c sp) ≡ total w c
  unfolding admit increment new_trace
  total-admit now c sp v =
      let t = new_trace cfg now sp in
      let c' = increment F T c "trace_accepted" in
      let v' = counted-IsLive F T cfg c "trace_accepted" v in
      omega (
        arith,
        total-send_ejected (placed F T c' t) (set_trace (write c.heap c.next t) c.ring c.next).1
            (λ r e. (set_trace-kicked (write c.heap c.next t) c.ring c.next r e).1),
        total-placed c' t v' refl,
      )

  total-join :
      (now : ℕ) (c : Collector Sampler Sent) (r i : ℕ) (sp : Span)
      → IsLive c
      → slot c.ring.insertion_order i ≡ some r
      → total w (join F T cfg now c r sp) ≡ total w c + w sp.header
  total-join now c r i sp v here =
      ap (total w) (join-live F T cfg now c r sp (v.unsent i r here))
      ∙ total-grow now c r i sp v here

  total-unknown :
      (now : ℕ) (c : Collector Sampler Sent) (sp : Span)
      → lookup sp.header.trace_id c.ring.cache ≡ none
      → IsLive c
      → total w (process_unknown F T cfg now c sp) ≡ total w c + w sp.header
  unfolding process_unknown
  total-unknown now c sp new v =
      let c' = record c { sample_trace_cache = (check c.sample_trace_cache sp).0 } in
      let v' = checked-IsLive F T cfg c (check c.sample_trace_cache sp).0 v in
      elim (Option-cases (check c.sample_trace_cache sp).1) [
        | inl e ↦
            rw (e, process_unknown)
              (omega (
                arith,
                total-join now (admit F T cfg now c' sp) c.next (looped c.ring) sp
                    (admit-IsLive F T cfg now c' sp v' new) (admit-slot F T cfg now c' sp v'),
                total-admit now c' sp v',
              ))
        | inr (sr, e) ↦
            rw (e, process_unknown) (total-deal (increment F T c' "trace_sent_cache_hit") sr sp)
      ]

  -- In a dry run, from a collector that satisfies `IsLive`, `processSpan` adds the weight of
  -- the span to the weight of the spans that the live traces hold and that were handed on,
  -- and changes that sum in no other way: whether the span joins a trace, starts one (and
  -- ejects another) or is late.
  pub total-process_span :
      (now : ℕ) (c : Collector Sampler Sent) (sp : Span)
      → IsLive c
      → total w (process_span F T cfg now c sp) ≡ total w c + w sp.header
  unfolding process_span get
  total-process_span now c sp v = elim (Option-cases (get c.ring sp.header.trace_id)) [
    | inl e ↦ rw (e, process_span) (total-unknown now c sp e v)
    | inr (r, e) ↦
        let (i, here, _) = v.valid.held sp.header.trace_id r e in
        rw (e, process_span) (total-join now c r i sp v here)
  ]
