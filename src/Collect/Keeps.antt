-- ===== src/Collect/Keeps.antt =====
-- The invariant of the collector through `processSpan` (collect/collect.go).
use tracing_proxy.Base.{
  ℕ, ◌≡◌, ◌≢◌, refl, ap, ◌∙◌, Option, none, some, false, arith, String, inl, inr, Option-cases,
  get_or-set_self,
}
use tracing_proxy.Base.Dict.{lookup}
use tracing_proxy.Cache
use tracing_proxy.Cache.{Heap, Ring, slot, set_trace, get, looped}
use tracing_proxy.Cache.Insert.{looped-lt}
use tracing_proxy.Types.{Span, Trace}
use tracing_proxy.Collect.State.{
  Config, SamplerFactory, TraceSentCache, Collector, SentRecord, write,
}
use tracing_proxy.Collect.Send.{Reason}
use tracing_proxy.Collect.Sent.{send-heap_other, send-ring}
use tracing_proxy.Collect.Process.{
  placed, process_span, process_unknown, join, admit, grow, pass_if_sent, deal_with_sent_trace,
  send_ejected, new_trace, increment, enqueue,
}
use tracing_proxy.Collect.Invariant.{
  IsLive, IsLive-same, admit-IsLive, grow-IsLive, set_trace-kicked, counted-IsLive,
}

pub write_other : (h : Heap) (r q : ℕ) (t : Trace) → q ≢ r → write h r t q ≡ h q
unfolding write
write_other h r q t ne = ground arith

pub write_self : (h : Heap) (r : ℕ) (t : Trace) → write h r t r ≡ t
unfolding write
write_self h r t = ground arith

module _ (F : SamplerFactory) (T : TraceSentCache) (cfg : Config) where
  open F use {Sampler}
  open T use {Sent, check}

  -- A late span changes nothing but what is handed on.
  pub deal-IsLive :
      (c : Collector Sampler Sent) (sr : SentRecord) (sp : Span)
      → IsLive c
      → IsLive (deal_with_sent_trace F T cfg c sr sp).0
  unfolding deal_with_sent_trace enqueue
  deal-IsLive c sr sp v =
      IsLive-same c _ (ground arith) (ground arith) (λ i r e. (ground arith, ground arith)) v

  -- The branch for a sent trace is not taken at a trace that has not been sent.
  pub join-live :
      (now : ℕ) (c : Collector Sampler Sent) (r : ℕ) (sp : Span)
      → (c.heap r).sent ≡ false
      → join F T cfg now c r sp ≡ record c { heap = write c.heap r (grow cfg now sp (c.heap r)) }
  unfolding join pass_if_sent
  join-live now c r sp live = rw live

  pub send_ejected-heap :
      (c : Collector Sampler Sent) (o : Option ℕ) (q : ℕ)
      → ((r : ℕ) → o ≡ some r → r ≢ q)
      → (send_ejected F T cfg c o).heap q ≡ c.heap q
  unfolding send_ejected
  send_ejected-heap c none q ne = refl
  send_ejected-heap c (some r) q ne = send-heap_other F T cfg c r Reason.ejected_full q (ne r refl)

  -- The new trace is at the new pointer, not sent.
  pub admit-heap_new :
      (now : ℕ) (c : Collector Sampler Sent) (sp : Span)
      → IsLive c
      → (admit F T cfg now c sp).heap c.next ≡ new_trace cfg now sp
  unfolding admit increment
  admit-heap_new now c sp v =
      let t = new_trace cfg now sp in
      let h = write c.heap c.next t in
      send_ejected-heap (placed F T (increment F T c "trace_accepted") t)
        (set_trace h c.ring c.next).1 c.next
        (λ r e.
          ground (arith, set_trace-kicked h c.ring c.next r e, v.allocated (Cache.looped c.ring) r))
      ∙ write_self c.heap c.next t

  pub send_ejected-ring :
      (c : Collector Sampler Sent) (o : Option ℕ) → (send_ejected F T cfg c o).ring ≡ c.ring
  unfolding send_ejected
  send_ejected-ring c none = refl
  send_ejected-ring c (some r) = send-ring F T cfg c r Reason.ejected_full

  -- the slot of the trace that `admit` makes
  pub admit-slot :
      (now : ℕ) (c : Collector Sampler Sent) (sp : Span)
      → IsLive c
      → slot (admit F T cfg now c sp).ring.insertion_order (looped c.ring) ≡ some c.next
  unfolding admit increment set_trace
  admit-slot now c sp v =
      let t = new_trace cfg now sp in
      ap (λ (d : Ring). slot d.insertion_order (looped c.ring))
        (send_ejected-ring (placed F T (increment F T c "trace_accepted") t)
          (set_trace (write c.heap c.next t) c.ring c.next).1)
      ∙ get_or-set_self c.ring.insertion_order (looped c.ring) (some c.next) none
          (looped-lt c.heap c.ring c.next v.valid)

  join-IsLive :
      (now : ℕ) (c : Collector Sampler Sent) (r : ℕ) (sp : Span)
      → (c.heap r).sent ≡ false
      → IsLive c
      → IsLive (join F T cfg now c r sp)
  join-IsLive now c r sp live v = rw (join-live now c r sp live) (grow-IsLive F T cfg now c r sp v)

  pub checked-IsLive :
      (c : Collector Sampler Sent) (s : Sent)
      → IsLive c
      → IsLive (record c { sample_trace_cache = s })
  checked-IsLive c s v = IsLive-same c _ refl refl (λ i r e. (refl, refl)) v

  unknown-IsLive :
      (now : ℕ) (c : Collector Sampler Sent) (sp : Span)
      → lookup sp.header.trace_id c.ring.cache ≡ none
      → IsLive c
      → IsLive (process_unknown F T cfg now c sp)
  unfolding process_unknown
  unknown-IsLive now c sp new v =
      let c' = record c { sample_trace_cache = (check c.sample_trace_cache sp).0 } in
      elim (Option-cases (check c.sample_trace_cache sp).1) [
        | inl e ↦
            rw (e, process_unknown)
              (join-IsLive now (admit F T cfg now c' sp) c.next sp
                (ap (λ (t : Trace). t.sent)
                  (admit-heap_new now c' sp (checked-IsLive c (check c.sample_trace_cache sp).0 v)))
                (admit-IsLive F T cfg now c' sp
                  (checked-IsLive c (check c.sample_trace_cache sp).0 v) new))
        | inr (sr, e) ↦
            rw (e, process_unknown)
              (deal-IsLive (increment F T c' "trace_sent_cache_hit") sr sp (
                counted-IsLive F T cfg c' "trace_sent_cache_hit"
                  (checked-IsLive c (check c.sample_trace_cache sp).0 v)))
      ]

  -- A trace that `Get` finds has not been sent.
  pub held-unsent :
      (c : Collector Sampler Sent)
      → IsLive c
      → (k : String) (r : ℕ) → lookup k c.ring.cache ≡ some r
      → (c.heap r).sent ≡ false
  held-unsent c v k r e = let (i, here, _) = v.valid.held k r e in v.unsent i r here

  -- From a collector that satisfies `IsLive`, `processSpan` answers one, whatever the span
  -- and the configuration are.
  pub process_span-IsLive :
      (now : ℕ) (c : Collector Sampler Sent) (sp : Span)
      → IsLive c
      → IsLive (process_span F T cfg now c sp)
  unfolding process_span get
  process_span-IsLive now c sp v = elim (Option-cases (get c.ring sp.header.trace_id)) [
    | inl e ↦ rw (e, process_span) (unknown-IsLive now c sp e v)
    | inr (r, e) ↦ rw (e, process_span) (join-IsLive now c r sp (held-unsent c v _ r e) v)
  ]
