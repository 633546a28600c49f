-- ===== src/Collect/Sent.antt =====
-- What `send` of collect/collect.go does to each part of the collector's state.
use tracing_proxy.Base.{ℕ, ◌≡◌, ◌≢◌, true, arith}
use tracing_proxy.Collect.State.{Config, SamplerFactory, TraceSentCache, Collector, write}
use tracing_proxy.Collect.Send.{Reason, send, send_unsent, forward, decided, count_root}

module _ (F : SamplerFactory) (T : TraceSentCache) (cfg : Config)
    (c : Collector (SamplerFactory.Sampler F) (TraceSentCache.Sent T)) (r : ℕ)
    (reason : Reason) where
  pub send-ring : (send F T cfg c r reason).ring ≡ c.ring
  unfolding send send_unsent forward
  send-ring = ground arith

  pub send-next : (send F T cfg c r reason).next ≡ c.next
  unfolding send send_unsent forward
  send-next = ground arith

  pub send-heap_other : (q : ℕ) → r ≢ q → (send F T cfg c r reason).heap q ≡ c.heap q
  unfolding send send_unsent forward write
  send-heap_other q p = ground arith

  pub send-sent : ((send F T cfg c r reason).heap r).sent ≡ true
  unfolding send send_unsent forward write count_root decided
  send-sent = ground arith

  pub send-trace_id : (q : ℕ) → ((send F T cfg c r reason).heap q).trace_id ≡ (c.heap q).trace_id
  unfolding send send_unsent forward write count_root decided
  send-trace_id q = ground arith
