-- ===== src/Collect/Expiry.antt =====
-- Expiry and shutdown: `sendTracesInCache` and `Stop` of collect/collect.go.
use tracing_proxy.Base.{ℕ, ◌+◌, ◌≡◌, ◌≢◌, ◌≤◌, List, some, Bool, true, false, arith, filter}
use tracing_proxy.Cache.{slot, present, is_expired, take_expired_traces, get_all}
use tracing_proxy.Cache.Sweep.{sweep-slot, sweep-taken}
use tracing_proxy.Cache.Valid.{take_expired-IsValid}
use tracing_proxy.Types.{Trace, Header}
use tracing_proxy.Collect.State.{Config, SamplerFactory, TraceSentCache, Collector}
use tracing_proxy.Collect.Send.{Reason, ejected_full}
use tracing_proxy.Collect.Weight.{weight}
use tracing_proxy.Cache.Held.{held_sum-same}
use tracing_proxy.Collect.Loop.{Sort, send_each, send_traces_in_cache, expiry_reason, stop}
use tracing_proxy.Base.All.{All, Distinct, list_sum, filter-All, filter-Distinct}
use tracing_proxy.Collect.Flush.{
  weight-send_each, weight-send_each_heap, send_each-ring, send_each-IsLive,
}
use tracing_proxy.Cache.Present.{present-All, present-Distinct, held_sum-present, held_sum-sweep}
use tracing_proxy.Collect.Invariant.{IsLive}
use tracing_proxy.Collect.Conserve.{total}

module _ (F : SamplerFactory) (T : TraceSentCache) (sort : Sort) (cfg : Config) where
  open F use {Sampler}
  open T use {Sent}

  pub total-send_each :
      (w : Header → ℕ) (c : Collector Sampler Sent) (reason : Trace → Reason) (rs : List ℕ)
      → cfg.is_dry_run ≡ true
      → Distinct rs
      → All (λ r. (c.heap r).sent ≡ false) rs
      → total w (send_each F T sort cfg reason c rs)
        ≡ total w c + list_sum (λ r. weight w (c.heap r).spans) rs
  total-send_each w c reason rs dry d u = rw (send_each-ring F T sort cfg reason c rs) (
      omega (
        arith,
        weight-send_each F T sort cfg reason w c rs dry d u,
        held_sum-same (λ q. weight w ((send_each F T sort cfg reason c rs).heap q).spans)
            (λ q. weight w (c.heap q).spans) c.ring.insertion_order
            (λ i q e. weight-send_each_heap F T sort cfg reason w c rs q),
      ))

  module _ (now : ℕ) (c : Collector Sampler Sent) (v : IsLive c) where
    abbrev test : ℕ → Bool
    test = is_expired c.heap now

    abbrev pub swept : Collector Sampler Sent
    swept = record c { ring = (take_expired_traces c.heap now c.ring).0 }

    kept :
        (i r : ℕ)
        → slot swept.ring.insertion_order i ≡ some r
        → (slot c.ring.insertion_order i ≡ some r) × (test r ≡ false)
    unfolding take_expired_traces
    kept i r e = ground (arith, sweep-slot c.heap test c.ring.insertion_order c.ring.cache i)

    swept-IsLive : IsLive swept
    swept-IsLive = record {
      valid = take_expired-IsValid c.heap now c.ring v.valid;
      unsent = λ i r e. v.unsent i r (kept i r e).0;
      allocated = λ i r e. v.allocated i r (kept i r e).0;
    }

    abbrev taken : List ℕ
    taken = (take_expired_traces c.heap now c.ring).1

    taken-filter : taken ≡ filter test (present c.ring.insertion_order)
    unfolding take_expired_traces
    taken-filter = sweep-taken c.heap test c.ring.insertion_order c.ring.cache

    taken-Distinct : Distinct taken
    taken-Distinct = rw taken-filter (
        filter-Distinct test (present c.ring.insertion_order)
          (present-Distinct c.heap c.ring v.valid))

    taken-unsent : All (λ r. (c.heap r).sent ≡ false) taken
    taken-unsent = rw taken-filter (
        filter-All (λ r. (c.heap r).sent ≡ false) (λ r. (c.heap r).sent ≡ false) test
          (present c.ring.insertion_order) (λ r u _. u)
          (present-All c.ring.insertion_order v.unsent))

    taken-out : All (λ r. (i : ℕ) → slot swept.ring.insertion_order i ≢ some r) taken
    taken-out = rw taken-filter (
        filter-All (λ r. Unit {0}) (λ r. (i : ℕ) → slot swept.ring.insertion_order i ≢ some r) test
          (present c.ring.insertion_order) (λ r _ t i e. cc (t, (kept i r e).1))
          (present-All c.ring.insertion_order (λ i r e. tt)))

    -- From a collector that satisfies `IsLive`, `sendTracesInCache` answers one, and every
    -- trace that then stands in the ring has a deadline that has not passed.
    pub send_traces-IsLive :
        IsLive (send_traces_in_cache F T sort cfg now c)
        × ((i r : ℕ)
            → slot (send_traces_in_cache F T sort cfg now c).ring.insertion_order i ≡ some r
            → now ≤ (c.heap r).send_by)
    unfolding send_traces_in_cache
    send_traces-IsLive = (
      send_each-IsLive F T sort cfg expiry_reason swept taken swept-IsLive taken-out,
      λ i r e.
          let e' : slot swept.ring.insertion_order i ≡ some r =
            rw (send_each-ring F T sort cfg expiry_reason swept taken) at e in
          ground (arith, kept i r e'),
    )

    total-swept :
        (w : Header → ℕ)
        → total w swept + list_sum (λ r. weight w (c.heap r).spans) taken ≡ total w c
    unfolding take_expired_traces
    total-swept w = omega (
      arith,
      held_sum-sweep c.heap test (λ r. weight w (c.heap r).spans) c.ring.insertion_order
          c.ring.cache,
    )

    -- From a collector that satisfies `IsLive` and in a dry run, `sendTracesInCache` keeps
    -- the weight of the live and the handed-on spans.
    pub total-send_traces :
        (w : Header → ℕ)
        → cfg.is_dry_run ≡ true
        → total w (send_traces_in_cache F T sort cfg now c) ≡ total w c
    unfolding send_traces_in_cache
    total-send_traces w dry = omega (
      arith,
      total-send_each w swept expiry_reason taken dry taken-Distinct taken-unsent,
      total-swept w,
    )

  -- From a collector that satisfies `IsLive` and in a dry run, after `Stop` the spans handed
  -- on weigh what the live and the handed-on spans weighed before.
  pub weight-stop :
      (w : Header → ℕ) (c : Collector Sampler Sent)
      → cfg.is_dry_run ≡ true
      → IsLive c
      → weight w (stop F T sort cfg c).enqueued ≡ total w c
  unfolding stop get_all
  weight-stop w c dry v = omega (
    arith,
    weight-send_each F T sort cfg (λ _. ejected_full) w c (present c.ring.insertion_order) dry
        (present-Distinct c.heap c.ring v.valid) (present-All c.ring.insertion_order v.unsent),
    held_sum-present (λ r. weight w (c.heap r).spans) c.ring.insertion_order,
  )
