-- ===== src/Collect/Flush.antt =====
-- Laws of a loop of `send` (collect/collect.go).
use tracing_proxy.Base.{ℕ, ◌+◌, ◌≡◌, ◌≢◌, refl, ap, ◌∙◌, List, [], ◌∷◌, some, true, false, arith}
use tracing_proxy.Base.All.{All, Distinct, All-map, All-zip, list_sum, list_sum-same}
use tracing_proxy.Cache.{slot}
use tracing_proxy.Types.{Trace, Header}
use tracing_proxy.Collect.State.{Config, SamplerFactory, TraceSentCache, Collector}
use tracing_proxy.Collect.Send.{Reason, send}
use tracing_proxy.Collect.Sent.{send-ring, send-heap_other}
use tracing_proxy.Collect.Weight.{weight, weight-send_heap, weight-send_dry_run}
use tracing_proxy.Collect.Loop.{Sort, send_each}
use tracing_proxy.Collect.Invariant.{IsLive, send-IsLive}

module _ (F : SamplerFactory) (T : TraceSentCache) (sort : Sort) (cfg : Config)
    (reason : Trace → Reason) where
  open F use {Sampler}
  open T use {Sent}

  abbrev pub IsUnsent : Collector Sampler Sent → ℕ → Type 0
  IsUnsent c r = (c.heap r).sent ≡ false

  -- The traces that are still to be sent are as they were.
  rest-IsUnsent :
      (c : Collector Sampler Sent) (r : ℕ) (rs : List ℕ) (why : Reason)
      → All (λ q. r ≢ q) rs
      → All (IsUnsent c) rs
      → All (IsUnsent (send F T cfg c r why)) rs
  rest-IsUnsent c r rs why =
      All-zip rs (λ q ne u. ap (λ (t : Trace). t.sent) (send-heap_other F T cfg c r why q ne) ∙ u)

  -- In a dry run a loop over distinct traces hands every span of each on.
  pub weight-send_each :
      (w : Header → ℕ) (c : Collector Sampler Sent) (rs : List ℕ)
      → cfg.is_dry_run ≡ true
      → Distinct rs
      → All (IsUnsent c) rs
      → weight w (send_each F T sort cfg reason c rs).enqueued
        ≡ weight w c.enqueued + list_sum (λ r. weight w (c.heap r).spans) rs
  unfolding send_each
  weight-send_each w c [] dry d u = omega arith
  weight-send_each w c (r ∷ rs) dry d u =
      let why = reason (c.heap r) in
      omega (
        arith,
        weight-send_each w (send F T cfg c r why) rs dry d.1 (rest-IsUnsent c r rs why d.0 u.1),
        weight-send_dry_run w F T cfg c r why dry u.0,
        list_sum-same (λ q. weight w ((send F T cfg c r why).heap q).spans)
            (λ q. weight w (c.heap q).spans) rs
            (All-map rs (λ q ne. weight-send_heap w F T cfg c r why q) d.0),
      )

  pub weight-send_each_heap :
      (w : Header → ℕ) (c : Collector Sampler Sent) (rs : List ℕ) (q : ℕ)
      → weight w ((send_each F T sort cfg reason c rs).heap q).spans ≡ weight w (c.heap q).spans
  unfolding send_each
  weight-send_each_heap w c [] q = refl
  weight-send_each_heap w c (r ∷ rs) q =
      weight-send_each_heap w (send F T cfg c r (reason (c.heap r))) rs q
      ∙ weight-send_heap w F T cfg c r (reason (c.heap r)) q

  pub send_each-ring :
      (c : Collector Sampler Sent) (rs : List ℕ)
      → (send_each F T sort cfg reason c rs).ring ≡ c.ring
  unfolding send_each
  send_each-ring c [] = refl
  send_each-ring c (r ∷ rs) =
      send_each-ring (send F T cfg c r (reason (c.heap r))) rs
      ∙ send-ring F T cfg c r (reason (c.heap r))

  -- What is not in the ring may be sent.
  pub send_each-IsLive :
      (c : Collector Sampler Sent) (rs : List ℕ)
      → IsLive c
      → All (λ r. (i : ℕ) → slot c.ring.insertion_order i ≢ some r) rs
      → IsLive (send_each F T sort cfg reason c rs)
  unfolding send_each
  send_each-IsLive c [] v out = v
  send_each-IsLive c (r ∷ rs) v out =
      send_each-IsLive (send F T cfg c r (reason (c.heap r))) rs
        (send-IsLive F T cfg c r (reason (c.heap r)) v out.0)
        (rw (send-ring F T cfg c r (reason (c.heap r))) out.1)
