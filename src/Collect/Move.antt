-- ===== src/Collect/Move.antt =====
-- Traces moved into a new ring while others are sent, as collect/collect.go does twice.
use tracing_proxy.Base.{
  ℕ, ◌+◌, ◌≡◌, ◌≢◌, ◌≤◌, ◌<◌, refl, ap, ◌∙◌, List, [], ◌∷◌, some, true, false, arith, length,
}
use tracing_proxy.Base.All.{All, All-map, Apart, Distinct, list_sum}
use tracing_proxy.Cache.{Ring, slot, set_each, new_in_mem_cache, ring_size}
use tracing_proxy.Cache.Fill.{OtherId, set_each-new}
use tracing_proxy.Types.{Trace, Header}
use tracing_proxy.Collect.State.{Config, SamplerFactory, TraceSentCache, Collector}
use tracing_proxy.Collect.Send.{Reason, send, send_unsent, forward}
use tracing_proxy.Collect.Weight.{weight}
use tracing_proxy.Collect.Loop.{Sort, send_each}
use tracing_proxy.Collect.Flush.{send_each-IsLive}
use tracing_proxy.Collect.Invariant.{IsLive}
use tracing_proxy.Collect.Conserve.{total}
use tracing_proxy.Collect.Expiry.{total-send_each}

-- What is known of two lists of traces of a live collector, to keep and to send.
pub record IsSplit {Sampler Sent : Type 0} (c : Collector Sampler Sent) (capacity : ℕ)
    (kept sent : List ℕ) : Type 0 where
  pub room : length kept ≤ ring_size capacity
  pub ids : Apart (OtherId c.heap) kept
  pub kept_unsent : All (λ r. (c.heap r).sent ≡ false) kept
  pub kept_allocated : All (λ r. r < c.next) kept
  pub sent_distinct : Distinct sent
  pub sent_unsent : All (λ r. (c.heap r).sent ≡ false) sent
  pub apart : All (λ r. All (λ q. q ≢ r) kept) sent

module _ (F : SamplerFactory) (T : TraceSentCache) (sort : Sort) (cfg : Config) where
  open F use {Sampler}
  open T use {Sent}

  abbrev pub with_ring : Collector Sampler Sent → Ring → Collector Sampler Sent
  with_ring c d = record c { ring = d }

  -- `send` does not look at the ring.
  send-with_ring :
      (c : Collector Sampler Sent) (d : Ring) (r : ℕ) (why : Reason)
      → with_ring (send F T cfg c r why) d ≡ send F T cfg (with_ring c d) r why
  unfolding send send_unsent forward
  send-with_ring c d r why = ground arith

  pub send_each-with_ring :
      (reason : Trace → Reason) (c : Collector Sampler Sent) (d : Ring) (rs : List ℕ)
      → with_ring (send_each F T sort cfg reason c rs) d
        ≡ send_each F T sort cfg reason (with_ring c d) rs
  unfolding send_each
  send_each-with_ring reason c d [] = refl
  send_each-with_ring reason c d (r ∷ rs) =
      send_each-with_ring reason (send F T cfg c r (reason (c.heap r))) d rs
      ∙ ap (λ x. send_each F T sort cfg reason x rs) (send-with_ring c d r (reason (c.heap r)))

  module _ (c : Collector Sampler Sent) (capacity : ℕ) (kept sent : List ℕ)
      (v : IsSplit c capacity kept sent) (reason : Trace → Reason) where
    abbrev pub moved : Ring
    moved = set_each c.heap (new_in_mem_cache capacity) kept

    moved-IsLive : IsLive (with_ring c moved)
    moved-IsLive =
        let (valid, _, all) = set_each-new c.heap capacity kept v.room v.ids in
        record {
          valid = valid;
          unsent = all (λ r. (c.heap r).sent ≡ false) v.kept_unsent;
          allocated = all (λ r. r < c.next) v.kept_allocated;
        }

    moved-out : (r : ℕ) → All (λ q. q ≢ r) kept → (i : ℕ) → slot moved.insertion_order i ≢ some r
    moved-out r ne i e =
        (set_each-new c.heap capacity kept v.room v.ids).2 (λ q. q ≢ r) ne i r e refl

    -- The state once the traces of `sent` are sent and those of `kept` fill the ring.
    abbrev pub split : Collector Sampler Sent
    split = with_ring (send_each F T sort cfg reason c sent) moved

    pub split-IsLive : IsLive split
    split-IsLive = rw (send_each-with_ring reason c moved sent) (
        send_each-IsLive F T sort cfg reason (with_ring c moved) sent moved-IsLive
          (All-map sent moved-out v.apart))

    pub total-split :
        (w : Header → ℕ)
        → cfg.is_dry_run ≡ true
        → total w split
          ≡ list_sum (λ r. weight w (c.heap r).spans) kept
            + list_sum (λ r. weight w (c.heap r).spans) sent
            + weight w c.enqueued
    total-split w dry =
        ap (total w) (send_each-with_ring reason c moved sent)
        ∙ omega (
          arith,
          total-send_each F T sort cfg w (with_ring c moved) reason sent dry v.sent_distinct
              v.sent_unsent,
          (set_each-new c.heap capacity kept v.room v.ids).1 (λ r. weight w (c.heap r).spans),
        )
