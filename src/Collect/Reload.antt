-- ===== src/Collect/Reload.antt =====
-- Laws of `reloadConfigs` in collect/collect.go.
use tracing_proxy.Base.{
  ℕ, zero, suc, ◌+◌, ◌-◌, ◌≡◌, ◌≢◌, ◌<◌, refl, sym, List, [], ◌∷◌, true, false, arith, take, drop,
  length, leb, length-take-le, Bool-cases, subst, ◌==◌, inl, inr,
}
use tracing_proxy.Base.All.{take-All, drop-All, take-Apart, drop-Apart, list_sum-cut, cut-Apart}
use tracing_proxy.Cache.{Ring, present, set_trace, set_each, new_in_mem_cache, ring_size, get_all}
use tracing_proxy.Cache.Present.{present-All, present-Distinct, present-OtherId, held_sum-present}
use tracing_proxy.Cache.Fill.{OtherId}
use tracing_proxy.Types.{Header}
use tracing_proxy.Collect.State.{Config, SamplerFactory, TraceSentCache, Collector}
use tracing_proxy.Collect.Send.{send, ejected_full}
use tracing_proxy.Collect.Weight.{weight}
use tracing_proxy.Collect.Loop.{Sort, send_each, refill, resized, reload_configs}
use tracing_proxy.Collect.Invariant.{IsLive, IsLive-same}
use tracing_proxy.Collect.Conserve.{total}
use tracing_proxy.Collect.Move.{IsSplit, split, split-IsLive, total-split}

module _ (F : SamplerFactory) (T : TraceSentCache) (sort : Sort) (cfg : Config) where
  open F use {Sampler}
  open T use {Sent}

  -- The loop fills the new ring up to its capacity, and sends the rest.
  refill_lem :
      (j n : ℕ) (c : Collector Sampler Sent) (d : Ring) (rs : List ℕ)
      → cfg.cache_capacity - j ≡ n
      → refill F T sort cfg j c d rs
        ≡ (send_each F T sort cfg (λ _. ejected_full) c (drop n rs), set_each c.heap d (take n rs))
  unfolding refill send_each set_each
  refill_lem j zero c d [] e = refl
  refill_lem j (suc n) c d [] e = refl
  refill_lem j zero c d (r ∷ rs) e =
      let full : leb cfg.cache_capacity j ≡ true = ground arith in
      rw (full, refill) (refill_lem (j + 1) zero (send F T cfg c r ejected_full) d rs (omega arith))
  refill_lem j (suc n) c d (r ∷ rs) e =
      let room : leb cfg.cache_capacity j ≡ false = ground arith in
      rw (room, refill) (refill_lem (j + 1) n c (set_trace c.heap d r).0 rs (omega arith))

  module _ (c : Collector Sampler Sent) (v : IsLive c) where
    abbrev traces : List ℕ
    traces = present c.ring.insertion_order

    cut-IsSplit :
        IsSplit c cfg.cache_capacity
          (take cfg.cache_capacity traces)
          (drop cfg.cache_capacity traces)
    unfolding ring_size
    cut-IsSplit = record {
      room = ground (arith, length-take-le cfg.cache_capacity traces);
      ids =
          take-Apart (OtherId c.heap) cfg.cache_capacity traces
            (present-OtherId c.heap c.ring v.valid);
      kept_unsent =
          take-All (λ r. (c.heap r).sent ≡ false) cfg.cache_capacity traces
            (present-All c.ring.insertion_order v.unsent);
      kept_allocated =
          take-All (λ r. r < c.next) cfg.cache_capacity traces
            (present-All c.ring.insertion_order v.allocated);
      sent_distinct =
          drop-Apart (λ q r. q ≢ r) cfg.cache_capacity traces
            (present-Distinct c.heap c.ring v.valid);
      sent_unsent =
          drop-All (λ r. (c.heap r).sent ≡ false) cfg.cache_capacity traces
            (present-All c.ring.insertion_order v.unsent);
      apart =
          cut-Apart (λ q r. q ≢ r) cfg.cache_capacity traces
            (present-Distinct c.heap c.ring v.valid);
    }

    abbrev refilled : Collector Sampler Sent
    refilled =
        split F T sort cfg c cfg.cache_capacity (take cfg.cache_capacity traces)
          (drop cfg.cache_capacity traces) cut-IsSplit (λ _. ejected_full)

    refilled-IsLive : IsLive refilled
    refilled-IsLive =
        split-IsLive F T sort cfg c cfg.cache_capacity (take cfg.cache_capacity traces)
          (drop cfg.cache_capacity traces) cut-IsSplit (λ _. ejected_full)

    total-refilled : (w : Header → ℕ) → cfg.is_dry_run ≡ true → total w refilled ≡ total w c
    total-refilled w dry = omega (
      arith,
      total-split F T sort cfg c cfg.cache_capacity (take cfg.cache_capacity traces)
          (drop cfg.cache_capacity traces) cut-IsSplit (λ _. ejected_full) w dry,
      list_sum-cut (λ r. weight w (c.heap r).spans) cfg.cache_capacity traces,
      held_sum-present (λ r. weight w (c.heap r).spans) c.ring.insertion_order,
    )

    resized-cases :
        (P : Collector Sampler Sent → Type 0) → P c → P refilled → P (resized F T sort cfg c)
    unfolding resized get_all
    resized-cases P same other =
        elim (Bool-cases (cfg.cache_capacity == length c.ring.insertion_order)) [
          | inl e ↦ rw (e, resized) same
          | inr e ↦
              rw (e, resized)
                (subst (λ (m : Collector Sampler Sent × Ring). P (record (m.0) { ring = m.1 }))
                  (sym (
                    refill_lem 0 cfg.cache_capacity c (new_in_mem_cache cfg.cache_capacity) traces
                      (omega arith)))
                  other)
        ]

    -- `reloadConfigs` keeps `IsLive`, whatever the new capacity is.
    pub reload_configs-IsLive : IsLive (reload_configs F T sort cfg c)
    unfolding reload_configs
    reload_configs-IsLive =
        IsLive-same (resized F T sort cfg c) _ refl refl (λ i r e. (refl, refl))
          (resized-cases IsLive v refilled-IsLive)

    -- From a collector that satisfies `IsLive` and in a dry run, `reloadConfigs` keeps the
    -- weight of the live and the handed-on spans: the traces that the new capacity has no
    -- room for are handed on.
    pub total-reload_configs :
        (w : Header → ℕ)
        → cfg.is_dry_run ≡ true
        → total w (reload_configs F T sort cfg c) ≡ total w c
    unfolding reload_configs
    total-reload_configs w dry =
        resized-cases (λ c'. total w c' ≡ total w c) refl (total-refilled w dry)
