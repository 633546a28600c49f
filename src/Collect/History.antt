-- ===== src/Collect/History.antt =====
-- `Start`, `collect` and `Stop` of collect/collect.go: the collector over its whole life, a sequence
-- of events that the one goroutine of `collect` takes in any order that the channels bring.
use tracing_proxy.Base.{
  ℕ, ◌+◌, ◌≡◌, ◌∙◌, String, List, [], ◌∷◌, Option, none, true, arith, if-cases, get_or-replicate,
}
use tracing_proxy.Base.All.{All}
use tracing_proxy.Cache.{Heap, new_in_mem_cache, ring_size}
use tracing_proxy.Cache.Valid.{new_in_mem_cache-IsValid}
use tracing_proxy.Cache.Held.{held_sum-replicate}
use tracing_proxy.Types.{Span, Header}
use tracing_proxy.Collect.State.{Config, SamplerFactory, TraceSentCache, Collector}
use tracing_proxy.Collect.Process.{process_span}
use tracing_proxy.Collect.Loop.{
  Sort, tick, reload_configs, stop, send_traces_in_cache, new_check_alloc, old_check_alloc,
}
use tracing_proxy.Collect.Invariant.{IsLive}
use tracing_proxy.Collect.Weight.{weight}
use tracing_proxy.Collect.Keeps.{process_span-IsLive}
use tracing_proxy.Collect.Conserve.{total, total-process_span}
use tracing_proxy.Collect.Expiry.{send_traces-IsLive, total-send_traces, weight-stop}
use tracing_proxy.Collect.Reload.{reload_configs-IsLive, total-reload_configs}
use tracing_proxy.Collect.Overrun.{Sorts, old_check_alloc-IsLive, total-old_check_alloc}
use tracing_proxy.Collect.Heaviest.{new_check_alloc-IsLive, total-new_check_alloc}

-- what a turn of the loop of `collect` receives, with what it reads of the clock and of
-- `runtime.MemStats`
pub data Event : Type 0 where
  span : (now : ℕ) (sp : Span) → Event
  ticked : (now alloc : ℕ) → Event
  reload : Event

-- the configuration that a turn reads, and what it receives
abbrev pub History : Type 0
History = List (Config × Event)

module _ (F : SamplerFactory) (T : TraceSentCache) (sort : Sort) where
  open F use {Sampler}
  open T use {Sent}

  -- the collector after `Start`
  unfoldable pub start : ℕ → String → Heap → Sent → Collector Sampler Sent
  start capacity hostname heap sent = record {
    heap = heap;
    next = 0;
    ring = new_in_mem_cache capacity;
    dataset_samplers = [];
    sample_trace_cache = sent;
    hostname = hostname;
    enqueued = [];
    incremented = [];
  }

  -- a turn of the loop of `collect`
  unfoldable pub step : Config → Event → Collector Sampler Sent → Collector Sampler Sent
  unfolding tick
  step cfg (span now sp) c = process_span F T cfg now c sp
  step cfg (ticked now alloc) c = tick F T sort cfg now alloc c
  step cfg reload c = reload_configs F T sort cfg c

  unfoldable pub run : History → Collector Sampler Sent → Collector Sampler Sent
  unfolding step
  run [] c = c
  run ((cfg, e) ∷ es) c = run es (step cfg e c)

  pub start-IsLive :
      (capacity : ℕ) (hostname : String) (heap : Heap) (sent : Sent)
      → IsLive (start capacity hostname heap sent)
  unfolding start new_in_mem_cache
  start-IsLive capacity hostname heap sent = record {
    valid = new_in_mem_cache-IsValid heap capacity;
    unsent = λ i r e. absurd (cc (get_or-replicate {A = Option ℕ} (ring_size capacity) i none));
    allocated = λ i r e. absurd (cc (get_or-replicate {A = Option ℕ} (ring_size capacity) i none));
  }

  module _ (sorts : Sorts sort) where
    tick-cases :
        (P : Collector Sampler Sent → Type 0) (cfg : Config) (now alloc : ℕ)
        (c : Collector Sampler Sent)
        → P (new_check_alloc F T sort cfg now alloc (send_traces_in_cache F T sort cfg now c))
        → P (old_check_alloc F T sort cfg alloc (send_traces_in_cache F T sort cfg now c))
        → P (tick F T sort cfg now alloc c)
    unfolding tick
    tick-cases P cfg now alloc c = if-cases P _ _ _

    tick-IsLive :
        (cfg : Config) (now alloc : ℕ) (c : Collector Sampler Sent)
        → IsLive c
        → IsLive (tick F T sort cfg now alloc c)
    tick-IsLive cfg now alloc c v =
        let c' = send_traces_in_cache F T sort cfg now c in
        let v' = (send_traces-IsLive F T sort cfg now c v).0 in
        tick-cases IsLive cfg now alloc c
          (new_check_alloc-IsLive F T sort sorts cfg now alloc c' v')
          (old_check_alloc-IsLive F T sort sorts cfg c' v' alloc)

    pub step-IsLive :
        (cfg : Config) (e : Event) (c : Collector Sampler Sent) → IsLive c → IsLive (step cfg e c)
    unfolding step
    step-IsLive cfg (span now sp) c v = process_span-IsLive F T cfg now c sp v
    step-IsLive cfg (ticked now alloc) c v = tick-IsLive cfg now alloc c v
    step-IsLive cfg reload c v = reload_configs-IsLive F T sort cfg c v

    run-IsLive : (es : History) (c : Collector Sampler Sent) → IsLive c → IsLive (run es c)
    unfolding run
    run-IsLive [] c v = v
    run-IsLive ((cfg, e) ∷ es) c v = run-IsLive es (step cfg e c) (step-IsLive cfg e c v)

    -- For every sampler, record of sent traces and `sort.Slice` that permutes: after
    -- `Start` and any sequence of spans, ticks and reloads, under any configurations, the
    -- map and the ring hold the same traces, each under its own ID and in one place, and
    -- none of them has been sent.
    pub run-start-IsLive :
        (es : History) (capacity : ℕ) (hostname : String) (heap : Heap) (sent : Sent)
        → IsLive (run es (start capacity hostname heap sent))
    run-start-IsLive es capacity hostname heap sent =
        run-IsLive es _ (start-IsLive capacity hostname heap sent)

    module _ (w : Header → ℕ) where
      -- the weights of the spans that a history brings
      abbrev pub received : History → ℕ
      received [] = 0
      received ((_, span now sp) ∷ es) = w sp.header + received es
      received ((_, ticked now alloc) ∷ es) = received es
      received ((_, reload) ∷ es) = received es

      total-tick :
          (cfg : Config) (now alloc : ℕ) (c : Collector Sampler Sent)
          → IsLive c
          → cfg.is_dry_run ≡ true
          → total w (tick F T sort cfg now alloc c) ≡ total w c
      total-tick cfg now alloc c v dry =
          let c' = send_traces_in_cache F T sort cfg now c in
          let v' = (send_traces-IsLive F T sort cfg now c v).0 in
          let swept = total-send_traces F T sort cfg now c v w dry in
          tick-cases (λ d. total w d ≡ total w c) cfg now alloc c
            (total-new_check_alloc F T sort sorts cfg now alloc c' v' w dry ∙ swept)
            (total-old_check_alloc F T sort sorts cfg c' v' w alloc dry ∙ swept)

      pub total-run :
          (es : History) (c : Collector Sampler Sent)
          → IsLive c
          → All (λ e. (e.0).is_dry_run ≡ true) es
          → total w (run es c) ≡ total w c + received es
      unfolding run step
      total-run [] c v dry = omega arith
      total-run ((cfg, span now sp) ∷ es) c v dry = omega (
        arith,
        total-run es (process_span F T cfg now c sp) (process_span-IsLive F T cfg now c sp v) dry.1,
        total-process_span w F T cfg dry.0 now c sp v,
      )
      total-run ((cfg, ticked now alloc) ∷ es) c v dry = omega (
        arith,
        total-run es (tick F T sort cfg now alloc c) (tick-IsLive cfg now alloc c v) dry.1,
        total-tick cfg now alloc c v dry.0,
      )
      total-run ((cfg, reload) ∷ es) c v dry = omega (
        arith,
        total-run es (reload_configs F T sort cfg c) (reload_configs-IsLive F T sort cfg c v) dry.1,
        total-reload_configs F T sort cfg c v w dry.0,
      )

      pub total-start :
          (capacity : ℕ) (hostname : String) (heap : Heap) (sent : Sent)
          → total w (start capacity hostname heap sent) ≡ 0
      unfolding start new_in_mem_cache
      total-start capacity hostname heap sent =
          omega (arith, held_sum-replicate (λ r. weight w (heap r).spans) (ring_size capacity))

      -- For every sampler, record of sent traces and `sort.Slice` that permutes: whatever
      -- sequence of spans, ticks and reloads comes between `Start` and `Stop`, if the
      -- configuration says dry run at every turn and at `Stop`, the spans handed to the
      -- transmission have the same sum of weights as the spans received, for every weight
      -- of the headers. So no span is lost and none is handed on twice.
      pub weight-run-stop :
          (es : History) (cfg : Config) (capacity : ℕ) (hostname : String) (heap : Heap)
          (sent : Sent)
          → All (λ e. (e.0).is_dry_run ≡ true) es
          → cfg.is_dry_run ≡ true
          → weight w (stop F T sort cfg (run es (start capacity hostname heap sent))).enqueued
            ≡ received es
      weight-run-stop es cfg capacity hostname heap sent dry last =
          let c = start capacity hostname heap sent in
          omega (
            arith,
            weight-stop F T sort cfg w (run es c) last
                (run-start-IsLive es capacity hostname heap sent),
            total-run es c (start-IsLive capacity hostname heap sent) dry,
            total-start capacity hostname heap sent,
          )
