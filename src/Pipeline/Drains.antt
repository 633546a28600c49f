-- ===== src/Pipeline/Drains.antt =====
-- The loop of `collect` in collect/collect.go empties its channels, and what was in them is handed on.
use tracing_proxy.Base.{
  ℕ, zero, suc, ◌+◌, ◌-◌, ◌≡◌, ◌≤◌, refl, ◌∙◌, ap, String, List, [], ◌∷◌, true, arith, length,
}
use tracing_proxy.Types.{Span, Header}
use tracing_proxy.Route.{Sharder, Outlets, new_queue}
use tracing_proxy.Cache.{Heap}
use tracing_proxy.Collect.State.{Config, SamplerFactory, TraceSentCache}
use tracing_proxy.Collect.Loop.{Sort, stop}
use tracing_proxy.Collect.Invariant.{IsLive}
use tracing_proxy.Collect.Weight.{weight}
use tracing_proxy.Collect.Expiry.{weight-stop}
use tracing_proxy.Collect.Overrun.{Sorts}
use tracing_proxy.Collect.History.{start, start-IsLive, total-start}
use tracing_proxy.Pipeline.{
  Act, System, own_span, react, take_own, select, take_peer, turn, acts, turns, with_items,
}
use tracing_proxy.Pipeline.Delivers.{
  queued, let_in, IsDry, whole, turn-IsLive, whole-turn, acts-IsLive, whole-acts,
}

-- the number of spans in the two channels
abbrev pub waiting : Outlets → ℕ
waiting o = length o.incoming.items + length o.from_peer.items

module _ (F : SamplerFactory) (T : TraceSentCache) (sort : Sort) (sharder : Sharder) where
  open F use {Sampler}
  open T use {Sent}

  -- the process after `Start`, with empty channels
  unfoldable pub start_system : ℕ → String → Heap → Sent → System F T
  unfolding start new_queue
  start_system capacity hostname heap sent = record {
    outlets = record {
      upstream = [];
      to_peers = [];
      incoming = new_queue capacity;
      from_peer = new_queue capacity;
      incremented = [];
    };
    collector = start F T sort capacity hostname heap sent;
  }

  waiting-turn :
      (cfg : Config) (now : ℕ) (s : System F T)
      → waiting (turn F T sort sharder cfg now own_span s).outlets ≡ waiting s.outlets - 1
  unfolding turn take_peer select take_own react with_items
  waiting-turn cfg now s =
      elim s.outlets.from_peer.items
          as (λ l.
            s.outlets.from_peer.items ≡ l
            → waiting (take_peer F T sort sharder cfg now own_span l s).outlets
              ≡ waiting s.outlets - 1) [
                | [] ↦ λ e.
                    elim s.outlets.incoming.items
                        as (λ l.
                          s.outlets.incoming.items ≡ l
                          → waiting (take_own F T sort sharder cfg now l s).outlets
                            ≡ waiting s.outlets - 1) [
                              | [] ↦ λ e'. omega (arith, ap length e, ap length e')
                              | sp ∷ sps ↦ λ e'. omega (arith, ap length e, ap length e')
                            ]
                      refl
                | sp ∷ sps ↦ λ e. omega (arith, ap length e)
              ]
        refl

  -- Whatever the collector does with the spans that it takes, `n` turns of its loop that find
  -- no tick and no reload leave `n` spans fewer in the two channels, or none.
  pub waiting-turns :
      (n : ℕ) (cfg : Config) (now : ℕ) (s : System F T)
      → waiting (turns F T sort sharder n cfg now s).outlets ≡ waiting s.outlets - n
  unfolding turns
  waiting-turns zero cfg now s = omega arith
  waiting-turns (suc n) cfg now s =
      let s' = turn F T sort sharder cfg now own_span s in
      omega (arith, waiting-turns n cfg now s', waiting-turn cfg now s)

  module _ (sorts : Sorts sort) (w : Header → ℕ) where
    turns_keep :
        (n : ℕ) (cfg : Config) (now : ℕ) (s : System F T)
        → IsLive s.collector
        → cfg.is_dry_run ≡ true
        → IsLive (turns F T sort sharder n cfg now s).collector
          × (whole w F T sort sharder (turns F T sort sharder n cfg now s)
              ≡ whole w F T sort sharder s)
    unfolding turns
    turns_keep zero cfg now s v dry = (v, refl)
    turns_keep (suc n) cfg now s v dry =
        let s' = turn F T sort sharder cfg now own_span s in
        let later =
          turns_keep n cfg now s' (turn-IsLive w F T sort sharder sorts cfg now own_span s v) dry in
        (later.0, later.1 ∙ whole-turn w F T sort sharder sorts cfg now own_span s v dry)

    weight-none : (l : List Span) → length l ≡ 0 → weight w l ≡ 0
    weight-none [] e = refl
    weight-none (sp ∷ sps) e = omega (arith, e)

    queued-none : (o : Outlets) → waiting o ≡ 0 → queued w o ≡ 0
    queued-none o e = omega (
      arith,
      weight-none o.incoming.items (omega (arith, e)),
      weight-none o.from_peer.items (omega (arith, e)),
    )

    -- For every sampler, record of sent traces, `sort.Slice` that permutes and choice of
    -- shards: after `Start` and any sequence of requests on both sides and turns of the
    -- loop of `collect`, under configurations that say dry run, when `n` turns that find no
    -- tick and no reload follow, where the two channels hold no more than `n` spans
    -- together, and then `Stop`, the spans handed to the transmission have the same sum of
    -- weights as the spans that `processEvent` put into the channels, for every weight of
    -- the headers. So every span that was accepted for collection is handed on, exactly
    -- once.
    pub weight-stop-turns :
        (l : List Act) (capacity : ℕ) (hostname : String) (heap : Heap) (sent : Sent) (n : ℕ)
        (cfg : Config) (now : ℕ)
        → IsDry w F T sort sharder l
        → cfg.is_dry_run ≡ true
        → waiting (acts F T sort sharder l (start_system capacity hostname heap sent)).outlets ≤ n
        → let s = acts F T sort sharder l (start_system capacity hostname heap sent) in
          weight w (stop F T sort cfg (turns F T sort sharder n cfg now s).collector).enqueued
          ≡ let_in w F T sort sharder l (start_system capacity hostname heap sent)
    unfolding start_system new_queue
    weight-stop-turns l capacity hostname heap sent n cfg now dry last enough =
        let s0 = start_system capacity hostname heap sent in
        let s = acts F T sort sharder l s0 in
        let v0 = start-IsLive F T sort capacity hostname heap sent in
        let v = acts-IsLive w F T sort sharder sorts l s0 v0 in
        let kept = turns_keep n cfg now s v last in
        let s' = turns F T sort sharder n cfg now s in
        omega (
          arith,
          weight-stop F T sort cfg w s'.collector last kept.0,
          queued-none s'.outlets (omega (arith, waiting-turns n cfg now s, enough)),
          kept.1,
          whole-acts w F T sort sharder sorts l s0 v0 dry,
          total-start F T sort sorts w capacity hostname heap sent,
        )
