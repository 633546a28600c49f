-- ===== src/Pipeline/Delivers.antt =====
-- The spans that the routers accept reach the collector: `processEvent` of route/route.go and the
-- loop of `collect` in collect/collect.go, together.
use tracing_proxy.Base.{
  ℕ, ◌+◌, ◌≡◌, refl, ap, List, [], ◌∷◌, some, none, true, arith, if◌then◌else◌, Bool-cases, inl,
  inr, same_text,
}
use tracing_proxy.Types.{Span, Header}
use tracing_proxy.Types.Impact.{sum_of-append}
use tracing_proxy.Route.{
  Event as Request, Sharder, Side, Outlets, process_event, send_upstream, send_to_peer,
  collect_span, add_on, add, count, to_span, trace_id_of, is_for_peer,
}
use tracing_proxy.Collect.State.{Config, SamplerFactory, TraceSentCache, Collector}
use tracing_proxy.Collect.Loop.{Sort}
use tracing_proxy.Collect.Invariant.{IsLive}
use tracing_proxy.Collect.Weight.{weight}
use tracing_proxy.Collect.Conserve.{total}
use tracing_proxy.Collect.Overrun.{Sorts}
use tracing_proxy.Collect.History.{Event, step, step-IsLive, total-run, run}
use tracing_proxy.Pipeline.{
  Ready, Act, request, turned, System, own_span, react, take_own, select, take_peer, turn, act,
  acts, with_items,
}

module _ (w : Header → ℕ) where
  abbrev pub queued : Outlets → ℕ
  queued o = weight w o.incoming.items + weight w o.from_peer.items

  -- the weight of the span that `processEvent` puts into a channel, if it does
  abbrev pub taken_in : Sharder → Side → Request → Outlets → ℕ
  taken_in sharder side ev o =
      let id = trace_id_of ev.values in
      if same_text id ""
      then 0
      else if is_for_peer sharder side id
      then 0
      else elim (add_on side (to_span ev id) o) [ some _ ↦ w (to_span ev id).header | none ↦ 0 ]

  queued-collect_span :
      (side : Side) (sp : Span) (o : Outlets)
      → queued (collect_span side sp o).1
        ≡ queued o + elim (add_on side sp o) [ some _ ↦ w sp.header | none ↦ 0 ]
  unfolding collect_span add_on add count
  queued-collect_span Side.incoming sp o =
      ground (arith, sum_of-append (λ (s : Span). w s.header) o.incoming.items (sp ∷ []))
  queued-collect_span Side.peer sp o =
      ground (arith, sum_of-append (λ (s : Span). w s.header) o.from_peer.items (sp ∷ []))

  pub queued-process_event :
      (sharder : Sharder) (side : Side) (ev : Request) (o : Outlets)
      → queued (process_event sharder side ev o).1 ≡ queued o + taken_in sharder side ev o
  unfolding process_event send_upstream send_to_peer count
  queued-process_event sharder side ev o =
      let id = trace_id_of ev.values in
      elim (Bool-cases (same_text id "")) [
        | inl e ↦ rw e (omega arith)
        | inr e ↦ rw e (elim (Bool-cases (is_for_peer sharder side id)) [
          | inl e' ↦ rw e' (omega arith)
          | inr e' ↦ rw e' (queued-collect_span side (to_span ev id) o)
        ])
      ]

  -- the weight of what a turn of the loop receives
  abbrev pub brought : Event → ℕ
  brought (Event.span now sp) = w sp.header
  brought (Event.ticked now alloc) = 0
  brought Event.reload = 0

  module _ (F : SamplerFactory) (T : TraceSentCache) (sort : Sort) (sharder : Sharder) where
    open F use {Sampler}
    open T use {Sent}

    select-cases :
        (P : System F T → Type 0) (cfg : Config) (now : ℕ) (ready : Ready) (s : System F T)
        → P s
        → ((e : Event) (o : Outlets)
            → queued o + brought e ≡ queued s.outlets
            → P (record { outlets = o; collector = step F T sort cfg e s.collector }))
        → P (select F T sort sharder cfg now ready s)
    unfolding select react take_own with_items
    select-cases P cfg now own_span s waits steps =
        elim s.outlets.incoming.items
            as (λ l. s.outlets.incoming.items ≡ l → P (take_own F T sort sharder cfg now l s)) [
              | [] ↦ λ e. waits
              | sp ∷ sps ↦ λ e. steps (Event.span now sp) _ (omega (arith, ap (weight w) e))
            ]
          refl
    select-cases P cfg now (Ready.ticked alloc) s waits steps =
        steps (Event.ticked now alloc) s.outlets (omega arith)
    select-cases P cfg now Ready.reload s waits steps = steps Event.reload s.outlets (omega arith)

    turn-cases :
        (P : System F T → Type 0) (cfg : Config) (now : ℕ) (ready : Ready) (s : System F T)
        → P s
        → ((e : Event) (o : Outlets)
            → queued o + brought e ≡ queued s.outlets
            → P (record { outlets = o; collector = step F T sort cfg e s.collector }))
        → P (turn F T sort sharder cfg now ready s)
    unfolding turn take_peer react with_items
    turn-cases P cfg now ready s waits steps =
        elim s.outlets.from_peer.items
            as (λ l.
              s.outlets.from_peer.items ≡ l → P (take_peer F T sort sharder cfg now ready l s)) [
                | [] ↦ λ e. select-cases P cfg now ready s waits steps
                | sp ∷ sps ↦ λ e. steps (Event.span now sp) _ (omega (arith, ap (weight w) e))
              ]
          refl

    -- the weight of the spans that a sequence of acts puts into the channels
    abbrev pub let_in : List Act → System F T → ℕ
    let_in [] s = 0
    let_in (request side ev ∷ rest) s =
        taken_in sharder side ev s.outlets + let_in rest (act F T sort sharder (request side ev) s)
    let_in (turned cfg now ready ∷ rest) s =
        let_in rest (act F T sort sharder (turned cfg now ready) s)

    -- Every turn reads a configuration that says dry run.
    abbrev pub IsDry : List Act → Type 0
    IsDry [] = Unit {0}
    IsDry (request side ev ∷ rest) = IsDry rest
    IsDry (turned cfg now ready ∷ rest) = (cfg.is_dry_run ≡ true) × IsDry rest

    -- what the channels and the collector hold and what has been handed on
    abbrev pub whole : System F T → ℕ
    whole s = queued s.outlets + total w s.collector

    module _ (sorts : Sorts sort) where
      total-step :
          (cfg : Config) (e : Event) (c : Collector Sampler Sent)
          → IsLive c
          → cfg.is_dry_run ≡ true
          → total w (step F T sort cfg e c) ≡ total w c + brought e
      unfolding run
      total-step cfg (Event.span now sp) c v dry =
          omega (arith, total-run F T sort sorts w ((cfg, Event.span now sp) ∷ []) c v (dry, tt))
      total-step cfg (Event.ticked now alloc) c v dry =
          omega
            (arith, total-run F T sort sorts w ((cfg, Event.ticked now alloc) ∷ []) c v (dry, tt))
      total-step cfg Event.reload c v dry =
          omega (arith, total-run F T sort sorts w ((cfg, Event.reload) ∷ []) c v (dry, tt))

      pub turn-IsLive :
          (cfg : Config) (now : ℕ) (ready : Ready) (s : System F T)
          → IsLive s.collector
          → IsLive (turn F T sort sharder cfg now ready s).collector
      turn-IsLive cfg now ready s v =
          turn-cases (λ s'. IsLive s'.collector) cfg now ready s v
            (λ e o _. step-IsLive F T sort sorts cfg e s.collector v)

      pub whole-turn :
          (cfg : Config) (now : ℕ) (ready : Ready) (s : System F T)
          → IsLive s.collector
          → cfg.is_dry_run ≡ true
          → whole (turn F T sort sharder cfg now ready s) ≡ whole s
      whole-turn cfg now ready s v dry =
          turn-cases (λ s'. whole s' ≡ whole s) cfg now ready s refl
            (λ e o q. omega (arith, q, total-step cfg e s.collector v dry))

      pub act-IsLive :
          (a : Act) (s : System F T)
          → IsLive s.collector
          → IsLive (act F T sort sharder a s).collector
      unfolding act
      act-IsLive (request side ev) s v = v
      act-IsLive (turned cfg now ready) s v = turn-IsLive cfg now ready s v

      pub acts-IsLive :
          (l : List Act) (s : System F T)
          → IsLive s.collector
          → IsLive (acts F T sort sharder l s).collector
      unfolding acts
      acts-IsLive [] s v = v
      acts-IsLive (a ∷ rest) s v = acts-IsLive rest (act F T sort sharder a s) (act-IsLive a s v)

      -- whole-acts
      pub whole-acts :
          (l : List Act) (s : System F T)
          → IsLive s.collector
          → IsDry l
          → whole (acts F T sort sharder l s) ≡ whole s + let_in l s
      unfolding acts act
      whole-acts [] s v dry = omega arith
      whole-acts (request side ev ∷ rest) s v dry =
          let s' = act F T sort sharder (request side ev) s in
          omega (arith, whole-acts rest s' v dry, queued-process_event sharder side ev s.outlets)
      whole-acts (turned cfg now ready ∷ rest) s v dry = omega (
        arith,
        whole-acts rest (turn F T sort sharder cfg now ready s) (turn-IsLive cfg now ready s v)
            dry.1,
        whole-turn cfg now ready s v dry.0,
      )
