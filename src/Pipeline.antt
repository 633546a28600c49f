-- ===== src/Pipeline.antt =====
-- The routers and the collector of one process together: `processEvent` of route/route.go puts spans
-- into two channels, and the loop of `collect` in collect/collect.go takes them out.
pub mod Delivers
pub mod Drains
use tracing_proxy.Base.{ℕ, zero, suc, String, List, [], ◌∷◌, true, false, if◌then◌else◌}
use tracing_proxy.Types.{Span}
use tracing_proxy.Route.{Event as Request, Sharder, Side, Outlets, Queue, process_event}
use tracing_proxy.Collect.State.{Config, SamplerFactory, TraceSentCache, Collector}
use tracing_proxy.Collect.Loop.{Sort}
use tracing_proxy.Collect.History.{Event, step}

-- what the inner `select` of `collect` finds ready
pub data Ready : Type 0 where
  own_span : Ready
  ticked : (alloc : ℕ) → Ready
  reload : Ready

-- An event from outside, or a turn of the loop of `collect`.
pub data Act : Type 0 where
  request : (side : Side) (ev : Request) → Act
  turned : (cfg : Config) (now : ℕ) (ready : Ready) → Act

unfoldable pub with_items : List Span → Queue → Queue
with_items items q = record q { items = items }

pub record System (F : SamplerFactory) (T : TraceSentCache) : Type 0 where
  pub outlets : Outlets
  pub collector : Collector (SamplerFactory.Sampler F) (TraceSentCache.Sent T)

module _ (F : SamplerFactory) (T : TraceSentCache) (sort : Sort) (sharder : Sharder) where
  unfoldable pub react : Config → Event → System F T → System F T
  unfolding step
  react cfg e s = record s { collector = step F T sort cfg e s.collector }

  -- A span is taken out of its channel, and processed.
  unfoldable pub take_own : Config → ℕ → List Span → System F T → System F T
  unfolding react with_items
  take_own cfg now [] s = s
  take_own cfg now (sp ∷ sps) s =
      let o = record (s.outlets) { incoming = with_items sps s.outlets.incoming } in
      react cfg (Event.span now sp) (record s { outlets = o })

  -- the inner `select`; with nothing ready it waits
  unfoldable pub select : Config → ℕ → Ready → System F T → System F T
  unfolding react take_own
  select cfg now own_span s = take_own cfg now s.outlets.incoming.items s
  select cfg now (ticked alloc) s = react cfg (Event.ticked now alloc) s
  select cfg now reload s = react cfg Event.reload s

  -- the outer `select`: the channel of the peers comes first
  unfoldable pub take_peer : Config → ℕ → Ready → List Span → System F T → System F T
  unfolding react with_items select
  take_peer cfg now ready [] s = select cfg now ready s
  take_peer cfg now ready (sp ∷ sps) s =
      let o = record (s.outlets) { from_peer = with_items sps s.outlets.from_peer } in
      react cfg (Event.span now sp) (record s { outlets = o })

  -- a turn of the loop
  unfoldable pub turn : Config → ℕ → Ready → System F T → System F T
  unfolding take_peer
  turn cfg now ready s = take_peer cfg now ready s.outlets.from_peer.items s

  unfoldable pub act : Act → System F T → System F T
  unfolding turn process_event
  act (request side ev) s = record s { outlets = (process_event sharder side ev s.outlets).1 }
  act (turned cfg now ready) s = turn cfg now ready s

  unfoldable pub acts : List Act → System F T → System F T
  unfolding act
  acts [] s = s
  acts (a ∷ rest) s = acts rest (act a s)

  -- a number of turns that find no tick and no reload
  unfoldable pub turns : ℕ → Config → ℕ → System F T → System F T
  unfolding turn
  turns zero cfg now s = s
  turns (suc n) cfg now s = turns n cfg now (turn cfg now own_span s)
