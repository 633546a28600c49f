-- ===== src/Route/Lands.antt =====
-- Where an event goes: what `processEvent` of route/route.go keeps and what it hands on.
use tracing_proxy.Base.{
  ℕ, ◌+◌, ◌≡◌, String, List, [], ◌∷◌, ◌++◌, true, arith, if-cases, Bool-cases, inl, inr, same_text,
}
use tracing_proxy.Types.{Span, Value}
use tracing_proxy.Route.{
  Event, Sharder, Side, Outlets, Answer, accepted, err_would_block, add, add_on, count,
  collect_span, send_upstream, send_to_peer, process_event, is_for_peer, to_span, shard_address,
  trace_id_of,
}

-- the sum of a weight of the data
abbrev pub event_weights : (List (String × Value) → ℕ) → List Event → ℕ
event_weights w [] = 0
event_weights w (ev ∷ evs) = w ev.values + event_weights w evs

abbrev pub span_weights : (List (String × Value) → ℕ) → List Span → ℕ
span_weights w [] = 0
span_weights w (sp ∷ sps) = w sp.values + span_weights w sps

-- the data in every outlet
abbrev pub held : (List (String × Value) → ℕ) → Outlets → ℕ
held w o =
    event_weights w o.upstream
    + event_weights w o.to_peers
    + (span_weights w o.incoming.items + span_weights w o.from_peer.items)

event_weights-append :
    (w : List (String × Value) → ℕ) (xs : List Event) (ev : Event)
    → event_weights w (xs ++ ev ∷ []) ≡ event_weights w xs + w ev.values
event_weights-append w [] ev = omega arith
event_weights-append w (x ∷ xs) ev = omega (arith, event_weights-append w xs ev)

span_weights-append :
    (w : List (String × Value) → ℕ) (xs : List Span) (sp : Span)
    → span_weights w (xs ++ sp ∷ []) ≡ span_weights w xs + w sp.values
span_weights-append w [] sp = omega arith
span_weights-append w (x ∷ xs) sp = omega (arith, span_weights-append w xs sp)

abbrev pub weight_if_accepted : Answer → ℕ → ℕ
weight_if_accepted accepted n = n
weight_if_accepted err_would_block n = 0

held-collect_span :
    (w : List (String × Value) → ℕ) (side : Side) (sp : Span) (o : Outlets)
    → held w (collect_span side sp o).1
      ≡ held w o + weight_if_accepted (collect_span side sp o).0 (w sp.values)
unfolding collect_span add_on add count
held-collect_span w Side.incoming sp o = ground (arith, span_weights-append w o.incoming.items sp)
held-collect_span w Side.peer sp o = ground (arith, span_weights-append w o.from_peer.items sp)

pub process_event-cases :
    (P : Answer × Outlets → Type 0) (sharder : Sharder) (side : Side) (ev : Event) (o : Outlets)
    → P (accepted, send_upstream side ev o)
    → ((id : String)
        → is_for_peer sharder side id ≡ true
        → P (accepted, send_to_peer side (sharder.which_shard id) ev o))
    → P (collect_span side (to_span ev (trace_id_of ev.values)) o)
    → P (process_event sharder side ev o)
unfolding process_event
process_event-cases P sharder side ev o up over own =
    let id = trace_id_of ev.values in
    if-cases P (same_text id "") _ _ up (elim (Bool-cases (is_for_peer sharder side id)) [
      | inl e ↦ rw e (over id e)
      | inr e ↦ rw e own
    ])

-- `processEvent` puts the data of an event that it accepts into exactly one of the upstream,
-- the peer transmission and the two channels, and that of an event that it refuses into none:
-- for every weight of the data, the sum over all of them grows by the weight of the event, or
-- stays.
pub held-process_event :
    (w : List (String × Value) → ℕ) (sharder : Sharder) (side : Side) (ev : Event) (o : Outlets)
    → held w (process_event sharder side ev o).1
      ≡ held w o + weight_if_accepted (process_event sharder side ev o).0 (w ev.values)
unfolding send_upstream send_to_peer count to_span
held-process_event w sharder side ev o =
    process_event-cases (λ p. held w p.1 ≡ held w o + weight_if_accepted p.0 (w ev.values)) sharder
      side ev o (omega (arith, event_weights-append w o.upstream ev))
      (λ id e. omega (
        arith,
        event_weights-append w o.to_peers
            (record ev { api_host = shard_address (sharder.which_shard id) }),
      ))
      (held-collect_span w side (to_span ev (trace_id_of ev.values)) o)
