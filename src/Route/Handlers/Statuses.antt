-- ===== src/Route/Handlers/Statuses.antt =====
-- What the replies of route/route.go say about what was done with the events.
use tracing_proxy.Base.{
  ℕ, Result, Result-cases, ◌+◌, ◌≡◌, refl, String, List, [], ◌∷◌, some, arith, length, ◌==◌,
  if◌then◌else◌, inl, inr,
}
use tracing_proxy.Types.{Value}
use tracing_proxy.Route.{Side, Outlets, Answer, accepted, err_would_block, process_event}
use tracing_proxy.Route.Lands.{held, held-process_event, weight_if_accepted}
use tracing_proxy.Route.Environment.{get_environment_name}
use tracing_proxy.Route.Handlers.{
  Services, Request, BatchedEvent, BatchResponse, Router, Reply, batch_item, batch_items,
  batched_event_to_event, batch_of_events, new_event, response_of, event_of_body, request_to_event,
  finish_batch, fail, err_req_to_event, no_reply, one_if_zero, batch_time, environment_or_reply,
  handler_return_with_error, write_header, write_body,
}

module _ (S : Services) (side : Side) where
  -- the weights of the events whose response has the status 202
  abbrev pub accepted_weights :
      (List (String × Value) → ℕ) → List BatchedEvent → List BatchResponse → ℕ
  accepted_weights w [] responses = 0
  accepted_weights w (b ∷ bs) [] = 0
  accepted_weights w (b ∷ bs) (response ∷ rest) =
      let later = accepted_weights w bs rest in
      if response.status == 202 then w b.values + later else later

  weight_if_status : ℕ → BatchResponse → ℕ
  weight_if_status n response = if response.status == 202 then n else 0

  held-answered :
      (w : List (String × Value) → ℕ) (n : ℕ) (answer : Answer)
      → weight_if_accepted answer n ≡ weight_if_status n (response_of S side answer)
  unfolding response_of weight_if_status
  held-answered w n accepted = refl
  held-answered w n err_would_block = refl

  held-batch_item :
      (w : List (String × Value) → ℕ) (req : Request) (environment : String) (b : BatchedEvent)
      (o : Outlets)
      → held w (batch_item S side req environment b o).1
        ≡ held w o + weight_if_status (w b.values) (batch_item S side req environment b o).0
  unfolding batch_item batched_event_to_event new_event weight_if_status
  held-batch_item w req environment b o = elim (Result-cases S.get_opsramp_api) [
    | inr (e, failed) ↦ rw (failed, batched_event_to_event) (omega arith)
    | inl (host, configured) ↦
        rw (configured, batched_event_to_event)
          (let ev =
              new_event host req environment (one_if_zero b.sample_rate) (batch_time S.parsers b)
                b.values in
            omega (
              arith,
              held-process_event w S.sharder side ev o,
              held-answered w (w b.values) (process_event S.sharder side ev o).0,
            ))
  ]

  -- The loop of `batch` answers one response for each event, and for every weight of the
  -- data, what the outlets of the router hold grows by the weights of just the events whose
  -- response has the status 202.
  pub batch_items_lem :
      (w : List (String × Value) → ℕ) (req : Request) (environment : String)
      (bs : List BatchedEvent) (o : Outlets)
      → let (responses, o') = batch_items S side req environment bs o in
        (length responses ≡ length bs) × (held w o' ≡ held w o + accepted_weights w bs responses)
  unfolding batch_items weight_if_status
  batch_items_lem w req environment [] o = (refl, omega arith)
  batch_items_lem w req environment (b ∷ bs) o =
      let (response, o') = batch_item S side req environment b o in
      let later = batch_items_lem w req environment bs o' in
      (omega (arith, later.0), ground (arith, later.1, held-batch_item w req environment b o))

module _ (S : Services) (side : Side) (now : ℕ) (req : Request) (r : Router) (e : String)
    (failed : (get_environment_name S.environment_of now req.api_key r.environments).0
      ≡ Result.err e) where
  status-finish_batch :
      (responses : List BatchResponse) (w : Reply)
      → w.status ≡ some 400
      → (finish_batch S side responses w).status ≡ some 400
  unfolding finish_batch fail handler_return_with_error write_header write_body
  status-finish_batch responses w h = ground (arith, h)

  -- If the name of the environment cannot be found, `batch` replies with the status 400, and
  -- still processes every event of the batch, with an empty environment.
  pub batch-unknown :
      (bs : List BatchedEvent)
      → ((batch_of_events S side now req bs r).0.status ≡ some 400)
        × ((batch_of_events S side now req bs r).1.outlets
            ≡ (batch_items S side req "" bs r.outlets).1)
  unfolding batch_of_events environment_or_reply fail handler_return_with_error write_header
      write_body
  batch-unknown bs = rw failed (
    status-finish_batch (batch_items S side req "" bs r.outlets).0
        (fail S side err_req_to_event e no_reply) refl,
    refl,
  )

  -- If the upstream is configured and the name of the environment cannot be found, `event`
  -- replies with the status 400 and processes nothing.
  pub event-unknown :
      (body : List ℕ) (host : String)
      → S.get_opsramp_api ≡ Result.ok host
      → ((event_of_body S side now req body r).0.status ≡ some 400)
        × ((event_of_body S side now req body r).1.outlets ≡ r.outlets)
  unfolding event_of_body request_to_event fail handler_return_with_error write_header write_body
  event-unknown body host configured =
      simp (configured, failed, event_of_body, request_to_event) (refl, refl)
