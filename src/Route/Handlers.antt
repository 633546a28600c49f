-- ===== src/Route/Handlers.antt =====
-- The handlers of events and batches in route/route.go, with the replies of route/errors.go. What
-- the HTTP server, the decompressors, the decoders and `encoding/json` answer is a parameter.
pub mod Statuses
pub mod Bodies
use Prim.Native.String.{◌++◌ as join}
use tracing_proxy.Base.{
  ℕ, Result, Result-cases, ◌==◌, String, List, [], ◌∷◌, ◌++◌, Option, none, some, Bool, true, false,
  length, leb, take, if◌then◌else◌, same_text,
}
use tracing_proxy.Base.Int.{ℤ}
use tracing_proxy.Types.{Value}
use tracing_proxy.Sample.Rules.{to_uint}
use tracing_proxy.Route.{
  Event, Sharder, Side, Outlets, Answer, accepted, err_would_block, process_event, count,
}
use tracing_proxy.Route.EventTime.{TimeParsers, get_event_time}
use tracing_proxy.Route.Environment.{EnvironmentCache, get_environment_name}

-- `handlerError`, less its error
pub record HandlerError : Type 0 where
  pub msg : String
  pub status : ℕ
  pub detailed : Bool
  pub friendly : Bool

abbrev pub err_json_failed : HandlerError
err_json_failed = record {
  msg = "failed to parse JSON";
  status = 400;
  detailed = false;
  friendly = true;
}

abbrev pub err_json_build_failed : HandlerError
err_json_build_failed = record {
  msg = "failed to build JSON response";
  status = 500;
  detailed = false;
  friendly = true;
}

abbrev pub err_post_body : HandlerError
err_post_body = record {
  msg = "failed to read request body";
  status = 500;
  detailed = false;
  friendly = false;
}

abbrev pub err_req_to_event : HandlerError
err_req_to_event = record {
  msg = "failed to parse event";
  status = 400;
  detailed = false;
  friendly = true;
}

-- A `http.ResponseWriter`: the status is the first one written, and 200 once something else is
-- written before.
pub record Reply : Type 0 where
  pub status : Option ℕ
  pub written : List String

abbrev pub no_reply : Reply
no_reply = record { status = none; written = [] }

unfoldable pub write_header : ℕ → Reply → Reply
write_header status w = elim w.status [ none ↦ record w { status = some status } | some _ ↦ w ]

unfoldable pub write_body : String → Reply → Reply
unfolding write_header
write_body body w =
    let headed = write_header 200 w in record headed { written = headed.written ++ body ∷ [] }

-- `format` is `fmt.Sprintf` of a format without arguments.
unfoldable pub error_message : (String → String) → HandlerError → String → String
error_message format he err =
    if he.friendly
    then (if he.detailed then format (join he.msg (join ": " err)) else he.msg)
    else "unexpected error!"

unfoldable pub handler_return_with_error : (String → String) → HandlerError → String → Reply → Reply
unfolding write_header write_body error_message
handler_return_with_error format he err w =
    write_body
      (join "{\"source\":\"tracing-proxy\",\"error\":\"" (join (error_message format he err) "\"}"))
      (write_header he.status w)

-- what reading the body of a request gives
abbrev pub Read : Type 0
Read = Result String (List ℕ)

-- What the decompressors answer: for gzip, whether the header is good and then the bytes; for zstd
-- all of the bytes, or an error.
pub record Decompressors : Type 0 where
  pub gzip : Read → Result String (List ℕ)
  pub zstd : Read → Result String (List ℕ)

-- `io.CopyN` into an empty buffer: the first `n` bytes, or an error if there are fewer
unfoldable pub copy_n : ℕ → List ℕ → Result String (List ℕ)
copy_n n bytes = if leb n (length bytes) then Result.ok (take n bytes) else Result.err "EOF"

-- The count of bytes that the gzip branch copies is the length of the new buffer, which is 0.
unfoldable pub get_maybe_compressed_body : Decompressors → String → Read → Result String (List ℕ)
unfolding same_text copy_n
get_maybe_compressed_body D encoding body =
    if same_text encoding "gzip"
    then elim (D.gzip body) [
      | Result.ok bytes ↦ copy_n (length {A = ℕ} []) bytes
      | Result.err e ↦ Result.err e
    ]
    else if same_text encoding "zstd"
    then D.zstd body
    else body

-- A request: its headers, the name of the dataset in its path, and what reading its body gives.
pub record Request : Type 0 where
  pub content_encoding : String
  pub content_type : String
  pub api_key : String
  pub sample_rate : String
  pub event_time : String
  pub dataset_name : String
  pub body : Read

pub record BatchedEvent : Type 0 where
  pub timestamp : String
  pub msgpack_timestamp : Option ℕ
  pub sample_rate : ℤ
  pub values : List (String × Value)

pub record BatchResponse : Type 0 where
  pub status : ℕ
  pub error : String

-- The packages that the handlers call, and the configured upstream, which may fail.
pub record Services : Type 0 where
  pub decompressors : Decompressors
  pub parsers : TimeParsers
  pub atoi : String → Option ℤ
  pub format : String → String
  -- `unmarshal`, by the content type
  pub decode_event : String → List ℕ → Result String (List (String × Value))
  pub decode_batch : String → List ℕ → Result String (List BatchedEvent)
  pub marshal : List BatchResponse → Result String String
  pub get_opsramp_api : Result String String
  pub environment_of : ℕ → String → Result String String
  pub sharder : Sharder

-- what a router may change
pub record Router : Type 0 where
  pub outlets : Outlets
  pub environments : EnvironmentCache

unfoldable pub would_block_message : String
would_block_message = "not adding span, channel buffer is full"

unfoldable pub batch_time : TimeParsers → BatchedEvent → ℕ
unfolding get_event_time
batch_time P b = elim b.msgpack_timestamp [ some t ↦ t | none ↦ get_event_time P b.timestamp ]

unfoldable pub rate_or_one : Option ℤ → ℤ
rate_or_one (some n) = n
rate_or_one none = ℤ.pos 1

unfoldable pub one_if_zero : ℤ → ℤ
one_if_zero (ℤ.pos n) = if n == 0 then ℤ.pos 1 else ℤ.pos n
one_if_zero (ℤ.negsuc n) = ℤ.negsuc n

-- the event that both handlers build
unfoldable pub new_event : String → Request → String → ℤ → ℕ → List (String × Value) → Event
new_event api_host req environment sample_rate timestamp values = record {
  api_host = api_host;
  api_key = req.api_key;
  api_token = "";
  api_tenant_id = "";
  dataset = req.dataset_name;
  environment = environment;
  sample_rate = to_uint sample_rate;
  timestamp = timestamp;
  values = values;
  span_events = [];
}

module _ (S : Services) (side : Side) where
  open S use {parsers, format}

  unfoldable pub batched_event_to_event : Request → BatchedEvent → String → Result String Event
  unfolding batch_time one_if_zero new_event
  batched_event_to_event req b environment = elim S.get_opsramp_api [
    | Result.err e ↦ Result.err e
    | Result.ok host ↦
        Result.ok (
          new_event host req environment (one_if_zero b.sample_rate) (batch_time parsers b)
            b.values)
  ]

  -- `requestToEvent`, with the cache of environments after it
  unfoldable pub request_to_event :
      ℕ → Request → List ℕ → EnvironmentCache → Result String Event × EnvironmentCache
  unfolding get_environment_name rate_or_one get_event_time new_event
  request_to_event now req body c = elim S.get_opsramp_api [
    | Result.err e ↦ (Result.err e, c)
    | Result.ok host ↦
        let (environment, c') = get_environment_name S.environment_of now req.api_key c in
        elim environment [
          | Result.err e ↦ (Result.err e, c')
          | Result.ok name ↦ elim (S.decode_event req.content_type body) [
            | Result.err e ↦ (Result.err e, c')
            | Result.ok values ↦ (
              Result.ok (
                  new_event host req name (rate_or_one (S.atoi req.sample_rate))
                    (get_event_time parsers req.event_time) values),
              c',
            )
          ]
        ]
  ]

  unfoldable pub fail : HandlerError → String → Reply → Reply
  unfolding handler_return_with_error
  fail = handler_return_with_error format

  unfoldable pub reply_to_event : Answer × Outlets → EnvironmentCache → Reply × Router
  unfolding fail would_block_message
  reply_to_event (accepted, o) c = (no_reply, record { outlets = o; environments = c })
  reply_to_event (err_would_block, o) c =
      (fail err_req_to_event would_block_message no_reply, record { outlets = o; environments = c })

  -- `event`, once the body is read
  unfoldable pub event_of_body : ℕ → Request → List ℕ → Router → Reply × Router
  unfolding request_to_event reply_to_event fail
  event_of_body now req body r =
      let (made, c) = request_to_event now req body r.environments in
      elim made [
        | Result.err e ↦ (fail err_req_to_event e no_reply, record r { environments = c })
        | Result.ok ev ↦ reply_to_event (process_event S.sharder side ev r.outlets) c
      ]

  unfoldable pub counted : String → Router → Router
  unfolding count
  counted name r = record r { outlets = count side name r.outlets }

  unfoldable pub event : ℕ → Request → Router → Reply × Router
  unfolding counted get_maybe_compressed_body event_of_body fail
  event now req r = elim (get_maybe_compressed_body S.decompressors req.content_encoding req.body) [
    | Result.err e ↦ (fail err_post_body e no_reply, counted "_router_event" r)
    | Result.ok body ↦ event_of_body now req body (counted "_router_event" r)
  ]

  -- the response for an event of a batch
  unfoldable pub response_of : Answer → BatchResponse
  unfolding would_block_message
  response_of accepted = record { status = 202; error = "" }
  response_of err_would_block = record { status = 429; error = would_block_message }

  unfoldable pub batch_item : Request → String → BatchedEvent → Outlets → BatchResponse × Outlets
  unfolding batched_event_to_event response_of
  batch_item req environment b o = elim (batched_event_to_event req b environment) [
    | Result.err e ↦ (record { status = 400; error = join "failed to convert to event: " e }, o)
    | Result.ok ev ↦
        let (answer, o') = process_event S.sharder side ev o in (response_of answer, o')
  ]

  -- the loop of `batch`
  unfoldable pub batch_items :
      Request → String → List BatchedEvent → Outlets → List BatchResponse × Outlets
  unfolding batch_item
  batch_items req environment [] o = ([], o)
  batch_items req environment (b ∷ bs) o =
      let (response, o') = batch_item req environment b o in
      let (rest, o'') = batch_items req environment bs o' in (response ∷ rest, o'')

  unfoldable pub finish_batch : List BatchResponse → Reply → Reply
  unfolding write_body fail
  finish_batch responses w = elim (S.marshal responses) [
    | Result.err e ↦ fail err_json_build_failed e w
    | Result.ok body ↦ write_body body w
  ]

  -- The name of the environment that the batch goes on with, and the reply so far: a failed lookup
  -- replies, and goes on with the empty name.
  unfoldable pub environment_or_reply : Result String String → String × Reply
  unfolding fail
  environment_or_reply (Result.ok name) = (name, no_reply)
  environment_or_reply (Result.err e) = ("", fail err_req_to_event e no_reply)

  -- `batch`, once the events are decoded
  unfoldable pub batch_of_events : ℕ → Request → List BatchedEvent → Router → Reply × Router
  unfolding get_environment_name environment_or_reply batch_items finish_batch
  batch_of_events now req bs r =
      let (found, c) = get_environment_name S.environment_of now req.api_key r.environments in
      let (environment, w) = environment_or_reply found in
      let (responses, o) = batch_items req environment bs r.outlets in
      (finish_batch responses w, record { outlets = o; environments = c })

  unfoldable pub batch_of_body : ℕ → Request → List ℕ → Router → Reply × Router
  unfolding batch_of_events fail
  batch_of_body now req body r = elim (S.decode_batch req.content_type body) [
    | Result.err e ↦ (fail err_json_failed e no_reply, r)
    | Result.ok bs ↦ batch_of_events now req bs r
  ]

  unfoldable pub batch : ℕ → Request → Router → Reply × Router
  unfolding counted get_maybe_compressed_body batch_of_body fail
  batch now req r = elim (get_maybe_compressed_body S.decompressors req.content_encoding req.body) [
    | Result.err e ↦ (fail err_post_body e no_reply, counted "_router_batch" r)
    | Result.ok body ↦ batch_of_body now req body (counted "_router_batch" r)
  ]
