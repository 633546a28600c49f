-- ===== src/Route/Otlp/Export.antt =====
-- `postOTLP` and `Export` of route/otlp_trace.go: from the body or the message of a client to the
-- outlets of the router. A panic is none.
use tracing_proxy.Base.{
  ℕ, Bool, true, Result, String, List, map, Option, none, some, if◌then◌else◌, same_text,
}
use tracing_proxy.Convert.Messages.{ResourceSpans, Tools}
use tracing_proxy.Convert.Translate.{ValueMap}
use tracing_proxy.Convert.Translate.Request.{translate_trace_request}
use tracing_proxy.Convert.Request.{
  RequestInfo, Readers, Read, plain, error_text, as_grpc_error, read_request,
  get_request_info_from_http_headers, get_request_info_from_grpc_metadata,
}
use tracing_proxy.Route.{Sharder, Side, Outlets, count}
use tracing_proxy.Route.Handlers.{HandlerError, Reply, handler_return_with_error}
use tracing_proxy.Route.Otlp.{Answers, or_empty, process_trace_request}

abbrev pub err_upstream_failed : HandlerError
err_upstream_failed = record {
  msg = "failed to create upstream request";
  status = 503;
  detailed = true;
  friendly = true;
}

unfoldable pub or_default : String → Result String String → String
unfolding or_empty same_text
or_default s answer = if same_text s "" then or_empty answer else s

-- what the configuration says of the translation
pub record Settings : Type 0 where
  pub additional : ValueMap
  pub send_events : Bool

module _ (sharder : Sharder) (side : Side) (A : Answers) (tools : Tools) (S : Settings) where
  -- the tenant and the dataset of the configuration, where the request names none
  unfoldable pub completed : RequestInfo → RequestInfo
  unfolding or_default
  completed ri = record ri {
    api_tenant_id = or_default ri.api_tenant_id A.get_tenant_id;
    dataset = or_default ri.dataset A.get_dataset;
  }

  unfoldable pub process_request :
      RequestInfo → List ResourceSpans → Outlets → Option (Result String (Unit {0}) × Outlets)
  unfolding translate_trace_request process_trace_request
  process_request ri request o =
      elim (translate_trace_request tools ri.dataset S.additional S.send_events request) [
        | none ↦ none
        | some batches ↦ some (
            process_trace_request sharder side A (map (λ b. b.events) batches) ri.api_token
              ri.api_tenant_id o)
      ]

  -- `postOTLP`
  unfoldable pub post_otlp :
      (String → String)
      → Readers
      → (String → String)
      → Read
      → Outlets
      → Reply
      → Option (Reply × Outlets)
  unfolding completed process_request read_request handler_return_with_error
      get_request_info_from_http_headers
  post_otlp format R header body o w =
      let ri = completed (get_request_info_from_http_headers header) in
      elim (read_request R body ri) [
        | Result.err e ↦
            some (handler_return_with_error format err_upstream_failed (error_text e) w, o)
        | Result.ok request ↦ elim (process_request ri request o) [
          | none ↦ none
          | some (Result.err e, o') ↦
              some (handler_return_with_error format err_upstream_failed e w, o')
          | some (Result.ok _, o') ↦ some (w, o')
        ]
      ]

  -- `Export`: the code of gRPC and the message of an error, or none
  unfoldable pub export :
      Option (String → List String)
      → List ResourceSpans
      → Outlets
      → Option (Option (ℕ × String) × Outlets)
  unfolding completed process_request count as_grpc_error get_request_info_from_grpc_metadata
  export metadata request o =
      let ri = completed (get_request_info_from_grpc_metadata metadata) in
      elim (process_request ri request (count side "_router_batch" o)) [
        | none ↦ none
        | some (Result.err e, o') ↦ some (some (as_grpc_error (plain e)), o')
        | some (Result.ok _, o') ↦ some (none, o')
      ]
