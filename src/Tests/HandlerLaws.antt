-- ===== src/Tests/HandlerLaws.antt =====
-- The theorems on the handlers of route/route.go and route/otlp_trace.go at concrete inputs: a batch
-- of two events of one trace for a channel of one place, and an item from a peer without data.
use tracing_proxy.Base.{true, ℕ, Result, ◌+◌, ◌≡◌, String, List, [], ◌∷◌, some, none, length}
use tracing_proxy.Base.Int.{ℤ}
use tracing_proxy.Types.{Value, Fields}
use tracing_proxy.Route.{Side, Outlets}
use tracing_proxy.Base.Fallible.{AnyOf}
use tracing_proxy.Base.{◌↔◌}
use tracing_proxy.Route.Lands.{held}
use tracing_proxy.Route.Environment.{new_environment_cache}
use tracing_proxy.Route.Handlers.{Services, Request, BatchedEvent, Router, batch_items}
use tracing_proxy.Route.Handlers.Statuses.{accepted_weights, batch_items_lem}
use tracing_proxy.Route.Otlp.{Answers, ProxyItem, PeerReply, export_from_peer}
use tracing_proxy.Route.Otlp.Batches.{LacksData, export_from_peer_iff}
use tracing_proxy.Tests.RouteLaws.{two_processes, empty_outlets, known_key}

abbrev batched : String → BatchedEvent
batched id = record {
  timestamp = "";
  msgpack_timestamp = some 7;
  sample_rate = ℤ.pos 0;
  values = ("traceTraceID", Value.text id) ∷ [];
}

abbrev if_some : List ℕ → Result String (List (String × Value))
if_some [] = Result.err "EOF"
if_some (b ∷ bs) = Result.ok (("traceTraceID", Value.text "near") ∷ [])

-- A body of no bytes is an error, and any other a batch of one event; gzip only prepends a byte.
abbrev services : Services
services = record {
  decompressors = record {
    gzip = λ r. elim r [
      | Result.ok (b ∷ bs) ↦ Result.ok bs
      | Result.ok [] ↦ Result.err "EOF"
      | Result.err e ↦ Result.err e
    ];
    zstd = λ r. r;
  };
  parsers = record {
    parse_rfc3339 = λ t. 0;
    parse_int = λ t. none;
    parse_float = λ t. none;
    unix = λ n. 0;
    unix_float = λ n. 0;
  };
  atoi = λ t. none;
  format = λ t. t;
  decode_event = λ kind body. if_some body;
  decode_batch =
      λ kind body. elim body [ [] ↦ Result.err "EOF" | b ∷ bs ↦ Result.ok (batched "near" ∷ []) ];
  marshal = λ l. Result.ok "[]";
  get_opsramp_api = Result.ok "https://api";
  environment_of = known_key;
  sharder = two_processes;
}

abbrev request : String → Request
request key = record {
  content_encoding = "gzip";
  content_type = "application/json";
  api_key = key;
  sample_rate = "";
  event_time = "";
  dataset_name = "shop";
  body = Result.ok (31 ∷ 7 ∷ []);
}

abbrev router : Router
router = record { outlets = empty_outlets; environments = new_environment_cache 10 }

abbrev two_events : List BatchedEvent
two_events = batched "near" ∷ batched "near" ∷ []

batch_items_lem_example :
    let (responses, o) =
      batch_items services Side.incoming (request "k") "prod" two_events empty_outlets in
    (length responses ≡ 2)
    × (held length o
        ≡ held length empty_outlets
          + accepted_weights services Side.incoming length two_events responses)
batch_items_lem_example =
    batch_items_lem services Side.incoming length (request "k") "prod" two_events empty_outlets

abbrev answers : Answers
answers = record {
  get_opsramp_api = Result.ok "https://api";
  get_dataset = Result.ok "shop";
  get_tenant_id = Result.ok "tenant";
}

abbrev far_item : ProxyItem
far_item = record {
  timestamp = some 7;
  contents = some (record {
    values = some (("traceTraceID", Value.text "far") ∷ []);
    resource_attributes = Fields.end;
    span_attributes = Fields.end;
    event_attributes = Fields.end;
    start_time = 1;
    end_time = 2;
    span_events = [];
  });
}

abbrev bare_item : ProxyItem
bare_item = record { timestamp = some 7; contents = none }

export_from_peer_iff_example :
    let sent = export_from_peer two_processes Side.peer answers true in
    ((sent (far_item ∷ bare_item ∷ []) empty_outlets ≡ none) ↔ (
      ((host : String) × (◌≡◌ {A = Result String String}
          (Result.ok "https://api")
          (Result.ok host)))
      × AnyOf LacksData (far_item ∷ bare_item ∷ [])))
    × ((reply : PeerReply) (o' : Outlets)
        → sent (far_item ∷ bare_item ∷ []) empty_outlets ≡ some (reply, o')
        → o'.to_peers ≡ [])
export_from_peer_iff_example =
    export_from_peer_iff two_processes answers true (far_item ∷ bare_item ∷ []) empty_outlets
