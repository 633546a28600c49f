-- ===== src/Tests/RouteLaws.antt =====
-- The theorems on `processEvent` and the environment cache of route/route.go at concrete inputs: a
-- process among two, and a lookup that knows one key.
use tracing_proxy.Base.{
  ℕ, ◌+◌, ◌≡◌, refl, String, List, [], ◌∷◌, length, same_text, if◌then◌else◌, Result,
}
use tracing_proxy.Base.Dict.{lookup}
use tracing_proxy.Types.{Value}
use tracing_proxy.Sharder.{DetShard, Shard}
use tracing_proxy.Route.{Answer, Event, Sharder, Side, Outlets, process_event}
use tracing_proxy.Route.Lands.{held, weight_if_accepted, held-process_event}
use tracing_proxy.Route.Environment.{get, new_environment_cache}
use tracing_proxy.Route.Environment.Holds.{Recent, calls, get-calls}

abbrev shard_on : String → DetShard
shard_on host = record { scheme = "http"; ip_or_host = host; port = "8081" }

-- The trace "far" is the other process's.
abbrev pub two_processes : Sharder
two_processes = record {
  my_shard = Shard.det (shard_on "a");
  which_shard = λ id. Shard.det (shard_on (if same_text id "far" then "b" else "a"));
}

abbrev pub event_of : String → Event
event_of id = record {
  api_host = "https://api";
  api_key = "key";
  api_token = "token";
  api_tenant_id = "tenant";
  dataset = "shop";
  environment = "prod";
  sample_rate = 1;
  timestamp = 7;
  values = ("traceTraceID", Value.text id) ∷ ("name", Value.text "checkout") ∷ [];
  span_events = [];
}

abbrev pub empty_outlets : Outlets
empty_outlets = record {
  upstream = [];
  to_peers = [];
  incoming = record { items = []; capacity = 1 };
  from_peer = record { items = []; capacity = 1 };
  incremented = [];
}

abbrev pub one_near : Outlets
one_near = (process_event two_processes Side.incoming (event_of "near") empty_outlets).1

refused : process_event two_processes Side.incoming (event_of "near") one_near ≡ (
  Answer.err_would_block,
  record one_near { incremented = "incoming_router_span" ∷ "incoming_router_dropped" ∷ [] },
)
unfolding process_event lookup
refused = refl

held-process_event_example :
    held length (process_event two_processes Side.incoming (event_of "near") one_near).1
    ≡ held length one_near
      + weight_if_accepted
          (process_event two_processes Side.incoming (event_of "near") one_near).0
          2
held-process_event_example =
    held-process_event length two_processes Side.incoming (event_of "near") one_near

abbrev pub known_key : ℕ → String → Result String String
known_key at key = if same_text key "k" then Result.ok "prod" else Result.err "401"

abbrev three_calls : List (ℕ × String)
three_calls = (1, "k") ∷ (2, "other") ∷ (30, "k") ∷ []

get-calls_example :
    Recent known_key 33 "k" 10
      (get known_key 33 "k" (calls known_key 0 (new_environment_cache 10) three_calls).1).0
unfolding calls
get-calls_example = get-calls known_key 0 10 three_calls "k"
