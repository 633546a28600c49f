-- ===== src/Route/Environment.antt =====
-- The names of environments in route/route.go: the cache with its time to live, and the lookup that
-- fills it, whose answer may change with the time. The HTTP client, the parser of URLs and the JSON decoder are parameters.
pub mod Holds
use tracing_proxy.Base.{
  ℕ, ◌+◌, Result, String, List, [], ◌∷◌, Option, none, some, Bool, true, false, ◌||◌, ltb, ◌==◌,
  if◌then◌else◌, same_text,
}
use tracing_proxy.Base.Dict.{lookup, insert}
use tracing_proxy.Types.{is_legacy_api_key}

pub record CacheItem : Type 0 where
  pub expires_at : ℕ
  pub value : String

pub record EnvironmentCache : Type 0 where
  pub items : List (String × CacheItem)
  pub ttl : ℕ

unfoldable pub new_environment_cache : ℕ → EnvironmentCache
new_environment_cache ttl = record { items = []; ttl = ttl }

unfoldable pub add_item : ℕ → String → String → ℕ → EnvironmentCache → EnvironmentCache
unfolding insert
add_item now key value ttl c = record c {
  items = insert key (record { expires_at = now + ttl; value = value }) c.items;
}

-- the value of a key whose item has not expired
unfoldable pub fresh_item : ℕ → String → EnvironmentCache → Option String
unfolding lookup
fresh_item now key c = elim (lookup key c.items) [
  | some item ↦ if ltb now item.expires_at then some item.value else none
  | none ↦ none
]

module _ {E : Type 0} (get_fn : ℕ → String → Result E String) where
  -- the part of `get` below the lock, where the clock and the items may have moved on
  unfoldable pub get_locked : ℕ → String → EnvironmentCache → Result E String × EnvironmentCache
  unfolding fresh_item add_item
  get_locked now key c = elim (fresh_item now key c) [
    | some value ↦ (Result.ok value, c)
    | none ↦ elim (get_fn now key) [
      | Result.ok value ↦ (Result.ok value, add_item now key value c.ttl c)
      | Result.err e ↦ (Result.err e, c)
    ]
  ]

  -- `get`, where no other call comes between its two looks at the items
  unfoldable pub get : ℕ → String → EnvironmentCache → Result E String × EnvironmentCache
  unfolding fresh_item get_locked
  get now key c = elim (fresh_item now key c) [
    | some value ↦ (Result.ok value, c)
    | none ↦ get_locked now key c
  ]

  unfoldable pub get_environment_name :
      ℕ → String → EnvironmentCache → Result E String × EnvironmentCache
  unfolding same_text is_legacy_api_key get
  get_environment_name now api_key c =
      if same_text api_key "" || is_legacy_api_key api_key
      then (Result.ok "", c)
      else get now api_key c

-- What `lookupEnvironment` may fail with.
pub data LookupError : Type 0 where
  config_read url_parse request sending unauthorized decoding : LookupError
  received : (status : ℕ) → LookupError

-- The packages that `lookupEnvironment` calls, each with its own failure: the URL of the request
-- for an endpoint, the request, its answer with a status and a body, and the decoded name.
pub record Client : Type 1 where
  pub Url : Type 0
  pub Sent : Type 0
  pub Body : Type 0
  pub parse : String → Option Url
  pub new_request : Url → String → Option Sent
  pub send : Sent → Option (ℕ × Body)
  pub decode : Body → Option String

-- the `switch` on the status, and the decoding
unfoldable pub read_answer :
    {Body : Type 0} → (Body → Option String) → ℕ × Body → Result LookupError String
read_answer decode (status, body) =
    if status == 401
    then Result.err LookupError.unauthorized
    else if ltb 299 status
    then Result.err (LookupError.received status)
    else elim (decode body) [ some name ↦ Result.ok name | none ↦ Result.err LookupError.decoding ]

module _ (net : Client) where
  unfoldable pub lookup_environment : Option String → String → Result LookupError String
  unfolding read_answer
  lookup_environment none api_key = Result.err LookupError.config_read
  lookup_environment (some endpoint) api_key = elim (net.parse endpoint) [
    | none ↦ Result.err LookupError.url_parse
    | some url ↦ elim (net.new_request url api_key) [
      | none ↦ Result.err LookupError.request
      | some req ↦ elim (net.send req) [
        | none ↦ Result.err LookupError.sending
        | some answer ↦ read_answer net.decode answer
      ]
    ]
  ]
