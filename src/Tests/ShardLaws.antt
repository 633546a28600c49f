-- ===== src/Tests/ShardLaws.antt =====
-- The theorems on sharder/deterministic.go at concrete inputs: two peers, a hash by lengths, and an
-- insertion sort.
use Prim.Native.String.{len}
use tracing_proxy.Base.{◌+◌, ◌*◌, ◌≡◌, refl, String, [], ◌∷◌, some, arith}
use tracing_proxy.Sharder.{DetShard}
use tracing_proxy.Sharder.Peers.{
  DeterministicSharder, Strategy, Calls, load_peer_list, parse_peers, loaded,
}
use tracing_proxy.Sharder.Which.{which_shard, best_shard}
use tracing_proxy.Sharder.Chooses.{IsReady, Highest, best_shard-Highest, which_shard-some}
use tracing_proxy.Tests.{sorted, sorted-IsPermutation}
use tracing_proxy.Sharder.Loads.{Sorting, load_peer_list-IsReady}

abbrev shard_at : String → DetShard
shard_at host = record { scheme = "http"; ip_or_host = host; port = "8081" }

abbrev by_length : Calls
by_length = record {
  parse = λ p. some (shard_at p);
  wyhash = λ t seed. seed * 31 + len t;
  sort_shards = sorted;
  sort_hashes = sorted;
}

by_length-Sorting : Sorting by_length
by_length-Sorting = record { shards = sorted-IsPermutation; hashes = sorted-IsPermutation }

abbrev no_peers : DeterministicSharder
no_peers = record { peers = []; hashes = [] }

abbrev two_peers : DeterministicSharder
two_peers = loaded by_length no_peers (shard_at "b" ∷ shard_at "a" ∷ [])

two_peers-loaded : load_peer_list by_length no_peers (some ("b" ∷ "a" ∷ [])) ≡ some two_peers
unfolding load_peer_list parse_peers
two_peers-loaded = refl

load_peer_list-IsReady_example : IsReady two_peers
load_peer_list-IsReady_example =
    load_peer_list-IsReady by_length by_length-Sorting no_peers tt (some ("b" ∷ "a" ∷ [])) two_peers
      two_peers-loaded

abbrev small : DeterministicSharder
small = record {
  peers = shard_at "a" ∷ shard_at "b" ∷ [];
  hashes = record { uhash = 3; shard_index = 1 } ∷ record { uhash = 9; shard_index = 0 } ∷ [];
}

small-IsReady : IsReady small
small-IsReady = record { some_peer = omega arith; fit = (omega arith, (omega arith, tt)) }

which_shard-some_example :
    (d : DetShard) × (which_shard len (λ t seed. seed * 31 + len t) Strategy.legacy small "trace"
      ≡ some d)
which_shard-some_example =
    which_shard-some len (λ t seed. seed * 31 + len t) Strategy.legacy small "trace" small-IsReady
      (omega arith)

best_shard-Highest_example :
    Highest
      (λ t seed. seed * 31 + len t)
      "trace"
      0
      0
      small.hashes
      (best_shard (λ t seed. seed * 31 + len t) "trace" 0 0 small.hashes)
best_shard-Highest_example =
    best_shard-Highest (λ t seed. seed * 31 + len t) "trace" 0 0 small.hashes
