-- ===== src/Sharder/Peers.antt =====
-- `GetHashesFor` and `loadPeerList` of sharder/deterministic.go. wyhash, `url.Parse` and the sorts are
-- parameters.
use tracing_proxy.Base.{
  ℕ, zero, suc, ◌+◌, ◌/◌, String, List, [], ◌∷◌, ◌++◌, Option, none, some, Bool, ltb, length,
  if◌then◌else◌,
}
use tracing_proxy.Sharder.{DetShard, shards_equal, less, get_address}

pub record HashShard : Type 0 where
  pub uhash : ℕ
  pub shard_index : ℕ

pub data Strategy : Type 0 where
  legacy hash : Strategy

pub record DeterministicSharder : Type 0 where
  pub peers : List DetShard
  pub hashes : List HashShard

abbrev pub peer_seed : ℕ
peer_seed = 6789531204236

abbrev pub partition_count : ℕ
partition_count = 50

unfoldable pub partitions_per_peer : ℕ → ℕ
partitions_per_peer n = partition_count / n + 1

-- The code that the sharder calls: `url.Parse` with the parts that it reads (none is an error),
-- `wyhash.Hash`, `sort.Sort` of shards and `sort.Slice` of hashes.
pub record Calls : Type 0 where
  pub parse : String → Option DetShard
  pub wyhash : String → ℕ → ℕ
  pub sort_shards : (DetShard → DetShard → Bool) → List DetShard → List DetShard
  pub sort_hashes : (HashShard → HashShard → Bool) → List HashShard → List HashShard

module _ (C : Calls) where
  open C use {parse, wyhash, sort_shards, sort_hashes}

  unfoldable pub get_hashes_for : String → ℕ → ℕ → ℕ → List HashShard
  get_hashes_for addr index zero seed = []
  get_hashes_for addr index (suc n) seed =
      record { uhash = wyhash addr seed; shard_index = index }
      ∷ get_hashes_for addr index n (wyhash "anything" seed)

  -- the loop over the new peers, from the index `ix`
  unfoldable pub hashes_of : ℕ → ℕ → List DetShard → List HashShard
  unfolding get_hashes_for get_address
  hashes_of per ix [] = []
  hashes_of per ix (d ∷ ds) =
      get_hashes_for (get_address d) ix per peer_seed ++ hashes_of per (ix + 1) ds

  unfoldable pub parse_peers : List String → Option (List DetShard)
  parse_peers [] = some []
  parse_peers (p ∷ ps) =
      let rest = parse_peers ps in
      elim (parse p) [ none ↦ none | some d ↦ elim rest [ none ↦ none | some ds ↦ some (d ∷ ds) ] ]

  -- the sharder once the new peers are known
  unfoldable pub loaded : DeterministicSharder → List DetShard → DeterministicSharder
  unfolding shards_equal hashes_of partitions_per_peer less
  loaded s ds =
      let new_peers = sort_shards less ds in
      let hashes = hashes_of (partitions_per_peer (length ds)) 0 new_peers in
      if shards_equal s.peers new_peers
      then s
      else record { peers = new_peers; hashes = sort_hashes (λ a b. ltb a.uhash b.uhash) hashes }

  -- `loadPeerList`, with what `GetPeers` answers; none is an error, which changes nothing
  unfoldable pub load_peer_list :
      DeterministicSharder → Option (List String) → Option DeterministicSharder
  unfolding parse_peers loaded
  load_peer_list s none = none
  load_peer_list s (some []) = none
  load_peer_list s (some (p ∷ ps)) = elim (parse_peers (p ∷ ps)) [
    | none ↦ none
    | some ds ↦ some (loaded s ds)
  ]
