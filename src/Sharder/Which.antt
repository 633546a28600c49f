-- ===== src/Sharder/Which.antt =====
-- `WhichShard` of sharder/deterministic.go. SHA-1, of which four bytes are read, is a parameter. A
-- division by zero and an index out of range, at which the code panics, are none.
use Prim.Native.String.{◌++◌}
use tracing_proxy.Base.{
  ℕ, ◌/◌, ◌%◌, String, List, [], ◌∷◌, Option, none, some, true, false, ltb, leb, ◌==◌, length,
  get_elem?, if◌then◌else◌, same_text, ◌||◌,
}
use tracing_proxy.Sharder.{DetShard}
use tracing_proxy.Sharder.Peers.{HashShard, DeterministicSharder, Strategy}

abbrev pub sharding_salt : String
sharding_salt = "gf4LqTwcJ6PEj2vO"

abbrev pub max_uint32 : ℕ
max_uint32 = 4294967295

abbrev pub uint32_mod : ℕ
uint32_mod = 4294967296

-- the strategy that `Start` chooses; none is an error
unfoldable pub strategy_of : String → Option Strategy
unfolding same_text
strategy_of name =
    if same_text name "legacy" || same_text name ""
    then some Strategy.legacy
    else if same_text name "hash"
    then some Strategy.hash
    else none

-- `uint32(portion)`
unfoldable pub portion : ℕ → ℕ
portion n = max_uint32 / n % uint32_mod

unfoldable pub legacy_index : ℕ → ℕ → ℕ
unfolding portion
legacy_index n v = let index = v / portion n in if leb (n % uint32_mod) index then 0 else index

-- `sha1` answers the first four bytes of the sum, read as a number.
unfoldable pub which_shard_legacy : (String → ℕ) → DeterministicSharder → String → Option DetShard
unfolding portion legacy_index
which_shard_legacy sha1 s trace_id =
    let n = length s.peers in
    if n == 0 || portion n == 0
    then none
    else get_elem? s.peers (legacy_index n (sha1 (trace_id ++ sharding_salt)))

-- the loop of `WhichShardHashed`: the best index and its hash
unfoldable pub best_shard : (String → ℕ → ℕ) → String → ℕ → ℕ → List HashShard → ℕ × ℕ
best_shard wyhash tid bestix max_hash [] = (bestix, max_hash)
best_shard wyhash tid bestix max_hash (h ∷ hs) = elim (ltb max_hash (wyhash tid h.uhash)) [
  | true ↦ best_shard wyhash tid h.shard_index (wyhash tid h.uhash) hs
  | false ↦ best_shard wyhash tid bestix max_hash hs
]

unfoldable pub which_shard_hashed :
    (String → ℕ → ℕ) → DeterministicSharder → String → Option DetShard
unfolding best_shard
which_shard_hashed wyhash s trace_id = get_elem? s.peers (best_shard wyhash trace_id 0 0 s.hashes).0

unfoldable pub which_shard :
    (String → ℕ) → (String → ℕ → ℕ) → Strategy → DeterministicSharder → String → Option DetShard
unfolding which_shard_legacy which_shard_hashed
which_shard sha1 wyhash Strategy.legacy s trace_id = which_shard_legacy sha1 s trace_id
which_shard sha1 wyhash Strategy.hash s trace_id = which_shard_hashed wyhash s trace_id
