-- ===== src/Sharder.antt =====
-- The shards of sharder/deterministic.go: their order, their equality and their addresses. The
-- children model the peer list, the choice of a shard, and what holds of it.
pub mod Peers
pub mod Which
pub mod Chooses
pub mod Loads
use Prim.Native.Nat.{Ordering}
use Prim.Native.String.{◌++◌, compare}
use tracing_proxy.Base.{
  ℕ, ◌≡◌, String, List, [], ◌∷◌, Option, none, some, Bool, true, false, ◌&&◌, not, if◌then◌else◌,
  same_text,
}

pub record DetShard : Type 0 where
  pub scheme : String
  pub ip_or_host : String
  pub port : String

-- The implementations of `Shard`: `SingleShard` is in sharder/single.go.
pub data Shard : Type 0 where
  det : DetShard → Shard
  single : String → Shard

-- `*d == *otherDetshard`
unfoldable pub same_shard : DetShard → DetShard → Bool
unfolding same_text
same_shard d o =
    same_text d.scheme o.scheme && same_text d.ip_or_host o.ip_or_host && same_text d.port o.port

unfoldable pub equals : DetShard → Shard → Bool
unfolding same_shard
equals d (det o) = same_shard d o
equals d (single _) = false

abbrev pub text_less : String → String → Bool
text_less a b = elim (compare a b) [ Ordering.lt ↦ true | _ ↦ false ]

unfoldable pub less : DetShard → DetShard → Bool
unfolding same_text
less a b =
    if not (same_text a.ip_or_host b.ip_or_host)
    then text_less a.ip_or_host b.ip_or_host
    else if not (same_text a.scheme b.scheme)
    then text_less a.scheme b.scheme
    else text_less a.port b.port

-- `SortableShardList.Equals`
unfoldable pub shards_equal : List DetShard → List DetShard → Bool
unfolding equals
shards_equal [] [] = true
shards_equal [] (o ∷ os) = false
shards_equal (d ∷ ds) [] = false
shards_equal (d ∷ ds) (o ∷ os) = equals d (det o) && shards_equal ds os

unfoldable pub get_address : DetShard → String
get_address d = d.scheme ++ "://" ++ d.ip_or_host ++ ":" ++ d.port
