-- ===== src/Sharder/Chooses.antt =====
-- The choice of a shard (sharder/deterministic.go): laws of `WhichShard`, its loop, and the equality of
-- peer lists.
use Prim.Native.String.{◌++◌}
use tracing_proxy.Base.{
  if◌then◌else◌, subst, sym, leb, ◌/◌, ◌%◌, ℕ, zero, suc, ◌<◌, ◌≤◌, ◌≡◌, ◌↔◌, ◌⊎◌, inl, inr, refl,
  String, List, [], ◌∷◌, some, true, false, arith, ltb, Bool-cases, length, get_elem?,
  same_text_iff,
}
use native.Mathlib.Nat.{le-div_iff_mul-le, div-le_self}
use tracing_proxy.Base.All.{Any, All}
use tracing_proxy.Sharder.{DetShard, shards_equal, equals, same_shard}
use tracing_proxy.Sharder.Peers.{HashShard, DeterministicSharder, Strategy}
use tracing_proxy.Sharder.Which.{
  which_shard_legacy, which_shard_hashed, which_shard, legacy_index, portion, best_shard,
  max_uint32, uint32_mod, sharding_salt,
}

-- `SortableShardList.Equals` answers true exactly if the two lists hold equal shards in the
-- same order.
pub shards_equal_iff : (ds os : List DetShard) → (shards_equal ds os ≡ true) ↔ (ds ≡ os)
unfolding shards_equal equals same_shard
shards_equal_iff [] [] = (λ _. refl, λ _. refl)
shards_equal_iff [] (o ∷ os) = (λ e. absurd (cc (e)), λ e. absurd (cc (e)))
shards_equal_iff (d ∷ ds) [] = (λ e. absurd (cc (e)), λ e. absurd (cc (e)))
shards_equal_iff (d ∷ ds) (o ∷ os) = ground (
  arith,
  shards_equal_iff ds os,
  same_text_iff d.scheme o.scheme,
  same_text_iff d.ip_or_host o.ip_or_host,
  same_text_iff d.port o.port,
)

-- Every index below the length of a list has an element.
get_elem?-some {ℓ} :
    {A : Type ℓ} (xs : List A) (i : ℕ) → i < length xs → (x : A) × (get_elem? xs i ≡ some x)
get_elem?-some [] i h = elim h [ ]
get_elem?-some (x ∷ xs) zero h = (x, refl)
get_elem?-some (x ∷ xs) (suc i) h = get_elem?-some xs i (omega (arith, h))

small_mod : (q : ℕ) → q ≤ max_uint32 → q % uint32_mod ≡ q
small_mod q h = omega (arith, h)

portion-pos : (n : ℕ) → 0 < n → n ≤ max_uint32 → 0 < portion n
unfolding portion
portion-pos n pos small = omega (
  arith,
  small_mod (max_uint32 / n) (div-le_self max_uint32 n),
  (le-div_iff_mul-le {k = n} {x = 1} {y = max_uint32} pos).1 (omega (arith, small)),
)

below_or_zero : (n i : ℕ) → 0 < n → (if leb n i then 0 else i) < n
below_or_zero n i pos = ground (arith, pos)

legacy_index-lt : (n v : ℕ) → 0 < n → n ≤ max_uint32 → legacy_index n v < n
unfolding legacy_index
legacy_index-lt n v pos small =
    subst (λ m. (if leb m (v / portion n) then 0 else v / portion n) < n) (sym (small_mod n small))
      (below_or_zero n (v / portion n) pos)

abbrev pub Fits : DeterministicSharder → Type 0
Fits s = All (λ h. h.shard_index < length s.peers) s.hashes

-- There is a peer, and every partition has the index of one.
pub record IsReady (s : DeterministicSharder) : Type 0 where
  pub some_peer : 0 < length s.peers
  pub fit : Fits s

best_shard-lt :
    (wyhash : String → ℕ → ℕ) (tid : String) (n bestix top : ℕ) (hs : List HashShard)
    → bestix < n
    → All (λ h. h.shard_index < n) hs
    → (best_shard wyhash tid bestix top hs).0 < n
unfolding best_shard
best_shard-lt wyhash tid n bestix top [] h fit = h
best_shard-lt wyhash tid n bestix top (x ∷ hs) h fit =
    elim (Bool-cases (ltb top (wyhash tid x.uhash))) [
      | inl e ↦
          rw (e, best_shard)
            (best_shard-lt wyhash tid n x.shard_index (wyhash tid x.uhash) hs fit.0 fit.1)
      | inr e ↦ rw (e, best_shard) (best_shard-lt wyhash tid n bestix top hs h fit.1)
    ]

-- An index and a hash no lower than any: those of the start or of a partition.
abbrev pub Highest : (String → ℕ → ℕ) → String → ℕ → ℕ → List HashShard → ℕ × ℕ → Type 0
Highest wyhash tid bestix top hs (ix, highest) =
    (top ≤ highest)
    × All (λ h. wyhash tid h.uhash ≤ highest) hs
    × (((ix ≡ bestix) × (highest ≡ top))
        ⊎ Any (λ h. (h.shard_index ≡ ix) × (wyhash tid h.uhash ≡ highest)) hs)

module _ (wyhash : String → ℕ → ℕ) (tid : String) where
  better :
      (bestix top : ℕ) (x : HashShard) (hs : List HashShard)
      → ltb top (wyhash tid x.uhash) ≡ true
      → best_shard wyhash tid bestix top (x ∷ hs)
        ≡ best_shard wyhash tid x.shard_index (wyhash tid x.uhash) hs
  unfolding best_shard
  better bestix top x hs e = rw (e, best_shard) refl

  no_better :
      (bestix top : ℕ) (x : HashShard) (hs : List HashShard)
      → ltb top (wyhash tid x.uhash) ≡ false
      → best_shard wyhash tid bestix top (x ∷ hs) ≡ best_shard wyhash tid bestix top hs
  unfolding best_shard
  no_better bestix top x hs e = rw (e, best_shard) refl

  -- The loop of `WhichShardHashed` answers a hash that is not below the hash of any
  -- partition, and the index and hash of one of the partitions, or those that it started
  -- with.
  pub best_shard-Highest :
      (bestix top : ℕ) (hs : List HashShard)
      → Highest wyhash tid bestix top hs (best_shard wyhash tid bestix top hs)
  unfolding best_shard
  best_shard-Highest bestix top [] = (omega arith, tt, inl (refl, refl))
  best_shard-Highest bestix top (x ∷ hs) = elim (Bool-cases (ltb top (wyhash tid x.uhash))) [
    | inl e ↦
        let (up, all, from) = best_shard-Highest x.shard_index (wyhash tid x.uhash) hs in
        subst (Highest wyhash tid bestix top (x ∷ hs)) (sym (better bestix top x hs e)) (
          ground (arith, e, up),
          (up, all),
          elim from [ inl (i, h) ↦ inr (inl (sym i, sym h)) | inr any ↦ inr (inr any) ],
        )
    | inr e ↦
        let (up, all, from) = best_shard-Highest bestix top hs in
        subst (Highest wyhash tid bestix top (x ∷ hs)) (sym (no_better bestix top x hs e)) (
          up,
          (ground (arith, e, up), all),
          elim from [ inl same ↦ inl same | inr any ↦ inr (inr any) ],
        )
  ]

-- If there is a peer and every partition has the index of a peer, and there are at most
-- 4294967295 peers, then with both strategies `WhichShard` answers a shard for every trace ID:
-- it does not divide by zero and reads no peer out of range, whatever SHA-1 and wyhash answer.
pub which_shard-some :
    (sha1 : String → ℕ) (wyhash : String → ℕ → ℕ) (strategy : Strategy) (s : DeterministicSharder)
    (trace_id : String)
    → IsReady s
    → length s.peers ≤ max_uint32
    → (d : DetShard) × (which_shard sha1 wyhash strategy s trace_id ≡ some d)
unfolding which_shard which_shard_legacy which_shard_hashed
which_shard-some sha1 wyhash Strategy.legacy s trace_id ready small =
    let n = length s.peers in
    let (d, e) =
      get_elem?-some s.peers _
        (legacy_index-lt n (sha1 (trace_id ++ sharding_salt)) ready.some_peer small) in
    (d, ground (arith, e, portion-pos n ready.some_peer small, ready.some_peer))
which_shard-some sha1 wyhash Strategy.hash s trace_id ready small =
    get_elem?-some s.peers _
      (best_shard-lt wyhash trace_id (length s.peers) 0 0 s.hashes ready.some_peer ready.fit)
