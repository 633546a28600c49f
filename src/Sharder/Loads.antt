-- ===== src/Sharder/Loads.antt =====
-- Laws of `loadPeerList` in sharder/deterministic.go.
use tracing_proxy.Base.{
  ℕ, zero, suc, ◌+◌, ◌<◌, ◌≤◌, ◌≡◌, inl, inr, sym, ap, subst, ◌∙◌, String, List, [], ◌∷◌, ◌++◌,
  Option, none, some, Bool, true, arith, ltb, Bool-cases, length, Option-cases,
}
use tracing_proxy.Base.All.{All, IsPermutation, permute-All, length-permute}
use tracing_proxy.Sharder.{DetShard, shards_equal, less, get_address}
use tracing_proxy.Sharder.Peers.{
  HashShard, DeterministicSharder, Calls, get_hashes_for, hashes_of, parse_peers, loaded,
  load_peer_list, partitions_per_peer, peer_seed,
}
use tracing_proxy.Sharder.Chooses.{Fits, IsReady, shards_equal_iff}

-- What the package sort documents: the same elements, in some order.
pub record Sorting (C : Calls) : Type 0 where
  pub shards :
      (before : DetShard → DetShard → Bool) (ds : List DetShard)
      → IsPermutation ds (C.sort_shards before ds)
  pub hashes :
      (before : HashShard → HashShard → Bool) (hs : List HashShard)
      → IsPermutation hs (C.sort_hashes before hs)

All-append : {A : Type 0} (P : A → Type 0) (xs ys : List A) → All P xs → All P ys → All P (xs ++ ys)
All-append P [] ys h k = k
All-append P (x ∷ xs) ys h k = (h.0, All-append P xs ys h.1 k)

module _ (C : Calls) where
  get_hashes_for-All :
      (addr : String) (index n seed m : ℕ)
      → index < m
      → All (λ h. h.shard_index < m) (get_hashes_for C addr index n seed)
  unfolding get_hashes_for
  get_hashes_for-All addr index zero seed m h = tt
  get_hashes_for-All addr index (suc n) seed m h =
      (h, get_hashes_for-All addr index n (C.wyhash "anything" seed) m h)

  hashes_of-All :
      (per ix m : ℕ) (ds : List DetShard)
      → ix + length ds ≤ m
      → All (λ h. h.shard_index < m) (hashes_of C per ix ds)
  unfolding hashes_of
  hashes_of-All per ix m [] h = tt
  hashes_of-All per ix m (d ∷ ds) h =
      All-append (λ x. x.shard_index < m) (get_hashes_for C (get_address d) ix per peer_seed)
        (hashes_of C per (ix + 1) ds)
        (get_hashes_for-All (get_address d) ix per peer_seed m (omega (arith, h)))
        (hashes_of-All per (ix + 1) m ds (omega (arith, h)))

  parse_peers-length :
      (ps : List String) (ds : List DetShard) → parse_peers C ps ≡ some ds → length ds ≡ length ps
  unfolding parse_peers
  parse_peers-length [] ds e = ground (arith, e)
  parse_peers-length (p ∷ ps) ds e = elim (Option-cases (C.parse p)) [
    | inl n ↦ absurd (cc (e, n))
    | inr (d, parsed) ↦ elim (Option-cases (parse_peers C ps)) [
      | inl n ↦ absurd (cc (e, parsed, n))
      | inr (ds', rest) ↦
          let same : d ∷ ds' ≡ ds = ground (arith, e, parsed, rest) in
          ap (λ (xs : List DetShard). length xs) (sym same)
          ∙ ap suc (parse_peers-length ps ds' rest)
    ]
  ]

  module _ (sorting : Sorting C) (s : DeterministicSharder) (fit : Fits s) where
    module _ (ds : List DetShard) (pos : 0 < length ds) where
      abbrev new_peers : List DetShard
      new_peers = C.sort_shards less ds

      new_peers-length : length ds ≡ length new_peers
      new_peers-length = length-permute (sorting.shards less ds)

      unchanged-IsReady : shards_equal s.peers new_peers ≡ true → IsReady s
      unchanged-IsReady e = record {
        some_peer = omega (
          arith,
          pos,
          new_peers-length,
          ap (λ (xs : List DetShard). length xs) ((shards_equal_iff s.peers new_peers).0 e),
        );
        fit = fit;
      }

      loaded-IsReady : IsReady (loaded C s ds)
      unfolding loaded
      loaded-IsReady = elim (Bool-cases (shards_equal s.peers new_peers)) [
        | inl e ↦ rw (e, loaded) (unchanged-IsReady e)
        | inr e ↦
            rw (e, loaded)
              (record {
                some_peer = omega (arith, pos, new_peers-length);
                fit =
                    permute-All (λ h. h.shard_index < length new_peers)
                      (sorting.hashes (λ a b. ltb a.uhash b.uhash)
                        (hashes_of C (partitions_per_peer (length ds)) 0 new_peers))
                      (hashes_of-All (partitions_per_peer (length ds)) 0 (length new_peers)
                        new_peers (omega arith));
              })
      ]

    -- If the sorts permute and every partition of the sharder has the index of one of its
    -- peers, as for a sharder without any: when `loadPeerList` answers no error, there is a
    -- peer and every partition has the index of a peer.
    pub load_peer_list-IsReady :
        (answer : Option (List String)) (s' : DeterministicSharder)
        → load_peer_list C s answer ≡ some s'
        → IsReady s'
    unfolding load_peer_list
    load_peer_list-IsReady none s' e = absurd (cc (e))
    load_peer_list-IsReady (some []) s' e = absurd (cc (e))
    load_peer_list-IsReady (some (p ∷ ps)) s' e = elim (Option-cases (parse_peers C (p ∷ ps))) [
      | inl n ↦ absurd (cc (e, n))
      | inr (ds, parsed) ↦
          let same : loaded C s ds ≡ s' = ground (arith, e, parsed) in
          subst IsReady same
            (loaded-IsReady ds (omega (arith, parse_peers-length (p ∷ ps) ds parsed)))
    ]
