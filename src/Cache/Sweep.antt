-- ===== src/Cache/Sweep.antt =====
-- Laws of the sweep through the ring: which places it empties, and which keys it deletes.
use tracing_proxy.Base.{
  ℕ, zero, suc, ◌≡◌, ◌≢◌, refl, ap, String, List, [], ◌∷◌, Option, none, some, Bool, true, false,
  arith, length, filter,
}
use tracing_proxy.Base.Dict.{lookup, lookup-delete, delete}
use tracing_proxy.Cache.{Heap, slot, sweep, present}

-- A place that the test empties.
abbrev pub clear : (ℕ → Bool) → Option ℕ → Option ℕ
clear test none = none
clear test (some r) = elim (test r) [ true ↦ none | false ↦ some r ]

module _ (h : Heap) (test : ℕ → Bool) where
  pub sweep-slot :
      (io : List (Option ℕ)) (cache : List (String × ℕ)) (i : ℕ)
      → slot (sweep h test io cache).order i ≡ clear test (slot io i)
  unfolding sweep
  sweep-slot [] cache i = refl
  sweep-slot (none ∷ io) cache zero = refl
  sweep-slot (none ∷ io) cache (suc i) = sweep-slot io cache i
  sweep-slot (some r ∷ io) cache zero = ground arith
  sweep-slot (some r ∷ io) cache (suc i) =
      ground (arith, sweep-slot io cache i, sweep-slot io (delete (h r).trace_id cache) i)

  pub length-sweep :
      (io : List (Option ℕ)) (cache : List (String × ℕ))
      → length (sweep h test io cache).order ≡ length io
  unfolding sweep
  length-sweep [] cache = refl
  length-sweep (none ∷ io) cache = ap suc (length-sweep io cache)
  length-sweep (some r ∷ io) cache =
      ground (arith, length-sweep io cache, length-sweep io (delete (h r).trace_id cache))

  -- No trace that the test takes has the key.
  abbrev pub Spares : List (Option ℕ) → String → Type 0
  Spares io k = (i r : ℕ) → slot io i ≡ some r → test r ≡ true → (h r).trace_id ≢ k

  pub lookup-sweep_spared :
      (io : List (Option ℕ)) (cache : List (String × ℕ)) (k : String)
      → Spares io k
      → lookup k (sweep h test io cache).kept ≡ lookup k cache
  unfolding sweep
  lookup-sweep_spared [] cache k sp = refl
  lookup-sweep_spared (none ∷ io) cache k sp =
      lookup-sweep_spared io cache k (λ i r e t. sp (suc i) r e t)
  lookup-sweep_spared (some r ∷ io) cache k sp =
      let below = λ (i s : ℕ) (e : slot io i ≡ some s) (t : test s ≡ true). sp (suc i) s e t in
      ground (
        arith,
        lookup-sweep_spared io cache k below,
        lookup-sweep_spared io (delete (h r).trace_id cache) k below,
        lookup-delete (h r).trace_id k cache,
        sp 0 r refl,
      )

  pub lookup-sweep_absent :
      (io : List (Option ℕ)) (cache : List (String × ℕ)) (k : String)
      → lookup k cache ≡ none
      → lookup k (sweep h test io cache).kept ≡ none
  unfolding sweep
  lookup-sweep_absent [] cache k e = e
  lookup-sweep_absent (none ∷ io) cache k e = lookup-sweep_absent io cache k e
  lookup-sweep_absent (some r ∷ io) cache k e = ground (
    arith,
    lookup-sweep_absent io cache k e,
    lookup-sweep_absent io (delete (h r).trace_id cache) k,
    lookup-delete (h r).trace_id k cache,
  )

  pub lookup-sweep-some :
      (io : List (Option ℕ)) (cache : List (String × ℕ)) (k : String) (q : ℕ)
      → lookup k (sweep h test io cache).kept ≡ some q
      → lookup k cache ≡ some q
  unfolding sweep
  lookup-sweep-some [] cache k q e = e
  lookup-sweep-some (none ∷ io) cache k q e = lookup-sweep-some io cache k q e
  lookup-sweep-some (some r ∷ io) cache k q e = ground (
    arith,
    lookup-sweep-some io cache k q,
    lookup-sweep-some io (delete (h r).trace_id cache) k q,
    lookup-delete (h r).trace_id k cache,
  )

  pub lookup-sweep_taken :
      (io : List (Option ℕ)) (cache : List (String × ℕ)) (k : String) (i r : ℕ)
      → slot io i ≡ some r
      → test r ≡ true
      → (h r).trace_id ≡ k
      → lookup k (sweep h test io cache).kept ≡ none
  unfolding sweep
  lookup-sweep_taken [] cache k i r e t q = cc
  lookup-sweep_taken (none ∷ io) cache k zero r e t q = cc
  lookup-sweep_taken (none ∷ io) cache k (suc i) r e t q = lookup-sweep_taken io cache k i r e t q
  lookup-sweep_taken (some s ∷ io) cache k zero r e t q = ground (
    arith,
    lookup-sweep_absent io (delete (h s).trace_id cache) k,
    lookup-delete (h s).trace_id k cache,
  )
  lookup-sweep_taken (some s ∷ io) cache k (suc i) r e t q = ground (
    arith,
    lookup-sweep_taken io cache k i r e t q,
    lookup-sweep_taken io (delete (h s).trace_id cache) k i r e t q,
  )

  -- What is taken is what the test takes among the traces present, in their order.
  pub sweep-taken :
      (io : List (Option ℕ)) (cache : List (String × ℕ))
      → (sweep h test io cache).taken ≡ filter test (present io)
  unfolding sweep present
  sweep-taken [] cache = refl
  sweep-taken (none ∷ io) cache = sweep-taken io cache
  sweep-taken (some r ∷ io) cache =
      ground (arith, sweep-taken io cache, sweep-taken io (delete (h r).trace_id cache))
