-- ===== src/Cache/Insert.antt =====
-- Laws of `Set` in collect/cache/cache.go.
use tracing_proxy.Base.{
  ℕ, ◌<◌, ◌≡◌, ◌≢◌, refl, ◌∙◌, String, List, Option, none, some, arith, length, length-set,
  get_or-set_self, get_or-set_ne, text_discrete, ℕ_discrete, ite,
}
use tracing_proxy.Base.Dict.{lookup, lookup-delete, lookup-insert, insert}
use tracing_proxy.Cache.{Heap, Ring, slot, set_trace, looped, expunge}
use tracing_proxy.Cache.Valid.{IsValid}

module _ (h : Heap) (d : Ring) (r : ℕ) (v : IsValid h d) where
  pub looped-lt : looped d < length d.insertion_order
  unfolding looped
  looped-lt = ground (arith, v.room)

  pub slot-set_trace :
      (i : ℕ)
      → slot (set_trace h d r).0.insertion_order i
        ≡ ite (ℕ_discrete (looped d) i) (some r) (slot d.insertion_order i)
  unfolding set_trace
  slot-set_trace i = ground (
    arith,
    looped-lt,
    get_or-set_self d.insertion_order (looped d) (some r) none,
    get_or-set_ne d.insertion_order (looped d) i (some r) none,
  )

  lookup-expunge :
      (old : Option ℕ) (k : String) (cache : List (String × ℕ)) (q : ℕ)
      → lookup k (expunge h old cache) ≡ some q
      → (lookup k cache ≡ some q) × ((o : ℕ) → old ≡ some o → (h o).trace_id ≢ k)
  unfolding expunge
  lookup-expunge none k cache q e = (e, λ o f. absurd (cc))
  lookup-expunge (some o) k cache q e = (
    ground (arith, lookup-delete (h o).trace_id k cache),
    λ p f g. ground (arith, lookup-delete (h o).trace_id k cache),
  )

  lookup-expunge_spared :
      (old : Option ℕ) (k : String) (cache : List (String × ℕ))
      → ((o : ℕ) → old ≡ some o → (h o).trace_id ≢ k)
      → lookup k (expunge h old cache) ≡ lookup k cache
  unfolding expunge
  lookup-expunge_spared none k cache f = refl
  lookup-expunge_spared (some o) k cache f =
      ground (arith, lookup-delete (h o).trace_id k cache, f o refl)

  module _ (new : lookup (h r).trace_id d.cache ≡ none) where
    not_new : (i q : ℕ) → slot d.insertion_order i ≡ some q → (h q).trace_id ≢ (h r).trace_id
    not_new i q e f = ground (arith, v.stored i q e)

    cache-set_trace :
        (k : String)
        → lookup k (expunge h (slot d.insertion_order (looped d)) (insert (h r).trace_id r d.cache))
          ≡ lookup k (set_trace h d r).0.cache
    unfolding set_trace
    cache-set_trace k = refl

    pub lookup-set_trace :
        (k : String)
        → ((o : ℕ) → slot d.insertion_order (looped d) ≡ some o → (h o).trace_id ≢ k)
        → lookup k (set_trace h d r).0.cache
          ≡ ite (text_discrete (h r).trace_id k) (some r) (lookup k d.cache)
    unfolding set_trace
    lookup-set_trace k f =
        lookup-expunge_spared (slot d.insertion_order (looped d)) k
          (insert (h r).trace_id r d.cache) f
        ∙ lookup-insert (h r).trace_id k r d.cache

    survives :
        (i q : ℕ)
        → slot d.insertion_order i ≡ some q
        → looped d ≢ i
        → (o : ℕ) → slot d.insertion_order (looped d) ≡ some o
        → (h o).trace_id ≢ (h q).trace_id
    survives i q e p o here s =
        ground (arith, v.stored i q e, v.stored (looped d) o here, v.distinct (looped d) i q)

    set-stored :
        (i q : ℕ)
        → slot (set_trace h d r).0.insertion_order i ≡ some q
        → lookup (h q).trace_id (set_trace h d r).0.cache ≡ some q
    set-stored i q e = elim (ℕ_discrete (looped d) i) [
      | yes p ↦
          ground (arith, slot-set_trace i, lookup-set_trace (h r).trace_id (not_new (looped d)))
      | no p ↦
          let e' : slot d.insertion_order i ≡ some q = ground (arith, slot-set_trace i) in
          ground (
            arith,
            lookup-set_trace (h q).trace_id (survives i q e' p),
            not_new i q e',
            v.stored i q e',
          )
    ]

    set-held_old :
        (k : String) (q : ℕ)
        → lookup k d.cache ≡ some q
        → ((o : ℕ) → slot d.insertion_order (looped d) ≡ some o → (h o).trace_id ≢ k)
        → (i : ℕ) × (slot (set_trace h d r).0.insertion_order i ≡ some q) × ((h q).trace_id ≡ k)
    set-held_old k q e f =
        let (i, here, own) = v.held k q e in (i, ground (arith, slot-set_trace i, f q), own)

    set-held :
        (k : String) (q : ℕ)
        → lookup k (set_trace h d r).0.cache ≡ some q
        → (i : ℕ) × (slot (set_trace h d r).0.insertion_order i ≡ some q) × ((h q).trace_id ≡ k)
    set-held k q e =
        let (e', f) =
          lookup-expunge (slot d.insertion_order (looped d)) k (insert (h r).trace_id r d.cache) q
            (cache-set_trace k ∙ e) in
        elim (text_discrete (h r).trace_id k) [
          | yes p ↦ (
            looped d,
            ground (arith, slot-set_trace (looped d), lookup-insert (h r).trace_id k r d.cache),
            ground (arith, lookup-insert (h r).trace_id k r d.cache),
          )
          | no p ↦ set-held_old k q (ground (arith, lookup-insert (h r).trace_id k r d.cache)) f
        ]

    set-distinct :
        (i j q : ℕ)
        → slot (set_trace h d r).0.insertion_order i ≡ some q
        → slot (set_trace h d r).0.insertion_order j ≡ some q
        → i ≡ j
    set-distinct i j q e f =
        ground
          (arith, slot-set_trace i, slot-set_trace j, not_new i q, not_new j q, v.distinct i j q)

    -- `Set` of a trace whose ID is not in the map keeps the ring consistent: map and ring
    -- hold the same traces, each under its own ID and in one place.
    pub set_trace-IsValid : IsValid h (set_trace h d r).0
    unfolding set_trace
    set_trace-IsValid = record {
      room = omega (arith, v.room, length-set d.insertion_order (looped d) (some r));
      point = omega (arith, looped-lt, length-set d.insertion_order (looped d) (some r));
      stored = set-stored;
      held = set-held;
      distinct = set-distinct;
    }
