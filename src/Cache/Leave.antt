-- ===== src/Cache/Leave.antt =====
-- Laws of `TakeExpiredTraces` and `RemoveTraces` in collect/cache/cache.go.
use tracing_proxy.Base.{
  ◌≡◌, refl, ◌∙◌, ℕ, String, List, [], ◌∷◌, Option, none, some, Bool, true, false, not, arith,
  filter, inl, inr, Option-cases, Bool-cases,
}
use tracing_proxy.Base.Dict.{lookup, delete}
use tracing_proxy.Cache.{
  Heap, Ring, get, get_all, present, sweep, is_expired, is_key, take_expired_traces, remove_traces,
}
use tracing_proxy.Cache.Sweep.{sweep-taken, lookup-sweep_absent, lookup-sweep_taken}
use tracing_proxy.Cache.Valid.{IsValid, survivor-stored}

-- What is found, unless the test takes it.
abbrev pub unless : (ℕ → Bool) → Option ℕ → Option ℕ
unless test none = none
unless test (some r) = elim (test r) [ true ↦ none | false ↦ some r ]

present-sweep :
    (h : Heap) (test : ℕ → Bool) (io : List (Option ℕ)) (cache : List (String × ℕ))
    → present (sweep h test io cache).order ≡ filter (λ r. not (test r)) (present io)
unfolding sweep present
present-sweep h test [] cache = refl
present-sweep h test (none ∷ io) cache = present-sweep h test io cache
present-sweep h test (some r ∷ io) cache =
    ground
      (arith, present-sweep h test io cache, present-sweep h test io (delete (h r).trace_id cache))

module _ (h : Heap) (test : ℕ → Bool) (d : Ring) (v : IsValid h d) where
  lookup-sweep :
      (k : String)
      → lookup k (sweep h test d.insertion_order d.cache).kept ≡ unless test (lookup k d.cache)
  lookup-sweep k = elim (Option-cases (lookup k d.cache)) [
    | inl e ↦ lookup-sweep_absent h test d.insertion_order d.cache k e ∙ ground (arith, e)
    | inr (r, e) ↦
        let (i, here, own) = v.held k r e in
        elim (Bool-cases (test r)) [
          | inl t ↦
              ground (arith, e, own, lookup-sweep_taken h test d.insertion_order d.cache k i r here)
          | inr t ↦ ground (arith, e, own, survivor-stored h test d v i r here t)
        ]
  ]

module _ (h : Heap) (d : Ring) (v : IsValid h d) where
  -- In a consistent ring `TakeExpiredTraces` answers the traces whose deadline has passed, in
  -- the order of the ring, leaves the others in that order, and `Get` finds from then on what
  -- it found before, the traces taken excepted.
  pub take_expired_traces-Leaves :
      (now : ℕ)
      → let (d', taken) = take_expired_traces h now d in
        (taken ≡ filter (is_expired h now) (get_all d))
        × (get_all d' ≡ filter (λ r. not (is_expired h now r)) (get_all d))
        × ((k : String) → get d' k ≡ unless (is_expired h now) (get d k))
  unfolding take_expired_traces get_all get
  take_expired_traces-Leaves now = (
    sweep-taken h (is_expired h now) d.insertion_order d.cache,
    present-sweep h (is_expired h now) d.insertion_order d.cache,
    lookup-sweep h (is_expired h now) d v,
  )

  -- In a consistent ring `RemoveTraces` leaves the traces whose IDs are not in the set, in
  -- the order of the ring, and `Get` finds from then on what it found before, those removed
  -- excepted.
  pub remove_traces-Leaves :
      (to_delete : List (String × Unit {0}))
      → let d' = remove_traces h to_delete d in
        let removed = λ (r : ℕ). is_key to_delete (h r).trace_id in
        (get_all d' ≡ filter (λ r. not (removed r)) (get_all d))
        × ((k : String) → get d' k ≡ unless removed (get d k))
  unfolding remove_traces get_all get
  remove_traces-Leaves to_delete =
      let removed = λ (r : ℕ). is_key to_delete (h r).trace_id in
      (present-sweep h removed d.insertion_order d.cache, lookup-sweep h removed d v)
