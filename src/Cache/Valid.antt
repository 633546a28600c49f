-- ===== src/Cache/Valid.antt =====
-- The invariant of the ring of collect/cache/cache.go, at a new ring and after a sweep.
use tracing_proxy.Base.{
  ℕ, ◌≤◌, ◌<◌, ◌≡◌, ◌∙◌, String, List, Option, none, some, Bool, false, arith, length,
  get_or-replicate, length-replicate,
}
use tracing_proxy.Base.Dict.{lookup}
use tracing_proxy.Cache.{
  ring_size, Heap, Ring, slot, sweep, new_in_mem_cache, take_expired_traces, remove_traces,
  is_expired, is_key,
}
use tracing_proxy.Cache.Sweep.{
  sweep-slot, length-sweep, Spares, lookup-sweep_spared, lookup-sweep_taken, lookup-sweep-some,
}

-- The map and the ring hold the same traces, each under its own ID and in one place.
pub record IsValid (h : Heap) (d : Ring) : Type 0 where
  pub room : 0 < length d.insertion_order
  pub point : d.insert_point ≤ length d.insertion_order
  pub stored :
      (i r : ℕ) → slot d.insertion_order i ≡ some r → lookup (h r).trace_id d.cache ≡ some r
  pub held :
      (k : String) (r : ℕ)
      → lookup k d.cache ≡ some r
      → (i : ℕ) × (slot d.insertion_order i ≡ some r) × ((h r).trace_id ≡ k)
  pub distinct :
      (i j r : ℕ) → slot d.insertion_order i ≡ some r → slot d.insertion_order j ≡ some r → i ≡ j

ring_size_pos : (capacity : ℕ) → 0 < ring_size capacity
unfolding ring_size
ring_size_pos capacity = ground arith

-- A new ring is consistent for every capacity, 0 included, which stands for the default.
pub new_in_mem_cache-IsValid : (h : Heap) (capacity : ℕ) → IsValid h (new_in_mem_cache capacity)
unfolding new_in_mem_cache lookup
new_in_mem_cache-IsValid h capacity = record {
  room =
      omega
        (arith, length-replicate {A = Option ℕ} (ring_size capacity) none, ring_size_pos capacity);
  point = omega arith;
  stored = λ i r e. absurd (cc (get_or-replicate {A = Option ℕ} (ring_size capacity) i none));
  held = λ k r e. absurd (cc);
  distinct = λ i j r e f. absurd (cc (get_or-replicate {A = Option ℕ} (ring_size capacity) i none));
}

module _ (h : Heap) (test : ℕ → Bool) (d : Ring) (v : IsValid h d) where
  abbrev swept : Ring
  swept =
      let s = sweep h test d.insertion_order d.cache in
      record d { cache = s.kept; insertion_order = s.order }

  Spares-survivor :
      (i r : ℕ)
      → slot d.insertion_order i ≡ some r
      → test r ≡ false
      → Spares h test d.insertion_order (h r).trace_id
  Spares-survivor i r e t j s f u q = ground (arith, v.stored i r e, v.stored j s f)

  -- A place that survives the sweep is one that the test leaves.
  survivor :
      (i r : ℕ)
      → slot swept.insertion_order i ≡ some r
      → (slot d.insertion_order i ≡ some r) × (test r ≡ false)
  survivor i r e = ground (arith, sweep-slot h test d.insertion_order d.cache i)

  pub survivor-stored :
      (i r : ℕ)
      → slot d.insertion_order i ≡ some r
      → test r ≡ false
      → lookup (h r).trace_id swept.cache ≡ some r
  survivor-stored i r e t =
      lookup-sweep_spared h test d.insertion_order d.cache (h r).trace_id (Spares-survivor i r e t)
      ∙ v.stored i r e

  survivor-held :
      (k : String) (r : ℕ)
      → lookup k swept.cache ≡ some r
      → (i : ℕ) × (slot swept.insertion_order i ≡ some r) × ((h r).trace_id ≡ k)
  survivor-held k r e =
      let (i, here, own) = v.held k r (lookup-sweep-some h test d.insertion_order d.cache k r e) in
      (
        i,
        ground (
          arith,
          sweep-slot h test d.insertion_order d.cache i,
          lookup-sweep_taken h test d.insertion_order d.cache k i r here,
        ),
        own,
      )

  swept-IsValid : IsValid h swept
  swept-IsValid = record {
    room = omega (arith, v.room, length-sweep h test d.insertion_order d.cache);
    point = omega (arith, v.point, length-sweep h test d.insertion_order d.cache);
    stored = λ i r e. let (f, t) = survivor i r e in survivor-stored i r f t;
    held = survivor-held;
    distinct = λ i j r e f. v.distinct i j r (survivor i r e).0 (survivor j r f).0;
  }

-- `TakeExpiredTraces` keeps the ring consistent.
pub take_expired-IsValid :
    (h : Heap) (now : ℕ) (d : Ring) → IsValid h d → IsValid h (take_expired_traces h now d).0
unfolding take_expired_traces
take_expired-IsValid h now d v = swept-IsValid h (is_expired h now) d v

-- `RemoveTraces` keeps the ring consistent.
pub remove_traces-IsValid :
    (h : Heap) (to_delete : List (String × Unit {0})) (d : Ring)
    → IsValid h d
    → IsValid h (remove_traces h to_delete d)
unfolding remove_traces
remove_traces-IsValid h to_delete d v = swept-IsValid h (λ r. is_key to_delete (h r).trace_id) d v
