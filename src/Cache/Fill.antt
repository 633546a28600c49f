-- ===== src/Cache/Fill.antt =====
-- Laws of moving traces into a new ring by `Set` (collect/cache/cache.go).
use tracing_proxy.Base.{
  ℕ, ◌+◌, ◌≤◌, ◌<◌, ◌≡◌, ◌≢◌, refl, ap, List, [], ◌∷◌, Option, none, some, arith, length,
  length-set, length-replicate, get_or-replicate, subst, ℕ_discrete,
}
use native.Mathlib.Nat.{add-zero}
use tracing_proxy.Base.Dict.{lookup}
use tracing_proxy.Base.All.{All, All-zip, All-always, Apart, list_sum}
use tracing_proxy.Cache.{Heap, Ring, slot, set_trace, set_each, looped, new_in_mem_cache, ring_size}
use tracing_proxy.Cache.Valid
use tracing_proxy.Cache.Valid.{new_in_mem_cache-IsValid}
use tracing_proxy.Cache.Insert.{set_trace-IsValid, lookup-set_trace, slot-set_trace}
use tracing_proxy.Cache.Held.{held_sum, at_slot, held_sum-set, held_sum-replicate}

-- A ring whose first `k` places have been filled.
pub record IsFilling (h : Heap) (d : Ring) (k : ℕ) : Type 0 where
  pub valid : Valid.IsValid h d
  pub here : d.insert_point ≡ k
  pub free : (i : ℕ) → k ≤ i → slot d.insertion_order i ≡ none

-- The trace is not in the ring.
abbrev pub IsNew : Heap → Ring → ℕ → Type 0
IsNew h d r = lookup (h r).trace_id d.cache ≡ none

abbrev pub OtherId : Heap → ℕ → ℕ → Type 0
OtherId h r s = (h r).trace_id ≢ (h s).trace_id

pub new-IsFilling : (h : Heap) (capacity : ℕ) → IsFilling h (new_in_mem_cache capacity) 0
unfolding new_in_mem_cache
new-IsFilling h capacity = record {
  valid = new_in_mem_cache-IsValid h capacity;
  here = refl;
  free = λ i _. get_or-replicate {A = Option ℕ} (ring_size capacity) i none;
}

module _ (h : Heap) (d : Ring) (k r : ℕ) (v : IsFilling h d k) (room : k < length d.insertion_order)
    (new : IsNew h d r) where
  looped-here : looped d ≡ k
  unfolding looped
  looped-here = ground (arith, v.here)

  free_here : slot d.insertion_order (looped d) ≡ none
  free_here = v.free (looped d) (omega (arith, looped-here))

  set-IsFilling : IsFilling h (set_trace h d r).0 (k + 1)
  unfolding set_trace
  set-IsFilling = record {
    valid = set_trace-IsValid h d r v.valid new;
    here = omega (arith, looped-here);
    free = λ i le. ground (arith, looped-here, slot-set_trace h d r v.valid i, v.free i);
  }

  set-IsNew : (s : ℕ) → OtherId h r s → IsNew h d s → IsNew h (set_trace h d r).0 s
  set-IsNew s other n =
      ground (arith, lookup-set_trace h d r v.valid new (h s).trace_id (λ o e f. cc (free_here)))

  held_sum-set_trace :
      (f : ℕ → ℕ)
      → held_sum f (set_trace h d r).0.insertion_order ≡ held_sum f d.insertion_order + f r
  unfolding set_trace
  held_sum-set_trace f = omega (
    arith,
    held_sum-set f d.insertion_order (looped d) (some r) (omega (arith, looped-here)),
    ap (at_slot f) free_here,
  )

  length-set_trace : length (set_trace h d r).0.insertion_order ≡ length d.insertion_order
  unfolding set_trace
  length-set_trace = length-set d.insertion_order (looped d) (some r)

  All-set_trace :
      (P : ℕ → Type 0)
      → P r
      → ((i q : ℕ) → slot d.insertion_order i ≡ some q → P q)
      → (i q : ℕ) → slot (set_trace h d r).0.insertion_order i ≡ some q
      → P q
  All-set_trace P own old i q e = elim (ℕ_discrete (looped d) i) [
    | yes p ↦ subst P (ground (arith, slot-set_trace h d r v.valid i)) own
    | no p ↦ old i q (ground (arith, slot-set_trace h d r v.valid i))
  ]

-- A loop of `Set` into a ring with room for all: the ring then holds what it held and the list.
pub set_each-IsFilling :
    (h : Heap) (d : Ring) (k : ℕ) (rs : List ℕ)
    → IsFilling h d k
    → k + length rs ≤ length d.insertion_order
    → All (IsNew h d) rs
    → Apart (OtherId h) rs
    → IsFilling h (set_each h d rs) (k + length rs)
      × ((f : ℕ → ℕ)
          → held_sum f (set_each h d rs).insertion_order
            ≡ held_sum f d.insertion_order + list_sum f rs)
      × ((P : ℕ → Type 0)
          → All P rs
          → ((i q : ℕ) → slot d.insertion_order i ≡ some q → P q)
          → (i q : ℕ) → slot (set_each h d rs).insertion_order i ≡ some q
          → P q)
unfolding set_each
set_each-IsFilling h d k [] v room new apart = (rw add-zero v, λ f. omega arith, λ P own old. old)
set_each-IsFilling h d k (r ∷ rs) v room new apart =
    let room' : k < length d.insertion_order = omega arith in
    let d' = (set_trace h d r).0 in
    let (filled, sums, all) =
      set_each-IsFilling h d' (k + 1) rs (set-IsFilling h d k r v room' new.0)
        (omega (arith, length-set_trace h d k r v room' new.0))
        (All-zip rs (set-IsNew h d k r v room' new.0) apart.0 new.1) apart.1 in
    (
      subst (IsFilling h (set_each h d' rs)) (omega arith) filled,
      λ f. omega (arith, sums f, held_sum-set_trace h d k r v room' new.0 f),
      λ P own old. all P own.1 (All-set_trace h d k r v room' new.0 P own.0 old),
    )

-- A new ring of enough capacity takes the whole list.
pub set_each-new :
    (h : Heap) (capacity : ℕ) (rs : List ℕ)
    → length rs ≤ ring_size capacity
    → Apart (OtherId h) rs
    → let d = set_each h (new_in_mem_cache capacity) rs in
      Valid.IsValid h d
      × ((f : ℕ → ℕ) → held_sum f d.insertion_order ≡ list_sum f rs)
      × ((P : ℕ → Type 0) → All P rs → (i q : ℕ) → slot d.insertion_order i ≡ some q → P q)
unfolding new_in_mem_cache lookup
set_each-new h capacity rs room apart =
    let n = ring_size capacity in
    let (filled, sums, all) =
      set_each-IsFilling h (new_in_mem_cache capacity) 0 rs (new-IsFilling h capacity)
        (omega (arith, length-replicate {A = Option ℕ} n none)) (All-always rs (λ r. refl)) apart in
    (
      filled.valid,
      λ f. omega (arith, sums f, held_sum-replicate f n),
      λ P own. all P own (λ i q e. absurd (cc (get_or-replicate {A = Option ℕ} n i none))),
    )
