-- ===== src/Collect/Overrun.antt =====
-- Laws of `oldCheckAlloc` in collect/collect.go, as a split of the cache.
use tracing_proxy.Base.{
  ℕ, ◌-◌, ◌≡◌, ◌≢◌, ◌<◌, refl, sym, ap, ◌∙◌, List, [], ◌∷◌, Option, none, some, Bool, true, false,
  arith, take, drop, length, length-drop, ltb, if-cases, String,
}
use tracing_proxy.Base.All.{
  Apart-map, Distinct, take-All, drop-All, take-Apart, drop-Apart, list_sum-cut, cut-Apart_before,
  IsPermutation, permute-All, permute-Apart, list_sum-permute, length-permute,
}
use tracing_proxy.Cache.{
  Heap, Ring, slot, present, set_trace, set_each, new_in_mem_cache, ring_size, get_all, looped,
  expunge,
}
use tracing_proxy.Base.Dict.{insert, delete}
use tracing_proxy.Cache.Present.{present-All, present-Distinct, present-OtherId, held_sum-present}
use tracing_proxy.Cache.Fill.{OtherId}
use tracing_proxy.Types.{Trace, Header}
use tracing_proxy.Collect.State.{Config, SamplerFactory, TraceSentCache, Collector}
use tracing_proxy.Collect.Send.{Reason, send, ejected_memsize}
use tracing_proxy.Collect.Sent.{send-trace_id}
use tracing_proxy.Collect.Weight.{weight}
use tracing_proxy.Collect.Loop.{Sort, send_each, shrink, nine_tenths, old_check_alloc}
use tracing_proxy.Collect.Invariant.{IsLive}
use tracing_proxy.Collect.Conserve.{total}
use tracing_proxy.Collect.Move.{IsSplit, split, split-IsLive, total-split, with_ring}

-- What `sort.Slice` promises: the same elements, in some order.
abbrev pub Sorts : Sort → Type 0
Sorts sort = (less : ℕ → ℕ → Bool) (xs : List ℕ) → IsPermutation xs (sort less xs)

expunge-heap :
    (h h' : Heap) (old : Option ℕ) (cache : List (String × ℕ))
    → ((q : ℕ) → (h' q).trace_id ≡ (h q).trace_id)
    → expunge h' old cache ≡ expunge h old cache
unfolding expunge
expunge-heap h h' none cache same = refl
expunge-heap h h' (some o) cache same = ap (λ k. delete k cache) (same o)

set_trace-heap :
    (h h' : Heap) (d : Ring) (r : ℕ)
    → ((q : ℕ) → (h' q).trace_id ≡ (h q).trace_id)
    → (set_trace h' d r).0 ≡ (set_trace h d r).0
unfolding set_trace
set_trace-heap h h' d r same =
    ap (λ (m : List (String × ℕ)). record (set_trace h d r).0 { cache = m })
      (expunge-heap h h' (slot d.insertion_order (looped d)) (insert (h' r).trace_id r d.cache) same
        ∙ ap (λ (k : String). expunge h (slot d.insertion_order (looped d)) (insert k r d.cache))
            (same r))

-- `Set` looks only at the IDs of the traces.
set_each-heap :
    (h h' : Heap) (d : Ring) (rs : List ℕ)
    → ((q : ℕ) → (h' q).trace_id ≡ (h q).trace_id)
    → set_each h' d rs ≡ set_each h d rs
unfolding set_each
set_each-heap h h' d [] same = refl
set_each-heap h h' d (r ∷ rs) same =
    set_each-heap h h' (set_trace h' d r).0 rs same
    ∙ ap (λ d'. set_each h d' rs) (set_trace-heap h h' d r same)

module _ (F : SamplerFactory) (T : TraceSentCache) (sort : Sort) (sorts : Sorts sort)
    (cfg : Config) where
  open F use {Sampler}
  open T use {Sent}

  pub send_each-trace_id :
      (reason : Trace → Reason) (c : Collector Sampler Sent) (rs : List ℕ) (q : ℕ)
      → ((send_each F T sort cfg reason c rs).heap q).trace_id ≡ (c.heap q).trace_id
  unfolding send_each
  send_each-trace_id reason c [] q = refl
  send_each-trace_id reason c (r ∷ rs) q =
      send_each-trace_id reason (send F T cfg c r (reason (c.heap r))) rs q
      ∙ send-trace_id F T cfg c r (reason (c.heap r)) q

  module _ (c : Collector Sampler Sent) (v : IsLive c) where
    abbrev traces : List ℕ
    traces = present c.ring.insertion_order

    abbrev order : List ℕ
    order = sort (λ a b. ltb (c.heap a).send_by (c.heap b).send_by) traces

    abbrev ordered : IsPermutation traces order
    ordered = sorts (λ a b. ltb (c.heap a).send_by (c.heap b).send_by) traces

    abbrev new_cap : ℕ
    new_cap = nine_tenths (length traces)

    abbrev excess : ℕ
    excess = length order - new_cap

    order-Distinct : Distinct order
    order-Distinct =
        permute-Apart (λ x y. x ≢ y) (λ x y ne p. ne (sym p)) ordered
          (present-Distinct c.heap c.ring v.valid)

    shrink-IsSplit : IsSplit c new_cap (drop excess order) (take excess order)
    unfolding ring_size
    shrink-IsSplit = record {
      room = ground (arith, length-drop excess order, length-permute ordered);
      ids = drop-Apart (OtherId c.heap) excess order (
          permute-Apart (OtherId c.heap) (λ x y ne p. ne (sym p)) ordered
            (present-OtherId c.heap c.ring v.valid));
      kept_unsent =
          drop-All (λ r. (c.heap r).sent ≡ false) excess order
            (permute-All (λ r. (c.heap r).sent ≡ false) ordered
              (present-All c.ring.insertion_order v.unsent));
      kept_allocated =
          drop-All (λ r. r < c.next) excess order
            (permute-All (λ r. r < c.next) ordered
              (present-All c.ring.insertion_order v.allocated));
      sent_distinct = take-Apart (λ x y. x ≢ y) excess order order-Distinct;
      sent_unsent =
          take-All (λ r. (c.heap r).sent ≡ false) excess order
            (permute-All (λ r. (c.heap r).sent ≡ false) ordered
              (present-All c.ring.insertion_order v.unsent));
      apart =
          cut-Apart_before (λ r q. q ≢ r) excess order
            (Apart-map order (λ x y ne p. ne (sym p)) order-Distinct);
    }

    shrink-split :
        shrink F T sort cfg c
        ≡ split F T sort cfg c new_cap
            (drop excess order)
            (take excess order)
            shrink-IsSplit
            (λ _. ejected_memsize)
    unfolding shrink get_all
    shrink-split =
        let c' = send_each F T sort cfg (λ _. ejected_memsize) c (take excess order) in
        ap (with_ring F T sort cfg c') (
          set_each-heap c.heap c'.heap (new_in_mem_cache new_cap) (drop excess order)
            (send_each-trace_id (λ _. ejected_memsize) c (take excess order)))

    old_check_alloc-cases :
        (P : Collector Sampler Sent → Type 0) (alloc : ℕ)
        → P c
        → P (shrink F T sort cfg c)
        → P (old_check_alloc F T sort cfg alloc c)
    unfolding old_check_alloc
    old_check_alloc-cases P alloc = if-cases P _ c (shrink F T sort cfg c)

    -- If `sort.Slice` permutes, `oldCheckAlloc` keeps `IsLive`, at any allocation: the
    -- shrunk cache holds the traces that it does not send.
    pub old_check_alloc-IsLive : (alloc : ℕ) → IsLive (old_check_alloc F T sort cfg alloc c)
    old_check_alloc-IsLive alloc = old_check_alloc-cases IsLive alloc v (
        rw shrink-split (
          split-IsLive F T sort cfg c new_cap (drop excess order) (take excess order) shrink-IsSplit
            (λ _. ejected_memsize)))

    total-shrink :
        (w : Header → ℕ) → cfg.is_dry_run ≡ true → total w (shrink F T sort cfg c) ≡ total w c
    total-shrink w dry =
        let f = λ (r : ℕ). weight w (c.heap r).spans in
        ap (total w) shrink-split
        ∙ omega (
          arith,
          total-split F T sort cfg c new_cap (drop excess order) (take excess order) shrink-IsSplit
              (λ _. ejected_memsize) w dry,
          list_sum-cut f excess order,
          list_sum-permute f ordered,
          held_sum-present f c.ring.insertion_order,
        )

    -- If `sort.Slice` permutes, from a collector that satisfies `IsLive` and in a dry run,
    -- `oldCheckAlloc` keeps the weight of the live and the handed-on spans: each trace goes
    -- into the shrunk cache or is handed on.
    pub total-old_check_alloc :
        (w : Header → ℕ) (alloc : ℕ)
        → cfg.is_dry_run ≡ true
        → total w (old_check_alloc F T sort cfg alloc c) ≡ total w c
    total-old_check_alloc w alloc dry =
        old_check_alloc-cases (λ c'. total w c' ≡ total w c) alloc refl (total-shrink w dry)
