-- ===== src/Collect/Heaviest.antt =====
-- Laws of `newCheckAlloc` in collect/collect.go.
use tracing_proxy.Base.{
  ℕ, ◌-◌, ◌*◌, ◌≡◌, ◌≢◌, refl, sym, subst, ap, ◌∙◌, List, [], some, Bool, true, false, arith, take,
  drop, ltb, if-cases, String, filter,
}
use tracing_proxy.Base.All.{
  All, All-always, list_sum-same, All-map, list_sum, take-All, take-Apart, list_sum-filter_cut,
  list_sum-filter_permute, IsPermutation, permute-All, permute-Apart,
}
use tracing_proxy.Base.Dict.{lookup}
use tracing_proxy.Cache.{Ring, slot, present, get_all, is_key, remove_traces}
use tracing_proxy.Cache.Held.{held_sum-same}
use tracing_proxy.Cache.Sweep.{sweep-slot, sweep-taken}
use tracing_proxy.Cache.Valid.{remove_traces-IsValid}
use tracing_proxy.Cache.Present.{present-All, present-Distinct, present-OtherId, held_sum-sweep}
use tracing_proxy.Types.{Header, cache_impact}
use tracing_proxy.Collect.State.{Config, SamplerFactory, TraceSentCache, Collector}
use tracing_proxy.Collect.Send.{ejected_memsize}
use tracing_proxy.Collect.Weight.{weight}
use tracing_proxy.Collect.Loop.{Sort, send_each, compared, eject, eject_heaviest, new_check_alloc}
use tracing_proxy.Collect.Flush.{
  send_each-IsLive, send_each-ring, weight-send_each, weight-send_each_heap,
}
use tracing_proxy.Collect.Invariant.{IsLive, IsLive-same, IsValid-heap}
use tracing_proxy.Collect.Conserve.{total}
use tracing_proxy.Collect.Move.{with_ring, send_each-with_ring}
use tracing_proxy.Collect.Process.{or_default, second}
use tracing_proxy.Collect.Ejected.{Ejected, eject-Ejected, compared-fields}
use tracing_proxy.Collect.Overrun.{Sorts, send_each-trace_id}

module _ (F : SamplerFactory) (T : TraceSentCache) (sort : Sort) (sorts : Sorts sort)
    (cfg : Config) where
  open F use {Sampler}
  open T use {Sent}

  -- A first part of the traces is sent, and those whose IDs are noted leave the ring.
  module _ (c : Collector Sampler Sent) (v : IsLive c) (order : List ℕ)
      (ordered : IsPermutation (present c.ring.insertion_order) order) (n : ℕ)
      (ids : List (String × Unit {0}))
      (ins : All (λ r. is_key ids (c.heap r).trace_id ≡ true) (take n order))
      (outs : All (λ r. is_key ids (c.heap r).trace_id ≡ false) (drop n order)) where
    abbrev ejected : Collector Sampler Sent
    ejected = send_each F T sort cfg (λ _. ejected_memsize) c (take n order)

    abbrev test : ℕ → Bool
    test r = is_key ids (ejected.heap r).trace_id

    abbrev rest : Ring
    rest = remove_traces ejected.heap ids c.ring

    same_id : (q : ℕ) → (ejected.heap q).trace_id ≡ (c.heap q).trace_id
    same_id = send_each-trace_id F T sort sorts cfg (λ _. ejected_memsize) c (take n order)

    same_test : (q : ℕ) → test q ≡ is_key ids (c.heap q).trace_id
    same_test q = ap (is_key ids) (same_id q)

    abbrev left : Collector Sampler Sent
    left = with_ring F T sort cfg ejected rest

    rest-slot :
        (i r : ℕ)
        → slot rest.insertion_order i ≡ some r
        → (slot c.ring.insertion_order i ≡ some r) × (test r ≡ false)
    unfolding remove_traces
    rest-slot i r e =
        ground (arith, sweep-slot ejected.heap test c.ring.insertion_order c.ring.cache i)

    rest-IsLive : IsLive (with_ring F T sort cfg c rest)
    rest-IsLive = record {
      valid =
          IsValid-heap ejected.heap c.heap rest (λ i r e. sym (same_id r))
            (remove_traces-IsValid ejected.heap ids c.ring
              (IsValid-heap c.heap ejected.heap c.ring (λ i r e. same_id r) v.valid));
      unsent = λ i r e. v.unsent i r (rest-slot i r e).0;
      allocated = λ i r e. v.allocated i r (rest-slot i r e).0;
    }

    left-IsLive : IsLive left
    left-IsLive =
        rw (send_each-with_ring F T sort cfg (λ _. ejected_memsize) c rest (take n order)) (
          send_each-IsLive F T sort cfg (λ _. ejected_memsize) (with_ring F T sort cfg c rest)
            (take n order) rest-IsLive
            (All-map (take n order) (λ r t i e. cc (t, same_test r, (rest-slot i r e).1)) ins))

    module _ (w : Header → ℕ) (dry : cfg.is_dry_run ≡ true) where
      abbrev f : ℕ → ℕ
      f r = weight w (ejected.heap r).spans

      same_weight : (r : ℕ) → f r ≡ weight w (c.heap r).spans
      same_weight = weight-send_each_heap F T sort cfg (λ _. ejected_memsize) w c (take n order)

      -- What the sweep takes weighs what was sent.
      swept_weight :
          list_sum f (filter test (present c.ring.insertion_order))
          ≡ list_sum (λ r. weight w (c.heap r).spans) (take n order)
      swept_weight =
          list_sum-filter_permute f test ordered
          ∙ list_sum-filter_cut f test n order (All-map (take n order) (λ r t. same_test r ∙ t) ins)
              (All-map (drop n order) (λ r t. same_test r ∙ t) outs)
          ∙ list_sum-same f (λ r. weight w (c.heap r).spans) (take n order)
              (All-always (take n order) same_weight)

      total-left : total w left ≡ total w c
      unfolding remove_traces
      total-left = omega (
        arith,
        held_sum-sweep ejected.heap test f c.ring.insertion_order c.ring.cache,
        ap (list_sum f) (sweep-taken ejected.heap test c.ring.insertion_order c.ring.cache),
        swept_weight,
        held_sum-same f (λ r. weight w (c.heap r).spans) c.ring.insertion_order
            (λ i r e. same_weight r),
        weight-send_each F T sort cfg (λ _. ejected_memsize) w c (take n order) dry
            (take-Apart (λ x y. x ≢ y) n order
              (permute-Apart (λ x y. x ≢ y) (λ x y ne p. ne (sym p)) ordered
                (present-Distinct c.heap c.ring v.valid)))
            (take-All (λ r. (c.heap r).sent ≡ false) n order
              (permute-All (λ r. (c.heap r).sent ≡ false) ordered
                (present-All c.ring.insertion_order v.unsent))),
      )

  module _ (now alloc : ℕ) (c : Collector Sampler Sent) (v : IsLive c) where
    abbrev timeout : ℕ
    timeout = or_default cfg.trace_timeout (60 * second)

    abbrev weighed : Collector Sampler Sent
    weighed = record c { heap = compared timeout now c.heap (present c.ring.insertion_order) }

    weighed-IsLive : IsLive weighed
    weighed-IsLive =
        IsLive-same c weighed refl refl
          (λ i r e.
            let (ids, sent, _) =
              compared-fields timeout now c.heap (present c.ring.insertion_order) r in
            (ids, sent))
          v

    total-weighed : (w : Header → ℕ) → total w weighed ≡ total w c
    total-weighed w = omega (
      arith,
      held_sum-same (λ r. weight w (weighed.heap r).spans) (λ r. weight w (c.heap r).spans)
          c.ring.insertion_order
          (λ i r e.
            ap (weight w)
              (compared-fields timeout now c.heap (present c.ring.insertion_order) r).2),
    )

    abbrev heavier : ℕ → ℕ → Bool
    heavier a b =
        ltb (cache_impact timeout now (weighed.heap b)).1
          (cache_impact timeout now (weighed.heap a)).1

    abbrev order : List ℕ
    order = sort heavier (present c.ring.insertion_order)

    abbrev loop : Collector Sampler Sent × List (String × Unit {0})
    loop = eject F T sort cfg (alloc - cfg.max_alloc) 0 weighed [] order

    loop-Ejected : Ejected F T sort cfg (λ q. (weighed.heap q).trace_id) weighed [] order loop
    unfolding lookup
    loop-Ejected =
        eject-Ejected F T sort cfg (λ q. (weighed.heap q).trace_id) (alloc - cfg.max_alloc) 0
          weighed [] order (λ q. refl)
          (permute-Apart (λ r s. (weighed.heap r).trace_id ≢ (weighed.heap s).trace_id)
            (λ x y ne p. ne (sym p)) (sorts heavier (present c.ring.insertion_order))
            (present-OtherId weighed.heap weighed.ring weighed-IsLive.valid))
          (All-always order (λ r. refl))

    eject_heaviest-cases :
        (P : Collector Sampler Sent → Type 0)
        → ((n : ℕ) (ids : List (String × Unit {0}))
            → All (λ r. is_key ids (weighed.heap r).trace_id ≡ true) (take n order)
            → All (λ r. is_key ids (weighed.heap r).trace_id ≡ false) (drop n order)
            → let sent = send_each F T sort cfg (λ _. ejected_memsize) weighed (take n order) in
              P (with_ring F T sort cfg sent (remove_traces sent.heap ids weighed.ring)))
        → P (eject_heaviest F T sort cfg now alloc c)
    unfolding eject_heaviest get_all
    eject_heaviest-cases P h =
        let (n, same, ins, outs, _) = loop-Ejected in
        let sent = send_each F T sort cfg (λ _. ejected_memsize) weighed (take n order) in
        subst
          (λ (c' : Collector Sampler Sent).
            P (with_ring F T sort cfg c' (remove_traces c'.heap loop.1 c'.ring)))
          (sym same)
          (subst (λ (d : Ring). P (with_ring F T sort cfg sent (remove_traces sent.heap loop.1 d)))
            (sym (send_each-ring F T sort cfg (λ _. ejected_memsize) weighed (take n order)))
            (h n loop.1 ins outs))

    new_check_alloc-cases :
        (P : Collector Sampler Sent → Type 0)
        → P c
        → P (eject_heaviest F T sort cfg now alloc c)
        → P (new_check_alloc F T sort cfg now alloc c)
    unfolding new_check_alloc
    new_check_alloc-cases P = if-cases P _ c (eject_heaviest F T sort cfg now alloc c)

    -- If `sort.Slice` permutes, `newCheckAlloc` keeps `IsLive`, at any allocation: the
    -- traces that it sends are the ones that leave the ring and the map.
    pub new_check_alloc-IsLive : IsLive (new_check_alloc F T sort cfg now alloc c)
    new_check_alloc-IsLive = new_check_alloc-cases IsLive v (
        eject_heaviest-cases IsLive (λ n ids.
          left-IsLive weighed weighed-IsLive order (sorts heavier (present c.ring.insertion_order))
            n ids))

    -- If `sort.Slice` permutes, from a collector that satisfies `IsLive` and in a dry run,
    -- `newCheckAlloc` keeps the weight of the live and the handed-on spans: what leaves the
    -- cache is handed on once.
    pub total-new_check_alloc :
        (w : Header → ℕ)
        → cfg.is_dry_run ≡ true
        → total w (new_check_alloc F T sort cfg now alloc c) ≡ total w c
    total-new_check_alloc w dry =
        new_check_alloc-cases (λ c'. total w c' ≡ total w c) refl
          (eject_heaviest-cases (λ c'. total w c' ≡ total w c)
            (λ n ids ins outs.
              total-left weighed weighed-IsLive order
                (sorts heavier (present c.ring.insertion_order)) n ids ins outs w dry
              ∙ total-weighed w))
