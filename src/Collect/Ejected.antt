-- ===== src/Collect/Ejected.antt =====
-- The loop of `newCheckAlloc` in collect/collect.go, and the impacts that its comparisons store.
use tracing_proxy.Base.{
  ℕ, zero, suc, ◌+◌, ◌≡◌, ◌≢◌, refl, sym, subst, ◌∙◌, List, [], ◌∷◌, true, false, arith, take, drop,
  ltb, Bool-cases, inl, inr, String,
}
use tracing_proxy.Base.All.{All, All-zip, Apart}
use tracing_proxy.Base.Dict.{insert, lookup-insert}
use tracing_proxy.Cache.{Heap, is_key}
use tracing_proxy.Types.{cache_impact}
use tracing_proxy.Collect.State.{Config, SamplerFactory, TraceSentCache, Collector, write}
use tracing_proxy.Collect.Send.{send, ejected_memsize}
use tracing_proxy.Collect.Sent.{send-trace_id}
use tracing_proxy.Collect.Loop.{Sort, send_each, memoize, compared, eject}

-- Memoised impacts change nothing that the invariant or the weights look at.
memoize-fields :
    (timeout now : ℕ) (h : Heap) (rs : List ℕ) (q : ℕ)
    → ((memoize timeout now h rs q).trace_id ≡ (h q).trace_id)
      × ((memoize timeout now h rs q).sent ≡ (h q).sent)
      × ((memoize timeout now h rs q).spans ≡ (h q).spans)
unfolding memoize write cache_impact
memoize-fields timeout now h [] q = (refl, refl, refl)
memoize-fields timeout now h (r ∷ rs) q =
    ground (arith, memoize-fields timeout now (write h r (cache_impact timeout now (h r)).0) rs q)

pub compared-fields :
    (timeout now : ℕ) (h : Heap) (rs : List ℕ) (q : ℕ)
    → ((compared timeout now h rs q).trace_id ≡ (h q).trace_id)
      × ((compared timeout now h rs q).sent ≡ (h q).sent)
      × ((compared timeout now h rs q).spans ≡ (h q).spans)
unfolding compared
compared-fields timeout now h rs q = ground (arith, memoize-fields timeout now h rs q)

module _ (F : SamplerFactory) (T : TraceSentCache) (sort : Sort) (cfg : Config)
    (id : ℕ → String) where
  open F use {Sampler}
  open T use {Sent}

  abbrev pub In : List (String × Unit {0}) → ℕ → Type 0
  In ids r = is_key ids (id r) ≡ true

  abbrev pub Out : List (String × Unit {0}) → ℕ → Type 0
  Out ids r = is_key ids (id r) ≡ false

  insert-In :
      (ids : List (String × Unit {0})) (k : String) (r : ℕ) → In ids r → In (insert k tt ids) r
  insert-In ids k r h = ground (arith, lookup-insert k (id r) tt ids)

  insert-In_self : (ids : List (String × Unit {0})) (r : ℕ) → In (insert (id r) tt ids) r
  insert-In_self ids r = ground (arith, lookup-insert (id r) (id r) tt ids)

  insert-Out :
      (ids : List (String × Unit {0})) (k : String) (r : ℕ)
      → k ≢ id r
      → Out ids r
      → Out (insert k tt ids) r
  insert-Out ids k r ne h = ground (arith, lookup-insert k (id r) tt ids)

  -- What the loop of `newCheckAlloc` answers: it has sent a first part of the list, and the IDs
  -- noted are those of that part.
  abbrev pub Ejected :
      Collector Sampler Sent
      → List (String × Unit {0})
      → List ℕ
      → Collector Sampler Sent × List (String × Unit {0})
      → Type 0
  Ejected c ids rs (c', ids') =
      (n : ℕ) × (c' ≡ send_each F T sort cfg (λ _. ejected_memsize) c (take n rs))
      × All (In ids') (take n rs)
      × All (Out ids') (drop n rs)
      × ((r : ℕ) → In ids r → In ids' r)

  noted_self :
      (c : Collector Sampler Sent) (ids : List (String × Unit {0})) (r : ℕ)
      → (c.heap r).trace_id ≡ id r
      → In (insert (c.heap r).trace_id tt ids) r
  noted_self c ids r own =
      subst (λ (k : String). In (insert k tt ids) r) (sym own) (insert-In_self ids r)

  noted_rest :
      (c : Collector Sampler Sent) (ids : List (String × Unit {0})) (r : ℕ) (rs : List ℕ)
      → (c.heap r).trace_id ≡ id r
      → All (λ s. id r ≢ id s) rs
      → All (Out ids) rs
      → All (Out (insert (c.heap r).trace_id tt ids)) rs
  noted_rest c ids r rs own =
      All-zip rs (λ s ne. insert-Out ids (c.heap r).trace_id s (λ p. ne (sym own ∙ p)))

  pub eject-Ejected :
      (to_remove size : ℕ) (c : Collector Sampler Sent) (ids : List (String × Unit {0}))
      (rs : List ℕ)
      → ((q : ℕ) → (c.heap q).trace_id ≡ id q)
      → Apart (λ r s. id r ≢ id s) rs
      → All (Out ids) rs
      → Ejected c ids rs (eject F T sort cfg to_remove size c ids rs)
  unfolding eject send_each
  eject-Ejected to_remove size c ids [] own apart out = (0, refl, tt, tt, λ r h. h)
  eject-Ejected to_remove size c ids (r ∷ rs) own apart out =
      let k = (c.heap r).trace_id in
      let size' = size + (c.heap r).data_size in
      elim (Bool-cases (ltb to_remove size')) [
        | inl e ↦
            rw (e, eject)
              (
                suc zero,
                refl,
                (noted_self c ids r (own r), tt),
                noted_rest c ids r rs (own r) apart.0 out.1,
                insert-In ids k,
              )
        | inr e ↦
            let (n, same, ins, outs, mono) =
              eject-Ejected to_remove size' (send F T cfg c r ejected_memsize) (insert k tt ids) rs
                (λ q. send-trace_id F T cfg c r ejected_memsize q ∙ own q) apart.1
                (noted_rest c ids r rs (own r) apart.0 out.1) in
            rw (e, eject)
              (
                suc n,
                same,
                (mono r (noted_self c ids r (own r)), ins),
                outs,
                λ s h. mono s (insert-In ids k s h),
              )
      ]
