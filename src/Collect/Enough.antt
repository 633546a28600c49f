-- ===== src/Collect/Enough.antt =====
-- How much the loop of `newCheckAlloc` in collect/collect.go sends.
use tracing_proxy.Base.{
  ℕ, suc, ◌+◌, ◌≡◌, ◌≤◌, ◌<◌, ◌⊎◌, inl, inr, refl, ap, ◌∙◌, String, List, [], ◌∷◌, arith, take, ltb,
  Bool-cases,
}
use tracing_proxy.Base.All.{list_sum}
use tracing_proxy.Base.Dict.{insert}
use tracing_proxy.Collect.State.{Config, SamplerFactory, TraceSentCache, Collector, write}
use tracing_proxy.Collect.Send.{send, send_unsent, forward, count_root, decided, ejected_memsize}
use tracing_proxy.Collect.Loop.{Sort, send_each, eject}

module _ (F : SamplerFactory) (T : TraceSentCache) (sort : Sort) (cfg : Config) where
  open F use {Sampler}
  open T use {Sent}

  send-data_size :
      (c : Collector Sampler Sent) (r q : ℕ)
      → ((send F T cfg c r ejected_memsize).heap q).data_size ≡ (c.heap q).data_size
  unfolding send send_unsent forward write count_root decided
  send-data_size c r q = ground arith

  -- The loop sends the first traces of the list.
  abbrev pub Sends :
      ℕ → (ℕ → ℕ) → ℕ → Collector Sampler Sent → List (String × Unit {0}) → List ℕ → Type 0
  Sends to_remove size total c ids rs =
      (n : ℕ) × ((eject F T sort cfg to_remove total c ids rs).0
        ≡ send_each F T sort cfg (λ _. ejected_memsize) c (take n rs))
      × ((take n rs ≡ rs) ⊎ (to_remove < total + list_sum size (take n rs)))
      × ((n ≡ 0) ⊎ ((m : ℕ) × (n ≡ suc m) × (total + list_sum size (take m rs) ≤ to_remove)))

  -- If the heap gives each trace the size that `size` says and the total so far is not more
  -- than the bytes to remove, the loop of `newCheckAlloc` sends the first `n` traces of the
  -- list, in order, where these are all of them or bring the total above the bytes to remove,
  -- and without the last of them the total is not above: so it sends no trace more than
  -- needed.
  pub eject-Sends :
      (to_remove total : ℕ) (size : ℕ → ℕ) (c : Collector Sampler Sent)
      (ids : List (String × Unit {0})) (rs : List ℕ)
      → ((q : ℕ) → (c.heap q).data_size ≡ size q)
      → total ≤ to_remove
      → Sends to_remove size total c ids rs
  unfolding eject send_each
  eject-Sends to_remove total size c ids [] own small = (0, refl, inl refl, inl refl)
  eject-Sends to_remove total size c ids (r ∷ rs) own small =
      let total' = total + (c.heap r).data_size in
      elim (Bool-cases (ltb to_remove total')) [
        | inl e ↦
            rw (e, eject)
              (1, refl, inr (ground (arith, own r, e)), inr (0, refl, ground (arith, small)))
        | inr e ↦
            let (n, same, all, enough) =
              eject-Sends to_remove total' size (send F T cfg c r ejected_memsize)
                (insert (c.heap r).trace_id tt ids) rs (λ q. send-data_size c r q ∙ own q)
                (ground (arith, e)) in
            rw (e, eject)
              (
                suc n,
                same,
                elim all [
                  | inl whole ↦ inl (ap (λ l. r ∷ l) whole)
                  | inr more ↦ inr (omega (arith, more, own r))
                ],
                elim enough [
                  | inl none_left ↦ inr (n, refl, rw none_left (omega (arith, small)))
                  | inr (m, next, below) ↦ inr (n, refl, rw next (omega (arith, below, own r)))
                ],
              )
      ]
