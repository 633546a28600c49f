-- ===== src/Cache/Replace.antt =====
-- `Get` after `Set` (collect/cache/cache.go).
use tracing_proxy.Base.{
  ◌≡◌, ◌≢◌, ap, ◌∙◌, sym, ℕ, String, Option, none, some, arith, ite, text_discrete, inl, inr,
  Option-cases,
}
use tracing_proxy.Base.Dict.{lookup, lookup-delete, lookup-insert, insert}
use tracing_proxy.Cache.{Heap, Ring, slot, set_trace, looped, expunge, get}
use tracing_proxy.Cache.Valid.{IsValid}
use tracing_proxy.Cache.Insert.{lookup-set_trace}

-- What the ID `k` still finds once the trace at `old` is gone.
abbrev pub without : Heap → Option ℕ → String → Option ℕ → Option ℕ
without h none k found = found
without h (some o) k found = ite (text_discrete (h o).trace_id k) none found

module _ (h : Heap) (d : Ring) (r : ℕ) (v : IsValid h d)
    (new : lookup (h r).trace_id d.cache ≡ none) where
  own_id : (i o : ℕ) → slot d.insertion_order i ≡ some o → (h o).trace_id ≢ (h r).trace_id
  own_id i o e f = ground (arith, v.stored i o e)

  get-set_empty :
      (k : String)
      → slot d.insertion_order (looped d) ≡ none
      → get (set_trace h d r).0 k ≡ ite (text_discrete (h r).trace_id k) (some r) (get d k)
  unfolding get
  get-set_empty k e = lookup-set_trace h d r v new k (λ o f. absurd (cc (e, f)))

  get-set_over :
      (k : String) (o : ℕ)
      → slot d.insertion_order (looped d) ≡ some o
      → get (set_trace h d r).0 k
        ≡ ite (text_discrete (h r).trace_id k) (some r) (without h (some o) k (get d k))
  unfolding get set_trace expunge
  get-set_over k o e =
      ap (λ (old : Option ℕ). lookup k (expunge h old (insert (h r).trace_id r d.cache))) e
      ∙ ground (
        arith,
        lookup-delete (h o).trace_id k (insert (h r).trace_id r d.cache),
        lookup-insert (h r).trace_id k r d.cache,
        own_id (looped d) o e,
      )

  -- After `Set` of a trace with a new ID into a consistent ring, `Get` finds it under its ID,
  -- nothing under the ID of the trace whose place it took, and under any other ID what it
  -- found before.
  pub get-set_trace :
      (k : String)
      → get (set_trace h d r).0 k
        ≡ ite
            (text_discrete (h r).trace_id k)
            (some r)
            (without h (slot d.insertion_order (looped d)) k (get d k))
  get-set_trace k = elim (Option-cases (slot d.insertion_order (looped d))) [
    | inl e ↦
        get-set_empty k e
        ∙ ap
            (λ (old : Option ℕ).
              ite (text_discrete (h r).trace_id k) (some r) (without h old k (get d k)))
            (sym e)
    | inr (o, e) ↦
        get-set_over k o e
        ∙ ap
            (λ (old : Option ℕ).
              ite (text_discrete (h r).trace_id k) (some r) (without h old k (get d k)))
            (sym e)
  ]
