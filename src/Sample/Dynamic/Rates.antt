-- ===== src/Sample/Dynamic/Rates.antt =====
-- What the samplers of sample/dynamic.go, sample/dynamic_ema.go and sample/totalthroughput.go decide,
-- and what `send` of collect/collect.go takes it for.
use tracing_proxy.Base.{
  ℕ, zero, suc, ◌≤◌, ◌<◌, ◌≡◌, refl, ap, String, List, [], ◌∷◌, Option, none, some, true, false,
  map, ◌==◌, arith, if◌then◌else◌, Bool-cases, inl, inr,
}
use tracing_proxy.Base.Int.{ℤ, pos, negsuc}
use tracing_proxy.Types.{Span, Trace, Value}
use tracing_proxy.Collect.State.{Decision, put_value}
use tracing_proxy.Collect.Send.{mark_span}
use tracing_proxy.Sample.TraceKey.{Printers, build, build_and_add, add_key}
use tracing_proxy.Sample.Dynamic.{
  Dynsampler, DynamicSampler, protect, is_below_one, get_sample_rate,
}

module _ (D : Dynsampler) (P : Printers) where
  -- the field that the spans of a trace get
  unfoldable pub mark_of : DynamicSampler D P → Trace → Option (String × String)
  unfolding build
  mark_of d t =
      if d.key.add_dynsample_key
      then some (d.key.add_dynsample_field, build P d.key t.spans)
      else none

  -- the sampler as the collector sees it
  unfoldable pub decide : (ℕ → ℕ) → DynamicSampler D P → Trace → Decision (DynamicSampler D P)
  unfolding get_sample_rate mark_of
  decide intn d t =
      let (r, d', t') = get_sample_rate D P intn d t in
      record { sampler = d'; rate = r.rate; keep = r.keep; reason = r.reason; mark = mark_of d t }

  add_key-map :
      (field key : String) (sps : List Span)
      → add_key field key sps ≡ map (mark_span (some (field, key))) sps
  unfolding add_key mark_span put_value
  add_key-map field key [] = refl
  add_key-map field key (sp ∷ sps) =
      ap (λ ss. put_value field (Value.text key) sp ∷ ss) (add_key-map field key sps)

  map_none : (sps : List Span) → map (mark_span none) sps ≡ sps
  unfolding mark_span
  map_none [] = refl
  map_none (sp ∷ sps) = ap (λ ss. sp ∷ ss) (map_none sps)

  build_and_add-mark :
      (d : DynamicSampler D P) (t : Trace)
      → (build_and_add P d.key t).1.spans ≡ map (mark_span (mark_of d t)) t.spans
  unfolding build_and_add mark_of
  build_and_add-mark d t = elim (Bool-cases d.key.add_dynsample_key) [
    | inl e ↦ rw (build_and_add, mark_of, e) (add_key-map d.key.add_dynsample_field _ t.spans)
    | inr e ↦ rw (build_and_add, mark_of, e, map_none t.spans) refl
  ]

  protect-positive : (z : ℤ) → 1 ≤ protect z
  unfolding protect
  protect-positive (pos zero) = omega arith
  protect-positive (pos (suc n)) = omega arith
  protect-positive (negsuc n) = omega arith

  protect-same : (z : ℤ) → is_below_one z ≡ false → pos (protect z) ≡ z
  unfolding protect is_below_one
  protect-same (pos zero) h = cc (h)
  protect-same (pos (suc n)) h = refl
  protect-same (negsuc n) h = cc (h)

  first-kept :
      (intn : ℕ → ℕ) (n : ℕ) → ((n : ℕ) → 1 ≤ n → intn n < n) → n ≡ 1 → (intn n == 0) ≡ true
  first-kept intn n law e = let below = law 1 (omega arith) in rw e (ground (arith, below))

  -- If the random number below n that is asked for is less than n: the rate that the dynamic
  -- samplers answer is at least 1, it is that of the package dynsampler if that is at least
  -- 1, a trace with the rate 1 is kept, and the spans of the trace are then those that `send`
  -- gets by the mark of the decision.
  pub decide-rate :
      (intn : ℕ → ℕ) (d : DynamicSampler D P) (t : Trace)
      → ((n : ℕ) → 1 ≤ n → intn n < n)
      → let r = decide intn d t in
        let (key, _) = build_and_add P d.key t in
        let (answer, _) = D.get_sample_rate d.dynsampler key in
        (1 ≤ r.rate)
        × ((is_below_one answer ≡ false → pos r.rate ≡ answer)
            × ((r.rate ≡ 1 → r.keep ≡ true)
                × ((get_sample_rate D P intn d t).2.spans ≡ map (mark_span r.mark) t.spans)))
  unfolding decide get_sample_rate
  decide-rate intn d t law = (
    protect-positive _,
    (protect-same _, (λ one. first-kept intn _ law one, build_and_add-mark d t)),
  )
