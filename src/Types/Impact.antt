-- ===== src/Types/Impact.antt =====
-- Laws of the weights in types/event.go.
use tracing_proxy.Base.{ℕ, ◌+◌, ◌≡◌, List, [], ◌∷◌, ◌++◌, arith}
use tracing_proxy.Types.{Span, Trace, add_span, arrived, add_impacts, span_impact, cache_impact}

-- The sum of a number over the spans of a trace.
abbrev pub sum_of : (Span → ℕ) → List Span → ℕ
sum_of f [] = 0
sum_of f (sp ∷ sps) = f sp + sum_of f sps

pub sum_of-append :
    (f : Span → ℕ) (xs ys : List Span) → sum_of f (xs ++ ys) ≡ sum_of f xs + sum_of f ys
sum_of-append f [] ys = omega arith
sum_of-append f (x ∷ xs) ys = omega (arith, sum_of-append f xs ys)

add_impacts_lem :
    (timeout now total : ℕ) (sps : List Span)
    → add_impacts timeout now total sps ≡ total + sum_of (span_impact timeout now) sps
unfolding add_impacts
add_impacts_lem timeout now total [] = omega arith
add_impacts_lem timeout now total (sp ∷ sps) =
    omega (arith, add_impacts_lem timeout now (total + span_impact timeout now sp) sps)

-- If the size of a trace is the sum of the sizes of its spans, `AddSpan` keeps it so; after
-- `AddSpan`, `CacheImpact` answers the sum of the impacts of the spans at the time of the call,
-- and a second call at that time answers the same.
pub add_span-weighs :
    (timeout now later : ℕ) (t : Trace) (sp : Span)
    → t.data_size ≡ sum_of (λ s. s.data_size) t.spans
    → let t' = add_span now t sp in
      (t'.data_size ≡ sum_of (λ s. s.data_size) t'.spans)
      × ((cache_impact timeout later t').1 ≡ sum_of (span_impact timeout later) t'.spans)
      × ((cache_impact timeout later (cache_impact timeout later t').0).1
          ≡ (cache_impact timeout later t').1)
unfolding add_span cache_impact
add_span-weighs timeout now later t sp h = (
  omega (arith, sum_of-append (λ s. s.data_size) t.spans (arrived now sp ∷ [])),
  ground (arith, add_impacts_lem timeout later 0 (t.spans ++ arrived now sp ∷ [])),
  ground (arith, add_impacts_lem timeout later 0 (t.spans ++ arrived now sp ∷ [])),
)
