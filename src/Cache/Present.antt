-- ===== src/Cache/Present.antt =====
-- The traces of a ring as a list: `GetAll`, and what a sweep takes.
use tracing_proxy.Base.{
  ℕ, suc, ◌+◌, ◌≡◌, ◌≢◌, refl, sym, ap, ◌∙◌, List, [], ◌∷◌, Option, none, some, Bool, arith, String,
}
use tracing_proxy.Cache.Valid.{IsValid}
use tracing_proxy.Cache.{Heap, Ring, slot, present, sweep}
use tracing_proxy.Base.Dict.{delete}
use tracing_proxy.Cache.Held.{held_sum}
use tracing_proxy.Base.All.{Apart, All, Distinct, list_sum}

pub present-All :
    {P : ℕ → Type 0} (io : List (Option ℕ))
    → ((i r : ℕ) → slot io i ≡ some r → P r)
    → All P (present io)
unfolding present
present-All [] f = tt
present-All (none ∷ io) f = present-All io (λ i r e. f (suc i) r e)
present-All (some q ∷ io) f = (f 0 q refl, present-All io (λ i r e. f (suc i) r e))

pub present-Apart :
    (R : ℕ → ℕ → Type 0) (io : List (Option ℕ))
    → ((i j r s : ℕ) → slot io i ≡ some r → slot io j ≡ some s → i ≢ j → R r s)
    → Apart R (present io)
unfolding present
present-Apart R [] f = tt
present-Apart R (none ∷ io) f =
    present-Apart R io (λ i j r s e g ne. f (suc i) (suc j) r s e g (λ p. ne (omega arith)))
present-Apart R (some q ∷ io) f = (
  present-All io (λ i r e. f 0 (suc i) q r refl e (λ p. omega arith)),
  present-Apart R io (λ i j r s e g ne. f (suc i) (suc j) r s e g (λ p. ne (omega arith))),
)

-- No trace of a consistent ring is twice in the list, and no two have one ID.
pub present-Distinct : (h : Heap) (d : Ring) → IsValid h d → Distinct (present d.insertion_order)
present-Distinct h d v =
    present-Apart (λ x y. x ≢ y) d.insertion_order
      (λ i j r s e g ne p. ne (v.distinct i j r e (g ∙ ap some (sym p))))

pub present-OtherId :
    (h : Heap) (d : Ring)
    → IsValid h d
    → Apart (λ r s. (h r).trace_id ≢ (h s).trace_id) (present d.insertion_order)
present-OtherId h d v =
    present-Apart (λ r s. (h r).trace_id ≢ (h s).trace_id) d.insertion_order
      λ i j r s e g ne p. ground (arith, v.stored i r e, v.stored j s g, v.distinct i j r e)

pub held_sum-present : (f : ℕ → ℕ) (io : List (Option ℕ)) → held_sum f io ≡ list_sum f (present io)
unfolding present
held_sum-present f [] = refl
held_sum-present f (none ∷ io) = omega (arith, held_sum-present f io)
held_sum-present f (some r ∷ io) = omega (arith, held_sum-present f io)

pub held_sum-sweep :
    (h : Heap) (test : ℕ → Bool) (f : ℕ → ℕ) (io : List (Option ℕ)) (cache : List (String × ℕ))
    → held_sum f (sweep h test io cache).order + list_sum f (sweep h test io cache).taken
      ≡ held_sum f io
unfolding sweep
held_sum-sweep h test f [] cache = refl
held_sum-sweep h test f (none ∷ io) cache = omega (arith, held_sum-sweep h test f io cache)
held_sum-sweep h test f (some r ∷ io) cache = ground (
  arith,
  held_sum-sweep h test f io cache,
  held_sum-sweep h test f io (delete (h r).trace_id cache),
)
