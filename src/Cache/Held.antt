-- ===== src/Cache/Held.antt =====
-- Sums over the traces that a ring holds.
use tracing_proxy.Base.{
  ℕ, zero, suc, ◌+◌, ◌<◌, ◌≡◌, ◌≢◌, refl, ap, List, [], ◌∷◌, Option, none, some, arith, set, length,
  replicate, get_or-set_self, get_or-set_ne, ℕ_discrete,
}
use tracing_proxy.Cache.{slot}

abbrev pub at_slot : (ℕ → ℕ) → Option ℕ → ℕ
at_slot f none = 0
at_slot f (some r) = f r

abbrev pub held_sum : (ℕ → ℕ) → List (Option ℕ) → ℕ
held_sum f [] = 0
held_sum f (o ∷ io) = at_slot f o + held_sum f io

pub held_sum-set :
    (f : ℕ → ℕ) (io : List (Option ℕ)) (p : ℕ) (v : Option ℕ)
    → p < length io
    → held_sum f (set io p v) + at_slot f (slot io p) ≡ held_sum f io + at_slot f v
held_sum-set f [] p v h = elim h [ ]
held_sum-set f (o ∷ io) zero v h = omega arith
held_sum-set f (o ∷ io) (suc p) v h = omega (arith, held_sum-set f io p v (omega arith))

pub held_sum-same :
    (f g : ℕ → ℕ) (io : List (Option ℕ))
    → ((i r : ℕ) → slot io i ≡ some r → f r ≡ g r)
    → held_sum f io ≡ held_sum g io
held_sum-same f g [] same = refl
held_sum-same f g (none ∷ io) same = omega (arith, held_sum-same f g io (λ i r e. same (suc i) r e))
held_sum-same f g (some q ∷ io) same =
    omega (arith, same 0 q refl, held_sum-same f g io (λ i r e. same (suc i) r e))

slot-lt : (io : List (Option ℕ)) (i r : ℕ) → slot io i ≡ some r → i < length io
slot-lt [] i r e = absurd (cc)
slot-lt (o ∷ io) zero r e = omega arith
slot-lt (o ∷ io) (suc i) r e = omega (arith, slot-lt io i r e)

-- Two functions that differ at one trace of the ring alone.
pub held_sum-one :
    (f g : ℕ → ℕ) (io : List (Option ℕ)) (p r : ℕ)
    → slot io p ≡ some r
    → ((i : ℕ) → slot io i ≡ some r → i ≡ p)
    → ((q : ℕ) → q ≢ r → f q ≡ g q)
    → held_sum f io + g r ≡ held_sum g io + f r
held_sum-one f g io p r here once other = omega (
  arith,
  held_sum-set f io p none (slot-lt io p r here),
  held_sum-set g io p none (slot-lt io p r here),
  ap (at_slot f) here,
  ap (at_slot g) here,
  held_sum-same f g (set io p none) others,
)
  where
    others : (i q : ℕ) → slot (set io p none) i ≡ some q → f q ≡ g q
    others i q e = elim (ℕ_discrete p i) [
      | yes h ↦ absurd (ground (arith, get_or-set_self io p none none (slot-lt io p r here)))
      | no h ↦ other q (λ s. ground (arith, get_or-set_ne io p i none none h, once i))
    ]

pub held_sum-replicate : (f : ℕ → ℕ) (n : ℕ) → held_sum f (replicate n none) ≡ 0
unfolding replicate
held_sum-replicate f zero = refl
held_sum-replicate f (suc n) = omega (arith, held_sum-replicate f n)
