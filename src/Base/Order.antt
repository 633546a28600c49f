-- ===== src/Base/Order.antt =====
-- The order of texts: comparing them the other way round.
use Prim.Native.Nat.{ℕ, Ordering, compare as compare_ℕ}
use Prim.Native.Char.{code}
use Prim.Native.String.{String, [], ◌∷◌, compare, then}
use Prim.Native.String.compare.{nil-nil, nil-cons, cons-nil, cons-cons}
use mathlib.Core.Path.{◌≡◌, refl, sym, ap, ◌∙◌}
use mathlib.Core.Logic.{◌⊎◌, inl, inr}
use native.Mathlib.Omega.{arith}

unfoldable pub swapped : Ordering → Ordering
swapped Ordering.lt = Ordering.gt
swapped Ordering.eq = Ordering.eq
swapped Ordering.gt = Ordering.lt

swapped-compare : (m n : ℕ) → compare_ℕ n m ≡ swapped (compare_ℕ m n)
unfolding swapped
swapped-compare m n = ground arith

swapped-then : (o p : Ordering) → swapped (then o p) ≡ then (swapped o) (swapped p)
unfolding swapped
swapped-then Ordering.lt p = refl
swapped-then Ordering.eq p = refl
swapped-then Ordering.gt p = refl

pub compare-swapped : (s t : String) → compare t s ≡ swapped (compare s t)
unfolding swapped
compare-swapped [] [] = nil-nil ∙ sym (ap swapped nil-nil)
compare-swapped [] (d ∷ t) = cons-nil d t ∙ sym (ap swapped (nil-cons d t))
compare-swapped (c ∷ s) [] = nil-cons c s ∙ sym (ap swapped (cons-nil c s))
compare-swapped (c ∷ s) (d ∷ t) =
    cons-cons d c t s
    ∙ ap (λ o. then o (compare t s)) (swapped-compare (code c) (code d))
    ∙ ap (then (swapped (compare_ℕ (code c) (code d)))) (compare-swapped s t)
    ∙ sym (swapped-then (compare_ℕ (code c) (code d)) (compare s t))
    ∙ sym (ap swapped (cons-cons c d s t))

abbrev pub Less : String → String → Type 0
Less s t = compare s t ≡ Ordering.lt

then-lt :
    (o p : Ordering)
    → then o p ≡ Ordering.lt
    → (o ≡ Ordering.lt) ⊎ ((o ≡ Ordering.eq) × (p ≡ Ordering.lt))
then-lt Ordering.lt p h = inl refl
then-lt Ordering.eq p h = inr (refl, h)
then-lt Ordering.gt p h = absurd (cc h)

lt-then :
    (o p : Ordering)
    → (o ≡ Ordering.lt) ⊎ ((o ≡ Ordering.eq) × (p ≡ Ordering.lt))
    → then o p ≡ Ordering.lt
lt-then Ordering.lt p h = refl
lt-then Ordering.eq p (inl e) = absurd (cc e)
lt-then Ordering.eq p (inr (_, e)) = e
lt-then Ordering.gt p (inl e) = absurd (cc e)
lt-then Ordering.gt p (inr (e, _)) = absurd (cc e)

pub Less-trans : (s t u : String) → Less s t → Less t u → Less s u
Less-trans [] [] u a b = absurd (cc (nil-nil, a))
Less-trans [] (d ∷ t) [] a b = absurd (cc (cons-nil d t, b))
Less-trans [] (d ∷ t) (e ∷ u) a b = nil-cons e u
Less-trans (c ∷ s) [] u a b = absurd (cc (cons-nil c s, a))
Less-trans (c ∷ s) (d ∷ t) [] a b = absurd (cc (cons-nil d t, b))
Less-trans (c ∷ s) (d ∷ t) (e ∷ u) a b =
    let p = then-lt (compare_ℕ (code c) (code d)) (compare s t) (sym (cons-cons c d s t) ∙ a) in
    let q = then-lt (compare_ℕ (code d) (code e)) (compare t u) (sym (cons-cons d e t u) ∙ b) in
    cons-cons c e s u
    ∙ lt-then (compare_ℕ (code c) (code e)) (compare s u) (elim p [
      | inl x ↦ elim q [ inl y ↦ inl (ground (arith, x, y)) | inr y ↦ inl (ground (arith, x, y.0)) ]
      | inr x ↦ elim q [
        | inl y ↦ inl (ground (arith, x.0, y))
        | inr y ↦ inr (ground (arith, x.0, y.0), Less-trans s t u x.1 y.1)
      ]
    ])

pub compare-empty : (s : String) → (compare s [] ≡ Ordering.eq) ⊎ (compare s [] ≡ Ordering.gt)
compare-empty [] = inl nil-nil
compare-empty (c ∷ s) = inr (cons-nil c s)
