-- ===== src/Base/All.antt =====
-- Properties of every element of a list, and of every two; sums; permutations.
use Prim.Native.Nat.{ℕ, zero, suc, ◌+◌, ◌<◌}
use mathlib.Core.Path.{◌≡◌, refl, ◌∙◌}
use mathlib.Core.Logic.{◌≢◌, ◌⊎◌, inl, inr}
use mathlib.Core.Bool.{Bool, true, false}
use mathlib.Core.List.{List, [], ◌∷◌, ◌++◌}
use native.Mathlib.Omega.{arith}
use tracing_proxy.Base.Tests.{Bool-cases}
use tracing_proxy.Base.Lists.{length, filter, take, drop}

abbrev pub All {ℓ κ} : {A : Type ℓ} → (A → Type κ) → List A → Type κ
All P [] = Unit
All P (x ∷ xs) = P x × All P xs

-- Some element has the property.
abbrev pub Any {ℓ} : {A : Type ℓ} → (A → Type 0) → List A → Type 0
Any P [] = zero < zero
Any P (x ∷ xs) = P x ⊎ Any P xs

-- Every two elements stand in the relation, the earlier one first.
abbrev pub Apart {ℓ κ} : {A : Type ℓ} → (A → A → Type κ) → List A → Type κ
Apart R [] = Unit
Apart R (x ∷ xs) = All (R x) xs × Apart R xs

abbrev pub Distinct : List ℕ → Type 0
Distinct = Apart (λ x y. x ≢ y)

abbrev pub list_sum : (ℕ → ℕ) → List ℕ → ℕ
list_sum f [] = 0
list_sum f (x ∷ xs) = f x + list_sum f xs

pub All-always {ℓ κ} : {A : Type ℓ} {P : A → Type κ} (xs : List A) → ((x : A) → P x) → All P xs
All-always [] f = tt
All-always (x ∷ xs) f = (f x, All-always xs f)

pub All-map {ℓ κ μ} :
    {A : Type ℓ} {P : A → Type κ} {Q : A → Type μ} (xs : List A)
    → ((x : A) → P x → Q x)
    → All P xs
    → All Q xs
All-map [] f h = tt
All-map (x ∷ xs) f h = (f x h.0, All-map xs f h.1)

pub All-zip {ℓ κ μ ν} :
    {A : Type ℓ} {P : A → Type κ} {Q : A → Type μ} {R : A → Type ν} (xs : List A)
    → ((x : A) → P x → Q x → R x)
    → All P xs
    → All Q xs
    → All R xs
All-zip [] f h k = tt
All-zip (x ∷ xs) f h k = (f x h.0 k.0, All-zip xs f h.1 k.1)

pub list_sum-same :
    (f g : ℕ → ℕ) (xs : List ℕ) → All (λ x. f x ≡ g x) xs → list_sum f xs ≡ list_sum g xs
list_sum-same f g [] h = refl
list_sum-same f g (x ∷ xs) h = omega (arith, h.0, list_sum-same f g xs h.1)

pub filter-All :
    (P Q : ℕ → Type 0) (test : ℕ → Bool) (xs : List ℕ)
    → ((x : ℕ) → P x → test x ≡ true → Q x)
    → All P xs
    → All Q (filter test xs)
filter-All P Q test [] f h = tt
filter-All P Q test (x ∷ xs) f h = elim (Bool-cases (test x)) [
  | inl e ↦ rw (e, filter) (f x h.0 e, filter-All P Q test xs f h.1)
  | inr e ↦ rw (e, filter) (filter-All P Q test xs f h.1)
]

pub filter-Distinct : (test : ℕ → Bool) (xs : List ℕ) → Distinct xs → Distinct (filter test xs)
filter-Distinct test [] d = tt
filter-Distinct test (x ∷ xs) d = elim (Bool-cases (test x)) [
  | inl e ↦
      rw (e, filter)
        (
          filter-All (λ y. x ≢ y) (λ y. x ≢ y) test xs (λ y ne _. ne) d.0,
          filter-Distinct test xs d.1,
        )
  | inr e ↦ rw (e, filter) (filter-Distinct test xs d.1)
]

-- A list in another order.
pub data IsPermutation {A : Type 0} : List A → List A → Type 0 where
  none : IsPermutation [] []
  keep : (x : A) {xs ys : List A} → IsPermutation xs ys → IsPermutation (x ∷ xs) (x ∷ ys)
  swap : (x y : A) (xs : List A) → IsPermutation (x ∷ y ∷ xs) (y ∷ x ∷ xs)
  trans : {xs ys zs : List A} → IsPermutation xs ys → IsPermutation ys zs → IsPermutation xs zs

pub IsPermutation-refl : {A : Type 0} (xs : List A) → IsPermutation xs xs
IsPermutation-refl [] = none
IsPermutation-refl (x ∷ xs) = keep x (IsPermutation-refl xs)

pub IsPermutation-sym : {A : Type 0} {xs ys : List A} → IsPermutation xs ys → IsPermutation ys xs
IsPermutation-sym none = none
IsPermutation-sym (keep x p) = keep x (IsPermutation-sym p)
IsPermutation-sym (swap x y xs) = swap y x xs
IsPermutation-sym (trans p q) = trans (IsPermutation-sym q) (IsPermutation-sym p)

pub permute-All :
    {A : Type 0} (P : A → Type 0) {xs ys : List A} → IsPermutation xs ys → All P xs → All P ys
permute-All P none h = tt
permute-All P (keep x p) h = (h.0, permute-All P p h.1)
permute-All P (swap x y xs) h = (h.1.0, (h.0, h.1.1))
permute-All P (trans p q) h = permute-All P q (permute-All P p h)

pub permute-Apart :
    (R : ℕ → ℕ → Type 0) {xs ys : List ℕ}
    → ((x y : ℕ) → R x y → R y x)
    → IsPermutation xs ys
    → Apart R xs
    → Apart R ys
permute-Apart R back none h = tt
permute-Apart R back (keep x p) h = (permute-All (R x) p h.0, permute-Apart R back p h.1)
permute-Apart R back (swap x y xs) h = ((back x y h.0.0, h.1.0), (h.0.1, h.1.1))
permute-Apart R back (trans p q) h = permute-Apart R back q (permute-Apart R back p h)

pub list_sum-permute :
    (f : ℕ → ℕ) {xs ys : List ℕ} → IsPermutation xs ys → list_sum f xs ≡ list_sum f ys
list_sum-permute f none = refl
list_sum-permute f (keep x p) = omega (arith, list_sum-permute f p)
list_sum-permute f (swap x y xs) = omega arith
list_sum-permute f (trans p q) = list_sum-permute f p ∙ list_sum-permute f q

pub length-permute : {A : Type 0} {xs ys : List A} → IsPermutation xs ys → length xs ≡ length ys
length-permute none = refl
length-permute (keep x p) = omega (arith, length-permute p)
length-permute (swap x y xs) = refl
length-permute (trans p q) = length-permute p ∙ length-permute q

pub append-front :
    {A : Type 0} (xs : List A) {ys ys' : List A}
    → IsPermutation ys ys'
    → IsPermutation (xs ++ ys) (xs ++ ys')
append-front [] q = q
append-front (x ∷ xs) q = IsPermutation.keep x (append-front xs q)

pub append-back :
    {A : Type 0} {xs xs' : List A} (ys : List A)
    → IsPermutation xs xs'
    → IsPermutation (xs ++ ys) (xs' ++ ys)
append-back ys IsPermutation.none = IsPermutation-refl ys
append-back ys (IsPermutation.keep x p) = IsPermutation.keep x (append-back ys p)
append-back ys (IsPermutation.swap x y xs) = IsPermutation.swap x y (xs ++ ys)
append-back ys (IsPermutation.trans p p') =
    IsPermutation.trans (append-back ys p) (append-back ys p')

-- The two parts of a list cut at a place.
pub take-All : (P : ℕ → Type 0) (n : ℕ) (xs : List ℕ) → All P xs → All P (take n xs)
take-All P zero xs h = tt
take-All P (suc n) [] h = tt
take-All P (suc n) (x ∷ xs) h = (h.0, take-All P n xs h.1)

pub drop-All : (P : ℕ → Type 0) (n : ℕ) (xs : List ℕ) → All P xs → All P (drop n xs)
drop-All P zero xs h = h
drop-All P (suc n) [] h = tt
drop-All P (suc n) (x ∷ xs) h = drop-All P n xs h.1

pub take-Apart : (R : ℕ → ℕ → Type 0) (n : ℕ) (xs : List ℕ) → Apart R xs → Apart R (take n xs)
take-Apart R zero xs h = tt
take-Apart R (suc n) [] h = tt
take-Apart R (suc n) (x ∷ xs) h = (take-All (R x) n xs h.0, take-Apart R n xs h.1)

pub drop-Apart : (R : ℕ → ℕ → Type 0) (n : ℕ) (xs : List ℕ) → Apart R xs → Apart R (drop n xs)
drop-Apart R zero xs h = h
drop-Apart R (suc n) [] h = tt
drop-Apart R (suc n) (x ∷ xs) h = drop-Apart R n xs h.1

pub list_sum-cut :
    (f : ℕ → ℕ) (n : ℕ) (xs : List ℕ)
    → list_sum f (take n xs) + list_sum f (drop n xs) ≡ list_sum f xs
list_sum-cut f zero xs = omega arith
list_sum-cut f (suc n) [] = refl
list_sum-cut f (suc n) (x ∷ xs) = omega (arith, list_sum-cut f n xs)

-- What stands behind the cut is apart from all before it.
pub cut-Apart :
    (R : ℕ → ℕ → Type 0) (n : ℕ) (xs : List ℕ)
    → Apart R xs
    → All (λ y. All (λ x. R x y) (take n xs)) (drop n xs)
cut-Apart R zero xs h = All-always xs (λ y. tt)
cut-Apart R (suc n) [] h = tt
cut-Apart R (suc n) (x ∷ xs) h =
    All-zip (drop n xs) (λ y p q. (p, q)) (drop-All (R x) n xs h.0) (cut-Apart R n xs h.1)

-- What stands before the cut is apart from all behind it.
pub cut-Apart_before :
    (R : ℕ → ℕ → Type 0) (n : ℕ) (xs : List ℕ)
    → Apart R xs
    → All (λ x. All (R x) (drop n xs)) (take n xs)
cut-Apart_before R zero xs h = tt
cut-Apart_before R (suc n) [] h = tt
cut-Apart_before R (suc n) (x ∷ xs) h = (drop-All (R x) n xs h.0, cut-Apart_before R n xs h.1)

pub Apart-map :
    {R S : ℕ → ℕ → Type 0} (xs : List ℕ) → ((x y : ℕ) → R x y → S x y) → Apart R xs → Apart S xs
Apart-map [] f h = tt
Apart-map (x ∷ xs) f h = (All-map xs (f x) h.0, Apart-map xs f h.1)

-- A test that lets the first part through and stops the second.
pub list_sum-filter_cut :
    (f : ℕ → ℕ) (test : ℕ → Bool) (n : ℕ) (xs : List ℕ)
    → All (λ x. test x ≡ true) (take n xs)
    → All (λ x. test x ≡ false) (drop n xs)
    → list_sum f (filter test xs) ≡ list_sum f (take n xs)
list_sum-filter_cut f test zero [] h k = refl
list_sum-filter_cut f test zero (x ∷ xs) h k =
    rw (k.0, filter) (list_sum-filter_cut f test zero xs tt k.1)
list_sum-filter_cut f test (suc n) [] h k = refl
list_sum-filter_cut f test (suc n) (x ∷ xs) h k =
    rw (h.0, filter) (omega (arith, list_sum-filter_cut f test n xs h.1 k))

pub list_sum-filter_permute :
    (f : ℕ → ℕ) (test : ℕ → Bool) {xs ys : List ℕ}
    → IsPermutation xs ys
    → list_sum f (filter test xs) ≡ list_sum f (filter test ys)
list_sum-filter_permute f test none = refl
list_sum-filter_permute f test (keep x p) = ground (arith, list_sum-filter_permute f test p)
list_sum-filter_permute f test (swap x y xs) = ground arith
list_sum-filter_permute f test (trans p q) =
    list_sum-filter_permute f test p ∙ list_sum-filter_permute f test q
