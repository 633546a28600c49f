-- ===== src/Tests/Texts.antt =====
-- A sort of texts, by insertion, and what `sort.Strings` promises of it.
use tracing_proxy.Base.{
  ◌≡◌, refl, sym, subst, ◌∙◌, ap, String, List, [], ◌∷◌, true, false, arith, same_text,
  same_text_iff, Bool-cases, inl, inr,
}
use tracing_proxy.Base.All.{IsPermutation, IsPermutation-refl}
use tracing_proxy.Base.Order.{compare-swapped, compare-empty, swapped, Less, Less-trans}
use tracing_proxy.Sharder.{text_less}
use tracing_proxy.Members.Union.{Rises, less_of-order}

abbrev put_text : String → List String → List String
put_text x [] = x ∷ []
put_text x (y ∷ ys) = elim (text_less y x) [ true ↦ y ∷ put_text x ys | false ↦ x ∷ y ∷ ys ]

abbrev pub sort_texts : List String → List String
sort_texts [] = []
sort_texts (x ∷ xs) = put_text x (sort_texts xs)

put-IsPermutation : (x : String) (l : List String) → IsPermutation (x ∷ l) (put_text x l)
put-IsPermutation x [] = IsPermutation-refl (x ∷ [])
put-IsPermutation x (y ∷ ys) = elim (Bool-cases (text_less y x)) [
  | inl e ↦
      rw (e, put_text)
        (IsPermutation.trans (IsPermutation.swap x y ys)
          (IsPermutation.keep y (put-IsPermutation x ys)))
  | inr e ↦ rw (e, put_text) (IsPermutation-refl (x ∷ y ∷ ys))
]

sort-IsPermutation : (l : List String) → IsPermutation l (sort_texts l)
sort-IsPermutation [] = IsPermutation.none
sort-IsPermutation (x ∷ xs) =
    IsPermutation.trans (IsPermutation.keep x (sort-IsPermutation xs))
      (put-IsPermutation x (sort_texts xs))

not_less : (x y : String) → text_less y x ≡ true → text_less x y ≡ false
unfolding swapped
not_less x y h = ground (arith, compare-swapped y x, h)

put-Rises :
    (prev x : String) (l : List String)
    → Rises prev l
    → text_less x prev ≡ false
    → Rises prev (put_text x l)
put-Rises prev x [] h e = (e, tt)
put-Rises prev x (y ∷ ys) h e = elim (Bool-cases (text_less y x)) [
  | inl d ↦ rw (d, put_text, Rises) (h.0, put-Rises y x ys h.1 (not_less x y d))
  | inr d ↦ rw (d, put_text, Rises) (e, (d, h.1))
]

empty_least : (x : String) → text_less x "" ≡ false
empty_least x = ground (arith, compare-empty x)

sort-Rises : (l : List String) → Rises "" (sort_texts l)
sort-Rises [] = tt
sort-Rises (x ∷ xs) = put-Rises "" x (sort_texts xs) (sort-Rises xs) (empty_least x)

pub sort_texts_lem : (l : List String) → IsPermutation l (sort_texts l) × Rises "" (sort_texts l)
sort_texts_lem l = (sort-IsPermutation l, sort-Rises l)

less_between :
    (x y z : String) → text_less z x ≡ true → text_less z y ≡ false → text_less y x ≡ true
unfolding swapped
less_between x y z a b = elim (Bool-cases (same_text z y)) [
  | inl e ↦ subst (λ s. text_less s x ≡ true) ((same_text_iff z y).0 e) a
  | inr e ↦
      let first : text_less y z ≡ true = less_of-order y z b e in
      let lt1 : Less y z = ground (arith, first) in
      let lt2 : Less z x = ground (arith, a) in
      let lt3 = Less-trans y z x lt1 lt2 in ground (arith, lt3)
]

put_over :
    (x y : String) (l : List String) → text_less y x ≡ true → put_text x (y ∷ l) ≡ y ∷ put_text x l
put_over x y l e = rw (e, put_text) refl

put_here : (x y : String) (l : List String) → text_less y x ≡ false → put_text x (y ∷ l) ≡ x ∷ y ∷ l
put_here x y l e = rw (e, put_text) refl

-- Two texts, both put in front of the same list.
front_comm :
    (x y : String) (l : List String)
    → put_text x l ≡ x ∷ l
    → put_text y l ≡ y ∷ l
    → put_text x (y ∷ l) ≡ put_text y (x ∷ l)
front_comm x y l hx hy = elim (Bool-cases (text_less y x)) [
  | inl e ↦ put_over x y l e ∙ ap (λ k. y ∷ k) hx ∙ sym (put_here y x l (not_less x y e))
  | inr e ↦ elim (Bool-cases (text_less x y)) [
    | inl d ↦ put_here x y l e ∙ sym (put_over y x l d ∙ ap (λ k. x ∷ k) hy)
    | inr d ↦ elim (Bool-cases (same_text y x)) [
      | inl q ↦
          let same : y ≡ x = (same_text_iff y x).0 q in
          subst (λ z. put_text x (z ∷ l) ≡ put_text z (x ∷ l)) (sym same) refl
      | inr q ↦ absurd (cc (less_of-order x y e q, d))
    ]
  ]
]

put_comm : (x y : String) (l : List String) → put_text x (put_text y l) ≡ put_text y (put_text x l)
put_comm x y [] = front_comm x y [] refl refl
put_comm x y (z ∷ l) = elim (Bool-cases (text_less z x)) [
  | inl e ↦ elim (Bool-cases (text_less z y)) [
    | inl d ↦
        ap (put_text x) (put_over y z l d)
        ∙ put_over x z (put_text y l) e
        ∙ ap (λ k. z ∷ k) (put_comm x y l)
        ∙ sym (ap (put_text y) (put_over x z l e) ∙ put_over y z (put_text x l) d)
    | inr d ↦
        ap (put_text x) (put_here y z l d)
        ∙ put_over x y (z ∷ l) (less_between x y z e d)
        ∙ ap (λ k. y ∷ k) (put_over x z l e)
        ∙ sym (ap (put_text y) (put_over x z l e) ∙ put_here y z (put_text x l) d)
  ]
  | inr e ↦ elim (Bool-cases (text_less z y)) [
    | inl d ↦
        ap (put_text x) (put_over y z l d)
        ∙ put_here x z (put_text y l) e
        ∙ sym (
            ap (put_text y) (put_here x z l e)
            ∙ put_over y x (z ∷ l) (less_between y x z d e)
            ∙ ap (λ k. x ∷ k) (put_over y z l d))
    | inr d ↦
        ap (put_text x) (put_here y z l d)
        ∙ front_comm x y (z ∷ l) (put_here x z l e) (put_here y z l d)
        ∙ sym (ap (put_text y) (put_here x z l e))
  ]
]

sort-permute : {l l' : List String} → IsPermutation l l' → sort_texts l ≡ sort_texts l'
sort-permute IsPermutation.none = refl
sort-permute (IsPermutation.keep x p) = ap (put_text x) (sort-permute p)
sort-permute (IsPermutation.swap x y l) = put_comm x y (sort_texts l)
sort-permute (IsPermutation.trans p q) = sort-permute p ∙ sort-permute q

pub sort_texts-permute : (l l' : List String) → IsPermutation l l' → sort_texts l ≡ sort_texts l'
sort_texts-permute l l' p = sort-permute p
