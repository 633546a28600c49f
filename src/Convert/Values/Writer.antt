-- ===== src/Convert/Values/Writer.antt =====
-- What `limitedWriter` of pkg/convert/common.go keeps.
use tracing_proxy.Base.{
  ℕ, zero, suc, ◌+◌, ◌-◌, ◌≤◌, ◌≡◌, refl, ap, sym, ◌∙◌, List, [], ◌∷◌, ◌++◌, length, take, ltb,
  if◌then◌else◌, arith, length-append, Bool-cases, inl, inr,
}
use tracing_proxy.Convert.Values.{LimitedWriter, new_limited_writer, write, write_all}
use mathlib.Core.List.{append_assoc, append-nil}

abbrev pub joined : List (List ℕ) → List ℕ
joined [] = []
joined (b ∷ bs) = b ++ joined bs

take-all : (n : ℕ) (xs : List ℕ) → length xs ≤ n → take n xs ≡ xs
take-all zero [] h = refl
take-all zero (x ∷ xs) h = absurd (omega arith)
take-all (suc n) [] h = refl
take-all (suc n) (x ∷ xs) h = ap (λ l. x ∷ l) (take-all n xs (omega arith))

take-nil : (n : ℕ) → ◌≡◌ {A = List ℕ} [] (take n [])
take-nil zero = refl
take-nil (suc n) = refl

take-append : (n : ℕ) (xs ys : List ℕ) → take n (xs ++ ys) ≡ take n xs ++ take (n - length xs) ys
take-append n [] ys =
    ap (λ k. take k ys) (omega arith) ∙ ap (λ l. l ++ take (n - 0) ys) (take-nil n)
take-append zero (x ∷ xs) ys =
    let none_left : 0 ≡ 0 - length (x ∷ xs) = omega arith in ap (λ k. take k ys) none_left
take-append (suc n) (x ∷ xs) ys =
    ap (λ l. x ∷ l) (take-append n xs ys ∙ ap (λ k. take n xs ++ take k ys) (omega arith))

length-take :
    (n : ℕ) (xs : List ℕ) → length (take n xs) ≡ (if ltb n (length xs) then n else length xs)
length-take zero [] = refl
length-take zero (x ∷ xs) = ground arith
length-take (suc n) [] = ground arith
length-take (suc n) (x ∷ xs) = ground (arith, length-take n xs)

-- What the writer holds of the bytes `all`.
abbrev Holds : LimitedWriter → List ℕ → Type 0
Holds l all = (l.w ≡ take l.max all) × (l.truncated_bytes ≡ length all - l.max)

kept-take :
    (max used : ℕ) (b : List ℕ)
    → (if ltb max (length b + used) then take (max - used) b else b) ≡ take (max - used) b
kept-take max used b = elim (Bool-cases (ltb max (length b + used))) [
  | inl over ↦ rw over
  | inr fits ↦ rw fits (sym (take-all (max - used) b (ground (arith, fits))))
]

write-Holds : (l : LimitedWriter) (all b : List ℕ) → Holds l all → Holds (write l b) (all ++ b)
unfolding write
write-Holds l all b (kept, cut) =
    let used : length l.w ≡ (if ltb l.max (length all) then l.max else length all) =
      ap length kept ∙ length-take l.max all in
    let left : l.max - length l.w ≡ l.max - length all = ground (arith, used) in
    rw (kept-take l.max (length l.w) b) (
      (ap (λ k. l.w ++ take k b) left ∙ ap (λ w. w ++ take (l.max - length all) b) kept)
          ∙ sym (take-append l.max all b),
      ground (arith, cut, left, length-take (l.max - length l.w) b, length-append all b),
    )

write_all-Holds :
    (bs : List (List ℕ)) (l : LimitedWriter) (all : List ℕ)
    → Holds l all
    → Holds (write_all l bs) (all ++ joined bs)
unfolding write_all
write_all-Holds [] l all h = rw (append-nil all) h
write_all-Holds (b ∷ bs) l all h =
    rw (← append_assoc all b (joined bs))
      (write_all-Holds bs (write l b) (all ++ b) (write-Holds l all b h))

write_all-max : (bs : List (List ℕ)) (l : LimitedWriter) → (write_all l bs).max ≡ l.max
unfolding write_all write
write_all-max [] l = refl
write_all-max (b ∷ bs) l = write_all-max bs (write l b)

-- For every limit and every sequence of writes, `limitedWriter` then holds the first bytes of
-- all that was written, up to the limit, and counts the others as cut off.
pub write_all-new_limited_writer :
    (n : ℕ) (bs : List (List ℕ))
    → let l = write_all (new_limited_writer n) bs in
      (l.w ≡ take n (joined bs)) × (l.truncated_bytes ≡ length (joined bs) - n)
unfolding new_limited_writer
write_all-new_limited_writer n bs =
    let start = new_limited_writer n in
    let (w, cut) = write_all-Holds bs start [] (take-nil n, omega arith) in
    let max = write_all-max bs start in
    (w ∙ ap (λ k. take k (joined bs)) max, cut ∙ ap (λ k. length (joined bs) - k) max)
