-- ===== src/Members/Union.antt =====
-- What `GetMembers` of internal/redimem/redimem.go answers.
use tracing_proxy.Base.{
  Result, Result-cases, ◌≡◌, ◌≢◌, ◌↔◌, ◌⊎◌, inl, inr, sym, subst, ◌∙◌, String, List, [], ◌∷◌, ◌++◌,
  true, false, arith, same_text, same_text_iff, Bool-cases, text_discrete,
}
use tracing_proxy.Base.All.{IsPermutation}
use tracing_proxy.Base.Order.{compare-swapped, swapped}
use tracing_proxy.Sharder.{text_less}
use tracing_proxy.Members.{compact, all_members, get_members}

abbrev pub Has : String → List String → Type 0
Has m [] = ⊥
Has m (x ∷ xs) = (x ≡ m) ⊎ Has m xs

-- in order, from a text on
abbrev pub Rises : String → List String → Type 0
Rises prev [] = Unit
Rises prev (m ∷ ms) = (text_less m prev ≡ false) × Rises m ms

-- in order, with nothing twice
abbrev pub Climbs : String → List String → Type 0
Climbs prev [] = Unit
Climbs prev (m ∷ ms) = (text_less prev m ≡ true) × Climbs m ms

-- Of two texts in order, the first is less, or they are the same.
pub less_of-order :
    (prev m : String)
    → text_less m prev ≡ false
    → same_text m prev ≡ false
    → text_less prev m ≡ true
unfolding same_text swapped
less_of-order prev m up other = ground (arith, compare-swapped m prev, up, other)

compact-Climbs : (prev : String) (l : List String) → Rises prev l → Climbs prev (compact prev l)
unfolding compact
compact-Climbs prev [] h = tt
compact-Climbs prev (m ∷ ms) h = elim (Bool-cases (same_text m prev)) [
  | inl e ↦
      rw (e, compact)
        (compact-Climbs prev ms (subst (λ p. Rises p ms) ((same_text_iff m prev).0 e) h.1))
  | inr e ↦ rw (e, compact) (less_of-order prev m h.0 e, compact-Climbs m ms h.1)
]

compact-Has :
    (prev : String) (l : List String) (m : String) → m ≢ prev → Has m (compact prev l) ↔ Has m l
unfolding compact
compact-Has prev [] m other = (λ h. h, λ h. h)
compact-Has prev (x ∷ xs) m other = elim (Bool-cases (same_text x prev)) [
  | inl e ↦
      let later = compact-Has prev xs m other in
      rw (e, compact)
        (
          λ h. inr (later.0 h),
          λ h. elim h [
            | inl q ↦ absurd (other (sym q ∙ (same_text_iff x prev).0 e))
            | inr r ↦ later.1 r
          ],
        )
  | inr e ↦ elim (text_discrete x m) [
    | yes q ↦ rw (e, compact) (λ _. inl q, λ _. inl q)
    | no p ↦
        let later = compact-Has x xs m (λ q. p (sym q)) in
        rw (e, compact)
          (
            λ h. elim h [ inl q ↦ inl q | inr r ↦ inr (later.0 r) ],
            λ h. elim h [ inl q ↦ inl q | inr r ↦ inr (later.1 r) ],
          )
  ]
]

permute-Has : (m : String) {xs ys : List String} → IsPermutation xs ys → Has m xs ↔ Has m ys
permute-Has m IsPermutation.none = (λ h. h, λ h. h)
permute-Has m (IsPermutation.keep x p) =
    let later = permute-Has m p in
    (
      λ h. elim h [ inl q ↦ inl q | inr r ↦ inr (later.0 r) ],
      λ h. elim h [ inl q ↦ inl q | inr r ↦ inr (later.1 r) ],
    )
permute-Has m (IsPermutation.swap x y xs) = (
  λ h. elim h [ inl q ↦ inr (inl q) | inr r ↦ elim r [ inl q ↦ inl q | inr t ↦ inr (inr t) ] ],
  λ h. elim h [ inl q ↦ inr (inl q) | inr r ↦ elim r [ inl q ↦ inl q | inr t ↦ inr (inr t) ] ],
)
permute-Has m (IsPermutation.trans p q) =
    let (a, b) = permute-Has m p in let (c, d) = permute-Has m q in (λ h. c (a h), λ h. b (d h))

-- One of the answers names the member.
abbrev pub Named : String → List (Result String (List String)) → Type 0
Named m [] = ⊥
Named m (Result.ok names ∷ rest) = Has m names ⊎ Named m rest
Named m (Result.err e ∷ rest) = Named m rest

append-Has : (m : String) (xs ys : List String) → Has m (xs ++ ys) ↔ (Has m xs ⊎ Has m ys)
append-Has m [] ys = (λ h. inr h, λ h. elim h [ inl n ↦ absurd n | inr r ↦ r ])
append-Has m (x ∷ xs) ys =
    let later = append-Has m xs ys in
    (
      λ h. elim h [
        | inl q ↦ inl (inl q)
        | inr r ↦ elim (later.0 r) [ inl a ↦ inl (inr a) | inr b ↦ inr b ]
      ],
      λ h. elim h [
        | inl a ↦ elim a [ inl q ↦ inl q | inr r ↦ inr (later.1 (inl r)) ]
        | inr b ↦ inr (later.1 (inr b))
      ],
    )

all-Has :
    (answers : List (Result String (List String))) (names : List String) (m : String)
    → all_members answers ≡ Result.ok names
    → Has m names ↔ Named m answers
unfolding all_members
all-Has [] names m e =
    let none_named : [] ≡ names = cc e in subst (λ l. Has m l ↔ ⊥) none_named (λ n. n, λ n. n)
all-Has (Result.err f ∷ rest) names m e = absurd (cc e)
all-Has (Result.ok first ∷ rest) names m e = elim (Result-cases (all_members rest)) [
  | inr (f, g) ↦ absurd (cc (rw (g, all_members) at e))
  | inl (more, g) ↦
      let joined : first ++ more ≡ names = cc (rw (g, all_members) at e) in
      let later = all-Has rest more m g in
      let split = append-Has m first more in
      subst (λ l. Has m l ↔ (Has m first ⊎ Named m rest)) joined
        (
          λ h. elim (split.0 h) [ inl x ↦ inl x | inr y ↦ inr (later.0 y) ],
          λ h. split.1 (elim h [ inl x ↦ inl x | inr y ↦ inr (later.1 y) ]),
        )
]

-- If the sort permutes and puts in order, and `GetMembers` answers a list, then the list is
-- strictly ascending, so it has no name twice and no empty one, and it has just the names,
-- other than the empty one, that some of the answers of Redis has.
pub get_members_iff :
    (sort : List String → List String)
    → ((l : List String) → IsPermutation l (sort l) × Rises "" (sort l))
    → (answers : List (Result String (List String))) (members : List String) (m : String)
    → get_members sort answers ≡ Result.ok members
    → m ≢ ""
    → Climbs "" members × (Has m members ↔ Named m answers)
unfolding get_members
get_members_iff sort sorts answers members m found named =
    elim (Result-cases (all_members answers)) [
      | inr (f, g) ↦ absurd (cc (rw (g, get_members) at found))
      | inl (names, g) ↦
          let same : compact "" (sort names) ≡ members = cc (rw (g, get_members) at found) in
          let (a, b) = compact-Has "" (sort names) m named in
          let (c, d) = permute-Has m (sorts names).0 in
          let (x, y) = all-Has answers names m g in
          subst (λ l. Climbs "" l × (Has m l ↔ Named m answers)) same
            (compact-Climbs "" (sort names) (sorts names).1, (λ h. x (d (a h)), λ h. b (c (y h))))
    ]
