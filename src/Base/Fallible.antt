-- ===== src/Base/Fallible.antt =====
-- Code that panics: its steps in order, and when one of them panics, which is none.
use mathlib.Core.Path.{◌≡◌, refl}
use mathlib.Core.Logic.{◌↔◌, ◌⊎◌, inl, inr}
use mathlib.Core.Option.{Option, none, some}
use mathlib.Core.List.{List, [], ◌∷◌}

-- A step that panics stops the steps after it.
infixl 5 ◌>>=◌
abbrev pub ◌>>=◌ : {A B : Type 0} → Option A → (A → Option B) → Option B
none >>= f = none
some a >>= f = f a

abbrev pub AnyOf : {A : Type 0} → (A → Type 0) → List A → Type 0
AnyOf P [] = ⊥
AnyOf P (x ∷ xs) = P x ⊎ AnyOf P xs

abbrev pub IfSome : {A : Type 0} → (A → Type 0) → Option A → Type 0
IfSome P none = ⊥
IfSome P (some a) = P a

pub bind_iff :
    {A B P Q : Type 0} (m : Option A) (f : A → Option B)
    → (m ≡ none) ↔ P
    → ((a : A) → (f a ≡ none) ↔ Q)
    → ((m >>= f) ≡ none) ↔ (P ⊎ Q)
bind_iff none f (a, b) g = (λ e. inl (a refl), λ h. refl)
bind_iff (some x) f (a, b) g =
    let (c, d) = g x in (λ e. inr (c e), λ h. elim h [ inl p ↦ absurd (cc (b p)) | inr q ↦ d q ])

pub some_iff : {A : Type 0} (a : A) → (some a ≡ none) ↔ ⊥
some_iff a = (λ e. cc e, λ h. absurd h)

-- a step that panics just if the one before it did, or the next does
pub twice_iff : {N P Q : Type 0} → N ↔ (P ⊎ (P ⊎ Q)) → N ↔ (P ⊎ Q)
twice_iff (a, b) = (
  λ n. elim (a n) [ inl p ↦ inl p | inr h ↦ h ],
  λ h. elim h [ inl p ↦ b (inl p) | inr q ↦ b (inr (inr q)) ],
)

pub last_iff : {N P : Type 0} → N ↔ (P ⊎ ⊥) → N ↔ P
last_iff (a, b) = (λ n. elim (a n) [ inl p ↦ p | inr h ↦ absurd h ], λ p. b (inl p))

pub split_iff : {N P Q R : Type 0} → N ↔ (P ⊎ (Q ⊎ R)) → N ↔ ((P ⊎ Q) ⊎ R)
split_iff (a, b) = (
  λ n. elim (a n) [ inl p ↦ inl (inl p) | inr h ↦ elim h [ inl q ↦ inl (inr q) | inr r ↦ inr r ] ],
  λ h. b (elim h [ inl g ↦ elim g [ inl p ↦ inl p | inr q ↦ inr (inl q) ] | inr r ↦ inr (inr r) ]),
)

-- What holds of the answer, if there is one.
abbrev pub AllSome : {A : Type 0} → (A → Type 0) → Option A → Type 0
AllSome P none = Unit
AllSome P (some a) = P a

pub bind-AllSome :
    {A B : Type 0} (P : A → Type 0) (Q : B → Type 0) (m : Option A) (f : A → Option B)
    → AllSome P m
    → ((a : A) → P a → AllSome Q (f a))
    → AllSome Q (m >>= f)
bind-AllSome P Q none f h k = tt
bind-AllSome P Q (some a) f h k = k a h
