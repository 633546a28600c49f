-- ===== src/Conditions/Agrees.antt =====
-- The tests that config/sampler_config.go stores, against the comparison in sample/rules.go.
use tracing_proxy.Base.Order.{compare-swapped, swapped}
use tracing_proxy.Base.{
  Result, ◌≡◌, ◌≢◌, refl, sym, subst, inl, inr, String, some, Bool, true, same_text, same_text_iff,
  arith, Bool-cases,
}
use tracing_proxy.Base.Int.{ℤ}
use tracing_proxy.Types.{Value}
use tracing_proxy.Sample.{operator_holds, compare_values}
use tracing_proxy.Conditions.{
  Conversions, TypedCondition, relation, text_relation, try_convert_to_int, matcher, stored, typed,
  set_compare_operators, set_matches_function, is_comparison,
}

equal-cases : (P : String → Type 0) (s t : String) → same_text s t ≡ true → P t → P s
equal-cases P s t e p = subst P (sym ((same_text_iff s t).0 e)) p

-- The six comparisons.
comparison-cases :
    (P : String → Type 0)
    → P "!="
    → P "="
    → P ">"
    → P "<"
    → P "<="
    → P ">="
    → (op : String) → is_comparison op ≡ true
    → P op
comparison-cases P ne eq gt lt le ge op known = elim (Bool-cases (same_text op "!=")) [
  | inl e ↦ equal-cases P op "!=" e ne
  | inr e1 ↦ elim (Bool-cases (same_text op "=")) [
    | inl e ↦ equal-cases P op "=" e eq
    | inr e2 ↦ elim (Bool-cases (same_text op ">")) [
      | inl e ↦ equal-cases P op ">" e gt
      | inr e3 ↦ elim (Bool-cases (same_text op "<")) [
        | inl e ↦ equal-cases P op "<" e lt
        | inr e4 ↦ elim (Bool-cases (same_text op "<=")) [
          | inl e ↦ equal-cases P op "<=" e le
          | inr e5 ↦ equal-cases P op ">=" (ground (arith, known, e1, e2, e3, e4, e5)) ge
        ]
      ]
    ]
  ]
]

module _ (C : Conversions) (field : String) where
  abbrev pub int_condition : String → ℤ → TypedCondition
  int_condition op b = record {
    field = field;
    operator = op;
    value = Value.int64 b;
    datatype = "int";
  }

  -- what a typed test of integers has to do
  abbrev pub AgreesOn : ℤ → ℤ → String → Type 0
  AgreesOn a b op =
      (f : Value → Bool → Bool) × (set_matches_function C (int_condition op b) ≡ Result.ok (some f))
      × (f (Value.int64 a) true ≡ operator_holds C.floats op (Value.int64 a) (Value.int64 b))

  -- For each of the six comparisons on a condition of type int whose value is an int64,
  -- `setMatchesFunction` stores a test that agrees on every int64 of a span with what
  -- `conditionMatchesValue` decides for the same operator.
  pub set_matches-compare : (op : String) (a b : ℤ) → is_comparison op ≡ true → AgreesOn a b op
  unfolding set_matches_function set_compare_operators typed relation stored try_convert_to_int
      matcher operator_holds compare_values same_text
  set_matches-compare op a b known =
      comparison-cases (AgreesOn a b) (_, refl, ground arith) (_, refl, ground arith)
        (_, refl, ground arith) (_, refl, ground arith) (_, refl, ground arith)
        (_, refl, ground arith) op known

  abbrev pub text_condition : String → String → TypedCondition
  text_condition op c = record {
    field = field;
    operator = op;
    value = Value.text c;
    datatype = "string";
  }

  -- If texts are printed as they are, then for each of the comparisons but `>=` on a
  -- condition of type string whose value is a text, `setMatchesFunction` stores a test that
  -- agrees on every text of a span with what `conditionMatchesValue` decides for the same
  -- operator.
  pub set_matches-compare_texts :
      (op s c : String)
      → ((t : String) → C.print (Value.text t) ≡ t)
      → is_comparison op ≡ true
      → op ≢ ">="
      → (f : Value → Bool → Bool) × (set_matches_function C (text_condition op c)
          ≡ Result.ok (some f))
        × (f (Value.text s) true ≡ operator_holds C.floats op (Value.text s) (Value.text c))
  unfolding set_matches_function set_compare_operators text_relation relation stored matcher
      operator_holds compare_values same_text swapped
  set_matches-compare_texts op s c plain known other =
      comparison-cases
        (λ o.
          o ≢ ">="
          → (f : Value → Bool → Bool) × (set_matches_function C (text_condition o c)
              ≡ Result.ok (some f))
            × (f (Value.text s) true ≡ operator_holds C.floats o (Value.text s) (Value.text c)))
        (λ _. (_, refl, ground (arith, plain s, plain c, compare-swapped s c)))
        (λ _. (_, refl, ground (arith, plain s, plain c, compare-swapped s c)))
        (λ _. (_, refl, ground (arith, plain s, plain c, compare-swapped s c)))
        (λ _. (_, refl, ground (arith, plain s, plain c, compare-swapped s c)))
        (λ _. (_, refl, ground (arith, plain s, plain c, compare-swapped s c)))
        (λ n. absurd (n refl)) op known other

  abbrev pub bool_condition : String → Value → TypedCondition
  bool_condition op v = record { field = field; operator = op; value = v; datatype = "bool" }
