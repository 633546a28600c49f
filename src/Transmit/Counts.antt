-- ===== src/Transmit/Counts.antt =====
-- When the loop over the responses of transmit/transmit.go panics.
use tracing_proxy.Base.{
  ◌≡◌, refl, ◌↔◌, ◌≢◌, inl, inr, String, List, [], ◌∷◌, Option, none, some, true, false, Bool-cases,
}
use tracing_proxy.Base.Fallible.{AnyOf, bind_iff, some_iff}
use tracing_proxy.Types.{Value}
use tracing_proxy.Transmit.{
  Response, Transmission, is_error, gets_through, process_response, process_responses,
}

gets_through_iff :
    (additional : List String) (metadata : Option (List (String × Value)))
    → (gets_through additional metadata ≡ false) ↔ ((additional ≢ []) × (metadata ≡ none))
unfolding gets_through
gets_through_iff [] metadata = (λ e. cc e, λ h. absurd (h.0 refl))
gets_through_iff (k ∷ ks) none = (λ e. (λ c. cc c, refl), λ h. refl)
gets_through_iff (k ∷ ks) (some m) = (λ e. cc e, λ h. cc (h.1))

-- An error whose metadata are no map, while additional fields are to be logged.
abbrev pub Breaks : List String → Response → Type 0
Breaks additional r = (is_error r ≡ true) × ((additional ≢ []) × (r.metadata ≡ none))

process_response_iff :
    (additional : List String) (r : Response) (d : Transmission)
    → (process_response additional r d ≡ none) ↔ Breaks additional r
unfolding process_response
process_response_iff additional r d =
    let (a, b) = gets_through_iff additional r.metadata in
    elim (Bool-cases (is_error r)) [
      | inr e ↦ rw (process_response, e) (λ n. cc n, λ h. cc (h.0))
      | inl e ↦ elim (Bool-cases (gets_through additional r.metadata)) [
        | inl g ↦ rw (process_response, e, g) (λ n. cc n, λ h. absurd (cc (b h.1, g)))
        | inr g ↦ rw (process_response, e, g) (λ n. (refl, a g), λ h. refl)
      ]
    ]

-- The loop panics exactly if additional fields are configured and some response is an error
-- whose metadata are no map.
pub process_responses_iff :
    (additional : List String) (rs : List Response) (d : Transmission)
    → (process_responses additional rs d ≡ none) ↔ AnyOf (Breaks additional) rs
unfolding process_responses
process_responses_iff additional [] d = some_iff d
process_responses_iff additional (r ∷ rs) d =
    bind_iff _ _ (process_response_iff additional r d)
      (λ d'. process_responses_iff additional rs d')
