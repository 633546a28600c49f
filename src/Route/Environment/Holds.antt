-- ===== src/Route/Environment/Holds.antt =====
-- What the cache of environment names in route/route.go keeps to, over any sequence of calls.
use tracing_proxy.Base.{
  ℕ, Result, Result-cases, ◌+◌, ◌≡◌, refl, ◌∙◌, subst, ◌≤◌, ◌<◌, inl, inr, String, List, [], ◌∷◌,
  some, arith, text_discrete, Option-cases,
}
use tracing_proxy.Base.Dict.{lookup, lookup-insert}
use tracing_proxy.Route.Environment.{
  CacheItem, EnvironmentCache, new_environment_cache, add_item, fresh_item, get, get_locked,
}

module _ {E : Type 0} (get_fn : ℕ → String → Result E String) where
  -- The lookup gave the value for the key at the time `at`.
  abbrev pub Gave : String → String → ℕ → Type 0
  Gave key value at = get_fn at key ≡ Result.ok value

  -- Every item stands for an answer that the lookup has given, one `ttl` before the item expires.
  pub record IsHonest (now : ℕ) (c : EnvironmentCache) : Type 0 where
    pub answered :
        (key : String) (item : CacheItem)
        → lookup key c.items ≡ some item
        → (at : ℕ) × Gave key item.value at × (at ≤ now) × (item.expires_at ≡ at + c.ttl)

  -- The calls of `get`, each with the time since the call before and its key.
  unfoldable pub calls : ℕ → EnvironmentCache → List (ℕ × String) → ℕ × EnvironmentCache
  unfolding get
  calls now c [] = (now, c)
  calls now c ((later, key) ∷ rest) = calls (now + later) (get get_fn (now + later) key c).1 rest

  add-IsHonest :
      (now : ℕ) (key value : String) (c : EnvironmentCache)
      → Gave key value now
      → IsHonest now c
      → IsHonest now (add_item now key value c.ttl c)
  unfolding add_item
  add-IsHonest now key value c e h = record {
    answered = λ k item found.
        let item' : CacheItem = record { expires_at = now + c.ttl; value = value } in
        elim (text_discrete key k) [
          | yes same ↦
              let same_item : item' ≡ item =
                ground (arith, found, lookup-insert key k item' c.items, same) in
              subst
                (λ (i : CacheItem).
                  (at : ℕ) × Gave k i.value at × (at ≤ now) × (i.expires_at ≡ at + c.ttl))
                same_item (now, subst (λ (j : String). Gave j value now) same e, omega arith, refl)
          | no other ↦
              h.answered k item (ground (arith, found, lookup-insert key k item' c.items, other))
        ];
  }

  -- what a call of `get` promises
  abbrev pub Recent : ℕ → String → ℕ → Result E String → Type 0
  Recent now key ttl (Result.ok value) =
      (at : ℕ) × Gave key value at × (at ≤ now) × (now ≤ at + ttl)
  Recent now key ttl (Result.err e) = get_fn now key ≡ Result.err e

  fresh-Recent :
      (now : ℕ) (key value : String) (c : EnvironmentCache)
      → IsHonest now c
      → fresh_item now key c ≡ some value
      → Recent now key c.ttl (Result.ok value)
  unfolding fresh_item
  fresh-Recent now key value c h e = elim (Option-cases (lookup key c.items)) [
    | inl missing ↦ absurd (ground (arith, missing, e))
    | inr (item, found) ↦
        let (at, gave, past, until) = h.answered key item found in
        let valid : (item.value ≡ value) × (now < item.expires_at) = ground (arith, found, e) in
        (
          at,
          subst (λ (v : String). Gave key v at) valid.0 gave,
          past,
          omega (arith, until, valid.1),
        )
  ]

  -- the outcomes of `get`
  get-cases :
      (P : Result E String × EnvironmentCache → Type 0) (now : ℕ) (key : String)
      (c : EnvironmentCache)
      → ((value : String) → fresh_item now key c ≡ some value → P (Result.ok value, c))
      → ((value : String)
          → Gave key value now
          → P (Result.ok value, add_item now key value c.ttl c))
      → ((e : E) → get_fn now key ≡ Result.err e → P (Result.err e, c))
      → P (get get_fn now key c)
  unfolding get get_locked
  get-cases P now key c hit filled failed = elim (Option-cases (fresh_item now key c)) [
    | inr (value, e) ↦ rw (e, get) (hit value e)
    | inl e ↦
        rw (e, get)
          (elim (Result-cases (get_fn now key)) [
            | inl (value, g) ↦ rw (e, g, get_locked) (filled value g)
            | inr (f, g) ↦ rw (e, g, get_locked) (failed f g)
          ])
  ]

  get-IsHonest :
      (now : ℕ) (key : String) (c : EnvironmentCache)
      → IsHonest now c
      → IsHonest now (get get_fn now key c).1
  get-IsHonest now key c h =
      get-cases (λ p. IsHonest now p.1) now key c (λ value e. h)
        (λ value g. add-IsHonest now key value c g h) (λ f g. h)

  get-Recent :
      (now : ℕ) (key : String) (c : EnvironmentCache)
      → IsHonest now c
      → Recent now key c.ttl (get get_fn now key c).0
  get-Recent now key c h =
      get-cases (λ p. Recent now key c.ttl p.0) now key c
        (λ value e. fresh-Recent now key value c h e)
        (λ value g. (now, g, omega arith, omega arith)) (λ f g. g)

  later-IsHonest :
      (now later : ℕ) (c : EnvironmentCache) → IsHonest now c → IsHonest (now + later) c
  later-IsHonest now later c h = record {
    answered = λ key item found.
        let (at, gave, past, until) = h.answered key item found in
        (at, gave, omega (arith, past), until);
  }

  calls-IsHonest :
      (now : ℕ) (c : EnvironmentCache) (l : List (ℕ × String))
      → IsHonest now c
      → IsHonest (calls now c l).0 (calls now c l).1
  unfolding calls
  calls-IsHonest now c [] h = h
  calls-IsHonest now c ((later, key) ∷ rest) h =
      calls-IsHonest (now + later) (get get_fn (now + later) key c).1 rest
        (get-IsHonest (now + later) key c (later-IsHonest now later c h))

  get_ttl : (now : ℕ) (key : String) (c : EnvironmentCache) → (get get_fn now key c).1.ttl ≡ c.ttl
  unfolding add_item
  get_ttl now key c =
      get-cases (λ p. p.1.ttl ≡ c.ttl) now key c (λ _ _. refl) (λ _ _. refl) (λ _ _. refl)

  calls_ttl :
      (now : ℕ) (c : EnvironmentCache) (l : List (ℕ × String)) → (calls now c l).1.ttl ≡ c.ttl
  unfolding calls
  calls_ttl now c [] = refl
  calls_ttl now c ((later, key) ∷ rest) =
      calls_ttl (now + later) (get get_fn (now + later) key c).1 rest ∙ get_ttl (now + later) key c

  -- After any sequence of calls of `get` on a new environment cache, a name that `get`
  -- answers is one that the lookup gave for the key at some time that is not more than the
  -- time to live ago, and an error is what the lookup answers now.
  pub get-calls :
      (now ttl : ℕ) (l : List (ℕ × String)) (key : String)
      → let (last, c) = calls now (new_environment_cache ttl) l in
        Recent last key ttl (get get_fn last key c).0
  unfolding new_environment_cache lookup
  get-calls now ttl l key =
      let start = new_environment_cache ttl in
      let (last, c) = calls now start l in
      let h =
        calls-IsHonest now start l (record { answered = λ k item found. absurd (cc found) }) in
      subst (λ (n : ℕ). Recent last key n (get get_fn last key c).0) (calls_ttl now start l)
        (get-Recent last key c h)
