-- ===== src/Members/Scans.antt =====
-- The loop of `scan` in internal/redimem/redimem.go ends.
use tracing_proxy.Base.{
  ℕ, zero, suc, ◌+◌, ◌≡◌, ◌≤◌, ◌<◌, refl, String, List, some, arith, ltb, Bool-cases, inl, inr,
  Result-cases, same_text, lt→ltb, ◌++◌, [],
}
use tracing_proxy.Members.{Redis, Outcome, scan_from, scan}

-- The clock goes on by one at every step.
abbrev pub Advances : Redis → Type 0
Advances redis = (i : ℕ) → redis.clock i + 1 ≤ redis.clock (suc i)

module _ (redis : Redis) (advances : Advances redis) (stop_at : ℕ) where
  scan_from-some :
      (fuel i : ℕ) (cursor : String) (keys : List String)
      → stop_at < redis.clock i + fuel
      → (r : List String × Outcome) × (scan_from redis stop_at (suc fuel) i cursor keys ≡ some r)
  unfolding scan_from
  scan_from-some zero i cursor keys enough =
      rw (lt→ltb stop_at (redis.clock i) (omega (arith, enough))) (_, refl)
  scan_from-some (suc fuel) i cursor keys enough = elim (Bool-cases (ltb stop_at (redis.clock i))) [
    | inl late ↦ rw late (_, refl)
    | inr early ↦ rw early (elim (Result-cases (redis.scan i cursor)) [
      | inr (e, f) ↦ rw f (_, refl)
      | inl (r, f) ↦ rw f (elim (Bool-cases (same_text r.cursor "0")) [
        | inl e ↦ rw e (_, refl)
        | inr e ↦ rw e (
            scan_from-some fuel (suc i) r.cursor (keys ++ r.keys)
              (omega (arith, enough, advances i)))
      ])
    ])
  ]

-- If the clock goes on by at least one unit at every step, the loop of `scan` ends within two
-- steps more than the timeout, whatever the server answers and even if its cursor never returns
-- to 0.
pub scan-some :
    (redis : Redis) (timeout : ℕ)
    → Advances redis
    → (r : List String × Outcome) × (scan redis timeout (timeout + 2) ≡ some r)
unfolding scan
scan-some redis timeout advances =
    let fuel : timeout + 2 ≡ suc (timeout + 1) = omega arith in
    rw fuel
      (scan_from-some redis advances (redis.clock 0 + timeout) (timeout + 1) 0 "0" [] (omega arith))
