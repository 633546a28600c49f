-- ===== src/Sample/Deterministic.antt =====
-- sample/deterministic.go: the sampler that keeps one trace in so many, by the hash of the trace ID.
-- SHA-1, of which four bytes are read as a number, is a parameter. A division by zero is none.
use Prim.Native.String.{◌++◌}
use native.Mathlib.Nat.{le-div_iff_mul-le}
use tracing_proxy.Base.{
  ℕ, suc, ◌*◌, ◌/◌, ◌%◌, ◌-◌, ◌≡◌, ◌↔◌, ◌⊎◌, inl, inr, Bool-cases, ◌≤◌, refl, String, Option, none,
  some, Bool, true, false, arith, leb, ◌==◌, if◌then◌else◌,
}
use tracing_proxy.Base.Int.{ℤ, pos, negsuc}
use tracing_proxy.Types.{Trace}
use tracing_proxy.Sharder.Which.{max_uint32, uint32_mod}

abbrev pub sharding_salt : String
sharding_salt = "5VQ8l2jE5aJLPVqk"

pub record DeterministicSampler : Type 0 where
  pub sample_rate : ℤ
  pub upper_bound : ℕ

-- `uint32(n)`
unfoldable pub to_uint32 : ℤ → ℕ
to_uint32 (pos n) = n % uint32_mod
to_uint32 (negsuc n) = uint32_mod - suc (n % uint32_mod)

-- `Start`
unfoldable pub start : ℤ → Option DeterministicSampler
unfolding to_uint32
start rate =
    if to_uint32 rate == 0
    then none
    else some (record { sample_rate = rate; upper_bound = max_uint32 / to_uint32 rate })

unfoldable pub is_at_most_one : ℤ → Bool
is_at_most_one (pos n) = leb n 1
is_at_most_one (negsuc n) = true

-- the rate, whether to keep the trace, and the reason
unfoldable pub get_sample_rate : (String → ℕ) → DeterministicSampler → Trace → ℤ × Bool × String
unfolding is_at_most_one
get_sample_rate sha1 d t =
    if is_at_most_one d.sample_rate then (pos 1, true, "deterministic/always") else (
      d.sample_rate,
      leb (sha1 (t.trace_id ++ sharding_salt)) d.upper_bound,
      "deterministic/chance",
    )

leb_bound : (v r : ℕ) → 1 ≤ r → (leb v (max_uint32 / r) ≡ true) ↔ (v * r ≤ max_uint32)
leb_bound v r h =
    let law : (v ≤ max_uint32 / r) ↔ (v * r ≤ max_uint32) = le-div_iff_mul-le (omega (arith, h)) in
    (λ e. law.0 (ground (arith, e)), λ e. let below = law.1 e in ground (arith, below))

to_uint32-small : (r : ℕ) → r ≤ max_uint32 → to_uint32 (pos r) ≡ r
unfolding to_uint32
to_uint32-small r h = omega (arith, h)

start-some :
    (r : ℕ)
    → 1 ≤ r
    → r ≤ max_uint32
    → start (pos r) ≡ some (record { sample_rate = pos r; upper_bound = max_uint32 / r })
unfolding start
start-some r low high =
    let positive : (r == 0) ≡ false = ground (arith, low) in
    rw (to_uint32-small r high, positive) refl

-- For a rate from 1 to 4294967295, `Start` does not divide by zero, and `GetSampleRate` then
-- keeps a trace exactly if the rate is 1 or the number read from the hash of its ID, times the
-- rate, is at most 4294967295.
pub get_sample_rate-start :
    (sha1 : String → ℕ) (r : ℕ) (t : Trace)
    → 1 ≤ r
    → r ≤ max_uint32
    → (d : DeterministicSampler) × (start (pos r) ≡ some d)
      × (((get_sample_rate sha1 d t).1 ≡ true)
          ↔ ((r ≡ 1) ⊎ (sha1 (t.trace_id ++ sharding_salt) * r ≤ max_uint32)))
unfolding get_sample_rate is_at_most_one
get_sample_rate-start sha1 r t low high =
    let bound = leb_bound (sha1 (t.trace_id ++ sharding_salt)) r low in
    (
      _,
      start-some r low high,
      (elim (Bool-cases (leb r 1)) [
        | inl e ↦ rw e (λ _. inl (ground (arith, e, low)), λ _. refl)
        | inr e ↦ rw e (
          λ k. inr (bound.0 k),
          λ h. elim h [ inl one ↦ absurd (ground (arith, one, e)) | inr k ↦ bound.1 k ],
        )
      ]),
    )
