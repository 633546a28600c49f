-- ===== src/Convert/SampleRate.antt =====
-- `getSampleRate` of pkg/convert/traces.go: the rate that an attribute gives, and its removal.
-- `strconv.ParseInt` of base 10 and 32 bits is a parameter. A signed integer of 32 bits is the
-- number that it stands for. No value of the attributes is an int32.
use tracing_proxy.Base.{
  ℕ, suc, ◌-◌, ◌%◌, ◌^◌, ◌≡◌, ◌≤◌, ◌<◌, inl, inr, String, List, Option, none, some, arith, ltb,
  if◌then◌else◌, ◌==◌, same_text, same_text_iff, text_discrete, ite, ◌≢◌, Bool-cases, sym, if_neg,
  ◌∙◌,
}
use tracing_proxy.Base.Int.{ℤ, pos, negsuc}
use tracing_proxy.Base.Dict.{lookup, delete, lookup-delete}
use tracing_proxy.Types.{Value}

abbrev pub max_int32 : ℕ
max_int32 = 2 ^ 31 - 1

-- `int32(n)` of an integer of 64 bits: its low 32 bits
unfoldable pub signed32 : ℕ → ℤ
signed32 word = if ltb word (2 ^ 31) then pos word else negsuc (2 ^ 32 - word - 1)

unfoldable pub to_int32 : ℤ → ℤ
unfolding signed32
to_int32 (pos n) = signed32 (n % 2 ^ 32)
to_int32 (negsuc n) = signed32 (2 ^ 32 - suc (n % 2 ^ 32))

-- an integer below `math.MaxInt32`, or that limit
unfoldable pub clamped : ℤ → ℤ
unfolding to_int32
clamped (pos n) = if ltb n max_int32 then to_int32 (pos n) else pos max_int32
clamped (negsuc n) = to_int32 (negsuc n)

unfoldable pub get_sample_rate_key : List (String × Value) → String
unfolding lookup
get_sample_rate_key attrs = elim (lookup "sampleRate" attrs) [
  | some _ ↦ "sampleRate"
  | none ↦ elim (lookup "SampleRate" attrs) [ some _ ↦ "SampleRate" | none ↦ "" ]
]

unfoldable pub at_least_one : ℤ → ℤ
at_least_one (pos n) = if n == 0 then pos 1 else pos n
at_least_one (negsuc n) = negsuc n

-- a rate from 1 to the greatest, or a negative integer of 32 bits
abbrev pub IsRate : ℤ → Type 0
IsRate (pos n) = (1 ≤ n) × (n ≤ max_int32)
IsRate (negsuc n) = n < 2 ^ 31

at_least_one-IsRate : (n : ℤ) → IsRate (at_least_one (clamped n))
unfolding at_least_one clamped to_int32 signed32
at_least_one-IsRate (pos n) = ground arith
at_least_one-IsRate (negsuc n) = ground arith

module _ (parse_int32 : String → Option ℤ) where
  -- the rate that the value gives; a value of another type gives the default
  unfoldable pub rate_of : Value → ℤ
  unfolding clamped
  rate_of (Value.text s) = elim (parse_int32 s) [ some n ↦ clamped n | none ↦ pos 1 ]
  rate_of (Value.int n) = clamped n
  rate_of (Value.int64 n) = clamped n
  rate_of _ = pos 1

  unfoldable pub read_rate : Option Value → ℤ
  unfolding rate_of
  read_rate (some v) = at_least_one (rate_of v)
  read_rate none = pos 1

  -- the rate, and the attributes without the one that gave it
  unfoldable pub get_sample_rate : List (String × Value) → ℤ × List (String × Value)
  unfolding get_sample_rate_key read_rate same_text lookup delete
  get_sample_rate attrs =
      let key = get_sample_rate_key attrs in
      if same_text key "" then (pos 1, attrs) else (read_rate (lookup key attrs), delete key attrs)

  parsed-IsRate :
      (o : Option ℤ) → IsRate (at_least_one (elim o [ some n ↦ clamped n | none ↦ pos 1 ]))
  unfolding at_least_one
  parsed-IsRate none = (omega arith, omega arith)
  parsed-IsRate (some n) = at_least_one-IsRate n

  read_rate-IsRate : (v : Option Value) → IsRate (read_rate v)
  unfolding read_rate rate_of at_least_one
  read_rate-IsRate none = (omega arith, omega arith)
  read_rate-IsRate (some (Value.int n)) = at_least_one-IsRate n
  read_rate-IsRate (some (Value.int64 n)) = at_least_one-IsRate n
  read_rate-IsRate (some (Value.text s)) = parsed-IsRate (parse_int32 s)
  read_rate-IsRate (some _) = (omega arith, omega arith)

  -- Whatever the attributes are, `getSampleRate` answers a rate from 1 to 2147483647 or a
  -- negative integer of 32 bits, never 0; and for every key that is not empty, reading the
  -- attributes afterwards gives what it gave before, or nothing for the key that gave the
  -- rate.
  pub get_sample_rate_lem :
      (attrs : List (String × Value)) (k : String)
      → k ≢ ""
      → IsRate (get_sample_rate attrs).0
        × (lookup k (get_sample_rate attrs).1
            ≡ ite (text_discrete (get_sample_rate_key attrs) k) none (lookup k attrs))
  unfolding get_sample_rate
  get_sample_rate_lem attrs k named =
      let key = get_sample_rate_key attrs in
      elim (Bool-cases (same_text key "")) [
        | inl e ↦ rw e (
          (omega arith, omega arith),
          sym (
              if_neg (text_discrete key k) (λ p. named (sym p ∙ (same_text_iff key "").0 e)) none
                (lookup k attrs)),
        )
        | inr e ↦ rw e (read_rate-IsRate (lookup key attrs), lookup-delete key k attrs)
      ]
