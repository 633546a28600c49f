-- ===== src/Tests/ConvertLaws.antt =====
-- The theorems on pkg/convert at concrete inputs: an ID of 8 bytes and the same one padded, and
-- a rate beyond 32 bits.
use tracing_proxy.Base.{ℕ, ◌≡◌, ◌↔◌, ◌<◌, refl, String, List, [], ◌∷◌, none, inl, inr, arith}
use tracing_proxy.Base.All.{All}
use tracing_proxy.Base.Int.{ℤ}
use tracing_proxy.Types.{Value}
use tracing_proxy.Convert.TraceId.{
  bytes_to_trace_id, hex_decode, padded, decode-bytes_to_trace_id, bytes_to_trace_id_iff,
}
use tracing_proxy.Convert.SampleRate.{get_sample_rate, at_least_one}

abbrev short_id : List ℕ
short_id = 247 ∷ 152 ∷ 161 ∷ 231 ∷ 243 ∷ 60 ∷ 138 ∷ 246 ∷ []

abbrev long_id : List ℕ
long_id = 0 ∷ 0 ∷ 0 ∷ 0 ∷ 0 ∷ 0 ∷ 0 ∷ 0 ∷ short_id

short_bytes : All (λ b. b < 256) short_id
short_bytes = (
  omega arith,
  (
    omega arith,
    (omega arith, (omega arith, (omega arith, (omega arith, (omega arith, (omega arith, tt)))))),
  ),
)

long_bytes : All (λ b. b < 256) long_id
long_bytes = (
  omega arith,
  (
    omega arith,
    (
      omega arith,
      (omega arith, (omega arith, (omega arith, (omega arith, (omega arith, short_bytes))))),
    ),
  ),
)

same_id : bytes_to_trace_id long_id ≡ bytes_to_trace_id short_id
unfolding bytes_to_trace_id
same_id = refl

decode-bytes_to_trace_id_example : padded (hex_decode (bytes_to_trace_id long_id)) ≡ padded long_id
decode-bytes_to_trace_id_example = decode-bytes_to_trace_id long_id long_bytes

bytes_to_trace_id_iff_example :
    (bytes_to_trace_id short_id ≡ bytes_to_trace_id long_id) ↔ (padded short_id ≡ padded long_id)
bytes_to_trace_id_iff_example =
    bytes_to_trace_id_iff short_id long_id (short_bytes, inl refl) (long_bytes, inr refl)

abbrev rated : List (String × Value)
rated = ("name", Value.text "checkout") ∷ ("sampleRate", Value.int64 (ℤ.pos 4294967296)) ∷ []

greatest : (get_sample_rate (λ t. none) rated).0 ≡ ℤ.pos 2147483647
unfolding get_sample_rate at_least_one
greatest = refl
