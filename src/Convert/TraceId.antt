-- ===== src/Convert/TraceId.antt =====
-- `BytesToTraceID` of pkg/convert/traces.go. A text is the list of its bytes.
use tracing_proxy.Base.{
  ℕ, zero, suc, ◌≤◌, replicate, subst, length-drop, ◌+◌, ◌*◌, ◌/◌, ◌%◌, ◌-◌, ◌≡◌, ◌↔◌, refl, ◌<◌,
  ◌⊎◌, inl, inr, List, [], ◌∷◌, ◌++◌, Bool, true, ◌&&◌, ◌==◌, ltb, length, take, drop, arith, ap,
  if◌then◌else◌, Bool-cases, sym, ◌∙◌,
}
use tracing_proxy.Base.All.{All}

abbrev pub trace_id_short_length : ℕ
trace_id_short_length = 8

abbrev pub trace_id_long_length : ℕ
trace_id_long_length = 16

-- a digit of `hex.Encode`
unfoldable pub hex_digit : ℕ → ℕ
hex_digit d = if ltb d 10 then 48 + d else 87 + d

unfoldable pub hex_encode : List ℕ → List ℕ
unfolding hex_digit
hex_encode [] = []
hex_encode (b ∷ bs) = hex_digit (b / 16) ∷ hex_digit (b % 16) ∷ hex_encode bs

-- the loop of `shouldTrimTraceId`
unfoldable pub all_zero : List ℕ → Bool
all_zero [] = true
all_zero (b ∷ bs) = b == 0 && all_zero bs

unfoldable pub should_trim_trace_id : List ℕ → Bool
unfolding all_zero
should_trim_trace_id bs = all_zero (take 8 bs)

unfoldable pub trimmed : List ℕ → List ℕ
unfolding should_trim_trace_id
trimmed bs =
    if length bs == trace_id_long_length && should_trim_trace_id bs
    then drop trace_id_short_length bs
    else bs

-- The buffer has the length of what `hex.Encode` writes, in each of the cases.
unfoldable pub bytes_to_trace_id : List ℕ → List ℕ
unfolding hex_encode trimmed
bytes_to_trace_id bs = hex_encode (trimmed bs)

-- Reading hexadecimal digits back.
abbrev pub digit_value : ℕ → ℕ
digit_value c = if ltb c 58 then c - 48 else c - 87

unfoldable pub hex_decode : List ℕ → List ℕ
hex_decode [] = []
hex_decode (h ∷ []) = []
hex_decode (h ∷ l ∷ rest) = (digit_value h * 16 + digit_value l) ∷ hex_decode rest

value-hex_digit : (d : ℕ) → d < 16 → digit_value (hex_digit d) ≡ d
unfolding hex_digit
value-hex_digit d h = ground arith

decode-encode : (bs : List ℕ) → All (λ b. b < 256) bs → hex_decode (hex_encode bs) ≡ bs
unfolding hex_encode hex_decode
decode-encode [] h = refl
decode-encode (b ∷ bs) h =
    rw
      (
        value-hex_digit (b / 16) (omega (arith, h.0)),
        value-hex_digit (b % 16) (omega arith),
        decode-encode bs h.1,
      )
      (ap (λ (x : ℕ). x ∷ bs) (omega arith))

-- an ID of 16 bytes: one of 8 bytes after 8 zero bytes
abbrev pub padded : List ℕ → List ℕ
padded bs = if length bs == 8 then replicate 8 0 ++ bs else bs

all_zero-replicate : (bs : List ℕ) → all_zero bs ≡ true → bs ≡ replicate (length bs) 0
unfolding all_zero replicate
all_zero-replicate [] z = refl
all_zero-replicate (b ∷ bs) z =
    let e : (b ≡ 0) × (all_zero bs ≡ true) = ground (arith, z) in
    cc (e.0, all_zero-replicate bs e.1)

take-append-drop : (n : ℕ) (bs : List ℕ) → take n bs ++ drop n bs ≡ bs
take-append-drop zero bs = refl
take-append-drop (suc n) [] = refl
take-append-drop (suc n) (b ∷ bs) = ap (λ l. b ∷ l) (take-append-drop n bs)

length-take : (n : ℕ) (bs : List ℕ) → n ≤ length bs → length (take n bs) ≡ n
length-take zero bs h = refl
length-take (suc n) [] h = absurd (omega (arith, h))
length-take (suc n) (b ∷ bs) h = omega (arith, length-take n bs (omega (arith, h)))

-- the two lengths of an ID
abbrev pub IsId : List ℕ → Type 0
IsId bs = All (λ b. b < 256) bs × ((length bs ≡ 8) ⊎ (length bs ≡ 16))

trimmed-cases :
    (bs : List ℕ)
    → ((length bs ≡ 16) × (all_zero (take 8 bs) ≡ true) × (trimmed bs ≡ drop 8 bs))
      ⊎ (trimmed bs ≡ bs)
unfolding trimmed should_trim_trace_id
trimmed-cases bs = elim (Bool-cases (length bs == 16 && all_zero (take 8 bs))) [
  | inl e ↦ inl (ground (arith, e), ground (arith, e), rw e refl)
  | inr e ↦ inr (rw e refl)
]

padded-trimmed : (bs : List ℕ) → padded (trimmed bs) ≡ padded bs
padded-trimmed bs = elim (trimmed-cases bs) [
  | inr e ↦ ap padded e
  | inl (long, zeros, e) ↦ rw e (
      let short : length (drop 8 bs) ≡ 8 = omega (arith, length-drop 8 bs, long) in
      let eight : length (take 8 bs) ≡ 8 = length-take 8 bs (omega (arith, long)) in
      let front : take 8 bs ≡ replicate 8 0 =
        subst (λ n. take 8 bs ≡ replicate n 0) eight (all_zero-replicate (take 8 bs) zeros) in
      rw (short, long) (ap (λ l. l ++ drop 8 bs) (sym front) ∙ take-append-drop 8 bs))
]

drop-All : (P : ℕ → Type 0) (n : ℕ) (bs : List ℕ) → All P bs → All P (drop n bs)
drop-All P zero bs h = h
drop-All P (suc n) [] h = tt
drop-All P (suc n) (b ∷ bs) h = drop-All P n bs h.1

decode-id : (bs : List ℕ) → All (λ b. b < 256) bs → hex_decode (bytes_to_trace_id bs) ≡ trimmed bs
unfolding bytes_to_trace_id
decode-id bs h = decode-encode (trimmed bs) (elim (trimmed-cases bs) [
  | inl (_, _, e) ↦ subst (All (λ b. b < 256)) (sym e) (drop-All (λ b. b < 256) 8 bs h)
  | inr e ↦ subst (All (λ b. b < 256)) (sym e) h
])

-- For every list of bytes, decoding the hexadecimal digits that `BytesToTraceID` answers gives
-- the bytes again, up to eight leading zero bytes of an ID of 16 bytes.
pub decode-bytes_to_trace_id :
    (bs : List ℕ) → All (λ b. b < 256) bs → padded (hex_decode (bytes_to_trace_id bs)) ≡ padded bs
decode-bytes_to_trace_id bs h = ap padded (decode-id bs h) ∙ padded-trimmed bs

padded_long : (bs : List ℕ) → length bs ≡ 16 → padded bs ≡ bs
padded_long bs long = ground (arith, long)

trimmed-padded : (bs : List ℕ) → IsId bs → trimmed (padded bs) ≡ trimmed bs
unfolding trimmed should_trim_trace_id all_zero replicate
trimmed-padded bs (_, inl short) = rw short (ground (arith, short))
trimmed-padded bs (_, inr long) = ap trimmed (padded_long bs long)

-- For IDs of 8 and of 16 bytes, `BytesToTraceID` answers the same text exactly if the IDs are
-- the same once those of 8 bytes are padded with zero bytes in front.
pub bytes_to_trace_id_iff :
    (a b : List ℕ)
    → IsId a
    → IsId b
    → (bytes_to_trace_id a ≡ bytes_to_trace_id b) ↔ (padded a ≡ padded b)
unfolding bytes_to_trace_id
bytes_to_trace_id_iff a b ha hb = (
  λ e.
      sym (decode-bytes_to_trace_id a ha.0)
      ∙ ap (λ id. padded (hex_decode id)) e
      ∙ decode-bytes_to_trace_id b hb.0,
  λ e. ap hex_encode (sym (trimmed-padded a ha) ∙ ap trimmed e ∙ trimmed-padded b hb),
)
