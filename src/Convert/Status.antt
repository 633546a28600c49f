-- ===== src/Convert/Status.antt =====
-- The loop of `TranslateTraceRequest` in pkg/convert/traces.go over the attributes of a span, which
-- decides whether the span is an error.
use tracing_proxy.Base.{
  String, List, [], ◌∷◌, Option, some, Bool, true, false, ◌||◌, ◌&&◌, not, leb, ◌==◌, same_text,
  filter, ◌≡◌, refl, if◌then◌else◌, arith,
}
use tracing_proxy.Base.Int.{ℤ, pos, negsuc}
use tracing_proxy.Convert.Values.{AnyValue, Attribute}
use tracing_proxy.Convert.Messages.{Tools}

unfoldable pub get_int_value : Option AnyValue → ℤ
get_int_value (some (AnyValue.int_value n)) = n
get_int_value _ = pos 0

unfoldable pub get_string_value : Option AnyValue → String
get_string_value (some (AnyValue.string_value s)) = s
get_string_value _ = ""

unfoldable pub is_zero : ℤ → Bool
is_zero (pos n) = n == 0
is_zero (negsuc n) = false

unfoldable pub is_http_error : ℤ → Bool
is_http_error (pos n) = leb 400 n || n == 0
is_http_error (negsuc n) = false

unfoldable pub is_http_key : String → Bool
unfolding same_text
is_http_key key = same_text key "http.status_code" || same_text key "http.response.status_code"

unfoldable pub is_grpc_key : String → Bool
unfolding same_text
is_grpc_key key = same_text key "rpc.grpc.status_code"

unfoldable pub kept : ℤ × Bool → ℤ × Bool
kept (code, error) = if error then (code, true) else (pos 0, false)

module _ (tools : Tools) where
  open tools use {shows_int, parse_int}

  unfoldable pub status_code : Option AnyValue → ℤ
  unfolding get_int_value get_string_value
  status_code v = if shows_int v then get_int_value v else parse_int (get_string_value v)

  -- the loop, with the code so far: the code and whether it is an error
  unfoldable pub read_status : ℤ → List Attribute → ℤ × Bool
  unfolding status_code is_http_key is_grpc_key is_http_error is_zero
  read_status code [] = (code, false)
  read_status code ((key, v) ∷ rest) = elim (is_http_key key) [
    | true ↦ elim (is_http_error (status_code v)) [
      | true ↦ (status_code v, true)
      | false ↦ read_status (status_code v) rest
    ]
    | false ↦ elim (is_grpc_key key) [
      | true ↦ elim (is_zero (status_code v)) [
        | true ↦ read_status (status_code v) rest
        | false ↦ (status_code v, true)
      ]
      | false ↦ read_status code rest
    ]
  ]

  -- Without an error the code is that of a status that is not set.
  unfoldable pub span_status : List Attribute → ℤ × Bool
  unfolding read_status kept
  span_status attrs = kept (read_status (pos 0) attrs)

  -- An attribute of a status of HTTP that is 0 or at least 400, or of one of gRPC that is not 0.
  abbrev pub is_error : Attribute → Bool
  is_error a =
      (is_http_key a.0 && is_http_error (status_code a.1))
      || (not (is_http_key a.0) && (is_grpc_key a.0 && not (is_zero (status_code a.1))))

  abbrev pub first_error : List Attribute → ℤ × Bool
  first_error [] = (pos 0, false)
  first_error (a ∷ _) = (status_code a.1, true)

  read_status-first :
      (code : ℤ) (attrs : List Attribute)
      → kept (read_status code attrs) ≡ first_error (filter is_error attrs)
  unfolding read_status kept
  read_status-first code [] = refl
  read_status-first code ((key, v) ∷ rest) =
      let next = read_status-first (status_code v) rest in
      let same = read_status-first code rest in ground (arith, next, same)

  -- The status of a span is that of its first attribute whose status code is an error, where
  -- a code of HTTP is an error if it is 0 or at least 400, and one of gRPC if it is not 0;
  -- without such an attribute the span is no error and its code is 0.
  pub span_status-filter :
      (attrs : List Attribute) → span_status attrs ≡ first_error (filter is_error attrs)
  unfolding span_status
  span_status-filter attrs = read_status-first (pos 0) attrs
