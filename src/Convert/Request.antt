-- ===== src/Convert/Request.antt =====
-- pkg/convert/common.go and pkg/convert/errors.go: what a request says about itself, the reading of
-- its body, and the errors. The decompressors and the decoders are parameters.
use Prim.Native.String.{◌++◌ as join}
use tracing_proxy.Base.{
  ℕ, Result, Result-cases, String, List, [], ◌∷◌, Option, none, some, Bool, true, false, ◌||◌, ◌≡◌,
  inl, inr, if◌then◌else◌, same_text, arith,
}
use tracing_proxy.Convert.Messages.{ResourceSpans}

-- `OTLPError`; the code of gRPC is the number of it
pub record OtlpError : Type 0 where
  pub message : String
  pub http_status_code : ℕ
  pub grpc_status_code : ℕ

abbrev pub supported_content_types : List String
supported_content_types =
    "application/protobuf" ∷ "application/x-protobuf" ∷ "application/json" ∷ []

-- the loop of `IsContentTypeSupported`
unfoldable pub is_listed : String → List String → Bool
unfolding same_text
is_listed t [] = false
is_listed t (s ∷ rest) = same_text t s || is_listed t rest

unfoldable pub is_content_type_supported : String → Bool
unfolding is_listed
is_content_type_supported t = is_listed t supported_content_types

abbrev pub err_invalid_content_type : OtlpError
err_invalid_content_type = record {
  message =
      "unsupported content-type, valid types are: application/protobuf, application/x-protobuf, application/json";
  http_status_code = 415;
  grpc_status_code = 12;
}

abbrev pub err_failed_parse_body : OtlpError
err_failed_parse_body = record {
  message = "failed to parse OTLP request body";
  http_status_code = 400;
  grpc_status_code = 13;
}

-- an error: one of this package, or the text of another
pub data Failure : Type 0 where
  otlp : OtlpError → Failure
  plain : String → Failure

-- `Error`
unfoldable pub error_text : Failure → String
error_text (otlp e) = e.message
error_text (plain s) = s

-- `AsGRPCError`: the code and the message
unfoldable pub as_grpc_error : Failure → ℕ × String
as_grpc_error (otlp e) = (e.grpc_status_code, e.message)
as_grpc_error (plain s) = (13, "")

unfoldable pub as_json : Failure → String
unfolding error_text
as_json e = join "{\"message\":\"" (join (error_text e) "\"}")

pub record RequestInfo : Type 0 where
  pub dataset : String
  pub content_type : String
  pub content_encoding : String
  pub api_token : String
  pub api_tenant_id : String

-- the first of the values for a key
unfoldable pub get_value_from_metadata : (String → List String) → String → String
get_value_from_metadata get key = elim (get key) [ [] ↦ "" | v ∷ rest ↦ v ]

-- `metadata` is that of the call, if it has any: the values for each key
unfoldable pub get_request_info_from_grpc_metadata : Option (String → List String) → RequestInfo
unfolding get_value_from_metadata
get_request_info_from_grpc_metadata none = record {
  dataset = "";
  content_type = "application/protobuf";
  content_encoding = "";
  api_token = "";
  api_tenant_id = "";
}
get_request_info_from_grpc_metadata (some get) = record {
  dataset = get_value_from_metadata get "x-opsramp-dataset";
  content_type = "application/protobuf";
  content_encoding = "";
  api_token = get_value_from_metadata get "authorization";
  api_tenant_id = get_value_from_metadata get "tenantId";
}

-- `header` is `http.Header.Get`
unfoldable pub get_request_info_from_http_headers : (String → String) → RequestInfo
get_request_info_from_http_headers header = record {
  dataset = header "x-opsramp-dataset";
  content_type = header "content-type";
  content_encoding = header "content-encoding";
  api_token = header "authorization";
  api_tenant_id = header "tenantId";
}

unfoldable pub validate_logs_headers : RequestInfo → Option OtlpError
unfolding is_content_type_supported
validate_logs_headers ri =
    if is_content_type_supported ri.content_type then none else some err_invalid_content_type

-- What packages make of the bytes: `gunzip` and `unzstd` make a reader and read it to its end.
pub record Readers : Type 0 where
  pub gunzip : List ℕ → Result String (List ℕ)
  pub unzstd : List ℕ → Result String (List ℕ)
  pub proto_unmarshal : List ℕ → Result String (List ResourceSpans)
  pub json_unmarshal : List ℕ → Result String (List ResourceSpans)

-- what reading a body gives
abbrev pub Read : Type 0
Read = Result String (List ℕ)

module _ (R : Readers) where
  unfoldable pub decompress : String → List ℕ → Result String (List ℕ)
  unfolding same_text
  decompress encoding body =
      if same_text encoding "gzip"
      then R.gunzip body
      else if same_text encoding "zstd"
      then R.unzstd body
      else Result.ok body

  unfoldable pub as_failure : {A : Type 0} → Result String A → Result Failure A
  as_failure (Result.ok a) = Result.ok a
  as_failure (Result.err e) = Result.err (plain e)

  unfoldable pub decode : String → List ℕ → Result Failure (List ResourceSpans)
  unfolding same_text as_failure
  decode content_type bytes =
      if same_text content_type "application/protobuf"
        || same_text content_type "application/x-protobuf"
      then as_failure (R.proto_unmarshal bytes)
      else if same_text content_type "application/json"
      then as_failure (R.json_unmarshal bytes)
      else Result.err (otlp err_invalid_content_type)

  unfoldable pub parse_otlp_request_body :
      Read → String → String → Result Failure (List ResourceSpans)
  unfolding decompress decode
  parse_otlp_request_body (Result.err e) content_type encoding = Result.err (plain e)
  parse_otlp_request_body (Result.ok body) content_type encoding = elim (decompress encoding body) [
    | Result.err e ↦ Result.err (plain e)
    | Result.ok bytes ↦ decode content_type bytes
  ]

  -- Every failure becomes a text.
  unfoldable pub read_request : Read → RequestInfo → Result Failure (List ResourceSpans)
  unfolding parse_otlp_request_body error_text
  read_request body ri = elim (parse_otlp_request_body body ri.content_type ri.content_encoding) [
    | Result.ok request ↦ Result.ok request
    | Result.err e ↦
        Result.err (plain (join err_failed_parse_body.message (join ": " (error_text e))))
  ]

  -- A body is decoded only if its type is one of those that `IsContentTypeSupported` allows.
  pub parse_otlp_request_body-ok :
      (body : Read) (content_type encoding : String) (request : List ResourceSpans)
      → parse_otlp_request_body body content_type encoding ≡ Result.ok request
      → is_content_type_supported content_type ≡ true
  unfolding parse_otlp_request_body decode is_content_type_supported
  parse_otlp_request_body-ok (Result.err e) content_type encoding request h = absurd (cc h)
  parse_otlp_request_body-ok (Result.ok body) content_type encoding request h =
      elim (Result-cases (decompress encoding body)) [
        | inr (e, failed) ↦ absurd (cc (rw (failed, parse_otlp_request_body) at h))
        | inl (bytes, read) ↦
            let decoded : decode content_type bytes ≡ Result.ok request =
              cc (rw (read, parse_otlp_request_body) at h) in
            ground (arith, decoded)
      ]
