-- ===== src/Gateway.antt =====
-- services/gateway/internal/httpapi/respond.go: the replies of the gateway, and the HTTP status and
-- the code that an error of a service is answered with. `Body` is the body of a reply.
pub mod Calls
pub mod Convert
pub mod Errors
pub mod Handlers
pub mod Limits
pub mod Middleware
use vrp_oneclick_deposit_pla.Common.{
  ℕ, Bool, true, false, String, Option, none, some, List, [], ◌∷◌, ◌==◌, ◌&&◌, ◌||◌, not,
  if◌then◌else◌, trim_space,
}
use vrp_oneclick_deposit_pla.Domainerr.{
  Code, validation, consent_limit_exceeded, consent_expired, consent_revoked, consent_inactive,
  risk_declined, bank_rejected, bank_unavailable, merchant_suspended, duplicate_idempotency,
  conflict, unknown_code, GrpcCode, invalid_argument, failed_precondition, unavailable, aborted,
  permission_denied, resource_exhausted, unauthenticated, Err, wrapped, status, annotated,
  code_text, code_of_text, is_known_code, code_field, message_field, error_text,
}
use vrp_oneclick_deposit_pla.Domainerr.Grpc.{from_grpc, split_colon}

-- `ErrorBody`
pub record ErrorBody : Type 0 where
  pub code : String
  pub message : String
  pub request_id : String

-- A reply with its status and its further headers: `Content-Type` and `X-Request-Id`, which every reply
-- has, are left out.
pub record HttpReply {ℓ} (Body : Type ℓ) : Type ℓ where
  pub status_code : ℕ
  pub headers : List (String × String)
  pub body : Body

-- `writeError`
abbrev pub write_error : String → ℕ → String → String → HttpReply ErrorBody
write_error request_id status_code code message = record {
  status_code = status_code;
  headers = [];
  body = record { code = code; message = message; request_id = request_id };
}

-- `status.FromError` of an error that is not nil: the code and the message of the gRPC status that
-- it is or wraps; a wrapped one has the text of the whole error for its message.
unfoldable pub status_from : (GrpcCode → String → String) → Err → Option (GrpcCode × String)
unfolding error_text
status_from g (status c m ds) = some (c, m)
status_from g (annotated s e) = elim (status_from g e) [
  | none ↦ none
  | some p ↦ some (p.0, error_text g (annotated s e))
]
status_from g (wrapped c m e) = elim (status_from g e) [
  | none ↦ none
  | some p ↦ some (p.0, error_text g (wrapped c m e))
]
status_from g _ = none

-- The texts of the codes are those of `Domainerr`.
unfoldable pub is_business_code : String → Bool
unfolding code_of_text is_known_code
is_business_code s = is_known_code (code_of_text s)

-- The prefix of a message before `": "` that is a code, and the rest.
unfoldable pub code_prefix : String → Option (String × String)
unfolding is_business_code split_colon
code_prefix m = elim (split_colon m) [
  | none ↦ none
  | some (before, after) ↦
      if not (before == "") && is_business_code before then some (before, after) else none
]

unfoldable pub code_of_status : GrpcCode → String
code_of_status invalid_argument = "VALIDATION_ERROR"
code_of_status GrpcCode.not_found = "NOT_FOUND"
code_of_status GrpcCode.already_exists = "ALREADY_EXISTS"
code_of_status aborted = "CONFLICT"
code_of_status _ = "INTERNAL_ERROR"

unfoldable pub grpc_business_code : GrpcCode → String → String
unfolding code_prefix code_of_status
grpc_business_code failed_precondition m = elim (code_prefix m) [
  | some (before, after) ↦ before
  | none ↦ "INTERNAL_ERROR"
]
grpc_business_code c m = code_of_status c

unfoldable pub strip_code_prefix : String → String
unfolding code_prefix
strip_code_prefix m = elim (code_prefix m) [ some (before, after) ↦ trim_space after | none ↦ m ]

-- The part of `mapGRPCError` for a gRPC status.
unfoldable pub map_status : String → GrpcCode → String → HttpReply ErrorBody
unfolding grpc_business_code strip_code_prefix
map_status rid invalid_argument m = write_error rid 400 (grpc_business_code invalid_argument m) m
map_status rid GrpcCode.not_found m =
    write_error rid 404 (grpc_business_code GrpcCode.not_found m) m
map_status rid GrpcCode.already_exists m =
    write_error rid 409 (grpc_business_code GrpcCode.already_exists m) m
map_status rid failed_precondition m =
    write_error rid 422 (grpc_business_code failed_precondition m) (strip_code_prefix m)
map_status rid unauthenticated m = write_error rid 401 "UNAUTHORIZED" m
map_status rid permission_denied m = write_error rid 403 "FORBIDDEN" m
map_status rid resource_exhausted m = write_error rid 429 "RATE_LIMITED" m
map_status rid unavailable m = write_error rid 503 "SERVICE_UNAVAILABLE" m
map_status rid aborted m = write_error rid 409 (grpc_business_code aborted m) m
map_status rid _ m = write_error rid 500 "INTERNAL_ERROR" m

unfoldable pub map_unplatformed : (GrpcCode → String → String) → String → Err → HttpReply ErrorBody
unfolding status_from map_status
map_unplatformed g rid e = elim (status_from g e) [
  | none ↦ write_error rid 500 "INTERNAL_ERROR" "unexpected error"
  | some (c, m) ↦ map_status rid c m
]

-- The switch over the codes of the platform; `e` is the error that `FromGRPC` was given.
unfoldable pub map_code :
    (GrpcCode → String → String) → String → Err → Code → String → HttpReply ErrorBody
unfolding code_text map_unplatformed
map_code g rid e Code.internal m = map_unplatformed g rid e
map_code g rid e validation m = write_error rid 400 (code_text validation) m
map_code g rid e Code.not_found m = write_error rid 404 (code_text Code.not_found) m
map_code g rid e Code.already_exists m = write_error rid 409 (code_text Code.already_exists) m
map_code g rid e duplicate_idempotency m = write_error rid 409 (code_text duplicate_idempotency) m
map_code g rid e bank_unavailable m = write_error rid 503 (code_text bank_unavailable) m
map_code g rid e (unknown_code s) m = write_error rid 500 s m
map_code g rid e c m = write_error rid 422 (code_text c) m

-- `mapGRPCError` of an error that is not nil.
unfoldable pub map_grpc_error : (GrpcCode → String → String) → String → Err → HttpReply ErrorBody
unfolding from_grpc code_field message_field map_code
map_grpc_error g rid e =
    let de : Err = from_grpc g e in map_code g rid e (code_field de) (message_field de)
