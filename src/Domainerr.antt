-- ===== src/Domainerr.antt =====
-- pkg/shared/domainerr/errors.go: the platform's error codes, its errors, and their passage over
-- gRPC. An error of Go is a value of `Err`; `errors.As` is the search along the wrapped errors.
pub mod Grpc
pub mod RoundTrip
pub mod Triple
use vrp_oneclick_deposit_pla.Common.{
  Bool, true, false, Option, none, some, List, ◌+++◌, ◌==◌, String, if◌then◌else◌,
}

pub data Code : Type 0 where
  validation not_found already_exists consent_limit_exceeded consent_expired : Code
  consent_revoked consent_inactive risk_declined bank_rejected bank_unavailable : Code
  merchant_suspended duplicate_idempotency conflict internal : Code
  -- A code that is none of the constants.
  unknown_code : String → Code

-- The codes of google.golang.org/grpc/codes.
pub data GrpcCode : Type 0 where
  okay canceled unknown invalid_argument deadline_exceeded not_found already_exists : GrpcCode
  permission_denied resource_exhausted failed_precondition aborted out_of_range : GrpcCode
  unimplemented internal unavailable data_loss unauthenticated : GrpcCode

-- A detail of a gRPC status: `errdetails.ErrorInfo` with its reason and domain, or another message.
pub data Detail : Type 0 where
  error_info : String → String → Detail
  other_detail : Detail

-- `domain` and `wrapped` are a `*domainerr.Error` without and with a cause; `annotated` is
-- `fmt.Errorf("…: %w", err)`; `pg` is a `*pgconn.PgError` with its SQLSTATE and its text; `no_rows`
-- is `pgx.ErrNoRows`; `status` is the error of a gRPC status.
pub data Err : Type 0 where
  domain : Code → String → Err
  wrapped : Code → String → Err → Err
  status : GrpcCode → String → List Detail → Err
  annotated : String → Err → Err
  pg : String → String → Err
  plain : String → Err
  no_rows : Err

-- What a call of Go returns beside its error: `ok` where the error is nil.
pub data Result {ℓ} (A : Type ℓ) : Type ℓ where
  ok : A → Result A
  err : Err → Result A

-- What follows a call that is checked with `if err != nil { return err }`.
infixl 5 ◌>>=◌
abbrev pub ◌>>=◌ {ℓ κ} : {A : Type ℓ} {B : Type κ} (r : Result A) (next : A → Result B) → Result B
◌>>=◌ (err e) next = err e
◌>>=◌ (ok a) next = next a

infixl 5 ◌>>◌
abbrev pub ◌>>◌ {ℓ} : {B : Type ℓ} (r : Result (Unit {0})) (next : Result B) → Result B
◌>>◌ r next = r >>= λ _. next

-- `if bad { return err }`
abbrev pub reject_if : Bool → Err → Result (Unit {0})
reject_if true e = err e
reject_if false e = ok tt

abbrev pub domain_platform : String
domain_platform = "vrp.platform"

-- The text of a code, as the constants spell it.
unfoldable pub code_text : Code → String
code_text validation = "VALIDATION_ERROR"
code_text Code.not_found = "NOT_FOUND"
code_text Code.already_exists = "ALREADY_EXISTS"
code_text consent_limit_exceeded = "CONSENT_LIMIT_EXCEEDED"
code_text consent_expired = "CONSENT_EXPIRED"
code_text consent_revoked = "CONSENT_REVOKED"
code_text consent_inactive = "CONSENT_INACTIVE"
code_text risk_declined = "RISK_DECLINED"
code_text bank_rejected = "BANK_REJECTED"
code_text bank_unavailable = "BANK_UNAVAILABLE"
code_text merchant_suspended = "MERCHANT_SUSPENDED"
code_text duplicate_idempotency = "DUPLICATE_IDEMPOTENCY_KEY"
code_text conflict = "CONFLICT"
code_text Code.internal = "INTERNAL_ERROR"
code_text (unknown_code s) = s

-- `Code(s)`: the constant that a text spells, or a code that is none of them.
unfoldable pub code_of_text : String → Code
code_of_text s =
    if s == "VALIDATION_ERROR"
    then validation
    else if s == "NOT_FOUND"
    then Code.not_found
    else if s == "ALREADY_EXISTS"
    then Code.already_exists
    else if s == "CONSENT_LIMIT_EXCEEDED"
    then consent_limit_exceeded
    else if s == "CONSENT_EXPIRED"
    then consent_expired
    else if s == "CONSENT_REVOKED"
    then consent_revoked
    else if s == "CONSENT_INACTIVE"
    then consent_inactive
    else if s == "RISK_DECLINED"
    then risk_declined
    else if s == "BANK_REJECTED"
    then bank_rejected
    else if s == "BANK_UNAVAILABLE"
    then bank_unavailable
    else if s == "MERCHANT_SUSPENDED"
    then merchant_suspended
    else if s == "DUPLICATE_IDEMPOTENCY_KEY"
    then duplicate_idempotency
    else if s == "CONFLICT"
    then conflict
    else if s == "INTERNAL_ERROR"
    then Code.internal
    else unknown_code s

unfoldable pub is_known_code : Code → Bool
is_known_code (unknown_code s) = false
is_known_code _ = true

-- `errors.As(err, &de)`: the first `*domainerr.Error` along the chain of wrapped errors.
unfoldable pub as_domain : Err → Option Err
as_domain (domain c m) = some (domain c m)
as_domain (wrapped c m e) = some (wrapped c m e)
as_domain (annotated s e) = as_domain e
as_domain _ = none

-- The fields `Code` and `Message` of a `*domainerr.Error`.
unfoldable pub code_field : Err → Code
code_field (domain c m) = c
code_field (wrapped c m e) = c
code_field _ = Code.internal

unfoldable pub message_field : Err → String
message_field (domain c m) = m
message_field (wrapped c m e) = m
message_field _ = ""

-- `domainerr.Is`: Go compares codes as texts.
unfoldable pub is_code : Err → Code → Bool
unfolding as_domain code_field code_text
is_code e c = elim (as_domain e) [
  | none ↦ false
  | some de ↦ code_text (code_field de) == code_text c
]

-- The text of an error. That of a gRPC status is the library's, a parameter.
unfoldable pub error_text : (GrpcCode → String → String) → Err → String
unfolding code_text
error_text g (domain c m) = code_text c +++ (": " +++ m)
error_text g (wrapped c m e) = code_text c +++ (": " +++ (m +++ (": " +++ error_text g e)))
error_text g (status c m ds) = g c m
error_text g (annotated s e) = s +++ (": " +++ error_text g e)
error_text g (pg state text) = text
error_text g (plain s) = s
error_text g no_rows = "no rows in result set"
