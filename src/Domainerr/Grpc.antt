-- ===== src/Domainerr/Grpc.antt =====
-- `ToGRPC`, `FromGRPC`, `CodeOf` and `MessageOf` of pkg/shared/domainerr/errors.go, and
-- `mapDownstreamErr` of services/payment-svc/internal/saga.go.
use Prim.Native.Char.{code}
use vrp_oneclick_deposit_pla.Common.{
  Bool, Option, none, some, List, [], ◌∷◌, ◌&&◌, ◌+++◌, ◌==◌, String, eqb, if◌then◌else◌,
}
use vrp_oneclick_deposit_pla.Domainerr.{
  Code, validation, consent_limit_exceeded, consent_expired, consent_revoked, consent_inactive,
  risk_declined, bank_rejected, bank_unavailable, merchant_suspended, duplicate_idempotency,
  conflict, unknown_code, GrpcCode, invalid_argument, failed_precondition, unavailable, Detail,
  error_info, other_detail, Err, domain, wrapped, status, annotated, domain_platform, code_text,
  code_of_text, is_known_code, as_domain, code_field, message_field, error_text,
}

-- The status error for a code of the second group of `ToGRPC`: with the detail, or, where
-- `WithDetails` fails (`detailed` is its outcome), with the code before the message.
unfoldable pub make_failed_precondition : Bool → Code → String → Err
unfolding code_text
make_failed_precondition detailed c m =
    if detailed
    then status failed_precondition m (error_info (code_text c) domain_platform ∷ [])
    else status failed_precondition (code_text c +++ (": " +++ m)) []

unfoldable pub to_grpc_code : Bool → Code → String → Err
unfolding make_failed_precondition
to_grpc_code detailed validation m = status invalid_argument m []
to_grpc_code detailed Code.not_found m = status GrpcCode.not_found m []
to_grpc_code detailed Code.already_exists m = status GrpcCode.already_exists m []
to_grpc_code detailed duplicate_idempotency m = status GrpcCode.already_exists m []
to_grpc_code detailed consent_limit_exceeded m =
    make_failed_precondition detailed consent_limit_exceeded m
to_grpc_code detailed consent_expired m = make_failed_precondition detailed consent_expired m
to_grpc_code detailed consent_revoked m = make_failed_precondition detailed consent_revoked m
to_grpc_code detailed consent_inactive m = make_failed_precondition detailed consent_inactive m
to_grpc_code detailed risk_declined m = make_failed_precondition detailed risk_declined m
to_grpc_code detailed bank_rejected m = make_failed_precondition detailed bank_rejected m
to_grpc_code detailed merchant_suspended m = make_failed_precondition detailed merchant_suspended m
to_grpc_code detailed conflict m = make_failed_precondition detailed conflict m
to_grpc_code detailed bank_unavailable m = status unavailable m []
to_grpc_code detailed Code.internal m = status GrpcCode.internal m []
to_grpc_code detailed (unknown_code s) m = status GrpcCode.internal m []

-- `ToGRPC` of an error that is not nil.
unfoldable pub to_grpc : (GrpcCode → String → String) → Bool → Err → Err
unfolding as_domain code_field message_field to_grpc_code error_text
to_grpc g detailed e = elim (as_domain e) [
  | none ↦ status GrpcCode.internal (error_text g e) []
  | some de ↦ to_grpc_code detailed (code_field de) (message_field de)
]

-- The loop over `st.Details()`.
unfoldable pub platform_reason : List Detail → Option String
platform_reason [] = none
platform_reason (other_detail ∷ ds) = platform_reason ds
platform_reason (error_info reason dom ∷ ds) =
    if dom == domain_platform then some reason else platform_reason ds

-- `msg[:idx]` and `msg[idx+2:]` for `idx = strings.Index(msg, ": ")`.
unfoldable pub split_colon : String → Option (String × String)
split_colon String.[] = none
split_colon (String.◌∷◌ c String.[]) = none
split_colon (String.◌∷◌ c (String.◌∷◌ d s)) =
    if eqb (code c) b':' && eqb (code d) b' '
    then some ("", s)
    else elim (split_colon (String.◌∷◌ d s)) [
      | none ↦ none
      | some (before, after) ↦ some (String.◌∷◌ c before, after)
    ]

-- The third step of `FromGRPC`.
unfoldable pub from_standard : GrpcCode → String → Err
from_standard invalid_argument m = domain validation m
from_standard GrpcCode.not_found m = domain Code.not_found m
from_standard GrpcCode.already_exists m = domain Code.already_exists m
from_standard unavailable m = domain bank_unavailable m
from_standard _ m = domain Code.internal m

-- The second and third step.
unfoldable pub from_message : GrpcCode → String → Err
unfolding split_colon code_of_text is_known_code from_standard
from_message c m = elim (split_colon m) [
  | none ↦ from_standard c m
  | some (before, after) ↦
      if is_known_code (code_of_text before)
      then domain (code_of_text before) after
      else from_standard c m
]

-- A status error: the reason of a platform detail, the code before the message, or the gRPC code.
unfoldable pub from_status : GrpcCode → String → List Detail → Err
unfolding platform_reason code_of_text from_message
from_status c m ds = elim (platform_reason ds) [
  | some reason ↦ domain (code_of_text reason) m
  | none ↦ from_message c m
]

-- The gRPC status that an error is or wraps (`status.FromError`): a wrapped one keeps its code and
-- details, and has the text of the whole error for its message.
unfoldable pub status_of : Err → Option (GrpcCode × List Detail)
status_of (status c m ds) = some (c, ds)
status_of (annotated s e) = status_of e
status_of _ = none

-- `FromGRPC` of an error that is not nil.
unfoldable pub from_grpc : (GrpcCode → String → String) → Err → Err
unfolding as_domain status_of from_status error_text
from_grpc g (status c m ds) = from_status c m ds
from_grpc g e = elim (as_domain e) [
  | some de ↦ de
  | none ↦ elim (status_of e) [
    | some (c, ds) ↦ from_status c (error_text g e) ds
    | none ↦ domain Code.internal (error_text g e)
  ]
]

-- `CodeOf` and `MessageOf` of an error that is not nil.
unfoldable pub code_of : (GrpcCode → String → String) → Err → Code
unfolding from_grpc code_field
code_of g e = code_field (from_grpc g e)

unfoldable pub message_of : (GrpcCode → String → String) → Err → String
unfolding from_grpc message_field
message_of g e = message_field (from_grpc g e)

-- `mapDownstreamErr` of an error that is not nil: the platform's error inside it, or the one that
-- its gRPC status stands for, with the error itself as the cause.
unfoldable pub map_downstream_err : (GrpcCode → String → String) → Err → Err
unfolding as_domain from_grpc code_field message_field
map_downstream_err g e = elim (as_domain e) [
  | some de ↦ de
  | none ↦ let de = from_grpc g e in wrapped (code_field de) (message_field de) e
]
