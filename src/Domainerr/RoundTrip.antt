-- ===== src/Domainerr/RoundTrip.antt =====
-- A platform error that a service sends by `ToGRPC` and a client reads by `FromGRPC`
-- (pkg/shared/domainerr/errors.go).
use vrp_oneclick_deposit_pla.Common.{Bool, true, false, none, some, ◌≡◌, refl, String, arith}
use vrp_oneclick_deposit_pla.Domainerr.{
  Code, validation, consent_limit_exceeded, consent_expired, consent_revoked, consent_inactive,
  risk_declined, bank_rejected, bank_unavailable, merchant_suspended, duplicate_idempotency,
  conflict, unknown_code, GrpcCode, invalid_argument, unavailable, domain, code_of_text,
  is_known_code,
}
use vrp_oneclick_deposit_pla.Domainerr.Grpc.{
  to_grpc, from_grpc, from_message, from_standard, split_colon, make_failed_precondition,
}

-- The code that arrives: a duplicate key is told from another existing thing no more, and a code
-- that is none of the constants has become an internal error.
abbrev pub carried : Code → Code
carried duplicate_idempotency = Code.already_exists
carried (unknown_code s) = Code.internal
carried c = c

-- The message does not itself begin with the text of a code and a colon.
abbrev pub NoCodePrefix : String → Type 0
NoCodePrefix m = elim (split_colon m) [
  | none ↦ Unit
  | some (before, after) ↦ is_known_code (code_of_text before) ≡ false
]

-- The codes of the second group of `ToGRPC`.
is_failed_precondition : Code → Bool
is_failed_precondition validation = false
is_failed_precondition Code.not_found = false
is_failed_precondition Code.already_exists = false
is_failed_precondition duplicate_idempotency = false
is_failed_precondition bank_unavailable = false
is_failed_precondition Code.internal = false
is_failed_precondition (unknown_code s) = false
is_failed_precondition _ = true

from_message-plain :
    (c : GrpcCode) (m : String) → NoCodePrefix m → from_message c m ≡ from_standard c m
unfolding from_message
from_message-plain c m h = ground arith

-- The codes that travel as a failed precondition, by the detail or by the text before the message.
precondition_carried :
    (g : GrpcCode → String → String) (detailed : Bool) (c : Code) (m : String)
    → is_failed_precondition c ≡ true
    → from_grpc g (make_failed_precondition detailed c m) ≡ domain c m
unfolding make_failed_precondition from_grpc is_failed_precondition
precondition_carried g true consent_limit_exceeded m h = refl
precondition_carried g false consent_limit_exceeded m h = refl
precondition_carried g true consent_expired m h = refl
precondition_carried g false consent_expired m h = refl
precondition_carried g true consent_revoked m h = refl
precondition_carried g false consent_revoked m h = refl
precondition_carried g true consent_inactive m h = refl
precondition_carried g false consent_inactive m h = refl
precondition_carried g true risk_declined m h = refl
precondition_carried g false risk_declined m h = refl
precondition_carried g true bank_rejected m h = refl
precondition_carried g false bank_rejected m h = refl
precondition_carried g true merchant_suspended m h = refl
precondition_carried g false merchant_suspended m h = refl
precondition_carried g true conflict m h = refl
precondition_carried g false conflict m h = refl
precondition_carried g detailed _ m h = cc

-- A platform error that `ToGRPC` sends is read by `FromGRPC` with the code that `carried` gives and
-- with its message, whether or not `WithDetails` succeeds, if the message does not itself begin
-- with the text of a code and a colon.
pub from_grpc-to_grpc :
    (g : GrpcCode → String → String) (detailed : Bool) (c : Code) (m : String)
    → NoCodePrefix m
    → from_grpc g (to_grpc g detailed (domain c m)) ≡ domain (carried c) m
unfolding to_grpc from_grpc is_failed_precondition
from_grpc-to_grpc g detailed validation m h = from_message-plain invalid_argument m h
from_grpc-to_grpc g detailed Code.not_found m h = from_message-plain GrpcCode.not_found m h
from_grpc-to_grpc g detailed Code.already_exists m h =
    from_message-plain GrpcCode.already_exists m h
from_grpc-to_grpc g detailed duplicate_idempotency m h =
    from_message-plain GrpcCode.already_exists m h
from_grpc-to_grpc g detailed bank_unavailable m h = from_message-plain unavailable m h
from_grpc-to_grpc g detailed Code.internal m h = from_message-plain GrpcCode.internal m h
from_grpc-to_grpc g detailed (unknown_code s) m h = from_message-plain GrpcCode.internal m h
from_grpc-to_grpc g detailed consent_expired m h =
    precondition_carried g detailed consent_expired m refl
from_grpc-to_grpc g detailed consent_limit_exceeded m h =
    precondition_carried g detailed consent_limit_exceeded m refl
from_grpc-to_grpc g detailed consent_revoked m h =
    precondition_carried g detailed consent_revoked m refl
from_grpc-to_grpc g detailed consent_inactive m h =
    precondition_carried g detailed consent_inactive m refl
from_grpc-to_grpc g detailed risk_declined m h =
    precondition_carried g detailed risk_declined m refl
from_grpc-to_grpc g detailed bank_rejected m h =
    precondition_carried g detailed bank_rejected m refl
from_grpc-to_grpc g detailed merchant_suspended m h =
    precondition_carried g detailed merchant_suspended m refl
from_grpc-to_grpc g detailed conflict m h = precondition_carried g detailed conflict m refl
