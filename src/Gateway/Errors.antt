-- ===== src/Gateway/Errors.antt =====
-- What the gateway of services/gateway answers where a service sends an error of the platform.
use vrp_oneclick_deposit_pla.Common.{ℕ, Bool, String, ◌≡◌, refl}
use vrp_oneclick_deposit_pla.Domainerr.{
  Code, validation, consent_limit_exceeded, consent_expired, consent_revoked, consent_inactive,
  risk_declined, bank_rejected, bank_unavailable, merchant_suspended, duplicate_idempotency,
  conflict, unknown_code, GrpcCode, domain, code_text, code_field, message_field,
}
use vrp_oneclick_deposit_pla.Domainerr.Grpc.{to_grpc}
use vrp_oneclick_deposit_pla.Domainerr.RoundTrip.{NoCodePrefix, carried, from_grpc-to_grpc}
use vrp_oneclick_deposit_pla.Gateway.{
  write_error, map_code, map_unplatformed, map_status, status_from, map_grpc_error,
}

-- The HTTP status that a merchant may expect for a code: what the request lacks is 400, 404 or 409,
-- what the business refuses is 422, and what the platform cannot do is 503 or 500.
abbrev pub expected_status : Code → ℕ
expected_status validation = 400
expected_status Code.not_found = 404
expected_status Code.already_exists = 409
expected_status duplicate_idempotency = 409
expected_status bank_unavailable = 503
expected_status Code.internal = 500
expected_status (unknown_code s) = 500
expected_status _ = 422

module _ (g : GrpcCode → String → String) (detailed : Bool) (request_id : String) where
  sent_code :
      (c : Code) (m : String)
      → map_code g request_id (to_grpc g detailed (domain c m)) (carried c) m
        ≡ write_error request_id (expected_status c) (code_text (carried c)) m
  unfolding map_code map_unplatformed map_status status_from to_grpc code_text
  sent_code validation m = refl
  sent_code Code.not_found m = refl
  sent_code Code.already_exists m = refl
  sent_code duplicate_idempotency m = refl
  sent_code bank_unavailable m = refl
  sent_code Code.internal m = refl
  sent_code (unknown_code s) m = refl
  sent_code consent_limit_exceeded m = refl
  sent_code consent_expired m = refl
  sent_code consent_revoked m = refl
  sent_code consent_inactive m = refl
  sent_code risk_declined m = refl
  sent_code bank_rejected m = refl
  sent_code merchant_suspended m = refl
  sent_code conflict m = refl

  -- An error of the platform that a service returns by `ToGRPC` reaches the merchant with the status
  -- of its code, with the code that the passage over gRPC leaves of it, and with its message, if the
  -- message does not itself begin with the text of a code and a colon.
  pub map_grpc_error-to_grpc :
      (c : Code) (m : String)
      → NoCodePrefix m
      → map_grpc_error g request_id (to_grpc g detailed (domain c m))
        ≡ write_error request_id (expected_status c) (code_text (carried c)) m
  unfolding map_grpc_error code_field message_field
  map_grpc_error-to_grpc c m h = rw (from_grpc-to_grpc g detailed c m h) (sent_code c m)
