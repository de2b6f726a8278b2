-- ===== src/Tests/Texts.antt =====
-- Examples for the passage of errors over gRPC.
use vrp_oneclick_deposit_pla.Common.{true, ◌≡◌}
use vrp_oneclick_deposit_pla.Domainerr.{consent_limit_exceeded, domain}
use vrp_oneclick_deposit_pla.Domainerr.Grpc.{to_grpc, from_grpc, split_colon}
use vrp_oneclick_deposit_pla.Domainerr.RoundTrip.{NoCodePrefix, carried, from_grpc-to_grpc}

pub no_prefix : NoCodePrefix "monthly limit exceeded"
unfolding split_colon
no_prefix = tt

from_grpc-to_grpc_example :
    from_grpc
      (λ _ m. m)
      (to_grpc (λ _ m. m) true (domain consent_limit_exceeded "monthly limit exceeded"))
    ≡ domain (carried consent_limit_exceeded) "monthly limit exceeded"
from_grpc-to_grpc_example =
    from_grpc-to_grpc (λ _ m. m) true consent_limit_exceeded "monthly limit exceeded" no_prefix
