-- ===== src/Tests/Gateways.antt =====
-- Runs of the gateway, services/gateway/internal/httpapi.
use vrp_oneclick_deposit_pla.Common.{
  ◌-◌, ◌≤◌, ◌≡◌, refl, true, false, none, some, [], ◌∷◌, pos, trim_space, decimal,
}
use vrp_oneclick_deposit_pla.Domainerr.{domain, plain, risk_declined, code_text, ok, err}
use vrp_oneclick_deposit_pla.Domainerr.Grpc.{to_grpc}
use vrp_oneclick_deposit_pla.Domainerr.RoundTrip.{carried}
use vrp_oneclick_deposit_pla.Gateway.{write_error, map_grpc_error}
use vrp_oneclick_deposit_pla.Gateway.Errors.{expected_status, map_grpc_error-to_grpc}
use vrp_oneclick_deposit_pla.Gateway.Middleware.{
  ParseWithClaims, after_prefix, parse, key_for, authenticate, Counting, Counters, count_of,
  increment, limit_of, limit_key, counted, rate_limit, Request, request_id, limited, admit,
  admit_all,
}
use vrp_oneclick_deposit_pla.Gateway.Limits.{admitted_count, admit_all-bounded}
use vrp_oneclick_deposit_pla.Gateway.Calls.{Services, Route, initiate}
use vrp_oneclick_deposit_pla.Gateway.Handlers.{serve}
use vrp_oneclick_deposit_pla.Gateway.Handlers.Owned.{Served, serve-Served}
use vrp_oneclick_deposit_pla.Tests.Texts.{no_prefix}

map_grpc_error-to_grpc_example :
    map_grpc_error
      (λ _ m. m)
      "r"
      (to_grpc (λ _ m. m) true (domain risk_declined "monthly limit exceeded"))
    ≡ write_error "r"
        (expected_status risk_declined)
        (code_text (carried risk_declined))
        "monthly limit exceeded"
map_grpc_error-to_grpc_example =
    map_grpc_error-to_grpc (λ _ m. m) true "r" risk_declined "monthly limit exceeded" no_prefix

-- A token is the name of its merchant.
abbrev claims : ParseWithClaims
claims key token = elim (key "HS256") [ err e ↦ err e | ok k ↦ ok (true, token) ]

abbrev redis : Counting
redis = record { fault = λ _. none; expired = λ n key. false }

abbrev fresh : Counters
fresh = record { counts = []; runs = 0 }

abbrev request : Request
request = record { authorization = "bearer shop"; request_id_header = ""; new_id = "r"; second = 7 }

-- Of three requests in one second two are admitted.
two_admitted :
    admitted_count "shop" 7
      (admit_all claims "s" (some redis) (pos 2) (request ∷ request ∷ request ∷ []) fresh)
    ≡ 2
unfolding admit_all admit limited rate_limit counted increment count_of limit_of request_id
    authenticate after_prefix parse key_for admitted_count trim_space decimal
two_admitted = refl

admit_all-bounded_example :
    admitted_count "shop" 7
      (admit_all claims "s" (some redis) (pos 2) (request ∷ request ∷ request ∷ []) fresh)
    ≤ limit_of (pos 2) - count_of (limit_key "shop" 7) []
admit_all-bounded_example =
    admit_all-bounded redis (pos 2) "shop" 7 (λ n. refl) (λ n. refl) claims "s"
      (request ∷ request ∷ request ∷ []) fresh

-- Services that answer every call with an error.
abbrev services : Services
services = record {
  grpc_text = λ c m. m;
  merchant = λ _. err (plain "down");
  registration = λ _. err (plain "down");
  consent = λ _. err (plain "down");
  consents = λ _. err (plain "down");
  payment = λ _. err (plain "down");
  sign_token = λ m t. ok m;
  now = 7;
  token_ttl = 3600;
  rfc3339 = λ s. ok 9;
  rfc3339_nano = λ s. ok 9;
  format = decimal;
}

abbrev deposit : Route
deposit = initiate " key " (
    ok (record {
      consent_id = "c";
      amount = record { amount_pence = pos 500; currency = "GBP" };
      description = "";
    }))

serve-Served_example :
    Served claims "s" request []
      (serve services claims "s" (some redis) (pos 2) deposit request (fresh, [])).2
serve-Served_example =
    serve-Served claims "s" (some redis) (pos 2) services deposit request fresh []
