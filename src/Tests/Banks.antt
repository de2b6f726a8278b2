-- ===== src/Tests/Banks.antt =====
-- Runs of the bank adapter, services/bank-adapter/internal/adapter.go.
use vrp_oneclick_deposit_pla.Common.{
  ℕ, zero, suc, Bool, true, false, Bool-cases, inl, inr, Option, none, some, [], ◌∷◌, ◌≡◌, refl,
  pos, to_upper, trim_space,
}
use vrp_oneclick_deposit_pla.Domainerr.{ok, plain}
use vrp_oneclick_deposit_pla.Payment.World.{BankReply, bank_rejected}
use vrp_oneclick_deposit_pla.Bank.{
  Failure, failed, Wire, Http, Resilience, passed, do_with_resilience, do_http, send, responded,
  decoded, status_error, attempt_http, retried, guarded, map_status,
}
use vrp_oneclick_deposit_pla.Bank.Laws.{
  Retried, stopped, succeeded, refused, again, ran, Reliable, Exchanged,
  do_with_resilience-Exchanged,
}
use vrp_oneclick_deposit_pla.Bank.Calls.{
  InitiateRequest, HttpInitiateResp, initiate_payment, check_initiate, answered, known_status,
  with_reason, initiate_body,
}
use vrp_oneclick_deposit_pla.Bank.Calls.Laws.{Initiated, initiate_payment-Initiated}

-- A retry in the manner of retry-go, without waiting.
unfoldable retry :
    {A : Type 0}
    → ℕ
    → (Failure → Bool)
    → (Wire A → Option Failure × Wire A)
    → Wire A
    → Option Failure × Wire A
retry zero test f w = (some (failed (plain "attempts spent")), w)
retry (suc n) test f w =
    let (r, v) = f w in
    elim r [
      | none ↦ (none, v)
      | some e ↦ elim (test e) [ true ↦ retry n test f v | false ↦ (some e, v) ]
    ]

retry-Retried :
    {A : Type 0} (n : ℕ) (test : Failure → Bool) (f : Wire A → Option Failure × Wire A) (w : Wire A)
    → Retried f test n w (retry n test f w)
unfolding retry
retry-Retried zero test f w = stopped 0 w _
retry-Retried {A} (suc n) test f w = next (f w) refl (retry-Retried n test f)
  where
    next :
        (p : Option Failure × Wire A)
        → f w ≡ p
        → ((v : Wire A) → Retried f test n v (retry n test f v))
        → Retried f test (suc n) w (elim p.0 [
          | none ↦ (none, p.1)
          | some e ↦ elim (test e) [ true ↦ retry n test f p.1 | false ↦ (some e, p.1) ]
        ])
    next (none, v) h rest = succeeded n w v h
    next (some e, v) h rest = elim (Bool-cases (test e)) [
      | inl y ↦ rw y (again n w v e _ h y (rest v))
      | inr x ↦ rw x (refused n w v e h x)
    ]

abbrev resilience : Resilience HttpInitiateResp
resilience = record { retry_do = retry; execute = λ f w. (passed (f w).0, (f w).1) }

resilience-Reliable : Reliable resilience
resilience-Reliable = record {
  retries = λ n test f w. retry-Retried (suc n) test f w;
  executes = λ f w. ran;
}

-- A bank that rejects the payment.
abbrev http : Http HttpInitiateResp
http = record {
  new_request = λ _. none;
  answer = λ _. ok (record { status_code = 201; body = ok "rejected" });
  decode = λ t. ok (record { bank_payment_ref = "bank-1"; status = t; failure_reason = "" });
}

abbrev wire : Wire HttpInitiateResp
wire = record {
  sent = [];
  out = record { bank_payment_ref = ""; status = ""; failure_reason = "" };
  last = none;
}

do_with_resilience-Exchanged_example :
    Exchanged http "POST" "/bank/payments"
      (some (ok "{}"))
      wire
      (do_with_resilience http resilience "POST" "/bank/payments" (some (ok "{}")) wire)
do_with_resilience-Exchanged_example =
    do_with_resilience-Exchanged http "POST" "/bank/payments" (some (ok "{}")) resilience wire
      resilience-Reliable

abbrev request : InitiateRequest
request = record {
  payment_id = "p";
  bank_consent_ref = "bank-consent";
  consumer_id = "consumer";
  amount = some (record { amount_pence = pos 5000; currency = "" });
  description = "deposit";
}

abbrev reply : BankReply
reply = record {
  bank_payment_ref = "bank-1";
  status = bank_rejected;
  failure_reason = "bank rejected payment";
}

abbrev after : Wire HttpInitiateResp
after = record {
  sent = record { method = "POST"; path = "/bank/payments"; body = some "{}" } ∷ [];
  out = record { bank_payment_ref = "bank-1"; status = "rejected"; failure_reason = "" };
  last = none;
}

rejected_reply :
    initiate_payment (λ c m. m) true (λ t. t) http resilience (λ _. ok "{}") request wire
    ≡ (ok reply, after)
unfolding initiate_payment check_initiate answered known_status map_status with_reason
    do_with_resilience retried guarded attempt_http do_http send responded decoded status_error
    retry initiate_body to_upper trim_space
rejected_reply = refl

initiate_payment-Initiated_example :
    Initiated (λ t. t) http resilience (λ _. ok "{}") request wire reply after
initiate_payment-Initiated_example =
    initiate_payment-Initiated (λ c m. m) true (λ t. t) http resilience (λ _. ok "{}") request wire
      after reply rejected_reply
