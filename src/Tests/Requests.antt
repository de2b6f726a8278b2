-- ===== src/Tests/Requests.antt =====
-- Runs of the payment service's calls, services/payment-svc/internal/handler.go and saga.go.
use vrp_oneclick_deposit_pla.Common.{
  ◌≡◌, refl, none, some, true, false, [], ◌∷◌, pos, delete_rows, find_row, String, arith, subst,
}
use vrp_oneclick_deposit_pla.Payment.{Payment, is_failed}
use vrp_oneclick_deposit_pla.Payment.Repo.{has_id}
use vrp_oneclick_deposit_pla.Payment.World.{Env, allow}
use vrp_oneclick_deposit_pla.Domainerr.{ok}
use vrp_oneclick_deposit_pla.Domainerr.Triple.{Outcome}
use vrp_oneclick_deposit_pla.Payment.Initiate.{InitiateInput, initiate}
use vrp_oneclick_deposit_pla.Payment.Initiate.Once.{Quiet, initiate-unclaimed, is_key_call}
use vrp_oneclick_deposit_pla.Payment.Initiate.After.{Calm, Initiated}
use vrp_oneclick_deposit_pla.Payment.Initiate.Whole.{initiate-Initiated}
use vrp_oneclick_deposit_pla.Payment.Handler.{PaymentRequest, retry_payment}
use vrp_oneclick_deposit_pla.Payment.Handler.Laws.{retry_payment-unfailed}
use vrp_oneclick_deposit_pla.Tests.Sagas.{env_with, session, world, payment}

abbrev input : InitiateInput
input = record {
  idempotency_key = "k";
  merchant_id = "m";
  consent_id = "c";
  amount_pence = pos 5000;
  currency = "GBP";
  description = "deposit";
  skip_idempotency = false;
  existing = none;
}

-- Redis gives the key to another call.
initiate-unclaimed_example :
    Quiet session.tables (delete_rows is_key_call []) (initiate (env_with allow) input world).1
initiate-unclaimed_example = initiate-unclaimed (env_with allow) input world (λ cs. refl) refl

-- Redis gives the key to this call, and every service answers.
abbrev claimed : Env
claimed = record (env_with allow) { claim_reply = λ _. ok true }

initiate-Initiated_example :
    Outcome
      (λ r v. Initiated claimed session.tables.outbox (delete_rows is_key_call []) v r)
      (λ _. Calm session.tables.outbox (delete_rows is_key_call []))
      (initiate claimed input world)
initiate-Initiated_example = initiate-Initiated claimed input world refl

abbrev request : PaymentRequest
request = record { payment_id = "p"; merchant_id = "" }

only_row :
    (id : String) (p : Payment)
    → find_row (has_id id) (payment ∷ []) ≡ some p
    → is_failed p.status ≡ false
unfolding find_row
only_row id p h =
    let same : payment ≡ p = ground arith in
    subst (λ (q : Payment). is_failed q.status ≡ false) same refl

-- The payment has just been initiated.
retry_payment-unfailed_example :
    Quiet session.tables
      (delete_rows is_key_call [])
      (retry_payment (env_with allow) true (some request) world).1
retry_payment-unfailed_example =
    retry_payment-unfailed (env_with allow) true request world
      (λ p (id, _, found). only_row id p found)
