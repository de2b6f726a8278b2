-- ===== src/Payment/Handler.antt =====
-- services/payment-svc/internal/handler.go: the calls of the payment service. `details` says whether
-- `WithDetails` of a gRPC status succeeds.
pub mod Laws
use vrp_oneclick_deposit_pla.Common.{
  ℕ, Bool, true, false, not, String, ◌==◌, Option, none, some, if◌then◌else◌, ℤ, pos, trim_space,
}
use vrp_oneclick_deposit_pla.Domainerr.{Code, validation, conflict, Err, domain, Result, ok, err}
use vrp_oneclick_deposit_pla.Domainerr.Grpc.{to_grpc}
use vrp_oneclick_deposit_pla.Payment.{Status, Payment, is_failed, is_terminal}
use vrp_oneclick_deposit_pla.Payment
use vrp_oneclick_deposit_pla.Payment.Repo.{get_by_id_and_merchant}
use vrp_oneclick_deposit_pla.Payment.World.{Env, Saga, pure, raise, attempt, fetch, ◌>>=◌}
use vrp_oneclick_deposit_pla.Payment.Initiate.{
  InitiateInput, Reply, returned, returned_with, refused, by_id, initiate,
}

-- `commonv1.Money`
pub record Money : Type 0 where
  pub amount_pence : ℤ
  pub currency : String

-- `paymentv1.PaymentStatus`
pub data PaymentStatus : Type 0 where
  payment_status_unspecified initiated consent_reserved risk_passed : PaymentStatus
  authorising settled failed manual_review : PaymentStatus

-- `paymentv1.Payment`; a time that is not set is none.
pub record PaymentMessage : Type 0 where
  pub id : String
  pub idempotency_key : String
  pub merchant_id : String
  pub consent_id : String
  pub consumer_id : String
  pub amount : Money
  pub status : PaymentStatus
  pub bank_payment_ref : String
  pub risk_score : ℤ
  pub risk_decision : String
  pub failure_reason : String
  pub description : String
  pub initiated_at : ℕ
  pub settled_at : Option ℕ
  pub updated_at : ℕ

-- `paymentv1.InitiatePaymentRequest`
pub record InitiatePaymentRequest : Type 0 where
  pub idempotency_key : String
  pub merchant_id : String
  pub consent_id : String
  pub amount : Option Money
  pub description : String

-- `paymentv1.GetPaymentRequest` and `paymentv1.RetryPaymentRequest`
pub record PaymentRequest : Type 0 where
  pub payment_id : String
  pub merchant_id : String

-- Every status of a row has its name in `PaymentStatus_value`.
unfoldable pub status_to_proto : Status → PaymentStatus
status_to_proto Payment.initiated = initiated
status_to_proto Payment.consent_reserved = consent_reserved
status_to_proto Payment.risk_passed = risk_passed
status_to_proto Payment.authorising = authorising
status_to_proto Payment.settled = settled
status_to_proto Payment.failed = failed
status_to_proto Payment.manual_review = manual_review

abbrev pub or_zero : Option ℤ → ℤ
or_zero none = pos 0
or_zero (some z) = z

unfoldable pub to_proto : Payment → PaymentMessage
unfolding status_to_proto
to_proto p = record {
  id = p.id;
  idempotency_key = p.idempotency_key;
  merchant_id = p.merchant_id;
  consent_id = p.consent_id;
  consumer_id = p.consumer_id;
  amount = record { amount_pence = p.amount_pence; currency = p.currency };
  status = status_to_proto p.status;
  bank_payment_ref = p.bank_payment_ref;
  risk_score = or_zero p.risk_score;
  risk_decision = p.risk_decision;
  failure_reason = p.failure_reason;
  description = p.description;
  initiated_at = p.initiated_at;
  settled_at = p.settled_at;
  updated_at = p.updated_at;
}

module _ (env : Env) (details : Bool) where
  abbrev pub grpc : Err → Err
  grpc e = to_grpc env.grpc_text details e

  abbrev pub invalid : {A : Type 0} → String → Saga A
  invalid message = raise (grpc (domain validation message))

  -- A payment in a terminal state is returned without its error.
  unfoldable pub answer : Reply → Result PaymentMessage
  unfolding to_proto
  answer (returned p) = ok (to_proto p)
  answer (returned_with p e) = if is_terminal p.status then ok (to_proto p) else err (grpc e)
  answer (refused e) = err (grpc e)

  abbrev pub answered : Reply → Saga PaymentMessage
  answered r w = (answer r, w)

  unfoldable pub initiate_payment : Option InitiatePaymentRequest → Saga PaymentMessage
  unfolding answer
  initiate_payment none = invalid "request required"
  initiate_payment (some req) = elim req.amount [
    | none ↦ invalid "amount is required"
    | some amount ↦
        initiate env (record {
          idempotency_key = req.idempotency_key;
          merchant_id = req.merchant_id;
          consent_id = req.consent_id;
          amount_pence = amount.amount_pence;
          currency = amount.currency;
          description = req.description;
          skip_idempotency = false;
          existing = none;
        })
        >>= answered
  ]

  -- The look-up of a payment, by its merchant too where one is given.
  unfoldable pub load_payment : String → String → Saga Payment
  load_payment id merchant =
      if trim_space merchant == ""
      then by_id env id
      else elim (env.parse_uuid (trim_space merchant)) [
        | err e ↦ raise (domain validation "invalid merchant_id")
        | ok mid ↦ fetch (λ s. get_by_id_and_merchant env.server (env.now s.count) id mid s)
      ]

  unfoldable pub load_requested : Option PaymentRequest → Saga Payment
  unfolding load_payment
  load_requested none = raise (domain validation "payment_id is required")
  load_requested (some req) =
      if trim_space req.payment_id == ""
      then raise (domain validation "payment_id is required")
      else elim (env.parse_uuid req.payment_id) [
        | err e ↦ raise (domain validation "invalid payment_id")
        | ok id ↦ load_payment id req.merchant_id
      ]

  unfoldable pub get_payment : Option PaymentRequest → Saga PaymentMessage
  unfolding load_requested to_proto
  get_payment req = do
    r ← attempt (load_requested req)
    elim r [ err e ↦ raise (grpc e) | ok p ↦ pure (to_proto p) ]

  -- The retry of the payment that was found.
  unfoldable pub retry_loaded : Result Payment → Saga PaymentMessage
  unfolding answer
  retry_loaded (err e) = raise (grpc e)
  retry_loaded (ok p) =
      if not (is_failed p.status)
      then raise (grpc (domain conflict "only FAILED payments can be retried"))
      else (initiate env (record {
        idempotency_key = p.idempotency_key;
        merchant_id = p.merchant_id;
        consent_id = p.consent_id;
        amount_pence = p.amount_pence;
        currency = p.currency;
        description = p.description;
        skip_idempotency = true;
        existing = some p;
      })
          >>= answered)

  unfoldable pub retry_payment : Option PaymentRequest → Saga PaymentMessage
  unfolding load_requested retry_loaded
  retry_payment req = attempt (load_requested req) >>= retry_loaded
