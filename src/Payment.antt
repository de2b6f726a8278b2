-- ===== src/Payment.antt =====
-- services/payment-svc/internal: the payments, their events and the outbox. The rows are those of
-- migrations/payment/000001_init.up.sql; a time is a number of seconds, and 0 the zero time.
pub mod Fee
pub mod Repo
pub mod World
pub mod Outbox
pub mod Handler
pub mod Idempotency
pub mod Initiate
pub mod Reconcile
pub mod Saga
use vrp_oneclick_deposit_pla.Common.{ℕ, Bool, true, false, Option, String, List, ℤ}

pub data Status : Type 0 where
  initiated consent_reserved risk_passed authorising settled failed manual_review : Status

-- `Payment`. The empty text stands for a missing reference, decision or reason, as in Go.
pub record Payment : Type 0 where
  pub id : String
  pub idempotency_key : String
  pub merchant_id : String
  pub consent_id : String
  pub consumer_id : String
  pub amount_pence : ℤ
  pub currency : String
  pub status : Status
  pub bank_payment_ref : String
  pub reservation_id : Option String
  pub risk_score : Option ℤ
  pub risk_decision : String
  pub failure_reason : String
  pub description : String
  pub initiated_at : ℕ
  pub settled_at : Option ℕ
  pub updated_at : ℕ

-- A row of `payment_event`. Its metadata is not read by the program.
pub record Event : Type 0 where
  pub payment_id : String
  pub from : Option Status
  pub to : Status
  pub reason : String

-- The fields of the body that `buildSettledPayload` marshals.
pub record SettledPayload : Type 0 where
  pub event_type : String
  pub payment_id : String
  pub idempotency_key : String
  pub merchant_id : String
  pub consent_id : String
  pub consumer_id : String
  pub amount_pence : ℤ
  pub currency : String
  pub status : Status
  pub bank_payment_ref : String
  pub risk_score : Option ℤ
  pub risk_decision : String
  pub description : String
  pub initiated_at : ℕ
  pub settled_at : ℕ

pub record OutboxRow : Type 0 where
  pub id : String
  pub topic : String
  pub key : String
  pub payload : SettledPayload
  pub created_at : ℕ

-- The tables `payment`, `payment_event` and `outbox`.
pub record Store : Type 0 where
  pub payments : List Payment
  pub events : List Event
  pub outbox : List OutboxRow

abbrev pub topic_payment_events : String
topic_payment_events = "payment.events"

abbrev pub event_payment_settled : String
event_payment_settled = "payment.settled"

-- `isTerminalPayment`
unfoldable pub is_terminal : Status → Bool
is_terminal failed = true
is_terminal settled = true
is_terminal manual_review = true
is_terminal _ = false

abbrev pub is_failed : Status → Bool
is_failed failed = true
is_failed _ = false

-- `status IN ('INITIATED', 'CONSENT_RESERVED', 'RISK_PASSED', 'AUTHORISING')`
unfoldable pub is_in_flight : Status → Bool
is_in_flight initiated = true
is_in_flight consent_reserved = true
is_in_flight risk_passed = true
is_in_flight authorising = true
is_in_flight _ = false
