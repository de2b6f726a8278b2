-- ===== src/Gateway/Convert.antt =====
-- services/gateway/internal/httpapi/types.go and convert.go: the bodies of requests and replies, and
-- the messages of the services.
use vrp_oneclick_deposit_pla.Common.{
  ℕ, String, Option, none, some, List, ◌==◌, ℤ, if◌then◌else◌, trim_space, to_upper, map,
}
use vrp_oneclick_deposit_pla.Domainerr.{Result, ok, err}
use vrp_oneclick_deposit_pla.Payment.Handler.{
  Money, PaymentStatus, payment_status_unspecified, initiated, consent_reserved, risk_passed,
  authorising, settled, failed, manual_review, PaymentMessage,
}
use vrp_oneclick_deposit_pla.Consent.Handler.{
  ConsentState, unspecified, pending, active, revoked, expired, ConsentMessage, ListResponse,
}
use vrp_oneclick_deposit_pla.Merchant.Handler.{MerchantMessage}

pub record RegisterMerchantRequest : Type 0 where
  pub name : String
  pub webhook_url : String
  pub contact_email : String

pub record MerchantResponse : Type 0 where
  pub id : String
  pub name : String
  pub kyb_status : String
  pub status : String
  pub webhook_url : String
  pub created_at : String
  pub updated_at : String

pub record CreateConsentRequest : Type 0 where
  pub consumer_id : String
  pub bank_consent_ref : String
  pub max_per_transaction : Money
  pub max_per_month : Money
  pub valid_until : String

pub record ConsentResponse : Type 0 where
  pub id : String
  pub merchant_id : String
  pub consumer_id : String
  pub bank_consent_ref : String
  pub status : String
  pub max_per_transaction : Money
  pub max_per_month : Money
  pub valid_from : String
  pub valid_until : String
  pub created_at : String
  pub updated_at : String

pub record ListConsentsResponse : Type 0 where
  pub consents : List ConsentResponse
  pub next_page_token : String
  pub total_count : ℤ

pub record DepositRequest : Type 0 where
  pub consent_id : String
  pub amount : Money
  pub description : String

pub record PaymentResponse : Type 0 where
  pub id : String
  pub idempotency_key : String
  pub merchant_id : String
  pub consent_id : String
  pub consumer_id : String
  pub amount : Money
  pub status : String
  pub bank_payment_ref : String
  pub risk_score : ℤ
  pub risk_decision : String
  pub failure_reason : String
  pub description : String
  pub initiated_at : String
  pub settled_at : String
  pub updated_at : String

unfoldable pub consent_status_string : ConsentState → String
consent_status_string unspecified = "CONSENT_STATUS_UNSPECIFIED"
consent_status_string pending = "PENDING"
consent_status_string active = "ACTIVE"
consent_status_string revoked = "REVOKED"
consent_status_string expired = "EXPIRED"

unfoldable pub parse_consent_status : String → ConsentState
parse_consent_status s =
    let t : String = to_upper (trim_space s) in
    if t == "PENDING"
    then pending
    else if t == "ACTIVE"
    then active
    else if t == "REVOKED"
    then revoked
    else if t == "EXPIRED"
    then expired
    else unspecified

unfoldable pub payment_status_string : PaymentStatus → String
payment_status_string payment_status_unspecified = "PAYMENT_STATUS_UNSPECIFIED"
payment_status_string initiated = "INITIATED"
payment_status_string consent_reserved = "CONSENT_RESERVED"
payment_status_string risk_passed = "RISK_PASSED"
payment_status_string authorising = "AUTHORISING"
payment_status_string settled = "SETTLED"
payment_status_string failed = "FAILED"
payment_status_string manual_review = "MANUAL_REVIEW"

-- `parseTime`: `rfc3339` and `nano` are `time.Parse` with the two layouts.
unfoldable pub parse_time : (String → Result ℕ) → (String → Result ℕ) → String → Result (Option ℕ)
parse_time rfc3339 nano s = if s == "" then ok none else elim (rfc3339 s) [
  | ok t ↦ ok (some t)
  | err e ↦ elim (nano s) [ ok t ↦ ok (some t) | err e ↦ err e ]
]

-- `format` is `Format` with the layout RFC3339.
module _ (format : ℕ → String) where
  unfoldable pub ts_string : Option ℕ → String
  ts_string none = ""
  ts_string (some t) = format t

  unfoldable pub merchant_from_proto : MerchantMessage → MerchantResponse
  unfolding ts_string
  merchant_from_proto m = record {
    id = m.id;
    name = m.name;
    kyb_status = m.kyb_status;
    status = m.status;
    webhook_url = m.webhook_url;
    created_at = ts_string (some m.created_at);
    updated_at = ts_string (some m.updated_at);
  }

  unfoldable pub consent_from_proto : ConsentMessage → ConsentResponse
  unfolding ts_string consent_status_string
  consent_from_proto c = record {
    id = c.id;
    merchant_id = c.merchant_id;
    consumer_id = c.consumer_id;
    bank_consent_ref = c.bank_consent_ref;
    status = consent_status_string c.status;
    max_per_transaction = c.max_per_transaction;
    max_per_month = c.max_per_month;
    valid_from = ts_string (some c.valid_from);
    valid_until = ts_string (some c.valid_until);
    created_at = ts_string (some c.created_at);
    updated_at = ts_string (some c.updated_at);
  }

  unfoldable pub consents_from_proto : ListResponse → ListConsentsResponse
  unfolding consent_from_proto
  consents_from_proto r = record {
    consents = map consent_from_proto r.consents;
    next_page_token = r.next_page_token;
    total_count = r.total_count;
  }

  unfoldable pub payment_from_proto : PaymentMessage → PaymentResponse
  unfolding ts_string payment_status_string
  payment_from_proto p = record {
    id = p.id;
    idempotency_key = p.idempotency_key;
    merchant_id = p.merchant_id;
    consent_id = p.consent_id;
    consumer_id = p.consumer_id;
    amount = p.amount;
    status = payment_status_string p.status;
    bank_payment_ref = p.bank_payment_ref;
    risk_score = p.risk_score;
    risk_decision = p.risk_decision;
    failure_reason = p.failure_reason;
    description = p.description;
    initiated_at = ts_string (some p.initiated_at);
    settled_at = ts_string p.settled_at;
    updated_at = ts_string (some p.updated_at);
  }
