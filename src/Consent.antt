-- ===== src/Consent.antt =====
-- services/consent-svc/internal: the consents, their reservations and their usage. The rows are
-- those of migrations/consent/000001_init.up.sql; a time is a number of seconds.
pub mod Repo
pub mod Service
pub mod Handler
use vrp_oneclick_deposit_pla.Common.{ℕ, Bool, true, false, String, List, ℤ}

pub data ConsentStatus : Type 0 where
  pending active revoked expired : ConsentStatus

pub data ReservationStatus : Type 0 where
  held confirmed released : ReservationStatus

pub record ConsentRow : Type 0 where
  pub id : String
  pub merchant_id : String
  pub consumer_id : String
  pub bank_consent_ref : String
  pub status : ConsentStatus
  pub max_amount_pence : ℤ
  pub max_monthly_pence : ℤ
  pub currency : String
  pub valid_from : ℕ
  pub valid_until : ℕ
  pub created_at : ℕ
  pub updated_at : ℕ

pub record ReservationRow : Type 0 where
  pub id : String
  pub consent_id : String
  pub payment_id : String
  pub amount_pence : ℤ
  pub status : ReservationStatus
  pub expires_at : ℕ
  pub created_at : ℕ

pub record UsageRow : Type 0 where
  pub consent_id : String
  pub payment_id : String
  pub amount_pence : ℤ
  pub settled_at : ℕ

-- The tables `consent`, `consent_reservation` and `consent_usage`.
pub record Tables : Type 0 where
  pub consents : List ConsentRow
  pub reservations : List ReservationRow
  pub usages : List UsageRow

abbrev pub is_held : ReservationStatus → Bool
is_held held = true
is_held _ = false

abbrev pub is_active : ConsentStatus → Bool
is_active active = true
is_active _ = false
