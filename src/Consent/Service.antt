-- ===== src/Consent/Service.antt =====
-- services/consent-svc/internal/service.go: the operations of the consent service, without their
-- Redis cache, which no operation that changes the tables reads.
pub mod Reads
pub mod Atomic
pub mod Confirmed
pub mod Limits
use vrp_oneclick_deposit_pla.Common.{
  ℕ, Bool, true, false, Option, none, some, String, ◌&&◌, ◌||◌, ◌==◌, not, ℤ, pos, add64, sub64,
  ltb, leb, ltb_ℤ, leb_ℤ, eqb, if◌then◌else◌,
}
use vrp_oneclick_deposit_pla.Domainerr.{
  Code, validation, consent_limit_exceeded, consent_expired, consent_revoked, consent_inactive,
  conflict, Err, domain, wrapped, Result, ok, err, reject_if,
}
use vrp_oneclick_deposit_pla.Postgres.{
  Server, Query, pure, raise, lift, attempt, or_wrap, is_no_rows, sql_state, begin_func, ◌>>=◌,
  ◌>>◌,
}
use vrp_oneclick_deposit_pla.Consent.{
  ConsentRow, ReservationRow, UsageRow, Tables, ConsentStatus, active, revoked, expired,
  ReservationStatus, held, confirmed, released, is_active,
}
use vrp_oneclick_deposit_pla.Consent.Repo.{
  insert_consent, get_consent, revoke_consent, get_reservation_by_payment_id, lock_consent,
  rolling_usage, rolling_usage_pool, tx_count_this_month, insert_reservation, get_reservation,
  confirm_reservation, insert_usage, release_reservation,
}

pub record CreateInput : Type 0 where
  pub merchant_id : String
  pub consumer_id : String
  pub bank_consent_ref : String
  pub max_amount_pence : ℤ
  pub max_monthly_pence : ℤ
  pub currency : String
  pub valid_until : ℕ

pub record ReserveInput : Type 0 where
  pub consent_id : String
  pub payment_id : String
  pub amount_pence : ℤ
  pub currency : String

pub record ReserveResult : Type 0 where
  pub reservation_id : String
  pub remaining_monthly : ℤ
  pub currency : String
  pub consumer_id : String
  pub bank_consent_ref : String

pub record UsageResult : Type 0 where
  pub used_pence : ℤ
  pub remaining_pence : ℤ
  pub currency : String
  pub tx_count : ℤ

abbrev pub default_currency : String
default_currency = "GBP"

abbrev pub is_unique_violation : Err → Bool
is_unique_violation e = elim (sql_state e) [ none ↦ false | some state ↦ state == "23505" ]

-- `if errors.Is(err, pgx.ErrNoRows) { return missing }` and otherwise a wrapped internal error.
abbrev pub or_missing : {A : Type 0} → Err → String → Query Tables A → Query Tables A
or_missing missing m q s =
    let (r, s') = q s in
    elim r [
      | ok a ↦ (ok a, s')
      | err e ↦ (err (if is_no_rows e then missing else wrapped Code.internal m e), s')
    ]

-- `if remaining < 0 { remaining = 0 }`
abbrev pub at_least_zero : ℤ → ℤ
at_least_zero z = if ltb_ℤ z (pos 0) then pos 0 else z

abbrev pub consent_not_found : Err
consent_not_found = domain Code.not_found "consent not found"

-- The guards of `CreateConsent`, in order. The zero time is 0.
unfoldable pub check_create : ℕ → CreateInput → Result (Unit {0})
check_create now i =
    if i.merchant_id == ""
    then err (domain validation "merchant_id is required")
    else if i.consumer_id == ""
    then err (domain validation "consumer_id is required")
    else if i.bank_consent_ref == ""
    then err (domain validation "bank_consent_ref is required")
    else if leb_ℤ i.max_amount_pence (pos 0)
    then err (domain validation "max_per_transaction must be positive")
    else if leb_ℤ i.max_monthly_pence (pos 0)
    then err (domain validation "max_per_month must be positive")
    else if ltb_ℤ i.max_monthly_pence i.max_amount_pence
    then err (domain validation "max_per_transaction cannot exceed max_per_month")
    else if eqb i.valid_until 0 || leb i.valid_until now
    then err (domain validation "valid_until must be in the future")
    else ok tt

-- The guards of `ValidateAndReserve` before its transaction.
unfoldable pub check_reserve : ReserveInput → Result (Unit {0})
check_reserve i =
    if i.consent_id == ""
    then err (domain validation "consent_id is required")
    else if i.payment_id == ""
    then err (domain validation "payment_id is required")
    else if leb_ℤ i.amount_pence (pos 0)
    then err (domain validation "amount must be positive")
    else ok tt

-- The `switch` on the status of the locked consent, then the currency and the limit per payment.
unfoldable pub check_status : ℕ → ConsentRow → Result (Unit {0})
check_status now c = elim c.status [
  | revoked ↦ err (domain consent_revoked "consent revoked")
  | expired ↦ err (domain consent_expired "consent expired")
  | active ↦ if leb c.valid_until now then err (domain consent_expired "consent expired") else ok tt
  | _ ↦
      if leb c.valid_until now
      then err (domain consent_expired "consent expired")
      else err (domain consent_inactive "consent is not active")
]

unfoldable pub check_terms : ReserveInput → ConsentRow → Result (Unit {0})
check_terms i c =
    if not (i.currency == "") && (not (c.currency == "") && not (i.currency == c.currency))
    then err (domain validation "currency mismatch")
    else if ltb_ℤ c.max_amount_pence i.amount_pence
    then err (domain consent_limit_exceeded "amount exceeds per-transaction limit")
    else ok tt

-- `used+held+in.AmountPence > c.MaxMonthlyPence`, in the arithmetic of int64.
unfoldable pub check_month : ReserveInput → ConsentRow → ℤ × ℤ → Result (Unit {0})
check_month i c (used, on_hold) =
    if ltb_ℤ c.max_monthly_pence (add64 (add64 used on_hold) i.amount_pence)
    then err (domain consent_limit_exceeded "amount exceeds monthly limit")
    else ok tt

unfoldable pub reserve_result : String → ℤ → ConsentRow → ReserveResult
reserve_result id remaining c = record {
  reservation_id = id;
  remaining_monthly = at_least_zero remaining;
  currency = c.currency;
  consumer_id = c.consumer_id;
  bank_consent_ref = c.bank_consent_ref;
}

module _ (server : Server) (now : ℕ) where
  unfoldable pub create_consent : CreateInput → Query Tables ConsentRow
  create_consent i = do
    lift (check_create now i)
    r ← attempt (
        insert_consent server (record {
          id = "";
          merchant_id = i.merchant_id;
          consumer_id = i.consumer_id;
          bank_consent_ref = i.bank_consent_ref;
          status = active;
          max_amount_pence = i.max_amount_pence;
          max_monthly_pence = i.max_monthly_pence;
          currency = (if i.currency == "" then default_currency else i.currency);
          valid_from = 0;
          valid_until = i.valid_until;
          created_at = 0;
          updated_at = 0;
        }))
    elim r [
      | ok row ↦ pure row
      | err e ↦ raise (
          if is_unique_violation e
          then wrapped Code.already_exists "bank_consent_ref already registered" e
          else wrapped Code.internal "insert consent" e)
    ]

  -- The repeated call for a payment that has its reservation.
  unfoldable pub reserve_existing : ReservationRow → Query Tables ReserveResult
  unfolding reserve_result
  reserve_existing existing = do
    c ← or_wrap Code.internal "lock consent" (lock_consent server existing.consent_id)
    usage ← or_wrap Code.internal "rolling usage" (rolling_usage server c.id)
    pure (reserve_result existing.id (sub64 (sub64 c.max_monthly_pence usage.0) usage.1) c)

  -- After a unique violation: the reservation of the payment is read again.
  unfoldable pub reserve_conflict : ReserveInput → ConsentRow → ℤ × ℤ → Query Tables ReserveResult
  unfolding reserve_result
  reserve_conflict i c usage = do
    existing ←
        or_wrap Code.internal "re-read reservation"
          (get_reservation_by_payment_id server i.payment_id)
    pure (reserve_result existing.id (sub64 (sub64 c.max_monthly_pence usage.0) usage.1) c)

  -- What follows the insertion, on its result.
  unfoldable pub hold_inserted :
      ReserveInput → ConsentRow → ℤ × ℤ → Result ReservationRow → Query Tables ReserveResult
  unfolding reserve_result
  hold_inserted i c usage (ok res) = pure (
      reserve_result res.id
        (sub64 (sub64 (sub64 c.max_monthly_pence usage.0) usage.1) i.amount_pence) c)
  hold_inserted i c usage (err e) =
      if is_unique_violation e
      then reserve_conflict i c usage
      else raise (wrapped Code.internal "insert reservation" e)

  unfoldable pub insert_hold : ReserveInput → ConsentRow → ℤ × ℤ → Query Tables ReserveResult
  insert_hold i c usage = do
    r ← attempt (insert_reservation server c.id i.payment_id i.amount_pence)
    hold_inserted i c usage r

  -- The first call for a payment: the consent is locked and checked, and the amount is held.
  unfoldable pub reserve_new : ReserveInput → Query Tables ReserveResult
  reserve_new i = do
    c ← or_missing consent_not_found "lock consent" (lock_consent server i.consent_id)
    lift (check_status now c)
    lift (check_terms i c)
    usage ← or_wrap Code.internal "rolling usage" (rolling_usage server c.id)
    lift (check_month i c usage)
    insert_hold i c usage

  -- What follows the first reading of the reservation, on its result.
  unfoldable pub reserve_found : ReserveInput → Result ReservationRow → Query Tables ReserveResult
  reserve_found i (ok existing) = reserve_existing existing
  reserve_found i (err e) =
      if is_no_rows e then reserve_new i else raise (wrapped Code.internal "lookup reservation" e)

  -- The body of the transaction.
  unfoldable pub reserve_body : ReserveInput → Query Tables ReserveResult
  reserve_body i = do
    found ← attempt (get_reservation_by_payment_id server i.payment_id)
    reserve_found i found

  unfoldable pub validate_and_reserve : ReserveInput → Query Tables ReserveResult
  validate_and_reserve i = do lift (check_reserve i); begin_func server (reserve_body i)

  -- The branches of `ConfirmReservation` on the status of the reservation.
  unfoldable pub confirm_by_status :
      ReservationStatus → String → String → ReservationRow → Query Tables (Unit {0})
  confirm_by_status confirmed id payment_id res =
      insert_usage server res.consent_id res.payment_id res.amount_pence
  confirm_by_status released id payment_id res =
      raise (domain conflict "reservation already released")
  confirm_by_status held id payment_id res = do
    updated ←
        or_missing (domain conflict "reservation could not be confirmed") "confirm reservation"
          (confirm_reservation server id payment_id)
    or_wrap Code.internal "insert usage"
        (insert_usage server updated.consent_id updated.payment_id updated.amount_pence)

  unfoldable pub confirm_body : String → String → Query Tables (Unit {0})
  confirm_body id payment_id = do
    res ←
        or_missing (domain Code.not_found "reservation not found") "get reservation"
          (get_reservation server id)
    lift (
        reject_if (not (payment_id == "") && not (res.payment_id == payment_id))
          (domain validation "payment_id does not match reservation"))
    confirm_by_status res.status id payment_id res

  unfoldable pub confirm : String → String → Query Tables (Unit {0})
  confirm id payment_id = do
    lift (reject_if (id == "") (domain validation "reservation_id is required"))
    begin_func server (confirm_body id payment_id)

  -- The branches of `ReleaseReservation` on the status of the reservation.
  unfoldable pub release_by_status : ReservationStatus → String → Query Tables (Unit {0})
  release_by_status released id = pure tt
  release_by_status confirmed id = raise (domain conflict "reservation already confirmed")
  release_by_status held id = do
    or_missing (domain conflict "reservation could not be released") "release reservation"
        (release_reservation server id)
    pure tt

  unfoldable pub release_body : String → Query Tables (Unit {0})
  release_body id = do
    res ←
        or_missing (domain Code.not_found "reservation not found") "get reservation"
          (get_reservation server id)
    release_by_status res.status id

  unfoldable pub release : String → Query Tables (Unit {0})
  release id = do
    lift (reject_if (id == "") (domain validation "reservation_id is required"))
    begin_func server (release_body id)

  unfoldable pub get_rolling_usage : String → Query Tables UsageResult
  get_rolling_usage id = do
    lift (reject_if (id == "") (domain validation "consent_id is required"))
    c ← or_missing consent_not_found "get consent" (get_consent server id)
    usage ← or_wrap Code.internal "rolling usage" (rolling_usage_pool server id)
    count ← or_wrap Code.internal "tx count" (tx_count_this_month server id)
    pure (record {
      used_pence = add64 usage.0 usage.1;
      remaining_pence = at_least_zero (sub64 (sub64 c.max_monthly_pence usage.0) usage.1);
      currency = c.currency;
      tx_count = count;
    })

  -- The branches of `RevokeConsent` on the consent that was read.
  unfoldable pub revoke_loaded : String → String → ConsentRow → Query Tables ConsentRow
  revoke_loaded id merchant_id existing =
      if not (merchant_id == "") && not (existing.merchant_id == merchant_id)
      then raise consent_not_found
      else elim existing.status [
        | revoked ↦ pure existing
        | active ↦
            or_missing (domain conflict "consent could not be revoked") "revoke consent"
              (revoke_consent server id merchant_id)
        | _ ↦ raise (domain consent_inactive "consent is not active")
      ]

  unfoldable pub revoke : String → String → Query Tables ConsentRow
  revoke id merchant_id = do
    lift (reject_if (id == "") (domain validation "consent_id is required"))
    existing ← or_missing consent_not_found "get consent" (get_consent server id)
    revoke_loaded id merchant_id existing
