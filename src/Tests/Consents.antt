-- ===== src/Tests/Consents.antt =====
-- Runs of the transactions of services/consent-svc.
use vrp_oneclick_deposit_pla.Common.{
  true, false, none, [], ◌∷◌, ◌≡◌, refl, pos, arith, find_row, update_rows, sum_rows, ◌+ℤ◌, add64,
  sub64, wrap64, ◌-ℤ◌,
}
use vrp_oneclick_deposit_pla.Domainerr.{Code, Err, wrapped, annotated, ok, err}
use vrp_oneclick_deposit_pla.Postgres.{Server, Session, in_failed_transaction}
use vrp_oneclick_deposit_pla.Postgres
use vrp_oneclick_deposit_pla.Consent.{ConsentRow, Tables, UsageRow, active}
use vrp_oneclick_deposit_pla.Consent.Repo.{
  is_for_payment, rolling_used, rolling_held, insert_reservation, lock_consent, rolling_usage,
  get_reservation_by_payment_id, confirm_row, get_reservation, confirm_reservation, insert_usage,
  is_reservation, is_confirmable,
}
use vrp_oneclick_deposit_pla.Consent.Repo
use vrp_oneclick_deposit_pla.Consent.Service.{
  ReserveInput, ReserveResult, validate_and_reserve, insert_hold, is_unique_violation, reserve_body,
  reserve_new, reserve_found, check_reserve, check_status, check_terms, check_month, hold_inserted,
  reserve_result, confirm, confirm_body, confirm_by_status,
}
use vrp_oneclick_deposit_pla.Consent.Service.Limits.{
  NoOverflow, validate_and_reserve_limits, Granted,
}
use vrp_oneclick_deposit_pla.Consent.Service.Atomic.{insert_hold_conflict}
use vrp_oneclick_deposit_pla.Consent.Service.Confirmed.{Confirmed, confirm-Confirmed}

abbrev server : Server
server = record { fault = λ _. none; clock = 9; uuid = λ n. "row" }

abbrev consent : ConsentRow
consent = record {
  id = "c";
  merchant_id = "m";
  consumer_id = "u";
  bank_consent_ref = "b";
  status = active;
  max_amount_pence = pos 1000;
  max_monthly_pence = pos 5000;
  currency = "GBP";
  valid_from = 0;
  valid_until = 100;
  created_at = 0;
  updated_at = 0;
}

abbrev session : Session Tables
session = record {
  tables = record { consents = consent ∷ []; reservations = []; usages = [] };
  count = 0;
  aborted = false;
}

abbrev input : ReserveInput
input = record { consent_id = "c"; payment_id = "p"; amount_pence = pos 700; currency = "GBP" }

abbrev granted : ReserveResult
granted = record {
  reservation_id = "row";
  remaining_monthly = pos 4300;
  currency = "GBP";
  consumer_id = "u";
  bank_consent_ref = "b";
}

abbrev after : Session Tables
after = record {
  tables = record {
    consents = consent ∷ [];
    reservations = Repo.new_reservation server "row" "c" "p" (pos 700) ∷ [];
    usages = [];
  };
  count = 6;
  aborted = false;
}

reserved : validate_and_reserve server 9 input session ≡ (ok granted, after)
unfolding validate_and_reserve Postgres.◌>>=◌ check_reserve Postgres.begin_func reserve_body
    reserve_found get_reservation_by_payment_id Postgres.statement find_row reserve_new lock_consent
    check_status check_terms rolling_usage sum_rows check_month add64 wrap64 sub64 ◌+ℤ◌ ◌-ℤ◌
    Repo.has_id Repo.in_window insert_reservation is_for_payment Repo.is_live_hold
    Repo.new_reservation rolling_held rolling_used Postgres.scan_int64 Repo.scan_usage hold_inserted
    insert_hold reserve_result Postgres.is_no_rows Postgres.sql_state Postgres.transaction
reserved = refl

fresh : find_row (is_for_payment "p") session.tables.reservations ≡ none
unfolding find_row
fresh = refl

in_range : NoOverflow 9 input session.tables
unfolding rolling_used rolling_held sum_rows ◌+ℤ◌
in_range = ((omega arith, omega arith), (omega arith, omega arith))

validate_and_reserve_limits_example : Granted server 9 input session.tables after.tables "row"
validate_and_reserve_limits_example =
    validate_and_reserve_limits server 9 input session reserved fresh in_range

abbrev usage : UsageRow
usage = record { consent_id = "c"; payment_id = "p"; amount_pence = pos 700; settled_at = 9 }

abbrev finished : Session Tables
finished = record {
  tables = record {
    consents = consent ∷ [];
    reservations = confirm_row (Repo.new_reservation server "row" "c" "p" (pos 700)) ∷ [];
    usages = usage ∷ [];
  };
  count = 11;
  aborted = false;
}

confirms : confirm server 9 "row" "p" after ≡ (ok tt, finished)
unfolding confirm confirm_body confirm_by_status get_reservation confirm_reservation insert_usage
    is_reservation is_confirmable find_row update_rows Postgres.◌>>=◌ Postgres.begin_func
    Postgres.transaction Postgres.statement Postgres.is_no_rows Postgres.sql_state
    Repo.new_reservation
confirms = refl

confirm-Confirmed_example : Confirmed server "row" "p" after.tables finished.tables
confirm-Confirmed_example = confirm-Confirmed server 9 "row" "p" after finished confirms

-- The reservation of the payment has just been committed by another call.
abbrev raced : Session Tables
raced = record after { count = 4 }

abbrev duplicate : Err
duplicate = annotated "insert reservation" Postgres.unique_violation

violated : (insert_reservation server "c" "p" (pos 700) raced).0 ≡ err duplicate
unfolding insert_reservation Postgres.statement find_row is_for_payment Repo.new_reservation
violated = refl

is_duplicate : is_unique_violation duplicate ≡ true
unfolding Postgres.sql_state
is_duplicate = refl

insert_hold_conflict_example :
    (insert_hold server 9 input consent (pos 0, pos 0) raced).0
    ≡ err (wrapped Code.internal "re-read reservation" in_failed_transaction)
insert_hold_conflict_example =
    insert_hold_conflict server 9 input consent (pos 0, pos 0) raced duplicate violated is_duplicate
