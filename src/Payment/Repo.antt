-- ===== src/Payment/Repo.antt =====
-- services/payment-svc/internal/repo.go: the statements on the payment tables. A function that
-- changes `*p` returns the changed payment; where it fails, `*p` keeps what it was.
pub mod Laws
use vrp_oneclick_deposit_pla.Common.{
  ℕ, Bool, true, false, Option, none, some, String, List, [], ◌∷◌, ◌++◌, ◌==◌, ◌&&◌, ◌||◌, not, ltb,
  ℤ, if◌then◌else◌, find_row, update_rows, delete_rows, contains,
}
use vrp_oneclick_deposit_pla.Domainerr.{
  Code, duplicate_idempotency, conflict, Err, domain, wrapped, pg, no_rows, Result, ok, err,
  reject_if, error_text,
}
use vrp_oneclick_deposit_pla.Postgres.{
  Server, Query, pure, raise, lift, attempt, or_wrap, is_no_rows, sql_state, pool_statement,
  statement, transaction, ◌>>=◌, ◌>>◌,
}
use vrp_oneclick_deposit_pla.Payment.{
  Status, initiated, consent_reserved, risk_passed, authorising, settled, failed, manual_review,
  Payment, Event, SettledPayload, OutboxRow, Store, topic_payment_events, event_payment_settled,
  is_failed, is_in_flight,
}

abbrev pub has_id : String → Payment → Bool
has_id id p = p.id == id

-- `UPDATE payment SET … WHERE id = $1`
abbrev pub update_payment : String → (Payment → Payment) → Store → Store
update_payment id change t = record t { payments = update_rows (has_id id) change t.payments }

abbrev pub new_event : String → Option Status → Status → String → Event
new_event id from to reason = record { payment_id = id; from = from; to = to; reason = reason }

abbrev pub append_event : Event → Store → Store
append_event e t = record t { events = t.events ++ e ∷ [] }

-- The text of an error of pgx, which never is a gRPC status.
unfoldable pub is_unique_violation : Err → Bool
unfolding contains error_text
is_unique_violation e = elim (sql_state e) [
  | none ↦ contains "duplicate key" (error_text (λ c m. m) e)
  | some state ↦ state == "23505"
]

abbrev pub payment_not_found : Err
payment_not_found = domain Code.not_found "payment not found"

unfoldable pub build_settled_payload : Payment → ℕ → SettledPayload
build_settled_payload p at = record {
  event_type = event_payment_settled;
  payment_id = p.id;
  idempotency_key = p.idempotency_key;
  merchant_id = p.merchant_id;
  consent_id = p.consent_id;
  consumer_id = p.consumer_id;
  amount_pence = p.amount_pence;
  currency = p.currency;
  status = settled;
  bank_payment_ref = p.bank_payment_ref;
  risk_score = p.risk_score;
  risk_decision = p.risk_decision;
  description = p.description;
  initiated_at = p.initiated_at;
  settled_at = at;
}

-- The row that a settlement inserts into the outbox.
abbrev pub settled_row : Payment → ℕ → String → OutboxRow
settled_row p now id = record {
  id = id;
  topic = topic_payment_events;
  key = p.id;
  payload = build_settled_payload p now;
  created_at = now;
}

-- `p` as `UpdateAfterConsent`, `UpdateAfterRisk`, `UpdateAfterBank`, `SettleWithOutbox`, `MarkFailed`,
-- `MarkManualReview` and `ResetForRetry` change it, in memory and in its row.
abbrev pub after_consent : String → String → ℕ → Payment → Payment
after_consent res consumer now p = record p {
  status = consent_reserved;
  reservation_id = some res;
  consumer_id = consumer;
  updated_at = now;
}

abbrev pub after_risk : ℤ → String → ℕ → Payment → Payment
after_risk score decision now p = record p {
  status = risk_passed;
  risk_score = some score;
  risk_decision = decision;
  updated_at = now;
}

abbrev pub after_bank : String → ℕ → Payment → Payment
after_bank ref now p = record p { status = authorising; bank_payment_ref = ref; updated_at = now }

abbrev pub after_settle : ℕ → Payment → Payment
after_settle now p = record p {
  status = settled;
  settled_at = some now;
  updated_at = now;
  failure_reason = "";
}

abbrev pub after_mark : Status → String → ℕ → Payment → Payment
after_mark to reason now p = record p { status = to; failure_reason = reason; updated_at = now }

abbrev pub after_reset : ℕ → Payment → Payment
after_reset now p = record p {
  status = initiated;
  failure_reason = "";
  bank_payment_ref = "";
  reservation_id = none;
  risk_score = none;
  risk_decision = "";
  settled_at = none;
  updated_at = now;
}

module _ (server : Server) (now : ℕ) where
  -- `insertEvent` on the pool. `json.Marshal` of its maps of texts and numbers does not fail.
  unfoldable pub insert_event : String → Option Status → Status → String → Query Store (Unit {0})
  insert_event id from to reason =
      or_wrap Code.internal "insert payment event"
        (pool_statement server (λ t. ok (tt, append_event (new_event id from to reason) t)))

  unfoldable pub insert_payment : Payment → Query Store (Unit {0})
  insert_payment p = pool_statement server λ t.
      elim (find_row (λ q. q.idempotency_key == p.idempotency_key) t.payments) [
        | some _ ↦ err (pg "23505" "duplicate key value violates unique constraint")
        | none ↦ ok (tt, record t { payments = t.payments ++ p ∷ [] })
      ]

  -- `CreatePayment`, of a payment that has its identifier and its status. A failed insertion leaves
  -- `*p` with the new times.
  unfoldable pub create_payment : Payment → Query Store Payment
  unfolding insert_payment insert_event is_unique_violation
  create_payment p = do
    let p' = record p { initiated_at = now; updated_at = now }
    r ← attempt (insert_payment p')
    elim r [
      | err e ↦ raise (
          if is_unique_violation e
          then domain duplicate_idempotency "idempotency key already used"
          else wrapped Code.internal "insert payment" e)
      | ok _ ↦ insert_event p'.id none p'.status "payment created" >> pure p'
    ]

  -- `UPDATE … WHERE id = $1`, then the event, in two statements of their own.
  unfoldable pub update_and_log :
      String → Status → String → (Payment → Payment) → Payment → Query Store Payment
  unfolding insert_event
  update_and_log context to reason change p = do
    or_wrap Code.internal context
        (pool_statement server (λ t. ok (tt, update_payment p.id change t)))
    insert_event p.id (some p.status) to reason
    pure (change p)

  unfoldable pub update_after_consent : String → String → Payment → Query Store Payment
  unfolding update_and_log
  update_after_consent res consumer =
      update_and_log "update after consent" consent_reserved "consent reserved"
        (after_consent res consumer now)

  unfoldable pub update_after_risk : ℤ → String → Payment → Query Store Payment
  unfolding update_and_log
  update_after_risk score decision =
      update_and_log "update after risk" risk_passed "risk scored" (after_risk score decision now)

  unfoldable pub update_after_bank : String → Payment → Query Store Payment
  unfolding update_and_log
  update_after_bank ref =
      update_and_log "update after bank" authorising "bank authorising" (after_bank ref now)

  unfoldable pub mark_failed : String → Payment → Query Store Payment
  unfolding update_and_log
  mark_failed reason = update_and_log "mark failed" failed reason (after_mark failed reason now)

  unfoldable pub mark_manual_review : String → Payment → Query Store Payment
  unfolding update_and_log
  mark_manual_review reason =
      update_and_log "mark manual review" manual_review reason (after_mark manual_review reason now)

  unfoldable pub insert_outbox : Payment → Query Store (Unit {0})
  insert_outbox p s =
      let row = settled_row p now (server.uuid s.count) in
      statement server (λ t. ok (tt, record t { outbox = t.outbox ++ row ∷ [] })) s

  -- The statements of `SettleWithOutbox` inside its transaction.
  unfoldable pub settle_body : Payment → Query Store (Unit {0})
  settle_body p = do
    or_wrap Code.internal "settle payment"
        (statement server (λ t. ok (tt, update_payment p.id (after_settle now) t)))
    or_wrap Code.internal "insert payment event" (
        statement server
          (λ t. ok (tt, append_event (new_event p.id (some p.status) settled "payment settled") t)))
    or_wrap Code.internal "insert outbox" (insert_outbox p)

  unfoldable pub settle_with_outbox : Payment → Query Store Payment
  settle_with_outbox p = do
    transaction server (wrapped Code.internal "begin settle tx")
        (wrapped Code.internal "commit settle tx") (settle_body p)
    pure (after_settle now p)

  -- `UPDATE … WHERE id = $1 AND status = 'FAILED'`, with the number of rows.
  unfoldable pub reset_rows : String → Query Store Bool
  reset_rows id = pool_statement server λ t.
      let test = λ (p : Payment). has_id id p && is_failed p.status in
      elim (find_row test t.payments) [
        | none ↦ ok (false, t)
        | some _ ↦ ok (true, record t { payments = update_rows test (after_reset now) t.payments })
      ]

  unfoldable pub reset_for_retry : Payment → Query Store Payment
  unfolding reset_rows insert_event
  reset_for_retry p = do
    lift (
        reject_if (not (is_failed p.status))
          (domain conflict "only FAILED payments can be retried"))
    changed ← or_wrap Code.internal "reset for retry" (reset_rows p.id)
    lift (reject_if (not changed) (domain conflict "payment is not in FAILED state"))
    insert_event p.id (some p.status) initiated "retry initiated"
    pure (after_reset now p)

  -- `scanOne` for a statement that selects by `test`.
  unfoldable pub scan_one : (Payment → Bool) → Query Store Payment
  scan_one test s =
      let (r, s') =
        pool_statement server
          (λ t. elim (find_row test t.payments) [ none ↦ err no_rows | some p ↦ ok (p, t) ]) s in
      elim r [
        | ok p ↦ (ok p, s')
        | err e ↦ (
          err (if is_no_rows e then payment_not_found else wrapped Code.internal "get payment" e),
          s',
        )
      ]

  unfoldable pub get_by_id : String → Query Store Payment
  unfolding scan_one
  get_by_id id = scan_one (has_id id)

  unfoldable pub get_by_idempotency_key : String → Query Store Payment
  unfolding scan_one
  get_by_idempotency_key key = scan_one (λ p. p.idempotency_key == key)

  unfoldable pub get_by_id_and_merchant : String → String → Query Store Payment
  unfolding get_by_id
  get_by_id_and_merchant id merchant_id = do
    p ← get_by_id id
    if p.merchant_id == merchant_id then pure p else raise payment_not_found
