-- ===== src/Payment/Saga.antt =====
-- services/payment-svc/internal/saga.go: the saga of a payment and its compensation. Each step is
-- the part of `runSaga` that its name says; a step that returns an error ends the saga.
pub mod Compensate
pub mod Undo
pub mod States
pub mod Steps
pub mod Settle
pub mod Resume
pub mod Unpersisted
use vrp_oneclick_deposit_pla.Common.{
  ℕ, Bool, true, false, Option, none, some, String, List, [], ◌∷◌, ◌++◌, ◌+++◌, ◌==◌, ◌&&◌, not, ℤ,
  if◌then◌else◌,
}
use vrp_oneclick_deposit_pla.Domainerr.{
  Code, risk_declined, bank_rejected, Err, domain, wrapped, plain, Result, ok, err, as_domain,
  code_field, message_field, code_text, error_text,
}
use vrp_oneclick_deposit_pla.Domainerr.Grpc.{map_downstream_err}
use vrp_oneclick_deposit_pla.Payment.{Payment, Store}
use vrp_oneclick_deposit_pla.Payment.Fee.{settlement_lines}
use vrp_oneclick_deposit_pla.Payment.Repo.{
  update_after_consent, update_after_risk, update_after_bank, settle_with_outbox, mark_failed,
  mark_manual_review,
}
use vrp_oneclick_deposit_pla.Payment.World.{
  ReserveReply, ScoreReply, RiskDecision, risk_decision_unspecified, allow, review, decline,
  BankReply, BankStatus, Env, World, Saga, Call, reserve, score, initiate_payment,
  post_double_entry, confirm_reservation, complete_key, pure, raise, attempt, ignore, current, call,
  persist, ◌>>=◌, ◌>>◌,
}
use vrp_oneclick_deposit_pla.Payment.World
use Compensate.{
  downstream, reason_of, mark_as_failed, mark_for_review, compensate, compensate_full,
  fail_and_compensate,
}

-- `decision.String()`
unfoldable pub decision_name : RiskDecision → String
decision_name risk_decision_unspecified = "RISK_DECISION_UNSPECIFIED"
decision_name allow = "ALLOW"
decision_name review = "REVIEW"
decision_name decline = "DECLINE"

abbrev pub is_decline : RiskDecision → Bool
is_decline decline = true
is_decline _ = false

abbrev pub is_rejected : BankStatus → Bool
is_rejected World.bank_rejected = true
is_rejected _ = false

-- `p.ReservationID != nil`
abbrev pub is_reserved : Option String → Bool
is_reserved none = false
is_reserved (some _) = true

module _ (env : Env) where
  -- The reason of the failure that the error branch of step 1 records.
  unfoldable pub refusal_reason : Err → String
  refusal_reason e = elim (as_domain (downstream env e)) [
    | some de ↦ code_text (code_field de) +++ (": " +++ message_field de)
    | none ↦ "CONSENT_REJECTED" +++ (": " +++ reason_of env e)
  ]

  -- The error branch of step 1.
  unfoldable pub consent_refused : Err → Saga String
  consent_refused e = ignore (mark_as_failed env (refusal_reason e)) >> raise (downstream env e)

  -- `UpdateAfterConsent` failed: the payment in memory gets its reservation, and it is released.
  unfoldable pub consent_not_persisted : String → Err → Saga String
  consent_not_persisted res e = do
    (λ w. (ok tt, record w { payment = record (w.payment) { reservation_id = some res } }))
    r ← attempt (compensate env "persist consent failed" true false)
    elim r [
      | err c ↦
          ignore (
            mark_for_review env ("persist consent failed; compensate failed: " +++ reason_of env c))
          >> raise e
      | ok _ ↦ ignore (mark_as_failed env "persist consent failed") >> raise e
    ]

  unfoldable pub consent_answered : ReserveReply → Saga String
  consent_answered reply = elim (env.parse_uuid reply.reservation_id) [
    | err e ↦
        ignore (mark_as_failed env "invalid reservation_id from consent")
        >> raise (wrapped Code.internal "parse reservation_id" e)
    | ok res ↦ do
      r ← attempt (persist (λ now. update_after_consent env.server now res reply.consumer_id) env)
      elim r [ err e ↦ consent_not_persisted res e | ok _ ↦ pure reply.bank_consent_ref ]
  ]

  -- Step 1, with the bank's reference of the consent.
  unfoldable pub consent_step : Saga String
  consent_step = do
    p ← current
    r ← attempt (call env.reserve_reply (reserve p.consent_id p.id p.amount_pence p.currency))
    elim r [ err e ↦ consent_refused e | ok reply ↦ consent_answered reply ]

  unfoldable pub risk_scored : ScoreReply → Saga (Unit {0})
  risk_scored reply =
      if is_decline reply.decision
      then (do
        (λ w.
            let p : Payment = record (w.payment) {
              risk_score = some reply.score;
              risk_decision = decision_name reply.decision;
            } in
            (ok tt, record w { payment = p }))
        fail_and_compensate env ("RISK_DECLINED: " +++ reply.reason) true false
            (some (domain risk_declined reply.reason)))
      else (do
        r ← attempt (
            persist
              (λ now. update_after_risk env.server now reply.score (decision_name reply.decision))
              env)
        elim r [
          | err e ↦ fail_and_compensate env "persist risk failed" true false (some e)
          | ok _ ↦ pure tt
        ])

  -- Step 2.
  unfoldable pub risk_step : Saga (Unit {0})
  risk_step = do
    p ← current
    r ← attempt (
        call env.score_reply
          (score p.merchant_id p.consumer_id p.consent_id p.id p.amount_pence p.currency))
    elim r [
      | err e ↦
          fail_and_compensate env ("RISK_ERROR: " +++ reason_of env e) true false
            (some (downstream env e))
      | ok reply ↦ risk_scored reply
    ]

  -- The bank's reason for a rejection.
  abbrev rejection_reason : BankReply → String
  rejection_reason reply =
      if reply.failure_reason == "" then "bank rejected payment" else reply.failure_reason

  unfoldable pub bank_answered : BankReply → Saga (Unit {0})
  bank_answered reply =
      if is_rejected reply.status
      then fail_and_compensate env ("BANK_REJECTED: " +++ rejection_reason reply) true false
          (some (domain bank_rejected (rejection_reason reply)))
      else (do
        r ← attempt (persist (λ now. update_after_bank env.server now reply.bank_payment_ref) env)
        elim r [
          | err e ↦ fail_and_compensate env "persist bank failed" true true (some e)
          | ok _ ↦ pure tt
        ])

  -- Step 3.
  unfoldable pub bank_step : String → Saga (Unit {0})
  bank_step bank_consent_ref = do
    p ← current
    r ← attempt (
        call env.bank_reply (
          initiate_payment p.id bank_consent_ref p.consumer_id p.amount_pence p.currency
            p.description))
    elim r [
      | err e ↦
          fail_and_compensate env ("BANK_ERROR: " +++ reason_of env e) true false
            (some (downstream env e))
      | ok reply ↦ bank_answered reply
    ]

  -- Step 4, with the text that names its errors and the end of its description.
  unfoldable pub ledger_step : String → String → Saga (Unit {0})
  ledger_step label suffix = do
    p ← current
    r ← attempt (
        call env.done_reply
          (post_double_entry p.id ("VRP settlement " +++ (p.id +++ suffix)) (settlement_lines p)))
    elim r [
      | err e ↦
          fail_and_compensate env (label +++ (": " +++ reason_of env e)) true true
            (some (downstream env e))
      | ok _ ↦ pure tt
    ]

  -- The error branch of step 5, with the reason of the compensation.
  unfoldable pub settle_failed : String → Err → Saga (Unit {0})
  settle_failed reason e = do
    r ← attempt (compensate_full env reason)
    elim r [
      | err c ↦
          ignore (mark_for_review env (reason +++ ("; compensate failed: " +++ reason_of env c)))
          >> raise (wrapped Code.internal "settle and compensate failed" e)
      | ok _ ↦ ignore (mark_as_failed env ("SETTLE_FAILED: " +++ reason_of env e)) >> raise e
    ]

  -- Step 5.
  unfoldable pub settle_step : String → Saga (Unit {0})
  settle_step reason = do
    r ← attempt (persist (settle_with_outbox env.server) env)
    elim r [ err e ↦ settle_failed reason e | ok _ ↦ pure tt ]

  -- Step 6: the answer is logged only.
  unfoldable pub confirm_step : Saga (Unit {0})
  confirm_step = do
    p ← current
    elim p.reservation_id [
      | none ↦ pure tt
      | some res ↦ ignore (call env.done_reply (confirm_reservation res p.id))
    ]

  unfoldable pub run_saga : Saga (Unit {0})
  run_saga = do
    bank_consent_ref ← consent_step
    risk_step
    bank_step bank_consent_ref
    ledger_step "LEDGER_ERROR" ""
    settle_step "settle failed"
    confirm_step

  -- `ResumeFromLedger`
  unfoldable pub resume_from_ledger : Saga (Unit {0})
  resume_from_ledger = do
    ledger_step "RECONCILIATION_LEDGER_ERROR" " (reconciled)"
    settle_step "reconciled settle failed"
    confirm_step
    p ← current
    ignore (call env.done_reply (complete_key p.idempotency_key p.id))

  -- `CompensateStale`
  unfoldable pub compensate_stale : String → Saga (Unit {0})
  compensate_stale reason = do
    p ← current
    fail_and_compensate env reason (is_reserved p.reservation_id) (not (p.bank_payment_ref == ""))
        none
