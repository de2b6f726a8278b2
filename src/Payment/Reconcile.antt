-- ===== src/Payment/Reconcile.antt =====
-- services/payment-svc/internal/reconciliation.go, with `ListStaleInFlightPayments` of repo.go: the
-- payments that were left in flight are finished or undone. Times are in seconds.
pub mod Batch
pub mod Laws
use vrp_oneclick_deposit_pla.Common.{
  ℕ, ◌+◌, Bool, true, false, String, List, [], ◌∷◌, ◌==◌, ◌&&◌, ltb, ℤ, pos, leb_ℤ, if◌then◌else◌,
  sort_by, take, delete_rows, not,
}
use vrp_oneclick_deposit_pla.Domainerr.{Code, Err, Result, ok, err}
use vrp_oneclick_deposit_pla.Postgres.{Server, Session, Query, pool_statement, or_wrap}
use vrp_oneclick_deposit_pla.Payment.{Payment, Store, is_in_flight}
use vrp_oneclick_deposit_pla.Payment.World.{
  BankReply, BankStatus, bank_settled, Env, World, Saga, Call, get_payment_status, pure, attempt,
  ignore, current, call, ◌>>=◌, ◌>>◌,
}
use vrp_oneclick_deposit_pla.Payment.Saga.{resume_from_ledger, compensate_stale}

-- `ReconciliationWorker`, without the parts that it calls.
pub record Settings : Type 0 where
  pub interval : ℤ
  pub stale_after : ℤ

unfoldable pub new_reconciliation_worker : ℤ → ℤ → Settings
new_reconciliation_worker interval stale_after = record {
  interval = (if leb_ℤ interval (pos 0) then pos 30 else interval);
  stale_after = (if leb_ℤ stale_after (pos 0) then pos 60 else stale_after);
}

abbrev pub is_stale : ℕ → ℕ → Payment → Bool
is_stale now stale_after p = is_in_flight p.status && ltb (p.updated_at + stale_after) now

abbrev pub stale_limit : ℕ
stale_limit = 50

unfoldable pub stale_batch : ℕ → ℕ → List Payment → List Payment
stale_batch now stale_after ps = take stale_limit (
    sort_by (λ (p : Payment). p.updated_at)
      (delete_rows (λ p. not (is_stale now stale_after p)) ps))

-- `now` is the time of the program, by which the threshold is found.
unfoldable pub list_stale_in_flight_payments : Server → ℕ → ℕ → Query Store (List Payment)
unfolding stale_batch
list_stale_in_flight_payments server now stale_after =
    or_wrap Code.internal "list stale payments"
      (pool_statement server (λ t. ok (stale_batch now stale_after t.payments, t)))

abbrev pub is_settled_at_bank : BankStatus → Bool
is_settled_at_bank bank_settled = true
is_settled_at_bank _ = false

abbrev pub stale_reason : String
stale_reason = "RECONCILIATION_TIMEOUT"

module _ (env : Env) where
  -- After the bank's answer about the payment. What is called may fail: that is logged only.
  unfoldable pub reconcile_answered : Result BankReply → Saga (Unit {0})
  reconcile_answered (err e) = pure tt
  reconcile_answered (ok reply) =
      if is_settled_at_bank reply.status
      then ignore (resume_from_ledger env)
      else ignore (compensate_stale env stale_reason)

  -- The loop's body for the payment in memory.
  unfoldable pub reconcile_payment : Saga (Unit {0})
  unfolding reconcile_answered
  reconcile_payment = do
    p ← current
    if p.bank_payment_ref == ""
        then ignore (compensate_stale env stale_reason)
        else (attempt (call env.status_reply (get_payment_status p.bank_payment_ref))
            >>= reconcile_answered)

-- The loop over the stale payments, each in a world of its own with the same database.
pub record Worker : Type 0 where
  pub session : Session Store
  pub calls : List Call

abbrev pub with_payment : Payment → Worker → World
with_payment p w = record { session = w.session; payment = p; calls = w.calls }

abbrev pub after_payment : World → Worker
after_payment w = record { session = w.session; calls = w.calls }

unfoldable pub reconcile_payments : Env → List Payment → Worker → Worker
unfolding reconcile_payment
reconcile_payments env [] w = w
reconcile_payments env (p ∷ ps) w =
    let (_, v) = reconcile_payment env (with_payment p w) in
    reconcile_payments env ps (after_payment v)

unfoldable pub reconcile_stale_payments : Env → ℕ → Worker → Worker
unfolding list_stale_in_flight_payments reconcile_payments
reconcile_stale_payments env stale_after w =
    let (r, s) =
      list_stale_in_flight_payments env.server (env.now w.session.count) stale_after w.session in
    elim r [
      | err e ↦ record w { session = s }
      | ok ps ↦ reconcile_payments env ps (record w { session = s })
    ]
