-- ===== src/Payment/Reconcile/Laws.antt =====
-- What the reconciliation of services/payment-svc/internal/reconciliation.go does with a payment.
use vrp_oneclick_deposit_pla.Common.{
  ℕ, ◌+◌, ◌<◌, true, false, List, [], ◌∷◌, ◌==◌, eq_iff, ◌≡◌, refl, ◌⊎◌, inl, inr, Bool-cases,
  arith, Option, none, some,
}
use mathlib.Core.List.Memᴰ.{Memᴰ}
use vrp_oneclick_deposit_pla.Domainerr.{Code, Err, wrapped, Result, ok, err}
use vrp_oneclick_deposit_pla.Domainerr.Triple.{Outcome}
use vrp_oneclick_deposit_pla.Postgres.{Server, Session, pool_statement, statement}
use vrp_oneclick_deposit_pla.Payment.{Payment, Store, OutboxRow, is_in_flight}
use vrp_oneclick_deposit_pla.Payment.World.{BankReply, Env, World, get_payment_status, call, ◌>>=◌}
use vrp_oneclick_deposit_pla.Payment.Saga.Undo.{UndoAsked, also}
use vrp_oneclick_deposit_pla.Payment.Saga.Settle.{Published}
use vrp_oneclick_deposit_pla.Payment.Saga.Resume.{resume_from_ledger_lem, compensate_stale_lem}
use vrp_oneclick_deposit_pla.Payment.Reconcile.Batch.{
  OldestFirst, stale_batch-OldestFirst, stale_batch-stale,
}
use vrp_oneclick_deposit_pla.Payment.Reconcile.{
  list_stale_in_flight_payments, reconcile_stale_payments, Worker, is_settled_at_bank, stale_batch,
  stale_reason, reconcile_answered, reconcile_payment, reconcile_payments, with_payment,
  after_payment,
}

abbrev pub asked : World → World
asked w = also (get_payment_status w.payment.bank_payment_ref ∷ []) w

-- The answer of the bank about the payment.
abbrev pub answer : Env → World → Result BankReply
answer env w = env.status_reply (asked w).calls

-- What becomes of a stale payment.
pub data Reconciled (env : Env) (w v : World) : Type 0 where
  -- The bank has none of it, or does not call it settled: its undoing is asked for.
  never_paid :
      w.payment.bank_payment_ref ≡ "" → UndoAsked w.session.tables.outbox v → Reconciled env w v
  unsettled :
      (reply : BankReply)
      → answer env w ≡ ok reply
      → is_settled_at_bank reply.status ≡ false
      → UndoAsked w.session.tables.outbox v
      → Reconciled env w v
  -- The bank has not answered: nothing is done.
  unknown : (e : Err) → answer env w ≡ err e → v ≡ asked w → Reconciled env w v
  -- The bank has settled it: it is published, or its undoing is asked for.
  finished :
      (reply : BankReply)
      → answer env w ≡ ok reply
      → is_settled_at_bank reply.status ≡ true
      → Published env w.session.tables.outbox v ⊎ UndoAsked w.session.tables.outbox v
      → Reconciled env w v

finished-UndoAsked :
    (env : Env) (o : List OutboxRow) (p : Result (Unit {0}) × World)
    → Outcome (λ _. Published env o) (λ _. UndoAsked o) p
    → Published env o p.1 ⊎ UndoAsked o p.1
finished-UndoAsked env o (ok _, v) h = inl h
finished-UndoAsked env o (err e, v) h = inr h

only-UndoAsked :
    (o : List OutboxRow) (p : Result (Unit {0}) × World)
    → Outcome (λ _ _. ⊥) (λ _. UndoAsked o) p
    → UndoAsked o p.1
only-UndoAsked o (ok _, v) h = absurd h
only-UndoAsked o (err e, v) h = h

module _ (env : Env) (w : World) where
  answered-Reconciled :
      (r : Result BankReply)
      → answer env w ≡ r
      → Reconciled env w (reconcile_answered env r (asked w)).1
  unfolding reconcile_answered
  answered-Reconciled (err e) h = unknown e h refl
  answered-Reconciled (ok reply) h = elim (Bool-cases (is_settled_at_bank reply.status)) [
    | inl y ↦ rw y (
        finished reply h y
          (finished-UndoAsked env w.session.tables.outbox _ (resume_from_ledger_lem env (asked w))))
    | inr n ↦ rw n (
        unsettled reply h n (
          only-UndoAsked w.session.tables.outbox _
            (compensate_stale_lem env stale_reason (asked w))))
  ]

  -- A stale payment that never reached the bank, or that the bank does not call settled, is asked to be
  -- undone; where the bank does not answer it is left as it is; where the bank has settled it, it is
  -- published, or asked to be undone.
  pub reconcile_payment-Reconciled : Reconciled env w (reconcile_payment env w).1
  unfolding reconcile_payment call ◌>>=◌
  reconcile_payment-Reconciled = elim (Bool-cases (w.payment.bank_payment_ref == "")) [
    | inl e ↦ rw e (
        never_paid ((eq_iff w.payment.bank_payment_ref "").0 e)
          (only-UndoAsked _ _ (compensate_stale_lem env stale_reason w)))
    | inr n ↦ rw n (answered-Reconciled (answer env w) refl)
  ]

-- The payments of a list are taken in order, each from where the one before it was left.
pub data Taken (env : Env) : List Payment → Worker → Worker → Type 0 where
  none_left : (w : Worker) → Taken env [] w w
  taken :
      (p : Payment) (ps : List Payment) (w : Worker) (v : World) (u : Worker)
      → Reconciled env (with_payment p w) v
      → Taken env ps (after_payment v) u
      → Taken env (p ∷ ps) w u

reconcile_payments-Taken :
    (env : Env) (ps : List Payment) (w : Worker) → Taken env ps w (reconcile_payments env ps w)
unfolding reconcile_payments
reconcile_payments-Taken env [] w = none_left w
reconcile_payments-Taken env (p ∷ ps) w =
    let v = (reconcile_payment env (with_payment p w)).1 in
    taken p ps w v _ (reconcile_payment-Reconciled env (with_payment p w))
      (reconcile_payments-Taken env ps (after_payment v))

-- The payments that are in flight and stale at the start of a round, fifty at most.
abbrev pub batch : Env → ℕ → Worker → List Payment
batch env stale_after w =
    stale_batch (env.now w.session.count) stale_after w.session.tables.payments

-- A round whose statement the server answers reconciles each payment of its batch, in order; these
-- are stored, in flight and stale, the oldest first. Where the statement fails, the round leaves the
-- tables and calls nothing.
pub data Round (env : Env) (stale_after : ℕ) (w u : Worker) : Type 0 where
  not_listed :
      (e : Err)
      → env.server.fault w.session.count ≡ some e
      → u.session.tables ≡ w.session.tables
      → u.calls ≡ w.calls
      → Round env stale_after w u
  listed :
      (v : Worker)
      → env.server.fault w.session.count ≡ none
      → v.session.tables ≡ w.session.tables
      → v.calls ≡ w.calls
      → ((p : Payment)
          → Memᴰ p (batch env stale_after w)
          → Memᴰ p w.session.tables.payments
            × (is_in_flight p.status ≡ true)
            × (p.updated_at + stale_after < env.now w.session.count))
      → OldestFirst 0 (batch env stale_after w)
      → Taken env (batch env stale_after w) v u
      → Round env stale_after w u

module _ (server : Server) (now stale_after : ℕ) (s : Session Store) where
  list_stale-answered :
      server.fault s.count ≡ none
      → ((list_stale_in_flight_payments server now stale_after s).0
          ≡ ok (stale_batch now stale_after s.tables.payments))
        × ((list_stale_in_flight_payments server now stale_after s).1.tables ≡ s.tables)
  unfolding list_stale_in_flight_payments pool_statement statement
  list_stale-answered f = (ground arith, ground arith)

  list_stale-faulted :
      (x : Err)
      → server.fault s.count ≡ some x
      → ((list_stale_in_flight_payments server now stale_after s).0
          ≡ err (wrapped Code.internal "list stale payments" x))
        × ((list_stale_in_flight_payments server now stale_after s).1.tables ≡ s.tables)
  unfolding list_stale_in_flight_payments pool_statement statement
  list_stale-faulted x f = (ground arith, ground arith)

module _ (env : Env) (stale_after : ℕ) (w : Worker) where
  abbrev listing : Result (List Payment) × Session Store
  listing = list_stale_in_flight_payments env.server (env.now w.session.count) stale_after w.session

  -- A round reconciles, in order, the payments that are in flight and stale when it starts, the oldest
  -- first and fifty at most; where they cannot be listed it changes no table and calls nothing.
  pub reconcile_stale_payments-Round :
      Round env stale_after w (reconcile_stale_payments env stale_after w)
  unfolding reconcile_stale_payments
  reconcile_stale_payments-Round = by_fault (env.server.fault w.session.count) refl
    where
      by_fault :
          (f : Option Err)
          → env.server.fault w.session.count ≡ f
          → Round env stale_after w (reconcile_stale_payments env stale_after w)
      by_fault none h =
          let (rows, same) =
            list_stale-answered env.server (env.now w.session.count) stale_after w.session h in
          let v : Worker = record w { session = listing.1 } in
          rw (rows, reconcile_stale_payments)
            (listed v h same refl
              (stale_batch-stale (env.now w.session.count) stale_after w.session.tables.payments)
              (stale_batch-OldestFirst (env.now w.session.count) stale_after
                w.session.tables.payments)
              (reconcile_payments-Taken env (batch env stale_after w) v))
      by_fault (some x) h =
          let (failed, same) =
            list_stale-faulted env.server (env.now w.session.count) stale_after w.session x h in
          rw (failed, reconcile_stale_payments) (not_listed x h same refl)
