-- ===== src/Payment/Repo/Laws.antt =====
-- What the functions of services/payment-svc/internal/repo.go leave in the tables.
use vrp_oneclick_deposit_pla.Common.{
  ℕ, suc, false, some, String, ◌==◌, update_rows, [], ◌∷◌, ◌++◌, ◌≡◌, arith,
}
use vrp_oneclick_deposit_pla.Domainerr.{Code, Err, wrapped, ok, err}
use vrp_oneclick_deposit_pla.Postgres.{Server, Session, pool_statement, statement, ◌>>=◌}
use vrp_oneclick_deposit_pla.Postgres.Laws.{
  >>=_elim, statement_inv, or_wrap_inv, transaction_inv, transaction-atomic,
}
use vrp_oneclick_deposit_pla.Payment.{Status, Payment, Store, settled}
use vrp_oneclick_deposit_pla.Payment.Repo.{
  update_and_log, after_settle, insert_outbox, settle_body, settle_with_outbox, settled_row,
}

module _ (server : Server) (now : ℕ) (context : String) (to : Status) (reason : String)
    (change : Payment → Payment) (p : Payment) (s : Session Store) where
  -- No update but the settlement writes to the outbox.
  pub update_and_log-outbox :
      (update_and_log server now context to reason change p s).1.tables.outbox ≡ s.tables.outbox
  unfolding update_and_log pool_statement ◌>>=◌
  update_and_log-outbox = ground arith

  pub update_and_log_inv :
      {q : Payment} {t : Session Store}
      → update_and_log server now context to reason change p s ≡ (ok q, t)
      → q ≡ change p
  unfolding update_and_log pool_statement ◌>>=◌
  update_and_log_inv h = ground arith

module _ (server : Server) (now : ℕ) (p : Payment) where
  insert_outbox_inv :
      (s : Session Store) {u : Unit {0}} {t : Session Store}
      → insert_outbox server now p s ≡ (ok u, t)
      → t.tables.outbox ≡ s.tables.outbox ++ settled_row p now (server.uuid s.count) ∷ []
  unfolding insert_outbox
  insert_outbox_inv s h = cc ((statement_inv server _ s h).0)

  settle_body_inv :
      (s : Session Store) {u : Unit {0}} {t : Session Store}
      → settle_body server now p s ≡ (ok u, t)
      → (id : String) × (t.tables.outbox ≡ s.tables.outbox ++ settled_row p now id ∷ [])
  unfolding settle_body
  settle_body_inv s h = >>=_elim _ _ s h λ _ s1 e1 k1. >>=_elim _ _ s1 k1 λ _ s2 e2 k2.
      let first = (statement_inv server _ s (or_wrap_inv _ _ (statement server _) s e1)).0 in
      let second = (statement_inv server _ s1 (or_wrap_inv _ _ (statement server _) s1 e2)).0 in
      let third = insert_outbox_inv s2 (or_wrap_inv _ _ (insert_outbox server now p) s2 k2) in
      (server.uuid s2.count, cc)

  -- The tables after a settlement: the payment's row is settled, its event is added, and its row is
  -- added to the outbox; nothing else changes.
  abbrev pub settled_tables : Store → String → Store
  settled_tables j id = record {
    payments = update_rows (λ (q : Payment). q.id == p.id) (after_settle now) j.payments;
    events =
        j.events
        ++ record {
          payment_id = p.id;
          from = some p.status;
          to = settled;
          reason = "payment settled";
        }
          ∷ [];
    outbox = j.outbox ++ settled_row p now id ∷ [];
  }

  pub settle_with_outbox_inv :
      (s : Session Store) {q : Payment} {t : Session Store}
      → settle_with_outbox server now p s ≡ (ok q, t)
      → (q ≡ after_settle now p)
        × (id : String) × (t.tables.outbox ≡ s.tables.outbox ++ settled_row p now id ∷ [])
  unfolding settle_with_outbox
  settle_with_outbox_inv s h = >>=_elim _ _ s h λ a u e k.
      let (v, ran, same, _) = transaction_inv server _ _ (settle_body server now p) s e in
      let (id, added) = settle_body_inv (record s { count = suc s.count; aborted = false }) ran in
      (cc, id, cc)

  -- A settlement that returns an error has left the tables as they were.
  pub settle_with_outbox-atomic :
      (s : Session Store) (e : Err)
      → (settle_with_outbox server now p s).0 ≡ err e
      → (settle_with_outbox server now p s).1.tables ≡ s.tables
  unfolding settle_with_outbox ◌>>=◌
  settle_with_outbox-atomic s e h = ground (
    arith,
    transaction-atomic server (wrapped Code.internal "begin settle tx")
        (wrapped Code.internal "commit settle tx") (settle_body server now p) s e,
  )
