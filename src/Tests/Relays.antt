-- ===== src/Tests/Relays.antt =====
-- Runs of the relay and of the reconciliation of services/payment-svc/internal.
use vrp_oneclick_deposit_pla.Common.{refl, [], ◌∷◌, ◌∙◌, sym}
use mathlib.Core.List.Memᴰ.{eq_of_singleton}
use vrp_oneclick_deposit_pla.Payment.{OutboxRow}
use vrp_oneclick_deposit_pla.Payment.Repo.{settled_row}
use vrp_oneclick_deposit_pla.Payment.World.{allow}
use vrp_oneclick_deposit_pla.Payment.Outbox.{
  Relay, acked, unacknowledged, flush, outbox_batch, batch_size,
}
use vrp_oneclick_deposit_pla.Payment.Outbox.Laws.{
  Kept, Delivered, UniqueIds, flush-Kept, flush-Delivered,
}
use vrp_oneclick_deposit_pla.Payment.Reconcile.{Worker, reconcile_payment, reconcile_stale_payments}
use vrp_oneclick_deposit_pla.Payment.Reconcile.Laws.{
  Reconciled, Round, reconcile_payment-Reconciled, reconcile_stale_payments-Round,
}
use vrp_oneclick_deposit_pla.Tests.Sagas.{env_with, server, session, payment, world}

abbrev row : OutboxRow
row = settled_row payment 9 "row-1"

abbrev relay : Relay
relay = record {
  session = record session { tables = record (session.tables) { outbox = row ∷ [] } };
  log = [];
}

one_row : UniqueIds (row ∷ [])
one_row r q m n h = eq_of_singleton m ∙ sym (eq_of_singleton n)

flush-Kept_example : Kept (row ∷ []) (flush server (λ _. unacknowledged) relay)
flush-Kept_example = flush-Kept server (λ _. unacknowledged) relay one_row

flush-Delivered_example :
    Delivered (outbox_batch batch_size (row ∷ [])) relay (flush server (λ _. acked) relay)
flush-Delivered_example = flush-Delivered server (λ n. refl) (λ _. acked) (λ log. refl) relay

reconcile_payment-Reconciled_example :
    Reconciled (env_with allow) world (reconcile_payment (env_with allow) world).1
reconcile_payment-Reconciled_example = reconcile_payment-Reconciled (env_with allow) world

abbrev worker : Worker
worker = record { session = record session { count = 100 }; calls = [] }

reconcile_stale_payments-Round_example :
    Round (env_with allow) 60 worker (reconcile_stale_payments (env_with allow) 60 worker)
reconcile_stale_payments-Round_example = reconcile_stale_payments-Round (env_with allow) 60 worker
