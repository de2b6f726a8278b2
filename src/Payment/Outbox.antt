-- ===== src/Payment/Outbox.antt =====
-- services/payment-svc/internal/outbox.go, with `ListOutbox` and `DeleteOutbox` of repo.go: the relay of
-- the outbox rows to Kafka. The broker is a parameter: what it does with a message.
pub mod Laws
use vrp_oneclick_deposit_pla.Common.{
  ℕ, Bool, true, false, String, List, [], ◌∷◌, ◌++◌, ◌==◌, delete_rows, sort_by, take, eqb,
  if◌then◌else◌,
}
use vrp_oneclick_deposit_pla.Domainerr.{Err, Result, ok, err}
use vrp_oneclick_deposit_pla.Postgres.{Server, Session, Query, pool_statement, annotate}
use vrp_oneclick_deposit_pla.Payment.{OutboxRow, SettledPayload, Store}

-- `kafka.Message`
pub record Message : Type 0 where
  pub topic : String
  pub key : String
  pub value : SettledPayload
  pub time : ℕ

-- What becomes of a `WriteMessages`: it returns no error, and all replicas have the message; or it
-- returns an error, and the message is lost or was written all the same.
pub data Ack : Type 0 where
  acked lost unacknowledged : Ack

-- The relay's surroundings: the session, and the log of the topic.
pub record Relay : Type 0 where
  pub session : Session Store
  pub log : List Message

abbrev pub message_of : OutboxRow → Message
message_of row = record {
  topic = row.topic;
  key = row.key;
  value = row.payload;
  time = row.created_at;
}

abbrev pub has_row_id : String → OutboxRow → Bool
has_row_id id row = row.id == id

-- The limit of the statement: fifty rows where none is given.
abbrev pub or_fifty : ℕ → ℕ
or_fifty limit = if eqb limit 0 then 50 else limit

abbrev pub batch_size : ℕ
batch_size = 100

-- The rows of a batch; those of one time come in the order of their insertion.
unfoldable pub outbox_batch : ℕ → List OutboxRow → List OutboxRow
outbox_batch limit rows = take (or_fifty limit) (sort_by (λ (r : OutboxRow). r.created_at) rows)

module _ (server : Server) where
  unfoldable pub list_outbox : ℕ → Query Store (List OutboxRow)
  unfolding outbox_batch
  list_outbox limit =
      annotate "list outbox" (pool_statement server (λ t. ok (outbox_batch limit t.outbox, t)))

  unfoldable pub delete_outbox : String → Query Store (Unit {0})
  delete_outbox id = annotate "delete outbox" (
      pool_statement server
        (λ t. ok (tt, record t { outbox = delete_rows (has_row_id id) t.outbox })))

  module _ (broker : List Message → Ack) where
    -- The rows of a batch, of which the first error ends the loop.
    unfoldable pub publish_rows : List OutboxRow → Relay → Relay
    unfolding delete_outbox
    publish_rows [] w = w
    publish_rows (row ∷ rows) w =
        let sent : List Message = w.log ++ message_of row ∷ [] in
        elim (broker sent) [
          | lost ↦ w
          | unacknowledged ↦ record w { log = sent }
          | acked ↦
              let (r, s) = delete_outbox row.id w.session in
              elim r [
                | err e ↦ record { session = s; log = sent }
                | ok _ ↦ publish_rows rows (record { session = s; log = sent })
              ]
        ]

    unfoldable pub flush : Relay → Relay
    unfolding list_outbox publish_rows
    flush w =
        let (r, s) = list_outbox batch_size w.session in
        elim r [
          | err e ↦ record w { session = s }
          | ok rows ↦ publish_rows rows (record w { session = s })
        ]
