-- ===== src/Notification/Consumer.antt =====
-- services/notification-svc/internal/consumer.go: the consumer of the topic payment.events. What
-- Redis and Kafka answer are parameters (`Inbox`).
pub mod Commits
pub mod Laws
use vrp_oneclick_deposit_pla.Common.{
  ℕ, suc, Bool, true, false, String, Option, none, some, List, [], ◌∷◌, ◌++◌, ◌+++◌, ◌==◌, ◌||◌,
  ◌&&◌, not, if◌then◌else◌, find_row,
}
use vrp_oneclick_deposit_pla.Domainerr.{Err, annotated, plain, Result, ok, err}
use vrp_oneclick_deposit_pla.Notification.{PaymentEvent, payment_key, Outside, Sent, deliver}

-- `kafka.Message`, as far as it is read.
pub record Fetched : Type 0 where
  pub partition : ℕ
  pub offset : ℕ
  pub value : String

-- What the consumer acts on: the deliveries, the keys in Redis with the number of commands that
-- Redis was sent, and the messages that were committed.
pub record State : Type 0 where
  pub sent : Sent
  pub keys : List String
  pub commands : ℕ
  pub commits : List Fetched

-- `json.Unmarshal` of a message, the errors of Redis by the number of the command, whether a key's
-- time to live is over then, and the errors of `CommitMessages`.
pub record Inbox : Type 0 where
  pub outside : Outside
  pub decode : String → Result PaymentEvent
  pub redis_fault : ℕ → Option Err
  pub expired : ℕ → String → Bool
  pub commit_fault : List Fetched → Option Err

abbrev pub delivered_key : String → String
delivered_key id = "webhook:delivered:" +++ id

unfoldable pub holds : String → List String → Bool
holds key [] = false
holds key (k ∷ ks) = k == key || holds key ks

-- The events that are not acted on.
unfoldable pub is_skipped : PaymentEvent → Bool
unfolding payment_key
is_skipped evt =
    payment_key evt == ""
    || (not (evt.event_type == "") && not (evt.event_type == "payment.settled"))

module _ (inbox : Inbox) where
  unfoldable pub already_delivered : String → State → Result Bool × State
  unfolding holds
  already_delivered id s = elim (inbox.redis_fault s.commands) [
    | some e ↦ (err e, record s { commands = suc s.commands })
    | none ↦ (
      ok (holds (delivered_key id) s.keys && not (inbox.expired s.commands (delivered_key id))),
      record s { commands = suc s.commands },
    )
  ]

  unfoldable pub mark_delivered : String → State → Result (Unit {0}) × State
  mark_delivered id s = elim (inbox.redis_fault s.commands) [
    | some e ↦ (err e, record s { commands = suc s.commands })
    | none ↦ (ok tt, record s { keys = delivered_key id ∷ s.keys; commands = suc s.commands })
  ]

  -- After a delivery.
  unfoldable pub handle_delivered : String → Result (Unit {0}) × State → Result (Unit {0}) × State
  unfolding mark_delivered
  handle_delivered id (err e, s) = (err e, s)
  handle_delivered id (ok _, s) =
      let (r, t) = mark_delivered id s in
      elim r [ ok _ ↦ (ok tt, t) | err e ↦ (err (annotated "mark delivered" e), t) ]

  -- After the look at Redis.
  unfoldable pub handle_checked : PaymentEvent → Result Bool × State → Result (Unit {0}) × State
  unfolding handle_delivered payment_key
  handle_checked evt (err e, s) = (err (annotated "check delivered" e), s)
  handle_checked evt (ok true, s) = (ok tt, s)
  handle_checked evt (ok false, s) =
      let (r, sent) = deliver inbox.outside evt s.sent in
      handle_delivered (payment_key evt) (r, record s { sent = sent })

  unfoldable pub handle : Fetched → State → Result (Unit {0}) × State
  unfolding is_skipped already_delivered handle_checked payment_key
  handle m s = elim (inbox.decode m.value) [
    | err e ↦ (ok tt, s)
    | ok evt ↦
        if is_skipped evt
        then (ok tt, s)
        else handle_checked evt (already_delivered (payment_key evt) s)
  ]

  -- After the handling of a message.
  unfoldable pub commit_handled : Fetched → Result (Unit {0}) × State → Result (Unit {0}) × State
  commit_handled m (err e, s) = (ok tt, s)
  commit_handled m (ok _, s) =
      let commits : List Fetched = s.commits ++ m ∷ [] in
      elim (inbox.commit_fault commits) [
        | some e ↦ (err (annotated "commit" e), s)
        | none ↦ (ok tt, record s { commits = commits })
      ]

  -- `Run` on the messages that are fetched, until the context ends or a commit fails.
  unfoldable pub run : List Fetched → State → Result (Unit {0}) × State
  unfolding handle commit_handled
  run [] s = (ok tt, s)
  run (m ∷ ms) s =
      let (r, t) = commit_handled m (handle m s) in elim r [ ok _ ↦ run ms t | err e ↦ (err e, t) ]
