-- ===== src/Notification.antt =====
-- services/notification-svc/internal/deliver.go: the delivery of a payment event to a merchant's
-- webhook. The merchant service, net/http, encoding/json, crypto/hmac and the broker of the dead
-- letters are parameters (`Outside`).
pub mod Consumer
pub mod Laws
pub mod Relayed
use vrp_oneclick_deposit_pla.Common.{
  ℕ, zero, suc, ◌-◌, Bool, true, false, String, Option, none, some, List, [], ◌∷◌, ◌++◌, ◌+++◌,
  ◌==◌, ◌||◌, ℤ, ltb, leb, eqb, if◌then◌else◌, decimal,
}
use vrp_oneclick_deposit_pla.Domainerr.{
  GrpcCode, Err, annotated, plain, Result, ok, err, error_text,
}
use vrp_oneclick_deposit_pla.Payment.Outbox.{Ack, acked, lost, unacknowledged}
use vrp_oneclick_deposit_pla.Webhook.{sign, timestamp_header}

-- `PaymentEvent`
pub record PaymentEvent : Type 0 where
  pub event_type : String
  pub id : String
  pub payment_id : String
  pub merchant_id : String
  pub consent_id : String
  pub consumer_id : String
  pub amount_pence : ℤ
  pub currency : String
  pub status : String
  pub bank_payment_ref : String
  pub description : String
  pub risk_score : ℤ
  pub risk_decision : String
  pub initiated_at : String
  pub settled_at : String

-- `PaymentEvent.PaymentKey`
unfoldable pub payment_key : PaymentEvent → String
payment_key e = if e.id == "" then e.payment_id else e.id

-- `WebhookPaymentData`, `WebhookBody` and `DLQPayload`
pub record WebhookPaymentData : Type 0 where
  pub id : String
  pub merchant_id : String
  pub consent_id : String
  pub consumer_id : String
  pub amount_pence : ℤ
  pub currency : String
  pub status : String
  pub bank_payment_ref : String
  pub risk_score : ℤ
  pub risk_decision : String
  pub settled_at : String
  pub description : String

pub record WebhookBody : Type 0 where
  pub event_type : String
  pub payment : WebhookPaymentData
  pub delivered_at : String

pub record DlqPayload : Type 0 where
  pub merchant_id : String
  pub payment_id : String
  pub webhook_url : String
  pub attempts : ℕ
  pub last_error : String
  pub payload : String
  pub failed_at : String

-- The response to `GetWebhookConfig`.
pub record WebhookConfig : Type 0 where
  pub webhook_url : String
  pub hmac_secret : String

-- A request to a webhook, with its headers.
pub record Post : Type 0 where
  pub url : String
  pub signature : String
  pub timestamp : String
  pub body : String

-- A message of the topic webhook.dlq.
pub record DeadLetter : Type 0 where
  pub key : String
  pub value : String

-- What a delivery acts on: the requests sent and the dead letters written so far.
pub record Sent : Type 0 where
  pub posts : List Post
  pub dead : List DeadLetter

-- The world around a delivery. Its answers depend on the requests so far: the error of the context
-- before an attempt, and where it ends the wait after one; the clock; the answer of the webhook.
-- `dlq` is none where no writer is configured.
pub record Outside : Type 0 where
  pub grpc_text : GrpcCode → String → String
  pub webhook_config : String → Result WebhookConfig
  pub marshal_body : WebhookBody → Result String
  pub marshal_dlq : DlqPayload → Result String
  pub hmac : String → String → String
  pub clock : List Post → ℕ
  pub format_time : ℕ → String
  pub context_error : List Post → Option Err
  pub interrupted : List Post → Option Err
  pub new_request : String → Option Err
  pub answer : List Post → Result ℕ
  pub dlq : Option (List DeadLetter → Ack)

-- How the loop over the attempts ends: with a delivery, with an error of the context, or with the
-- error of the last attempt.
pub data Ended : Type 0 where
  delivered : Ended
  stopped : Err → Ended
  exhausted : Err → Ended

abbrev pub max_attempts : ℕ
max_attempts = 3

abbrev pub or_else : String → String → String
or_else s default = if s == "" then default else s

module _ (out : Outside) where
  unfoldable pub build_webhook_body : PaymentEvent → Sent → Result String
  unfolding payment_key
  build_webhook_body evt w = out.marshal_body (record {
    event_type = "payment.settled";
    payment = record {
      id = payment_key evt;
      merchant_id = evt.merchant_id;
      consent_id = evt.consent_id;
      consumer_id = evt.consumer_id;
      amount_pence = evt.amount_pence;
      currency = or_else evt.currency "GBP";
      status = or_else evt.status "SETTLED";
      bank_payment_ref = evt.bank_payment_ref;
      risk_score = evt.risk_score;
      risk_decision = evt.risk_decision;
      settled_at = evt.settled_at;
      description = evt.description;
    };
    delivered_at = out.format_time (out.clock w.posts);
  })

  -- What an answer of the webhook means.
  unfoldable pub answered : Result ℕ → Result (Unit {0})
  answered (err e) = err (annotated "http post" e)
  answered (ok code) =
      if ltb code 200 || leb 300 code
      then err (plain ("webhook status " +++ decimal code))
      else ok tt

  abbrev pub signed_post : String → String → String → Sent → Post
  signed_post url secret body w = record {
    url = url;
    signature = sign out.hmac secret (out.clock w.posts) body;
    timestamp = timestamp_header (out.clock w.posts);
    body = body;
  }

  unfoldable pub post_webhook : String → String → String → Sent → Result (Unit {0}) × Sent
  unfolding answered
  post_webhook url secret body w = elim (out.new_request url) [
    | some e ↦ (err (annotated "new request" e), w)
    | none ↦
        let posts : List Post = w.posts ++ signed_post url secret body w ∷ [] in
        (answered (out.answer posts), record w { posts = posts })
  ]

  -- The message of the dead-letter topic for an event.
  abbrev pub dlq_payload : PaymentEvent → String → String → ℕ → Err → Sent → DlqPayload
  dlq_payload evt url body attempts last w = record {
    merchant_id = evt.merchant_id;
    payment_id = payment_key evt;
    webhook_url = url;
    attempts = attempts;
    last_error = error_text out.grpc_text last;
    payload = body;
    failed_at = out.format_time (out.clock w.posts);
  }

  -- `WriteMessages` of one message.
  unfoldable pub write_dlq : (List DeadLetter → Ack) → DeadLetter → Sent → Result (Unit {0}) × Sent
  write_dlq broker m w =
      let dead : List DeadLetter = w.dead ++ m ∷ [] in
      elim (broker dead) [
        | acked ↦ (ok tt, record w { dead = dead })
        | lost ↦ (err (annotated "write dlq" (plain "message lost")), w)
        | unacknowledged ↦
            (err (annotated "write dlq" (plain "not acknowledged")), record w { dead = dead })
      ]

  unfoldable pub publish_dlq :
      PaymentEvent → String → String → ℕ → Err → Sent → Result (Unit {0}) × Sent
  unfolding write_dlq
  publish_dlq evt url body attempts last w = elim out.dlq [
    | none ↦ (err (plain "dlq writer not configured"), w)
    | some broker ↦ elim (out.marshal_dlq (dlq_payload evt url body attempts last w)) [
      | err e ↦ (err (annotated "marshal dlq" e), w)
      | ok value ↦ write_dlq broker (record { key = evt.merchant_id; value = value }) w
    ]
  ]

  -- One attempt; `after` is what follows a failed one.
  unfoldable pub attempt_post :
      String → String → String → (Err → Sent → Ended × Sent) → Sent → Ended × Sent
  unfolding post_webhook
  attempt_post url secret body after w = elim (out.context_error w.posts) [
    | some e ↦ (stopped e, w)
    | none ↦
        let (r, v) = post_webhook url secret body w in
        elim r [ ok _ ↦ (delivered, v) | err e ↦ after e v ]
  ]

  -- One attempt and `more` further ones; the delivery waits before each of these.
  unfoldable pub try_posts : ℕ → String → String → String → Sent → Ended × Sent
  unfolding attempt_post
  try_posts zero url secret body w = attempt_post url secret body (λ e v. (exhausted e, v)) w
  try_posts (suc more) url secret body w =
      attempt_post url secret body
        (λ e v. elim (out.interrupted v.posts) [
          | some c ↦ (stopped c, v)
          | none ↦ try_posts more url secret body v
        ])
        w

  -- After the loop. The text of the second error leaves out the delivery's.
  unfoldable pub tried : PaymentEvent → String → String → Ended × Sent → Result (Unit {0}) × Sent
  unfolding publish_dlq
  tried evt url body (delivered, w) = (ok tt, w)
  tried evt url body (stopped e, w) = (err e, w)
  tried evt url body (exhausted last, w) =
      let (r, v) = publish_dlq evt url body max_attempts last w in
      elim r [
        | ok _ ↦ (ok tt, v)
        | err e ↦ (err (annotated "deliver failed and dlq publish failed" e), v)
      ]

  -- `Deliver`, once the merchant's configuration is known.
  unfoldable pub deliver_to : PaymentEvent → WebhookConfig → Sent → Result (Unit {0}) × Sent
  unfolding build_webhook_body try_posts tried
  deliver_to evt cfg w =
      if cfg.webhook_url == "" then (ok tt, w) else elim (build_webhook_body evt w) [
        | err e ↦ (err (annotated "build webhook body" e), w)
        | ok body ↦
            tried evt cfg.webhook_url body
              (try_posts (max_attempts - 1) cfg.webhook_url cfg.hmac_secret body w)
      ]

  unfoldable pub deliver : PaymentEvent → Sent → Result (Unit {0}) × Sent
  unfolding deliver_to payment_key
  deliver evt w =
      if payment_key evt == ""
      then (err (plain "payment event missing id"), w)
      else if evt.merchant_id == ""
      then (err (plain "payment event missing merchant_id"), w)
      else elim (out.webhook_config evt.merchant_id) [
        | err e ↦ (err (annotated "get webhook config" e), w)
        | ok cfg ↦ deliver_to evt cfg w
      ]
