-- ===== src/Tests/Webhooks.antt =====
-- Runs of the notification service, services/notification-svc/internal, and of pkg/shared/webhook.
use mathlib.Core.List.Memᴰ.{not-nil}
use vrp_oneclick_deposit_pla.Common.{
  ◌≡◌, refl, false, none, some, [], ◌∷◌, ◌+++◌, String, if◌then◌else◌, ltb, decimal, arith,
}
use vrp_oneclick_deposit_pla.Domainerr.{ok, err, plain, annotated}
use vrp_oneclick_deposit_pla.Payment.Outbox.{acked}
use vrp_oneclick_deposit_pla.Payment.Repo.{build_settled_payload}
use vrp_oneclick_deposit_pla.Notification.{
  PaymentEvent, payment_key, Outside, Sent, deliver, deliver_to, build_webhook_body, try_posts,
  attempt_post, post_webhook, answered, tried,
}
use vrp_oneclick_deposit_pla.Notification.Laws.{Delivered, deliver-Delivered}
use vrp_oneclick_deposit_pla.Notification.Consumer.{
  Fetched, State, Inbox, handle, handle_checked, handle_delivered, already_delivered,
  mark_delivered, holds, is_skipped, run,
}
use vrp_oneclick_deposit_pla.Notification.Consumer.Laws.{handle-handle}
use vrp_oneclick_deposit_pla.Notification.Consumer.Commits.{
  Committed, PassedOver, run-Committed, run-PassedOver,
}
use vrp_oneclick_deposit_pla.Notification.Relayed.{
  settled_event, settled_json, read_event, read_event-settled_json,
}
use vrp_oneclick_deposit_pla.Tests.Sagas.{payment}

-- A text in place of the code of the signature.
abbrev hmac : String → String → String
hmac secret text = secret +++ text

-- The first attempt is answered with 503, the next one with 200.
abbrev outside : Outside
outside = record {
  grpc_text = λ c m. m;
  webhook_config = λ _. ok (record { webhook_url = "https://shop"; hmac_secret = "s" });
  marshal_body = λ _. ok "body";
  marshal_dlq = λ _. ok "dead";
  hmac = hmac;
  clock = λ _. 900;
  format_time = decimal;
  context_error = λ _. none;
  interrupted = λ _. none;
  new_request = λ _. none;
  answer = λ posts. elim posts [ [] ↦ ok 503 | p ∷ ps ↦ elim ps [ [] ↦ ok 503 | _ ↦ ok 200 ] ];
  dlq = some (λ _. acked);
}

abbrev event : PaymentEvent
event = settled_event decimal payment 9

abbrev nothing_sent : Sent
nothing_sent = record { posts = []; dead = [] }

deliver-Delivered_example :
    Delivered outside event nothing_sent (deliver outside event nothing_sent)
deliver-Delivered_example = deliver-Delivered outside event nothing_sent

-- Every message is the event of one payment.
abbrev inbox : Inbox
inbox = record {
  outside = outside;
  decode = λ v. ok event;
  redis_fault = λ _. none;
  expired = λ n key. false;
  commit_fault = λ _. none;
}

-- Redis does not answer the first command.
abbrev broken : Inbox
broken = record inbox {
  redis_fault = λ n. if ltb n 1 then some (plain "connection lost") else none;
}

abbrev start : State
start = record { sent = nothing_sent; keys = []; commands = 0; commits = [] }

abbrev first : Fetched
first = record { partition = 0; offset = 7; value = "{}" }

abbrev second : Fetched
second = record { partition = 0; offset = 8; value = "{}" }

first_handled : (handle inbox first start).0 ≡ ok tt
unfolding handle handle_checked handle_delivered already_delivered mark_delivered holds is_skipped
    payment_key deliver deliver_to build_webhook_body try_posts attempt_post post_webhook answered
    tried
first_handled = refl

handle-handle_example :
    ((handle inbox first (handle inbox first start).1).0 ≡ ok tt)
    × ((handle inbox first (handle inbox first start).1).1.sent ≡ (handle inbox first start).1.sent)
    × ((handle inbox first (handle inbox first start).1).1.keys ≡ (handle inbox first start).1.keys)
handle-handle_example = handle-handle inbox first start first_handled (refl, λ key. refl)

run-Committed_example : Committed inbox (run inbox (first ∷ second ∷ []) start).1
run-Committed_example = run-Committed inbox (first ∷ second ∷ []) start (λ m k. absurd (not-nil k))

first_fails :
    (handle broken first start).0 ≡ err (annotated "check delivered" (plain "connection lost"))
unfolding handle handle_checked already_delivered is_skipped payment_key
first_fails = refl

second_handled : (handle broken second (handle broken first start).1).0 ≡ ok tt
unfolding handle handle_checked handle_delivered already_delivered mark_delivered holds is_skipped
    payment_key deliver deliver_to build_webhook_body try_posts attempt_post post_webhook answered
    tried
second_handled = refl

run-PassedOver_example : PassedOver broken first (run broken (first ∷ second ∷ []) start).1
run-PassedOver_example =
    run-PassedOver broken first second [] start _ refl (omega arith) first_fails second_handled refl

read_event-settled_json_example :
    (read_event (settled_json decimal (build_settled_payload payment 9)) ≡ ok event)
    × (is_skipped event ≡ false)
    × (payment_key event ≡ "p")
    × (build_webhook_body outside event nothing_sent ≡ ok "body")
read_event-settled_json_example =
    read_event-settled_json decimal payment 9 outside nothing_sent refl refl refl
