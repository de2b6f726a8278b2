-- ===== src/Notification/Relayed.antt =====
-- From services/payment-svc/internal/repo.go to services/notification-svc/internal: the JSON object of a
-- settled payment, with the keys that `buildSettledPayload` writes and those that the tags of
-- `PaymentEvent` read. encoding/json is modelled by the objects that it writes and reads.
use vrp_oneclick_deposit_pla.Common.{
  ℕ, ◌^◌, ◌-◌, ◌≡◌, refl, ◌==◌, ◌&&◌, Bool, true, false, String, Option, none, some, List, [], ◌∷◌,
  arith, ℤ, pos, negsuc, ltb_ℤ, leb_ℤ, if◌then◌else◌,
}
use vrp_oneclick_deposit_pla.Domainerr.{plain, Result, ok, err, ◌>>=◌}
use vrp_oneclick_deposit_pla.Payment.{
  Payment, SettledPayload, Status, initiated, consent_reserved, risk_passed, authorising, settled,
  failed, manual_review,
}
use vrp_oneclick_deposit_pla.Payment.Repo.{build_settled_payload}
use vrp_oneclick_deposit_pla.Notification.{
  PaymentEvent, payment_key, Outside, Sent, WebhookBody, build_webhook_body, or_else,
}
use vrp_oneclick_deposit_pla.Notification.Consumer.{is_skipped}

-- The texts of the status constants.
unfoldable pub status_text : Status → String
status_text initiated = "INITIATED"
status_text consent_reserved = "CONSENT_RESERVED"
status_text risk_passed = "RISK_PASSED"
status_text authorising = "AUTHORISING"
status_text settled = "SETTLED"
status_text failed = "FAILED"
status_text manual_review = "MANUAL_REVIEW"

-- A value of an object.
pub data Json : Type 0 where
  text : String → Json
  number : ℤ → Json
  null : Json

-- The object that `json.Marshal` writes; `format` writes a time.
unfoldable pub settled_json : (ℕ → String) → SettledPayload → List (String × Json)
unfolding status_text
settled_json format b =
    ("event_type", text b.event_type)
    ∷ ("payment_id", text b.payment_id)
    ∷ ("idempotency_key", text b.idempotency_key)
    ∷ ("merchant_id", text b.merchant_id)
    ∷ ("consent_id", text b.consent_id)
    ∷ ("consumer_id", text b.consumer_id)
    ∷ ("amount_pence", number b.amount_pence)
    ∷ ("currency", text b.currency)
    ∷ ("status", text (status_text b.status))
    ∷ ("bank_payment_ref", text b.bank_payment_ref)
    ∷ ("risk_score", elim b.risk_score [ none ↦ null | some n ↦ number n ])
    ∷ ("risk_decision", text b.risk_decision)
    ∷ ("description", text b.description)
    ∷ ("initiated_at", text (format b.initiated_at))
    ∷ ("settled_at", text (format b.settled_at))
    ∷ []

-- The value of a key; a key that is missing is read as null is: the field keeps its zero.
unfoldable pub value_of : String → List (String × Json) → Json
value_of key [] = null
value_of key ((k, v) ∷ fields) = let rest = value_of key fields in if k == key then v else rest

unfoldable pub text_of : Json → Result String
text_of (text s) = ok s
text_of null = ok ""
text_of (number n) = err (plain "json: cannot unmarshal number into a field of type string")

-- A number for a field of so many bits, one of which is the sign.
abbrev pub fits : ℕ → ℤ → Bool
fits bits n = ltb_ℤ n (pos (2 ^ (bits - 1))) && leb_ℤ (negsuc (2 ^ (bits - 1) - 1)) n

unfoldable pub number_of : ℕ → Json → Result ℤ
number_of bits (number n) =
    if fits bits n then ok n else err (plain "json: cannot unmarshal number into a field")
number_of bits null = ok (pos 0)
number_of bits (text s) = err (plain "json: cannot unmarshal string into a field")

-- `json.Unmarshal` into a `PaymentEvent`, by the tags of its fields.
unfoldable pub read_event : List (String × Json) → Result PaymentEvent
unfolding value_of text_of number_of
read_event o = do
  event_type ← text_of (value_of "event_type" o)
  id ← text_of (value_of "id" o)
  payment_id ← text_of (value_of "payment_id" o)
  merchant_id ← text_of (value_of "merchant_id" o)
  consent_id ← text_of (value_of "consent_id" o)
  consumer_id ← text_of (value_of "consumer_id" o)
  amount_pence ← number_of 64 (value_of "amount_pence" o)
  currency ← text_of (value_of "currency" o)
  status ← text_of (value_of "status" o)
  bank_payment_ref ← text_of (value_of "bank_payment_ref" o)
  description ← text_of (value_of "description" o)
  risk_score ← number_of 32 (value_of "risk_score" o)
  risk_decision ← text_of (value_of "risk_decision" o)
  initiated_at ← text_of (value_of "initiated_at" o)
  settled_at ← text_of (value_of "settled_at" o)
  ok (record {
    event_type = event_type;
    id = id;
    payment_id = payment_id;
    merchant_id = merchant_id;
    consent_id = consent_id;
    consumer_id = consumer_id;
    amount_pence = amount_pence;
    currency = currency;
    status = status;
    bank_payment_ref = bank_payment_ref;
    description = description;
    risk_score = risk_score;
    risk_decision = risk_decision;
    initiated_at = initiated_at;
    settled_at = settled_at;
  })

number_of-score :
    (o : Option ℤ)
    → fits 32 (elim o [ none ↦ pos 0 | some n ↦ n ]) ≡ true
    → number_of 32 (elim o [ none ↦ null | some n ↦ number n ])
      ≡ ok (elim o [ none ↦ pos 0 | some n ↦ n ])
unfolding number_of
number_of-score none h = refl
number_of-score (some n) h = rw h refl

module _ (format : ℕ → String) (p : Payment) (at : ℕ) where
  -- The score of a payment, which is zero where there is none.
  abbrev pub score : ℤ
  score = elim p.risk_score [ none ↦ pos 0 | some n ↦ n ]

  -- What the notification service has to know of a settled payment.
  abbrev pub settled_event : PaymentEvent
  settled_event = record {
    event_type = "payment.settled";
    id = "";
    payment_id = p.id;
    merchant_id = p.merchant_id;
    consent_id = p.consent_id;
    consumer_id = p.consumer_id;
    amount_pence = p.amount_pence;
    currency = p.currency;
    status = "SETTLED";
    bank_payment_ref = p.bank_payment_ref;
    description = p.description;
    risk_score = score;
    risk_decision = p.risk_decision;
    initiated_at = format p.initiated_at;
    settled_at = format at;
  }

  -- The webhook's body for the payment.
  abbrev pub settled_body : (ℕ → String) → ℕ → WebhookBody
  settled_body write now = record {
    event_type = "payment.settled";
    payment = record {
      id = p.id;
      merchant_id = p.merchant_id;
      consent_id = p.consent_id;
      consumer_id = p.consumer_id;
      amount_pence = p.amount_pence;
      currency = or_else p.currency "GBP";
      status = "SETTLED";
      bank_payment_ref = p.bank_payment_ref;
      risk_score = score;
      risk_decision = p.risk_decision;
      settled_at = format at;
      description = p.description;
    };
    delivered_at = write now;
  }

  -- The event of a settled payment that has an id, an amount of 64 bits and a score of 32 bits is read
  -- with the payment's data from the keys that it was written with; the consumer acts on it, under the
  -- payment's id; and the body for the webhook has the payment's data, and is settled.
  pub read_event-settled_json :
      (out : Outside) (sent : Sent)
      → (p.id == "") ≡ false
      → fits 64 p.amount_pence ≡ true
      → fits 32 score ≡ true
      → (read_event (settled_json format (build_settled_payload p at)) ≡ ok settled_event)
        × (is_skipped settled_event ≡ false)
        × (payment_key settled_event ≡ p.id)
        × (build_webhook_body out settled_event sent
            ≡ out.marshal_body (settled_body out.format_time (out.clock sent.posts)))
  unfolding read_event settled_json build_settled_payload build_webhook_body payment_key is_skipped
  read_event-settled_json out sent named amount points =
      (rw (amount, number_of-score p.risk_score points) refl, ground arith, refl, refl)
