-- ===== src/Gateway/Handlers.antt =====
-- services/gateway/internal/httpapi/handlers.go and router.go. A body of a request comes as what
-- `decodeJSON` makes of it.
pub mod Owned
use vrp_oneclick_deposit_pla.Common.{
  ℕ, ◌+◌, Bool, true, false, String, Option, none, some, List, [], ◌∷◌, ◌++◌, ◌==◌, ◌||◌, not,
  ◌+++◌, ltb, leb_ℤ, ltb_ℤ, eqb, ℤ, pos, if◌then◌else◌, trim_space, byte_len, atoi,
}
use vrp_oneclick_deposit_pla.Domainerr.{GrpcCode, Result, ok, err}
use vrp_oneclick_deposit_pla.Payment.Handler.{
  Money, PaymentStatus, settled, failed, PaymentMessage, InitiatePaymentRequest, PaymentRequest,
}
use vrp_oneclick_deposit_pla.Consent.Handler.{
  ConsentMessage, CreateRequest, ListRequest, ListResponse,
}
use vrp_oneclick_deposit_pla.Merchant.{RegisterInput}
use vrp_oneclick_deposit_pla.Merchant.Handler.{MerchantMessage, RegisterResponse}
use vrp_oneclick_deposit_pla.Gateway.{ErrorBody, HttpReply, write_error, map_grpc_error}
use vrp_oneclick_deposit_pla.Gateway.Convert.{
  RegisterMerchantRequest, MerchantResponse, CreateConsentRequest, ConsentResponse,
  ListConsentsResponse, DepositRequest, PaymentResponse, parse_consent_status, parse_time,
  merchant_from_proto, consent_from_proto, consents_from_proto, payment_from_proto,
}
use vrp_oneclick_deposit_pla.Gateway.Middleware.{
  ParseWithClaims, Outcome, refused, admitted, Counting, Counters, Request, request_id, admit,
}
use vrp_oneclick_deposit_pla.Gateway.Calls.{
  Call, get_merchant_by_api_key, register_merchant, get_consent, revoke_consent, list_consents,
  initiate_payment, get_payment, retry_payment, Body, error_body, token_body, registered_body,
  merchant_body, consent_body, consents_body, payment_body, Services, ListQuery, write_json,
  as_error, Handling, Route, consent, payment, retry, create_consent, revoke, list, initiate,
}

module _ (services : Services) (rid : String) where
  abbrev pub rejected : ℕ → String → String → Handling
  rejected status_code code message calls =
      (as_error (write_error rid status_code code message), calls)

  abbrev pub invalid : String → Handling
  invalid = rejected 400 "VALIDATION_ERROR"

  -- A call of a service, and the reply for its value or for its error.
  unfoldable pub asked :
      {A : Type 0} → (List Call → Result A) → Call → (A → HttpReply Body) → Handling
  unfolding map_grpc_error
  asked answer c reply calls =
      let after : List Call = calls ++ c ∷ [] in
      elim (answer after) [
        | err e ↦ (as_error (map_grpc_error services.grpc_text rid e), after)
        | ok a ↦ (reply a, after)
      ]

  -- `TokenService.Issue` and the reply of `IssueToken`; the signed claims are the merchant and the end.
  unfoldable pub token_reply : MerchantMessage → HttpReply Body
  token_reply m =
      if m.status == "SUSPENDED"
      then as_error (write_error rid 403 "MERCHANT_SUSPENDED" "merchant is suspended")
      else elim (services.sign_token m.id (services.now + services.token_ttl)) [
        | err e ↦ as_error (write_error rid 500 "INTERNAL_ERROR" "failed to issue token")
        | ok token ↦
            write_json 200 (token_body token (services.format (services.now + services.token_ttl)))
      ]

  unfoldable pub issue_token : Result String → Handling
  unfolding asked token_reply
  issue_token (err e) = invalid "invalid JSON body"
  issue_token (ok api_key) =
      if trim_space api_key == ""
      then invalid "api_key is required"
      else asked services.merchant (get_merchant_by_api_key api_key) token_reply

  unfoldable pub register : Result RegisterMerchantRequest → Handling
  unfolding asked merchant_from_proto
  register (err e) = invalid "invalid JSON body"
  register (ok req) =
      if trim_space req.name == ""
        || (trim_space req.webhook_url == "" || trim_space req.contact_email == "")
      then invalid "name, webhook_url, and contact_email are required"
      else asked services.registration
          (register_merchant (record {
            name = req.name;
            webhook_url = req.webhook_url;
            contact_email = req.contact_email;
          }))
          (λ r.
            write_json 201
              (registered_body (merchant_from_proto services.format r.merchant) r.api_key))

  unfoldable pub consent_reply : ℕ → ConsentMessage → HttpReply Body
  unfolding consent_from_proto
  consent_reply code c = write_json code (consent_body (consent_from_proto services.format c))

  -- The reply of `InitiatePayment` and of `RetryPayment`.
  unfoldable pub deposit_reply : PaymentMessage → HttpReply Body
  unfolding payment_from_proto
  deposit_reply p =
      let body : Body = payment_body (payment_from_proto services.format p) in
      elim p.status [
        | settled ↦ write_json 201 body
        | failed ↦ write_json 422 body
        | _ ↦ record (write_json 202 body) {
          headers = ("Location", "/v1/payments/" +++ p.id) ∷ ("Retry-After", "2") ∷ [];
        }
      ]

  unfoldable pub retried_reply : PaymentMessage → HttpReply Body
  unfolding payment_from_proto
  retried_reply p =
      let body : Body = payment_body (payment_from_proto services.format p) in
      elim p.status [
        | settled ↦ write_json 200 body
        | failed ↦ write_json 422 body
        | _ ↦ write_json 202 body
      ]

  -- `page_size` of a list; none where it is refused.
  unfoldable pub page_size_of : String → Option ℤ
  unfolding atoi
  page_size_of v = if v == "" then some (pos 20) else elim (atoi v) [
    | none ↦ none
    | some n ↦ if leb_ℤ n (pos 0) || ltb_ℤ (pos 100) n then none else some n
  ]

  module _ (merchant : String) where
    unfoldable pub get_merchant_for : String → Handling
    unfolding asked merchant_from_proto
    get_merchant_for id =
        if id == merchant
        then asked services.merchant (Call.get_merchant id)
            (λ m. write_json 200 (merchant_body (merchant_from_proto services.format m)))
        else rejected 403 "FORBIDDEN" "cannot access another merchant"

    -- After the time was parsed.
    unfoldable pub create_until : CreateConsentRequest → Result (Option ℕ) → Handling
    unfolding asked consent_reply
    create_until req (ok (some t)) =
        asked services.consent
          (Call.create_consent (record {
            merchant_id = merchant;
            consumer_id = req.consumer_id;
            bank_consent_ref = req.bank_consent_ref;
            max_per_transaction = some req.max_per_transaction;
            max_per_month = some req.max_per_month;
            valid_until = some t;
          }))
          (consent_reply 201)
    create_until req _ = invalid "valid_until must be RFC3339 timestamp"

    unfoldable pub create_consent_for : Result CreateConsentRequest → Handling
    unfolding create_until parse_time
    create_consent_for (err e) = invalid "invalid JSON body"
    create_consent_for (ok req) =
        if req.consumer_id == "" || req.bank_consent_ref == ""
        then invalid "consumer_id and bank_consent_ref are required"
        else if leb_ℤ req.max_per_transaction.amount_pence (pos 0)
            || leb_ℤ req.max_per_month.amount_pence (pos 0)
        then invalid "max_per_transaction and max_per_month must be positive"
        else create_until req (parse_time services.rfc3339 services.rfc3339_nano req.valid_until)

    -- The reason of a revocation: the body is optional, and what `decodeJSON` leaves of it is taken,
    -- whether it fails or not.
    unfoldable pub reason_of : String → String
    reason_of reason = if reason == "" then "MERCHANT_REQUEST" else reason

    -- After the page size was read.
    unfoldable pub list_page : ListQuery → Option ℤ → Handling
    unfolding asked parse_consent_status consents_from_proto
    list_page q none = invalid "page_size must be 1-100"
    list_page q (some size) =
        asked services.consents
          (list_consents (record {
            consumer_id = q.consumer_id;
            merchant_id = merchant;
            status = parse_consent_status q.status;
            page = some (record { page_size = size; page_token = q.page_token });
          }))
          (λ r. write_json 200 (consents_body (consents_from_proto services.format r)))

    unfoldable pub list_for : ListQuery → Handling
    unfolding page_size_of list_page
    list_for q =
        if q.consumer_id == ""
        then invalid "consumer_id query param is required"
        else list_page q (page_size_of q.page_size)

    unfoldable pub initiate_for : String → Result DepositRequest → Handling
    unfolding asked deposit_reply
    initiate_for key body =
        if trim_space key == ""
        then invalid "Idempotency-Key header is required"
        else if ltb 128 (byte_len (trim_space key))
        then invalid "Idempotency-Key max length is 128"
        else elim body [
          | err e ↦ invalid "invalid JSON body"
          | ok req ↦
              if req.consent_id == ""
              then invalid "consent_id is required"
              else if leb_ℤ req.amount.amount_pence (pos 0) || req.amount.currency == ""
              then invalid "amount.amount_pence and amount.currency are required"
              else asked services.payment
                  (initiate_payment (record {
                    idempotency_key = trim_space key;
                    merchant_id = merchant;
                    consent_id = req.consent_id;
                    amount = some req.amount;
                    description = req.description;
                  }))
                  deposit_reply
        ]

    abbrev pub payment_request : String → PaymentRequest
    payment_request id = record { payment_id = id; merchant_id = merchant }

    -- The handlers of the routes, for the merchant of the context.
    unfoldable pub handle : Route → Handling
    unfolding get_merchant_for create_consent_for reason_of list_for initiate_for asked
        consent_reply payment_from_proto retried_reply
    handle (Route.get_merchant id) = get_merchant_for id
    handle (create_consent body) = create_consent_for body
    handle (list q) = list_for q
    handle (consent id) = asked services.consent (get_consent id merchant) (consent_reply 200)
    handle (revoke id reason) =
        asked services.consent (revoke_consent id merchant (reason_of reason)) (consent_reply 200)
    handle (initiate key body) = initiate_for key body
    handle (payment id) =
        asked services.payment (get_payment (payment_request id))
          (λ p. write_json 200 (payment_body (payment_from_proto services.format p)))
    handle (retry id) = asked services.payment (retry_payment (payment_request id)) retried_reply

-- A request for a route with authentication: the middlewares and the handler.
unfoldable pub serve :
    Services
    → ParseWithClaims
    → String
    → Option Counting
    → ℤ
    → Route
    → Request
    → Counters × List Call
    → HttpReply Body × Counters × List Call
unfolding admit handle request_id
serve services claims secret redis per_second route r (s, calls) =
    let (o, t) = admit claims secret redis per_second r s in
    elim o [
      | refused x ↦ (as_error x, t, calls)
      | admitted merchant ↦
          (let (reply, after) = handle services (request_id r) merchant route calls in
            (reply, t, after))
    ]
