-- ===== src/Consent/Handler.antt =====
-- services/consent-svc/internal/handler.go, with the messages of gen/consent/v1.
pub mod Paging
pub mod Tokens
use vrp_oneclick_deposit_pla.Common.{
  ℕ, ◌+◌, ◌-◌, ◌^◌, ◌%◌, Bool, true, false, Option, none, some, String, List, [], ◌∷◌, map, ◌==◌,
  ◌&&◌, not, eqb, ltb, leb, ltb_ℤ, leb_ℤ, ℤ, pos, negsuc, pos_part, if◌then◌else◌, trim_space,
  to_upper, byte_len, decimal, atoi,
}
use vrp_oneclick_deposit_pla.Common.Pages.{length}
use vrp_oneclick_deposit_pla.Domainerr.{GrpcCode, Code, validation, Err, domain, Result, ok, err}
use vrp_oneclick_deposit_pla.Domainerr.Grpc.{to_grpc}
use vrp_oneclick_deposit_pla.Postgres.{Server, Query, raise}
use vrp_oneclick_deposit_pla.Payment.Handler.{Money}
use vrp_oneclick_deposit_pla.Consent.{ConsentRow, ConsentStatus, Tables}
use vrp_oneclick_deposit_pla.Consent
use vrp_oneclick_deposit_pla.Consent.Service.{
  CreateInput, ReserveInput, ReserveResult, UsageResult, default_currency, create_consent, revoke,
  validate_and_reserve, confirm, release, get_rolling_usage,
}
use vrp_oneclick_deposit_pla.Consent.Service.Reads.{Scan, list_consents, get_consent_for}

-- `consentv1.ConsentStatus`
pub data ConsentState : Type 0 where
  unspecified pending active revoked expired : ConsentState

-- `consentv1.Consent`
pub record ConsentMessage : Type 0 where
  pub id : String
  pub merchant_id : String
  pub consumer_id : String
  pub bank_consent_ref : String
  pub status : ConsentState
  pub max_per_transaction : Money
  pub max_per_month : Money
  pub valid_from : ℕ
  pub valid_until : ℕ
  pub created_at : ℕ
  pub updated_at : ℕ

pub record CreateRequest : Type 0 where
  pub merchant_id : String
  pub consumer_id : String
  pub bank_consent_ref : String
  pub max_per_transaction : Option Money
  pub max_per_month : Option Money
  pub valid_until : Option ℕ

-- `commonv1.PageRequest`, `consentv1.ListConsentsRequest` and its response
pub record PageRequest : Type 0 where
  pub page_size : ℤ
  pub page_token : String

pub record ListRequest : Type 0 where
  pub consumer_id : String
  pub merchant_id : String
  pub status : ConsentState
  pub page : Option PageRequest

pub record ListResponse : Type 0 where
  pub consents : List ConsentMessage
  pub next_page_token : String
  pub total_count : ℤ

pub record ReserveRequest : Type 0 where
  pub consent_id : String
  pub payment_id : String
  pub amount : Option Money

pub record ReserveResponse : Type 0 where
  pub reservation_id : String
  pub remaining_monthly : Money
  pub consumer_id : String
  pub bank_consent_ref : String

pub record UsageResponse : Type 0 where
  pub used_this_month : Money
  pub remaining_this_month : Money
  pub tx_count_this_month : ℤ

unfoldable pub money_from_proto : Option Money → Result (ℤ × String)
money_from_proto none = err (domain validation "money is required")
money_from_proto (some m) =
    let upper : String = to_upper (trim_space m.currency) in
    let cur : String = if upper == "" then default_currency else upper in
    if not (eqb (byte_len cur) 3)
    then err (domain validation "currency must be 3-letter ISO code")
    else if leb_ℤ m.amount_pence (pos 0)
    then err (domain validation "amount must be positive")
    else ok (m.amount_pence, cur)

unfoldable pub map_status : ConsentStatus → ConsentState
map_status Consent.pending = pending
map_status Consent.active = active
map_status Consent.revoked = revoked
map_status Consent.expired = expired

-- The status that is shown at the time `now`: an active consent that has run out is expired.
unfoldable pub shown_status : ℕ → ConsentRow → ConsentState
unfolding map_status
shown_status now c = elim (map_status c.status) [
  | active ↦ if ltb now c.valid_until then active else expired
  | s ↦ s
]

unfoldable pub to_proto_consent : ℕ → ConsentRow → ConsentMessage
unfolding shown_status
to_proto_consent now c = record {
  id = c.id;
  merchant_id = c.merchant_id;
  consumer_id = c.consumer_id;
  bank_consent_ref = c.bank_consent_ref;
  status = shown_status now c;
  max_per_transaction = record { amount_pence = c.max_amount_pence; currency = c.currency };
  max_per_month = record { amount_pence = c.max_monthly_pence; currency = c.currency };
  valid_from = c.valid_from;
  valid_until = c.valid_until;
  created_at = c.created_at;
  updated_at = c.updated_at;
}

-- The status that a list is asked for.
unfoldable pub wanted_status : ConsentState → Option ConsentStatus
wanted_status unspecified = none
wanted_status pending = some Consent.pending
wanted_status active = some Consent.active
wanted_status revoked = some Consent.revoked
wanted_status expired = some Consent.expired

abbrev pub bad_token : Err
bad_token = domain validation "page_token must be an integer offset"

-- The offset that a page token stands for.
unfoldable pub offset_of : String → Result ℕ
offset_of token = if trim_space token == "" then ok 0 else elim (atoi (trim_space token)) [
  | none ↦ err bad_token
  | some z ↦ elim z [ pos n ↦ ok n | negsuc n ↦ err bad_token ]
]

-- The limit and the offset of a request.
unfoldable pub page_of : Option PageRequest → Result (ℕ × ℕ)
unfolding offset_of
page_of none = ok (20, 0)
page_of (some p) =
    let limit : ℕ = if ltb_ℤ (pos 0) p.page_size then pos_part p.page_size else 20 in
    elim (offset_of p.page_token) [ err e ↦ err e | ok offset ↦ ok (limit, offset) ]

-- `int32(total)`
unfoldable pub int32_of : ℕ → ℤ
int32_of n =
    let low : ℕ = n % 2 ^ 32 in if ltb low (2 ^ 31) then pos low else negsuc (2 ^ 32 - 1 - low)

unfoldable pub next_token : ℕ → List ConsentRow → ℕ → String
next_token offset rows total =
    if ltb (offset + length rows) total then decimal (offset + length rows) else ""

unfoldable pub list_response : ℕ → ℕ → List ConsentRow × ℕ → ListResponse
unfolding to_proto_consent next_token int32_of
list_response now offset (rows, total) = record {
  consents = map (to_proto_consent now) rows;
  next_page_token = next_token offset rows total;
  total_count = int32_of total;
}

module _ (grpc_text : GrpcCode → String → String) (detailed : Bool) (server : Server)
    (now : ℕ) where
  abbrev pub sent_error : Err → Err
  sent_error e = to_grpc grpc_text detailed e

  -- The reply of a call: `f` of its value, or its error for gRPC.
  unfoldable pub replied : {A B : Type 0} → (A → B) → Query Tables A → Query Tables B
  replied f q s =
      let (r, t) = q s in elim r [ ok a ↦ (ok (f a), t) | err e ↦ (err (sent_error e), t) ]

  unfoldable pub create_from :
      CreateRequest → Result (ℤ × String) → Result (ℤ × String) → Query Tables ConsentMessage
  unfolding replied to_proto_consent
  create_from req (err e) monthly = raise (sent_error e)
  create_from req (ok each) (err e) = raise (sent_error e)
  create_from req (ok each) (ok monthly) = replied (to_proto_consent now) (
      create_consent server now (record {
        merchant_id = req.merchant_id;
        consumer_id = req.consumer_id;
        bank_consent_ref = req.bank_consent_ref;
        max_amount_pence = each.0;
        max_monthly_pence = monthly.0;
        currency = (if each.1 == "" then monthly.1 else each.1);
        valid_until = elim req.valid_until [ none ↦ 0 | some t ↦ t ];
      }))

  unfoldable pub create : CreateRequest → Query Tables ConsentMessage
  unfolding create_from money_from_proto
  create req =
      create_from req (money_from_proto req.max_per_transaction)
        (money_from_proto req.max_per_month)

  unfoldable pub get : Option ConsentRow → String → String → Query Tables ConsentMessage
  unfolding replied to_proto_consent
  get cached id merchant_id =
      replied (to_proto_consent now) (get_consent_for server cached id merchant_id)

  unfoldable pub revoke_for : String → String → Query Tables ConsentMessage
  unfolding replied to_proto_consent
  revoke_for id merchant_id = replied (to_proto_consent now) (revoke server now id merchant_id)

  -- A list with its limit and offset, or the error of its token.
  unfoldable pub list_at : Scan → ListRequest → Result (ℕ × ℕ) → Query Tables ListResponse
  unfolding wanted_status list_response replied
  list_at scan req (err e) = raise (sent_error e)
  list_at scan req (ok (limit, offset)) = replied (list_response now offset) (
      list_consents server scan req.consumer_id req.merchant_id (wanted_status req.status) limit
        offset)

  unfoldable pub list : Scan → ListRequest → Query Tables ListResponse
  unfolding list_at page_of
  list scan req = list_at scan req (page_of req.page)

  unfoldable pub reserve : ReserveRequest → Query Tables ReserveResponse
  unfolding money_from_proto replied
  reserve req = elim (money_from_proto req.amount) [
    | err e ↦ raise (sent_error e)
    | ok (amount, cur) ↦
        replied
          (λ (r : ReserveResult). record {
            reservation_id = r.reservation_id;
            remaining_monthly = record {
              amount_pence = r.remaining_monthly;
              currency = r.currency;
            };
            consumer_id = r.consumer_id;
            bank_consent_ref = r.bank_consent_ref;
          })
          (validate_and_reserve server now (record {
            consent_id = req.consent_id;
            payment_id = req.payment_id;
            amount_pence = amount;
            currency = cur;
          }))
  ]

  unfoldable pub confirm_for : String → String → Query Tables (Unit {0})
  unfolding replied
  confirm_for id payment_id = replied (λ (u : Unit {0}). u) (confirm server now id payment_id)

  unfoldable pub release_for : String → Query Tables (Unit {0})
  unfolding replied
  release_for id = replied (λ (u : Unit {0}). u) (release server now id)

  unfoldable pub rolling_usage_for : String → Query Tables UsageResponse
  unfolding replied
  rolling_usage_for id =
      replied
        (λ (r : UsageResult). record {
          used_this_month = record { amount_pence = r.used_pence; currency = r.currency };
          remaining_this_month = record { amount_pence = r.remaining_pence; currency = r.currency };
          tx_count_this_month = r.tx_count;
        })
        (get_rolling_usage server now id)
