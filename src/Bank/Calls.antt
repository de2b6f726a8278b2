-- ===== src/Bank/Calls.antt =====
-- `InitiatePayment`, `GetPaymentStatus` and `ReversePayment` of
-- services/bank-adapter/internal/adapter.go, with the messages of gen/bank/v1.
pub mod Laws
use vrp_oneclick_deposit_pla.Common.{
  Bool, String, Option, none, some, ◌==◌, ◌&&◌, ◌+++◌, ℤ, pos, leb_ℤ, if◌then◌else◌,
}
use vrp_oneclick_deposit_pla.Domainerr.{
  GrpcCode, Err, domain, wrapped, Result, ok, err, Code, validation, reject_if,
}
use vrp_oneclick_deposit_pla.Domainerr
use vrp_oneclick_deposit_pla.Domainerr.Grpc.{to_grpc}
use vrp_oneclick_deposit_pla.Payment.Handler.{Money}
use vrp_oneclick_deposit_pla.Payment.World.{BankStatus, bank_rejected, BankReply}
use vrp_oneclick_deposit_pla.Bank.{Http, Resilience, Wire, or_text, map_status, do_with_resilience}

-- `bankv1.InitiateRequest`
pub record InitiateRequest : Type 0 where
  pub payment_id : String
  pub bank_consent_ref : String
  pub consumer_id : String
  pub amount : Option Money
  pub description : String

-- The bodies of the HTTP interface.
pub record HttpInitiateReq : Type 0 where
  pub payment_id : String
  pub bank_consent_ref : String
  pub consumer_id : String
  pub amount_pence : ℤ
  pub currency : String
  pub description : String

pub record HttpInitiateResp : Type 0 where
  pub bank_payment_ref : String
  pub status : String
  pub failure_reason : String

pub record HttpStatusResp : Type 0 where
  pub bank_payment_ref : String
  pub status : String
  pub updated_at : String
  pub failure_reason : String
  pub reversal_ref : String

pub record HttpReverseResp : Type 0 where
  pub bank_payment_ref : String
  pub reversal_ref : String
  pub status : String

-- `bankv1.StatusResponse` and `bankv1.ReverseResponse`
pub record StatusResponse (T : Type 0) : Type 0 where
  pub bank_payment_ref : String
  pub status : BankStatus
  pub updated_at : T

pub record ReverseResponse : Type 0 where
  pub bank_payment_ref : String
  pub reversal_ref : String
  pub status : BankStatus

-- The guards of `InitiatePayment`; the amount that they let through.
unfoldable pub check_initiate : InitiateRequest → Result Money
check_initiate req =
    if req.payment_id == ""
    then err (domain validation "payment_id is required")
    else if req.bank_consent_ref == ""
    then err (domain validation "bank_consent_ref is required")
    else elim req.amount [
      | none ↦ err (domain validation "amount must be positive")
      | some m ↦
          if leb_ℤ m.amount_pence (pos 0)
          then err (domain validation "amount must be positive")
          else ok m
    ]

unfoldable pub initiate_body : InitiateRequest → Money → HttpInitiateReq
initiate_body req m = record {
  payment_id = req.payment_id;
  bank_consent_ref = req.bank_consent_ref;
  consumer_id = req.consumer_id;
  amount_pence = m.amount_pence;
  currency = or_text m.currency "GBP";
  description = req.description;
}

-- The status of an answer, an unknown one being an error.
unfoldable pub known_status : (String → String) → String → Result BankStatus
unfolding map_status
known_status quote s = elim (map_status quote s) [
  | ok b ↦ ok b
  | err e ↦ err (wrapped Code.internal "unknown bank status" e)
]

-- A rejection has a reason.
unfoldable pub with_reason : BankReply → BankReply
with_reason r = elim r.status [
  | bank_rejected ↦ record r { failure_reason = or_text r.failure_reason "bank rejected payment" }
  | _ ↦ r
]

module _ (grpc_text : GrpcCode → String → String) (detailed : Bool) (quote : String → String) where
  -- What a call returns after its exchange with the bank.
  unfoldable pub answered :
      {A B : Type 0} → (A → String) → (A → BankStatus → B) → Option Err × Wire A → Result B × Wire A
  unfolding known_status
  answered status_of reply (some e, w) = (err (to_grpc grpc_text detailed e), w)
  answered status_of reply (none, w) = elim (known_status quote (status_of w.out)) [
    | ok s ↦ (ok (reply w.out s), w)
    | err e ↦ (err (to_grpc grpc_text detailed e), w)
  ]

  abbrev pub initiated_reply : HttpInitiateResp → BankStatus → BankReply
  initiated_reply out s = with_reason (record {
    bank_payment_ref = out.bank_payment_ref;
    status = s;
    failure_reason = out.failure_reason;
  })

  -- `InitiatePayment`; `marshal` is `json.Marshal`.
  unfoldable pub initiate_payment :
      Http HttpInitiateResp
      → Resilience HttpInitiateResp
      → (HttpInitiateReq → Result String)
      → InitiateRequest
      → Wire HttpInitiateResp
      → Result BankReply × Wire HttpInitiateResp
  unfolding answered check_initiate initiate_body with_reason do_with_resilience
  initiate_payment http r marshal req w = elim (check_initiate req) [
    | err e ↦ (err (to_grpc grpc_text detailed e), w)
    | ok m ↦
        answered (λ (o : HttpInitiateResp). o.status) initiated_reply
          (do_with_resilience http r "POST" "/bank/payments" (some (marshal (initiate_body req m)))
            w)
  ]

  abbrev missing_ref : Err
  missing_ref = domain validation "bank_payment_ref is required"

  -- `GetPaymentStatus`; `updated_time` is `time.Parse` of a text, or the present.
  unfoldable pub get_payment_status :
      {T : Type 0}
      → Http HttpStatusResp
      → Resilience HttpStatusResp
      → (String → T)
      → String
      → Wire HttpStatusResp
      → Result (StatusResponse T) × Wire HttpStatusResp
  unfolding answered do_with_resilience
  get_payment_status http r updated_time ref w =
      if ref == ""
      then (err (to_grpc grpc_text detailed missing_ref), w)
      else answered (λ (o : HttpStatusResp). o.status)
          (λ o s. record {
            bank_payment_ref = o.bank_payment_ref;
            status = s;
            updated_at = updated_time o.updated_at;
          })
          (do_with_resilience http r "GET" ("/bank/payments/" +++ ref) none w)

  -- `ReversePayment`; `marshal` is `json.Marshal` of the body with this reason.
  unfoldable pub reverse_payment :
      Http HttpReverseResp
      → Resilience HttpReverseResp
      → (String → Result String)
      → String
      → String
      → Wire HttpReverseResp
      → Result ReverseResponse × Wire HttpReverseResp
  unfolding answered do_with_resilience
  reverse_payment http r marshal ref reason w =
      if ref == ""
      then (err (to_grpc grpc_text detailed missing_ref), w)
      else answered (λ (o : HttpReverseResp). o.status)
          (λ o s. record {
            bank_payment_ref = o.bank_payment_ref;
            reversal_ref = o.reversal_ref;
            status = s;
          })
          (do_with_resilience http r "POST" ("/bank/payments/" +++ (ref +++ "/reverse"))
            (some (marshal reason)) w)
