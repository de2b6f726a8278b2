-- ===== src/Gateway/Calls.antt =====
-- What the handlers of services/gateway/internal/httpapi/handlers.go act on: the calls of the services,
-- the replies, and the routes of router.go with what they read of a request.
use vrp_oneclick_deposit_pla.Common.{ℕ, String, List, []}
use vrp_oneclick_deposit_pla.Domainerr.{GrpcCode, Result}
use vrp_oneclick_deposit_pla.Payment.Handler.{
  PaymentMessage, InitiatePaymentRequest, PaymentRequest,
}
use vrp_oneclick_deposit_pla.Consent.Handler.{
  ConsentMessage, CreateRequest, ListRequest, ListResponse,
}
use vrp_oneclick_deposit_pla.Merchant.{RegisterInput}
use vrp_oneclick_deposit_pla.Merchant.Handler.{MerchantMessage, RegisterResponse}
use vrp_oneclick_deposit_pla.Gateway.{ErrorBody, HttpReply}
use vrp_oneclick_deposit_pla.Gateway.Convert.{
  MerchantResponse, CreateConsentRequest, ConsentResponse, ListConsentsResponse, DepositRequest,
  PaymentResponse,
}

pub data Call : Type 0 where
  get_merchant_by_api_key : String → Call
  register_merchant : RegisterInput → Call
  get_merchant : String → Call
  create_consent : CreateRequest → Call
  get_consent : String → String → Call
  revoke_consent : String → String → String → Call
  list_consents : ListRequest → Call
  initiate_payment : InitiatePaymentRequest → Call
  get_payment retry_payment : PaymentRequest → Call

pub data Body : Type 0 where
  error_body : ErrorBody → Body
  token_body : String → String → Body
  registered_body : MerchantResponse → String → Body
  merchant_body : MerchantResponse → Body
  consent_body : ConsentResponse → Body
  consents_body : ListConsentsResponse → Body
  payment_body : PaymentResponse → Body

-- The services as parameters: a call is recorded, and its answer is any function of the calls so
-- far; with `time.Parse` and `Format` with their layouts, and `TokenService.Issue`.
pub record Services : Type 0 where
  pub grpc_text : GrpcCode → String → String
  pub merchant : List Call → Result MerchantMessage
  pub registration : List Call → Result RegisterResponse
  pub consent : List Call → Result ConsentMessage
  pub consents : List Call → Result ListResponse
  pub payment : List Call → Result PaymentMessage
  pub sign_token : String → ℕ → Result String
  pub now : ℕ
  pub token_ttl : ℕ
  pub rfc3339 : String → Result ℕ
  pub rfc3339_nano : String → Result ℕ
  pub format : ℕ → String

-- The query of a list.
pub record ListQuery : Type 0 where
  pub consumer_id : String
  pub page_size : String
  pub page_token : String
  pub status : String

abbrev pub write_json : ℕ → Body → HttpReply Body
write_json status_code body = record { status_code = status_code; headers = []; body = body }

abbrev pub as_error : HttpReply ErrorBody → HttpReply Body
as_error r = record { status_code = r.status_code; headers = r.headers; body = error_body r.body }

abbrev pub Handling : Type 0
Handling = List Call → HttpReply Body × List Call

-- The routes with authentication, with what they read of the request.
pub data Route : Type 0 where
  get_merchant consent payment retry : String → Route
  create_consent : Result CreateConsentRequest → Route
  revoke : String → String → Route
  list : ListQuery → Route
  initiate : String → Result DepositRequest → Route
