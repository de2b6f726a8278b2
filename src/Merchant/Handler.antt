-- ===== src/Merchant/Handler.antt =====
-- services/merchant-svc/internal/handler.go, with the messages of gen/merchant/v1.
use vrp_oneclick_deposit_pla.Common.{ℕ, Bool, String}
use vrp_oneclick_deposit_pla.Domainerr.{GrpcCode, ok, err}
use vrp_oneclick_deposit_pla.Domainerr.Grpc.{to_grpc}
use vrp_oneclick_deposit_pla.Postgres.{Server, Query}
use vrp_oneclick_deposit_pla.Merchant.{
  Merchant, WebhookConfig, RegisterInput, RegisterResult, Registry,
}
use vrp_oneclick_deposit_pla.Merchant.Service.{Crypto}
use vrp_oneclick_deposit_pla.Merchant.Service

-- `merchantv1.Merchant` and `merchantv1.RegisterMerchantResponse`
pub record MerchantMessage : Type 0 where
  pub id : String
  pub name : String
  pub kyb_status : String
  pub status : String
  pub webhook_url : String
  pub created_at : ℕ
  pub updated_at : ℕ

pub record RegisterResponse : Type 0 where
  pub merchant : MerchantMessage
  pub api_key : String

unfoldable pub to_proto_merchant : Merchant → MerchantMessage
to_proto_merchant m = record {
  id = m.id;
  name = m.name;
  kyb_status = m.kyb_status;
  status = m.status;
  webhook_url = m.webhook_url;
  created_at = m.created_at;
  updated_at = m.updated_at;
}

module _ (grpc_text : GrpcCode → String → String) (detailed : Bool) (crypto : Crypto)
    (server : Server) where
  -- The reply of a call: `f` of its value, or its error for gRPC.
  unfoldable pub replied : {A B : Type 0} → (A → B) → Query Registry A → Query Registry B
  replied f q s =
      let (r, t) = q s in
      elim r [ ok a ↦ (ok (f a), t) | err e ↦ (err (to_grpc grpc_text detailed e), t) ]

  unfoldable pub register_merchant : RegisterInput → Query Registry RegisterResponse
  unfolding replied to_proto_merchant
  register_merchant i =
      replied
        (λ (r : RegisterResult). record {
          merchant = to_proto_merchant r.merchant;
          api_key = r.api_key;
        })
        (Service.register_merchant crypto server i)

  unfoldable pub get_merchant : String → Query Registry MerchantMessage
  unfolding replied
  get_merchant id = replied to_proto_merchant (Service.get_merchant crypto server id)

  unfoldable pub suspend_merchant : String → Query Registry MerchantMessage
  unfolding replied
  suspend_merchant id = replied to_proto_merchant (Service.suspend_merchant crypto server id)

  unfoldable pub get_merchant_by_api_key : String → Query Registry MerchantMessage
  unfolding replied
  get_merchant_by_api_key key =
      replied to_proto_merchant (Service.get_merchant_by_api_key crypto server key)

  unfoldable pub get_webhook_config : String → Query Registry WebhookConfig
  unfolding replied
  get_webhook_config id =
      replied (λ (c : WebhookConfig). c) (Service.get_webhook_config crypto server id)
