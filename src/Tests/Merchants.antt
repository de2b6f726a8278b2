-- ===== src/Tests/Merchants.antt =====
-- Runs of the merchant service, services/merchant-svc/internal.
use mathlib.Core.List.Memᴰ.{not-nil}
use vrp_oneclick_deposit_pla.Common.{
  ◌≡◌, refl, none, [], ◌∷◌, ◌==◌, false, true, String, trim_space, trim_left, trim_right, find_row,
  subst,
}
use vrp_oneclick_deposit_pla.Domainerr.{ok}
use vrp_oneclick_deposit_pla.Postgres.{Server, Session, statement, pool_statement, transaction}
use vrp_oneclick_deposit_pla.Postgres
use vrp_oneclick_deposit_pla.Merchant.{
  Registry, RegisterInput, RegisterResult, create_merchant_and_api_key, create_body,
  insert_merchant, insert_api_key, add_merchant, add_api_key,
}
use vrp_oneclick_deposit_pla.Merchant.Service.{
  Crypto, register_merchant, register_with, new_secrets, generate_api_key, random_hex, encode_hex,
  digit_of, byte_prefix, get_merchant_by_api_key,
}
use vrp_oneclick_deposit_pla.Merchant.Service.Registered.{get_merchant_by_api_key-register_merchant}
use vrp_oneclick_deposit_pla.Tests.Sagas.{server}

-- A text stands for its own hash, and four bytes for the random ones.
abbrev crypto : Crypto
crypto = record {
  random = λ call n. ok (18 ∷ 52 ∷ 171 ∷ 205 ∷ []);
  generate = λ p cost. ok p;
  compare_hash = λ h p. h == p;
}

abbrev input : RegisterInput
input = record { name = " shop "; webhook_url = "https://shop"; contact_email = "" }

abbrev empty : Session Registry
empty = record { tables = record { merchants = []; api_keys = [] }; count = 0; aborted = false }

abbrev registered : RegisterResult
registered = record {
  merchant = record {
    id = "row";
    name = "shop";
    webhook_url = "https://shop";
    contact_email = "";
    kyb_status = "ACTIVE";
    status = "ACTIVE";
    hmac_secret = "1234abcd";
    created_at = 9;
    updated_at = 9;
  };
  api_key = "vrp_1234abcd";
}

abbrev filled : Session Registry
filled = record {
  tables = record {
    merchants = registered.merchant ∷ [];
    api_keys =
        record {
          id = "row";
          merchant_id = "row";
          key_hash = "vrp_1234abcd";
          key_prefix = "vrp_1234";
          status = "ACTIVE";
          created_at = 9;
          expires_at = none;
        }
        ∷ [];
  };
  count = 4;
  aborted = false;
}

shop_registered : register_merchant crypto server input empty ≡ (ok registered, filled)
unfolding register_merchant register_with new_secrets generate_api_key random_hex encode_hex
    digit_of byte_prefix create_merchant_and_api_key create_body insert_merchant insert_api_key
    add_merchant add_api_key transaction statement trim_space trim_left trim_right find_row
    Postgres.◌>>=◌
shop_registered = refl

own_hash : (h : String) → ok "vrp_1234abcd" ≡ ok h → (h == "vrp_1234abcd") ≡ true
own_hash h e =
    let same : ◌≡◌ {A = String} "vrp_1234abcd" h = cc (e) in
    subst (λ (t : String). (t == "vrp_1234abcd") ≡ true) same refl

get_merchant_by_api_key-register_merchant_example :
    (get_merchant_by_api_key crypto server "vrp_1234abcd" filled).0 ≡ ok registered.merchant
get_merchant_by_api_key-register_merchant_example =
    get_merchant_by_api_key-register_merchant crypto server input empty filled registered
      shop_registered refl (λ k m. absurd (not-nil m)) own_hash
