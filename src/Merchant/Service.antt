-- ===== src/Merchant/Service.antt =====
-- services/merchant-svc/internal/service.go. The random bytes of crypto/rand and the hashes of bcrypt
-- are parameters (`Crypto`).
pub mod Created
pub mod Lookup
pub mod Registered
use Prim.Native.Char.{Char, code}
use vrp_oneclick_deposit_pla.Common.{
  ℕ, zero, suc, ◌-◌, ◌/◌, ◌%◌, Bool, true, false, Option, none, some, String, List, [], ◌∷◌, ◌==◌,
  ◌+++◌, ltb, eqb, if◌then◌else◌, trim_space, byte_len, char_bytes,
}
use vrp_oneclick_deposit_pla.Domainerr.{
  Code, validation, Err, domain, wrapped, plain, Result, ok, err,
}
use vrp_oneclick_deposit_pla.Postgres.{
  Server, Query, Session, raise, lift, attempt, pure, or_wrap, ◌>>=◌,
}
use vrp_oneclick_deposit_pla.Merchant.{
  Merchant, WebhookConfig, RegisterInput, RegisterResult, ApiKeyCandidate, Registry, status_active,
  kyb_active, create_merchant_and_api_key, get_by_id, get_candidates_by_prefix, suspend,
}
use vrp_oneclick_deposit_pla.Merchant

-- `rand.Read` of so many bytes, by the number of the call; `GenerateFromPassword` with its cost; and
-- whether `CompareHashAndPassword` returns no error.
pub record Crypto : Type 0 where
  pub random : ℕ → ℕ → Result (List ℕ)
  pub generate : String → ℕ → Result String
  pub compare_hash : String → String → Bool

abbrev pub hex_digits : List Char
hex_digits =
    "0" ∷ "1" ∷ "2" ∷ "3" ∷ "4" ∷ "5" ∷ "6" ∷ "7" ∷ "8" ∷ "9" ∷ "a" ∷ "b" ∷ "c" ∷ "d" ∷ "e" ∷ "f"
    ∷ []

-- The digit of a number below sixteen.
unfoldable pub digit_of : List Char → ℕ → Char
digit_of [] n = "0"
digit_of (c ∷ cs) zero = c
digit_of (c ∷ cs) (suc n) = digit_of cs n

-- `hex.EncodeToString`
unfoldable pub encode_hex : List ℕ → String
unfolding digit_of
encode_hex [] = ""
encode_hex (b ∷ bs) =
    String.◌∷◌ (digit_of hex_digits (b / 16))
      (String.◌∷◌ (digit_of hex_digits (b % 16)) (encode_hex bs))

-- `s[:n]`: none where the text is shorter, or the cut is within a character.
unfoldable pub byte_prefix : ℕ → String → Option String
byte_prefix n String.[] = if eqb n 0 then some "" else none
byte_prefix n (String.◌∷◌ c s) =
    let rest = byte_prefix (n - char_bytes (code c)) s in
    if eqb n 0
    then some ""
    else if ltb n (char_bytes (code c))
    then none
    else elim rest [ none ↦ none | some p ↦ some (String.◌∷◌ c p) ]

abbrev pub api_key_prefix : String
api_key_prefix = "vrp_"

-- The merchant that `RegisterMerchant` inserts.
abbrev pub new_merchant : String → String → String → String → Merchant
new_merchant name url email secret = record {
  id = "";
  name = name;
  webhook_url = url;
  contact_email = email;
  kyb_status = kyb_active;
  status = status_active;
  hmac_secret = secret;
  created_at = 0;
  updated_at = 0;
}

module _ (crypto : Crypto) where
  unfoldable pub random_hex : ℕ → ℕ → Result String
  unfolding encode_hex
  random_hex call n = elim (crypto.random call n) [ ok bs ↦ ok (encode_hex bs) | err e ↦ err e ]

  unfoldable pub generate_api_key : Result String
  unfolding random_hex
  generate_api_key = elim (random_hex 0 32) [
    | ok text ↦ ok (api_key_prefix +++ text)
    | err e ↦ err e
  ]

  -- The key, its hash and the secret of a new merchant.
  unfoldable pub new_secrets : Result (String × String × String)
  unfolding generate_api_key random_hex
  new_secrets = elim generate_api_key [
    | err e ↦ err (wrapped Code.internal "generate api key" e)
    | ok key ↦ elim (crypto.generate key 10) [
      | err e ↦ err (wrapped Code.internal "hash api key" e)
      | ok hash ↦ elim (random_hex 1 32) [
        | err e ↦ err (wrapped Code.internal "generate hmac secret" e)
        | ok secret ↦ ok (key, hash, secret)
      ]
    ]
  ]

  -- The loop over the candidates.
  unfoldable pub first_match : String → List ApiKeyCandidate → Result Merchant
  first_match key [] = err (domain Code.not_found "merchant not found")
  first_match key (c ∷ cs) =
      if crypto.compare_hash c.key_hash key then ok c.merchant else first_match key cs

  module _ (server : Server) where
    -- `RegisterMerchant` with its texts trimmed and its secrets made. A key of less than eight bytes
    -- would be a panic; the keys have 68.
    unfoldable pub register_with :
        String → String → String → String → String → String → Query Registry RegisterResult
    unfolding byte_prefix ◌>>=◌
    register_with name url email key hash secret = elim (byte_prefix 8 key) [
      | none ↦ raise (plain "slice bounds out of range")
      | some prefix ↦ do
        m ← create_merchant_and_api_key server (new_merchant name url email secret) hash prefix
        pure (record { merchant = m; api_key = key })
    ]

    unfoldable pub register_merchant : RegisterInput → Query Registry RegisterResult
    unfolding new_secrets register_with
    register_merchant i =
        if trim_space i.name == ""
        then raise (domain validation "name is required")
        else if trim_space i.webhook_url == ""
        then raise (domain validation "webhook_url is required")
        else elim new_secrets [
          | err e ↦ raise e
          | ok (key, hash, secret) ↦
              register_with (trim_space i.name) (trim_space i.webhook_url)
                (trim_space i.contact_email) key hash secret
        ]

    unfoldable pub get_merchant : String → Query Registry Merchant
    get_merchant id =
        if trim_space id == ""
        then raise (domain validation "merchant_id is required")
        else get_by_id server (trim_space id)

    unfoldable pub suspend_merchant : String → Query Registry Merchant
    suspend_merchant id =
        if trim_space id == ""
        then raise (domain validation "merchant_id is required")
        else suspend server (trim_space id)

    unfoldable pub find_by_key : String → Query Registry Merchant
    unfolding first_match byte_prefix ◌>>=◌
    find_by_key key =
        if key == ""
        then raise (domain validation "api_key is required")
        else if ltb (byte_len key) 8
        then raise (domain Code.not_found "merchant not found")
        else (do
          cs ← get_candidates_by_prefix server (byte_prefix 8 key)
          lift (first_match key cs))

    unfoldable pub get_merchant_by_api_key : String → Query Registry Merchant
    unfolding find_by_key
    get_merchant_by_api_key key = find_by_key (trim_space key)

    unfoldable pub get_webhook_config : String → Query Registry WebhookConfig
    get_webhook_config id =
        if trim_space id == ""
        then raise (domain validation "merchant_id is required")
        else Merchant.get_webhook_config server (trim_space id)
