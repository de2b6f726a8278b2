-- ===== src/Merchant.antt =====
-- services/merchant-svc/internal: domain.go, and repo.go on the tables of migrations/merchant.
pub mod Service
pub mod Handler
use vrp_oneclick_deposit_pla.Common.{
  ℕ, Bool, true, false, Option, none, some, String, List, [], ◌∷◌, ◌++◌, ◌&&◌, ◌==◌, if◌then◌else◌,
  find_row, update_rows,
}
use vrp_oneclick_deposit_pla.Domainerr.{Code, Err, domain, wrapped, pg, no_rows, Result, ok, err}
use vrp_oneclick_deposit_pla.Postgres.{
  Server, Query, Session, is_no_rows, unique_violation, foreign_key_violation, statement,
  pool_statement, transaction, or_wrap, pure, ◌>>=◌,
}

abbrev pub status_active : String
status_active = "ACTIVE"

abbrev pub status_suspended : String
status_suspended = "SUSPENDED"

abbrev pub kyb_active : String
kyb_active = "ACTIVE"

abbrev pub api_key_status_active : String
api_key_status_active = "ACTIVE"

-- `Merchant`, which is also the row of the table; `APIKey` likewise.
pub record Merchant : Type 0 where
  pub id : String
  pub name : String
  pub webhook_url : String
  pub contact_email : String
  pub kyb_status : String
  pub status : String
  pub hmac_secret : String
  pub created_at : ℕ
  pub updated_at : ℕ

pub record ApiKey : Type 0 where
  pub id : String
  pub merchant_id : String
  pub key_hash : String
  pub key_prefix : String
  pub status : String
  pub created_at : ℕ
  pub expires_at : Option ℕ

-- `WebhookConfig`, `RegisterInput`, `APIKeyCandidate` and `RegisterResult`
pub record WebhookConfig : Type 0 where
  pub merchant_id : String
  pub webhook_url : String
  pub hmac_secret : String

pub record RegisterInput : Type 0 where
  pub name : String
  pub webhook_url : String
  pub contact_email : String

pub record ApiKeyCandidate : Type 0 where
  pub merchant : Merchant
  pub key_hash : String

pub record RegisterResult : Type 0 where
  pub merchant : Merchant
  pub api_key : String

-- The tables.
pub record Registry : Type 0 where
  pub merchants : List Merchant
  pub api_keys : List ApiKey

abbrev pub has_id : String → Merchant → Bool
has_id id m = m.id == id

abbrev pub has_hash : String → ApiKey → Bool
has_hash hash k = k.key_hash == hash

abbrev pub has_key_id : String → ApiKey → Bool
has_key_id id k = k.id == id

-- `INSERT INTO merchant`, with the key's constraint.
unfoldable pub add_merchant : Merchant → Registry → Result (Merchant × Registry)
add_merchant m t = elim (find_row (has_id m.id) t.merchants) [
  | some _ ↦ err unique_violation
  | none ↦ ok (m, record t { merchants = t.merchants ++ m ∷ [] })
]

-- `INSERT INTO api_key`, with the table's constraints.
unfoldable pub add_api_key : ApiKey → Registry → Result (Unit {0} × Registry)
add_api_key k t = elim (find_row (has_id k.merchant_id) t.merchants) [
  | none ↦ err foreign_key_violation
  | some _ ↦ elim (find_row (has_hash k.key_hash) t.api_keys) [
    | some _ ↦ err unique_violation
    | none ↦ elim (find_row (has_key_id k.id) t.api_keys) [
      | some _ ↦ err unique_violation
      | none ↦ ok (tt, record t { api_keys = t.api_keys ++ k ∷ [] })
    ]
  ]
]

-- The join of the active keys of a prefix with their merchants; the statement gives no order.
unfoldable pub join_keys : String → List Merchant → List ApiKey → List ApiKeyCandidate
join_keys prefix ms [] = []
join_keys prefix ms (k ∷ ks) =
    let rest = join_keys prefix ms ks in
    if (k.key_prefix == prefix) && (k.status == api_key_status_active)
    then elim (find_row (has_id k.merchant_id) ms) [
      | none ↦ rest
      | some m ↦ record { merchant = m; key_hash = k.key_hash } ∷ rest
    ]
    else rest

-- The errors that follow a statement: no row is a merchant that is not found.
abbrev pub or_missing : {A : Type 0} → String → Query Registry A → Query Registry A
or_missing message q s =
    let (r, s') = q s in
    elim r [
      | ok a ↦ (ok a, s')
      | err e ↦ (
        err (
            if is_no_rows e
            then domain Code.not_found "merchant not found"
            else wrapped Code.internal message e),
        s',
      )
    ]

abbrev pub row_or_none : {A B : Type 0} → Option A → (A → B) → Registry → Result (B × Registry)
row_or_none none f t = err no_rows
row_or_none (some a) f t = ok (f a, t)

module _ (server : Server) where
  unfoldable pub insert_merchant : Merchant → Query Registry Merchant
  unfolding add_merchant
  insert_merchant m s =
      statement server
        (add_merchant (record m {
          id = server.uuid s.count;
          created_at = server.clock;
          updated_at = server.clock;
        }))
        s

  unfoldable pub insert_api_key : String → String → String → Query Registry (Unit {0})
  unfolding add_api_key
  insert_api_key merchant_id hash prefix s =
      statement server
        (add_api_key (record {
          id = server.uuid s.count;
          merchant_id = merchant_id;
          key_hash = hash;
          key_prefix = prefix;
          status = api_key_status_active;
          created_at = server.clock;
          expires_at = none;
        }))
        s

  -- The body of `CreateMerchantAndAPIKey`; the merchant has the identifier and the times of its row.
  unfoldable pub create_body : Merchant → String → String → Query Registry Merchant
  unfolding insert_merchant insert_api_key ◌>>=◌
  create_body m hash prefix = do
    row ← or_wrap Code.internal "insert merchant" (insert_merchant m)
    _ ← or_wrap Code.internal "insert api_key" (insert_api_key row.id hash prefix)
    pure row

  unfoldable pub create_merchant_and_api_key : Merchant → String → String → Query Registry Merchant
  unfolding create_body transaction
  create_merchant_and_api_key m hash prefix =
      transaction server (wrapped Code.internal "begin tx") (wrapped Code.internal "commit tx")
        (create_body m hash prefix)

  unfoldable pub get_by_id : String → Query Registry Merchant
  get_by_id id =
      or_missing "get merchant"
        (pool_statement server (λ t. row_or_none (find_row (has_id id) t.merchants) (λ m. m) t))

  -- A prefix that is no text, being cut within a character, is refused by the database.
  unfoldable pub get_candidates_by_prefix : Option String → Query Registry (List ApiKeyCandidate)
  unfolding join_keys pool_statement
  get_candidates_by_prefix prefix = or_wrap Code.internal "query api_key by prefix" (
      pool_statement server (λ t. elim prefix [
        | none ↦ err (pg "22021" "invalid byte sequence for encoding \"UTF8\"")
        | some text ↦ ok (join_keys text t.merchants t.api_keys, t)
      ]))

  abbrev suspend_row : Merchant → Merchant
  suspend_row m = record m { status = status_suspended; updated_at = server.clock }

  unfoldable pub suspend : String → Query Registry Merchant
  suspend id = or_missing "suspend merchant" (
      pool_statement server (λ t.
        row_or_none (find_row (has_id id) t.merchants) suspend_row
          (record t { merchants = update_rows (has_id id) suspend_row t.merchants })))

  unfoldable pub get_webhook_config : String → Query Registry WebhookConfig
  get_webhook_config id = or_missing "get webhook config" (
      pool_statement server (λ t.
        row_or_none (find_row (has_id id) t.merchants)
          (λ m. record {
            merchant_id = m.id;
            webhook_url = m.webhook_url;
            hmac_secret = m.hmac_secret;
          })
          t))
