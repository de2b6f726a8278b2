-- ===== src/Merchant/Service/Created.antt =====
-- `CreateMerchantAndAPIKey` of services/merchant-svc/internal/repo.go: the rows that it adds.
use vrp_oneclick_deposit_pla.Common.{
  suc, false, none, String, List, [], ◌∷◌, ◌++◌, ◌≡◌, refl, ap, subst, ◌∙◌, arith, find_row,
}
use vrp_oneclick_deposit_pla.Domainerr.{Code, ok, wrapped}
use vrp_oneclick_deposit_pla.Postgres.{Server, Session, ◌>>=◌, or_wrap, pure}
use vrp_oneclick_deposit_pla.Postgres.Laws.{>>=_elim, or_wrap_inv, statement_inv, transaction_inv}
use vrp_oneclick_deposit_pla.Merchant.{
  Merchant, ApiKey, Registry, has_id, add_merchant, add_api_key, insert_merchant, insert_api_key,
  create_body, create_merchant_and_api_key, api_key_status_active,
}

-- The rows of a registration.
pub record Created (server : Server) (hash prefix : String) (s t : Session Registry) (m : Merchant)
    : Type 0 where
  pub key : ApiKey
  pub owner : key.merchant_id ≡ m.id
  pub key_hash : key.key_hash ≡ hash
  pub key_prefix : key.key_prefix ≡ prefix
  pub active : key.status ≡ api_key_status_active
  pub new : find_row (has_id m.id) s.tables.merchants ≡ none
  pub merchants : t.tables.merchants ≡ s.tables.merchants ++ m ∷ []
  pub api_keys : t.tables.api_keys ≡ s.tables.api_keys ++ key ∷ []

module _ (server : Server) where
  insert_merchant_inv :
      (m0 m : Merchant) (s u : Session Registry)
      → insert_merchant server m0 s ≡ (ok m, u)
      → (find_row (has_id m.id) s.tables.merchants ≡ none)
        × (u.tables.merchants ≡ s.tables.merchants ++ m ∷ [])
        × (u.tables.api_keys ≡ s.tables.api_keys)
  unfolding insert_merchant add_merchant
  insert_merchant_inv m0 m s u h =
      let (added, _) = statement_inv server _ s h in (ground arith, ground arith, ground arith)

  insert_api_key_inv :
      (id hash prefix : String) (s u : Session Registry)
      → insert_api_key server id hash prefix s ≡ (ok tt, u)
      → (k : ApiKey) × ((k.merchant_id ≡ id)
          × (k.key_hash ≡ hash)
          × (k.key_prefix ≡ prefix)
          × (k.status ≡ api_key_status_active)
          × (u.tables.merchants ≡ s.tables.merchants)
          × (u.tables.api_keys ≡ s.tables.api_keys ++ k ∷ []))
  unfolding insert_api_key add_api_key
  insert_api_key_inv id hash prefix s u h =
      let (added, _) = statement_inv server _ s h in
      (
        record {
          id = server.uuid s.count;
          merchant_id = id;
          key_hash = hash;
          key_prefix = prefix;
          status = api_key_status_active;
          created_at = server.clock;
          expires_at = none;
        },
        (refl, refl, refl, refl, ground arith, ground arith),
      )

  create_body-Created :
      (m0 m : Merchant) (hash prefix : String) (s u : Session Registry)
      → create_body server m0 hash prefix s ≡ (ok m, u)
      → Created server hash prefix s u m
  unfolding create_body
  create_body-Created m0 m hash prefix s u h =
      >>=_elim (or_wrap Code.internal "insert merchant" (insert_merchant server m0))
        (λ row.
          or_wrap Code.internal "insert api_key" (insert_api_key server row.id hash prefix) >>= λ _.
          pure row)
        s h
        λ row v first next.
          >>=_elim
            (or_wrap Code.internal "insert api_key" (insert_api_key server row.id hash prefix))
            (λ _. pure row) v next
            λ _ x second done.
              let (new, merchants, keys) =
                insert_merchant_inv m0 row s v (
                  or_wrap_inv Code.internal "insert merchant" (insert_merchant server m0) s
                    first) in
              let (k, (owner, key_hash, key_prefix, active, kept, added)) =
                insert_api_key_inv row.id hash prefix v x (
                  or_wrap_inv Code.internal "insert api_key"
                    (insert_api_key server row.id hash prefix) v second) in
              let same : row ≡ m = cc (done) in
              let last : x ≡ u = cc (done) in
              subst (λ (n : Merchant). Created server hash prefix s u n) same
                (subst (λ (y : Session Registry). Created server hash prefix s y row) last
                  (record {
                    key = k;
                    owner = owner;
                    key_hash = key_hash;
                    key_prefix = key_prefix;
                    active = active;
                    new = new;
                    merchants = kept ∙ merchants;
                    api_keys = added ∙ ap (λ (ks : List ApiKey). ks ++ k ∷ []) keys;
                  }))

  pub create-Created :
      (m0 m : Merchant) (hash prefix : String) (s t : Session Registry)
      → create_merchant_and_api_key server m0 hash prefix s ≡ (ok m, t)
      → Created server hash prefix s t m
  unfolding create_merchant_and_api_key
  create-Created m0 m hash prefix s t h =
      let (u, body, same, _) =
        transaction_inv server (wrapped Code.internal "begin tx")
          (wrapped Code.internal "commit tx") (create_body server m0 hash prefix) s h in
      let c =
        create_body-Created m0 m hash prefix (record s { count = suc s.count; aborted = false }) u
          body in
      record {
        key = c.key;
        owner = c.owner;
        key_hash = c.key_hash;
        key_prefix = c.key_prefix;
        active = c.active;
        new = c.new;
        merchants = ap (λ (g : Registry). g.merchants) same ∙ c.merchants;
        api_keys = ap (λ (g : Registry). g.api_keys) same ∙ c.api_keys;
      }
