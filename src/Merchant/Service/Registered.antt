-- ===== src/Merchant/Service/Registered.antt =====
-- services/merchant-svc/internal/service.go: a merchant that has registered is found by its key.
use mathlib.Core.List.Memᴰ.{Memᴰ, head, tail}
use vrp_oneclick_deposit_pla.Common.{
  Bool, true, false, Option, none, some, String, List, [], ◌∷◌, ◌++◌, ◌==◌, ltb, if◌then◌else◌,
  trim_space, byte_len, ◌≡◌, refl, subst, arith, eq_refl, find_row, find_row-append_hit,
}
use vrp_oneclick_deposit_pla.Domainerr.{validation, domain, Result, ok, err, plain}
use vrp_oneclick_deposit_pla.Postgres.{
  Server, Session, statement, pool_statement, ◌>>=◌, pure, raise, Query, lift,
}
use vrp_oneclick_deposit_pla.Postgres.Laws.{>>=_elim}
use vrp_oneclick_deposit_pla.Merchant.{
  Merchant, ApiKey, RegisterInput, RegisterResult, Registry, has_id, join_keys,
  create_merchant_and_api_key, get_candidates_by_prefix, api_key_status_active,
}
use vrp_oneclick_deposit_pla.Merchant.Service.{
  Crypto, byte_prefix, new_secrets, new_merchant, register_with, register_merchant, first_match,
  find_by_key, get_merchant_by_api_key, generate_api_key,
}
use vrp_oneclick_deposit_pla.Merchant.Service.Lookup.{
  trim_space-generate_api_key, byte_prefix-le, long-ne-empty,
}
use vrp_oneclick_deposit_pla.Merchant.Service.Created.{Created, create-Created}

module _ (crypto : Crypto) (key : String) where
  -- No key of the table is taken for this one.
  abbrev pub Unused : List ApiKey → Type 0
  Unused ks = (k : ApiKey) → Memᴰ k ks → crypto.compare_hash k.key_hash key ≡ false

  first_match-join_keys :
      (prefix : String) (ms : List Merchant) (m : Merchant) (k : ApiKey) (ks : List ApiKey)
      → Unused ks
      → (k.key_prefix == prefix) ≡ true
      → (k.status == api_key_status_active) ≡ true
      → find_row (has_id k.merchant_id) ms ≡ some m
      → crypto.compare_hash k.key_hash key ≡ true
      → first_match crypto key (join_keys prefix ms (ks ++ k ∷ [])) ≡ ok m
  unfolding first_match join_keys
  first_match-join_keys prefix ms m k [] u p a f c = ground arith
  first_match-join_keys prefix ms m k (j ∷ ks) u p a f c =
      let rest = first_match-join_keys prefix ms m k ks (λ i n. u i (tail n)) p a f c in
      let missed = u j (head refl) in ground arith

module _ (crypto : Crypto) (server : Server) where
  -- What is known of a registration.
  record Registered (s t : Session Registry) (r : RegisterResult) : Type 0 where
    pub hash : String
    pub prefix : String
    pub generated : crypto.generate r.api_key 10 ≡ ok hash
    pub new_key : generate_api_key crypto ≡ ok r.api_key
    pub cut : byte_prefix 8 r.api_key ≡ some prefix
    pub created : Created server hash prefix s t r.merchant

  register_with-Registered :
      (name url email key hash secret : String) (s t : Session Registry) (r : RegisterResult)
      → generate_api_key crypto ≡ ok key
      → crypto.generate key 10 ≡ ok hash
      → register_with crypto server name url email key hash secret s ≡ (ok r, t)
      → Registered s t r
  unfolding register_with
  register_with-Registered name url email key hash secret s t r n g h =
      by_prefix (byte_prefix 8 key) refl h
    where
      by_prefix :
          (o : Option String)
          → byte_prefix 8 key ≡ o
          → (let q : Query Registry RegisterResult = elim o [
            | none ↦ raise (plain "slice bounds out of range")
            | some prefix ↦
                create_merchant_and_api_key server (new_merchant name url email secret) hash prefix
                >>= λ m. pure (record { merchant = m; api_key = key })
          ] in
              q s)
            ≡ (ok r, t)
          → Registered s t r
      by_prefix none p h = cc (h)
      by_prefix (some prefix) p h =
          >>=_elim
            (create_merchant_and_api_key server (new_merchant name url email secret) hash prefix)
            (λ m. pure (record { merchant = m; api_key = key })) s h
            λ m u made done.
              let c =
                create-Created server (new_merchant name url email secret) m hash prefix s u made in
              let same : record { merchant = m; api_key = key } ≡ r = cc (done) in
              let last : u ≡ t = cc (done) in
              subst (λ (x : RegisterResult). Registered s t x) same
                (subst
                  (λ (y : Session Registry).
                    Registered s y (record { merchant = m; api_key = key }))
                  last
                  (record {
                    hash = hash;
                    prefix = prefix;
                    generated = g;
                    new_key = n;
                    cut = p;
                    created = c;
                  }))

  new_secrets_inv :
      (key hash secret : String)
      → new_secrets crypto ≡ ok (key, hash, secret)
      → (generate_api_key crypto ≡ ok key) × (crypto.generate key 10 ≡ ok hash)
  unfolding new_secrets
  new_secrets_inv key hash secret h = (ground arith, ground arith)

  register_merchant-Registered :
      (i : RegisterInput) (s t : Session Registry) (r : RegisterResult)
      → register_merchant crypto server i s ≡ (ok r, t)
      → Registered s t r
  unfolding register_merchant
  register_merchant-Registered i s t r h =
      by_guards (trim_space i.name == "") (trim_space i.webhook_url == "") (new_secrets crypto) refl
        h
    where
      by_guards :
          (a b : Bool) (x : Result (String × String × String))
          → new_secrets crypto ≡ x
          → (let q : Query Registry RegisterResult =
                (if a
                  then raise (domain validation "name is required")
                  else if b
                  then raise (domain validation "webhook_url is required")
                  else elim x [
                    | err e ↦ raise e
                    | ok (key, hash, secret) ↦
                        register_with crypto server
                          (trim_space i.name)
                          (trim_space i.webhook_url)
                          (trim_space i.contact_email)
                          key
                          hash
                          secret
                  ]) in
              q s)
            ≡ (ok r, t)
          → Registered s t r
      by_guards true b x n h = cc (h)
      by_guards false true x n h = cc (h)
      by_guards false false (err e) n h = cc (h)
      by_guards false false (ok (key, hash, secret)) n h =
          let (made, hashed) = new_secrets_inv key hash secret n in
          register_with-Registered (trim_space i.name) (trim_space i.webhook_url)
            (trim_space i.contact_email) key hash secret s t r made hashed h

  candidates_matched :
      (key prefix : String) (t : Session Registry) (m : Merchant)
      → server.fault t.count ≡ none
      → first_match crypto key (join_keys prefix t.tables.merchants t.tables.api_keys) ≡ ok m
      → ((get_candidates_by_prefix server (some prefix) >>= λ cs. lift (first_match crypto key cs))
          t).0
        ≡ ok m
  unfolding get_candidates_by_prefix pool_statement statement ◌>>=◌
  candidates_matched key prefix t m f h = ground arith

  find_by_key-Registered :
      (s t : Session Registry) (r : RegisterResult)
      → Registered s t r
      → server.fault t.count ≡ none
      → Unused crypto r.api_key s.tables.api_keys
      → ((h : String)
          → crypto.generate r.api_key 10 ≡ ok h
          → crypto.compare_hash h r.api_key ≡ true)
      → (find_by_key crypto server r.api_key t).0 ≡ ok r.merchant
  unfolding find_by_key
  find_by_key-Registered s t r k f u c =
      let d = k.created in
      let long = byte_prefix-le 8 r.api_key k.prefix k.cut in
      let short : ltb (byte_len r.api_key) 8 ≡ false = ground arith in
      let found =
        first_match-join_keys crypto r.api_key k.prefix t.tables.merchants r.merchant d.key
          s.tables.api_keys u (rw d.key_prefix (eq_refl k.prefix)) (rw d.active refl)
          (rw d.merchants (
            rw d.owner
              (find_row-append_hit _ s.tables.merchants r.merchant d.new (eq_refl r.merchant.id))))
          (rw d.key_hash (c k.hash k.generated)) in
      rw (long-ne-empty r.api_key long) (
        rw short
          (rw k.cut (candidates_matched r.api_key k.prefix t r.merchant f (rw d.api_keys found))))

  -- A merchant that has registered is found by the key that the reply shows: where the database
  -- answers, where no earlier key is taken for the new one, and where bcrypt takes a password for the
  -- hash that it made of it.
  pub get_merchant_by_api_key-register_merchant :
      (i : RegisterInput) (s t : Session Registry) (r : RegisterResult)
      → register_merchant crypto server i s ≡ (ok r, t)
      → server.fault t.count ≡ none
      → Unused crypto r.api_key s.tables.api_keys
      → ((h : String)
          → crypto.generate r.api_key 10 ≡ ok h
          → crypto.compare_hash h r.api_key ≡ true)
      → (get_merchant_by_api_key crypto server r.api_key t).0 ≡ ok r.merchant
  unfolding get_merchant_by_api_key
  get_merchant_by_api_key-register_merchant i s t r h f u c =
      let k = register_merchant-Registered i s t r h in
      rw (trim_space-generate_api_key crypto r.api_key k.new_key)
        (find_by_key-Registered s t r k f u c)
