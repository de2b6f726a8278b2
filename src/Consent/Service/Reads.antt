-- ===== src/Consent/Service/Reads.antt =====
-- The reads of services/consent-svc/internal: `GetConsent` and `ListConsents` of service.go, with
-- `ListConsents` of repo.go.
use vrp_oneclick_deposit_pla.Common.{
  ℕ, Bool, true, false, not, Option, none, some, String, List, [], ◌∷◌, ◌==◌, ◌&&◌, eqb, leb,
  if◌then◌else◌,
}
use vrp_oneclick_deposit_pla.Common.Pages.{length, page, select_rows, newest_first}
use vrp_oneclick_deposit_pla.Domainerr.{Code, validation, domain, ok}
use vrp_oneclick_deposit_pla.Postgres.{
  Server, Query, pool_statement, annotate, or_wrap, raise, pure, ◌>>=◌,
}
use vrp_oneclick_deposit_pla.Consent.{
  ConsentRow, ConsentStatus, pending, active, revoked, expired, Tables,
}
use vrp_oneclick_deposit_pla.Consent.Repo.{get_consent}
use vrp_oneclick_deposit_pla.Consent.Service.{or_missing, consent_not_found}

abbrev pub same_status : ConsentStatus → ConsentStatus → Bool
same_status pending pending = true
same_status active active = true
same_status revoked revoked = true
same_status expired expired = true
same_status _ _ = false

-- The conditions of the statement: each where it is given.
unfoldable pub is_listed : String → String → Option ConsentStatus → ConsentRow → Bool
is_listed consumer merchant status c =
    (if consumer == "" then true else c.consumer_id == consumer)
    && ((if merchant == "" then true else c.merchant_id == merchant)
        && elim status [ none ↦ true | some s ↦ same_status c.status s ])

-- The rows that the conditions select.
unfoldable pub matching : String → String → Option ConsentStatus → List ConsentRow → List ConsentRow
unfolding is_listed select_rows
matching consumer merchant status rows = select_rows (is_listed consumer merchant status) rows

-- `ORDER BY created_at DESC`: rows of one time come in the order in which the server comes upon them.
unfoldable pub ordered : List ConsentRow → List ConsentRow
unfolding newest_first
ordered rows = newest_first (λ (c : ConsentRow). c.created_at) rows

-- The number of all rows comes with each row of the page: without one it is zero.
unfoldable pub counted_page : ℕ → ℕ → List ConsentRow → List ConsentRow × ℕ
counted_page limit offset rows =
    let rs : List ConsentRow = page limit offset rows in
    (rs, elim rs [ [] ↦ 0 | r ∷ more ↦ length rows ])

-- `if limit <= 0 { limit = 20 }; if limit > 100 { limit = 100 }`
unfoldable pub clamp_limit : ℕ → ℕ
clamp_limit limit = if eqb limit 0 then 20 else if leb limit 100 then limit else 100

-- The order in which the server comes upon the rows of a statement, which may differ from one to the
-- next.
abbrev pub Scan : Type 0
Scan = ℕ → List ConsentRow → List ConsentRow

module _ (server : Server) (scan : Scan) where
  -- `Repo.ListConsents`
  unfoldable pub list_rows :
      String → String → Option ConsentStatus → ℕ → ℕ → Query Tables (List ConsentRow × ℕ)
  unfolding matching ordered counted_page
  list_rows consumer merchant status limit offset s =
      annotate "list consents"
        (pool_statement server (λ t. ok (
          counted_page limit offset
              (ordered (scan s.count (matching consumer merchant status t.consents))),
          t,
        )))
        s

  -- `Service.ListConsents`, of a limit and an offset that are not negative.
  unfoldable pub list_consents :
      String → String → Option ConsentStatus → ℕ → ℕ → Query Tables (List ConsentRow × ℕ)
  unfolding list_rows clamp_limit
  list_consents consumer merchant status limit offset =
      or_wrap Code.internal "list consents"
        (list_rows consumer merchant status (clamp_limit limit) offset)

module _ (server : Server) where
  -- `GetConsent`; `cached` is what Redis holds of the consent. What is then put into Redis is left
  -- out.
  unfoldable pub get_consent_for : Option ConsentRow → String → String → Query Tables ConsentRow
  unfolding ◌>>=◌
  get_consent_for cached id merchant_id =
      let check = λ (c : ConsentRow).
        if not (merchant_id == "") && not (c.merchant_id == merchant_id)
        then raise consent_not_found
        else pure c in
      if id == "" then raise (domain validation "consent_id is required") else elim cached [
        | some c ↦ check c
        | none ↦ or_missing consent_not_found "get consent" (get_consent server id) >>= check
      ]
