-- ===== src/Gateway/Handlers/Owned.antt =====
-- For whom the routes of services/gateway that ask for a token call the services.
use vrp_oneclick_deposit_pla.Common.{
  ℕ, Bool, true, false, String, Option, none, some, List, [], ◌∷◌, ◌++◌, ◌==◌, ℤ, if◌then◌else◌,
  ◌≡◌, refl, arith, Bool-cases, inl, inr, eq_iff, ap,
}
use vrp_oneclick_deposit_pla.Domainerr.{Result, ok, err}
use vrp_oneclick_deposit_pla.Gateway.{HttpReply, map_grpc_error}
use vrp_oneclick_deposit_pla.Gateway.Convert.{CreateConsentRequest, DepositRequest}
use vrp_oneclick_deposit_pla.Gateway.Middleware.{
  ParseWithClaims, Outcome, refused, admitted, authenticate, Counting, Counters, Request,
  request_id, counted, rate_limit, limited, admit,
}
use vrp_oneclick_deposit_pla.Gateway.Calls.{Call, Body, Services, Route, Handling, ListQuery}
use vrp_oneclick_deposit_pla.Gateway.Calls
use vrp_oneclick_deposit_pla.Gateway.Handlers.{
  asked, get_merchant_for, create_until, create_consent_for, list_for, list_page, initiate_for,
  handle, serve,
}

-- The merchant that a call is made for, where it is made for one.
unfoldable pub call_merchant : Call → Option String
call_merchant (Calls.get_merchant_by_api_key key) = none
call_merchant (Calls.register_merchant i) = none
call_merchant (Call.get_merchant id) = some id
call_merchant (Call.create_consent r) = some r.merchant_id
call_merchant (Calls.get_consent id m) = some m
call_merchant (Calls.revoke_consent id m reason) = some m
call_merchant (Calls.list_consents r) = some r.merchant_id
call_merchant (Calls.initiate_payment r) = some r.merchant_id
call_merchant (Calls.get_payment r) = some r.merchant_id
call_merchant (Calls.retry_payment r) = some r.merchant_id

-- At most one further call, and for this merchant.
pub data Owned (merchant : String) (calls : List Call) : List Call → Type 0 where
  no_call : Owned merchant calls calls
  one_call : (c : Call) → call_merchant c ≡ some merchant → Owned merchant calls (calls ++ c ∷ [])

module _ (services : Services) (rid merchant : String) where
  abbrev OwnedBy : Handling → Type 0
  OwnedBy h = (calls : List Call) → Owned merchant calls (h calls).1

  asked-OwnedBy :
      {A : Type 0} (answer : List Call → Result A) (c : Call) (reply : A → HttpReply Body)
      → call_merchant c ≡ some merchant
      → OwnedBy (asked services rid answer c reply)
  unfolding asked
  asked-OwnedBy {A = A} answer c reply m calls = answered (answer (calls ++ c ∷ []))
    where
      answered :
          (r : Result A)
          → Owned merchant calls (
              let p : HttpReply Body × List Call = elim r [
                | err e ↦
                    (Calls.as_error (map_grpc_error services.grpc_text rid e), calls ++ c ∷ [])
                | ok a ↦ (reply a, calls ++ c ∷ [])
              ] in
              p.1)
      answered (err e) = one_call c m
      answered (ok a) = one_call c m

  -- A test whose both outcomes are such.
  if-OwnedBy : (b : Bool) (f g : Handling) → OwnedBy f → OwnedBy g → OwnedBy (if b then f else g)
  if-OwnedBy true f g p q = p
  if-OwnedBy false f g p q = q

  get_merchant_for-OwnedBy : (id : String) → OwnedBy (get_merchant_for services rid merchant id)
  unfolding get_merchant_for call_merchant
  get_merchant_for-OwnedBy id = elim (Bool-cases (id == merchant)) [
    | inl y ↦ let same = (eq_iff id merchant).0 y in rw y (search (asked-OwnedBy, ap some same))
    | inr n ↦ rw n (λ calls. no_call)
  ]

  create_until-OwnedBy :
      (req : CreateConsentRequest) (t : Result (Option ℕ))
      → OwnedBy (create_until services rid merchant req t)
  unfolding create_until call_merchant
  create_until-OwnedBy req (ok (some t)) = search asked-OwnedBy
  create_until-OwnedBy req (ok none) = λ calls. no_call
  create_until-OwnedBy req (err e) = λ calls. no_call

  create_consent_for-OwnedBy :
      (body : Result CreateConsentRequest) → OwnedBy (create_consent_for services rid merchant body)
  unfolding create_consent_for
  create_consent_for-OwnedBy (err e) = λ calls. no_call
  create_consent_for-OwnedBy (ok req) = search (if-OwnedBy, create_until-OwnedBy, no_call)

  list_page-OwnedBy :
      (q : ListQuery) (size : Option ℤ) → OwnedBy (list_page services rid merchant q size)
  unfolding list_page call_merchant
  list_page-OwnedBy q none = λ calls. no_call
  list_page-OwnedBy q (some size) = search asked-OwnedBy

  list_for-OwnedBy : (q : ListQuery) → OwnedBy (list_for services rid merchant q)
  unfolding list_for
  list_for-OwnedBy q = search (if-OwnedBy, no_call, list_page-OwnedBy)

  initiate_for-OwnedBy :
      (key : String) (body : Result DepositRequest)
      → OwnedBy (initiate_for services rid merchant key body)
  unfolding initiate_for call_merchant
  initiate_for-OwnedBy key (err e) = search (if-OwnedBy, no_call)
  initiate_for-OwnedBy key (ok req) = search (if-OwnedBy, no_call, asked-OwnedBy)

  handle-OwnedBy : (route : Route) → OwnedBy (handle services rid merchant route)
  unfolding handle call_merchant
  handle-OwnedBy (Route.get_merchant id) = get_merchant_for-OwnedBy id
  handle-OwnedBy (Calls.consent id) = search asked-OwnedBy
  handle-OwnedBy (Calls.payment id) = search asked-OwnedBy
  handle-OwnedBy (Calls.retry id) = search asked-OwnedBy
  handle-OwnedBy (Route.create_consent body) = create_consent_for-OwnedBy body
  handle-OwnedBy (Calls.revoke id reason) = search asked-OwnedBy
  handle-OwnedBy (Calls.list q) = list_for-OwnedBy q
  handle-OwnedBy (Calls.initiate key body) = initiate_for-OwnedBy key body

-- What a request for a route with authentication may call: nothing, or one call for the merchant of
-- its token.
pub data Served (claims : ParseWithClaims) (secret : String) (r : Request) (calls : List Call)
    : List Call → Type 0 where
  uncalled : Served claims secret r calls calls
  called :
      (merchant : String) (c : Call)
      → authenticate claims secret (request_id r) r.authorization ≡ admitted merchant
      → call_merchant c ≡ some merchant
      → Served claims secret r calls (calls ++ c ∷ [])

module _ (claims : ParseWithClaims) (secret : String) (redis : Option Counting)
    (per_second : ℤ) where
  -- A request that is admitted is admitted for the merchant of its token.
  limited-admitted :
      (r : Request) (o : Outcome String) (s : Counters) (merchant : String)
      → (limited claims secret redis per_second r o s).0 ≡ admitted merchant
      → o ≡ admitted merchant
  unfolding limited rate_limit counted
  limited-admitted r (refused x) s merchant h = h
  limited-admitted r (admitted m) s merchant h = ground arith

  Owned-Served :
      (r : Request) (m : String) (calls after : List Call)
      → authenticate claims secret (request_id r) r.authorization ≡ admitted m
      → Owned m calls after
      → Served claims secret r calls after
  Owned-Served r m calls after h no_call = uncalled
  Owned-Served r m calls after h (one_call c k) = called m c h k

  -- A request for a route with authentication makes at most one call of a service. It makes one only
  -- with a token that the authentication accepts, and the call is for the merchant of this token.
  pub serve-Served :
      (services : Services) (route : Route) (r : Request) (s : Counters) (calls : List Call)
      → Served claims secret r calls
          (serve services claims secret redis per_second route r (s, calls)).2
  unfolding serve admit
  serve-Served services route r s calls =
      by_outcome (admit claims secret redis per_second r s)
        (limited-admitted r (authenticate claims secret (request_id r) r.authorization) s)
    where
      by_outcome :
          (p : Outcome String × Counters)
          → ((m : String)
              → p.0 ≡ admitted m
              → authenticate claims secret (request_id r) r.authorization ≡ admitted m)
          → Served claims secret r calls (
              let q : HttpReply Body × Counters × List Call = elim p.0 [
                | refused x ↦ (Calls.as_error x, p.1, calls)
                | admitted m ↦
                    (let h : HttpReply Body × List Call =
                        handle services (request_id r) m route calls in
                      (h.0, p.1, h.1))
              ] in
              q.2)
      by_outcome (refused x, t) h = uncalled
      by_outcome (admitted m, t) h =
          Owned-Served r m calls _ (h m refl) (handle-OwnedBy services (request_id r) m route calls)
