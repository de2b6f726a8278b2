-- ===== src/Bank.antt =====
-- services/bank-adapter/internal/adapter.go: calls of the bank over HTTP, with retries and a circuit
-- breaker. net/http, encoding/json, retry-go and gobreaker are parameters.
pub mod Calls
pub mod Laws
use vrp_oneclick_deposit_pla.Common.{
  ℕ, Bool, true, false, String, Option, none, some, List, [], ◌∷◌, ◌++◌, ◌+++◌, ◌==◌, ◌||◌, eqb,
  ltb, leb, if◌then◌else◌, trim_space, to_upper, decimal,
}
use vrp_oneclick_deposit_pla.Domainerr.{
  Err, domain, wrapped, plain, Result, ok, err, Code, validation, bank_unavailable, conflict,
  is_code,
}
use vrp_oneclick_deposit_pla.Domainerr
use vrp_oneclick_deposit_pla.Payment.World.{
  BankStatus, bank_status_unspecified, bank_pending, bank_authorised, bank_settled, bank_rejected,
  bank_reversed,
}

-- An error of an attempt: a `*transientError` with its message, or another.
pub data Failure : Type 0 where
  transient : String → Failure
  failed : Err → Failure

-- A request of the HTTP client, below the adapter's base URL.
pub record HttpRequest : Type 0 where
  pub method : String
  pub path : String
  pub body : Option String

-- `resp.StatusCode`, and what reading the body yields.
pub record HttpResponse : Type 0 where
  pub status_code : ℕ
  pub body : Result String

-- What the attempts share: the requests sent so far, the variable `out` that an answer is decoded
-- into, and the variable `last`.
pub record Wire (A : Type 0) : Type 0 where
  pub sent : List HttpRequest
  pub out : A
  pub last : Option Failure

-- `http.NewRequestWithContext`, `httpClient.Do`, whose answer depends on the requests so far, and
-- `json.Unmarshal`.
pub record Http (A : Type 0) : Type 0 where
  pub new_request : HttpRequest → Option Err
  pub answer : List HttpRequest → Result HttpResponse
  pub decode : String → Result A

-- What `Execute` of the circuit breaker returns: `ErrOpenState` or `ErrTooManyRequests`, or what the
-- function returned.
pub data Guarded : Type 0 where
  rejected : Guarded
  passed : Option Err → Guarded

-- `retry.Do` with its number of attempts and `RetryIf`, and `Execute`.
pub record Resilience (A : Type 0) : Type 0 where
  pub retry_do :
      ℕ → (Failure → Bool) → (Wire A → Option Failure × Wire A) → Wire A → Option Failure × Wire A
  pub execute : (Wire A → Option Err × Wire A) → Wire A → Guarded × Wire A

abbrev pub or_text : String → String → String
or_text s default = if s == "" then default else s

-- The errors for a status code.
unfoldable pub status_error : ℕ → String → Option Failure
status_error code raw =
    if eqb code 404
    then some (failed (domain Code.not_found "bank payment not found"))
    else if eqb code 400
    then some (failed (domain validation (or_text (trim_space raw) "invalid bank request")))
    else if eqb code 409
    then some (failed (domain conflict (or_text (trim_space raw) "bank payment conflict")))
    else if leb 500 code
    then some (transient ("bank returned " +++ (decimal code +++ (": " +++ trim_space raw))))
    else if ltb code 200 || leb 300 code
    then some (failed (domain bank_unavailable ("bank returned " +++ decimal code)))
    else none

-- The error that an attempt comes to in the end.
unfoldable pub normalize_err : Failure → Err
normalize_err (transient message) = domain bank_unavailable message
normalize_err (failed e) = e

unfoldable pub is_transient : Failure → Bool
is_transient (transient message) = true
is_transient (failed e) = is_code e bank_unavailable

-- `quote` is the `%q` of fmt.
unfoldable pub map_status : (String → String) → String → Result BankStatus
map_status quote s =
    let name : String = to_upper (trim_space s) in
    if name == "PENDING"
    then ok bank_pending
    else if name == "AUTHORISED" || name == "AUTHORIZED"
    then ok bank_authorised
    else if name == "SETTLED"
    then ok bank_settled
    else if name == "REJECTED"
    then ok bank_rejected
    else if name == "REVERSED"
    then ok bank_reversed
    else if name == "" || name == "UNSPECIFIED"
    then ok bank_status_unspecified
    else err (plain ("unmapped status " +++ quote s))

module _ {A : Type 0} (http : Http A) where
  unfoldable pub decoded : String → Wire A → Option Failure × Wire A
  decoded raw w = if raw == "" then (none, w) else elim (http.decode raw) [
    | err e ↦ (some (failed (wrapped Code.internal "decode bank response" e)), w)
    | ok a ↦ (none, record w { out = a })
  ]

  unfoldable pub responded : Result HttpResponse → Wire A → Option Failure × Wire A
  unfolding status_error decoded
  responded (err e) w = (some (failed (wrapped bank_unavailable "bank http call failed" e)), w)
  responded (ok a) w = elim a.body [
    | err e ↦ (some (failed (wrapped bank_unavailable "read bank response" e)), w)
    | ok raw ↦ elim (status_error a.status_code raw) [ some f ↦ (some f, w) | none ↦ decoded raw w ]
  ]

  unfoldable pub send : HttpRequest → Wire A → Option Failure × Wire A
  unfolding responded
  send request w = elim (http.new_request request) [
    | some e ↦ (some (failed (wrapped Code.internal "build request" e)), w)
    | none ↦
        let sent : List HttpRequest = w.sent ++ request ∷ [] in
        responded (http.answer sent) (record w { sent = sent })
  ]

  -- `body` is what `json.Marshal` makes of the body, where there is one.
  unfoldable pub do_http :
      String → String → Option (Result String) → Wire A → Option Failure × Wire A
  unfolding send
  do_http method path none w = send (record { method = method; path = path; body = none }) w
  do_http method path (some (ok text)) w =
      send (record { method = method; path = path; body = some text }) w
  do_http method path (some (err e)) w =
      (some (failed (wrapped Code.internal "marshal request" e)), w)

  -- The function that is tried: its error is kept in `last`.
  unfoldable pub attempt_http :
      String → String → Option (Result String) → Wire A → Option Failure × Wire A
  unfolding do_http
  attempt_http method path body w =
      let (f, v) = do_http method path body w in (f, record v { last = f })

  abbrev pub attempts : ℕ
  attempts = 3

  -- The error after `retry.Do`: the last attempt's, where there was one.
  unfoldable pub retried : Option Failure × Wire A → Option Err × Wire A
  unfolding normalize_err
  retried (none, w) = (none, w)
  retried (some f, w) = elim w.last [
    | some l ↦ (some (normalize_err l), w)
    | none ↦ (some (normalize_err f), w)
  ]

  -- What `doWithResilience` makes of the breaker's answer.
  unfoldable pub guarded : Guarded × Wire A → Option Err × Wire A
  guarded (rejected, w) = (some (domain bank_unavailable "bank circuit breaker open"), w)
  guarded (passed r, w) = (r, w)

  unfoldable pub do_with_resilience :
      Resilience A → String → String → Option (Result String) → Wire A → Option Err × Wire A
  unfolding attempt_http retried guarded is_transient
  do_with_resilience r method path body w = guarded (
      r.execute
        (λ v. retried (
          r.retry_do attempts is_transient (attempt_http method path body)
            (record v { last = none })))
        w)
