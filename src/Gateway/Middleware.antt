-- ===== src/Gateway/Middleware.antt =====
-- services/gateway/internal/httpapi/middleware.go: who is admitted to the handlers, with
-- pkg/shared/auth/jwt.go. What jwt.ParseWithClaims makes of a token and what Redis answers are
-- parameters.
use vrp_oneclick_deposit_pla.Common.{
  ℕ, suc, Bool, String, Option, none, some, List, [], ◌∷◌, ◌==◌, ◌+++◌, ltb, ltb_ℤ, ℤ, pos,
  pos_part, if◌then◌else◌, trim_space, to_upper, decimal,
}
use vrp_oneclick_deposit_pla.Domainerr.{Err, plain, Result, ok, err}
use vrp_oneclick_deposit_pla.Gateway.{ErrorBody, HttpReply, write_error}

-- `jwt.ParseWithClaims`: it asks for the key of the method that the token names, and returns
-- whether the token is valid, and the merchant of its claims.
abbrev pub ParseWithClaims : Type 0
ParseWithClaims = (String → Result String) → String → Result (Bool × String)

-- The key of `TokenService.Parse`.
unfoldable pub key_for : String → String → Result String
key_for secret method =
    if method == "HS256" then ok secret else err (plain "unexpected signing method")

-- `TokenService.Parse`, as far as the merchant.
unfoldable pub parse : ParseWithClaims → String → String → Result String
unfolding key_for
parse claims secret token = elim (claims (key_for secret) token) [
  | err e ↦ err e
  | ok (valid, merchant) ↦ if valid then ok merchant else err (plain "invalid token")
]

-- What follows a prefix that is given in capitals, in whatever case the text has it.
unfoldable pub after_prefix : String → String → Option String
unfolding to_upper
after_prefix String.[] s = some s
after_prefix (String.◌∷◌ c p) String.[] = none
after_prefix (String.◌∷◌ c p) (String.◌∷◌ d s) =
    let rest = after_prefix p s in
    if to_upper (String.◌∷◌ d String.[]) == String.◌∷◌ c String.[] then rest else none

-- The end of a middleware: its own reply, or the next handler.
pub data Outcome (A : Type 0) : Type 0 where
  refused : HttpReply ErrorBody → Outcome A
  admitted : A → Outcome A

abbrev pub unauthorized : String → String → Outcome String
unauthorized rid message = refused (write_error rid 401 "UNAUTHORIZED" message)

-- `AuthMiddleware`, on the header `Authorization`: the merchant of the token.
unfoldable pub authenticate : ParseWithClaims → String → String → String → Outcome String
unfolding after_prefix parse
authenticate claims secret rid header = elim (after_prefix "BEARER " header) [
  | none ↦ unauthorized rid "missing or invalid Authorization header"
  | some raw ↦
      if trim_space raw == ""
      then unauthorized rid "missing bearer token"
      else elim (parse claims secret (trim_space raw)) [
        | err e ↦ unauthorized rid "invalid token"
        | ok merchant ↦
            if merchant == ""
            then unauthorized rid "token missing merchant_id"
            else admitted merchant
      ]
]

-- Redis for the rate limit: the errors by the number of the script's run, and whether a key's time
-- to live is over then.
pub record Counting : Type 0 where
  pub fault : ℕ → Option Err
  pub expired : ℕ → String → Bool

pub record Counters : Type 0 where
  pub counts : List (String × ℕ)
  pub runs : ℕ

unfoldable pub count_of : String → List (String × ℕ) → ℕ
count_of key [] = 0
count_of key ((k, n) ∷ cs) = let rest = count_of key cs in if k == key then n else rest

-- `rateLimitLua`: INCR, which starts again where the key has expired.
unfoldable pub increment : Counting → String → Counters → Result ℕ × Counters
unfolding count_of
increment redis key s = elim (redis.fault s.runs) [
  | some e ↦ (err e, record s { runs = suc s.runs })
  | none ↦
      (let n : ℕ = if redis.expired s.runs key then 1 else suc (count_of key s.counts) in
        (ok n, record { counts = (key, n) ∷ s.counts; runs = suc s.runs }))
]

-- The limit for the parameter `limitPerSec`.
unfoldable pub limit_of : ℤ → ℕ
limit_of per_second = if ltb_ℤ (pos 0) per_second then pos_part per_second else 100

abbrev pub limit_key : String → ℕ → String
limit_key merchant now = "ratelimit:" +++ (merchant +++ (":" +++ decimal now))

abbrev pub too_many : String → HttpReply ErrorBody
too_many rid = record (write_error rid 429 "RATE_LIMITED" "rate limit exceeded") {
  headers = ("Retry-After", "1") ∷ [];
}

-- After the script.
unfoldable pub counted : ℤ → String → String → Result ℕ → Outcome String
unfolding limit_of
counted per_second rid merchant (err e) = admitted merchant
counted per_second rid merchant (ok n) =
    if ltb (limit_of per_second) n then refused (too_many rid) else admitted merchant

-- `RateLimitMiddleware`, for the merchant of the context at the second `now`; without Redis every
-- request goes on.
unfoldable pub rate_limit :
    Option Counting → ℤ → String → String → ℕ → Counters → Outcome String × Counters
unfolding counted increment
rate_limit none per_second rid merchant now s = (admitted merchant, s)
rate_limit (some redis) per_second rid merchant now s =
    if merchant == ""
    then (admitted merchant, s)
    else (let (r, t) = increment redis (limit_key merchant now) s in
        (counted per_second rid merchant r, t))

-- What the middlewares read of a request, with the identifier that `uuid.NewString` has for it and the
-- second in which it is counted.
pub record Request : Type 0 where
  pub authorization : String
  pub request_id_header : String
  pub new_id : String
  pub second : ℕ

-- `RequestIDMiddleware`
unfoldable pub request_id : Request → String
request_id r = if r.request_id_header == "" then r.new_id else r.request_id_header

module _ (claims : ParseWithClaims) (secret : String) (redis : Option Counting)
    (per_second : ℤ) where
  unfoldable pub limited : Request → Outcome String → Counters → Outcome String × Counters
  unfolding rate_limit request_id
  limited r (refused x) s = (refused x, s)
  limited r (admitted merchant) s = rate_limit redis per_second (request_id r) merchant r.second s

  -- The middlewares before the handlers of the routes with authentication, in the order of
  -- router.go: the merchant whose request goes on to its handler, or a reply.
  unfoldable pub admit : Request → Counters → Outcome String × Counters
  unfolding authenticate request_id limited
  admit r s = limited r (authenticate claims secret (request_id r) r.authorization) s

  -- Requests, one after the other.
  unfoldable pub admit_all : List Request → Counters → List (Request × Outcome String)
  unfolding admit
  admit_all [] s = []
  admit_all (r ∷ rs) s = let (o, t) = admit r s in (r, o) ∷ admit_all rs t
