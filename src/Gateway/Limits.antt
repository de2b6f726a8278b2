-- ===== src/Gateway/Limits.antt =====
-- How many requests of a merchant the middlewares of services/gateway admit.
use vrp_oneclick_deposit_pla.Common.{
  ℕ, suc, ◌+◌, ◌-◌, ◌≤◌, true, false, String, none, some, List, [], ◌∷◌, ◌==◌, ◌&&◌, eqb, ℤ,
  if◌then◌else◌, ◌≡◌, refl, arith, Bool-cases, inl, inr, eq_iff, eq_refl,
}
use vrp_oneclick_deposit_pla.Domainerr.{Result, ok, err}
use vrp_oneclick_deposit_pla.Gateway.Middleware.{
  ParseWithClaims, Outcome, refused, admitted, authenticate, Counting, Counters, count_of,
  increment, limit_of, limit_key, counted, rate_limit, Request, request_id, limited, admit,
  admit_all,
}

-- 1 for a request of the merchant in the second that was admitted.
unfoldable counts_as : String → ℕ → Request → Outcome String → ℕ
counts_as merchant second r (refused x) = 0
counts_as merchant second r (admitted m) = if (m == merchant) && eqb r.second second then 1 else 0

-- How many requests of the merchant were admitted in the second.
unfoldable pub admitted_count : String → ℕ → List (Request × Outcome String) → ℕ
unfolding counts_as
admitted_count merchant second [] = 0
admitted_count merchant second ((r, o) ∷ rest) =
    counts_as merchant second r o + admitted_count merchant second rest

module _ (redis : Counting) (key : String) (answers : (n : ℕ) → redis.fault n ≡ none)
    (kept : (n : ℕ) → redis.expired n key ≡ false) where
  increment-same :
      (s : Counters)
      → ((increment redis key s).0 ≡ ok (suc (count_of key s.counts)))
        × (count_of key (increment redis key s).1.counts ≡ suc (count_of key s.counts))
  unfolding increment count_of
  increment-same s = ground (arith, answers s.runs, kept s.runs, eq_refl key)

  increment-grows :
      (k : String) (s : Counters)
      → count_of key s.counts ≤ count_of key (increment redis k s).1.counts
  unfolding increment count_of
  increment-grows k s = elim (Bool-cases (k == key)) [
    | inl y ↦
        let same : k ≡ key = (eq_iff k key).0 y in
        let grown = (increment-same s).1 in rw same (rw grown (omega arith))
    | inr o ↦ ground (arith, answers s.runs, o)
  ]

module _ (redis : Counting) (per_second : ℤ) (merchant : String) (second : ℕ)
    (answers : (n : ℕ) → redis.fault n ≡ none)
    (kept : (n : ℕ) → redis.expired n (limit_key merchant second) ≡ false) where
  abbrev used : Counters → ℕ
  used s = count_of (limit_key merchant second) s.counts

  abbrev Step : Request → Counters → Outcome String × Counters → Type 0
  Step r s p =
      counts_as merchant second r p.0 + (limit_of per_second - used p.1)
      ≤ limit_of per_second - used s

  -- A request of another merchant or second.
  other-Step :
      (r : Request) (m : String) (s t : Counters) (o : Result ℕ)
      → (m == merchant) && eqb r.second second ≡ false
      → used s ≤ used t
      → Step r s (counted per_second (request_id r) m o, t)
  unfolding counted counts_as
  other-Step r m s t (err e) n g = ground arith
  other-Step r m s t (ok c) n g = ground arith

  same-Step :
      (r : Request) (m : String) (s t : Counters)
      → (m == merchant) && eqb r.second second ≡ true
      → used t ≡ suc (used s)
      → Step r s (counted per_second (request_id r) m (ok (suc (used s))), t)
  unfolding counted counts_as
  same-Step r m s t y g = ground arith

  rate_limit-Step :
      (r : Request) (m : String) (s : Counters)
      → (m == "") ≡ false
      → Step r s (rate_limit (some redis) per_second (request_id r) m r.second s)
  unfolding rate_limit
  rate_limit-Step r m s n = rw n (elim (Bool-cases ((m == merchant) && eqb r.second second)) [
    | inl y ↦
        let is_merchant : m ≡ merchant = (eq_iff m merchant).0 (ground arith) in
        let is_second : r.second ≡ second = ground arith in
        let key : limit_key m r.second ≡ limit_key merchant second = cc (is_merchant, is_second) in
        let both = increment-same redis (limit_key merchant second) answers kept s in
        rw (key, both.0)
          (same-Step r m s (increment redis (limit_key merchant second) s).1 y both.1)
    | inr o ↦
        other-Step r m s (increment redis (limit_key m r.second) s).1
          (increment redis (limit_key m r.second) s).0 o
          (increment-grows redis (limit_key merchant second) answers kept (limit_key m r.second) s)
  ])

  limited-Step :
      (claims : ParseWithClaims) (secret : String) (r : Request) (s : Counters) (o : Outcome String)
      → ((m : String) → o ≡ admitted m → (m == "") ≡ false)
      → Step r s (limited claims secret (some redis) per_second r o s)
  unfolding limited counts_as
  limited-Step claims secret r s (refused x) n = omega arith
  limited-Step claims secret r s (admitted m) n = rate_limit-Step r m s (n m refl)

  -- No request is admitted for the empty merchant.
  authenticate-named :
      (claims : ParseWithClaims) (secret rid header merchant : String)
      → authenticate claims secret rid header ≡ admitted merchant
      → (merchant == "") ≡ false
  unfolding authenticate
  authenticate-named claims secret rid header merchant h = ground arith

  -- At most as many requests are admitted for a merchant in one second as the limit leaves over the
  -- count in Redis, whatever other requests come between, where Redis answers and does not drop the
  -- count of this merchant and second.
  pub admit_all-bounded :
      (claims : ParseWithClaims) (secret : String) (rs : List Request) (s : Counters)
      → admitted_count merchant second (admit_all claims secret (some redis) per_second rs s)
        ≤ limit_of per_second - count_of (limit_key merchant second) s.counts
  unfolding admit_all admit admitted_count
  admit_all-bounded claims secret [] s = omega arith
  admit_all-bounded claims secret (r ∷ rs) s =
      let o : Outcome String = authenticate claims secret (request_id r) r.authorization in
      let step =
        limited-Step claims secret r s o
          (authenticate-named claims secret (request_id r) r.authorization) in
      let rest =
        admit_all-bounded claims secret rs
          (limited claims secret (some redis) per_second r o s).1 in
      omega arith
