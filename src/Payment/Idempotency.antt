-- ===== src/Payment/Idempotency.antt =====
-- pkg/shared/idempotency/redis.go: the keys of the payments that were asked for. Redis is a parameter:
-- `Env.claim_reply` and `Env.read_reply` are its answers.
use vrp_oneclick_deposit_pla.Common.{
  ℕ, zero, suc, Bool, true, false, String, ◌==◌, Option, none, some, if◌then◌else◌,
}
use vrp_oneclick_deposit_pla.Domainerr.{Err, annotated, plain, Result, ok, err}
use vrp_oneclick_deposit_pla.Payment.World.{
  Env, Saga, claim_key, read_key, complete_key, release_key, pure, raise, attempt, call, ◌>>=◌,
}

abbrev pub status_processing : String
status_processing = "PROCESSING"

-- The first two results of `Begin`: whether the caller owns the work, and the value of a key
-- that is complete.
pub record Begun : Type 0 where
  pub owned : Bool
  pub completed : String

abbrev pub is_claimed : Result Bool → Bool
is_claimed (ok b) = b
is_claimed (err e) = false

abbrev pub redis_nil : Err
redis_nil = plain "redis: nil"

abbrev pub own : Begun
own = record { owned = true; completed = "" }

-- After the last GET of `Begin`.
unfoldable pub begin_read : Result (Option String) → Saga Begun
begin_read (err e) = raise (annotated "idempotency get" e)
begin_read (ok none) = raise (annotated "idempotency get" redis_nil)
begin_read (ok (some val)) =
    if val == status_processing
    then pure (record { owned = false; completed = "" })
    else pure (record { owned = false; completed = val })

module _ (env : Env) (key : String) where
  -- The second try, where the key was gone.
  unfoldable pub begin_again : Saga Begun
  unfolding begin_read
  begin_again = do
    r ← attempt (call env.claim_reply (claim_key key))
    if is_claimed r then pure own else (attempt (call env.read_reply (read_key key)) >>= begin_read)

  -- After the first GET.
  unfoldable pub begin_missed : Result (Option String) → Saga Begun
  unfolding begin_again begin_read
  begin_missed (ok none) = begin_again
  begin_missed (ok (some val)) = begin_read (ok (some val))
  begin_missed (err e) = begin_read (err e)

  unfoldable pub begin : Saga Begun
  unfolding begin_missed
  begin = do
    r ← attempt (call env.claim_reply (claim_key key))
    if is_claimed r
        then pure own
        else (attempt (call env.read_reply (read_key key)) >>= begin_missed)

  abbrev pub complete : String → Saga (Unit {0})
  complete value = call env.done_reply (complete_key key value)

  abbrev pub release_claim : Saga (Unit {0})
  release_claim = call env.done_reply (release_key key)

  -- After a GET of `WaitForCompletion`; `rest` is the loop after 100 ms.
  unfoldable pub wait_read : Saga (Option String) → Result (Option String) → Saga (Option String)
  wait_read rest (err e) = raise e
  wait_read rest (ok none) = pure none
  wait_read rest (ok (some v)) =
      if v == status_processing
      then (λ w. elim (env.cancelled w.calls) [ some e ↦ (err e, w) | none ↦ rest w ])
      else pure (some v)

  -- `WaitForCompletion` with at most `n` more GETs before its deadline: the value of a key that
  -- was completed, or none.
  unfoldable pub wait_for_completion : ℕ → Saga (Option String)
  unfolding wait_read
  wait_for_completion zero = pure none
  wait_for_completion (suc n) =
      let rest : Saga (Option String) = wait_for_completion n in
      λ w.
        if env.in_time w.calls
        then (attempt (call env.read_reply (read_key key)) >>= wait_read rest) w
        else (ok none, w)
