-- ===== src/Payment/Saga/Compensate.antt =====
-- `compensate`, `compensateFull` and `failAndCompensate` of services/payment-svc/internal/saga.go.
use vrp_oneclick_deposit_pla.Common.{
  Bool, true, Option, none, some, String, List, [], ◌∷◌, ◌++◌, ◌+++◌, ◌==◌, ◌&&◌, not,
  if◌then◌else◌,
}
use vrp_oneclick_deposit_pla.Domainerr.{Code, Err, domain, plain, Result, ok, err, error_text}
use vrp_oneclick_deposit_pla.Domainerr.Grpc.{map_downstream_err}
use vrp_oneclick_deposit_pla.Payment.Repo.{mark_failed, mark_manual_review}
use vrp_oneclick_deposit_pla.Payment.World.{
  Env, Saga, Call, release_reservation, reverse_payment, reverse_entry, pure, raise, attempt,
  ignore, current, call, persist, ◌>>=◌, ◌>>◌,
}

-- `strings.Join(errs, "; ")`
unfoldable pub join_errors : List String → String
join_errors [] = ""
join_errors (s ∷ []) = s
join_errors (s ∷ t ∷ rest) = s +++ ("; " +++ join_errors (t ∷ rest))

-- `if len(errs) > 0 { return errors.New(strings.Join(errs, "; ")) }`
unfoldable pub all_done : List String → Saga (Unit {0})
unfolding join_errors
all_done [] = pure tt
all_done (s ∷ rest) = raise (plain (join_errors (s ∷ rest)))

-- The call that reverses the payment at the bank, if it is wanted and there is one.
unfoldable pub bank_reversal : String → Bool → String → Option Call
bank_reversal reason bank ref =
    if bank && not (ref == "") then some (reverse_payment ref reason) else none

-- The call that releases the reservation, if it is wanted and there is one.
unfoldable pub consent_release : String → Bool → Option String → Option Call
consent_release reason true (some res) = some (release_reservation res reason)
consent_release _ _ _ = none

-- `if retErr != nil { return retErr }` and otherwise an internal error.
abbrev pub returned : Option Err → String → Err
returned (some e) message = e
returned none message = domain Code.internal message

module _ (env : Env) where
  -- `mapDownstreamErr(err)` and `err.Error()`
  abbrev pub downstream : Err → Err
  downstream = map_downstream_err env.grpc_text

  abbrev pub reason_of : Err → String
  reason_of = error_text env.grpc_text

  -- `o.repo.MarkFailed` and `o.repo.MarkManualReview`
  unfoldable pub mark_as_failed : String → Saga (Unit {0})
  mark_as_failed reason = persist (λ now. mark_failed env.server now reason) env

  unfoldable pub mark_for_review : String → Saga (Unit {0})
  mark_for_review reason = persist (λ now. mark_manual_review env.server now reason) env

  -- The error of a call, as a list of none or one.
  abbrev pub errors_of : {A : Type 0} → String → Result A → List String
  errors_of label (ok _) = []
  errors_of label (err e) = (label +++ (": " +++ reason_of e)) ∷ []

  -- A call of the compensation: its error is kept as a text.
  unfoldable pub try_call : String → Call → Saga (List String)
  try_call label c = do r ← attempt (call env.done_reply c); pure (errors_of label r)

  unfoldable pub try_wanted : String → Option Call → Saga (List String)
  unfolding try_call
  try_wanted label none = pure []
  try_wanted label (some c) = try_call label c

  -- Both are tried, and their errors joined.
  unfoldable pub compensate : String → Bool → Bool → Saga (Unit {0})
  compensate reason consent bank = do
    p ← current
    es ← try_wanted "bank" (bank_reversal reason bank p.bank_payment_ref)
    fs ← try_wanted "consent" (consent_release reason consent p.reservation_id)
    all_done (es ++ fs)

  unfoldable pub reverse_ledger : String → Saga (List String)
  reverse_ledger reason = do p ← current; try_call "ledger" (reverse_entry p.id reason)

  unfoldable pub compensate_full : String → Saga (Unit {0})
  compensate_full reason = do
    es ← reverse_ledger reason
    r ← attempt (compensate reason true true)
    all_done (es ++ elim r [ ok _ ↦ [] | err e ↦ reason_of e ∷ [] ])

  unfoldable pub fail_and_compensate : String → Bool → Bool → Option Err → Saga (Unit {0})
  fail_and_compensate reason consent bank ret = do
    r ← attempt (compensate reason consent bank)
    elim r [
      | err e ↦
          ignore (mark_for_review (reason +++ ("; compensate failed: " +++ reason_of e)))
          >> raise (returned ret "compensation failed")
      | ok _ ↦ ignore (mark_as_failed reason) >> raise (returned ret reason)
    ]
