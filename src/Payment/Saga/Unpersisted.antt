-- ===== src/Payment/Saga/Unpersisted.antt =====
-- A payment that the bank accepted and whose update fails (services/payment-svc/internal/saga.go).
use vrp_oneclick_deposit_pla.Common.{
  ℕ, true, false, String, some, List, ◌++◌, ◌≡◌, refl, ap, ◌∙◌, Option, Bool, if◌then◌else◌,
}
use vrp_oneclick_deposit_pla.Domainerr.{Err, Result, ok, err}
use vrp_oneclick_deposit_pla.Postgres.{Session}
use vrp_oneclick_deposit_pla.Payment.{Payment, Store, failed, manual_review}
use vrp_oneclick_deposit_pla.Payment.Repo.{
  after_mark, mark_failed, mark_manual_review, update_after_bank,
}
use vrp_oneclick_deposit_pla.Payment.World.{Env, World, Call, BankReply, Saga, pure, persist, ◌>>=◌}
use vrp_oneclick_deposit_pla.Payment.World.Laws.{
  Triple, Triple-persist, Triple-bind, Triple-ignore, Triple-raise, ignore_outcome,
}
use vrp_oneclick_deposit_pla.Payment.Saga.{bank_answered, is_rejected}
use vrp_oneclick_deposit_pla.Payment.Saga.Compensate.{
  bank_reversal, consent_release, mark_as_failed, mark_for_review, fail_and_compensate,
}
use vrp_oneclick_deposit_pla.Payment.Saga.Undo.{wanted, compensation_calls, compensate_lem}

-- The calls are `cs`.
abbrev Called : List Call → World → Type 0
Called cs w = w.calls ≡ cs

module _ (env : Env) (cs : List Call) where
  Called-mark_as_failed :
      (reason : String)
      → Triple (Called cs) (mark_as_failed env reason) (λ _. Called cs) (λ _. Called cs)
  unfolding mark_as_failed mark_failed
  Called-mark_as_failed reason =
      Triple-persist env "mark failed" failed reason (λ now. after_mark failed reason now)
        (λ w now s h e. h) (λ w x s h e. h)

  Called-mark_for_review :
      (reason : String)
      → Triple (Called cs) (mark_for_review env reason) (λ _. Called cs) (λ _. Called cs)
  unfolding mark_for_review mark_manual_review
  Called-mark_for_review reason =
      Triple-persist env "mark manual review" manual_review reason
        (λ now. after_mark manual_review reason now) (λ w now s h e. h) (λ w x s h e. h)

  -- The calls of a failure are those of its compensation.
  Called-fail_and_compensate :
      (reason : String) (consent bank : Bool) (ret : Option Err)
      → Triple
          (λ w. w.calls ++ compensation_calls w.payment reason consent bank ≡ cs)
          (fail_and_compensate env reason consent bank ret)
          (λ _. Called cs)
          (λ _. Called cs)
  unfolding fail_and_compensate
  Called-fail_and_compensate reason consent bank ret =
      Triple-bind {R = λ _. Called cs} _ _
        (record {
          at = λ w h. ap (λ (v : World). v.calls) (compensate_lem env reason consent bank w) ∙ h;
        })
        (elim [
          | err e ↦
              Triple-bind {R = λ _. Called cs} _ _ (Triple-ignore _ (Called-mark_for_review _))
                (λ _. Triple-raise _ λ w h. h)
          | ok _ ↦
              Triple-bind {R = λ _. Called cs} _ _ (Triple-ignore _ (Called-mark_as_failed _))
                (λ _. Triple-raise _ λ w h. h)
        ])

no_reversal :
    (p : Payment) (reason : String)
    → p.bank_payment_ref ≡ ""
    → compensation_calls p reason true true ≡ wanted (consent_release reason true p.reservation_id)
unfolding compensation_calls bank_reversal wanted
no_reversal p reason h = rw h refl

if_false :
    {A : Type 0} (b : Bool) (m n : Saga A) (w : World) → b ≡ false → (if b then m else n) w ≡ n w
if_false true m n w h = cc
if_false false m n w h = refl

persist_failed :
    (env : Env) (q : ℕ → Payment → Session Store → Result Payment × Session Store) (w : World)
    (x : Err)
    → (q (env.now w.session.count) w.payment w.session).0 ≡ err x
    → (s : Session Store) × (persist q env w ≡ (err x, record w { session = s }))
unfolding persist
persist_failed env q w x h = go (q (env.now w.session.count) w.payment w.session) h
  where
    go :
        (r : Result Payment × Session Store)
        → r.0 ≡ err x
        → (s : Session Store) × ◌≡◌ {A = Result (Unit {0}) × World}
            (elim r.0 [
              | ok p ↦ (ok tt, record w { session = r.1; payment = p })
              | err e ↦ (err e, record w { session = r.1 })
            ])
            (err x, record w { session = s })
    go (ok p, s) k = (s, cc)
    go (err e, s) k = (s, cc)

-- Where the bank has accepted a payment that had no reference of the bank's before, and the update
-- with its reference fails, the only call that follows is the release of the reservation, if any:
-- the payment at the bank is not reversed.
pub bank_answered-unreversed :
    (env : Env) (reply : BankReply) (w : World) (x : Err)
    → is_rejected reply.status ≡ false
    → w.payment.bank_payment_ref ≡ ""
    → (update_after_bank env.server
        (env.now w.session.count)
        reply.bank_payment_ref
        w.payment
        w.session).0
      ≡ err x
    → (bank_answered env reply w).1.calls
      ≡ w.calls ++ wanted (consent_release "persist bank failed" true w.payment.reservation_id)
unfolding bank_answered ◌>>=◌
bank_answered-unreversed env reply w x accepted unpaid h =
    let cs =
      w.calls ++ wanted (consent_release "persist bank failed" true w.payment.reservation_id) in
    let (s, e) =
      persist_failed env (λ now. update_after_bank env.server now reply.bank_payment_ref) w x h in
    let failure = fail_and_compensate env "persist bank failed" true true (some x) in
    let same : bank_answered env reply w ≡ failure (record w { session = s }) =
      if_false (is_rejected reply.status) _ _ w accepted
      ∙ ap
          (λ (p : Result (Unit {0}) × World).
            (elim p.0 as (λ _. Saga (Unit {0})) [
              | ok _ ↦ pure tt
              | err e ↦ fail_and_compensate env "persist bank failed" true true (some e)
            ])
              p.1)
          e in
    ap (λ (p : Result (Unit {0}) × World). p.1.calls) same
    ∙ ignore_outcome (Called cs) (failure (record w { session = s })) (
        (Called-fail_and_compensate env cs "persist bank failed" true true (some x)).at
          (record w { session = s })
          (ap (λ ds. w.calls ++ ds) (no_reversal w.payment "persist bank failed" unpaid)))
