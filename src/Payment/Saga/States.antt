-- ===== src/Payment/Saga/States.antt =====
-- What holds of a payment between the steps of the saga of services/payment-svc/internal/saga.go, and
-- the ways in which a step fails.
use vrp_oneclick_deposit_pla.Common.{
  true, false, Option, none, some, String, List, [], ◌∷◌, ◌++◌, ◌+++◌, ◌≡◌, refl, inl, inr,
}
use vrp_oneclick_deposit_pla.Domainerr.{Err, ok}
use vrp_oneclick_deposit_pla.Payment.{Payment, OutboxRow}
use vrp_oneclick_deposit_pla.Payment.Fee.{settlement_lines}
use vrp_oneclick_deposit_pla.Payment.World.{
  Env, World, Call, ReserveReply, ScoreReply, BankReply, reserve, score, initiate_payment,
  post_double_entry, confirm_reservation, raise, ignore, ◌>>◌,
}
use vrp_oneclick_deposit_pla.Payment.World.Laws.{Triple, Triple-bind, Triple-ignore, Triple-raise}
use vrp_oneclick_deposit_pla.Payment.Saga.{
  consent_step, consent_answered, consent_not_persisted, consent_refused, risk_step, risk_scored,
  is_decline, is_rejected, decision_name, bank_step, bank_answered, ledger_step, settle_step,
  settle_failed, confirm_step, run_saga,
}
use vrp_oneclick_deposit_pla.Payment.Saga
use vrp_oneclick_deposit_pla.Payment.Saga.Undo.{
  UndoAsked, Triple-fail_and_compensate, Triple-mark_as_failed, Triple-mark_for_review,
}

-- The calls of the steps for a payment, after the calls that there were before its saga.
abbrev pub reserving : Payment → Call
reserving p = reserve p.consent_id p.id p.amount_pence p.currency

abbrev pub reserve_of : List Call → Payment → List Call
reserve_of before p = before ++ reserving p ∷ []

abbrev pub scoring : Payment → Call
scoring p = score p.merchant_id p.consumer_id p.consent_id p.id p.amount_pence p.currency

abbrev pub score_of : List Call → Payment → List Call
score_of before p = reserve_of before p ++ scoring p ∷ []

abbrev pub paying : String → Payment → Call
paying b p = initiate_payment p.id b p.consumer_id p.amount_pence p.currency p.description

abbrev pub bank_of : List Call → String → Payment → List Call
bank_of before b p = score_of before p ++ paying b p ∷ []

abbrev pub ledger_of : List Call → String → Payment → List Call
ledger_of before b p =
    bank_of before b p
    ++ post_double_entry p.id ("VRP settlement " +++ (p.id +++ "")) (settlement_lines p) ∷ []

abbrev pub confirm_of : List Call → String → String → Payment → List Call
confirm_of before b res p = ledger_of before b p ++ confirm_reservation res p.id ∷ []

-- A payment at the start of its saga.
pub record Fresh (before : List Call) (o : List OutboxRow) (w : World) : Type 0 where
  pub unpublished : w.session.tables.outbox ≡ o
  pub unreserved : w.payment.reservation_id ≡ none
  pub unpaid : w.payment.bank_payment_ref ≡ ""
  pub uncalled : w.calls ≡ before

module _ (env : Env) (before : List Call) where
  -- The consent service reserved the payment's amount, and `b` is the bank's reference.
  pub record Held (b : String) (p : Payment) : Type 0 where
    pub reply : ReserveReply
    pub answered : env.reserve_reply (reserve_of before p) ≡ ok reply
    pub bank_ref : reply.bank_consent_ref ≡ b
    pub res : String
    pub parsed : env.parse_uuid reply.reservation_id ≡ ok res
    pub kept : p.reservation_id ≡ some res

  -- The risk service did not decline the payment.
  pub record Passed (p : Payment) : Type 0 where
    pub reply : ScoreReply
    pub answered : env.score_reply (score_of before p) ≡ ok reply
    pub allowed : is_decline reply.decision ≡ false
    pub kept : p.risk_score ≡ some reply.score

  -- The bank did not reject the payment.
  pub record Accepted (b : String) (p : Payment) : Type 0 where
    pub reply : BankReply
    pub answered : env.bank_reply (bank_of before b p) ≡ ok reply
    pub allowed : is_rejected reply.status ≡ false
    pub kept : p.bank_payment_ref ≡ reply.bank_payment_ref

module _ (env : Env) (before : List Call) (o : List OutboxRow) where
  pub record AfterConsent (b : String) (w : World) : Type 0 where
    pub unpublished : w.session.tables.outbox ≡ o
    pub unpaid : w.payment.bank_payment_ref ≡ ""
    pub called : w.calls ≡ reserve_of before w.payment
    pub held : Held env before b w.payment

  pub record AfterRisk (b : String) (w : World) : Type 0 where
    pub unpublished : w.session.tables.outbox ≡ o
    pub unpaid : w.payment.bank_payment_ref ≡ ""
    pub called : w.calls ≡ score_of before w.payment
    pub held : Held env before b w.payment
    pub passed : Passed env before w.payment

  pub record AfterBank (b : String) (calls : Payment → List Call) (w : World) : Type 0 where
    pub unpublished : w.session.tables.outbox ≡ o
    pub called : w.calls ≡ calls w.payment
    pub held : Held env before b w.payment
    pub passed : Passed env before w.payment
    pub accepted : Accepted env before b w.payment

  -- A payment that has not been paid at the bank.
  pub record Unpaid (w : World) : Type 0 where
    pub unpublished : w.session.tables.outbox ≡ o
    pub unpaid : w.payment.bank_payment_ref ≡ ""

  -- A payment whose reservation is held, and that has not been paid.
  abbrev pub Scoring : String → World → Type 0
  Scoring b w = Unpaid w × Held env before b w.payment

  -- A payment without a reservation and without a payment at the bank has nothing to undo.
  Fresh-UndoAsked :
      (w : World)
      → w.session.tables.outbox ≡ o
      → w.payment.reservation_id ≡ none
      → w.payment.bank_payment_ref ≡ ""
      → UndoAsked o w
  Fresh-UndoAsked w e r b = record {
    unpublished = e;
    release_asked = rw r refl;
    reversal_asked = rw b refl;
  }

  -- A failure that releases the reservation.
  pub release_only :
      {Q : Unit {0} → World → Type 0} (reason : String) (ret : Option Err)
      → Triple Unpaid
          (Saga.Compensate.fail_and_compensate env reason true false ret)
          Q
          (λ _. UndoAsked o)
  release_only reason ret = record {
    at = λ w h.
        (Triple-fail_and_compensate env o reason true false ret).at w
          (record { reservation = inl refl; reference = inr h.unpaid }, h.unpublished);
  }

  -- An action on a payment with nothing to undo.
  abbrev pub Nothing : World → Type 0
  Nothing w =
      (w.session.tables.outbox ≡ o)
      × (w.payment.reservation_id ≡ none)
      × (w.payment.bank_payment_ref ≡ "")

  UndoAsked-Nothing : (w : World) → Nothing w → UndoAsked o w
  UndoAsked-Nothing w (e, r, b) = Fresh-UndoAsked w e r b

  pub refuse :
      {A : Type 0} {Q : A → World → Type 0} (reason : String) (e : Err)
      → Triple Nothing
          (ignore (Saga.Compensate.mark_as_failed env reason) >> raise e)
          Q
          (λ _. UndoAsked o)
  refuse reason e =
      Triple-bind {R = λ _. UndoAsked o} _ _
        (Triple-ignore _ (record {
          at = λ w h. (Triple-mark_as_failed env o reason).at w (UndoAsked-Nothing w h);
        }))
        (λ _. Triple-raise e λ w h. h)

  pub fail-UndoAsked :
      {A : Type 0} {Q : A → World → Type 0} (reason : String) (e : Err)
      → Triple
          (UndoAsked o)
          (ignore (Saga.Compensate.mark_as_failed env reason) >> raise e)
          Q
          (λ _. UndoAsked o)
  fail-UndoAsked reason e =
      Triple-bind {R = λ _. UndoAsked o} _ _ (Triple-ignore _ (Triple-mark_as_failed env o reason))
        (λ _. Triple-raise e λ w h. h)

  pub review-UndoAsked :
      {A : Type 0} {Q : A → World → Type 0} (reason : String) (e : Err)
      → Triple
          (UndoAsked o)
          (ignore (Saga.Compensate.mark_for_review env reason) >> raise e)
          Q
          (λ _. UndoAsked o)
  review-UndoAsked reason e =
      Triple-bind {R = λ _. UndoAsked o} _ _ (Triple-ignore _ (Triple-mark_for_review env o reason))
        (λ _. Triple-raise e λ w h. h)

  -- A failure that releases the reservation, and reverses the payment at the bank if there is one.
  pub undo_both :
      {Q : Unit {0} → World → Type 0} (reason : String) (ret : Option Err)
      → Triple
          (λ w. w.session.tables.outbox ≡ o)
          (Saga.Compensate.fail_and_compensate env reason true true ret)
          Q
          (λ _. UndoAsked o)
  undo_both reason ret = record {
    at = λ w h.
        (Triple-fail_and_compensate env o reason true true ret).at w
          (record { reservation = inl refl; reference = inl refl }, h);
  }
