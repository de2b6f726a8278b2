-- ===== src/Payment/Saga/Resume.antt =====
-- `ResumeFromLedger` and `CompensateStale` of services/payment-svc/internal/saga.go, by which the
-- reconciliation finishes or undoes a payment that was left in flight.
use vrp_oneclick_deposit_pla.Common.{
  true, Option, none, some, String, List, ◌==◌, not, ◌≡◌, refl, inl, inr, subst, ◌⊎◌, eq_iff,
  Bool-cases,
}
use vrp_oneclick_deposit_pla.Domainerr.{Err}
use vrp_oneclick_deposit_pla.Payment.{OutboxRow}
use vrp_oneclick_deposit_pla.Payment.World.{Env, World, Call, call, ignore}
use vrp_oneclick_deposit_pla.Payment.World.Laws.{
  Outcome, Triple, Triple-bind, Triple-ignore, Triple-option, Triple-call, weaken, Either-same,
  Triple-pure,
}
use vrp_oneclick_deposit_pla.Payment.Saga.{
  confirm_step, resume_from_ledger, compensate_stale, is_reserved,
}
use vrp_oneclick_deposit_pla.Payment.Saga.Undo.{UndoAsked, Covers, Triple-fail_and_compensate}
use vrp_oneclick_deposit_pla.Payment.Saga.Settle.{Published, Triple-ledger_step, Triple-settle_step}

module _ (env : Env) (o : List OutboxRow) where
  more_calls :
      (w : World) (cs : List Call) → Published env o w → Published env o (record w { calls = cs })
  more_calls w cs h = record {
    id = h.id;
    at = h.at;
    added = h.added;
    status = h.status;
    settled_at = h.settled_at;
  }

  -- A last call, the answer of which is ignored.
  Triple-last_call :
      {E : Err → World → Type 0} (c : Call)
      → Triple (Published env o) (ignore (call env.done_reply c)) (λ _. Published env o) E
  Triple-last_call c =
      Triple-ignore _ (Triple-call _ _ λ w r h _. Either-same _ r _ (more_calls w _ h))

  Triple-resume_from_ledger :
      Triple
        (λ w. w.session.tables.outbox ≡ o)
        (resume_from_ledger env)
        (λ _. Published env o)
        (λ _. UndoAsked o)
  unfolding resume_from_ledger confirm_step
  Triple-resume_from_ledger =
      Triple-bind _ _
        (Triple-ledger_step env o {Q = λ w. w.session.tables.outbox ≡ o} _ _ (λ w h. h)
          (λ w h e. h))
        λ _.
          Triple-bind _ _ (Triple-settle_step env o {Q = λ _. Unit} _ (λ w h. h) (λ w now s h. tt))
            λ _.
              Triple-bind {R = λ _. Published env o} _ _
                (Triple-bind {R = λ _. Published env o} _ _ (record { at = λ w h. h.1 })
                  (λ p.
                    Triple-option p.reservation_id _ _ (λ _. Triple-pure tt λ w h. h)
                      (λ res _. Triple-last_call _)))
                λ _.
                  Triple-bind {R = λ _. Published env o} _ _ (record { at = λ w h. h })
                    (λ p. Triple-last_call _)

-- `ResumeFromLedger` either returns no error, and the payment is settled with one row more in the
-- outbox; or it returns an error, the outbox is as it was, and the release of the payment's
-- reservation and the reversal of its payment at the bank, if any, have been asked for.
pub resume_from_ledger_lem :
    (env : Env) (w : World)
    → Outcome
        (λ _. Published env w.session.tables.outbox)
        (λ _. UndoAsked w.session.tables.outbox)
        (resume_from_ledger env w)
resume_from_ledger_lem env w = (Triple-resume_from_ledger env w.session.tables.outbox).at w refl

reserved_or_none : (r : Option String) → (is_reserved r ≡ true) ⊎ (r ≡ none)
reserved_or_none none = inr refl
reserved_or_none (some _) = inl refl

paid_or_not : (ref : String) → (not (ref == "") ≡ true) ⊎ (ref ≡ "")
paid_or_not ref = elim (Bool-cases (ref == "")) [
  | inl e ↦ inr ((eq_iff ref "").0 e)
  | inr e ↦ inl (rw e refl)
]

-- `CompensateStale` always returns an error; the outbox is as it was, and the release of the
-- payment's reservation and the reversal of its payment at the bank, if any, have been asked for.
pub compensate_stale_lem :
    (env : Env) (reason : String) (w : World)
    → Outcome (λ _ _. ⊥) (λ _. UndoAsked w.session.tables.outbox) (compensate_stale env reason w)
unfolding compensate_stale
compensate_stale_lem env reason w =
    let o = w.session.tables.outbox in
    let all : Triple (λ w. w.session.tables.outbox ≡ o) (compensate_stale env reason) (λ _ _. ⊥)
        (λ _. UndoAsked o) =
      Triple-bind {R = λ p w. (p ≡ w.payment) × (w.session.tables.outbox ≡ o)} _ _
        (record { at = λ w h. (refl, h) })
        (λ p.
          weaken
            (λ w (e, h). (
              subst (λ q. Covers q (is_reserved p.reservation_id) (not (p.bank_payment_ref == "")))
                  e
                  (record {
                    reservation = reserved_or_none p.reservation_id;
                    reference = paid_or_not p.bank_payment_ref;
                  }),
              h,
            ))
            (Triple-fail_and_compensate env o reason _ _ none)) in
    all.at w refl
