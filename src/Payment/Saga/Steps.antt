-- ===== src/Payment/Saga/Steps.antt =====
-- What each step of the saga of services/payment-svc/internal/saga.go leaves, whether it returns
-- a value or an error.
use vrp_oneclick_deposit_pla.Common.{
  true, false, String, List, [], ◌∷◌, ◌++◌, ◌≡◌, refl, ap, sym, inl, inr, ◌∙◌,
}
use vrp_oneclick_deposit_pla.Domainerr.{Err, ok, err}
use vrp_oneclick_deposit_pla.Payment.{Payment, Store, OutboxRow, settled, risk_passed, authorising}
use vrp_oneclick_deposit_pla.Payment as Payments
use vrp_oneclick_deposit_pla.Payment.Repo.{
  after_consent, after_risk, after_bank, update_after_consent, update_after_risk, update_after_bank,
}
use vrp_oneclick_deposit_pla.Payment.World.{
  Call, Env, World, ReserveReply, ScoreReply, BankReply, reserve, score, initiate_payment,
}
use vrp_oneclick_deposit_pla.Payment.World.Laws.{
  Either, Triple, Triple-persist, Triple-bind, Triple-attempt, Triple-pure, Triple-ask, weaken,
  Triple-result, Triple-if,
}
use vrp_oneclick_deposit_pla.Payment.Saga.{
  consent_step, consent_answered, consent_not_persisted, consent_refused, risk_step, risk_scored,
  is_decline, is_rejected, decision_name, bank_step, bank_answered,
}
use vrp_oneclick_deposit_pla.Payment.Saga.Undo.{UndoAsked, UndoAsked-compensate}
use vrp_oneclick_deposit_pla.Payment.Saga.States.{
  reserving, reserve_of, scoring, score_of, paying, bank_of, Fresh, Passed, AfterConsent, AfterRisk,
  AfterBank, Unpaid, Scoring, Nothing, release_only, refuse, fail-UndoAsked, review-UndoAsked,
  undo_both,
}

module _ (env : Env) (before : List Call) (o : List OutboxRow) where
  Triple-consent_refused :
      {Q : String → World → Type 0} (e : Err)
      → Triple (Nothing env before o) (consent_refused env e) Q (λ _. UndoAsked o)
  unfolding consent_refused
  Triple-consent_refused e = (refuse env before o) _ _

  Triple-consent_not_persisted :
      {Q : String → World → Type 0} (res : String) (e : Err)
      → Triple (Unpaid env before o) (consent_not_persisted env res e) Q (λ _. UndoAsked o)
  unfolding consent_not_persisted
  Triple-consent_not_persisted res e =
      Triple-bind {R = λ _. (Unpaid env before o)} _ _
        (record { at = λ w h. record { unpublished = h.unpublished; unpaid = h.unpaid } })
        λ _.
          Triple-bind {R = λ _. UndoAsked o} _ _
            (record {
              at = λ w h.
                  UndoAsked-compensate env o "persist consent failed" true false w
                    (record { reservation = inl refl; reference = inr h.unpaid }) h.unpublished;
            })
            (elim [
              | err c ↦ (review-UndoAsked env before o) _ e
              | ok _ ↦ (fail-UndoAsked env before o) _ e
            ])

  Triple-consent_answered :
      (reply : ReserveReply)
      → Triple
          (λ w.
            (Nothing env before o) w
            × (w.calls ≡ reserve_of before w.payment)
            × (env.reserve_reply (reserve_of before w.payment) ≡ ok reply))
          (consent_answered env reply)
          (AfterConsent env before o)
          (λ _. UndoAsked o)
  unfolding consent_answered update_after_consent
  Triple-consent_answered reply =
      Triple-result (env.parse_uuid reply.reservation_id) _ _
        (λ e. weaken (λ w h. h.0) ((refuse env before o) _ _))
        λ res parsed.
          Triple-bind
            {R = Either (λ _. (AfterConsent env before o) reply.bank_consent_ref)
              (λ _. (Unpaid env before o))}
            _ _
            (Triple-attempt _ (
              Triple-persist env "update after consent" Payments.consent_reserved "consent reserved"
                (λ now. after_consent res reply.consumer_id now)
                (λ w now s h e. record {
                  unpublished = e ∙ h.0.0;
                  unpaid = h.0.2;
                  called = h.1;
                  held = record {
                    reply = reply;
                    answered = h.2;
                    bank_ref = refl;
                    res = res;
                    parsed = parsed;
                    kept = refl;
                  };
                })
                (λ w x s h e. record { unpublished = e ∙ h.0.0; unpaid = h.0.2 })))
            (elim [ err e ↦ Triple-consent_not_persisted res e | ok _ ↦ Triple-pure _ λ w h. h ])

  pub Triple-consent_step :
      Triple (Fresh before o) (consent_step env) (AfterConsent env before o) (λ _. UndoAsked o)
  unfolding consent_step
  Triple-consent_step =
      Triple-ask
        (λ r w.
          (Nothing env before o) w
          × (w.calls ≡ reserve_of before w.payment)
          × (env.reserve_reply (reserve_of before w.payment) ≡ r))
        _ (λ p. reserve p.consent_id p.id p.amount_pence p.currency) _
        (λ w h. (
          (h.unpublished, h.unreserved, h.unpaid),
          ap (λ cs. cs ++ reserving w.payment ∷ []) h.uncalled,
          ap (λ cs. env.reserve_reply (cs ++ reserving w.payment ∷ [])) (sym h.uncalled),
        ))
        (elim [
          | err e ↦ weaken (λ w h. h.0) (Triple-consent_refused e)
          | ok reply ↦ Triple-consent_answered reply
        ])

  Triple-risk_scored :
      (b : String) (reply : ScoreReply)
      → Triple
          (λ w.
            (Scoring env before o) b w
            × (w.calls ≡ score_of before w.payment)
            × (env.score_reply (score_of before w.payment) ≡ ok reply))
          (risk_scored env reply)
          (λ _. (AfterRisk env before o) b)
          (λ _. UndoAsked o)
  unfolding risk_scored update_after_risk
  Triple-risk_scored b reply =
      Triple-if (is_decline reply.decision) _ _
        (λ _.
          Triple-bind {R = λ _. (Unpaid env before o)} _ _
            (record {
              at = λ w h. record { unpublished = h.0.0.unpublished; unpaid = h.0.0.unpaid };
            })
            (λ _. (release_only env before o) _ _))
        λ allowed.
          Triple-bind {R = Either (λ _. (AfterRisk env before o) b) (λ _. (Unpaid env before o))} _
            _
            (Triple-attempt _ (
              Triple-persist env "update after risk" risk_passed "risk scored"
                (λ now. after_risk reply.score (decision_name reply.decision) now)
                (λ w now s h e. record {
                  unpublished = e ∙ h.0.0.unpublished;
                  unpaid = h.0.0.unpaid;
                  called = h.1;
                  held = record {
                    reply = h.0.1.reply;
                    answered = h.0.1.answered;
                    bank_ref = h.0.1.bank_ref;
                    res = h.0.1.res;
                    parsed = h.0.1.parsed;
                    kept = h.0.1.kept;
                  };
                  passed = record { reply = reply; answered = h.2; allowed = allowed; kept = refl };
                })
                (λ w x s h e. record {
                  unpublished = e ∙ h.0.0.unpublished;
                  unpaid = h.0.0.unpaid;
                })))
            (elim [ err e ↦ (release_only env before o) _ _ | ok _ ↦ Triple-pure _ λ w h. h ])

  pub Triple-risk_step :
      (b : String)
      → Triple
          ((AfterConsent env before o) b)
          (risk_step env)
          (λ _. (AfterRisk env before o) b)
          (λ _. UndoAsked o)
  unfolding risk_step
  Triple-risk_step b =
      Triple-ask
        (λ r w.
          (Scoring env before o) b w
          × (w.calls ≡ score_of before w.payment)
          × (env.score_reply (score_of before w.payment) ≡ r))
        _ (λ p. score p.merchant_id p.consumer_id p.consent_id p.id p.amount_pence p.currency) _
        (λ w h. (
          (record { unpublished = h.unpublished; unpaid = h.unpaid }, h.held),
          ap (λ cs. cs ++ scoring w.payment ∷ []) h.called,
          ap (λ cs. env.score_reply (cs ++ scoring w.payment ∷ [])) (sym h.called),
        ))
        (elim [
          | err e ↦ weaken (λ w h. h.0.0) ((release_only env before o) _ _)
          | ok reply ↦ Triple-risk_scored b reply
        ])

  Triple-bank_answered :
      (b : String) (reply : BankReply)
      → Triple
          (λ w.
            ((Scoring env before o) b w × Passed env before w.payment)
            × (w.calls ≡ bank_of before b w.payment)
            × (env.bank_reply (bank_of before b w.payment) ≡ ok reply))
          (bank_answered env reply)
          (λ _. (AfterBank env before o) b (bank_of before b))
          (λ _. UndoAsked o)
  unfolding bank_answered update_after_bank
  Triple-bank_answered b reply =
      Triple-if (is_rejected reply.status) _ _
        (λ _. weaken (λ w h. h.0.0.0) ((release_only env before o) _ _))
        λ allowed.
          Triple-bind
            {R = Either (λ _. (AfterBank env before o) b (bank_of before b))
              (λ _ w. w.session.tables.outbox ≡ o)}
            _ _
            (Triple-attempt _ (
              Triple-persist env "update after bank" authorising "bank authorising"
                (λ now. after_bank reply.bank_payment_ref now)
                (λ w now s h e. record {
                  unpublished = e ∙ h.0.0.0.unpublished;
                  called = h.1;
                  held = record {
                    reply = h.0.0.1.reply;
                    answered = h.0.0.1.answered;
                    bank_ref = h.0.0.1.bank_ref;
                    res = h.0.0.1.res;
                    parsed = h.0.0.1.parsed;
                    kept = h.0.0.1.kept;
                  };
                  passed = record {
                    reply = h.0.1.reply;
                    answered = h.0.1.answered;
                    allowed = h.0.1.allowed;
                    kept = h.0.1.kept;
                  };
                  accepted = record {
                    reply = reply;
                    answered = h.2;
                    allowed = allowed;
                    kept = refl;
                  };
                })
                (λ w x s h e. e ∙ h.0.0.0.unpublished)))
            (elim [ err e ↦ (undo_both env before o) _ _ | ok _ ↦ Triple-pure _ λ w h. h ])

  pub Triple-bank_step :
      (b : String)
      → Triple
          ((AfterRisk env before o) b)
          (bank_step env b)
          (λ _. (AfterBank env before o) b (bank_of before b))
          (λ _. UndoAsked o)
  unfolding bank_step
  Triple-bank_step b =
      Triple-ask
        (λ r w.
          ((Scoring env before o) b w × Passed env before w.payment)
          × (w.calls ≡ bank_of before b w.payment)
          × (env.bank_reply (bank_of before b w.payment) ≡ r))
        _ (λ p. initiate_payment p.id b p.consumer_id p.amount_pence p.currency p.description) _
        (λ w h. (
          ((record { unpublished = h.unpublished; unpaid = h.unpaid }, h.held), h.passed),
          ap (λ cs. cs ++ paying b w.payment ∷ []) h.called,
          ap (λ cs. env.bank_reply (cs ++ paying b w.payment ∷ [])) (sym h.called),
        ))
        (elim [
          | err e ↦ weaken (λ w h. h.0.0.0) ((release_only env before o) _ _)
          | ok reply ↦ Triple-bank_answered b reply
        ])
