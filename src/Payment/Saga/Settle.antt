-- ===== src/Payment/Saga/Settle.antt =====
-- The end of the saga of services/payment-svc/internal/saga.go: its steps 4 to 6, and the whole.
use vrp_oneclick_deposit_pla.Common.{
  ℕ, some, String, List, [], ◌∷◌, ◌++◌, ◌+++◌, ◌≡◌, refl, ap, sym, ◌∙◌, subst,
}
use vrp_oneclick_deposit_pla.Domainerr.{Err, Result, ok, err}
use vrp_oneclick_deposit_pla.Postgres.{Session}
use vrp_oneclick_deposit_pla.Payment.{Payment, Store, OutboxRow, settled}
use vrp_oneclick_deposit_pla.Payment.Fee.{settlement_lines}
use vrp_oneclick_deposit_pla.Payment.Repo.{
  after_settle, settled_row, settle_with_outbox, build_settled_payload,
}
use vrp_oneclick_deposit_pla.Payment.Repo.Laws.{settle_with_outbox_inv, settle_with_outbox-atomic}
use vrp_oneclick_deposit_pla.Payment.World.{
  Env, World, Call, post_double_entry, confirm_reservation, persist,
}
use vrp_oneclick_deposit_pla.Payment.World.Laws.{
  Outcome, Triple, Triple-bind, Triple-ignore, Triple-attempt, Triple-pure, Triple-ask, weaken,
  Triple-option, Triple-call, outcome_ok, outcome_err, Either-same,
}
use vrp_oneclick_deposit_pla.Payment.Saga.{
  ledger_step, settle_step, settle_failed, confirm_step, run_saga,
}
use vrp_oneclick_deposit_pla.Payment.Saga.Undo.{UndoAsked, Triple-compensate_full}
use vrp_oneclick_deposit_pla.Payment.Saga.States.{
  Fresh, Held, Passed, Accepted, AfterBank, bank_of, ledger_of, confirm_of, undo_both,
  fail-UndoAsked, review-UndoAsked,
}
use vrp_oneclick_deposit_pla.Payment.Saga.Steps.{
  Triple-consent_step, Triple-risk_step, Triple-bank_step,
}

module _ (env : Env) (o : List OutboxRow) where
  -- The outbox got one row more: that of the payment.
  pub record Published (w : World) : Type 0 where
    pub id : String
    pub at : ℕ
    pub added : w.session.tables.outbox ≡ o ++ settled_row w.payment at id ∷ []
    pub status : w.payment.status ≡ settled
    pub settled_at : w.payment.settled_at ≡ some at

  settle-Outcome :
      (Q : Unit {0} → World → Type 0) (E : Err → World → Type 0) (w : World) (now : ℕ)
      (r : Result Payment × Session Store)
      → ((s : Session Store) (id : String)
          → s.tables.outbox ≡ w.session.tables.outbox ++ settled_row w.payment now id ∷ []
          → Q tt (record w { session = s; payment = after_settle now w.payment }))
      → ((e : Err) (s : Session Store)
          → s.tables.outbox ≡ w.session.tables.outbox
          → E e (record w { session = s }))
      → settle_with_outbox env.server now w.payment w.session ≡ r
      → Outcome Q E (elim r.0 [
        | ok p ↦ (ok tt, record w { session = r.1; payment = p })
        | err e ↦ (err e, record w { session = r.1 })
      ])
  settle-Outcome Q E w now (ok p, s) good bad h =
      let (same, id, added) = settle_with_outbox_inv env.server now w.payment w.session h in
      subst (λ p. Q tt (record w { session = s; payment = p })) (sym same) (good s id added)
  settle-Outcome Q E w now (err e, s) good bad h = bad e s (
      ap (λ (x : Result Payment × Session Store). x.1.tables.outbox) (sym h)
      ∙ ap (λ (t : Store). t.outbox)
          (settle_with_outbox-atomic env.server now w.payment w.session e
            (ap (λ (x : Result Payment × Session Store). x.0) h)))

  Triple-settle :
      {P : World → Type 0} {Q : Unit {0} → World → Type 0} {E : Err → World → Type 0}
      → ((w : World) (now : ℕ) (s : Session Store) (id : String)
          → P w
          → s.tables.outbox ≡ w.session.tables.outbox ++ settled_row w.payment now id ∷ []
          → Q tt (record w { session = s; payment = after_settle now w.payment }))
      → ((w : World) (e : Err) (s : Session Store)
          → P w
          → s.tables.outbox ≡ w.session.tables.outbox
          → E e (record w { session = s }))
      → Triple P (persist (settle_with_outbox env.server) env) Q E
  unfolding persist
  Triple-settle good bad = record {
    at = λ w p.
        let now = env.now w.session.count in
        settle-Outcome _ _ w now (settle_with_outbox env.server now w.payment w.session)
          (λ s id. good w now s id p) (λ e s. bad w e s p) refl;
  }

  Triple-settle_failed :
      {Q : Unit {0} → World → Type 0} (reason : String) (e : Err)
      → Triple (λ w. w.session.tables.outbox ≡ o) (settle_failed env reason e) Q (λ _. UndoAsked o)
  unfolding settle_failed
  Triple-settle_failed reason e =
      Triple-bind _ _ (Triple-attempt _ (Triple-compensate_full env o reason))
        (elim [ err c ↦ review-UndoAsked env [] o _ _ | ok _ ↦ fail-UndoAsked env [] o _ _ ])

  pub Triple-settle_step :
      {P Q : World → Type 0} (reason : String)
      → ((w : World) → P w → w.session.tables.outbox ≡ o)
      → ((w : World) (now : ℕ) (s : Session Store)
          → P w
          → Q (record w { session = s; payment = after_settle now w.payment }))
      → Triple P (settle_step env reason) (λ _ w. Q w × Published w) (λ _. UndoAsked o)
  unfolding settle_step build_settled_payload
  Triple-settle_step {Q = Q} reason same keep =
      Triple-bind _ _
        (Triple-attempt {Q = λ _ w. Q w × Published w} {F = λ _ w. w.session.tables.outbox ≡ o} _ (
          Triple-settle
            (λ w now s id p e. (
              keep w now s p,
              record {
                id = id;
                at = now;
                added = e ∙ ap (λ x. x ++ settled_row w.payment now id ∷ []) (same w p);
                status = refl;
                settled_at = refl;
              },
            ))
            (λ w e s p h. h ∙ same w p)))
        (elim [ err e ↦ Triple-settle_failed reason e | ok _ ↦ Triple-pure _ λ w h. h ])

  -- The posting of the ledger's entry.
  abbrev posting : String → Payment → Call
  posting suffix p =
      post_double_entry p.id ("VRP settlement " +++ (p.id +++ suffix)) (settlement_lines p)

  pub Triple-ledger_step :
      {P Q : World → Type 0} (label suffix : String)
      → ((w : World) → P w → w.session.tables.outbox ≡ o)
      → ((w : World)
          → P w
          → env.done_reply (w.calls ++ posting suffix w.payment ∷ []) ≡ ok tt
          → Q (record w { calls = w.calls ++ posting suffix w.payment ∷ [] }))
      → Triple P (ledger_step env label suffix) (λ _. Q) (λ _. UndoAsked o)
  unfolding ledger_step
  Triple-ledger_step {Q = Q} label suffix same keep =
      Triple-ask (λ r w. (w.session.tables.outbox ≡ o) × (r ≡ ok tt → Q w)) _ (posting suffix) _
        (λ w p. (same w p, λ h. keep w p h))
        (elim [
          | err e ↦ weaken (λ w h. h.0) (undo_both env [] o _ _)
          | ok _ ↦ Triple-pure _ λ w h. h.1 refl
        ])

module _ (env : Env) (before : List Call) (o : List OutboxRow) where
  -- What the saga has done when it returns no error.
  pub record Completed (w : World) : Type 0 where
    pub published : Published env o w
    pub bank_consent_ref : String
    pub held : Held env before bank_consent_ref w.payment
    pub passed : Passed env before w.payment
    pub accepted : Accepted env before bank_consent_ref w.payment
    pub posted : env.done_reply (ledger_of before bank_consent_ref w.payment) ≡ ok tt
    pub called : w.calls ≡ confirm_of before bank_consent_ref held.res w.payment

  record Posted (b : String) (w : World) : Type 0 where
    called : w.calls ≡ ledger_of before b w.payment
    held : Held env before b w.payment
    passed : Passed env before w.payment
    accepted : Accepted env before b w.payment
    posted : env.done_reply (ledger_of before b w.payment) ≡ ok tt

  -- The steps after the bank's keep what was found before them.
  ledger_keeps :
      (b : String) (w : World)
      → AfterBank env before o b (bank_of before b) w
      → env.done_reply (w.calls ++ posting env o "" w.payment ∷ []) ≡ ok tt
      → Posted b (record w { calls = w.calls ++ posting env o "" w.payment ∷ [] })
  ledger_keeps b w h e = record {
    called = ap (λ cs. cs ++ posting env o "" w.payment ∷ []) h.called;
    held = h.held;
    passed = h.passed;
    accepted = h.accepted;
    posted = ap (λ cs. env.done_reply (cs ++ posting env o "" w.payment ∷ [])) (sym h.called) ∙ e;
  }

  settle_keeps :
      (b : String) (w : World) (now : ℕ) (s : Session Store)
      → Posted b w
      → Posted b (record w { session = s; payment = after_settle now w.payment })
  unfolding settlement_lines
  settle_keeps b w now s h = record {
    called = h.called;
    held = record {
      reply = h.held.reply;
      answered = h.held.answered;
      bank_ref = h.held.bank_ref;
      res = h.held.res;
      parsed = h.held.parsed;
      kept = h.held.kept;
    };
    passed = record {
      reply = h.passed.reply;
      answered = h.passed.answered;
      allowed = h.passed.allowed;
      kept = h.passed.kept;
    };
    accepted = record {
      reply = h.accepted.reply;
      answered = h.accepted.answered;
      allowed = h.accepted.allowed;
      kept = h.accepted.kept;
    };
    posted = h.posted;
  }

  finish :
      (b : String) (w : World) (res : String) (p : Payment)
      → Posted b w
      → Published env o w
      → p ≡ w.payment
      → p.reservation_id ≡ some res
      → Completed (record w { calls = w.calls ++ confirm_reservation res p.id ∷ [] })
  finish b w res p h published same kept =
      let same_res : res ≡ h.held.res = cc (h.held.kept) in
      record {
        published = record {
          id = published.id;
          at = published.at;
          added = published.added;
          status = published.status;
          settled_at = published.settled_at;
        };
        bank_consent_ref = b;
        held = h.held;
        passed = h.passed;
        accepted = h.accepted;
        posted = h.posted;
        called = cc (h.called);
      }

  Triple-confirm_step :
      (b : String)
      → Triple
          (λ w. Posted b w × Published env o w)
          (confirm_step env)
          (λ _. Completed)
          (λ _. UndoAsked o)
  unfolding confirm_step
  Triple-confirm_step b =
      Triple-bind {R = λ p w. (p ≡ w.payment) × (Posted b w × Published env o w)} _ _
        (record { at = λ w h. (refl, h) })
        λ p.
          Triple-option p.reservation_id _ _
            (λ none_kept. record { at = λ w x. cc (x.1.0.held.kept, x.0) })
            λ res kept.
              Triple-ignore _ (
                Triple-call _ _
                  λ w r x _. Either-same _ r _ (finish b w res p x.1.0 x.1.1 x.0 kept))

  pub Triple-run_saga : Triple (Fresh before o) (run_saga env) (λ _. Completed) (λ _. UndoAsked o)
  unfolding run_saga
  Triple-run_saga = Triple-bind _ _ (Triple-consent_step env before o) λ b.
      Triple-bind _ _ (Triple-risk_step env before o b) λ _.
        Triple-bind _ _ (Triple-bank_step env before o b) λ _.
          Triple-bind _ _
            (Triple-ledger_step env o {Q = λ w. (w.session.tables.outbox ≡ o) × Posted b w}
              "LEDGER_ERROR" "" (λ w h. h.unpublished)
              (λ w h e. (h.unpublished, ledger_keeps b w h e)))
            λ _.
              Triple-bind _ _
                (Triple-settle_step env o {Q = Posted b} "settle failed" (λ w h. h.0)
                  (λ w now s h. settle_keeps b w now s h.1))
                (λ _. Triple-confirm_step b)

-- A saga of a payment without a reservation and without a payment at the bank: where it returns an error, the outbox is as it was, and the reservation and the payment at
-- the bank that the payment in memory then holds, if any, have been asked to be released and reversed.
pub run_saga-error :
    (env : Env) (w : World) (e : Err)
    → Fresh w.calls w.session.tables.outbox w
    → (run_saga env w).0 ≡ err e
    → UndoAsked w.session.tables.outbox (run_saga env w).1
run_saga-error env w e h r =
    outcome_err _ _ (run_saga env w) ((Triple-run_saga env w.calls w.session.tables.outbox).at w h)
      r

-- The same saga where it returns no error: the consent service has reserved, the risk service has not
-- declined and the bank has not rejected the payment; the ledger took its entry; the calls
-- that were added are reserve, score, initiate, post and confirm, in this order; the payment is settled, and the outbox
-- has one row more, the settled event of the payment.
pub run_saga-Completed :
    (env : Env) (w : World)
    → Fresh w.calls w.session.tables.outbox w
    → (run_saga env w).0 ≡ ok tt
    → Completed env w.calls w.session.tables.outbox (run_saga env w).1
run_saga-Completed env w h r =
    outcome_ok _ _ (run_saga env w) ((Triple-run_saga env w.calls w.session.tables.outbox).at w h) r
