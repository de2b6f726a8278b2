-- ===== src/Payment/Initiate/After.antt =====
-- `Initiate` of services/payment-svc/internal/saga.go, after the payment was created: the saga, and what is done once it is over.
use vrp_oneclick_deposit_pla.Common.{
  Bool, true, String, Option, none, some, List, [], ◌∷◌, ◌++◌, ◌≡◌, refl, ap, ◌∙◌, arith,
  delete_rows,
}
use vrp_oneclick_deposit_pla.Domainerr.{Err, Result, ok, err}
use vrp_oneclick_deposit_pla.Domainerr.Triple.{
  Outcome, Triple, Triple-pure, Triple-ignore, attempt_same, Either-same, same-Outcome,
}
use vrp_oneclick_deposit_pla.Postgres.{Session, pool_statement, statement}
use vrp_oneclick_deposit_pla.Payment.{Payment, Store, OutboxRow}
use vrp_oneclick_deposit_pla.Payment.Repo.{get_by_id, get_by_idempotency_key}
use vrp_oneclick_deposit_pla.Payment.World.{
  Env, World, Saga, Call, complete_key, call, ignore, fetch, attempt,
}
use vrp_oneclick_deposit_pla.Payment.World.Laws.{Triple-bind, Triple-call}
use vrp_oneclick_deposit_pla.Payment.Saga.Undo.{
  UndoAsked, any_call, is_release_asked, is_release_of, is_reversal_of,
}
use vrp_oneclick_deposit_pla.Payment.Saga.States.{Fresh}
use vrp_oneclick_deposit_pla.Payment.Saga.Settle.{Published, Completed, Triple-run_saga}
use vrp_oneclick_deposit_pla.Payment.Initiate.{
  Reply, returned, returned_with, after_saga, run_created, by_id,
}
use vrp_oneclick_deposit_pla.Payment.Initiate.Once.{Quiet, is_key_call}

-- No saga was run: the outbox is as it was, and no other service was called.
pub record Calm (o : List OutboxRow) (cs : List Call) (w : World) : Type 0 where
  pub outbox : w.session.tables.outbox ≡ o
  pub calls : delete_rows is_key_call w.calls ≡ cs

pub Quiet-Calm : (t : Store) (cs : List Call) (w : World) → Quiet t cs w → Calm t.outbox cs w
Quiet-Calm t cs w q = record { outbox = ap (λ (u : Store). u.outbox) q.tables; calls = q.calls }

-- What becomes of a call.
pub data Initiated (env : Env) (o : List OutboxRow) (cs : List Call) (w : World)
    : Reply → Type 0 where
  calm : (r : Reply) → Calm o cs w → Initiated env o cs w r
  undone : (p : Payment) (e : Err) → UndoAsked o w → Initiated env o cs w (returned_with p e)
  published : (p : Payment) → Published env o w → Initiated env o cs w (returned p)
  unread : (p : Payment) (g : Err) → Published env o w → Initiated env o cs w (returned_with p g)

-- One more call, and another session with the same outbox, keep what was asked to be undone.
any_call-more :
    (test : Call → Bool) (xs : List Call) (c : Call)
    → any_call test xs ≡ true
    → any_call test (xs ++ c ∷ []) ≡ true
unfolding any_call
any_call-more test [] c h = absurd (cc (h))
any_call-more test (x ∷ xs) c h = ground (arith, any_call-more test xs c)

again-UndoAsked :
    (o : List OutboxRow) (w : World) (c : Call)
    → UndoAsked o w
    → UndoAsked o (record w { calls = w.calls ++ c ∷ [] })
again-UndoAsked o w c u = record {
  unpublished = u.unpublished;
  release_asked = released_more w.payment.reservation_id u.release_asked;
  reversal_asked =
      (let more = any_call-more (is_reversal_of w.payment.bank_payment_ref) w.calls c in
        let h = u.reversal_asked in ground (arith, more));
}
  where
    released_more :
        (res : Option String)
        → is_release_asked res w.calls ≡ true
        → is_release_asked res (w.calls ++ c ∷ []) ≡ true
    released_more none h = refl
    released_more (some r) h = any_call-more (is_release_of r) w.calls c h

module _ (env : Env) (o : List OutboxRow) (cs : List Call) where
  -- After the saga: the payment was asked to be undone, or it is published.
  abbrev Over : Result (Unit {0}) → World → Type 0
  Over (err e) w = UndoAsked o w
  Over (ok _) w = Published env o w

  -- What does not change the payment and the outbox, and makes at most one more call.
  call-Over :
      (r : Result (Unit {0})) (w : World) (c : Call)
      → Over r w
      → Over r (record w { calls = w.calls ++ c ∷ [] })
  call-Over (err e) w c u = again-UndoAsked o w c u
  call-Over (ok _) w c p = record {
    id = p.id;
    at = p.at;
    added = p.added;
    status = p.status;
    settled_at = p.settled_at;
  }

  session-Over :
      (r : Result (Unit {0})) (w : World) (s : Session Store)
      → s.tables ≡ w.session.tables
      → Over r w
      → Over r (record w { session = s })
  session-Over (err e) w s h u = record {
    unpublished = ap (λ (t : Store). t.outbox) h ∙ u.unpublished;
    release_asked = u.release_asked;
    reversal_asked = u.reversal_asked;
  }
  session-Over (ok _) w s h p = record {
    id = p.id;
    at = p.at;
    added = ap (λ (t : Store). t.outbox) h ∙ p.added;
    status = p.status;
    settled_at = p.settled_at;
  }

  done-Over :
      {E : Err → World → Type 0} (r : Result (Unit {0})) (c : Call)
      → Triple (Over r) (ignore (call env.done_reply c)) (λ _. Over r) E
  done-Over r c =
      Triple-ignore _
        (Triple-call env.done_reply c λ w a h _. Either-same (Over r) a _ (call-Over r w c h))

  by_id-unchanged :
      (id : String) (s : Session Store)
      → (get_by_id env.server (env.now s.count) id s).1.tables ≡ s.tables
  unfolding get_by_id pool_statement statement
  by_id-unchanged id s = ground arith

  pub by_key-unchanged :
      (key : String) (s : Session Store)
      → (get_by_idempotency_key env.server (env.now s.count) key s).1.tables ≡ s.tables
  unfolding get_by_idempotency_key pool_statement statement
  by_key-unchanged key s = ground arith

  by_id-Over :
      (r : Result (Unit {0})) (id : String)
      → Triple (Over r) (by_id env id) (λ _. Over r) (λ _. Over r)
  unfolding fetch
  by_id-Over r id = record {
    at = λ w h. same-Outcome (Over r) _ (session-Over r w _ (by_id-unchanged id w.session) h);
  }

  returned-Initiated :
      (s : Result (Unit {0})) (g : Result Payment) (p : Payment) (w : World)
      → Over s w
      → Initiated env o cs w (after_saga env s g p)
  unfolding after_saga
  returned-Initiated (ok _) (ok fresh) p w h = published fresh h
  returned-Initiated (ok _) (err g) p w h = unread p g h
  returned-Initiated (err e) (ok fresh) p w h = undone fresh e h
  returned-Initiated (err e) (err g) p w h = undone p e h

  pub run_created-Initiated :
      {E : Err → World → Type 0} (before : List Call) (key : String)
      → Triple (Fresh before o) (run_created env key) (λ r w. Initiated env o cs w r) E
  unfolding run_created
  run_created-Initiated before key =
      Triple-bind {R = Over} _ _ (attempt-Over _ (Triple-run_saga env before o)) λ s.
        Triple-bind {R = λ p. Over s} _ _ (record { at = λ w h. h })
          λ p. Triple-bind {R = λ _. Over s} _ _ (done-Over s (complete_key key p.id)) λ _.
            Triple-bind {R = λ _. Over s} _ _ (attempt_same (by_id-Over s p.id))
              λ g. Triple-pure _ (λ w h. returned-Initiated s g p w h)
    where
      completed-Over :
          (before : List Call) (q : Result (Unit {0}) × World)
          → Outcome (λ _. Completed env before o) (λ _. UndoAsked o) q
          → Over q.0 q.1
      completed-Over before (ok _, w) h = h.published
      completed-Over before (err e, w) h = h

      attempt-Over :
          {E : Err → World → Type 0} (m : Saga (Unit {0}))
          → Triple (Fresh before o) m (λ _. Completed env before o) (λ _. UndoAsked o)
          → Triple (Fresh before o) (attempt m) Over E
      attempt-Over m h = record { at = λ w k. completed-Over before (m w) (h.at w k) }
