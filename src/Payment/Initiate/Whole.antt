-- ===== src/Payment/Initiate/Whole.antt =====
-- `Initiate` of services/payment-svc/internal/saga.go as a whole: what becomes of a payment.
use vrp_oneclick_deposit_pla.Common.{
  ℕ, true, false, String, ◌==◌, Option, none, some, List, ◌≡◌, refl, ap, ◌∙◌, arith, if◌then◌else◌,
  delete_rows, trim_space,
}
use vrp_oneclick_deposit_pla.Domainerr.{Err, Result, ok, err, is_code, duplicate_idempotency}
use vrp_oneclick_deposit_pla.Domainerr.Triple.{
  Outcome, Either, Triple, Triple-pure, Triple-if, Triple-result, Triple-attempt, Triple-ignore,
  attempt_same, strengthen, weaken, Either-same, same-Outcome,
}
use vrp_oneclick_deposit_pla.Postgres.{Server, Session, pool_statement, statement}
use vrp_oneclick_deposit_pla.Postgres
use vrp_oneclick_deposit_pla.Payment.{Payment, Store, OutboxRow}
use vrp_oneclick_deposit_pla.Payment.Repo.{create_payment, insert_payment, insert_event}
use vrp_oneclick_deposit_pla.Payment.World.{
  Env, World, Saga, Call, claim_key, read_key, release_key, complete_key, persist, call, ignore,
  fetch, attempt, pure, ◌>>=◌, ◌>>◌,
}
use vrp_oneclick_deposit_pla.Payment.World.Laws.{Triple-bind, Triple-call}
use vrp_oneclick_deposit_pla.Payment.Idempotency.{
  Begun, is_claimed, own, begin_again, begin_missed, begin, begin_read, complete,
}
use vrp_oneclick_deposit_pla.Payment.Saga.States.{Fresh}
use vrp_oneclick_deposit_pla.Payment.Initiate.{
  InitiateInput, Reply, returned, refused, not_created, created, owned, begun, initiate_valid,
  initiate, validate_initiate, by_key, give_back,
}
use vrp_oneclick_deposit_pla.Payment.Initiate.Once.{
  Quiet, is_key_call, Reads, call-Reads, not_owned-Reads, begin_read-Lost, key_call_hidden,
}
use vrp_oneclick_deposit_pla.Payment.Initiate.After.{
  Calm, Quiet-Calm, Initiated, calm, run_created-Initiated, by_key-unchanged,
}

-- The row of a new payment: the outbox is as it was, and the payment is the new one with its times.
create_payment-new :
    (server : Server) (now : ℕ) (p : Payment) (s : Session Store)
    → ((create_payment server now p s).1.tables.outbox ≡ s.tables.outbox)
      × ((q : Payment)
          → (create_payment server now p s).0 ≡ ok q
          → q ≡ record p { initiated_at = now; updated_at = now })
unfolding create_payment insert_payment insert_event Postgres.◌>>=◌ pool_statement statement
create_payment-new server now p s = (ground arith, λ q h. ground arith)

module _ (env : Env) (o : List OutboxRow) (cs : List Call) where
  -- Calm actions.
  call-Calm :
      {A : Type 0} (answer : List Call → Result A) (c : Call)
      → is_key_call c ≡ true
      → Triple (Calm o cs) (call answer c) (λ _. Calm o cs) (λ _. Calm o cs)
  call-Calm answer c h = Triple-call answer c λ w r q e.
      Either-same (Calm o cs) r _
        (record { outbox = q.outbox; calls = key_call_hidden w.calls c h ∙ q.calls })

  by_key-Calm :
      (key : String) → Triple (Calm o cs) (by_key env key) (λ _. Calm o cs) (λ _. Calm o cs)
  unfolding fetch
  by_key-Calm key = record {
    at = λ w h. same-Outcome (Calm o cs) _ (record {
      outbox = ap (λ (t : Store). t.outbox) (by_key-unchanged env o cs key w.session) ∙ h.outbox;
      calls = h.calls;
    });
  }

  -- An action after which no saga was run.
  abbrev Rests : Saga Reply → Type 0
  Rests m = Triple (Calm o cs) m (λ r w. Initiated env o cs w r) (λ _. Calm o cs)

  give_back-Initiated : (key message : String) → Rests (give_back env key message)
  give_back-Initiated key message =
      Triple-bind {R = λ _. Calm o cs} _ _
        (Triple-ignore _ (call-Calm env.done_reply (release_key key) refl))
        λ _. Triple-pure _ (λ w q. calm _ q)

  existing-Initiated :
      (key : String) (e : Err) (r : Result Payment)
      → Rests (elim r [
        | ok p ↦ ignore (complete env key p.id) >> pure (returned p)
        | err g ↦ pure (refused e)
      ])
  existing-Initiated key e (ok p) =
      Triple-bind {R = λ _. Calm o cs} _ _
        (Triple-ignore _ (call-Calm env.done_reply (complete_key key p.id) refl))
        λ _. Triple-pure _ (λ w q. calm _ q)
  existing-Initiated key e (err g) = Triple-pure _ (λ w q. calm _ q)

  not_created-Initiated : (key : String) (e : Err) → Rests (not_created env key e)
  unfolding not_created
  not_created-Initiated key e =
      Triple-bind {R = λ _. Calm o cs} _ _
        (Triple-ignore _ (call-Calm env.done_reply (release_key key) refl))
        λ _.
          Triple-if (is_code e duplicate_idempotency) _ _
            (λ _.
              Triple-bind {R = λ _. Calm o cs} _ _ (attempt_same (by_key-Calm key))
                (existing-Initiated key e))
            (λ _. Triple-pure _ (λ w q. calm _ q))

  -- A payment that was just created.
  abbrev New : World → Type 0
  New w = Fresh w.calls o w

  created-Initiated :
      (key : String) (r : Result (Unit {0}))
      → Triple
          (Either (λ _. New) (λ _. Calm o cs) r)
          (created env key r)
          (λ r w. Initiated env o cs w r)
          (λ _. Calm o cs)
  unfolding created
  created-Initiated key (err e) = not_created-Initiated key e
  created-Initiated key (ok _) = record {
    at = λ w h. (run_created-Initiated env o cs w.calls key).at w h;
  }

  inserted-Outcome :
      (w : World) (r : Result Payment × Session Store)
      → Calm o cs w
      → w.payment.reservation_id ≡ none
      → w.payment.bank_payment_ref ≡ ""
      → r.1.tables.outbox ≡ w.session.tables.outbox
      → ((q : Payment)
          → r.0 ≡ ok q
          → (q.reservation_id ≡ w.payment.reservation_id)
            × (q.bank_payment_ref ≡ w.payment.bank_payment_ref))
      → Outcome {A = Unit {0}}
          (λ _. New)
          (λ _. Calm o cs)
          (elim r.0 [
            | ok p ↦ (ok tt, record w { session = r.1; payment = p })
            | err e ↦ (err e, record w { session = r.1 })
          ])
  inserted-Outcome w (ok q, s) h n b same new =
      let (held, paid) = new q refl in
      record {
        unpublished = same ∙ h.outbox;
        unreserved = held ∙ n;
        unpaid = paid ∙ b;
        uncalled = refl;
      }
  inserted-Outcome w (err e, s) h n b same new = record {
    outbox = same ∙ h.outbox;
    calls = h.calls;
  }

  insert-New :
      Triple
        (λ w. Calm o cs w × (w.payment.reservation_id ≡ none) × (w.payment.bank_payment_ref ≡ ""))
        (persist (create_payment env.server) env)
        (λ _. New)
        (λ _. Calm o cs)
  unfolding persist
  insert-New = record {
    at = λ w h.
        let now = env.now w.session.count in
        let (same, new) = create_payment-new env.server now w.payment w.session in
        inserted-Outcome w (create_payment env.server now w.payment w.session) h.0 h.1 h.2 same
          (λ q e. (
            ap (λ (p : Payment). p.reservation_id) (new q e),
            ap (λ (p : Payment). p.bank_payment_ref) (new q e),
          ));
  }

  owned-Initiated : (i : InitiateInput) → Rests (owned env i)
  unfolding owned
  owned-Initiated i =
      Triple-result (env.parse_uuid i.merchant_id) _ _
        (λ e. give_back-Initiated i.idempotency_key "invalid merchant_id")
        λ merchant _.
          Triple-result (env.parse_uuid i.consent_id) _ _
            (λ e. give_back-Initiated i.idempotency_key "invalid consent_id")
            λ consent _.
              Triple-bind {R = λ _. Calm o cs} _ _ (record { at = λ w h. h })
                λ id.
                  Triple-bind
                    {R = λ _ w.
                      Calm o cs w
                      × (w.payment.reservation_id ≡ none)
                      × (w.payment.bank_payment_ref ≡ "")}
                    _ _
                    (record {
                      at = λ w h. (record { outbox = h.outbox; calls = h.calls }, refl, refl);
                    })
                    λ _.
                      Triple-bind _ _ (Triple-attempt _ insert-New)
                        (created-Initiated i.idempotency_key)

module _ (env : Env) (t : Store) (cs : List Call) where
  begin_read-Reads : (r : Result (Option String)) → Reads env t cs (begin_read r)
  begin_read-Reads r = strengthen (λ b w q. q.0) (begin_read-Lost env t cs r)

  claim_or :
      (key : String) (next : Saga Begun)
      → Reads env t cs next
      → Reads env t cs (
          attempt (call env.claim_reply (claim_key key)) >>= λ r.
          if is_claimed r then pure own else next)
  claim_or key next h =
      Triple-bind {R = λ _. Quiet t cs} _ _
        (attempt_same (call-Reads env t cs env.claim_reply (claim_key key) refl))
        λ r. Triple-if (is_claimed r) (pure own) next (λ _. Triple-pure _ (λ w q. q)) (λ _. h)

  read_then :
      (key : String) (next : Result (Option String) → Saga Begun)
      → ((r : Result (Option String)) → Reads env t cs (next r))
      → Reads env t cs (attempt (call env.read_reply (read_key key)) >>= next)
  read_then key next h =
      Triple-bind {R = λ _. Quiet t cs} _ _
        (attempt_same (call-Reads env t cs env.read_reply (read_key key) refl)) h

  begin_missed-Reads :
      (key : String) (r : Result (Option String)) → Reads env t cs (begin_missed env key r)
  unfolding begin_missed begin_again
  begin_missed-Reads key (err e) = begin_read-Reads (err e)
  begin_missed-Reads key (ok none) = claim_or key _ (read_then key _ begin_read-Reads)
  begin_missed-Reads key (ok (some val)) = begin_read-Reads (ok (some val))

  begin-Reads : (key : String) → Reads env t cs (begin env key)
  unfolding begin
  begin-Reads key = claim_or key _ (read_then key _ (begin_missed-Reads key))

  -- From a world that nothing was done in.
  abbrev Starts : Saga Reply → Type 0
  Starts m = Triple (Quiet t cs) m (λ r w. Initiated env t.outbox cs w r) (λ _. Calm t.outbox cs)

  Reads-Starts : (m : Saga Reply) → Reads env t cs m → Starts m
  Reads-Starts m h = record { at = λ w q. reply-Initiated (m w) (h.at w q) }
    where
      reply-Initiated :
          (p : Result Reply × World)
          → Outcome (λ _. Quiet t cs) (λ _. Quiet t cs) p
          → Outcome (λ r w. Initiated env t.outbox cs w r) (λ _. Calm t.outbox cs) p
      reply-Initiated (ok r, w) q = calm r (Quiet-Calm t cs w q)
      reply-Initiated (err e, w) q = Quiet-Calm t cs w q

  begun-Initiated : (i : InitiateInput) (r : Result Begun) → Starts (begun env i r)
  unfolding begun
  begun-Initiated i (err e) = Triple-pure _ (λ w q. calm _ (Quiet-Calm t cs w q))
  begun-Initiated i (ok b) =
      Triple-if b.owned _ _
        (λ _. weaken (λ w q. Quiet-Calm t cs w q) (owned-Initiated env t.outbox cs i))
        (λ _. Reads-Starts _ (not_owned-Reads env t cs i.idempotency_key b.completed))

  initiate_valid-Initiated :
      (i : InitiateInput) (r : Result (Unit {0})) → Starts (initiate_valid env i r)
  unfolding initiate_valid
  initiate_valid-Initiated i (err e) = Triple-pure _ (λ w q. calm _ (Quiet-Calm t cs w q))
  initiate_valid-Initiated i (ok _) =
      Triple-bind {R = λ _. Quiet t cs} _ _ (attempt_same (begin-Reads i.idempotency_key))
        (begun-Initiated i)

  initiate-Starts : (i : InitiateInput) → i.skip_idempotency ≡ false → Starts (initiate env i)
  unfolding initiate
  initiate-Starts i h =
      Triple-if i.skip_idempotency _ _ (λ y. absurd (cc (y, h)))
        (λ _.
          Triple-if (trim_space i.idempotency_key == "") _ _
            (λ _. Triple-pure _ (λ w q. calm _ (Quiet-Calm t cs w q)))
            (λ _. initiate_valid-Initiated i (validate_initiate i)))

-- A call of `Initiate` that is no retry ends in one of these ways: no saga was run, the outbox is as
-- it was and no other service was called but for the idempotency key's; or the reply is an error with
-- a payment, nothing was added to the outbox, and what the payment holds has been asked to be undone;
-- or the payment is settled, and one row was added to the outbox.
pub initiate-Initiated :
    (env : Env) (i : InitiateInput) (w : World)
    → i.skip_idempotency ≡ false
    → Outcome
        (λ r v. Initiated env w.session.tables.outbox (delete_rows is_key_call w.calls) v r)
        (λ _. Calm w.session.tables.outbox (delete_rows is_key_call w.calls))
        (initiate env i w)
initiate-Initiated env i w h =
    (initiate-Starts env w.session.tables (delete_rows is_key_call w.calls) i h).at w
      (record { tables = refl; calls = refl })
