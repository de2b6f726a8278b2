-- ===== src/Payment/Initiate.antt =====
-- services/payment-svc/internal/saga.go: `Initiate`, by which a payment is created once for its
-- idempotency key, or a failed payment is tried again.
pub mod After
pub mod Once
pub mod Whole
use vrp_oneclick_deposit_pla.Common.{
  ℕ, Bool, true, false, not, String, ◌==◌, Option, none, some, if◌then◌else◌, ℤ, pos, leb_ℤ,
  trim_space, to_upper, byte_len, eqb,
}
use vrp_oneclick_deposit_pla.Domainerr.{
  Code, validation, conflict, duplicate_idempotency, Err, domain, wrapped, Result, ok, err,
  reject_if, is_code,
}
use vrp_oneclick_deposit_pla.Domainerr
use vrp_oneclick_deposit_pla.Payment.{Payment, initiated}
use vrp_oneclick_deposit_pla.Payment.Repo.{
  create_payment, get_by_id, get_by_idempotency_key, reset_for_retry,
}
use vrp_oneclick_deposit_pla.Payment.World.{
  Env, World, Saga, pure, attempt, ignore, current, persist, fetch, set_payment, ◌>>=◌, ◌>>◌,
}
use vrp_oneclick_deposit_pla.Payment.Idempotency.{
  Begun, begin, complete, release_claim, wait_for_completion,
}
use vrp_oneclick_deposit_pla.Payment.Saga.{run_saga}

-- `InitiateInput`; a retry is an existing payment, with `SkipIdempotency` set.
pub record InitiateInput : Type 0 where
  pub idempotency_key : String
  pub merchant_id : String
  pub consent_id : String
  pub amount_pence : ℤ
  pub currency : String
  pub description : String
  pub skip_idempotency : Bool
  pub existing : Option Payment

-- What `Initiate` returns: a payment, a payment with an error, or an error alone.
pub data Reply : Type 0 where
  returned : Payment → Reply
  returned_with : Payment → Err → Reply
  refused : Err → Reply

abbrev pub reply_of : Result Payment → Reply
reply_of (ok p) = returned p
reply_of (err e) = refused e

-- `idempotencyWait` in polls of 100 ms.
abbrev pub idempotency_polls : ℕ
idempotency_polls = 50

unfoldable pub validate_initiate : InitiateInput → Result (Unit {0})
validate_initiate i =
    Domainerr.◌>>◌
      (reject_if (trim_space i.merchant_id == "") (domain validation "merchant_id is required"))
      (Domainerr.◌>>◌
        (reject_if (trim_space i.consent_id == "") (domain validation "consent_id is required"))
        (Domainerr.◌>>◌
          (reject_if (leb_ℤ i.amount_pence (pos 0)) (domain validation "amount must be positive"))
          (reject_if (not (eqb (byte_len (to_upper (trim_space i.currency))) 3))
            (domain validation "currency must be 3-letter ISO code"))))

module _ (env : Env) where
  abbrev pub by_id : String → Saga Payment
  by_id id = fetch (λ s. get_by_id env.server (env.now s.count) id s)

  abbrev pub by_key : String → Saga Payment
  by_key key = fetch (λ s. get_by_idempotency_key env.server (env.now s.count) key s)

  -- What `Initiate` returns after the saga of a payment: the payment's row if it can be read, and the
  -- payment in memory otherwise.
  unfoldable pub after_saga : Result (Unit {0}) → Result Payment → Payment → Reply
  after_saga (ok _) (ok fresh) p = returned fresh
  after_saga (err e) (ok fresh) p = returned_with fresh e
  after_saga (err e) (err g) p = returned_with p e
  after_saga (ok _) (err g) p = returned_with p g

  -- The same of a retry, where an error of the last look-up is returned without a payment.
  unfoldable pub after_retry : Result (Unit {0}) → Result Payment → Payment → Reply
  after_retry (ok _) r p = reply_of r
  after_retry (err e) (ok fresh) p = returned_with fresh e
  after_retry (err e) (err g) p = returned_with p e

  unfoldable pub retry_reset : Result (Unit {0}) → Saga Reply
  unfolding after_retry
  retry_reset (err e) = pure (refused e)
  retry_reset (ok _) = do
    s ← attempt (run_saga env)
    p ← current
    g ← attempt (by_id p.id)
    pure (after_retry s g p)

  unfoldable pub retry_existing : Option Payment → Saga Reply
  unfolding retry_reset
  retry_existing none = pure (refused (domain Code.internal "retry requires existing payment"))
  retry_existing (some p) = do
    set_payment p
    r ← attempt (persist (λ now. reset_for_retry env.server now) env)
    retry_reset r

  abbrev pub look_up : String → Saga Reply
  look_up id = do r ← attempt (by_id id); pure (reply_of r)

  abbrev pub look_up_key : String → Saga (Result Payment)
  look_up_key key = attempt (by_key key)

  -- The last resort of a caller that has waited.
  unfoldable pub still_processing : String → Saga Reply
  still_processing key = do
    r ← look_up_key key
    elim r [
      | ok p ↦ pure (returned p)
      | err e ↦ pure (refused (domain conflict "payment still processing"))
    ]

  unfoldable pub waited : String → Result (Option String) → Saga Reply
  unfolding still_processing
  waited key (err e) = pure (refused (wrapped Code.internal "idempotency wait" e))
  waited key (ok none) = still_processing key
  waited key (ok (some val)) =
      if val == ""
      then still_processing key
      else elim (env.parse_uuid val) [ ok id ↦ look_up id | err e ↦ still_processing key ]

  -- Another call has the key.
  unfoldable pub not_owned : String → String → Saga Reply
  unfolding waited
  not_owned key completed =
      if completed == ""
      then (attempt (wait_for_completion env key idempotency_polls) >>= waited key)
      else elim (env.parse_uuid completed) [
        | ok id ↦ look_up id
        | err e ↦ look_up_key key >>= λ r. pure (reply_of r)
      ]

  -- The saga of the payment that was created, and the completion of its key.
  unfoldable pub run_created : String → Saga Reply
  unfolding after_saga
  run_created key = do
    s ← attempt (run_saga env)
    p ← current
    ignore (complete env key p.id)
    g ← attempt (by_id p.id)
    pure (after_saga s g p)

  -- The key is released; a payment that another writer has created in the meantime is returned.
  unfoldable pub not_created : String → Err → Saga Reply
  not_created key e = do
    ignore (release_claim env key)
    if is_code e duplicate_idempotency
        then (do
          r ← look_up_key key
          elim r [
            | ok p ↦ ignore (complete env key p.id) >> pure (returned p)
            | err g ↦ pure (refused e)
          ])
        else pure (refused e)

  unfoldable pub created : String → Result (Unit {0}) → Saga Reply
  unfolding run_created not_created
  created key (err e) = not_created key e
  created key (ok _) = run_created key

  abbrev pub new_payment : InitiateInput → String → String → String → Payment
  new_payment i id merchant consent = record {
    id = id;
    idempotency_key = i.idempotency_key;
    merchant_id = merchant;
    consent_id = consent;
    consumer_id = "";
    amount_pence = i.amount_pence;
    currency = to_upper (trim_space i.currency);
    status = initiated;
    bank_payment_ref = "";
    reservation_id = none;
    risk_score = none;
    risk_decision = "";
    failure_reason = "";
    description = i.description;
    initiated_at = 0;
    settled_at = none;
    updated_at = 0;
  }

  abbrev pub give_back : String → String → Saga Reply
  give_back key message =
      ignore (release_claim env key) >> pure (refused (domain validation message))

  abbrev pub new_id : Saga String
  new_id w = (ok (env.new_id w.calls), w)

  -- This call has the key.
  unfoldable pub owned : InitiateInput → Saga Reply
  unfolding created
  owned i = elim (env.parse_uuid i.merchant_id) [
    | err e ↦ give_back i.idempotency_key "invalid merchant_id"
    | ok merchant ↦ elim (env.parse_uuid i.consent_id) [
      | err e ↦ give_back i.idempotency_key "invalid consent_id"
      | ok consent ↦ (do
        id ← new_id
        set_payment (new_payment i id merchant consent)
        r ← attempt (persist (create_payment env.server) env)
        created i.idempotency_key r)
    ]
  ]

  unfoldable pub begun : InitiateInput → Result Begun → Saga Reply
  unfolding not_owned owned
  begun i (err e) = pure (refused (wrapped Code.internal "idempotency begin" e))
  begun i (ok b) = if b.owned then owned i else not_owned i.idempotency_key b.completed

  unfoldable pub initiate_valid : InitiateInput → Result (Unit {0}) → Saga Reply
  unfolding begun
  initiate_valid i (err e) = pure (refused e)
  initiate_valid i (ok _) = do b ← attempt (begin env i.idempotency_key); begun i b

  unfoldable pub initiate : InitiateInput → Saga Reply
  unfolding retry_existing initiate_valid validate_initiate
  initiate i =
      if i.skip_idempotency
      then retry_existing i.existing
      else if trim_space i.idempotency_key == ""
      then pure (refused (domain validation "idempotency_key is required"))
      else initiate_valid i (validate_initiate i)
