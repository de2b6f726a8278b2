-- ===== src/Payment/Initiate/Once.antt =====
-- `Initiate` of services/payment-svc/internal/saga.go acts only for the owner of the idempotency key.
use vrp_oneclick_deposit_pla.Common.{
  ℕ, zero, suc, Bool, true, false, String, ◌==◌, Option, none, some, List, [], ◌∷◌, ◌++◌, ◌≡◌, refl,
  ◌∙◌, arith, if◌then◌else◌, delete_rows, trim_space,
}
use vrp_oneclick_deposit_pla.Domainerr.{Err, Result, ok, err}
use vrp_oneclick_deposit_pla.Postgres.{Session, pool_statement, statement}
use vrp_oneclick_deposit_pla.Payment.{Store}
use vrp_oneclick_deposit_pla.Payment.Repo.{get_by_id, get_by_idempotency_key}
use vrp_oneclick_deposit_pla.Payment.World.{
  Env, World, Saga, Call, claim_key, read_key, complete_key, release_key, pure, attempt, call,
  fetch,
}
use vrp_oneclick_deposit_pla.Payment.World.Laws.{
  Outcome, Triple, Triple-bind, Triple-call, Triple-pure, Triple-raise, Triple-if, Triple-result,
  Either-same,
}
use vrp_oneclick_deposit_pla.Domainerr.Triple.{
  attempt_same, same-Outcome, ignore_outcome, Either, Triple-attempt,
}
use vrp_oneclick_deposit_pla.Payment.Idempotency.{
  Begun, own, is_claimed, begin_read, begin_again, begin_missed, begin, wait_read,
  wait_for_completion, status_processing,
}
use vrp_oneclick_deposit_pla.Payment.Initiate.{
  InitiateInput, by_id, by_key, still_processing, waited, not_owned, begun, initiate_valid,
  initiate, look_up, validate_initiate,
}

-- The commands on the keys.
abbrev pub is_key_call : Call → Bool
is_key_call (claim_key k) = true
is_key_call (read_key k) = true
is_key_call (release_key k) = true
is_key_call (complete_key k v) = true
is_key_call _ = false

-- The tables are `t`, and the calls of other services are `cs`.
pub record Quiet (t : Store) (cs : List Call) (w : World) : Type 0 where
  pub tables : w.session.tables ≡ t
  pub calls : delete_rows is_key_call w.calls ≡ cs

pub key_call_hidden :
    (cs : List Call) (c : Call)
    → is_key_call c ≡ true
    → delete_rows is_key_call (cs ++ c ∷ []) ≡ delete_rows is_key_call cs
unfolding delete_rows
key_call_hidden [] c h = rw h refl
key_call_hidden (d ∷ ds) c h = rw (key_call_hidden ds c h) refl

module _ (env : Env) (t : Store) (cs : List Call) where
  -- An action that reads only.
  abbrev pub Reads : {A : Type 0} → Saga A → Type 0
  Reads m = Triple (Quiet t cs) m (λ _. Quiet t cs) (λ _. Quiet t cs)

  pub call-Reads :
      {A : Type 0} (answer : List Call → Result A) (c : Call)
      → is_key_call c ≡ true
      → Reads (call answer c)
  call-Reads answer c h = Triple-call answer c λ w r q e.
      Either-same (Quiet t cs) r _
        (record { tables = q.tables; calls = key_call_hidden w.calls c h ∙ q.calls })

  pub fetch-Reads :
      {A : Type 0} (q : Session Store → Result A × Session Store)
      → ((s : Session Store) → (q s).1.tables ≡ s.tables)
      → Reads (fetch q)
  unfolding fetch
  fetch-Reads q h = record {
    at = λ w k.
        same-Outcome (Quiet t cs) _ (record { tables = h w.session ∙ k.tables; calls = k.calls });
  }

  pub by_id-Reads : (id : String) → Reads (by_id env id)
  unfolding get_by_id pool_statement statement
  by_id-Reads id = fetch-Reads _ λ s. ground arith

  pub by_key-Reads : (key : String) → Reads (by_key env key)
  unfolding get_by_idempotency_key pool_statement statement
  by_key-Reads key = fetch-Reads _ λ s. ground arith

  look_up-Reads : (id : String) → Reads (look_up env id)
  look_up-Reads id =
      Triple-bind {R = λ _. Quiet t cs} _ _ (attempt_same (by_id-Reads id))
        λ r. Triple-pure _ (λ w q. q)

  wait_read-Reads :
      (key : String) (rest : Saga (Option String)) (r : Result (Option String))
      → Reads rest
      → Reads (wait_read env key rest r)
  unfolding wait_read
  wait_read-Reads key rest (err e) h = Triple-raise e (λ w q. q)
  wait_read-Reads key rest (ok none) h = Triple-pure _ (λ w q. q)
  wait_read-Reads key rest (ok (some v)) h =
      Triple-if (v == status_processing)
        (λ w. elim (env.cancelled w.calls) [ some e ↦ (err e, w) | none ↦ rest w ]) (pure (some v))
        (λ _. record { at = λ w q. go w (env.cancelled w.calls) q }) (λ _. Triple-pure _ (λ w q. q))
    where
      go :
          (w : World) (d : Option Err)
          → Quiet t cs w
          → Outcome {A = Option String}
              (λ _. Quiet t cs)
              (λ _. Quiet t cs)
              (elim d [ some e ↦ (err e, w) | none ↦ rest w ])
      go w none q = h.at w q
      go w (some e) q = q

  wait_for_completion-Reads : (key : String) (n : ℕ) → Reads (wait_for_completion env key n)
  unfolding wait_for_completion
  wait_for_completion-Reads key zero = Triple-pure _ (λ w q. q)
  wait_for_completion-Reads key (suc n) = timed _ (
      Triple-bind {R = λ _. Quiet t cs} _ _
        (attempt_same (call-Reads env.read_reply (read_key key) refl))
        λ r.
          wait_read-Reads key (wait_for_completion env key n) r (wait_for_completion-Reads key n))
    where
      timed :
          (m : Saga (Option String))
          → Reads m
          → Reads (λ w. if env.in_time w.calls then m w else (ok none, w))
      timed m h = record { at = λ w q. go w (env.in_time w.calls) q }
        where
          go :
              (w : World) (b : Bool)
              → Quiet t cs w
              → Outcome (λ _. Quiet t cs) (λ _. Quiet t cs) (if b then m w else (ok none, w))
          go w true q = h.at w q
          go w false q = q

  still_processing-Reads : (key : String) → Reads (still_processing env key)
  unfolding still_processing
  still_processing-Reads key =
      Triple-bind {R = λ _. Quiet t cs} _ _ (attempt_same (by_key-Reads key))
        λ r. Triple-result r _ _ (λ e. Triple-pure _ (λ w q. q)) (λ p _. Triple-pure _ (λ w q. q))

  waited-Reads : (key : String) (r : Result (Option String)) → Reads (waited env key r)
  unfolding waited
  waited-Reads key (err e) = Triple-pure _ (λ w q. q)
  waited-Reads key (ok none) = still_processing-Reads key
  waited-Reads key (ok (some val)) =
      Triple-if (val == "") _ _ (λ _. still_processing-Reads key)
        (λ _.
          Triple-result (env.parse_uuid val) _ _ (λ e. still_processing-Reads key)
            (λ id _. look_up-Reads id))

  pub not_owned-Reads : (key completed : String) → Reads (not_owned env key completed)
  unfolding not_owned
  not_owned-Reads key completed =
      Triple-if (completed == "") _ _
        (λ _.
          Triple-bind {R = λ _. Quiet t cs} _ _ (attempt_same (wait_for_completion-Reads key 50))
            (waited-Reads key))
        (λ _.
          Triple-result (env.parse_uuid completed) _ _
            (λ e.
              Triple-bind {R = λ _. Quiet t cs} _ _ (attempt_same (by_key-Reads key))
                λ r. Triple-pure _ (λ w q. q))
            (λ id _. look_up-Reads id))

  -- The key was not given to this call.
  abbrev Lost : Saga Begun → Type 0
  Lost m = Triple (Quiet t cs) m (λ b w. Quiet t cs w × (b.owned ≡ false)) (λ _. Quiet t cs)

  pub begin_read-Lost : (r : Result (Option String)) → Lost (begin_read r)
  unfolding begin_read
  begin_read-Lost (err e) = Triple-raise _ (λ w q. q)
  begin_read-Lost (ok none) = Triple-raise _ (λ w q. q)
  begin_read-Lost (ok (some val)) =
      Triple-if (val == status_processing) _ _ (λ _. Triple-pure _ (λ w q. (q, refl)))
        (λ _. Triple-pure _ (λ w q. (q, refl)))

  module _ (unclaimed : (ds : List Call) → is_claimed (env.claim_reply ds) ≡ false) where
    claim-Lost :
        (key : String)
        → Triple
            (Quiet t cs)
            (attempt (call env.claim_reply (claim_key key)))
            (λ r w. Quiet t cs w × (is_claimed r ≡ false))
            (λ _. Quiet t cs)
    unfolding call
    claim-Lost key = record {
      at = λ w q. (
        record {
          tables = q.tables;
          calls = key_call_hidden w.calls (claim_key key) refl ∙ q.calls;
        },
        unclaimed (w.calls ++ claim_key key ∷ []),
      );
    }

    unclaimed-Lost :
        (key : String) (r : Result Bool) (next : Saga Begun)
        → Lost next
        → Triple
            (λ w. Quiet t cs w × (is_claimed r ≡ false))
            (if is_claimed r then pure own else next)
            (λ b w. Quiet t cs w × (b.owned ≡ false))
            (λ _. Quiet t cs)
    unclaimed-Lost key r next h =
        Triple-if (is_claimed r) (pure own) next (λ y. record { at = λ w q. absurd (cc (y, q.1)) })
          (λ _. record { at = λ w q. h.at w q.0 })

    begin_again-Lost : (key : String) → Lost (begin_again env key)
    unfolding begin_again
    begin_again-Lost key = Triple-bind _ _ (claim-Lost key) λ r. unclaimed-Lost key r _ (
        Triple-bind {R = λ _. Quiet t cs} _ _
          (attempt_same (call-Reads env.read_reply (read_key key) refl)) begin_read-Lost)

    begin_missed-Lost : (key : String) (r : Result (Option String)) → Lost (begin_missed env key r)
    unfolding begin_missed
    begin_missed-Lost key (err e) = begin_read-Lost (err e)
    begin_missed-Lost key (ok none) = begin_again-Lost key
    begin_missed-Lost key (ok (some val)) = begin_read-Lost (ok (some val))

    begin-Lost : (key : String) → Lost (begin env key)
    unfolding begin
    begin-Lost key = Triple-bind _ _ (claim-Lost key) λ r. unclaimed-Lost key r _ (
        Triple-bind {R = λ _. Quiet t cs} _ _
          (attempt_same (call-Reads env.read_reply (read_key key) refl)) (begin_missed-Lost key))

    begun-Reads :
        (i : InitiateInput) (r : Result Begun)
        → Triple
            (Either (λ b w. Quiet t cs w × (b.owned ≡ false)) (λ _. Quiet t cs) r)
            (begun env i r)
            (λ _. Quiet t cs)
            (λ _. Quiet t cs)
    unfolding begun
    begun-Reads i (err e) = Triple-pure _ (λ w q. q)
    begun-Reads i (ok b) =
        Triple-if b.owned _ _ (λ y. record { at = λ w q. absurd (cc (y, q.1)) })
          (λ _. record { at = λ w q. (not_owned-Reads i.idempotency_key b.completed).at w q.0 })

    initiate_valid-Reads :
        (i : InitiateInput) (r : Result (Unit {0})) → Reads (initiate_valid env i r)
    unfolding initiate_valid
    initiate_valid-Reads i (err e) = Triple-pure _ (λ w q. q)
    initiate_valid-Reads i (ok _) =
        Triple-bind _ _ (Triple-attempt _ (begin-Lost i.idempotency_key)) (begun-Reads i)

    initiate-Reads : (i : InitiateInput) → i.skip_idempotency ≡ false → Reads (initiate env i)
    unfolding initiate
    initiate-Reads i h =
        Triple-if i.skip_idempotency _ _ (λ y. absurd (cc (y, h)))
          (λ _.
            Triple-if (trim_space i.idempotency_key == "") _ _ (λ _. Triple-pure _ (λ w q. q))
              (λ _. initiate_valid-Reads i (validate_initiate i)))

-- A call of `Initiate` that Redis does not give the key, and that is no retry, changes no table and
-- calls no other service.
pub initiate-unclaimed :
    (env : Env) (i : InitiateInput) (w : World)
    → ((cs : List Call) → is_claimed (env.claim_reply cs) ≡ false)
    → i.skip_idempotency ≡ false
    → Quiet w.session.tables (delete_rows is_key_call w.calls) (initiate env i w).1
initiate-unclaimed env i w unclaimed h =
    let t = w.session.tables in
    let cs = delete_rows is_key_call w.calls in
    ignore_outcome (Quiet t cs) (initiate env i w)
      ((initiate-Reads env t cs unclaimed i h).at w (record { tables = refl; calls = refl }))
