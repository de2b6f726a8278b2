-- ===== src/Payment/World/Laws.antt =====
-- Rules for what holds after an action of a saga (services/payment-svc/internal/saga.go), whether
-- it returns a value or an error.
use vrp_oneclick_deposit_pla.Common.{ℕ, String, List, [], ◌∷◌, ◌++◌, ◌≡◌, refl, sym, ap, subst, ◌∙◌}
use vrp_oneclick_deposit_pla.Domainerr.{Err, Result, ok, err}
use vrp_oneclick_deposit_pla.Domainerr.Triple.{bind-Outcome}
pub use vrp_oneclick_deposit_pla.Domainerr.Triple.{
  Outcome, Triple, Triple-pure, Triple-raise, Either, ignore_outcome, Triple-attempt, Triple-ignore,
  weaken, Triple-option, Triple-result, Triple-if, outcome_ok, outcome_err, Either-same,
}
use vrp_oneclick_deposit_pla.Postgres.{Server, Session}
use vrp_oneclick_deposit_pla.Payment.{Status, Payment, Store}
use vrp_oneclick_deposit_pla.Payment.Repo.{update_and_log}
use vrp_oneclick_deposit_pla.Payment.Repo.Laws.{update_and_log-outbox, update_and_log_inv}
use vrp_oneclick_deposit_pla.Payment.World.{
  Env, World, Saga, Call, attempt, current, call, persist, ◌>>=◌,
}

module _ {A B : Type 0} {P : World → Type 0} {R : A → World → Type 0} {Q : B → World → Type 0}
    {E : Err → World → Type 0} where
  pub Triple-bind :
      (m : Saga A) (f : A → Saga B)
      → Triple P m R E
      → ((a : A) → Triple (R a) (f a) Q E)
      → Triple P (m >>= f) Q E
  unfolding ◌>>=◌
  Triple-bind m f h k = record { at = λ w p. bind-Outcome R Q E f (m w) (h.at w p) k }

call-Outcome :
    {A : Type 0} (Q : A → World → Type 0) (E : Err → World → Type 0) (r : Result A) (w : World)
    → Either Q E r w
    → Outcome Q E (r, w)
call-Outcome Q E (ok a) w k = k
call-Outcome Q E (err e) w k = k

module _ {A : Type 0} {Q : A → World → Type 0} {E : Err → World → Type 0} where
  -- A call only adds itself to the calls.
  pub Triple-call :
      {P : World → Type 0} (answer : List Call → Result A) (c : Call)
      → ((w : World) (r : Result A)
          → P w
          → answer (w.calls ++ c ∷ []) ≡ r
          → Either Q E r (record w { calls = w.calls ++ c ∷ [] }))
      → Triple P (call answer c) Q E
  unfolding call
  Triple-call answer c h = record {
    at = λ w p.
        call-Outcome Q E (answer (w.calls ++ c ∷ [])) (record w { calls = w.calls ++ c ∷ [] })
          (h w (answer (w.calls ++ c ∷ [])) p refl);
  }

module _ {A B : Type 0} {P : World → Type 0} {Q : B → World → Type 0}
    {E : Err → World → Type 0} where
  -- A call about the payment as it is, with both outcomes in hand.
  pub Triple-ask :
      (R : Result A → World → Type 0) (answer : List Call → Result A) (c : Payment → Call)
      (f : Result A → Saga B)
      → ((w : World)
          → P w
          → R
              (answer (w.calls ++ c w.payment ∷ []))
              (record w { calls = w.calls ++ c w.payment ∷ [] }))
      → ((r : Result A) → Triple (R r) (f r) Q E)
      → Triple P (current >>= λ p. attempt (call answer (c p)) >>= f) Q E
  unfolding call
  Triple-ask R answer c f h k =
      Triple-bind {R = λ p w. (p ≡ w.payment) × P w} _ _ (record { at = λ w p. (refl, p) })
        λ p.
          Triple-bind {R = R} _ _
            (record {
              at = λ w (e, q).
                  subst
                    (λ p.
                      R (answer (w.calls ++ c p ∷ [])) (record w { calls = w.calls ++ c p ∷ [] }))
                    (sym e) (h w q);
            })
            k

module _ (server : Server) (now : ℕ) (context : String) (to : Status) (reason : String)
    (change : ℕ → Payment → Payment) where
  persist-Outcome :
      (Q : Unit {0} → World → Type 0) (E : Err → World → Type 0) (w : World)
      (r : Result Payment × Session Store)
      → ((s : Session Store)
          → s.tables.outbox ≡ w.session.tables.outbox
          → Q tt (record w { session = s; payment = change now w.payment }))
      → ((e : Err) (s : Session Store)
          → s.tables.outbox ≡ w.session.tables.outbox
          → E e (record w { session = s }))
      → update_and_log server now context to reason (change now) w.payment w.session ≡ r
      → Outcome Q E (elim r.0 [
        | ok p ↦ (ok tt, record w { session = r.1; payment = p })
        | err e ↦ (err e, record w { session = r.1 })
      ])
  persist-Outcome Q E w (ok p, s) good bad h =
      subst (λ p. Q tt (record w { session = s; payment = p }))
        (sym (update_and_log_inv server now context to reason (change now) w.payment w.session h))
        (good s (
          ap (λ (x : Result Payment × Session Store). x.1.tables.outbox) (sym h)
          ∙ update_and_log-outbox server now context to reason (change now) w.payment w.session))
  persist-Outcome Q E w (err e, s) good bad h = bad e s (
      ap (λ (x : Result Payment × Session Store). x.1.tables.outbox) (sym h)
      ∙ update_and_log-outbox server now context to reason (change now) w.payment w.session)

module _ (env : Env) (context : String) (to : Status) (reason : String)
    (change : ℕ → Payment → Payment) where
  -- An update of the payment leaves the outbox and the calls, and changes the payment in memory
  -- if it succeeds.
  pub Triple-persist :
      {P : World → Type 0} {Q : Unit {0} → World → Type 0} {E : Err → World → Type 0}
      → ((w : World) (now : ℕ) (s : Session Store)
          → P w
          → s.tables.outbox ≡ w.session.tables.outbox
          → Q tt (record w { session = s; payment = change now w.payment }))
      → ((w : World) (e : Err) (s : Session Store)
          → P w
          → s.tables.outbox ≡ w.session.tables.outbox
          → E e (record w { session = s }))
      → Triple P
          (persist (λ now. update_and_log env.server now context to reason (change now)) env)
          Q
          E
  unfolding persist
  Triple-persist good bad = record {
    at = λ w p.
        let now = env.now w.session.count in
        persist-Outcome env.server now context to reason change _ _ w
          (update_and_log env.server now context to reason (change now) w.payment w.session)
          (λ s. good w now s p) (λ e s. bad w e s p) refl;
  }
