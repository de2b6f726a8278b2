-- ===== src/Ledger/Store/Retries.antt =====
-- `withSerializable` of services/ledger-svc/internal/store.go: how often a transaction is run.
use vrp_oneclick_deposit_pla.Common.{
  subst, ℕ, zero, suc, ◌≤◌, arith, true, false, ◌≡◌, refl, ◌∙◌, sym, inl, inr, ap, Bool-cases,
  if◌then◌else◌,
}
use vrp_oneclick_deposit_pla.Domainerr.{Err, Result, ok, err, wrapped, conflict}
use vrp_oneclick_deposit_pla.Postgres.{Server, Session, Query}
use vrp_oneclick_deposit_pla.Postgres.Laws.{begin_func-atomic}
use vrp_oneclick_deposit_pla.Ledger.Journal.{Journal}
use vrp_oneclick_deposit_pla.Ledger.Statements.{with_deferred_check}
use vrp_oneclick_deposit_pla.Ledger.Posting.{is_serialization_failure}
use vrp_oneclick_deposit_pla.Ledger.Store.{run_once, attempts, with_serializable}

module _ {A : Type 0} (server : Server) (body : Query Journal A) where
  -- From one session to another by transactions that could not be serialized.
  pub data Failed : ℕ → Session Journal → Session Journal → Type 0 where
    none_failed : (s : Session Journal) → Failed 0 s s
    one_failed :
        (n : ℕ) (s t u : Session Journal) (e : Err)
        → run_once server body s ≡ (err e, t)
        → is_serialization_failure e ≡ true
        → Failed n t u
        → Failed (suc n) s u

  -- The result of the last transaction, or that the attempts are exhausted.
  pub data Last (retries : ℕ) (n : ℕ) (u : Session Journal)
      : Result A × Session Journal → Type 0 where
    done :
        (a : A) (t : Session Journal)
        → run_once server body u ≡ (ok a, t)
        → Last retries n u (ok a, t)
    refused :
        (e : Err) (t : Session Journal)
        → run_once server body u ≡ (err e, t)
        → is_serialization_failure e ≡ false
        → Last retries n u (err e, t)
    exhausted :
        (e : Err) (t : Session Journal)
        → run_once server body u ≡ (err e, t)
        → is_serialization_failure e ≡ true
        → n ≡ retries
        → Last retries n u
            (err (wrapped conflict "serializable transaction retries exhausted" e), t)

  -- A run of the loop.
  pub record Run (retries : ℕ) (s : Session Journal) (p : Result A × Session Journal) : Type 0 where
    pub failures : ℕ
    pub before_last : Session Journal
    pub failed : Failed failures s before_last
    pub few : failures ≤ retries
    pub unchanged : before_last.tables ≡ s.tables
    pub last : Last retries failures before_last p

  Run-suc :
      (n : ℕ) (s t : Session Journal) (e : Err) (p : Result A × Session Journal)
      → run_once server body s ≡ (err e, t)
      → is_serialization_failure e ≡ true
      → Run n t p
      → Run (suc n) s p
  Run-suc n s t e p h f r = record {
    failures = suc r.failures;
    before_last = r.before_last;
    failed = one_failed r.failures s t r.before_last e h f r.failed;
    few = (let x = r.few in omega arith);
    unchanged =
        r.unchanged
        ∙ (let same = begin_func-atomic server (with_deferred_check body) s e (cc (h)) in
            cc (h, same));
    last = Last-suc n r.failures r.before_last p r.last;
  }
    where
      Last-suc :
          (n k : ℕ) (u : Session Journal) (p : Result A × Session Journal)
          → Last n k u p
          → Last (suc n) (suc k) u p
      Last-suc n k u _ (done a t h) = done a t h
      Last-suc n k u _ (refused e t h f) = refused e t h f
      Last-suc n k u _ (exhausted e t h f g) = exhausted e t h f (ap suc g)

  at_once :
      (n : ℕ) (s : Session Journal) (p : Result A × Session Journal) → Last n 0 s p → Run n s p
  at_once n s p l = record {
    failures = 0;
    before_last = s;
    failed = none_failed s;
    few = omega arith;
    unchanged = refl;
    last = l;
  }

  final_run :
      (s : Session Journal) (p : Result A × Session Journal)
      → run_once server body s ≡ p
      → Last 0 0 s (elim p.0 [
        | ok a ↦ (ok a, p.1)
        | err e ↦ (
          err (
              if is_serialization_failure e
              then wrapped conflict "serializable transaction retries exhausted" e
              else e),
          p.1,
        )
      ])
  final_run s (ok a, t) h = done a t h
  final_run s (err e, t) h = elim (Bool-cases (is_serialization_failure e)) [
    | inl y ↦ rw y (exhausted e t h y refl)
    | inr n ↦ rw n (refused e t h n)
  ]

  next-Run :
      (n : ℕ) (s : Session Journal) (p : Result A × Session Journal)
      → ((t : Session Journal) → Run n t (attempts server n body t))
      → run_once server body s ≡ p
      → Run (suc n) s (elim p.0 [
        | ok a ↦ (ok a, p.1)
        | err e ↦ elim (is_serialization_failure e) [
          | true ↦ attempts server n body p.1
          | false ↦ (err e, p.1)
        ]
      ])
  next-Run n s (ok a, t) k h = at_once (suc n) s _ (done a t h)
  next-Run n s (err e, t) k h = elim (Bool-cases (is_serialization_failure e)) [
    | inl y ↦ rw y (Run-suc n s t e _ h y (k t))
    | inr x ↦ rw x (at_once (suc n) s _ (refused e t h x))
  ]

  attempts-Run : (n : ℕ) (s : Session Journal) → Run n s (attempts server n body s)
  unfolding attempts
  attempts-Run zero s = at_once 0 s _ (final_run s (run_once server body s) refl)
  attempts-Run (suc n) s = next-Run n s (run_once server body s) (attempts-Run n) refl

  -- A call runs its transaction at most five times: those before the last could not be serialized and
  -- left the tables as they were, and the result is that of the last, or a conflict where the
  -- fifth could not be serialized either.
  pub with_serializable-Run : (s : Session Journal) → Run 4 s (with_serializable server body s)
  unfolding with_serializable
  with_serializable-Run s = attempts-Run 4 s

  -- What every transaction keeps is kept by the loop.
  pub keeps :
      (I : Journal → Type 0) (n : ℕ) (s : Session Journal) (p : Result A × Session Journal)
      → ((u : Session Journal) → I u.tables → I (run_once server body u).1.tables)
      → I s.tables
      → Run n s p
      → I p.1.tables
  keeps I n s p k i r = last_keeps r.failures r.before_last p (subst I (sym r.unchanged) i) r.last
    where
      last_keeps :
          (m : ℕ) (u : Session Journal) (p : Result A × Session Journal)
          → I u.tables
          → Last n m u p
          → I p.1.tables
      last_keeps m u _ i (done a t h) =
          subst (λ (q : Result A × Session Journal). I q.1.tables) h (k u i)
      last_keeps m u _ i (refused e t h f) =
          subst (λ (q : Result A × Session Journal). I q.1.tables) h (k u i)
      last_keeps m u _ i (exhausted e t h f g) =
          subst (λ (q : Result A × Session Journal). I q.1.tables) h (k u i)
