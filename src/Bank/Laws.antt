-- ===== src/Bank/Laws.antt =====
-- `doWithResilience` of services/bank-adapter/internal/adapter.go: how often the bank is asked, and
-- what becomes of its answers. What is relied on of retry-go and of gobreaker is stated here.
use vrp_oneclick_deposit_pla.Common.{
  ℕ, suc, ◌≤◌, ◌+◌, arith, Bool, true, false, String, Option, none, some, ◌≡◌, refl, sym, ap, subst,
  ◌∙◌,
}
use vrp_oneclick_deposit_pla.Domainerr.{Err, domain, Result, bank_unavailable}
use vrp_oneclick_deposit_pla.Bank.{
  Failure, Http, Wire, Resilience, Guarded, rejected, passed, normalize_err, is_transient,
  attempt_http, retried, guarded, do_with_resilience, attempts,
}

module _ {A : Type 0} (f : Wire A → Option Failure × Wire A) where
  -- What `retry.Do` promises for a function: it is called until it succeeds, until its error is not to
  -- be retried, or until the attempts are spent, unless the context ends before an attempt.
  pub data Retried (test : Failure → Bool) : ℕ → Wire A → Option Failure × Wire A → Type 0 where
    stopped : (n : ℕ) (w : Wire A) (e : Failure) → Retried test n w (some e, w)
    succeeded : (n : ℕ) (w v : Wire A) → f w ≡ (none, v) → Retried test (suc n) w (none, v)
    refused :
        (n : ℕ) (w v : Wire A) (e : Failure)
        → f w ≡ (some e, v)
        → test e ≡ false
        → Retried test (suc n) w (some e, v)
    spent : (w v : Wire A) (e : Failure) → f w ≡ (some e, v) → Retried test 1 w (some e, v)
    again :
        (n : ℕ) (w v : Wire A) (e : Failure) (p : Option Failure × Wire A)
        → f w ≡ (some e, v)
        → test e ≡ true
        → Retried test n v p
        → Retried test (suc n) w p

-- What `Execute` promises: the function is not called, or its result is returned.
pub data Executed {A : Type 0} (f : Wire A → Option Err × Wire A) (w : Wire A)
    : Guarded × Wire A → Type 0 where
  open_circuit : Executed f w (rejected, w)
  ran : Executed f w (passed (f w).0, (f w).1)

pub record Reliable {A : Type 0} (r : Resilience A) : Type 0 where
  pub retries :
      (n : ℕ) (test : Failure → Bool) (f : Wire A → Option Failure × Wire A) (w : Wire A)
      → Retried f test (suc n) w (r.retry_do (suc n) test f w)
  pub executes : (f : Wire A → Option Err × Wire A) (w : Wire A) → Executed f w (r.execute f w)

-- The error of the last attempt, as the caller gets it.
abbrev pub normalized : Option Failure → Option Err
normalized none = none
normalized (some e) = some (normalize_err e)

module _ {A : Type 0} (http : Http A) (method path : String) (body : Option (Result String)) where
  abbrev try_it : Wire A → Option Failure × Wire A
  try_it = attempt_http http method path body

  -- Attempts that failed with an error that is tried again.
  pub data Failed : ℕ → Wire A → Wire A → Type 0 where
    none_failed : (w : Wire A) → Failed 0 w w
    one_failed :
        (k : ℕ) (s u v : Wire A) (e : Failure)
        → Failed k s u
        → try_it u ≡ (some e, v)
        → is_transient e ≡ true
        → Failed (suc k) s v

  -- An exchange with the bank.
  pub data Exchanged (w : Wire A) : Option Err × Wire A → Type 0 where
    broken : Exchanged w (some (domain bank_unavailable "bank circuit breaker open"), w)
    unsent : (e : Failure) → Exchanged w (some (normalize_err e), record w { last = none })
    exchanged :
        (k : ℕ) (u v : Wire A) (e : Option Failure)
        → Failed k (record w { last = none }) u
        → suc k ≤ attempts http
        → try_it u ≡ (e, v)
        → Exchanged w (normalized e, v)

  attempt-last : (u v : Wire A) (e : Option Failure) → try_it u ≡ (e, v) → v.last ≡ e
  unfolding attempt_http
  attempt-last u v e h =
      sym (ap (λ (p : Option Failure × Wire A). p.1.last) h)
      ∙ ap (λ (p : Option Failure × Wire A). p.0) h

  retried-last :
      (e l : Failure) (v : Wire A)
      → v.last ≡ some l
      → retried http (some e, v) ≡ (some (normalize_err l), v)
  unfolding retried
  retried-last e l v h = simp (h)

  -- After an attempt that was to be tried again.
  later-Exchanged :
      (w : Wire A) (n k : ℕ) (t u : Wire A) (l : Failure) (p : Option Failure × Wire A)
      → Failed k (record w { last = none }) t
      → try_it t ≡ (some l, u)
      → is_transient l ≡ true
      → suc (k + n) ≤ attempts http
      → Retried try_it is_transient n u p
      → Exchanged w (retried http p)
  unfolding retried
  later-Exchanged w _ k t _ l _ d h y b (stopped n u e) =
      subst (Exchanged w) (sym (retried-last e l u (attempt-last t u (some l) h)))
        (exchanged k t u (some l) d (omega arith) h)
  later-Exchanged w _ k t _ l _ d h y b (succeeded n u v g) =
      exchanged (suc k) u v none (one_failed k _ t u l d h y) (omega arith) g
  later-Exchanged w _ k t _ l _ d h y b (refused n u v e g x) =
      subst (Exchanged w) (sym (retried-last e e v (attempt-last u v (some e) g)))
        (exchanged (suc k) u v (some e) (one_failed k _ t u l d h y) (omega arith) g)
  later-Exchanged w _ k t _ l _ d h y b (spent u v e g) =
      subst (Exchanged w) (sym (retried-last e e v (attempt-last u v (some e) g)))
        (exchanged (suc k) u v (some e) (one_failed k _ t u l d h y) (omega arith) g)
  later-Exchanged w _ k t _ l _ d h y b (again n u v e p g x r) =
      later-Exchanged w n (suc k) u v e p (one_failed k _ t u l d h y) g x (omega arith) r

  start : (w s : Wire A) → record w { last = none } ≡ s → Failed 0 (record w { last = none }) s
  start w s q = subst (λ (v : Wire A). Failed 0 (record w { last = none }) v) q (none_failed _)

  first-Exchanged :
      (w : Wire A) (s : Wire A) (n : ℕ) (p : Option Failure × Wire A)
      → record w { last = none } ≡ s
      → n ≤ attempts http
      → Retried try_it is_transient n s p
      → Exchanged w (retried http p)
  unfolding retried
  first-Exchanged w _ _ _ q b (stopped n s e) =
      subst (λ (v : Wire A). Exchanged w (retried http (some e, v))) q (unsent e)
  first-Exchanged w _ _ _ q b (succeeded n s v g) =
      exchanged 0 s v none (start w s q) (omega arith) g
  first-Exchanged w _ _ _ q b (refused n s v e g x) =
      subst (Exchanged w) (sym (retried-last e e v (attempt-last s v (some e) g)))
        (exchanged 0 s v (some e) (start w s q) (omega arith) g)
  first-Exchanged w _ _ _ q b (spent s v e g) =
      subst (Exchanged w) (sym (retried-last e e v (attempt-last s v (some e) g)))
        (exchanged 0 s v (some e) (start w s q) (omega arith) g)
  first-Exchanged w _ _ _ q b (again n s v e p g x r) =
      later-Exchanged w n 0 s v e p (start w s q) g x (omega arith) r

  guarded-Exchanged :
      (f : Wire A → Option Err × Wire A) (w : Wire A) (p : Guarded × Wire A)
      → Exchanged w (f w)
      → Executed f w p
      → Exchanged w (guarded http p)
  unfolding guarded
  guarded-Exchanged f w _ h open_circuit = broken
  guarded-Exchanged f w _ h ran = h

  -- An exchange with the bank is refused by the breaker, or ends before the first request; or up to two
  -- attempts fail with errors that are tried again, and the next one's outcome is the result: at most
  -- three attempts, whose last error is the result, normalised. This relies on
  -- what retry-go and gobreaker promise.
  pub do_with_resilience-Exchanged :
      (r : Resilience A) (w : Wire A)
      → Reliable r
      → Exchanged w (do_with_resilience http r method path body w)
  unfolding do_with_resilience
  do_with_resilience-Exchanged r w h =
      guarded-Exchanged _ w _
        (first-Exchanged w _ 3 _ refl (omega arith)
          (h.retries 2 is_transient try_it (record w { last = none })))
        (h.executes _ w)
