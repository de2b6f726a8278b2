-- ===== src/Postgres/Laws.antt =====
-- What the callers of statements and transactions may rely on, read off a call that returned.
use vrp_oneclick_deposit_pla.Common.{suc, true, false, String, ◌≡◌, refl, sym, subst, arith}
use vrp_oneclick_deposit_pla.Domainerr.{Code, Err, wrapped, annotated, Result, ok, err}
use vrp_oneclick_deposit_pla.Domainerr.Triple.{Outcome, Triple, bind-Outcome}
use vrp_oneclick_deposit_pla.Postgres.{
  Server, Session, Query, begin_func, transaction, statement, pool_statement, ◌>>=◌, lift, or_wrap,
  annotate, in_failed_transaction,
}

module _ {S A B : Type 0} where
  pub >>=_inv :
      (m : Query S A) (f : A → Query S B) (s : Session S) {b : B} {t : Session S}
      → (m >>= f) s ≡ (ok b, t)
      → (a : A) × (u : Session S) × (m s ≡ (ok a, u)) × (f a u ≡ (ok b, t))
  unfolding ◌>>=◌
  >>=_inv m f s {b} {t} h = go (m s) refl h
    where
      go :
          (p : Result A × Session S)
          → m s ≡ p
          → (elim p.0 [ ok a ↦ f a p.1 | err e ↦ (err e, p.1) ]) ≡ (ok b, t)
          → (a : A) × (u : Session S) × (m s ≡ (ok a, u)) × (f a u ≡ (ok b, t))
      go (ok a, u) e k = (a, u, e, k)
      go (err x, u) e k = absurd (cc)

  -- The same, for the rest of a proof.
  pub >>=_elim :
      (m : Query S A) (f : A → Query S B) (s : Session S) {b : B} {t : Session S} {G : Type 0}
      → (m >>= f) s ≡ (ok b, t)
      → ((a : A) (u : Session S) → m s ≡ (ok a, u) → f a u ≡ (ok b, t) → G)
      → G
  >>=_elim m f s h k = let (a, u, e, rest) = >>=_inv m f s h in k a u e rest

module _ {S A : Type 0} where
  pub lift_inv :
      (r : Result A) (s : Session S) {a : A} {t : Session S}
      → lift r s ≡ (ok a, t)
      → (r ≡ ok a) × (t ≡ s)
  lift_inv r s h = (cc, cc)

  pub or_wrap_inv :
      (c : Code) (m : String) (q : Query S A) (s : Session S) {a : A} {t : Session S}
      → or_wrap c m q s ≡ (ok a, t)
      → q s ≡ (ok a, t)
  or_wrap_inv c m q s h = ground arith

  pub annotate_inv :
      (note : String) (q : Query S A) (s : Session S) {a : A} {t : Session S}
      → annotate note q s ≡ (ok a, t)
      → q s ≡ (ok a, t)
  annotate_inv note q s h = ground arith

module _ {S A : Type 0} (server : Server) where
  -- In an aborted transaction every statement fails.
  pub statement-aborted :
      (q : S → Result (A × S)) (s : Session S)
      → s.aborted ≡ true
      → statement server q s ≡ (err in_failed_transaction, s)
  unfolding statement
  statement-aborted q s h = rw h refl

  -- A statement that succeeded ran outside an aborted transaction, and left it so.
  pub statement_inv :
      (q : S → Result (A × S)) (s : Session S) {a : A} {t : Session S}
      → statement server q s ≡ (ok a, t)
      → (q s.tables ≡ ok (a, t.tables)) × (t.aborted ≡ false)
  unfolding statement
  statement_inv q s h = (ground arith, ground arith)

  -- A statement that failed has changed no table.
  statement-unchanged :
      (q : S → Result (A × S)) (s : Session S) {e : Err} {t : Session S}
      → statement server q s ≡ (err e, t)
      → t.tables ≡ s.tables
  unfolding statement
  statement-unchanged q s h = ground arith

  pool_statement_inv :
      (q : S → Result (A × S)) (s : Session S) {a : A} {t : Session S}
      → pool_statement server q s ≡ (ok a, t)
      → q s.tables ≡ ok (a, t.tables)
  unfolding pool_statement statement
  pool_statement_inv q s h = ground arith

  pool_statement-unchanged :
      (q : S → Result (A × S)) (s : Session S) {e : Err} {t : Session S}
      → pool_statement server q s ≡ (err e, t)
      → t.tables ≡ s.tables
  unfolding pool_statement statement
  pool_statement-unchanged q s h = ground arith

  -- A transaction that reports success has run its body, and its tables are the body's.
  pub transaction_inv :
      (f g : Err → Err) (body : Query S A) (s : Session S) {a : A} {t : Session S}
      → transaction server f g body s ≡ (ok a, t)
      → (u : Session S) × (body (record s { count = suc s.count; aborted = false }) ≡ (ok a, u))
        × (t.tables ≡ u.tables)
        × (u.aborted ≡ false)
  unfolding transaction
  transaction_inv f g body s h =
      let s1 : Session S = record s { count = suc s.count; aborted = false } in
      ((body s1).1, ground arith, ground arith, ground arith)

  -- A transaction that reports an error has changed no table.
  pub transaction-atomic :
      (f g : Err → Err) (body : Query S A) (s : Session S) (e : Err)
      → (transaction server f g body s).0 ≡ err e
      → (transaction server f g body s).1.tables ≡ s.tables
  unfolding transaction
  transaction-atomic f g body s e h = ground arith

  pub begin_func_inv :
      (body : Query S A) (s : Session S) {a : A} {t : Session S}
      → begin_func server body s ≡ (ok a, t)
      → (u : Session S) × (body (record s { count = suc s.count; aborted = false }) ≡ (ok a, u))
        × (t.tables ≡ u.tables)
        × (u.aborted ≡ false)
  unfolding begin_func
  begin_func_inv body s h = transaction_inv (λ e. e) (λ e. e) body s h

  pub begin_func-atomic :
      (body : Query S A) (s : Session S) (e : Err)
      → (begin_func server body s).0 ≡ err e
      → (begin_func server body s).1.tables ≡ s.tables
  unfolding begin_func
  begin_func-atomic body s e h = transaction-atomic (λ x. x) (λ x. x) body s e h

module _ {S A B : Type 0} {P : Session S → Type 0} {R : A → Session S → Type 0}
    {Q : B → Session S → Type 0} {E : Err → Session S → Type 0} where
  pub Triple-bind :
      (m : Query S A) (f : A → Query S B)
      → Triple P m R E
      → ((a : A) → Triple (R a) (f a) Q E)
      → Triple P (m >>= f) Q E
  unfolding ◌>>=◌
  Triple-bind m f h k = record { at = λ s p. bind-Outcome R Q E f (m s) (h.at s p) k }

module _ {S A : Type 0} (P : S → Type 0) (Q : A → S → Type 0) where
  statement-Outcome :
      (s : Session S) (p : Result A × Session S)
      → P s.tables
      → ((a : A) → p.0 ≡ ok a → Q a p.1.tables)
      → ((e : Err) → p.0 ≡ err e → p.1.tables ≡ s.tables)
      → Outcome (λ a (t : Session S). Q a t.tables) (λ _ t. P t.tables) p
  statement-Outcome s (ok a, t) h good bad = good a refl
  statement-Outcome s (err e, t) h good bad = subst P (sym (bad e refl)) h

module _ {S A : Type 0} (server : Server) {P : S → Type 0} {Q : A → S → Type 0} where
  -- A statement, by what it computes; where it fails, the tables stay.
  pub Triple-statement :
      (q : S → Result (A × S))
      → ((j k : S) (a : A) → P j → q j ≡ ok (a, k) → Q a k)
      → Triple (λ s. P s.tables) (statement server q) (λ a s. Q a s.tables) (λ _ s. P s.tables)
  Triple-statement q h = record {
    at = λ s p.
        let r = statement server q s in
        statement-Outcome P Q s r p
          (λ a e. h s.tables r.1.tables a p (statement_inv server q s {t = r.1} (cc)).0)
          (λ x e. statement-unchanged server q s {e = x} {t = r.1} (cc));
  }

  pub Triple-pool_statement :
      (q : S → Result (A × S))
      → ((j k : S) (a : A) → P j → q j ≡ ok (a, k) → Q a k)
      → Triple (λ s. P s.tables) (pool_statement server q) (λ a s. Q a s.tables) (λ _ s. P s.tables)
  Triple-pool_statement q h = record {
    at = λ s p.
        let r = pool_statement server q s in
        statement-Outcome P Q s r p
          (λ a e. h s.tables r.1.tables a p (pool_statement_inv server q s {t = r.1} (cc)))
          (λ x e. pool_statement-unchanged server q s {e = x} {t = r.1} (cc));
  }

module _ {S A : Type 0} (Q : A → Session S → Type 0) (E : Err → Session S → Type 0) where
  or_wrap-Outcome :
      (c : Code) (m : String) (p : Result A × Session S)
      → Outcome Q (λ e. E (wrapped c m e)) p
      → Outcome Q E (elim p.0 [ ok a ↦ (ok a, p.1) | err e ↦ (err (wrapped c m e), p.1) ])
  or_wrap-Outcome c m (ok a, t) h = h
  or_wrap-Outcome c m (err e, t) h = h

module _ {S A : Type 0} {P : Session S → Type 0} {Q : A → Session S → Type 0}
    {E : Err → Session S → Type 0} where
  pub Triple-or_wrap :
      (c : Code) (m : String) (q : Query S A)
      → Triple P q Q (λ e. E (wrapped c m e))
      → Triple P (or_wrap c m q) Q E
  Triple-or_wrap c m q h = record { at = λ s p. or_wrap-Outcome Q E c m (q s) (h.at s p) }

module _ {S A : Type 0} (Q : A → Session S → Type 0) (E : Err → Session S → Type 0) where
  annotate-Outcome :
      (note : String) (p : Result A × Session S)
      → Outcome Q (λ e. E (annotated note e)) p
      → Outcome Q E (elim p.0 [ ok a ↦ (ok a, p.1) | err e ↦ (err (annotated note e), p.1) ])
  annotate-Outcome note (ok a, t) h = h
  annotate-Outcome note (err e, t) h = h

module _ {S A : Type 0} {P : Session S → Type 0} {Q : A → Session S → Type 0}
    {E : Err → Session S → Type 0} where
  pub Triple-annotate :
      (note : String) (q : Query S A)
      → Triple P q Q (λ e. E (annotated note e))
      → Triple P (annotate note q) Q E
  Triple-annotate note q h = record { at = λ s p. annotate-Outcome Q E note (q s) (h.at s p) }
