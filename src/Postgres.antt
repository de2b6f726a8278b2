-- ===== src/Postgres.antt =====
-- Statements and transactions of a PostgreSQL database, as the services use them through pgx: a
-- statement may fail, whenever the server says so; a failed statement aborts its transaction; a
-- transaction that does not commit changes nothing.
pub mod Laws
use vrp_oneclick_deposit_pla.Common.{
  ℕ, suc, Bool, true, false, Option, none, some, String, ◌||◌, if◌then◌else◌, ℤ, pos, negsuc, ltb_ℤ,
  leb_ℤ, ◌&&◌, ◌-◌, ◌^◌,
}
use vrp_oneclick_deposit_pla.Domainerr.{
  Code, Err, wrapped, annotated, pg, plain, no_rows, Result, ok, err,
}

-- What the server decides: which of the statements fail and how, the time of the transaction
-- (`NOW()`, in seconds), and the identifiers of `gen_random_uuid()`.
pub record Server : Type 0 where
  pub fault : ℕ → Option Err
  pub clock : ℕ
  pub uuid : ℕ → String

-- A connection: the tables, the number of statements so far, and whether the transaction is aborted.
pub record Session {ℓ} (S : Type ℓ) : Type ℓ where
  pub tables : S
  pub count : ℕ
  pub aborted : Bool

abbrev pub Query : Type 0 → Type 0 → Type 0
Query S A = Session S → Result A × Session S

-- `errors.Is(err, pgx.ErrNoRows)`
unfoldable pub is_no_rows : Err → Bool
is_no_rows no_rows = true
is_no_rows (wrapped c m e) = is_no_rows e
is_no_rows (annotated s e) = is_no_rows e
is_no_rows _ = false

-- The SQLSTATE of the `*pgconn.PgError` that an error is or wraps.
unfoldable pub sql_state : Err → Option String
sql_state (pg state text) = some state
sql_state (wrapped c m e) = sql_state e
sql_state (annotated s e) = sql_state e
sql_state _ = none

-- An int64 destination takes a sum that fits it.
unfoldable pub scan_int64 : ℤ → Result ℤ
scan_int64 z =
    if ltb_ℤ z (pos (2 ^ 63)) && leb_ℤ (negsuc (2 ^ 63 - 1)) z
    then ok z
    else err (plain "cannot scan numeric into int64")

abbrev pub unique_violation : Err
unique_violation = pg "23505" "duplicate key value violates unique constraint"

abbrev pub foreign_key_violation : Err
foreign_key_violation = pg "23503" "insert or update violates foreign key constraint"

module _ {S : Type 0} where
  abbrev pub pure : {A : Type 0} → A → Query S A
  pure a s = (ok a, s)

  abbrev pub raise : {A : Type 0} → Err → Query S A
  raise e s = (err e, s)

  abbrev pub lift : {A : Type 0} → Result A → Query S A
  lift r s = (r, s)

  -- Runs a query and hands its error on as a value.
  abbrev pub attempt : {A : Type 0} → Query S A → Query S (Result A)
  attempt m s = let (r, s') = m s in (ok r, s')

infixl 5 ◌>>=◌ ◌>>◌
unfoldable pub ◌>>=◌ : {S A B : Type 0} → Query S A → (A → Query S B) → Query S B
◌>>=◌ m f s = let (r, s') = m s in elim r [ ok a ↦ f a s' | err e ↦ (err e, s') ]

abbrev pub ◌>>◌ : {S A B : Type 0} → Query S A → Query S B → Query S B
m >> k = m >>= λ _. k

-- `if err != nil { return domainerr.Wrap(code, message, err) }`
abbrev pub or_wrap : {S A : Type 0} → Code → String → Query S A → Query S A
or_wrap c m q s =
    let (r, s') = q s in elim r [ ok a ↦ (ok a, s') | err e ↦ (err (wrapped c m e), s') ]

-- `if err != nil { return fmt.Errorf("note: %w", err) }`
abbrev pub annotate : {S A : Type 0} → String → Query S A → Query S A
annotate note q s =
    let (r, s') = q s in elim r [ ok a ↦ (ok a, s') | err e ↦ (err (annotated note e), s') ]

-- The error of every statement in an aborted transaction.
abbrev pub in_failed_transaction : Err
in_failed_transaction =
    pg "25P02" "current transaction is aborted, commands ignored until end of transaction block"

abbrev pub commit_rolled_back : Err
commit_rolled_back = plain "commit unexpectedly resulted in rollback"

module _ {S : Type 0} (server : Server) where
  -- The statement's own result: `pgx.ErrNoRows` is found by the client and aborts nothing.
  settle_statement : {A : Type 0} → Session S → Result (A × S) → Result A × Session S
  unfolding is_no_rows
  settle_statement s (ok (a, t)) = (ok a, record s { tables = t; count = suc s.count })
  settle_statement s (err e) = (
    err e,
    record s { count = suc s.count; aborted = (if is_no_rows e then s.aborted else true) },
  )

  -- One statement inside a transaction.
  unfoldable pub statement : {A : Type 0} → (S → Result (A × S)) → Query S A
  unfolding settle_statement
  statement q s =
      if s.aborted then (err in_failed_transaction, s) else elim (server.fault s.count) [
        | some e ↦ (err e, record s { count = suc s.count; aborted = true })
        | none ↦ settle_statement s (q s.tables)
      ]

  -- The end of a transaction that began with the tables `before`; `on_commit` is what the caller
  -- makes of an error of the commit.
  end_transaction : {A : Type 0} → (Err → Err) → S → Result A → Session S → Result A × Session S
  end_transaction on_commit before (err e) s =
      (err e, record s { tables = before; aborted = false })
  end_transaction on_commit before (ok a) s =
      if s.aborted
      then (err (on_commit commit_rolled_back), record s { tables = before; aborted = false })
      else elim (server.fault s.count) [
        | some e ↦
            (err (on_commit e), record s { tables = before; count = suc s.count; aborted = false })
        | none ↦ (ok a, record s { count = suc s.count })
      ]

  -- Begin, the body, and commit, or a rollback where one of these fails.
  unfoldable pub transaction : {A : Type 0} → (Err → Err) → (Err → Err) → Query S A → Query S A
  unfolding end_transaction
  transaction on_begin on_commit body s = elim (server.fault s.count) [
    | some e ↦ (err (on_begin e), record s { count = suc s.count; aborted = false })
    | none ↦
        let (r, s') = body (record s { count = suc s.count; aborted = false }) in
        end_transaction on_commit s.tables r s'
  ]

  -- `pgx.BeginFunc`
  unfoldable pub begin_func : {A : Type 0} → Query S A → Query S A
  unfolding transaction
  begin_func = transaction (λ e. e) (λ e. e)

  -- A statement on the pool, on a connection of its own. No body of a transaction here makes one: the
  -- model does not say what would stay of it.
  unfoldable pub pool_statement : {A : Type 0} → (S → Result (A × S)) → Query S A
  unfolding statement
  pool_statement q s =
      let (r, s') = statement q (record s { aborted = false }) in (r, record s' { aborted = false })
