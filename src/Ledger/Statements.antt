-- ===== src/Ledger/Statements.antt =====
-- services/ledger-svc/internal/store.go: the statements of the store, and the deferred trigger.
pub mod Laws
use vrp_oneclick_deposit_pla.Common.{
  ℕ, ◌+◌, Bool, true, false, not, ◌||◌, ◌&&◌, Option, none, some, String, ◌==◌, List, [], ◌∷◌, ◌++◌,
  eqb, ltb, if◌then◌else◌, ℤ, pos, negsuc, ◌-ℤ◌, leb_ℤ, find_row, update_rows, sum_rows,
}
use Prim.Native.Nat.{Ordering}
use Prim.Native.String
use vrp_oneclick_deposit_pla.Domainerr.{Code, Err, pg, no_rows, Result, ok, err}
use vrp_oneclick_deposit_pla.Postgres.{
  Server, Session, Query, scan_int64, unique_violation, foreign_key_violation, statement,
  pool_statement, or_wrap,
}
use vrp_oneclick_deposit_pla.Ledger.Journal.{
  AccountRow, EntryRow, LineRow, Journal, of_payment, has_account_id, JoinedLine, join_lines,
  are_settled, drop_rows, raised, upsert_account, add_line_row,
}

-- The interface `querier`: the transaction, or the pool.
pub data Querier : Type 0 where
  on_tx on_pool : Querier

-- `pgx.BeginTxFunc` runs the deferred trigger with the commit: where the trigger raises, the
-- commit fails and nothing of the transaction stays.
unfoldable pub with_deferred_check : {A : Type 0} → Query Journal A → Query Journal A
unfolding are_settled drop_rows
with_deferred_check body s =
    let (r, t) = body s in
    elim r [
      | err e ↦ (err e, t)
      | ok a ↦
          if t.aborted || are_settled t.tables (drop_rows s.tables.lines t.tables.lines)
          then (ok a, t)
          else (err raised, t)
    ]

abbrev no_rows_or : {A : Type 0} → Journal → Option A → Result (A × Journal)
no_rows_or j none = err no_rows
no_rows_or j (some a) = ok (a, j)

module _ (server : Server) where
  unfoldable pub query_on :
      {A : Type 0} → Querier → (Journal → Result (A × Journal)) → Query Journal A
  query_on on_tx q = statement server q
  query_on on_pool q = pool_statement server q

  -- `SELECT … FROM journal_entry WHERE payment_id = $1`
  unfoldable pub select_entry : Querier → String → Query Journal EntryRow
  unfolding query_on
  select_entry q payment_id =
      query_on q (λ j. no_rows_or j (find_row (of_payment payment_id) j.entries))

  -- The rows of `journal_line JOIN account` for an entry.
  unfoldable pub select_lines : Querier → String → Query Journal (List JoinedLine)
  unfolding join_lines query_on
  select_lines q entry = query_on q (λ j. ok (join_lines j.accounts entry j.lines, j))

  -- `INSERT INTO journal_entry … RETURNING id, created_at`
  unfoldable pub insert_entry : String → String → Query Journal EntryRow
  insert_entry payment_id description s =
      let row : EntryRow = record {
        id = server.uuid s.count;
        payment_id = payment_id;
        description = description;
        reversed = false;
        created_at = server.clock;
      } in
      statement server
        (λ j.
          elim (find_row (λ (e : EntryRow). of_payment payment_id e || (e.id == row.id))
            j.entries) [
              | some _ ↦ err unique_violation
              | none ↦ ok (row, record j { entries = j.entries ++ row ∷ [] })
            ])
        s

  unfoldable pub ensure_account : String → String → String → Query Journal String
  unfolding upsert_account
  ensure_account account_type owner_ref currency s =
      let row : AccountRow = record {
        id = server.uuid s.count;
        account_type = account_type;
        owner_ref = owner_ref;
        currency = currency;
      } in
      or_wrap Code.internal "ensure account" (statement server (upsert_account row)) s

  unfoldable pub insert_line : String → String → String → ℤ → Query Journal String
  unfolding add_line_row
  insert_line entry account direction amount s =
      let row : LineRow = record {
        id = server.uuid s.count;
        journal_entry_id = entry;
        account_id = account;
        direction = direction;
        amount_pence = amount;
        created_at = server.clock;
      } in
      statement server (add_line_row row) s

  -- `UPDATE journal_entry SET reversed = TRUE WHERE id = $1`
  unfoldable pub mark_reversed : String → Query Journal (Unit {0})
  mark_reversed id = statement server λ j. ok (
    tt,
    record j {
      entries =
          update_rows (λ (e : EntryRow). e.id == id) (λ e. record e { reversed = true }) j.entries;
    },
  )
