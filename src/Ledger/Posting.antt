-- ===== src/Ledger/Posting.antt =====
-- services/ledger-svc/internal/store.go: the journal entry of a payment, and the transaction that posts it.
pub mod Laws
use vrp_oneclick_deposit_pla.Common.{
  ℕ, Bool, false, ◌==◌, String, List, [], ◌∷◌, map, if◌then◌else◌, none, some, ℤ, ◌||◌,
}
use vrp_oneclick_deposit_pla.Domainerr.{Code, Err, wrapped, no_rows, Result, ok, err}
use vrp_oneclick_deposit_pla.Postgres.{
  Server, Query, pure, raise, attempt, ◌>>=◌, or_wrap, is_no_rows, sql_state,
}
use vrp_oneclick_deposit_pla.Payment.Fee.{AccountType, Direction}
use vrp_oneclick_deposit_pla.Ledger.{LineInput, account_type_from_db, direction_from_db}
use vrp_oneclick_deposit_pla.Ledger.Journal.{EntryRow, JoinedLine, Journal}
use vrp_oneclick_deposit_pla.Ledger.Statements.{
  Querier, on_tx, select_entry, select_lines, insert_entry, ensure_account, insert_line,
}

-- `ledgerv1.JournalLine`, whose `commonv1.Money` is the amount with its currency.
pub record JournalLine : Type 0 where
  pub id : String
  pub account_type : AccountType
  pub owner_ref : String
  pub direction : Direction
  pub amount_pence : ℤ
  pub currency : String

-- `ledgerv1.JournalEntry`
pub record JournalEntry : Type 0 where
  pub id : String
  pub payment_id : String
  pub description : String
  pub lines : List JournalLine
  pub created_at : ℕ

abbrev pub is_unique_violation : Err → Bool
is_unique_violation e = elim (sql_state e) [ none ↦ false | some state ↦ state == "23505" ]

unfoldable pub is_serialization_failure : Err → Bool
is_serialization_failure e = elim (sql_state e) [
  | none ↦ false
  | some state ↦ (state == "40001") || (state == "40P01")
]

unfoldable pub line_of_row : JoinedLine → JournalLine
line_of_row j = record {
  id = j.line.id;
  account_type = account_type_from_db j.account.account_type;
  owner_ref = j.account.owner_ref;
  direction = direction_from_db j.line.direction;
  amount_pence = j.line.amount_pence;
  currency = j.account.currency;
}

unfoldable pub entry_of_row : String → EntryRow → List JournalLine → JournalEntry
entry_of_row payment_id e lines = record {
  id = e.id;
  payment_id = payment_id;
  description = e.description;
  lines = lines;
  created_at = e.created_at;
}

module _ (server : Server) where
  -- `loadEntryByPaymentID`: `pgx.ErrNoRows` is passed on without a wrapping.
  unfoldable pub load_entry_by_payment_id : Querier → String → Query Journal JournalEntry
  unfolding line_of_row entry_of_row
  load_entry_by_payment_id q payment_id = do
    r ← attempt (select_entry server q payment_id)
    elim r [
      | err e ↦
          raise (if is_no_rows e then no_rows else wrapped Code.internal "load journal entry" e)
      | ok e ↦
          (or_wrap Code.internal "load journal lines" (select_lines server q e.id) >>= λ rows.
          pure (entry_of_row payment_id e (map line_of_row rows)))
    ]

  -- The loop that inserts the lines of an entry.
  unfoldable pub insert_lines : String → List LineInput → Query Journal (List JournalLine)
  insert_lines entry [] = pure []
  insert_lines entry (l ∷ ls) = do
    account ← ensure_account server l.account_type l.owner_ref l.currency
    id ←
        or_wrap Code.internal "insert journal_line"
          (insert_line server entry account l.direction l.amount_pence)
    rest ← insert_lines entry ls
    pure (
        record {
          id = id;
          account_type = account_type_from_db l.account_type;
          owner_ref = l.owner_ref;
          direction = direction_from_db l.direction;
          amount_pence = l.amount_pence;
          currency = l.currency;
        }
        ∷ rest)

  -- After the insertion of the entry: a unique violation has the entry read again.
  unfoldable pub entry_inserted :
      String → List LineInput → Result EntryRow → Query Journal JournalEntry
  unfolding load_entry_by_payment_id insert_lines entry_of_row
  entry_inserted payment_id lines (err e) =
      if is_unique_violation e
      then or_wrap Code.internal "reload after unique conflict"
          (load_entry_by_payment_id on_tx payment_id)
      else raise (wrapped Code.internal "insert journal_entry" e)
  entry_inserted payment_id lines (ok row) = do
    out ← insert_lines row.id lines
    pure (entry_of_row payment_id row out)

  unfoldable pub entry_loaded :
      String → String → List LineInput → Result JournalEntry → Query Journal JournalEntry
  unfolding entry_inserted
  entry_loaded payment_id description lines (ok existing) = pure existing
  entry_loaded payment_id description lines (err e) =
      if is_no_rows e
      then (do
        r ← attempt (insert_entry server payment_id description)
        entry_inserted payment_id lines r)
      else raise e

  -- The transaction of `PostDoubleEntry`.
  unfoldable pub post_body : String → String → List LineInput → Query Journal JournalEntry
  unfolding load_entry_by_payment_id entry_loaded
  post_body payment_id description lines = do
    r ← attempt (load_entry_by_payment_id on_tx payment_id)
    entry_loaded payment_id description lines r
