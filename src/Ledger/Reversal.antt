-- ===== src/Ledger/Reversal.antt =====
-- services/ledger-svc/internal/store.go: the transaction of `ReverseEntry`.
pub mod Laws
use vrp_oneclick_deposit_pla.Common.{◌+++◌, ◌==◌, String, List, [], ◌∷◌, if◌then◌else◌}
use vrp_oneclick_deposit_pla.Domainerr.{Code, domain, wrapped, Result, ok, err}
use vrp_oneclick_deposit_pla.Postgres.{
  Server, Query, pure, raise, attempt, ◌>>=◌, ◌>>◌, or_wrap, is_no_rows,
}
use vrp_oneclick_deposit_pla.Ledger.Journal.{EntryRow, JoinedLine, Journal}
use vrp_oneclick_deposit_pla.Ledger.Statements.{
  on_tx, select_entry, select_lines, insert_entry, ensure_account, insert_line, mark_reversed,
}
use vrp_oneclick_deposit_pla.Ledger.Posting.{is_unique_violation}

abbrev pub reversal_description : String → String
reversal_description reason = if reason == "" then "REVERSAL" else "REVERSAL: " +++ reason

unfoldable pub opposite : String → String
opposite direction = if direction == "CR" then "DR" else "CR"

module _ (server : Server) where
  -- The loop that inserts the opposite lines.
  unfoldable pub insert_opposites : String → List JoinedLine → Query Journal (Unit {0})
  unfolding opposite
  insert_opposites entry [] = pure tt
  insert_opposites entry (l ∷ ls) = do
    account ← ensure_account server l.account.account_type l.account.owner_ref l.account.currency
    or_wrap Code.internal "insert reverse journal_line"
          (insert_line server entry account (opposite l.line.direction) l.line.amount_pence)
        >>= λ _. insert_opposites entry ls

  unfoldable pub reverse_inserted :
      String → List JoinedLine → Result EntryRow → Query Journal (Unit {0})
  unfolding insert_opposites
  reverse_inserted entry orig (err e) =
      if is_unique_violation e
      then mark_reversed server entry
      else raise (wrapped Code.internal "insert reverse journal_entry" e)
  reverse_inserted entry orig (ok row) = do
    insert_opposites row.id orig
    or_wrap Code.internal "mark entry reversed" (mark_reversed server entry)

  -- The reversal of an entry that has none yet.
  unfoldable pub reverse_lines :
      String → String → String → List JoinedLine → Query Journal (Unit {0})
  unfolding reverse_inserted
  reverse_lines payment_id reason entry [] =
      raise (domain Code.internal "journal entry has no lines")
  reverse_lines payment_id reason entry (l ∷ ls) = do
    r ← attempt (insert_entry server (payment_id +++ "-rev") (reversal_description reason))
    reverse_inserted entry (l ∷ ls) r

  -- After the look-up of the reversal.
  unfoldable pub reverse_checked :
      String → String → String → Result EntryRow → Query Journal (Unit {0})
  unfolding reverse_lines
  reverse_checked payment_id reason entry (ok existing) = do
    attempt (mark_reversed server entry)
    pure tt
  reverse_checked payment_id reason entry (err e) =
      if is_no_rows e
      then (or_wrap Code.internal "load journal lines" (select_lines server on_tx entry) >>= λ orig.
          reverse_lines payment_id reason entry orig)
      else raise (wrapped Code.internal "check reverse entry" e)

  -- After the look-up of the entry.
  unfoldable pub reverse_loaded : String → String → Result EntryRow → Query Journal (Unit {0})
  unfolding reverse_checked
  reverse_loaded payment_id reason (err e) = raise (
      if is_no_rows e
      then domain Code.not_found "journal entry not found"
      else wrapped Code.internal "load journal entry" e)
  reverse_loaded payment_id reason (ok row) = if row.reversed then pure tt else (do
    r ← attempt (select_entry server on_tx (payment_id +++ "-rev"))
    reverse_checked payment_id reason row.id r)

  -- The transaction of `ReverseEntry`.
  unfoldable pub reverse_body : String → String → Query Journal (Unit {0})
  unfolding reverse_loaded
  reverse_body payment_id reason = do
    r ← attempt (select_entry server on_tx payment_id)
    reverse_loaded payment_id reason r
