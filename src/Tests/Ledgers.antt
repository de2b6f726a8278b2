-- ===== src/Tests/Ledgers.antt =====
-- Runs of the ledger's store, services/ledger-svc/internal/store.go.
use vrp_oneclick_deposit_pla.Common.{
  find_row, trim_space, to_upper, add64, wrap64, ◌+ℤ◌, ◌-ℤ◌, sum_rows, ◌≡◌, refl, none, some, false,
  [], ◌∷◌, pos, decimal, ltb, if◌then◌else◌, List,
}
use vrp_oneclick_deposit_pla.Domainerr.{pg}
use vrp_oneclick_deposit_pla.Postgres.{
  Server, Session, begin_func, statement, transaction, is_no_rows,
}
use vrp_oneclick_deposit_pla.Postgres
use vrp_oneclick_deposit_pla.Ledger
use vrp_oneclick_deposit_pla.Ledger.Statements
use vrp_oneclick_deposit_pla.Ledger.Journal
use vrp_oneclick_deposit_pla.Ledger.Posting
use vrp_oneclick_deposit_pla.Ledger.Store
use vrp_oneclick_deposit_pla.Ledger.{LineInput}
use vrp_oneclick_deposit_pla.Ledger.Journal.{Journal, EntryRow, LineRow, AccountRow}
use vrp_oneclick_deposit_pla.Ledger.Journal.Laws.{Balanced}
use vrp_oneclick_deposit_pla.Ledger.Posting.{post_body}
use vrp_oneclick_deposit_pla.Ledger.Store.{
  perform, post_double_entry, with_serializable, posting, reversal, started, called, empty_journal,
}
use vrp_oneclick_deposit_pla.Ledger.Store.Laws.{Reachable-Balanced}
use vrp_oneclick_deposit_pla.Ledger.Store.Repeated.{post_double_entry-again}
use vrp_oneclick_deposit_pla.Ledger.Store.Retries.{Run, with_serializable-Run}

-- The identifiers are the numbers of the statements.
abbrev sound_server : Server
sound_server = record { fault = λ _. none; clock = 100; uuid = λ n. decimal n }

-- The first two transactions cannot be serialized.
abbrev busy_server : Server
busy_server = record sound_server {
  fault = λ n. if ltb n 2 then some (pg "40001" "could not serialize access") else none;
}

abbrev deposit_lines : List LineInput
deposit_lines =
    record {
      account_type = "CONSUMER_ESCROW";
      owner_ref = "consumer";
      direction = "DR";
      amount_pence = pos 500;
      currency = "gbp";
    }
    ∷ record {
      account_type = "MERCHANT_ESCROW";
      owner_ref = "merchant";
      direction = "CR";
      amount_pence = pos 500;
      currency = "GBP";
    }
    ∷ []

abbrev start : Session Journal
start = record { tables = empty_journal; count = 0; aborted = false }

Reachable-Balanced_example :
    Balanced
      (perform sound_server
        (reversal "p1" "")
        (perform sound_server (posting "p1" "deposit" deposit_lines) start)).tables
Reachable-Balanced_example =
    Reachable-Balanced
      (perform sound_server (reversal "p1" "")
        (perform sound_server (posting "p1" "deposit" deposit_lines) start))
      (called sound_server (reversal "p1" "")
        (perform sound_server (posting "p1" "deposit" deposit_lines) start)
        (called sound_server (posting "p1" "deposit" deposit_lines) start (started 0)))

-- The journal after one posting.
abbrev posted_entry : EntryRow
posted_entry = record {
  id = "2";
  payment_id = "p1";
  description = "deposit";
  reversed = false;
  created_at = 100;
}

abbrev posted_session : Session Journal
posted_session = record start {
  tables = record empty_journal { entries = posted_entry ∷ [] };
  count = 8;
}

post_double_entry-again_example :
    (post_double_entry sound_server "p1" "deposit" deposit_lines posted_session).1.tables
    ≡ posted_session.tables
unfolding find_row
post_double_entry-again_example =
    post_double_entry-again sound_server "p1" "deposit" deposit_lines posted_session posted_entry
      refl

with_serializable-Run_example :
    Run busy_server
      (post_body busy_server "p1" "deposit" deposit_lines)
      4
      start
      (with_serializable busy_server (post_body busy_server "p1" "deposit" deposit_lines) start)
with_serializable-Run_example =
    with_serializable-Run busy_server (post_body busy_server "p1" "deposit" deposit_lines) start

-- The posting and its reversal leave four lines and a reversed entry.
posted_rows :
    (perform sound_server (posting "p1" "deposit" deposit_lines) start).tables.entries
    ≡ posted_entry ∷ []
unfolding perform Postgres.◌>>=◌ Ledger.check_entry Ledger.check_lines trim_space to_upper add64
    wrap64 ◌+ℤ◌ begin_func Statements.with_deferred_check Statements.select_entry statement find_row
    Statements.insert_entry Statements.ensure_account Statements.insert_line decimal ◌-ℤ◌ sum_rows
    Journal.add_line_row Journal.are_settled Journal.count_lines Journal.drop_rows
    Journal.is_settled_line Journal.upsert_account Posting.entry_inserted Posting.entry_loaded
    Posting.entry_of_row Posting.insert_lines Posting.load_entry_by_payment_id post_body
    Statements.query_on Store.attempts post_double_entry with_serializable Ledger.add_line
    Ledger.check_line is_no_rows transaction
posted_rows = refl
