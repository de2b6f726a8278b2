-- ===== src/Ledger/Store.antt =====
-- services/ledger-svc/internal/store.go: the operations of `Store` on the journal, each a serializable
-- transaction that is repeated where it could not be serialized.
pub mod Laws
pub mod Sums
pub mod Retries
pub mod Repeated
use vrp_oneclick_deposit_pla.Common.{
  List, [], ◌-◌, ℕ, zero, suc, true, false, not, ◌==◌, String, byte_len, List, eqb, if◌then◌else◌,
  ℤ,
}
use vrp_oneclick_deposit_pla.Domainerr.{Code, domain, wrapped, ok, err, reject_if, conflict}
use vrp_oneclick_deposit_pla.Postgres.{
  Server, Session, Query, pure, raise, lift, attempt, ◌>>=◌, ◌>>◌, or_wrap, is_no_rows, begin_func,
  pool_statement,
}
use vrp_oneclick_deposit_pla.Ledger.{LineInput, invalid, check_entry, normalized, trim_space}
use vrp_oneclick_deposit_pla.Ledger.Journal.{Journal, scan_balance}
use vrp_oneclick_deposit_pla.Ledger.Statements.{on_pool, with_deferred_check}
use vrp_oneclick_deposit_pla.Ledger.Posting.{
  JournalEntry, is_serialization_failure, load_entry_by_payment_id, post_body,
}
use vrp_oneclick_deposit_pla.Ledger.Reversal.{reverse_body}

module _ (server : Server) where
  -- One `pgx.BeginTxFunc` with the trigger's deferred check.
  abbrev pub run_once : {A : Type 0} → Query Journal A → Query Journal A
  run_once body = begin_func server (with_deferred_check body)

  -- The loop of `withSerializable` with `n` attempts after this one.
  unfoldable pub attempts : {A : Type 0} → ℕ → Query Journal A → Query Journal A
  unfolding is_serialization_failure
  attempts zero body s =
      let (r, t) = run_once body s in
      elim r [
        | ok a ↦ (ok a, t)
        | err e ↦ (
          err (
              if is_serialization_failure e
              then wrapped conflict "serializable transaction retries exhausted" e
              else e),
          t,
        )
      ]
  attempts (suc n) body s =
      let (r, t) = run_once body s in
      elim r [
        | ok a ↦ (ok a, t)
        | err e ↦ elim (is_serialization_failure e) [
          | true ↦ attempts n body t
          | false ↦ (err e, t)
        ]
      ]

  abbrev pub max_attempts : ℕ
  max_attempts = 5

  unfoldable pub with_serializable : {A : Type 0} → Query Journal A → Query Journal A
  unfolding attempts
  with_serializable body = attempts (max_attempts - 1) body

  unfoldable pub post_double_entry : String → String → List LineInput → Query Journal JournalEntry
  unfolding post_body with_serializable
  post_double_entry payment_id description lines = do
    checked ← lift (check_entry payment_id lines)
    with_serializable (post_body server payment_id description checked)

  unfoldable pub reverse_entry : String → String → Query Journal (Unit {0})
  unfolding reverse_body with_serializable
  reverse_entry payment_id reason = do
    lift (reject_if (payment_id == "") (invalid "payment_id is required"))
    with_serializable (reverse_body server payment_id reason)

  abbrev or_gbp : String → String
  or_gbp currency = if currency == "" then "GBP" else currency

  -- The balance with its currency; `AsOf` is the clock's.
  unfoldable pub get_balance : String → String → String → Query Journal (ℤ × String)
  unfolding scan_balance
  get_balance account_type owner_ref currency = do
    lift (reject_if (account_type == "") (invalid "account_type is required"))
    lift (reject_if (trim_space owner_ref == "") (invalid "owner_ref is required"))
    let cur = or_gbp (normalized currency)
    lift (reject_if (not (eqb (byte_len cur) 3)) (invalid "currency must be 3-letter ISO code"))
    balance ←
        or_wrap Code.internal "get balance"
          (pool_statement server (scan_balance account_type owner_ref cur))
    pure (balance, cur)

  unfoldable pub get_journal_entry : String → Query Journal JournalEntry
  unfolding load_entry_by_payment_id
  get_journal_entry payment_id = do
    lift (reject_if (payment_id == "") (invalid "payment_id is required"))
    r ← attempt (load_entry_by_payment_id server on_pool payment_id)
    elim r [
      | ok e ↦ pure e
      | err e ↦ raise (if is_no_rows e then domain Code.not_found "journal entry not found" else e)
    ]

-- The calls of `Store`.
pub data Request : Type 0 where
  posting : String → String → List LineInput → Request
  reversal : String → String → Request
  balance_of : String → String → String → Request
  entry_of : String → Request

-- What a call leaves.
unfoldable pub perform : Server → Request → Session Journal → Session Journal
unfolding post_double_entry reverse_entry get_balance get_journal_entry
perform server (posting payment_id description lines) s =
    let (_, t) = post_double_entry server payment_id description lines s in t
perform server (reversal payment_id reason) s =
    let (_, t) = reverse_entry server payment_id reason s in t
perform server (balance_of account_type owner_ref currency) s =
    let (_, t) = get_balance server account_type owner_ref currency s in t
perform server (entry_of payment_id) s = let (_, t) = get_journal_entry server payment_id s in t

abbrev pub empty_journal : Journal
empty_journal = record { accounts = []; entries = []; lines = [] }

-- The sessions that calls lead to from an empty journal, whatever the server does at each.
pub data Reachable : Session Journal → Type 0 where
  started :
      (count : ℕ) → Reachable (record { tables = empty_journal; count = count; aborted = false })
  called :
      (server : Server) (r : Request) (s : Session Journal)
      → Reachable s
      → Reachable (perform server r s)
