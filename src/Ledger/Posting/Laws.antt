-- ===== src/Ledger/Posting/Laws.antt =====
-- What the transaction of `PostDoubleEntry` of services/ledger-svc/internal/store.go adds.
use vrp_oneclick_deposit_pla.Common.{String, List, [], ◌∷◌, ◌++◌, map, ℤ, ◌≤◌, inl}
use vrp_oneclick_deposit_pla.Domainerr.{Code, Err, wrapped, Result, ok, err}
use vrp_oneclick_deposit_pla.Domainerr.Triple.{
  Triple, Triple-pure, Triple-raise, Triple-if, Triple-result, Triple-result, strengthen,
  attempt_same, forget,
}
use vrp_oneclick_deposit_pla.Postgres.{Server, Session, attempt, raise, or_wrap, is_no_rows, ◌>>=◌}
use vrp_oneclick_deposit_pla.Postgres.Laws.{Triple-bind, Triple-or_wrap}
use vrp_oneclick_deposit_pla.Ledger.{LineInput}
use vrp_oneclick_deposit_pla.Ledger.Journal.{EntryRow, LineRow, Journal}
use vrp_oneclick_deposit_pla.Ledger.Journal.Laws.{size}
use vrp_oneclick_deposit_pla.Ledger.Statements.{on_tx, select_lines, insert_entry}
use vrp_oneclick_deposit_pla.Ledger.Statements.Laws.{
  Extends, Last, Added, Added-cons, Added-nil, Step, nothing_added, entry_added,
  select_entry-Triple, select_lines-Triple, insert_entry-Triple, ensure_account-Triple,
  insert_line-Triple,
}
use vrp_oneclick_deposit_pla.Ledger.Posting.{
  is_unique_violation, JournalEntry, load_entry_by_payment_id, insert_lines, entry_inserted,
  entry_loaded, post_body,
}

abbrev pub key : LineInput → String × ℤ
key l = (l.direction, l.amount_pence)

-- The error of a transaction is of no account: it is rolled back.
abbrev pub Anything : Err → Session Journal → Type 0
Anything e s = Unit {0}

module _ (server : Server) (before : Journal) where
  pub insert_lines-Triple :
      (new : List LineRow) (entry : String) (ls : List LineInput)
      → Triple
          (λ s. Extends before new s.tables)
          (insert_lines server entry ls)
          (λ _ s. Added before new entry (map key ls) s.tables)
          Anything
  unfolding insert_lines
  insert_lines-Triple new entry [] = Triple-pure _ λ s p. Added-nil before new entry s.tables p
  insert_lines-Triple new entry (l ∷ ls) =
      Triple-bind {R = λ _ s. Extends before new s.tables} _ _
        (forget (ensure_account-Triple server before new l.account_type l.owner_ref l.currency))
        λ account.
          Triple-bind {R = λ _ s. Last before new entry l.direction l.amount_pence s.tables} _ _
            (Triple-or_wrap _ _ _ (
              forget
                (insert_line-Triple server before new entry account l.direction l.amount_pence)))
            λ id. record {
              at = λ s k.
                  (Triple-bind _ _ (insert_lines-Triple (new ++ k.row ∷ []) entry ls) λ rest.
                      Triple-pure {E = Anything} _ λ t a.
                        Added-cons before new k.row entry l.direction l.amount_pence (map key ls)
                          t.tables k.of_entry k.directed k.valued a).at
                    s k.extends;
            }

  pub load_entry-Triple :
      (new : List LineRow) (payment_id : String)
      → Triple
          (λ s. Extends before new s.tables)
          (load_entry_by_payment_id server on_tx payment_id)
          (λ _ s. Extends before new s.tables)
          (λ _ s. Extends before new s.tables)
  unfolding load_entry_by_payment_id
  load_entry-Triple new payment_id =
      Triple-bind {R = λ _ s. Extends before new s.tables} _ _
        (attempt_same (select_entry-Triple server before new payment_id))
        λ r.
          Triple-result r _ _ (λ e. Triple-raise _ (λ s p. p))
            λ e _.
              Triple-bind {R = λ _ s. Extends before new s.tables} _ _
                (Triple-or_wrap _ _ _ (lines_kept new e.id)) λ rows. Triple-pure _ (λ s p. p)
    where
      lines_kept :
          (new : List LineRow) (entry : String)
          → Triple
              (λ s. Extends before new s.tables)
              (select_lines server on_tx entry)
              (λ _ s. Extends before new s.tables)
              (λ _ s. Extends before new s.tables)
      lines_kept new entry =
          strengthen (λ rows s p. p.0) (select_lines-Triple server before new entry)

  entry_inserted-Triple :
      (payment_id : String) (lines : List LineInput) (r : Result EntryRow)
      → 2 ≤ size (map key lines)
      → Triple
          (λ s. Extends before [] s.tables)
          (entry_inserted server payment_id lines r)
          (λ _ s. Step before s.tables)
          Anything
  unfolding entry_inserted
  entry_inserted-Triple payment_id lines (err e) n =
      Triple-if (is_unique_violation e)
        (or_wrap Code.internal "reload after unique conflict"
          (load_entry_by_payment_id server on_tx payment_id))
        (raise (wrapped Code.internal "insert journal_entry" e))
        (λ _.
          Triple-or_wrap _ _ _
            (forget (strengthen (λ a s x. nothing_added x) (load_entry-Triple [] payment_id))))
        (λ _. Triple-raise _ (λ s p. tt))
  entry_inserted-Triple payment_id lines (ok row) n =
      Triple-bind _ _ (insert_lines-Triple [] row.id lines)
        λ out. Triple-pure _ (λ s a. entry_added row.id (map key lines) (inl n) a)

  entry_loaded-Triple :
      (payment_id description : String) (lines : List LineInput) (r : Result JournalEntry)
      → 2 ≤ size (map key lines)
      → Triple
          (λ s. Extends before [] s.tables)
          (entry_loaded server payment_id description lines r)
          (λ _ s. Step before s.tables)
          Anything
  unfolding entry_loaded
  entry_loaded-Triple payment_id description lines (ok existing) n =
      Triple-pure _ (λ s x. nothing_added x)
  entry_loaded-Triple payment_id description lines (err e) n =
      Triple-if (is_no_rows e)
        (attempt (insert_entry server payment_id description)
          >>= entry_inserted server payment_id lines)
        (raise e)
        (λ _.
          Triple-bind {R = λ _ s. Extends before [] s.tables} _ _
            (attempt_same (insert_entry-Triple server before [] payment_id description))
            λ r. entry_inserted-Triple payment_id lines r n)
        (λ _. Triple-raise _ (λ s p. tt))

  -- A posting adds no line, or those of one entry, two at least.
  pub post_body-Step :
      (payment_id description : String) (lines : List LineInput)
      → 2 ≤ size (map key lines)
      → Triple
          (λ s. Extends before [] s.tables)
          (post_body server payment_id description lines)
          (λ _ s. Step before s.tables)
          Anything
  unfolding post_body
  post_body-Step payment_id description lines n =
      Triple-bind {R = λ _ s. Extends before [] s.tables} _ _
        (attempt_same (load_entry-Triple [] payment_id))
        λ r. entry_loaded-Triple payment_id description lines r n
