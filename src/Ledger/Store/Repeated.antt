-- ===== src/Ledger/Store/Repeated.antt =====
-- A payment is posted at most once: `PostDoubleEntry` of services/ledger-svc/internal/store.go.
use vrp_oneclick_deposit_pla.Common.{
  false, ◌||◌, String, List, ◌≡◌, refl, sym, subst, arith, some, find_row, ◌==◌, Option-cases, inl,
  inr, find_row-or_none, suc,
}
use vrp_oneclick_deposit_pla.Domainerr.{Code, wrapped, Result, ok, err}
use vrp_oneclick_deposit_pla.Domainerr.Triple.{
  ignore_outcome, Either, Triple, Triple-pure, Triple-raise, Triple-attempt, Triple-if,
  Triple-result, attempt_same,
}
use vrp_oneclick_deposit_pla.Postgres.{
  Server, Session, Query, attempt, raise, lift, or_wrap, is_no_rows, ◌>>=◌,
}
use vrp_oneclick_deposit_pla.Postgres.Laws.{
  Triple-bind, Triple-or_wrap, Triple-statement, begin_func_inv, begin_func-atomic,
}
use vrp_oneclick_deposit_pla.Ledger.{LineInput, check_entry}
use vrp_oneclick_deposit_pla.Ledger.Journal.{EntryRow, Journal, of_payment}
use vrp_oneclick_deposit_pla.Ledger.Statements.{
  on_tx, query_on, select_entry, select_lines, insert_entry, with_deferred_check,
}
use vrp_oneclick_deposit_pla.Ledger.Posting.{
  JournalEntry, is_unique_violation, load_entry_by_payment_id, entry_inserted, entry_loaded,
  post_body,
}
use vrp_oneclick_deposit_pla.Ledger.Store.{run_once, with_serializable, post_double_entry}
use vrp_oneclick_deposit_pla.Ledger.Store.Retries.{keeps, with_serializable-Run}
use vrp_oneclick_deposit_pla.Ledger.Store.Laws.{with_deferred_check_inv}

-- The tables are still those of `j`.
abbrev Same : Journal → Session Journal → Type 0
Same j s = s.tables ≡ j

module _ (server : Server) (j : Journal) (payment_id : String) (e : EntryRow)
    (posted : find_row (of_payment payment_id) j.entries ≡ some e) where
  select_entry-Same :
      Triple (Same j) (select_entry server on_tx payment_id) (λ _. Same j) (λ _. Same j)
  unfolding select_entry query_on
  select_entry-Same =
      Triple-statement server {P = λ k. k ≡ j} {Q = λ _ k. k ≡ j} _ λ k l a x h. ground arith

  select_lines-Same :
      (id : String) → Triple (Same j) (select_lines server on_tx id) (λ _. Same j) (λ _. Same j)
  unfolding select_lines query_on
  select_lines-Same id =
      Triple-statement server {P = λ k. k ≡ j} {Q = λ _ k. k ≡ j} _ λ k l a x h. ground arith

  load_entry-Same :
      Triple (Same j) (load_entry_by_payment_id server on_tx payment_id) (λ _. Same j) (λ _. Same j)
  unfolding load_entry_by_payment_id
  load_entry-Same = Triple-bind {R = λ _. Same j} _ _ (attempt_same select_entry-Same) λ r.
      Triple-result r _ _ (λ x. Triple-raise _ (λ s p. p))
        λ row _.
          Triple-bind {R = λ _. Same j} _ _ (Triple-or_wrap _ _ _ (select_lines-Same row.id))
            λ rows. Triple-pure _ (λ s p. p)

  -- The entry is there, so that no other can be inserted for the payment.
  insert_entry-refused :
      (description : String)
      → Triple (Same j) (insert_entry server payment_id description) (λ _ _. ⊥) (λ _. Same j)
  unfolding insert_entry
  insert_entry-refused description = record {
    at = λ s p.
        (Triple-statement server {P = λ k. k ≡ j} {Q = λ _ _. ⊥} _ λ k l a x h.
            let found : find_row (of_payment payment_id) k.entries ≡ some e =
              subst (λ m. find_row (of_payment payment_id) m.entries ≡ some e) (sym x) posted in
            let same_id = λ (r : EntryRow). r.id == server.uuid s.count in
            let missing = find_row-or_none (of_payment payment_id) same_id k.entries in
            elim (Option-cases
              (find_row (λ (r : EntryRow). of_payment payment_id r || same_id r) k.entries)) [
                | inl n ↦ absurd (cc (missing n, found))
                | inr (y, f) ↦ absurd (ground arith)
              ]).at
          s p;
  }

  entry_inserted-Same :
      (lines : List LineInput) (r : Result EntryRow)
      → Triple
          (Either (λ _ _. ⊥) (λ _. Same j) r)
          (entry_inserted server payment_id lines r)
          (λ _. Same j)
          (λ _. Same j)
  unfolding entry_inserted
  entry_inserted-Same lines (ok row) = record { at = λ s p. absurd p }
  entry_inserted-Same lines (err x) =
      Triple-if (is_unique_violation x)
        (or_wrap Code.internal "reload after unique conflict"
          (load_entry_by_payment_id server on_tx payment_id))
        (raise (wrapped Code.internal "insert journal_entry" x))
        (λ _. Triple-or_wrap _ _ _ load_entry-Same) (λ _. Triple-raise _ (λ s p. p))

  entry_loaded-Same :
      (description : String) (lines : List LineInput) (r : Result JournalEntry)
      → Triple
          (Same j)
          (entry_loaded server payment_id description lines r)
          (λ _. Same j)
          (λ _. Same j)
  unfolding entry_loaded
  entry_loaded-Same description lines (ok existing) = Triple-pure _ (λ s p. p)
  entry_loaded-Same description lines (err x) =
      Triple-if (is_no_rows x)
        (attempt (insert_entry server payment_id description)
          >>= entry_inserted server payment_id lines)
        (raise x)
        (λ _.
          Triple-bind _ _ (Triple-attempt _ (insert_entry-refused description))
            λ r. entry_inserted-Same lines r)
        (λ _. Triple-raise _ (λ s p. p))

  post_body-Same :
      (description : String) (lines : List LineInput)
      → Triple (Same j) (post_body server payment_id description lines) (λ _. Same j) (λ _. Same j)
  unfolding post_body
  post_body-Same description lines =
      Triple-bind {R = λ _. Same j} _ _ (attempt_same load_entry-Same)
        λ r. entry_loaded-Same description lines r

-- A transaction whose body leaves the tables leaves them.
run_once-Same :
    {A : Type 0} (server : Server) (j : Journal) (body : Query Journal A)
    → Triple (Same j) body (λ _. Same j) (λ _. Same j)
    → (s : Session Journal) (p : Result A × Session Journal) → s.tables ≡ j
    → run_once server body s ≡ p
    → p.1.tables ≡ j
run_once-Same server j body k s (ok a, t) i h =
    let (u, run, same, live) = begin_func_inv server (with_deferred_check body) s h in
    let (inner, settled) = with_deferred_check_inv body _ run live in
    let begun : Session Journal = record s { count = suc s.count; aborted = false } in
    let kept = ignore_outcome (Same j) (body begun) (k.at begun i) in cc (same, inner, kept)
run_once-Same server j body k s (err e, t) i h =
    let same = begin_func-atomic server (with_deferred_check body) s e (cc (h)) in cc (h, same, i)

-- The posting of a payment that has an entry changes nothing, whatever it returns.
pub post_double_entry-again :
    (server : Server) (payment_id description : String) (lines : List LineInput)
    (s : Session Journal) (e : EntryRow)
    → find_row (of_payment payment_id) s.tables.entries ≡ some e
    → (post_double_entry server payment_id description lines s).1.tables ≡ s.tables
unfolding post_double_entry ◌>>=◌
post_double_entry-again server payment_id description lines s e h =
    checked (check_entry payment_id lines)
  where
    checked :
        (r : Result (List LineInput))
        → ((lift r >>= λ ls. with_serializable server (post_body server payment_id description ls))
            s).1.tables
          ≡ s.tables
    checked (err x) = refl
    checked (ok ls) =
        let body = post_body server payment_id description ls in
        keeps server body (λ k. k ≡ s.tables) 4 s _
          (λ u i.
            run_once-Same server s.tables body
              (post_body-Same server s.tables payment_id e h description ls) u
              (run_once server body u) i refl)
          refl (with_serializable-Run server body s)
