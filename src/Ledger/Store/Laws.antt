-- ===== src/Ledger/Store/Laws.antt =====
-- The journal of services/ledger-svc/internal/store.go stays balanced.
use vrp_oneclick_deposit_pla.Common.{
  true, false, not, ◌||◌, String, List, [], ◌∷◌, map, ◌≡◌, refl, ◌≤◌, arith, subst, sym, sum_rows,
  suc, ◌==◌, ltb_ℤ,
}
use mathlib.Core.List.{append-nil}
use vrp_oneclick_deposit_pla.Domainerr.{Result, ok, err, reject_if}
use vrp_oneclick_deposit_pla.Domainerr.Triple.{outcome_ok, Triple}
use vrp_oneclick_deposit_pla.Postgres.{
  statement, pool_statement, Server, scan_int64, Session, Query, lift, ◌>>=◌,
}
use vrp_oneclick_deposit_pla.Postgres.Laws.{begin_func_inv, begin_func-atomic}
use vrp_oneclick_deposit_pla.Ledger.{
  LineInput, check_entry, check_lines, at_least_two, normalized_line, zero_totals, invalid,
}
use vrp_oneclick_deposit_pla.Ledger.Laws.{reject_inv, bind_inv}
use vrp_oneclick_deposit_pla.Ledger.Journal.{scan_balance, Journal, are_settled, drop_rows}
use vrp_oneclick_deposit_pla.Ledger.Journal.Laws.{Balanced, size, no_lines}
use vrp_oneclick_deposit_pla.Ledger.Statements.{
  select_entry, select_lines, query_on, with_deferred_check,
}
use vrp_oneclick_deposit_pla.Ledger.Statements.Laws.{Extends, Step}
use vrp_oneclick_deposit_pla.Ledger.Posting.{load_entry_by_payment_id, post_body}
use vrp_oneclick_deposit_pla.Ledger.Posting.Laws.{Anything, key, post_body-Step}
use vrp_oneclick_deposit_pla.Ledger.Reversal.{reverse_body}
use vrp_oneclick_deposit_pla.Ledger.Reversal.Laws.{reverse_body-Step}
use vrp_oneclick_deposit_pla.Ledger.Store.Retries.{keeps, with_serializable-Run}
use vrp_oneclick_deposit_pla.Ledger.Store.Sums.{Step-Balanced}
use vrp_oneclick_deposit_pla.Ledger.Store.{
  get_balance, get_journal_entry, run_once, with_serializable, post_double_entry, reverse_entry,
  Request, posting, reversal, balance_of, entry_of, started, called, perform, Reachable,
}

pub with_deferred_check_inv :
    {A : Type 0} (body : Query Journal A) (s : Session Journal) {a : A} {t : Session Journal}
    → with_deferred_check body s ≡ (ok a, t)
    → t.aborted ≡ false
    → (body s ≡ (ok a, t)) × (are_settled t.tables (drop_rows s.tables.lines t.tables.lines) ≡ true)
unfolding with_deferred_check
with_deferred_check_inv body s h k = (ground arith, ground arith)

-- The session that an attempt leaves.
abbrev Stays : {A : Type 0} → Result A × Session Journal → Type 0
Stays (_, t) = Balanced t.tables

module _ {A : Type 0} (server : Server) (body : Query Journal A)
    (step : (before : Journal)
      → Balanced before
      → Triple (λ s. Extends before [] s.tables) body (λ _ s. Step before s.tables) Anything) where
  committed-Balanced :
      (s u t : Session Journal) (a : A)
      → Balanced s.tables
      → with_deferred_check body (record s { count = suc s.count; aborted = false }) ≡ (ok a, u)
      → u.aborted ≡ false
      → t.tables ≡ u.tables
      → Balanced t.tables
  committed-Balanced s u t a b h k e =
      let (run, settled) = with_deferred_check_inv body _ h k in
      let x : Extends s.tables [] s.tables = record {
        lines = sym (append-nil s.tables.lines);
        valid = b.valid;
      } in
      let begun : Session Journal = record s { count = suc s.count; aborted = false } in
      let done : Step s.tables (body begun).1.tables =
        outcome_ok {A = A} (λ _ (w : Session Journal). Step s.tables w.tables) Anything (body begun)
          {a = a} ((step s.tables b).at begun x) (cc (run)) in
      let final : Step s.tables t.tables = subst (λ j. Step s.tables j) (cc) done in
      Step-Balanced s.tables t.tables b final
        (subst (λ j. are_settled j (drop_rows s.tables.lines j.lines) ≡ true) (sym e) settled)

  run_once-Stays :
      (s : Session Journal) (p : Result A × Session Journal)
      → Balanced s.tables
      → run_once server body s ≡ p
      → Stays p
  run_once-Stays s (ok a, t) b h =
      let (u, run, same, live) = begin_func_inv server (with_deferred_check body) s h in
      committed-Balanced s u t a b run live same
  run_once-Stays s (err e, t) b h =
      let same = begin_func-atomic server (with_deferred_check body) s e (cc) in
      subst Balanced (cc) b

  with_serializable-Stays :
      (s : Session Journal) → Balanced s.tables → Stays (with_serializable server body s)
  with_serializable-Stays s b =
      keeps server body Balanced 4 s _ (λ u c. run_once-Stays u (run_once server body u) c refl) b
        (with_serializable-Run server body s)

-- Of the lines that pass the checks there are two at least.
two-size :
    (lines : List LineInput)
    → not (at_least_two lines) ≡ false
    → 2 ≤ size (map key (map normalized_line lines))
unfolding size
two-size [] h = absurd (ground arith)
two-size (l ∷ []) h = absurd (ground arith)
two-size (l ∷ k ∷ ls) h = omega arith

check_entry-size :
    (payment_id : String) (lines checked : List LineInput)
    → check_entry payment_id lines ≡ ok checked
    → 2 ≤ size (map key checked)
unfolding check_entry
check_entry-size payment_id lines checked h =
    let (named, h1) = reject_inv (payment_id == "") _ _ h in
    let (two, h2) = reject_inv (not (at_least_two lines)) _ _ h1 in
    let (t, totals, h3) = bind_inv (check_lines 0 "" zero_totals lines) _ h2 in
    let (balanced, h4) = reject_inv (ltb_ℤ t.debit t.credit || ltb_ℤ t.credit t.debit) _ _ h3 in
    subst (λ ls. 2 ≤ size (map key ls)) (cc (h4)) (two-size lines two)

lift-Stays :
    {A B : Type 0} (r : Result A) (f : A → Query Journal B) (s : Session Journal)
    → Balanced s.tables
    → ((a : A) → r ≡ ok a → Stays (f a s))
    → Stays ((lift r >>= f) s)
unfolding ◌>>=◌
lift-Stays (ok a) f s b k = k a refl
lift-Stays (err e) f s b k = b

module _ (server : Server) where
  post_double_entry-Balanced :
      (payment_id description : String) (lines : List LineInput) (s : Session Journal)
      → Balanced s.tables
      → Balanced (post_double_entry server payment_id description lines s).1.tables
  unfolding post_double_entry
  post_double_entry-Balanced payment_id description lines s b =
      lift-Stays (check_entry payment_id lines) _ s b λ ls h.
        with_serializable-Stays server (post_body server payment_id description ls)
          (λ before _.
            post_body-Step server before payment_id description ls
              (check_entry-size payment_id lines ls h))
          s b

  reverse_entry-Balanced :
      (payment_id reason : String) (s : Session Journal)
      → Balanced s.tables
      → Balanced (reverse_entry server payment_id reason s).1.tables
  unfolding reverse_entry
  reverse_entry-Balanced payment_id reason s b =
      lift-Stays (reject_if (payment_id == "") (invalid "payment_id is required")) _ s b λ _ h.
        with_serializable-Stays server (reverse_body server payment_id reason)
          (λ before balanced. reverse_body-Step server before payment_id reason balanced) s b

  get_balance-unchanged :
      (account_type owner_ref currency : String) (s : Session Journal)
      → (get_balance server account_type owner_ref currency s).1.tables ≡ s.tables
  unfolding get_balance ◌>>=◌ scan_balance scan_int64 pool_statement statement
  get_balance-unchanged account_type owner_ref currency s = ground arith

  get_journal_entry-unchanged :
      (payment_id : String) (s : Session Journal)
      → (get_journal_entry server payment_id s).1.tables ≡ s.tables
  unfolding get_journal_entry load_entry_by_payment_id ◌>>=◌ select_entry select_lines query_on
      pool_statement statement
  get_journal_entry-unchanged payment_id s = ground arith

-- Every call of the store, whatever its outcome, keeps a balanced journal balanced.
pub perform-Balanced :
    (server : Server) (r : Request) (s : Session Journal)
    → Balanced s.tables
    → Balanced (perform server r s).tables
unfolding perform
perform-Balanced server (posting payment_id description lines) s b =
    post_double_entry-Balanced server payment_id description lines s b
perform-Balanced server (reversal payment_id reason) s b =
    reverse_entry-Balanced server payment_id reason s b
perform-Balanced server (balance_of account_type owner_ref currency) s b =
    subst Balanced (sym (get_balance-unchanged server account_type owner_ref currency s)) b
perform-Balanced server (entry_of payment_id) s b =
    subst Balanced (sym (get_journal_entry-unchanged server payment_id s)) b

-- In every journal that calls of the store lead to, from an empty one and with any failures of the
-- server, each entry's debits and credits are equal, and so are those of all lines together.
pub Reachable-Balanced : (s : Session Journal) → Reachable s → Balanced s.tables
unfolding sum_rows
Reachable-Balanced _ (started count) = record { valid = no_lines; entries = λ e. refl; all = refl }
Reachable-Balanced _ (called server r s h) = perform-Balanced server r s (Reachable-Balanced s h)
