-- ===== src/Ledger/Reversal/Laws.antt =====
-- What the transaction of `ReverseEntry` of services/ledger-svc/internal/store.go adds.
use vrp_oneclick_deposit_pla.Common.{
  String, List, [], ◌∷◌, ◌++◌, map, ◌≡◌, refl, ℤ, pos, ◌-ℤ◌, int_laws, inl, inr, ◌⊎◌, ◌+++◌, ◌∙◌,
  ap, sum_rows,
}
use mathlib.Core.List.{append-nil}
use vrp_oneclick_deposit_pla.Domainerr.{Code, wrapped, Result, ok, err}
use vrp_oneclick_deposit_pla.Domainerr.Triple.{
  Triple, Triple-pure, Triple-raise, Triple-if, strengthen, attempt_same, forget,
}
use vrp_oneclick_deposit_pla.Postgres.{Server, attempt, raise, pure, or_wrap, is_no_rows, ◌>>=◌}
use vrp_oneclick_deposit_pla.Postgres.Laws.{Triple-bind, Triple-or_wrap}
use vrp_oneclick_deposit_pla.Ledger.Journal.{
  EntryRow, LineRow, Journal, JoinedLine, join_lines, signed_amount, signed, of_entry,
}
use vrp_oneclick_deposit_pla.Ledger.Journal.Laws.{
  Balanced, Directed, no_joined, directed, signed_sum, joined_sum, join_lines-sum,
  join_lines-Directed,
}
use vrp_oneclick_deposit_pla.Ledger.Statements.{on_tx, select_entry, select_lines, mark_reversed}
use vrp_oneclick_deposit_pla.Ledger.Statements.Laws.{
  Extends, Last, Added, Added-cons, Added-nil, Step, nothing_added, entry_added,
  select_entry-Triple, select_lines-Triple, insert_entry-Triple, ensure_account-Triple,
  insert_line-Triple, mark_reversed-Triple,
}
use vrp_oneclick_deposit_pla.Ledger.Posting.{is_unique_violation}
use vrp_oneclick_deposit_pla.Ledger.Posting.Laws.{Anything}
use vrp_oneclick_deposit_pla.Ledger.Reversal.{
  opposite, reversal_description, insert_opposites, reverse_inserted, reverse_lines,
  reverse_checked, reverse_loaded, reverse_body,
}

-- What the reversal inserts for a line.
abbrev pub opposite_key : JoinedLine → String × ℤ
opposite_key l = (opposite l.line.direction, l.line.amount_pence)

opposite_amount :
    (d : String) (z : ℤ)
    → (d ≡ "DR") ⊎ (d ≡ "CR")
    → signed_amount (opposite d) z ≡ pos 0 -ℤ signed_amount d z
unfolding opposite
opposite_amount d z (inl e) = rw e (omega int_laws)
opposite_amount d z (inr e) = rw e refl

-- The opposite lines sum up to the opposite.
opposite_sum :
    (ls : List JoinedLine) → Directed ls → signed_sum (map opposite_key ls) ≡ pos 0 -ℤ joined_sum ls
unfolding signed_sum joined_sum
opposite_sum [] no_joined = omega int_laws
opposite_sum _ (directed a others d rest) =
    let k = opposite_sum others rest in
    let e = opposite_amount a.line.direction a.line.amount_pence d in rw e (rw k (omega int_laws))

-- The lines of a balanced journal are reversed by lines that sum up to zero.
reversal-zero :
    (j k : Journal) (entry : String)
    → Balanced j
    → Extends j [] k
    → signed_sum (map opposite_key (join_lines k.accounts entry k.lines)) ≡ pos 0
unfolding ◌-ℤ◌
reversal-zero j k entry b x =
    let same : k.lines ≡ j.lines = x.lines ∙ append-nil j.lines in
    let joined = join_lines-sum k.accounts entry k.lines x.valid in
    let sum =
      opposite_sum (join_lines k.accounts entry k.lines)
        (join_lines-Directed k.accounts entry k.lines x.valid) in
    let zero : sum_rows (of_entry entry) signed k.lines ≡ pos 0 =
      ap (λ ls. sum_rows (of_entry entry) signed ls) same ∙ b.entries entry in
    sum ∙ ap (λ z. pos 0 -ℤ z) (joined ∙ zero)

module _ (server : Server) (before : Journal) where
  pub insert_opposites-Triple :
      (new : List LineRow) (entry : String) (ls : List JoinedLine)
      → Triple
          (λ s. Extends before new s.tables)
          (insert_opposites server entry ls)
          (λ _ s. Added before new entry (map opposite_key ls) s.tables)
          Anything
  unfolding insert_opposites
  insert_opposites-Triple new entry [] = Triple-pure _ λ s p. Added-nil before new entry s.tables p
  insert_opposites-Triple new entry (l ∷ ls) =
      let d = opposite l.line.direction in
      let z = l.line.amount_pence in
      Triple-bind {R = λ _ s. Extends before new s.tables} _ _
        (forget (
          ensure_account-Triple server before new l.account.account_type l.account.owner_ref
            l.account.currency))
        λ account.
          Triple-bind {R = λ _ s. Last before new entry d z s.tables} _ _
            (Triple-or_wrap _ _ _ (forget (insert_line-Triple server before new entry account d z)))
            λ id. record {
              at = λ s k.
                  (strengthen
                      (λ _ t a.
                        Added-cons before new k.row entry d z (map opposite_key ls) t.tables
                          k.of_entry k.directed k.valued a)
                      (insert_opposites-Triple (new ++ k.row ∷ []) entry ls)).at
                    s k.extends;
            }

  reverse_inserted-Triple :
      (entry : String) (orig : List JoinedLine) (r : Result EntryRow)
      → signed_sum (map opposite_key orig) ≡ pos 0
      → Triple
          (λ s. Extends before [] s.tables)
          (reverse_inserted server entry orig r)
          (λ _ s. Step before s.tables)
          Anything
  unfolding reverse_inserted
  reverse_inserted-Triple entry orig (err e) z =
      Triple-if (is_unique_violation e) (mark_reversed server entry)
        (raise (wrapped Code.internal "insert reverse journal_entry" e))
        (λ _.
          forget
            (strengthen (λ _ s x. nothing_added x) (mark_reversed-Triple server before [] entry)))
        (λ _. Triple-raise _ (λ s p. tt))
  reverse_inserted-Triple entry orig (ok row) z =
      Triple-bind _ _ (insert_opposites-Triple [] row.id orig) λ _. Triple-or_wrap _ _ _ (record {
        at = λ s a.
            (forget (
                strengthen
                  (λ _ t x.
                    entry_added row.id (map opposite_key orig) (inr z)
                      (record { rows = a.rows; inserted_rows = a.inserted_rows; extends = x }))
                  (mark_reversed-Triple server before a.rows entry))).at
              s a.extends;
      })

  reverse_lines-Triple :
      (payment_id reason entry : String) (orig : List JoinedLine)
      → signed_sum (map opposite_key orig) ≡ pos 0
      → Triple
          (λ s. Extends before [] s.tables)
          (reverse_lines server payment_id reason entry orig)
          (λ _ s. Step before s.tables)
          Anything
  unfolding reverse_lines
  reverse_lines-Triple payment_id reason entry [] z = Triple-raise _ (λ s p. tt)
  reverse_lines-Triple payment_id reason entry (l ∷ ls) z =
      Triple-bind {R = λ _ s. Extends before [] s.tables} _ _
        (attempt_same (
          insert_entry-Triple server before [] (payment_id +++ "-rev")
            (reversal_description reason)))
        λ r. reverse_inserted-Triple entry (l ∷ ls) r z

  reverse_checked-Triple :
      (payment_id reason entry : String) (r : Result EntryRow)
      → Balanced before
      → Triple
          (λ s. Extends before [] s.tables)
          (reverse_checked server payment_id reason entry r)
          (λ _ s. Step before s.tables)
          Anything
  unfolding reverse_checked
  reverse_checked-Triple payment_id reason entry (ok existing) b =
      Triple-bind {R = λ _ s. Extends before [] s.tables} _ _
        (attempt_same (mark_reversed-Triple server before [] entry))
        λ _. Triple-pure _ (λ s x. nothing_added x)
  reverse_checked-Triple payment_id reason entry (err e) b =
      Triple-if (is_no_rows e)
        (or_wrap Code.internal "load journal lines" (select_lines server on_tx entry)
          >>= reverse_lines server payment_id reason entry)
        (raise (wrapped Code.internal "check reverse entry" e))
        (λ _.
          Triple-bind
            {R = λ orig s.
              Extends before [] s.tables × (signed_sum (map opposite_key orig) ≡ pos 0)}
            _ _
            (Triple-or_wrap _ _ _ (
              forget (
                strengthen
                  (λ rows s p. (
                    p.0,
                    ap (λ rows. signed_sum (map opposite_key rows)) p.1
                        ∙ reversal-zero before s.tables entry b p.0,
                  ))
                  (select_lines-Triple server before [] entry))))
            λ orig. record {
              at = λ s p. (reverse_lines-Triple payment_id reason entry orig p.1).at s p.0;
            })
        (λ _. Triple-raise _ (λ s p. tt))

  reverse_loaded-Triple :
      (payment_id reason : String) (r : Result EntryRow)
      → Balanced before
      → Triple
          (λ s. Extends before [] s.tables)
          (reverse_loaded server payment_id reason r)
          (λ _ s. Step before s.tables)
          Anything
  unfolding reverse_loaded
  reverse_loaded-Triple payment_id reason (err e) b = Triple-raise _ (λ s p. tt)
  reverse_loaded-Triple payment_id reason (ok row) b =
      Triple-if row.reversed (pure tt)
        (attempt (select_entry server on_tx (payment_id +++ "-rev"))
          >>= reverse_checked server payment_id reason row.id)
        (λ _. Triple-pure _ (λ s x. nothing_added x))
        (λ _.
          Triple-bind {R = λ _ s. Extends before [] s.tables} _ _
            (attempt_same (select_entry-Triple server before [] (payment_id +++ "-rev")))
            λ r. reverse_checked-Triple payment_id reason row.id r b)

  -- A reversal adds no line, or those of one entry, which sum up to zero.
  pub reverse_body-Step :
      (payment_id reason : String)
      → Balanced before
      → Triple
          (λ s. Extends before [] s.tables)
          (reverse_body server payment_id reason)
          (λ _ s. Step before s.tables)
          Anything
  unfolding reverse_body
  reverse_body-Step payment_id reason b =
      Triple-bind {R = λ _ s. Extends before [] s.tables} _ _
        (attempt_same (select_entry-Triple server before [] payment_id))
        λ r. reverse_loaded-Triple payment_id reason r b
