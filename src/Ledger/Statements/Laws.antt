-- ===== src/Ledger/Statements/Laws.antt =====
-- What the statements of services/ledger-svc/internal/store.go do to the lines of the journal.
use vrp_oneclick_deposit_pla.Common.{
  ◌≤◌, true, false, ◌||◌, ◌==◌, String, List, [], ◌∷◌, ◌++◌, ◌≡◌, refl, sym, ap, ◌∙◌, subst, arith,
  ℤ, pos, eq_iff, find_row, ◌⊎◌, inl, inr, Bool-cases, Option-cases, leb_ℤ,
}
use mathlib.Core.List.{append_assoc, append-nil}
use vrp_oneclick_deposit_pla.Domainerr.{Code, ok}
use vrp_oneclick_deposit_pla.Domainerr.Triple.{Triple}
use vrp_oneclick_deposit_pla.Postgres.{Server}
use vrp_oneclick_deposit_pla.Postgres.Laws.{Triple-statement, Triple-or_wrap}
use vrp_oneclick_deposit_pla.Ledger.Journal.{
  AccountRow, LineRow, Journal, join_lines, upsert_account, add_line_row, has_account_id,
  is_account,
}
use vrp_oneclick_deposit_pla.Ledger.Journal.Laws.{
  Inserted, nothing, inserted, size, signed_sum, ValidLines, ValidLines-account, ValidLines-++,
}
use vrp_oneclick_deposit_pla.Ledger.Statements.{
  on_tx, query_on, select_entry, select_lines, insert_entry, ensure_account, insert_line,
  mark_reversed,
}

-- The journal has the lines of `before` and then `new`, all of them valid.
pub record Extends (before : Journal) (new : List LineRow) (j : Journal) : Type 0 where
  pub lines : j.lines ≡ before.lines ++ new
  pub valid : ValidLines j.accounts j.lines

-- The row that was inserted last.
pub record Last (before : Journal) (new : List LineRow) (entry direction : String) (amount : ℤ)
    (j : Journal) : Type 0 where
  pub row : LineRow
  pub of_entry : row.journal_entry_id ≡ entry
  pub directed : row.direction ≡ direction
  pub valued : row.amount_pence ≡ amount
  pub extends : Extends before (new ++ row ∷ []) j

-- What changes no line and no account keeps the rows valid.
pub kept-Extends :
    (before : Journal) (new : List LineRow) (j k : Journal)
    → Extends before new j
    → k.lines ≡ j.lines
    → k.accounts ≡ j.accounts
    → Extends before new k
kept-Extends before new j k x h a = record {
  lines = h ∙ x.lines;
  valid =
      subst (λ ls. ValidLines k.accounts ls) (sym h)
        (subst (λ rows. ValidLines rows j.lines) (sym a) x.valid);
}

one_way : (d : String) → ((d == "DR") || (d == "CR")) ≡ true → (d ≡ "DR") ⊎ (d ≡ "CR")
one_way d h = elim (Bool-cases (d == "DR")) [
  | inl e ↦ inl ((eq_iff d "DR").0 e)
  | inr e ↦ inr ((eq_iff d "CR").0 (ground arith))
]

upsert_account-Extends :
    (before : Journal) (new : List LineRow) (row : AccountRow) (j k : Journal) (id : String)
    → Extends before new j
    → upsert_account row j ≡ ok (id, k)
    → Extends before new k
unfolding upsert_account
upsert_account-Extends before new row j k id x h =
    let found = find_row (is_account row.account_type row.owner_ref row.currency) j.accounts in
    let taken = find_row (has_account_id row.id) j.accounts in
    elim (Option-cases found) [
      | inr (a, e) ↦ kept-Extends before new j k x (ground arith) (ground arith)
      | inl e ↦ elim (Option-cases taken) [
        | inr (a, f) ↦ absurd (ground arith)
        | inl f ↦
            let same : k ≡ record j { accounts = j.accounts ++ row ∷ [] } = ground arith in
            subst (λ k. Extends before new k) (sym same)
              (record {
                lines = x.lines;
                valid = ValidLines-account j.accounts row j.lines x.valid;
              })
      ]
    ]

add_line_row-Last :
    (before : Journal) (new : List LineRow) (row : LineRow) (j k : Journal) (id : String)
    → Extends before new j
    → add_line_row row j ≡ ok (id, k)
    → Last before new row.journal_entry_id row.direction row.amount_pence k
unfolding add_line_row
add_line_row-Last before new row j k id x h =
    elim (Option-cases (find_row (has_account_id row.account_id) j.accounts)) [
      | inl e ↦ absurd (ground arith)
      | inr (a, e) ↦
          let way : ((row.direction == "DR") || (row.direction == "CR")) ≡ true = ground arith in
          let positive : leb_ℤ row.amount_pence (pos 0) ≡ false = ground arith in
          let same : k ≡ record j { lines = j.lines ++ row ∷ [] } = ground arith in
          record {
            row = row;
            of_entry = refl;
            directed = refl;
            valued = refl;
            extends =
                subst (λ k. Extends before (new ++ row ∷ []) k) (sym same)
                  (record {
                    lines =
                        ap (λ ls. ls ++ row ∷ []) x.lines
                        ∙ append_assoc before.lines new (row ∷ []);
                    valid = ValidLines-++ j.accounts row j.lines x.valid (record {
                      account = (a, e);
                      direction = one_way row.direction way;
                      amount = ground arith;
                    });
                  });
          }
    ]

module _ (server : Server) (before : Journal) (new : List LineRow) where
  pub select_entry-Triple :
      (payment_id : String)
      → Triple
          (λ s. Extends before new s.tables)
          (select_entry server on_tx payment_id)
          (λ _ s. Extends before new s.tables)
          (λ _ s. Extends before new s.tables)
  unfolding select_entry query_on
  select_entry-Triple payment_id =
      Triple-statement server _
        λ j k a x h. kept-Extends before new j k x (ground arith) (ground arith)

  pub select_lines-Triple :
      (entry : String)
      → Triple
          (λ s. Extends before new s.tables)
          (select_lines server on_tx entry)
          (λ rows s.
            Extends before new s.tables
            × (rows ≡ join_lines s.tables.accounts entry s.tables.lines))
          (λ _ s. Extends before new s.tables)
  unfolding select_lines query_on
  select_lines-Triple entry =
      Triple-statement server _
        λ j k a x h. (kept-Extends before new j k x (ground arith) (ground arith), cc)

  pub insert_entry-Triple :
      (payment_id description : String)
      → Triple
          (λ s. Extends before new s.tables)
          (insert_entry server payment_id description)
          (λ _ s. Extends before new s.tables)
          (λ _ s. Extends before new s.tables)
  unfolding insert_entry
  insert_entry-Triple payment_id description = record {
    at = λ s p.
        (Triple-statement server _
            (λ j k a x h. kept-Extends before new j k x (ground arith) (ground arith))).at
          s p;
  }

  pub mark_reversed-Triple :
      (id : String)
      → Triple
          (λ s. Extends before new s.tables)
          (mark_reversed server id)
          (λ _ s. Extends before new s.tables)
          (λ _ s. Extends before new s.tables)
  unfolding mark_reversed
  mark_reversed-Triple id =
      Triple-statement server _ λ j k a x h. kept-Extends before new j k x (cc) (cc)

  pub ensure_account-Triple :
      (account_type owner_ref currency : String)
      → Triple
          (λ s. Extends before new s.tables)
          (ensure_account server account_type owner_ref currency)
          (λ _ s. Extends before new s.tables)
          (λ _ s. Extends before new s.tables)
  unfolding ensure_account
  ensure_account-Triple account_type owner_ref currency = record {
    at = λ s p.
        (Triple-or_wrap Code.internal "ensure account" _ (
            Triple-statement server _
              (λ j k a x h. upsert_account-Extends before new _ j k a x h))).at
          s p;
  }

  pub insert_line-Triple :
      (entry account direction : String) (amount : ℤ)
      → Triple
          (λ s. Extends before new s.tables)
          (insert_line server entry account direction amount)
          (λ _ s. Last before new entry direction amount s.tables)
          (λ _ s. Extends before new s.tables)
  unfolding insert_line
  insert_line-Triple entry account direction amount = record {
    at = λ s p.
        (Triple-statement server _ (λ j k a x h. add_line_row-Last before new _ j k a x h)).at s p;
  }

-- The rows that a loop of insertions has added after `new`.
pub record Added (before : Journal) (new : List LineRow) (entry : String) (ks : List (String × ℤ))
    (j : Journal) : Type 0 where
  pub rows : List LineRow
  pub inserted_rows : Inserted entry ks rows
  pub extends : Extends before (new ++ rows) j

-- One insertion and then the rest of a loop.
pub Added-cons :
    (before : Journal) (new : List LineRow) (row : LineRow) (entry d : String) (z : ℤ)
    (ks : List (String × ℤ)) (j : Journal)
    → row.journal_entry_id ≡ entry
    → row.direction ≡ d
    → row.amount_pence ≡ z
    → Added before (new ++ row ∷ []) entry ks j
    → Added before new entry ((d, z) ∷ ks) j
Added-cons before new row entry d z ks j e f g a = record {
  rows = row ∷ a.rows;
  inserted_rows = inserted row d z ks a.rows e f g a.inserted_rows;
  extends = subst (λ rows. Extends before rows j) (append_assoc new (row ∷ []) a.rows) a.extends;
}

pub Added-nil :
    (before : Journal) (new : List LineRow) (entry : String) (j : Journal)
    → Extends before new j
    → Added before new entry [] j
Added-nil before new entry j x = record {
  rows = [];
  inserted_rows = nothing;
  extends = subst (λ rows. Extends before rows j) (sym (append-nil new)) x;
}

-- What a transaction of the store does to the journal: nothing, or the lines of one entry, of which
-- there are two at least, or which sum up to zero.
pub data Step (before : Journal) (j : Journal) : Type 0 where
  nothing_added : Extends before [] j → Step before j
  entry_added :
      (entry : String) (ks : List (String × ℤ))
      → (2 ≤ size ks) ⊎ (signed_sum ks ≡ pos 0)
      → Added before [] entry ks j
      → Step before j
