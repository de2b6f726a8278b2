-- ===== src/Ledger/Journal.antt =====
-- migrations/ledger and services/ledger-svc/internal/store.go: the tables of the journal with their
-- constraints and its trigger, and what the statements of the store compute.
pub mod Laws
use vrp_oneclick_deposit_pla.Common.{
  ℕ, ◌+◌, Bool, true, false, not, ◌||◌, ◌&&◌, Option, none, some, String, ◌==◌, List, [], ◌∷◌, ◌++◌,
  eqb, ltb, if◌then◌else◌, ℤ, pos, negsuc, ◌-ℤ◌, leb_ℤ, find_row, update_rows, sum_rows,
}
use Prim.Native.Nat.{Ordering}
use Prim.Native.String
use vrp_oneclick_deposit_pla.Domainerr.{Code, Err, pg, no_rows, Result, ok, err}
use vrp_oneclick_deposit_pla.Postgres.{
  Server, Session, Query, scan_int64, unique_violation, foreign_key_violation, statement,
  pool_statement, or_wrap,
}

pub record AccountRow : Type 0 where
  pub id : String
  pub account_type : String
  pub owner_ref : String
  pub currency : String

pub record EntryRow : Type 0 where
  pub id : String
  pub payment_id : String
  pub description : String
  pub reversed : Bool
  pub created_at : ℕ

pub record LineRow : Type 0 where
  pub id : String
  pub journal_entry_id : String
  pub account_id : String
  pub direction : String
  pub amount_pence : ℤ
  pub created_at : ℕ

pub record Journal : Type 0 where
  pub accounts : List AccountRow
  pub entries : List EntryRow
  pub lines : List LineRow

abbrev pub of_payment : String → EntryRow → Bool
of_payment payment_id e = e.payment_id == payment_id

abbrev pub of_entry : String → LineRow → Bool
of_entry entry l = l.journal_entry_id == entry

abbrev pub has_account_id : String → AccountRow → Bool
has_account_id id a = a.id == id

abbrev pub is_account : String → String → String → AccountRow → Bool
is_account account_type owner_ref currency a =
    (a.account_type == account_type) && ((a.owner_ref == owner_ref) && (a.currency == currency))

-- A line with its account: what the statements join.
pub record JoinedLine : Type 0 where
  pub line : LineRow
  pub account : AccountRow

-- `ORDER BY jl.created_at, jl.id`
abbrev pub is_before : JoinedLine → JoinedLine → Bool
is_before a b =
    ltb a.line.created_at b.line.created_at
    || (eqb a.line.created_at b.line.created_at
        && elim (Prim.Native.String.compare a.line.id b.line.id) [
          | Ordering.lt ↦ true
          | Ordering.eq ↦ false
          | Ordering.gt ↦ false
        ])

unfoldable pub insert_joined : JoinedLine → List JoinedLine → List JoinedLine
insert_joined a [] = a ∷ []
insert_joined a (b ∷ bs) =
    let rest = insert_joined a bs in if is_before b a then b ∷ rest else a ∷ b ∷ bs

-- `journal_line JOIN account … WHERE journal_entry_id = $1 ORDER BY …`, of the lines that are left.
unfoldable pub join_lines : List AccountRow → String → List LineRow → List JoinedLine
unfolding insert_joined find_row
join_lines accounts entry [] = []
join_lines accounts entry (l ∷ ls) =
    let rest = join_lines accounts entry ls in
    if of_entry entry l
    then (elim (find_row (has_account_id l.account_id) accounts) [
      | none ↦ rest
      | some a ↦ insert_joined (record { line = l; account = a }) rest
    ])
    else rest

-- An amount as GetBalance signs it; the trigger takes the opposite.
abbrev pub signed_amount : String → ℤ → ℤ
signed_amount direction amount = if direction == "DR" then pos 0 -ℤ amount else amount

abbrev pub signed : LineRow → ℤ
signed l = signed_amount l.direction l.amount_pence

abbrev pub entry_sum : String → Journal → ℤ
entry_sum entry j = sum_rows (of_entry entry) signed j.lines

unfoldable pub count_lines : String → List LineRow → ℕ
count_lines entry [] = 0
count_lines entry (l ∷ ls) = (if of_entry entry l then 1 else 0) + count_lines entry ls

-- `check_journal_balance()` for one inserted line.
unfoldable pub is_settled_line : Journal → LineRow → Bool
is_settled_line j l =
    ltb (count_lines l.journal_entry_id j.lines) 2
    || elim (entry_sum l.journal_entry_id j) [ pos n ↦ eqb n 0 | negsuc n ↦ false ]

unfoldable pub are_settled : Journal → List LineRow → Bool
unfolding is_settled_line
are_settled j [] = true
are_settled j (l ∷ ls) = is_settled_line j l && are_settled j ls

unfoldable pub drop_rows : {A : Type 0} → List A → List A → List A
drop_rows [] ys = ys
drop_rows (x ∷ xs) [] = []
drop_rows (x ∷ xs) (y ∷ ys) = drop_rows xs ys

abbrev pub raised : Err
raised = pg "P0001" "Journal entry is not balanced"

-- `INSERT INTO account … ON CONFLICT … DO UPDATE … RETURNING id`: the conflicting row stays as
-- it is.
unfoldable pub upsert_account : AccountRow → Journal → Result (String × Journal)
upsert_account row j =
    elim (find_row (is_account row.account_type row.owner_ref row.currency) j.accounts) [
      | some a ↦ ok (a.id, j)
      | none ↦ elim (find_row (has_account_id row.id) j.accounts) [
        | some _ ↦ err unique_violation
        | none ↦ ok (row.id, record j { accounts = j.accounts ++ row ∷ [] })
      ]
    ]

-- The constraints of `journal_line` and its insertion.
unfoldable pub add_line_row : LineRow → Journal → Result (String × Journal)
add_line_row row j =
    if not ((row.direction == "DR") || (row.direction == "CR")) || leb_ℤ row.amount_pence (pos 0)
    then err (pg "23514" "new row violates check constraint")
    else elim (find_row (λ (l : LineRow). l.id == row.id) j.lines) [
      | some _ ↦ err unique_violation
      | none ↦ elim (find_row (λ (e : EntryRow). e.id == row.journal_entry_id) j.entries) [
        | none ↦ err foreign_key_violation
        | some _ ↦ elim (find_row (has_account_id row.account_id) j.accounts) [
          | none ↦ err foreign_key_violation
          | some _ ↦ ok (row.id, record j { lines = j.lines ++ row ∷ [] })
        ]
      ]
    ]

-- The balance of an account, scanned into an int64.
unfoldable pub scan_balance : String → String → String → Journal → Result (ℤ × Journal)
unfolding scan_int64
scan_balance account_type owner_ref currency j =
    let balance : ℤ = elim (find_row (is_account account_type owner_ref currency) j.accounts) [
      | none ↦ pos 0
      | some a ↦ sum_rows (λ (l : LineRow). l.account_id == a.id) signed j.lines
    ] in
    elim (scan_int64 balance) [ err e ↦ err e | ok z ↦ ok (z, j) ]
