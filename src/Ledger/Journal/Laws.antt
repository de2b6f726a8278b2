-- ===== src/Ledger/Journal/Laws.antt =====
-- The journal of services/ledger-svc/internal/store.go: its well-formed tables, the lines that a
-- transaction adds, and what they do to the sums.
use vrp_oneclick_deposit_pla.Common.{
  ℕ, ◌+◌, ◌≤◌, Bool, true, false, ◌==◌, eq_iff, Option, none, some, String, List, [], ◌∷◌, ◌++◌,
  ◌≡◌, refl, ap, ◌∙◌, arith, ◌⊎◌, inl, inr, if◌then◌else◌, Bool-cases, ℤ, pos, ◌+ℤ◌, ◌<ℤ◌, int_laws,
  find_row, find_row-append_old, sum_rows, subst,
}
use vrp_oneclick_deposit_pla.Ledger.Journal.{
  AccountRow, LineRow, Journal, JoinedLine, is_before, of_entry, has_account_id, signed,
  signed_amount, insert_joined, join_lines, count_lines, is_settled_line, are_settled, drop_rows,
  entry_sum,
}

-- A row that the constraints of `journal_line` allow.
pub record ValidLine (accounts : List AccountRow) (l : LineRow) : Type 0 where
  pub account : (a : AccountRow) × (find_row (has_account_id l.account_id) accounts ≡ some a)
  pub direction : (l.direction ≡ "DR") ⊎ (l.direction ≡ "CR")
  pub amount : pos 0 <ℤ l.amount_pence

pub data ValidLines (accounts : List AccountRow) : List LineRow → Type 0 where
  no_lines : ValidLines accounts []
  valid_line :
      (l : LineRow) (ls : List LineRow)
      → ValidLine accounts l
      → ValidLines accounts ls
      → ValidLines accounts (l ∷ ls)

-- Every entry's lines sum up to zero, and so do all lines.
pub record Balanced (j : Journal) : Type 0 where
  pub valid : ValidLines j.accounts j.lines
  pub entries : (entry : String) → entry_sum entry j ≡ pos 0
  pub all : sum_rows (λ (_ : LineRow). true) signed j.lines ≡ pos 0

-- The rows inserted for an entry, by directions and amounts.
pub data Inserted (entry : String) : List (String × ℤ) → List LineRow → Type 0 where
  nothing : Inserted entry [] []
  inserted :
      (row : LineRow) (d : String) (z : ℤ) (ks : List (String × ℤ)) (rows : List LineRow)
      → row.journal_entry_id ≡ entry
      → row.direction ≡ d
      → row.amount_pence ≡ z
      → Inserted entry ks rows
      → Inserted entry ((d, z) ∷ ks) (row ∷ rows)

unfoldable pub signed_sum : List (String × ℤ) → ℤ
signed_sum [] = pos 0
signed_sum ((d, z) ∷ ks) = signed_amount d z +ℤ signed_sum ks

unfoldable pub size : List (String × ℤ) → ℕ
size [] = 0
size (k ∷ ks) = 1 + size ks

pub Inserted-total :
    (entry : String) (ks : List (String × ℤ)) (rows : List LineRow)
    → Inserted entry ks rows
    → sum_rows (λ (_ : LineRow). true) signed rows ≡ signed_sum ks
unfolding sum_rows signed_sum
Inserted-total entry [] [] nothing = refl
Inserted-total entry _ _ (inserted row d z ks rows e f g rest) =
    cc (Inserted-total entry ks rows rest, f, g)

pub Inserted-own :
    (entry : String) (ks : List (String × ℤ)) (rows : List LineRow)
    → Inserted entry ks rows
    → sum_rows (of_entry entry) signed rows ≡ signed_sum ks
unfolding sum_rows signed_sum
Inserted-own entry [] [] nothing = refl
Inserted-own entry _ _ (inserted row d z ks rows e f g rest) =
    cc (Inserted-own entry ks rows rest, f, g, (eq_iff row.journal_entry_id entry).1 e)

pub Inserted-other :
    (entry other : String) (ks : List (String × ℤ)) (rows : List LineRow)
    → (entry == other) ≡ false
    → Inserted entry ks rows
    → sum_rows (of_entry other) signed rows ≡ pos 0
unfolding sum_rows
Inserted-other entry other [] [] n nothing = refl
Inserted-other entry other _ _ n (inserted row d z ks rows e f g rest) =
    let same : (row.journal_entry_id == other) ≡ false = cc (n, e) in
    rw same (rw (Inserted-other entry other ks rows n rest) (omega int_laws))

pub sum_rows-++ :
    (test : LineRow → Bool) (xs ys : List LineRow)
    → sum_rows test signed (xs ++ ys) ≡ sum_rows test signed xs +ℤ sum_rows test signed ys
unfolding sum_rows
sum_rows-++ test [] ys = omega int_laws
sum_rows-++ test (x ∷ xs) ys = rw (sum_rows-++ test xs ys) (omega int_laws)

pub drop_rows-++ : (xs ys : List LineRow) → drop_rows xs (xs ++ ys) ≡ ys
unfolding drop_rows
drop_rows-++ [] ys = refl
drop_rows-++ (x ∷ xs) ys = drop_rows-++ xs ys

pub Inserted-count :
    (entry : String) (xs : List LineRow) (ks : List (String × ℤ)) (rows : List LineRow)
    → Inserted entry ks rows
    → size ks ≤ count_lines entry (xs ++ rows)
unfolding count_lines size
Inserted-count entry [] [] [] nothing = omega arith
Inserted-count entry [] _ _ (inserted row d z ks rows e f g rest) =
    let same = (eq_iff row.journal_entry_id entry).1 e in
    let k = Inserted-count entry [] ks rows rest in rw same (omega arith)
Inserted-count entry (x ∷ xs) ks rows i = let k = Inserted-count entry xs ks rows i in ground arith

-- The trigger accepts an entry of two lines or more only if it is balanced.
pub are_settled-zero :
    (entry : String) (j : Journal) (row : LineRow) (rows : List LineRow)
    → row.journal_entry_id ≡ entry
    → 2 ≤ count_lines entry j.lines
    → are_settled j (row ∷ rows) ≡ true
    → entry_sum entry j ≡ pos 0
unfolding are_settled is_settled_line
are_settled-zero entry j row rows e n h =
    subst (λ x. 2 ≤ count_lines x j.lines → entry_sum x j ≡ pos 0) e (λ m. ground arith) n

-- More accounts keep the rows valid.
pub ValidLines-account :
    (accounts : List AccountRow) (a : AccountRow) (ls : List LineRow)
    → ValidLines accounts ls
    → ValidLines (accounts ++ a ∷ []) ls
ValidLines-account accounts a [] no_lines = no_lines
ValidLines-account accounts a _ (valid_line l ls v vs) =
    valid_line l ls
      (record {
        account = (
          v.account.0,
          find_row-append_old (has_account_id l.account_id) accounts a v.account.0 v.account.1,
        );
        direction = v.direction;
        amount = v.amount;
      })
      (ValidLines-account accounts a ls vs)

pub ValidLines-++ :
    (accounts : List AccountRow) (l : LineRow) (ls : List LineRow)
    → ValidLines accounts ls
    → ValidLine accounts l
    → ValidLines accounts (ls ++ l ∷ [])
ValidLines-++ accounts l [] no_lines v = valid_line l [] v no_lines
ValidLines-++ accounts l _ (valid_line k ks w ws) v =
    valid_line k (ks ++ l ∷ []) w (ValidLines-++ accounts l ks ws v)

unfoldable pub joined_sum : List JoinedLine → ℤ
joined_sum [] = pos 0
joined_sum (a ∷ others) = signed a.line +ℤ joined_sum others

joined_sum-if :
    (b : Bool) (xs ys : List JoinedLine) (z : ℤ)
    → joined_sum xs ≡ z
    → joined_sum ys ≡ z
    → joined_sum (if b then xs else ys) ≡ z
joined_sum-if true xs ys z h k = h
joined_sum-if false xs ys z h k = k

insert_joined-sum :
    (a : JoinedLine) (bs : List JoinedLine)
    → joined_sum (insert_joined a bs) ≡ signed a.line +ℤ joined_sum bs
unfolding insert_joined joined_sum
insert_joined-sum a [] = refl
insert_joined-sum a (b ∷ bs) =
    let k = insert_joined-sum a bs in
    joined_sum-if (is_before b a) (b ∷ insert_joined a bs) (a ∷ b ∷ bs) _ (rw k (omega int_laws))
      refl

-- The joined lines of an entry have its sum.
pub join_lines-sum :
    (accounts : List AccountRow) (entry : String) (ls : List LineRow)
    → ValidLines accounts ls
    → joined_sum (join_lines accounts entry ls) ≡ sum_rows (of_entry entry) signed ls
unfolding join_lines joined_sum sum_rows
join_lines-sum accounts entry [] no_lines = refl
join_lines-sum accounts entry _ (valid_line l ls v vs) =
    let k = join_lines-sum accounts entry ls vs in
    let r = join_lines accounts entry ls in
    elim (Bool-cases (of_entry entry l)) [
      | inl e ↦ rw e (
          rw v.account.1 (
            insert_joined-sum (record { line = l; account = v.account.0 }) r
            ∙ ap (λ z. signed l +ℤ z) k))
      | inr e ↦ rw e (rw k (omega int_laws))
    ]

-- Joined lines with a direction that the constraints allow.
pub data Directed : List JoinedLine → Type 0 where
  no_joined : Directed []
  directed :
      (a : JoinedLine) (others : List JoinedLine)
      → (a.line.direction ≡ "DR") ⊎ (a.line.direction ≡ "CR")
      → Directed others
      → Directed (a ∷ others)

if-Directed :
    (b : Bool) (xs ys : List JoinedLine)
    → Directed xs
    → Directed ys
    → Directed (if b then xs else ys)
if-Directed true xs ys d e = d
if-Directed false xs ys d e = e

insert_joined-Directed :
    (a : JoinedLine) (bs : List JoinedLine)
    → (a.line.direction ≡ "DR") ⊎ (a.line.direction ≡ "CR")
    → Directed bs
    → Directed (insert_joined a bs)
unfolding insert_joined
insert_joined-Directed a [] d no_joined = directed a [] d no_joined
insert_joined-Directed a _ d (directed b bs e es) =
    if-Directed _ _ _ (directed b _ e (insert_joined-Directed a bs d es))
      (directed a _ d (directed b bs e es))

option-Directed :
    (o : Option AccountRow) (l : LineRow) (rest : List JoinedLine)
    → (l.direction ≡ "DR") ⊎ (l.direction ≡ "CR")
    → Directed rest
    → Directed
        (elim o [ none ↦ rest | some a ↦ insert_joined (record { line = l; account = a }) rest ])
option-Directed none l rest d r = r
option-Directed (some a) l rest d r = insert_joined-Directed _ rest d r

pub join_lines-Directed :
    (accounts : List AccountRow) (entry : String) (ls : List LineRow)
    → ValidLines accounts ls
    → Directed (join_lines accounts entry ls)
unfolding join_lines
join_lines-Directed accounts entry [] no_lines = no_joined
join_lines-Directed accounts entry _ (valid_line l ls v vs) =
    let rest = join_lines-Directed accounts entry ls vs in
    if-Directed (of_entry entry l) _ _ (option-Directed _ l _ v.direction rest) rest
