-- ===== src/Ledger.antt =====
-- services/ledger-svc/internal/store.go and server.go: what `PostDoubleEntry` accepts, and the names of accounts
-- and directions. The journal's tables are not modelled.
pub mod Laws
pub mod Journal
pub mod Posting
pub mod Statements
pub mod Reversal
pub mod Store
pub mod Settlement
use vrp_oneclick_deposit_pla.Common.{
  ℕ, zero, suc, Bool, true, false, not, ◌||◌, ◌&&◌, String, byte_len, ◌+++◌, ◌==◌, List, [], ◌∷◌,
  map, ltb, eqb, if◌then◌else◌, ℤ, pos, negsuc, add64, leb_ℤ, ltb_ℤ, trim_space, to_upper, decimal,
}
use vrp_oneclick_deposit_pla.Domainerr.{Code, Err, domain, Result, ok, err, reject_if, ◌>>=◌, ◌>>◌}
use vrp_oneclick_deposit_pla.Payment.Fee.{
  AccountType, account_type_unspecified, consumer_escrow, merchant_escrow, platform_fee_account,
  Direction, direction_unspecified, dr, cr, EntryLine,
}

-- `lineInput`
pub record LineInput : Type 0 where
  pub account_type : String
  pub owner_ref : String
  pub direction : String
  pub amount_pence : ℤ
  pub currency : String

abbrev pub invalid : String → Err
invalid message = domain Code.validation message

abbrev pub line_error : ℕ → String → Err
line_error i message = invalid ("line " +++ (decimal i +++ (": " +++ message)))

unfoldable pub account_type_to_db : AccountType → Result String
account_type_to_db consumer_escrow = ok "CONSUMER_ESCROW"
account_type_to_db merchant_escrow = ok "MERCHANT_ESCROW"
account_type_to_db platform_fee_account = ok "PLATFORM_FEE"
account_type_to_db account_type_unspecified = err (invalid "invalid account_type")

unfoldable pub account_type_from_db : String → AccountType
account_type_from_db s =
    if s == "CONSUMER_ESCROW"
    then consumer_escrow
    else if s == "MERCHANT_ESCROW"
    then merchant_escrow
    else if s == "PLATFORM_FEE"
    then platform_fee_account
    else account_type_unspecified

unfoldable pub direction_to_db : Direction → Result String
direction_to_db dr = ok "DR"
direction_to_db cr = ok "CR"
direction_to_db direction_unspecified = err (invalid "invalid direction")

unfoldable pub direction_from_db : String → Direction
direction_from_db s = if s == "DR" then dr else if s == "CR" then cr else direction_unspecified

abbrev pub normalized : String → String
normalized currency = to_upper (trim_space currency)

-- The checks of one line; `i` is its index, and `currency` that of the lines before it.
unfoldable pub check_line : ℕ → String → LineInput → Result (Unit {0})
check_line i currency l = do
  reject_if (l.account_type == "") (line_error i "account_type is required")
  reject_if (trim_space l.owner_ref == "") (line_error i "owner_ref is required")
  reject_if (not (l.direction == "DR") && not (l.direction == "CR"))
      (line_error i "direction must be DR or CR")
  reject_if (leb_ℤ l.amount_pence (pos 0)) (line_error i "amount must be positive")
  reject_if (not (eqb (byte_len (normalized l.currency)) 3))
      (line_error i "currency must be 3-letter ISO code")
  reject_if (not (currency == "") && not (normalized l.currency == currency))
      (invalid "all lines must share the same currency")

-- The variables `debit` and `credit` of the loop.
pub record Totals : Type 0 where
  pub debit : ℤ
  pub credit : ℤ

abbrev pub zero_totals : Totals
zero_totals = record { debit = pos 0; credit = pos 0 }

unfoldable pub add_line : Totals → LineInput → Totals
add_line t l = record {
  debit = (if l.direction == "DR" then add64 t.debit l.amount_pence else t.debit);
  credit = (if l.direction == "CR" then add64 t.credit l.amount_pence else t.credit);
}

-- The loop over the lines, from index `i`; `currency` is that of the lines so far.
unfoldable pub check_lines : ℕ → String → Totals → List LineInput → Result Totals
unfolding check_line add_line
check_lines i currency t [] = ok t
check_lines i currency t (l ∷ ls) = do
  check_line i currency l
  check_lines (suc i) (normalized l.currency) (add_line t l) ls

abbrev pub decimal_ℤ : ℤ → String
decimal_ℤ (pos n) = decimal n
decimal_ℤ (negsuc n) = "-" +++ decimal (suc n)

abbrev pub unbalanced : Totals → Err
unbalanced t =
    invalid
      ("unbalanced entry: debit=" +++ (decimal_ℤ t.debit +++ (" credit=" +++ decimal_ℤ t.credit)))

abbrev pub normalized_line : LineInput → LineInput
normalized_line l = record l { currency = normalized l.currency }

abbrev pub at_least_two : List LineInput → Bool
at_least_two (l ∷ k ∷ ls) = true
at_least_two _ = false

-- `PostDoubleEntry` before its transaction, with the lines that it goes on to insert.
unfoldable pub check_entry : String → List LineInput → Result (List LineInput)
check_entry payment_id lines = do
  reject_if (payment_id == "") (invalid "payment_id is required")
  reject_if (not (at_least_two lines)) (invalid "at least two journal lines are required")
  t ← check_lines 0 "" zero_totals lines
  reject_if (ltb_ℤ t.debit t.credit || ltb_ℤ t.credit t.debit) (unbalanced t)
  ok (map normalized_line lines)

-- services/ledger-svc/internal/server.go: the lines of a request, of which each has an amount.
unfoldable pub to_line : EntryLine → Result LineInput
unfolding account_type_to_db direction_to_db
to_line l = do
  account ← account_type_to_db l.account_type
  way ← direction_to_db l.direction
  ok (record {
    account_type = account;
    owner_ref = l.owner_ref;
    direction = way;
    amount_pence = l.amount_pence;
    currency = l.currency;
  })

unfoldable pub to_lines : List EntryLine → Result (List LineInput)
unfolding to_line
to_lines [] = ok []
to_lines (l ∷ ls) = do line ← to_line l; lines ← to_lines ls; ok (line ∷ lines)

-- The server's `PostDoubleEntry`, up to the store's transaction.
unfoldable pub post_request : String → List EntryLine → Result (List LineInput)
unfolding to_lines check_entry
post_request payment_id ls = do lines ← to_lines ls; check_entry payment_id lines
