-- ===== src/Payment/Fee.antt =====
-- `platformFee` of services/payment-svc/internal/saga.go and the lines that the saga posts.
pub mod Laws
use vrp_oneclick_deposit_pla.Common.{
  ℕ, String, List, [], ◌∷◌, ℤ, pos, ltb_ℤ, mul64, sub64, quot, if◌then◌else◌,
}
use vrp_oneclick_deposit_pla.Payment.{Payment}

abbrev pub platform_owner_ref : String
platform_owner_ref = "platform"

abbrev pub min_platform_fee_pence : ℤ
min_platform_fee_pence = pos 1

abbrev pub platform_fee_rate_bps : ℤ
platform_fee_rate_bps = pos 100

-- `fee < minPlatformFeePence` first, then `fee > amountPence`.
unfoldable pub platform_fee : ℤ → ℤ
platform_fee amount =
    let fee = quot (mul64 amount platform_fee_rate_bps) 10000 in
    let raised = if ltb_ℤ fee min_platform_fee_pence then min_platform_fee_pence else fee in
    if ltb_ℤ amount raised then amount else raised

pub data AccountType : Type 0 where
  account_type_unspecified consumer_escrow merchant_escrow platform_fee_account : AccountType

pub data Direction : Type 0 where
  direction_unspecified dr cr : Direction

-- `ledgerv1.JournalLine`, as a request.
pub record EntryLine : Type 0 where
  pub account_type : AccountType
  pub owner_ref : String
  pub direction : Direction
  pub amount_pence : ℤ
  pub currency : String

-- The lines of step 4, and of `ResumeFromLedger`.
unfoldable pub settlement_lines : Payment → List EntryLine
unfolding platform_fee
settlement_lines p =
    let fee = platform_fee p.amount_pence in
    record {
      account_type = consumer_escrow;
      owner_ref = p.consumer_id;
      direction = dr;
      amount_pence = p.amount_pence;
      currency = p.currency;
    }
    ∷ record {
      account_type = merchant_escrow;
      owner_ref = p.merchant_id;
      direction = cr;
      amount_pence = sub64 p.amount_pence fee;
      currency = p.currency;
    }
    ∷ record {
      account_type = platform_fee_account;
      owner_ref = platform_owner_ref;
      direction = cr;
      amount_pence = fee;
      currency = p.currency;
    }
    ∷ []
