-- ===== src/Ledger/Settlement.antt =====
-- The settlement that services/payment-svc/internal/saga.go posts, at the checks of services/ledger-svc.
use vrp_oneclick_deposit_pla.Common.{
  ℕ, ◌<◌, ◌*◌, ◌^◌, ◌≡◌, ◌==◌, subst, String, List, ◌∷◌, pos, ◌<ℤ◌, sub64,
}
use vrp_oneclick_deposit_pla.Domainerr.{ok}
use vrp_oneclick_deposit_pla.Payment.{Payment}
use vrp_oneclick_deposit_pla.Payment.Fee.{settlement_lines, platform_fee}
use vrp_oneclick_deposit_pla.Payment.Fee.Laws.{merchant_line-positive}
use vrp_oneclick_deposit_pla.Ledger.{
  LineInput, to_lines, to_line, post_request, check_entry, check_lines, check_line, zero_totals,
  account_type_to_db, direction_to_db, normalized,
}
use vrp_oneclick_deposit_pla.Ledger.Laws.{check_line-Checked, bind_inv, then_inv, reject_inv}

-- A second line that is accepted has a positive amount.
second_positive :
    (payment_id : String) (l k : LineInput) (ls out : List LineInput)
    → check_entry payment_id (l ∷ k ∷ ls) ≡ ok out
    → pos 0 <ℤ k.amount_pence
unfolding check_entry check_lines
second_positive payment_id l k ls out h =
    let (_, h1) = reject_inv (payment_id == "") _ _ h in
    let (t, run, _) = bind_inv (check_lines 0 "" zero_totals (l ∷ k ∷ ls)) _ h1 in
    let (_, rest) = then_inv (check_line 0 "" l) _ run in
    let (second, _) = then_inv (check_line 1 (normalized l.currency) k) _ rest in
    (check_line-Checked 1 (normalized l.currency) k second).good.amount

-- The ledger accepts the settlement of a positive amount, that can be multiplied by 100 in an int64,
-- only if it is more than a penny.
pub post_request-above_penny :
    (p : Payment) (a : ℕ) (out : List LineInput)
    → p.amount_pence ≡ pos a
    → 0 < a
    → a * 100 < 2 ^ 63
    → post_request p.id (settlement_lines p) ≡ ok out
    → 1 < a
unfolding post_request to_lines to_line account_type_to_db direction_to_db settlement_lines
post_request-above_penny p a out e h k accepted =
    (merchant_line-positive a h k).0
      (subst (λ z. pos 0 <ℤ sub64 z (platform_fee z)) e (second_positive p.id _ _ _ out accepted))
