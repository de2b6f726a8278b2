-- ===== src/Tests/Rules.antt =====
-- Runs of the rule engine of services/risk-svc and of the checks of services/ledger-svc.
use vrp_oneclick_deposit_pla.Common.{
  ℕ, suc, ◌<◌, ◌^◌, arith, true, some, String, [], ◌∷◌, ◌≡◌, refl, pos, ◌≤ℤ◌, trim_space, to_upper,
  add64, wrap64, ◌+ℤ◌,
}
use vrp_oneclick_deposit_pla.Domainerr.{ok}
use vrp_oneclick_deposit_pla.Risk.{
  Redis, ScoreInput, ScoreResult, RuleResult, decline, review, severity, score, merge_results,
  evaluate, blocklist_rule, high_value_rule, check_blocklist, merge_all, merge_result, clamp,
  join_reasons,
}
use vrp_oneclick_deposit_pla.Risk.Laws.{
  merge_results-bounded, merge_results-most_severe, most_severe, score-declined_uncounted,
}
use vrp_oneclick_deposit_pla.Ledger.{LineInput, check_entry, check_lines, check_line, add_line}
use vrp_oneclick_deposit_pla.Ledger.Laws.{check_entry-Sound, Sound, total}

-- A server that blocks everybody and counts in its state.
abbrev blocking : Redis ℕ
blocking = record {
  sis_member = λ _ _ _. ok true;
  incr = λ _ n. (ok (pos (suc n)), suc n);
  expire = λ _ n. (ok tt, n);
  quote = λ s. s;
  decimal = λ _. "n";
}

abbrev input : ScoreInput
input = record {
  merchant_id = "m";
  consumer_id = "c";
  amount_pence = some (pos 60000);
  ip_address = "";
}

abbrev blocked : RuleResult
blocked = record {
  score_delta = pos 100;
  decision = decline;
  rule_name = "BLOCKLIST";
  reason = "c";
}

abbrev high : RuleResult
high = record { score_delta = pos 30; decision = review; rule_name = "HIGH_VALUE"; reason = "h" }

merge_results-most_severe_example :
    severity (merge_results (high ∷ blocked ∷ [])).decision ≡ most_severe 1 (high ∷ blocked ∷ [])
merge_results-most_severe_example = merge_results-most_severe (high ∷ blocked ∷ [])

merge_results-bounded_example :
    (pos 0 ≤ℤ (merge_results (high ∷ blocked ∷ [])).score)
    × ((merge_results (high ∷ blocked ∷ [])).score ≤ℤ pos 100)
merge_results-bounded_example = merge_results-bounded (high ∷ blocked ∷ [])

abbrev outcome : ScoreResult
outcome = record {
  score = pos 100;
  decision = decline;
  reason = "consumer c is blocklisted; amount n pence exceeds n pence";
  rules_triggered = "BLOCKLIST" ∷ "HIGH_VALUE" ∷ [];
}

outcome_lem : score blocking [] input 7 ≡ (ok outcome, 7)
unfolding score evaluate blocklist_rule high_value_rule check_blocklist merge_results merge_all
    merge_result clamp severity join_reasons add64 wrap64 ◌+ℤ◌
outcome_lem = refl

score-declined_uncounted_example : ◌≡◌ {A = ℕ} 7 7
score-declined_uncounted_example =
    score-declined_uncounted blocking input 7 outcome 7 outcome_lem refl

abbrev line : String → String → LineInput
line direction currency = record {
  account_type = "CONSUMER_ESCROW";
  owner_ref = "owner";
  direction = direction;
  amount_pence = pos 500;
  currency = currency;
}

accepted :
    check_entry "p" (line "DR" "gbp" ∷ line "CR" " GBP" ∷ [])
    ≡ ok (line "DR" "GBP" ∷ line "CR" "GBP" ∷ [])
unfolding check_entry check_lines check_line add_line trim_space to_upper add64 wrap64 ◌+ℤ◌
accepted = refl

fits_debit : total "DR" (line "DR" "GBP" ∷ line "CR" "GBP" ∷ []) < 2 ^ 63
unfolding total
fits_debit = omega arith

fits_credit : total "CR" (line "DR" "GBP" ∷ line "CR" "GBP" ∷ []) < 2 ^ 63
unfolding total
fits_credit = omega arith

check_entry-Sound_example : Sound (line "DR" "GBP" ∷ line "CR" "GBP" ∷ [])
check_entry-Sound_example =
    check_entry-Sound "p" (line "DR" "gbp" ∷ line "CR" " GBP" ∷ [])
      (line "DR" "GBP" ∷ line "CR" "GBP" ∷ []) accepted fits_debit fits_credit
