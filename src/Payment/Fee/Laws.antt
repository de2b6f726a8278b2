-- ===== src/Payment/Fee/Laws.antt =====
-- The amounts that a settlement posts (services/payment-svc/internal/saga.go).
use vrp_oneclick_deposit_pla.Common.{
  ℕ, ◌*◌, ◌-◌, ◌≤◌, ◌<◌, ◌/◌, ◌^◌, ◌≡◌, ◌↔◌, arith, ℤ, pos, sub64, mul64, wrap64, quot, ◌*ℤ◌, ◌-ℤ◌,
  ◌+ℤ◌, ◌<ℤ◌, List, [], ◌∷◌, ltb, if◌then◌else◌,
}
use vrp_oneclick_deposit_pla.Payment.{Payment}
use vrp_oneclick_deposit_pla.Payment.Fee.{
  platform_fee, settlement_lines, EntryLine, Direction, dr, cr, direction_unspecified,
}

-- The fee of a positive amount that can be multiplied by 100: one percent rounded down, and a
-- penny at least.
pub platform_fee_pos :
    (a : ℕ)
    → 0 < a
    → a * 100 < 2 ^ 63
    → platform_fee (pos a) ≡ pos (if ltb (a / 100) 1 then 1 else a / 100)
unfolding platform_fee mul64 ◌*ℤ◌ quot wrap64
platform_fee_pos a h k = ground arith

-- What is left for the merchant.
merchant_amount : (a f : ℕ) → f ≤ a → a < 2 ^ 63 → sub64 (pos a) (pos f) ≡ pos (a - f)
unfolding sub64 ◌-ℤ◌ wrap64
merchant_amount a f h k = ground arith

-- The line's amount if it goes in the direction.
abbrev amount_in : Direction → EntryLine → ℤ
amount_in dr l = elim l.direction [
  | dr ↦ l.amount_pence
  | cr ↦ pos 0
  | direction_unspecified ↦ pos 0
]
amount_in cr l = elim l.direction [
  | dr ↦ pos 0
  | cr ↦ l.amount_pence
  | direction_unspecified ↦ pos 0
]
amount_in direction_unspecified l = pos 0

unfoldable pub total : Direction → List EntryLine → ℤ
total d [] = pos 0
total d (l ∷ ls) = amount_in d l +ℤ total d ls

debits : (a : ℕ) → pos a +ℤ (pos 0 +ℤ (pos 0 +ℤ pos 0)) ≡ pos a
unfolding ◌+ℤ◌
debits a = ground arith

credits : (a f : ℕ) → f ≤ a → pos 0 +ℤ (pos (a - f) +ℤ (pos f +ℤ pos 0)) ≡ pos a
unfolding ◌+ℤ◌
credits a f h = ground arith

-- For a positive amount that can be multiplied by 100 in an int64, the lines that a settlement posts
-- debit the amount and credit the amount.
pub settlement_lines-balanced :
    (p : Payment) (a : ℕ)
    → p.amount_pence ≡ pos a
    → 0 < a
    → a * 100 < 2 ^ 63
    → (total dr (settlement_lines p) ≡ pos a) × (total cr (settlement_lines p) ≡ pos a)
unfolding settlement_lines total
settlement_lines-balanced p a e h k =
    let f = if ltb (a / 100) 1 then 1 else a / 100 in
    let small : f ≤ a = ground arith in
    rw (e, platform_fee_pos a h k, merchant_amount a f small (omega arith))
      (debits a, credits a f small)

-- For a positive amount that can be multiplied by 100 in an int64, the merchant's line of a settlement
-- is positive if and only if the amount is more than a penny.
pub merchant_line-positive :
    (a : ℕ) → 0 < a → a * 100 < 2 ^ 63 → (pos 0 <ℤ sub64 (pos a) (platform_fee (pos a))) ↔ (1 < a)
merchant_line-positive a h k =
    let f = if ltb (a / 100) 1 then 1 else a / 100 in
    let small : f ≤ a = ground arith in
    rw (platform_fee_pos a h k, merchant_amount a f small (omega arith)) (ground arith)
