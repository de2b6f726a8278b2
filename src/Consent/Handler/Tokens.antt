-- ===== src/Consent/Handler/Tokens.antt =====
-- The page tokens of services/consent-svc/internal/handler.go, and the pages that they stand for.
use vrp_oneclick_deposit_pla.Common.{
  ℕ, suc, ◌+◌, ◌^◌, ◌<◌, ◌≤◌, false, none, List, [], ◌++◌, ◌==◌, ltb, trim_space, decimal, atoi,
  atoi-decimal, ◌≡◌, refl, ap, subst, arith, Bool-cases, inl, inr, eq_iff,
}
use vrp_oneclick_deposit_pla.Common.Text.Space.{trim_space-decimal}
use vrp_oneclick_deposit_pla.Common.Pages.{
  length, page, drop, page-append-drop, page_nonempty, page-within,
}
use vrp_oneclick_deposit_pla.Domainerr.{Result, ok}
use vrp_oneclick_deposit_pla.Postgres.{Server, Session, pool_statement, statement}
use vrp_oneclick_deposit_pla.Consent.{ConsentRow, Tables}
use vrp_oneclick_deposit_pla.Consent.Handler.{offset_of}

atoi_empty : atoi "" ≡ none
unfolding atoi
atoi_empty = refl

pub decimal-ne-empty : (n : ℕ) → n < 2 ^ 63 → (decimal n == "") ≡ false
decimal-ne-empty n h = elim (Bool-cases (decimal n == "")) [
  | inl y ↦
      absurd (let same = (eq_iff (decimal n) "").0 y in cc (same, atoi-decimal n h, atoi_empty))
  | inr x ↦ x
]

-- The offset of a token that was written for an offset.
pub offset_of-decimal : (n : ℕ) → n < 2 ^ 63 → offset_of (decimal n) ≡ ok n
unfolding offset_of
offset_of-decimal n h =
    rw (trim_space-decimal n) (rw (decimal-ne-empty n h) (rw (atoi-decimal n h) refl))

pub offset_of_empty : offset_of "" ≡ ok 0
unfolding offset_of trim_space
offset_of_empty = refl

pub pool_statement-answered :
    {A : Type 0} (server : Server) (q : Tables → Result (A × Tables)) (s : Session Tables) {a : A}
    → server.fault s.count ≡ none
    → q s.tables ≡ ok (a, s.tables)
    → pool_statement server q s ≡ (ok a, record s { count = suc s.count; aborted = false })
unfolding pool_statement statement
pool_statement-answered server q s f h = ground arith

module _ (limit offset : ℕ) (xs : List ConsentRow) where
  pub past_end : 0 < limit → page limit offset xs ≡ [] → length xs ≤ offset
  past_end h p = elim (Bool-cases (ltb offset (length xs))) [
    | inl y ↦
        let more = page_nonempty limit offset xs h (ground arith) in
        let none_there = ap (λ (ys : List ConsentRow). length ys) p in absurd (omega arith)
    | inr x ↦ ground arith
  ]

  pub page_rest :
      (rs : List ConsentRow)
      → page limit offset xs ≡ rs
      → rs ++ drop (offset + length rs) xs ≡ drop offset xs
  page_rest rs p =
      subst (λ (ys : List ConsentRow). ys ++ drop (offset + length ys) xs ≡ drop offset xs) p
        (page-append-drop limit offset xs)

  pub page_end :
      (rs : List ConsentRow)
      → offset ≤ length xs
      → page limit offset xs ≡ rs
      → offset + length rs ≤ length xs
  page_end rs b p =
      subst (λ (ys : List ConsentRow). offset + length ys ≤ length xs) p
        (page-within limit offset xs b)

pub drop_zero : (xs : List ConsentRow) → drop 0 xs ≡ xs
unfolding drop
drop_zero xs = refl
