-- ===== src/Payment/Reconcile/Batch.antt =====
-- The payments that `ListStaleInFlightPayments` of services/payment-svc/internal/repo.go lists.
use mathlib.Core.List.Memᴰ.{Memᴰ}
use vrp_oneclick_deposit_pla.Common.{
  ℕ, zero, suc, ◌+◌, ◌≤◌, ◌<◌, true, leb, not, List, [], ◌∷◌, ◌≡◌, Bool-cases, inl, inr, arith,
  delete_rows-Memᴰ, Memᴰ-take, Memᴰ-sort_by, insert_by, sort_by, take,
}
use vrp_oneclick_deposit_pla.Payment.{Payment, is_in_flight}
use vrp_oneclick_deposit_pla.Payment.Reconcile.{is_stale, stale_batch, stale_limit}

-- Payments whose last updates are not before `k`, those that were updated first first.
pub data OldestFirst : ℕ → List Payment → Type 0 where
  no_payment : (k : ℕ) → OldestFirst k []
  next :
      (k : ℕ) (p : Payment) (ps : List Payment)
      → k ≤ p.updated_at
      → OldestFirst p.updated_at ps
      → OldestFirst k (p ∷ ps)

abbrev updated : Payment → ℕ
updated p = p.updated_at

insert_by-OldestFirst :
    (k : ℕ) (p : Payment) (ps : List Payment)
    → k ≤ p.updated_at
    → OldestFirst k ps
    → OldestFirst k (insert_by updated p ps)
unfolding insert_by
insert_by-OldestFirst k p [] h (no_payment _) = next k p [] h (no_payment _)
insert_by-OldestFirst k p (q ∷ qs) h (next _ _ _ l r) =
    let rest = insert_by-OldestFirst q.updated_at p qs in
    elim (Bool-cases (leb p.updated_at q.updated_at)) [
      | inl y ↦ rw y (next k p (q ∷ qs) h (next p.updated_at q qs (ground arith) r))
      | inr n ↦ rw n (next k q _ l (rest (ground arith) r))
    ]

sort_by-OldestFirst : (ps : List Payment) → OldestFirst 0 (sort_by updated ps)
unfolding sort_by
sort_by-OldestFirst [] = no_payment 0
sort_by-OldestFirst (p ∷ ps) =
    insert_by-OldestFirst 0 p (sort_by updated ps) (omega arith) (sort_by-OldestFirst ps)

take-OldestFirst : (n k : ℕ) (ps : List Payment) → OldestFirst k ps → OldestFirst k (take n ps)
unfolding take
take-OldestFirst zero k ps h = no_payment k
take-OldestFirst (suc n) k [] h = no_payment k
take-OldestFirst (suc n) k (p ∷ ps) (next _ _ _ l r) =
    next k p _ l (take-OldestFirst n p.updated_at ps r)

pub stale_batch-OldestFirst :
    (now stale_after : ℕ) (ps : List Payment) → OldestFirst 0 (stale_batch now stale_after ps)
unfolding stale_batch
stale_batch-OldestFirst now stale_after ps =
    take-OldestFirst stale_limit 0 _ (sort_by-OldestFirst _)

-- The payments that the statement lists are in flight and stale.
pub stale_batch-stale :
    (now stale_after : ℕ) (ps : List Payment) (p : Payment)
    → Memᴰ p (stale_batch now stale_after ps)
    → Memᴰ p ps × (is_in_flight p.status ≡ true) × (p.updated_at + stale_after < now)
unfolding stale_batch
stale_batch-stale now stale_after ps p m =
    let test = λ (q : Payment). not (is_stale now stale_after q) in
    let (there, stale) =
      delete_rows-Memᴰ test ps p
        (Memᴰ-sort_by (λ (q : Payment). q.updated_at) _ p (Memᴰ-take stale_limit _ p m)) in
    (there, ground arith, ground arith)
