-- ===== src/Consent/Service/Atomic.antt =====
-- The insertion of a hold by services/consent-svc/internal/service.go where another call was first.
use vrp_oneclick_deposit_pla.Common.{ℕ, ◌≡◌, true, refl, ap}
use vrp_oneclick_deposit_pla.Domainerr.{Code, wrapped, Err, Result, err, ok}
use vrp_oneclick_deposit_pla.Postgres.{Server, Session, in_failed_transaction, ◌>>=◌}
use vrp_oneclick_deposit_pla.Consent.{ConsentRow, Tables, ReservationRow}
use vrp_oneclick_deposit_pla.Consent.Repo.{insert_reservation}
use vrp_oneclick_deposit_pla.Consent.Repo.Laws.{insert_reservation_aborts}
use vrp_oneclick_deposit_pla.Consent.Service.{
  ReserveInput, ReserveResult, is_unique_violation, insert_hold, hold_inserted,
}
use vrp_oneclick_deposit_pla.Consent.Service.Limits.{reserve_conflict-aborted}
use vrp_oneclick_deposit_pla.Common.{ℤ}

hold_inserted_conflict :
    (server : Server) (now : ℕ) (i : ReserveInput) (c : ConsentRow) (p : ℤ × ℤ) (x : Err)
    (t : Session Tables)
    → is_unique_violation x ≡ true
    → t.aborted ≡ true
    → (hold_inserted server now i c p (err x) t).0
      ≡ err (wrapped Code.internal "re-read reservation" in_failed_transaction)
unfolding hold_inserted
hold_inserted_conflict server now i c p x t v a = rw v (
    ap (λ (q : Result ReserveResult × Session Tables). q.0)
      (reserve_conflict-aborted server now i c p t a))

-- Where the insertion of a hold meets a reservation of the same payment that another call has
-- just committed, the reservation is not found again: the call ends with an internal error.
pub insert_hold_conflict :
    (server : Server) (now : ℕ) (i : ReserveInput) (c : ConsentRow) (p : ℤ × ℤ) (s : Session Tables)
    (e : Err)
    → (insert_reservation server c.id i.payment_id i.amount_pence s).0 ≡ err e
    → is_unique_violation e ≡ true
    → (insert_hold server now i c p s).0
      ≡ err (wrapped Code.internal "re-read reservation" in_failed_transaction)
unfolding insert_hold ◌>>=◌
insert_hold_conflict server now i c p s e h v =
    go (insert_reservation server c.id i.payment_id i.amount_pence s) refl h
  where
    go :
        (q : Result ReservationRow × Session Tables)
        → insert_reservation server c.id i.payment_id i.amount_pence s ≡ q
        → q.0 ≡ err e
        → (hold_inserted server now i c p q.0 q.1).0
          ≡ err (wrapped Code.internal "re-read reservation" in_failed_transaction)
    go (ok row, t) f k = cc
    go (err x, t) f k =
        hold_inserted_conflict server now i c p x t (cc (v, k))
          (insert_reservation_aborts server c.id i.payment_id i.amount_pence s f)
