-- ===== src/Consent/Repo/Laws.antt =====
-- What the statements of services/consent-svc/internal/repo.go have read and written, where they
-- returned a row.
use vrp_oneclick_deposit_pla.Common.{
  true, Option, none, some, String, [], ◌∷◌, ◌++◌, ◌≡◌, arith, ℤ, find_row,
}
use vrp_oneclick_deposit_pla.Domainerr.{Err, ok, err}
use vrp_oneclick_deposit_pla.Postgres.{Server, Session, in_failed_transaction, statement}
use vrp_oneclick_deposit_pla.Postgres.Laws.{statement-aborted, statement_inv, annotate_inv}
use vrp_oneclick_deposit_pla.Consent.{ConsentRow, ReservationRow, Tables}
use vrp_oneclick_deposit_pla.Consent.Repo.{
  scan_row, has_id, is_for_payment, rolling_used, rolling_held, scan_usage, rolling_usage,
  lock_consent, get_reservation_by_payment_id, new_reservation, insert_reservation,
}

scan_row_inv :
    {A : Type 0} (t : Tables) (o : Option A) {r : A} {u : Tables}
    → scan_row t o ≡ ok (r, u)
    → (o ≡ some r) × (u ≡ t)
scan_row_inv t none h = absurd (cc)
scan_row_inv t (some x) h = (cc, cc)

scan_usage_inv :
    (server : Server) (id : String) (t : Tables) {a b : ℤ} {u : Tables}
    → scan_usage server id t ≡ ok ((a, b), u)
    → (a ≡ rolling_used server.clock id t) × (b ≡ rolling_held server.clock id t) × (u ≡ t)
unfolding scan_usage
scan_usage_inv server id t h = (ground arith, ground arith, ground arith)

module _ (server : Server) where
  pub lock_consent_inv :
      (id : String) (s : Session Tables) {c : ConsentRow} {t : Session Tables}
      → lock_consent server id s ≡ (ok c, t)
      → (find_row (has_id id) s.tables.consents ≡ some c) × (t.tables ≡ s.tables)
  unfolding lock_consent
  lock_consent_inv id s h =
      scan_row_inv s.tables (find_row (has_id id) s.tables.consents) (statement_inv server _ s h).0

  pub rolling_usage_inv :
      (id : String) (s : Session Tables) {p : ℤ × ℤ} {t : Session Tables}
      → rolling_usage server id s ≡ (ok p, t)
      → (p.0 ≡ rolling_used server.clock id s.tables)
        × (p.1 ≡ rolling_held server.clock id s.tables)
        × (t.tables ≡ s.tables)
  unfolding rolling_usage
  rolling_usage_inv id s h =
      scan_usage_inv server id s.tables
        (statement_inv server (scan_usage server id) s
          (annotate_inv "rolling usage" (statement server (scan_usage server id)) s h)).0

  pub get_reservation_by_payment_id_inv :
      (id : String) (s : Session Tables) {r : ReservationRow} {t : Session Tables}
      → get_reservation_by_payment_id server id s ≡ (ok r, t)
      → (find_row (is_for_payment id) s.tables.reservations ≡ some r) × (t.tables ≡ s.tables)
  unfolding get_reservation_by_payment_id
  get_reservation_by_payment_id_inv id s h =
      scan_row_inv s.tables (find_row (is_for_payment id) s.tables.reservations)
        (statement_inv server _ s h).0

  pub get_reservation_by_payment_id_keeps :
      (id : String) (s : Session Tables)
      → (get_reservation_by_payment_id server id s).1.tables ≡ s.tables
  unfolding get_reservation_by_payment_id statement
  get_reservation_by_payment_id_keeps id s = ground arith

  pub get_reservation_by_payment_id-aborted :
      (id : String) (s : Session Tables)
      → s.aborted ≡ true
      → get_reservation_by_payment_id server id s ≡ (err in_failed_transaction, s)
  unfolding get_reservation_by_payment_id
  get_reservation_by_payment_id-aborted id s h = statement-aborted server _ s h

  pub insert_reservation_inv :
      (consent_id payment_id : String) (amount : ℤ) (s : Session Tables) {r : ReservationRow}
      {t : Session Tables}
      → insert_reservation server consent_id payment_id amount s ≡ (ok r, t)
      → (r ≡ new_reservation server r.id consent_id payment_id amount)
        × (t.tables ≡ record s.tables { reservations = s.tables.reservations ++ r ∷ [] })
        × (find_row (is_for_payment payment_id) s.tables.reservations ≡ none)
  unfolding insert_reservation statement
  insert_reservation_inv consent_id payment_id amount s h =
      (ground arith, ground arith, ground arith)

  -- A failed insertion has aborted the transaction.
  pub insert_reservation_aborts :
      (consent_id payment_id : String) (amount : ℤ) (s : Session Tables) {e : Err}
      {t : Session Tables}
      → insert_reservation server consent_id payment_id amount s ≡ (err e, t)
      → t.aborted ≡ true
  unfolding insert_reservation statement
  insert_reservation_aborts consent_id payment_id amount s h = ground arith
