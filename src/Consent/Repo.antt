-- ===== src/Consent/Repo.antt =====
-- services/consent-svc/internal/repo.go: the statements on the consent tables.
pub mod Laws
use vrp_oneclick_deposit_pla.Common.{
  ℕ, ◌+◌, ◌-◌, ◌^◌, Bool, true, false, Option, none, some, String, List, [], ◌∷◌, ◌++◌, ◌&&◌, ◌==◌,
  ℤ, pos, negsuc, ltb, ltb_ℤ, leb_ℤ, if◌then◌else◌, find_row, update_rows, sum_rows,
}
use vrp_oneclick_deposit_pla.Domainerr.{Err, pg, plain, no_rows, Result, ok, err, annotated}
use vrp_oneclick_deposit_pla.Postgres.{
  scan_int64, unique_violation, foreign_key_violation, Server, Query, pure, lift, statement,
  pool_statement, annotate,
}
use vrp_oneclick_deposit_pla.Consent.{
  ConsentRow, ReservationRow, UsageRow, Tables, ConsentStatus, revoked, active, held, confirmed,
  released, is_held, is_active,
}

-- A row as `Scan` returns it, or `pgx.ErrNoRows` (`scanConsent`, `scanReservation`).
abbrev pub scan_row : {A : Type 0} → Tables → Option A → Result (A × Tables)
scan_row t none = err no_rows
scan_row t (some r) = ok (r, t)

abbrev pub thirty_days : ℕ
thirty_days = 2592000

abbrev pub ten_minutes : ℕ
ten_minutes = 600

unfoldable pub has_id : String → ConsentRow → Bool
has_id id c = c.id == id

unfoldable pub is_reservation : String → ReservationRow → Bool
is_reservation id r = r.id == id

unfoldable pub is_for_payment : String → ReservationRow → Bool
is_for_payment payment_id r = r.payment_id == payment_id

-- `WHERE consent_id = $1 AND settled_at > NOW() - INTERVAL '30 days'`
unfoldable pub in_window : ℕ → String → UsageRow → Bool
in_window now consent_id u = (u.consent_id == consent_id) && ltb now (u.settled_at + thirty_days)

-- `WHERE consent_id = $1 AND status = 'HELD' AND expires_at > NOW()`
unfoldable pub is_live_hold : ℕ → String → ReservationRow → Bool
is_live_hold now consent_id r =
    (r.consent_id == consent_id) && (is_held r.status && ltb now r.expires_at)

unfoldable pub rolling_used : ℕ → String → Tables → ℤ
unfolding in_window
rolling_used now id t = sum_rows (in_window now id) (λ u. u.amount_pence) t.usages

unfoldable pub rolling_held : ℕ → String → Tables → ℤ
unfolding is_live_hold
rolling_held now id t = sum_rows (is_live_hold now id) (λ r. r.amount_pence) t.reservations

-- `AND merchant_id = $4`, where a merchant is given.
unfoldable pub is_revocable : String → String → ConsentRow → Bool
is_revocable id merchant_id c =
    (c.id == id)
    && (is_active c.status && (if merchant_id == "" then true else c.merchant_id == merchant_id))

-- `WHERE id = $2 AND status = 'HELD'`, and `AND payment_id = $4` where a payment is given.
unfoldable pub is_confirmable : String → String → ReservationRow → Bool
is_confirmable id payment_id r =
    (r.id == id)
    && (is_held r.status && (if payment_id == "" then true else r.payment_id == payment_id))

-- The row of a consent after `UPDATE … SET status = 'REVOKED', updated_at = NOW()`.
abbrev pub revoke_row : ℕ → ConsentRow → ConsentRow
revoke_row now c = record c { status = revoked; updated_at = now }

abbrev pub confirm_row : ReservationRow → ReservationRow
confirm_row r = record r { status = confirmed }

abbrev pub release_row : ReservationRow → ReservationRow
release_row r = record r { status = released }

-- `UPDATE … WHERE test RETURNING …`: the row that changed.
abbrev pub update_returning : {A B : Type 0} → Option A → (A → A) → B → Result (A × B)
update_returning none change t = err no_rows
update_returning (some r) change t = ok (change r, t)

module _ (server : Server) where
  -- `InsertConsent`: the row with the identifier and the times that the database gives it.
  unfoldable pub insert_consent : ConsentRow → Query Tables ConsentRow
  insert_consent c s =
      let row : ConsentRow = record c {
        id = server.uuid s.count;
        valid_from = server.clock;
        created_at = server.clock;
        updated_at = server.clock;
      } in
      pool_statement server
        (λ t. elim (find_row (λ o. o.bank_consent_ref == c.bank_consent_ref) t.consents) [
          | some _ ↦ err unique_violation
          | none ↦ ok (row, record t { consents = t.consents ++ row ∷ [] })
        ])
        s

  unfoldable pub get_consent : String → Query Tables ConsentRow
  unfolding has_id
  get_consent id = pool_statement server (λ t. scan_row t (find_row (has_id id) t.consents))

  unfoldable pub revoke_consent : String → String → Query Tables ConsentRow
  unfolding is_revocable
  revoke_consent id merchant_id = pool_statement server λ t.
      update_returning (find_row (is_revocable id merchant_id) t.consents) (revoke_row server.clock)
        (record t {
          consents = update_rows (is_revocable id merchant_id) (revoke_row server.clock) t.consents;
        })

  unfoldable pub get_reservation_by_payment_id : String → Query Tables ReservationRow
  unfolding is_for_payment
  get_reservation_by_payment_id payment_id =
      statement server (λ t. scan_row t (find_row (is_for_payment payment_id) t.reservations))

  unfoldable pub lock_consent : String → Query Tables ConsentRow
  unfolding has_id
  lock_consent id = statement server (λ t. scan_row t (find_row (has_id id) t.consents))

  -- The two sums in one row; nothing is scanned where one of them does not fit.
  unfoldable pub scan_usage : String → Tables → Result ((ℤ × ℤ) × Tables)
  unfolding rolling_used rolling_held scan_int64
  scan_usage id t = elim (scan_int64 (rolling_used server.clock id t)) [
    | err e ↦ err e
    | ok used ↦ elim (scan_int64 (rolling_held server.clock id t)) [
      | err e ↦ err e
      | ok on_hold ↦ ok ((used, on_hold), t)
    ]
  ]

  unfoldable pub rolling_usage : String → Query Tables (ℤ × ℤ)
  unfolding scan_usage
  rolling_usage id = annotate "rolling usage" (statement server (scan_usage id))

  unfoldable pub rolling_usage_pool : String → Query Tables (ℤ × ℤ)
  unfolding scan_usage
  rolling_usage_pool id = annotate "rolling usage" (pool_statement server (scan_usage id))

  unfoldable pub tx_count_this_month : String → Query Tables ℤ
  unfolding in_window
  tx_count_this_month id =
      pool_statement server λ t. ok (sum_rows (in_window server.clock id) (λ _. pos 1) t.usages, t)

  unfoldable pub new_reservation : String → String → String → ℤ → ReservationRow
  new_reservation id consent_id payment_id amount = record {
    id = id;
    consent_id = consent_id;
    payment_id = payment_id;
    amount_pence = amount;
    status = held;
    expires_at = server.clock + ten_minutes;
    created_at = server.clock;
  }

  unfoldable pub insert_reservation : String → String → ℤ → Query Tables ReservationRow
  unfolding new_reservation is_for_payment has_id
  insert_reservation consent_id payment_id amount s =
      let row = new_reservation (server.uuid s.count) consent_id payment_id amount in
      annotate "insert reservation"
        (statement server (λ t. elim (find_row (is_for_payment payment_id) t.reservations) [
          | some _ ↦ err unique_violation
          | none ↦ elim (find_row (has_id consent_id) t.consents) [
            | none ↦ err foreign_key_violation
            | some _ ↦ ok (row, record t { reservations = t.reservations ++ row ∷ [] })
          ]
        ]))
        s

  unfoldable pub get_reservation : String → Query Tables ReservationRow
  unfolding is_reservation
  get_reservation id =
      statement server (λ t. scan_row t (find_row (is_reservation id) t.reservations))

  unfoldable pub confirm_reservation : String → String → Query Tables ReservationRow
  unfolding is_confirmable
  confirm_reservation id payment_id = statement server λ t.
      update_returning (find_row (is_confirmable id payment_id) t.reservations) confirm_row
        (record t {
          reservations = update_rows (is_confirmable id payment_id) confirm_row t.reservations;
        })

  -- `ON CONFLICT (payment_id) DO NOTHING`
  unfoldable pub insert_usage : String → String → ℤ → Query Tables (Unit {0})
  insert_usage consent_id payment_id amount = statement server λ t.
      let row : UsageRow = record {
        consent_id = consent_id;
        payment_id = payment_id;
        amount_pence = amount;
        settled_at = server.clock;
      } in
      elim (find_row (λ u. u.payment_id == payment_id) t.usages) [
        | some _ ↦ ok (tt, t)
        | none ↦ ok (tt, record t { usages = t.usages ++ row ∷ [] })
      ]

  unfoldable pub release_reservation : String → Query Tables ReservationRow
  unfolding is_confirmable
  release_reservation id = statement server λ t.
      update_returning (find_row (is_confirmable id "") t.reservations) release_row
        (record t { reservations = update_rows (is_confirmable id "") release_row t.reservations })
