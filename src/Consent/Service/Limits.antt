-- ===== src/Consent/Service/Limits.antt =====
-- `ValidateAndReserve` of services/consent-svc/internal/service.go against the limits of the consent.
use vrp_oneclick_deposit_pla.Common.{
  ℕ, suc, ◌<◌, true, false, none, some, String, List, [], ◌∷◌, ◌++◌, ◌≡◌, refl, ap, subst, ◌∙◌, sym,
  arith, ℤ, ◌+ℤ◌, ◌≤ℤ◌, IsInt64, add64, wrap64_id, int_laws, find_row, find_row_hit,
  sum_rows-append, inl, inr, Bool-cases, ◌==◌, eq_refl, eq_iff,
}
use vrp_oneclick_deposit_pla.Domainerr.{Code, Err, wrapped, Result, ok, err}
use vrp_oneclick_deposit_pla.Postgres.{
  Server, Session, Query, is_no_rows, ◌>>=◌, in_failed_transaction,
}
use vrp_oneclick_deposit_pla.Postgres.Laws.{>>=_elim, lift_inv, or_wrap_inv, begin_func_inv}
use vrp_oneclick_deposit_pla.Consent.{ConsentRow, ReservationRow, Tables, active}
use vrp_oneclick_deposit_pla.Consent.Repo.{
  has_id, is_for_payment, is_live_hold, rolling_used, rolling_held, lock_consent, rolling_usage,
  new_reservation, insert_reservation, get_reservation_by_payment_id,
}
use vrp_oneclick_deposit_pla.Consent.Repo.Laws.{
  get_reservation_by_payment_id_inv, get_reservation_by_payment_id_keeps,
  get_reservation_by_payment_id-aborted, lock_consent_inv, rolling_usage_inv,
  insert_reservation_inv, insert_reservation_aborts,
}
use vrp_oneclick_deposit_pla.Consent.Service.{
  ReserveInput, ReserveResult, or_missing, consent_not_found, check_status, check_terms,
  check_month, check_reserve, reserve_conflict, hold_inserted, insert_hold, reserve_new,
  reserve_found, reserve_body, validate_and_reserve,
}

or_missing_inv :
    {A : Type 0} (missing : Err) (m : String) (q : Query Tables A) (s : Session Tables) {a : A}
    {t : Session Tables}
    → or_missing missing m q s ≡ (ok a, t)
    → q s ≡ (ok a, t)
or_missing_inv missing m q s h = ground arith

check_status-active :
    (now : ℕ) (c : ConsentRow)
    → check_status now c ≡ ok tt
    → (c.status ≡ active) × (now < c.valid_until)
unfolding check_status
check_status-active now c h = (ground arith, ground arith)

check_terms-limit :
    (i : ReserveInput) (c : ConsentRow)
    → check_terms i c ≡ ok tt
    → i.amount_pence ≤ℤ c.max_amount_pence
unfolding check_terms
check_terms-limit i c h = ground arith

check_month-limit :
    (i : ReserveInput) (c : ConsentRow) (a b : ℤ)
    → check_month i c (a, b) ≡ ok tt
    → IsInt64 (a +ℤ b)
    → IsInt64 (a +ℤ b +ℤ i.amount_pence)
    → a +ℤ b +ℤ i.amount_pence ≤ℤ c.max_monthly_pence
unfolding check_month add64
check_month-limit i c a b h k l =
    ground (arith, wrap64_id (a +ℤ b), wrap64_id (a +ℤ b +ℤ i.amount_pence))

-- In an aborted transaction the second reading of the reservation fails.
pub reserve_conflict-aborted :
    (server : Server) (now : ℕ) (i : ReserveInput) (c : ConsentRow) (p : ℤ × ℤ) (s : Session Tables)
    → s.aborted ≡ true
    → reserve_conflict server now i c p s
      ≡ (err (wrapped Code.internal "re-read reservation" in_failed_transaction), s)
unfolding reserve_conflict ◌>>=◌
reserve_conflict-aborted server now i c p s h =
    ground (arith, get_reservation_by_payment_id-aborted server i.payment_id s h)

module _ (server : Server) (now : ℕ) (i : ReserveInput) where
  insert_hold_inv :
      (c : ConsentRow) (p : ℤ × ℤ) (s : Session Tables) {r : ReserveResult} {t : Session Tables}
      → insert_hold server now i c p s ≡ (ok r, t)
      → (row : ReservationRow) × (insert_reservation server c.id i.payment_id i.amount_pence s
          ≡ (ok row, t))
        × (r.reservation_id ≡ row.id)
  unfolding insert_hold hold_inserted ◌>>=◌
  insert_hold_inv c p s {r} {t} h =
      go (insert_reservation server c.id i.payment_id i.amount_pence s) refl h
    where
      go :
          (q : Result ReservationRow × Session Tables)
          → insert_reservation server c.id i.payment_id i.amount_pence s ≡ q
          → hold_inserted server now i c p q.0 q.1 ≡ (ok r, t)
          → (row : ReservationRow) × (insert_reservation server c.id i.payment_id i.amount_pence s
              ≡ (ok row, t))
            × (r.reservation_id ≡ row.id)
      go (ok row, u) e k = (row, cc, ground arith)
      go (err x, u) e k = absurd (
          ground (
            arith,
            reserve_conflict-aborted server now i c p u
                (insert_reservation_aborts server c.id i.payment_id i.amount_pence s e),
          ))

-- The rolling usage of a consent: what was settled in the last thirty days, and what is held.
abbrev pub rolling : ℕ → String → Tables → ℤ
rolling clock id t = rolling_used clock id t +ℤ rolling_held clock id t

-- The sums that the service forms with the amount fit an int64.
abbrev pub NoOverflow : ℕ → ReserveInput → Tables → Type 0
NoOverflow clock i t =
    IsInt64 (rolling clock i.consent_id t)
    × IsInt64 (rolling clock i.consent_id t +ℤ i.amount_pence)

-- What a reservation that is new has checked and written.
pub record Granted (server : Server) (now : ℕ) (i : ReserveInput) (before after : Tables)
    (id : String) : Type 0 where
  pub consent : ConsentRow
  pub found : find_row (has_id i.consent_id) before.consents ≡ some consent
  pub is_active : consent.status ≡ active
  pub is_valid : now < consent.valid_until
  pub within_payment : i.amount_pence ≤ℤ consent.max_amount_pence
  pub within_month : rolling server.clock i.consent_id after ≤ℤ consent.max_monthly_pence
  pub written : after ≡ record before {
    reservations =
        before.reservations
        ++ new_reservation server id i.consent_id i.payment_id i.amount_pence ∷ [];
  }

is_live_hold-new :
    (server : Server) (id consent_id payment_id : String) (amount : ℤ)
    → is_live_hold server.clock consent_id (new_reservation server id consent_id payment_id amount)
      ≡ true
unfolding is_live_hold new_reservation
is_live_hold-new server id consent_id payment_id amount = ground (arith, eq_refl consent_id)

-- A new hold adds its amount to the rolling usage.
rolling-hold :
    (server : Server) (id consent_id payment_id : String) (amount : ℤ) (t : Tables)
    → rolling server.clock consent_id (record t {
      reservations = t.reservations ++ new_reservation server id consent_id payment_id amount ∷ [];
    })
      ≡ rolling server.clock consent_id t +ℤ amount
unfolding rolling_held rolling_used new_reservation
rolling-hold server id consent_id payment_id amount t =
    rw (sum_rows-append, is_live_hold-new server id consent_id payment_id amount) (omega int_laws)

has_id_eq :
    (id : String) (c : ConsentRow) (l : List ConsentRow)
    → find_row (has_id id) l ≡ some c
    → c.id ≡ id
unfolding has_id
has_id_eq id c l h = (eq_iff c.id id).0 (find_row_hit (λ (x : ConsentRow). x.id == id) l c h)

module _ (server : Server) (now : ℕ) (i : ReserveInput) where
  -- The checks and the insertion, read together.
  granted :
      (c : ConsentRow) (row : ReservationRow) (before after : Tables)
      → find_row (has_id i.consent_id) before.consents ≡ some c
      → check_status now c ≡ ok tt
      → check_terms i c ≡ ok tt
      → check_month i c (
        rolling_used server.clock i.consent_id before,
        rolling_held server.clock i.consent_id before,
      )
        ≡ ok tt
      → row ≡ new_reservation server row.id i.consent_id i.payment_id i.amount_pence
      → after ≡ record before { reservations = before.reservations ++ row ∷ [] }
      → NoOverflow server.clock i before
      → Granted server now i before after row.id
  granted c row before after found status terms month shape wrote fits = record {
    consent = c;
    found = found;
    is_active = (check_status-active now c status).0;
    is_valid = (check_status-active now c status).1;
    within_payment = check_terms-limit i c terms;
    within_month =
        rw
          (wrote, shape, rolling-hold server row.id i.consent_id i.payment_id i.amount_pence before)
          (check_month-limit i c _ _ month fits.0 fits.1);
    written =
        wrote
        ∙ ap
            (λ (x : ReservationRow). record before { reservations = before.reservations ++ x ∷ [] })
            shape;
  }

  reserve_new_inv :
      (s : Session Tables) {r : ReserveResult} {t : Session Tables}
      → reserve_new server now i s ≡ (ok r, t)
      → NoOverflow server.clock i s.tables
      → Granted server now i s.tables t.tables r.reservation_id
  unfolding reserve_new
  reserve_new_inv s {r} {t} h fits = >>=_elim _ _ _ h λ c s1 lock k1.
      >>=_elim _ _ _ k1 λ _ s2 status k2. >>=_elim _ _ _ k2 λ _ s3 terms k3.
        >>=_elim _ _ _ k3 λ p s4 usage k4. >>=_elim _ _ _ k4 λ _ s5 month k5.
          let (row, inserted, e) = insert_hold_inv server now i c p s5 k5 in
          let locked = lock_consent_inv server i.consent_id s (
            or_missing_inv consent_not_found "lock consent" (lock_consent server i.consent_id) s
              lock) in
          let same = has_id_eq i.consent_id c s.tables.consents locked.0 in
          let checked = lift_inv (check_status now c) s1 status in
          let agreed = lift_inv (check_terms i c) s2 terms in
          let used =
            rolling_usage_inv server c.id s3
              (or_wrap_inv Code.internal "rolling usage" (rolling_usage server c.id) s3 usage) in
          let counted = lift_inv (check_month i c p) s4 month in
          let wrote = insert_reservation_inv server c.id i.payment_id i.amount_pence s5 inserted in
          let here : s5.tables ≡ s.tables = cc (
            ap (λ (x : Session Tables). x.tables) counted.1,
            used.2,
            ap (λ (x : Session Tables). x.tables) agreed.1,
            ap (λ (x : Session Tables). x.tables) checked.1,
            locked.1,
          ) in
          let there : s3.tables ≡ s.tables = cc (
            ap (λ (x : Session Tables). x.tables) agreed.1,
            ap (λ (x : Session Tables). x.tables) checked.1,
            locked.1,
          ) in
          subst (Granted server now i s.tables t.tables) (sym e) (
            granted c row s.tables t.tables locked.0 checked.0 agreed.0
              (cc (counted.0, used.0, used.1, there, same)) (cc (wrote.0, same))
              (cc (wrote.1, here)) fits)

  reserve_found_err_inv :
      (x : Err) (u : Session Tables) {r : ReserveResult} {t : Session Tables}
      → reserve_found server now i (err x) u ≡ (ok r, t)
      → reserve_new server now i u ≡ (ok r, t)
  unfolding reserve_found
  reserve_found_err_inv x u h = elim (Bool-cases (is_no_rows x)) [
    | inl missing ↦ rw missing at h
    | inr other ↦ absurd (cc (rw other at h))
  ]

  reserve_body_inv :
      (s : Session Tables) {r : ReserveResult} {t : Session Tables}
      → reserve_body server now i s ≡ (ok r, t)
      → find_row (is_for_payment i.payment_id) s.tables.reservations ≡ none
      → NoOverflow server.clock i s.tables
      → Granted server now i s.tables t.tables r.reservation_id
  unfolding reserve_body ◌>>=◌
  reserve_body_inv s {r} {t} h fresh fits =
      go (get_reservation_by_payment_id server i.payment_id s) refl h
    where
      go :
          (q : Result ReservationRow × Session Tables)
          → get_reservation_by_payment_id server i.payment_id s ≡ q
          → reserve_found server now i q.0 q.1 ≡ (ok r, t)
          → Granted server now i s.tables t.tables r.reservation_id
      go (ok x, u) e k =
          absurd (cc ((get_reservation_by_payment_id_inv server i.payment_id s e).0, fresh))
      go (err x, u) e k =
          let kept : u.tables ≡ s.tables = cc (
            get_reservation_by_payment_id_keeps server i.payment_id s,
            ap (λ (p : Result ReservationRow × Session Tables). p.1.tables) e,
          ) in
          rw (← kept) (reserve_new_inv u (reserve_found_err_inv x u k) (rw kept fits))

  -- A reservation that `ValidateAndReserve` grants to a payment without one: the consent is active
  -- and has not run out, the amount is within its limit per payment, and the usage of the last
  -- thirty days together with all live holds, the new one included, is within its limit per month,
  -- if the service's sums do not overflow. One row is added and nothing else changes.
  pub validate_and_reserve_limits :
      (s : Session Tables) {r : ReserveResult} {t : Session Tables}
      → validate_and_reserve server now i s ≡ (ok r, t)
      → find_row (is_for_payment i.payment_id) s.tables.reservations ≡ none
      → NoOverflow server.clock i s.tables
      → Granted server now i s.tables t.tables r.reservation_id
  unfolding validate_and_reserve
  validate_and_reserve_limits s {r} {t} h fresh fits = >>=_elim _ _ _ h λ _ s1 checked k1.
      let (u, ran, same, _) = begin_func_inv server (reserve_body server now i) s1 k1 in
      let start : Session Tables = record s1 { count = suc s1.count; aborted = false } in
      let kept = ap (λ (x : Session Tables). x.tables) (lift_inv (check_reserve i) s checked).1 in
      rw (same, ← kept) (reserve_body_inv start ran (rw kept fresh) (rw kept fits))
