-- ===== src/Consent/Service/Confirmed.antt =====
-- What a confirmation by services/consent-svc/internal/service.go leaves in the tables.
use vrp_oneclick_deposit_pla.Common.{
  ℕ, suc, Bool, true, false, not, ◌&&◌, Option, none, some, String, List, [], ◌∷◌, ◌++◌, ◌==◌,
  eq_iff, ◌≡◌, refl, sym, ap, ◌∙◌, subst, ◌⊎◌, inl, inr, Bool-cases, arith, ℤ, find_row,
  update_rows, find_row_hit,
}
use vrp_oneclick_deposit_pla.Domainerr.{Err, Result, ok, reject_if}
use vrp_oneclick_deposit_pla.Postgres.{Server, Session, Query}
use vrp_oneclick_deposit_pla.Postgres.Laws.{
  >>=_elim, lift_inv, or_wrap_inv, statement_inv, begin_func_inv,
}
use vrp_oneclick_deposit_pla.Consent.{
  ReservationRow, ReservationStatus, held, confirmed, released, UsageRow, Tables,
}
use vrp_oneclick_deposit_pla.Consent.Repo.{
  is_reservation, is_confirmable, confirm_row, get_reservation, confirm_reservation, insert_usage,
  update_returning,
}
use vrp_oneclick_deposit_pla.Consent.Service.{or_missing, confirm_by_status, confirm_body, confirm}

abbrev pub is_usage_of : String → UsageRow → Bool
is_usage_of payment_id u = u.payment_id == payment_id

-- The usage of a reservation's payment at the time of the server.
abbrev pub new_usage : Server → ReservationRow → UsageRow
new_usage server r = record {
  consent_id = r.consent_id;
  payment_id = r.payment_id;
  amount_pence = r.amount_pence;
  settled_at = server.clock;
}

-- The reservations stay, or the held ones with the identifier, for the payment where one is given, are
-- confirmed.
abbrev pub AsConfirmed : String → String → List ReservationRow → List ReservationRow → Type 0
AsConfirmed id payment_id before after =
    (after ≡ before) ⊎ (after ≡ update_rows (is_confirmable id payment_id) confirm_row before)

-- The reservation `id` was held, or was confirmed before, for this payment where one is given; it is
-- confirmed, no other reservation has changed, and no consent; and one usage of its amount was recorded,
-- unless its payment already had one.
pub record Confirmed (server : Server) (id payment_id : String) (j k : Tables) : Type 0 where
  pub reservation : ReservationRow
  pub found : find_row (is_reservation id) j.reservations ≡ some reservation
  pub unreleased : (reservation.status ≡ held) ⊎ (reservation.status ≡ confirmed)
  pub matches : (payment_id ≡ "") ⊎ (reservation.payment_id ≡ payment_id)
  pub after : find_row (is_reservation id) k.reservations ≡ some (confirm_row reservation)
  pub reservations : AsConfirmed id payment_id j.reservations k.reservations
  pub consents : k.consents ≡ j.consents
  pub usage :
      ((k.usages ≡ j.usages)
        × (u : UsageRow) × (find_row (is_usage_of reservation.payment_id) j.usages ≡ some u))
      ⊎ ((k.usages ≡ j.usages ++ new_usage server reservation ∷ [])
          × (find_row (is_usage_of reservation.payment_id) j.usages ≡ none))

-- The first row with an identifier, where it may be confirmed, is the first that may be, and is found
-- again after the update.
module _ (id payment_id : String) (r : ReservationRow)
    (c : is_confirmable id payment_id r ≡ true) where
  find_confirmable :
      (rs : List ReservationRow)
      → find_row (is_reservation id) rs ≡ some r
      → find_row (is_confirmable id payment_id) rs ≡ some r
  unfolding find_row is_reservation is_confirmable
  find_confirmable [] h = cc
  find_confirmable (x ∷ rs) h = ground (arith, c, find_confirmable rs)

  find_updated :
      (rs : List ReservationRow)
      → find_row (is_reservation id) rs ≡ some r
      → find_row (is_reservation id) (update_rows (is_confirmable id payment_id) confirm_row rs)
        ≡ some (confirm_row r)
  unfolding find_row update_rows is_reservation is_confirmable
  find_updated [] h = cc
  find_updated (x ∷ rs) h = ground (arith, c, find_updated rs)

update_returning_inv :
    {A B : Type 0} (o : Option A) (change : A → A) (b : B) {a : A} {c : B}
    → update_returning o change b ≡ ok (a, c)
    → (x : A) × (o ≡ some x) × (a ≡ change x) × (c ≡ b)
update_returning_inv none change b h = absurd (cc)
update_returning_inv (some x) change b h = (x, refl, cc, cc)

either_inv :
    {A B : Type 0} (o : Option A) (b c : B) {d : B}
    → (let r : Result (Unit {0} × B) = elim o [ some _ ↦ ok (tt, b) | none ↦ ok (tt, c) ] in r)
      ≡ ok (tt, d)
    → ((d ≡ b) × (x : A) × (o ≡ some x)) ⊎ ((d ≡ c) × (o ≡ none))
either_inv none b c h = inr (cc, refl)
either_inv (some x) b c h = inl (cc, x, refl)

module _ (server : Server) where
  get_reservation_inv :
      (id : String) (s : Session Tables) {r : ReservationRow} {t : Session Tables}
      → get_reservation server id s ≡ (ok r, t)
      → (find_row (is_reservation id) s.tables.reservations ≡ some r) × (t.tables ≡ s.tables)
  unfolding get_reservation
  get_reservation_inv id s h =
      let q = (statement_inv server _ s h).0 in (ground arith, ground arith)

  confirm_reservation_inv :
      (id payment_id : String) (s : Session Tables) {u : ReservationRow} {t : Session Tables}
      → confirm_reservation server id payment_id s ≡ (ok u, t)
      → (x : ReservationRow) × (find_row (is_confirmable id payment_id) s.tables.reservations
          ≡ some x)
        × (u ≡ confirm_row x)
        × (t.tables ≡ record s.tables {
          reservations =
              update_rows (is_confirmable id payment_id) confirm_row s.tables.reservations;
        })
  unfolding confirm_reservation
  confirm_reservation_inv id payment_id s h =
      update_returning_inv (find_row (is_confirmable id payment_id) s.tables.reservations)
        confirm_row
        (record s.tables {
          reservations =
              update_rows (is_confirmable id payment_id) confirm_row s.tables.reservations;
        })
        (statement_inv server _ s h).0

  -- The usage is there, or it is added.
  abbrev Recorded : String → String → ℤ → Tables → Tables → Type 0
  Recorded c p a j k =
      ((k ≡ j) × (u : UsageRow) × (find_row (is_usage_of p) j.usages ≡ some u))
      ⊎ ((k ≡ record j {
        usages =
            j.usages
            ++ record {
              consent_id = c;
              payment_id = p;
              amount_pence = a;
              settled_at = server.clock;
            }
              ∷ [];
      })
          × (find_row (is_usage_of p) j.usages ≡ none))

  insert_usage_inv :
      (c p : String) (a : ℤ) (s : Session Tables) {t : Session Tables}
      → insert_usage server c p a s ≡ (ok tt, t)
      → Recorded c p a s.tables t.tables
  unfolding insert_usage
  insert_usage_inv c p a s h =
      either_inv (find_row (is_usage_of p) s.tables.usages) s.tables _
        (statement_inv server _ s h).0

  or_missing_inv :
      {A : Type 0} (missing : Err) (m : String) (q : Query Tables A) (s : Session Tables) {a : A}
      {t : Session Tables}
      → or_missing missing m q s ≡ (ok a, t)
      → q s ≡ (ok a, t)
  or_missing_inv missing m q s h = ground arith

  -- From the tables `i`, in which the reservation is confirmed.
  Recorded-Confirmed :
      (id payment_id : String) (r : ReservationRow) (j i k : Tables)
      → find_row (is_reservation id) j.reservations ≡ some r
      → (r.status ≡ held) ⊎ (r.status ≡ confirmed)
      → (payment_id ≡ "") ⊎ (r.payment_id ≡ payment_id)
      → find_row (is_reservation id) i.reservations ≡ some (confirm_row r)
      → AsConfirmed id payment_id j.reservations i.reservations
      → i.consents ≡ j.consents
      → i.usages ≡ j.usages
      → Recorded r.consent_id r.payment_id r.amount_pence i k
      → Confirmed server id payment_id j k
  Recorded-Confirmed id payment_id r j i k f o m g n c u (inl (same, x, there)) = record {
    reservation = r;
    found = f;
    unreleased = o;
    matches = m;
    after =
        subst (λ (t : Tables). find_row (is_reservation id) t.reservations ≡ some (confirm_row r))
          (sym same) g;
    reservations =
        subst (λ (t : Tables). AsConfirmed id payment_id j.reservations t.reservations) (sym same)
          n;
    consents = ap (λ (t : Tables). t.consents) same ∙ c;
    usage = inl (
      ap (λ (t : Tables). t.usages) same ∙ u,
      x,
      subst (λ (us : List UsageRow). find_row (is_usage_of r.payment_id) us ≡ some x) u there,
    );
  }
  Recorded-Confirmed id payment_id r j i k f o m g n c u (inr (same, missing)) = record {
    reservation = r;
    found = f;
    unreleased = o;
    matches = m;
    after =
        subst (λ (t : Tables). find_row (is_reservation id) t.reservations ≡ some (confirm_row r))
          (sym same) g;
    reservations =
        subst (λ (t : Tables). AsConfirmed id payment_id j.reservations t.reservations) (sym same)
          n;
    consents = ap (λ (t : Tables). t.consents) same ∙ c;
    usage = inr (
      ap (λ (t : Tables). t.usages) same
          ∙ ap (λ (us : List UsageRow). us ++ new_usage server r ∷ []) u,
      subst (λ (us : List UsageRow). find_row (is_usage_of r.payment_id) us ≡ none) u missing,
    );
  }

  confirmable :
      (id payment_id : String) (r : ReservationRow) (rs : List ReservationRow)
      → find_row (is_reservation id) rs ≡ some r
      → r.status ≡ held
      → (payment_id ≡ "") ⊎ (r.payment_id ≡ payment_id)
      → is_confirmable id payment_id r ≡ true
  unfolding is_confirmable is_reservation
  confirmable id payment_id r rs f e (inl m) =
      ground (
        arith,
        find_row_hit (λ (x : ReservationRow). x.id == id) rs r f,
        (eq_iff payment_id "").1 m,
      )
  confirmable id payment_id r rs f e (inr m) = ground (
    arith,
    find_row_hit (λ (x : ReservationRow). x.id == id) rs r f,
    (eq_iff r.payment_id payment_id).1 m,
  )

  -- From the row that was read, by its status.
  confirm_by_status-Confirmed :
      (now : ℕ) (id payment_id : String) (r : ReservationRow) (s t : Session Tables)
      → find_row (is_reservation id) s.tables.reservations ≡ some r
      → (payment_id ≡ "") ⊎ (r.payment_id ≡ payment_id)
      → (st : ReservationStatus) → r.status ≡ st
      → confirm_by_status server now st id payment_id r s ≡ (ok tt, t)
      → Confirmed server id payment_id s.tables t.tables
  unfolding confirm_by_status
  confirm_by_status-Confirmed now id payment_id r s t f m released e h = absurd (cc)
  confirm_by_status-Confirmed now id payment_id r s t f m confirmed e h =
      let same : r ≡ confirm_row r = ap (λ (st : ReservationStatus). record r { status = st }) e in
      Recorded-Confirmed id payment_id r s.tables s.tables t.tables f (inr e) m (f ∙ ap some same)
        (inl refl) refl refl (insert_usage_inv r.consent_id r.payment_id r.amount_pence s h)
  confirm_by_status-Confirmed now id payment_id r s t f m held e h =
      >>=_elim _ _ s h λ u v first second.
        let can = confirmable id payment_id r s.tables.reservations f e m in
        let (x, hit, row, tables) =
          confirm_reservation_inv id payment_id s
            (or_missing_inv _ _ (confirm_reservation server id payment_id) s first) in
        let found = find_confirmable id payment_id r can s.tables.reservations f in
        let same : u ≡ confirm_row r = cc (hit, found, row) in
        let used = insert_usage_inv u.consent_id u.payment_id u.amount_pence v (
          or_wrap_inv _ _ (insert_usage server u.consent_id u.payment_id u.amount_pence) v
            second) in
        Recorded-Confirmed id payment_id r s.tables v.tables t.tables f (inl e) m
          (subst
            (λ (j : Tables). find_row (is_reservation id) j.reservations ≡ some (confirm_row r))
            (sym tables) (find_updated id payment_id r can s.tables.reservations f))
          (inr (ap (λ (j : Tables). j.reservations) tables))
          (ap (λ (j : Tables). j.consents) tables) (ap (λ (j : Tables). j.usages) tables)
          (subst
            (λ (q : ReservationRow).
              Recorded q.consent_id q.payment_id q.amount_pence v.tables t.tables)
            same used)

reject_passed : (b : Bool) (e : Err) → reject_if b e ≡ ok tt → b ≡ false
reject_passed true e h = absurd (cc)
reject_passed false e h = refl

module _ (server : Server) (now : ℕ) (id payment_id : String) where
  matched :
      (r : ReservationRow)
      → (not (payment_id == "") && not (r.payment_id == payment_id)) ≡ false
      → (payment_id ≡ "") ⊎ (r.payment_id ≡ payment_id)
  matched r h = elim (Bool-cases (payment_id == "")) [
    | inl y ↦ inl ((eq_iff payment_id "").0 y)
    | inr n ↦ inr ((eq_iff r.payment_id payment_id).0 (ground arith))
  ]

  confirm_body-Confirmed :
      (s t : Session Tables)
      → confirm_body server now id payment_id s ≡ (ok tt, t)
      → Confirmed server id payment_id s.tables t.tables
  unfolding confirm_body
  confirm_body-Confirmed s t h = >>=_elim _ _ s h λ r v first k. >>=_elim _ _ v k λ _ w second last.
      let (found, same) =
        get_reservation_inv server id s
          (or_missing_inv server _ _ (get_reservation server id) s first) in
      let (passed, kept) = lift_inv _ v second in
      let tables : w.tables ≡ s.tables = ap (λ (x : Session Tables). x.tables) kept ∙ same in
      let ready = matched r (reject_passed _ _ passed) in
      subst (λ (j : Tables). Confirmed server id payment_id j t.tables) tables
        (confirm_by_status-Confirmed server now id payment_id r w t
          (subst (λ (j : Tables). find_row (is_reservation id) j.reservations ≡ some r) (sym tables)
            found)
          ready r.status refl last)

  -- A confirmation that returns no error: the reservation is stored, was not released, and is for the
  -- payment, where one is given; it is confirmed; and one usage of its amount was recorded, unless its
  -- payment already had one; no other reservation and no consent has changed.
  pub confirm-Confirmed :
      (s t : Session Tables)
      → confirm server now id payment_id s ≡ (ok tt, t)
      → Confirmed server id payment_id s.tables t.tables
  unfolding confirm
  confirm-Confirmed s t h = >>=_elim _ _ s h λ _ v first k.
      let (passed, kept) = lift_inv _ s first in
      let (u, ran, tables, _) = begin_func_inv server (confirm_body server now id payment_id) v k in
      subst (λ (k : Tables). Confirmed server id payment_id s.tables k) (sym tables)
        (subst (λ (x : Session Tables). Confirmed server id payment_id x.tables u.tables) kept
          (confirm_body-Confirmed (record v { count = suc v.count; aborted = false }) u ran))
