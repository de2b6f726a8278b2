-- ===== src/Payment/Outbox/Laws.antt =====
-- Delivery by the relay of services/payment-svc/internal/outbox.go: no row is lost.
use vrp_oneclick_deposit_pla.Common.{
  ℕ, suc, false, String, List, [], ◌∷◌, ◌++◌, map, ◌==◌, eq_iff, ◌≡◌, refl, sym, ap, subst, ◌∙◌,
  ◌⊎◌, inl, inr, Bool-cases, delete_rows, take, Memᴰ-take, Memᴰ-sort_by, Memᴰ-delete_rows,
  delete_rows-Memᴰ, arith, none,
}
use mathlib.Core.List.{append-nil, append_assoc}
use mathlib.Core.List.Memᴰ.{Memᴰ, head, tail, not-nil, append_left, append_right}
use vrp_oneclick_deposit_pla.Domainerr.{Err, Result, ok, err}
use vrp_oneclick_deposit_pla.Domainerr.Triple.{ignore_outcome}
use vrp_oneclick_deposit_pla.Postgres.{Server, Session, pool_statement, statement}
use vrp_oneclick_deposit_pla.Postgres.Laws.{Triple-pool_statement, Triple-annotate}
use vrp_oneclick_deposit_pla.Payment.{OutboxRow, Store}
use vrp_oneclick_deposit_pla.Payment.Outbox.{
  Message, Relay, Ack, acked, lost, unacknowledged, message_of, has_row_id, outbox_batch,
  list_outbox, delete_outbox, publish_rows, flush, batch_size,
}

-- The identifiers of the rows are a primary key.
abbrev pub UniqueIds : List OutboxRow → Type 0
UniqueIds rows = (r q : OutboxRow) → Memᴰ r rows → Memᴰ q rows → r.id ≡ q.id → r ≡ q

-- Each of the rows is in the outbox or has been published.
abbrev pub Kept : List OutboxRow → Relay → Type 0
Kept rows w =
    (r : OutboxRow) → Memᴰ r rows → Memᴰ r w.session.tables.outbox ⊎ Memᴰ (message_of r) w.log

module _ (server : Server) where
  delete_outbox-other :
      (id : String) (r : OutboxRow) (s : Session Store)
      → (r.id == id) ≡ false
      → Memᴰ r s.tables.outbox
      → Memᴰ r (delete_outbox server id s).1.tables.outbox
  unfolding delete_outbox
  delete_outbox-other id r s n m =
      ignore_outcome (λ (t : Session Store). Memᴰ r t.tables.outbox) (delete_outbox server id s)
        ((Triple-annotate "delete outbox" _ (
            Triple-pool_statement server {P = λ t. Memᴰ r t.outbox} {Q = λ _ t. Memᴰ r t.outbox} _
              (λ j k a p h.
                let same : k.outbox ≡ delete_rows (has_row_id id) j.outbox = cc (h) in
                subst (λ rows. Memᴰ r rows) (sym same)
                  (Memᴰ-delete_rows (has_row_id id) j.outbox r n p)))).at
          s m)

  list_outbox-batch :
      (limit : ℕ) (s : Session Store) {rows : List OutboxRow} {t : Session Store}
      → list_outbox server limit s ≡ (ok rows, t)
      → (rows ≡ outbox_batch limit s.tables.outbox) × (t.tables ≡ s.tables)
  unfolding list_outbox pool_statement statement
  list_outbox-batch limit s h = (ground arith, ground arith)

  list_outbox-unchanged :
      (limit : ℕ) (s : Session Store) {e : Err} {t : Session Store}
      → list_outbox server limit s ≡ (err e, t)
      → t.tables ≡ s.tables
  unfolding list_outbox pool_statement statement
  list_outbox-unchanged limit s h = ground arith

  module _ (broker : List Message → Ack) (all : List OutboxRow) where
    -- A row that was published and then deleted, or not.
    deleted-Kept :
        (row : OutboxRow) (w : Relay)
        → UniqueIds all
        → Memᴰ row all
        → Kept all w
        → Kept all (record {
          session = (delete_outbox server row.id w.session).1;
          log = w.log ++ message_of row ∷ [];
        })
    deleted-Kept row w u m k r n = elim (Bool-cases (r.id == row.id)) [
      | inl e ↦ inr (
          subst (λ q. Memᴰ (message_of q) (w.log ++ message_of row ∷ []))
            (sym (u r row n m ((eq_iff r.id row.id).0 e))) (append_right w.log (head refl)))
      | inr e ↦ elim (k r n) [
        | inl o ↦ inl (delete_outbox-other row.id r w.session e o)
        | inr l ↦ inr (append_left (message_of row ∷ []) l)
      ]
    ]

    sent-Kept :
        (row : OutboxRow) (w : Relay)
        → Kept all w
        → Kept all (record w { log = w.log ++ message_of row ∷ [] })
    sent-Kept row w k r n = elim (k r n) [
      | inl o ↦ inl o
      | inr l ↦ inr (append_left (message_of row ∷ []) l)
    ]

    next-Kept :
        (log : List Message) (rows : List OutboxRow) (p : Result (Unit {0}) × Session Store)
        → Kept all (record { session = p.1; log = log })
        → ((w : Relay) → Kept all w → Kept all (publish_rows server broker rows w))
        → Kept all (elim p.0 [
          | err e ↦ record { session = p.1; log = log }
          | ok _ ↦ publish_rows server broker rows (record { session = p.1; log = log })
        ])
    next-Kept log rows (err e, s) k f = k
    next-Kept log rows (ok _, s) k f = f _ k

    answered-Kept :
        (a : Ack) (w x y : Relay)
        → Kept all w
        → Kept all x
        → Kept all y
        → Kept all (elim a [ lost ↦ w | unacknowledged ↦ x | acked ↦ y ])
    answered-Kept lost w x y k l m = k
    answered-Kept unacknowledged w x y k l m = l
    answered-Kept acked w x y k l m = m

    publish_rows-Kept :
        (rows : List OutboxRow) (w : Relay)
        → UniqueIds all
        → ((r : OutboxRow) → Memᴰ r rows → Memᴰ r all)
        → Kept all w
        → Kept all (publish_rows server broker rows w)
    unfolding publish_rows
    publish_rows-Kept [] w u sub k = k
    publish_rows-Kept (row ∷ rows) w u sub k =
        answered-Kept (broker (w.log ++ message_of row ∷ [])) _ _ _ k (sent-Kept row w k) (
          next-Kept _ rows (delete_outbox server row.id w.session)
            (deleted-Kept row w u (sub row (head refl)) k)
            (λ v l. publish_rows-Kept rows v u (λ r m. sub r (tail m)) l))

  module _ (broker : List Message → Ack) where
    flushed-Kept :
        (w : Relay) (p : Result (List OutboxRow) × Session Store)
        → UniqueIds w.session.tables.outbox
        → list_outbox server batch_size w.session ≡ p
        → Kept w.session.tables.outbox (elim p.0 [
          | err e ↦ record w { session = p.1 }
          | ok rows ↦ publish_rows server broker rows (record w { session = p.1 })
        ])
    unfolding take outbox_batch
    flushed-Kept w (err e, s) u h r m = inl (
        subst (λ (t : Store). Memᴰ r t.outbox) (sym (list_outbox-unchanged batch_size w.session h))
          m)
    flushed-Kept w (ok rows, s) u h r m =
        let (batch, same) = list_outbox-batch batch_size w.session h in
        let all = w.session.tables.outbox in
        publish_rows-Kept broker all rows (record w { session = s }) u
          (λ r m.
            Memᴰ-sort_by (λ (q : OutboxRow). q.created_at) all r
              (Memᴰ-take batch_size _ r (subst (λ l. Memᴰ r l) batch m)))
          (λ r m. inl (subst (λ (t : Store). Memᴰ r t.outbox) (sym same) m)) r m

-- After a flush each row of the outbox is still there or has been published, whatever the
-- broker and the database answer.
pub flush-Kept :
    (server : Server) (broker : List Message → Ack) (w : Relay)
    → UniqueIds w.session.tables.outbox
    → Kept w.session.tables.outbox (flush server broker w)
unfolding flush
flush-Kept server broker w u =
    flushed-Kept server broker w (list_outbox server batch_size w.session) u refl

-- What a batch without errors has done.
pub record Delivered (rows : List OutboxRow) (before after : Relay) : Type 0 where
  pub in_order : after.log ≡ before.log ++ map message_of rows
  pub removed :
      (r q : OutboxRow) → Memᴰ r after.session.tables.outbox → Memᴰ q rows → (r.id == q.id) ≡ false
  pub left :
      (r : OutboxRow) → Memᴰ r after.session.tables.outbox → Memᴰ r before.session.tables.outbox

module _ (server : Server) (sound : (n : ℕ) → server.fault n ≡ none) (broker : List Message → Ack)
    (reliable : (log : List Message) → broker log ≡ acked) where
  abbrev delete_session : String → Session Store → Session Store
  delete_session id s = record {
    tables = record (s.tables) { outbox = delete_rows (has_row_id id) s.tables.outbox };
    count = suc s.count;
    aborted = false;
  }

  delete_outbox_sound :
      (id : String) (s : Session Store) → delete_outbox server id s ≡ (ok tt, delete_session id s)
  unfolding delete_outbox pool_statement statement
  delete_outbox_sound id s = let f = sound s.count in ground arith

  acked_step :
      (log : List Message) (w x : Relay) (rows : List OutboxRow) (a : Ack)
      (p : Result (Unit {0}) × Session Store) (t : Session Store)
      → a ≡ acked
      → p ≡ (ok tt, t)
      → elim a [
        | lost ↦ w
        | unacknowledged ↦ x
        | acked ↦ elim p.0 [
          | err e ↦ record { session = p.1; log = log }
          | ok _ ↦ publish_rows server broker rows (record { session = p.1; log = log })
        ]
      ]
        ≡ publish_rows server broker rows (record { session = t; log = log })
  acked_step log w x rows a (r, s) t e f =
      let answered : r ≡ ok tt = cc (f) in
      let there : s ≡ t = cc (f) in rw e (rw answered (rw there refl))

  publish_rows-step :
      (row : OutboxRow) (rows : List OutboxRow) (w : Relay)
      → publish_rows server broker (row ∷ rows) w
        ≡ publish_rows server broker rows (record {
          session = delete_session row.id w.session;
          log = w.log ++ message_of row ∷ [];
        })
  unfolding publish_rows
  publish_rows-step row rows w =
      acked_step (w.log ++ message_of row ∷ []) w _ rows _ (delete_outbox server row.id w.session) _
        (reliable (w.log ++ message_of row ∷ [])) (delete_outbox_sound row.id w.session)

  publish_rows-Delivered :
      (rows : List OutboxRow) (w : Relay) → Delivered rows w (publish_rows server broker rows w)
  unfolding publish_rows
  publish_rows-Delivered [] w = record {
    in_order = sym (append-nil w.log);
    removed = λ r q m n. absurd (not-nil n);
    left = λ r m. m;
  }
  publish_rows-Delivered (row ∷ rows) w =
      let next : Relay = record {
        session = delete_session row.id w.session;
        log = w.log ++ message_of row ∷ [];
      } in
      let rest = publish_rows-Delivered rows next in
      let gone =
        λ (r : OutboxRow) (m : Memᴰ r (publish_rows server broker rows next).session.tables.outbox).
          delete_rows-Memᴰ (has_row_id row.id) w.session.tables.outbox r (rest.left r m) in
      subst (λ v. Delivered (row ∷ rows) w v) (sym (publish_rows-step row rows w))
        (record {
          in_order = rest.in_order ∙ append_assoc w.log (message_of row ∷ []) (map message_of rows);
          removed = λ r q m n. first_or_later r q (gone r m).1 (rest.removed r q m) n;
          left = λ r m. (gone r m).0;
        })
    where
      first_or_later :
          (r q : OutboxRow)
          → (r.id == row.id) ≡ false
          → (Memᴰ q rows → (r.id == q.id) ≡ false)
          → Memᴰ q (row ∷ rows)
          → (r.id == q.id) ≡ false
      first_or_later r q n f (head e) = ap (λ (x : OutboxRow). r.id == x.id) e ∙ n
      first_or_later r q n f (tail m) = f m

  list_outbox_sound :
      (limit : ℕ) (s : Session Store)
      → list_outbox server limit s ≡ (
        ok (outbox_batch limit s.tables.outbox),
        record s { count = suc s.count; aborted = false },
      )
  unfolding list_outbox pool_statement statement
  list_outbox_sound limit s = let f = sound s.count in ground arith

  flushed-Delivered :
      (rows : List OutboxRow) (w : Relay) (p : Result (List OutboxRow) × Session Store)
      → p ≡ (ok rows, record (w.session) { count = suc w.session.count; aborted = false })
      → Delivered rows w (elim p.0 [
        | err e ↦ record w { session = p.1 }
        | ok rows ↦ publish_rows server broker rows (record w { session = p.1 })
      ])
  flushed-Delivered rows w (r, s) h =
      let answered : r ≡ ok rows = cc (h) in
      let there : s ≡ record (w.session) { count = suc w.session.count; aborted = false } =
        cc (h) in
      let v : Relay = record w {
        session = record (w.session) { count = suc w.session.count; aborted = false };
      } in
      let d = publish_rows-Delivered rows v in
      rw answered (rw there (record { in_order = d.in_order; removed = d.removed; left = d.left }))

  -- Where the database and the broker answer, a flush publishes the first hundred rows in
  -- the order of their times, and none of them is left in the outbox.
  pub flush-Delivered :
      (w : Relay)
      → Delivered (outbox_batch batch_size w.session.tables.outbox) w (flush server broker w)
  unfolding flush
  flush-Delivered w =
      flushed-Delivered (outbox_batch batch_size w.session.tables.outbox) w
        (list_outbox server batch_size w.session) (list_outbox_sound batch_size w.session)
