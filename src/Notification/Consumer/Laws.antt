-- ===== src/Notification/Consumer/Laws.antt =====
-- What the consumer of services/notification-svc/internal/consumer.go does with a message.
use vrp_oneclick_deposit_pla.Common.{
  suc, ◌≡◌, refl, ◌∷◌, true, false, Bool, String, Option, none, some, arith, if◌then◌else◌, eq_refl,
}
use vrp_oneclick_deposit_pla.Domainerr.{Err, Result, ok, err, annotated}
use vrp_oneclick_deposit_pla.Notification.{PaymentEvent, payment_key}
use vrp_oneclick_deposit_pla.Notification.Consumer.{
  Fetched, State, Inbox, delivered_key, holds, already_delivered, mark_delivered, handle_delivered,
  handle_checked, is_skipped, handle,
}

module _ (inbox : Inbox) where
  -- The message says nothing to deliver, or Redis holds its key.
  pub data Settled (m : Fetched) (s : State) : Type 0 where
    poison : (e : Err) → inbox.decode m.value ≡ err e → Settled m s
    ignored :
        (evt : PaymentEvent) → inbox.decode m.value ≡ ok evt → is_skipped evt ≡ true → Settled m s
    marked :
        (evt : PaymentEvent)
        → inbox.decode m.value ≡ ok evt
        → is_skipped evt ≡ false
        → holds (delivered_key (payment_key evt)) s.keys ≡ true
        → Settled m s

  -- Redis answers to the next command, and no key's time is over.
  abbrev pub Answers : State → Type 0
  Answers s =
      (inbox.redis_fault s.commands ≡ none)
      × ((key : String) → inbox.expired s.commands key ≡ false)

  abbrev pub Ends : Fetched → Result (Unit {0}) × State → Type 0
  Ends m p = p.0 ≡ ok tt → Settled m p.1

  abbrev Marks : String → Result (Unit {0}) × State → Type 0
  Marks id p = p.0 ≡ ok tt → holds (delivered_key id) p.1.keys ≡ true

  mark_delivered-Marks : (id : String) (s : State) → Marks id (mark_delivered inbox id s)
  unfolding mark_delivered holds
  mark_delivered-Marks id s = by_redis (inbox.redis_fault s.commands)
    where
      by_redis :
          (f : Option Err)
          → Marks id (elim f [
            | some e ↦ (err e, record s { commands = suc s.commands })
            | none ↦
                (ok tt, record s { keys = delivered_key id ∷ s.keys; commands = suc s.commands })
          ])
      by_redis (some e) h = cc (h)
      by_redis none h = ground (arith, eq_refl (delivered_key id))

  handle_delivered-Settled :
      (m : Fetched) (evt : PaymentEvent) (p : Result (Unit {0}) × State)
      → inbox.decode m.value ≡ ok evt
      → is_skipped evt ≡ false
      → Ends m (handle_delivered inbox (payment_key evt) p)
  unfolding handle_delivered
  handle_delivered-Settled m evt (err e, s) d k = λ h. cc (h)
  handle_delivered-Settled m evt (ok _, s) d k =
      by_mark _ (mark_delivered-Marks (payment_key evt) s)
    where
      by_mark :
          (p : Result (Unit {0}) × State)
          → Marks (payment_key evt) p
          → Ends m
              (elim p.0 [ ok _ ↦ (ok tt, p.1) | err e ↦ (err (annotated "mark delivered" e), p.1) ])
      by_mark (ok _, t) f h = marked evt d k (f refl)
      by_mark (err e, t) f h = cc (h)

  handle_checked-Settled :
      (m : Fetched) (evt : PaymentEvent) (s : State) (p : Result Bool × State)
      → inbox.decode m.value ≡ ok evt
      → is_skipped evt ≡ false
      → (p.0 ≡ ok true → holds (delivered_key (payment_key evt)) p.1.keys ≡ true)
      → Ends m (handle_checked inbox evt p)
  unfolding handle_checked
  handle_checked-Settled m evt s (err e, t) d k f = λ h. cc (h)
  handle_checked-Settled m evt s (ok true, t) d k f = λ h. marked evt d k (f refl)
  handle_checked-Settled m evt s (ok false, t) d k f = handle_delivered-Settled m evt _ d k

  already_delivered-holds :
      (id : String) (s : State)
      → (already_delivered inbox id s).0 ≡ ok true
      → holds (delivered_key id) (already_delivered inbox id s).1.keys ≡ true
  unfolding already_delivered
  already_delivered-holds id s h = ground arith

  -- A message that was handled without an error is settled.
  pub handle-Settled : (m : Fetched) (s : State) → Ends m (handle inbox m s)
  unfolding handle
  handle-Settled m s = by_value (inbox.decode m.value) refl
    where
      by_event :
          (evt : PaymentEvent) (b : Bool)
          → inbox.decode m.value ≡ ok evt
          → is_skipped evt ≡ b
          → Ends m (
              if b
              then (ok tt, s)
              else handle_checked inbox evt (already_delivered inbox (payment_key evt) s))
      by_event evt true d k = λ h. ignored evt d k
      by_event evt false d k =
          handle_checked-Settled m evt s _ d k (already_delivered-holds (payment_key evt) s)

      by_value :
          (v : Result PaymentEvent)
          → inbox.decode m.value ≡ v
          → Ends m (elim v [
            | err e ↦ (ok tt, s)
            | ok evt ↦
                if is_skipped evt
                then (ok tt, s)
                else handle_checked inbox evt (already_delivered inbox (payment_key evt) s)
          ])
      by_value (err e) d = λ h. poison e d
      by_value (ok evt) d = by_event evt (is_skipped evt) d refl

  -- A settled message is handled without an error and without a delivery.
  pub Settled-handled :
      (m : Fetched) (s : State)
      → Settled m s
      → Answers s
      → ((handle inbox m s).0 ≡ ok tt)
        × ((handle inbox m s).1.sent ≡ s.sent)
        × ((handle inbox m s).1.keys ≡ s.keys)
  unfolding handle handle_checked already_delivered
  Settled-handled m s (poison e d) a = ground arith
  Settled-handled m s (ignored evt d k) a = ground arith
  Settled-handled m s (marked evt d k h) (q, x) =
      ground (arith, x (delivered_key (payment_key evt)))

  -- After a message was handled without an error, handling it again, while Redis answers and has
  -- not dropped its key, returns no error either, sends no request and writes no dead letter.
  pub handle-handle :
      (m : Fetched) (s : State)
      → (handle inbox m s).0 ≡ ok tt
      → Answers (handle inbox m s).1
      → ((handle inbox m (handle inbox m s).1).0 ≡ ok tt)
        × ((handle inbox m (handle inbox m s).1).1.sent ≡ (handle inbox m s).1.sent)
        × ((handle inbox m (handle inbox m s).1).1.keys ≡ (handle inbox m s).1.keys)
  handle-handle m s h a = Settled-handled m (handle inbox m s).1 (handle-Settled m s h) a
