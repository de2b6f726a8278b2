-- ===== src/Notification/Laws.antt =====
-- `Deliver` of services/notification-svc/internal/deliver.go: what becomes of an event.
use vrp_oneclick_deposit_pla.Common.{
  ℕ, zero, suc, ◌+◌, ◌≤◌, ◌≡◌, refl, ◌==◌, ◌++◌, ◌∷◌, [], true, String, Option, none, some, List,
  arith, Bool-cases, inl, inr, subst, ◌⊎◌,
}
use vrp_oneclick_deposit_pla.Domainerr.{Err, Result, ok, err, annotated, plain}
use vrp_oneclick_deposit_pla.Payment.Outbox.{Ack, acked, lost, unacknowledged}
use vrp_oneclick_deposit_pla.Notification.{
  PaymentEvent, payment_key, WebhookConfig, Outside, Sent, DeadLetter, Ended, delivered, stopped,
  exhausted, build_webhook_body, post_webhook, attempt_post, try_posts, dlq_payload, write_dlq,
  publish_dlq, tried, deliver_to, deliver, max_attempts,
}

module _ (out : Outside) where
  module _ (url secret body : String) where
    abbrev post : Sent → Result (Unit {0}) × Sent
    post = post_webhook out url secret body

    -- So many attempts, each of which failed.
    pub data Failed : ℕ → Sent → Sent → Type 0 where
      none_failed : (w : Sent) → Failed 0 w w
      one_failed :
          (k : ℕ) (s u v : Sent) (e : Err) → Failed k s u → post u ≡ (err e, v) → Failed (suc k) s v

    -- The end of the loop.
    data Loop (w : Sent) : Ended × Sent → Type 0 where
      posted :
          (k : ℕ) (u v : Sent)
          → Failed k w u
          → suc k ≤ max_attempts
          → post u ≡ (ok tt, v)
          → Loop w (delivered, v)
      cut :
          (k : ℕ) (u : Sent) (e : Err) → Failed k w u → suc k ≤ max_attempts → Loop w (stopped e, u)
      spent : (u v : Sent) (e : Err) → Failed 2 w u → post u ≡ (err e, v) → Loop w (exhausted e, v)

    attempt_post-Loop :
        (w u : Sent) (k : ℕ) (after : Err → Sent → Ended × Sent)
        → Failed k w u
        → suc k ≤ max_attempts
        → ((e : Err) (v : Sent) → post u ≡ (err e, v) → Loop w (after e v))
        → Loop w (attempt_post out url secret body after u)
    unfolding attempt_post
    attempt_post-Loop w u k after d b next = begun (out.context_error u.posts) (post u) refl
      where
        begun :
            (c : Option Err) (p : Result (Unit {0}) × Sent)
            → post u ≡ p
            → Loop w (elim c [
              | some e ↦ (stopped e, u)
              | none ↦ elim p.0 [ ok _ ↦ (delivered, p.1) | err e ↦ after e p.1 ]
            ])
        begun (some e) p h = cut k u e d b
        begun none (ok _, v) h = posted k u v d b h
        begun none (err e, v) h = next e v h

    try_posts-Loop :
        (w u : Sent) (more k : ℕ)
        → Failed k w u
        → k + more ≡ 2
        → Loop w (try_posts out more url secret body u)
    unfolding try_posts
    try_posts-Loop w u zero k d b =
        let two : k ≡ 2 = omega arith in
        attempt_post-Loop w u k _ d (omega arith)
          (λ e v h. spent u v e (subst (λ (n : ℕ). Failed n w u) two d) h)
    try_posts-Loop w u (suc more) k d b = attempt_post-Loop w u k _ d (omega arith) λ e v h.
        waited v (one_failed k w u v e d h) (out.interrupted v.posts)
          (try_posts-Loop w v more (suc k) (one_failed k w u v e d h) (omega arith))
      where
        waited :
            (v : Sent)
            → Failed (suc k) w v
            → (c : Option Err) → Loop w (try_posts out more url secret body v)
            → Loop w
                (elim c [ some e ↦ (stopped e, v) | none ↦ try_posts out more url secret body v ])
        waited v f (some e) rest = cut (suc k) v e f (omega arith)
        waited v f none rest = rest

-- What becomes of an event.
pub data Delivered (out : Outside) (evt : PaymentEvent) (w : Sent)
    : Result (Unit {0}) × Sent → Type 0 where
  refused : (e : Err) → Delivered out evt w (err e, w)
  skipped :
      (cfg : WebhookConfig)
      → out.webhook_config evt.merchant_id ≡ ok cfg
      → (cfg.webhook_url == "") ≡ true
      → Delivered out evt w (ok tt, w)
  received :
      (cfg : WebhookConfig) (body : String) (k : ℕ) (u v : Sent)
      → out.webhook_config evt.merchant_id ≡ ok cfg
      → build_webhook_body out evt w ≡ ok body
      → Failed out cfg.webhook_url cfg.hmac_secret body k w u
      → suc k ≤ max_attempts
      → post_webhook out cfg.webhook_url cfg.hmac_secret body u ≡ (ok tt, v)
      → Delivered out evt w (ok tt, v)
  interrupted :
      (cfg : WebhookConfig) (body : String) (k : ℕ) (u : Sent) (e : Err)
      → build_webhook_body out evt w ≡ ok body
      → Failed out cfg.webhook_url cfg.hmac_secret body k w u
      → suc k ≤ max_attempts
      → Delivered out evt w (err e, u)
  moved :
      (cfg : WebhookConfig) (body value : String) (u : Sent) (last : Err)
      → out.webhook_config evt.merchant_id ≡ ok cfg
      → build_webhook_body out evt w ≡ ok body
      → Failed out cfg.webhook_url cfg.hmac_secret body max_attempts w u
      → out.marshal_dlq (dlq_payload out evt cfg.webhook_url body max_attempts last u) ≡ ok value
      → Delivered out evt w (
        ok tt,
        record u { dead = u.dead ++ record { key = evt.merchant_id; value = value } ∷ [] },
      )
  stuck :
      (cfg : WebhookConfig) (body : String) (u v : Sent) (e : Err)
      → build_webhook_body out evt w ≡ ok body
      → Failed out cfg.webhook_url cfg.hmac_secret body max_attempts w u
      → v.posts ≡ u.posts
      → (v.dead ≡ u.dead) ⊎ ((m : DeadLetter) × (v.dead ≡ u.dead ++ m ∷ []))
      → Delivered out evt w (err e, v)

module _ (out : Outside) (evt : PaymentEvent) (w : Sent) where
  module _ (cfg : WebhookConfig) (body : String)
      (configured : out.webhook_config evt.merchant_id ≡ ok cfg)
      (built : build_webhook_body out evt w ≡ ok body) where
    -- What the writing of a dead letter comes to.
    data Written (u : Sent) (last : Err) : Result (Unit {0}) × Sent → Type 0 where
      wrote :
          (value : String)
          → out.marshal_dlq (dlq_payload out evt cfg.webhook_url body max_attempts last u)
            ≡ ok value
          → Written u last (
            ok tt,
            record u { dead = u.dead ++ record { key = evt.merchant_id; value = value } ∷ [] },
          )
      unwritten :
          (e : Err) (v : Sent)
          → v.posts ≡ u.posts
          → (v.dead ≡ u.dead) ⊎ ((m : DeadLetter) × (v.dead ≡ u.dead ++ m ∷ []))
          → Written u last (err e, v)

    publish_dlq-Written :
        (u : Sent) (last : Err)
        → Written u last (publish_dlq out evt cfg.webhook_url body max_attempts last u)
    unfolding publish_dlq write_dlq
    publish_dlq-Written u last = by_writer out.dlq (out.marshal_dlq _) refl
      where
        by_ack :
            (a : Ack) (value : String)
            → out.marshal_dlq (dlq_payload out evt cfg.webhook_url body max_attempts last u)
              ≡ ok value
            → Written u last (elim a [
              | acked ↦ (
                ok tt,
                record u { dead = u.dead ++ record { key = evt.merchant_id; value = value } ∷ [] },
              )
              | lost ↦ (err (annotated "write dlq" (plain "message lost")), u)
              | unacknowledged ↦ (
                err (annotated "write dlq" (plain "not acknowledged")),
                record u { dead = u.dead ++ record { key = evt.merchant_id; value = value } ∷ [] },
              )
            ])
        by_ack acked value h = wrote value h
        by_ack lost value h = unwritten _ u refl (inl refl)
        by_ack unacknowledged value h = unwritten _ _ refl (inr (_, refl))

        by_writer :
            (d : Option (List DeadLetter → Ack)) (m : Result String)
            → out.marshal_dlq (dlq_payload out evt cfg.webhook_url body max_attempts last u) ≡ m
            → Written u last (elim d [
              | none ↦ (err (plain "dlq writer not configured"), u)
              | some broker ↦ elim m [
                | err e ↦ (err (annotated "marshal dlq" e), u)
                | ok value ↦
                    write_dlq out broker (record { key = evt.merchant_id; value = value }) u
              ]
            ])
        by_writer none m h = unwritten _ u refl (inl refl)
        by_writer (some broker) (err e) h = unwritten _ u refl (inl refl)
        by_writer (some broker) (ok value) h = by_ack (broker _) value h

    dead-Delivered :
        (u : Sent) (last : Err)
        → Failed out cfg.webhook_url cfg.hmac_secret body max_attempts w u
        → Delivered out evt w (tried out evt cfg.webhook_url body (exhausted last, u))
    unfolding tried
    dead-Delivered u last f = by_letter _ (publish_dlq-Written u last)
      where
        by_letter :
            (p : Result (Unit {0}) × Sent)
            → Written u last p
            → Delivered out evt w (elim p.0 [
              | ok _ ↦ (ok tt, p.1)
              | err e ↦ (err (annotated "deliver failed and dlq publish failed" e), p.1)
            ])
        by_letter _ (wrote value h) = moved cfg body value u last configured built f h
        by_letter _ (unwritten e v h k) = stuck cfg body u v _ built f h k

    tried-Delivered :
        (p : Ended × Sent)
        → Loop out cfg.webhook_url cfg.hmac_secret body w p
        → Delivered out evt w (tried out evt cfg.webhook_url body p)
    unfolding tried
    tried-Delivered _ (posted k u v d b h) = received cfg body k u v configured built d b h
    tried-Delivered _ (cut k u e d b) = interrupted cfg body k u e built d b
    tried-Delivered _ (spent u v e d h) = dead-Delivered v e (one_failed 2 w u v e d h)

  deliver_to-Delivered :
      (cfg : WebhookConfig)
      → out.webhook_config evt.merchant_id ≡ ok cfg
      → Delivered out evt w (deliver_to out evt cfg w)
  unfolding deliver_to
  deliver_to-Delivered cfg h = elim (Bool-cases (cfg.webhook_url == "")) [
    | inl y ↦ rw y (skipped cfg h y)
    | inr n ↦ rw n (by_body (build_webhook_body out evt w) refl)
  ]
    where
      by_body :
          (b : Result String)
          → build_webhook_body out evt w ≡ b
          → Delivered out evt w (elim b [
            | err e ↦ (err (annotated "build webhook body" e), w)
            | ok body ↦
                tried out evt cfg.webhook_url body
                  (try_posts out 2 cfg.webhook_url cfg.hmac_secret body w)
          ])
      by_body (err e) k = refused _
      by_body (ok body) k =
          tried-Delivered cfg body h k _
            (try_posts-Loop out cfg.webhook_url cfg.hmac_secret body w w 2 0 (none_failed w) refl)

  -- A delivery that returns no error has skipped a merchant without a webhook; or the webhook has
  -- taken the signed body at one of at most three attempts; or three attempts have failed, and one
  -- message with the event's merchant, payment and body was added to the dead letters. An attempt
  -- follows only failed ones, and an error comes with at most one dead letter, after three attempts.
  pub deliver-Delivered : Delivered out evt w (deliver out evt w)
  unfolding deliver
  deliver-Delivered = elim (Bool-cases (payment_key evt == "")) [
    | inl y ↦ rw y (refused _)
    | inr n ↦ elim (Bool-cases (evt.merchant_id == "")) [
      | inl y ↦ rw (n, y) (refused _)
      | inr m ↦ rw (n, m) (by_config (out.webhook_config evt.merchant_id) refl)
    ]
  ]
    where
      by_config :
          (c : Result WebhookConfig)
          → out.webhook_config evt.merchant_id ≡ c
          → Delivered out evt w (elim c [
            | err e ↦ (err (annotated "get webhook config" e), w)
            | ok cfg ↦ deliver_to out evt cfg w
          ])
      by_config (err e) k = refused _
      by_config (ok cfg) k = deliver_to-Delivered cfg k
