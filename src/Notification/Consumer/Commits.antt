-- ===== src/Notification/Consumer/Commits.antt =====
-- Which messages the consumer of services/notification-svc/internal/consumer.go commits.
use mathlib.Core.List.Memᴰ.{Memᴰ, head, tail, not-nil}
use vrp_oneclick_deposit_pla.Common.{
  ◌≡◌, refl, sym, ◌++◌, ◌<◌, ◌∷◌, [], true, String, List, Option, none, some, arith, inl, inr,
  subst, ◌⊎◌,
}
use vrp_oneclick_deposit_pla.Domainerr.{Err, Result, ok, err, annotated}
use vrp_oneclick_deposit_pla.Notification.Consumer.{
  Fetched, State, Inbox, holds, already_delivered, mark_delivered, handle_delivered, handle_checked,
  handle, commit_handled, run,
}
use vrp_oneclick_deposit_pla.Notification.Consumer.Laws.{
  Settled, poison, ignored, marked, handle-Settled,
}

-- Redis holds what it held, and nothing was committed.
record Grows (s t : State) : Type 0 where
  pub keys : (k : String) → holds k s.keys ≡ true → holds k t.keys ≡ true
  pub commits : t.commits ≡ s.commits

module _ (inbox : Inbox) where
  handle-Grows : (m : Fetched) (s : State) → Grows s (handle inbox m s).1
  unfolding handle handle_checked handle_delivered already_delivered mark_delivered holds
  handle-Grows m s = record { keys = λ k h. ground arith; commits = ground arith }

  Grows-Settled : (m : Fetched) (s t : State) → Grows s t → Settled inbox m s → Settled inbox m t
  Grows-Settled m s t g (poison e d) = poison e d
  Grows-Settled m s t g (ignored evt d k) = ignored evt d k
  Grows-Settled m s t g (marked evt d k h) = marked evt d k (g.keys _ h)

  -- Every committed message is settled.
  abbrev pub Committed : State → Type 0
  Committed s = (m : Fetched) → Memᴰ m s.commits → Settled inbox m s

  Memᴰ-last : (m n : Fetched) (cs : List Fetched) → Memᴰ m (cs ++ n ∷ []) → Memᴰ m cs ⊎ (m ≡ n)
  Memᴰ-last m n [] (head e) = inr e
  Memᴰ-last m n [] (tail k) = absurd (not-nil k)
  Memᴰ-last m n (c ∷ cs) (head e) = inl (head e)
  Memᴰ-last m n (c ∷ cs) (tail k) = elim (Memᴰ-last m n cs k) [
    | inl r ↦ inl (tail r)
    | inr e ↦ inr e
  ]

  commit-Committed :
      (n : Fetched) (s : State)
      → Committed s
      → Settled inbox n s
      → Committed (record s { commits = s.commits ++ n ∷ [] })
  commit-Committed n s c h m k =
      let grows : Grows s (record s { commits = s.commits }) = record {
        keys = λ _ q. q;
        commits = refl;
      } in
      elim (Memᴰ-last m n s.commits k) [
        | inl old ↦ same m (c m old)
        | inr e ↦
            subst (λ (x : Fetched). Settled inbox x (record s { commits = s.commits ++ n ∷ [] }))
              (sym e) (same n h)
      ]
    where
      same :
          (m : Fetched)
          → Settled inbox m s
          → Settled inbox m (record s { commits = s.commits ++ n ∷ [] })
      same m (poison e d) = poison e d
      same m (ignored evt d k) = ignored evt d k
      same m (marked evt d k q) = marked evt d k q

  commit_handled-Committed :
      (n : Fetched) (p : Result (Unit {0}) × State)
      → Committed p.1
      → (p.0 ≡ ok tt → Settled inbox n p.1)
      → Committed (commit_handled inbox n p).1
  unfolding commit_handled
  commit_handled-Committed n (err e, s) c h = c
  commit_handled-Committed n (ok _, s) c h = by_kafka (inbox.commit_fault (s.commits ++ n ∷ []))
    where
      by_kafka :
          (f : Option Err)
          → Committed (
              let p : Result (Unit {0}) × State = elim f [
                | some e ↦ (err (annotated "commit" e), s)
                | none ↦ (ok tt, record s { commits = s.commits ++ n ∷ [] })
              ] in
              p.1)
      by_kafka (some e) = c
      by_kafka none = commit-Committed n s c (h refl)

  handle-Committed : (n : Fetched) (s : State) → Committed s → Committed (handle inbox n s).1
  handle-Committed n s c m k =
      let g = handle-Grows n s in Grows-Settled m s _ g (c m (subst (Memᴰ m) g.commits k))

  -- What handling a message with its commit keeps, a run keeps.
  module _ (P : State → Type 0)
      (step : (n : Fetched) (s : State)
        → P s
        → P (commit_handled inbox n (handle inbox n s)).1) where
    run-keeps : (ms : List Fetched) (s : State) → P s → P (run inbox ms s).1
    unfolding run
    run-keeps [] s c = c
    run-keeps (n ∷ ms) s c =
        rest (commit_handled inbox n (handle inbox n s)) (step n s c) (run-keeps ms)
      where
        rest :
            (p : Result (Unit {0}) × State)
            → P p.1
            → ((t : State) → P t → P (run inbox ms t).1)
            → P (
                let q : Result (Unit {0}) × State = elim p.0 [
                  | ok _ ↦ run inbox ms p.1
                  | err e ↦ (err e, p.1)
                ] in
                q.1)
        rest (ok _, t) c f = f t c
        rest (err e, t) c f = c

  -- Whatever messages the consumer fetches, and whatever fails: each message that it has committed says
  -- nothing to deliver, or Redis was given its key, if this was so at the start.
  pub run-Committed : (ms : List Fetched) (s : State) → Committed s → Committed (run inbox ms s).1
  run-Committed = run-keeps Committed (λ n s c.
      commit_handled-Committed n (handle inbox n s) (handle-Committed n s c)
        (handle-Settled inbox n s))

  Memᴰ-append : (c n : Fetched) (cs : List Fetched) → Memᴰ c cs → Memᴰ c (cs ++ n ∷ [])
  Memᴰ-append c n [] k = absurd (not-nil k)
  Memᴰ-append c n (b ∷ cs) (head e) = head e
  Memᴰ-append c n (b ∷ cs) (tail k) = tail (Memᴰ-append c n cs k)

  Memᴰ-new : (n : Fetched) (cs : List Fetched) → Memᴰ n (cs ++ n ∷ [])
  Memᴰ-new n [] = head refl
  Memᴰ-new n (c ∷ cs) = tail (Memᴰ-new n cs)

  commit_handled-kept :
      (c n : Fetched) (p : Result (Unit {0}) × State)
      → Memᴰ c p.1.commits
      → Memᴰ c (commit_handled inbox n p).1.commits
  unfolding commit_handled
  commit_handled-kept c n (err e, s) k = k
  commit_handled-kept c n (ok _, s) k = by_kafka (inbox.commit_fault (s.commits ++ n ∷ []))
    where
      by_kafka :
          (f : Option Err)
          → Memᴰ c (
              let p : Result (Unit {0}) × State = elim f [
                | some e ↦ (err (annotated "commit" e), s)
                | none ↦ (ok tt, record s { commits = s.commits ++ n ∷ [] })
              ] in
              p.1.commits)
      by_kafka (some e) = k
      by_kafka none = Memᴰ-append c n s.commits k

  run-kept :
      (c : Fetched) (ms : List Fetched) (s : State)
      → Memᴰ c s.commits
      → Memᴰ c (run inbox ms s).1.commits
  run-kept c =
      run-keeps (λ s. Memᴰ c s.commits)
        (λ n s k.
          commit_handled-kept c n (handle inbox n s)
            (subst (Memᴰ c) (sym (handle-Grows n s).commits) k))

  -- A later message of the same partition is committed.
  abbrev pub PassedOver : Fetched → State → Type 0
  PassedOver m s =
      (n : Fetched) × Memᴰ n s.commits × (n.partition ≡ m.partition) × (m.offset < n.offset)

  run-two :
      (m n : Fetched) (ms : List Fetched) (s : State) (e : Err)
      → (handle inbox m s).0 ≡ err e
      → (handle inbox n (handle inbox m s).1).0 ≡ ok tt
      → inbox.commit_fault ((handle inbox n (handle inbox m s).1).1.commits ++ n ∷ []) ≡ none
      → run inbox (m ∷ n ∷ ms) s
        ≡ run inbox ms (
            let t : State = (handle inbox n (handle inbox m s).1).1 in
            record t { commits = t.commits ++ n ∷ [] })
  unfolding run commit_handled
  run-two m n ms s e h k c = ground arith

  -- Where the handling of a message fails, and the next one is of its partition with a later offset, is
  -- handled without an error, and its commit succeeds: whatever follows, the run has committed a later
  -- offset of the failed message's partition.
  pub run-PassedOver :
      (m n : Fetched) (ms : List Fetched) (s : State) (e : Err)
      → n.partition ≡ m.partition
      → m.offset < n.offset
      → (handle inbox m s).0 ≡ err e
      → (handle inbox n (handle inbox m s).1).0 ≡ ok tt
      → inbox.commit_fault ((handle inbox n (handle inbox m s).1).1.commits ++ n ∷ []) ≡ none
      → PassedOver m (run inbox (m ∷ n ∷ ms) s).1
  run-PassedOver m n ms s e p o h k c =
      rw (run-two m n ms s e h k c) (n, run-kept n ms _ (Memᴰ-new n _), p, o)
