-- ===== src/Payment/Handler/Laws.antt =====
-- The calls of services/payment-svc/internal/handler.go that change nothing.
use vrp_oneclick_deposit_pla.Common.{
  ℕ, Bool, false, not, String, ◌==◌, some, List, ◌≡◌, refl, subst, ◌∙◌, arith, find_row, trim_space,
  delete_rows,
}
use vrp_oneclick_deposit_pla.Domainerr.{Result, ok, err}
use vrp_oneclick_deposit_pla.Domainerr.Triple.{
  Triple, Triple-raise, Triple-if, Triple-result, Either, Triple-attempt, ignore_outcome, Outcome,
  strengthen,
}
use vrp_oneclick_deposit_pla.Postgres.{Server, Session, pool_statement, statement}
use vrp_oneclick_deposit_pla.Postgres
use vrp_oneclick_deposit_pla.Payment.{Payment, Store, is_failed}
use vrp_oneclick_deposit_pla.Payment.Repo.{has_id, get_by_id, get_by_id_and_merchant}
use vrp_oneclick_deposit_pla.Payment.World.{Env, World, Saga, Call, fetch}
use vrp_oneclick_deposit_pla.Payment.World.Laws.{Triple-bind}
use vrp_oneclick_deposit_pla.Payment.Initiate.Once.{Quiet, is_key_call}
use vrp_oneclick_deposit_pla.Payment.Handler.{
  PaymentRequest, load_payment, load_requested, retry_loaded, retry_payment,
}

-- The row that is found by an identifier.
abbrev pub IsRow : Store → String → Payment → Type 0
IsRow t id p = find_row (has_id id) t.payments ≡ some p

-- The payment that a request names.
abbrev pub Named : Env → Store → PaymentRequest → Payment → Type 0
Named env t req p = (id : String) × (env.parse_uuid req.payment_id ≡ ok id) × IsRow t id p

get_by_id-IsRow :
    (server : Server) (now : ℕ) (id : String) (s : Session Store)
    → ((get_by_id server now id s).1.tables ≡ s.tables)
      × ((p : Payment) → (get_by_id server now id s).0 ≡ ok p → IsRow s.tables id p)
unfolding get_by_id pool_statement statement
get_by_id-IsRow server now id s = (ground arith, λ p h. ground arith)

get_by_id_and_merchant-IsRow :
    (server : Server) (now : ℕ) (id merchant : String) (s : Session Store)
    → ((get_by_id_and_merchant server now id merchant s).1.tables ≡ s.tables)
      × ((p : Payment)
          → (get_by_id_and_merchant server now id merchant s).0 ≡ ok p
          → IsRow s.tables id p)
unfolding get_by_id_and_merchant Postgres.◌>>=◌ get_by_id pool_statement statement
get_by_id_and_merchant-IsRow server now id merchant s = (ground arith, λ p h. ground arith)

module _ (env : Env) (t : Store) (cs : List Call) where
  -- The payment is the row with the identifier, and nothing has changed.
  abbrev Loaded : String → Saga Payment → Type 0
  Loaded id m = Triple (Quiet t cs) m (λ p w. Quiet t cs w × IsRow t id p) (λ _. Quiet t cs)

  fetched-Outcome :
      (id : String) (w : World) (p : Result Payment × Session Store)
      → Quiet t cs w
      → p.1.tables ≡ w.session.tables
      → ((q : Payment) → p.0 ≡ ok q → IsRow w.session.tables id q)
      → Outcome
          (λ q v. Quiet t cs v × IsRow t id q)
          (λ _. Quiet t cs)
          (p.0, record w { session = p.1 })
  fetched-Outcome id w (ok q, s) k same row = (
    record { tables = same ∙ k.tables; calls = k.calls },
    subst (λ u. IsRow u id q) k.tables (row q refl),
  )
  fetched-Outcome id w (err e, s) k same row = record { tables = same ∙ k.tables; calls = k.calls }

  fetch-Loaded :
      (id : String) (q : Session Store → Result Payment × Session Store)
      → ((s : Session Store)
          → ((q s).1.tables ≡ s.tables) × ((p : Payment) → (q s).0 ≡ ok p → IsRow s.tables id p))
      → Loaded id (fetch q)
  unfolding fetch
  fetch-Loaded id q h = record {
    at = λ w k. let (same, row) = h w.session in fetched-Outcome id w (q w.session) k same row;
  }

  load_payment-Loaded :
      (details : Bool) (id merchant : String) → Loaded id (load_payment env details id merchant)
  unfolding load_payment
  load_payment-Loaded details id merchant =
      Triple-if (trim_space merchant == "") _ _
        (λ _. fetch-Loaded id _ (λ s. get_by_id-IsRow env.server (env.now s.count) id s))
        (λ _.
          Triple-result (env.parse_uuid (trim_space merchant)) _ _ (λ e. Triple-raise _ (λ w q. q))
            (λ mid _.
              fetch-Loaded id _
                (λ s. get_by_id_and_merchant-IsRow env.server (env.now s.count) id mid s)))

  load_requested-Named :
      (details : Bool) (req : PaymentRequest)
      → Triple
          (Quiet t cs)
          (load_requested env details (some req))
          (λ p w. Quiet t cs w × Named env t req p)
          (λ _. Quiet t cs)
  unfolding load_requested
  load_requested-Named details req =
      Triple-if (trim_space req.payment_id == "") _ _ (λ _. Triple-raise _ (λ w q. q))
        (λ _.
          Triple-result (env.parse_uuid req.payment_id) _ _ (λ e. Triple-raise _ (λ w q. q))
            (λ id h.
              strengthen (λ p w q. (q.0, (id, h, q.1)))
                (load_payment-Loaded details id req.merchant_id)))

  retry_loaded-Quiet :
      (details : Bool) (req : PaymentRequest) (r : Result Payment)
      → ((p : Payment) → Named env t req p → is_failed p.status ≡ false)
      → Triple
          (Either (λ p w. Quiet t cs w × Named env t req p) (λ _. Quiet t cs) r)
          (retry_loaded env details r)
          (λ _. Quiet t cs)
          (λ _. Quiet t cs)
  unfolding retry_loaded
  retry_loaded-Quiet details req (err e) h = Triple-raise _ (λ w q. q)
  retry_loaded-Quiet details req (ok p) h =
      Triple-if (not (is_failed p.status)) _ _ (λ _. Triple-raise _ (λ w q. q.0))
        (λ y. record { at = λ w q. let n = h p q.1 in absurd (ground arith) })

-- A retry of a payment that is not FAILED changes no table and calls no other service.
pub retry_payment-unfailed :
    (env : Env) (details : Bool) (req : PaymentRequest) (w : World)
    → ((p : Payment) → Named env w.session.tables req p → is_failed p.status ≡ false)
    → Quiet w.session.tables
        (delete_rows is_key_call w.calls)
        (retry_payment env details (some req) w).1
unfolding retry_payment
retry_payment-unfailed env details req w h =
    let t = w.session.tables in
    let cs = delete_rows is_key_call w.calls in
    let triple =
      Triple-bind _ _ (Triple-attempt _ (load_requested-Named env t cs details req))
        (λ r. retry_loaded-Quiet env t cs details req r h) in
    ignore_outcome (Quiet t cs) (retry_payment env details (some req) w)
      (triple.at w (record { tables = refl; calls = refl }))
