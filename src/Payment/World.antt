-- ===== src/Payment/World.antt =====
-- What a saga of services/payment-svc/internal/saga.go acts on: the database of its service, the
-- payment that `p` points to, and the calls that it has made of the other services, in order.
pub mod Laws
use vrp_oneclick_deposit_pla.Common.{
  ℕ, Bool, true, false, Option, none, some, String, List, [], ◌∷◌, ◌++◌, ℤ,
}
use vrp_oneclick_deposit_pla.Domainerr.{GrpcCode, Err, Result, ok, err}
use vrp_oneclick_deposit_pla.Postgres.{Server, Session}
use vrp_oneclick_deposit_pla.Payment.{Payment, Store}
use vrp_oneclick_deposit_pla.Payment.Fee.{EntryLine}

-- `consentv1.ReserveResponse`
pub record ReserveReply : Type 0 where
  pub reservation_id : String
  pub consumer_id : String
  pub bank_consent_ref : String

-- `riskv1.RiskDecision`
pub data RiskDecision : Type 0 where
  risk_decision_unspecified allow review decline : RiskDecision

-- `riskv1.ScoreResponse`
pub record ScoreReply : Type 0 where
  pub score : ℤ
  pub decision : RiskDecision
  pub reason : String

-- `bankv1.BankPaymentStatus`
pub data BankStatus : Type 0 where
  bank_status_unspecified bank_pending bank_authorised bank_settled bank_rejected bank_reversed :
      BankStatus

-- `bankv1.InitiateResponse`
pub record BankReply : Type 0 where
  pub bank_payment_ref : String
  pub status : BankStatus
  pub failure_reason : String

-- A call of another service, or of the idempotency store, with what it sends.
pub data Call : Type 0 where
  -- consent, payment, amount, currency
  reserve : String → String → ℤ → String → Call
  -- merchant, consumer, consent, payment, amount, currency
  score : String → String → String → String → ℤ → String → Call
  -- payment, bank consent, consumer, amount, currency, description
  initiate_payment : String → String → String → ℤ → String → String → Call
  -- payment, description, lines
  post_double_entry : String → String → List EntryLine → Call
  -- reservation, payment
  confirm_reservation : String → String → Call
  -- reservation, reason
  release_reservation : String → String → Call
  -- bank payment, reason
  reverse_payment : String → String → Call
  -- payment, reason
  reverse_entry : String → String → Call
  -- bank payment
  get_payment_status : String → Call
  -- key, value
  complete_key : String → String → Call
  -- the other commands on a key: SET NX, GET and DEL
  claim_key : String → Call
  read_key : String → Call
  release_key : String → Call

-- What the saga's surroundings decide: each answer may depend on all calls before it. The text of
-- a gRPC error and the reading of a UUID are the libraries'; the clock ticks with the statements.
pub record Env : Type 0 where
  pub server : Server
  pub now : ℕ → ℕ
  pub grpc_text : GrpcCode → String → String
  pub parse_uuid : String → Result String
  pub reserve_reply : List Call → Result ReserveReply
  pub score_reply : List Call → Result ScoreReply
  pub bank_reply : List Call → Result BankReply
  pub status_reply : List Call → Result BankReply
  pub done_reply : List Call → Result (Unit {0})
  -- Redis: whether SET NX answers OK, and the value of a key, which is none for `redis.Nil`
  pub claim_reply : List Call → Result Bool
  pub read_reply : List Call → Result (Option String)
  -- whether a wait may go on, and the error of a context that is done
  pub in_time : List Call → Bool
  pub cancelled : List Call → Option Err
  -- `uuid.New()`
  pub new_id : List Call → String

pub record World : Type 0 where
  pub session : Session Store
  pub payment : Payment
  pub calls : List Call

abbrev pub Saga : Type 0 → Type 0
Saga A = World → Result A × World

abbrev pub pure : {A : Type 0} → A → Saga A
pure a w = (ok a, w)

abbrev pub raise : {A : Type 0} → Err → Saga A
raise e w = (err e, w)

-- Runs an action and hands its error on as a value.
abbrev pub attempt : {A : Type 0} → Saga A → Saga (Result A)
attempt m w = let (r, w') = m w in (ok r, w')

-- `_ = action`
abbrev pub ignore : {A : Type 0} → Saga A → Saga (Unit {0})
ignore m w = let (_, w') = m w in (ok tt, w')

infixl 5 ◌>>=◌ ◌>>◌
unfoldable pub ◌>>=◌ : {A B : Type 0} → Saga A → (A → Saga B) → Saga B
◌>>=◌ m f w = let (r, w') = m w in elim r [ ok a ↦ f a w' | err e ↦ (err e, w') ]

abbrev pub ◌>>◌ : {A B : Type 0} → Saga A → Saga B → Saga B
m >> k = m >>= λ _. k

-- The payment as it is in memory.
abbrev pub current : Saga Payment
current w = (ok w.payment, w)

-- A call: the answer is found by all calls so far, this one included.
unfoldable pub call : {A : Type 0} → (List Call → Result A) → Call → Saga A
call answer c w = let calls = w.calls ++ c ∷ [] in (answer calls, record w { calls = calls })

-- A function of the repository that changes `*p`: an error leaves `*p` as it was.
unfoldable pub persist :
    (ℕ → Payment → Session Store → Result Payment × Session Store) → Env → Saga (Unit {0})
persist q env w =
    let (r, s) = q (env.now w.session.count) w.payment w.session in
    elim r [
      | ok p ↦ (ok tt, record w { session = s; payment = p })
      | err e ↦ (err e, record w { session = s })
    ]

-- A function of the repository that reads.
unfoldable pub fetch : {A : Type 0} → (Session Store → Result A × Session Store) → Saga A
fetch q w = let (r, s) = q w.session in (r, record w { session = s })

-- `p` is the payment from now on.
abbrev pub set_payment : Payment → Saga (Unit {0})
set_payment p w = (ok tt, record w { payment = p })
