-- ===== src/Bank/Calls/Laws.antt =====
-- `InitiatePayment` of services/bank-adapter/internal/adapter.go: what a reply says.
use vrp_oneclick_deposit_pla.Common.{
  Bool, String, Option, none, some, ◌≡◌, refl, ap, ◌<ℤ◌, pos, arith, ◌==◌, false, subst,
}
use vrp_oneclick_deposit_pla.Domainerr.{GrpcCode, Err, Result, ok, err}
use vrp_oneclick_deposit_pla.Domainerr.Grpc.{to_grpc}
use vrp_oneclick_deposit_pla.Payment.Handler.{Money}
use vrp_oneclick_deposit_pla.Payment.World.{
  BankStatus, bank_status_unspecified, bank_pending, bank_authorised, bank_settled, bank_rejected,
  bank_reversed, BankReply,
}
use vrp_oneclick_deposit_pla.Bank.{Http, Resilience, Wire, or_text, map_status, do_with_resilience}
use vrp_oneclick_deposit_pla.Bank.Calls.{
  InitiateRequest, HttpInitiateReq, HttpInitiateResp, check_initiate, initiate_body, known_status,
  with_reason, answered, initiate_payment, initiated_reply,
}

check_initiate-above_zero :
    (req : InitiateRequest) (m : Money)
    → check_initiate req ≡ ok m
    → (pos 0 <ℤ m.amount_pence) × (req.amount ≡ some m)
unfolding check_initiate
check_initiate-above_zero req m h = (ground arith, ground arith)

or_text-filled : (s default : String) → (default == "") ≡ false → (or_text s default == "") ≡ false
or_text-filled s default h = ground arith

-- What a reply says of the bank's answer `out`.
pub record Faithful (quote : String → String) (out : HttpInitiateResp) (a : BankReply)
    : Type 0 where
  pub bank_payment_ref : a.bank_payment_ref ≡ out.bank_payment_ref
  pub status : map_status quote out.status ≡ ok a.status
  pub reason : a.status ≡ bank_rejected → (a.failure_reason == "") ≡ false

initiated_reply-Faithful :
    (g : GrpcCode → String → String) (detailed : Bool) (quote : String → String)
    (out : HttpInitiateResp) (s : BankStatus)
    → map_status quote out.status ≡ ok s
    → Faithful quote out (initiated_reply g detailed quote out s)
unfolding with_reason
initiated_reply-Faithful g detailed quote out bank_rejected h = record {
  bank_payment_ref = refl;
  status = h;
  reason = λ _. or_text-filled out.failure_reason "bank rejected payment" refl;
}
initiated_reply-Faithful g detailed quote out bank_status_unspecified h = record {
  bank_payment_ref = refl;
  status = h;
  reason = λ e. absurd (cc (e));
}
initiated_reply-Faithful g detailed quote out bank_pending h = record {
  bank_payment_ref = refl;
  status = h;
  reason = λ e. absurd (cc (e));
}
initiated_reply-Faithful g detailed quote out bank_authorised h = record {
  bank_payment_ref = refl;
  status = h;
  reason = λ e. absurd (cc (e));
}
initiated_reply-Faithful g detailed quote out bank_settled h = record {
  bank_payment_ref = refl;
  status = h;
  reason = λ e. absurd (cc (e));
}
initiated_reply-Faithful g detailed quote out bank_reversed h = record {
  bank_payment_ref = refl;
  status = h;
  reason = λ e. absurd (cc (e));
}

-- What is behind a reply of `InitiatePayment`.
pub record Initiated (quote : String → String) (http : Http HttpInitiateResp)
    (r : Resilience HttpInitiateResp) (marshal : HttpInitiateReq → Result String)
    (req : InitiateRequest) (w : Wire HttpInitiateResp) (a : BankReply) (v : Wire HttpInitiateResp)
    : Type 0 where
  pub money : Money
  pub amount : req.amount ≡ some money
  pub above_zero : pos 0 <ℤ money.amount_pence
  pub answer :
      do_with_resilience http r "POST" "/bank/payments" (some (marshal (initiate_body req money))) w
      ≡ (none, v)
  pub faithful : Faithful quote v.out a

known_status-map_status :
    (quote : String → String) (t : String) (c : Result BankStatus) (s : BankStatus)
    → map_status quote t ≡ c
    → known_status quote t ≡ ok s
    → map_status quote t ≡ ok s
unfolding known_status
known_status-map_status quote t (ok b) s h k = ground arith
known_status-map_status quote t (err e) s h k = ground arith

module _ (g : GrpcCode → String → String) (detailed : Bool) (quote : String → String) where
  reply-Faithful :
      (w v : Wire HttpInitiateResp) (a : BankReply) (c : Result BankStatus)
      → known_status quote w.out.status ≡ c
      → ◌≡◌ {A = Result BankReply × Wire HttpInitiateResp}
          (elim c [
            | ok s ↦ (ok (initiated_reply g detailed quote w.out s), w)
            | err e ↦ (err (to_grpc g detailed e), w)
          ])
          (ok a, v)
      → (w ≡ v) × Faithful quote w.out a
  reply-Faithful w v a (err e) h k = absurd (cc (k))
  reply-Faithful w v a (ok s) h k = (
    cc (k),
    subst (Faithful quote w.out) (cc (k)) (
        initiated_reply-Faithful g detailed quote w.out s
          (known_status-map_status quote w.out.status (map_status quote w.out.status) s refl h)),
  )

  answered-Faithful :
      (p : Option Err × Wire HttpInitiateResp) (a : BankReply) (v : Wire HttpInitiateResp)
      → answered g detailed quote
          (λ (o : HttpInitiateResp). o.status)
          (initiated_reply g detailed quote)
          p
        ≡ (ok a, v)
      → (p ≡ (none, v)) × Faithful quote v.out a
  unfolding answered
  answered-Faithful (some e, w) a v k = absurd (cc (k))
  answered-Faithful (none, w) a v k =
      let (same, h) = reply-Faithful w v a (known_status quote w.out.status) refl k in
      (
        ap (λ (u : Wire HttpInitiateResp). (none, u)) same,
        subst (λ (u : Wire HttpInitiateResp). Faithful quote u.out a) same h,
      )

  module _ (http : Http HttpInitiateResp) (r : Resilience HttpInitiateResp) where
    checked-Initiated :
        (marshal : HttpInitiateReq → Result String) (req : InitiateRequest)
        (w v : Wire HttpInitiateResp) (a : BankReply) (c : Result Money)
        → check_initiate req ≡ c
        → ◌≡◌ {A = Result BankReply × Wire HttpInitiateResp}
            (elim c [
              | err e ↦ (err (to_grpc g detailed e), w)
              | ok m ↦
                  answered g detailed quote
                    (λ (o : HttpInitiateResp). o.status)
                    (initiated_reply g detailed quote)
                    (do_with_resilience http r "POST" "/bank/payments"
                      (some (marshal (initiate_body req m)))
                      w)
            ])
            (ok a, v)
        → Initiated quote http r marshal req w a v
    checked-Initiated marshal req w v a (err e) h k = absurd (cc (k))
    checked-Initiated marshal req w v a (ok m) h k =
        let (above, same) = check_initiate-above_zero req m h in
        let (answer, faithful) = answered-Faithful _ a v k in
        record {
          money = m;
          amount = same;
          above_zero = above;
          answer = answer;
          faithful = faithful;
        }

    -- A reply of `InitiatePayment` without an error: the amount was positive, the exchange with the
    -- bank succeeded, and the reply has the bank's reference and status, with a reason if the bank
    -- rejected the payment.
    pub initiate_payment-Initiated :
        (marshal : HttpInitiateReq → Result String) (req : InitiateRequest)
        (w v : Wire HttpInitiateResp) (a : BankReply)
        → initiate_payment g detailed quote http r marshal req w ≡ (ok a, v)
        → Initiated quote http r marshal req w a v
    unfolding initiate_payment
    initiate_payment-Initiated marshal req w v a h =
        checked-Initiated marshal req w v a (check_initiate req) refl h
