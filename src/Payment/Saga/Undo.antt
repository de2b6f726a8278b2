-- ===== src/Payment/Saga/Undo.antt =====
-- What a saga of services/payment-svc/internal/saga.go that ends with an error has asked to undo.
use vrp_oneclick_deposit_pla.Common.{
  Bool, true, false, Option, none, some, String, List, [], ◌∷◌, ◌++◌, ◌==◌, ◌||◌, ◌≡◌, refl, ap,
  arith, eq_refl, inl, ◌⊎◌, ◌∙◌, sym, subst,
}
use mathlib.Core.List.{append-nil, append_assoc}
use vrp_oneclick_deposit_pla.Domainerr.{Err, Result, ok, err}
use vrp_oneclick_deposit_pla.Payment.{Payment, OutboxRow, failed, manual_review}
use vrp_oneclick_deposit_pla.Payment.Repo.{after_mark, mark_failed, mark_manual_review}
use vrp_oneclick_deposit_pla.Payment.World.Laws.{
  Triple, Triple-persist, Triple-bind, Triple-ignore, Triple-raise, Triple-pure,
}
use vrp_oneclick_deposit_pla.Payment.World.{
  Env, World, Saga, Call, release_reservation, reverse_payment, call, current, ◌>>=◌,
}
use vrp_oneclick_deposit_pla.Payment.Saga.Compensate.{
  errors_of, try_call, try_wanted, bank_reversal, consent_release, compensate, all_done,
  mark_as_failed, mark_for_review, fail_and_compensate, reverse_ledger, compensate_full,
}

abbrev pub is_release_of : String → Call → Bool
is_release_of res (release_reservation r _) = r == res
is_release_of res _ = false

abbrev pub is_reversal_of : String → Call → Bool
is_reversal_of ref (reverse_payment r _) = r == ref
is_reversal_of ref _ = false

-- Among the calls is one that the test accepts.
unfoldable pub any_call : (Call → Bool) → List Call → Bool
any_call test [] = false
any_call test (c ∷ cs) = test c || any_call test cs

-- The consent service has been asked to release the reservation, if there is one, whatever it answered.
abbrev pub is_release_asked : Option String → List Call → Bool
is_release_asked none calls = true
is_release_asked (some res) calls = any_call (is_release_of res) calls

-- The bank has been asked to reverse the payment, if there is one, whatever it answered.
abbrev pub is_reversal_asked : String → List Call → Bool
is_reversal_asked ref calls = (ref == "") || any_call (is_reversal_of ref) calls

any_call-append :
    (test : Call → Bool) (xs ys : List Call)
    → any_call test (xs ++ ys) ≡ (any_call test xs || any_call test ys)
unfolding any_call
any_call-append test [] ys = refl
any_call-append test (x ∷ xs) ys = ground (arith, any_call-append test xs ys)

-- A call that may be none.
unfoldable pub wanted : Option Call → List Call
wanted none = []
wanted (some c) = c ∷ []

-- The calls of a compensation, in order.
unfoldable pub compensation_calls : Payment → String → Bool → Bool → List Call
compensation_calls p reason consent bank =
    wanted (bank_reversal reason bank p.bank_payment_ref)
    ++ wanted (consent_release reason consent p.reservation_id)

bind_ok :
    {A B : Type 0} (m : Saga A) (f : A → Saga B) {w w' : World} {a : A}
    → m w ≡ (ok a, w')
    → (m >>= f) w ≡ f a w'
unfolding ◌>>=◌
bind_ok m f h = ap (λ (p : Result _ × World). elim p.0 [ ok a ↦ f a p.1 | err e ↦ (err e, p.1) ]) h

-- The world with more calls.
abbrev pub also : List Call → World → World
also cs w = record w { calls = w.calls ++ cs }

module _ (env : Env) where
  try_wanted_lem :
      (label : String) (c : Option Call) (w : World)
      → (es : List String) × (try_wanted env label c w ≡ (ok es, also (wanted c) w))
  unfolding try_wanted try_call call ◌>>=◌ wanted
  try_wanted_lem label none w = ([], rw append-nil)
  try_wanted_lem label (some c) w = (errors_of env label (env.done_reply (w.calls ++ c ∷ [])), refl)

  all_done_lem : (es : List String) (w : World) → (all_done es w).1 ≡ w
  unfolding all_done
  all_done_lem [] w = refl
  all_done_lem (e ∷ es) w = refl

  -- A compensation makes the calls that are wanted and have something to undo, the second whatever
  -- the first one answers, and changes nothing else.
  pub compensate_lem :
      (reason : String) (consent bank : Bool) (w : World)
      → (compensate env reason consent bank w).1
        ≡ also (compensation_calls w.payment reason consent bank) w
  unfolding compensate compensation_calls
  compensate_lem reason consent bank w =
      let c = bank_reversal reason bank w.payment.bank_payment_ref in
      let d = consent_release reason consent w.payment.reservation_id in
      let (es, first) = try_wanted_lem "bank" c w in
      let (fs, second) = try_wanted_lem "consent" d (also (wanted c) w) in
      ap (λ (r : Result (Unit {0}) × World). r.1)
        (bind_ok current _ {w = w} refl ∙ bind_ok _ _ first ∙ bind_ok _ _ second)
      ∙ (all_done_lem (es ++ fs) (also (wanted d) (also (wanted c) w)) ∙ rw append_assoc)

-- What a compensation may leave alone: a part that there is not.
pub record Covers (p : Payment) (consent bank : Bool) : Type 0 where
  pub reservation : (consent ≡ true) ⊎ (p.reservation_id ≡ none)
  pub reference : (bank ≡ true) ⊎ (p.bank_payment_ref ≡ "")

-- Nothing was added to the outbox `o`, and the calls that undo the payment's reservation and its payment
-- at the bank were made, whatever they answered.
pub record UndoAsked (o : List OutboxRow) (w : World) : Type 0 where
  pub unpublished : w.session.tables.outbox ≡ o
  pub release_asked : is_release_asked w.payment.reservation_id w.calls ≡ true
  pub reversal_asked : is_reversal_asked w.payment.bank_payment_ref w.calls ≡ true

released_by :
    (res : Option String) (reason : String) (consent : Bool) (cs : List Call)
    → (consent ≡ true) ⊎ (res ≡ none)
    → is_release_asked res (cs ++ wanted (consent_release reason consent res)) ≡ true
unfolding consent_release wanted any_call
released_by none reason consent cs h = refl
released_by (some res) reason consent cs h = ground (
  arith,
  any_call-append (is_release_of res) cs (release_reservation res reason ∷ []),
  eq_refl res,
)

reversed_by :
    (ref reason : String) (bank : Bool) (cs : List Call)
    → (bank ≡ true) ⊎ (ref ≡ "")
    → is_reversal_asked ref (cs ++ wanted (bank_reversal reason bank ref)) ≡ true
unfolding bank_reversal wanted any_call
reversed_by ref reason bank cs h =
    ground (
      arith,
      any_call-append (is_reversal_of ref) cs (reverse_payment ref reason ∷ []),
      eq_refl ref,
    )

-- A call that has been made stays made.
is_reversal_asked_more :
    (ref : String) (cs ds : List Call)
    → is_reversal_asked ref cs ≡ true
    → is_reversal_asked ref (cs ++ ds) ≡ true
is_reversal_asked_more ref cs ds h = ground (arith, any_call-append (is_reversal_of ref) cs ds)

module _ (env : Env) (o : List OutboxRow) where
  pub UndoAsked-compensate :
      (reason : String) (consent bank : Bool) (w : World)
      → Covers w.payment consent bank
      → w.session.tables.outbox ≡ o
      → UndoAsked o (compensate env reason consent bank w).1
  unfolding compensation_calls
  UndoAsked-compensate reason consent bank w h e =
      let p = w.payment in
      let first = wanted (bank_reversal reason bank p.bank_payment_ref) in
      let second = wanted (consent_release reason consent p.reservation_id) in
      subst (UndoAsked o) (sym (compensate_lem env reason consent bank w)) record {
        unpublished = e;
        release_asked =
            rw (sym (append_assoc w.calls first second))
              (released_by p.reservation_id reason consent (w.calls ++ first) h.reservation);
        reversal_asked = rw (sym (append_assoc w.calls first second)) (
            is_reversal_asked_more p.bank_payment_ref (w.calls ++ first) second
              (reversed_by p.bank_payment_ref reason bank w.calls h.reference));
      }

  keep-UndoAsked :
      (w v : World)
      → UndoAsked o w
      → v.session.tables.outbox ≡ w.session.tables.outbox
      → v.calls ≡ w.calls
      → v.payment.reservation_id ≡ w.payment.reservation_id
      → v.payment.bank_payment_ref ≡ w.payment.bank_payment_ref
      → UndoAsked o v
  keep-UndoAsked w v h e c r b = record {
    unpublished = cc (h.unpublished);
    release_asked = rw (r, c) h.release_asked;
    reversal_asked = rw (b, c) h.reversal_asked;
  }

  pub Triple-mark_as_failed :
      (reason : String)
      → Triple (UndoAsked o) (mark_as_failed env reason) (λ _. UndoAsked o) (λ _. UndoAsked o)
  unfolding mark_as_failed mark_failed
  Triple-mark_as_failed reason =
      Triple-persist env "mark failed" failed reason (λ now. after_mark failed reason now)
        (λ w now s h e. keep-UndoAsked w _ h e refl refl refl)
        (λ w x s h e. keep-UndoAsked w _ h e refl refl refl)

  pub Triple-mark_for_review :
      (reason : String)
      → Triple (UndoAsked o) (mark_for_review env reason) (λ _. UndoAsked o) (λ _. UndoAsked o)
  unfolding mark_for_review mark_manual_review
  Triple-mark_for_review reason =
      Triple-persist env "mark manual review" manual_review reason
        (λ now. after_mark manual_review reason now)
        (λ w now s h e. keep-UndoAsked w _ h e refl refl refl)
        (λ w x s h e. keep-UndoAsked w _ h e refl refl refl)

  -- A failure with its compensation always returns an error, and has asked to undo what it covers.
  pub Triple-fail_and_compensate :
      {Q : Unit {0} → World → Type 0} (reason : String) (consent bank : Bool) (ret : Option Err)
      → Triple
          (λ w. Covers w.payment consent bank × (w.session.tables.outbox ≡ o))
          (fail_and_compensate env reason consent bank ret)
          Q
          (λ _. UndoAsked o)
  unfolding fail_and_compensate
  Triple-fail_and_compensate {Q = Q} reason consent bank ret =
      Triple-bind {R = λ _. UndoAsked o} _ _
        (record { at = λ w (h, e). UndoAsked-compensate reason consent bank w h e })
        (elim [
          | err e ↦
              Triple-bind {R = λ _. UndoAsked o} _ _ (Triple-ignore _ (Triple-mark_for_review _))
                (λ _. Triple-raise _ λ w h. h)
          | ok _ ↦
              Triple-bind {R = λ _. UndoAsked o} _ _ (Triple-ignore _ (Triple-mark_as_failed _))
                (λ _. Triple-raise _ λ w h. h)
        ])

  Triple-all_done :
      (es : List String) → Triple (UndoAsked o) (all_done es) (λ _. UndoAsked o) (λ _. UndoAsked o)
  unfolding all_done
  Triple-all_done [] = Triple-pure tt λ w h. h
  Triple-all_done (e ∷ es) = Triple-raise _ λ w h. h

  -- The full compensation asks to undo both, whether the ledger's reversal fails or not.
  pub Triple-compensate_full :
      (reason : String)
      → Triple
          (λ w. w.session.tables.outbox ≡ o)
          (compensate_full env reason)
          (λ _. UndoAsked o)
          (λ _. UndoAsked o)
  unfolding compensate_full reverse_ledger try_call call
  Triple-compensate_full reason =
      Triple-bind {R = λ _ w. w.session.tables.outbox ≡ o} _ _
        (Triple-bind {R = λ _ w. w.session.tables.outbox ≡ o} _ _ (record { at = λ w h. h })
          (λ p.
            Triple-bind {R = λ _ w. w.session.tables.outbox ≡ o} _ _ (record { at = λ w h. h })
              (λ r. record { at = λ w h. h })))
        λ es.
          Triple-bind {R = λ _. UndoAsked o} _ _
            (record {
              at = λ w h.
                  UndoAsked-compensate reason true true w
                    (record { reservation = inl refl; reference = inl refl }) h;
            })
            (λ r. Triple-all_done _)
