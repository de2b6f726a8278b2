-- ===== src/Domainerr/Triple.antt =====
-- Rules for what holds after an action that acts on a state and may return an error
-- (pkg/shared/domainerr/errors.go), whether it returns a value or the error.
use vrp_oneclick_deposit_pla.Common.{
  Bool, true, false, Option, none, some, ◌≡◌, refl, if◌then◌else◌, subst,
}
use vrp_oneclick_deposit_pla.Domainerr.{Err, Result, ok, err}

abbrev pub Action : Type 0 → Type 0 → Type 0
Action W A = W → Result A × W

module _ {W : Type 0} where
  -- `Q` of the value and the world, or `E` of the error and the world.
  abbrev pub Outcome : {A : Type 0} → (A → W → Type 0) → (Err → W → Type 0) → Result A × W → Type 0
  Outcome Q E (ok a, w) = Q a w
  Outcome Q E (err e, w) = E e w

  -- From a world with `P`, the action ends with `Q`, or with `E` where it returns an error.
  pub record Triple {A : Type 0} (P : W → Type 0) (m : Action W A) (Q : A → W → Type 0)
      (E : Err → W → Type 0) : Type 0 where
    pub at : (w : W) → P w → Outcome Q E (m w)

  module _ {A : Type 0} {P : W → Type 0} {Q : A → W → Type 0} {E : Err → W → Type 0} where
    pub Triple-pure : (a : A) → ((w : W) → P w → Q a w) → Triple P (λ w. (ok a, w)) Q E
    Triple-pure a h = record { at = h }

    pub Triple-raise : (e : Err) → ((w : W) → P w → E e w) → Triple {A = A} P (λ w. (err e, w)) Q E
    Triple-raise e h = record { at = h }

  module _ {A B : Type 0} (R : A → W → Type 0) (Q : B → W → Type 0) (E : Err → W → Type 0) where
    pub bind-Outcome :
        (f : A → Action W B) (p : Result A × W)
        → Outcome R E p
        → ((a : A) → Triple (R a) (f a) Q E)
        → Outcome Q E (elim p.0 [ ok a ↦ f a p.1 | err e ↦ (err e, p.1) ])
    bind-Outcome f (ok a, w) h k = (k a).at w h
    bind-Outcome f (err e, w) h k = h

  -- The two outcomes of an action whose error is handed on as a value.
  abbrev pub Either : {A : Type 0} → (A → W → Type 0) → (Err → W → Type 0) → Result A → W → Type 0
  Either Q E (ok a) w = Q a w
  Either Q E (err e) w = E e w

  attempt-Outcome :
      {A : Type 0} (Q : A → W → Type 0) (F : Err → W → Type 0) (p : Result A × W)
      → Outcome Q F p
      → Either Q F p.0 p.1
  attempt-Outcome Q F (ok a, w) h = h
  attempt-Outcome Q F (err e, w) h = h

  pub ignore_outcome :
      {A : Type 0} (R : W → Type 0) (p : Result A × W) → Outcome (λ _. R) (λ _. R) p → R p.1
  ignore_outcome R (ok a, w) h = h
  ignore_outcome R (err e, w) h = h

  module _ {A : Type 0} {P : W → Type 0} {Q : A → W → Type 0} {F : Err → W → Type 0} where
    pub Triple-attempt :
        {E : Err → W → Type 0} (m : Action W A)
        → Triple P m Q F
        → Triple P (λ w. let (r, w1) = m w in (ok r, w1)) (Either Q F) E
    Triple-attempt m h = record { at = λ w p. attempt-Outcome Q F (m w) (h.at w p) }

  module _ {A : Type 0} {P R : W → Type 0} where
    pub Triple-ignore :
        {E : Err → W → Type 0} (m : Action W A)
        → Triple P m (λ _. R) (λ _. R)
        → Triple P (λ w. let (_, w1) = m w in (ok tt, w1)) (λ _. R) E
    Triple-ignore m h = record { at = λ w p. ignore_outcome R (m w) (h.at w p) }

  forget-Outcome :
      {A : Type 0} (Q : A → W → Type 0) (E : Err → W → Type 0) (p : Result A × W)
      → Outcome Q E p
      → Outcome Q (λ _ _. Unit {0}) p
  forget-Outcome Q E (ok a, w) h = h
  forget-Outcome Q E (err e, w) h = tt

  pub weaken :
      {A : Type 0} {P R : W → Type 0} {Q : A → W → Type 0} {E : Err → W → Type 0} {m : Action W A}
      → ((w : W) → P w → R w)
      → Triple R m Q E
      → Triple P m Q E
  weaken f h = record { at = λ w p. h.at w (f w p) }

  -- A branch on a computed value.
  module _ {A : Type 0} {P : W → Type 0} {Q : A → W → Type 0} {E : Err → W → Type 0} where
    pub Triple-option :
        {C : Type 0} (d : Option C) (m : Action W A) (f : C → Action W A)
        → (d ≡ none → Triple P m Q E)
        → ((c : C) → d ≡ some c → Triple P (f c) Q E)
        → Triple P (elim d [ none ↦ m | some c ↦ f c ]) Q E
    Triple-option none m f h k = h refl
    Triple-option (some c) m f h k = k c refl

    pub Triple-result :
        {C : Type 0} (d : Result C) (g : Err → Action W A) (f : C → Action W A)
        → ((e : Err) → Triple P (g e) Q E)
        → ((c : C) → d ≡ ok c → Triple P (f c) Q E)
        → Triple P (elim d [ err e ↦ g e | ok c ↦ f c ]) Q E
    Triple-result (err e) g f h k = h e
    Triple-result (ok c) g f h k = k c refl

    pub Triple-if :
        (b : Bool) (m n : Action W A)
        → (b ≡ true → Triple P m Q E)
        → (b ≡ false → Triple P n Q E)
        → Triple P (if b then m else n) Q E
    Triple-if true m n h k = h refl
    Triple-if false m n h k = k refl

  module _ {A : Type 0} (Q : A → W → Type 0) (E : Err → W → Type 0) where
    pub outcome_ok : (p : Result A × W) {a : A} → Outcome Q E p → p.0 ≡ ok a → Q a p.1
    outcome_ok (ok x, w) h r = subst (λ x. Q x w) (cc (r)) h
    outcome_ok (err e, w) h r = cc

    pub outcome_err : (p : Result A × W) {e : Err} → Outcome Q E p → p.0 ≡ err e → E e p.1
    outcome_err (ok x, w) h r = cc
    outcome_err (err e, w) h r = subst (λ x. E x w) (cc (r)) h

  pub Either-same :
      {A : Type 0} (R : W → Type 0) (r : Result A) (w : W) → R w → Either (λ _. R) (λ _. R) r w
  Either-same R (ok a) w h = h
  Either-same R (err e) w h = h

  -- The rule where nothing is said of an error.
  pub forget :
      {A : Type 0} {P : W → Type 0} {Q : A → W → Type 0} {E : Err → W → Type 0} {m : Action W A}
      → Triple P m Q E
      → Triple P m Q (λ _ _. Unit {0})
  forget {A} {P} {Q} {E} {m} h = record { at = λ w p. forget-Outcome Q E (m w) (h.at w p) }

  strengthen-Outcome :
      {A : Type 0} (Q R : A → W → Type 0) (E : Err → W → Type 0)
      → ((a : A) (w : W) → Q a w → R a w)
      → (p : Result A × W) → Outcome Q E p
      → Outcome R E p
  strengthen-Outcome Q R E f (ok a, w) h = f a w h
  strengthen-Outcome Q R E f (err e, w) h = h

  pub strengthen :
      {A : Type 0} {P : W → Type 0} {Q R : A → W → Type 0} {E : Err → W → Type 0} {m : Action W A}
      → ((a : A) (w : W) → Q a w → R a w)
      → Triple P m Q E
      → Triple P m R E
  strengthen {A} {P} {Q} {R} {E} {m} f h = record {
    at = λ w p. strengthen-Outcome Q R E f (m w) (h.at w p);
  }

  -- Where the value and the error leave the same.
  pub attempt_same :
      {A : Type 0} {P R : W → Type 0} {E : Err → W → Type 0} {m : Action W A}
      → Triple P m (λ _. R) (λ _. R)
      → Triple P (λ w. let (r, w1) = m w in (ok r, w1)) (λ _. R) E
  attempt_same {A} {P} {R} {E} {m} h = record { at = λ w p. ignore_outcome R (m w) (h.at w p) }

  pub same-Outcome :
      {A : Type 0} (R : W → Type 0) (p : Result A × W) → R p.1 → Outcome (λ _. R) (λ _. R) p
  same-Outcome R (ok a, w) h = h
  same-Outcome R (err e, w) h = h
