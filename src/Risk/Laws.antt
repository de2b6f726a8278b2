-- ===== src/Risk/Laws.antt =====
-- What the rule engine of services/risk-svc/internal/rules.go decides, and what it counts.
use vrp_oneclick_deposit_pla.Common.{
  ℕ, true, false, String, List, [], ◌∷◌, ◌++◌, ltb, ◌≤◌, ◌≡◌, refl, ap, ◌∙◌, arith, ℤ, pos, ◌≤ℤ◌,
  if◌then◌else◌, Bool-cases, inl, inr,
}
use vrp_oneclick_deposit_pla.Domainerr.{Result, ok, err}
use vrp_oneclick_deposit_pla.Risk.{
  Decision, allow, review, decline, other, RuleResult, ScoreResult, ScoreInput, Redis, Merge,
  severity, is_decline, merge_result, merge_all, merge_results, no_results, clamp, score,
  score_evaluated, score_velocity, velocity_rule, velocity_counted, velocity_result, evaluate,
  blocklist_rule, high_value_rule, kept, velocity_key, is_allow, keep_result,
}

-- The score of every payment is between 0 and 100.
pub merge_results-bounded :
    (rs : List RuleResult)
    → (pos 0 ≤ℤ (merge_results rs).score) × ((merge_results rs).score ≤ℤ pos 100)
unfolding merge_results clamp
merge_results-bounded rs = ground arith

-- The greatest of `n` and the severities.
unfoldable pub most_severe : ℕ → List RuleResult → ℕ
most_severe n [] = n
most_severe n (r ∷ rs) =
    most_severe (if ltb n (severity r.decision) then severity r.decision else n) rs

severity_allow : (d : Decision) → is_allow d ≡ true → severity d ≡ 1
unfolding severity
severity_allow allow h = refl
severity_allow review h = cc
severity_allow decline h = cc
severity_allow (other s) h = cc

severity_step :
    (m : Merge) (r : RuleResult)
    → 1 ≤ severity m.decision
    → severity (merge_result m r).decision ≡ (
        if ltb (severity m.decision) (severity r.decision)
        then severity r.decision
        else severity m.decision)
unfolding merge_result
severity_step m r h = ground (arith, severity_allow r.decision)

merge_all-severity :
    (m : Merge) (rs : List RuleResult)
    → 1 ≤ severity m.decision
    → severity (merge_all m rs).decision ≡ most_severe (severity m.decision) rs
unfolding merge_all most_severe
merge_all-severity m [] h = refl
merge_all-severity m (r ∷ rs) h =
    merge_all-severity (merge_result m r) rs (ground (arith, severity_step m r h))
    ∙ ap (λ n. most_severe n rs) (severity_step m r h)

-- The merged decision is as severe as the most severe of the results, and ALLOW at least.
pub merge_results-most_severe :
    (rs : List RuleResult) → severity (merge_results rs).decision ≡ most_severe 1 rs
unfolding merge_results severity
merge_results-most_severe rs = merge_all-severity no_results rs (omega arith)

module _ {S : Type 0} (redis : Redis S) where
  velocity_result-milder : (n : ℤ) → is_decline (velocity_result redis n).decision ≡ false
  unfolding velocity_result
  velocity_result-milder n = ground arith

  velocity_counted-milder :
      (key : String) (x : Result ℤ × S) (r : RuleResult) (t : S)
      → velocity_counted redis key x ≡ (ok r, t)
      → is_decline r.decision ≡ false
  unfolding velocity_counted
  velocity_counted-milder key (err e, s) r t h = cc
  velocity_counted-milder key (ok n, s) r t h = ground (arith, velocity_result-milder n)

  -- A velocity result is never DECLINE.
  velocity_rule-milder :
      (req : ScoreInput) (s t : S) (r : RuleResult)
      → velocity_rule redis req s ≡ (ok r, t)
      → is_decline r.decision ≡ false
  unfolding velocity_rule
  velocity_rule-milder req s t r h = ground (
    arith,
    velocity_counted-milder (velocity_key req.consumer_id)
        (redis.incr (velocity_key req.consumer_id) s) r t,
  )

merge_all-milder :
    (m : Merge) (rs : List RuleResult) (r : RuleResult)
    → is_decline r.decision ≡ false
    → is_decline (merge_all m rs).decision ≡ false
    → is_decline (merge_all m (rs ++ kept r)).decision ≡ false
unfolding merge_all merge_result
merge_all-milder m [] r h k = ground arith
merge_all-milder m (x ∷ rs) r h k = merge_all-milder (merge_result m x) rs r h k

module _ {S : Type 0} (redis : Redis S) where
  score_velocity-milder :
      (rs : List RuleResult) (x : Result RuleResult × S) (r : ScoreResult) (t : S)
      → ((v : RuleResult) (u : S) → x ≡ (ok v, u) → is_decline v.decision ≡ false)
      → is_decline (merge_results rs).decision ≡ false
      → score_velocity redis rs x ≡ (ok r, t)
      → is_decline r.decision ≡ false
  unfolding score_velocity merge_results
  score_velocity-milder rs (err e, s) r t mild k h = cc
  score_velocity-milder rs (ok v, s) r t mild k h =
      ground (arith, merge_all-milder no_results rs v (mild v s refl) k)

  score_evaluated-declined :
      (req : ScoreInput) (x : Result (List RuleResult) × S) (r : ScoreResult) (t : S)
      → score_evaluated redis req x ≡ (ok r, t)
      → is_decline r.decision ≡ true
      → t ≡ x.1
  unfolding score_evaluated
  score_evaluated-declined req (err e, s) r t h d = cc
  score_evaluated-declined req (ok rs, s) r t h d =
      elim (Bool-cases (is_decline (merge_results rs).decision)) [
        | inl e ↦ ground arith
        | inr e ↦ ground (
          arith,
          score_velocity-milder rs (velocity_rule redis req s) r t
              (λ v u. velocity_rule-milder redis req s u v) e,
        )
      ]

  evaluate-unchanged :
      (req : ScoreInput) (s : S)
      → (evaluate redis (blocklist_rule redis ∷ high_value_rule redis ∷ []) req s).1 ≡ s
  unfolding evaluate keep_result blocklist_rule high_value_rule
  evaluate-unchanged req s = ground arith

-- With the default rules, a payment that is declined leaves Redis, and so the consumer's counter,
-- as it was.
pub score-declined_uncounted :
    {S : Type 0} (redis : Redis S) (req : ScoreInput) (s : S) (r : ScoreResult) (t : S)
    → score redis [] req s ≡ (ok r, t)
    → is_decline r.decision ≡ true
    → t ≡ s
unfolding score
score-declined_uncounted redis req s r t h d =
    score_evaluated-declined redis req
      (evaluate redis (blocklist_rule redis ∷ high_value_rule redis ∷ []) req s) r t h d
    ∙ evaluate-unchanged redis req s
