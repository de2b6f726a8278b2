-- ===== src/Risk.antt =====
-- services/risk-svc/internal/rules.go: the rule engine that scores a payment. The Redis server and
-- the extra rules are parameters; a text that `fmt` makes of a number or a quoted text is one too.
pub mod Laws
use vrp_oneclick_deposit_pla.Common.{
  ℕ, Bool, true, false, not, ◌||◌, ◌&&◌, String, ◌+++◌, ◌==◌, List, [], ◌∷◌, ◌++◌, ltb, leb,
  if◌then◌else◌, ℤ, pos, negsuc, add64, ltb_ℤ, trim_space, to_upper, Option, none, some,
}
use vrp_oneclick_deposit_pla.Domainerr.{Err, plain, annotated, Result, ok, err}

-- `Decision`: a text, of which three are named.
pub data Decision : Type 0 where
  allow review decline : Decision
  other : String → Decision

abbrev pub max_score : ℤ
max_score = pos 100

abbrev pub velocity_threshold : ℤ
velocity_threshold = pos 5

abbrev pub velocity_score_delta : ℤ
velocity_score_delta = pos 40

abbrev pub high_value_pence : ℤ
high_value_pence = pos 50000

abbrev pub high_value_score_delta : ℤ
high_value_score_delta = pos 30

abbrev pub blocklist_score_delta : ℤ
blocklist_score_delta = pos 100

-- The fields of `ScoreInput` that the rules read; `amount_pence` is none where `Amount` is nil.
pub record ScoreInput : Type 0 where
  pub merchant_id : String
  pub consumer_id : String
  pub amount_pence : Option ℤ
  pub ip_address : String

pub record RuleResult : Type 0 where
  pub score_delta : ℤ
  pub decision : Decision
  pub rule_name : String
  pub reason : String

pub record ScoreResult : Type 0 where
  pub score : ℤ
  pub decision : Decision
  pub reason : String
  pub rules_triggered : List String

-- The commands of the Redis server on its state `S`, and the texts of `fmt`.
pub record Redis (S : Type 0) : Type 0 where
  pub sis_member : String → String → S → Result Bool
  pub incr : String → S → Result ℤ × S
  pub expire : String → S → Result (Unit {0}) × S
  pub quote : String → String
  pub decimal : ℤ → String

-- `Rule.Evaluate`
abbrev pub Rule : Type 0 → Type 0
Rule S = ScoreInput → S → Result RuleResult × S

unfoldable pub severity : Decision → ℕ
severity decline = 3
severity review = 2
severity allow = 1
severity (other _) = 0

abbrev pub is_allow : Decision → Bool
is_allow allow = true
is_allow _ = false

abbrev pub is_decline : Decision → Bool
is_decline decline = true
is_decline _ = false

-- A result that says nothing.
abbrev pub is_noop : RuleResult → Bool
is_noop r =
    is_allow r.decision
    && ((not (ltb_ℤ r.score_delta (pos 0)) && not (ltb_ℤ (pos 0) r.score_delta))
        && (r.rule_name == ""))

abbrev pub passed : RuleResult
passed = record { score_delta = pos 0; decision = allow; rule_name = ""; reason = "" }

abbrev pub blocklist_key : String → String → String
blocklist_key type value = "risk:blocklist:" +++ (type +++ (":" +++ value))

abbrev pub velocity_key : String → String
velocity_key consumer_id = "risk:velocity:" +++ consumer_id

-- `strings.Join(reasons, "; ")`
unfoldable pub join_reasons : List String → String
join_reasons [] = ""
join_reasons (s ∷ []) = s
join_reasons (s ∷ t ∷ rest) = s +++ ("; " +++ join_reasons (t ∷ rest))

-- The variables of the loop of `mergeResults`: `out` and `reasons`.
pub record Merge : Type 0 where
  pub score : ℤ
  pub decision : Decision
  pub rules_triggered : List String
  pub reasons : List String

abbrev named : String → List String
named s = if s == "" then [] else s ∷ []

-- One turn of the loop.
unfoldable pub merge_result : Merge → RuleResult → Merge
unfolding severity
merge_result m r = if is_noop r then m else record {
  score = add64 m.score r.score_delta;
  decision = if ltb (severity m.decision) (severity r.decision) then r.decision else m.decision;
  rules_triggered = m.rules_triggered ++ named r.rule_name;
  reasons = m.reasons ++ named r.reason;
}

unfoldable pub merge_all : Merge → List RuleResult → Merge
merge_all m [] = m
merge_all m (r ∷ rs) = merge_all (merge_result m r) rs

abbrev pub no_results : Merge
no_results = record { score = pos 0; decision = allow; rules_triggered = []; reasons = [] }

-- Above 100 it is 100, and below 0 it is 0.
unfoldable pub clamp : ℤ → ℤ
clamp score =
    let capped = if ltb_ℤ max_score score then max_score else score in
    if ltb_ℤ capped (pos 0) then pos 0 else capped

unfoldable pub merge_results : List RuleResult → ScoreResult
merge_results rs =
    let m = merge_all no_results rs in
    record {
      score = clamp m.score;
      decision = m.decision;
      reason = elim m.reasons [ [] ↦ "all rules passed" | _ ∷ _ ↦ join_reasons m.reasons ];
      rules_triggered = m.rules_triggered;
    }

-- The results that are kept: `if name != "" || dec != DecisionAllow || delta != 0`.
abbrev pub kept : RuleResult → List RuleResult
kept r = if is_noop r then [] else r ∷ []

module _ {S : Type 0} (redis : Redis S) where
  -- The loop of `BlocklistRule.Evaluate` over its checks.
  unfoldable pub check_blocklist : List (String × String) → S → Result RuleResult
  check_blocklist [] s = ok passed
  check_blocklist ((type, value) ∷ checks) s =
      let rest = check_blocklist checks s in
      if value == "" then rest else elim (redis.sis_member (blocklist_key type value) value s) [
        | err e ↦ err (annotated ("blocklist sismember " +++ blocklist_key type value) e)
        | ok false ↦ rest
        | ok true ↦ ok (record {
          score_delta = blocklist_score_delta;
          decision = decline;
          rule_name = "BLOCKLIST";
          reason = type +++ (" " +++ (redis.quote value +++ " is blocklisted"));
        })
      ]

  unfoldable pub blocklist_rule : Rule S
  blocklist_rule req s = (
    check_blocklist
        (("consumer", req.consumer_id)
          ∷ ("merchant", req.merchant_id)
          ∷ ("ip", req.ip_address)
          ∷ [])
        s,
    s,
  )

  unfoldable pub high_value_rule : Rule S
  high_value_rule req s =
      let pence : ℤ = elim req.amount_pence [ none ↦ pos 0 | some p ↦ p ] in
      (
        ok (
            if ltb_ℤ high_value_pence pence
            then record {
              score_delta = high_value_score_delta;
              decision = review;
              rule_name = "HIGH_VALUE";
              reason =
                  "amount "
                  +++ (redis.decimal pence
                      +++ (" pence exceeds " +++ (redis.decimal high_value_pence +++ " pence")));
            }
            else passed),
        s,
      )

  -- What `VelocityRule.Evaluate` returns for the counter `n`.
  unfoldable pub velocity_result : ℤ → RuleResult
  velocity_result n =
      if ltb_ℤ velocity_threshold n
      then record {
        score_delta = velocity_score_delta;
        decision = review;
        rule_name = "VELOCITY_EXCEEDED";
        reason = "consumer exceeded 5 payments in 1m0s (count=" +++ (redis.decimal n +++ ")");
      }
      else passed

  abbrev is_one : ℤ → Bool
  is_one n = not (ltb_ℤ n (pos 1)) && not (ltb_ℤ (pos 1) n)

  -- The window of a counter starts with its first payment.
  velocity_counted : String → Result ℤ × S → Result RuleResult × S
  unfolding velocity_result
  velocity_counted key (err e, s) = (err (annotated "velocity incr" e), s)
  velocity_counted key (ok n, s) =
      if is_one n
      then (let (r, t) = redis.expire key s in
          elim r [
            | err e ↦ (err (annotated "velocity expire" e), t)
            | ok _ ↦ (ok (velocity_result n), t)
          ])
      else (ok (velocity_result n), s)

  unfoldable pub velocity_rule : Rule S
  unfolding velocity_counted
  velocity_rule req s =
      if req.consumer_id == ""
      then (ok passed, s)
      else velocity_counted (velocity_key req.consumer_id)
          (redis.incr (velocity_key req.consumer_id) s)

  -- The results of the rules after a rule that returned `r`.
  keep_result : RuleResult → Result (List RuleResult) × S → Result (List RuleResult) × S
  keep_result r (err e, s) = (err e, s)
  keep_result r (ok rs, s) = (ok (kept r ++ rs), s)

  -- The loop over the rules before the velocity rule.
  unfoldable pub evaluate : List (Rule S) → ScoreInput → S → Result (List RuleResult) × S
  unfolding keep_result
  evaluate [] req s = (ok [], s)
  evaluate (rule ∷ rules) req s =
      let (r, t) = rule req s in
      elim r [ err e ↦ (err e, t) | ok r ↦ keep_result r (evaluate rules req t) ]

  -- `if merged.Decision == ""` cannot hold: the loop starts with ALLOW and only climbs.
  score_velocity : List RuleResult → Result RuleResult × S → Result ScoreResult × S
  score_velocity rs (err e, s) = (err e, s)
  score_velocity rs (ok r, s) = (ok (merge_results (rs ++ kept r)), s)

  score_evaluated : ScoreInput → Result (List RuleResult) × S → Result ScoreResult × S
  unfolding score_velocity
  score_evaluated req (err e, s) = (err e, s)
  score_evaluated req (ok rs, s) =
      if is_decline (merge_results rs).decision
      then (ok (merge_results rs), s)
      else score_velocity rs (velocity_rule req s)

  -- `Engine.Score` with the extra rules `rules`.
  unfoldable pub score : List (Rule S) → ScoreInput → S → Result ScoreResult × S
  unfolding score_evaluated
  score rules req s =
      score_evaluated req (evaluate (blocklist_rule ∷ high_value_rule ∷ rules) req s)
