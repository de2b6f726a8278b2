-- ===== src/Tests/Sagas.antt =====
-- Runs of the saga of services/payment-svc/internal/saga.go.
use vrp_oneclick_deposit_pla.Common.{
  ◌<◌, eqb, if◌then◌else◌, true, false, none, some, [], ◌∷◌, ◌≡◌, refl, pos, arith, sub64,
  trim_space, to_upper, add64, mul64, wrap64, quot, ◌+ℤ◌, ◌-ℤ◌, ◌*ℤ◌, ℤ, String, List,
}
use vrp_oneclick_deposit_pla.Domainerr.{domain, plain, wrapped, ok, err, risk_declined, Code}
use vrp_oneclick_deposit_pla.Postgres.{Server, Session}
use vrp_oneclick_deposit_pla.Postgres
use vrp_oneclick_deposit_pla.Payment.{Payment, Store, initiated}
use vrp_oneclick_deposit_pla.Payment.Fee.{platform_fee, settlement_lines, dr, cr}
use vrp_oneclick_deposit_pla.Payment.Fee.Laws.{settlement_lines-balanced, total}
use vrp_oneclick_deposit_pla.Ledger.{LineInput, post_request}
use vrp_oneclick_deposit_pla.Ledger
use vrp_oneclick_deposit_pla.Ledger.Settlement.{post_request-above_penny}
use vrp_oneclick_deposit_pla.Payment.Repo
use vrp_oneclick_deposit_pla.Payment.Repo.{settle_with_outbox}
use vrp_oneclick_deposit_pla.Payment.World.{
  Env, World, ScoreReply, RiskDecision, BankReply, allow, decline,
}
use vrp_oneclick_deposit_pla.Payment.World
use vrp_oneclick_deposit_pla.Payment.World.Laws.{Outcome}
use vrp_oneclick_deposit_pla.Payment.Saga.{
  bank_answered, run_saga, resume_from_ledger, compensate_stale,
}
use vrp_oneclick_deposit_pla.Payment.Saga
use vrp_oneclick_deposit_pla.Payment.Saga.Unpersisted.{bank_answered-unreversed}
use vrp_oneclick_deposit_pla.Payment.Saga.Compensate.{compensate, consent_release}
use vrp_oneclick_deposit_pla.Payment.Saga.Compensate
use vrp_oneclick_deposit_pla.Payment.Saga.Undo.{
  wanted, UndoAsked, compensate_lem, compensation_calls, also,
}
use vrp_oneclick_deposit_pla.Payment.Saga.States.{Fresh}
use vrp_oneclick_deposit_pla.Payment.Saga.Settle.{
  run_saga-error, run_saga-Completed, Completed, Published,
}
use vrp_oneclick_deposit_pla.Payment.Saga.Resume.{resume_from_ledger_lem, compensate_stale_lem}

abbrev pub server : Server
server = record { fault = λ _. none; clock = 9; uuid = λ n. "row" }

-- A server that fails its first statement.
abbrev broken : Server
broken = record {
  fault = λ n. if eqb n 0 then some (plain "connection lost") else none;
  clock = 9;
  uuid = λ n. "row";
}

abbrev pub env_with : RiskDecision → Env
env_with d = record {
  server = server;
  now = λ n. n;
  grpc_text = λ c m. m;
  parse_uuid = λ s. ok s;
  reserve_reply = λ _. ok (record {
    reservation_id = "res";
    consumer_id = "consumer";
    bank_consent_ref = "bank-consent";
  });
  score_reply = λ _. ok (record { score = pos 40; decision = d; reason = "checked" });
  bank_reply = λ _.
      ok (record { bank_payment_ref = "bank-1"; status = World.bank_settled; failure_reason = "" });
  status_reply = λ _. err (plain "not asked");
  done_reply = λ _. ok tt;
  claim_reply = λ _. ok false;
  read_reply = λ _. ok (some "PROCESSING");
  in_time = λ _. true;
  cancelled = λ _. none;
  new_id = λ _. "new";
}

abbrev pub payment : Payment
payment = record {
  id = "p";
  idempotency_key = "k";
  merchant_id = "m";
  consent_id = "c";
  consumer_id = "";
  amount_pence = pos 5000;
  currency = "GBP";
  status = initiated;
  bank_payment_ref = "";
  reservation_id = none;
  risk_score = none;
  risk_decision = "";
  failure_reason = "";
  description = "deposit";
  initiated_at = 1;
  settled_at = none;
  updated_at = 1;
}

abbrev pub session : Session Store
session = record {
  tables = record { payments = payment ∷ []; events = []; outbox = [] };
  count = 0;
  aborted = false;
}

abbrev pub world : World
world = record { session = session; payment = payment; calls = [] }

world-Fresh : Fresh [] [] world
world-Fresh = record { unpublished = refl; unreserved = refl; unpaid = refl; uncalled = refl }

declined : (run_saga (env_with decline) world).0 ≡ err (domain risk_declined "checked")
unfolding run_saga World.◌>>=◌ World.call World.persist Saga.consent_step Saga.consent_answered
    Saga.risk_step Saga.risk_scored Saga.bank_step Saga.bank_answered Saga.ledger_step
    Saga.settle_step Saga.confirm_step Saga.decision_name Compensate.fail_and_compensate
    Compensate.compensate Compensate.try_wanted Compensate.try_call Compensate.bank_reversal
    Compensate.consent_release Compensate.all_done Compensate.mark_as_failed Repo.mark_failed
    Repo.update_after_consent Repo.update_after_risk Repo.update_after_bank Repo.update_and_log
    Repo.settle_with_outbox Postgres.◌>>=◌ Postgres.pool_statement Postgres.statement
    Postgres.transaction
declined = refl

run_saga-error_example : UndoAsked [] (run_saga (env_with decline) world).1
run_saga-error_example =
    run_saga-error (env_with decline) world (domain risk_declined "checked") world-Fresh declined

settled : (run_saga (env_with allow) world).0 ≡ ok tt
unfolding run_saga World.◌>>=◌ World.call World.persist Saga.consent_step Saga.consent_answered
    Saga.risk_step Saga.risk_scored Saga.bank_step Saga.bank_answered Saga.ledger_step
    Saga.settle_step Saga.confirm_step Saga.decision_name Compensate.fail_and_compensate
    Compensate.compensate Compensate.try_wanted Compensate.try_call Compensate.bank_reversal
    Compensate.consent_release Compensate.all_done Compensate.mark_as_failed Repo.mark_failed
    Repo.update_after_consent Repo.update_after_risk Repo.update_after_bank Repo.update_and_log
    Repo.settle_with_outbox Postgres.◌>>=◌ Postgres.pool_statement Postgres.statement
    Postgres.transaction Repo.settle_body Repo.insert_outbox
settled = refl

run_saga-Completed_example : Completed (env_with allow) [] [] (run_saga (env_with allow) world).1
run_saga-Completed_example = run_saga-Completed (env_with allow) world world-Fresh settled

resume_from_ledger_lem_example :
    Outcome
      (λ _. Published (env_with allow) [])
      (λ _. UndoAsked [])
      (resume_from_ledger (env_with allow) world)
resume_from_ledger_lem_example = resume_from_ledger_lem (env_with allow) world

compensate_stale_lem_example :
    Outcome (λ _ _. ⊥) (λ _. UndoAsked []) (compensate_stale (env_with allow) "stale" world)
compensate_stale_lem_example = compensate_stale_lem (env_with allow) "stale" world

abbrev paid : World
paid = record {
  session = session;
  payment = record payment { reservation_id = some "res"; bank_payment_ref = "bank-1" };
  calls = [];
}

compensate_lem_example :
    (compensate (env_with allow) "stale" true true paid).1
    ≡ also (compensation_calls paid.payment "stale" true true) paid
compensate_lem_example = compensate_lem (env_with allow) "stale" true true paid

abbrev settled_session : Session Store
settled_session = (settle_with_outbox server 5 payment session).1

settlement_lines-balanced_example :
    (total dr (settlement_lines payment) ≡ pos 5000)
    × (total cr (settlement_lines payment) ≡ pos 5000)
settlement_lines-balanced_example =
    settlement_lines-balanced payment 5000 refl (omega arith) (omega arith)

abbrev db_line : String → String → String → ℤ → LineInput
db_line account owner direction amount = record {
  account_type = account;
  owner_ref = owner;
  direction = direction;
  amount_pence = amount;
  currency = "GBP";
}

abbrev posted_lines : List LineInput
posted_lines =
    db_line "CONSUMER_ESCROW" "consumer" "DR" (pos 5000)
    ∷ db_line "MERCHANT_ESCROW" "m" "CR" (pos 4950)
    ∷ db_line "PLATFORM_FEE" "platform" "CR" (pos 50)
    ∷ []

abbrev reserved : Payment
reserved = record payment { consumer_id = "consumer" }

posted : post_request "p" (settlement_lines reserved) ≡ ok posted_lines
unfolding post_request Ledger.to_lines Ledger.to_line Ledger.account_type_to_db
    Ledger.direction_to_db settlement_lines platform_fee Ledger.check_entry Ledger.check_lines
    Ledger.check_line Ledger.add_line trim_space to_upper add64 sub64 mul64 wrap64 quot ◌+ℤ◌ ◌-ℤ◌
    ◌*ℤ◌
posted = refl

post_request-above_penny_example : 1 < 5000
post_request-above_penny_example =
    post_request-above_penny reserved 5000 posted_lines refl (omega arith) (omega arith) posted

abbrev failing : Env
failing = record (env_with allow) { server = broken }

abbrev accepted : BankReply
accepted = record { bank_payment_ref = "bank-1"; status = World.bank_settled; failure_reason = "" }

abbrev holding : World
holding = record {
  session = session;
  payment = record payment { reservation_id = some "res" };
  calls = [];
}

not_updated :
    (Repo.update_after_bank broken 0 "bank-1" holding.payment session).0
    ≡ err (wrapped Code.internal "update after bank" (plain "connection lost"))
unfolding Repo.update_after_bank Repo.update_and_log Postgres.◌>>=◌ Postgres.pool_statement
    Postgres.statement
not_updated = refl

bank_answered-unreversed_example :
    (bank_answered failing accepted holding).1.calls
    ≡ wanted (consent_release "persist bank failed" true (some "res"))
bank_answered-unreversed_example =
    bank_answered-unreversed failing accepted holding
      (wrapped Code.internal "update after bank" (plain "connection lost")) refl refl not_updated
