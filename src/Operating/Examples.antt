-- ===== src/Operating/Examples.antt =====
-- A contract and a run under it, with money as whole cents.
use growth_clockwork.Prelude.{
  ℕ, ◌≡◌, refl, ◌↔◌, false, Option, none, some, String, List, [], ◌∷◌, not, ◌==◌, keep, distinct,
  insert_text, sort_texts,
}
use growth_clockwork.Operating.{
  Contract, Problem, validate_operating_contract, first_fault, overlap, missing_proof,
  both_allowed_and_forbidden, unmetered,
}
use growth_clockwork.Operating.Usage.{Money, TaskResult, Limits, aggregate_usage, plus_ℕ, gtb}
use growth_clockwork.Operating.Limits.{
  accepted, refused, unknown_counters, enforce_amounts, enforce_run_limits, WithinLimits,
}
use growth_clockwork.Operating.Checks.{IsSafe, validate_operating_contract-IsSafe}
use growth_clockwork.Operating.Enforcement.{enforce_run_limits-WithinLimits}
use growth_clockwork.Operating.Totals.{known_sum, aggregate_usage-known_sum}

abbrev contract : Contract
contract = record {
  authority = record {
    allowed_actions = "draft" ∷ "measure" ∷ [];
    forbidden_actions = "publish" ∷ [];
    may_use_unofficial_collection = false;
  };
  outcome_owner = "growth-lead";
  allowed_evidence_grades = "official" ∷ [];
  proof_requirements =
      "source_hashes" ∷ "professional_contract_checks" ∷ "governance_verdict"
      ∷ "human_exact_revision" ∷ [];
}

abbrev no_problems : List Problem
no_problems = []

contract-IsSafe : IsSafe (some ("growth-lead" ∷ [])) contract
unfolding validate_operating_contract first_fault overlap missing_proof keep distinct sort_texts
contract-IsSafe =
    let found = validate_operating_contract-IsSafe [] (some ("growth-lead" ∷ [])) contract in
    (found.0 refl).1

contract_with_conflict :
    validate_operating_contract [] none (record contract {
      authority = record {
        allowed_actions = "publish" ∷ "draft" ∷ "publish" ∷ [];
        forbidden_actions = "publish" ∷ [];
        may_use_unofficial_collection = false;
      };
    })
    ≡ some (both_allowed_and_forbidden ("publish" ∷ []))
unfolding validate_operating_contract first_fault overlap missing_proof keep distinct sort_texts
    insert_text
contract_with_conflict = refl

validate_operating_contract-IsSafe_example :
    (validate_operating_contract no_problems none contract ≡ none)
    ↔ ((no_problems ≡ []) × IsSafe none contract)
validate_operating_contract-IsSafe_example =
    validate_operating_contract-IsSafe no_problems none contract

abbrev cents : Money
cents = record {
  Amount = ℕ;
  zero_amount = 0;
  plus = plus_ℕ;
  exceeds = gtb;
  is_nonzero = λ n. not (n == 0);
}

abbrev result : String → Option ℕ → TaskResult cents
result task tokens = record {
  task_id = task;
  attempts = 1;
  provider = none;
  usage = record {
    duration_ms = some 500;
    input_tokens = tokens;
    output_tokens = some 20;
    variable_external_cost_eur = some 3;
  };
}

abbrev limits : Limits cents
limits = record {
  max_duration_ms = 1000;
  max_input_tokens = 100;
  max_output_tokens = 100;
  max_variable_external_cost_eur = 10;
  max_attempts_per_task = 2;
  max_sources = 1;
  usage_policy = none;
}

abbrev results : List (TaskResult cents)
results = result "a" (some 40) ∷ result "b" (some 60) ∷ []

run_unmetered :
    enforce_run_limits cents limits (result "a" none ∷ []) []
    ≡ refused (unmetered ("input_tokens" ∷ []))
unfolding enforce_run_limits unknown_counters enforce_amounts keep
run_unmetered = refl

enforce_run_limits-WithinLimits_example :
    (enforce_run_limits cents limits results ("s" ∷ "" ∷ "s" ∷ [])
      ≡ accepted (aggregate_usage cents results))
    ↔ (WithinLimits cents limits results ("s" ∷ "" ∷ "s" ∷ [])
        × (aggregate_usage cents results ≡ aggregate_usage cents results))
enforce_run_limits-WithinLimits_example =
    enforce_run_limits-WithinLimits cents limits results ("s" ∷ "" ∷ "s" ∷ [])
      (aggregate_usage cents results)

aggregate_usage-known_sum_example :
    (aggregate_usage cents results).input_tokens ≡ known_sum plus_ℕ 0 (some 40 ∷ some 60 ∷ [])
aggregate_usage-known_sum_example = (aggregate_usage-known_sum cents results).1
