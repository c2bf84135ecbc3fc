-- ===== src/Operating/Usage.antt =====
-- `aggregate_usage`, `enforce_resource_limits` and `enforce_run_limits` of
-- pipeline/operating_contract.py. Amounts of money are Python floats: the operations that the code
-- uses on them are an argument, with no law assumed.
use growth_clockwork.Prelude.{
  ℕ, ◌+◌, String, Bool, false, Option, none, some, List, [], ◌∷◌, ltb, map, keep,
}
use growth_clockwork.Operating.{OperatingContractError, resources_exceeded}

-- `0.0`, `+`, `>` and `!= 0` of a float.
pub record Money : Type 1 where
  pub Amount : Type 0
  pub zero_amount : Amount
  pub plus : Amount → Amount → Amount
  pub exceeds : Amount → Amount → Bool
  pub is_nonzero : Amount → Bool

module _ (money : Money) where
  -- `result["usage"]`, and the totals: `none` where a counter is unknown.
  pub record Usage : Type 0 where
    pub duration_ms : Option ℕ
    pub input_tokens : Option ℕ
    pub output_tokens : Option ℕ
    pub variable_external_cost_eur : Option (money.Amount)

  -- `provider` is `result.get("provenance", {}).get("provider")`.
  pub record TaskResult : Type 0 where
    pub task_id : String
    pub attempts : ℕ
    pub provider : Option String
    pub usage : Usage

  pub record Limits : Type 0 where
    pub max_duration_ms : ℕ
    pub max_input_tokens : ℕ
    pub max_output_tokens : ℕ
    pub max_variable_external_cost_eur : money.Amount
    pub max_attempts_per_task : ℕ
    pub max_sources : ℕ
    pub usage_policy : Option String

-- One step of the loop on one field: an unknown counter makes the total unknown for good.
abbrev pub add_known {ℓ} : {A : Type ℓ} → (A → A → A) → Option A → Option A → Option A
add_known add (some total) (some x) = some (add total x)
add_known add _ _ = none

abbrev pub plus_ℕ : ℕ → ℕ → ℕ
plus_ℕ a b = a + b

module _ (money : Money) where
  unfoldable pub add_usage : Usage money → Usage money → Usage money
  add_usage t u = record {
    duration_ms = add_known plus_ℕ t.duration_ms u.duration_ms;
    input_tokens = add_known plus_ℕ t.input_tokens u.input_tokens;
    output_tokens = add_known plus_ℕ t.output_tokens u.output_tokens;
    variable_external_cost_eur =
        add_known (money.plus) t.variable_external_cost_eur u.variable_external_cost_eur;
  }

  abbrev pub no_usage : Usage money
  no_usage = record {
    duration_ms = some 0;
    input_tokens = some 0;
    output_tokens = some 0;
    variable_external_cost_eur = some (money.zero_amount);
  }

  -- The loop of `aggregate_usage` from given totals.
  unfoldable pub add_results : Usage money → List (TaskResult money) → Usage money
  add_results t [] = t
  add_results t (r ∷ rs) = add_results (add_usage t r.usage) rs

  unfoldable pub aggregate_usage : List (TaskResult money) → Usage money
  aggregate_usage rs = add_results no_usage rs

abbrev pub over {ℓ} : {A : Type ℓ} → (A → A → Bool) → Option A → A → Bool
over gt none limit = false
over gt (some total) limit = gt total limit

abbrev pub gtb : ℕ → ℕ → Bool
gtb a b = ltb b a

module _ (money : Money) where
  -- The four comparisons, with the names of their counters.
  abbrev pub comparisons : Limits money → Usage money → List (String × Bool)
  comparisons l t =
      ("duration_ms", over gtb t.duration_ms l.max_duration_ms)
      ∷ ("input_tokens", over gtb t.input_tokens l.max_input_tokens)
      ∷ ("output_tokens", over gtb t.output_tokens l.max_output_tokens)
      ∷ (
        "variable_external_cost_eur",
        over (money.exceeds) t.variable_external_cost_eur l.max_variable_external_cost_eur,
      )
      ∷ []

  unfoldable pub exceeded : Limits money → Usage money → List String
  exceeded l t =
      map (λ (c : String × Bool). c.0) (keep (λ (c : String × Bool). c.1) (comparisons l t))

  -- The error that `enforce_resource_limits` raises.
  unfoldable pub enforce_resource_limits :
      Limits money → Usage money → Option OperatingContractError
  enforce_resource_limits l t = elim (exceeded l t) [
    | [] ↦ none
    | x ∷ xs ↦ some (resources_exceeded (x ∷ xs))
  ]
