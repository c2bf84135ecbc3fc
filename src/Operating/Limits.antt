-- ===== src/Operating/Limits.antt =====
-- `enforce_run_limits` of pipeline/operating_contract.py, and what a run within its limits is.
use growth_clockwork.Prelude.{
  ◌≤◌, ◌≡◌, String, Bool, true, false, Option, none, some, List, [], ◌∷◌, not, ◌&&◌, ◌||◌, str_eq,
  ltb, length, any, map, keep, distinct, sort_texts, if◌then◌else◌, All,
}
use growth_clockwork.Operating.{
  OperatingContractError, not_native_codex, unmetered, attempts_exceeded, sources_exceeded,
}
use growth_clockwork.Operating.Usage.{
  Money, Usage, TaskResult, Limits, aggregate_usage, over, gtb, enforce_resource_limits,
}

pub data Outcome {ℓ} (A : Type ℓ) : Type ℓ where
  accepted : A → Outcome A
  refused : OperatingContractError → Outcome A

abbrev pub is_none {ℓ} : {A : Type ℓ} → Option A → Bool
is_none none = true
is_none (some _) = false

abbrev pub is_provider : String → Option String → Bool
is_provider name none = false
is_provider name (some p) = str_eq p name

module _ (money : Money) where
  abbrev pub costs_nothing : Option (money.Amount) → Bool
  costs_nothing none = false
  costs_nothing (some a) = not (money.is_nonzero a)

  abbrev pub native_codex : Limits money → Bool
  native_codex l = is_provider "codex_subscription" l.usage_policy

  -- The counters that some result does not know, in their order.
  unfoldable pub unknown_counters : List (TaskResult money) → List String
  unknown_counters rs =
      map (λ (c : String × Bool). c.0)
        (keep (λ (c : String × Bool). c.1)
          (("input_tokens", any (λ r. is_none r.usage.input_tokens) rs)
            ∷ ("output_tokens", any (λ r. is_none r.usage.output_tokens) rs)
            ∷ (
              "variable_external_cost_eur",
              any (λ r. is_none r.usage.variable_external_cost_eur) rs,
            )
            ∷ []))

  abbrev pub foreign : TaskResult money → Bool
  foreign r =
      not (is_provider "codex" r.provider) || not (costs_nothing r.usage.variable_external_cost_eur)

  unfoldable pub excessive_attempts : Limits money → List (TaskResult money) → List String
  excessive_attempts l rs =
      map (λ (r : TaskResult money). r.task_id)
        (keep (λ (r : TaskResult money). gtb r.attempts l.max_attempts_per_task) rs)

  unfoldable pub distinct_sources : List String → List String
  distinct_sources refs = distinct (keep (λ ref. not (str_eq ref "")) refs)

  -- The limits, once the checks of the counters have passed.
  unfoldable pub enforce_amounts :
      Limits money → List (TaskResult money) → List String → Outcome (Usage money)
  enforce_amounts l rs refs =
      let totals = aggregate_usage money rs in
      let limits = enforce_resource_limits money l totals in
      let many = excessive_attempts l rs in
      let sources = distinct_sources refs in
      elim many [
        | x ∷ xs ↦ refused (attempts_exceeded (sort_texts (x ∷ xs)))
        | [] ↦
            if ltb l.max_sources (length sources)
            then refused sources_exceeded
            else elim limits [ none ↦ accepted totals | some e ↦ refused e ]
      ]

  unfoldable pub enforce_run_limits :
      Limits money → List (TaskResult money) → List String → Outcome (Usage money)
  enforce_run_limits l rs refs =
      let rest = enforce_amounts l rs refs in
      let unknown = unknown_counters rs in
      if native_codex l && any foreign rs then refused not_native_codex else elim unknown [
        | [] ↦ rest
        | x ∷ xs ↦ if native_codex l then rest else refused (unmetered (x ∷ xs))
      ]

  -- What a contract asks of one result.
  pub record Metered (l : Limits money) (r : TaskResult money) : Type 0 where
    pub attempts : r.attempts ≤ l.max_attempts_per_task
    pub codex :
        native_codex l ≡ true
        → (is_provider "codex" r.provider ≡ true)
          × (costs_nothing r.usage.variable_external_cost_eur ≡ true)
    pub known :
        native_codex l ≡ false
        → (is_none r.usage.input_tokens ≡ false)
          × (is_none r.usage.output_tokens ≡ false)
          × (is_none r.usage.variable_external_cost_eur ≡ false)

  -- A run within its limits.
  pub record WithinLimits (l : Limits money) (rs : List (TaskResult money)) (refs : List String)
      : Type 0 where
    pub results : All (Metered l) rs
    pub sources : length (distinct_sources refs) ≤ l.max_sources
    pub duration : over gtb (aggregate_usage money rs).duration_ms l.max_duration_ms ≡ false
    pub input : over gtb (aggregate_usage money rs).input_tokens l.max_input_tokens ≡ false
    pub output : over gtb (aggregate_usage money rs).output_tokens l.max_output_tokens ≡ false
    pub cost :
        over
          (money.exceeds)
          (aggregate_usage money rs).variable_external_cost_eur
          l.max_variable_external_cost_eur
        ≡ false
