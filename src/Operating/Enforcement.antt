-- ===== src/Operating/Enforcement.antt =====
-- `enforce_run_limits` accepts exactly the runs within their limits.
use growth_clockwork.Prelude.{
  ◌≡◌, refl, ◌↔◌, String, Bool, true, false, none, List, [], ◌∷◌, ◌&&◌, ◌||◌, any, keep, arith, All,
  length, ltb, Bool-cases, inl, inr,
}
use growth_clockwork.Operating.Usage.{
  Money, Usage, TaskResult, Limits, aggregate_usage, over, gtb, exceeded, enforce_resource_limits,
}
use growth_clockwork.Operating.Limits.{
  accepted, is_none, native_codex, unknown_counters, foreign, excessive_attempts, distinct_sources,
  enforce_amounts, enforce_run_limits, Metered, WithinLimits,
}

abbrev is_empty {ℓ} : {A : Type ℓ} → List A → Bool
is_empty [] = true
is_empty (_ ∷ _) = false

module _ (money : Money) where
  Fits : Limits money → Usage money → Type 0
  Fits l t =
      (over gtb t.duration_ms l.max_duration_ms ≡ false)
      × (over gtb t.input_tokens l.max_input_tokens ≡ false)
      × (over gtb t.output_tokens l.max_output_tokens ≡ false)
      × (over (money.exceeds) t.variable_external_cost_eur l.max_variable_external_cost_eur ≡ false)

  enforce_resource_limits-Fits :
      (l : Limits money) (t : Usage money) → (enforce_resource_limits money l t ≡ none) ↔ Fits l t
  unfolding enforce_resource_limits exceeded keep Fits
  enforce_resource_limits-Fits l t = ground arith

  all_known :
      (rs : List (TaskResult money))
      → (unknown_counters money rs ≡ []) ↔ (
          (any (λ r. is_none r.usage.input_tokens) rs ≡ false)
          × (any (λ r. is_none r.usage.output_tokens) rs ≡ false)
          × (any (λ r. is_none r.usage.variable_external_cost_eur) rs ≡ false))
  unfolding unknown_counters keep
  all_known rs = ground arith

  -- The tests over all the results, as conditions on each of them.
  record Checked (l : Limits money) (rs : List (TaskResult money)) : Type 0 where
    attempts : excessive_attempts money l rs ≡ []
    codex : native_codex money l ≡ true → any (foreign money) rs ≡ false
    input : native_codex money l ≡ false → any (λ r. is_none r.usage.input_tokens) rs ≡ false
    output : native_codex money l ≡ false → any (λ r. is_none r.usage.output_tokens) rs ≡ false
    cost :
        native_codex money l ≡ false
        → any (λ r. is_none r.usage.variable_external_cost_eur) rs ≡ false

  Checked-Metered :
      (l : Limits money) (rs : List (TaskResult money)) → Checked l rs → All (Metered money l) rs
  unfolding excessive_attempts keep
  Checked-Metered l [] c = tt
  Checked-Metered l (r ∷ rs) c = (
    record {
      attempts = ground (arith, c.attempts);
      codex = λ h. ground (arith, c.codex h);
      known = λ h. ground (arith, c.input h, c.output h, c.cost h);
    },
    Checked-Metered l rs (record {
      attempts = ground (arith, c.attempts);
      codex = λ h. ground (arith, c.codex h);
      input = λ h. ground (arith, c.input h);
      output = λ h. ground (arith, c.output h);
      cost = λ h. ground (arith, c.cost h);
    }),
  )

  Metered-Checked :
      (l : Limits money) (rs : List (TaskResult money)) → All (Metered money l) rs → Checked l rs
  unfolding excessive_attempts keep
  Metered-Checked l [] c = record {
    attempts = refl;
    codex = λ h. refl;
    input = λ h. refl;
    output = λ h. refl;
    cost = λ h. refl;
  }
  Metered-Checked l (r ∷ rs) (m, ms) =
      let c = Metered-Checked l rs ms in
      record {
        attempts = ground (arith, c.attempts, m.attempts);
        codex = λ h. ground (arith, c.codex h, m.codex h);
        input = λ h. ground (arith, c.input h, m.known h);
        output = λ h. ground (arith, c.output h, m.known h);
        cost = λ h. ground (arith, c.cost h, m.known h);
      }

  -- The four tests of a call in their order, on the values that they test.
  enforce-cases :
      (l : Limits money) (rs : List (TaskResult money)) (refs : List String) (t : Usage money)
      → (enforce_run_limits money l rs refs ≡ accepted t) ↔ (
          (native_codex money l && any (foreign money) rs ≡ false)
          × (native_codex money l || is_empty (unknown_counters money rs) ≡ true)
          × (excessive_attempts money l rs ≡ [])
          × (ltb l.max_sources (length (distinct_sources money refs)) ≡ false)
          × (enforce_resource_limits money l (aggregate_usage money rs) ≡ none)
          × (t ≡ aggregate_usage money rs))
  unfolding enforce_run_limits enforce_amounts
  enforce-cases l rs refs t = ground arith

-- A run is accepted, with its totals, exactly where every result is metered as the contract's
-- policy asks and keeps to the attempts, the distinct sources are not too many, and no known total
-- is over its limit.
pub enforce_run_limits-WithinLimits :
    (money : Money) (l : Limits money) (rs : List (TaskResult money)) (refs : List String)
    (t : Usage money)
    → (enforce_run_limits money l rs refs ≡ accepted t)
      ↔ (WithinLimits money l rs refs × (t ≡ aggregate_usage money rs))
unfolding Fits
enforce_run_limits-WithinLimits money l rs refs t =
    let cases = enforce-cases money l rs refs t in
    let known = all_known money rs in
    let fits = enforce_resource_limits-Fits money l (aggregate_usage money rs) in
    (
      λ h.
          let (codex, metered, attempts, sources, resources, totals) = cases.0 h in
          let f = fits.0 resources in
          (
            record {
              results = Checked-Metered money l rs (record {
                attempts = attempts;
                codex = λ k. ground arith;
                input = λ k. ground arith;
                output = λ k. ground arith;
                cost = λ k. ground arith;
              });
              sources = ground arith;
              duration = f.0;
              input = f.1;
              output = f.2;
              cost = f.3;
            },
            totals,
          ),
      λ (w, totals).
          let c = Metered-Checked money l rs w.results in
          cases.1 (
            elim (Bool-cases (native_codex money l)) [
              | inl k ↦ ground (arith, c.codex k)
              | inr k ↦ ground arith
            ],
            elim (Bool-cases (native_codex money l)) [
              | inl k ↦ ground arith
              | inr k ↦ ground (arith, c.input k, c.output k, c.cost k)
            ],
            c.attempts,
            ground (arith, w.sources),
            fits.1 (w.duration, w.input, w.output, w.cost),
            totals,
          ),
    )
