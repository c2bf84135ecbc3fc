-- ===== src/Operating/Totals.antt =====
-- `aggregate_usage` against its description: a total is unknown exactly where a result does not
-- know the counter, and the sum of all of them otherwise.
use growth_clockwork.Prelude.{
  ◌≡◌, refl, Option, none, some, List, [], ◌∷◌, any, map, ◌∙◌, if◌then◌else◌,
}
use growth_clockwork.Operating.Usage.{
  Money, Usage, TaskResult, add_known, plus_ℕ, add_usage, no_usage, add_results, aggregate_usage,
}
use growth_clockwork.Operating.Limits.{is_none}

module _ {ℓ} {A : Type ℓ} (add : A → A → A) where
  abbrev sum_from : A → List (Option A) → A
  sum_from total [] = total
  sum_from total (none ∷ xs) = sum_from total xs
  sum_from total (some x ∷ xs) = sum_from (add total x) xs

  -- The sum, from a start, of counters that must all be known.
  abbrev pub known_sum : A → List (Option A) → Option A
  known_sum start xs = if any is_none xs then none else some (sum_from start xs)

  abbrev add_all : Option A → List (Option A) → Option A
  add_all total [] = total
  add_all total (x ∷ xs) = add_all (add_known add total x) xs

  add_all-none : (xs : List (Option A)) → add_all none xs ≡ none
  add_all-none [] = refl
  add_all-none (x ∷ xs) = add_all-none xs

  add_all-known_sum :
      (start : A) (xs : List (Option A)) → add_all (some start) xs ≡ known_sum start xs
  add_all-known_sum start [] = refl
  add_all-known_sum start (none ∷ xs) = add_all-none xs
  add_all-known_sum start (some x ∷ xs) = add_all-known_sum (add start x) xs

module _ (money : Money) where
  -- Every field of the totals is folded on its own.
  add_results-fields :
      (t : Usage money) (rs : List (TaskResult money))
      → ((add_results money t rs).duration_ms
          ≡ add_all plus_ℕ t.duration_ms (map (λ (r : TaskResult money). r.usage.duration_ms) rs))
        × ((add_results money t rs).input_tokens
            ≡ add_all plus_ℕ t.input_tokens
                (map (λ (r : TaskResult money). r.usage.input_tokens) rs))
        × ((add_results money t rs).output_tokens
            ≡ add_all plus_ℕ t.output_tokens
                (map (λ (r : TaskResult money). r.usage.output_tokens) rs))
        × ((add_results money t rs).variable_external_cost_eur
            ≡ add_all
                (money.plus)
                t.variable_external_cost_eur
                (map (λ (r : TaskResult money). r.usage.variable_external_cost_eur) rs))
  unfolding add_results add_usage
  add_results-fields t [] = (refl, refl, refl, refl)
  add_results-fields t (r ∷ rs) = add_results-fields (add_usage money t r.usage) rs

-- Each of the four totals is unknown where some result does not know that counter, and otherwise
-- the sum over the results in their order, from zero.
pub aggregate_usage-known_sum :
    (money : Money) (rs : List (TaskResult money))
    → ((aggregate_usage money rs).duration_ms
        ≡ known_sum plus_ℕ 0 (map (λ (r : TaskResult money). r.usage.duration_ms) rs))
      × ((aggregate_usage money rs).input_tokens
          ≡ known_sum plus_ℕ 0 (map (λ (r : TaskResult money). r.usage.input_tokens) rs))
      × ((aggregate_usage money rs).output_tokens
          ≡ known_sum plus_ℕ 0 (map (λ (r : TaskResult money). r.usage.output_tokens) rs))
      × ((aggregate_usage money rs).variable_external_cost_eur
          ≡ known_sum
              (money.plus)
              (money.zero_amount)
              (map (λ (r : TaskResult money). r.usage.variable_external_cost_eur) rs))
unfolding aggregate_usage
aggregate_usage-known_sum money rs =
    let (a, b, c, d) = add_results-fields money (no_usage money) rs in
    (
      a ∙ add_all-known_sum plus_ℕ 0 (map (λ (r : TaskResult money). r.usage.duration_ms) rs),
      b ∙ add_all-known_sum plus_ℕ 0 (map (λ (r : TaskResult money). r.usage.input_tokens) rs),
      c ∙ add_all-known_sum plus_ℕ 0 (map (λ (r : TaskResult money). r.usage.output_tokens) rs),
      d
          ∙ add_all-known_sum (money.plus) (money.zero_amount)
              (map (λ (r : TaskResult money). r.usage.variable_external_cost_eur) rs),
    )
