-- ===== src/Schema/Decides/Array.antt =====
-- The keywords for lists of pipeline/validate_json_suites.py and what they mean.
use growth_clockwork.Prelude.{
  ℕ, suc, ◌≡◌, refl, ap, ◌∙◌, Bool, true, false, not, ◌&&◌, ◌||◌, Option, none, some, [], ◌∷◌,
  arith, if◌then◌else◌, Bool-cases, inl, inr,
}
use growth_clockwork.Prelude.Int.{pos, negsuc, ltb_ℤ}
use growth_clockwork.Prelude.Fallible.{Fallible, done, ◌>>=◌, check}
use growth_clockwork.Json.{
  Json, null, bool, num, str, arr, obj, Items, nil, cons, Fields, get_field,
}
use growth_clockwork.Schema.{
  Fault, Place, ValidationError, schema_path, item_path, when, is_greater, is_nonnegative_integer,
}
use growth_clockwork.Schema.Equal.{is_among}
use growth_clockwork.Schema.Check.{Checker, check_count, check_under}
use growth_clockwork.Schema.Validate.{
  Validator, has_no_error, report, not_below, not_above, item_count, duplicate_error,
  validate_unique, validate_items, count_matches, default_minimum, above, is_outside,
  validate_contains, validate_array, is_true,
}
use growth_clockwork.Schema.Conforms.{
  Accepts, asks, reaches, keeps_to, are_distinct, all_items_accept, count_accepted, minimum_matches,
  accepts_array,
}
use growth_clockwork.Schema.Decides.{
  Decides, Agree, keyword-Decides, collect-Decides, done-Decides, found-Decides,
}
use growth_clockwork.Schema.Decides.Scalar.{not_below_count, not_above_count}
use growth_clockwork.Schema.Decides.Branches.{bind-Decides, count_one}

duplicate-none :
    (ip sp : Place) (i : ℕ) (priors vs : Items)
    → has_no_error (duplicate_error ip sp i priors vs) ≡ are_distinct priors vs
unfolding duplicate_error are_distinct
duplicate-none ip sp i priors nil = refl
duplicate-none ip sp i priors (cons v vs) = elim (Bool-cases (is_among v priors)) [
  | inl e ↦ ground arith
  | inr e ↦ ground (arith, duplicate-none ip sp (suc i) (cons v priors) vs)
]

unique-Decides :
    (vs : Items) (ip sp : Place) (v : Json)
    → Decides (validate_unique vs ip sp v) (not (is_true v) || are_distinct nil vs)
unfolding validate_unique
unique-Decides vs ip sp (bool true) =
    (duplicate_error ip sp 0 nil vs, refl, duplicate-none ip sp 0 nil vs)
unique-Decides vs ip sp (bool false) = done-Decides
unique-Decides vs ip sp null = done-Decides
unique-Decides vs ip sp (num n) = done-Decides
unique-Decides vs ip sp (str s) = done-Decides
unique-Decides vs ip sp (arr us) = done-Decides
unique-Decides vs ip sp (obj fs) = done-Decides

-- A limit that the check of a schema has passed, or that the schema does not have.
abbrev CountLimit : Option Json → Fault → Type 0
CountLimit o e = when o (done tt) (λ v. check (is_nonnegative_integer v) e) ≡ done tt

minimum-is_greater :
    (n : ℕ) (o : Option Json) (e : Fault)
    → CountLimit o e
    → is_greater (default_minimum o) (num (pos n)) ≡ done (ltb_ℤ (pos n) (minimum_matches o))
unfolding is_greater
minimum-is_greater n none e h = refl
minimum-is_greater n (some (num (pos m))) e h = refl
minimum-is_greater n (some (num (negsuc m))) e h = refl
minimum-is_greater n (some _) e h = ground arith

maximum-above :
    (n : ℕ) (o : Option Json) (e : Fault)
    → CountLimit o e
    → above (num (pos n)) o ≡ done (not (when o true (keeps_to (pos n))))
unfolding is_greater
maximum-above n none e h = refl
maximum-above n (some (num (pos m))) e h = ground arith
maximum-above n (some (num (negsuc m))) e h = ground arith
maximum-above n (some _) e h = ground arith

outside-limits :
    (n : ℕ) (low high : Option Json) (d e : Fault)
    → CountLimit low d
    → CountLimit high e
    → is_outside (num (pos n)) (default_minimum low) high
      ≡ done (not (not (ltb_ℤ (pos n) (minimum_matches low)) && when high true (keeps_to (pos n))))
unfolding is_outside
outside-limits n low high d e h k =
    either (is_greater (default_minimum low) (num (pos n))) (above (num (pos n)) high)
      (ltb_ℤ (pos n) (minimum_matches low)) (when high true (keeps_to (pos n)))
      (minimum-is_greater n low d h) (maximum-above n high e k)
  where
    either :
        (m k : Fallible Fault Bool) (a b : Bool)
        → m ≡ done a
        → k ≡ done (not b)
        → (m >>= λ (low : Bool). if low then done true else k) ≡ done (not (not a && b))
    either m k a b h g = ground arith

reported-Decides :
    (m : Fallible Fault ℕ) (n : ℕ) (outside : ℕ → Fallible Fault Bool) (b : Bool)
    (e : ℕ → ValidationError)
    → m ≡ done n
    → outside n ≡ done (not b)
    → Decides (m >>= λ k. outside k >>= λ o. report (not o) (e k)) b
reported-Decides m n outside true e h k = (
  [],
  ap (λ m. m >>= λ k. outside k >>= λ o. report (not o) (e k)) h
      ∙ ap (λ o. o >>= λ o. report (not o) (e n)) k,
  refl,
)
reported-Decides m n outside false e h k = (
  e n ∷ [],
  ap (λ m. m >>= λ k. outside k >>= λ o. report (not o) (e k)) h
      ∙ ap (λ o. o >>= λ o. report (not o) (e n)) k,
  refl,
)

module _ (chk : Checker) (val : Validator) (acc : Accepts) (agree : Agree chk val acc) where
  items-Decides :
      (at ip sp : Place) (sub : Json)
      → chk at sub ≡ done tt
      → (i : ℕ) (vs : Items)
      → Decides (validate_items val ip sp i vs sub) (all_items_accept acc vs sub)
  unfolding validate_items all_items_accept
  items-Decides at ip sp sub h i nil = done-Decides
  items-Decides at ip sp sub h i (cons v vs) =
      collect-Decides _ _ _ _ (agree sub at h v (item_path ip i) (schema_path sp "items"))
        (items-Decides at ip sp sub h (suc i) vs)

  count-matches :
      (at ip sp : Place) (sub : Json)
      → chk at sub ≡ done tt
      → (i : ℕ) (vs : Items) → count_matches val ip sp i vs sub ≡ done (count_accepted acc vs sub)
  unfolding count_matches count_accepted
  count-matches at ip sp sub h i nil = refl
  count-matches at ip sp sub h i (cons v vs) =
      bind-Decides (val v sub (item_path ip i) (schema_path sp "contains")) (acc v sub)
        (λ es.
          count_matches val ip sp (suc i) vs sub
          >>= (λ k. done (if has_no_error es then suc k else k)))
        (if acc v sub then suc (count_accepted acc vs sub) else count_accepted acc vs sub)
        (agree sub at h v (item_path ip i) (schema_path sp "contains"))
        (λ es e.
          count_one es (acc v sub) (count_matches val ip sp (suc i) vs sub)
            (count_accepted acc vs sub) e (count-matches at ip sp sub h (suc i) vs))

  abbrev enough : Items → Fields → Json → Bool
  enough vs fs sub =
      not (ltb_ℤ (pos (count_accepted acc vs sub)) (minimum_matches (get_field "minContains" fs)))
      && asks "maxContains" fs (keeps_to (pos (count_accepted acc vs sub)))

  contains-Decides :
      (at : Place) (vs : Items) (fs : Fields) (ip sp : Place) (sub : Json)
      → chk (schema_path at "contains") sub ≡ done tt
      → check_count at fs "minContains" ≡ done tt
      → check_count at fs "maxContains" ≡ done tt
      → Decides (validate_contains val vs fs ip sp sub) (enough vs fs sub)
  unfolding validate_contains
  contains-Decides at vs fs ip sp sub h low high =
      reported-Decides (count_matches val ip sp 0 vs sub) (count_accepted acc vs sub)
        (λ n.
          is_outside (num (pos n)) (default_minimum (get_field "minContains" fs))
            (get_field "maxContains" fs))
        (enough vs fs sub) _ (count-matches (schema_path at "contains") ip sp sub h 0 vs)
        (outside-limits (count_accepted acc vs sub) (get_field "minContains" fs)
          (get_field "maxContains" fs) _ _ low high)

  pub array-Decides :
      (at : Place) (vs : Items) (fs : Fields) (ip sp : Place)
      → check_count at fs "minItems" ≡ done tt
      → check_count at fs "maxItems" ≡ done tt
      → check_under chk at fs "items" ≡ done tt
      → check_under chk at fs "contains" ≡ done tt
      → check_count at fs "minContains" ≡ done tt
      → check_count at fs "maxContains" ≡ done tt
      → Decides (validate_array val vs fs ip sp) (accepts_array acc vs fs)
  unfolding validate_array accepts_array
  array-Decides at vs fs ip sp low high each some_item least most =
      let size = pos (item_count vs) in
      collect-Decides _ _ _ _
        (keyword-Decides "minItems" fs _
          (not_below "minItems" "expected at least {} item(s)" ip sp (num size)) (reaches size) low
          (not_below_count "minItems" "expected at least {} item(s)" ip sp size _))
        (collect-Decides _ _ _ _
          (keyword-Decides "maxItems" fs _
            (not_above "maxItems" "expected at most {} item(s)" ip sp (num size)) (keeps_to size)
            high (not_above_count "maxItems" "expected at most {} item(s)" ip sp size _))
          (collect-Decides _ _ _ _
            (found-Decides (get_field "uniqueItems" fs) (validate_unique vs ip sp)
              (λ v. not (is_true v) || are_distinct nil vs) (λ v e. unique-Decides vs ip sp v))
            (collect-Decides _ _ _ _
              (keyword-Decides "items" fs (chk (schema_path at "items"))
                (validate_items val ip sp 0 vs) (all_items_accept acc vs) each
                (λ sub h. items-Decides (schema_path at "items") ip sp sub h 0 vs))
              (keyword-Decides "contains" fs (chk (schema_path at "contains"))
                (validate_contains val vs fs ip sp) (enough vs fs) some_item
                (λ sub h. contains-Decides at vs fs ip sp sub h least most)))))
