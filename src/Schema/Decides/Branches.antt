-- ===== src/Schema/Decides/Branches.antt =====
-- `allOf`, `oneOf` and `if` of pipeline/validate_json_suites.py and what they mean.
use growth_clockwork.Prelude.{
  ℕ, suc, ◌≡◌, refl, ap, ◌∙◌, Bool, true, false, [], ◌∷◌, arith, ◌==◌, if◌then◌else◌,
}
use growth_clockwork.Prelude.Int.{pos}
use growth_clockwork.Prelude.Fallible.{Fallible, done, ◌>>=◌}
use growth_clockwork.Json.{Json, num, arr, Items, nil, cons, Fields, get_field}
use growth_clockwork.Schema.{Fault, Place, schema_path, schema_index, when}
use growth_clockwork.Schema.Check.{
  Checker, check_keyword, check_branches, check_each_branch, check_under,
}
use growth_clockwork.Schema.Validate.{
  Errors, Validator, has_no_error, report, validate_each_branch, validate_all_of, count_branches,
  validate_one_of, validate_if, validate_branches, error, selected,
}
use growth_clockwork.Schema.Conforms.{
  Accepts, asks, all_branches_accept, count_accepting, accepts_branches, items_of,
}
use growth_clockwork.Schema.Decides.{
  Decides, Agree, keyword-Decides, collect-Decides, done-Decides, report-Decides, both-done,
}

-- A validation that returns is followed by a computation on whether it has no error.
pub bind-Decides :
    {A : Type 0} (m : Fallible Fault Errors) (b : Bool) (f : Errors → Fallible Fault A) (r : A)
    → Decides m b
    → ((es : Errors) → has_no_error es ≡ b → f es ≡ done r)
    → m >>= f ≡ done r
bind-Decides m b f r (es, returns, decides) next = ap (λ n. n >>= f) returns ∙ next es decides

-- The count goes on with one more where there is no error.
pub count_one :
    (es : Errors) (b : Bool) (m : Fallible Fault ℕ) (n : ℕ)
    → has_no_error es ≡ b
    → m ≡ done n
    → m >>= (λ k. done (if has_no_error es then suc k else k)) ≡ done (if b then suc n else n)
count_one es b m n h k = ground arith

one_matching : Place → Place → ℕ → Fallible Fault Errors
one_matching ip sp n =
    report (n == 1)
      (error ip sp "oneOf" "expected exactly one matching branch, found {}" (num (pos n) ∷ []))

module _ (chk : Checker) (val : Validator) (acc : Accepts) (agree : Agree chk val acc) where
  each_branch-Decides :
      (at : Place) (v : Json) (ip sp : Place) (i : ℕ) (subs : Items)
      → check_each_branch chk at i subs ≡ done tt
      → (place : Place)
      → Decides (validate_each_branch val v ip place i subs) (all_branches_accept acc v subs)
  unfolding check_each_branch validate_each_branch all_branches_accept
  each_branch-Decides at v ip sp i nil h place = done-Decides
  each_branch-Decides at v ip sp i (cons sub subs) h place =
      let (first, rest) =
        both-done (chk (schema_index at i) sub) (check_each_branch chk at (suc i) subs) h in
      collect-Decides _ _ _ _ (agree sub (schema_index at i) first v ip (schema_index place i))
        (each_branch-Decides at v ip sp (suc i) subs rest place)

  count-branches :
      (at : Place) (v : Json) (ip sp : Place) (i : ℕ) (subs : Items)
      → check_each_branch chk at i subs ≡ done tt
      → count_branches val v ip sp i subs ≡ done (count_accepting acc v subs)
  unfolding check_each_branch count_branches count_accepting
  count-branches at v ip sp i nil h = refl
  count-branches at v ip sp i (cons sub subs) h =
      let (first, rest) =
        both-done (chk (schema_index at i) sub) (check_each_branch chk at (suc i) subs) h in
      bind-Decides (val v sub ip (schema_index sp i)) (acc v sub)
        (λ es.
          count_branches val v ip sp (suc i) subs
          >>= (λ k. done (if has_no_error es then suc k else k)))
        (if acc v sub then suc (count_accepting acc v subs) else count_accepting acc v subs)
        (agree sub (schema_index at i) first v ip (schema_index sp i))
        (λ es e.
          count_one es (acc v sub) (count_branches val v ip sp (suc i) subs)
            (count_accepting acc v subs) e (count-branches at v ip sp (suc i) subs rest))

  all_of-Decides :
      (at : Place) (v : Json) (ip sp : Place) (subs : Json)
      → check_branches chk at "allOf" subs ≡ done tt
      → Decides (validate_all_of val v ip sp subs) (all_branches_accept acc v (items_of subs))
  unfolding check_branches validate_all_of
  all_of-Decides at v ip sp (arr (cons sub subs)) h =
      each_branch-Decides (schema_path at "allOf") v ip sp 0 (cons sub subs) h
        (schema_path sp "allOf")
  all_of-Decides at v ip sp _ h = ground arith

  one_of-Decides :
      (at : Place) (v : Json) (ip sp : Place) (subs : Json)
      → check_branches chk at "oneOf" subs ≡ done tt
      → Decides (validate_one_of val v ip sp subs) (count_accepting acc v (items_of subs) == 1)
  unfolding check_branches validate_one_of one_matching
  one_of-Decides at v ip sp (arr (cons sub subs)) h =
      let n = count_accepting acc v (cons sub subs) in
      let counted =
        count-branches (schema_path at "oneOf") v ip (schema_path sp "oneOf") 0 (cons sub subs) h in
      let (es, returns, decides) =
        report-Decides (n == 1) (
          error ip sp "oneOf" "expected exactly one matching branch, found {}"
            (num (pos n) ∷ [])) in
      (es, ap (λ m. m >>= one_matching ip sp) counted ∙ returns, decides)
  one_of-Decides at v ip sp _ h = ground arith

  abbrev Chosen : Place → Json → Fields → Place → Place → Bool → Type 0
  Chosen at v fs ip sp b =
      Decides
        (when (get_field (selected b) fs) (done [])
          (λ chosen. val v chosen ip (schema_path sp (selected b))))
        (asks (selected b) fs (acc v))

  selected-Decides :
      (at : Place) (v : Json) (fs : Fields) (ip sp : Place)
      → check_under chk at fs "then" ≡ done tt
      → check_under chk at fs "else" ≡ done tt
      → (b : Bool) → Chosen at v fs ip sp b
  selected-Decides at v fs ip sp first second true =
      keyword-Decides "then" fs (chk (schema_path at "then"))
        (λ chosen. val v chosen ip (schema_path sp "then")) (acc v) first
        (λ c h. agree c (schema_path at "then") h v ip (schema_path sp "then"))
  selected-Decides at v fs ip sp first second false =
      keyword-Decides "else" fs (chk (schema_path at "else"))
        (λ chosen. val v chosen ip (schema_path sp "else")) (acc v) second
        (λ c h. agree c (schema_path at "else") h v ip (schema_path sp "else"))

  if-Decides :
      (at : Place) (v : Json) (fs : Fields) (ip sp : Place) (sub : Json)
      → chk (schema_path at "if") sub ≡ done tt
      → check_under chk at fs "then" ≡ done tt
      → check_under chk at fs "else" ≡ done tt
      → Decides (validate_if val v fs ip sp sub) (asks (selected (acc v sub)) fs (acc v))
  unfolding validate_if
  if-Decides at v fs ip sp sub h first second =
      let (es, returns, decides) = agree sub (schema_path at "if") h v ip (schema_path sp "if") in
      let (more, goes_on, holds) = selected-Decides at v fs ip sp first second (has_no_error es) in
      (
        more,
        ap
              (λ m. m >>= λ es.
                when (get_field (selected (has_no_error es)) fs) (done [])
                  (λ chosen. val v chosen ip (schema_path sp (selected (has_no_error es)))))
              returns
            ∙ goes_on,
        holds ∙ ap (λ b. asks (selected b) fs (acc v)) decides,
      )

  pub branches-Decides :
      (at : Place) (v : Json) (fs : Fields) (ip sp : Place)
      → check_keyword "allOf" fs (check_branches chk at "allOf") ≡ done tt
      → check_keyword "oneOf" fs (check_branches chk at "oneOf") ≡ done tt
      → check_under chk at fs "if" ≡ done tt
      → check_under chk at fs "then" ≡ done tt
      → check_under chk at fs "else" ≡ done tt
      → Decides (validate_branches val v fs ip sp) (accepts_branches acc v fs)
  unfolding validate_branches accepts_branches
  branches-Decides at v fs ip sp all one condition first second =
      collect-Decides _ _ _ _
        (keyword-Decides "allOf" fs (check_branches chk at "allOf") (validate_all_of val v ip sp)
          (λ subs. all_branches_accept acc v (items_of subs)) all (all_of-Decides at v ip sp))
        (collect-Decides _ _ _ _
          (keyword-Decides "oneOf" fs (check_branches chk at "oneOf") (validate_one_of val v ip sp)
            (λ subs. count_accepting acc v (items_of subs) == 1) one (one_of-Decides at v ip sp))
          (keyword-Decides "if" fs (chk (schema_path at "if")) (validate_if val v fs ip sp)
            (λ sub. asks (selected (acc v sub)) fs (acc v)) condition
            (λ sub h. if-Decides at v fs ip sp sub h first second)))
