-- ===== src/Operating/Checks.antt =====
-- `validate_operating_contract` of pipeline/operating_contract.py, and what a safe contract is.
use growth_clockwork.Prelude.{
  keep-members, members-keep, ◌≡◌, refl, ◌↔◌, String, true, false, not, Option, none, List, [], ◌∷◌,
  arith, str_eq, is_in, keep, distinct, sort_texts, sort_texts-none, distinct-none, ap,
}
use growth_clockwork.Operating.{
  Contract, Problem, overlap, missing_proof, required_proof, in_route, first_fault,
  validate_operating_contract,
}

-- No action is both allowed and forbidden; the owner is of the route and no reviewer; exploratory
-- evidence goes with unofficial collection; and no mandatory proof is missing.
pub record IsSafe (route : Option (List String)) (c : Contract) : Type 0 where
  pub disjoint :
      (a : String)
      → is_in a c.authority.allowed_actions ≡ true
      → is_in a c.authority.forbidden_actions ≡ false
  pub owner : str_eq c.outcome_owner "governance-reviewer" ≡ false
  pub routed : in_route route c.outcome_owner ≡ true
  pub graded :
      is_in "exploratory" c.allowed_evidence_grades ≡ c.authority.may_use_unofficial_collection
  pub proved : (x : String) → is_in x required_proof ≡ true → is_in x c.proof_requirements ≡ true

abbrev shared : Contract → List String
shared c = keep (λ a. is_in a c.authority.forbidden_actions) c.authority.allowed_actions

overlap-none : (c : Contract) → overlap c ≡ [] → shared c ≡ []
unfolding overlap
overlap-none c h = distinct-none (shared c) (sort_texts-none (distinct (shared c)) h)

none-overlap : (c : Contract) → shared c ≡ [] → overlap c ≡ []
unfolding overlap distinct sort_texts
none-overlap c h = ap (λ xs. sort_texts (distinct xs)) h

-- The six tests, in their order.
first_fault-cases :
    (route : Option (List String)) (c : Contract)
    → (first_fault route c ≡ none) ↔ (
        (overlap c ≡ [])
        × (str_eq c.outcome_owner "governance-reviewer" ≡ false)
        × (in_route route c.outcome_owner ≡ true)
        × (is_in "exploratory" c.allowed_evidence_grades
            ≡ c.authority.may_use_unofficial_collection)
        × (missing_proof c ≡ []))
unfolding first_fault
first_fault-cases route c = ground arith

first_fault-IsSafe :
    (route : Option (List String)) (c : Contract) → (first_fault route c ≡ none) ↔ IsSafe route c
unfolding missing_proof
first_fault-IsSafe route c =
    let cases = first_fault-cases route c in
    (
      λ h.
          let (o, owner, routed, graded, m) = cases.0 h in
          record {
            disjoint = λ a k.
                keep-members (λ x. is_in x c.authority.forbidden_actions)
                  c.authority.allowed_actions (overlap-none c o) a k;
            owner = owner;
            routed = routed;
            graded = graded;
            proved = λ x k.
                let absent =
                  keep-members (λ y. not (is_in y c.proof_requirements)) required_proof m x k in
                ground arith;
          },
      λ s. cases.1 (
        none-overlap c (
            members-keep (λ x. is_in x c.authority.forbidden_actions) c.authority.allowed_actions
              (s.disjoint)),
        s.owner,
        s.routed,
        s.graded,
        members-keep (λ x. not (is_in x c.proof_requirements)) required_proof
            (λ x k. let present = s.proved x k in ground arith),
      ),
    )

-- No error is raised exactly where the schema finds none and the contract is safe.
pub validate_operating_contract-IsSafe :
    (ps : List Problem) (route : Option (List String)) (c : Contract)
    → (validate_operating_contract ps route c ≡ none) ↔ ((ps ≡ []) × IsSafe route c)
unfolding validate_operating_contract
validate_operating_contract-IsSafe [] route c =
    let k = first_fault-IsSafe route c in (λ h. (refl, k.0 h), λ (e, s). k.1 s)
validate_operating_contract-IsSafe (p ∷ ps) route c = (λ h. ground arith, λ (e, s). ground arith)
