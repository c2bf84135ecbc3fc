-- ===== src/Operating.antt =====
-- pipeline/operating_contract.py: the semantic checks of one operating contract, and the limits of
-- a run under it. The fields that the checks read are records here; the schema's verdict, which
-- `validate_registered_instance` gives, is an argument.
mod Examples
pub mod Checks
pub mod Usage
pub mod Limits
pub mod Enforcement
pub mod Totals
use growth_clockwork.Prelude.{
  String, Bool, true, false, Option, none, some, List, [], ◌∷◌, not, ◌&&◌, str_eq, is_in, keep,
  distinct, sort_texts, if◌then◌else◌,
}

-- `contract["authority"]`
pub record Authority : Type 0 where
  pub allowed_actions : List String
  pub forbidden_actions : List String
  pub may_use_unofficial_collection : Bool

pub record Contract : Type 0 where
  pub authority : Authority
  pub outcome_owner : String
  pub allowed_evidence_grades : List String
  pub proof_requirements : List String

-- `instance_path` and `message` of a schema error.
pub record Problem : Type 0 where
  pub instance_path : String
  pub message : String

-- `OperatingContractError`, one constructor for each message.
pub data OperatingContractError : Type 0 where
  rejected : Problem → OperatingContractError
  both_allowed_and_forbidden : List String → OperatingContractError
  governance_owner : OperatingContractError
  owner_not_in_route : OperatingContractError
  unofficial_needs_exploratory : OperatingContractError
  exploratory_needs_unofficial : OperatingContractError
  lacks_proof : List String → OperatingContractError
  not_native_codex : OperatingContractError
  unmetered : List String → OperatingContractError
  attempts_exceeded : List String → OperatingContractError
  sources_exceeded : OperatingContractError
  resources_exceeded : List String → OperatingContractError

-- `sorted(allowed & forbidden)`
unfoldable pub overlap : Contract → List String
overlap c =
    sort_texts
      (distinct (keep (λ a. is_in a c.authority.forbidden_actions) c.authority.allowed_actions))

abbrev pub required_proof : List String
required_proof =
    "governance_verdict" ∷ "human_exact_revision" ∷ "professional_contract_checks" ∷ "source_hashes"
    ∷ []

-- `sorted(required_proof - set(contract["proof_requirements"]))`: the required ones are in order.
unfoldable pub missing_proof : Contract → List String
missing_proof c = keep (λ x. not (is_in x c.proof_requirements)) required_proof

abbrev pub in_route : Option (List String) → String → Bool
in_route none owner = true
in_route (some roles) owner = is_in owner roles

-- The first check that fails, from a contract that the schema accepts.
unfoldable pub first_fault : Option (List String) → Contract → Option OperatingContractError
unfolding overlap missing_proof
first_fault route c =
    let unofficial = c.authority.may_use_unofficial_collection in
    let exploratory = is_in "exploratory" c.allowed_evidence_grades in
    let shared = overlap c in
    let missing = missing_proof c in
    elim shared [
      | x ∷ xs ↦ some (both_allowed_and_forbidden (x ∷ xs))
      | [] ↦
          if str_eq c.outcome_owner "governance-reviewer"
          then some governance_owner
          else if not (in_route route c.outcome_owner)
          then some owner_not_in_route
          else if unofficial && not exploratory
          then some unofficial_needs_exploratory
          else if not unofficial && exploratory
          then some exploratory_needs_unofficial
          else elim missing [ [] ↦ none | m ∷ ms ↦ some (lacks_proof (m ∷ ms)) ]
    ]

-- `validate_operating_contract`: the error that it raises, with the schema's errors given.
unfoldable pub validate_operating_contract :
    List Problem → Option (List String) → Contract → Option OperatingContractError
validate_operating_contract [] route c = first_fault route c
validate_operating_contract (p ∷ ps) route c = some (rejected p)
