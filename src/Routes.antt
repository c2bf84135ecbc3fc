-- ===== src/Routes.antt =====
-- pipeline/agent_registry.py: the nodes of a route, the check that they have no cycle, and the
-- projection of a route to the steps that a plan activates.
pub mod Acyclic
pub mod Fuel
pub mod Activation
pub mod Decisions
pub mod Plans
pub mod Entries
pub mod Decided
mod Examples
use growth_clockwork.Prelude.{
  ℕ, zero, suc, ◌+◌, String, Bool, true, false, Option, none, some, List, [], ◌∷◌, not, ◌&&◌, ◌||◌,
  str_eq, ltb, leb, ◌==◌, length, all, codes, map, is_in, keep, distinct, sort_texts, is_blank,
  if◌then◌else◌,
}
use growth_clockwork.Json.{Json, str, arr, obj, Items, nil, cons, Fields, get_field, has_exactly}

pub record RouteNode : Type 0 where
  pub node_id : String
  pub role_id : String
  pub depends_on : List String
  pub objective : String
  pub output_contract : String
  pub deliverable_contract : String
  pub allowed_write_roots : List String
  pub optional : Bool
  pub run_when : String

-- Without the artifact, which the projection passes on.
pub record RouteContract : Type 0 where
  pub route_id : String
  pub context_requirements : List String
  pub nodes : List RouteNode
  pub final_product_contract : String
  pub final_product_node : String
  pub governance_node : String
  pub max_concurrent_workhorses : ℕ
  pub only_independent_nodes : Bool

-- `AgentRegistryError` by its messages, and any other exception by its class. `out_of_fuel` is an
-- answer of the model alone, which is proved not to arise.
pub data RouteError : Type 0 where
  dependency_cycle : RouteError
  unknown_steps : List String → RouteError
  required_steps : List String → RouteError
  skips_product : RouteError
  skips_governance : RouteError
  undecided : RouteError
  not_an_array : RouteError
  not_an_object : RouteError
  invalid_entry : RouteError
  not_portable : RouteError
  duplicate_decision : String → RouteError
  not_optional : String → RouteError
  invalid_decision : String → RouteError
  empty_reason : String → RouteError
  missing_decisions : List String → RouteError
  uncaught : String → RouteError
  out_of_fuel : RouteError

pub data Checked {ℓ} (A : Type ℓ) : Type ℓ where
  done : A → Checked A
  failed : RouteError → Checked A

infixl 5 ◌>>=◌
abbrev pub ◌>>=◌ : {A B : Type 0} → Checked A → (A → Checked B) → Checked B
◌>>=◌ (done a) f = f a
◌>>=◌ (failed e) f = failed e

-- `by_id.get(node_id)`: the last node of that name.
abbrev pub find_node : String → List RouteNode → Option RouteNode
find_node i [] = none
find_node i (n ∷ ns) = elim (find_node i ns) [
  | none ↦ (if str_eq n.node_id i then some n else none)
  | some m ↦ some m
]

-- `for dependency in dependencies: visit(dependency)`
unfoldable pub visit_each :
    (List String → String → Checked (List String))
    → List String
    → List String
    → Checked (List String)
visit_each step visited [] = done visited
visit_each step visited (d ∷ ds) = step visited d >>= λ vs. visit_each step vs ds

-- The dependencies of a node that was looked up, then the node itself.
unfoldable pub visit_node :
    (List String → String → Checked (List String))
    → List String
    → String
    → Option RouteNode
    → Checked (List String)
visit_node step visited i none = failed (uncaught "KeyError")
visit_node step visited i (some n) = visit_each step visited n.depends_on >>= λ vs. done (i ∷ vs)

-- `visit`, with `visiting` as the stack of the nodes that are being visited; the result is
-- `visited`, the last node first.
unfoldable pub visit :
    ℕ → List RouteNode → List String → List String → String → Checked (List String)
visit zero nodes visiting visited i = failed out_of_fuel
visit (suc f) nodes visiting visited i =
    let step = visit f nodes (i ∷ visiting) in
    if is_in i visiting
    then failed dependency_cycle
    else if is_in i visited
    then done visited
    else visit_node step visited i (find_node i nodes)

abbrev pub node_ids : List RouteNode → List String
node_ids [] = []
node_ids (n ∷ ns) = n.node_id ∷ node_ids ns

-- `_check_acyclic`, with a round of fuel for each node and one more.
unfoldable pub check_acyclic : List RouteNode → Checked (List String)
check_acyclic nodes = visit_each (visit (length nodes + 1) nodes []) [] (node_ids nodes)

abbrev pub required_ids : List RouteNode → List String
required_ids ns = node_ids (keep (λ (n : RouteNode). not n.optional) ns)

abbrev pub optional_ids : List RouteNode → List String
optional_ids ns = node_ids (keep (λ (n : RouteNode). n.optional) ns)

-- `sorted(xs - ys)`
unfoldable pub difference : List String → List String → List String
difference xs ys = sort_texts (distinct (keep (λ x. not (is_in x ys)) xs))

-- A node with its skipped dependencies removed.
abbrev pub project_node : List String → RouteNode → RouteNode
project_node active n = record n { depends_on = keep (λ d. is_in d active) n.depends_on }

unfoldable pub project_nodes : List String → List RouteNode → List RouteNode
project_nodes active ns =
    map (project_node active) (keep (λ (n : RouteNode). is_in n.node_id active) ns)

-- `if names: raise AgentRegistryError(... names ...)`
abbrev pub none_of : List String → (List String → RouteError) → Checked (Unit {0})
none_of [] e = done tt
none_of (x ∷ xs) e = failed (e (x ∷ xs))

abbrev pub check : Bool → RouteError → Checked (Unit {0})
check true e = done tt
check false e = failed e

unfoldable pub route_with_active_nodes : RouteContract → List String → Checked RouteContract
route_with_active_nodes route active = do
  _ ← none_of (difference active (node_ids route.nodes)) unknown_steps
  _ ← none_of (difference (required_ids route.nodes) active) required_steps
  _ ← check (is_in route.final_product_node active) skips_product
  _ ← check (is_in route.governance_node active) skips_governance
  _ ← check_acyclic (project_nodes active route.nodes)
  done (record route { nodes = project_nodes active route.nodes })
