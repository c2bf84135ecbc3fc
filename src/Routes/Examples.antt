-- ===== src/Routes/Examples.antt =====
-- A small route, its check, and a plan that skips its optional step.
use growth_clockwork.Prelude.{
  ◌≡◌, ◌≢◌, refl, String, Bool, true, false, List, [], ◌∷◌, All, is_in, is_blank, is_space, keep,
  distinct, sort_texts,
}
use growth_clockwork.Json.{Json, str, arr, obj, nil, cons, end, field, has_exactly}
use growth_clockwork.Routes.{
  RouteNode, RouteContract, failed, dependency_cycle, out_of_fuel, visit_each, visit_node, visit,
  node_ids, check_acyclic, difference, project_nodes, route_with_active_nodes,
}
use growth_clockwork.Routes.Acyclic.{Ordered, check_acyclic-Ordered}
use growth_clockwork.Routes.Fuel.{check_acyclic-ends}
use growth_clockwork.Routes.Activation.{Legal, route_with_active_nodes-Legal}
use growth_clockwork.Routes.Decisions.{
  is_portable, read_decisions, active_ids, decide_steps, route_for_activation_decisions,
}
use growth_clockwork.Routes.Decided.{Decided, route_for_activation_decisions-Decided}

abbrev node : String → List String → Bool → RouteNode
node i deps optional = record {
  node_id = i;
  role_id = "role";
  depends_on = deps;
  objective = "one step of the route";
  output_contract = "result@1";
  deliverable_contract = "deliverable@1";
  allowed_write_roots = "records" ∷ [];
  optional = optional;
  run_when = "always";
}

abbrev nodes : List RouteNode
nodes =
    node "coordinate" [] false
    ∷ node "research" ("coordinate" ∷ []) true
    ∷ node "draft" ("coordinate" ∷ "research" ∷ []) false
    ∷ node "govern" ("draft" ∷ []) false
    ∷ []

abbrev route : RouteContract
route = record {
  route_id = "route";
  context_requirements = "facts" ∷ [];
  nodes = nodes;
  final_product_contract = "deliverable@1";
  final_product_node = "draft";
  governance_node = "govern";
  max_concurrent_workhorses = 2;
  only_independent_nodes = true;
}

abbrev without_research : List RouteNode
without_research =
    node "coordinate" [] false
    ∷ node "draft" ("coordinate" ∷ []) false
    ∷ node "govern" ("draft" ∷ []) false
    ∷ []

abbrev part : RouteContract
part = record route { nodes = without_research }

abbrev plan : Json
plan = obj (
    field "step_activation"
      (arr (
        cons
          (obj (
            field "step_id" (str "research")
              (field "decision" (str "skip") (field "reason" (str "known") end))))
          nil))
      end)

cycle_found :
    check_acyclic (node "a" ("b" ∷ []) false ∷ node "b" ("a" ∷ []) false ∷ [])
    ≡ failed dependency_cycle
unfolding check_acyclic visit visit_each visit_node
cycle_found = refl

check_acyclic-Ordered_example :
    Ordered nodes ("govern" ∷ "draft" ∷ "research" ∷ "coordinate" ∷ [])
    × All
        (λ i. is_in i ("govern" ∷ "draft" ∷ "research" ∷ "coordinate" ∷ []) ≡ true)
        (node_ids nodes)
unfolding check_acyclic visit visit_each visit_node
check_acyclic-Ordered_example =
    check_acyclic-Ordered nodes ("govern" ∷ "draft" ∷ "research" ∷ "coordinate" ∷ []) refl

check_acyclic-ends_example : check_acyclic nodes ≢ failed out_of_fuel
check_acyclic-ends_example = check_acyclic-ends nodes

route_with_active_nodes-Legal_example : Legal route ("coordinate" ∷ "draft" ∷ "govern" ∷ []) part
unfolding route_with_active_nodes difference project_nodes check_acyclic visit visit_each visit_node
    keep distinct sort_texts
route_with_active_nodes-Legal_example =
    route_with_active_nodes-Legal route ("coordinate" ∷ "draft" ∷ "govern" ∷ []) part refl

route_for_activation_decisions-Decided_example : Decided route part plan
unfolding route_for_activation_decisions decide_steps read_decisions active_ids is_portable
    has_exactly is_blank is_space route_with_active_nodes difference project_nodes check_acyclic
    visit visit_each visit_node keep distinct sort_texts
route_for_activation_decisions-Decided_example =
    route_for_activation_decisions-Decided route part plan refl
