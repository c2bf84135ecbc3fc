-- ===== src/Routes/Activation.antt =====
-- `route_with_active_nodes` of pipeline/agent_registry.py, and what a legal part of a route is.
use growth_clockwork.Prelude.{
  ◌≡◌, refl, String, Bool, true, false, not, ◌&&◌, List, [], ◌∷◌, arith, All, is_in, keep, distinct,
  sort_texts-none, distinct-none, keep-members, str_eq, eq_iff, Bool-cases, inl, inr, subst,
}
use growth_clockwork.Routes.{
  RouteNode, RouteContract, RouteError, Checked, done, failed, ◌>>=◌, node_ids, required_ids,
  difference, project_node, project_nodes, none_of, check, check_acyclic, route_with_active_nodes,
  unknown_steps, required_steps, skips_product, skips_governance,
}
use growth_clockwork.Routes.Acyclic.{Ordered, check_acyclic-Ordered}

pub difference-none :
    (xs ys : List String)
    → difference xs ys ≡ []
    → (x : String) → is_in x xs ≡ true
    → is_in x ys ≡ true
unfolding difference
difference-none xs ys h x k =
    let kept = keep (λ z. not (is_in z ys)) xs in
    let none_kept = distinct-none kept (sort_texts-none (distinct kept) h) in
    let absent = keep-members (λ z. not (is_in z ys)) xs none_kept x k in ground arith

-- The steps of the projection are the active steps of the route.
project_nodes-ids :
    (active : List String) (ns : List RouteNode) (x : String)
    → is_in x (node_ids (project_nodes active ns)) ≡ (is_in x (node_ids ns) && is_in x active)
unfolding project_nodes keep
project_nodes-ids active [] x = refl
project_nodes-ids active (n ∷ ns) x =
    let rest = project_nodes-ids active ns x in
    elim (Bool-cases (str_eq x n.node_id)) [
      | inl same ↦
          let e : x ≡ n.node_id = ground (arith, eq_iff x n.node_id) in
          let agree : is_in x active ≡ is_in n.node_id active =
            subst (λ z. is_in x active ≡ is_in z active) e refl in
          ground (arith, rest, agree)
      | inr other ↦ ground (arith, rest)
    ]

keep-within :
    (q : String → Bool) (p : String → Bool) (xs : List String)
    → ((x : String) → q x ≡ true → p x ≡ true)
    → All (λ x. p x ≡ true) (keep q xs)
unfolding keep
keep-within q p [] h = tt
keep-within q p (x ∷ xs) h = elim (Bool-cases (q x)) [
  | inl kept ↦ ground (arith, h x kept, keep-within q p xs h)
  | inr dropped ↦ ground (arith, keep-within q p xs h)
]

-- The dependencies of every node are steps.
abbrev pub Closed : List String → List RouteNode → Type 0
Closed all_ids ns = All (λ (n : RouteNode). All (λ d. is_in d all_ids ≡ true) n.depends_on) ns

-- A legal part of a route: its steps are the active ones, no required step, product or governance
-- is left out, every dependency is a step of it, and its steps can be put in an order.
pub record Legal (route : RouteContract) (active : List String) (part : RouteContract)
    : Type 0 where
  pub steps :
      (x : String)
      → is_in x (node_ids part.nodes) ≡ (is_in x (node_ids route.nodes) && is_in x active)
  pub required :
      (x : String)
      → is_in x (required_ids route.nodes) ≡ true
      → is_in x (node_ids part.nodes) ≡ true
  pub product : is_in route.final_product_node (node_ids part.nodes) ≡ true
  pub governance : is_in route.governance_node (node_ids part.nodes) ≡ true
  pub closed : Closed (node_ids part.nodes) part.nodes
  pub order : List String
  pub ordered : Ordered part.nodes order
  pub complete : All (λ x. is_in x order ≡ true) (node_ids part.nodes)

required-ids :
    (ns : List RouteNode) (x : String)
    → is_in x (required_ids ns) ≡ true
    → is_in x (node_ids ns) ≡ true
unfolding keep
required-ids [] x h = ground arith
required-ids (n ∷ ns) x h = ground (arith, required-ids ns x)

project_nodes-Closed :
    (active all_ids : List String) (ns : List RouteNode)
    → ((x : String) → is_in x active ≡ true → is_in x all_ids ≡ true)
    → Closed all_ids (project_nodes active ns)
unfolding project_nodes keep
project_nodes-Closed active all_ids [] h = tt
project_nodes-Closed active all_ids (n ∷ ns) h =
    let deps = keep-within (λ d. is_in d active) (λ d. is_in d all_ids) n.depends_on h in
    let rest = project_nodes-Closed active all_ids ns h in
    elim (Bool-cases (is_in n.node_id active)) [
      | inl kept ↦
          let e : project_node active n ∷ project_nodes active ns ≡ project_nodes active (n ∷ ns) =
            ground arith in
          subst (Closed all_ids) e (deps, rest)
      | inr dropped ↦
          let e : project_nodes active ns ≡ project_nodes active (n ∷ ns) = ground arith in
          subst (Closed all_ids) e rest
    ]

pub bind-done :
    {A B : Type 0} (m : Checked A) (f : A → Checked B) (b : B)
    → m >>= f ≡ done b
    → (a : A) × (m ≡ done a) × (f a ≡ done b)
bind-done (done a) f b h = (a, refl, h)
bind-done (failed e) f b h = ground arith

pub none_of-done :
    (xs : List String) (e : List String → RouteError) (u : Unit) → none_of xs e ≡ done u → xs ≡ []
none_of-done [] e u h = refl
none_of-done (x ∷ xs) e u h = ground arith

check-done : (b : Bool) (e : RouteError) (u : Unit) → check b e ≡ done u → b ≡ true
check-done true e u h = refl
check-done false e u h = ground arith

module _ (route : RouteContract) (active : List String) where
  abbrev part_nodes : List RouteNode
  part_nodes = project_nodes active route.nodes

  abbrev part_of : RouteContract
  part_of = record route { nodes = part_nodes }

  Legal-part :
      (order : List String)
      → difference active (node_ids route.nodes) ≡ []
      → difference (required_ids route.nodes) active ≡ []
      → is_in route.final_product_node active ≡ true
      → is_in route.governance_node active ≡ true
      → check_acyclic part_nodes ≡ done order
      → Legal route active part_of
  Legal-part order known needed product governance acyclic =
      let known_step = difference-none active (node_ids route.nodes) known in
      let step = λ (x : String) (k : is_in x active ≡ true).
        let there = known_step x k in
        let same = project_nodes-ids active route.nodes x in
        let both : is_in x (node_ids part_nodes) ≡ true = ground (arith, k, there, same) in both in
      let (ordered, complete) = check_acyclic-Ordered part_nodes order acyclic in
      record {
        steps = project_nodes-ids active route.nodes;
        required = λ x k. step x (difference-none (required_ids route.nodes) active needed x k);
        product = step route.final_product_node product;
        governance = step route.governance_node governance;
        closed = project_nodes-Closed active (node_ids part_nodes) route.nodes step;
        order = order;
        ordered = ordered;
        complete = complete;
      }

-- A projection that is accepted is a legal part of the route, whatever the route: its steps are the
-- active ones, nothing required is left out, and its dependencies stay inside it without a cycle.
pub route_with_active_nodes-Legal :
    (route : RouteContract) (active : List String) (part : RouteContract)
    → route_with_active_nodes route active ≡ done part
    → Legal route active part
unfolding route_with_active_nodes
route_with_active_nodes-Legal route active part h =
    let (u1, h1, k1) =
      bind-done (none_of (difference active (node_ids route.nodes)) unknown_steps) _ part h in
    let (u2, h2, k2) =
      bind-done (none_of (difference (required_ids route.nodes) active) required_steps) _ part k1 in
    let (u3, h3, k3) =
      bind-done (check (is_in route.final_product_node active) skips_product) _ part k2 in
    let (u4, h4, k4) =
      bind-done (check (is_in route.governance_node active) skips_governance) _ part k3 in
    let (order, h5, k5) = bind-done (check_acyclic (project_nodes active route.nodes)) _ part k4 in
    let legal =
      Legal-part route active order
        (none_of-done (difference active (node_ids route.nodes)) unknown_steps u1 h1)
        (none_of-done (difference (required_ids route.nodes) active) required_steps u2 h2)
        (check-done (is_in route.final_product_node active) skips_product u3 h3)
        (check-done (is_in route.governance_node active) skips_governance u4 h4) h5 in
    subst (Legal route active) (ground arith) legal
