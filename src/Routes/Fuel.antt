-- ===== src/Routes/Fuel.antt =====
-- The search of `_check_acyclic` never runs out of fuel: what is being visited grows with every
-- call, and there are no more nodes than it can hold.
use growth_clockwork.Prelude.{
  ℕ, zero, suc, ◌+◌, ◌≤◌, ◌<◌, ◌≡◌, ◌≢◌, refl, String, Bool, true, false, none, some, List, [], ◌∷◌,
  length, arith, is_in, eq_iff, Bool-cases, Option-cases, inl, inr, subst, sym, if◌then◌else◌,
}
use growth_clockwork.Routes.{
  RouteNode, out_of_fuel, Checked, done, failed, ◌>>=◌, find_node, visit_each, visit_node, visit,
  node_ids, check_acyclic,
}

-- The number of nodes that are not being visited.
abbrev room : List RouteNode → List String → ℕ
room [] visiting = 0
room (n ∷ ns) visiting =
    let rest = room ns visiting in if is_in n.node_id visiting then rest else suc rest

room-push :
    (i : String) (visiting : List String) (ns : List RouteNode)
    → room ns (i ∷ visiting) ≤ room ns visiting
room-push i visiting [] = omega arith
room-push i visiting (n ∷ ns) = ground (arith, room-push i visiting ns)

room-found :
    (i : String) (visiting : List String) (ns : List RouteNode) (n : RouteNode)
    → is_in i visiting ≡ false
    → find_node i ns ≡ some n
    → room ns (i ∷ visiting) < room ns visiting
room-found i visiting [] n fresh h = ground arith
room-found i visiting (m ∷ ns) n fresh h =
    let least = room-push i visiting ns in
    elim (Option-cases (find_node i ns)) [
      | inl absent ↦
          let named : m.node_id ≡ i = ground (arith, eq_iff m.node_id i) in
          let out : is_in m.node_id visiting ≡ false =
            subst (λ x. is_in x visiting ≡ false) (sym named) fresh in
          ground (arith, least, eq_iff m.node_id i)
      | inr (k, found) ↦ ground (arith, room-found i visiting ns k fresh found)
    ]

room-empty : (ns : List RouteNode) → room ns [] ≡ length ns
room-empty [] = refl
room-empty (n ∷ ns) = ground (arith, room-empty ns)

-- Whether an answer is the one of the model alone.
abbrev exhausted : Checked (List String) → Bool
exhausted (done vs) = false
exhausted (failed out_of_fuel) = true
exhausted (failed _) = false

module _ (nodes : List RouteNode) where
  Ends : (List String → String → Checked (List String)) → Type 0
  Ends step = (vs : List String) (d : String) → exhausted (step vs d) ≡ false

  exhausted-bind :
      (m : Checked (List String)) (f : List String → Checked (List String))
      → exhausted m ≡ false
      → ((vs : List String) → exhausted (f vs) ≡ false)
      → exhausted (m >>= f) ≡ false
  exhausted-bind (done vs) f h k = k vs
  exhausted-bind (failed e) f h k = h

  visit_each-Ends :
      (step : List String → String → Checked (List String))
      → Ends step
      → (vs ds : List String) → exhausted (visit_each step vs ds) ≡ false
  unfolding visit_each Ends
  visit_each-Ends step ends vs [] = refl
  visit_each-Ends step ends vs (d ∷ ds) =
      exhausted-bind (step vs d) (λ us. visit_each step us ds) (ends vs d)
        (λ us. visit_each-Ends step ends us ds)

  visit_node-Ends :
      (step : List String → String → Checked (List String))
      → Ends step
      → (vs : List String) (i : String) (n : RouteNode)
      → exhausted (visit_node step vs i (some n)) ≡ false
  unfolding visit_node
  visit_node-Ends step ends vs i n =
      exhausted-bind (visit_each step vs n.depends_on) (λ us. done (i ∷ us))
        (visit_each-Ends step ends vs n.depends_on) (λ us. refl)

  visit_node-absent :
      (step : List String → String → Checked (List String)) (vs : List String) (i : String)
      → exhausted (visit_node step vs i none) ≡ false
  unfolding visit_node
  visit_node-absent step vs i = refl

  visit-Ends :
      (f : ℕ) (visiting : List String) → room nodes visiting < f → Ends (visit f nodes visiting)
  unfolding visit Ends
  visit-Ends zero visiting enough vs d = absurd (omega arith)
  visit-Ends (suc f) visiting enough vs d = elim (Bool-cases (is_in d visiting)) [
    | inl again ↦ ground arith
    | inr fresh ↦ elim (Bool-cases (is_in d vs)) [
      | inl known ↦ ground arith
      | inr new ↦ elim (Option-cases (find_node d nodes)) [
        | inl absent ↦
            let none_there = visit_node-absent (visit f nodes (d ∷ visiting)) vs d in
            ground (arith, none_there)
        | inr (n, found) ↦
            let less = room-found d visiting nodes n fresh found in
            let ends =
              visit_node-Ends (visit f nodes (d ∷ visiting))
                (visit-Ends f (d ∷ visiting) (omega (arith, less, enough))) vs d n in
            ground (arith, ends)
      ]
    ]
  ]

-- The check of a route always ends with a verdict: it orders the nodes, finds a cycle or misses a
-- dependency, and never stops for want of fuel.
pub check_acyclic-ends : (nodes : List RouteNode) → check_acyclic nodes ≢ failed out_of_fuel
unfolding check_acyclic
check_acyclic-ends nodes h =
    let ends =
      visit_each-Ends nodes (visit (length nodes + 1) nodes [])
        (visit-Ends nodes (length nodes + 1) [] (omega (arith, room-empty nodes))) []
        (node_ids nodes) in
    ground (arith, ends)
