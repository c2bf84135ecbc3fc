-- ===== src/Routes/Acyclic.antt =====
-- The depth-first search of `_check_acyclic`: what it accepts is ordered, and it ends.
use growth_clockwork.Prelude.{
  ℕ, zero, suc, ◌+◌, ◌≡◌, refl, String, true, Option, none, some, List, [], ◌∷◌, length, arith, All,
  is_in, eq_iff, Bool-cases, inl, inr, subst,
}
use growth_clockwork.Routes.{
  RouteNode, Checked, done, failed, ◌>>=◌, find_node, visit_each, visit_node, visit, node_ids,
  check_acyclic,
}

-- The dependencies of every entry come after it in the list.
abbrev pub Ordered : List RouteNode → List String → Type 0
Ordered nodes [] = Unit
Ordered nodes (i ∷ vs) =
    ((n : RouteNode) × (find_node i nodes ≡ some n) × All (λ d. is_in d vs ≡ true) n.depends_on)
    × Ordered nodes vs

abbrev Within : List String → List String → Type 0
Within vs ws = (x : String) → is_in x vs ≡ true → is_in x ws ≡ true

-- What a search that ends has visited.
record Visited (nodes : List RouteNode) (vs ws ds : List String) : Type 0 where
  ordered : Ordered nodes ws
  reached : All (λ d. is_in d ws ≡ true) ds
  grown : Within vs ws

All-Within :
    (ds vs ws : List String)
    → Within vs ws
    → All (λ d. is_in d vs ≡ true) ds
    → All (λ d. is_in d ws ≡ true) ds
All-Within [] vs ws w h = tt
All-Within (d ∷ ds) vs ws w (here, rest) = (w d here, All-Within ds vs ws w rest)

bind-done :
    {A B : Type 0} (m : Checked A) (f : A → Checked B) (b : B)
    → m >>= f ≡ done b
    → (a : A) × (m ≡ done a) × (f a ≡ done b)
bind-done (done a) f b h = (a, refl, h)
bind-done (failed e) f b h = ground arith

module _ (nodes : List RouteNode) where
  Sound : (List String → String → Checked (List String)) → Type 0
  Sound step =
      (vs : List String) (d : String) (ws : List String)
      → Ordered nodes vs
      → step vs d ≡ done ws
      → Visited nodes vs ws (d ∷ [])

  visit_each-Sound :
      (step : List String → String → Checked (List String))
      → Sound step
      → (vs ds ws : List String) → Ordered nodes vs
      → visit_each step vs ds ≡ done ws
      → Visited nodes vs ws ds
  unfolding visit_each Sound
  visit_each-Sound step sound vs [] ws o h =
      let same : vs ≡ ws = ground arith in
      record {
        ordered = subst (Ordered nodes) same o;
        reached = tt;
        grown = λ x k. subst (λ l. is_in x l ≡ true) same k;
      }
  visit_each-Sound step sound vs (d ∷ ds) ws o h =
      let (us, first, rest) = bind-done (step vs d) (λ u. visit_each step u ds) ws h in
      let a = sound vs d us o first in
      let b = visit_each-Sound step sound us ds ws a.ordered rest in
      record {
        ordered = b.ordered;
        reached = (b.grown d (a.reached.0), b.reached);
        grown = λ x k. b.grown x (a.grown x k);
      }

  visit_node-Sound :
      (step : List String → String → Checked (List String))
      → Sound step
      → (vs : List String) (i : String) (ws : List String) (o : Option RouteNode)
      → find_node i nodes ≡ o
      → Ordered nodes vs
      → visit_node step vs i o ≡ done ws
      → Visited nodes vs ws (i ∷ [])
  unfolding visit_node
  visit_node-Sound step sound vs i ws none found o h = absurd (ground arith)
  visit_node-Sound step sound vs i ws (some n) found o h =
      let (us, deps, last) = bind-done (visit_each step vs n.depends_on) (λ u. done (i ∷ u)) ws h in
      let a = visit_each-Sound step sound vs n.depends_on us o deps in
      let same : i ∷ us ≡ ws = ground arith in
      subst (λ l. Visited nodes vs l (i ∷ [])) same
        (record {
          ordered = ((n, found, a.reached), a.ordered);
          reached = (ground (arith, eq_iff i i), tt);
          grown = λ x k. ground (arith, a.grown x k);
        })

  visit-Sound : (f : ℕ) (visiting : List String) → Sound (visit f nodes visiting)
  unfolding visit Sound
  visit-Sound zero visiting vs d ws o h = absurd (ground arith)
  visit-Sound (suc f) visiting vs d ws o h = elim (Bool-cases (is_in d visiting)) [
    | inl again ↦ absurd (ground arith)
    | inr fresh ↦ elim (Bool-cases (is_in d vs)) [
      | inl known ↦
          let same : vs ≡ ws = ground arith in
          subst (λ l. Visited nodes vs l (d ∷ [])) same
            (record { ordered = o; reached = (known, tt); grown = λ x k. k })
      | inr new ↦
          visit_node-Sound (visit f nodes (d ∷ visiting)) (visit-Sound f (d ∷ visiting)) vs d ws
            (find_node d nodes) refl o (ground arith)
    ]
  ]

-- Where the check accepts, it lists every node of the route, and whatever it lists after all that
-- it depends on: the dependencies have no cycle.
pub check_acyclic-Ordered :
    (nodes : List RouteNode) (vs : List String)
    → check_acyclic nodes ≡ done vs
    → Ordered nodes vs × All (λ i. is_in i vs ≡ true) (node_ids nodes)
unfolding check_acyclic
check_acyclic-Ordered nodes vs h =
    let v =
      visit_each-Sound nodes (visit (length nodes + 1) nodes [])
        (visit-Sound nodes (length nodes + 1) []) [] (node_ids nodes) vs tt h in
    (v.ordered, v.reached)
