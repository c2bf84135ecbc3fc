-- ===== src/Routes/Decided.antt =====
-- `route_for_activation_decisions` of pipeline/agent_registry.py against what its plan says.
use growth_clockwork.Prelude.{
  ◌≡◌, ◌⊎◌, refl, ap, String, Bool, true, false, not, ◌||◌, Option, none, some, List, [], ◌∷◌,
  arith, is_in, keep, str_eq, eq_iff, Bool-cases, inl, inr,
}
use growth_clockwork.Json.{Json, null, arr, obj, Items, Fields, get_field}
use growth_clockwork.Routes.{
  RouteNode, RouteContract, done, node_ids, optional_ids, required_ids, difference, none_of,
  missing_decisions,
}
use growth_clockwork.Routes.Activation.{
  Legal, route_with_active_nodes-Legal, difference-none, bind-done, none_of-done,
}
use growth_clockwork.Routes.Decisions.{
  Decision, decided_ids, read_decisions, activated, active_ids, decide_steps, decide_with,
  route_for_activation_decisions,
}
use growth_clockwork.Routes.Plans.{word, Says, Entries}
use growth_clockwork.Routes.Entries.{
  read_decisions-Says, read_decisions-Entries, read_decisions-said, Says-is_optional,
}

module _ (ds : List Decision) where
  active_ids-activated :
      (ns : List RouteNode) (x : String)
      → is_in x (optional_ids ns) ≡ true
      → activated ds x ≡ true
      → (is_in x (active_ids ds ns) ≡ true) × (is_in x (node_ids ns) ≡ true)
  unfolding active_ids keep
  active_ids-activated [] x h k = absurd (ground arith)
  active_ids-activated (n ∷ ns) x h k = elim (Bool-cases (str_eq x n.node_id)) [
    | inl same ↦
        let e : x ≡ n.node_id = ground (arith, eq_iff x n.node_id) in
        let active : activated ds n.node_id ≡ true = ground (arith, ap (activated ds) e, k) in
        (ground (arith, active, same), ground (arith, same))
    | inr other ↦
        let waits : is_in x (optional_ids ns) ≡ true = elim (Bool-cases n.optional) [
          | inl optional ↦ ground (arith, h, other, optional)
          | inr needed ↦ ground (arith, h, other, needed)
        ] in
        let (active, there) = active_ids-activated ns x waits k in
        (
          elim (Bool-cases (not n.optional || activated ds n.node_id)) [
            | inl kept ↦ ground (arith, active, kept)
            | inr dropped ↦ ground (arith, active, dropped)
          ],
          ground (arith, there),
        )
  ]

  active_ids-skipped :
      (ns : List RouteNode) (x : String)
      → is_in x (required_ids ns) ≡ false
      → activated ds x ≡ false
      → is_in x (active_ids ds ns) ≡ false
  unfolding active_ids keep
  active_ids-skipped [] x h k = refl
  active_ids-skipped (n ∷ ns) x h k = elim (Bool-cases (str_eq x n.node_id)) [
    | inl same ↦
        let e : x ≡ n.node_id = ground (arith, eq_iff x n.node_id) in
        let idle : activated ds n.node_id ≡ false = ground (arith, ap (activated ds) e, k) in
        elim (Bool-cases n.optional) [
          | inl optional ↦
              let rest = active_ids-skipped ns x (ground (arith, h, optional)) k in
              ground (arith, optional, idle, rest)
          | inr needed ↦ absurd (ground (arith, h, needed, same))
        ]
    | inr other ↦ elim (Bool-cases n.optional) [
      | inl optional ↦
          let rest = active_ids-skipped ns x (ground (arith, h, optional)) k in
          elim (Bool-cases (activated ds n.node_id)) [
            | inl kept ↦ ground (arith, optional, kept, other, rest)
            | inr dropped ↦ ground (arith, optional, dropped, rest)
          ]
      | inr needed ↦
          let rest = active_ids-skipped ns x (ground (arith, h, needed, other)) k in
          ground (arith, needed, other, rest)
    ]
  ]

-- What the entries of a plan say of a route, and the part of the route that follows: every entry is
-- as it must be, every optional step is decided on once, an activated step is a step of the part, a
-- skipped one is not unless a required step has its name, and the part is legal.
pub record Decided (route part : RouteContract) (plan : Json) : Type 0 where
  pub fields : Fields
  pub object : plan ≡ obj fields
  pub entries : Items
  pub given : get_field "step_activation" fields ≡ some (arr entries)
  pub valid : Entries (optional_ids route.nodes) entries
  pub all_decided :
      (x : String)
      → is_in x (optional_ids route.nodes) ≡ true
      → Says x "activate" entries ⊎ Says x "skip" entries
  pub activates : (x : String) → Says x "activate" entries → is_in x (node_ids part.nodes) ≡ true
  pub skips :
      (x : String)
      → Says x "skip" entries
      → is_in x (required_ids route.nodes) ≡ false
      → is_in x (node_ids part.nodes) ≡ false
  pub active : List String
  pub legal : Legal route active part

Decided-of_word :
    (x : String) (b : Bool) (vs : Items)
    → Says x (word b) vs
    → Says x "activate" vs ⊎ Says x "skip" vs
Decided-of_word x true vs says = inl says
Decided-of_word x false vs says = inr says

word-activate : (b : Bool) → "activate" ≡ word b → b ≡ true
word-activate true h = refl
word-activate false h = absurd (ground (arith, eq_iff "activate" "skip"))

word-skip : (b : Bool) → "skip" ≡ word b → b ≡ false
word-skip true h = absurd (ground (arith, eq_iff "skip" "activate"))
word-skip false h = refl

decide_steps-Decided :
    (route part : RouteContract) (fs : Fields) (entries : Items)
    → get_field "step_activation" fs ≡ some (arr entries)
    → decide_steps route entries ≡ done part
    → Decided route part (obj fs)
unfolding decide_steps
decide_steps-Decided route part fs entries given h =
    let optional = optional_ids route.nodes in
    let (ds, read, h1) = bind-done (read_decisions optional [] entries) _ part h in
    let (u, all, h2) =
      bind-done (none_of (difference optional (decided_ids ds)) missing_decisions) _ part h1 in
    let complete =
      difference-none optional (decided_ids ds)
        (none_of-done (difference optional (decided_ids ds)) missing_decisions u all) in
    let valid = read_decisions-Entries optional [] entries ds read in
    let legal = route_with_active_nodes-Legal route (active_ids ds route.nodes) part h2 in
    record {
      fields = fs;
      object = refl;
      entries = entries;
      given = given;
      valid = valid;
      all_decided = λ x k.
          Decided-of_word x (activated ds x) entries
            (read_decisions-said optional [] entries ds x read (complete x k) refl);
      activates = λ x says.
          let (_, said) = read_decisions-Says optional [] entries ds x "activate" read says in
          let active =
            active_ids-activated ds route.nodes x (Says-is_optional optional valid says)
              (word-activate (activated ds x) said) in
          ground (arith, legal.steps x, active);
      skips = λ x says needless.
          let (_, said) = read_decisions-Says optional [] entries ds x "skip" read says in
          let idle =
            active_ids-skipped ds route.nodes x needless (word-skip (activated ds x) said) in
          ground (arith, legal.steps x, idle);
      active = active_ids ds route.nodes;
      legal = legal;
    }

-- A plan that a strict caller accepts is an object whose `step_activation` is an array. Each entry
-- has exactly its three fields, names an optional step that no later entry names, says `activate` or
-- `skip`, and gives a reason that is not blank. Every optional step of the route is named with one
-- of the two words. The resulting route is a legal part that has each activated step, and has a
-- skipped one only where a required step has the same identifier.
pub route_for_activation_decisions-Decided :
    (route part : RouteContract) (decision : Json)
    → route_for_activation_decisions route decision true ≡ done part
    → Decided route part decision
unfolding route_for_activation_decisions
route_for_activation_decisions-Decided route part (obj fs) h =
    go (get_field "step_activation" fs) refl h
  where
    go :
        (o : Option Json)
        → get_field "step_activation" fs ≡ o
        → decide_with route true o ≡ done part
        → Decided route part (obj fs)
    go none e k = absurd (ground arith)
    go (some null) e k = absurd (ground arith)
    go (some (arr entries)) e k = decide_steps-Decided route part fs entries e k
    go (some _) e k = absurd (ground arith)
route_for_activation_decisions-Decided route part _ h = absurd (ground arith)
