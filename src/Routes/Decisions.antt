-- ===== src/Routes/Decisions.antt =====
-- `route_for_activation_decisions` of pipeline/agent_registry.py, on a decision of JSON values.
use growth_clockwork.Prelude.{
  ℕ, String, Bool, true, false, not, ◌&&◌, ◌||◌, Option, none, some, List, [], ◌∷◌, leb, ◌==◌, all,
  length, codes, is_in, keep, str_eq, is_blank, if◌then◌else◌,
}
use growth_clockwork.Json.{
  Json, null, str, arr, obj, Items, nil, cons, Fields, get_field, has_exactly,
}
use growth_clockwork.Routes.{
  RouteNode, RouteContract, Checked, done, failed, ◌>>=◌, node_ids, optional_ids, difference,
  none_of, check, route_with_active_nodes, undecided, not_an_array, not_an_object, invalid_entry,
  not_portable, duplicate_decision, not_optional, invalid_decision, empty_reason, missing_decisions,
  uncaught,
}

abbrev is_alnum : ℕ → Bool
is_alnum c =
    (leb b'0' c && leb c b'9') || ((leb b'A' c && leb c b'Z') || (leb b'a' c && leb c b'z'))

abbrev is_id_char : ℕ → Bool
is_id_char c = is_alnum c || (c == b'.' || (c == b'_' || c == b'-'))

abbrev matches_id : List ℕ → Bool
matches_id [] = false
matches_id (c ∷ cs) =
    is_alnum c && (all is_id_char cs && (leb 2 (length cs) && leb (length cs) 127))

-- `RUN_ID_RE.fullmatch`: `[A-Za-z0-9][A-Za-z0-9._-]{2,127}`
unfoldable pub is_portable : String → Bool
is_portable s = matches_id (codes s)

abbrev pub portable : Option Json → Checked String
portable none = failed not_portable
portable (some v) = elim v [
  | str s ↦ if is_portable s then done s else failed not_portable
  | _ ↦ failed not_portable
]

-- Whether the step is activated. `in` on a set raises for a list or a dict.
abbrev pub action_of : String → Option Json → Checked Bool
action_of step none = failed (invalid_decision step)
action_of step (some v) = elim v [
  | str s ↦
      if str_eq s "activate"
      then done true
      else if str_eq s "skip"
      then done false
      else failed (invalid_decision step)
  | arr xs ↦ failed (uncaught "TypeError")
  | obj fs ↦ failed (uncaught "TypeError")
  | _ ↦ failed (invalid_decision step)
]

abbrev pub has_reason : Option Json → Bool
has_reason none = false
has_reason (some v) = elim v [ str s ↦ not (is_blank s) | _ ↦ false ]

abbrev pub Decision : Type 0
Decision = String × Bool

abbrev pub decided_ids : List Decision → List String
decided_ids [] = []
decided_ids (d ∷ ds) = d.0 ∷ decided_ids ds

abbrev pub decision_keys : List String
decision_keys = "step_id" ∷ "decision" ∷ "reason" ∷ []

-- One round of the loop, with the decisions so far.
abbrev pub read_entry : List String → List Decision → Fields → Checked Decision
read_entry optional seen fs = do
  _ ← check (has_exactly fs decision_keys) invalid_entry
  step ← portable (get_field "step_id" fs)
  _ ← check (not (is_in step (decided_ids seen))) (duplicate_decision step)
  _ ← check (is_in step optional) (not_optional step)
  activate ← action_of step (get_field "decision" fs)
  _ ← check (has_reason (get_field "reason" fs)) (empty_reason step)
  done (step, activate)

abbrev pub read_item : List String → List Decision → Json → Checked Decision
read_item optional seen v = elim v [
  | obj fs ↦ read_entry optional seen fs
  | _ ↦ failed not_an_object
]

unfoldable pub read_decisions : List String → List Decision → Items → Checked (List Decision)
read_decisions optional seen nil = done seen
read_decisions optional seen (cons v vs) =
    read_item optional seen v >>= λ d. read_decisions optional (d ∷ seen) vs

abbrev pub activated : List Decision → String → Bool
activated [] i = false
activated (d ∷ ds) i = if str_eq d.0 i then d.1 else activated ds i

unfoldable pub active_ids : List Decision → List RouteNode → List String
active_ids ds ns = node_ids (keep (λ (n : RouteNode). not n.optional || activated ds n.node_id) ns)

-- From a list of entries on.
unfoldable pub decide_steps : RouteContract → Items → Checked RouteContract
decide_steps route entries = do
  ds ← read_decisions (optional_ids route.nodes) [] entries
  _ ← none_of (difference (optional_ids route.nodes) (decided_ids ds)) missing_decisions
  route_with_active_nodes route (active_ids ds route.nodes)

-- No `step_activation`: every step is active, unless the caller asks for decisions.
abbrev pub undecided_route : RouteContract → Bool → Checked RouteContract
undecided_route route strict = if strict then failed undecided else done route

abbrev pub decide_with : RouteContract → Bool → Option Json → Checked RouteContract
decide_with route strict none = undecided_route route strict
decide_with route strict (some v) = elim v [
  | null ↦ undecided_route route strict
  | arr entries ↦ decide_steps route entries
  | _ ↦ failed not_an_array
]

unfoldable pub route_for_activation_decisions : RouteContract → Json → Bool → Checked RouteContract
route_for_activation_decisions route decision strict = elim decision [
  | obj fs ↦ decide_with route strict (get_field "step_activation" fs)
  | _ ↦ failed not_an_object
]
