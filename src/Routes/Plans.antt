-- ===== src/Routes/Plans.antt =====
-- What the entries of a plan's `step_activation` say, read apart from the loop of
-- `route_for_activation_decisions` in pipeline/agent_registry.py.
use growth_clockwork.Prelude.{
  ◌≡◌, refl, ap, ◌∙◌, String, Bool, true, false, not, Option, none, some, List, arith, is_in,
  str_eq, eq_iff, is_blank, Bool-cases, inl, inr,
}
use growth_clockwork.Json.{Json, str, obj, Items, nil, cons, Fields, get_field, has_exactly}
use growth_clockwork.Routes.{
  RouteError, Checked, done, ◌>>=◌, check, invalid_entry, duplicate_decision, not_optional,
  empty_reason,
}
use growth_clockwork.Routes.Activation.{bind-done}
use growth_clockwork.Routes.Decisions.{
  Decision, is_portable, portable, action_of, has_reason, decided_ids, decision_keys, read_item,
}

-- An entry names a step and an action.
pub record Names (v : Json) (x action : String) : Type 0 where
  pub fields : Fields
  pub object : v ≡ obj fields
  pub step : get_field "step_id" fields ≡ some (str x)
  pub decision : get_field "decision" fields ≡ some (str action)

-- The word for an activated step and for one that is not.
abbrev pub word : Bool → String
word true = "activate"
word false = "skip"

-- An entry as a plan must have it: three fields, an optional step, one of the two words, a reason.
pub record StepEntry (optional : List String) (v : Json) (x : String) (activate : Bool)
    : Type 0 where
  pub names : Names v x (word activate)
  pub exact : has_exactly names.fields decision_keys ≡ true
  pub portable_id : is_portable x ≡ true
  pub is_optional : is_in x optional ≡ true
  pub reason : String
  pub because : get_field "reason" names.fields ≡ some (str reason)
  pub nonblank : is_blank reason ≡ false

-- Some entry names the step with the action.
pub data Says (x action : String) : Items → Type 0 where
  first : {v : Json} {vs : Items} → Names v x action → Says x action (cons v vs)
  later : {v : Json} {vs : Items} → Says x action vs → Says x action (cons v vs)

-- Every entry is as it must be, and no later one names its step again.
pub data Entries (optional : List String) : Items → Type 0 where
  no_more : Entries optional nil
  more :
      {v : Json} {vs : Items} (x : String) (activate : Bool)
      → StepEntry optional v x activate
      → ((action : String) → Says x action vs → ⊥)
      → Entries optional vs
      → Entries optional (cons v vs)

check-then :
    {A : Type 0} (b : Bool) (e : RouteError) (k : Checked A) (a : A)
    → check b e >>= (λ _. k) ≡ done a
    → (b ≡ true) × (k ≡ done a)
check-then true e k a h = (refl, h)
check-then false e k a h = absurd (ground arith)

portable-done :
    (o : Option Json) (s : String)
    → portable o ≡ done s
    → (o ≡ some (str s)) × (is_portable s ≡ true)
portable-done none s h = absurd (ground arith)
portable-done (some (str t)) s h = elim (Bool-cases (is_portable t)) [
  | inl fine ↦
      let same : t ≡ s = ground arith in (ap (λ z. some (str z)) same, ground (arith, same))
  | inr bad ↦ absurd (ground arith)
]
portable-done (some _) s h = absurd (ground arith)

action_of-done :
    (step : String) (o : Option Json) (b : Bool)
    → action_of step o ≡ done b
    → o ≡ some (str (word b))
action_of-done step none b h = absurd (ground arith)
action_of-done step (some (str s)) b h = elim (Bool-cases (str_eq s "activate")) [
  | inl active ↦ ground (arith, eq_iff s "activate")
  | inr inactive ↦ elim (Bool-cases (str_eq s "skip")) [
    | inl idle ↦ ground (arith, eq_iff s "skip")
    | inr bad ↦ absurd (ground arith)
  ]
]
action_of-done step (some _) b h = absurd (ground arith)

has_reason-text :
    (o : Option Json)
    → has_reason o ≡ true
    → (s : String) × (o ≡ some (str s)) × (is_blank s ≡ false)
has_reason-text none h = absurd (ground arith)
has_reason-text (some (str s)) h = (s, refl, ground arith)
has_reason-text (some _) h = absurd (ground arith)

pub read_item-StepEntry :
    (optional : List String) (seen : List Decision) (v : Json) (d : Decision)
    → read_item optional seen v ≡ done d
    → StepEntry optional v d.0 d.1 × (is_in d.0 (decided_ids seen) ≡ false)
read_item-StepEntry optional seen (obj fs) (x, b) h =
    let (exact, h1) = check-then (has_exactly fs decision_keys) invalid_entry _ (x, b) h in
    let (step, portable_id, h2) = bind-done (portable (get_field "step_id" fs)) _ (x, b) h1 in
    let (fresh, h3) =
      check-then (not (is_in step (decided_ids seen))) (duplicate_decision step) _ (x, b) h2 in
    let (is_optional, h4) = check-then (is_in step optional) (not_optional step) _ (x, b) h3 in
    let (act, action, h5) = bind-done (action_of step (get_field "decision" fs)) _ (x, b) h4 in
    let (given, h6) =
      check-then (has_reason (get_field "reason" fs)) (empty_reason step) _ (x, b) h5 in
    let same : step ≡ x = ground arith in
    let same_act : act ≡ b = ground arith in
    let (is_step, fits) = portable-done (get_field "step_id" fs) step portable_id in
    let (reason, because, nonblank) = has_reason-text (get_field "reason" fs) given in
    (
      record {
        names = record {
          fields = fs;
          object = refl;
          step = is_step ∙ ap (λ z. some (str z)) same;
          decision =
              action_of-done step (get_field "decision" fs) act action
              ∙ ap (λ z. some (str (word z))) same_act;
        };
        exact = exact;
        portable_id = ground (arith, fits, same);
        is_optional = ground (arith, is_optional, same);
        reason = reason;
        because = because;
        nonblank = nonblank;
      },
      ground (arith, fresh, same),
    )
read_item-StepEntry optional seen _ d h = absurd (ground arith)
