-- ===== src/Ingress.antt =====
-- `_text`, `_identity` and `admit_event` of pipeline/broker_ingress.py, on an envelope as
-- `json.loads` returns it, with numbers that are integers.
mod Readers
pub mod Events
pub mod Reads
pub mod Prepared
pub mod Persist
pub mod Receipts
mod Examples
use growth_clockwork.Prelude.{
  ℕ, ◌+◌, String, Bool, true, false, Option, none, some, List, [], ◌∷◌, ◌++◌, not, ◌&&◌, str_eq,
  all, is_in, is_sha256, if◌then◌else◌,
}
use growth_clockwork.Prelude.Int.{ℤ, pos, negsuc, leb_ℤ}
use growth_clockwork.Json.{
  Json, bool, num, str, arr, obj, Fields, end, field, get_field, items, has_exactly,
}
use growth_clockwork.Json.Canonical.{canonical}
use growth_clockwork.Broker.Tables.{Task, is_some}
use growth_clockwork.Broker.Session.{Env, Result, ok, err, broker_error, uncaught, Action}
use growth_clockwork.Broker.Permissions.{is_text}
use growth_clockwork.Broker.Admission.{Admission, admit}

infixl 5 ◌>>=◌ ◌>>◌
abbrev pub ◌>>=◌ : {A B : Type 0} → Result A → (A → Result B) → Result B
◌>>=◌ (ok a) f = f a
◌>>=◌ (err e) f = err e

abbrev pub ◌>>◌ : {A B : Type 0} → Result A → Result B → Result B
m >> k = m >>= λ _. k

-- `if not b: raise IngressError(message)`
abbrev pub check : Bool → String → Result (Unit {0})
check true message = ok tt
check false message = err (broker_error message)

abbrev pub persist_fields : List String
persist_fields =
    "version" ∷ "project_id" ∷ "agent_id" ∷ "origin" ∷ "actor_id" ∷ "not_before" ∷ "max_attempts"
    ∷ "identity" ∷ []

abbrev pub common_fields : List String
common_fields = "input_ref" ∷ "input_sha256" ∷ persist_fields

-- `IDENTITY_FIELDS[origin]`
unfoldable pub identity_fields : String → Option (List String)
identity_fields origin =
    if str_eq origin "operator"
    then some ("transport" ∷ "account_id" ∷ "event_id" ∷ [])
    else if str_eq origin "connector"
    then some ("connector_id" ∷ "account_id" ∷ "event_id" ∷ [])
    else if str_eq origin "schedule"
    then some ("schedule_id" ∷ "scheduled_for" ∷ [])
    else if str_eq origin "agent"
    then some ("parent_task_id" ∷ "event_id" ∷ [])
    else none

-- `_text`, on a member that is there.
abbrev pub text_member : Fields → String → String → Result String
text_member fs key label = elim (get_field key fs) [
  | none ↦ err (uncaught "KeyError")
  | some v ↦ elim v [
    | str s ↦ if is_text s then ok s else err (broker_error label)
    | _ ↦ err (broker_error label)
  ]
]

-- One round of the loop of `_identity`: a count from zero, or a text.
unfoldable pub check_identity_field : Fields → String → Bool
check_identity_field identity key = elim (get_field key identity) [
  | none ↦ false
  | some v ↦ elim v [
    | num n ↦ str_eq key "scheduled_for" && leb_ℤ (pos 0) n
    | str s ↦ not (str_eq key "scheduled_for") && is_text s
    | _ ↦ false
  ]
]

-- The digest that `_identity` returns.
unfoldable pub identity_digest : Env → String → Fields → String
identity_digest env origin identity =
    env.sha256 (canonical (arr (items (str origin ∷ obj identity ∷ []))))

-- `_identity`: which of several bad fields is named first is left to the order of a set.
abbrev pub identity_of : Env → String → List String → Json → Result String
identity_of env origin required identity = elim identity [
  | obj fs ↦
      check (has_exactly fs required) "Invalid ingress identity"
      >> (check (all (check_identity_field fs) required) "Invalid ingress identity field"
          >> ok (identity_digest env origin fs))
  | _ ↦ err (broker_error "Invalid ingress identity")
]

-- `envelope['version'] != 1`: Python's `True` is 1.
abbrev pub is_one : Option Json → Bool
is_one none = false
is_one (some v) = elim v [ num n ↦ leb_ℤ n (pos 1) && leb_ℤ (pos 1) n | bool b ↦ b | _ ↦ false ]

-- The origin and its identity fields. `in` on a dict raises for a list or a dict.
abbrev pub origin_of : Option Json → Result (String × List String)
origin_of none = err (uncaught "KeyError")
origin_of (some v) = elim v [
  | str origin ↦ elim (identity_fields origin) [
    | none ↦ err (broker_error "Unsupported ingress envelope")
    | some required ↦ ok (origin, required)
  ]
  | arr xs ↦ err (uncaught "TypeError")
  | obj fs ↦ err (uncaught "TypeError")
  | _ ↦ err (broker_error "Unsupported ingress envelope")
]

abbrev pub hash_member : Fields → Result String
hash_member fs = elim (get_field "input_sha256" fs) [
  | none ↦ err (uncaught "KeyError")
  | some v ↦ elim v [
    | str s ↦ if is_sha256 s then ok s else err (broker_error "Invalid input hash")
    | _ ↦ err (broker_error "Invalid input hash")
  ]
]

-- `not_before` and `max_attempts`.
abbrev pub counters : Option Json → Option Json → Result (ℤ × ℤ)
counters (some v) (some w) = elim v [
  | num n ↦ elim w [
    | num m ↦
        if leb_ℤ (pos 0) n && (leb_ℤ (pos 1) m && leb_ℤ m (pos 5))
        then ok (n, m)
        else err (broker_error "Invalid ingress counters")
    | _ ↦ err (broker_error "Invalid ingress counters")
  ]
  | _ ↦ err (broker_error "Invalid ingress counters")
]
counters _ _ = err (uncaught "KeyError")

abbrev pub text_option : Option Json → Option String
text_option none = none
text_option (some v) = elim v [ str s ↦ some s | _ ↦ none ]

-- `identity.get('parent_task_id') if envelope['origin'] == 'agent' else None`; the identity is
-- checked after this, so that its parent is a text when `admit` sees it.
abbrev pub parent_of : String → Json → Result (Option String)
parent_of origin identity =
    if str_eq origin "agent"
    then elim identity [
      | obj fs ↦ ok (text_option (get_field "parent_task_id" fs))
      | _ ↦ err (uncaught "AttributeError")
    ]
    else ok none

abbrev pub member : Fields → String → Result Json
member fs key = elim (get_field key fs) [ none ↦ err (uncaught "KeyError") | some v ↦ ok v ]

-- The arguments of `admit`: the parent, then the identity, which is checked last.
abbrev pub read_identity :
    Env → Fields → String → List String → (String → Option String → Admission) → Result Admission
read_identity env fs origin required admission = do
  identity ← member fs "identity"
  parent ← parent_of origin identity
  origin_key ← identity_of env origin required identity
  ok (admission origin_key parent)

-- From the input hash on, with the texts read.
abbrev pub read_counters :
    Env
    → Fields
    → String
    → List String
    → (String → ℤ → ℤ → String → Option String → Admission)
    → Result Admission
read_counters env fs origin required admission = do
  digest ← hash_member fs
  (not_before, max_attempts) ← counters (get_field "not_before" fs) (get_field "max_attempts" fs)
  read_identity env fs origin required (admission digest not_before max_attempts)

abbrev pub read_texts : Env → Fields → String → List String → Result Admission
read_texts env fs origin required = do
  project ← text_member fs "project_id" "Invalid project"
  agent ← text_member fs "agent_id" "Invalid agent"
  actor ← text_member fs "actor_id" "Invalid actor"
  input_ref ← text_member fs "input_ref" "Invalid input reference"
  read_counters env fs origin required (λ digest not_before max_attempts origin_key parent. record {
    project = project;
    origin = origin;
    origin_key = origin_key;
    agent = agent;
    input_ref = input_ref;
    input_sha256 = digest;
    actor = actor;
    not_before = not_before;
    max_attempts = max_attempts;
    parent_task_id = parent;
  })

-- The admission that an envelope asks for.
unfoldable pub read_event : Env → Json → Result Admission
read_event env envelope = elim envelope [
  | obj fs ↦ do
    check (has_exactly fs common_fields) "Invalid ingress envelope"
    check (is_one (get_field "version" fs)) "Unsupported ingress envelope"
    (origin, required) ← origin_of (get_field "origin" fs)
    read_texts env fs origin required
  | _ ↦ err (broker_error "Invalid ingress envelope")
]

unfoldable pub admit_event : Env → Json → Action Task
admit_event env envelope s = elim (read_event env envelope) [
  | ok a ↦ admit env a s
  | err e ↦ (err e, s)
]
