-- ===== src/Broker/Admission.antt =====
-- `TaskBroker.event`, `TaskBroker.get` and `TaskBroker.admit` of pipeline/task_broker.py.
-- The arguments have the types that the method's `isinstance` and `type` tests ask for.
use growth_clockwork.Prelude.{
  ℕ, String, Bool, true, Option, none, some, List, [], ◌∷◌, str_eq, all, is_sha256, if◌then◌else◌,
}
use growth_clockwork.Prelude.Int.{ℤ}
use growth_clockwork.Json.{Json, num, str, arr, items}
use growth_clockwork.Json.Canonical.{canonical}
use growth_clockwork.Broker.Tables.{
  queued, Task, Details, admitted, find_task, find_origin, is_some, insert_task, insert_snapshot,
  insert_event,
}
use growth_clockwork.Broker.Session.{
  Env, State, Action, broker_error, pure, raise, gets, or_raise, ◌>>=◌, ◌>>◌, require, execute,
  transaction, uuid4, now,
}
use growth_clockwork.Broker.Permissions.{Permissions, is_text, permissions, projection, snapshot_id}

-- `self.get`
abbrev pub get : String → String → Action Task
get p t s = or_raise (find_task p t s.db.tasks) (broker_error "Task not found") s

-- `self.event`
abbrev pub log_event : Env → String → String → Details → String → Action (Unit {0})
log_event env p t details actor = do
  i ← uuid4 env
  at ← now env
  execute (
      insert_event (record {
        project_id = p;
        task_id = t;
        event_id = i;
        details = details;
        actor_id = actor;
        created_at = at;
      }))

pub record Admission : Type 0 where
  pub project : String
  pub origin : String
  pub origin_key : String
  pub agent : String
  pub input_ref : String
  pub input_sha256 : String
  pub actor : String
  pub not_before : ℤ
  pub max_attempts : ℤ
  pub parent_task_id : Option String

-- The parent joins the request only where there is one.
abbrev pub parent_field : Option String → List Json
parent_field none = []
parent_field (some t) = str t ∷ []

unfoldable pub request_digest : Env → String → String → String → ℤ → ℤ → Option String → String
request_digest env agent input_ref input_sha256 not_before max_attempts parent = env.sha256 (
    canonical (
      arr (
        items (
          str agent
          ∷ str input_ref
          ∷ str input_sha256
          ∷ num not_before
          ∷ num max_attempts
          ∷ parent_field parent))))

abbrev pub digest_of : Env → Admission → String
digest_of env a =
    request_digest env a.agent a.input_ref a.input_sha256 a.not_before a.max_attempts
      a.parent_task_id

-- The row that an admission inserts: queued, never attempted, at version 0.
abbrev pub new_task :
    String
    → String
    → String
    → String
    → String
    → Option String
    → String
    → String
    → String
    → ℤ
    → ℤ
    → ℕ
    → Task
new_task project task origin origin_key digest parent agent input_ref snapshot not_before
      max_attempts at =
    record {
      project_id = project;
      task_id = task;
      origin = origin;
      origin_key = origin_key;
      request_sha256 = digest;
      parent_task_id = parent;
      agent_id = agent;
      input_ref = input_ref;
      permission_snapshot_id = snapshot;
      status = queued;
      version = 0;
      attempt = 0;
      max_attempts = max_attempts;
      not_before = not_before;
      lease_token = none;
      lease_expires_at = none;
      created_at = at;
      updated_at = at;
    }

abbrev pub parent_is_text : Option String → Bool
parent_is_text none = true
parent_is_text (some t) = is_text t

unfoldable pub check_fields : Admission → Bool
check_fields a = all is_text (a.project ∷ a.origin_key ∷ a.agent ∷ a.input_ref ∷ a.actor ∷ [])

abbrev pub parent_exists : String → Option String → State → Bool
parent_exists p none s = true
parent_exists p (some t) s = is_some (find_task p t s.db.tasks)

-- The insertion of a snapshot, a task and its first event, shared by `admit` and `delegate`.
abbrev pub insert_new : Env → String → Permissions → ℕ → (String → String → Task) → Action String
insert_new env project granted at row = do
  let snapshot = snapshot_id env granted
  execute (
      insert_snapshot (record {
        project_id = project;
        snapshot_id = snapshot;
        sha256 = snapshot;
        permissions_json = projection granted;
        created_at = at;
      }))
  task ← uuid4 env
  execute (insert_task (row snapshot task))
  pure task

abbrev pub admit_new : Env → Admission → ℕ → Action Task
admit_new env a at = do
  granted ← permissions a.agent
  task ← insert_new env a.project granted at (λ snapshot task.
      new_task a.project task a.origin a.origin_key (digest_of env a) a.parent_task_id a.agent
        a.input_ref snapshot a.not_before a.max_attempts at)
  log_event env a.project task (admitted a.input_sha256) a.actor
  get a.project task

-- A replay returns the row of the earlier request, if it asked for the same.
abbrev pub replay : Env → Admission → Task → Action Task
replay env a existing =
    if str_eq existing.request_sha256 (digest_of env a)
    then pure existing
    else raise (broker_error "Origin key conflicts with earlier input")

abbrev pub admit_or_replay : Env → Admission → ℕ → Option Task → Action Task
admit_or_replay env a at none = admit_new env a at
admit_or_replay env a at (some existing) = replay env a existing

abbrev pub admit_body : Env → Admission → ℕ → Action Task
admit_body env a at = do
  known ← gets (parent_exists a.project a.parent_task_id)
  require known "Parent task not found in project"
  existing ← gets (λ s. find_origin a.project a.origin a.origin_key s.db.tasks)
  admit_or_replay env a at existing

unfoldable pub admit : Env → Admission → Action Task
unfolding check_fields
admit env a = do
  require (check_fields a) "Invalid admission field"
  require (parent_is_text a.parent_task_id) "Invalid parent task"
  require (is_sha256 a.input_sha256) "Invalid input hash"
  at ← now env
  transaction (admit_body env a at)
