-- ===== src/Broker/Handoff.antt =====
-- `TaskBroker.delegate` of pipeline/task_broker.py.
use growth_clockwork.Prelude.{
  ℕ, String, Bool, true, false, Option, none, some, List, [], ◌∷◌, str_eq, ◌==◌, not, ◌&&◌, all,
  is_sha256, if◌then◌else◌,
}
use growth_clockwork.Prelude.Int.{ℤ, pos, leb_ℤ}
use growth_clockwork.Broker.Tables.{
  completed, Task, Details, admitted, delegated, Event, find_origin, is_some, update_task,
}
use growth_clockwork.Broker.Session.{
  Env, Action, pure, gets, ◌>>=◌, ◌>>◌, require, execute, transaction, now,
}
use growth_clockwork.Broker.Permissions.{is_text, permissions, snapshot_id}
use growth_clockwork.Broker.Admission.{get, log_event, request_digest, new_task, insert_new}
use growth_clockwork.Broker.Lease.{holds_lease, set_closed}

pub record Handoff : Type 0 where
  pub project : String
  pub parent_task : String
  pub agent : String
  pub token : String
  pub version : ℕ
  pub child_agent : String
  pub origin_key : String
  pub input_ref : String
  pub input_sha256 : String
  pub not_before : ℤ
  pub max_attempts : ℤ

unfoldable pub check_handoff : Handoff → Bool
check_handoff h = all is_text (
    h.project ∷ h.parent_task ∷ h.agent ∷ h.token ∷ h.child_agent ∷ h.origin_key ∷ h.input_ref ∷ [])

unfoldable pub check_counters : Handoff → Bool
check_counters h =
    leb_ℤ (pos 0) h.not_before
    && (leb_ℤ (pos 1) h.max_attempts && (leb_ℤ h.max_attempts (pos 5) && is_sha256 h.input_sha256))

abbrev pub child_digest : Env → Handoff → String
child_digest env h =
    request_digest env h.child_agent h.input_ref h.input_sha256 h.not_before h.max_attempts
      (some h.parent_task)

abbrev pub is_delegated : Details → Bool
is_delegated (delegated _ _ _ _ _) = true
is_delegated _ = false

-- SELECT actor_id, details_json ... AND event_type='delegated'
abbrev pub find_delegated : String → String → List Event → Option Event
find_delegated p t [] = none
find_delegated p t (e ∷ es) =
    if (str_eq e.project_id p && str_eq e.task_id t) && is_delegated e.details
    then some e
    else find_delegated p t es

-- `details == proof | {'child_task_id': child}`
abbrev pub matches_proof : Env → Handoff → String → Details → Bool
matches_proof env h child (delegated agent request input version task) =
    str_eq agent h.child_agent
    && (str_eq request (child_digest env h)
        && (str_eq input h.input_sha256 && (version == h.version && str_eq task child)))
matches_proof env h child _ = false

-- `details.get('child_task_id', '')`
abbrev pub child_of : Details → String
child_of (delegated agent request input version task) = task
child_of _ = ""

-- The earlier handoff, if it is the same one.
abbrev pub delegate_again : Env → Handoff → Event → Action (Task × Task)
delegate_again env h prior = do
  child ← get h.project (child_of prior.details)
  require (str_eq prior.actor_id h.agent && matches_proof env h child.task_id prior.details)
      "Delegation conflicts with earlier handoff"
  parent ← get h.project h.parent_task
  pure (parent, child)

-- The checks before the first write: the lease, the permission and the origin of the child.
abbrev pub delegate_checks : Env → Handoff → Action ℕ
delegate_checks env h = do
  parent ← get h.project h.parent_task
  at ← now env
  granted ← permissions h.agent
  require
      (holds_lease parent h.agent h.token h.version at
        && str_eq (snapshot_id env granted) parent.permission_snapshot_id)
      "Stale or invalid delegation lease or permission"
  taken ← gets (λ s. is_some (find_origin h.project "agent" h.origin_key s.db.tasks))
  require (not taken) "Delegation origin conflicts with an existing task"
  pure at

abbrev pub child_row : Env → Handoff → ℕ → String → String → Task
child_row env h at snapshot task =
    new_task h.project task "agent" h.origin_key (child_digest env h) (some h.parent_task)
      h.child_agent h.input_ref snapshot h.not_before h.max_attempts at

-- The end of the parent, whose event names the child.
abbrev pub finish_parent : Env → Handoff → ℕ → String → Action (Task × Task)
finish_parent env h at task = do
  execute (update_task h.project h.parent_task (set_closed completed at))
  log_event env h.project h.parent_task
      (delegated h.child_agent (child_digest env h) h.input_sha256 h.version task) h.agent
  parent ← get h.project h.parent_task
  child ← get h.project task
  pure (parent, child)

-- The writes: the child, then the end of the parent.
abbrev pub delegate_writes : Env → Handoff → ℕ → Action (Task × Task)
delegate_writes env h at = do
  granted ← permissions h.child_agent
  task ← insert_new env h.project granted at (child_row env h at)
  log_event env h.project task (admitted h.input_sha256) h.agent
  finish_parent env h at task

abbrev pub delegate_or_replay : Env → Handoff → Option Event → Action (Task × Task)
delegate_or_replay env h (some prior) = delegate_again env h prior
delegate_or_replay env h none = do at ← delegate_checks env h; delegate_writes env h at

abbrev pub delegate_body : Env → Handoff → Action (Task × Task)
delegate_body env h = do
  prior ← gets (λ s. find_delegated h.project h.parent_task s.db.events)
  delegate_or_replay env h prior

unfoldable pub delegate : Env → Handoff → Action (Task × Task)
delegate env h = do
  require (check_handoff h) "Invalid delegation field"
  require (check_counters h) "Invalid delegation counter or hash"
  transaction (delegate_body env h)
