-- ===== src/Broker/Review.antt =====
-- `TaskBroker.accept_verified_decision` of pipeline/task_broker.py: the projection of a human review.
use growth_clockwork.Prelude.{
  ℕ, ◌+◌, String, Bool, true, false, Option, none, some, List, [], ◌∷◌, str_eq, ◌&&◌, ◌||◌, all,
  is_sha256, if◌then◌else◌,
}
use growth_clockwork.Broker.Tables.{
  Status, awaiting_review, completed, cancelled, same_status, Task, Details, review_reconciled,
  Event, update_task, insert_decision, has_exact_asset,
}
use growth_clockwork.Broker.Session.{
  Env, Action, broker_error, pure, raise, gets, ◌>>=◌, ◌>>◌, require, execute, transaction, now,
}
use growth_clockwork.Broker.Permissions.{is_text}
use growth_clockwork.Broker.Admission.{get, log_event}

pub record Review : Type 0 where
  pub decision_id : String
  pub asset_id : String
  pub revision : String
  pub sha256 : String
  pub action : String
  pub note_ref : String
  pub source_sha256 : String

abbrev pub operator : String
operator = "local-os-operator"

unfoldable pub check_review : Review → Bool
check_review v =
    (str_eq v.action "approve" || (str_eq v.action "decline" || str_eq v.action "note"))
    && (is_sha256 v.sha256
        && (is_sha256 v.source_sha256
            && all is_text (v.decision_id ∷ v.asset_id ∷ v.revision ∷ v.note_ref ∷ [])))

abbrev pub proof_of : Review → Details
proof_of v =
    review_reconciled v.decision_id v.asset_id v.revision v.sha256 v.action v.note_ref
      v.source_sha256

abbrev pub is_review : Details → Bool
is_review (review_reconciled _ _ _ _ _ _ _) = true
is_review _ = false

abbrev pub find_review : String → String → List Event → Option Event
find_review p t [] = none
find_review p t (e ∷ es) =
    if (str_eq e.project_id p && str_eq e.task_id t) && is_review e.details
    then some e
    else find_review p t es

-- `json.loads(prior[0]) == proof`
abbrev pub same_review : Details → Review → Bool
same_review (review_reconciled d a r h act n src) v =
    str_eq d v.decision_id
    && (str_eq a v.asset_id
        && (str_eq r v.revision
            && (str_eq h v.sha256
                && (str_eq act v.action && (str_eq n v.note_ref && str_eq src v.source_sha256)))))
same_review _ v = false

-- The status that a decision leads to.
unfoldable pub decided : String → Status
decided action = if str_eq action "approve" then completed else cancelled

-- `status=?, version=version+1, updated_at=?`
abbrev pub set_decided : Status → ℕ → Task → Task
set_decided status at r = record r { status = status; version = r.version + 1; updated_at = at }

abbrev pub decide_new : Env → String → String → Task → Review → Action Task
decide_new env p t r v = do
  require (same_status r.status awaiting_review) "Task is not awaiting review"
  target ← gets (λ s. has_exact_asset p t v.asset_id v.revision v.sha256 s.db.assets)
  require target "Decision does not match an accepted asset"
  at ← now env
  execute (
      insert_decision (record {
        project_id = p;
        decision_id = v.decision_id;
        task_id = t;
        asset_id = v.asset_id;
        revision = v.revision;
        sha256 = v.sha256;
        action = v.action;
        actor_id = operator;
        note_ref = v.note_ref;
        created_at = at;
      }))
  execute (update_task p t (set_decided (decided v.action) at))
  log_event env p t (proof_of v) operator
  get p t

abbrev pub decide_or_replay : Env → String → String → Task → Review → Option Event → Action Task
decide_or_replay env p t r v none = decide_new env p t r v
decide_or_replay env p t r v (some prior) =
    if same_review prior.details v
    then pure r
    else raise (broker_error "Decision conflicts with earlier review")

abbrev pub decision_body : Env → String → String → Review → Action Task
decision_body env p t v = do
  r ← get p t
  prior ← gets (λ s. find_review p t s.db.events)
  decide_or_replay env p t r v prior

unfoldable pub accept_verified_decision : Env → String → String → Review → Action Task
unfolding check_review
accept_verified_decision env p t v = do
  require (check_review v) "Unsupported review action, hash or reference"
  transaction (decision_body env p t v)
