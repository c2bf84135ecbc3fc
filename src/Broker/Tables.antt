-- ===== src/Broker/Tables.antt =====
-- The tables of contracts/task-broker-v1.sql as lists of rows in the order of insertion, the
-- constraints that SQLite checks on each statement, and the statements of pipeline/task_broker.py.
use growth_clockwork.Prelude.{
  ℕ, String, Bool, true, false, Option, none, some, List, [], ◌∷◌, ◌++◌, ltb, leb, not, ◌&&◌, ◌||◌,
  str_eq, is_sha256, if◌then◌else◌, any,
}
use growth_clockwork.Prelude.Int.{ℤ, pos, leb_ℤ}

pub data Status : Type 0 where
  queued running awaiting_review completed failed cancelled : Status

abbrev pub same_status : Status → Status → Bool
same_status queued queued = true
same_status running running = true
same_status awaiting_review awaiting_review = true
same_status completed completed = true
same_status failed failed = true
same_status cancelled cancelled = true
same_status _ _ = false

pub record Task : Type 0 where
  pub project_id : String
  pub task_id : String
  pub origin : String
  pub origin_key : String
  pub request_sha256 : String
  pub parent_task_id : Option String
  pub agent_id : String
  pub input_ref : String
  pub permission_snapshot_id : String
  pub status : Status
  pub version : ℕ
  pub attempt : ℕ
  pub max_attempts : ℤ
  pub not_before : ℤ
  pub lease_token : Option String
  pub lease_expires_at : Option ℕ
  pub created_at : ℕ
  pub updated_at : ℕ

-- `permissions_json` is the canonical text of the projection, as its bytes.
pub record Snapshot : Type 0 where
  pub project_id : String
  pub snapshot_id : String
  pub sha256 : String
  pub permissions_json : List ℕ
  pub created_at : ℕ

pub record Asset : Type 0 where
  pub project_id : String
  pub task_id : String
  pub asset_id : String
  pub revision : String
  pub sha256 : String
  pub artifact_ref : String
  pub media_type : String
  pub byte_size : ℤ
  pub created_at : ℕ

pub record Decision : Type 0 where
  pub project_id : String
  pub decision_id : String
  pub task_id : String
  pub asset_id : String
  pub revision : String
  pub sha256 : String
  pub action : String
  pub actor_id : String
  pub note_ref : String
  pub created_at : ℕ

-- `event_type` with `details_json`: one constructor for each kind of event that the broker writes,
-- with the members of its details.
pub data Details : Type 0 where
  admitted : (input_sha256 : String) → Details
  claimed : (version : ℕ) → Details
  lease_expired : (expired_version : ℕ) → (lease_expires_at : Option ℕ) → Details
  delegated :
      (child_agent_id child_request_sha256 input_sha256 : String)
      → (claimed_version : ℕ) → (child_task_id : String) → Details
  task_failed : Details
  result_accepted : (result_sha256 lease_sha256 : String) → (claimed_version : ℕ) → Details
  completion_accepted :
      (result_sha256 artifact_ref lease_sha256 : String) → (claimed_version : ℕ) → Details
  review_reconciled :
      (decision_id asset_id revision sha256 action note_ref source_sha256 : String) → Details

pub record Event : Type 0 where
  pub project_id : String
  pub task_id : String
  pub event_id : String
  pub details : Details
  pub actor_id : String
  pub created_at : ℕ

pub record Db : Type 0 where
  pub snapshots : List Snapshot
  pub tasks : List Task
  pub assets : List Asset
  pub decisions : List Decision
  pub events : List Event

abbrev pub has_key : String → String → Task → Bool
has_key p t r = str_eq r.project_id p && str_eq r.task_id t

-- SELECT * FROM tasks WHERE project_id=? AND task_id=?
abbrev pub find_task : String → String → List Task → Option Task
find_task p t [] = none
find_task p t (r ∷ rs) = if has_key p t r then some r else find_task p t rs

-- SELECT * FROM tasks WHERE project_id=? AND origin=? AND origin_key=?
abbrev pub find_origin : String → String → String → List Task → Option Task
find_origin p o k [] = none
find_origin p o k (r ∷ rs) =
    if str_eq r.project_id p && (str_eq r.origin o && str_eq r.origin_key k)
    then some r
    else find_origin p o k rs

abbrev pub is_some {ℓ} : {A : Type ℓ} → Option A → Bool
is_some none = false
is_some (some _) = true

-- The CHECK on the lease columns.
unfoldable pub check_lease : Status → Option String → Option ℕ → ℕ → ℕ → Bool
check_lease running (some _) (some expires) updated attempt = ltb updated expires && ltb 0 attempt
check_lease running _ _ updated attempt = false
check_lease _ none none updated attempt = true
check_lease _ _ _ updated attempt = false

unfoldable pub check_origin : String → Bool
check_origin o =
    str_eq o "operator" || (str_eq o "schedule" || (str_eq o "connector" || str_eq o "agent"))

-- The CHECKs of one row of `tasks`.
unfoldable pub check_task : Task → Bool
unfolding check_lease check_origin
check_task r =
    check_origin r.origin
    && (is_sha256 r.request_sha256
        && ((leb_ℤ (pos 1) r.max_attempts && leb_ℤ r.max_attempts (pos 5))
            && (leb_ℤ (pos 0) r.not_before
                && (leb r.created_at r.updated_at
                    && (leb_ℤ (pos r.attempt) r.max_attempts
                        && check_lease r.status r.lease_token r.lease_expires_at r.updated_at
                            r.attempt)))))

-- The foreign key of the parent, with `parent_task_id <> task_id`.
abbrev pub check_parent : String → Option String → String → List Task → Bool
check_parent p none task ts = true
check_parent p (some parent) task ts = not (str_eq parent task) && is_some (find_task p parent ts)

abbrev pub has_snapshot : String → String → List Snapshot → Bool
has_snapshot p i [] = false
has_snapshot p i (x ∷ xs) = (str_eq x.project_id p && str_eq x.snapshot_id i) || has_snapshot p i xs

-- INSERT INTO tasks: `none` where a constraint fails.
unfoldable pub insert_task : Task → Db → Option Db
insert_task r d =
    if check_task r
      && (not (is_some (find_task r.project_id r.task_id d.tasks))
          && (not (is_some (find_origin r.project_id r.origin r.origin_key d.tasks))
              && (check_parent r.project_id r.parent_task_id r.task_id d.tasks
                  && has_snapshot r.project_id r.permission_snapshot_id d.snapshots)))
    then some (record d { tasks = d.tasks ++ r ∷ [] })
    else none

-- INSERT INTO permission_snapshots ... ON CONFLICT(project_id, snapshot_id) DO NOTHING
unfoldable pub insert_snapshot : Snapshot → Db → Option Db
insert_snapshot x d =
    if is_sha256 x.sha256
    then some (
        if has_snapshot x.project_id x.snapshot_id d.snapshots
        then d
        else record d { snapshots = d.snapshots ++ x ∷ [] })
    else none

abbrev pub replace_task : String → String → (Task → Task) → List Task → List Task
replace_task p t f [] = []
replace_task p t f (r ∷ rs) = if has_key p t r then f r ∷ rs else r ∷ replace_task p t f rs

-- UPDATE tasks SET ... WHERE project_id=? AND task_id=? (a primary key: one row at most)
unfoldable pub update_task : String → String → (Task → Task) → Db → Option Db
update_task p t f d = elim (find_task p t d.tasks) [
  | none ↦ some d
  | some r ↦
      if check_task (f r) then some (record d { tasks = replace_task p t f d.tasks }) else none
]

-- INSERT INTO audit_events
unfoldable pub insert_event : Event → Db → Option Db
insert_event e d =
    if is_some (find_task e.project_id e.task_id d.tasks)
      && not (any (λ x. str_eq x.project_id e.project_id && str_eq x.event_id e.event_id) d.events)
    then some (record d { events = d.events ++ e ∷ [] })
    else none

abbrev pub has_asset : String → String → String → String → List Asset → Bool
has_asset p t a v [] = false
has_asset p t a v (x ∷ xs) =
    (str_eq x.project_id p && (str_eq x.task_id t && (str_eq x.asset_id a && str_eq x.revision v)))
    || has_asset p t a v xs

-- SELECT 1 FROM task_assets WHERE ... AND revision=? AND sha256=?
abbrev pub has_exact_asset : String → String → String → String → String → List Asset → Bool
has_exact_asset p t a v h [] = false
has_exact_asset p t a v h (x ∷ xs) =
    (str_eq x.project_id p
      && (str_eq x.task_id t
          && (str_eq x.asset_id a && (str_eq x.revision v && str_eq x.sha256 h))))
    || has_exact_asset p t a v h xs

-- INSERT INTO task_assets
unfoldable pub insert_asset : Asset → Db → Option Db
insert_asset x d =
    if is_sha256 x.sha256
      && (leb_ℤ (pos 0) x.byte_size
          && (not (has_asset x.project_id x.task_id x.asset_id x.revision d.assets)
              && is_some (find_task x.project_id x.task_id d.tasks)))
    then some (record d { assets = d.assets ++ x ∷ [] })
    else none

abbrev pub conflicts : Decision → Decision → Bool
conflicts x y =
    str_eq y.project_id x.project_id
    && (str_eq y.decision_id x.decision_id
        || (str_eq y.task_id x.task_id
            && (str_eq y.asset_id x.asset_id && str_eq y.revision x.revision)))

-- INSERT INTO decisions (`note_ref` is never null here)
unfoldable pub insert_decision : Decision → Db → Option Db
insert_decision x d =
    if (str_eq x.action "approve" || (str_eq x.action "decline" || str_eq x.action "note"))
      && (not (any (conflicts x) d.decisions)
          && has_exact_asset x.project_id x.task_id x.asset_id x.revision x.sha256 d.assets)
    then some (record d { decisions = d.decisions ++ x ∷ [] })
    else none
