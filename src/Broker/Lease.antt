-- ===== src/Broker/Lease.antt =====
-- `TaskBroker.claim`, `expire_leases` and `fail` of pipeline/task_broker.py. Seconds, limits and
-- versions are natural numbers: a negative one is refused by the same tests as 0 or a stale one.
use growth_clockwork.Prelude.{
  ℕ, ◌+◌, String, Bool, true, false, Option, none, some, List, [], ◌∷◌, str_eq, leb, ltb, ◌==◌,
  ◌&&◌, take, codes, text_leb, if◌then◌else◌,
}
use growth_clockwork.Prelude.Int.{pos, leb_ℤ, ltb_ℤ}
use growth_clockwork.Broker.Tables.{
  Status, queued, running, failed, same_status, Task, claimed, lease_expired, task_failed,
  update_task,
}
use growth_clockwork.Broker.Session.{
  Env, Action, pure, gets, ◌>>=◌, ◌>>◌, require, execute, transaction, uuid4, now,
}
use growth_clockwork.Broker.Permissions.{Permissions, is_text, permissions, snapshot_id}
use growth_clockwork.Broker.Admission.{get, log_event}

-- The condition under which `claim` goes on.
unfoldable pub claimable : Env → Task → String → Permissions → ℕ → Bool
claimable env r agent granted at =
    str_eq r.agent_id agent
    && (same_status r.status queued
        && (leb_ℤ r.not_before (pos at)
            && (ltb_ℤ (pos r.attempt) r.max_attempts
                && str_eq (snapshot_id env granted) r.permission_snapshot_id)))

abbrev pub set_claimed : String → ℕ → ℕ → Task → Task
set_claimed token expires at r = record r {
  status = running;
  version = r.version + 1;
  attempt = r.attempt + 1;
  lease_token = some token;
  lease_expires_at = some expires;
  updated_at = at;
}

-- The end of a lease: `lease_token=NULL, lease_expires_at=NULL`.
abbrev pub set_closed : Status → ℕ → Task → Task
set_closed status at r = record r {
  status = status;
  version = r.version + 1;
  lease_token = none;
  lease_expires_at = none;
  updated_at = at;
}

abbrev pub claim_body : Env → String → String → String → ℕ → Action Task
claim_body env p t agent lease_seconds = do
  r ← get p t
  at ← now env
  granted ← permissions agent
  require (claimable env r agent granted at) "Task cannot be claimed"
  token ← uuid4 env
  execute (update_task p t (set_claimed token (at + lease_seconds) at))
  log_event env p t (claimed (r.version + 1)) agent
  get p t

unfoldable pub claim : Env → String → String → String → ℕ → Action Task
claim env p t agent lease_seconds = do
  require (leb 1 lease_seconds && leb lease_seconds 3600) "Lease must be between 1 and 3600 seconds"
  transaction (claim_body env p t agent lease_seconds)

abbrev pub held : String → Option String → Bool
held token none = false
held token (some k) = str_eq k token

abbrev pub live : ℕ → Option ℕ → Bool
live at none = false
live at (some expires) = ltb at expires

-- The lease of a running task at a time: held by this worker, at this version, and not over.
unfoldable pub holds_lease : Task → String → String → ℕ → ℕ → Bool
holds_lease r agent token version at =
    same_status r.status running
    && (str_eq r.agent_id agent
        && (held token r.lease_token && (r.version == version && live at r.lease_expires_at)))

abbrev pub fail_body : Env → String → String → String → String → ℕ → Action Task
fail_body env p t agent token version = do
  r ← get p t
  at ← now env
  require (holds_lease r agent token version at) "Stale or invalid worker lease"
  execute (update_task p t (set_closed failed at))
  log_event env p t task_failed agent
  get p t

unfoldable pub fail : Env → String → String → String → String → ℕ → Action Task
fail env p t agent token version = transaction (fail_body env p t agent token version)

abbrev pub over : ℕ → Option ℕ → Bool
over at none = false
over at (some expires) = leb expires at

-- WHERE project_id=? AND status='running' AND lease_expires_at<=?
unfoldable pub is_expired : String → ℕ → Task → Bool
is_expired p at r =
    str_eq r.project_id p && (same_status r.status running && over at r.lease_expires_at)

unfoldable pub expired_rows : String → ℕ → List Task → List Task
expired_rows p at [] = []
expired_rows p at (r ∷ rs) =
    let rest = expired_rows p at rs in if is_expired p at r then r ∷ rest else rest

-- ORDER BY lease_expires_at, task_id
expires_before : Option ℕ → Option ℕ → Bool → Bool
expires_before (some m) (some n) tie = if ltb m n then true else if m == n then tie else false
expires_before _ _ tie = tie

pub ordered : Task → Task → Bool
unfolding expires_before text_leb
ordered r q =
    expires_before r.lease_expires_at q.lease_expires_at
      (text_leb (codes r.task_id) (codes q.task_id))

unfoldable pub insert_ordered : Task → List Task → List Task
insert_ordered r [] = r ∷ []
insert_ordered r (q ∷ qs) =
    let rest = insert_ordered r qs in if ordered r q then r ∷ q ∷ qs else q ∷ rest

unfoldable pub order_rows : List Task → List Task
unfolding insert_ordered ordered
order_rows [] = []
order_rows (r ∷ rs) = insert_ordered r (order_rows rs)

-- One round of the `for row in expired` loop.
abbrev pub recover_one : Env → String → String → ℕ → Task → Action (Unit {0})
recover_one env p actor at row = do
  execute (update_task p row.task_id (set_closed failed at))
  log_event env p row.task_id (lease_expired row.version row.lease_expires_at) actor

unfoldable pub recover : Env → String → String → ℕ → List Task → Action (List String)
recover env p actor at [] = pure []
recover env p actor at (row ∷ rows) = do
  recover_one env p actor at row
  rest ← recover env p actor at rows
  pure (row.task_id ∷ rest)

abbrev pub due_rows : String → ℕ → ℕ → List Task → List Task
due_rows p at limit ts = take limit (order_rows (expired_rows p at ts))

abbrev pub expire_body : Env → String → String → ℕ → Action (List String)
expire_body env p actor limit = do
  at ← now env
  rows ← gets (λ s. due_rows p at limit s.db.tasks)
  recover env p actor at rows

unfoldable pub expire_leases : Env → String → String → ℕ → Action (List String)
unfolding expired_rows order_rows recover is_expired
expire_leases env p actor limit = do
  require (is_text p && (is_text actor && (leb 1 limit && leb limit 100)))
      "Invalid lease recovery scope or limit"
  transaction (expire_body env p actor limit)
