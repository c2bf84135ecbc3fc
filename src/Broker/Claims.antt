-- ===== src/Broker/Claims.antt =====
-- What `claim` has found and left where it returns, and a later claim of the same task.
use growth_clockwork.Prelude.{
  ℕ, suc, ◌+◌, ◌≤◌, ◌≡◌, String, Bool, true, false, some, List, [], ◌∷◌, ◌++◌, arith, leb, ◌&&◌,
  Option-cases, inl, inr, eq_iff, ◌∙◌,
}
use growth_clockwork.Prelude.Int.{pos, ◌≤ℤ◌}
use growth_clockwork.Broker.Tables.{
  queued, running, claimed, same_status, Task, Details, Db, find_task, replace_task, update_task,
  insert_event,
}
use growth_clockwork.Broker.Session.{Env, State, Result, ok, err, transaction}
use growth_clockwork.Broker.Permissions.{Permissions, read_permissions, snapshot_id}
use growth_clockwork.Broker.Lease.{claim, claim_body, claimable, set_claimed}
use growth_clockwork.Broker.Review.{decided}
use growth_clockwork.Broker.Lifecycle.{Move, Steps}
use growth_clockwork.Broker.Rows.{KeysUnique, find_task-key, find_task-replace, replace_task-const}
use growth_clockwork.Broker.History.{Effect, Row, Step-Effect, Steps-KeysUnique}
use growth_clockwork.Broker.Requests.{Request, serve}
use growth_clockwork.Broker.Refinement.Actions.{require-ok, transaction-ok, event_at}
use growth_clockwork.Broker.Refinement.Claim.{claimable_facts, claim-Steps}
use growth_clockwork.Broker.Sessions.{serve-Steps}

-- What a claim found, and the row, the tables and the event that it left, field by field.
pub record Claimed (env : Env) (p t agent : String) (lease : ℕ) (s s' : State) (r' : Task)
    : Type 0 where
  pub before : Task
  pub permission : Permissions
  pub found : find_task p t s.db.tasks ≡ some before
  pub assigned : before.agent_id ≡ agent
  pub waiting : before.status ≡ queued
  pub due : before.not_before ≤ℤ pos (env.clock s.ticks)
  pub left : pos (before.attempt + 1) ≤ℤ before.max_attempts
  pub granted : read_permissions agent s.config ≡ some permission
  pub current : snapshot_id env permission ≡ before.permission_snapshot_id
  pub at_least : 1 ≤ lease
  pub at_most : lease ≤ 3600
  pub row : r' ≡ record before {
    status = running;
    version = before.version + 1;
    attempt = before.attempt + 1;
    lease_token = some (env.uuid s.uuids);
    lease_expires_at = some (env.clock s.ticks + lease);
    updated_at = env.clock s.ticks;
  }
  pub tasks : s'.db.tasks ≡ replace_task p t (λ _. r') s.db.tasks
  pub there : find_task p t s'.db.tasks ≡ some r'
  pub logged :
      s'.db.events
      ≡ s.db.events
        ++ (record {
          project_id = p;
          task_id = t;
          event_id = env.uuid (suc s.uuids);
          details = claimed (before.version + 1);
          actor_id = agent;
          created_at = env.clock (suc s.ticks);
        })
          ∷ []

claimable-same :
    (env : Env) (r : Task) (agent : String) (g : Permissions) (at : ℕ)
    → claimable env r agent g at ≡ true
    → (r.agent_id ≡ agent) × (snapshot_id env g ≡ r.permission_snapshot_id)
unfolding claimable
claimable-same env r agent g at h = (
  ground (arith, eq_iff r.agent_id agent),
  ground (arith, eq_iff (snapshot_id env g) r.permission_snapshot_id),
)

module _ (env : Env) (p t agent : String) (lease : ℕ) (s s' : State) (r' : Task) where
  claim_body-logged :
      (r : Task) (g : Permissions)
      → find_task p t s.db.tasks ≡ some r
      → read_permissions agent s.config ≡ some g
      → claim_body env p t agent lease s ≡ (ok r', s')
      → s'.db.events
        ≡ s.db.events
          ++ event_at env (suc s.uuids) (suc s.ticks) p t (claimed (r.version + 1)) agent ∷ []
  unfolding update_task insert_event
  claim_body-logged r g found granted h = ground (arith, found, granted)

  claim_body-Claimed :
      1 ≤ lease
      → lease ≤ 3600
      → claim_body env p t agent lease s ≡ (ok r', s')
      → Claimed env p t agent lease s s' r'
  unfolding update_task insert_event
  claim_body-Claimed one hour h = elim (Option-cases (find_task p t s.db.tasks)) [
    | inl missing ↦ absurd (ground arith)
    | inr (r, found) ↦ elim (Option-cases (read_permissions agent s.config)) [
      | inl denied ↦ absurd (ground arith)
      | inr (g, granted) ↦
          let at = env.clock s.ticks in
          let can : claimable env r agent g at ≡ true = ground arith in
          let facts = claimable_facts env r agent g at can in
          let ours = claimable-same env r agent g at can in
          let f = set_claimed (env.uuid s.uuids) (at + lease) at in
          let (kp, kt) = find_task-key p t s.db.tasks r found in
          let after = find_task-replace p t p t (f r) s.db.tasks r found kp kt in
          let same : s'.db.tasks ≡ replace_task p t f s.db.tasks = ground arith in
          let const = replace_task-const p t f s.db.tasks r found in
          let here : find_task p t s'.db.tasks ≡ some (f r) =
            ground (arith, same, const, after, eq_iff p p, eq_iff t t) in
          let returned : r' ≡ f r = ground (arith, here) in
          record {
            before = r;
            permission = g;
            found = found;
            assigned = ours.0;
            waiting = facts.0;
            due = facts.2;
            left = facts.1;
            granted = granted;
            current = ours.1;
            at_least = one;
            at_most = hour;
            row = returned;
            tasks = ground (arith, same, const, returned);
            there = ground (arith, here, returned);
            logged = claim_body-logged r g found granted h;
          }
    ]
  ]

  -- A claim that returns found the queued row of this agent, due and with attempts left, whose
  -- snapshot is that of the agent's current permission. The row it leaves and returns is that row at
  -- the next version and attempt, running, under a new identifier, with a lease that ends the
  -- seconds asked for (1 to 3600) after the reading of the clock. The other rows are as they were,
  -- and one event that names the new version is added.
  pub claim-Claimed :
      claim env p t agent lease s ≡ (ok r', s') → Claimed env p t agent lease s s' r'
  unfolding claim
  claim-Claimed h =
      let (bounds, body) =
        require-ok (leb 1 lease && leb lease 3600) _ (transaction (claim_body env p t agent lease))
          s s' r' h in
      claim_body-Claimed (ground arith) (ground arith)
        (transaction-ok (claim_body env p t agent lease) s s' r' body)

Move-not_queued :
    {d : Db} {p t : String} {r r' : Task} {ds : Details}
    → Move d p t r r' ds
    → same_status r'.status queued ≡ false
unfolding decided
Move-not_queued (Move.claim token ends at a b c e f) = ground arith
Move-not_queued (Move.fail version at l e) = ground arith
Move-not_queued (Move.expire ends at a b c e) = ground arith
Move-not_queued (Move.delegate version at l e) = ground arith
Move-not_queued (Move.submit version at l e) = ground arith
Move-not_queued (Move.complete version at l e) = ground arith
Move-not_queued (Move.review at a b e) = ground arith

-- A row that is there and no longer queued.
abbrev Taken : String → String → Db → Type 0
Taken p t d = (r : Task) × (find_task p t d.tasks ≡ some r) × (same_status r.status queued ≡ false)

Row-Taken : {d d' : Db} (p t : String) → Taken p t d → (effect : Effect d d' p t) → Taken p t d'
Row-Taken {d} {d'} p t (r, found, taken) effect = go effect.row
  where
    go : Row d p t effect.event (find_task p t d.tasks) (find_task p t d'.tasks) → Taken p t d'
    go (Row.kept other same) = (r, same ∙ found, taken)
    go (Row.born x sha is details absent fresh same) = absurd (ground arith)
    go (Row.moved x x' is here move same) = (x', same, Move-not_queued move)

Steps-Taken : {d d' : Db} (p t : String) → Taken p t d → Steps d d' → Taken p t d'
Steps-Taken p t taken Steps.here = taken
Steps-Taken p t taken (Steps.next more step) =
    Row-Taken p t (Steps-Taken p t taken more) (Step-Effect p t step)

not_claimable :
    (env : Env) (r : Task) (agent : String) (g : Permissions) (at : ℕ)
    → same_status r.status queued ≡ false
    → claimable env r agent g at ≡ false
unfolding claimable
not_claimable env r agent g at h = ground arith

-- Whether a call raised.
abbrev pub raises : {A : Type 0} → Result A × State → Bool
raises (ok a, s) = false
raises (err e, s) = true

claim-Taken :
    (env : Env) (p t agent : String) (lease : ℕ) (s : State)
    → Taken p t s.db
    → raises (claim env p t agent lease s) ≡ true
unfolding claim
claim-Taken env p t agent lease s (r, found, taken) =
    elim (Option-cases (read_permissions agent s.config)) [
      | inl denied ↦ ground arith
      | inr (g, granted) ↦ ground (arith, not_claimable env r agent g (env.clock s.ticks) taken)
    ]

-- After a claim that returned, every claim of that task raises, by whichever agent and after
-- whatever session: a task is claimed at most once.
pub claim-serve-claim :
    (env : Env) (p t agent : String) (lease : ℕ) (qs : List Request) (s s' : State) (r : Task)
    (other : String) (seconds : ℕ)
    → KeysUnique s.db.tasks
    → claim env p t agent lease s ≡ (ok r, s')
    → raises (claim env p t other seconds (serve env qs s')) ≡ true
claim-serve-claim env p t agent lease qs s s' r other seconds unique h =
    let c = claim-Claimed env p t agent lease s s' r h in
    let first = claim-Steps env p t agent s s' r lease h in
    let rest = serve-Steps env qs s' (Steps-KeysUnique first unique) in
    let taken : Taken p t s'.db = (r, c.there, ground (arith, c.row)) in
    claim-Taken env p t other seconds (serve env qs s') (Steps-Taken p t taken rest)
