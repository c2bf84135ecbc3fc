-- ===== src/Broker/Refinement/Admission.antt =====
-- `admit` makes one step, or none on a replay.
use growth_clockwork.Prelude.{
  ℕ, suc, ◌≡◌, refl, String, Option, none, some, ◌∷◌, [], ◌++◌, arith, sym, subst, is_sha256,
  eq_iff, Option-cases, Bool-cases, inl, inr,
}
use growth_clockwork.Broker.Tables.{
  Task, Snapshot, Event, Db, admitted, find_task, find_origin, insert_task, insert_snapshot,
  insert_event, has_snapshot,
}
use growth_clockwork.Broker.Session.{
  Env, State, Action, ok, now, or_raise, broker_error, ◌>>=◌, ◌>>◌, require, transaction,
}
use growth_clockwork.Broker.Permissions.{
  Permissions, permissions, read_permissions, projection, snapshot_id,
}
use growth_clockwork.Broker.Admission.{
  Admission, digest_of, new_task, insert_new, admit_or_replay, admit_body, admit, get, check_fields,
  parent_is_text, parent_exists, log_event,
}
use growth_clockwork.Broker.Lifecycle.{Born, Grows, Step, Steps}
use growth_clockwork.Broker.Rows.{find_task-append}
use growth_clockwork.Broker.Refinement.Actions.{
  require-ok, transaction-ok, get_last-ok, Grows-of_eq, event_at,
}

insert_snapshot-Grows :
    (x : Snapshot) (d d' : Db)
    → insert_snapshot x d ≡ some d'
    → Grows d.snapshots d'.snapshots × (d' ≡ record d { snapshots = d'.snapshots })
unfolding insert_snapshot
insert_snapshot-Grows x d d' h =
    elim (Bool-cases (has_snapshot x.project_id x.snapshot_id d.snapshots)) [
      | inl known ↦ (Grows-of_eq _ _ (ground arith), ground arith)
      | inr new ↦ ((x ∷ [], ground arith), ground arith)
    ]

insert_task-eq :
    (r : Task) (d d' : Db)
    → insert_task r d ≡ some d'
    → (d' ≡ record d { tasks = d.tasks ++ r ∷ [] })
      × (find_task r.project_id r.task_id d.tasks ≡ none)
unfolding insert_task
insert_task-eq r d d' h = (ground arith, ground arith)

insert_event-eq :
    (e : Event) (d d' : Db)
    → insert_event e d ≡ some d'
    → d' ≡ record d { events = d.events ++ e ∷ [] }
unfolding insert_event
insert_event-eq e d d' h = ground arith

-- The three inserts, one after the other, are a birth.
births :
    (x : Snapshot) (r : Task) (e : Event) (input_sha256 : String) (d d1 d2 d3 : Db)
    → Born r
    → e.project_id ≡ r.project_id
    → e.task_id ≡ r.task_id
    → e.details ≡ admitted input_sha256
    → insert_snapshot x d ≡ some d1
    → insert_task r d1 ≡ some d2
    → insert_event e d2 ≡ some d3
    → Step d d3 × (d3.tasks ≡ d.tasks ++ r ∷ []) × (find_task r.project_id r.task_id d.tasks ≡ none)
births x r e sha d d1 d2 d3 fresh ep et ed h1 h2 h3 =
    let ((xs, grown), e1) = insert_snapshot-Grows x d d1 h1 in
    let (e2, absent) = insert_task-eq r d1 d2 h2 in
    let e3 = insert_event-eq e d2 d3 h3 in
    (
      Step.born r e sha fresh (ground arith) ep et ed (ground arith) (ground arith)
          (xs, ground arith) (ground arith) (ground arith),
      ground arith,
      ground arith,
    )

module _ (env : Env) (project actor input_sha256 : String) (g : Permissions) (at : ℕ) where
  -- The first event of a row follows it in the same transaction.
  abbrev pub born_rows : (String → String → Task) → {B : Type 0} → (String → Action B) → Action B
  born_rows row rest = do
    task ← insert_new env project g at row
    log_event env project task (admitted input_sha256) actor
    rest task

  abbrev snapshot_row : Snapshot
  snapshot_row = record {
    project_id = project;
    snapshot_id = snapshot_id env g;
    sha256 = snapshot_id env g;
    permissions_json = projection g;
    created_at = at;
  }

  pub born_rows-Step :
      {B : Type 0} (row : String → String → Task) (rest : String → Action B) (s s' : State) (b : B)
      → (let r = row (snapshot_id env g) (env.uuid s.uuids) in
          Born r × (r.project_id ≡ project) × (r.task_id ≡ env.uuid s.uuids))
      → born_rows row rest s ≡ (ok b, s')
      → (u : State) × Step s.db u.db
        × (let r = row (snapshot_id env g) (env.uuid s.uuids) in
            (u.db.tasks ≡ s.db.tasks ++ r ∷ [])
            × (find_task r.project_id r.task_id s.db.tasks ≡ none))
        × (u.config ≡ s.config)
        × (rest (env.uuid s.uuids) u ≡ (ok b, s'))
  born_rows-Step {B} row rest s s' b (fresh, rp, rt) h =
      elim (Option-cases (insert_snapshot snapshot_row s.db)) [
        | inl refused ↦ absurd (ground arith)
        | inr (d, snapped) ↦
            elim (Option-cases (insert_task (row (snapshot_id env g) (env.uuid s.uuids)) d)) [
              | inl refused ↦ absurd (ground arith)
              | inr (d', inserted) ↦
                  elim (Option-cases (
                    insert_event
                      (event_at env (suc s.uuids) s.ticks project (env.uuid s.uuids)
                        (admitted input_sha256) actor)
                      d')) [
                        | inl refused ↦ absurd (ground arith)
                        | inr (d'', logged) ↦
                            let (step, tasks, absent) =
                              births snapshot_row (row (snapshot_id env g) (env.uuid s.uuids)) _
                                input_sha256 s.db d d' d'' fresh (sym rp) (sym rt) refl snapped
                                inserted logged in
                            (
                              record {
                                db = d'';
                                config = s.config;
                                uuids = suc (suc s.uuids);
                                ticks = suc s.ticks;
                              },
                              step,
                              (tasks, absent),
                              refl,
                              ground arith,
                            )
                      ]
            ]
      ]

pub permissions-ok :
    {B : Type 0} (agent : String) (f : Permissions → Action B) (s s' : State) (b : B)
    → (permissions agent >>= f) s ≡ (ok b, s')
    → (g : Permissions) × (read_permissions agent s.config ≡ some g) × (f g s ≡ (ok b, s'))
permissions-ok {B} agent f s s' b h = go (read_permissions agent s.config) refl h
  where
    go :
        (o : Option Permissions)
        → read_permissions agent s.config ≡ o
        → (or_raise o (broker_error "Missing, invalid or unsupported agent permission") >>= f) s
          ≡ (ok b, s')
        → (g : Permissions) × (read_permissions agent s.config ≡ some g) × (f g s ≡ (ok b, s'))
    go none e k = ground arith
    go (some g) e k = (g, e, k)

module _ (env : Env) (a : Admission) (at : ℕ) (s s' : State) (r' : Task) where
  abbrev admission_row : String → String → Task
  admission_row snapshot task =
      new_task a.project task a.origin a.origin_key (digest_of env a) a.parent_task_id a.agent
        a.input_ref snapshot a.not_before a.max_attempts at

  -- A first request leaves its row last in the table, and returns it.
  pub admit_new-row :
      admit_or_replay env a at none s ≡ (ok r', s')
      → (g : Permissions) × (let r = admission_row (snapshot_id env g) (env.uuid s.uuids) in
          (s'.db.tasks ≡ s.db.tasks ++ r ∷ []) × (r' ≡ r))
  admit_new-row h =
      let (g, _, h1) =
        permissions-ok a.agent
          (λ g. born_rows env a.project a.actor a.input_sha256 g at admission_row (get a.project)) s
          s' r' h in
      let (u, _, (tasks, absent), _, h2) =
        born_rows-Step env a.project a.actor a.input_sha256 g at admission_row (get a.project) s s'
          r' (ground arith) h1 in
      let (found, same) = get_last-ok a.project (env.uuid s.uuids) u s' r' h2 in
      let last =
        find_task-append a.project (env.uuid s.uuids) s.db.tasks
          (admission_row (snapshot_id env g) (env.uuid s.uuids)) in
      (
        g,
        (
          ground (arith, tasks, same),
          ground (
            arith,
            eq_iff a.project a.project,
            eq_iff (env.uuid s.uuids) (env.uuid s.uuids),
            found,
            tasks,
            absent,
            last,
          ),
        ),
      )

  admit_or_replay-Steps :
      (o : Option Task) → admit_or_replay env a at o s ≡ (ok r', s') → Steps s.db s'.db
  admit_or_replay-Steps none h =
      let (g, _, h1) =
        permissions-ok a.agent
          (λ g. born_rows env a.project a.actor a.input_sha256 g at admission_row (get a.project)) s
          s' r' h in
      let (u, step, _, _, h2) =
        born_rows-Step env a.project a.actor a.input_sha256 g at admission_row (get a.project) s s'
          r' (ground arith) h1 in
      let same : u.db ≡ s'.db = ground arith in subst (Steps s.db) same (Steps.next Steps.here step)
  admit_or_replay-Steps (some existing) h =
      let same : s.db ≡ s'.db = ground arith in subst (Steps s.db) same Steps.here

module _ (env : Env) (a : Admission) (s s' : State) (r' : Task) where
  pub admit-Steps : admit env a s ≡ (ok r', s') → Steps s.db s'.db
  unfolding admit
  admit-Steps h =
      let at = env.clock s.ticks in
      let u : State = record s { ticks = suc s.ticks } in
      let body = admit_body env a in
      let begin = now env >>= λ n. transaction (body n) in
      let (_, h1) =
        require-ok (check_fields a) _
          (require (parent_is_text a.parent_task_id) "Invalid parent task"
            >> (require (is_sha256 a.input_sha256) "Invalid input hash" >> begin))
          s s' r' h in
      let (_, h2) =
        require-ok (parent_is_text a.parent_task_id) _
          (require (is_sha256 a.input_sha256) "Invalid input hash" >> begin) s s' r' h1 in
      let (_, h3) = require-ok (is_sha256 a.input_sha256) _ begin s s' r' h2 in
      let (_, h4) =
        require-ok (parent_exists a.project a.parent_task_id u) _
          (λ v. admit_or_replay env a at (find_origin a.project a.origin a.origin_key v.db.tasks) v)
          u s' r' (transaction-ok (body at) u s' r' h3) in
      admit_or_replay-Steps env a at u s' r'
        (find_origin a.project a.origin a.origin_key u.db.tasks) h4
