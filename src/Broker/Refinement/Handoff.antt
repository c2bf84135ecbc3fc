-- ===== src/Broker/Refinement/Handoff.antt =====
-- `delegate` makes two steps, the birth of the child and the end of its parent, or none on a replay.
use growth_clockwork.Prelude.{
  ℕ, ◌≡◌, refl, String, Option, none, some, arith, subst, Option-cases, inl, inr,
}
use growth_clockwork.Broker.Tables.{
  completed, Task, Event, delegated, find_task, update_task, insert_event,
}
use growth_clockwork.Broker.Session.{Env, State, ok, ◌>>◌, require, transaction}
use growth_clockwork.Broker.Permissions.{read_permissions, snapshot_id}
use growth_clockwork.Broker.Lease.{set_closed}
use growth_clockwork.Broker.Handoff.{
  Handoff, child_digest, child_row, find_delegated, delegate_checks, finish_parent, delegate_writes,
  delegate_or_replay, delegate_body, delegate, check_handoff, check_counters,
}
use growth_clockwork.Broker.Lifecycle.{Leased, Move, Step, Steps}
use growth_clockwork.Broker.Rows.{find_task-append}
use growth_clockwork.Broker.Refinement.Actions.{
  require-ok, bind-ok, transaction-ok, holds_lease-Leased, Grows-of_eq, event_at, update-Step,
}
use growth_clockwork.Broker.Refinement.Admission.{permissions-ok, born_rows, born_rows-Step}

module _ (env : Env) (h : Handoff) (s s' : State) where
  finish_parent-Step :
      (at : ℕ) (task : String) (r : Task) (x : Task × Task)
      → find_task h.project h.parent_task s.db.tasks ≡ some r
      → Leased r h.version at
      → finish_parent env h at task s ≡ (ok x, s')
      → Step s.db s'.db
  unfolding update_task insert_event
  finish_parent-Step at task r x found leased k =
      update-Step s.db s'.db h.project h.parent_task (set_closed completed at) r
        (event_at env s.uuids s.ticks h.project h.parent_task
          (delegated h.child_agent (child_digest env h) h.input_sha256 h.version task) h.agent)
        found (Move.delegate h.version at leased refl) refl refl (ground arith)
        (Grows-of_eq _ _ (ground arith)) (Grows-of_eq _ _ (ground arith))

  -- The checks leave the database alone, and find the parent under a lease.
  delegate_checks-Leased :
      (at : ℕ)
      → delegate_checks env h s ≡ (ok at, s')
      → (s'.db ≡ s.db)
        × (r : Task) × (find_task h.project h.parent_task s.db.tasks ≡ some r)
        × Leased r h.version at
  delegate_checks-Leased at k = elim (Option-cases (find_task h.project h.parent_task s.db.tasks)) [
    | inl missing ↦ absurd (ground arith)
    | inr (r, found) ↦ elim (Option-cases (read_permissions h.agent s.config)) [
      | inl denied ↦ absurd (ground arith)
      | inr (g, granted) ↦
          (ground arith, r, found, holds_lease-Leased r h.agent h.token h.version at (ground arith))
    ]
  ]

module _ (env : Env) (h : Handoff) (s s' : State) (x : Task × Task) where
  delegate_writes-Steps :
      (at : ℕ) (r : Task)
      → find_task h.project h.parent_task s.db.tasks ≡ some r
      → Leased r h.version at
      → delegate_writes env h at s ≡ (ok x, s')
      → Steps s.db s'.db
  delegate_writes-Steps at r found leased k =
      let row = child_row env h at in
      let (g, _, k1) =
        permissions-ok h.child_agent
          (λ g. born_rows env h.project h.agent h.input_sha256 g at row (finish_parent env h at)) s
          s' x k in
      let (u, step, tasks, _, k2) =
        born_rows-Step env h.project h.agent h.input_sha256 g at (child_row env h at)
          (finish_parent env h at) s s' x (ground arith) k1 in
      Steps.next (Steps.next Steps.here step) (
        finish_parent-Step env h u s' at (env.uuid s.uuids) r x
          (ground (
            arith,
            find_task-append h.project h.parent_task s.db.tasks
                (row (snapshot_id env g) (env.uuid s.uuids)),
          ))
          leased k2)

module _ (env : Env) (h : Handoff) (s s' : State) (x : Task × Task) where
  delegate_or_replay-Steps :
      (o : Option Event) → delegate_or_replay env h o s ≡ (ok x, s') → Steps s.db s'.db
  delegate_or_replay-Steps none k =
      let (at, u, k1, k2) = bind-ok (delegate_checks env h) (delegate_writes env h) s s' x k in
      let (same, r, found, leased) = delegate_checks-Leased env h s u at k1 in
      subst (λ d. Steps d s'.db) same
        (delegate_writes-Steps env h u s' x at r (ground arith) leased k2)
  delegate_or_replay-Steps (some e) k =
      let same : s.db ≡ s'.db = ground arith in subst (Steps s.db) same Steps.here

  pub delegate-Steps : delegate env h s ≡ (ok x, s') → Steps s.db s'.db
  unfolding delegate
  delegate-Steps k =
      let body = delegate_body env h in
      let (_, k1) =
        require-ok (check_handoff h) _
          (require (check_counters h) "Invalid delegation counter or hash" >> transaction body) s s'
          x k in
      let (_, k2) = require-ok (check_counters h) _ (transaction body) s s' x k1 in
      delegate_or_replay-Steps (find_delegated h.project h.parent_task s.db.events)
        (transaction-ok body s s' x k2)
