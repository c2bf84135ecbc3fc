-- ===== src/Broker/Refinement/Expiry.antt =====
-- `expire_leases` makes one step for each row that it recovers.
mod Selection
use Selection.{
  Due, Apart, Distinct, All-Due-replace, All-order_rows, All-take, Distinct-order_rows,
  Distinct-take, expired_rows-Due,
}
use growth_clockwork.Prelude.{
  ℕ, zero, suc, ◌≤◌, ◌≡◌, ◌≢◌, refl, String, Bool, true, false, Option, none, some, ◌∷◌, [], ◌++◌,
  List, arith, ap, sym, subst, Option-cases, inl, inr, All, take, str_eq, eq_iff, Bool-cases, ◌&&◌,
  ◌⊎◌, leb,
}
use growth_clockwork.Broker.Tables.{
  running, failed, Task, Event, Db, Details, lease_expired, find_task, update_task, insert_event,
  has_key, replace_task,
}
use growth_clockwork.Broker.Session.{Env, State, ok, pure, now, ◌>>=◌, ◌>>◌, require, transaction}
use growth_clockwork.Broker.Permissions.{is_text}
use growth_clockwork.Broker.Lease.{
  set_closed, is_expired, expired_rows, ordered, insert_ordered, order_rows, due_rows, recover_one,
  recover, expire_body, expire_leases,
}
use growth_clockwork.Broker.Lifecycle.{Move, Step, Steps, Steps-trans}
use growth_clockwork.Broker.Rows.{KeysUnique, find_task-replace, find_task-key, replace_task-const}
use growth_clockwork.Broker.Refinement.Actions.{
  require-ok, bind-ok, transaction-ok, Grows-of_eq, event_at, update-Step,
}

module _ (env : Env) (p actor : String) (at : ℕ) where
  recover_one-Step :
      (r : Task) (s s' : State) (x : Unit)
      → Due p at s.db.tasks r
      → recover_one env p actor at r s ≡ (ok x, s')
      → Step s.db s'.db × (s'.db.tasks ≡ replace_task p r.task_id (set_closed failed at) s.db.tasks)
  unfolding update_task insert_event
  recover_one-Step r s s' x due h = (
    update-Step s.db s'.db p r.task_id (set_closed failed at) r
        (event_at env s.uuids s.ticks p r.task_id (lease_expired r.version r.lease_expires_at)
          actor)
        due.found (Move.expire due.ends at due.runs due.lease due.over refl) refl refl
        (ground arith) (Grows-of_eq _ _ (ground arith)) (Grows-of_eq _ _ (ground arith)),
    ground arith,
  )

  recover-Steps :
      (rows : List Task) (s s' : State) (ids : List String)
      → All (Due p at s.db.tasks) rows
      → Distinct rows
      → recover env p actor at rows s ≡ (ok ids, s')
      → Steps s.db s'.db
  unfolding recover
  recover-Steps [] s s' ids due distinct h =
      let same : s.db ≡ s'.db = ground arith in subst (Steps s.db) same Steps.here
  recover-Steps (r ∷ rows) s s' ids (dr, due) (apart, distinct) h =
      let (x, u, h1, h2) =
        bind-ok (recover_one env p actor at r)
          (λ _. recover env p actor at rows >>= λ rest. pure (r.task_id ∷ rest)) s s' ids h in
      let (step, e) = recover_one-Step r s u x dr h1 in
      let (rest, v, h3, h4) =
        bind-ok (recover env p actor at rows) (λ rest. pure (r.task_id ∷ rest)) u s' ids h2 in
      let due' =
        subst (λ ts. All (Due p at ts) rows) (sym e)
          (All-Due-replace p at s.db.tasks r rows dr apart due) in
      let same : v.db ≡ s'.db = ground arith in
      Steps-trans (Steps.next Steps.here step)
        (subst (Steps u.db) same (recover-Steps rows u v rest due' distinct h3))

module _ (env : Env) (p actor : String) (limit : ℕ) (s s' : State) (ids : List String) where
  pub expire_leases-Steps :
      KeysUnique s.db.tasks → expire_leases env p actor limit s ≡ (ok ids, s') → Steps s.db s'.db
  unfolding expire_leases
  expire_leases-Steps unique h =
      let at = env.clock s.ticks in
      let u : State = record s { ticks = suc s.ticks } in
      let body = expire_body env p actor limit in
      let (_, h1) =
        require-ok (is_text p && (is_text actor && (leb 1 limit && leb limit 100))) _
          (transaction body) s s' ids h in
      let (due, distinct) = expired_rows-Due p at s.db.tasks unique in
      let rows = order_rows (expired_rows p at s.db.tasks) in
      recover-Steps env p actor at (due_rows p at limit s.db.tasks) u s' ids
        (All-take (Due p at s.db.tasks) limit rows
          (All-order_rows (Due p at s.db.tasks) (expired_rows p at s.db.tasks) due))
        (Distinct-take limit rows (Distinct-order_rows (expired_rows p at s.db.tasks) distinct))
        (transaction-ok body s s' ids h1)
