-- ===== src/Broker/Refinement/Claim.antt =====
-- `claim` and `fail` make one step each.
use growth_clockwork.Prelude.{
  ℕ, suc, ◌+◌, ◌≤◌, ◌≡◌, refl, String, true, arith, leb, ◌&&◌, Option-cases, inl, inr,
}
use growth_clockwork.Prelude.Int.{pos, ◌≤ℤ◌}
use growth_clockwork.Broker.Tables.{
  queued, failed, Task, find_task, update_task, insert_event, claimed, task_failed,
}
use growth_clockwork.Broker.Session.{Env, State, ok, transaction}
use growth_clockwork.Broker.Permissions.{Permissions, read_permissions}
use growth_clockwork.Broker.Lease.{
  claim, claim_body, claimable, fail, fail_body, set_claimed, set_closed,
}
use growth_clockwork.Broker.Lifecycle.{Move, Steps}
use growth_clockwork.Broker.Refinement.Actions.{
  require-ok, transaction-ok, holds_lease-Leased, Grows-of_eq, event_at, update-Step,
}

pub claimable_facts :
    (env : Env) (r : Task) (agent : String) (g : Permissions) (at : ℕ)
    → claimable env r agent g at ≡ true
    → (r.status ≡ queued) × (pos (r.attempt + 1) ≤ℤ r.max_attempts) × (r.not_before ≤ℤ pos at)
unfolding claimable
claimable_facts env r agent g at h = (ground arith, ground arith, ground arith)

module _ (env : Env) (p t agent : String) (s s' : State) (r' : Task) where
  claim_body-Steps :
      (lease : ℕ) → 1 ≤ lease → claim_body env p t agent lease s ≡ (ok r', s') → Steps s.db s'.db
  unfolding update_task insert_event
  claim_body-Steps lease one h = elim (Option-cases (find_task p t s.db.tasks)) [
    | inl missing ↦ absurd (ground arith)
    | inr (r, found) ↦ elim (Option-cases (read_permissions agent s.config)) [
      | inl denied ↦ absurd (ground arith)
      | inr (g, granted) ↦
          let at = env.clock s.ticks in
          let can : claimable env r agent g at ≡ true = ground arith in
          let facts = claimable_facts env r agent g at can in
          Steps.next Steps.here (
            update-Step s.db s'.db p t (set_claimed (env.uuid s.uuids) (at + lease) at) r
              (event_at env (suc s.uuids) (suc s.ticks) p t (claimed (r.version + 1)) agent) found
              (Move.claim (env.uuid s.uuids) (at + lease) at facts.0 facts.1 facts.2 (omega arith)
                refl)
              refl refl (ground arith) (Grows-of_eq _ _ (ground arith))
              (Grows-of_eq _ _ (ground arith)))
    ]
  ]

  pub claim-Steps : (lease : ℕ) → claim env p t agent lease s ≡ (ok r', s') → Steps s.db s'.db
  unfolding claim
  claim-Steps lease h =
      let (bounds, body) =
        require-ok (leb 1 lease && leb lease 3600) _ (transaction (claim_body env p t agent lease))
          s s' r' h in
      claim_body-Steps lease (ground arith)
        (transaction-ok (claim_body env p t agent lease) s s' r' body)

  fail_body-Steps :
      (token : String) (version : ℕ)
      → fail_body env p t agent token version s ≡ (ok r', s')
      → Steps s.db s'.db
  unfolding update_task insert_event
  fail_body-Steps token version h = elim (Option-cases (find_task p t s.db.tasks)) [
    | inl missing ↦ absurd (ground arith)
    | inr (r, found) ↦
        let at = env.clock s.ticks in
        let leased = holds_lease-Leased r agent token version at (ground arith) in
        Steps.next Steps.here (
          update-Step s.db s'.db p t (set_closed failed at) r
            (event_at env s.uuids (suc s.ticks) p t task_failed agent) found
            (Move.fail version at leased refl) refl refl (ground arith)
            (Grows-of_eq _ _ (ground arith)) (Grows-of_eq _ _ (ground arith)))
  ]

  pub fail-Steps :
      (token : String) (version : ℕ)
      → fail env p t agent token version s ≡ (ok r', s')
      → Steps s.db s'.db
  unfolding fail
  fail-Steps token version h =
      fail_body-Steps token version
        (transaction-ok (fail_body env p t agent token version) s s' r' h)
