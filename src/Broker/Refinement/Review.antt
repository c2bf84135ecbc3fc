-- ===== src/Broker/Refinement/Review.antt =====
-- `accept_verified_decision` makes one step, or none on a replay.
use growth_clockwork.Prelude.{suc, ◌≡◌, refl, String, Option, none, some, ◌∷◌, [], arith, subst}
use growth_clockwork.Broker.Tables.{
  Task, Event, Decision, find_task, update_task, insert_event, insert_decision,
}
use growth_clockwork.Broker.Session.{Env, State, ok, transaction}
use growth_clockwork.Broker.Review.{
  Review, operator, proof_of, set_decided, decided, find_review, decide_new, decide_or_replay,
  decision_body, check_review, accept_verified_decision,
}
use growth_clockwork.Broker.Lifecycle.{Move, Step, Steps}
use growth_clockwork.Broker.Refinement.Actions.{
  require-ok, get-ok, transaction-ok, Grows-of_eq, event_at, update-Step,
}

module _ (env : Env) (p t : String) (v : Review) (s s' : State) (r' : Task) where
  abbrev decision_row : Decision
  decision_row = record {
    project_id = p;
    decision_id = v.decision_id;
    task_id = t;
    asset_id = v.asset_id;
    revision = v.revision;
    sha256 = v.sha256;
    action = v.action;
    actor_id = operator;
    note_ref = v.note_ref;
    created_at = env.clock s.ticks;
  }

  decide_new-Step :
      (r : Task)
      → find_task p t s.db.tasks ≡ some r
      → decide_new env p t r v s ≡ (ok r', s')
      → Step s.db s'.db
  unfolding update_task insert_event insert_decision
  decide_new-Step r found h =
      let at = env.clock s.ticks in
      update-Step s.db s'.db p t (set_decided (decided v.action) at) r
        (event_at env s.uuids (suc s.ticks) p t (proof_of v) operator) found
        (Move.review at (ground arith) (ground arith) refl) refl refl (ground arith)
        (Grows-of_eq _ _ (ground arith)) (decision_row ∷ [], ground arith)

  decide_or_replay-Steps :
      (r : Task) (o : Option Event)
      → find_task p t s.db.tasks ≡ some r
      → decide_or_replay env p t r v o s ≡ (ok r', s')
      → Steps s.db s'.db
  decide_or_replay-Steps r none found h = Steps.next Steps.here (decide_new-Step r found h)
  decide_or_replay-Steps r (some e) found h =
      let same : s.db ≡ s'.db = ground arith in subst (Steps s.db) same Steps.here

  pub accept_verified_decision-Steps :
      accept_verified_decision env p t v s ≡ (ok r', s') → Steps s.db s'.db
  unfolding accept_verified_decision
  accept_verified_decision-Steps h =
      let body = decision_body env p t v in
      let (_, h1) = require-ok (check_review v) _ (transaction body) s s' r' h in
      let (r, found, h2) =
        get-ok p t (λ r u. decide_or_replay env p t r v (find_review p t u.db.events) u) s s' r'
          (transaction-ok body s s' r' h1) in
      decide_or_replay-Steps r (find_review p t s.db.events) found h2
