-- ===== src/Broker/Refinement.antt =====
-- Every request of the broker that returns has made steps of the lifecycle, and so has every
-- session of requests.
pub mod Actions
pub mod Claim
mod Results
mod Review
pub mod Admission
mod Handoff
mod Expiry
use growth_clockwork.Prelude.{
  ◌≡◌, refl, String, Bool, true, false, Option, none, some, List, [], ◌∷◌, ◌++◌, arith, ap, sym,
  subst, eq_iff, str_eq,
}
use growth_clockwork.Broker.Tables.{Task, Db, find_task, replace_task}
use growth_clockwork.Broker.Session.{Env, State, Result, ok, err, Action}
use growth_clockwork.Broker.Lifecycle.{Step, Steps, Steps-trans}
use growth_clockwork.Broker.Rows.{KeysUnique, find_task-key, find_task-append, find_task-replace}
use growth_clockwork.Broker.Requests.{
  Request, Reply, admit_task, claim_task, expire, delegate_task, fail_task, accept_result,
  accept_completion, accept_decision, reply_as, run, after_request, serve,
}
use growth_clockwork.Broker.Atomic.{run-atomic}
use growth_clockwork.Broker.Admission.{admit}
use growth_clockwork.Broker.Lease.{claim, fail, expire_leases}
use growth_clockwork.Broker.Handoff.{delegate}
use growth_clockwork.Broker.Results.{accept_verified_result, accept_verified_completion}
use growth_clockwork.Broker.Review.{accept_verified_decision}
use Claim.{claim-Steps, fail-Steps}
use Results.{accept_verified_result-Steps, accept_verified_completion-Steps}
use Review.{accept_verified_decision-Steps}
use Admission.{admit-Steps}
use Handoff.{delegate-Steps}
use Expiry.{expire_leases-Steps}

-- A reply is the method's result.
reply-ok :
    {A : Type 0} (f : A → Reply) (x : Result A × State) (y : Reply) (s' : State)
    → reply_as f x ≡ (ok y, s')
    → (a : A) × (x ≡ (ok a, s'))
reply-ok f (ok a, s) y s' h = (a, ground arith)
reply-ok f (err e, s) y s' h = ground arith

-- A request that returns a reply has taken the database along steps of the lifecycle.
pub run-Steps :
    (env : Env) (q : Request) (s s' : State) (y : Reply)
    → KeysUnique s.db.tasks
    → run env q s ≡ (ok y, s')
    → Steps s.db s'.db
unfolding run
run-Steps env (admit_task a) s s' y unique h =
    let (r, k) = reply-ok Reply.row (admit env a s) y s' h in admit-Steps env a s s' r k
run-Steps env (claim_task p t agent seconds) s s' y unique h =
    let (r, k) = reply-ok Reply.row (claim env p t agent seconds s) y s' h in
    claim-Steps env p t agent s s' r seconds k
run-Steps env (expire p actor limit) s s' y unique h =
    let (ids, k) = reply-ok Reply.recovered (expire_leases env p actor limit s) y s' h in
    expire_leases-Steps env p actor limit s s' ids unique k
run-Steps env (delegate_task d) s s' y unique h =
    let (x, k) = reply-ok Reply.rows (delegate env d s) y s' h in delegate-Steps env d s s' x k
run-Steps env (fail_task p t agent token version) s s' y unique h =
    let (r, k) = reply-ok Reply.row (fail env p t agent token version s) y s' h in
    fail-Steps env p t agent s s' r token version k
run-Steps env (accept_result p t agent token version assets) s s' y unique h =
    let (r, k) =
      reply-ok Reply.row (accept_verified_result env p t agent token version assets s) y s' h in
    accept_verified_result-Steps env p t agent token version s s' r assets k
run-Steps env (accept_completion p t agent token version asset) s s' y unique h =
    let (r, k) =
      reply-ok Reply.row (accept_verified_completion env p t agent token version asset s) y s' h in
    accept_verified_completion-Steps env p t agent token version s s' r asset k
run-Steps env (accept_decision p t v) s s' y unique h =
    let (r, k) = reply-ok Reply.row (accept_verified_decision env p t v s) y s' h in
    accept_verified_decision-Steps env p t v s s' r k
