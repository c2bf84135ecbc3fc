-- ===== src/Broker/Atomic.antt =====
-- A request that raises leaves every table as it was.
use growth_clockwork.Prelude.{
  ℕ, suc, [], not, ◌&&◌, leb, length, str_eq, is_sha256, subst, ◌≡◌, refl, String, Bool, true,
  false, List,
}
use growth_clockwork.Broker.Tables.{Db}
use growth_clockwork.Broker.Session.{
  Env, State, Result, Error, ok, err, Action, require, now, transaction, ◌>>=◌, ◌>>◌,
}
use growth_clockwork.Broker.Permissions.{is_text}
use growth_clockwork.Broker.Admission.{Admission, admit, admit_body, check_fields, parent_is_text}
use growth_clockwork.Broker.Lease.{claim, claim_body, fail, fail_body, expire_leases, expire_body}
use growth_clockwork.Broker.Handoff.{
  Handoff, check_handoff, check_counters, delegate, delegate_body,
}
use growth_clockwork.Broker.Results.{
  Descriptor, check_descriptor, check_assets, result_body, completion_body, accept_verified_result,
  accept_verified_completion,
}
use growth_clockwork.Broker.Review.{Review, check_review, decision_body, accept_verified_decision}
use growth_clockwork.Broker.Requests.{
  Request, Reply, admit_task, claim_task, expire, delegate_task, fail_task, accept_result,
  accept_completion, accept_decision, run, reply_as,
}

-- Unless it returned, the call has left the database alone.
abbrev Unwritten : {A : Type 0} → Result A × State → Db → Type 0
Unwritten (ok a, s) d = Unit
Unwritten (err e, s) d = s.db ≡ d

module _ {A : Type 0} where
  transaction-Unwritten : (m : Action A) (s : State) → Unwritten (transaction m s) s.db
  transaction-Unwritten m s = go (m s)
    where
      go :
          (x : Result A × State)
          → Unwritten {A = A}
              (elim x.0 [ ok a ↦ (ok a, x.1) | err e ↦ (err e, record x.1 { db = s.db }) ])
              s.db
      go (ok a, u) = tt
      go (err e, u) = refl

  require-Unwritten :
      (b : Bool) (message : String) (k : Action A) (s : State)
      → Unwritten (k s) s.db
      → Unwritten ((require b message >> k) s) s.db
  require-Unwritten true message k s h = h
  require-Unwritten false message k s h = refl

-- What `Unwritten` says is the same of the reply.
reply-Unwritten :
    {A : Type 0} (f : A → Reply) (x : Result A × State) (d : Db)
    → Unwritten x d
    → Unwritten (reply_as f x) d
reply-Unwritten f (ok a, s) d h = tt
reply-Unwritten f (err e, s) d h = h

module _ (env : Env) (s : State) where
  admit-Unwritten : (a : Admission) → Unwritten (admit env a s) s.db
  unfolding admit
  admit-Unwritten a =
      let u : State = record s { ticks = suc s.ticks } in
      let begin = now env >>= λ n. transaction (admit_body env a n) in
      let hashed = require (is_sha256 a.input_sha256) "Invalid input hash" >> begin in
      let rooted = require (parent_is_text a.parent_task_id) "Invalid parent task" >> hashed in
      require-Unwritten (check_fields a) "Invalid admission field" rooted s (
        require-Unwritten (parent_is_text a.parent_task_id) "Invalid parent task" hashed s (
          require-Unwritten (is_sha256 a.input_sha256) "Invalid input hash" begin s
            (transaction-Unwritten (admit_body env a (env.clock s.ticks)) u)))

  claim-Unwritten :
      (p t agent : String) (seconds : ℕ) → Unwritten (claim env p t agent seconds s) s.db
  unfolding claim
  claim-Unwritten p t agent seconds =
      let body = transaction (claim_body env p t agent seconds) in
      require-Unwritten (leb 1 seconds && leb seconds 3600)
        "Lease must be between 1 and 3600 seconds" body s
        (transaction-Unwritten (claim_body env p t agent seconds) s)

  expire_leases-Unwritten :
      (p actor : String) (limit : ℕ) → Unwritten (expire_leases env p actor limit s) s.db
  unfolding expire_leases
  expire_leases-Unwritten p actor limit =
      require-Unwritten (is_text p && (is_text actor && (leb 1 limit && leb limit 100)))
        "Invalid lease recovery scope or limit" (transaction (expire_body env p actor limit)) s
        (transaction-Unwritten (expire_body env p actor limit) s)

  delegate-Unwritten : (h : Handoff) → Unwritten (delegate env h s) s.db
  unfolding delegate
  delegate-Unwritten h =
      let body = transaction (delegate_body env h) in
      let counted = require (check_counters h) "Invalid delegation counter or hash" >> body in
      require-Unwritten (check_handoff h) "Invalid delegation field" counted s (
        require-Unwritten (check_counters h) "Invalid delegation counter or hash" body s
          (transaction-Unwritten (delegate_body env h) s))

  fail-Unwritten :
      (p t agent token : String) (version : ℕ) → Unwritten (fail env p t agent token version s) s.db
  unfolding fail
  fail-Unwritten p t agent token version =
      transaction-Unwritten (fail_body env p t agent token version) s

  accept_verified_result-Unwritten :
      (p t agent token : String) (version : ℕ) (assets : List Descriptor)
      → Unwritten (accept_verified_result env p t agent token version assets s) s.db
  unfolding accept_verified_result
  accept_verified_result-Unwritten p t agent token version assets =
      let body = transaction (result_body env p t agent token version assets) in
      let held = require (not (str_eq token "")) "Stale or invalid worker lease" >> body in
      let message : String = "Invalid asset descriptor, hash, size or duplicate revision" in
      let checked = require (check_assets [] assets) message >> held in
      require-Unwritten (leb 1 (length assets) && leb (length assets) 100)
        "Result must contain between 1 and 100 verified assets" checked s
        (require-Unwritten (check_assets [] assets) message held s (
          require-Unwritten (not (str_eq token "")) "Stale or invalid worker lease" body s
            (transaction-Unwritten (result_body env p t agent token version assets) s)))

  accept_verified_completion-Unwritten :
      (p t agent token : String) (version : ℕ) (asset : Descriptor)
      → Unwritten (accept_verified_completion env p t agent token version asset s) s.db
  unfolding accept_verified_completion
  accept_verified_completion-Unwritten p t agent token version asset =
      require-Unwritten (check_descriptor asset && not (str_eq token ""))
        "Invalid completion receipt proof"
        (transaction (completion_body env p t agent token version asset)) s
        (transaction-Unwritten (completion_body env p t agent token version asset) s)

  accept_verified_decision-Unwritten :
      (p t : String) (v : Review) → Unwritten (accept_verified_decision env p t v s) s.db
  unfolding accept_verified_decision
  accept_verified_decision-Unwritten p t v =
      require-Unwritten (check_review v) "Unsupported review action, hash or reference"
        (transaction (decision_body env p t v)) s
        (transaction-Unwritten (decision_body env p t v) s)

  run-Unwritten : (q : Request) → Unwritten (run env q s) s.db
  unfolding run
  run-Unwritten (admit_task a) = reply-Unwritten Reply.row (admit env a s) s.db (admit-Unwritten a)
  run-Unwritten (claim_task p t agent seconds) =
      reply-Unwritten Reply.row (claim env p t agent seconds s) s.db
        (claim-Unwritten p t agent seconds)
  run-Unwritten (expire p actor limit) =
      reply-Unwritten Reply.recovered (expire_leases env p actor limit s) s.db
        (expire_leases-Unwritten p actor limit)
  run-Unwritten (delegate_task h) =
      reply-Unwritten Reply.rows (delegate env h s) s.db (delegate-Unwritten h)
  run-Unwritten (fail_task p t agent token version) =
      reply-Unwritten Reply.row (fail env p t agent token version s) s.db
        (fail-Unwritten p t agent token version)
  run-Unwritten (accept_result p t agent token version assets) =
      reply-Unwritten Reply.row (accept_verified_result env p t agent token version assets s) s.db
        (accept_verified_result-Unwritten p t agent token version assets)
  run-Unwritten (accept_completion p t agent token version asset) =
      reply-Unwritten Reply.row (accept_verified_completion env p t agent token version asset s)
        s.db (accept_verified_completion-Unwritten p t agent token version asset)
  run-Unwritten (accept_decision p t v) =
      reply-Unwritten Reply.row (accept_verified_decision env p t v s) s.db
        (accept_verified_decision-Unwritten p t v)

-- A request that raises, whichever method it is and at whichever statement, leaves all five tables
-- as they were.
pub run-atomic :
    (env : Env) (q : Request) (s s' : State) (e : Error) → run env q s ≡ (err e, s') → s'.db ≡ s.db
run-atomic env q s s' e h =
    subst (λ (x : Result Reply × State). Unwritten x s.db) h (run-Unwritten env s q)
