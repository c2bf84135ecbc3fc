-- ===== src/Broker/Requests.antt =====
-- The public methods of `TaskBroker` as one type of requests, and a session of them.
use growth_clockwork.Prelude.{ℕ, String, List, [], ◌∷◌}
use growth_clockwork.Broker.Tables.{Task, Db}
use growth_clockwork.Broker.Session.{Env, State, Result, ok, err, Action}
use growth_clockwork.Broker.Admission.{Admission, admit}
use growth_clockwork.Broker.Lease.{claim, fail, expire_leases}
use growth_clockwork.Broker.Handoff.{Handoff, delegate}
use growth_clockwork.Broker.Results.{Descriptor, accept_verified_result, accept_verified_completion}
use growth_clockwork.Broker.Review.{Review, accept_verified_decision}

pub data Request : Type 0 where
  admit_task : Admission → Request
  claim_task : (project task agent : String) → (lease_seconds : ℕ) → Request
  expire : (project actor : String) → (limit : ℕ) → Request
  delegate_task : Handoff → Request
  fail_task : (project task agent token : String) → (version : ℕ) → Request
  accept_result :
      (project task agent token : String) → (version : ℕ) → (assets : List Descriptor) → Request
  accept_completion :
      (project task agent token : String) → (version : ℕ) → (asset : Descriptor) → Request
  accept_decision : (project task : String) → Review → Request

pub data Reply : Type 0 where
  row : Task → Reply
  rows : Task × Task → Reply
  recovered : List String → Reply

-- The reply of a method, as one type.
abbrev pub reply_as : {A : Type 0} → (A → Reply) → Result A × State → Result Reply × State
reply_as f (ok a, s) = (ok (f a), s)
reply_as f (err e, s) = (err e, s)

unfoldable pub run : Env → Request → Action Reply
run env (admit_task a) s = reply_as row (admit env a s)
run env (claim_task p t agent seconds) s = reply_as row (claim env p t agent seconds s)
run env (expire p actor limit) s = reply_as recovered (expire_leases env p actor limit s)
run env (delegate_task h) s = reply_as rows (delegate env h s)
run env (fail_task p t agent token version) s = reply_as row (fail env p t agent token version s)
run env (accept_result p t agent token version assets) s =
    reply_as row (accept_verified_result env p t agent token version assets s)
run env (accept_completion p t agent token version asset) s =
    reply_as row (accept_verified_completion env p t agent token version asset s)
run env (accept_decision p t v) s = reply_as row (accept_verified_decision env p t v s)

-- The state after one request, whether it returns or raises.
abbrev pub after_request : Env → Request → State → State
after_request env q s = (run env q s).1

-- A session: requests of any callers, one after the other (each holds the write lock of SQLite
-- while it runs).
unfoldable pub serve : Env → List Request → State → State
serve env [] s = s
serve env (q ∷ qs) s = serve env qs (after_request env q s)

abbrev pub empty_db : Db
empty_db = record { snapshots = []; tasks = []; assets = []; decisions = []; events = [] }
