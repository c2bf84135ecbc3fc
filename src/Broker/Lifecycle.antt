-- ===== src/Broker/Lifecycle.antt =====
-- What a broker may do to its database, as an abstract transition system: a task is born queued,
-- and each later change of a row is one of seven moves that its audit event names.
use growth_clockwork.Prelude.{ℕ, ◌+◌, ◌<◌, ◌≤◌, ◌≡◌, String, none, some, List, [], ◌∷◌, ◌++◌, true}
use growth_clockwork.Prelude.Int.{pos, ◌≤ℤ◌}
use growth_clockwork.Broker.Tables.{
  queued, running, awaiting_review, completed, failed, Task, Details, admitted, claimed,
  lease_expired, delegated, task_failed, result_accepted, completion_accepted, review_reconciled,
  Event, Db, find_task, replace_task, has_exact_asset,
}
use growth_clockwork.Broker.Lease.{set_claimed, set_closed}
use growth_clockwork.Broker.Review.{set_decided, decided}

-- A row as an admission leaves it.
pub record Born (r : Task) : Type 0 where
  pub waits : r.status ≡ queued
  pub unversioned : r.version ≡ 0
  pub untried : r.attempt ≡ 0
  pub unleased : r.lease_token ≡ none

-- The lease of a row ran at the time of the write.
pub record Leased (r : Task) (version at : ℕ) : Type 0 where
  pub runs : r.status ≡ running
  pub current : r.version ≡ version
  pub ends : ℕ
  pub lease : r.lease_expires_at ≡ some ends
  pub in_time : at < ends

-- One change of one row, with the details of its audit event.
pub data Move (d : Db) (p t : String) (r r' : Task) : Details → Type 0 where
  claim :
      (token : String) (ends at : ℕ)
      → r.status ≡ queued
      → pos (r.attempt + 1) ≤ℤ r.max_attempts
      → r.not_before ≤ℤ pos at
      → at < ends
      → r' ≡ set_claimed token ends at r
      → Move d p t r r' (claimed (r.version + 1))
  fail :
      (version at : ℕ)
      → Leased r version at
      → r' ≡ set_closed failed at r
      → Move d p t r r' task_failed
  expire :
      (ends at : ℕ)
      → r.status ≡ running
      → r.lease_expires_at ≡ some ends
      → ends ≤ at
      → r' ≡ set_closed failed at r
      → Move d p t r r' (lease_expired r.version r.lease_expires_at)
  delegate :
      {agent request input child : String} (version at : ℕ)
      → Leased r version at
      → r' ≡ set_closed completed at r
      → Move d p t r r' (delegated agent request input version child)
  submit :
      {result lease : String} (version at : ℕ)
      → Leased r version at
      → r' ≡ set_closed awaiting_review at r
      → Move d p t r r' (result_accepted result lease version)
  complete :
      {result ref lease : String} (version at : ℕ)
      → Leased r version at
      → r' ≡ set_closed completed at r
      → Move d p t r r' (completion_accepted result ref lease version)
  review :
      {decision asset revision sha256 action note source : String} (at : ℕ)
      → r.status ≡ awaiting_review
      → has_exact_asset p t asset revision sha256 d.assets ≡ true
      → r' ≡ set_decided (decided action) at r
      → Move d p t r r' (review_reconciled decision asset revision sha256 action note source)

-- A table that only grows.
abbrev pub Grows {ℓ} : {A : Type ℓ} → List A → List A → Type ℓ
Grows {A = A} xs ys = (zs : List A) × (ys ≡ xs ++ zs)

-- One event is written with each birth and each move; the other tables only grow.
pub data Step (d d' : Db) : Type 0 where
  born :
      (r : Task) (e : Event) (input_sha256 : String)
      → Born r
      → find_task r.project_id r.task_id d.tasks ≡ none
      → e.project_id ≡ r.project_id
      → e.task_id ≡ r.task_id
      → e.details ≡ admitted input_sha256
      → d'.tasks ≡ d.tasks ++ r ∷ []
      → d'.events ≡ d.events ++ e ∷ []
      → Grows d.snapshots d'.snapshots
      → d'.assets ≡ d.assets
      → d'.decisions ≡ d.decisions
      → Step d d'
  moved :
      (p t : String) (r r' : Task) (e : Event)
      → find_task p t d.tasks ≡ some r
      → Move d p t r r' e.details
      → e.project_id ≡ p
      → e.task_id ≡ t
      → d'.tasks ≡ replace_task p t (λ _. r') d.tasks
      → d'.events ≡ d.events ++ e ∷ []
      → d'.snapshots ≡ d.snapshots
      → Grows d.assets d'.assets
      → Grows d.decisions d'.decisions
      → Step d d'

-- Any number of steps.
pub data Steps (d : Db) : Db → Type 0 where
  here : Steps d d
  next : {e f : Db} → Steps d e → Step e f → Steps d f

pub Steps-trans : {d e f : Db} → Steps d e → Steps e f → Steps d f
Steps-trans a here = a
Steps-trans a (next b st) = next (Steps-trans a b) st
