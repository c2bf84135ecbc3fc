-- ===== src/Broker/History.antt =====
-- What one step of the lifecycle does to the row of a given task and to the audit events.
pub mod Advance
pub mod Audit
pub mod Standing
use growth_clockwork.Prelude.{
  ℕ, ◌+◌, ◌≤◌, ◌≡◌, refl, ◌⊎◌, inl, inr, String, Bool, true, false, Option, none, some, List, [],
  ◌∷◌, ◌++◌, arith, str_eq, eq_iff, ◌&&◌, ap, sym, subst, ◌∙◌, Bool-cases, if◌then◌else◌,
}
use growth_clockwork.Prelude.Int.{ℤ, pos, ◌≤ℤ◌}
use growth_clockwork.Broker.Tables.{
  admitted, Status, queued, running, awaiting_review, completed, failed, cancelled, Task, Details,
  Event, Db, find_task, replace_task, has_key,
}
use growth_clockwork.Broker.Review.{decided}
use growth_clockwork.Broker.Lifecycle.{Born, Leased, Move, Step, Steps}
use growth_clockwork.Broker.Rows.{
  KeysUnique, find_task-key, find_task-append, find_task-replace, KeysUnique-append,
  KeysUnique-replace,
}

-- What no method ever writes to an existing row.
pub record SameIdentity (r r' : Task) : Type 0 where
  pub project_id : r'.project_id ≡ r.project_id
  pub task_id : r'.task_id ≡ r.task_id
  pub origin : r'.origin ≡ r.origin
  pub origin_key : r'.origin_key ≡ r.origin_key
  pub request_sha256 : r'.request_sha256 ≡ r.request_sha256
  pub parent_task_id : r'.parent_task_id ≡ r.parent_task_id
  pub agent_id : r'.agent_id ≡ r.agent_id
  pub input_ref : r'.input_ref ≡ r.input_ref
  pub permission_snapshot_id : r'.permission_snapshot_id ≡ r.permission_snapshot_id
  pub max_attempts : r'.max_attempts ≡ r.max_attempts
  pub not_before : r'.not_before ≡ r.not_before
  pub created_at : r'.created_at ≡ r.created_at

module _ {d : Db} {p t : String} {r r' : Task} where
  pub Move-SameIdentity : {ds : Details} → Move d p t r r' ds → SameIdentity r r'
  Move-SameIdentity (Move.claim token ends at a b c e f) = ground arith
  Move-SameIdentity (Move.fail version at l e) = ground arith
  Move-SameIdentity (Move.expire ends at a b c e) = ground arith
  Move-SameIdentity (Move.delegate version at l e) = ground arith
  Move-SameIdentity (Move.submit version at l e) = ground arith
  Move-SameIdentity (Move.complete version at l e) = ground arith
  Move-SameIdentity (Move.review at a b e) = ground arith

  pub Move-version : {ds : Details} → Move d p t r r' ds → r'.version ≡ r.version + 1
  Move-version (Move.claim token ends at a b c e f) = ground arith
  Move-version (Move.fail version at l e) = ground arith
  Move-version (Move.expire ends at a b c e) = ground arith
  Move-version (Move.delegate version at l e) = ground arith
  Move-version (Move.submit version at l e) = ground arith
  Move-version (Move.complete version at l e) = ground arith
  Move-version (Move.review at a b e) = ground arith

-- Whether an event is about a task.
abbrev pub about : String → String → Event → Bool
about p t e = str_eq e.project_id p && str_eq e.task_id t

-- What a step does to the row of one task, given the event that it writes.
pub data Row (d : Db) (p t : String) (e : Event) (o o' : Option Task) : Type 0 where
  kept : about p t e ≡ false → o' ≡ o → Row d p t e o o'
  born :
      (r : Task) (input_sha256 : String)
      → about p t e ≡ true
      → e.details ≡ admitted input_sha256
      → o ≡ none
      → Born r
      → o' ≡ some r
      → Row d p t e o o'
  moved :
      (r r' : Task)
      → about p t e ≡ true
      → o ≡ some r
      → Move d p t r r' e.details
      → o' ≡ some r'
      → Row d p t e o o'

-- A step writes one event, and its effect on a task is the one that the event names.
pub record Effect (d d' : Db) (p t : String) : Type 0 where
  pub event : Event
  pub events : d'.events ≡ d.events ++ event ∷ []
  pub row : Row d p t event (find_task p t d.tasks) (find_task p t d'.tasks)

about-split : (p t q u : String) → (str_eq q p && str_eq u t) ≡ true → (q ≡ p) × (u ≡ t)
about-split p t q u h = ground (arith, eq_iff q p, eq_iff u t)

module _ (d d' : Db) (p t : String) where
  Born-Row :
      (r : Task) (e : Event) (sha : String)
      → Born r
      → find_task r.project_id r.task_id d.tasks ≡ none
      → e.project_id ≡ r.project_id
      → e.task_id ≡ r.task_id
      → e.details ≡ admitted sha
      → d'.tasks ≡ d.tasks ++ r ∷ []
      → Row d p t e (find_task p t d.tasks) (find_task p t d'.tasks)
  Born-Row r e sha fresh absent ep et ed tasks =
      elim (Bool-cases (str_eq r.project_id p && str_eq r.task_id t)) [
        | inl same ↦
            let (hp, ht) = about-split p t r.project_id r.task_id same in
            let gone : find_task p t d.tasks ≡ none = cc (absent, hp, ht) in
            Row.born r sha (ground arith) ed gone fresh
              (ground (arith, find_task-append p t d.tasks r))
        | inr other ↦ Row.kept (ground arith) (ground (arith, find_task-append p t d.tasks r))
      ]

  moved-Row :
      (q u : String) (r r' : Task) (e : Event)
      → find_task q u d.tasks ≡ some r
      → Move d q u r r' e.details
      → e.project_id ≡ q
      → e.task_id ≡ u
      → d'.tasks ≡ replace_task q u (λ _. r') d.tasks
      → Row d p t e (find_task p t d.tasks) (find_task p t d'.tasks)
  moved-Row q u r r' e found move ep et tasks =
      let ids = Move-SameIdentity move in
      let (kp, kt) = find_task-key q u d.tasks r found in
      let after =
        find_task-replace q u p t r' d.tasks r found (ids.project_id ∙ kp) (ids.task_id ∙ kt) in
      elim (Bool-cases (str_eq q p && str_eq u t)) [
        | inl same ↦
            let (hp, ht) = about-split p t q u same in
            Row.moved r r' (ground arith) (cc (found, hp, ht))
              (subst (λ x. Move d x t r r' e.details) hp
                (subst (λ x. Move d q x r r' e.details) ht move))
              (ground (arith, after))
        | inr other ↦ Row.kept (ground arith) (ground (arith, after))
      ]

pub Step-Effect : {d d' : Db} (p t : String) → Step d d' → Effect d d' p t
Step-Effect {d} {d'} p t (Step.born r e sha fresh absent ep et ed tasks events _ _ _) = record {
  event = e;
  events = events;
  row = Born-Row d d' p t r e sha fresh absent ep et ed tasks;
}
Step-Effect {d} {d'} p t (Step.moved q u r r' e found move ep et tasks events _ _ _) = record {
  event = e;
  events = events;
  row = moved-Row d d' p t q u r r' e found move ep et tasks;
}

pub Step-KeysUnique : {d d' : Db} → Step d d' → KeysUnique d.tasks → KeysUnique d'.tasks
Step-KeysUnique {d} {d'} (Step.born r e sha fresh absent ep et ed tasks events _ _ _) unique =
    subst KeysUnique (sym tasks) (KeysUnique-append d.tasks r absent unique)
Step-KeysUnique {d} {d'} (Step.moved q u r r' e found move ep et tasks events _ _ _) unique =
    let ids = Move-SameIdentity move in
    let (kp, kt) = find_task-key q u d.tasks r found in
    subst KeysUnique (sym tasks)
      (KeysUnique-replace q u r' (ids.project_id ∙ kp) (ids.task_id ∙ kt) d.tasks unique)

pub Steps-KeysUnique : {d d' : Db} → Steps d d' → KeysUnique d.tasks → KeysUnique d'.tasks
Steps-KeysUnique Steps.here unique = unique
Steps-KeysUnique (Steps.next more step) unique = Step-KeysUnique step (Steps-KeysUnique more unique)
