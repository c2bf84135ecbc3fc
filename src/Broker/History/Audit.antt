-- ===== src/Broker/History/Audit.antt =====
-- The audit events of a task against its row: one admission, then one event for each version, and
-- an end that an event accounts for.
use growth_clockwork.Prelude.{
  ℕ, suc, ◌+◌, ◌≡◌, String, Bool, true, false, none, some, List, [], ◌∷◌, ◌++◌, arith, ◌∙◌, sym,
  ◌&&◌, ◌==◌, not, str_eq, if◌then◌else◌,
}
use growth_clockwork.Broker.Tables.{
  Status, queued, running, awaiting_review, completed, failed, cancelled, Task, Details, Event, Db,
  find_task, admitted, claimed, lease_expired, delegated, task_failed, result_accepted,
  completion_accepted, review_reconciled,
}
use growth_clockwork.Broker.Review.{decided}
use growth_clockwork.Broker.Lifecycle.{Born, Move, Step, Steps}
use growth_clockwork.Broker.History.{about, Move-version, Effect, Row, Step-Effect}

-- The number of events of a task.
abbrev pub count_about : String → String → List Event → ℕ
count_about p t [] = 0
count_about p t (e ∷ es) = let rest = count_about p t es in if about p t e then suc rest else rest

count_about-append :
    (p t : String) (es : List Event) (e : Event)
    → count_about p t (es ++ e ∷ [])
      ≡ (if about p t e then count_about p t es + 1 else count_about p t es)
count_about-append p t [] e = ground arith
count_about-append p t (x ∷ es) e = ground (arith, count_about-append p t es e)

-- An event that accounts for a status.
unfoldable pub accounts_for : Status → Details → Bool
accounts_for queued (admitted _) = true
accounts_for running (claimed _) = true
accounts_for awaiting_review (result_accepted _ _ _) = true
accounts_for completed (delegated _ _ _ _ _) = true
accounts_for completed (completion_accepted _ _ _ _) = true
accounts_for completed (review_reconciled _ _ _ _ action _ _) = str_eq action "approve"
accounts_for failed task_failed = true
accounts_for failed (lease_expired _ _) = true
accounts_for cancelled (review_reconciled _ _ _ _ action _ _) = not (str_eq action "approve")
accounts_for _ _ = false

-- Whether the last event of a task accounts for a status.
abbrev pub last_accounts : String → String → Status → List Event → Bool
last_accounts p t status [] = false
last_accounts p t status (e ∷ es) =
    let rest = last_accounts p t status es in
    if about p t e && count_about p t es == 0 then accounts_for status e.details else rest

-- Every row has one event more than its version, the last of which explains its status; an event
-- is about a task that is there.
pub record IsAudited (d : Db) : Type 0 where
  pub counted :
      (p t : String) (r : Task)
      → find_task p t d.tasks ≡ some r
      → count_about p t d.events ≡ r.version + 1
  pub unborn : (p t : String) → find_task p t d.tasks ≡ none → count_about p t d.events ≡ 0
  pub explained :
      (p t : String) (r : Task)
      → find_task p t d.tasks ≡ some r
      → last_accounts p t r.status d.events ≡ true

Move-accounts :
    {d : Db} {p t : String} {r r' : Task} {ds : Details}
    → Move d p t r r' ds
    → accounts_for r'.status ds ≡ true
unfolding decided accounts_for
Move-accounts (Move.claim token ends at a b c e f) = ground arith
Move-accounts (Move.fail version at l e) = ground arith
Move-accounts (Move.expire ends at a b c e) = ground arith
Move-accounts (Move.delegate version at l e) = ground arith
Move-accounts (Move.submit version at l e) = ground arith
Move-accounts (Move.complete version at l e) = ground arith
Move-accounts (Move.review {action = action} at a b e) = ground arith

last_accounts-append :
    (p t : String) (status : Status) (es : List Event) (e : Event)
    → last_accounts p t status (es ++ e ∷ [])
      ≡ (if about p t e then accounts_for status e.details else last_accounts p t status es)
last_accounts-append p t status [] e = ground arith
last_accounts-append p t status (x ∷ es) e =
    ground (arith, last_accounts-append p t status es e, count_about-append p t es e)

Born-accounts : (r : Task) (sha : String) → Born r → accounts_for r.status (admitted sha) ≡ true
unfolding accounts_for
Born-accounts r sha b = ground arith

module _ {d d' : Db} (a : IsAudited d) (p t : String) (eff : Effect d d' p t) where
  Effect-counted :
      (u : Task) → find_task p t d'.tasks ≡ some u → count_about p t d'.events ≡ u.version + 1
  Effect-counted u found = go eff.row
    where
      go :
          Row d p t eff.event (find_task p t d.tasks) (find_task p t d'.tasks)
          → count_about p t d'.events ≡ u.version + 1
      go (Row.kept other same) = ground (
        arith,
        eff.events,
        count_about-append p t d.events eff.event,
        a.counted p t u (sym same ∙ found),
      )
      go (Row.born x sha is details absent fresh same) = ground (
        arith,
        eff.events,
        count_about-append p t d.events eff.event,
        a.unborn p t absent,
        fresh.unversioned,
      )
      go (Row.moved x x' is here move same) = ground (
        arith,
        eff.events,
        count_about-append p t d.events eff.event,
        a.counted p t x here,
        Move-version move,
      )

  Effect-unborn : find_task p t d'.tasks ≡ none → count_about p t d'.events ≡ 0
  Effect-unborn found = go eff.row
    where
      go :
          Row d p t eff.event (find_task p t d.tasks) (find_task p t d'.tasks)
          → count_about p t d'.events ≡ 0
      go (Row.kept other same) = ground (
        arith,
        eff.events,
        count_about-append p t d.events eff.event,
        a.unborn p t (sym same ∙ found),
      )
      go (Row.born x sha is details absent fresh same) = ground arith
      go (Row.moved x x' is here move same) = ground arith

  Effect-explained :
      (u : Task) → find_task p t d'.tasks ≡ some u → last_accounts p t u.status d'.events ≡ true
  Effect-explained u found = go eff.row
    where
      go :
          Row d p t eff.event (find_task p t d.tasks) (find_task p t d'.tasks)
          → last_accounts p t u.status d'.events ≡ true
      go (Row.kept other same) = ground (
        arith,
        eff.events,
        last_accounts-append p t u.status d.events eff.event,
        a.explained p t u (sym same ∙ found),
      )
      go (Row.born x sha is details absent fresh same) = ground (
        arith,
        eff.events,
        last_accounts-append p t u.status d.events eff.event,
        Born-accounts x sha fresh,
        details,
      )
      go (Row.moved x x' is here move same) = ground (
        arith,
        eff.events,
        last_accounts-append p t u.status d.events eff.event,
        Move-accounts move,
      )

pub Step-IsAudited : {d d' : Db} → IsAudited d → Step d d' → IsAudited d'
Step-IsAudited a step = record {
  counted = λ p t. Effect-counted a p t (Step-Effect p t step);
  unborn = λ p t. Effect-unborn a p t (Step-Effect p t step);
  explained = λ p t. Effect-explained a p t (Step-Effect p t step);
}

pub Steps-IsAudited : {d d' : Db} → IsAudited d → Steps d d' → IsAudited d'
Steps-IsAudited a Steps.here = a
Steps-IsAudited a (Steps.next more step) = Step-IsAudited (Steps-IsAudited a more) step
