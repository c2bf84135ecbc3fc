-- ===== src/Broker/History/Advance.antt =====
-- What any session of requests may do to the row of one task.
use growth_clockwork.Prelude.{◌≤◌, ◌≡◌, refl, String, Bool, true, false, some, arith, ◌∙◌, subst}
use growth_clockwork.Broker.Tables.{
  Status, completed, failed, cancelled, Task, Details, Db, find_task,
}
use growth_clockwork.Broker.Lifecycle.{Move, Steps}
use growth_clockwork.Broker.History.{
  SameIdentity, Move-SameIdentity, Move-version, Effect, Row, Step-Effect,
}

abbrev pub is_final : Status → Bool
is_final completed = true
is_final failed = true
is_final cancelled = true
is_final _ = false

-- The admission is never rewritten, the version tells every change, and a task that has ended is
-- never touched again.
pub record Advanced (r r' : Task) : Type 0 where
  pub identity : SameIdentity r r'
  pub later : r.version ≤ r'.version
  pub same_version : r'.version ≡ r.version → r' ≡ r
  pub ended : is_final r.status ≡ true → r' ≡ r

Advanced-refl : (r : Task) → Advanced r r
Advanced-refl r = record {
  identity = ground arith;
  later = omega arith;
  same_version = λ _. refl;
  ended = λ _. refl;
}

SameIdentity-trans : {r q u : Task} → SameIdentity r q → SameIdentity q u → SameIdentity r u
SameIdentity-trans a b = ground arith

Move-not_final :
    {d : Db} {p t : String} {r r' : Task} {ds : Details}
    → Move d p t r r' ds
    → is_final r.status ≡ false
Move-not_final (Move.claim token ends at a b c e f) = ground arith
Move-not_final (Move.fail version at l e) = ground arith
Move-not_final (Move.expire ends at a b c e) = ground arith
Move-not_final (Move.delegate version at l e) = ground arith
Move-not_final (Move.submit version at l e) = ground arith
Move-not_final (Move.complete version at l e) = ground arith
Move-not_final (Move.review at a b e) = ground arith

module _ (p t : String) where
  -- One step after an advance is an advance.
  Row-Advanced :
      {d d' : Db} (r q : Task)
      → find_task p t d.tasks ≡ some q
      → Advanced r q
      → Effect d d' p t
      → (u : Task) × (find_task p t d'.tasks ≡ some u) × Advanced r u
  Row-Advanced {d} {d'} r q found adv eff = go eff.row
    where
      go :
          Row d p t eff.event (find_task p t d.tasks) (find_task p t d'.tasks)
          → (u : Task) × (find_task p t d'.tasks ≡ some u) × Advanced r u
      go (Row.kept other same) = (q, same ∙ found, adv)
      go (Row.born x sha is details absent fresh same) = absurd (ground arith)
      go (Row.moved x x' is here move same) =
          let v = Move-version move in
          let n = Move-not_final move in
          let xq : x ≡ q = ground arith in
          (
            x',
            same,
            record {
              identity =
                  SameIdentity-trans adv.identity
                    (subst (λ y. SameIdentity y x') xq (Move-SameIdentity move));
              later = ground (arith, adv.later);
              same_version = λ e. absurd (ground (arith, adv.later));
              ended = λ e. absurd (ground (arith, adv.ended e));
            },
          )

  pub Steps-Advanced :
      {d d' : Db} (r : Task)
      → find_task p t d.tasks ≡ some r
      → Steps d d'
      → (u : Task) × (find_task p t d'.tasks ≡ some u) × Advanced r u
  Steps-Advanced r found Steps.here = (r, found, Advanced-refl r)
  Steps-Advanced r found (Steps.next more step) =
      let (q, here, adv) = Steps-Advanced r found more in
      Row-Advanced r q here adv (Step-Effect p t step)
