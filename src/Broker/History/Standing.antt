-- ===== src/Broker/History/Standing.antt =====
-- What the status of a row says of its version, its attempts and its lease.
use growth_clockwork.Prelude.{ℕ, ◌≤◌, ◌≡◌, String, none, some, arith, ◌∙◌, sym, subst}
use growth_clockwork.Broker.Tables.{
  Status, queued, running, awaiting_review, completed, failed, cancelled, Task, Details, Db,
  find_task,
}
use growth_clockwork.Broker.Review.{decided}
use growth_clockwork.Broker.Lifecycle.{Born, Move, Step, Steps}
use growth_clockwork.Broker.History.{Row, Step-Effect}

-- The versions and the number of attempts that a status allows. A completed task has version 2 where
-- a delegation or a completion closed it, and 3 where an approval did.
abbrev pub Allows : Status → ℕ → ℕ → Type 0
Allows queued version attempt = (version ≡ 0) × (attempt ≡ 0)
Allows running version attempt = (version ≡ 1) × (attempt ≡ 1)
Allows awaiting_review version attempt = (version ≡ 2) × (attempt ≡ 1)
Allows failed version attempt = (version ≡ 2) × (attempt ≡ 1)
Allows completed version attempt = (2 ≤ version) × (version ≤ 3) × (attempt ≡ 1)
Allows cancelled version attempt = (version ≡ 3) × (attempt ≡ 1)

-- Only a running task has a lease.
pub record Stands (r : Task) : Type 0 where
  pub allowed : Allows r.status r.version r.attempt
  pub leased : (r.status ≡ running → ⊥) → r.lease_token ≡ none

unfoldable pub Standing : Db → Type 0
Standing d = (p t : String) (r : Task) → find_task p t d.tasks ≡ some r → Stands r

Born-Stands : (r : Task) → Born r → Stands r
Born-Stands r b = record {
  allowed = ground (arith, b.waits, b.unversioned, b.untried);
  leased = λ _. b.unleased;
}

Move-Stands :
    {d : Db} {p t : String} {r r' : Task} {ds : Details} → Move d p t r r' ds → Stands r → Stands r'
unfolding decided
Move-Stands (Move.claim token ends at a b c e f) s = record {
  allowed = ground (arith, s.allowed);
  leased = λ n. absurd (n (ground arith));
}
Move-Stands (Move.fail version at l e) s = record {
  allowed = ground (arith, s.allowed, l.runs);
  leased = λ _. ground arith;
}
Move-Stands (Move.expire ends at a b c e) s = record {
  allowed = ground (arith, s.allowed);
  leased = λ _. ground arith;
}
Move-Stands (Move.delegate version at l e) s = record {
  allowed = ground (arith, s.allowed, l.runs);
  leased = λ _. ground arith;
}
Move-Stands (Move.submit version at l e) s = record {
  allowed = ground (arith, s.allowed, l.runs);
  leased = λ _. ground arith;
}
Move-Stands (Move.complete version at l e) s = record {
  allowed = ground (arith, s.allowed, l.runs);
  leased = λ _. ground arith;
}
Move-Stands {r = r} (Move.review at a b e) s = record {
  allowed = ground (arith, s.allowed);
  leased = λ _. ground (arith, s.leased (λ k. ground arith));
}

pub Step-Standing : {d d' : Db} → Standing d → Step d d' → Standing d'
unfolding Standing
Step-Standing {d} {d'} h step p t u found = go (Step-Effect p t step).row
  where
    go :
        Row d p t (Step-Effect p t step).event (find_task p t d.tasks) (find_task p t d'.tasks)
        → Stands u
    go (Row.kept other same) = h p t u (sym same ∙ found)
    go (Row.born x sha is details absent fresh same) =
        subst Stands (ground arith) (Born-Stands x fresh)
    go (Row.moved x x' is here move same) =
        subst Stands (ground arith) (Move-Stands move (h p t x here))

pub Steps-Standing : {d d' : Db} → Standing d → Steps d d' → Standing d'
Steps-Standing h Steps.here = h
Steps-Standing h (Steps.next more step) = Step-Standing (Steps-Standing h more) step
