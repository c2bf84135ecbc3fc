-- ===== src/Broker/Sessions.antt =====
-- The broker over whole sessions: any requests of any callers, valid or not, one after the other.
use growth_clockwork.Prelude.{
  ◌≡◌, refl, String, some, List, [], ◌∷◌, ◌++◌, arith, subst, sym, ◌∙◌, ap, append_assoc,
  append-nil,
}
use growth_clockwork.Broker.Tables.{Task, Db, find_task}
use growth_clockwork.Broker.Session.{Env, State, Result, ok, err}
use growth_clockwork.Broker.Requests.{Request, Reply, run, after_request, serve, empty_db}
use growth_clockwork.Broker.Lifecycle.{Grows, Step, Steps, Steps-trans}
use growth_clockwork.Broker.Rows.{KeysUnique}
use growth_clockwork.Broker.Atomic.{run-atomic}
use growth_clockwork.Broker.Refinement.{run-Steps}
use growth_clockwork.Broker.History.{Steps-KeysUnique}
use growth_clockwork.Broker.History.Advance.{Advanced, Steps-Advanced}
use growth_clockwork.Broker.History.Audit.{IsAudited, Steps-IsAudited}
use growth_clockwork.Broker.History.Standing.{Stands, Standing, Steps-Standing}

after_request-Steps :
    (env : Env) (q : Request) (s : State)
    → KeysUnique s.db.tasks
    → Steps s.db (after_request env q s).db
after_request-Steps env q s unique = go (run env q s) refl
  where
    go : (x : Result Reply × State) → run env q s ≡ x → Steps s.db x.1.db
    go (ok y, s') h = run-Steps env q s s' y unique h
    go (err e, s') h = subst (Steps s.db) (sym (run-atomic env q s s' e h)) Steps.here

-- Whatever the requests, a session takes the database along steps of the lifecycle, from any
-- database whose tasks have distinct keys.
pub serve-Steps :
    (env : Env) (qs : List Request) (s : State)
    → KeysUnique s.db.tasks
    → Steps s.db (serve env qs s).db
unfolding serve
serve-Steps env [] s unique = Steps.here
serve-Steps env (q ∷ qs) s unique =
    let first = after_request-Steps env q s unique in
    Steps-trans first (serve-Steps env qs (after_request env q s) (Steps-KeysUnique first unique))

-- Through any session a task keeps its admission (origin, request hash, agent, input, permission
-- snapshot, limits) unchanged, its version never falls, the row is the same where the version is,
-- and a task that is completed, failed or cancelled is never changed again.
pub serve-Advanced :
    (env : Env) (qs : List Request) (s : State) (p t : String) (r : Task)
    → KeysUnique s.db.tasks
    → find_task p t s.db.tasks ≡ some r
    → (u : Task) × (find_task p t (serve env qs s).db.tasks ≡ some u) × Advanced r u
serve-Advanced env qs s p t r unique found =
    Steps-Advanced p t r found (serve-Steps env qs s unique)

-- Through any session the audit trail stays complete: every task has exactly one event more than
-- its version (its admission and one for each change), the last of them accounts for its status,
-- and no event is about a task that is not there.
pub serve-IsAudited :
    (env : Env) (qs : List Request) (s : State)
    → KeysUnique s.db.tasks
    → IsAudited s.db
    → IsAudited (serve env qs s).db
serve-IsAudited env qs s unique audited = Steps-IsAudited audited (serve-Steps env qs s unique)

Grows-trans {ℓ} : {A : Type ℓ} (xs ys zs : List A) → Grows xs ys → Grows ys zs → Grows xs zs
Grows-trans xs ys zs (more, e) (most, f) =
    (more ++ most, f ∙ ap (λ l. l ++ most) e ∙ append_assoc xs more most)

-- The tables that the triggers of the schema declare append-only.
pub record OnlyAppended (d d' : Db) : Type 0 where
  pub snapshots : Grows d.snapshots d'.snapshots
  pub assets : Grows d.assets d'.assets
  pub decisions : Grows d.decisions d'.decisions
  pub events : Grows d.events d'.events

Grows-self {ℓ} : {A : Type ℓ} (xs ys : List A) → ys ≡ xs → Grows xs ys
Grows-self xs ys e = ([], e ∙ sym (append-nil xs))

Step-OnlyAppended : {d d' : Db} → Step d d' → OnlyAppended d d'
Step-OnlyAppended {d} {d'}
      (Step.born r e sha fresh absent ep et ed tasks events snapshots assets decisions) =
    record {
      snapshots = snapshots;
      assets = Grows-self d.assets d'.assets assets;
      decisions = Grows-self d.decisions d'.decisions decisions;
      events = (e ∷ [], events);
    }
Step-OnlyAppended {d} {d'}
      (Step.moved p t r r' e found move ep et tasks events snapshots assets decisions) =
    record {
      snapshots = Grows-self d.snapshots d'.snapshots snapshots;
      assets = assets;
      decisions = decisions;
      events = (e ∷ [], events);
    }

Steps-OnlyAppended : {d d' : Db} → Steps d d' → OnlyAppended d d'
Steps-OnlyAppended {d} Steps.here = record {
  snapshots = Grows-self d.snapshots d.snapshots refl;
  assets = Grows-self d.assets d.assets refl;
  decisions = Grows-self d.decisions d.decisions refl;
  events = Grows-self d.events d.events refl;
}
Steps-OnlyAppended {d} {d'} (Steps.next {e = m} more step) =
    let a = Steps-OnlyAppended more in
    let b = Step-OnlyAppended step in
    record {
      snapshots = Grows-trans d.snapshots m.snapshots d'.snapshots a.snapshots b.snapshots;
      assets = Grows-trans d.assets m.assets d'.assets a.assets b.assets;
      decisions = Grows-trans d.decisions m.decisions d'.decisions a.decisions b.decisions;
      events = Grows-trans d.events m.events d'.events a.events b.events;
    }

-- No session rewrites or drops a permission snapshot, an accepted asset, a decision or an audit
-- event: each of these tables afterwards begins with what it was before.
pub serve-OnlyAppended :
    (env : Env) (qs : List Request) (s : State)
    → KeysUnique s.db.tasks
    → OnlyAppended s.db (serve env qs s).db
serve-OnlyAppended env qs s unique = Steps-OnlyAppended (serve-Steps env qs s unique)

pub empty-IsAudited : IsAudited empty_db
empty-IsAudited = record {
  counted = λ p t r h. ground arith;
  unborn = λ p t h. refl;
  explained = λ p t r h. ground arith;
}

pub empty-Standing : Standing empty_db
unfolding Standing
empty-Standing p t r h = ground arith

-- In every state that a session can reach from the empty database, the version and the number of
-- attempts of a task are ones that its status allows: 0 and 0 for a queued task, 1 and 1 for a
-- running one, 2 and 1 for a failed one or one that awaits review, 3 and 1 for a cancelled one, and
-- for a completed one version 2 or 3 and 1 attempt. A task that is not running has no lease token.
pub serve_empty-Stands :
    (env : Env) (qs : List Request) (s : State) (p t : String) (r : Task)
    → s.db ≡ empty_db
    → find_task p t (serve env qs s).db.tasks ≡ some r
    → Stands r
unfolding Standing
serve_empty-Stands env qs s p t r empty found =
    let steps = serve-Steps env qs s (subst (λ (d : Db). KeysUnique d.tasks) (sym empty) tt) in
    Steps-Standing (subst Standing (sym empty) empty-Standing) steps p t r found
