-- ===== src/Broker/Refinement/Actions.antt =====
-- Inversion of a call that returned: what the guards and the statements of its body let through.
use growth_clockwork.Prelude.{
  ℕ, ◌≡◌, refl, String, Bool, true, false, Option, none, some, List, [], ◌∷◌, ◌++◌, arith,
  append-nil, append_assoc, ap, sym, ◌∙◌,
}
use growth_clockwork.Broker.Tables.{Task, Db, Details, Event, find_task, replace_task}
use growth_clockwork.Broker.Session.{
  Env, State, Result, ok, err, Action, ◌>>=◌, ◌>>◌, require, transaction, broker_error, or_raise,
}
use growth_clockwork.Broker.Admission.{get}
use growth_clockwork.Broker.Lease.{holds_lease}
use growth_clockwork.Broker.Lifecycle.{Leased, Grows, Move, Step}
use growth_clockwork.Broker.Rows.{replace_task-const}

pub require-ok :
    {A : Type 0} (b : Bool) (message : String) (k : Action A) (s s' : State) (a : A)
    → (require b message >> k) s ≡ (ok a, s')
    → (b ≡ true) × (k s ≡ (ok a, s'))
require-ok true message k s s' a h = (refl, h)
require-ok false message k s s' a h = ground arith

pub bind-ok :
    {A B : Type 0} (m : Action A) (f : A → Action B) (s s' : State) (b : B)
    → (m >>= f) s ≡ (ok b, s')
    → (a : A) × (u : State) × (m s ≡ (ok a, u)) × (f a u ≡ (ok b, s'))
bind-ok {A} {B} m f s s' b h = go (m s) refl h
  where
    go :
        (x : Result A × State)
        → m s ≡ x
        → elim x.0 [ ok a ↦ f a x.1 | err e ↦ (err e, x.1) ] ≡ (ok b, s')
        → (a : A) × (u : State) × (m s ≡ (ok a, u)) × (f a u ≡ (ok b, s'))
    go (ok a, u) e k = (a, u, e, k)
    go (err x, u) e k = ground arith

pub get-ok :
    {B : Type 0} (p t : String) (f : Task → Action B) (s s' : State) (b : B)
    → (get p t >>= f) s ≡ (ok b, s')
    → (r : Task) × (find_task p t s.db.tasks ≡ some r) × (f r s ≡ (ok b, s'))
get-ok {B} p t f s s' b h = go (find_task p t s.db.tasks) refl h
  where
    go :
        (o : Option Task)
        → find_task p t s.db.tasks ≡ o
        → (or_raise o (broker_error "Task not found") >>= f) s ≡ (ok b, s')
        → (r : Task) × (find_task p t s.db.tasks ≡ some r) × (f r s ≡ (ok b, s'))
    go none e k = ground arith
    go (some r) e k = (r, e, k)

-- `return self.get(project, task)`
pub get_last-ok :
    (p t : String) (s s' : State) (r : Task)
    → get p t s ≡ (ok r, s')
    → (find_task p t s.db.tasks ≡ some r) × (s ≡ s')
get_last-ok p t s s' r h = go (find_task p t s.db.tasks) refl h
  where
    go :
        (o : Option Task)
        → find_task p t s.db.tasks ≡ o
        → or_raise o (broker_error "Task not found") s ≡ (ok r, s')
        → (find_task p t s.db.tasks ≡ some r) × (s ≡ s')
    go none e k = ground arith
    go (some q) e k = ground arith

pub transaction-ok :
    {A : Type 0} (m : Action A) (s s' : State) (a : A)
    → transaction m s ≡ (ok a, s')
    → m s ≡ (ok a, s')
transaction-ok m s s' a h = ground arith

pub holds_lease-Leased :
    (r : Task) (agent token : String) (version at : ℕ)
    → holds_lease r agent token version at ≡ true
    → Leased r version at
unfolding holds_lease
holds_lease-Leased r agent token version at h = go r.lease_expires_at refl
  where
    go : (o : Option ℕ) → r.lease_expires_at ≡ o → Leased r version at
    go none e = absurd (ground arith)
    go (some ends) e = record {
      runs = ground arith;
      current = ground arith;
      ends = ends;
      lease = e;
      in_time = ground arith;
    }

pub Grows-of_eq {ℓ} : {A : Type ℓ} (xs ys : List A) → ys ≡ xs → Grows xs ys
Grows-of_eq xs ys e = ([], e ∙ sym (append-nil xs))

pub Grows-snoc {ℓ} :
    {A : Type ℓ} (a : A) (xs ys zs : List A) → ys ≡ xs ++ a ∷ [] → Grows ys zs → Grows xs zs
Grows-snoc a xs ys zs e (more, grown) =
    (a ∷ more, grown ∙ ap (λ l. l ++ more) e ∙ append_assoc xs (a ∷ []) more)

-- The event that is written after `i` identifiers and `n` readings of the clock.
abbrev pub event_at : Env → ℕ → ℕ → String → String → Details → String → Event
event_at env i n p t details actor = record {
  project_id = p;
  task_id = t;
  event_id = env.uuid i;
  details = details;
  actor_id = actor;
  created_at = env.clock n;
}

-- What one UPDATE with its event leaves in the tables.
pub record Updated (d d' : Db) (p t : String) (f : Task → Task) (e : Event) : Type 0 where
  pub tasks : d'.tasks ≡ replace_task p t f d.tasks
  pub events : d'.events ≡ d.events ++ e ∷ []
  pub snapshots : d'.snapshots ≡ d.snapshots

pub update-Step :
    (d d' : Db) (p t : String) (f : Task → Task) (r : Task) (e : Event)
    → find_task p t d.tasks ≡ some r
    → Move d p t r (f r) e.details
    → e.project_id ≡ p
    → e.task_id ≡ t
    → Updated d d' p t f e
    → Grows d.assets d'.assets
    → Grows d.decisions d'.decisions
    → Step d d'
update-Step d d' p t f r e found move ep et u assets decisions =
    Step.moved p t r (f r) e found move ep et (u.tasks ∙ replace_task-const p t f d.tasks r found)
      u.events u.snapshots assets decisions
