-- ===== src/Broker/Replay.antt =====
-- A repeated admission: the row that an origin and its key lead to, and the second call.
use growth_clockwork.Prelude.{
  ℕ, suc, ◌≡◌, refl, String, Bool, true, Option, none, some, List, [], ◌∷◌, ◌++◌, arith, str_eq,
  eq_iff, ◌&&◌, subst, Bool-cases, Option-cases, inl, inr, is_sha256, if◌then◌else◌,
}
use growth_clockwork.Broker.Tables.{Task, Db, find_task, find_origin, replace_task, has_key}
use growth_clockwork.Broker.Session.{Env, State, ok, ◌>>=◌, ◌>>◌, require, transaction, now}
use growth_clockwork.Broker.Admission.{
  Admission, admit, admit_body, admit_or_replay, check_fields, parent_is_text, parent_exists,
  digest_of,
}
use growth_clockwork.Broker.Lifecycle.{Step, Steps, Steps-trans}
use growth_clockwork.Broker.Requests.{Request, serve}
use growth_clockwork.Broker.Sessions.{serve-Steps}
use growth_clockwork.Broker.Rows.{KeysUnique}
use growth_clockwork.Broker.History.{SameIdentity, Move-SameIdentity, Steps-KeysUnique}
use growth_clockwork.Broker.History.Advance.{Steps-Advanced}
use growth_clockwork.Broker.Refinement.Actions.{require-ok, transaction-ok}
use growth_clockwork.Broker.Refinement.Admission.{admit_new-row, admit-Steps}

abbrev has_origin : String → String → String → Task → Bool
has_origin p o k r = str_eq r.project_id p && (str_eq r.origin o && str_eq r.origin_key k)

module _ (p o k : String) where
  find_origin-append :
      (ts : List Task) (x : Task)
      → find_origin p o k (ts ++ x ∷ []) ≡ elim (find_origin p o k ts) [
        | none ↦ (if has_origin p o k x then some x else none)
        | some r ↦ some r
      ]
  find_origin-append [] x = refl
  find_origin-append (y ∷ ts) x = ground (arith, find_origin-append ts x)

  SameIdentity-refl : (r : Task) → SameIdentity r r
  SameIdentity-refl r = ground arith

  -- A move keeps the row that an origin leads to, or is a move of that row.
  find_origin-replace :
      (q u : String) (r r' x : Task) (ts : List Task)
      → SameIdentity r r'
      → find_task q u ts ≡ some r
      → find_origin p o k ts ≡ some x
      → (y : Task) × (find_origin p o k (replace_task q u (λ _. r') ts) ≡ some y) × SameIdentity x y
  find_origin-replace q u r r' x [] ids found h = ground arith
  find_origin-replace q u r r' x (z ∷ ts) ids found h = elim (Bool-cases (has_key q u z)) [
    | inl here ↦ elim (Bool-cases (has_origin p o k z)) [
      | inl mine ↦ (r', ground (arith, ids), ground (arith, ids))
      | inr other ↦ (x, ground (arith, ids), SameIdentity-refl x)
    ]
    | inr away ↦ elim (Bool-cases (has_origin p o k z)) [
      | inl mine ↦ (x, ground arith, SameIdentity-refl x)
      | inr other ↦
          let (y, e, same) = find_origin-replace q u r r' x ts ids (ground arith) (ground arith) in
          (y, ground arith, same)
    ]
  ]

  Step-origin :
      {d d' : Db} (x : Task)
      → find_origin p o k d.tasks ≡ some x
      → Step d d'
      → (y : Task) × (find_origin p o k d'.tasks ≡ some y) × SameIdentity x y
  Step-origin {d} {d'} x h (Step.born r e sha fresh absent ep et ed tasks _ _ _ _) =
      (x, ground (arith, find_origin-append d.tasks r, tasks), SameIdentity-refl x)
  Step-origin {d} {d'} x h (Step.moved q u r r' e found move ep et tasks _ _ _ _) =
      let (y, there, same) =
        find_origin-replace q u r r' x d.tasks (Move-SameIdentity move) found h in
      (y, ground (arith, there, tasks), same)

  SameIdentity-trans : (r q u : Task) → SameIdentity r q → SameIdentity q u → SameIdentity r u
  SameIdentity-trans r q u a b = ground arith

  pub Steps-origin :
      {d d' : Db} (x : Task)
      → find_origin p o k d.tasks ≡ some x
      → Steps d d'
      → (y : Task) × (find_origin p o k d'.tasks ≡ some y) × SameIdentity x y
  Steps-origin x h Steps.here = (x, h, SameIdentity-refl x)
  Steps-origin x h (Steps.next more step) =
      let (y, there, same) = Steps-origin x h more in
      let (z, last, again) = Step-origin y there step in
      (z, last, SameIdentity-trans x y z same again)

-- What an admission that returned has checked and left behind.
record Admitted (env : Env) (a : Admission) (r : Task) (s s' : State) : Type 0 where
  fields : check_fields a ≡ true
  parent : parent_is_text a.parent_task_id ≡ true
  hash : is_sha256 a.input_sha256 ≡ true
  known : parent_exists a.project a.parent_task_id s ≡ true
  origin : find_origin a.project a.origin a.origin_key s'.db.tasks ≡ some r
  digest : r.request_sha256 ≡ digest_of env a

module _ (env : Env) (a : Admission) (s s' : State) (r : Task) where
  admit_or_replay-origin :
      (at : ℕ)
      → admit_or_replay env a at (find_origin a.project a.origin a.origin_key s.db.tasks) s
        ≡ (ok r, s')
      → (find_origin a.project a.origin a.origin_key s'.db.tasks ≡ some r)
        × (r.request_sha256 ≡ digest_of env a)
  admit_or_replay-origin at h =
      elim (Option-cases (find_origin a.project a.origin a.origin_key s.db.tasks)) [
        | inl new ↦
            let k : admit_or_replay env a at none s ≡ (ok r, s') =
              subst (λ x. admit_or_replay env a at x s ≡ (ok r, s')) new h in
            let (g, (tasks, row)) = admit_new-row env a at s s' r k in
            (
              ground (
                arith,
                find_origin-append a.project a.origin a.origin_key s.db.tasks r,
                tasks,
                row,
                new,
                eq_iff a.project a.project,
                eq_iff a.origin a.origin,
                eq_iff a.origin_key a.origin_key,
              ),
              ground (arith, row),
            )
        | inr (x, old) ↦
            let k : admit_or_replay env a at (some x) s ≡ (ok r, s') =
              subst (λ y. admit_or_replay env a at y s ≡ (ok r, s')) old h in
            (
              ground (arith, eq_iff x.request_sha256 (digest_of env a)),
              ground (arith, eq_iff x.request_sha256 (digest_of env a)),
            )
      ]

module _ (env : Env) (a : Admission) (s s' : State) (r : Task) where
  admit-Admitted : admit env a s ≡ (ok r, s') → Admitted env a r s s'
  unfolding admit
  admit-Admitted h =
      let at = env.clock s.ticks in
      let u : State = record s { ticks = suc s.ticks } in
      let body = admit_body env a in
      let begin = now env >>= λ n. transaction (body n) in
      let (h0, h1) =
        require-ok (check_fields a) _
          (require (parent_is_text a.parent_task_id) "Invalid parent task"
            >> (require (is_sha256 a.input_sha256) "Invalid input hash" >> begin))
          s s' r h in
      let (h2, h3) =
        require-ok (parent_is_text a.parent_task_id) _
          (require (is_sha256 a.input_sha256) "Invalid input hash" >> begin) s s' r h1 in
      let (h4, h5) = require-ok (is_sha256 a.input_sha256) _ begin s s' r h3 in
      let (h6, h7) =
        require-ok (parent_exists a.project a.parent_task_id u) _
          (λ v. admit_or_replay env a at (find_origin a.project a.origin a.origin_key v.db.tasks) v)
          u s' r (transaction-ok (body at) u s' r h5) in
      let (found, digest) = admit_or_replay-origin env a u s' r at h7 in
      record {
        fields = h0;
        parent = h2;
        hash = h4;
        known = ground (arith, h6);
        origin = found;
        digest = digest;
      }

  -- The second call finds the row, and only reads the clock.
  replayed :
      check_fields a ≡ true
      → parent_is_text a.parent_task_id ≡ true
      → is_sha256 a.input_sha256 ≡ true
      → parent_exists a.project a.parent_task_id s ≡ true
      → find_origin a.project a.origin a.origin_key s.db.tasks ≡ some r
      → str_eq r.request_sha256 (digest_of env a) ≡ true
      → admit env a s ≡ (ok r, record s { ticks = suc s.ticks })
  unfolding admit
  replayed h0 h1 h2 h3 h4 h5 = ground arith

parent_exists-Steps :
    (p : String) (parent : Option String) (s s' : State)
    → parent_exists p parent s ≡ true
    → Steps s.db s'.db
    → parent_exists p parent s' ≡ true
parent_exists-Steps p none s s' h steps = refl
parent_exists-Steps p (some t) s s' h steps = elim (Option-cases (find_task p t s.db.tasks)) [
  | inl gone ↦ absurd (ground arith)
  | inr (r, found) ↦ let (u, there, _) = Steps-Advanced p t r found steps in ground arith
]

-- An admission that returned may be repeated after any session: it returns the row of the same
-- task, changes nothing but the reading of the clock, and so makes no second task.
pub admit-serve-admit :
    (env : Env) (a : Admission) (qs : List Request) (s s' : State) (r : Task)
    → KeysUnique s.db.tasks
    → admit env a s ≡ (ok r, s')
    → let after = serve env qs s' in
      (y : Task) × (admit env a after ≡ (ok y, record after { ticks = suc after.ticks }))
      × SameIdentity r y
admit-serve-admit env a qs s s' r unique h =
    let after = serve env qs s' in
    let first = admit-Steps env a s s' r h in
    let rest = serve-Steps env qs s' (Steps-KeysUnique first unique) in
    let done = admit-Admitted env a s s' r h in
    let (y, there, same) = Steps-origin a.project a.origin a.origin_key r done.origin rest in
    (
      y,
      replayed env a after s' y done.fields done.parent done.hash
          (parent_exists-Steps a.project a.parent_task_id s after done.known
            (Steps-trans first rest))
          there
          (ground
            (arith, done.digest, same.request_sha256, eq_iff y.request_sha256 (digest_of env a))),
      same,
    )
