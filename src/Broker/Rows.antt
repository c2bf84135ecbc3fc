-- ===== src/Broker/Rows.antt =====
-- Look-ups in the table of tasks after its statements.
use growth_clockwork.Prelude.{
  ◌≡◌, refl, String, none, some, List, [], ◌∷◌, ◌++◌, arith, str_eq, eq_iff, if◌then◌else◌, ◌&&◌,
}
use growth_clockwork.Broker.Tables.{Task, has_key, find_task, replace_task}

-- The primary key: no two rows have the same project and task.
abbrev pub KeysUnique : List Task → Type 0
KeysUnique [] = Unit
KeysUnique (r ∷ rs) = (find_task r.project_id r.task_id rs ≡ none) × KeysUnique rs

pub find_task-key :
    (p t : String) (ts : List Task) (r : Task)
    → find_task p t ts ≡ some r
    → (r.project_id ≡ p) × (r.task_id ≡ t)
find_task-key p t [] r h = ground arith
find_task-key p t (x ∷ ts) r h =
    ground (arith, eq_iff x.project_id p, eq_iff x.task_id t, find_task-key p t ts r)

pub find_task-append :
    (p t : String) (ts : List Task) (r : Task)
    → find_task p t (ts ++ r ∷ []) ≡ elim (find_task p t ts) [
      | none ↦ (if has_key p t r then some r else none)
      | some q ↦ some q
    ]
find_task-append p t [] r = refl
find_task-append p t (x ∷ ts) r = ground (arith, find_task-append p t ts r)

-- An update by a function is an update by its value at the row that is found.
pub replace_task-const :
    (p t : String) (f : Task → Task) (ts : List Task) (r : Task)
    → find_task p t ts ≡ some r
    → replace_task p t f ts ≡ replace_task p t (λ _. f r) ts
replace_task-const p t f [] r h = refl
replace_task-const p t f (x ∷ ts) r h = ground (arith, replace_task-const p t f ts r)

module _ (p t q u : String) (r' : Task) where
  pub find_task-replace :
      (ts : List Task) (r : Task)
      → find_task p t ts ≡ some r
      → r'.project_id ≡ p
      → r'.task_id ≡ t
      → find_task q u (replace_task p t (λ _. r') ts)
        ≡ (if str_eq p q && str_eq t u then some r' else find_task q u ts)
  find_task-replace [] r h hp ht = ground arith
  find_task-replace (x ∷ ts) r h hp ht = ground (
    arith,
    find_task-replace ts r,
    eq_iff p q,
    eq_iff t u,
    eq_iff x.project_id p,
    eq_iff x.task_id t,
    eq_iff x.project_id q,
    eq_iff x.task_id u,
    eq_iff r'.project_id q,
    eq_iff r'.task_id u,
  )

-- The primary key survives a birth and a move.
pub KeysUnique-append :
    (ts : List Task) (r : Task)
    → find_task r.project_id r.task_id ts ≡ none
    → KeysUnique ts
    → KeysUnique (ts ++ r ∷ [])
KeysUnique-append [] r h unique = (refl, tt)
KeysUnique-append (x ∷ ts) r h (absent, unique) = (
  ground (
    arith,
    find_task-append x.project_id x.task_id ts r,
    eq_iff x.project_id r.project_id,
    eq_iff x.task_id r.task_id,
    eq_iff r.project_id x.project_id,
    eq_iff r.task_id x.task_id,
  ),
  KeysUnique-append ts r (ground arith) unique,
)

module _ (p t : String) (r' : Task) (hp : r'.project_id ≡ p) (ht : r'.task_id ≡ t) where
  find_task-replace_none :
      (ts : List Task) (q u : String)
      → find_task q u ts ≡ none
      → find_task q u (replace_task p t (λ _. r') ts) ≡ none
  find_task-replace_none [] q u h = refl
  find_task-replace_none (x ∷ ts) q u h =
      ground (arith, find_task-replace_none ts q u, eq_iff x.project_id p, eq_iff x.task_id t)

  pub KeysUnique-replace :
      (ts : List Task) → KeysUnique ts → KeysUnique (replace_task p t (λ _. r') ts)
  KeysUnique-replace [] unique = tt
  KeysUnique-replace (x ∷ ts) (absent, unique) = ground (
    arith,
    KeysUnique-replace ts unique,
    find_task-replace_none ts x.project_id x.task_id absent,
    eq_iff x.project_id p,
    eq_iff x.task_id t,
  )
