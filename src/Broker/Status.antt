-- ===== src/Broker/Status.antt =====
-- `read_status` of pipeline/task_broker.py: the projection of a project's tasks for the user
-- interface, from a database that can be opened.
use Prim.Native.Nat.{min}
use growth_clockwork.Prelude.{
  ℕ, suc, ◌+◌, ◌≡◌, refl, String, Bool, true, false, List, [], ◌∷◌, arith, str_eq, ltb, ◌==◌,
  text_leb, codes, length, take, length-take, map, if◌then◌else◌, ap, ◌∙◌,
}
use growth_clockwork.Prelude.Int.{ℤ}
use growth_clockwork.Broker.Tables.{
  Status, queued, running, awaiting_review, completed, failed, cancelled, same_status, Task, Db,
}

-- The columns that the statement selects: no lease and no input.
pub record StatusRow : Type 0 where
  pub task_id : String
  pub agent_id : String
  pub status : Status
  pub attempt : ℕ
  pub max_attempts : ℤ
  pub not_before : ℤ
  pub created_at : ℕ
  pub updated_at : ℕ

abbrev pub status_row : Task → StatusRow
status_row r = record {
  task_id = r.task_id;
  agent_id = r.agent_id;
  status = r.status;
  attempt = r.attempt;
  max_attempts = r.max_attempts;
  not_before = r.not_before;
  created_at = r.created_at;
  updated_at = r.updated_at;
}

-- WHERE project_id=?
unfoldable pub project_rows : String → List Task → List Task
project_rows p [] = []
project_rows p (r ∷ rs) =
    let rest = project_rows p rs in if str_eq r.project_id p then r ∷ rest else rest

-- ORDER BY updated_at DESC, task_id
unfoldable pub shown_before : Task → Task → Bool
shown_before r q =
    if ltb q.updated_at r.updated_at
    then true
    else if r.updated_at == q.updated_at
    then text_leb (codes r.task_id) (codes q.task_id)
    else false

unfoldable pub insert_shown : Task → List Task → List Task
insert_shown r [] = r ∷ []
insert_shown r (q ∷ qs) =
    let rest = insert_shown r qs in if shown_before r q then r ∷ q ∷ qs else q ∷ rest

unfoldable pub order_shown : List Task → List Task
order_shown [] = []
order_shown (r ∷ rs) = insert_shown r (order_shown rs)

-- `count(*)` of one status.
unfoldable pub count_status : Status → List Task → ℕ
count_status status [] = 0
count_status status (r ∷ rs) =
    let rest = count_status status rs in if same_status r.status status then suc rest else rest

abbrev Count : Type 0
Count = Status × ℕ

-- One entry for each status that some task of the project has.
abbrev pub positive : List Count → List Count
positive [] = []
positive ((status, n) ∷ cs) = let rest = positive cs in if n == 0 then rest else (status, n) ∷ rest

unfoldable pub counts_of : List Task → List Count
counts_of rs = positive (
    (awaiting_review, count_status awaiting_review rs)
    ∷ (cancelled, count_status cancelled rs)
    ∷ (completed, count_status completed rs)
    ∷ (failed, count_status failed rs)
    ∷ (queued, count_status queued rs)
    ∷ (running, count_status running rs)
    ∷ [])

-- `sum(counts.values())`
abbrev pub total : List Count → ℕ
total [] = 0
total ((status, n) ∷ cs) = n + total cs

pub record ProjectStatus : Type 0 where
  pub project_id : String
  pub counts : List Count
  pub tasks : List StatusRow
  pub truncated : Bool

unfoldable pub read_status : String → Db → ProjectStatus
read_status p d =
    let rows = take 50 (order_shown (project_rows p d.tasks)) in
    let counts = counts_of (project_rows p d.tasks) in
    record {
      project_id = p;
      counts = counts;
      tasks = map status_row rows;
      truncated = ltb (length rows) (total counts);
    }

total-positive : (cs : List Count) → total (positive cs) ≡ total cs
total-positive [] = refl
total-positive ((status, n) ∷ cs) = ground (arith, total-positive cs)

-- Every task has one of the six statuses.
counts-length :
    (rs : List Task)
    → count_status awaiting_review rs
        + (count_status cancelled rs
            + (count_status completed rs
                + (count_status failed rs
                    + (count_status queued rs + (count_status running rs + 0)))))
      ≡ length rs
unfolding count_status
counts-length [] = refl
counts-length (r ∷ rs) = ground (arith, counts-length rs)

length-insert_shown : (r : Task) (qs : List Task) → length (insert_shown r qs) ≡ suc (length qs)
unfolding insert_shown
length-insert_shown r [] = refl
length-insert_shown r (q ∷ qs) = ground (arith, length-insert_shown r qs)

length-order_shown : (rs : List Task) → length (order_shown rs) ≡ length rs
unfolding order_shown
length-order_shown [] = refl
length-order_shown (r ∷ rs) =
    ground (arith, length-insert_shown r (order_shown rs), length-order_shown rs)

length-map : {A B : Type 0} (f : A → B) (xs : List A) → length (map f xs) ≡ length xs
length-map f [] = refl
length-map f (x ∷ xs) = ap suc (length-map f xs)

total-counts_of : (rows : List Task) → total (counts_of rows) ≡ length rows
unfolding counts_of
total-counts_of rows =
    total-positive (
      (awaiting_review, count_status awaiting_review rows)
      ∷ (cancelled, count_status cancelled rows)
      ∷ (completed, count_status completed rows)
      ∷ (failed, count_status failed rows)
      ∷ (queued, count_status queued rows)
      ∷ (running, count_status running rows)
      ∷ [])
    ∙ counts-length rows

ltb-min : (n : ℕ) → ltb (min 50 n) n ≡ ltb 50 n
ltb-min n = ground arith

-- The status of a project lists at most fifty tasks, its counts add up to all the tasks of the
-- project, and it says that it is truncated exactly where some task is not listed.
pub read_status-truncated :
    (p : String) (d : Db)
    → let n = length (project_rows p d.tasks) in
      (total (read_status p d).counts ≡ n)
      × (length (read_status p d).tasks ≡ min 50 n)
      × ((read_status p d).truncated ≡ ltb 50 n)
unfolding read_status
read_status-truncated p d =
    let rows = project_rows p d.tasks in
    let sum = total-counts_of rows in
    let cut = length-take 50 (order_shown rows) ∙ ap (min 50) (length-order_shown rows) in
    (
      sum,
      length-map status_row (take 50 (order_shown rows)) ∙ cut,
      ap (λ m. ltb m (total (counts_of rows))) cut
          ∙ ap (ltb (min 50 (length rows))) sum
          ∙ ltb-min (length rows),
    )
