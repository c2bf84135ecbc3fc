-- ===== src/Broker/Refinement/Expiry/Selection.antt =====
-- The rows that `expire_leases` selects: due, with keys of their own, also after the rows before
-- them are closed.
use growth_clockwork.Prelude.{
  ℕ, zero, suc, ◌≤◌, ◌≡◌, ◌≢◌, refl, String, true, Option, none, some, ◌∷◌, [], List, arith, sym,
  subst, inl, inr, All, take, eq_iff, Bool-cases,
}
use growth_clockwork.Broker.Tables.{running, failed, Task, find_task, replace_task}
use growth_clockwork.Broker.Lease.{
  set_closed, is_expired, expired_rows, ordered, insert_ordered, order_rows,
}
use growth_clockwork.Broker.Rows.{KeysUnique, find_task-replace, find_task-key, replace_task-const}

-- A row of the loop: in the table under its key, and its lease over.
pub record Due (p : String) (at : ℕ) (ts : List Task) (r : Task) : Type 0 where
  pub found : find_task p r.task_id ts ≡ some r
  pub runs : r.status ≡ running
  pub ends : ℕ
  pub lease : r.lease_expires_at ≡ some ends
  pub over : ends ≤ at

abbrev pub Apart : Task → List Task → Type 0
Apart r = All (λ q. q.task_id ≢ r.task_id)

abbrev pub Distinct : List Task → Type 0
Distinct [] = Unit
Distinct (r ∷ rs) = Apart r rs × Distinct rs

module _ (p : String) (at : ℕ) where
  -- Closing one row leaves the rows under other keys due.
  Due-replace :
      (ts : List Task) (r q : Task)
      → Due p at ts r
      → q.task_id ≢ r.task_id
      → Due p at ts q
      → Due p at (replace_task p r.task_id (set_closed failed at) ts) q
  Due-replace ts r q dr ne dq = record {
    found = ground (
      arith,
      replace_task-const p r.task_id (set_closed failed at) ts r dr.found,
      find_task-key p r.task_id ts r dr.found,
      find_task-replace p r.task_id p q.task_id (set_closed failed at r) ts r dr.found,
      eq_iff r.task_id q.task_id,
      dq.found,
    );
    runs = dq.runs;
    ends = dq.ends;
    lease = dq.lease;
    over = dq.over;
  }

  pub All-Due-replace :
      (ts : List Task) (r : Task) (rs : List Task)
      → Due p at ts r
      → Apart r rs
      → All (Due p at ts) rs
      → All (Due p at (replace_task p r.task_id (set_closed failed at) ts)) rs
  All-Due-replace ts r [] dr apart due = tt
  All-Due-replace ts r (q ∷ qs) dr (ne, apart) (dq, due) =
      (Due-replace ts r q dr ne dq, All-Due-replace ts r qs dr apart due)

-- Sorting and cutting keep what holds of every row.
module _ (P : Task → Type 0) where
  All-insert_ordered : (r : Task) (rs : List Task) → P r → All P rs → All P (insert_ordered r rs)
  unfolding insert_ordered
  All-insert_ordered r [] pr prs = (pr, tt)
  All-insert_ordered r (q ∷ qs) pr (pq, pqs) = elim (Bool-cases (ordered r q)) [
    | inl before ↦ rw before (pr, (pq, pqs))
    | inr later ↦ rw later (pq, All-insert_ordered r qs pr pqs)
  ]

  pub All-order_rows : (rs : List Task) → All P rs → All P (order_rows rs)
  unfolding order_rows
  All-order_rows [] prs = tt
  All-order_rows (r ∷ rs) (pr, prs) =
      All-insert_ordered r (order_rows rs) pr (All-order_rows rs prs)

  pub All-take : (n : ℕ) (rs : List Task) → All P rs → All P (take n rs)
  All-take zero rs prs = tt
  All-take (suc n) [] prs = tt
  All-take (suc n) (r ∷ rs) (pr, prs) = (pr, All-take n rs prs)

Distinct-insert_ordered :
    (r : Task) (rs : List Task) → Apart r rs → Distinct rs → Distinct (insert_ordered r rs)
unfolding insert_ordered
Distinct-insert_ordered r [] apart d = (tt, tt)
Distinct-insert_ordered r (q ∷ qs) (ne, apart) (aq, d) = elim (Bool-cases (ordered r q)) [
  | inl before ↦ rw before ((ne, apart), (aq, d))
  | inr later ↦ rw later (
    All-insert_ordered (λ x. x.task_id ≢ q.task_id) r qs (λ e. ne (sym e)) aq,
    Distinct-insert_ordered r qs apart d,
  )
]

pub Distinct-order_rows : (rs : List Task) → Distinct rs → Distinct (order_rows rs)
unfolding order_rows
Distinct-order_rows [] d = tt
Distinct-order_rows (r ∷ rs) (apart, d) =
    Distinct-insert_ordered r (order_rows rs) (All-order_rows (λ q. q.task_id ≢ r.task_id) rs apart)
      (Distinct-order_rows rs d)

pub Distinct-take : (n : ℕ) (rs : List Task) → Distinct rs → Distinct (take n rs)
Distinct-take zero rs d = tt
Distinct-take (suc n) [] d = tt
Distinct-take (suc n) (r ∷ rs) (apart, d) =
    (All-take (λ q. q.task_id ≢ r.task_id) n rs apart, Distinct-take n rs d)

module _ (p : String) (at : ℕ) where
  Due-cons :
      (x : Task) (ts : List Task) (q : Task)
      → find_task x.project_id x.task_id ts ≡ none
      → Due p at ts q
      → Due p at (x ∷ ts) q
  Due-cons x ts q absent d = record {
    found = ground (arith, d.found, eq_iff x.project_id p, eq_iff x.task_id q.task_id);
    runs = d.runs;
    ends = d.ends;
    lease = d.lease;
    over = d.over;
  }

  All-Due-cons :
      (x : Task) (ts rows : List Task)
      → find_task x.project_id x.task_id ts ≡ none
      → All (Due p at ts) rows
      → All (Due p at (x ∷ ts)) rows
  All-Due-cons x ts [] absent due = tt
  All-Due-cons x ts (q ∷ qs) absent (d, due) =
      (Due-cons x ts q absent d, All-Due-cons x ts qs absent due)

  Apart-of_Due :
      (x : Task) (ts rows : List Task)
      → find_task p x.task_id ts ≡ none
      → All (Due p at ts) rows
      → Apart x rows
  Apart-of_Due x ts [] absent due = tt
  Apart-of_Due x ts (q ∷ qs) absent (d, due) =
      (λ e. ground (arith, d.found), Apart-of_Due x ts qs absent due)

  is_expired-Due : (x : Task) (ts : List Task) → is_expired p at x ≡ true → Due p at (x ∷ ts) x
  unfolding is_expired
  is_expired-Due x ts h = go x.lease_expires_at refl
    where
      go : (o : Option ℕ) → x.lease_expires_at ≡ o → Due p at (x ∷ ts) x
      go none e = absurd (ground arith)
      go (some ends) e = record {
        found = ground (arith, eq_iff x.project_id p, eq_iff x.task_id x.task_id);
        runs = ground arith;
        ends = ends;
        lease = e;
        over = ground arith;
      }

  is_expired-project : (x : Task) → is_expired p at x ≡ true → x.project_id ≡ p
  unfolding is_expired
  is_expired-project x h = ground (arith, eq_iff x.project_id p)

  -- The rows that the query selects are due, and apart.
  pub expired_rows-Due :
      (ts : List Task)
      → KeysUnique ts
      → All (Due p at ts) (expired_rows p at ts) × Distinct (expired_rows p at ts)
  unfolding expired_rows
  expired_rows-Due [] unique = (tt, tt)
  expired_rows-Due (x ∷ ts) (absent, unique) =
      let (due, distinct) = expired_rows-Due ts unique in
      let lifted = All-Due-cons x ts (expired_rows p at ts) absent due in
      elim (Bool-cases (is_expired p at x)) [
        | inl is ↦ rw is (
          (is_expired-Due x ts is, lifted),
          (
            Apart-of_Due x ts (expired_rows p at ts)
                (subst (λ q. find_task q x.task_id ts ≡ none) (is_expired-project x is) absent) due,
            distinct,
          ),
        )
        | inr not ↦ rw not (lifted, distinct)
      ]
