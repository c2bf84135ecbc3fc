-- ===== src/Broker/Refinement/Results.antt =====
-- `accept_verified_result` and `accept_verified_completion` make one step each, or none on a replay.
use growth_clockwork.Prelude.{
  ℕ, suc, ◌≡◌, refl, String, Option, none, some, List, [], ◌∷◌, ◌++◌, arith, leb, ◌&&◌,
  Option-cases, inl, inr, ap, subst, length, str_eq, not,
}
use growth_clockwork.Broker.Tables.{
  Status, Details, Db, awaiting_review, completed, Task, Asset, Event, find_task, update_task,
  insert_event, insert_asset,
}
use growth_clockwork.Broker.Session.{Env, State, ok, ◌>>=◌, ◌>>◌, require, transaction}
use growth_clockwork.Broker.Permissions.{read_permissions}
use growth_clockwork.Broker.Lease.{set_closed}
use growth_clockwork.Broker.Results.{
  Descriptor, insert_assets, check_holder, close_task, result_body, result_proof, completion_proof,
  accept_or_replay, find_result, accept_verified_result, completion_body,
  accept_verified_completion, check_assets, check_descriptor,
}
use growth_clockwork.Broker.Lifecycle.{Leased, Grows, Move, Step, Steps}
use growth_clockwork.Broker.Refinement.Actions.{
  require-ok, bind-ok, get-ok, transaction-ok, holds_lease-Leased, Grows-of_eq, Grows-snoc,
  event_at, update-Step,
}

-- Only the table of assets may have changed.
record AssetsOnly (s s' : State) : Type 0 where
  tasks : s'.db.tasks ≡ s.db.tasks
  events : s'.db.events ≡ s.db.events
  snapshots : s'.db.snapshots ≡ s.db.snapshots
  decisions : s'.db.decisions ≡ s.db.decisions
  uuids : s'.uuids ≡ s.uuids
  ticks : s'.ticks ≡ s.ticks

insert_asset-eq :
    (x : Asset) (d d' : Db)
    → insert_asset x d ≡ some d'
    → d' ≡ record d { assets = d.assets ++ x ∷ [] }
unfolding insert_asset
insert_asset-eq x d d' h = ground arith

module _ (p t : String) (at : ℕ) where
  abbrev asset_row : Descriptor → Asset
  asset_row d = record {
    project_id = p;
    task_id = t;
    asset_id = d.asset_id;
    revision = d.revision;
    sha256 = d.sha256;
    artifact_ref = d.artifact_ref;
    media_type = d.media_type;
    byte_size = d.byte_size;
    created_at = at;
  }

  -- The loop of inserts adds assets and touches nothing else.
  insert_assets-AssetsOnly :
      (ds : List Descriptor) (s s' : State)
      → insert_assets p t at ds s ≡ (ok tt, s')
      → AssetsOnly s s' × Grows s.db.assets s'.db.assets
  unfolding insert_assets
  insert_assets-AssetsOnly [] s s' h = (ground arith, Grows-of_eq _ _ (ground arith))
  insert_assets-AssetsOnly (d ∷ ds) s s' h = elim (Option-cases (insert_asset (asset_row d) s.db)) [
    | inl refused ↦ absurd (ground arith)
    | inr (d', inserted) ↦
        let (only, grows) = insert_assets-AssetsOnly ds (record s { db = d' }) s' (ground arith) in
        let e = insert_asset-eq (asset_row d) s.db d' inserted in
        (
          ground arith,
          Grows-snoc (asset_row d) s.db.assets d'.assets s'.db.assets (ground arith) grows,
        )
  ]

module _ (env : Env) (p t agent token : String) (version : ℕ) (s s' : State) where
  -- What `check_holder` lets through.
  check_holder-Leased :
      (r : Task) (message : String) (u : State) (at : ℕ)
      → check_holder env r agent token version message u ≡ (ok at, s')
      → (at ≡ env.clock u.ticks) × Leased r version at × (s' ≡ record u { ticks = suc u.ticks })
  check_holder-Leased r message u at h = elim (Option-cases (read_permissions agent u.config)) [
    | inl denied ↦ absurd (ground arith)
    | inr (g, granted) ↦
        (ground arith, holds_lease-Leased r agent token version at (ground arith), ground arith)
  ]

module _ (env : Env) (p t agent token : String) (version : ℕ) (s s' : State) (r' : Task) where
  close_task-Steps :
      (r : Task) (status : Status) (details : Details) (at : ℕ) (u v : State)
      → find_task p t s.db.tasks ≡ some r
      → Move s.db p t r (set_closed status at r) details
      → u.db ≡ s.db
      → AssetsOnly u v
      → Grows u.db.assets v.db.assets
      → close_task env p t status details agent at v ≡ (ok r', s')
      → Step s.db s'.db
  unfolding update_task insert_event
  close_task-Steps r status details at u v found move same only (zs, grows) h =
      update-Step s.db s'.db p t (set_closed status at) r
        (event_at env v.uuids v.ticks p t details agent) found move refl refl (ground arith)
        (zs, ground arith) (Grows-of_eq _ _ (ground arith))

  -- From a row that is found, through the lease, the assets and the closing update.
  accept_rows-Steps :
      (assets : List Descriptor) (r : Task) (message : String) (status : Status) (details : Details)
      → find_task p t s.db.tasks ≡ some r
      → ((at : ℕ) → Leased r version at → Move s.db p t r (set_closed status at r) details)
      → (check_holder env r agent token version message >>= λ at.
            insert_assets p t at assets >> close_task env p t status details agent at)
          s
        ≡ (ok r', s')
      → Steps s.db s'.db
  accept_rows-Steps assets r message status details found move h =
      let rest = λ (at : ℕ). close_task env p t status details agent at in
      let (at, u, held, h1) =
        bind-ok (check_holder env r agent token version message)
          (λ at. insert_assets p t at assets >> rest at) s s' r' h in
      let (_, leased, eu) =
        check_holder-Leased env p t agent token version s u r message s at held in
      let (_, v, inserted, h2) = bind-ok (insert_assets p t at assets) (λ _. rest at) u s' r' h1 in
      let (only, grows) = insert_assets-AssetsOnly p t at assets u v inserted in
      Steps.next Steps.here (
        close_task-Steps r status details at u v found (move at leased)
          (ap (λ (x : State). x.db) eu) only grows h2)

  accept_or_replay-Steps :
      (assets : List Descriptor) (r : Task) (o : Option Event)
      → find_task p t s.db.tasks ≡ some r
      → accept_or_replay env p t r agent token version assets o s ≡ (ok r', s')
      → Steps s.db s'.db
  accept_or_replay-Steps assets r none found h =
      accept_rows-Steps assets r "Stale or invalid worker lease or permission" awaiting_review
        (result_proof env token version assets) found
        (λ at leased. Move.submit version at leased refl) h
  accept_or_replay-Steps assets r (some e) found h =
      let same : s.db ≡ s'.db = ground arith in subst (Steps s.db) same Steps.here

  pub accept_verified_result-Steps :
      (assets : List Descriptor)
      → accept_verified_result env p t agent token version assets s ≡ (ok r', s')
      → Steps s.db s'.db
  unfolding accept_verified_result
  accept_verified_result-Steps assets h =
      let body = result_body env p t agent token version assets in
      let (_, h1) =
        require-ok (leb 1 (length assets) && leb (length assets) 100) _
          (require (check_assets [] assets)
              "Invalid asset descriptor, hash, size or duplicate revision"
            >> (require (not (str_eq token "")) "Stale or invalid worker lease"
                >> transaction body))
          s s' r' h in
      let (_, h2) =
        require-ok (check_assets [] assets) _
          (require (not (str_eq token "")) "Stale or invalid worker lease" >> transaction body) s s'
          r' h1 in
      let (_, h3) = require-ok (not (str_eq token "")) _ (transaction body) s s' r' h2 in
      let (r, found, h4) =
        get-ok p t
          (λ r u.
            accept_or_replay env p t r agent token version assets (find_result p t u.db.events) u)
          s s' r' (transaction-ok body s s' r' h3) in
      accept_or_replay-Steps assets r (find_result p t s.db.events) found h4

  pub accept_verified_completion-Steps :
      (asset : Descriptor)
      → accept_verified_completion env p t agent token version asset s ≡ (ok r', s')
      → Steps s.db s'.db
  unfolding accept_verified_completion
  accept_verified_completion-Steps asset h =
      let body = completion_body env p t agent token version asset in
      let message : String = "Stale or invalid completion lease or permission" in
      let proof = completion_proof env token version asset in
      let (_, h1) =
        require-ok (check_descriptor asset && not (str_eq token "")) _ (transaction body) s s' r'
          h in
      let (r, found, h2) =
        get-ok p t
          (λ r. check_holder env r agent token version message >>= λ at.
            insert_assets p t at (asset ∷ []) >> close_task env p t completed proof agent at)
          s s' r' (transaction-ok body s s' r' h1) in
      accept_rows-Steps (asset ∷ []) r message completed proof found
        (λ at leased. Move.complete version at leased refl) h2
