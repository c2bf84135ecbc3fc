-- ===== src/Broker/Results.antt =====
-- `TaskBroker.accept_verified_result` and `accept_verified_completion` of pipeline/task_broker.py.
-- The six fields of a descriptor are those of the record.
use growth_clockwork.Prelude.{
  ℕ, String, Bool, true, false, Option, none, some, List, [], ◌∷◌, str_eq, ◌==◌, not, leb, ◌&&◌,
  all, any, is_sha256, codes, text_leb, length, if◌then◌else◌,
}
use growth_clockwork.Prelude.Int.{ℤ, pos, leb_ℤ}
use growth_clockwork.Json.{Json, num, str, arr, obj, Items, nil, cons, end, field}
use growth_clockwork.Json.Canonical.{canonical, encode}
use growth_clockwork.Broker.Tables.{
  Status, awaiting_review, completed, Task, Details, result_accepted, completion_accepted, Event,
  update_task, insert_asset,
}
use growth_clockwork.Broker.Session.{
  Env, Action, broker_error, pure, raise, gets, ◌>>=◌, ◌>>◌, require, execute, transaction, now,
}
use growth_clockwork.Broker.Permissions.{is_text, permissions, snapshot_id}
use growth_clockwork.Broker.Admission.{get, log_event}
use growth_clockwork.Broker.Lease.{holds_lease, set_closed}

pub record Descriptor : Type 0 where
  pub asset_id : String
  pub revision : String
  pub sha256 : String
  pub artifact_ref : String
  pub media_type : String
  pub byte_size : ℤ

abbrev max_byte_size : ℕ
max_byte_size = 9223372036854775807

unfoldable pub check_descriptor : Descriptor → Bool
check_descriptor d =
    all is_text (d.asset_id ∷ d.revision ∷ d.sha256 ∷ d.artifact_ref ∷ d.media_type ∷ [])
    && (leb_ℤ (pos 0) d.byte_size && (leb_ℤ d.byte_size (pos max_byte_size) && is_sha256 d.sha256))

abbrev pub same_identity : Descriptor → Descriptor → Bool
same_identity d e = str_eq d.asset_id e.asset_id && str_eq d.revision e.revision

-- The loop over the assets, `seen` being the identities so far.
unfoldable pub check_assets : List Descriptor → List Descriptor → Bool
unfolding check_descriptor
check_assets seen [] = true
check_assets seen (d ∷ ds) =
    (check_descriptor d && not (any (same_identity d) seen)) && check_assets (d ∷ seen) ds

-- `sorted(assets, key=lambda a: (a['asset_id'], a['revision']))`
identity_leb : Descriptor → Descriptor → Bool
identity_leb d e =
    if str_eq d.asset_id e.asset_id
    then text_leb (codes d.revision) (codes e.revision)
    else text_leb (codes d.asset_id) (codes e.asset_id)

insert_sorted : Descriptor → List Descriptor → List Descriptor
unfolding identity_leb
insert_sorted d [] = d ∷ []
insert_sorted d (e ∷ es) =
    let rest = insert_sorted d es in if identity_leb d e then d ∷ e ∷ es else e ∷ rest

unfoldable pub sort_assets : List Descriptor → List Descriptor
unfolding insert_sorted
sort_assets [] = []
sort_assets (d ∷ ds) = insert_sorted d (sort_assets ds)

abbrev descriptor_json : Descriptor → Json
descriptor_json d = obj (
    field "asset_id" (str d.asset_id) (
      field "revision" (str d.revision) (
        field "sha256" (str d.sha256) (
          field "artifact_ref" (str d.artifact_ref)
            (field "media_type" (str d.media_type) (field "byte_size" (num d.byte_size) end))))))

descriptors_json : List Descriptor → Items
descriptors_json [] = nil
descriptors_json (d ∷ ds) = cons (descriptor_json d) (descriptors_json ds)

unfoldable pub result_digest : Env → List Descriptor → String
unfolding sort_assets descriptors_json
result_digest env ds = env.sha256 (canonical (arr (descriptors_json (sort_assets ds))))

unfoldable pub lease_digest : Env → String → String
lease_digest env token = env.sha256 (encode token)

abbrev pub is_result : Details → Bool
is_result (result_accepted _ _ _) = true
is_result _ = false

-- SELECT actor_id, details_json ... AND event_type='result_accepted'
abbrev pub find_result : String → String → List Event → Option Event
find_result p t [] = none
find_result p t (e ∷ es) =
    if (str_eq e.project_id p && str_eq e.task_id t) && is_result e.details
    then some e
    else find_result p t es

-- `json.loads(previous['details_json']) == proof`
abbrev pub same_result : Details → String → String → ℕ → Bool
same_result (result_accepted result lease claimed) digest token version =
    str_eq result digest && (str_eq lease token && claimed == version)
same_result _ digest token version = false

-- The `for asset in assets` loop of inserts.
unfoldable pub insert_assets : String → String → ℕ → List Descriptor → Action (Unit {0})
insert_assets p t at [] = pure tt
insert_assets p t at (d ∷ ds) = do
  execute (
      insert_asset (record {
        project_id = p;
        task_id = t;
        asset_id = d.asset_id;
        revision = d.revision;
        sha256 = d.sha256;
        artifact_ref = d.artifact_ref;
        media_type = d.media_type;
        byte_size = d.byte_size;
        created_at = at;
      }))
  insert_assets p t at ds

-- The lease and the permission, shared by the two acceptances.
abbrev pub check_holder : Env → Task → String → String → ℕ → String → Action ℕ
check_holder env r agent token version message = do
  at ← now env
  granted ← permissions agent
  require
      (holds_lease r agent token version at
        && str_eq (snapshot_id env granted) r.permission_snapshot_id)
      message
  pure at

-- The end of the lease, with its event.
abbrev pub close_task : Env → String → String → Status → Details → String → ℕ → Action Task
close_task env p t status details agent at = do
  execute (update_task p t (set_closed status at))
  log_event env p t details agent
  get p t

abbrev pub result_proof : Env → String → ℕ → List Descriptor → Details
result_proof env token version assets =
    result_accepted (result_digest env assets) (lease_digest env token) version

abbrev pub accept_new :
    Env → String → String → Task → String → String → ℕ → List Descriptor → Action Task
accept_new env p t r agent token version assets = do
  at ← check_holder env r agent token version "Stale or invalid worker lease or permission"
  insert_assets p t at assets
  close_task env p t awaiting_review (result_proof env token version assets) agent at

abbrev pub accept_or_replay :
    Env
    → String
    → String
    → Task
    → String
    → String
    → ℕ
    → List Descriptor
    → Option Event
    → Action Task
accept_or_replay env p t r agent token version assets none =
    accept_new env p t r agent token version assets
accept_or_replay env p t r agent token version assets (some previous) =
    if str_eq previous.actor_id agent
      && same_result previous.details (result_digest env assets) (lease_digest env token) version
    then pure r
    else raise (broker_error "Result conflicts with earlier submission")

abbrev pub result_body : Env → String → String → String → String → ℕ → List Descriptor → Action Task
result_body env p t agent token version assets = do
  r ← get p t
  previous ← gets (λ s. find_result p t s.db.events)
  accept_or_replay env p t r agent token version assets previous

unfoldable pub accept_verified_result :
    Env → String → String → String → String → ℕ → List Descriptor → Action Task
unfolding check_assets
accept_verified_result env p t agent token version assets = do
  require (leb 1 (length assets) && leb (length assets) 100)
      "Result must contain between 1 and 100 verified assets"
  require (check_assets [] assets) "Invalid asset descriptor, hash, size or duplicate revision"
  require (not (str_eq token "")) "Stale or invalid worker lease"
  transaction (result_body env p t agent token version assets)

abbrev pub completion_proof : Env → String → ℕ → Descriptor → Details
completion_proof env token version asset =
    completion_accepted asset.sha256 asset.artifact_ref (lease_digest env token) version

abbrev pub completion_body : Env → String → String → String → String → ℕ → Descriptor → Action Task
completion_body env p t agent token version asset = do
  r ← get p t
  at ← check_holder env r agent token version "Stale or invalid completion lease or permission"
  insert_assets p t at (asset ∷ [])
  close_task env p t completed (completion_proof env token version asset) agent at

unfoldable pub accept_verified_completion :
    Env → String → String → String → String → ℕ → Descriptor → Action Task
unfolding check_descriptor insert_assets
accept_verified_completion env p t agent token version asset = do
  require (check_descriptor asset && not (str_eq token "")) "Invalid completion receipt proof"
  transaction (completion_body env p t agent token version asset)
