-- ===== src/Broker/Examples.antt =====
-- A small run of the broker, and the theorems at it.
mod Calls
use Prim.Native.Char.{Char}
use growth_clockwork.Prelude.{
  ℕ, zero, suc, ◌+◌, ◌%◌, ◌≡◌, refl, String, Option, none, some, List, [], ◌∷◌, length, ◌==◌,
  if◌then◌else◌, is_sha256, is_space, is_blank, is_hex_digit, text_leb,
}
use growth_clockwork.Json.Canonical.{canonical, encode}
use growth_clockwork.Prelude.Int.{pos}
use growth_clockwork.Json.{Json, str, obj, end, field}
use growth_clockwork.Broker.Tables.{
  Status, running, completed, failed, Task, Details, Event, find_task, check_lease, check_origin,
  check_task, insert_task, insert_snapshot, update_task, insert_event, insert_asset,
  insert_decision, admitted, claimed,
}
use growth_clockwork.Broker.Permissions.{
  is_text, expected_credentials, check_grant, read_permissions, projection, snapshot_id,
}
use growth_clockwork.Broker.Session.{Env, State, broker_error}
use growth_clockwork.Broker.Admission.{Admission, admit, request_digest, check_fields}
use growth_clockwork.Broker.Lease.{claim, claimable, fail, holds_lease}
use growth_clockwork.Broker.Results.{
  Descriptor, accept_verified_result, check_descriptor, check_assets, sort_assets, result_digest,
  lease_digest, insert_assets,
}
use growth_clockwork.Broker.Review.{Review, accept_verified_decision, check_review, decided}
use growth_clockwork.Broker.Lifecycle.{Steps}
use growth_clockwork.Broker.Atomic.{run-atomic}
use growth_clockwork.Broker.History.Advance.{Advanced}
use growth_clockwork.Broker.History.Audit.{IsAudited}
use growth_clockwork.Broker.History.Standing.{Stands}
use growth_clockwork.Broker.Sessions.{
  serve-Steps, serve-Advanced, serve-IsAudited, serve-OnlyAppended, serve_empty-Stands,
  empty-IsAudited, OnlyAppended,
}
use growth_clockwork.Broker.Requests.{
  Request, admit_task, fail_task, claim_task, accept_result, accept_decision, run, serve, empty_db,
}

fill : ℕ → Char → String
fill zero c = String.[]
fill (suc n) c = String.◌∷◌ c (fill n c)

-- A stand-in for SHA-256: 64 digits, which tell the length of a text modulo 3.
toy_digest : List ℕ → String
unfolding fill
toy_digest bs =
    if length bs % 3 == 0
    then fill 64 "a"
    else if length bs % 3 == 1
    then fill 64 "b"
    else fill 64 "c"

tally : ℕ → String
unfolding fill
tally n = String.◌∷◌ "u" (fill n "i")

toy : Env
unfolding toy_digest tally
toy = record { sha256 = toy_digest; uuid = tally; clock = λ n. 100 + n }

grant : Json
grant = obj (field "browser" (str "none") (field "credentials" (str "none") end))

config : Json
unfolding grant
config =
    obj (field "publish" (str "review") (field "agents" (obj (field "marketing" grant end)) end))

start : State
unfolding config
start = record { db = empty_db; config = some config; uuids = 0; ticks = 0 }

hash : String
unfolding fill
hash = fill 64 "0"

abbrev idea : Admission
idea = record {
  project = "example";
  origin = "operator";
  origin_key = "idea-1";
  agent = "marketing";
  input_ref = "records/idea.json";
  input_sha256 = hash;
  actor = "operator";
  not_before = pos 0;
  max_attempts = pos 1;
  parent_task_id = none;
}

status_of : Option Task → Option Status
status_of none = none
status_of (some r) = some r.status

abbrev draft : Descriptor
draft = record {
  asset_id = "post";
  revision = "r1";
  sha256 = hash;
  artifact_ref = "content/post.md";
  media_type = "text/markdown";
  byte_size = pos 12;
}

abbrev approval : Review
approval = record {
  decision_id = "d1";
  asset_id = "post";
  revision = "r1";
  sha256 = hash;
  action = "approve";
  note_ref = "outbox/note.json";
  source_sha256 = hash;
}

-- Admission, claim under the second identifier, result and approval.
abbrev session : List Request
session =
    admit_task idea
    ∷ claim_task "example" "u" "marketing" 300
    ∷ accept_result "example" "u" "marketing" "uii" 1 (draft ∷ [])
    ∷ accept_decision "example" "u" approval
    ∷ []

session_completes :
    status_of (find_task "example" "u" (serve toy session start).db.tasks) ≡ some completed
unfolding status_of serve run admit claim accept_verified_result accept_verified_decision toy start
    hash config grant fill tally toy_digest is_sha256 is_text is_blank is_space is_hex_digit
    text_leb canonical encode read_permissions check_grant expected_credentials projection
    snapshot_id request_digest check_fields claimable holds_lease check_descriptor check_assets
    sort_assets result_digest lease_digest insert_assets check_review decided check_lease
    check_origin check_task insert_task insert_snapshot update_task insert_event insert_asset
    insert_decision
session_completes = refl

-- A running task, as a claim at time 100 leaves it.
abbrev job : Task
job = record {
  project_id = "example";
  task_id = "t1";
  origin = "operator";
  origin_key = "idea-1";
  request_sha256 = "0000000000000000000000000000000000000000000000000000000000000000";
  parent_task_id = none;
  agent_id = "marketing";
  input_ref = "records/idea.json";
  permission_snapshot_id = "s1";
  status = running;
  version = 1;
  attempt = 1;
  max_attempts = pos 1;
  not_before = pos 0;
  lease_token = some "k";
  lease_expires_at = some 400;
  created_at = 100;
  updated_at = 100;
}

abbrev entry : String → Details → Event
entry i details = record {
  project_id = "example";
  task_id = "t1";
  event_id = i;
  details = details;
  actor_id = "marketing";
  created_at = 100;
}

abbrev opened : State
opened = record {
  db = record {
    snapshots = [];
    tasks = job ∷ [];
    assets = [];
    decisions = [];
    events = entry "e1" (admitted "0") ∷ entry "e2" (claimed 1) ∷ [];
  };
  config = none;
  uuids = 0;
  ticks = 0;
}

-- A call with the wrong lease token, then the right one.
abbrev attempts : List Request
attempts =
    fail_task "example" "t1" "marketing" "x" 1 ∷ fail_task "example" "t1" "marketing" "k" 1 ∷ []

attempts_fail :
    status_of (find_task "example" "t1" (serve toy attempts opened).db.tasks) ≡ some failed
unfolding status_of serve run fail toy fill tally holds_lease check_lease check_origin check_task
    update_task insert_event is_sha256
attempts_fail = refl

serve-Steps_example : Steps opened.db (serve toy attempts opened).db
serve-Steps_example = serve-Steps toy attempts opened (refl, tt)

serve-Advanced_example :
    (u : Task) × (find_task "example" "t1" (serve toy attempts opened).db.tasks ≡ some u)
    × Advanced job u
serve-Advanced_example = serve-Advanced toy attempts opened "example" "t1" job (refl, tt) refl

serve-IsAudited_example : IsAudited (serve toy session start).db
unfolding start
serve-IsAudited_example = serve-IsAudited toy session start tt empty-IsAudited

serve-OnlyAppended_example : OnlyAppended opened.db (serve toy attempts opened).db
serve-OnlyAppended_example = serve-OnlyAppended toy attempts opened (refl, tt)

run-atomic_example : (fail toy "example" "t1" "marketing" "x" 1 opened).1.db ≡ opened.db
unfolding run fail holds_lease
run-atomic_example =
    run-atomic toy (fail_task "example" "t1" "marketing" "x" 1) opened
      (fail toy "example" "t1" "marketing" "x" 1 opened).1
      (broker_error "Stale or invalid worker lease") refl

the_row : Option Task → Task
the_row none = job
the_row (some r) = r

-- The task at the end of the session.
published : Task
published = the_row (find_task "example" "u" (serve toy session start).db.tasks)

serve_empty-Stands_example : Stands published
unfolding published the_row serve run admit claim accept_verified_result accept_verified_decision
    toy start hash config grant fill tally toy_digest is_sha256 is_text is_blank is_space
    is_hex_digit text_leb canonical encode read_permissions check_grant expected_credentials
    projection snapshot_id request_digest check_fields claimable holds_lease check_descriptor
    check_assets sort_assets result_digest lease_digest insert_assets check_review decided
    check_lease check_origin check_task insert_task insert_snapshot update_task insert_event
    insert_asset insert_decision
serve_empty-Stands_example = serve_empty-Stands toy session start "example" "u" published refl refl
