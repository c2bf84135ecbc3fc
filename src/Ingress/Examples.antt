-- ===== src/Ingress/Examples.antt =====
-- One operator's event, read and delivered.
mod Writes
use growth_clockwork.Prelude.{
  ℕ, zero, suc, refl, String, List, [], ◌∷◌, none, some, is_sha256, is_space, is_blank,
  is_hex_digit,
}
use growth_clockwork.Prelude.Int.{pos}
use growth_clockwork.Json.{Json, num, str, obj, end, field, has_exactly}
use growth_clockwork.Broker.Tables.{Status, Task}
use growth_clockwork.Broker.Permissions.{is_text}
use growth_clockwork.Broker.Session.{Env, State}
use growth_clockwork.Broker.Admission.{Admission}
use growth_clockwork.Broker.Requests.{empty_db}
use growth_clockwork.Ingress.{identity_fields, check_identity_field, identity_digest, read_event}
use growth_clockwork.Ingress.Reads.{Reads, read_event-Reads}

abbrev zeros : String
zeros = "0000000000000000000000000000000000000000000000000000000000000000"

names : ℕ → String
names zero = "u0"
names (suc n) = String.◌∷◌ "v" (names n)

-- A stand-in for SHA-256 that forgets the text.
abbrev plain : Env
plain = record { sha256 = λ bytes. zeros; uuid = names; clock = λ n. 100 }

abbrev config : Json
config = obj (
    field "publish" (str "off") (
      field "agents"
        (obj (
          field "marketing"
            (obj (field "browser" (str "none") (field "credentials" (str "none") end))) end))
        end))

abbrev start : State
start = record { db = empty_db; config = some config; uuids = 0; ticks = 0 }

abbrev envelope : Json
envelope = obj (
    field "version" (num (pos 1)) (
      field "project_id" (str "example") (
        field "agent_id" (str "marketing") (
          field "origin" (str "schedule") (
            field "actor_id" (str "scheduler") (
              field "input_ref" (str "records/weekly.json") (
                field "input_sha256" (str zeros) (
                  field "not_before" (num (pos 0)) (
                    field "max_attempts" (num (pos 1)) (
                      field "identity"
                        (obj (
                          field "schedule_id" (str "weekly")
                            (field "scheduled_for" (num (pos 7)) end)))
                        end))))))))))

admission : Admission
admission = record {
  project = "example";
  origin = "schedule";
  origin_key = zeros;
  agent = "marketing";
  input_ref = "records/weekly.json";
  input_sha256 = zeros;
  actor = "scheduler";
  not_before = pos 0;
  max_attempts = pos 1;
  parent_task_id = none;
}

read_event-Reads_example : Reads plain envelope admission
unfolding admission read_event identity_fields has_exactly check_identity_field identity_digest
    is_text is_sha256 is_blank is_space is_hex_digit
read_event-Reads_example = read_event-Reads plain envelope admission refl

abbrev first_of : List Task → Task
first_of [] = record {
  project_id = "";
  task_id = "";
  origin = "";
  origin_key = "";
  request_sha256 = "";
  parent_task_id = none;
  agent_id = "";
  input_ref = "";
  permission_snapshot_id = "";
  status = Status.queued;
  version = 0;
  attempt = 0;
  max_attempts = pos 1;
  not_before = pos 0;
  lease_token = none;
  lease_expires_at = none;
  created_at = 0;
  updated_at = 0;
}
first_of (r ∷ rs) = r
