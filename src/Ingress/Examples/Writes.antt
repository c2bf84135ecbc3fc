-- ===== src/Ingress/Examples/Writes.antt =====
-- The event of the scheduler, with its input written first.
use growth_clockwork.Prelude.{
  ◌≡◌, refl, String, List, [], ◌∷◌, is_sha256, is_space, is_blank, is_hex_digit,
}
use growth_clockwork.Prelude.Int.{pos}
use growth_clockwork.Json.{Json, num, str, obj, end, field, has_exactly}
use growth_clockwork.Json.Canonical.{encode}
use growth_clockwork.Broker.Tables.{
  Task, check_lease, check_origin, check_task, insert_task, insert_snapshot, insert_event,
}
use growth_clockwork.Broker.Permissions.{
  is_text, expected_credentials, check_grant, read_permissions, projection, snapshot_id,
}
use growth_clockwork.Broker.Session.{State, Result, ok, err}
use growth_clockwork.Broker.Admission.{admit, request_digest, check_fields}
use growth_clockwork.Ingress.{
  identity_fields, check_identity_field, identity_digest, read_event, admit_event,
}
use growth_clockwork.Ingress.Persist.{
  Writer, Input, input_path, content_digest, write_request, prepare, unverified,
  persist_and_admit_event,
}
use growth_clockwork.Ingress.Receipts.{
  Persisted, persist_and_admit_event-Persisted, persist_and_admit_event-atomic,
}
use growth_clockwork.Ingress.Examples.{plain, names, start, first_of}

-- A writer that keeps the paths and hashes of what it wrote.
abbrev shelf : Writer
shelf = record {
  Files = List (String × String);
  load_profile = λ files.
      ok (record { project_id = "example"; profile_revision = "r1"; root_role_id = "root" });
  apply_request = λ request files. (
    ok (record {
      writes = (request.path, request.content_sha256) ∷ [];
      idempotency_key = request.idempotency_key;
      request_sha256 = "q";
    }),
    (request.path, request.content_sha256) ∷ files,
  );
  uuid5 = λ name. name;
}

abbrev event : Json
event = obj (
    field "version" (num (pos 1)) (
      field "project_id" (str "example") (
        field "agent_id" (str "marketing") (
          field "origin" (str "schedule") (
            field "actor_id" (str "scheduler") (
              field "not_before" (num (pos 0)) (
                field "max_attempts" (num (pos 1)) (
                  field "identity"
                    (obj (
                      field "schedule_id" (str "weekly") (field "scheduled_for" (num (pos 7)) end)))
                    end))))))))

reply : Result (Task × Input) × (List (String × String) × State)
reply = persist_and_admit_event plain shelf event "Write the weekly post." [] start

abbrev task_of : Result (Task × Input) → Task
task_of (ok (task, input)) = task
task_of (err e) = first_of []

abbrev input_part : Result (Task × Input) → Input
input_part (ok (task, input)) = input
input_part (err e) = record {
  artifact_ref = "";
  artifact_sha256 = "";
  writer_receipt_key = "";
  writer_request_sha256 = "";
}

persist_and_admit_event-Persisted_example :
    Persisted plain shelf event "Write the weekly post." []
      (reply.1.0)
      start
      (reply.1.1)
      (task_of (reply.0))
      (input_part (reply.0))
unfolding reply persist_and_admit_event prepare write_request input_path content_digest encode
    admit_event read_event identity_fields has_exactly check_identity_field identity_digest is_text
    is_sha256 is_blank is_space is_hex_digit names admit request_digest check_fields
    read_permissions check_grant expected_credentials projection snapshot_id insert_snapshot
    insert_task insert_event check_task check_lease check_origin
persist_and_admit_event-Persisted_example =
    persist_and_admit_event-Persisted plain shelf event "Write the weekly post." [] (reply.1.0)
      start (reply.1.1) (task_of (reply.0)) (input_part (reply.0)) refl

-- A writer whose receipt names no file.
abbrev silent : Writer
silent = record shelf {
  apply_request = λ request files.
      (ok (record { writes = []; idempotency_key = ""; request_sha256 = "q" }), files);
}

persist_and_admit_event-atomic_example :
    (persist_and_admit_event plain silent event "Write the weekly post." [] start).1.1.db ≡ start.db
unfolding persist_and_admit_event prepare write_request input_path content_digest encode
    identity_fields has_exactly check_identity_field identity_digest is_text is_blank is_space
persist_and_admit_event-atomic_example =
    persist_and_admit_event-atomic plain silent event "Write the weekly post." [] [] start
      (persist_and_admit_event plain silent event "Write the weekly post." [] start).1.1 unverified
      refl
