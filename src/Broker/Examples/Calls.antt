-- ===== src/Broker/Examples/Calls.antt =====
-- Single calls of the small broker: an admission repeated after a session, and a claim repeated.
use growth_clockwork.Prelude.{
  length, false, suc, ◌≡◌, refl, List, [], ◌∷◌, true, is_sha256, is_space, is_blank, is_hex_digit,
  text_leb,
}
use growth_clockwork.Json.Canonical.{canonical, encode}
use growth_clockwork.Broker.Tables.{
  Task, check_lease, check_origin, check_task, insert_task, insert_snapshot, update_task,
  insert_event,
}
use growth_clockwork.Broker.Permissions.{
  is_text, expected_credentials, check_grant, read_permissions, projection, snapshot_id,
}
use growth_clockwork.Broker.Session.{State, Result, ok, err}
use growth_clockwork.Broker.Admission.{admit, request_digest, check_fields}
use growth_clockwork.Broker.Lease.{claim, claimable}
use growth_clockwork.Broker.Requests.{Request, fail_task, serve}
use growth_clockwork.Broker.History.{SameIdentity}
use growth_clockwork.Broker.Replay.{admit-serve-admit}
use growth_clockwork.Broker.Claims.{Claimed, raises, claim-Claimed, claim-serve-claim}
use growth_clockwork.Broker.Status.{total, project_rows, read_status, read_status-truncated}
use growth_clockwork.Broker.Examples.{
  opened, toy, toy_digest, tally, fill, grant, config, start, hash, idea, job,
}

returned : Result Task × State → Task
returned (ok r, s) = r
returned (err e, s) = job

-- After the admission of the idea.
admitted_state : State
admitted_state = (admit toy idea start).1

idea_task : Task
idea_task = returned (admit toy idea start)

leased_state : State
leased_state = (claim toy "example" "u" "marketing" 300 admitted_state).1

leased_task : Task
leased_task = returned (claim toy "example" "u" "marketing" 300 admitted_state)

abbrev another_call : List Request
another_call = fail_task "example" "u" "marketing" "x" 1 ∷ []

admit-serve-admit_example :
    (y : Task) × (admit toy idea (serve toy another_call admitted_state) ≡ (
      ok y,
      record (serve toy another_call admitted_state) {
        ticks = suc (serve toy another_call admitted_state).ticks;
      },
    ))
    × SameIdentity idea_task y
unfolding returned admitted_state idea_task leased_state leased_task admit claim toy start hash
    config grant fill tally toy_digest is_sha256 is_text is_blank is_space is_hex_digit text_leb
    canonical encode read_permissions check_grant expected_credentials projection snapshot_id
    request_digest check_fields claimable check_lease check_origin check_task insert_task
    insert_snapshot update_task insert_event
admit-serve-admit_example =
    admit-serve-admit toy idea another_call start admitted_state idea_task tt refl

claim-Claimed_example :
    Claimed toy "example" "u" "marketing" 300 admitted_state leased_state leased_task
unfolding returned admitted_state idea_task leased_state leased_task admit claim toy start hash
    config grant fill tally toy_digest is_sha256 is_text is_blank is_space is_hex_digit text_leb
    canonical encode read_permissions check_grant expected_credentials projection snapshot_id
    request_digest check_fields claimable check_lease check_origin check_task insert_task
    insert_snapshot update_task insert_event
claim-Claimed_example =
    claim-Claimed toy "example" "u" "marketing" 300 admitted_state leased_state leased_task refl

claim-serve-claim_example :
    raises (claim toy "example" "u" "marketing" 30 (serve toy another_call leased_state)) ≡ true
unfolding returned admitted_state idea_task leased_state leased_task admit claim toy start hash
    config grant fill tally toy_digest is_sha256 is_text is_blank is_space is_hex_digit text_leb
    canonical encode read_permissions check_grant expected_credentials projection snapshot_id
    request_digest check_fields claimable check_lease check_origin check_task insert_task
    insert_snapshot update_task insert_event
claim-serve-claim_example =
    claim-serve-claim toy "example" "u" "marketing" 300 another_call admitted_state leased_state
      leased_task "marketing" 30 (refl, tt) refl

read_status-truncated_example :
    (total (read_status "example" opened.db).counts ≡ 1)
    × (length (read_status "example" opened.db).tasks ≡ 1)
    × ((read_status "example" opened.db).truncated ≡ false)
unfolding project_rows
read_status-truncated_example = read_status-truncated "example" opened.db
