-- ===== src/Ingress/Events.antt =====
-- What an event that ingress lets through has passed, against the checks of the broker.
use growth_clockwork.Prelude.{◌≡◌, true, ◌&&◌, is_sha256}
use growth_clockwork.Prelude.Int.{pos, leb_ℤ}
use growth_clockwork.Json.{Json}
use growth_clockwork.Broker.Tables.{check_origin}
use growth_clockwork.Broker.Admission.{Admission, check_fields, parent_is_text}
use growth_clockwork.Ingress.{counters}

-- The checks that `admit` and the schema make again of an admission.
pub record Passes (a : Admission) : Type 0 where
  pub fields : check_fields a ≡ true
  pub parent : parent_is_text a.parent_task_id ≡ true
  pub hash : is_sha256 a.input_sha256 ≡ true
  pub origin : check_origin a.origin ≡ true
  pub counters :
      leb_ℤ (pos 0) a.not_before && (leb_ℤ (pos 1) a.max_attempts && leb_ℤ a.max_attempts (pos 5))
      ≡ true
