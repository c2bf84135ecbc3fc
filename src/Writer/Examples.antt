-- ===== src/Writer/Examples.antt =====
-- Runs of the Root Writer on a small state directory, and the instances that its theorems apply to.
use growth_clockwork.Prelude.{
  ◌≡◌, refl, ap, ◌⊎◌, String, true, none, some, [], ◌∷◌, codes, sort_texts, distinct, false, eq_iff,
  subst, arith,
}
use growth_clockwork.Prelude.Fallible.{done, failed}
use growth_clockwork.Json.{null, str, arr, obj, nil, cons, Fields, end, field}
use growth_clockwork.Routes.Decisions.{is_portable}
use growth_clockwork.Writer.{writer_error, RelPath}
use growth_clockwork.Writer.Paths.{under_any, as_posix, validate_relative_path}
use growth_clockwork.Writer.Profile.{Profile}
use growth_clockwork.Writer.Requests.{Host}
use growth_clockwork.Writer.Files.{Tree, file, folder, entry_at, is_stage_name}
use growth_clockwork.Writer.Apply.{apply_request_value}
use growth_clockwork.Prelude.{◌≤◌}
use growth_clockwork.Writer.Paths.{has_distinct_paths}
use growth_clockwork.Prelude.Fallible.{Fallible}
use growth_clockwork.Writer.{Fault}
use growth_clockwork.Writer.Writes.{validate_request}
use growth_clockwork.Writer.Targets.{Placed}
use growth_clockwork.Writer.Limits.{validate_request-limits}
use growth_clockwork.Writer.Replay.{apply_request_value-apply_request_value}
use growth_clockwork.Prelude.Int.{pos}
use growth_clockwork.Writer.Files.{is_stage_path}
use growth_clockwork.Json.{Json, num}
use growth_clockwork.Writer.Paths.{under_prefix}
use growth_clockwork.Writer.Kept.{apply_request_value-keeps, apply_request_value-confined}
use growth_clockwork.Writer.RoundTrip.{validate_relative_path-as_posix}

-- A hash that is the same for all bytes, and no receipts that can be parsed.
abbrev zeros : String
zeros = "0000000000000000000000000000000000000000000000000000000000000000"

abbrev host : Host
host = record {
  sha256 = λ bytes. zeros;
  uuid = λ s. some s;
  canonical_json = λ v. [];
  dumps = λ v. codes "receipt";
  loads = λ bytes. none;
}

abbrev profile : Profile
profile = record {
  profile_revision = "rev-1";
  project_id = "proj";
  root_role_id = "root";
  role_ids = none;
  enabled_routes = none;
  mandatory_roles = none;
  project_context = none;
  agent_registry = none;
  professional_contracts = none;
  research_adapters = none;
  policy = record {
    state_root = "state" ∷ [];
    allowed_roots = ("out" ∷ []) ∷ ("log" ∷ []) ∷ [];
    append_only_roots = ("log" ∷ []) ∷ [];
    receipt_root = "log" ∷ [];
    max_files_per_request = 2;
    max_total_bytes = 100;
  };
}

abbrev request : Fields
request = field "writer_request_version" (str "1.0") (
    field "project_id" (str "proj") (
      field "project_profile_revision" (str "rev-1") (
        field "run_id" (str "run-1") (
          field "idempotency_key" (str "key") (
            field "requested_by" (str "root") (
              field "writes"
                (arr (
                  cons
                    (obj (
                      field "path" (str "out/./b.txt") (
                        field "mode" (str "create") (
                          field "content" (str "hi") (
                            field "content_sha256" (str zeros)
                              (field "expected_sha256" null end))))))
                    nil))
                end))))))

-- A file of an earlier request.
abbrev tree_before : Tree
tree_before = ("out" ∷ "a.txt" ∷ [], file (codes "old")) ∷ ("out" ∷ [], folder) ∷ []

-- The request makes its file, the directories of the receipt, and the receipt.
apply_request_value-run :
    (apply_request_value host profile "now" request tree_before).0
    ≡ ("log" ∷ "run-1" ∷ "writer-key.json" ∷ [], file (codes "receipt"))
      ∷ ("log" ∷ "run-1" ∷ [], folder)
      ∷ ("log" ∷ [], folder)
      ∷ ("out" ∷ "b.txt" ∷ [], file (codes "hi"))
      ∷ (".writer-tx" ∷ [], folder)
      ∷ tree_before
unfolding apply_request_value sort_texts distinct is_portable validate_relative_path
apply_request_value-run = refl

apply_request_value-keeps_example :
    entry_at ("out" ∷ "a.txt" ∷ []) ((apply_request_value host profile "now" request tree_before).0)
    ≡ some (file (codes "old"))
unfolding is_stage_name entry_at
apply_request_value-keeps_example =
    apply_request_value-keeps host profile "now" request tree_before ("out" ∷ "a.txt" ∷ [])
      (codes "old") refl refl

new_file-there :
    entry_at ("out" ∷ "b.txt" ∷ []) ((apply_request_value host profile "now" request tree_before).0)
    ≡ some (file (codes "hi"))
unfolding entry_at
new_file-there = ap (entry_at ("out" ∷ "b.txt" ∷ [])) apply_request_value-run

apply_request_value-confined_example :
    (entry_at ("out" ∷ "b.txt" ∷ []) tree_before ≡ some (file (codes "hi")))
    ⊎ (under_any profile.policy.allowed_roots ("out" ∷ "b.txt" ∷ []) ≡ true)
apply_request_value-confined_example =
    apply_request_value-confined host profile "now" request tree_before ("out" ∷ "b.txt" ∷ [])
      (codes "hi") new_file-there

dotted_path : validate_relative_path (str "out/./b.txt") "path" ≡ done ("out" ∷ "b.txt" ∷ [])
unfolding validate_relative_path
dotted_path = refl

-- Paths that leave the directory are refused.
climbing_path :
    validate_relative_path (str "out/../b.txt") "path"
    ≡ failed (writer_error "{} contains an unsafe path segment" ("path" ∷ []))
unfolding validate_relative_path
climbing_path = refl

validate_relative_path-as_posix_example :
    validate_relative_path (str (as_posix ("out" ∷ "b.txt" ∷ []))) "receipt write path"
    ≡ done ("out" ∷ "b.txt" ∷ [])
validate_relative_path-as_posix_example =
    validate_relative_path-as_posix (str "out/./b.txt") "path" "receipt write path"
      ("out" ∷ "b.txt" ∷ []) dotted_path

-- The receipt of the request, and a host that parses it.
abbrev receipt : Json
receipt = obj (
    field "created_at" (str "now") (
      field "idempotency_key" (str "key") (
        field "project_id" (str "proj") (
          field "project_profile_revision" (str "rev-1") (
            field "receipt_version" (str "1.0") (
              field "request_sha256" (str zeros) (
                field "requested_by" (str "root") (
                  field "run_id" (str "run-1") (
                    field "status" (str "completed") (
                      field "writes"
                        (arr (
                          cons
                            (obj (
                              field "bytes" (num (pos 2)) (
                                field "media_type" (str "text/plain; charset=utf-8") (
                                  field "mode" (str "create") (
                                    field "path" (str "out/b.txt")
                                      (field "sha256" (str zeros) end))))))
                            nil))
                        end))))))))))

abbrev parsing_host : Host
parsing_host = record host { loads = λ bytes. some receipt }

abbrev tree_after : Tree
tree_after =
    ("log" ∷ "run-1" ∷ "writer-key.json" ∷ [], file (codes "receipt"))
    ∷ ("log" ∷ "run-1" ∷ [], folder)
    ∷ ("log" ∷ [], folder)
    ∷ ("out" ∷ "b.txt" ∷ [], file (codes "hi"))
    ∷ (".writer-tx" ∷ [], folder)
    ∷ tree_before

applied :
    apply_request_value parsing_host profile "now" request tree_before ≡ (tree_after, done receipt)
unfolding apply_request_value sort_texts distinct is_portable validate_relative_path
applied = refl

stages-reserved :
    (q : RelPath) → is_stage_path q ≡ true → under_any profile.policy.allowed_roots q ≡ false
unfolding under_prefix
stages-reserved (a ∷ b ∷ []) h =
    let same : ".writer-tx" ≡ a = ground (arith, eq_iff a ".writer-tx") in
    subst (λ a. under_any profile.policy.allowed_roots (a ∷ b ∷ []) ≡ false) same refl
stages-reserved [] h = ground arith
stages-reserved (a ∷ []) h = ground arith
stages-reserved (a ∷ b ∷ c ∷ q) h = ground arith

apply_request_value-apply_request_value_example :
    apply_request_value parsing_host profile "later" request tree_after ≡ (tree_after, done receipt)
apply_request_value-apply_request_value_example =
    apply_request_value-apply_request_value parsing_host profile "now" "later" request tree_before
      tree_after receipt stages-reserved refl applied

no_links : RelPath → Fallible Fault (Unit {0})
no_links p = done tt

validated :
    validate_request host profile no_links no_links request
    ≡ done (
        record {
          relative = "out" ∷ "b.txt" ∷ [];
          content = codes "hi";
          content_sha256 = zeros;
          media_type = "text/plain; charset=utf-8";
        }
        ∷ [])
unfolding validate_request sort_texts distinct is_portable validate_relative_path no_links
validated = refl

validate_request-limits_example :
    (1 ≤ 2)
    × (2 ≤ 100)
    × (has_distinct_paths (("out" ∷ "b.txt" ∷ []) ∷ []) ≡ true)
    × (Placed profile.policy ("out" ∷ "b.txt" ∷ []) × Unit {0})
validate_request-limits_example =
    validate_request-limits host profile no_links no_links request _ validated
