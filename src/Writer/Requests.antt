-- ===== src/Writer/Requests.antt =====
-- `_validate_request_header` and `_validate_preconditions` of pipeline/root_writer.py.
use growth_clockwork.Prelude.{ℕ, String, not, Option, none, some, List, [], ◌∷◌, str_eq}
use growth_clockwork.Prelude.Fallible.{Fallible, done, ◌>>=◌, ◌>>◌, check}
use growth_clockwork.Json.{Json, null, str, arr, obj, Items, nil, cons, Fields, get_field}
use growth_clockwork.Writer.{
  Fault, writer_error, refuse, require_exact_keys, equals_text, value_of, RelPath,
}
use growth_clockwork.Writer.Paths.{
  under_prefix, under_any, is_path_in, portable, digest, validate_relative_path,
}
use growth_clockwork.Writer.Profile.{Profile, Policy}

-- What the writer takes from hashlib, uuid and json: the SHA-256 of bytes, `str(uuid.UUID(text))`,
-- the canonical form of a request, the bytes of a receipt and the value that they are parsed to.
pub record Host : Type 0 where
  pub sha256 : List ℕ → String
  pub uuid : String → Option String
  pub canonical_json : Json → List ℕ
  pub dumps : Json → List ℕ
  pub loads : List ℕ → Option Json

-- What the header of a request holds; it has a write.
pub record Header : Type 0 where
  pub run_id : String
  pub idempotency_key : String
  pub preconditions : Items
  pub first_write : Json
  pub more_writes : Items

abbrev pub request_fields : List String
request_fields =
    "writer_request_version" ∷ "project_id" ∷ "project_profile_revision" ∷ "run_id"
    ∷ "idempotency_key" ∷ "requested_by" ∷ "writes" ∷ []

-- A field that must be a text that is known.
abbrev pub require_text : Fields → String → String → String → Fallible Fault (Unit {0})
require_text fs k expected message =
    value_of fs k >>= λ v. check (equals_text expected v) (writer_error message [])

-- A value that is no text has no text equal to it, and is refused by one of the two tests.
abbrev pub read_key : Host → Json → Fallible Fault String
read_key host (str s) = elim (Host.uuid host s) [
  | none ↦ refuse "idempotency_key must be a UUID"
  | some canonical ↦
      check (str_eq canonical s)
        (writer_error "idempotency_key must use canonical lowercase UUID form" [])
      >> done s
]
read_key host _ = refuse "idempotency_key must be a UUID"

abbrev pub read_writes : Json → Fallible Fault (Json × Items)
read_writes (arr (cons v vs)) = done (v, vs)
read_writes _ = refuse "writes must be a non-empty array"

abbrev pub read_preconditions : Option Json → Fallible Fault Items
read_preconditions none = done nil
read_preconditions (some (arr vs)) = done vs
read_preconditions (some _) = refuse "preconditions must be an array"

unfoldable pub read_header : Host → Fields → Profile → Fallible Fault Header
read_header host fs profile =
    (value_of fs "run_id" >>= λ v.
    portable v (writer_error "run_id has an invalid portable identifier" []))
    >>= λ run. (value_of fs "idempotency_key" >>= read_key host) >>= λ key.
        require_text fs "requested_by" profile.root_role_id
          "requested_by does not match the project root role"
        >> (value_of fs "writes" >>= read_writes)
        >>= λ ws. read_preconditions (get_field "preconditions" fs) >>= λ ps. done (record {
          run_id = run;
          idempotency_key = key;
          preconditions = ps;
          first_write = ws.0;
          more_writes = ws.1;
        })

-- `_validate_request_header`, which here returns what it read.
unfoldable pub validate_request_header : Host → Fields → Profile → Fallible Fault Header
unfolding read_header require_exact_keys
validate_request_header host fs profile =
    require_exact_keys fs request_fields ("preconditions" ∷ []) "writer request"
    >> require_text fs "writer_request_version" "1.0" "Unsupported writer request version"
    >> require_text fs "project_id" profile.project_id
        "Request project_id does not match the selected profile"
    >> require_text fs "project_profile_revision" profile.profile_revision
        "Request project_profile_revision is stale or mismatched"
    >> read_header host fs profile

-- Where a path may not stand: outside the allowed roots, at a root, or below the receipts.
unfoldable pub check_place : Policy → RelPath → Fallible Fault (Unit {0})
unfolding under_prefix
check_place policy path =
    check (under_any policy.allowed_roots path)
      (writer_error "Path is outside the project allowlist" path)
    >> check (not (is_path_in path policy.allowed_roots))
        (writer_error "Writer roots are directories, not file targets" path)
    >> check (not (under_prefix path policy.receipt_root))
        (writer_error "Writer receipt root is reserved" path)

abbrev pub at_new_place : Policy → List RelPath → RelPath → Fallible Fault RelPath
at_new_place policy seen path =
    check (not (is_path_in path seen)) (writer_error "Duplicate path" path)
    >> check_place policy path
    >> done path

-- A path that is new and stands where it may.
unfoldable pub read_target : Policy → List RelPath → Json → String → Fallible Fault RelPath
unfolding check_place
read_target policy seen v label = validate_relative_path v label >>= at_new_place policy seen

pub record Precondition : Type 0 where
  pub relative : RelPath
  pub expected_sha256 : Option String

abbrev pub expected_hash : Json → Fallible Fault (Option String)
expected_hash null = done none
expected_hash v =
    digest v (writer_error "preconditions.expected_sha256 is invalid" []) >>= λ s. done (some s)

-- One entry; `linked` is `_assert_no_symlink_path` on the entry's path.
unfoldable pub read_precondition :
    Policy
    → (RelPath → Fallible Fault (Unit {0}))
    → List RelPath
    → Json
    → Fallible Fault Precondition
unfolding read_target require_exact_keys
read_precondition policy linked seen (obj fs) =
    require_exact_keys fs ("path" ∷ "expected_sha256" ∷ []) [] "preconditions"
    >> (value_of fs "path" >>= λ v. read_target policy seen v "preconditions.path")
    >>= λ path. (value_of fs "expected_sha256" >>= expected_hash) >>= λ expected.
        linked path >> done (record { relative = path; expected_sha256 = expected })
read_precondition policy linked seen _ = refuse "preconditions must be an object"

-- `_validate_preconditions`
unfoldable pub validate_preconditions :
    Policy
    → (RelPath → Fallible Fault (Unit {0}))
    → List RelPath
    → Items
    → Fallible Fault (List Precondition)
unfolding read_precondition
validate_preconditions policy linked seen nil = done []
validate_preconditions policy linked seen (cons v vs) =
    read_precondition policy linked seen v >>= λ p.
    validate_preconditions policy linked (p.relative ∷ seen) vs >>= λ ps. done (p ∷ ps)
