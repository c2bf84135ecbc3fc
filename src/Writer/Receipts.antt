-- ===== src/Writer/Receipts.antt =====
-- The receipts of pipeline/root_writer.py: the one that is written, and `_idempotent_receipt`, which
-- reads the one of an earlier application of the same request.
use growth_clockwork.Prelude.{
  ℕ, String, not, ◌&&◌, Option, none, some, List, [], ◌∷◌, ◌++◌, length, str_eq, is_sha256, ◌==◌,
}
use growth_clockwork.Prelude.Int.{pos}
use growth_clockwork.Prelude.Fallible.{Fallible, done, ◌>>=◌, ◌>>◌, check}
use growth_clockwork.Json.{Json, num, str, arr, obj, Items, nil, cons, Fields, end, field}
use growth_clockwork.Writer.{Fault, writer_error, refuse, require_exact_keys, value_of, RelPath}
use growth_clockwork.Writer.Paths.{as_posix, append_text, digest, validate_relative_path}
use growth_clockwork.Writer.Profile.{Profile}
use growth_clockwork.Writer.Requests.{Host, Header, require_text}
use growth_clockwork.Writer.Writes.{Prepared}
use growth_clockwork.Writer.Files.{Tree, read_relative_bytes, read_existing}

-- `_receipt_relative`
unfoldable pub receipt_relative : Profile → Header → RelPath
receipt_relative profile header =
    profile.policy.receipt_root
    ++ header.run_id ∷ append_text "writer-" (append_text header.idempotency_key ".json") ∷ []

-- An entry of a receipt; its keys are in the order that they have in the file.
abbrev pub written_object : Prepared → Fields
written_object w = field "bytes" (num (pos (length w.content))) (
    field "media_type" (str w.media_type) (
      field "mode" (str "create")
        (field "path" (str (as_posix w.relative)) (field "sha256" (str w.content_sha256) end))))

abbrev pub receipt_writes : List Prepared → Items
receipt_writes [] = nil
receipt_writes (w ∷ ws) = cons (obj (written_object w)) (receipt_writes ws)

abbrev pub receipt_object : Profile → Header → String → String → List Prepared → Fields
receipt_object profile header request_sha256 now ws = field "created_at" (str now) (
    field "idempotency_key" (str header.idempotency_key) (
      field "project_id" (str profile.project_id) (
        field "project_profile_revision" (str profile.profile_revision) (
          field "receipt_version" (str "1.0") (
            field "request_sha256" (str request_sha256) (
              field "requested_by" (str profile.root_role_id) (
                field "run_id" (str header.run_id) (
                  field "status" (str "completed")
                    (field "writes" (arr (receipt_writes ws)) end)))))))))

-- The receipt of a request.
unfoldable pub make_receipt : Profile → Header → String → String → List Prepared → Json
unfolding as_posix
make_receipt profile header request_sha256 now ws =
    obj (receipt_object profile header request_sha256 now ws)

abbrev pub receipt_fields : List String
receipt_fields =
    "receipt_version" ∷ "status" ∷ "project_id" ∷ "project_profile_revision" ∷ "run_id"
    ∷ "idempotency_key" ∷ "requested_by" ∷ "request_sha256" ∷ "writes" ∷ "created_at" ∷ []

-- The identity of a receipt.
unfoldable pub check_identity : Profile → Header → String → Fields → Fallible Fault (Unit {0})
check_identity profile header request_sha256 fs =
    require_text fs "receipt_version" "1.0" "Existing receipt version is unsupported"
    >> require_text fs "request_sha256" request_sha256
        "Idempotency key was already used for another request"
    >> require_text fs "status" "completed" "Existing receipt is not completed"
    >> require_text fs "project_id" profile.project_id
        "Existing receipt identity mismatch: project_id"
    >> require_text fs "project_profile_revision" profile.profile_revision
        "Existing receipt identity mismatch: project_profile_revision"
    >> require_text fs "run_id" header.run_id "Existing receipt identity mismatch: run_id"
    >> require_text fs "idempotency_key" header.idempotency_key
        "Existing receipt identity mismatch: idempotency_key"
    >> require_text fs "requested_by" profile.root_role_id
        "Existing receipt identity mismatch: requested_by"

abbrev pub read_byte_count : Json → Fallible Fault ℕ
read_byte_count (num (pos n)) = done n
read_byte_count _ = refuse "Existing receipt has an invalid byte count"

abbrev pub require_media_type : Json → Fallible Fault (Unit {0})
require_media_type (str s) =
    check (not (str_eq s "")) (writer_error "Existing receipt has an invalid media type" [])
require_media_type _ = refuse "Existing receipt has an invalid media type"

-- The file that an entry names, against the hash and the length that it gives.
unfoldable pub check_readback : Host → Tree → RelPath → String → ℕ → Fallible Fault (Unit {0})
unfolding read_existing
check_readback host t path sha n = read_existing path t >>= λ bytes.
    check (str_eq (Host.sha256 host bytes) sha && length bytes == n)
      (writer_error "Idempotent readback mismatch" path)

abbrev pub read_written_path : Fields → Fallible Fault RelPath
read_written_path fs = value_of fs "path" >>= λ v. validate_relative_path v "receipt write path"

abbrev pub check_media_type : Fields → Fallible Fault (Unit {0})
check_media_type fs = value_of fs "media_type" >>= require_media_type

-- The last tests of an entry, of its media type, its path and its file.
abbrev pub with_count : Host → Tree → Fields → String → ℕ → Fallible Fault (Unit {0})
with_count host t fs sha n =
    check_media_type fs >> read_written_path fs >>= λ path. check_readback host t path sha n

abbrev pub with_digest : Host → Tree → Fields → String → Fallible Fault (Unit {0})
with_digest host t fs sha = (value_of fs "bytes" >>= read_byte_count) >>= with_count host t fs sha

unfoldable pub read_written_digest : Fields → Fallible Fault String
unfolding require_exact_keys is_sha256
read_written_digest fs =
    require_exact_keys fs ("path" ∷ "mode" ∷ "sha256" ∷ "bytes" ∷ "media_type" ∷ []) []
      "receipt write"
    >> require_text fs "mode" "create" "Existing receipt has an invalid write mode"
    >> (value_of fs "sha256" >>= λ v.
        digest v (writer_error "Existing receipt has an invalid write hash" []))

unfoldable pub check_receipt_write : Host → Tree → Json → Fallible Fault (Unit {0})
unfolding check_readback read_written_digest
check_receipt_write host t (obj fs) = read_written_digest fs >>= with_digest host t fs
check_receipt_write host t _ = refuse "Existing receipt has an invalid write entry"

unfoldable pub check_receipt_writes : Host → Tree → Items → Fallible Fault (Unit {0})
unfolding check_receipt_write
check_receipt_writes host t nil = done tt
check_receipt_writes host t (cons v vs) =
    check_receipt_write host t v >> check_receipt_writes host t vs

abbrev pub require_writes : Json → Fallible Fault Items
require_writes (arr (cons v vs)) = done (cons v vs)
require_writes _ = refuse "Existing receipt has invalid writes"

-- The checks of a receipt that was found.
unfoldable pub check_receipt :
    Host → Profile → Header → String → Tree → Json → Fallible Fault (Unit {0})
unfolding check_identity check_receipt_writes require_exact_keys
check_receipt host profile header request_sha256 t (obj fs) =
    require_exact_keys fs receipt_fields [] "writer receipt"
    >> check_identity profile header request_sha256 fs
    >> (value_of fs "writes" >>= require_writes)
    >>= check_receipt_writes host t
check_receipt host profile header request_sha256 t _ = refuse "writer receipt must be a JSON object"

unfoldable pub parsed_receipt :
    Host → Profile → Header → String → Tree → Option (List ℕ) → Fallible Fault (Option Json)
unfolding check_receipt
parsed_receipt host profile header request_sha256 t none = done none
parsed_receipt host profile header request_sha256 t (some bytes) = elim (Host.loads host bytes) [
  | none ↦ refuse "Cannot parse writer receipt JSON"
  | some r ↦ check_receipt host profile header request_sha256 t r >> done (some r)
]

-- `_idempotent_receipt`
unfoldable pub idempotent_receipt :
    Host → Profile → Header → String → Tree → Fallible Fault (Option Json)
unfolding parsed_receipt read_relative_bytes receipt_relative
idempotent_receipt host profile header request_sha256 t =
    read_relative_bytes (receipt_relative profile header) t
    >>= parsed_receipt host profile header request_sha256 t
