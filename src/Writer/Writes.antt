-- ===== src/Writer/Writes.antt =====
-- The entries of `writes` and `validate_request` of pipeline/root_writer.py.
use growth_clockwork.Prelude.{
  ℕ, suc, ◌+◌, String, not, Option, none, some, List, [], ◌∷◌, ltb, length, str_eq, is_blank,
  is_sha256, if◌then◌else◌,
}
use growth_clockwork.Prelude.Fallible.{Fallible, done, ◌>>=◌, ◌>>◌, check}
use growth_clockwork.Json.{Json, null, str, obj, Items, nil, cons, Fields, get_field}
use growth_clockwork.Json.Canonical.{encode}
use growth_clockwork.Writer.{Fault, writer_error, refuse, require_exact_keys, value_of, RelPath}
use growth_clockwork.Writer.Paths.{digest}
use growth_clockwork.Writer.Profile.{Profile, Policy}
use growth_clockwork.Writer.Requests.{
  Host, Header, require_text, validate_request_header, read_target, validate_preconditions,
}

-- An entry of `writes` that has passed.
pub record Prepared : Type 0 where
  pub relative : RelPath
  pub content : List ℕ
  pub content_sha256 : String
  pub media_type : String

abbrev pub read_content : Json → Fallible Fault (List ℕ)
read_content (str s) = done (encode s)
read_content _ = refuse "content must be a UTF-8 string"

abbrev pub read_media_type : Option Json → Fallible Fault String
read_media_type none = done "text/plain; charset=utf-8"
read_media_type (some (str s)) =
    if is_blank s then refuse "media_type must be a non-empty string" else done s
read_media_type (some _) = refuse "media_type must be a non-empty string"

abbrev pub require_null : Json → Fallible Fault (Unit {0})
require_null null = done tt
require_null _ = refuse "Create requires expected_sha256=null"

abbrev pub matching : Host → List ℕ → String → Fallible Fault (List ℕ × String)
matching host bytes sha =
    check (str_eq (Host.sha256 host bytes) sha) (writer_error "Content hash mismatch" [])
    >> done (bytes, sha)

abbrev pub read_digest : Fields → Fallible Fault String
read_digest fs =
    value_of fs "content_sha256" >>= λ v. digest v (writer_error "content_sha256 is invalid" [])

-- The content of an entry and the hash that it must have.
unfoldable pub read_hashed : Host → Fields → Fallible Fault (List ℕ × String)
unfolding encode is_sha256
read_hashed host fs =
    (value_of fs "content" >>= read_content) >>= λ bytes. read_digest fs >>= matching host bytes

abbrev pub write_fields : List String
write_fields = "path" ∷ "mode" ∷ "content" ∷ "content_sha256" ∷ "expected_sha256" ∷ []

unfoldable pub read_write_path : Policy → List RelPath → Fields → Fallible Fault RelPath
unfolding read_target require_exact_keys
read_write_path policy seen fs =
    require_exact_keys fs write_fields ("media_type" ∷ []) "writes"
    >> (value_of fs "path" >>= λ v. read_target policy seen v "writes.path")

abbrev pub read_created : Host → Fields → Fallible Fault (List ℕ × String)
read_created host fs =
    require_text fs "mode" "create" "mode must be create; revisions require a new path"
    >> read_hashed host fs

abbrev pub read_new : Fields → Fallible Fault String
read_new fs =
    (value_of fs "expected_sha256" >>= require_null) >> read_media_type (get_field "media_type" fs)

-- The last test of an entry, of the file at its path, and what the entry holds.
abbrev pub with_media :
    (RelPath → Fallible Fault (Unit {0}))
    → RelPath
    → List ℕ × String
    → String
    → Fallible Fault Prepared
with_media target path hashed media =
    target path
    >> done (record {
      relative = path;
      content = hashed.0;
      content_sha256 = hashed.1;
      media_type = media;
    })

abbrev pub with_hashed :
    (RelPath → Fallible Fault (Unit {0}))
    → Fields
    → RelPath
    → List ℕ × String
    → Fallible Fault Prepared
with_hashed target fs path hashed = read_new fs >>= with_media target path hashed

abbrev pub with_path :
    Host → (RelPath → Fallible Fault (Unit {0})) → Fields → RelPath → Fallible Fault Prepared
with_path host target fs path = read_created host fs >>= with_hashed target fs path

-- One entry; `target` is what is asked of the file at its path.
unfoldable pub read_write :
    Host
    → Policy
    → (RelPath → Fallible Fault (Unit {0}))
    → List RelPath
    → Json
    → Fallible Fault Prepared
unfolding read_write_path read_hashed
read_write host policy target seen (obj fs) =
    read_write_path policy seen fs >>= with_path host target fs
read_write host policy target seen _ = refuse "writes must be an object"

unfoldable pub read_each_write :
    Host
    → Policy
    → (RelPath → Fallible Fault (Unit {0}))
    → List RelPath
    → Items
    → Fallible Fault (List Prepared)
unfolding read_write
read_each_write host policy target seen nil = done []
read_each_write host policy target seen (cons v vs) = read_write host policy target seen v >>= λ w.
    read_each_write host policy target (w.relative ∷ seen) vs >>= λ ws. done (w ∷ ws)

abbrev pub total_bytes : List Prepared → ℕ
total_bytes [] = 0
total_bytes (w ∷ ws) = length w.content + total_bytes ws

abbrev pub entry_count : Items → ℕ
entry_count nil = 0
entry_count (cons v vs) = suc (entry_count vs)

abbrev pub within : Policy → List Prepared → Fallible Fault (List Prepared)
within policy ws =
    check (not (ltb policy.max_total_bytes (total_bytes ws)))
      (writer_error "Request exceeds max_total_bytes" [])
    >> done ws

-- The entries of a request whose header has been accepted.
abbrev pub read_writes_of :
    Host
    → Policy
    → (RelPath → Fallible Fault (Unit {0}))
    → (RelPath → Fallible Fault (Unit {0}))
    → Header
    → Fallible Fault (List Prepared)
read_writes_of host policy linked target header =
    validate_preconditions policy linked [] header.preconditions
    >> check
        (not (
          ltb policy.max_files_per_request
            (entry_count (cons header.first_write header.more_writes))))
        (writer_error "Request exceeds max_files_per_request" [])
    >> read_each_write host policy target [] (cons header.first_write header.more_writes)

-- `validate_request`; the symbolic links are tested by `linked`, the files that are there by
-- `target`.
unfoldable pub validate_request :
    Host
    → Profile
    → (RelPath → Fallible Fault (Unit {0}))
    → (RelPath → Fallible Fault (Unit {0}))
    → Fields
    → Fallible Fault (List Prepared)
unfolding validate_request_header validate_preconditions read_each_write
validate_request host profile linked target fs =
    validate_request_header host fs profile
    >>= read_writes_of host profile.policy linked target
    >>= within profile.policy
