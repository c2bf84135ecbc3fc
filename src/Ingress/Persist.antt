-- ===== src/Ingress/Persist.antt =====
-- `persist_and_admit_event` of pipeline/broker_ingress.py. The Root Writer that it calls is an
-- interface: a state of files with the two calls, of which nothing is assumed.
use Prim.Native.Nat.{zero, suc}
use Prim.Native.String.{◌++◌ as str_append}
use growth_clockwork.Prelude.{
  ℕ, String, Bool, false, Option, none, some, List, [], ◌∷◌, ◌&&◌, not, leb, length, str_eq,
  is_blank, if◌then◌else◌,
}
use growth_clockwork.Json.{Json, str, arr, obj, Fields, field, get_field, has_exactly}
use growth_clockwork.Json.Canonical.{encode}
use growth_clockwork.Broker.Tables.{Task}
use growth_clockwork.Broker.Session.{Env, State, Error, Result, ok, err, broker_error, uncaught}
use growth_clockwork.Ingress.{
  ◌>>=◌, check, persist_fields, identity_fields, identity_of, member, admit_event,
}

pub record Profile : Type 0 where
  pub project_id : String
  pub profile_revision : String
  pub root_role_id : String

-- The one write of a request; its mode is `create` and it expects no earlier file.
pub record WriteRequest : Type 0 where
  pub project_id : String
  pub project_profile_revision : String
  pub run_id : String
  pub idempotency_key : String
  pub requested_by : String
  pub path : String
  pub content : String
  pub content_sha256 : String

-- The paths of a receipt with their hashes.
pub record Receipt : Type 0 where
  pub writes : List (String × String)
  pub idempotency_key : String
  pub request_sha256 : String

-- `root_writer.load_project_profile` and `apply_request_value`, and `uuid.uuid5` of the URL
-- namespace.
pub record Writer : Type 1 where
  pub Files : Type 0
  pub load_profile : Files → Result Profile
  pub apply_request : WriteRequest → Files → Result Receipt × Files
  pub uuid5 : String → String

-- The fields of the input that the caller gets back.
pub record Input : Type 0 where
  pub artifact_ref : String
  pub artifact_sha256 : String
  pub writer_receipt_key : String
  pub writer_request_sha256 : String

-- The first characters of a text, as `origin_key[:32]`.
abbrev pub prefix : ℕ → String → String
prefix zero s = String.[]
prefix (suc n) String.[] = String.[]
prefix (suc n) (String.◌∷◌ c s) = String.◌∷◌ c (prefix n s)

-- `IDENTITY_FIELDS[envelope['origin']]`, which raises where the origin is unknown.
abbrev pub required_fields : Json → Result (String × List String)
required_fields v = elim v [
  | str origin ↦ elim (identity_fields origin) [
    | none ↦ err (uncaught "KeyError")
    | some required ↦ ok (origin, required)
  ]
  | arr xs ↦ err (uncaught "TypeError")
  | obj fs ↦ err (uncaught "TypeError")
  | _ ↦ err (uncaught "KeyError")
]

abbrev pub is_project : Profile → Option Json → Bool
is_project profile none = false
is_project profile (some v) = elim v [ str s ↦ str_eq profile.project_id s | _ ↦ false ]

-- `next((item for item in receipt['writes'] if item['path'] == input_ref), None)`
abbrev pub receipt_hash : String → List (String × String) → Option String
receipt_hash path [] = none
receipt_hash path (w ∷ ws) = if str_eq w.0 path then some w.1 else receipt_hash path ws

abbrev pub verifies : String → String → Receipt → Bool
verifies path sha256 receipt = elim (receipt_hash path receipt.writes) [
  | none ↦ false
  | some h ↦ str_eq h sha256
]

unfoldable pub input_path : String → String
input_path key = str_append "records/ingress/" (str_append key "/r1.txt")

unfoldable pub content_digest : Env → String → String
content_digest env text = env.sha256 (encode text)

-- `envelope | {'input_ref': ..., 'input_sha256': ...}`, of an envelope without them.
abbrev pub with_input : String → String → Fields → Fields
with_input path sha256 fs = field "input_ref" (str path) (field "input_sha256" (str sha256) fs)

abbrev pub unverified : Error
unverified = broker_error "Writer receipt does not verify ingress input"

-- The task with its input, where the admission returned.
abbrev pub reply_with : Input → Result Task × State → Result (Task × Input) × State
reply_with input (ok task, s) = (ok (task, input), s)
reply_with input (err e, s) = (err e, s)

module _ (env : Env) (writer : Writer) where
  unfoldable pub write_request : Profile → String → String → WriteRequest
  write_request profile key text = record {
    project_id = profile.project_id;
    project_profile_revision = profile.profile_revision;
    run_id = str_append "ingress-" (prefix 32 key);
    idempotency_key = writer.uuid5 (
        str_append "growth-clockwork-ingress:"
          (str_append profile.project_id (str_append ":" key)));
    requested_by = profile.root_role_id;
    path = input_path key;
    content = text;
    content_sha256 = content_digest env text;
  }

  -- Up to the call of the writer: the key of the event and the request.
  unfoldable pub prepare : Fields → String → writer.Files → Result (String × WriteRequest)
  prepare fs text files = do
    _ ←
        check
          (has_exactly fs persist_fields
            && (not (is_blank text) && leb (length (encode text)) 64000))
          "Invalid persisted ingress request"
    profile ← writer.load_profile files
    _ ←
        check (is_project profile (get_field "project_id" fs))
          "Ingress profile does not match project"
    v ← member fs "origin"
    (origin, required) ← required_fields v
    identity ← member fs "identity"
    key ← identity_of env origin required identity
    ok (key, write_request profile key text)

  abbrev pub input_of : String → String → Receipt → Input
  input_of key text receipt = record {
    artifact_ref = input_path key;
    artifact_sha256 = content_digest env text;
    writer_receipt_key = receipt.idempotency_key;
    writer_request_sha256 = receipt.request_sha256;
  }

  -- The admission, once the receipt verifies.
  abbrev pub admit_written :
      Fields → String → String → Receipt → State → Result (Task × Input) × State
  admit_written fs key text receipt s =
      reply_with (input_of key text receipt)
        (admit_event env (obj (with_input (input_path key) (content_digest env text) fs)) s)

  -- From the receipt on.
  abbrev pub after_write :
      Fields
      → String
      → String
      → State
      → Result Receipt × writer.Files
      → Result (Task × Input) × (writer.Files × State)
  after_write fs key text s (err e, files) = (err e, (files, s))
  after_write fs key text s (ok receipt, files) =
      if verifies (input_path key) (content_digest env text) receipt
      then (let (x, s') = admit_written fs key text receipt s in (x, (files, s')))
      else (err unverified, (files, s))

  abbrev pub after_prepare :
      Fields
      → String
      → writer.Files
      → State
      → Result (String × WriteRequest)
      → Result (Task × Input) × (writer.Files × State)
  after_prepare fs text files s (err e) = (err e, (files, s))
  after_prepare fs text files s (ok (key, request)) =
      after_write fs key text s (writer.apply_request request files)

  unfoldable pub persist_and_admit_event :
      Json → String → writer.Files → State → Result (Task × Input) × (writer.Files × State)
  persist_and_admit_event (obj fs) text files s =
      after_prepare fs text files s (prepare fs text files)
  persist_and_admit_event _ text files s =
      (err (broker_error "Invalid persisted ingress request"), (files, s))
