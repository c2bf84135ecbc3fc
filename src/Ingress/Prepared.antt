-- ===== src/Ingress/Prepared.antt =====
-- What the Root Writer is asked to write, as the envelope and the text say it.
use Prim.Native.String.{◌++◌ as str_append}
use growth_clockwork.Prelude.{
  ◌≤◌, ◌≡◌, ap, ◌∙◌, String, true, false, none, some, List, [], ◌∷◌, arith, all, length, leb, not,
  ◌&&◌, is_blank, eq_iff, Option, Option-cases, inl, inr,
}
use growth_clockwork.Json.{Json, str, arr, obj, Fields, get_field, items, has_exactly}
use growth_clockwork.Json.Canonical.{encode, canonical}
use growth_clockwork.Broker.Session.{Env, Result, ok}
use growth_clockwork.Ingress.{
  ◌>>=◌, persist_fields, identity_fields, check_identity_field, identity_digest, identity_of,
  member,
}
use growth_clockwork.Ingress.Readers.{member-there, bind-ok, check-ok, identity_of-digest}
use growth_clockwork.Ingress.Persist.{
  Profile, WriteRequest, Writer, prefix, required_fields, is_project, input_path, content_digest,
  write_request, prepare,
}

-- A request for one write of a text under a path that the event of an envelope names.
pub record Prepared (env : Env) (writer : Writer) (fs : Fields) (text : String)
    (files : writer.Files) (request : WriteRequest) : Type 0 where
  pub exact : has_exactly fs persist_fields ≡ true
  pub nonblank : is_blank text ≡ false
  pub size : length (encode text) ≤ 64000
  pub profile : Profile
  pub loaded : writer.load_profile files ≡ ok profile
  pub project : get_field "project_id" fs ≡ some (str profile.project_id)
  pub origin : String
  pub from : get_field "origin" fs ≡ some (str origin)
  pub required : List String
  pub known : identity_fields origin ≡ some required
  pub identity : Fields
  pub event : get_field "identity" fs ≡ some (obj identity)
  pub checked : all (check_identity_field identity) required ≡ true
  pub key : String
  pub digest : key ≡ env.sha256 (canonical (arr (items (str origin ∷ obj identity ∷ []))))
  pub asked : request ≡ record {
    project_id = profile.project_id;
    project_profile_revision = profile.profile_revision;
    run_id = str_append "ingress-" (prefix 32 key);
    idempotency_key = writer.uuid5 (
        str_append "growth-clockwork-ingress:"
          (str_append profile.project_id (str_append ":" key)));
    requested_by = profile.root_role_id;
    path = str_append "records/ingress/" (str_append key "/r1.txt");
    content = text;
    content_sha256 = env.sha256 (encode text);
  }

is_project-same :
    (profile : Profile) (o : Option Json)
    → is_project profile o ≡ true
    → o ≡ some (str profile.project_id)
is_project-same profile none h = absurd (ground arith)
is_project-same profile (some (str s)) h = ground (arith, eq_iff profile.project_id s)
is_project-same profile (some _) h = absurd (ground arith)

required_fields-known :
    (v : Json) (origin : String) (required : List String)
    → required_fields v ≡ ok (origin, required)
    → (v ≡ str origin) × (identity_fields origin ≡ some required)
required_fields-known (str o) origin required h = elim (Option-cases (identity_fields o)) [
  | inl unknown ↦ absurd (ground arith)
  | inr (fields, known) ↦
      let same : o ≡ origin = ground arith in (ap str same, ground (arith, same, known))
]
required_fields-known _ origin required h = absurd (ground arith)

module _ (env : Env) (writer : Writer) (fs : Fields) (text : String) (files : writer.Files) where
  -- The rest of `prepare`, from the origin on.
  abbrev from_origin : Profile → Result (String × WriteRequest)
  from_origin profile = do
    v ← member fs "origin"
    (origin, required) ← required_fields v
    identity ← member fs "identity"
    key ← identity_of env origin required identity
    ok (key, write_request env writer profile key text)

  -- The path and the hash that the receipt is held against are those of the request.
  abbrev pub Carries : String → WriteRequest → Type 0
  Carries key request =
      (input_path key ≡ request.path) × (content_digest env text ≡ request.content_sha256)

  from_origin-Prepared :
      (profile : Profile) (key : String) (request : WriteRequest)
      → from_origin profile ≡ ok (key, request)
      → has_exactly fs persist_fields ≡ true
      → is_blank text ≡ false
      → length (encode text) ≤ 64000
      → writer.load_profile files ≡ ok profile
      → get_field "project_id" fs ≡ some (str profile.project_id)
      → Prepared env writer fs text files request × Carries key request
  unfolding write_request identity_digest input_path content_digest
  from_origin-Prepared profile key request h exact nonblank size loaded project =
      let (v, there, h4) = bind-ok (member fs "origin") _ (key, request) h in
      let ((origin, required), read, h5) = bind-ok (required_fields v) _ (key, request) h4 in
      let (i, is_there, h6) = bind-ok (member fs "identity") _ (key, request) h5 in
      let (k, digest, h7) = bind-ok (identity_of env origin required i) _ (key, request) h6 in
      let (is_origin, known) = required_fields-known v origin required read in
      let (identity, is_object, checked, hashed) =
        identity_of-digest env origin required i k digest in
      let prepared : Prepared env writer fs text files request = record {
        exact = exact;
        nonblank = nonblank;
        size = size;
        profile = profile;
        loaded = loaded;
        project = project;
        origin = origin;
        from = member-there fs "origin" v there ∙ ap some is_origin;
        required = required;
        known = known;
        identity = identity;
        event = member-there fs "identity" i is_there ∙ ap some is_object;
        checked = checked;
        key = k;
        digest = hashed;
        asked = ground arith;
      } in
      (prepared, (ground arith, ground arith))

  pub prepare-Prepared :
      (key : String) (request : WriteRequest)
      → prepare env writer fs text files ≡ ok (key, request)
      → Prepared env writer fs text files request × Carries key request
  unfolding prepare
  prepare-Prepared key request h =
      let (tests, h1) =
        check-ok
          (has_exactly fs persist_fields
            && (not (is_blank text) && leb (length (encode text)) 64000))
          _ _ (key, request) h in
      let (profile, loaded, h2) = bind-ok (writer.load_profile files) _ (key, request) h1 in
      let (same, h3) =
        check-ok (is_project profile (get_field "project_id" fs)) _ _ (key, request) h2 in
      from_origin-Prepared profile key request h3 (ground (arith, tests)) (ground (arith, tests))
        (ground (arith, tests)) loaded (is_project-same profile (get_field "project_id" fs) same)
