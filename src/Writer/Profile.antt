-- ===== src/Writer/Profile.antt =====
-- `load_project_profile` of pipeline/root_writer.py, on the JSON object that the file holds.
use growth_clockwork.Prelude.{
  ℕ, suc, String, Bool, true, false, ◌&&◌, Option, none, some, List, [], ◌∷◌, all, is_in,
}
use Prim.Native.Char.{code}
use growth_clockwork.Prelude.{◌==◌}
use growth_clockwork.Prelude.Int.{pos}
use growth_clockwork.Prelude.Fallible.{Fallible, done, failed, ◌>>=◌, ◌>>◌, check}
use growth_clockwork.Json.{Json, num, str, obj, Fields, get_field}
use growth_clockwork.Writer.{
  Fault, writer_error, refuse, require_exact_keys, equals_text, value_of, RelPath,
}
use growth_clockwork.Writer.Paths.{
  Pinned, as_posix, under_prefix, under_any, portable, validate_relative_path, validate_prefixes,
  validate_portable_ids, validate_pinned_reference,
}

-- The `writer` policy of a profile.
pub record Policy : Type 0 where
  pub state_root : RelPath
  pub allowed_roots : List RelPath
  pub append_only_roots : List RelPath
  pub receipt_root : RelPath
  pub max_files_per_request : ℕ
  pub max_total_bytes : ℕ

-- What a profile of the file holds, and what `load_project_profile` adds to it.
pub record Profile : Type 0 where
  pub profile_revision : String
  pub project_id : String
  pub root_role_id : String
  pub role_ids : Option (List String)
  pub enabled_routes : Option (List String)
  pub mandatory_roles : Option (List String)
  pub project_context : Option Pinned
  pub agent_registry : Option Pinned
  pub professional_contracts : Option (Pinned × Pinned)
  pub research_adapters : Option Pinned
  pub policy : Policy

-- `text.startswith(prefix)`
unfoldable pub starts_with : String → String → Bool
starts_with String.[] s = true
starts_with (String.◌∷◌ c p) String.[] = false
starts_with (String.◌∷◌ c p) (String.◌∷◌ d s) = code c == code d && starts_with p s

abbrev pub ends_with_dollar : String → Bool
ends_with_dollar String.[] = false
ends_with_dollar (String.◌∷◌ c String.[]) = code c == b'$'
ends_with_dollar (String.◌∷◌ c (String.◌∷◌ d s)) = ends_with_dollar (String.◌∷◌ d s)

-- A field that a profile may leave out.
abbrev pub optional :
    {A : Type 0} → Fields → String → (Json → Fallible Fault A) → Fallible Fault (Option A)
optional fs k f = elim (get_field k fs) [ none ↦ done none | some v ↦ f v >>= λ a. done (some a) ]

abbrev pub identifier : Fields → String → Fallible Fault String
identifier fs k = value_of fs k >>= λ v.
    portable v (writer_error "{} has an invalid portable identifier" (k ∷ []))

-- `set(mandatory).issubset(role_ids)`, of a profile that has both.
abbrev pub is_subset_of : List String → Option (List String) → Bool
is_subset_of mandatory none = false
is_subset_of mandatory (some roles) = all (λ r. is_in r roles) mandatory

unfoldable pub read_mandatory : Option (List String) → Json → Fallible Fault (List String)
read_mandatory roles v = validate_portable_ids v "mandatory_roles" >>= λ ids.
    check (is_subset_of ids roles) (writer_error "mandatory_roles must be a subset of role_ids" [])
    >> done ids

-- The pattern is only checked; `compiles` is `re.compile`.
unfoldable pub check_pattern : (String → Bool) → Json → Fallible Fault (Unit {0})
unfolding starts_with
check_pattern compiles (str p) =
    check (starts_with "^" p && ends_with_dollar p)
      (writer_error "task_id_pattern must be an anchored regular expression" [])
    >> check (compiles p) (writer_error "task_id_pattern is invalid" [])
check_pattern compiles _ = refuse "task_id_pattern must be an anchored regular expression"

-- A pinned reference to a file below a directory.
unfoldable pub pinned_below : String → String → String → Json → Fallible Fault Pinned
unfolding starts_with as_posix
pinned_below label directory message v = validate_pinned_reference v label >>= λ p.
    check (starts_with directory (as_posix p.artifact_ref)) (writer_error message []) >> done p

unfoldable pub read_contracts : Json → Fallible Fault (Pinned × Pinned)
unfolding starts_with as_posix require_exact_keys
read_contracts (obj fs) =
    require_exact_keys fs ("schema" ∷ "requirements" ∷ []) [] "professional_contracts"
    >> (value_of fs "schema" >>= λ v. validate_pinned_reference v "professional_contracts.schema")
    >>= λ schema.
        (value_of fs "requirements" >>= λ v.
        validate_pinned_reference v "professional_contracts.requirements")
        >>= λ requirements.
            check (starts_with "contracts/" (as_posix schema.artifact_ref))
              (writer_error "professional_contracts.schema must point below contracts" [])
            >> check (starts_with "contracts/" (as_posix requirements.artifact_ref))
                (writer_error "professional_contracts.requirements must point below contracts" [])
            >> done (schema, requirements)
read_contracts _ = refuse "professional_contracts must be an object"

-- A positive integer.
unfoldable pub read_limit : Fields → String → Fallible Fault ℕ
read_limit fs k = value_of fs k >>= λ v. positive_limit v
  where
    positive_limit : Json → Fallible Fault ℕ
    positive_limit (num (pos (suc n))) = done (suc n)
    positive_limit (num _) = failed (writer_error "{} must be positive" (k ∷ []))
    positive_limit _ = failed (writer_error "{} must be an integer" (k ∷ []))

-- The tests between the roots of a policy.
unfoldable pub check_roots : List RelPath → List RelPath → RelPath → Fallible Fault (Unit {0})
unfolding under_prefix
check_roots allowed append_only receipts =
    check (all (under_any allowed) append_only) (writer_error "append-only root is not allowed" [])
    >> check (under_any allowed receipts) (writer_error "receipt_root is not allowed" [])
    >> check (under_any append_only receipts) (writer_error "receipt_root must be append-only" [])

abbrev pub policy_fields : List String
policy_fields =
    "state_root" ∷ "allowed_roots" ∷ "append_only_roots" ∷ "receipt_root" ∷ "max_files_per_request"
    ∷ "max_total_bytes" ∷ []

unfoldable pub read_policy : Json → Fallible Fault Policy
unfolding check_roots read_limit require_exact_keys
read_policy (obj fs) =
    require_exact_keys fs policy_fields [] "writer policy"
    >> (value_of fs "state_root" >>= λ v. validate_relative_path v "state_root")
    >>= λ state.
        (value_of fs "allowed_roots" >>= λ v. validate_prefixes v "allowed_roots") >>= λ allowed.
        (value_of fs "append_only_roots" >>= λ v. validate_prefixes v "append_only_roots")
        >>= λ append_only.
            (value_of fs "receipt_root" >>= λ v. validate_relative_path v "receipt_root")
            >>= λ receipts.
                check_roots allowed append_only receipts
                >> read_limit fs "max_files_per_request"
                >>= λ files. read_limit fs "max_total_bytes" >>= λ bytes. done (record {
                  state_root = state;
                  allowed_roots = allowed;
                  append_only_roots = append_only;
                  receipt_root = receipts;
                  max_files_per_request = files;
                  max_total_bytes = bytes;
                })
read_policy _ = refuse "writer must be an object"

abbrev pub required_profile_fields : List String
required_profile_fields =
    "profile_version" ∷ "profile_revision" ∷ "project_id" ∷ "root_role_id" ∷ "writer" ∷ []

abbrev pub optional_profile_fields : List String
optional_profile_fields =
    "agent_registry" ∷ "display_name" ∷ "enabled_routes" ∷ "mandatory_roles" ∷ "product_motion"
    ∷ "professional_contracts" ∷ "project_context" ∷ "research_adapters" ∷ "schema_registry"
    ∷ "role_ids" ∷ "task_id_pattern" ∷ []

-- The pinned references of a profile and its policy, the last that are read.
abbrev pub Pins : Type 0
Pins = Option Pinned × Option Pinned × Option (Pinned × Pinned) × Option Pinned × Policy

unfoldable pub read_pins : Fields → Fallible Fault Pins
unfolding pinned_below read_contracts read_policy
read_pins fs =
    optional fs "project_context" (
      pinned_below "project_context" "context/manifests/"
        "project_context must point below context/manifests")
    >>= λ context.
        optional fs "agent_registry"
          (pinned_below "agent_registry" "agents/" "agent_registry must point below agents")
        >>= λ registry. optional fs "professional_contracts" read_contracts >>= λ contracts.
            optional fs "research_adapters" (
              pinned_below "research_adapters" "contracts/"
                "research_adapters must point below contracts")
            >>= λ adapters. (value_of fs "writer" >>= read_policy) >>= λ policy.
                done (context, registry, contracts, adapters, policy)

abbrev pub with_pins :
    String
    → String
    → String
    → Option (List String)
    → Option (List String)
    → Option (List String)
    → Pins
    → Profile
with_pins revision project root roles routes mandatory
      (context, registry, contracts, adapters, writer) =
    record {
      profile_revision = revision;
      project_id = project;
      root_role_id = root;
      role_ids = roles;
      enabled_routes = routes;
      mandatory_roles = mandatory;
      project_context = context;
      agent_registry = registry;
      professional_contracts = contracts;
      research_adapters = adapters;
      policy = writer;
    }

-- The names of a profile are read before its pinned references.
unfoldable pub read_profile : (String → Bool) → Fields → Fallible Fault Profile
unfolding read_mandatory check_pattern read_pins
read_profile compiles fs = identifier fs "profile_revision" >>= λ revision.
    identifier fs "project_id" >>= λ project. identifier fs "root_role_id" >>= λ root.
    optional fs "role_ids" (λ v. validate_portable_ids v "role_ids") >>= λ roles.
    optional fs "enabled_routes" (λ v. validate_portable_ids v "enabled_routes") >>= λ routes.
    optional fs "mandatory_roles" (read_mandatory roles) >>= λ mandatory.
    optional fs "task_id_pattern" (check_pattern compiles)
    >> optional fs "product_motion"
        (λ v. portable v (writer_error "product_motion has an invalid portable identifier" []))
    >> read_pins fs
    >>= λ pins. done (with_pins revision project root roles routes mandatory pins)

unfoldable pub load_project_profile : (String → Bool) → Fields → Fallible Fault Profile
unfolding read_profile require_exact_keys
load_project_profile compiles fs =
    require_exact_keys fs required_profile_fields optional_profile_fields "project profile"
    >> (value_of fs "profile_version" >>= λ v.
        check (equals_text "1.0" v) (writer_error "Unsupported project profile version" []))
    >> read_profile compiles fs
