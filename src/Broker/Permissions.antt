-- ===== src/Broker/Permissions.antt =====
-- `TaskBroker.permissions` and the digests of pipeline/task_broker.py.
use growth_clockwork.Prelude.{
  ℕ, String, Bool, true, false, Option, none, some, List, ◌&&◌, ◌||◌, str_eq, not, is_blank, codes,
  length, leb, if◌then◌else◌,
}
use growth_clockwork.Json.{Json, bool, str, obj, Fields, end, field, get_field, index}
use growth_clockwork.Json.Canonical.{canonical}
use growth_clockwork.Broker.Session.{Env, Action, broker_error, or_raise}

-- `isinstance(value, str) and value.strip() and len(value) <= 2048`, of a text
unfoldable pub is_text : String → Bool
is_text s = not (is_blank s) && leb (length (codes s)) 2048

-- The dict that `permissions` returns.
pub record Permissions : Type 0 where
  pub agent_id : String
  pub browser : String
  pub credentials : String
  pub publish_mode : String

unfoldable pub expected_credentials : String → String
expected_credentials agent =
    if str_eq agent "publisher" then "per-channel-connector-only" else "none"

abbrev is_publish_mode : String → Bool
is_publish_mode p = str_eq p "off" || (str_eq p "review" || str_eq p "automatic")

-- `grant.get('enabled', True) is True`
abbrev is_enabled : Fields → Bool
is_enabled grant = elim (get_field "enabled" grant) [
  | none ↦ true
  | some v ↦ elim v [ bool b ↦ b | _ ↦ false ]
]

abbrev text_of : Option Json → Option String
text_of none = none
text_of (some v) = elim v [ str s ↦ some s | _ ↦ none ]

unfoldable pub check_grant : String → Fields → String → String → Bool
unfolding expected_credentials
check_grant agent grant browser credentials =
    is_enabled grant
    && ((str_eq browser "none" || str_eq browser "read-only")
        && (str_eq credentials (expected_credentials agent)
            && not (str_eq agent "publisher" && not (str_eq browser "none"))))

abbrev grant_of : Option Json → String → Option Fields
grant_of none agent = none
grant_of (some agents) agent = elim (index agents agent) [
  | none ↦ none
  | some g ↦ elim g [ obj fs ↦ some fs | _ ↦ none ]
]

-- The checks on a grant whose members are there.
abbrev granted :
    String → Fields → Option String → Option String → Option String → Option Permissions
granted agent grant (some publish) (some browser) (some credentials) =
    if is_publish_mode publish && check_grant agent grant browser credentials
    then some (record {
      agent_id = agent;
      browser = browser;
      credentials = expected_credentials agent;
      publish_mode = publish;
    })
    else none
granted agent grant _ _ _ = none

-- `none` where Python raises OSError, ValueError, KeyError or TypeError inside the `try`.
unfoldable pub read_permissions : String → Option Json → Option Permissions
unfolding check_grant
read_permissions agent none = none
read_permissions agent (some config) = elim (grant_of (index config "agents") agent) [
  | none ↦ none
  | some grant ↦
      granted agent grant (text_of (index config "publish")) (text_of (get_field "browser" grant))
        (text_of (get_field "credentials" grant))
]

abbrev pub permissions : String → Action Permissions
permissions agent s =
    or_raise (read_permissions agent s.config)
      (broker_error "Missing, invalid or unsupported agent permission") s

-- The canonical text of the projection, as bytes.
unfoldable pub projection : Permissions → List ℕ
projection p = canonical (
    obj (
      field "agent_id" (str p.agent_id) (
        field "browser" (str p.browser) (
          field "credentials" (str p.credentials)
            (field "publish_mode" (str p.publish_mode) end)))))

-- `hashlib.sha256(projection.encode()).hexdigest()`: the identity of a permission snapshot.
unfoldable pub snapshot_id : Env → Permissions → String
snapshot_id env p = env.sha256 (projection p)
