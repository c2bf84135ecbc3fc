-- ===== src/Schema/Validate/Value.antt =====
-- The keywords of `SubsetValidator._validate` of pipeline/validate_json_suites.py that read the
-- instance itself or its parts.
use growth_clockwork.Prelude.{
  String, Bool, true, false, none, some, List, [], ◌∷◌, map, if◌then◌else◌,
}
use growth_clockwork.Prelude.Fallible.{Fallible, done, ◌>>=◌}
use growth_clockwork.Json.{Json, str, arr, cons}
use growth_clockwork.Schema.{Fault, Place, refuse, ValidationError, texts_of, as_items, schema_path}
use growth_clockwork.Schema.Equal.{json_equal, is_among, instance_type_matches}

abbrev pub Errors : Type 0
Errors = List ValidationError

-- The validation of an instance (first) against a schema, that a node's validation calls.
abbrev pub Validator : Type 0
Validator = Json → Json → Place → Place → Fallible Fault Errors

-- `_error`, at a place in the instance and the place of a keyword under the schema's.
unfoldable pub error : Place → Place → String → String → List Json → ValidationError
error ip sp rule_name text details = record {
  instance_path = ip;
  schema_path = schema_path sp rule_name;
  rule = rule_name;
  message = text;
  values = details;
}

-- One error where the test fails.
abbrev pub report : Bool → ValidationError → Fallible Fault Errors
report true e = done []
report false e = done (e ∷ [])

abbrev pub has_no_error : Errors → Bool
has_no_error [] = true
has_no_error (e ∷ es) = false

unfoldable pub any_type_matches : Json → List String → Fallible Fault Bool
any_type_matches v [] = done false
any_type_matches v (t ∷ ts) =
    instance_type_matches v t >>= λ ok. if ok then done true else any_type_matches v ts

unfoldable pub validate_type : Json → Place → Place → Json → Fallible Fault Errors
unfolding any_type_matches
validate_type v ip sp expected = elim (texts_of (as_items expected)) [
  | none ↦ refuse "type at {} must be string or array" sp
  | some allowed ↦ any_type_matches v allowed >>= λ ok.
      report ok (error ip sp "type" "expected {}" (map str allowed))
]

unfoldable pub validate_const : Json → Place → Place → Json → Fallible Fault Errors
validate_const v ip sp c =
    report (json_equal v c) (error ip sp "const" "expected constant {}" (c ∷ []))

unfoldable pub validate_enum : Json → Place → Place → Json → Fallible Fault Errors
validate_enum v ip sp (arr (cons c cs)) =
    report (is_among v (cons c cs)) (error ip sp "enum" "value is not in the allowed set" [])
validate_enum v ip sp _ = refuse "enum at {} must be a non-empty array" sp
