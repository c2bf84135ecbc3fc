-- ===== src/Schema/Validate/Object.antt =====
-- The keywords of `SubsetValidator._validate` of pipeline/validate_json_suites.py for objects.
use growth_clockwork.Prelude.{
  String, Bool, true, false, not, Option, none, some, List, [], ◌∷◌, map, keep, distinct,
  sort_texts, if◌then◌else◌,
}
use growth_clockwork.Prelude.Fallible.{Fallible, done, failed}
use growth_clockwork.Json.{
  Json, bool, str, arr, obj, Fields, end, field, get_field, has_field, keys,
}
use growth_clockwork.Schema.{
  Fault, Place, type_error, refuse, ValidationError, collect, when, texts_of, schema_path,
  property_path,
}
use growth_clockwork.Schema.Validate.Value.{error, Errors, Validator}

unfoldable pub missing_errors : Fields → Place → Place → List String → Errors
missing_errors gs ip sp [] = []
missing_errors gs ip sp (n ∷ ns) =
    let rest = missing_errors gs ip sp ns in
    if has_field gs n
    then rest
    else error ip sp "required" "missing required property {}" (str n ∷ []) ∷ rest

unfoldable pub validate_required : Fields → Place → Place → Json → Fallible Fault Errors
unfolding missing_errors
validate_required gs ip sp (arr ns) = elim (texts_of ns) [
  | none ↦ refuse "required at {} must be a string array" sp
  | some names ↦ done (missing_errors gs ip sp names)
]
validate_required gs ip sp _ = refuse "required at {} must be a string array" sp

unfoldable pub validate_each_property :
    Validator → Fields → Place → Place → Fields → Fallible Fault Errors
validate_each_property step gs ip sp end = done []
validate_each_property step gs ip sp (field name sub ps) =
    collect
      (when (get_field name gs) (done [])
        (λ w. step w sub (property_path ip name) (schema_path (schema_path sp "properties") name)))
      (validate_each_property step gs ip sp ps)

unfoldable pub validate_properties :
    Validator → Fields → Place → Place → Json → Fallible Fault Errors
unfolding validate_each_property
validate_properties step gs ip sp (obj ps) = validate_each_property step gs ip sp ps
validate_properties step gs ip sp _ = failed type_error

-- `schema.get("properties", {})`, of which the validation has stopped where it is no object.
abbrev pub properties_of : Option Json → Fields
properties_of (some (obj ps)) = ps
properties_of _ = end

-- `sorted(set(instance) - set(properties))`
unfoldable pub unexpected : Fields → Fields → List String
unexpected gs ps = sort_texts (distinct (keep (λ n. not (has_field ps n)) (keys gs)))

abbrev pub unexpected_error : Place → Place → String → ValidationError
unexpected_error ip sp n =
    error (property_path ip n) sp "additionalProperties" "unexpected property {}" (str n ∷ [])

abbrev pub is_false : Json → Bool
is_false (bool false) = true
is_false _ = false

abbrev pub is_true : Json → Bool
is_true (bool true) = true
is_true _ = false

unfoldable pub validate_additional : Fields → Fields → Place → Place → Json → Fallible Fault Errors
validate_additional gs ps ip sp v =
    if is_false v then done (map (unexpected_error ip sp) (unexpected gs ps)) else done []

-- The keywords that are read where the instance is an object.
unfoldable pub validate_object : Validator → Fields → Fields → Place → Place → Fallible Fault Errors
unfolding validate_required validate_properties validate_additional
validate_object step gs fs ip sp =
    collect (when (get_field "required" fs) (done []) (validate_required gs ip sp)) (
      collect (when (get_field "properties" fs) (done []) (validate_properties step gs ip sp)) (
        when (get_field "additionalProperties" fs) (done [])
          (validate_additional gs (properties_of (get_field "properties" fs)) ip sp)))
