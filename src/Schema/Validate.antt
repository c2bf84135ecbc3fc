-- ===== src/Schema/Validate.antt =====
-- `SubsetValidator` of pipeline/validate_json_suites.py: the validation of an instance against a
-- schema. The children hold the keywords for each kind of instance.
mod Value
mod Object
mod Array
unfoldable pub use Array.{
  duplicate_error, validate_unique, validate_items, count_matches, is_outside, validate_contains,
  validate_array, validate_pattern, validate_format, validate_string, validate_number,
}
pub use Array.{item_count, not_below, not_above, default_minimum, above}
unfoldable pub use Object.{
  missing_errors, validate_required, validate_each_property, validate_properties, unexpected,
  validate_additional, validate_object,
}
pub use Object.{properties_of, unexpected_error, is_false, is_true}
unfoldable pub use Value.{error, any_type_matches, validate_type, validate_const, validate_enum}
pub use Value.{Errors, Validator, report, has_no_error}
use growth_clockwork.Prelude.{
  ℕ, zero, suc, String, Bool, true, false, not, Option, none, some, List, [], ◌∷◌, map, ◌==◌, keep,
  distinct, sort_texts, if◌then◌else◌, codes, length,
}
use growth_clockwork.Prelude.Int.{pos}
use growth_clockwork.Prelude.Fallible.{Fallible, done, failed, ◌>>=◌, ◌>>◌}
use growth_clockwork.Json.{
  Json, null, bool, num, str, arr, obj, Items, nil, cons, Fields, end, field, get_field, has_field,
  keys,
}
use growth_clockwork.Schema.{
  Fault, Place, type_error, out_of_fuel, refuse, ValidationError, Library, collect, when, texts_of,
  as_items, is_greater, schema_path, schema_index, property_path, item_path, is_rfc3339_datetime,
}
use growth_clockwork.Schema.Equal.{json_equal, is_among, instance_type_matches}
use growth_clockwork.Schema.Check.{equals_text, check_schema_keywords}

unfoldable pub validate_each_branch :
    Validator → Json → Place → Place → ℕ → Items → Fallible Fault Errors
validate_each_branch step v ip sp i nil = done []
validate_each_branch step v ip sp i (cons sub subs) =
    collect (step v sub ip (schema_index sp i)) (validate_each_branch step v ip sp (suc i) subs)

unfoldable pub validate_all_of : Validator → Json → Place → Place → Json → Fallible Fault Errors
unfolding validate_each_branch
validate_all_of step v ip sp (arr subs) =
    validate_each_branch step v ip (schema_path sp "allOf") 0 subs
validate_all_of step v ip sp _ = failed type_error

-- How many branches have no error.
unfoldable pub count_branches : Validator → Json → Place → Place → ℕ → Items → Fallible Fault ℕ
count_branches step v ip sp i nil = done 0
count_branches step v ip sp i (cons sub subs) = step v sub ip (schema_index sp i) >>= λ es.
    count_branches step v ip sp (suc i) subs >>= λ n. done (if has_no_error es then suc n else n)

unfoldable pub validate_one_of : Validator → Json → Place → Place → Json → Fallible Fault Errors
unfolding count_branches
validate_one_of step v ip sp (arr subs) =
    count_branches step v ip (schema_path sp "oneOf") 0 subs >>= λ n.
    report (n == 1)
      (error ip sp "oneOf" "expected exactly one matching branch, found {}" (num (pos n) ∷ []))
validate_one_of step v ip sp _ = failed type_error

abbrev pub selected : Bool → String
selected b = if b then "then" else "else"

unfoldable pub validate_if :
    Validator → Json → Fields → Place → Place → Json → Fallible Fault Errors
validate_if step v fs ip sp sub = step v sub ip (schema_path sp "if") >>= λ es.
    when (get_field (selected (has_no_error es)) fs) (done [])
      (λ chosen. step v chosen ip (schema_path sp (selected (has_no_error es))))

-- The keywords that are read whatever the instance is, before and after those of its kind.
unfoldable pub validate_value : Json → Fields → Place → Place → Fallible Fault Errors
unfolding validate_type validate_const validate_enum
validate_value v fs ip sp = collect (when (get_field "type" fs) (done []) (validate_type v ip sp)) (
    collect (when (get_field "const" fs) (done []) (validate_const v ip sp))
      (when (get_field "enum" fs) (done []) (validate_enum v ip sp)))

unfoldable pub validate_branches : Validator → Json → Fields → Place → Place → Fallible Fault Errors
unfolding validate_all_of validate_one_of validate_if
validate_branches step v fs ip sp =
    collect (when (get_field "allOf" fs) (done []) (validate_all_of step v ip sp)) (
      collect (when (get_field "oneOf" fs) (done []) (validate_one_of step v ip sp))
        (when (get_field "if" fs) (done []) (validate_if step v fs ip sp)))

unfoldable pub validate_kind :
    Library → Validator → Json → Fields → Place → Place → Fallible Fault Errors
unfolding validate_object validate_array validate_string validate_number
validate_kind lib step (obj gs) fs ip sp = validate_object step gs fs ip sp
validate_kind lib step (arr vs) fs ip sp = validate_array step vs fs ip sp
validate_kind lib step (str s) fs ip sp = validate_string lib s fs ip sp
validate_kind lib step (num n) fs ip sp = validate_number (num n) fs ip sp
validate_kind lib step _ fs ip sp = done []

unfoldable pub validate_node : Library → Validator → Validator
unfolding validate_value validate_kind validate_branches
validate_node lib step v (bool true) ip sp = done []
validate_node lib step v (bool false) ip sp = done (
    record {
      instance_path = ip;
      schema_path = sp;
      rule = "falseSchema";
      message = "value is forbidden";
      values = [];
    }
    ∷ [])
validate_node lib step v (obj fs) ip sp =
    collect (validate_value v fs ip sp)
      (collect (validate_kind lib step v fs ip sp) (validate_branches step v fs ip sp))
validate_node lib step v _ ip sp = failed type_error

-- `SubsetValidator._validate`
unfoldable pub validate_schema : Library → ℕ → Validator
unfolding validate_node
validate_schema lib zero v s ip sp = failed out_of_fuel
validate_schema lib (suc f) v s ip sp = validate_node lib (validate_schema lib f) v s ip sp

-- `SubsetValidator(schema).validate(instance)`: the constructor checks the schema.
unfoldable pub validate : Library → ℕ → Json → Json → Fallible Fault Errors
unfolding validate_schema check_schema_keywords
validate lib fuel schema v =
    check_schema_keywords lib fuel schema
    >> validate_schema lib fuel v schema (codes "$") (codes "#")
