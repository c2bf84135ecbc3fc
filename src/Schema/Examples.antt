-- ===== src/Schema/Examples.antt =====
-- Runs of the schema validator, and the instances that its theorems apply to.
use growth_clockwork.Prelude.{
  ◌≡◌, ◌<◌, ◌⊎◌, ◌≢◌, refl, true, false, none, some, [], ◌∷◌, arith, codes, str_eq, sort_texts,
  distinct, keep, if◌then◌else◌,
}
use growth_clockwork.Prelude.Int.{pos}
use growth_clockwork.Prelude.Fallible.{done, failed}
use growth_clockwork.Json.{Json, null, bool, num, str, arr, obj, end, field, items}
use growth_clockwork.Schema.{
  Fault, Library, config, out_of_fuel, is_greater, property_path, schema_path, schema_index,
  item_path,
}
use growth_clockwork.Schema.Equal.{json_equal, is_among, instance_type_matches}
use growth_clockwork.Schema.Check.{
  check_schema_keywords, unlisted, check_type, check_required, check_properties, check_counts,
  check_count_limits, check_range, check_conditional, check_enum, check_unique, check_additional,
}
use growth_clockwork.Schema.Validate.{Errors, has_no_error, validate, error, unexpected}
use growth_clockwork.Schema.Conforms.{conforms}
use growth_clockwork.Schema.Depth.{depth}
use growth_clockwork.Schema.Decides.Node.{validate-conforms}
use growth_clockwork.Schema.Terminates.{validate-total}

-- Patterns that are texts, of which "(" does not compile; one text is a time with a timezone.
abbrev plain : Library
plain = record {
  search = λ p. if str_eq p "(" then none else some (λ s. str_eq s p);
  fromisoformat = λ s. none;
}

abbrev task_schema : Json
task_schema = obj (
    field "type" (str "object") (
      field "required" (arr (items (str "id" ∷ str "kind" ∷ []))) (
        field "properties"
          (obj (
            field "id" (obj (field "type" (str "string") (field "minLength" (num (pos 2)) end))) (
              field "kind" (obj (field "enum" (arr (items (str "a" ∷ str "b" ∷ []))) end)) (
                field "tags"
                  (obj (
                    field "uniqueItems" (bool true)
                      (field "items" (obj (field "type" (str "string") end)) end)))
                  end))))
          (field "additionalProperties" (bool false) end))))

abbrev good_task : Json
good_task = obj (
    field "id" (str "t-1")
      (field "kind" (str "b") (field "tags" (arr (items (str "x" ∷ str "y" ∷ []))) end)))

abbrev bad_task : Json
bad_task =
    obj (field "id" (str "t") (field "tags" (arr (items (num (pos 1) ∷ []))) (field "z" null end)))

task_schema-checked : check_schema_keywords plain 5 task_schema ≡ done tt
unfolding check_schema_keywords unlisted sort_texts distinct keep check_type check_required
    check_properties check_counts check_count_limits check_range check_conditional check_enum
    is_among check_unique check_additional is_greater
task_schema-checked = refl

good_task-run : validate plain 5 task_schema good_task ≡ done []
unfolding validate unlisted sort_texts distinct keep check_type check_required check_properties
    check_counts check_count_limits check_range check_conditional check_enum is_among check_unique
    check_additional instance_type_matches is_greater json_equal unexpected property_path
    schema_path schema_index item_path
good_task-run = refl

-- A missing key, a text that is too short, an item of the wrong type, an unknown key.
bad_task-run :
    validate plain 5 task_schema bad_task
    ≡ done (
        error (codes "$") (codes "#") "required" "missing required property {}" (str "kind" ∷ [])
        ∷ error
            (codes "$.id")
            (codes "#/properties/id")
            "minLength"
            "expected at least {} character(s)"
            (num (pos 2) ∷ [])
        ∷ error
            (codes "$.tags[0]")
            (codes "#/properties/tags/items")
            "type"
            "expected {}"
            (str "string" ∷ [])
        ∷ error
            (codes "$.z")
            (codes "#")
            "additionalProperties"
            "unexpected property {}"
            (str "z" ∷ [])
        ∷ [])
unfolding validate error unlisted sort_texts distinct keep check_type check_required
    check_properties check_counts check_count_limits check_range check_conditional check_enum
    is_among check_unique check_additional instance_type_matches is_greater json_equal unexpected
    property_path schema_path schema_index item_path
bad_task-run = refl

-- A name that is no word is quoted.
property_path-quoted : property_path (codes "$") "a\"é" ≡ codes "$[\"a\\\"é\"]"
unfolding property_path
property_path-quoted = refl

-- `True` and `1` differ; objects are equal whatever the order of their keys.
json_equal-kinds : json_equal (bool true) (num (pos 1)) ≡ false
unfolding json_equal
json_equal-kinds = refl

json_equal-order :
    json_equal
      (obj (field "a" null (field "b" (num (pos 2)) end)))
      (obj (field "b" (num (pos 2)) (field "a" null end)))
    ≡ true
unfolding json_equal
json_equal-order = refl

-- A schema whose limits cross is refused.
crossed-run :
    check_schema_keywords plain 2
      (obj (field "minItems" (num (pos 3)) (field "maxItems" (num (pos 2)) end)))
    ≡ failed (config "minItems exceeds maxItems at {}" [] (codes "#"))
unfolding check_schema_keywords unlisted sort_texts distinct keep check_type check_required
    check_properties check_counts check_count_limits check_range check_conditional check_enum
    is_among check_unique check_additional is_greater
crossed-run = refl

validate-conforms_example :
    (es : Errors) × (validate plain 5 task_schema bad_task ≡ done es)
    × (has_no_error es ≡ conforms plain 5 bad_task task_schema)
validate-conforms_example = validate-conforms plain 5 task_schema bad_task task_schema-checked

task_schema-depth : depth task_schema < 5
unfolding depth
task_schema-depth = omega arith

validate-total_example :
    ((es : Errors) × (validate plain 5 task_schema bad_task ≡ done es))
    ⊎ ((e : Fault) × (check_schema_keywords plain 5 task_schema ≡ failed e)
        × (validate plain 5 task_schema bad_task ≡ failed e)
        × (e ≢ out_of_fuel))
validate-total_example = validate-total plain 5 task_schema bad_task task_schema-depth
