-- ===== src/Schema/Check.antt =====
-- `_check_schema_keywords` of pipeline/validate_json_suites.py, one definition for each group of
-- keywords, on fuel that bounds the depth of the schema.
use growth_clockwork.Prelude.{
  ℕ, zero, suc, String, Bool, true, false, not, ◌||◌, Option, none, some, List, [], ◌∷◌, is_in,
  keep, distinct, sort_texts, str_eq, codes,
}
use growth_clockwork.Prelude.Fallible.{Fallible, done, failed, ◌>>=◌, ◌>>◌, check}
use growth_clockwork.Json.{
  Json, bool, str, arr, obj, Items, nil, cons, Fields, end, field, get_field, keys,
}
use growth_clockwork.Schema.{
  Fault, Place, config, out_of_fuel, refuse, Library, when, is_present, texts_of, as_items,
  has_no_duplicates, is_greater, schema_path, schema_index, is_nonnegative_integer,
  is_finite_number, supported_keywords, supported_uri, supported_types,
}
use growth_clockwork.Schema.Equal.{is_among}

-- What a check returns: nothing, or the exception.
abbrev pub Checked : Type 0
Checked = Fallible Fault (Unit {0})

-- The check of a schema at a place, that the check of a node calls.
abbrev pub Checker : Type 0
Checker = Place → Json → Checked

abbrev pub is_string : Json → Bool
is_string (str s) = true
is_string _ = false

abbrev pub is_boolean : Json → Bool
is_boolean (bool b) = true
is_boolean _ = false

abbrev pub equals_text : String → Json → Bool
equals_text expected (str s) = str_eq s expected
equals_text expected _ = false

-- `sorted(set(names) - allowed)`, refused where there is one.
abbrev pub refuse_names : String → Place → List String → Checked
refuse_names what path [] = done tt
refuse_names what path (n ∷ ns) = failed (config what (n ∷ ns) path)

unfoldable pub unlisted : List String → List String → List String
unlisted allowed names = sort_texts (distinct (keep (λ n. not (is_in n allowed)) names))

-- The check of one keyword, where the schema has it.
abbrev pub check_keyword : String → Fields → (Json → Checked) → Checked
check_keyword k fs f = when (get_field k fs) (done tt) f

abbrev pub check_string : Place → Fields → String → Checked
check_string path fs k =
    check_keyword k fs (λ v. check (is_string v) (config "{} at {} must be a string" (k ∷ []) path))

unfoldable pub check_annotations : Place → Fields → Checked
check_annotations path fs =
    check_keyword "$schema" fs
      (λ v. check (equals_text supported_uri v) (config "unsupported $schema at {}" [] path))
    >> check_string path fs "$id"
    >> check_string path fs "title"
    >> check_string path fs "description"
    >> check_keyword "$id" fs
        (λ v. check (not (equals_text "" v)) (config "$id at {} must not be empty" [] path))

abbrev pub check_type_names : Place → List String → Checked
check_type_names path [] = refuse "type at {} must be a string or non-empty string array" path
check_type_names path (t ∷ ts) =
    check (has_no_duplicates (t ∷ ts)) (config "type at {} contains duplicates" [] path)
    >> refuse_names "unsupported JSON Schema type(s) at {}" path (unlisted supported_types (t ∷ ts))

unfoldable pub check_type : Place → Json → Checked
check_type path v = elim (texts_of (as_items v)) [
  | none ↦ refuse "type at {} must be a string or non-empty string array" path
  | some ts ↦ check_type_names path ts
]

unfoldable pub check_required : Place → Json → Checked
check_required path (arr ns) = elim (texts_of ns) [
  | none ↦ refuse "required at {} must be a string array" path
  | some names ↦
      check (has_no_duplicates names) (config "required at {} contains duplicates" [] path)
]
check_required path _ = refuse "required at {} must be a string array" path

unfoldable pub check_each_property : Checker → Place → Fields → Checked
check_each_property step path end = done tt
check_each_property step path (field name sub ps) =
    step (schema_path (schema_path path "properties") name) sub >> check_each_property step path ps

unfoldable pub check_properties : Checker → Place → Json → Checked
unfolding check_each_property
check_properties step path (obj ps) = check_each_property step path ps
check_properties step path _ = refuse "properties at {} must be an object" path

unfoldable pub check_additional : Place → Json → Checked
check_additional path v =
    check (is_boolean v)
      (config "additionalProperties at {} must be boolean in this supported subset" [] path)

-- The choices before the one that is compared are passed along.
unfoldable pub check_choices : Place → Items → Items → Checked
check_choices path priors nil = done tt
check_choices path priors (cons v vs) =
    check (not (is_among v priors)) (config "enum at {} contains duplicates" [] path)
    >> check_choices path (cons v priors) vs

unfoldable pub check_enum : Place → Json → Checked
unfolding check_choices
check_enum path (arr (cons v vs)) = check_choices path nil (cons v vs)
check_enum path _ = refuse "enum at {} must be a non-empty array" path

abbrev pub check_count : Place → Fields → String → Checked
check_count path fs k = check_keyword k fs (λ v.
    check (is_nonnegative_integer v)
      (config "{} at {} must be a non-negative integer" (k ∷ []) path))

-- A lower and an upper limit, where the schema has both.
unfoldable pub check_order : String → Place → Option Json → Option Json → Checked
check_order what path (some low) (some high) =
    is_greater low high >>= λ crossed. check (not crossed) (config what [] path)
check_order what path _ _ = done tt

unfoldable pub check_counts : Place → Fields → Checked
check_counts path fs =
    check_count path fs "minLength"
    >> check_count path fs "minItems"
    >> check_count path fs "maxItems"
    >> check_count path fs "minContains"
    >> check_count path fs "maxContains"

unfoldable pub check_count_limits : Place → Fields → Checked
unfolding check_order
check_count_limits path fs =
    check_order "minItems exceeds maxItems at {}" path (get_field "minItems" fs)
      (get_field "maxItems" fs)
    >> check
        (not (is_present (get_field "minContains" fs) || is_present (get_field "maxContains" fs))
          || is_present (get_field "contains" fs))
        (config "minContains/maxContains at {} require contains in this supported subset" [] path)
    >> check_order "minContains exceeds maxContains at {}" path (get_field "minContains" fs)
        (get_field "maxContains" fs)

unfoldable pub check_bound : Place → Fields → String → Checked
check_bound path fs k = check_keyword k fs (λ v.
    is_finite_number v >>= λ ok. check ok (config "{} at {} must be a finite number" (k ∷ []) path))

unfoldable pub check_range : Place → Fields → Checked
unfolding check_bound check_order
check_range path fs =
    check_bound path fs "minimum"
    >> check_bound path fs "maximum"
    >> check_order "minimum exceeds maximum at {}" path (get_field "minimum" fs)
        (get_field "maximum" fs)

unfoldable pub check_unique : Place → Json → Checked
check_unique path v = check (is_boolean v) (config "uniqueItems at {} must be boolean" [] path)

unfoldable pub check_pattern : Library → Place → Json → Checked
check_pattern lib path (str p) = elim (Library.search lib p) [
  | none ↦ refuse "invalid regular expression at {}/pattern" path
  | some finds ↦ done tt
]
check_pattern lib path _ = refuse "pattern at {} must be a string" path

unfoldable pub check_format : Place → Json → Checked
check_format path v = check (equals_text "date-time" v) (config "unsupported format at {}" [] path)

unfoldable pub check_each_branch : Checker → Place → ℕ → Items → Checked
check_each_branch step path i nil = done tt
check_each_branch step path i (cons sub subs) =
    step (schema_index path i) sub >> check_each_branch step path (suc i) subs

unfoldable pub check_branches : Checker → Place → String → Json → Checked
unfolding check_each_branch
check_branches step path k (arr (cons sub subs)) =
    check_each_branch step (schema_path path k) 0 (cons sub subs)
check_branches step path k _ = failed (config "{} at {} must be a non-empty array" (k ∷ []) path)

abbrev pub check_under : Checker → Place → Fields → String → Checked
check_under step path fs k = check_keyword k fs (step (schema_path path k))

unfoldable pub check_conditional : Place → Fields → Checked
check_conditional path fs =
    check
      (not (is_present (get_field "then" fs) || is_present (get_field "else" fs))
        || is_present (get_field "if" fs))
      (config "then/else at {} require if in this supported subset" [] path)

-- The checks of the keywords' own values.
unfoldable pub check_values : Library → Checker → Place → Fields → Checked
unfolding check_annotations
check_values lib step path fs =
    refuse_names "unsupported schema keyword(s) at {}" path (unlisted supported_keywords (keys fs))
    >> check_annotations path fs
    >> check_keyword "type" fs (check_type path)
    >> check_keyword "required" fs (check_required path)
    >> check_keyword "properties" fs (check_properties step path)
    >> check_keyword "additionalProperties" fs (check_additional path)
    >> check_keyword "enum" fs (check_enum path)
    >> check_counts path fs
    >> check_count_limits path fs
    >> check_range path fs
    >> check_keyword "uniqueItems" fs (check_unique path)
    >> check_keyword "pattern" fs (check_pattern lib path)
    >> check_keyword "format" fs (check_format path)

-- The checks of the schemas under the node that come after them.
unfoldable pub check_subschemas : Checker → Place → Fields → Checked
check_subschemas step path fs =
    check_keyword "allOf" fs (check_branches step path "allOf")
    >> check_keyword "oneOf" fs (check_branches step path "oneOf")
    >> check_conditional path fs
    >> check_under step path fs "items"
    >> check_under step path fs "contains"
    >> check_under step path fs "if"
    >> check_under step path fs "then"
    >> check_under step path fs "else"

unfoldable pub check_node : Library → Checker → Checker
unfolding check_values check_subschemas
check_node lib step path (bool b) = done tt
check_node lib step path (obj fs) = check_values lib step path fs >> check_subschemas step path fs
check_node lib step path _ = refuse "schema node at {} must be object or boolean" path

unfoldable pub check_schema : Library → ℕ → Checker
unfolding check_node
check_schema lib zero path v = failed out_of_fuel
check_schema lib (suc f) path v = check_node lib (check_schema lib f) path v

-- `_check_schema_keywords(schema)`, at the place `#`.
unfoldable pub check_schema_keywords : Library → ℕ → Json → Checked
unfolding check_schema
check_schema_keywords lib fuel schema = check_schema lib fuel (codes "#") schema
