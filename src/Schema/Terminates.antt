-- ===== src/Schema/Terminates.antt =====
-- How `_check_schema_keywords` and `SubsetValidator` of pipeline/validate_json_suites.py end.
use growth_clockwork.Prelude.{
  ℕ, zero, suc, ◌≡◌, ◌≤◌, ◌<◌, String, arith, codes, refl, ap, ◌∙◌, ◌⊎◌, ◌≢◌, inl, inr,
}
use growth_clockwork.Prelude.Fallible.{done, failed, ◌>>◌}
use growth_clockwork.Json.{
  Json, null, bool, num, str, arr, obj, Items, nil, cons, Fields, end, field,
}
use growth_clockwork.Schema.{Fault, Place, Library, out_of_fuel, schema_path, schema_index}
use growth_clockwork.Schema.Check.{
  Checked, Checker, check_keyword, check_properties, check_each_property, check_branches,
  check_each_branch, check_under, check_values, check_subschemas, check_node, check_schema,
  check_schema_keywords, check_additional, check_unique, check_format, check_conditional,
}
use growth_clockwork.Schema.Validate.{Errors, validate, validate_schema}
use growth_clockwork.Schema.Decides.Node.{validate-conforms}
use growth_clockwork.Schema.Depth.{
  depth, items_depth, fields_depth, max_parts_below, get_field-depth,
}
use growth_clockwork.Schema.Settles.{
  Settles, then-Settles, check-Settles, keyword-Settles, names-Settles, annotations-Settles,
  type-Settles, required-Settles, enum-Settles, counts-Settles, limits-Settles, range-Settles,
  pattern-Settles,
}

-- A checker that has the fuel for the schemas that are less deep than a bound.
abbrev Bounded : Checker → ℕ → Type 0
Bounded chk n = (at : Place) (s : Json) → depth s < n → Settles (chk at s)

below : {a b c : ℕ} → a ≤ b → b < c → a < c
below h k = omega arith

module _ (chk : Checker) (n : ℕ) (bounded : Bounded chk n) where
  each_property-Settles :
      (at : Place) (ps : Fields) → fields_depth ps < n → Settles (check_each_property chk at ps)
  unfolding check_each_property depth
  each_property-Settles at end d h = ground arith
  each_property-Settles at (field name sub ps) d h =
      let (here, rest) = max_parts_below (depth sub) (fields_depth ps) n d in
      then-Settles _ _ (bounded (schema_path (schema_path at "properties") name) sub here)
        (each_property-Settles at ps rest) h

  properties-Settles : (at : Place) (v : Json) → depth v < n → Settles (check_properties chk at v)
  unfolding check_properties depth
  properties-Settles at (obj ps) d h = each_property-Settles at ps (omega arith) h
  properties-Settles at _ d h = ground arith

  each_branch-Settles :
      (at : Place) (i : ℕ) (subs : Items)
      → items_depth subs < n
      → Settles (check_each_branch chk at i subs)
  unfolding check_each_branch depth
  each_branch-Settles at i nil d h = ground arith
  each_branch-Settles at i (cons sub subs) d h =
      let (here, rest) = max_parts_below (depth sub) (items_depth subs) n d in
      then-Settles _ _ (bounded (schema_index at i) sub here)
        (each_branch-Settles at (suc i) subs rest) h

  branches-Settles :
      (at : Place) (k : String) (v : Json) → depth v < n → Settles (check_branches chk at k v)
  unfolding check_branches depth
  branches-Settles at k (arr (cons sub subs)) d h =
      each_branch-Settles (schema_path at k) 0 (cons sub subs) (omega arith) h
  branches-Settles at k (arr nil) d h = ground arith
  branches-Settles at k null d h = ground arith
  branches-Settles at k (bool b) d h = ground arith
  branches-Settles at k (num m) d h = ground arith
  branches-Settles at k (str s) d h = ground arith
  branches-Settles at k (obj fs) d h = ground arith

  under-Settles :
      (at : Place) (fs : Fields) (k : String)
      → fields_depth fs < n
      → Settles (check_under chk at fs k)
  under-Settles at fs k d =
      keyword-Settles k fs (chk (schema_path at k))
        (λ v e. bounded (schema_path at k) v (below (get_field-depth k fs v e) d))

  values-Settles :
      (lib : Library) (at : Place) (fs : Fields)
      → fields_depth fs < n
      → Settles (check_values lib chk at fs)
  unfolding check_values check_additional check_unique check_format
  values-Settles lib at fs d =
      let top = then-Settles _ _ (names-Settles _ at _) (annotations-Settles at fs) in
      let a = then-Settles _ _ top (keyword-Settles "type" fs _ (λ v e. type-Settles at v)) in
      let b = then-Settles _ _ a (keyword-Settles "required" fs _ (λ v e. required-Settles at v)) in
      let c = then-Settles _ _ b (
        keyword-Settles "properties" fs _
          (λ v e. properties-Settles at v (below (get_field-depth "properties" fs v e) d))) in
      let f =
        then-Settles _ _ c
          (keyword-Settles "additionalProperties" fs _ (λ v e. check-Settles _ _ _ at)) in
      let g = then-Settles _ _ f (keyword-Settles "enum" fs _ (λ v e. enum-Settles at v)) in
      let counts = then-Settles _ _ g (counts-Settles at fs) in
      let limits = then-Settles _ _ counts (limits-Settles at fs) in
      let range = then-Settles _ _ limits (range-Settles at fs) in
      let unique =
        then-Settles _ _ range
          (keyword-Settles "uniqueItems" fs _ (λ v e. check-Settles _ _ _ at)) in
      let patterns =
        then-Settles _ _ unique
          (keyword-Settles "pattern" fs _ (λ v e. pattern-Settles lib at v)) in
      then-Settles _ _ patterns (keyword-Settles "format" fs _ (λ v e. check-Settles _ _ _ at))

  subschemas-Settles :
      (at : Place) (fs : Fields) → fields_depth fs < n → Settles (check_subschemas chk at fs)
  unfolding check_subschemas check_conditional
  subschemas-Settles at fs d =
      let branch : (k : String) → Settles (check_keyword k fs (check_branches chk at k)) = λ k.
        keyword-Settles k fs (check_branches chk at k)
          (λ v e. branches-Settles at k v (below (get_field-depth k fs v e) d)) in
      let all = then-Settles _ _ (branch "allOf") (branch "oneOf") in
      let needs = then-Settles _ _ all (check-Settles _ _ _ at) in
      let each = then-Settles _ _ needs (under-Settles at fs "items" d) in
      let contains = then-Settles _ _ each (under-Settles at fs "contains" d) in
      let condition = then-Settles _ _ contains (under-Settles at fs "if" d) in
      let first = then-Settles _ _ condition (under-Settles at fs "then" d) in
      then-Settles _ _ first (under-Settles at fs "else" d)

  node-Settles :
      (lib : Library) (at : Place) (s : Json) → depth s < suc n → Settles (check_node lib chk at s)
  unfolding check_node depth
  node-Settles lib at (obj fs) d h =
      then-Settles _ _ (values-Settles lib at fs (omega arith))
        (subschemas-Settles at fs (omega arith)) h
  node-Settles lib at _ d h = ground arith

schema-Bounded : (lib : Library) (f : ℕ) → Bounded (check_schema lib f) f
unfolding check_schema
schema-Bounded lib zero at s d h = omega arith
schema-Bounded lib (suc f) at s d h =
    node-Settles (check_schema lib f) f (schema-Bounded lib f) lib at s d h

-- With more fuel than the schema is deep, the check of a schema returns or raises an exception of
-- the code: it does not run out of fuel.
check_schema_keywords-terminates :
    (lib : Library) (fuel : ℕ) (schema : Json)
    → depth schema < fuel
    → check_schema_keywords lib fuel schema ≡ failed out_of_fuel
    → ⊥
unfolding check_schema_keywords
check_schema_keywords-terminates lib fuel schema d h =
    schema-Bounded lib fuel (codes "#") schema d h

outcome : (m : Checked) → (m ≡ done tt) ⊎ ((e : Fault) × (m ≡ failed e))
outcome (done u) = inl refl
outcome (failed e) = inr (e, refl)

stopped :
    (lib : Library) (fuel : ℕ) (schema v : Json) (e : Fault)
    → check_schema_keywords lib fuel schema ≡ failed e
    → validate lib fuel schema v ≡ failed e
unfolding validate
stopped lib fuel schema v e h =
    ap (λ m. m >> validate_schema lib fuel v schema (codes "$") (codes "#")) h

-- `SubsetValidator(schema).validate(instance)` either returns its errors, or raises what the
-- constructor raised on the schema: a `SuiteConfigurationError`, a `TypeError` or an
-- `OverflowError`, and never an exception that depends on the instance.
pub validate-total :
    (lib : Library) (fuel : ℕ) (schema v : Json)
    → depth schema < fuel
    → ((es : Errors) × (validate lib fuel schema v ≡ done es))
      ⊎ ((e : Fault) × (check_schema_keywords lib fuel schema ≡ failed e)
          × (validate lib fuel schema v ≡ failed e)
          × (e ≢ out_of_fuel))
validate-total lib fuel schema v d = elim (outcome (check_schema_keywords lib fuel schema)) [
  | inl h ↦ let (es, returns, decides) = validate-conforms lib fuel schema v h in inl (es, returns)
  | inr (e, h) ↦ inr (
    e,
    h,
    stopped lib fuel schema v e h,
    λ same. check_schema_keywords-terminates lib fuel schema d (h ∙ ap (λ e. failed e) same),
  )
]
