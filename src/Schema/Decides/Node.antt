-- ===== src/Schema/Decides/Node.antt =====
-- `SubsetValidator` of pipeline/validate_json_suites.py on a schema that its constructor has
-- checked.
use growth_clockwork.Prelude.{ℕ, zero, suc, ◌≡◌, refl, true, false, arith, codes, ap, ◌∙◌}
use growth_clockwork.Prelude.Fallible.{done, ◌>>◌}
use growth_clockwork.Json.{Json, null, bool, num, str, arr, obj, Fields}
use growth_clockwork.Schema.{Place, Library}
use growth_clockwork.Schema.Check.{
  Checker, check_keyword, check_type, check_required, check_properties, check_enum, check_counts,
  check_count, check_range, check_bound, check_pattern, check_format, check_branches, check_under,
  check_values, check_subschemas, check_node, check_schema, check_schema_keywords,
}
use growth_clockwork.Schema.Validate.{
  Errors, Validator, has_no_error, validate_kind, validate_node, validate_schema, validate,
}
use growth_clockwork.Schema.Conforms.{Accepts, accepts_kind, accepts_node, conforms}
use growth_clockwork.Schema.Decides.{Decides, Agree, collect-Decides, done-Decides, both-done}
use growth_clockwork.Schema.Decides.Value.{value-Decides}
use growth_clockwork.Schema.Decides.Object.{object-Decides}
use growth_clockwork.Schema.Decides.Array.{array-Decides}
use growth_clockwork.Schema.Decides.Scalar.{string-Decides, number-Decides}
use growth_clockwork.Schema.Decides.Branches.{branches-Decides}

-- The checks that the validation relies on.
record Passed (lib : Library) (chk : Checker) (at : Place) (fs : Fields) : Type 0 where
  types : check_keyword "type" fs (check_type at) ≡ done tt
  required : check_keyword "required" fs (check_required at) ≡ done tt
  properties : check_keyword "properties" fs (check_properties chk at) ≡ done tt
  choices : check_keyword "enum" fs (check_enum at) ≡ done tt
  counts : check_counts at fs ≡ done tt
  range : check_range at fs ≡ done tt
  patterns : check_keyword "pattern" fs (check_pattern lib at) ≡ done tt
  formats : check_keyword "format" fs (check_format at) ≡ done tt

values-Passed :
    (lib : Library) (chk : Checker) (at : Place) (fs : Fields)
    → check_values lib chk at fs ≡ done tt
    → Passed lib chk at fs
unfolding check_values
values-Passed lib chk at fs h =
    let (h1, formats) = both-done _ _ h in
    let (h2, patterns) = both-done _ _ h1 in
    let (h3, unique) = both-done _ _ h2 in
    let (h4, range) = both-done _ _ h3 in
    let (h5, limits) = both-done _ _ h4 in
    let (h6, counts) = both-done _ _ h5 in
    let (h7, choices) = both-done _ _ h6 in
    let (h8, additional) = both-done _ _ h7 in
    let (h9, properties) = both-done _ _ h8 in
    let (h10, required) = both-done _ _ h9 in
    let (h11, types) = both-done _ _ h10 in
    record {
      types = types;
      required = required;
      properties = properties;
      choices = choices;
      counts = counts;
      range = range;
      patterns = patterns;
      formats = formats;
    }

record Counted (at : Place) (fs : Fields) : Type 0 where
  shortest : check_count at fs "minLength" ≡ done tt
  fewest : check_count at fs "minItems" ≡ done tt
  most : check_count at fs "maxItems" ≡ done tt
  least_found : check_count at fs "minContains" ≡ done tt
  most_found : check_count at fs "maxContains" ≡ done tt

counts-Counted : (at : Place) (fs : Fields) → check_counts at fs ≡ done tt → Counted at fs
unfolding check_counts
counts-Counted at fs h =
    let (h1, most_found) = both-done _ _ h in
    let (h2, least_found) = both-done _ _ h1 in
    let (h3, most) = both-done _ _ h2 in
    let (shortest, fewest) = both-done _ _ h3 in
    record {
      shortest = shortest;
      fewest = fewest;
      most = most;
      least_found = least_found;
      most_found = most_found;
    }

range-bounds :
    (at : Place) (fs : Fields)
    → check_range at fs ≡ done tt
    → (check_bound at fs "minimum" ≡ done tt) × (check_bound at fs "maximum" ≡ done tt)
unfolding check_range
range-bounds at fs h = let (h1, order) = both-done _ _ h in both-done _ _ h1

-- The checks of the schemas under a node.
record Under (chk : Checker) (at : Place) (fs : Fields) : Type 0 where
  all_of : check_keyword "allOf" fs (check_branches chk at "allOf") ≡ done tt
  one_of : check_keyword "oneOf" fs (check_branches chk at "oneOf") ≡ done tt
  each : check_under chk at fs "items" ≡ done tt
  some_item : check_under chk at fs "contains" ≡ done tt
  condition : check_under chk at fs "if" ≡ done tt
  first : check_under chk at fs "then" ≡ done tt
  second : check_under chk at fs "else" ≡ done tt

subschemas-Under :
    (chk : Checker) (at : Place) (fs : Fields)
    → check_subschemas chk at fs ≡ done tt
    → Under chk at fs
unfolding check_subschemas
subschemas-Under chk at fs h =
    let (h1, second) = both-done _ _ h in
    let (h2, first) = both-done _ _ h1 in
    let (h3, condition) = both-done _ _ h2 in
    let (h4, some_item) = both-done _ _ h3 in
    let (h5, each) = both-done _ _ h4 in
    let (h6, needs) = both-done _ _ h5 in
    let (all_of, one_of) = both-done _ _ h6 in
    record {
      all_of = all_of;
      one_of = one_of;
      each = each;
      some_item = some_item;
      condition = condition;
      first = first;
      second = second;
    }

module _ (lib : Library) (chk : Checker) (val : Validator) (acc : Accepts)
    (agree : Agree chk val acc) where
  kind-Decides :
      (at : Place) (v : Json) (fs : Fields) (ip sp : Place)
      → Passed lib chk at fs
      → Under chk at fs
      → Decides (validate_kind lib val v fs ip sp) (accepts_kind lib acc v fs)
  unfolding validate_kind accepts_kind
  kind-Decides at (obj gs) fs ip sp p u =
      object-Decides chk val acc agree at gs fs ip sp p.required p.properties
  kind-Decides at (arr vs) fs ip sp p u =
      let c = counts-Counted at fs p.counts in
      array-Decides chk val acc agree at vs fs ip sp c.fewest c.most u.each u.some_item
        c.least_found c.most_found
  kind-Decides at (str s) fs ip sp p u =
      let c = counts-Counted at fs p.counts in
      string-Decides lib at s fs ip sp c.shortest p.patterns p.formats
  kind-Decides at (num n) fs ip sp p u =
      let (minimum, maximum) = range-bounds at fs p.range in
      number-Decides at n fs ip sp minimum maximum
  kind-Decides at (bool b) fs ip sp p u = done-Decides
  kind-Decides at null fs ip sp p u = done-Decides

  node-Decides :
      (at : Place) (v s : Json) (ip sp : Place)
      → check_node lib chk at s ≡ done tt
      → Decides (validate_node lib val v s ip sp) (accepts_node lib acc v s)
  unfolding check_node validate_node accepts_node
  node-Decides at v (bool true) ip sp h = done-Decides
  node-Decides at v (bool false) ip sp h = (_, refl, refl)
  node-Decides at v (obj fs) ip sp h =
      let (values, subs) = both-done _ _ h in
      let p = values-Passed lib chk at fs values in
      let u = subschemas-Under chk at fs subs in
      collect-Decides _ _ _ _ (value-Decides at v fs ip sp p.types p.choices) (
        collect-Decides _ _ _ _ (kind-Decides at v fs ip sp p u) (
          branches-Decides chk val acc agree at v fs ip sp u.all_of u.one_of u.condition u.first
            u.second))
  node-Decides at v _ ip sp h = ground arith

schema-Agree :
    (lib : Library) (f : ℕ) → Agree (check_schema lib f) (validate_schema lib f) (conforms lib f)
unfolding check_schema validate_schema conforms
schema-Agree lib zero s at h v ip sp = ground arith
schema-Agree lib (suc f) s at h v ip sp =
    node-Decides lib (check_schema lib f) (validate_schema lib f) (conforms lib f)
      (schema-Agree lib f) at v s ip sp h

-- A schema that passes its check is one that no validation raises on: it returns its errors,
-- and there is none exactly where the value conforms to the schema.
pub validate-conforms :
    (lib : Library) (fuel : ℕ) (schema v : Json)
    → check_schema_keywords lib fuel schema ≡ done tt
    → (es : Errors) × (validate lib fuel schema v ≡ done es)
      × (has_no_error es ≡ conforms lib fuel v schema)
unfolding validate check_schema_keywords
validate-conforms lib fuel schema v h =
    let (es, returns, decides) =
      schema-Agree lib fuel schema (codes "#") h v (codes "$") (codes "#") in
    (
      es,
      ap (λ m. m >> validate_schema lib fuel v schema (codes "$") (codes "#")) h ∙ returns,
      decides,
    )
