-- ===== src/Schema/Equal.antt =====
-- `_json_equal` and `_instance_type_matches` of pipeline/validate_json_suites.py.
use growth_clockwork.Prelude.{
  String, Bool, true, false, ◌&&◌, none, some, [], ◌∷◌, ◌==◌, all, str_eq, if◌then◌else◌,
}
use growth_clockwork.Prelude.Int.{ℤ, pos, negsuc}
use growth_clockwork.Prelude.Fallible.{Fallible, done, failed}
use growth_clockwork.Json.{
  Json, null, bool, num, str, arr, obj, Items, nil, cons, Fields, end, field, get_field, has_field,
  keys,
}
use growth_clockwork.Schema.{Fault, config}

abbrev pub bool_eq : Bool → Bool → Bool
bool_eq true b = b
bool_eq false true = false
bool_eq false false = true

abbrev pub int_eq : ℤ → ℤ → Bool
int_eq (pos m) (pos n) = m == n
int_eq (negsuc m) (negsuc n) = m == n
int_eq _ _ = false

-- `left.keys() == right.keys()`
unfoldable pub has_same_keys : Fields → Fields → Bool
has_same_keys fs gs = all (has_field gs) (keys fs) && all (has_field fs) (keys gs)

unfoldable mutual
  unfolding has_same_keys

  pub json_equal : Json → Json → Bool
  json_equal null null = true
  json_equal (bool a) (bool b) = bool_eq a b
  json_equal (num a) (num b) = int_eq a b
  json_equal (str a) (str b) = str_eq a b
  json_equal (arr xs) (arr ys) = items_equal xs ys
  json_equal (obj fs) (obj gs) = has_same_keys fs gs && fields_equal fs gs
  json_equal _ _ = false

  -- Of the same length, and equal at each place.
  pub items_equal : Items → Items → Bool
  items_equal nil nil = true
  items_equal (cons x xs) (cons y ys) = json_equal x y && items_equal xs ys
  items_equal _ _ = false

  -- `all(_json_equal(left[key], right[key]) for key in left)`
  pub fields_equal : Fields → Fields → Bool
  fields_equal end gs = true
  fields_equal (field k v fs) gs =
      elim (get_field k gs) [ none ↦ false | some w ↦ json_equal v w ] && fields_equal fs gs

-- `any(_json_equal(value, prior) for prior in priors)`
unfoldable pub is_among : Json → Items → Bool
unfolding json_equal
is_among v nil = false
is_among v (cons w ws) = if json_equal v w then true else is_among v ws

abbrev is_null : Json → Bool
is_null null = true
is_null _ = false

abbrev is_bool : Json → Bool
is_bool (bool b) = true
is_bool _ = false

abbrev is_obj : Json → Bool
is_obj (obj fs) = true
is_obj _ = false

abbrev is_arr : Json → Bool
is_arr (arr vs) = true
is_arr _ = false

abbrev is_str : Json → Bool
is_str (str s) = true
is_str _ = false

abbrev is_num : Json → Bool
is_num (num n) = true
is_num _ = false

-- The numbers of the model are integers, so "number" and "integer" are one test.
unfoldable pub instance_type_matches : Json → String → Fallible Fault Bool
instance_type_matches v expected =
    if str_eq expected "null"
    then done (is_null v)
    else if str_eq expected "boolean"
    then done (is_bool v)
    else if str_eq expected "object"
    then done (is_obj v)
    else if str_eq expected "array"
    then done (is_arr v)
    else if str_eq expected "string"
    then done (is_str v)
    else if str_eq expected "number"
    then done (is_num v)
    else if str_eq expected "integer"
    then done (is_num v)
    else failed (config "unsupported JSON Schema type: {}" (expected ∷ []) [])
